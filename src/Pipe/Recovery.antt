-- ===== src/Pipe/Recovery.antt =====
-- A writer that has no room, and the reader whose reading wakes it.
use native.Mathlib.Nat.{div-add-mod', mod-lt, mul-mod_left}
use zeromq.Prelude.{
  ℕ, ◌+◌, ◌-◌, ◌*◌, ◌/◌, ◌%◌, ◌^◌, ◌≤◌, ◌<◌, ◌≡◌, refl, ap, ◌∙◌, inl, inr, true, false, some, List,
  [], ◌∷◌, ◌++◌, arith, Bool-cases, pos, quotient, ◌+ℤ◌, lt→ltb,
}
use zeromq.Msg.{Msg}
use zeromq.Pipe.{Ends, active, activate_write, compute_lwm, to_int, check_hwm, has_room, in_flight}
use zeromq.Pipe.Read.{is_readable, at_lwm, read, read_message, count_read}
use zeromq.Pipe.Write.{check_write, process_activate_write}

-- The low water mark of a limit of `n`, where `n + 1` is an `int`.
abbrev low : ℕ → ℕ
low n = (n + 1) / 2

compute_lwm_lem : (n : ℕ) → n + 1 < 2 ^ 31 → compute_lwm (pos n) ≡ pos (low n)
unfolding compute_lwm quotient to_int ◌+ℤ◌
compute_lwm_lem n h = rw (lt→ltb (n + 1) (2 ^ 31) h) refl

-- The last count, up to that of the messages written, at which the reader tells the writer.
abbrev pub told_at : ℕ → ℕ → ℕ
told_at n written = written / low n * low n

-- A multiple of the low water mark is passed.
multiple_below : (l w : ℕ) → 0 < l → (w / l * l % l ≡ 0) × (w / l * l ≤ w) × (w < w / l * l + l)
multiple_below l w h =
    let sum : w / l * l + w % l ≡ w = div-add-mod' w l in
    let rest : w % l < l = mod-lt w h in
    (mul-mod_left (w / l) l, omega (arith, sum), omega (arith, sum, rest))

full_lem : (n f : ℕ) → has_room (pos n) f ≡ false → (0 < n) × (n ≤ f)
full_lem n f h = ground arith

-- The next message of the reader is a last part, and neither an identity nor one of the messages that the
-- pipe has for itself.
pub record Reads (r : Ends) (x : Msg) : Type 0 where
  pub active : r.pipe.in_active ≡ true
  pub readable : is_readable r.pipe.state ≡ true
  pub rest : List Msg
  pub next : r.inpipe.content.unread ≡ x ∷ rest
  pub whole : x.more ≡ false
  pub no_identity : x.identity ≡ false
  pub no_credential : x.credential ≡ false
  pub no_delimiter : x.delimiter ≡ false

-- A writer that is at its limit.
pub record IsFull (w : Ends) (n : ℕ) : Type 0 where
  pub state : w.pipe.state ≡ active
  pub limit : w.pipe.hwm ≡ pos n
  pub order : w.pipe.peers_msgs_read ≤ w.pipe.msgs_written
  pub counted : w.pipe.msgs_written < 2 ^ 64
  pub within : in_flight w.pipe ≤ n
  pub full : check_hwm w.pipe ≡ false

-- A reader that comes to a multiple of its low water mark tells the writer.
read_tells :
    (r : Ends) (x : Msg) (l m : ℕ)
    → Reads r x
    → r.pipe.lwm ≡ pos l
    → 0 < l
    → m % l ≡ 0
    → r.pipe.msgs_read + 1 ≡ m
    → m < 2 ^ 64
    → (r' : Ends) × (read r ≡ some (some x, r')) × (r'.sent ≡ r.sent ++ activate_write m ∷ [])
unfolding read read_message count_read
read_tells r x l m h lim above times count small =
    let same : (r.pipe.msgs_read + 1) % 2 ^ 64 ≡ m = omega arith in
    let at : at_lwm (pos l) m ≡ true = ground arith in
    rw
      (
        h.active, h.readable, h.next, h.no_credential, h.no_delimiter, h.whole, h.no_identity, lim,
        same, at,
      )
      (_, refl, refl)

-- A count with which the writer has room.
check_write_room :
    (w : Ends) (m : ℕ)
    → w.pipe.state ≡ active
    → check_hwm (record w.pipe { peers_msgs_read = m }) ≡ true
    → (check_write (process_activate_write m w)).0 ≡ true
unfolding check_write process_activate_write check_hwm
check_write_room w m e room = elim (Bool-cases w.pipe.out_active) [
  | inl y ↦ rw (y, e, room) refl
  | inr n ↦ rw (n, e, room) refl
]

-- An active writer is at its limit of n, and the low water mark of the reader was computed from the same
-- limit, where n + 1 is an int. There is a message after those that the writer knows to be read, and up to the
-- last that it wrote, as follows. When the reader, which is active, reads it as the last part of a message,
-- and it is neither an identity, a credential nor a delimiter, the reader sends the writer its count; and when
-- the writer gets that count it can write again.
pub check_write_recovers :
    (w r : Ends) (n : ℕ) (x : Msg)
    → IsFull w n
    → r.pipe.lwm ≡ compute_lwm w.pipe.hwm
    → n + 1 < 2 ^ 31
    → Reads r x
    → r.pipe.msgs_read + 1 ≡ told_at n w.pipe.msgs_written
    → let m = told_at n w.pipe.msgs_written in
      (w.pipe.peers_msgs_read < m)
      × (m ≤ w.pipe.msgs_written)
      × ((r' : Ends) × (read r ≡ some (some x, r')) × (r'.sent ≡ r.sent ++ activate_write m ∷ []))
      × ((check_write (process_activate_write m w)).0 ≡ true)
unfolding check_hwm
check_write_recovers w r n x f mark int reads count =
    let p = w.pipe in
    let m = told_at n p.msgs_written in
    let flying : in_flight p ≡ p.msgs_written - p.peers_msgs_read =
      omega (arith, f.order, f.counted) in
    let (above, reached) = full_lem n (in_flight p) (let q = f.full in rw f.limit at q) in
    let (times, below, near) = multiple_below (low n) p.msgs_written (omega arith) in
    let later : p.peers_msgs_read < m = omega (arith, f.within, f.order) in
    let room : (p.msgs_written + 2 ^ 64 - m) % 2 ^ 64 < n = omega (arith, f.counted) in
    let small : m < 2 ^ 64 = omega (arith, f.counted) in
    let lim = mark ∙ ap compute_lwm f.limit ∙ compute_lwm_lem n int in
    (
      later,
      below,
      read_tells r x (low n) m reads lim (omega arith) times count small,
      check_write_room w m f.state (rw f.limit (ground (arith, room))),
    )
