-- ===== src/Pipe/Watermarks.antt =====
-- The water marks: how far the writer gets ahead of the reader.
use zeromq.Prelude.{
  ℕ, ◌+◌, ◌-◌, ◌%◌, ◌^◌, ◌≤◌, ◌<◌, ◌≡◌, inl, inr, true, not, ◌&&◌, ◌||◌, arith, Bool-cases, pos,
}
use zeromq.Msg.{Msg}
use zeromq.Pipe.{Pipe, Ends, check_hwm, in_flight, is_active}
use zeromq.Pipe.Write.{check_write, write}

-- The counters have 64 bits.
pub record IsCounting (p : Pipe) : Type 0 where
  pub written : p.msgs_written < 2 ^ 64
  pub read : p.peers_msgs_read < 2 ^ 64

next_flight :
    (w r n : ℕ)
    → w < 2 ^ 64
    → r < 2 ^ 64
    → n < 2 ^ 64
    → (w + 2 ^ 64 - r) % 2 ^ 64 < n
    → ((w + 1) % 2 ^ 64 + 2 ^ 64 - r) % 2 ^ 64 ≤ n
next_flight w r n hw hr hn h = omega arith

room_lem : (p : Pipe) (n : ℕ) → p.hwm ≡ pos n → 0 < n → check_hwm p ≡ true → in_flight p < n
unfolding check_hwm
room_lem p n lim h room = ground (arith, rw lim at room)

-- With a limit of n the writer is never more than n messages ahead of what it knows to be read.
pub in_flight-write :
    (m : Msg) (e : Ends) (n : ℕ)
    → IsCounting e.pipe
    → e.pipe.hwm ≡ pos n
    → 0 < n
    → n < 2 ^ 64
    → in_flight e.pipe ≤ n
    → in_flight (write m e).1.pipe ≤ n
unfolding write check_write
in_flight-write m e n c lim above small h =
    elim (Bool-cases (not e.pipe.out_active || not (is_active e.pipe.state))) [
      | inl shut ↦ rw shut h
      | inr fine ↦ elim (Bool-cases (check_hwm e.pipe)) [
        | inr full ↦ rw (fine, full) h
        | inl room ↦ elim (Bool-cases (not m.more && not m.identity)) [
          | inr part ↦ rw (fine, room, part) h
          | inl last ↦
              let less = room_lem e.pipe n lim above room in
              rw (fine, room, last)
                (next_flight e.pipe.msgs_written e.pipe.peers_msgs_read n c.written c.read small
                  less)
        ]
      ]
    ]
