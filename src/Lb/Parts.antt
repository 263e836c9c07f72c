-- ===== src/Lb/Parts.antt =====
-- The parts of a message after the first, and a pipe that goes away in between.
use mathlib.Core.Path.{subst}
use Prim.{Unit, tt}
use zeromq.Prelude.{
  ℕ, zero, suc, ◌+◌, ◌<◌, ◌≡◌, ◌≢◌, refl, sym, ap, ◌∙◌, ◌⊎◌, inl, inr, true, false, not, ◌||◌,
  Option, none, some, List, [], ◌∷◌, ◌++◌, map, All, arith, ◌==◌, if◌then◌else◌, ◌>>=◌, Bool-cases,
  Option-cases, lt→ltb,
}
use zeromq.Msg.{Msg}
use zeromq.Pipe.{Ends, check_hwm, is_active}
use zeromq.Pipe.Write.{write, check_write, rollback, flush, all_more, set_out}
use zeromq.Ypipe.Content.{Content}
use zeromq.Array.{Holds}
use zeromq.Ring.{Ring, IsValid, remove}
use zeromq.Ring.Current.{current_pipe, remove_keeps, remove_strays}
use zeromq.Ring.Visit.{Store, set, set_same, set_other}
use zeromq.Lb.{
  Lb, taken, refused, Attempt, attempt, Answer, Result, sent, again, dropped, finish, sendpipe,
  pipe_terminated,
}
use zeromq.Lb.Send.{accepts, written}

-- What follows a part of an unfinished message, from a store: the current pipe takes it and the part is
-- written to it, or the current pipe refuses it and the parts it has of the message are taken back. The
-- other pipes are as they were.
abbrev pub Stays : Msg → Lb → Store → Answer → Result → Type 0
Stays m b s a (sent p) =
    (p ≡ current_pipe b.ring)
    × (accepts m (s p) ≡ true)
    × (a.store p ≡ (if m.more then written m (s p) else flush (written m (s p))))
    × ((q : ℕ) → q ≢ p → a.store q ≡ s q)
    × (a.lb.more ≡ m.more)
    × (m.more ≡ true → current_pipe a.lb.ring ≡ p)
Stays m b s a again =
    let p = current_pipe b.ring in
    (accepts m (s p) ≡ false)
    × (rollback (written m (s p)) ≡ some (a.store p))
    × ((a.store p).outpipe.content.partial ≡ [])
    × ((q : ℕ) → q ≢ p → a.store q ≡ s q)
    × (a.lb.more ≡ false)
Stays m b s a dropped = ⊥

abbrev pub Continued : Msg → Lb → Store → Option Answer → Type 0
Continued m b s none = ⊥
Continued m b s (some a) = Stays m b s a a.result

-- The loop in the middle of a message looks at the current pipe only.
abbrev once : Msg → Ring → Store → Option Attempt
once m r s =
    let p = current_pipe r in
    if accepts m (s p)
    then some (record { outcome = taken p; ring = r; store = set p (written m (s p)) s })
    else (rollback (written m (s p)) >>= λ e.
        some (record { outcome = refused; ring = r; store = set p e s }))

attempt_once : (n : ℕ) (m : Msg) (r : Ring) (s : Store) → 0 < n → attempt n m true r s ≡ once m r s
unfolding attempt
attempt_once zero m r s h = absurd (omega arith)
attempt_once (suc n) m r s h = refl

-- A pipe that refuses keeps the parts it has.
write_refused :
    (m : Msg) (e : Ends)
    → (write m e).0 ≡ false
    → ((write m e).1.outpipe ≡ e.outpipe) × ((write m e).1.pipe.has_out ≡ e.pipe.has_out)
unfolding write check_write
write_refused m e = elim (Bool-cases (not e.pipe.out_active || not (is_active e.pipe.state))) [
  | inl shut ↦ rw shut (λ h. (refl, refl))
  | inr fine ↦ elim (Bool-cases (check_hwm e.pipe)) [
    | inr full ↦ rw (fine, full) (λ h. (refl, refl))
    | inl room ↦ rw (fine, room) (λ h. absurd cc)
  ]
]

rollback_lem :
    (e : Ends)
    → all_more e.outpipe.content.partial ≡ true
    → e.pipe.has_out ≡ true
    → (e' : Ends) × (rollback e ≡ some e') × (e'.outpipe.content.partial ≡ [])
unfolding rollback
rollback_lem e a o =
    let c : Content Msg = record e.outpipe.content { partial = [] } in
    (set_out c e, rw (o, a) refl, refl)

-- The part is in the current pipe, and it is flushed there if it is the last one.
finish_taken :
    (m : Msg) (b : Lb) (s : Store)
    → accepts m (s (current_pipe b.ring)) ≡ true
    → let p = current_pipe b.ring in
      Continued m b s (
        some (
          finish m b
            (record { outcome = taken p; ring = b.ring; store = set p (written m (s p)) s })))
finish_taken m b s ok =
    let p = current_pipe b.ring in
    let w = written m (s p) in
    elim (Bool-cases m.more) [
      | inl part ↦
          simp part (refl, ok, set_same p w s, λ q ne. set_other p q w s ne, refl, λ _. refl)
      | inr last ↦ simp last (
        refl,
        ok,
        set_same p (flush (set p w s p)) (set p w s) ∙ ap flush (set_same p w s),
        λ q ne. set_other p q (flush (set p w s p)) (set p w s) ne ∙ set_other p q w s ne,
        refl,
        λ t. absurd cc,
      )
    ]

-- With a message unfinished, none dropped, and its pipe there, which has a queue to write to and in it parts
-- with more only: `sendpipe` returns. If the pipe that has the parts before accepts the part, the part is
-- written to that pipe, and flushed with the others if it is the last one. If not, it returns EAGAIN and has
-- taken those parts back from the pipe. No other pipe is changed.
pub sendpipe-Continued :
    (m : Msg) (b : Lb) (s : Store)
    → b.more ≡ true
    → b.dropping ≡ false
    → b.ring.current < b.ring.active
    → all_more (s (current_pipe b.ring)).outpipe.content.partial ≡ true
    → (s (current_pipe b.ring)).pipe.has_out ≡ true
    → Continued m b s (sendpipe m b s)
unfolding sendpipe
sendpipe-Continued m b s part keeps h a o =
    let p = current_pipe b.ring in
    simp (keeps, part)
      (subst (λ o. Continued m b s (o >>= λ a. some (finish m b a)))
        (sym (attempt_once b.ring.active m b.ring s (omega arith)))
        (elim (Bool-cases (accepts m (s (current_pipe b.ring)))) [
          | inl ok ↦ rw ok (finish_taken m b s ok)
          | inr full ↦
              let (same, has) = write_refused m (s p) full in
              let (e', eq, clear) = rollback_lem (written m (s p)) (rw same a) (has ∙ o) in
              let back = set_same p e' s in
              rw (full, eq)
                (
                  full,
                  eq ∙ ap some (sym back),
                  ap (λ e. e.outpipe.content.partial) back ∙ clear,
                  λ q ne. set_other p q e' s ne,
                  refl,
                )
        ]))

-- If a part is sent at all.
abbrev To : Lb → Option Answer → Type 0
To b none = Unit
To b (some a) = (q : ℕ) → a.result ≡ sent q → q ≡ current_pipe b.ring

sent_inj : (p q : ℕ) → sent p ≡ sent q → q ≡ p
sent_inj p q e = cc

finish-To :
    (m : Msg) (b : Lb) (s : Store)
    → To b (
        some
          (finish m b (record { outcome = taken (current_pipe b.ring); ring = b.ring; store = s })))
finish-To m b s = elim (Bool-cases m.more) [
  | inl part ↦ simp part (λ q e. sent_inj (current_pipe b.ring) q e)
  | inr last ↦ simp last (λ q e. sent_inj (current_pipe b.ring) q e)
]

sendpipe-To :
    (m : Msg) (b : Lb) (s : Store)
    → b.more ≡ true
    → b.dropping ≡ false
    → 0 < b.ring.active
    → To b (sendpipe m b s)
unfolding sendpipe
sendpipe-To m b s part keeps h =
    let p = current_pipe b.ring in
    simp (keeps, part)
      (subst (λ o. To b (o >>= λ a. some (finish m b a)))
        (sym (attempt_once b.ring.active m b.ring s h))
        (elim (Bool-cases (accepts m (s p))) [
          | inl ok ↦ rw ok (finish-To m b (set p (written m (s p)) s))
          | inr full ↦ rw full (elim (Option-cases (rollback (written m (s p)))) [
            | inl e ↦ rw e tt
            | inr (e', e) ↦ rw e (λ q e''. absurd cc)
          ])
        ]))

module _ (p : ℕ) (b : Lb) (h : Holds p b.ring.pipes) (v : IsValid b.ring)
    (some_active : b.ring.current < b.ring.active) (other : p ≢ current_pipe b.ring) where
  differs : b.ring.pipes.array_index p ≢ b.ring.current
  differs e = other (sym h.1 ∙ ap b.ring.pipes.items e)

  -- Another pipe than the current one has gone, and it was at the front, or behind the current one, or the
  -- current one was not the last active one: the current pipe and the handling of the message are the same.
  pipe_terminated_keeps :
      ((b.ring.pipes.array_index p ≡ 0) ⊎ (b.ring.current < b.ring.pipes.array_index p))
        ⊎ (b.ring.current + 1 < b.ring.active)
      → (current_pipe (pipe_terminated p b).ring ≡ current_pipe b.ring)
        × ((pipe_terminated p b).more ≡ b.more)
        × ((pipe_terminated p b).dropping ≡ b.dropping)
  unfolding pipe_terminated
  pipe_terminated_keeps c =
      let not_it : (b.ring.pipes.array_index p == b.ring.current) ≡ false =
        let d = differs in grind arith in
      (remove_keeps p b.ring h v some_active other c, refl, rw not_it refl)

  -- If the current one was the last active one and the other was before it but not at the front, the
  -- parts that follow do not go to the pipe that has the first parts of the message.
  pub sendpipe_strays :
      0 < b.ring.pipes.array_index p
      → b.ring.pipes.array_index p < b.ring.current
      → b.ring.current + 1 ≡ b.ring.active
      → b.more ≡ true
      → b.dropping ≡ false
      → (m : Msg) (s : Store) (a : Answer) (q : ℕ) → sendpipe m (pipe_terminated p b) s ≡ some a
      → a.result ≡ sent q
      → q ≢ current_pipe b.ring
  unfolding pipe_terminated remove
  sendpipe_strays above below last part keeps m s a q e er same =
      let not_it : (b.ring.pipes.array_index p == b.ring.current) ≡ false =
        let d = differs in grind arith in
      let left : 0 < (remove p b.ring).active =
        rw (remove, lt→ltb (b.ring.pipes.array_index p) b.ring.active (omega arith))
          (omega arith) in
      let to =
        subst (To (pipe_terminated p b)) e
          (sendpipe-To m (pipe_terminated p b) s part (rw not_it keeps) left) q er in
      remove_strays p b.ring h v some_active other above below last (sym to ∙ same)

-- The calls of `sendpipe` for parts one after the other.
unfoldable pub send_all : List Msg → Lb → Store → Option (List Result × Lb × Store)
send_all [] b s = some ([], b, s)
send_all (m ∷ ms) b s = sendpipe m b s >>= λ a.
    (send_all ms a.lb a.store >>= λ rest. some (a.result ∷ rest.0, rest.1, rest.2))

drop_all :
    (ms : List Msg) (end : Msg) (b : Lb) (s : Store)
    → All (λ m. m.more ≡ true) ms
    → end.more ≡ false
    → b.dropping ≡ true
    → send_all (ms ++ end ∷ []) b s
      ≡ some (map (λ _. dropped) (ms ++ end ∷ []), record b { more = false; dropping = false }, s)
unfolding send_all sendpipe
drop_all [] end b s all last drops = simp (drops, last) refl
drop_all (m ∷ ms) end b s (part, all) last drops =
    let rest = drop_all ms end (record b { more = true; dropping = true }) s all last refl in
    simp (drops, part, rest) refl

-- The current pipe has gone in the middle of a message: the parts that follow are dropped up to the end of
-- the message, no pipe gets any of them, and then no message is unfinished.
pub send_all_drops_rest :
    (p : ℕ) (b : Lb) (ms : List Msg) (end : Msg) (s : Store)
    → b.ring.pipes.array_index p ≡ b.ring.current
    → b.more ≡ true
    → All (λ m. m.more ≡ true) ms
    → end.more ≡ false
    → send_all (ms ++ end ∷ []) (pipe_terminated p b) s
      ≡ some (
        map (λ _. dropped) (ms ++ end ∷ []),
        record { ring = remove p b.ring; more = false; dropping = false },
        s,
      )
unfolding pipe_terminated
send_all_drops_rest p b ms end s it part all last =
    let here : (b.ring.pipes.array_index p == b.ring.current) ≡ true = grind arith in
    drop_all ms end (pipe_terminated p b) s all last (rw (here, part) refl)
