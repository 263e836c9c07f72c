-- ===== src/Lb/Send.antt =====
-- `sendpipe` on a message that is not the continuation of another.
use zeromq.Prelude.{
  ℕ, zero, suc, ◌<◌, ◌≡◌, refl, sym, ap, ◌∙◌, inl, inr, Bool, true, false, Option, none, some,
  arith, if◌then◌else◌, ◌>>=◌, Bool-cases,
}
use zeromq.Msg.{Msg}
use zeromq.Pipe.{Ends}
use zeromq.Pipe.Write.{write, flush}
use zeromq.Ring.{Ring, IsValid, IsActive, pass_over}
use zeromq.Ring.Steps.{advance-IsValid}
use zeromq.Ring.Current.{current_pipe}
use zeromq.Ring.Dropped.{Dropped, pass_over-Dropped}
use zeromq.Ring.Visit.{
  Store, set, set_same, Touched, unchanged, Touched-here, Touched-later, for_all,
}
use zeromq.Lb.{
  Lb, Outcome, taken, refused, nobody, Attempt, attempt, Answer, Result, sent, again, dropped,
  finish, sendpipe,
}

abbrev pub accepts : Msg → Ends → Bool
accepts m e = (write m e).0

abbrev pub written : Msg → Ends → Ends
written m e = (write m e).1

-- What the loop ends with: the message is with a pipe that was active, or every active pipe refuses it.
abbrev pub Ended : Msg → Ring → Store → Outcome → Ring → Store → Type 0
Ended m r s (taken p) r' s' =
    IsActive p r
    × (accepts m (s p) ≡ true)
    × (s' p ≡ written m (s p))
    × (current_pipe r' ≡ p)
    × (r'.current < r'.active)
    × IsValid r'
Ended m r s refused r' s' = ⊥
Ended m r s nobody r' s' =
    ((q : ℕ) → IsActive q r → accepts m (s q) ≡ false) × (r'.active ≡ 0) × IsValid r'

abbrev pub Tried : Msg → Ring → Store → Option Attempt → Type 0
Tried m r s none = ⊥
Tried m r s (some a) = Ended m r s a.outcome a.ring a.store × Touched (written m) r s a.store

module _ (m : Msg) (r : Ring) (s : Store) (v : IsValid r) (h : r.current < r.active) where
  abbrev p : ℕ
  p = current_pipe r

  abbrev after : Store
  after = set p (written m (s p)) s

  d : Dropped r (pass_over r)
  d = pass_over-Dropped r v h

  Ended-later :
      accepts m (s p) ≡ false
      → (o : Outcome) (r' : Ring) (s' : Store) → Ended m (pass_over r) after o r' s'
      → Ended m r s o r' s'
  Ended-later full (taken q) r' s' (a, ok, w, c, i, v') =
      let u = unchanged (written m) r (pass_over r) s h d q a in
      ((d.was q a).0, sym (ap (accepts m) u) ∙ ok, w ∙ ap (written m) u, c, i, v')
  Ended-later full refused r' s' e = e
  Ended-later full nobody r' s' (f, z, v') =
      (for_all (written m) r (pass_over r) s h d (λ e. accepts m e ≡ false) full f, z, v')

  later :
      accepts m (s p) ≡ false → (o : Option Attempt) → Tried m (pass_over r) after o → Tried m r s o
  later full none t = t
  later full (some a) (e, t) = (
    Ended-later full a.outcome a.ring a.store e,
    Touched-later (written m) r (pass_over r) s h d a.store t,
  )

attempt-Tried :
    (n : ℕ) (m : Msg) (r : Ring) (s : Store)
    → IsValid r
    → r.active ≡ n
    → Tried m r s (attempt n m false r s)
unfolding attempt
attempt-Tried zero m r s v e = ((λ q (i, h, _). absurd (omega arith), e, v), λ q. inl refl)
attempt-Tried (suc n) m r s v e =
    let i = v.inside in
    let h : r.current < r.active = omega arith in
    let p = current_pipe r in
    elim (Bool-cases (accepts m (s p))) [
      | inl ok ↦ rw ok (
          (
            ((r.current, h, refl), ok, set_same p (written m (s p)) s, refl, h, v),
            Touched-here (written m) r (pass_over r) s h (pass_over-Dropped r v h),
          ))
      | inr full ↦
          let d = pass_over-Dropped r v h in
          let less = d.one_less in
          rw full (
            later m r s v h full (attempt n m false (pass_over r) (set p (written m (s p)) s))
              (attempt-Tried n m (pass_over r) (set p (written m (s p)) s) d.valid (omega arith)))
    ]

-- What `sendpipe` does with a part that starts a message.
abbrev pub Answered : Msg → Lb → Store → Answer → Result → Type 0
Answered m b s a (sent p) =
    IsActive p b.ring
    × (accepts m (s p) ≡ true)
    × (a.store p ≡ (if m.more then written m (s p) else flush (written m (s p))))
    × (a.lb.more ≡ m.more)
    × (m.more ≡ true → current_pipe a.lb.ring ≡ p)
Answered m b s a again =
    ((q : ℕ) → IsActive q b.ring → accepts m (s q) ≡ false)
    × (a.lb.ring.active ≡ 0)
    × (a.lb.more ≡ false)
Answered m b s a dropped = ⊥

abbrev pub Balanced : Msg → Lb → Store → Option Answer → Type 0
Balanced m b s none = ⊥
Balanced m b s (some a) = Answered m b s a a.result × IsValid a.lb.ring × (a.lb.dropping ≡ false)

finish-Balanced :
    (m : Msg) (b : Lb) (s : Store)
    → b.more ≡ false
    → b.dropping ≡ false
    → (o : Outcome) (r : Ring) (s' : Store) → Ended m b.ring s o r s'
    → Balanced m b s (some (finish m b (record { outcome = o; ring = r; store = s' })))
finish-Balanced m b s single keeps refused r s' e = absurd e
finish-Balanced m b s single keeps nobody r s' (f, z, v) = ((f, z, single), v, keeps)
finish-Balanced m b s single keeps (taken p) r s' (a, ok, w, c, h, v) = elim (Bool-cases m.more) [
  | inl part ↦ simp part ((a, ok, w, refl, λ _. c), v, keeps)
  | inr last ↦ simp last (
    (a, ok, set_same p (flush (s' p)) s' ∙ ap flush w, refl, λ t. absurd cc),
    advance-IsValid r (omega arith) v,
    keeps,
  )
]

-- A part that starts a message, when no message is unfinished and none is dropped: `sendpipe` returns. It
-- has written the part to a pipe that was active and takes it, and flushed it if the message has no more
-- parts, and else this pipe is the current one; or it returns EAGAIN, every active pipe refuses the part,
-- and none is active any more.
pub sendpipe-Balanced :
    (m : Msg) (b : Lb) (s : Store)
    → IsValid b.ring
    → b.more ≡ false
    → b.dropping ≡ false
    → Balanced m b s (sendpipe m b s)
unfolding sendpipe
sendpipe-Balanced m b s v single keeps =
    simp (keeps, single)
      (go (attempt b.ring.active m false b.ring s) (attempt-Tried b.ring.active m b.ring s v refl))
  where
    go : (o : Option Attempt) → Tried m b.ring s o → Balanced m b s (o >>= λ a. some (finish m b a))
    go none t = t
    go (some a) (e, _) = finish-Balanced m b s single keeps a.outcome a.ring a.store e
