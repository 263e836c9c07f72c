-- ===== src/Dist/Spread.antt =====
-- What `distribute` does to each pipe.
use mathlib.Core.Path.{subst}
use zeromq.Prelude.{
  ℕ, zero, suc, ◌+◌, ◌<◌, ◌≡◌, ◌≢◌, refl, sym, ap, ◌∙◌, inl, inr, false, arith, ◌==◌, if◌then◌else◌,
  Bool-cases,
}
use zeromq.Msg.{Msg}
use zeromq.Pipe.{Ends}
use zeromq.Pipe.Write.{flush}
use zeromq.Ring.Visit.{Store, set, set_same, set_other}
use zeromq.Lb.Send.{accepts, written}
use zeromq.Array.{once}
use zeromq.Dist.{Dist, drop_out, write, spread, distribute, send_to_matching}
use zeromq.Dist.Groups.{IsValid, Waits, drop_out-Without}

-- A pipe that takes the message gets it, and it is flushed after the last part. One that refuses it stays
-- as its `write` leaves it.
abbrev pub given : Msg → Ends → Ends
given m e =
    if accepts m e then (if m.more then written m e else flush (written m e)) else written m e

-- The pipes that still had to get the message have been called once, and no other.
pub record Spread (i : ℕ) (m : Msg) (d : Dist) (s : Store) (d' : Dist) (s' : Store) : Type 0 where
  pub valid : IsValid d'
  pub called : (q : ℕ) → Waits q i d → s' q ≡ given m (s q)
  pub others : (q : ℕ) → (Waits q i d → ⊥) → s' q ≡ s q

module _ (m : Msg) (d : Dist) (i : ℕ) (s : Store) (v : IsValid d) (h : i < d.matching) where
  abbrev p : ℕ
  p = d.pipes.items i

  -- The pipe at `i` is called, and after it those that wait from `i'` on in `d''`.
  called_then :
      (i' : ℕ) (d' d'' : Dist) (s'' : Store)
      → ((q : ℕ) → Waits q i d → q ≢ p → Waits q i' d')
      → ((q : ℕ) → Waits q i' d' → Waits q i d × (q ≢ p))
      → Spread i' m d' (set p (given m (s p)) s) d'' s''
      → ((q : ℕ) → Waits q i d → s'' q ≡ given m (s q))
        × ((q : ℕ) → (Waits q i d → ⊥) → s'' q ≡ s q)
  called_then i' d' d'' s'' stays was r =
      let t : Store = set p (given m (s p)) s in
      (
        λ q w. elim (Bool-cases (q == p)) [
          | inl e ↦
              let same : p ≡ q = grind arith in
              subst (λ x. s'' x ≡ given m (s x)) same
                (r.others p (λ w'. (was p w').1 refl) ∙ set_same p (given m (s p)) s)
          | inr e ↦
              let ne : q ≢ p = grind arith in
              r.called q (stays q w ne) ∙ ap (given m) (set_other p q (given m (s p)) s ne)
        ],
        λ q w. elim (Bool-cases (q == p)) [
          | inl e ↦ absurd (w (i, omega arith, h, grind arith))
          | inr e ↦
              let ne : q ≢ p = grind arith in
              r.others q (λ w'. w (was q w').0) ∙ set_other p q (given m (s p)) s ne
        ],
      )

spread-Spread :
    (n i : ℕ) (m : Msg) (d : Dist) (s : Store)
    → IsValid d
    → d.matching ≡ i + n
    → Spread i m d s (spread n i m d s).0 (spread n i m d s).1
unfolding spread write
spread-Spread zero i m d s v e = record {
  valid = v;
  called = λ q (j, above, below, _). absurd (omega arith);
  others = λ q _. refl;
}
spread-Spread (suc n) i m d s v e =
    let p = d.pipes.items i in
    let t : Store = set p (given m (s p)) s in
    let h : i < d.matching = omega arith in
    elim (Bool-cases (accepts m (s p))) [
      | inl ok ↦
          let eq : spread (suc n) i m d s ≡ spread n (i + 1) m d t = rw ok refl in
          let r = spread-Spread n (i + 1) m d t v (omega arith) in
          let f = v.matching_fits in
          let g = v.active_fits in
          let k = v.eligible_fits in
          let (c, o) =
            called_then m d i s v h (i + 1) d (spread n (i + 1) m d t).0 (spread n (i + 1) m d t).1
              (λ q (j, above, below, w) ne. (j, grind arith, below, w))
              (λ q (j, above, below, w). (
                (j, omega arith, below, w),
                λ same.
                    let z = once d.pipes v.indexed j i (omega arith) (omega arith) (w ∙ same) in
                    omega arith,
              ))
              r in
          subst (λ x. Spread i m d s x.0 x.1) (sym eq)
            (record { valid = r.valid; called = c; others = o })
      | inr full ↦
          let d' = drop_out p d in
          let eq : spread (suc n) i m d s ≡ spread n i m d' t = rw full refl in
          let w = drop_out-Without d i v h in
          let less = w.one_less in
          let r = spread-Spread n i m d' t w.valid (omega arith) in
          let (c, o) =
            called_then m d i s v h i d' (spread n i m d' t).0 (spread n i m d' t).1 w.stays w.was
              r in
          subst (λ x. Spread i m d s x.0 x.1) (sym eq)
            (record { valid = r.valid; called = c; others = o })
    ]

-- Each matching pipe is called once: one that takes the message gets it, and is flushed after the last
-- part, and one that refuses it does not; no other pipe is called. The groups stay in order.
pub record Distributed (m : Msg) (d : Dist) (s : Store) (d' : Dist) (s' : Store) : Type 0 where
  pub valid : IsValid d'
  pub matching_called : (q : ℕ) → Waits q 0 d → s' q ≡ given m (s q)
  pub others : (q : ℕ) → (Waits q 0 d → ⊥) → s' q ≡ s q
  pub more : d'.more ≡ m.more
  pub at_end : m.more ≡ false → d'.active ≡ d'.eligible

-- `send_to_matching` calls each matching pipe once and no other: one that takes the message gets it, and is
-- flushed after the last part. The groups stay in order, and after the last part every pipe that can be
-- written to is active.
pub send_to_matching-Distributed :
    (m : Msg) (d : Dist) (s : Store)
    → IsValid d
    → Distributed m d s (send_to_matching m d s).0 (send_to_matching m d s).1
unfolding send_to_matching distribute
send_to_matching-Distributed m d s v =
    let r = spread-Spread d.matching 0 m d s v (omega arith) in
    let f = r.valid.matching_fits in
    let g = r.valid.active_fits in
    let k = r.valid.eligible_fits in
    record {
      valid = record {
        indexed = r.valid.indexed;
        matching_fits = ground arith;
        active_fits = ground arith;
        eligible_fits = k;
      };
      matching_called = r.called;
      others = r.others;
      more = refl;
      at_end = λ last. rw last refl;
    }
