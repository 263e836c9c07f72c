-- ===== src/Ring/Visit.antt =====
-- A pass over the active pipes: the current one is called, and it goes behind the active ones if it has to.
-- A store has the `Ends` of each pipe.
use mathlib.Core.Path.{subst}
use zeromq.Prelude.{
  ℕ, ◌<◌, ◌≡◌, ◌≢◌, refl, ap, ◌∙◌, ◌⊎◌, inl, inr, false, arith, ◌==◌, if◌then◌else◌, Bool-cases,
  ==_refl,
}
use zeromq.Pipe.{Ends}
use zeromq.Ring.{Ring, IsActive}
use zeromq.Ring.Current.{current_pipe}
use zeromq.Ring.Dropped.{Dropped}

abbrev pub Store : Type 0
Store = ℕ → Ends

abbrev pub set : ℕ → Ends → Store → Store
set p e s q = if q == p then e else s q

pub set_same : (p : ℕ) (e : Ends) (s : Store) → set p e s p ≡ e
set_same p e s = rw (==_refl p) refl

pub set_other : (p q : ℕ) (e : Ends) (s : Store) → q ≢ p → set p e s q ≡ s q
set_other p q e s ne = let no_match : (q == p) ≡ false = grind arith in rw no_match refl

-- A pipe is as it was, or it was active and has been called.
abbrev pub Touched : (Ends → Ends) → Ring → Store → Store → Type 0
Touched f r s s' = (q : ℕ) → (s' q ≡ s q) ⊎ (IsActive q r × (s' q ≡ f (s q)))

-- The call has the effect `f`.
module _ (f : Ends → Ends) (r r' : Ring) (s : Store) (h : r.current < r.active)
    (d : Dropped r r') where
  abbrev p : ℕ
  p = current_pipe r

  abbrev after : Store
  after = set p (f (s p)) s

  pub unchanged : (q : ℕ) → IsActive q r' → after q ≡ s q
  unchanged q a = set_other p q (f (s p)) s (d.was q a).1

  pub Touched-here : Touched f r s after
  Touched-here q = elim (Bool-cases (q == p)) [
    | inr ne ↦ inl (set_other p q (f (s p)) s (grind arith))
    | inl e ↦
        let same : p ≡ q = grind arith in
        inr ((r.current, h, same), subst (λ x. after x ≡ f (s x)) same (set_same p (f (s p)) s))
  ]

  pub Touched-later : (s' : Store) → Touched f r' after s' → Touched f r s s'
  Touched-later s' t q = elim (t q) [
    | inr (a, e) ↦ inr ((d.was q a).0, e ∙ ap f (unchanged q a))
    | inl e ↦ elim (Touched-here q) [ inl e' ↦ inl (e ∙ e') | inr (a, e') ↦ inr (a, e ∙ e') ]
  ]

  -- What is so for the current pipe and for every pipe that is left.
  pub for_all :
      (P : Ends → Type 0)
      → P (s p)
      → ((q : ℕ) → IsActive q r' → P (after q))
      → (q : ℕ) → IsActive q r
      → P (s q)
  for_all P here left q a = elim (Bool-cases (q == p)) [
    | inl e ↦ let same : p ≡ q = grind arith in subst (λ x. P (s x)) same here
    | inr ne ↦ let l = d.stays q a (grind arith) in subst P (unchanged q l) (left q l)
  ]
