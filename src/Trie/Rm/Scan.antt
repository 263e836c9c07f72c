-- ===== src/Trie/Rm/Scan.antt =====
-- The scans for the first pointer that is not NULL, and how many pointers must be there.
use zeromq.Prelude.{
  ℕ, zero, suc, ◌+◌, ◌≤◌, ◌<◌, ◌≡◌, ◌≢◌, refl, inl, inr, Option, none, some, arith, ◌==◌,
  Bool-cases, Option-cases, ==_iff,
}
use zeromq.Trie.{Trie, Slots, get, put, first_in}
use zeromq.Trie.Lookup.{width, subs, one, get_beyond, get-put, subs-put}
use zeromq.Trie.Refs.{subs_zero}

pub lt_width : (s : Slots) (i : ℕ) → get s i ≢ none → i < width s
lt_width s i h = ground (arith, get_beyond s i)

one_of_some : (o : Option Trie) → o ≢ none → one o ≡ 1
one_of_some none h = absurd (h refl)
one_of_some (some t) h = refl

-- A pointer that is there is counted.
pub subs-put_gone : (s : Slots) (i : ℕ) → get s i ≢ none → subs (put s i none) + 1 ≡ subs s
subs-put_gone s i h = omega (arith, subs-put s i none (lt_width s i h), one_of_some (get s i) h)

pub subs_two : (s : Slots) (i j : ℕ) → get s i ≢ none → get s j ≢ none → i ≢ j → 2 ≤ subs s
subs_two s i j hi hj ne = elim (Bool-cases (subs (put s i none) == 0)) [
  | inl z ↦
      absurd (hj (ground (arith, get-put s i j none (lt_width s i hi), subs_zero (put s i none) j)))
  | inr p ↦ ground (arith, subs-put_gone s i hi)
]

-- With one pointer in all, every other one is NULL.
pub only_one : (s : Slots) (i j : ℕ) → subs s ≡ 1 → get s i ≢ none → i ≢ j → get s j ≡ none
only_one s i j h hi ne = elim (Option-cases (get s j)) [
  | inl e ↦ e
  | inr (u, e) ↦ absurd (omega (arith, subs_two s i j hi (λ z. cc) ne))
]

-- The loop stops at the first pointer, if there is one in reach.
pub record First (pointer : ℕ → Option Trie) (from i : ℕ) : Type 0 where
  pub past : from ≤ i
  pub there : pointer i ≢ none
  pub before : (j : ℕ) → from ≤ j → j < i → pointer j ≡ none

pub first_in-First :
    (pointer : ℕ → Option Trie) (from rounds j : ℕ)
    → from ≤ j
    → j < from + rounds
    → pointer j ≢ none
    → (i : ℕ) × (first_in pointer from rounds ≡ some i) × (i ≤ j) × First pointer from i
unfolding first_in
first_in-First f from zero j lo hi h = absurd (omega arith)
first_in-First f from (suc rounds) j lo hi h = elim (Option-cases (f from)) [
  | inr (u, e) ↦ (
    from,
    rw (e, first_in) refl,
    lo,
    record { past = omega arith; there = λ z. cc; before = λ k p q. absurd (omega arith) },
  )
  | inl e ↦
      let ne : from ≢ j = λ same. h (rw same at e) in
      let (i, run, le, w) = first_in-First f (suc from) rounds j (omega arith) (omega arith) h in
      (
        i,
        rw (e, first_in) run,
        le,
        record {
          past = omega (arith, w.past);
          there = w.there;
          before = λ k p q. before i w k p q e;
        },
      )
]
  where
    before :
        (i : ℕ) → First f (suc from) i → (k : ℕ) → from ≤ k → k < i → f from ≡ none → f k ≡ none
    before i w k p q e = elim (Bool-cases (from == k)) [
      | inl same ↦ rw (← (==_iff from k).0 same) e
      | inr other ↦ w.before k (ground arith) q
    ]
