-- ===== src/Trie/Refs.antt =====
-- What a tree stands for, a count of subscriptions for each prefix, and the shape that it keeps.
use zeromq.Prelude.{
  ℕ, zero, suc, ◌+◌, ◌-◌, ◌≤◌, ◌<◌, ◌≡◌, ◌≢◌, refl, Bool, true, false, ◌&&◌, inl, inr, Option, none,
  some, List, [], ◌∷◌, arith, ltb, ◌==◌, if◌then◌else◌, Bool-cases,
}
use zeromq.Trie.{
  Trie, Slots, Table, node, end, gap, sub, get, put, new, is_redundant, outside, index,
}
use zeromq.Trie.Lookup.{width, subs, get_beyond, get-put}

-- The pointer under a character.
abbrev pub child : Table → ℕ → Option Trie
child t x = if ltb x t.low then none else get t.slots (x - t.low)

abbrev pub table : Trie → Table
table (node refcnt low count live s) = record { low = low; count = count; slots = s }

abbrev pub refcnt : Trie → ℕ
refcnt (node n low count live s) = n

abbrev pub live_nodes : Trie → ℕ
live_nodes (node n low count live s) = live

-- How often the prefix is subscribed to.
unfoldable pub refs : Trie → List ℕ → ℕ
refs t [] = refcnt t
refs t (c ∷ rest) = elim (child (table t) c) [ none ↦ 0 | some u ↦ refs u rest ]

-- Equality of two keys.
unfoldable pub same_key : List ℕ → List ℕ → Bool
same_key [] [] = true
same_key [] (y ∷ ys) = false
same_key (x ∷ xs) [] = false
same_key (x ∷ xs) (y ∷ ys) = x == y && same_key xs ys

-- A table has `count` pointers, for characters of a byte, and pointers at both of its ends.
pub record Fits (t : Table) : Type 0 where
  pub sized : width t.slots ≡ t.count
  pub narrow : t.low + t.count ≤ 256
  pub leftmost : 0 < t.count → get t.slots 0 ≢ none
  pub rightmost : 0 < t.count → get t.slots (t.count - 1) ≢ none

-- Every table fits, `live_nodes` counts the pointers, and no child is redundant.
unfoldable mutual
  pub IsSound : Trie → Type 0
  IsSound (node refcnt low count live s) =
      Fits (record { low = low; count = count; slots = s }) × (subs s ≡ live) × AllSound s

  pub AllSound : Slots → Type 0
  AllSound end = Unit
  AllSound (gap s) = AllSound s
  AllSound (sub t s) = IsSound t × (is_redundant t ≡ false) × AllSound s

-- A child: sound, and not redundant.
abbrev pub IsChild : Option Trie → Type 0
IsChild none = Unit
IsChild (some t) = IsSound t × (is_redundant t ≡ false)

pub AllSound-get : (s : Slots) (i : ℕ) → AllSound s → IsChild (get s i)
unfolding AllSound get
AllSound-get end i h = tt
AllSound-get (gap s) zero h = tt
AllSound-get (gap s) (suc i) h = AllSound-get s i h
AllSound-get (sub t s) zero h = (h.0, h.1)
AllSound-get (sub t s) (suc i) h = AllSound-get s i h.2

-- The converse: a list of pointers is sound if each of them is.
pub AllSound-everywhere : (s : Slots) → ((i : ℕ) → IsChild (get s i)) → AllSound s
unfolding AllSound get
AllSound-everywhere end h = tt
AllSound-everywhere (gap s) h = AllSound-everywhere s (λ i. h (suc i))
AllSound-everywhere (sub t s) h = ((h 0).0, (h 0).1, AllSound-everywhere s (λ i. h (suc i)))

pub AllSound-put :
    (s : Slots) (i : ℕ) (o : Option Trie)
    → i < width s
    → AllSound s
    → IsChild o
    → AllSound (put s i o)
AllSound-put s i o lt h ho = AllSound-everywhere (put s i o) at
  where
    at : (j : ℕ) → IsChild (get (put s i o) j)
    at j = elim (Bool-cases (i == j)) [
      | inl e ↦ rw (get-put s i j o lt, e) ho
      | inr e ↦ rw (get-put s i j o lt, e) (AllSound-get s j h)
    ]

pub new-IsSound : IsSound new
unfolding IsSound new get subs width
new-IsSound = (
  record {
    sized = refl;
    narrow = omega arith;
    leftmost = λ h. absurd (omega arith);
    rightmost = λ h. absurd (omega arith);
  },
  refl,
  tt,
)

-- The index that the code computes finds the pointer under the character.
pub get-index :
    (c : ℕ) (t : Table)
    → width t.slots ≡ t.count
    → outside c t.low t.count ≡ false
    → (get t.slots (index c t) ≡ child t c)
      × (index c t ≡ c - t.low)
      × (index c t < width t.slots)
      × (t.low ≤ c)
get-index c t h e = ground arith

pub child-outside :
    (c : ℕ) (t : Table)
    → width t.slots ≡ t.count
    → outside c t.low t.count ≡ true
    → child t c ≡ none
child-outside c t h e = ground (arith, get_beyond t.slots (c - t.low))

pub subs_zero : (s : Slots) (i : ℕ) → subs s ≡ 0 → get s i ≡ none
unfolding subs get
subs_zero end i h = refl
subs_zero (gap s) zero h = refl
subs_zero (gap s) (suc i) h = subs_zero s i h
subs_zero (sub t s) i h = absurd (omega arith)

pub IsChild-child : (t : Table) (x : ℕ) → AllSound t.slots → IsChild (child t x)
IsChild-child t x h = elim (Bool-cases (ltb x t.low)) [
  | inl e ↦ rw e tt
  | inr e ↦ rw e (AllSound-get t.slots (x - t.low) h)
]

abbrev pub refs_below : Option Trie → List ℕ → ℕ
refs_below none k = 0
refs_below (some u) k = refs u k

pub refs-cons :
    (t : Trie) (x : ℕ) (xs : List ℕ) → refs t (x ∷ xs) ≡ refs_below (child (table t) x) xs
unfolding refs
refs-cons t x xs = go (child (table t) x)
  where
    go : (o : Option Trie) → (elim o [ none ↦ 0 | some u ↦ refs u xs ]) ≡ refs_below o xs
    go none = refl
    go (some u) = refl
