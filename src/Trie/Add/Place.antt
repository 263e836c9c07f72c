-- ===== src/Trie/Add/Place.antt =====
-- A child stored under the character for which the table was extended.
use zeromq.Prelude.{
  ℕ, ◌+◌, ◌-◌, ◌≤◌, ◌<◌, ◌≡◌, ◌≢◌, inl, inr, ap, ◌∙◌, false, none, some, arith, ◌==◌, if◌then◌else◌,
  Bool-cases,
}
use zeromq.Trie.{Trie, Slots, Table, get, put, index, is_redundant}
use zeromq.Trie.Lookup.{width, subs, one, get-put, width-put, subs-put}
use zeromq.Trie.Refs.{
  child, Fits, IsSound, AllSound, AllSound-everywhere, AllSound-put, IsChild-child, get-index,
  subs_zero,
}
use zeromq.Trie.Add.Extend.{Extended}

pub subs_pos : (s : Slots) (i : ℕ) → get s i ≢ none → 0 < subs s
subs_pos s i h = elim (Bool-cases (subs s == 0)) [
  | inl z ↦ absurd (h (subs_zero s i (ground arith)))
  | inr p ↦ ground arith
]

module _ (c : ℕ) (t t' : Table) (fits : Fits t) (all : AllSound t.slots)
    (ext : Extended c t t') where
  pub at_index :
      (get t'.slots (index c t') ≡ child t' c)
      × (index c t' ≡ c - t'.low)
      × (index c t' < width t'.slots)
      × (t'.low ≤ c)
  at_index = get-index c t' ext.sized ext.inside

  slot_of_child : (j : ℕ) → get t'.slots j ≡ child t (t'.low + j)
  slot_of_child j = ground (arith, ext.same (t'.low + j))

  pub AllSound-extended : AllSound t'.slots
  AllSound-extended =
      AllSound-everywhere t'.slots (λ j. rw (slot_of_child j) (IsChild-child t (t'.low + j) all))

  module _ (u : Trie) where
    abbrev pub placed : Table
    placed = record t' { slots = put t'.slots (index c t') (some u) }

    pub child-placed : (x : ℕ) → child placed x ≡ (if c == x then some u else child t x)
    child-placed x = ground (
      arith,
      get-put t'.slots (index c t') (x - t'.low) (some u) at_index.2,
      ext.same x,
      at_index,
    )

    pub placed-Fits : Fits placed
    placed-Fits = record {
      sized = rw width-put ext.sized;
      narrow = ext.narrow;
      leftmost = λ h e. ground (
        arith,
        get-put t'.slots (index c t') 0 (some u) at_index.2,
        slot_of_child 0,
        at_index,
        ext.left,
        fits.leftmost,
      );
      rightmost = λ h e. ground (
        arith,
        get-put t'.slots (index c t') (t'.count - 1) (some u) at_index.2,
        slot_of_child (t'.count - 1),
        at_index,
        ext.right,
        fits.rightmost,
      );
    }

    pub placed-AllSound : IsSound u → is_redundant u ≡ false → AllSound placed.slots
    placed-AllSound s r =
        AllSound-put t'.slots (index c t') (some u) at_index.2 AllSound-extended (s, r)

    pub subs-placed : subs placed.slots + one (child t c) ≡ subs t.slots + 1
    subs-placed = omega (
      arith,
      subs-put t'.slots (index c t') (some u) at_index.2,
      ext.subs_kept,
      ap one (at_index.0 ∙ ext.same c),
    )

    pub subs-placed_pos : 0 < subs placed.slots
    subs-placed_pos =
        let i = index c t' in
        subs_pos placed.slots i (λ e. ground (arith, get-put t'.slots i i (some u) at_index.2))
