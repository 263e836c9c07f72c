-- ===== src/Trie/Rm/Leaves.antt =====
-- The table that `rm` leaves: what is left of the child under the character, and the others.
use zeromq.Trie.Rm.Scan.{subs-put_gone, subs_two}
use zeromq.Trie.Rm.Compact.{Holed}
use zeromq.Prelude.{
  ℕ, ◌+◌, ◌-◌, ◌≤◌, ◌<◌, ◌≡◌, ◌≢◌, inl, inr, refl, ap, ◌∙◌, sym, Bool, true, false, Option, none,
  some, List, [], ◌∷◌, arith, ◌==◌, if◌then◌else◌, Bool-cases, ==_iff,
}
use zeromq.Trie.{Trie, Slots, Table, node, end, get, put, rm, index, outside, is_redundant}
use zeromq.Trie.Lookup.{width, subs, one, get_beyond, get-put, width-put, subs-put, subs_single}
use zeromq.Trie.Refs.{
  child, refs, same_key, Fits, IsSound, AllSound, IsChild, AllSound-everywhere, IsChild-child,
  refs_below, refs-cons, get-index, subs_zero,
}

-- What `rm` made of the tree and what it returned.
pub record Removed (k : List ℕ) (t t' : Trie) (last : Bool) : Type 0 where
  pub sound : IsSound t'
  pub counts : (q : List ℕ) → refs t' q ≡ (if same_key k q then refs t q - 1 else refs t q)
  pub reports : last ≡ (refs t k == 1)

abbrev pub Removes : List ℕ → Trie → Type 0
Removes k t = (t' : Trie) × (last : Bool) × (rm k t ≡ some (t', last)) × Removed k t t' last

same_key_eq : (k q : List ℕ) → same_key k q ≡ true → k ≡ q
unfolding same_key
same_key_eq [] [] h = refl
same_key_eq [] (y ∷ ys) h = cc
same_key_eq (x ∷ xs) [] h = cc
same_key_eq (x ∷ xs) (y ∷ ys) h = ground (arith, same_key_eq xs ys)

-- A prefix that nobody subscribed to: nothing changes.
pub absent : (k : List ℕ) (t : Trie) → IsSound t → refs t k ≡ 0 → Removed k t t false
absent k t h z = record {
  sound = h;
  counts = λ q. elim (Bool-cases (same_key k q)) [
    | inl e ↦ let none_there : refs t q ≡ 0 = rw (same_key_eq k q e) at z in rw (e, none_there) refl
    | inr e ↦ rw e refl
  ];
  reports = ground arith;
}

redundant-refs : (t : Trie) (q : List ℕ) → IsSound t → is_redundant t ≡ true → refs t q ≡ 0
unfolding IsSound is_redundant
redundant-refs (node n low count live s) [] h r = unfold refs in ground arith
redundant-refs (node n low count live s) (x ∷ xs) h r =
    let empty : subs s ≡ 0 = ground arith in
    ground (arith, refs-cons (node n low count live s) x xs, subs_zero s (x - low) empty)

-- The child that is left.
abbrev pub survives : Trie → Option Trie
survives u = if is_redundant u then none else some u

refs-survives : (u : Trie) (q : List ℕ) → IsSound u → refs_below (survives u) q ≡ refs u q
refs-survives u q h = elim (Bool-cases (is_redundant u)) [
  | inl e ↦ rw e (sym (redundant-refs u q h e))
  | inr e ↦ rw e refl
]

module _ (c n low count live : ℕ) (s : Slots) (h : IsSound (node n low count live s))
    (inside : outside c low count ≡ false) (u₀ : Trie)
    (there : child (record { low = low; count = count; slots = s }) c ≡ some u₀) (rest : List ℕ)
    (u : Trie) (last : Bool) (w : Removed rest u₀ u last) where
  abbrev pub before : Table
  before = record { low = low; count = count; slots = s }

  -- The table has what is left of the child, and the other children as they were.
  abbrev pub Leaves : Table → Type 0
  Leaves t = (x : ℕ) → child t x ≡ (if c == x then survives u else child before x)

  survives-IsChild : IsChild (survives u)
  survives-IsChild = elim (Bool-cases (is_redundant u)) [
    | inl e ↦ rw e tt
    | inr e ↦ rw e (w.sound, e)
  ]

  slot-child : (t : Table) (j : ℕ) → get t.slots j ≡ child t (t.low + j)
  slot-child t j = ground arith

  Leaves-AllSound : (t : Table) → Leaves t → AllSound t.slots
  Leaves-AllSound t v =
      AllSound-everywhere t.slots (λ j. rw (slot-child t j, v (t.low + j)) (at (t.low + j)))
    where
      at : (x : ℕ) → IsChild (if c == x then survives u else child before x)
      at x = elim (Bool-cases (c == x)) [
        | inl e ↦ rw e survives-IsChild
        | inr e ↦ rw e (IsChild-child before x (unfold IsSound in h.2))
      ]

  module _ (t : Table) (v : Leaves t) where
    abbrev pub left : Trie
    left = node n t.low t.count (subs t.slots) t.slots

    counts_below :
        (q : List ℕ)
        → refs left q ≡ (
            if same_key (c ∷ rest) q
            then refs (node n low count live s) q - 1
            else refs (node n low count live s) q)
    unfolding same_key
    counts_below [] = unfold refs in refl
    counts_below (x ∷ xs) = elim (Bool-cases (c == x)) [
      | inl e ↦
          let here : child before x ≡ some u₀ = rw ((==_iff c x).0 e) at there in
          rw (refs-cons left x xs, v x, refs-cons (node n low count live s) x xs, e, here)
            (ground (arith, w.counts xs, refs-survives u xs w.sound))
      | inr e ↦ rw (refs-cons left x xs, v x, refs-cons (node n low count live s) x xs, e) refl
    ]

    pub left-Removed : Fits t → Removed (c ∷ rest) (node n low count live s) left last
    left-Removed fits = record {
      sound = unfold IsSound in (fits, refl, Leaves-AllSound t v);
      counts = counts_below;
      reports = rw (refs-cons (node n low count live s) c rest, there) w.reports;
    }

  abbrev pub at_c : ℕ
  at_c = c - low

  pub in_table :
      (get s (index c before) ≡ child before c)
      × (index c before ≡ c - low)
      × (index c before < width s)
      × (low ≤ c)
  in_table = get-index c before (unfold IsSound in h.0.sized) inside

  child-put :
      (o : Option Trie) (x : ℕ)
      → child (record before { slots = put s at_c o }) x ≡ (if c == x then o else child before x)
  child-put o x = ground (arith, get-put s at_c (x - low) o (omega (arith, in_table)), in_table)

  pub here : get s at_c ≡ some u₀
  here = rw (in_table.1) at (in_table.0 ∙ there)

  present : get s at_c ≢ none
  present z = cc here

  narrower_before : Fits before
  narrower_before = unfold IsSound in h.0

  subs_before : subs s ≡ live
  subs_before = unfold IsSound in h.1

  -- The child stays: its table entry is the same pointer, to what it has become.
  module _ (keep : is_redundant u ≡ false) where
    abbrev pub replaced : Table
    replaced = record before { slots = put s at_c (some u) }

    pub replaced-Leaves : Leaves replaced
    replaced-Leaves x = rw keep (child-put (some u) x)

    pub replaced-Fits : Fits replaced
    replaced-Fits = record {
      sized = rw width-put narrower_before.sized;
      narrow = narrower_before.narrow;
      leftmost = λ p z.
          ground
            (arith, get-put s at_c 0 (some u) (omega (arith, in_table)), narrower_before.leftmost);
      rightmost = λ p z. ground (
        arith,
        get-put s at_c (count - 1) (some u) (omega (arith, in_table)),
        narrower_before.rightmost,
      );
    }

    pub subs_replaced : subs (put s at_c (some u)) ≡ live
    subs_replaced =
        omega (arith, subs-put s at_c (some u) (omega (arith, in_table)), ap one here, subs_before)

  -- The only child goes, and the table with it.
  module _ (gone : is_redundant u ≡ true) (lone : (count == 1) ≡ true) where
    pub emptied-Leaves : Leaves (record { low = low; count = 0; slots = end })
    unfolding get
    emptied-Leaves x =
        rw gone (ground (arith, in_table, get_beyond s (x - low), narrower_before.sized))

    pub emptied-Fits : Fits (record { low = low; count = 0; slots = end })
    unfolding width
    emptied-Fits = record {
      sized = refl;
      narrow = omega (arith, narrower_before.narrow);
      leftmost = λ p z. absurd (omega arith);
      rightmost = λ p z. absurd (omega arith);
    }

    pub live_one : live ≡ 1
    live_one =
        ground (arith, subs_single s, ap one here, subs_before, narrower_before.sized, in_table)

  -- The child goes, and others stay.
  module _ (gone : is_redundant u ≡ true) (several : (count == 1) ≡ false) where
    abbrev pub holed : Table
    holed = record before { slots = put s at_c none }

    pub holed-Leaves : Leaves holed
    holed-Leaves x = rw gone (child-put none x)

    pub holed-Holed : Holed c holed
    holed-Holed = record {
      sized = rw width-put narrower_before.sized;
      narrow = narrower_before.narrow;
      many = ground (arith, in_table, narrower_before.sized);
      above = omega (arith, in_table);
      under = omega (arith, in_table, narrower_before.sized);
      hole = ground (arith, get-put s at_c at_c none (omega (arith, in_table)));
      left = λ ne z. ground (
        arith,
        get-put s at_c 0 none (omega (arith, in_table)),
        narrower_before.leftmost,
        in_table,
        narrower_before.sized,
      );
      right = λ ne z. ground (
        arith,
        get-put s at_c (count - 1) none (omega (arith, in_table)),
        narrower_before.rightmost,
        in_table,
        narrower_before.sized,
      );
    }

    pub subs_holed : subs (put s at_c none) + 1 ≡ live
    subs_holed = omega (arith, subs-put_gone s at_c present, subs_before)

    -- The other end of the table is live too.
    pub live_two : 1 < live
    live_two = elim (Bool-cases (c == low)) [
      | inl e ↦ omega (
        arith,
        subs_two s at_c (count - 1) present (narrower_before.rightmost (omega (arith, holed-Holed)))
            (ground (arith, holed-Holed.many)),
        subs_before,
      )
      | inr e ↦ omega (
        arith,
        subs_two s at_c 0 present (narrower_before.leftmost (omega (arith, holed-Holed)))
            (ground (arith, in_table)),
        subs_before,
      )
    ]
