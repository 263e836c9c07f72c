-- ===== src/Trie/Rm.antt =====
-- `rm` takes one subscription back, and no other, and keeps the tree's shape.
mod Scan
mod Compact
mod Leaves
use Compact.{Compacted, compact-Compacted}
use Leaves
use Leaves.{Removed, absent, left-Removed}
use zeromq.Prelude.{
  ℕ, suc, ◌+◌, ◌-◌, ◌≤◌, ◌<◌, ◌≡◌, ◌≢◌, inl, inr, refl, ap, ◌∙◌, sym, Bool, true, false, ◌&&◌, ◌||◌,
  Option, none, some, List, [], ◌∷◌, arith, ltb, ◌==◌, if◌then◌else◌, Bool-cases, ==_iff,
  Option-cases, ◌>>=◌, require,
}
use zeromq.Trie.{Trie, Slots, Table, node, end, get, put, rm, compact, index, outside, is_redundant}
use zeromq.Trie.Lookup.{width, subs, get_beyond}
use zeromq.Trie.Refs.{
  child, table, refs, same_key, Fits, IsSound, IsChild, IsChild-child, refs_below, refs-cons,
  get-index, child-outside,
}

abbrev pub Removes : List ℕ → Trie → Type 0
Removes k t = (t' : Trie) × (last : Bool) × (rm k t ≡ some (t', last)) × Removed k t t' last

-- No child under the first character: nothing to remove.
absent_below :
    (c : ℕ) (rest : List ℕ) (t : Trie)
    → IsSound t
    → child (table t) c ≡ none
    → Removed (c ∷ rest) t t false
absent_below c rest t h gone = absent (c ∷ rest) t h (rw (refs-cons t c rest, gone) refl)

no_child :
    (c : ℕ) (t : Table)
    → Fits t
    → (t.count == 0 || outside c t.low t.count) ≡ true
    → child t c ≡ none
no_child c t h e = elim (Bool-cases (outside c t.low t.count)) [
  | inl o ↦ child-outside c t h.sized o
  | inr i ↦ ground (arith, get_beyond t.slots (c - t.low), h.sized)
]

counts_down :
    (n low count live : ℕ) (s : Slots) (q : List ℕ)
    → refs (node (n - 1) low count live s) q ≡ (
        if same_key [] q
        then refs (node n low count live s) q - 1
        else refs (node n low count live s) q)
unfolding refs same_key
counts_down n low count live s [] = refl
counts_down n low count live s (x ∷ xs) = refl

rm_here :
    (n low count live : ℕ) (s : Slots)
    → IsSound (node n low count live s)
    → Removes [] (node n low count live s)
unfolding rm
rm_here n low count live s h = elim (Bool-cases (n == 0)) [
  | inl z ↦ (
    node n low count live s,
    false,
    rw z refl,
    absent [] (node n low count live s) h (unfold refs in ground arith),
  )
  | inr nz ↦ (
    node (n - 1) low count live s,
    n - 1 == 0,
    rw nz refl,
    record {
      sound = unfold IsSound in h;
      counts = counts_down n low count live s;
      reports = unfold refs in ground arith;
    },
  )
]

module _ (c n low count live : ℕ) (s : Slots) (h : IsSound (node n low count live s))
    (inside : outside c low count ≡ false) (u₀ : Trie)
    (there : child (record { low = low; count = count; slots = s }) c ≡ some u₀) (rest : List ℕ)
    (u : Trie) (last : Bool) (run : rm rest u₀ ≡ some (u, last)) (w : Removed rest u₀ u last) where
  abbrev t : Table
  t = record { low = low; count = count; slots = s }

  in_table :
      (get s (index c t) ≡ child t c) × (index c t ≡ c - low) × (index c t < width s) × (low ≤ c)
  in_table = Leaves.in_table c n low count live s h inside u₀ there rest u last w

  found : get s (index c t) ≡ some u₀
  found = in_table.0 ∙ there

  not_empty : (count == 0 || outside c low count) ≡ false
  not_empty = let fits : Fits t = unfold IsSound in h.0 in ground (arith, fits.sized, in_table)

  rm_stays : is_redundant u ≡ false → Removes (c ∷ rest) (node n low count live s)
  unfolding rm
  rm_stays keep =
      let v = Leaves.replaced-Leaves c n low count live s h inside u₀ there rest u last w keep in
      let f = Leaves.replaced-Fits c n low count live s h inside u₀ there rest u last w keep in
      let e = Leaves.subs_replaced c n low count live s h inside u₀ there rest u last w keep in
      (
        _,
        last,
        rw (not_empty, found, run, keep, in_table.1)
            (ap (λ l. some (node n low count l (put s (c - low) (some u)), last)) (sym e)),
        left-Removed c n low count live s h inside u₀ there rest u last w _ v f,
      )

  rm_empties :
      is_redundant u ≡ true → (count == 1) ≡ true → Removes (c ∷ rest) (node n low count live s)
  unfolding rm subs
  rm_empties gone lone =
      let v =
        Leaves.emptied-Leaves c n low count live s h inside u₀ there rest u last w gone lone in
      let f = Leaves.emptied-Fits c n low count live s h inside u₀ there rest u last w gone lone in
      let e = Leaves.live_one c n low count live s h inside u₀ there rest u last w gone lone in
      let none_live : live - 1 ≡ 0 = omega arith in
      (
        _,
        last,
        rw (not_empty, found, run, gone, lone, none_live) refl,
        left-Removed c n low count live s h inside u₀ there rest u last w
            (record { low = low; count = 0; slots = end }) v f,
      )

  module _ (gone : is_redundant u ≡ true) (several : (count == 1) ≡ false) where
    abbrev holed : Table
    holed = record t { slots = put s (c - low) none }

    cut_to :
        (t' : Table)
        → compact c (subs holed.slots) holed ≡ some t'
        → Compacted holed t'
        → Removes (c ∷ rest) (node n low count live s)
    unfolding rm
    cut_to t' cut k =
        let v =
          Leaves.holed-Leaves c n low count live s h inside u₀ there rest u last w gone several in
        let e =
          Leaves.subs_holed c n low count live s h inside u₀ there rest u last w gone several in
        let two =
          Leaves.live_two c n low count live s h inside u₀ there rest u last w gone several in
        let enough : ltb 1 live ≡ true = ground arith in
        let rest_live : live - 1 ≡ subs holed.slots = omega arith in
        (
          _,
          last,
          rw (not_empty, found, run, gone, several, enough, rest_live, cut)
              (ap (λ l. some (node n t'.low t'.count l t'.slots, last)) (sym k.subs_kept)),
          left-Removed c n low count live s h inside u₀ there rest u last w t' (λ x. k.same x ∙ v x)
              k.fits,
        )

    rm_compacts : Removes (c ∷ rest) (node n low count live s)
    rm_compacts =
        let f =
          Leaves.holed-Holed c n low count live s h inside u₀ there rest u last w gone several in
        let e =
          Leaves.subs_holed c n low count live s h inside u₀ there rest u last w gone several in
        let two =
          Leaves.live_two c n low count live s h inside u₀ there rest u last w gone several in
        let (t', cut, k) = compact-Compacted c holed f (omega arith) in cut_to t' cut k

  rm_below : Removes (c ∷ rest) (node n low count live s)
  rm_below = elim (Bool-cases (is_redundant u)) [
    | inr keep ↦ rm_stays keep
    | inl gone ↦ elim (Bool-cases (count == 1)) [
      | inl lone ↦ rm_empties gone lone
      | inr several ↦ rm_compacts gone several
    ]
  ]

-- On a sound tree `rm` returns (no assertion fails), the tree stays sound, the count of the prefix
-- falls by one if it was not zero, all others stay, and the result says whether the last one went.
pub rm-Removes : (k : List ℕ) (t : Trie) → IsSound t → Removes k t
rm-Removes [] (node n low count live s) h = rm_here n low count live s h
rm-Removes (c ∷ rest) (node n low count live s) h =
    let t : Table = record { low = low; count = count; slots = s } in
    elim (Bool-cases (count == 0 || outside c low count)) [
      | inl e ↦ (
        node n low count live s,
        false,
        unfold rm in rw e refl,
        absent_below c rest (node n low count live s) h (no_child c t (unfold IsSound in h.0) e),
      )
      | inr e ↦
          let inside : outside c low count ≡ false = ground arith in
          let found : get s (index c t) ≡ child t c =
            (get-index c t (unfold IsSound in h.0.sized) inside).0 in
          elim (Option-cases (child t c)) [
            | inl g ↦ (
              node n low count live s,
              false,
              unfold rm in rw (e, found, g) refl,
              absent_below c rest (node n low count live s) h g,
            )
            | inr (u₀, g) ↦
                let sound = rw g at (IsChild-child t c (unfold IsSound in h.2)) in
                let (u, last, run, w) = rm-Removes rest u₀ sound.0 in
                rm_below c n low count live s h inside u₀ g rest u last run w
          ]
    ]
