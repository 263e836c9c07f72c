-- ===== src/Trie/Add.antt =====
-- `add` counts one more subscription for its prefix, and no other, and keeps the tree's shape.
mod Extend
mod Place
use Extend.{Extended, extend-Extended}
use Place.{
  subs_pos, at_index, placed, child-placed, placed-Fits, placed-AllSound, subs-placed,
  subs-placed_pos,
}
use zeromq.Prelude.{
  ℕ, suc, ◌+◌, ◌-◌, ◌%◌, ◌^◌, ◌≤◌, ◌<◌, ◌≡◌, ◌≢◌, inl, inr, refl, ap, ◌∙◌, sym, Bool, true, false,
  ◌&&◌, Option, none, some, List, [], ◌∷◌, arith, ltb, ◌==◌, if◌then◌else◌, Bool-cases, ==_iff,
  Option-cases, All, IsByte, ◌>>=◌,
}
use zeromq.Trie.{Trie, Slots, Table, node, get, put, new, add, below, extend, index, is_redundant}
use zeromq.Trie.Lookup.{width, subs, one, subs_single}
use zeromq.Trie.Refs.{
  child, table, refcnt, live_nodes, refs, same_key, Fits, IsSound, AllSound, IsChild, IsChild-child,
  refs_below, refs-cons, new-IsSound,
}

-- What `add` made of the tree and what it returned.
pub record Added (k : List ℕ) (t t' : Trie) (fresh : Bool) : Type 0 where
  pub sound : IsSound t'
  pub kept : is_redundant t' ≡ false
  pub counts : (q : List ℕ) → refs t' q ≡ (if same_key k q then refs t q + 1 else refs t q)
  pub reports : fresh ≡ (refs t k == 0)

abbrev pub Adds : List ℕ → Trie → Type 0
Adds k t = (t' : Trie) × (fresh : Bool) × (add k t ≡ some (t', fresh)) × Added k t t' fresh

refs-new : (k : List ℕ) → refs new k ≡ 0
unfolding refs new get
refs-new [] = refl
refs-new (x ∷ xs) = ground arith

-- The child that is there, or a new one.
abbrev or_new : Option Trie → Trie
or_new none = new
or_new (some u) = u

refs-or_new : (o : Option Trie) (k : List ℕ) → refs (or_new o) k ≡ refs_below o k
refs-or_new none k = refs-new k
refs-or_new (some u) k = refl

or_new-IsSound : (o : Option Trie) → IsChild o → IsSound (or_new o)
or_new-IsSound none h = new-IsSound
or_new-IsSound (some u) h = h.0

counts_here :
    (n low count live : ℕ) (s : Slots) (q : List ℕ)
    → refs (node (n + 1) low count live s) q ≡ (
        if same_key [] q
        then refs (node n low count live s) q + 1
        else refs (node n low count live s) q)
unfolding refs same_key
counts_here n low count live s [] = refl
counts_here n low count live s (x ∷ xs) = refl

add_here :
    (n low count live : ℕ) (s : Slots)
    → IsSound (node n low count live s)
    → n + 1 < 2 ^ 32
    → Adds [] (node n low count live s)
unfolding add below IsSound is_redundant refs
add_here n low count live s h fits =
    let wrap : (n + 1) % 2 ^ 32 ≡ n + 1 = omega arith in
    (
      node (n + 1) low count live s,
      n + 1 == 1,
      rw wrap refl,
      record {
        sound = h;
        kept = ground arith;
        counts = counts_here n low count live s;
        reports = ground arith;
      },
    )

module _ (c n low count live : ℕ) (s : Slots) (byte : c < 256)
    (h : IsSound (node n low count live s)) where
  abbrev before : Table
  before = record { low = low; count = count; slots = s }

  abbrev room : Table
  room = extend c before

  ext : Extended c before room
  ext = extend-Extended c before byte (unfold IsSound in h.0)

  found : get room.slots (index c room) ≡ child before c
  found =
      (at_index c before room (unfold IsSound in h.0) (unfold IsSound in h.2) ext).0 ∙ ext.same c

  some_live : 0 < count → 0 < live
  unfolding IsSound
  some_live p = omega (arith, subs_pos s 0 (h.0.leftmost p), h.1)

  test :
      get room.slots (index c room) ≡ none
      → (if room.count == 1 then live + 1 == 1 else ltb 1 (live + 1)) ≡ true
  unfolding IsSound
  test free = elim (Bool-cases (room.count == 1)) [
    | inl o ↦
        let none_there : get room.slots 0 ≡ none = rw o at free in
        rw o
          (ground (arith, subs_single room.slots, ext.sized, ap one none_there, ext.subs_kept, h.1))
    | inr many ↦ rw many (ground (arith, some_live, ext.left, ext.right))
  ]

  -- There is a child at c, or one is made, and no assertion fails.
  below_lem :
      (live' : ℕ)
      → live' + one (child before c) ≡ live + 1
      → below (get room.slots (index c room)) room.count live
        ≡ some (or_new (child before c), live')
  unfolding below
  below_lem live' e = elim (Option-cases (child before c)) [
    | inl gone ↦
        let free : get room.slots (index c room) ≡ none = found ∙ gone in
        let made : live + 1 ≡ live' = omega (arith, ap one gone) in
        rw (free, gone, test free) (ap (λ l. some (new, l)) made)
    | inr (u, there) ↦
        let same : live ≡ live' = omega (arith, ap one there) in
        rw (found ∙ there, there) (ap (λ l. some (u, l)) same)
  ]

  module _ (rest : List ℕ) (u : Trie) (fresh : Bool)
      (run : add rest (or_new (child before c)) ≡ some (u, fresh))
      (w : Added rest (or_new (child before c)) u fresh) where
    abbrev after : Table
    after = placed c before room (unfold IsSound in h.0) (unfold IsSound in h.2) ext u

    abbrev result : Trie
    result = node n room.low room.count (subs after.slots) after.slots

    live_after : subs after.slots + one (child before c) ≡ live + 1
    unfolding IsSound
    live_after = omega (arith, subs-placed c before room h.0 h.2 ext u, h.1)

    add_below_runs : add (c ∷ rest) (node n low count live s) ≡ some (result, fresh)
    unfolding add
    add_below_runs = rw (below_lem (subs after.slots) live_after, ◌>>=◌, run) refl

    refs-after :
        (x : ℕ) (xs : List ℕ)
        → refs result (x ∷ xs) ≡ refs_below (if c == x then some u else child before x) xs
    refs-after x xs =
        refs-cons result x xs
        ∙ ap (λ o. refs_below o xs)
            (child-placed c before room (unfold IsSound in h.0) (unfold IsSound in h.2) ext u x)

    counts_below :
        (q : List ℕ)
        → refs result q ≡ (
            if same_key (c ∷ rest) q
            then refs (node n low count live s) q + 1
            else refs (node n low count live s) q)
    unfolding same_key
    counts_below [] = unfold refs in refl
    counts_below (x ∷ xs) = elim (Bool-cases (c == x)) [
      | inl e ↦
          let here : child before c ≡ child before x = ap (child before) ((==_iff c x).0 e) in
          rw (refs-after x xs, refs-cons (node n low count live s) x xs, e, ← here)
            (ground (arith, w.counts xs, refs-or_new (child before c) xs))
      | inr e ↦ rw (refs-after x xs, refs-cons (node n low count live s) x xs, e) refl
    ]

    add_below : Adds (c ∷ rest) (node n low count live s)
    unfolding IsSound
    add_below = (
      result,
      fresh,
      add_below_runs,
      record {
        sound = (
          placed-Fits c before room h.0 h.2 ext u,
          refl,
          placed-AllSound c before room h.0 h.2 ext u w.sound w.kept,
        );
        kept = unfold is_redundant in ground (arith, subs-placed_pos c before room h.0 h.2 ext u);
        counts = counts_below;
        reports =
            rw (refs-cons (node n low count live s) c rest, ← refs-or_new (child before c) rest)
              w.reports;
      },
    )

refs_below-cons :
    (c n low count live : ℕ) (s : Slots) (rest : List ℕ) (h : IsSound (node n low count live s))
    (byte : c < 256)
    → refs (or_new (child (before c n low count live s byte h) c)) rest
      ≡ refs (node n low count live s) (c ∷ rest)
refs_below-cons c n low count live s rest h byte =
    refs-or_new (child (record { low = low; count = count; slots = s }) c) rest
    ∙ sym (refs-cons (node n low count live s) c rest)

-- On a sound tree with room in its counters, `add` returns (no assertion fails), the tree stays sound,
-- the count of the prefix grows by one, all others stay, and the result says whether it was new.
pub add-Adds : (k : List ℕ) (t : Trie) → All IsByte k → IsSound t → refs t k + 1 < 2 ^ 32 → Adds k t
add-Adds [] (node n low count live s) bytes h room_left =
    unfold refs in add_here n low count live s h room_left
add-Adds (c ∷ rest) (node n low count live s) bytes h room_left =
    let t : Table = record { low = low; count = count; slots = s } in
    let o = child t c in
    let (u, fresh, run, w) =
      add-Adds rest (or_new o) bytes.1
        (or_new-IsSound o (IsChild-child t c (unfold IsSound in h.2)))
        (omega (arith, refs_below-cons c n low count live s rest h bytes.0)) in
    add_below c n low count live s bytes.0 h rest u fresh run w
