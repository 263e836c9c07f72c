-- ===== src/Trie/Rm/Compact.antt =====
-- The table after the pointer at one of its characters was set to NULL: it is cut to the pointers
-- that are left, so that there is one at both ends again.
use zeromq.Prelude.{
  ℕ, zero, suc, ◌+◌, ◌-◌, ◌≤◌, ◌<◌, ◌≡◌, ◌≢◌, refl, sym, inl, inr, Bool, true, false, none, some,
  arith, ltb, ◌==◌, if◌then◌else◌, Bool-cases, Option-cases,
}
use zeromq.Trie.{Trie, Table, end, sub, get, take, drop, compact}
use zeromq.Trie.Lookup.{
  width, subs, get_beyond, get-take, get-drop, width-take, width-drop, subs-take, subs-drop,
}
use zeromq.Trie.Refs.{child, Fits}
use zeromq.Trie.Rm.Scan.{subs_two, only_one, First, first_in-First}

-- A table of two characters or more, with a NULL pointer at c and pointers at the ends that c is not.
pub record Holed (c : ℕ) (t : Table) : Type 0 where
  pub sized : width t.slots ≡ t.count
  pub narrow : t.low + t.count ≤ 256
  pub many : 1 < t.count
  pub above : t.low ≤ c
  pub under : c < t.low + t.count
  pub hole : get t.slots (c - t.low) ≡ none
  pub left : c ≢ t.low → get t.slots 0 ≢ none
  pub right : c ≢ t.low + t.count - 1 → get t.slots (t.count - 1) ≢ none

pub record Compacted (t t' : Table) : Type 0 where
  pub same : (x : ℕ) → child t' x ≡ child t x
  pub fits : Fits t'
  pub subs_kept : subs t'.slots ≡ subs t.slots

get_single : (u : Trie) (j : ℕ) → get (sub u end) j ≡ (if j == 0 then some u else none)
unfolding get
get_single u zero = refl
get_single u (suc j) = ground arith

module _ (c : ℕ) (t : Table) (h : Holed c t) where
  -- One pointer is left, at index i.
  single :
      (i : ℕ) (u : Trie)
      → get t.slots i ≡ some u
      → subs t.slots ≡ 1
      → i < t.count
      → Compacted t (record { low = t.low + i; count = 1; slots = sub u end })
  unfolding get subs width
  single i u e n lt = record {
    same = λ x. same x (x == t.low + i) refl;
    fits = record {
      sized = refl;
      narrow = omega (arith, h.narrow);
      leftmost = λ _ z. cc;
      rightmost = λ _ z. cc;
    };
    subs_kept = sym n;
  }
    where
      same :
          (x : ℕ) (b : Bool)
          → (x == t.low + i) ≡ b
          → child (record { low = t.low + i; count = 1; slots = sub u end }) x ≡ child t x
      same x true q = ground (arith, get_single u (x - (t.low + i)))
      same x false q =
          ground (arith, get_single u (x - (t.low + i)), only_one t.slots i (x - t.low) n (λ z. cc))

  empty_left :
      (i : ℕ) → First (get t.slots) 1 i → c ≡ t.low → (j : ℕ) → j < i → get t.slots j ≡ none
  empty_left i w at zero q = ground (arith, h.hole)
  empty_left i w at (suc j) q = w.before (suc j) (omega arith) q

  empty_right :
      (i : ℕ)
      → First (λ j. get t.slots (t.count - 1 - j)) 1 i
      → c ≡ t.low + t.count - 1
      → (j : ℕ) → t.count - i ≤ j
      → get t.slots j ≡ none
  empty_right i w at j q = elim (Bool-cases (ltb (t.count - 1) j)) [
    | inl out ↦ get_beyond t.slots j (ground (arith, h.sized, h.many))
    | inr in_range ↦ elim (Bool-cases (j == t.count - 1)) [
      | inl last ↦ ground (arith, h.hole, h.many)
      | inr inner ↦
          let k = t.count - 1 - j in
          let mirror : t.count - 1 - k ≡ j = ground (arith, h.many) in
          rw mirror at (w.before k (ground (arith, h.many)) (ground (arith, h.many)))
    ]
  ]

  from_left :
      (i : ℕ)
      → First (get t.slots) 1 i
      → i < t.count
      → c ≡ t.low
      → Compacted t (record { low = t.low + i; count = t.count - i; slots = drop i t.slots })
  from_left i w lt at = record {
    same = λ x. ground (arith, get-drop i t.slots (x - (t.low + i)), empty_left i w at (x - t.low));
    fits = record {
      sized = rw (width-drop i t.slots (omega (arith, h.sized)), h.sized) refl;
      narrow = omega (arith, h.narrow);
      leftmost = λ _ z. w.there (ground (arith, get-drop i t.slots 0));
      rightmost = λ p z.
          h.right (omega (arith, h.many)) (ground (arith, get-drop i t.slots (t.count - i - 1)));
    };
    subs_kept = subs-drop i t.slots (empty_left i w at);
  }

  from_right :
      (i : ℕ)
      → First (λ j. get t.slots (t.count - 1 - j)) 1 i
      → i < t.count
      → c ≡ t.low + t.count - 1
      → Compacted t (record t { count = t.count - i; slots = take (t.count - i) t.slots })
  from_right i w lt at = record {
    same = λ x.
        ground (arith, get-take (t.count - i) t.slots (x - t.low), empty_right i w at (x - t.low));
    fits = record {
      sized = width-take (t.count - i) t.slots (omega (arith, h.sized));
      narrow = omega (arith, h.narrow);
      leftmost =
          λ _ z. h.left (omega (arith, h.many)) (ground (arith, get-take (t.count - i) t.slots 0));
      rightmost = λ p z. w.there (ground (arith, get-take (t.count - i) t.slots (t.count - i - 1)));
    };
    subs_kept = subs-take (t.count - i) t.slots (empty_right i w at);
  }

  lone-Compacted :
      (subs t.slots == 1) ≡ true
      → (t' : Table) × (compact c (subs t.slots) t ≡ some t') × Compacted t t'
  unfolding compact
  lone-Compacted lone = elim (Bool-cases (c == t.low)) [
    | inl low ↦ elim (Option-cases (get t.slots (t.count - 1))) [
      | inl gone ↦ absurd (h.right (ground (arith, h.many)) gone)
      | inr (u, g) ↦ (
        record { low = t.low + (t.count - 1); count = 1; slots = sub u end },
        rw (lone, low, g) refl,
        single (t.count - 1) u g (ground arith) (omega (arith, h.many)),
      )
    ]
    | inr inner ↦ elim (Bool-cases (c == t.low + t.count - 1)) [
      | inl high ↦ elim (Option-cases (get t.slots 0)) [
        | inl gone ↦ absurd (h.left (ground (arith, h.many)) gone)
        | inr (u, g) ↦
            let at_low : t.low + 0 ≡ t.low = omega arith in
            (
              record { low = t.low; count = 1; slots = sub u end },
              rw (lone, inner, high, g) refl,
              rw at_low at (single 0 u g (ground arith) (omega (arith, h.many))),
            )
      ]
      | inr middle ↦ absurd (
          ground (
            arith,
            h.many,
            subs_two t.slots 0 (t.count - 1) (h.left (ground arith)) (h.right (ground arith))
                (omega (arith, h.many)),
          ))
    ]
  ]

  mirrored : (c == t.low) ≡ false → get t.slots (t.count - 1 - (t.count - 1)) ≢ none
  mirrored inner =
      let e : t.count - 1 - (t.count - 1) ≡ 0 = omega arith in rw e (h.left (ground arith))

  -- Whatever was left, the compaction succeeds and only cuts NULL pointers off.
  pub compact-Compacted :
      0 < subs t.slots → (t' : Table) × (compact c (subs t.slots) t ≡ some t') × Compacted t t'
  unfolding compact
  compact-Compacted pos = elim (Bool-cases (subs t.slots == 1)) [
    | inl lone ↦ lone-Compacted lone
    | inr more ↦ elim (Bool-cases (c == t.low)) [
      | inl low ↦
          let (i, run, le, w) =
            first_in-First (get t.slots) 1 (t.count - 1) (t.count - 1) (omega (arith, h.many))
              (omega (arith, h.many)) (h.right (ground (arith, h.many))) in
          (
            record { low = t.low + i; count = t.count - i; slots = drop i t.slots },
            rw (more, low, run) refl,
            from_left i w (omega (arith, h.many)) (ground arith),
          )
      | inr inner ↦ elim (Bool-cases (c == t.low + t.count - 1)) [
        | inl high ↦
            let (i, run, le, w) =
              first_in-First (λ i. get t.slots (t.count - 1 - i)) 1 (t.count - 1) (t.count - 1)
                (omega (arith, h.many)) (omega (arith, h.many)) (mirrored inner) in
            (
              record t { count = t.count - i; slots = take (t.count - i) t.slots },
              rw (more, inner, high, run) refl,
              from_right i w (omega (arith, h.many)) (ground arith),
            )
        | inr middle ↦ (
          t,
          rw (more, inner, middle) refl,
          record {
            same = λ x. refl;
            fits = record {
              sized = h.sized;
              narrow = h.narrow;
              leftmost = λ _. h.left (ground arith);
              rightmost = λ _. h.right (ground arith);
            };
            subs_kept = refl;
          },
        )
      ]
    ]
  ]
