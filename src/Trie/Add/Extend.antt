-- ===== src/Trie/Add/Extend.antt =====
-- The table after it was extended for a character: the same pointers, and room for one more.
use zeromq.Prelude.{
  ℕ, ◌+◌, ◌-◌, ◌≤◌, ◌<◌, ◌≡◌, ◌⊎◌, inl, inr, min, refl, ap, true, false, arith, ltb, ◌==◌,
  if◌then◌else◌, Bool-cases,
}
use zeromq.Trie.{Table, end, gap, get, put, pad_left, pad_right, outside, extend}
use zeromq.Trie.Lookup.{
  width, subs, one, get_beyond, get-put, width-put, subs-put, get-pad_left, width-pad_left,
  subs-pad_left, get-pad_right, width-pad_right, subs-pad_right, subs-le-width, subs_single,
  get-blank, subs-blank,
}
use zeromq.Trie.Refs.{child, Fits}

pub record Extended (c : ℕ) (t t' : Table) : Type 0 where
  pub same : (x : ℕ) → child t' x ≡ child t x
  pub inside : outside c t'.low t'.count ≡ false
  pub sized : width t'.slots ≡ t'.count
  pub narrow : t'.low + t'.count ≤ 256
  pub subs_kept : subs t'.slots ≡ subs t.slots
  pub left : (t'.low ≡ c) ⊎ ((t'.low ≡ t.low) × (0 < t.count))
  pub right : (t'.low + t'.count ≡ c + 1) ⊎ ((t'.low + t'.count ≡ t.low + t.count) × (0 < t.count))

module _ (c : ℕ) (t : Table) (byte : c < 256) (h : Fits t) where
  kept : outside c t.low t.count ≡ false → Extended c t t
  kept e = record {
    same = λ x. refl;
    inside = e;
    sized = h.sized;
    narrow = h.narrow;
    subs_kept = refl;
    left = ground arith;
    right = ground arith;
  }

  first : t.count ≡ 0 → Extended c t (record { low = c; count = 1; slots = gap end })
  unfolding width subs pad_left
  first e = record {
    same = λ x. ground (arith, get-blank 1 (x - c), get_beyond t.slots (x - t.low), h.sized);
    inside = ground arith;
    sized = refl;
    narrow = omega arith;
    subs_kept = omega (arith, subs-le-width t.slots, h.sized);
    left = inl refl;
    right = inl refl;
  }

  above :
      outside c t.low t.count ≡ true
      → t.low < c
      → 0 < t.count
      → Extended c t
          (record t { count = c - t.low + 1; slots = pad_right t.slots (c - t.low + 1 - t.count) })
  above e lt some = record {
    same = λ x. rw (get-pad_right t.slots (c - t.low + 1 - t.count) (x - t.low)) refl;
    inside = ground arith;
    sized = ground (arith, width-pad_right t.slots (c - t.low + 1 - t.count), h.sized);
    narrow = omega arith;
    subs_kept = subs-pad_right t.slots (c - t.low + 1 - t.count);
    left = inr (refl, some);
    right = inl (omega arith);
  }

  under :
      c < t.low
      → 0 < t.count
      → Extended c t
          (record { low = c; count = t.low + t.count - c; slots = pad_left (t.low - c) t.slots })
  under lt some = record {
    same = λ x. ground (arith, get-pad_left (t.low - c) t.slots (x - c));
    inside = ground arith;
    sized = omega (arith, width-pad_left (t.low - c) t.slots, h.sized);
    narrow = omega (arith, h.narrow);
    subs_kept = subs-pad_left (t.low - c) t.slots;
    left = inl refl;
    right = inr (omega arith, some);
  }

  split :
      (n : ℕ)
      → outside c t.low t.count ≡ true
      → t.count ≡ 1
      → n ≡ (if ltb t.low c then c - t.low else t.low - c) + 1
      → Extended c t (record {
        low = min t.low c;
        count = n;
        slots = put (pad_left n end) (t.low - min t.low c) (get t.slots 0);
      })
  unfolding subs width
  split n e one_child len = record {
    same = λ x. ground (
      arith,
      get-put (pad_left n end) (t.low - min t.low c) (x - min t.low c) (get t.slots 0) at_end,
      get-blank n (x - min t.low c),
      get_beyond t.slots (x - t.low),
      h.sized,
    );
    inside = ground arith;
    sized = rw (width-put, width-pad_left) (omega arith);
    narrow = ground (arith, h.narrow);
    subs_kept = omega (
      arith,
      subs-put (pad_left n end) (t.low - min t.low c) (get t.slots 0) at_end,
      subs-blank n,
      ap one (get-blank n (t.low - min t.low c)),
      subs_single t.slots (omega (arith, h.sized)),
    );
    left = ground arith;
    right = ground arith;
  }
    where
      at_end : t.low - min t.low c < width (pad_left n end)
      at_end = rw width-pad_left (ground arith)

  -- Every branch of the code.
  pub extend-Extended : Extended c t (extend c t)
  unfolding extend
  extend-Extended = elim (Bool-cases (outside c t.low t.count)) [
    | inr e ↦ rw e (kept e)
    | inl e ↦ elim (Bool-cases (t.count == 0)) [
      | inl z ↦ rw (e, z) (first (ground arith))
      | inr nz ↦ elim (Bool-cases (t.count == 1)) [
        | inl o ↦ rw (e, nz, o) (split _ e (ground arith) refl)
        | inr many ↦ elim (Bool-cases (ltb t.low c)) [
          | inl up ↦ rw (e, nz, many, up) (above e (ground arith) (ground arith))
          | inr down ↦ rw (e, nz, many, down) (under (ground arith) (ground arith))
        ]
      ]
    ]
  ]
