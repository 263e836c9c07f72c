-- ===== src/Trie/Check.antt =====
-- `check` says whether some prefix of the data is subscribed to, and follows no NULL pointer.
use mathlib.Core.List.{head-eq_of_cons-eq, tail-eq_of_cons-eq}
use zeromq.Prelude.{
  ℕ, ◌<◌, ◌≡◌, ◌↔◌, inl, inr, refl, ap, ◌∙◌, sym, Bool, true, false, none, some, List, [], ◌∷◌,
  ◌++◌, arith, ltb, ◌==◌, ltb→lt, Bool-cases, Option-cases,
}
use zeromq.Trie.{Trie, Slots, Table, node, get, check, outside, index}
use zeromq.Trie.Refs.{
  child, table, refs, IsSound, IsChild-child, get-index, child-outside, refs_below, refs-cons,
}

-- A subscription that begins the data.
abbrev pub Subscribed : List ℕ → Trie → Type 0
Subscribed d t = (p r : List ℕ) × (d ≡ p ++ r) × (0 < refs t p)

abbrev pub Checks : List ℕ → Trie → Type 0
Checks d t = (b : Bool) × (check d t ≡ some b) × ((b ≡ true) ↔ Subscribed d t)

nil_prefix : (p r : List ℕ) → [] ≡ p ++ r → p ≡ []
nil_prefix [] r e = refl
nil_prefix (x ∷ p) r e = cc

-- A subscription that begins the data is the empty one, or its first character is the data's.
split_prefix :
    (c : ℕ) (rest : List ℕ) (t : Trie)
    → Subscribed (c ∷ rest) t
    → refs t [] ≡ 0
    → (p r : List ℕ) × (rest ≡ p ++ r) × (0 < refs_below (child (table t) c) p)
split_prefix c rest t ([], r, e, pos) z = absurd (omega arith)
split_prefix c rest t (x ∷ p, r, e, pos) z =
    let same : c ≡ x = head-eq_of_cons-eq e in
    (p, r, tail-eq_of_cons-eq e, rw same (rw (refs-cons t x p) at pos))

join_prefix :
    (c : ℕ) (rest : List ℕ) (t : Trie) (p r : List ℕ)
    → rest ≡ p ++ r
    → 0 < refs_below (child (table t) c) p
    → Subscribed (c ∷ rest) t
join_prefix c rest t p r e pos = (c ∷ p, r, ap (λ l. c ∷ l) e, rw (refs-cons t c p) pos)

-- With no child under the character and no subscription here, there is none for the data.
none_below :
    (c : ℕ) (rest : List ℕ) (t : Trie)
    → refs t [] ≡ 0
    → child (table t) c ≡ none
    → (false ≡ true) ↔ Subscribed (c ∷ rest) t
none_below c rest t z gone = (
  λ e. cc,
  λ s. let (p, r, e, pos) = split_prefix c rest t s z in absurd (omega (arith, rw gone at pos)),
)

-- Below a child that is there, the subscriptions are the child's.
child_below :
    (c : ℕ) (rest : List ℕ) (t u : Trie) (b : Bool)
    → refs t [] ≡ 0
    → child (table t) c ≡ some u
    → (b ≡ true) ↔ Subscribed rest u
    → (b ≡ true) ↔ Subscribed (c ∷ rest) t
child_below c rest t u b z there iff = (down, up)
  where
    down : b ≡ true → Subscribed (c ∷ rest) t
    down e = let (p, r, q, pos) = iff.0 e in join_prefix c rest t p r q (rw there pos)

    up : Subscribed (c ∷ rest) t → b ≡ true
    up w = let (p, r, q, pos) = split_prefix c rest t w z in iff.1 (p, r, q, rw there at pos)

not_single :
    (c low count live : ℕ) (s : Slots) (n : ℕ)
    → IsSound (node n low count live s)
    → get s (index c (record { low = low; count = count; slots = s })) ≡ none
    → (count == 1) ≡ false
unfolding IsSound
not_single c low count live s n h g = ground (arith, h.0.leftmost)

-- `check` on a sound tree returns, and returns true exactly if a subscription begins the data.
pub check-Checks : (d : List ℕ) (t : Trie) → IsSound t → Checks d t
unfolding check refs IsSound
check-Checks [] (node n low count live s) h = (
  ltb 0 n,
  refl,
  (
    λ e. ([], [], refl, ground arith),
    λ w. let (p, r, e, pos) = w in ground (arith, rw (nil_prefix p r e) at pos),
  ),
)
check-Checks (c ∷ rest) (node n low count live s) h =
    let t : Table = record { low = low; count = count; slots = s } in
    elim (Bool-cases (ltb 0 n)) [
      | inl e ↦ (true, rw e refl, (λ _. ([], c ∷ rest, refl, ltb→lt 0 n e), λ _. refl))
      | inr e ↦
          let z : n ≡ 0 = ground arith in
          elim (Bool-cases (outside c low count)) [
            | inl o ↦
                let gone : child t c ≡ none = child-outside c t h.0.sized o in
                (false, rw (e, o) refl, none_below c rest (node n low count live s) z gone)
            | inr i ↦
                let found : get s (index c t) ≡ child t c = (get-index c t h.0.sized i).0 in
                elim (Option-cases (get s (index c t))) [
                  | inl g ↦
                      let many : (count == 1) ≡ false = not_single c low count live s n h g in
                      (
                        false,
                        rw (e, i, g, many) refl,
                        none_below c rest (node n low count live s) z (sym found ∙ g),
                      )
                  | inr (u, g) ↦
                      let there : child t c ≡ some u = sym found ∙ g in
                      let child_sound = rw there at (IsChild-child t c h.2) in
                      let (b, run, iff) = check-Checks rest u child_sound.0 in
                      (
                        b,
                        rw (e, i, g) run,
                        child_below c rest (node n low count live s) u b z there iff,
                      )
                ]
          ]
    ]
