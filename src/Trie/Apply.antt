-- ===== src/Trie/Apply.antt =====
-- `apply` calls the function once for each prefix that is subscribed to.
use zeromq.Prelude.{
  ℕ, suc, ◌+◌, ◌-◌, ◌%◌, ◌≤◌, ◌<◌, ◌≡◌, ◌≢◌, refl, sym, ap, ◌∙◌, inl, inr, true, false, not, ◌||◌,
  Option, none, some, List, [], ◌∷◌, ◌++◌, append-nil, append_assoc, ltb, ◌==◌, arith, Bool-cases,
  Option-cases, if◌then◌else◌,
}
use zeromq.Trie.{Trie, Slots, node, end, gap, sub, get, is_there, apply_helper, apply_table, apply}
use zeromq.Trie.Lookup.{width}
use zeromq.Trie.Refs.{IsSound, AllSound, refs, same_key}

-- What is behind the bytes of the buffer.
behind : List ℕ → List (List ℕ) → List (List ℕ)
behind buff [] = []
behind buff (p ∷ l) = (buff ++ p) ∷ behind buff l

-- The prefixes below a node, without what leads to it, and with it.
mutual
  suffixes : Trie → List (List ℕ)
  suffixes (node refcnt low count live s) =
      if ltb 0 refcnt then [] ∷ suffixes_in low s else suffixes_in low s

  suffixes_in : ℕ → Slots → List (List ℕ)
  suffixes_in c end = []
  suffixes_in c (gap s) = suffixes_in (c + 1) s
  suffixes_in c (sub t s) = behind (c ∷ []) (suffixes t) ++ suffixes_in (c + 1) s

behind-append : (b : List ℕ) (l l' : List (List ℕ)) → behind b (l ++ l') ≡ behind b l ++ behind b l'
unfolding behind
behind-append b [] l' = refl
behind-append b (p ∷ l) l' = ap (λ x. (b ++ p) ∷ x) (behind-append b l l')

behind-behind : (b a : List ℕ) (l : List (List ℕ)) → behind b (behind a l) ≡ behind (b ++ a) l
unfolding behind
behind-behind b a [] = refl
behind-behind b a (p ∷ l) = rw (append_assoc b a p, behind-behind b a l) refl

-- The pointer that the code follows without a test is there.
leftmost_there :
    (s : Slots) (count : ℕ)
    → (0 < count → get s 0 ≢ none)
    → not (count == 1) || is_there (get s 0) ≡ true
leftmost_there s count h = elim (Bool-cases (count == 1)) [
  | inr n ↦ rw n refl
  | inl y ↦ elim (Option-cases (get s 0)) [
    | inl e ↦ absurd (h (ground arith) e)
    | inr (t, e) ↦ rw (y, e) refl
  ]
]

mutual
  unfolding apply_helper apply_table behind suffixes suffixes_in IsSound AllSound width

  apply_helper_lem :
      (buff : List ℕ) (t : Trie) → IsSound t → apply_helper buff t ≡ some (behind buff (suffixes t))
  apply_helper_lem buff (node refcnt low count live s) (f, e, all) =
      let there = leftmost_there s count f.leftmost in
      let rest = apply_table_lem buff low s all (omega (arith, f.sized, f.narrow)) in
      elim (Bool-cases (ltb 0 refcnt)) [
        | inl y ↦
            rw (apply_helper, there, rest, y)
              (ap (λ b. some (b ∷ behind buff (suffixes_in low s))) (sym (append-nil buff)))
        | inr n ↦ rw (apply_helper, there, rest, n) refl
      ]

  apply_table_lem :
      (buff : List ℕ) (c : ℕ) (s : Slots)
      → AllSound s
      → c + width s ≤ 256
      → apply_table buff c s ≡ some (behind buff (suffixes_in c s))
  apply_table_lem buff c end all h = refl
  apply_table_lem buff c (gap s) all h = apply_table_lem buff (c + 1) s all (omega arith)
  apply_table_lem buff c (sub t s) (sound, n, all) h =
      let byte : c % 256 ≡ c = omega arith in
      let first = apply_helper_lem (buff ++ c ∷ []) t sound in
      let rest = apply_table_lem buff (c + 1) s all (omega arith) in
      rw (byte, first, rest)
        (ap some (
          ap (λ l. l ++ behind buff (suffixes_in (c + 1) s))
            (sym (behind-behind buff (c ∷ []) (suffixes t)))
          ∙ sym (behind-append buff (behind (c ∷ []) (suffixes t)) (suffixes_in (c + 1) s))))

-- How often a prefix is in the list.
abbrev pub times : List ℕ → List (List ℕ) → ℕ
times p [] = 0
times p (q ∷ l) = (if same_key p q then 1 else 0) + times p l

times-append : (p : List ℕ) (l l' : List (List ℕ)) → times p (l ++ l') ≡ times p l + times p l'
times-append p [] l' = omega arith
times-append p (q ∷ l) l' = omega (arith, times-append p l l')

times_empty : (c : ℕ) (l : List (List ℕ)) → times [] (behind (c ∷ []) l) ≡ 0
unfolding behind same_key
times_empty c [] = refl
times_empty c (p ∷ l) = omega (arith, times_empty c l)

times_under :
    (x c : ℕ) (p : List ℕ) (l : List (List ℕ))
    → times (x ∷ p) (behind (c ∷ []) l) ≡ (if x == c then times p l else 0)
unfolding behind same_key
times_under x c p [] = ground arith
times_under x c p (q ∷ l) = elim (Bool-cases (x == c)) [
  | inl y ↦
      let k : times (x ∷ p) (behind (c ∷ []) l) ≡ times p l = times_under x c p l ∙ rw y refl in
      rw (y, k) refl
  | inr n ↦
      let k : times (x ∷ p) (behind (c ∷ []) l) ≡ 0 = times_under x c p l ∙ rw n refl in
      rw (n, k) refl
]

-- 1 if there is a subscription, or a call.
abbrev pub once : ℕ → ℕ
once n = if ltb 0 n then 1 else 0

abbrev calls_below : List ℕ → Option Trie → ℕ
calls_below p none = 0
calls_below p (some u) = once (refs u p)

past_gap :
    (x c : ℕ) (s : Slots)
    → (if ltb x (c + 1) then none else get s (x - (c + 1)))
      ≡ (if ltb x c then none else get (gap s) (x - c))
unfolding get
past_gap x c s = elim (Bool-cases (ltb x c)) [
  | inl y ↦ let z : ltb x (c + 1) ≡ true = ground arith in rw (y, z) refl
  | inr n ↦ elim (Bool-cases (x == c)) [
    | inl y ↦
        let z : ltb x (c + 1) ≡ true = ground arith in
        let d : x - c ≡ 0 = ground arith in rw (n, z, d) refl
    | inr m ↦
        let z : ltb x (c + 1) ≡ false = ground arith in
        let d : x - c ≡ suc (x - (c + 1)) = ground arith in rw (n, z, d) refl
  ]
]

past_sub :
    (x c : ℕ) (p : List ℕ) (t : Trie) (s : Slots)
    → (if x == c then once (refs t p) else 0)
        + calls_below p (if ltb x (c + 1) then none else get s (x - (c + 1)))
      ≡ calls_below p (if ltb x c then none else get (sub t s) (x - c))
unfolding get
past_sub x c p t s = elim (Bool-cases (ltb x c)) [
  | inl y ↦
      let z : ltb x (c + 1) ≡ true = ground arith in
      let e : (x == c) ≡ false = ground arith in rw (y, z, e) refl
  | inr n ↦ elim (Bool-cases (x == c)) [
    | inl y ↦
        let z : ltb x (c + 1) ≡ true = ground arith in
        let d : x - c ≡ 0 = ground arith in rw (n, z, d, y) (omega arith)
    | inr m ↦
        let z : ltb x (c + 1) ≡ false = ground arith in
        let d : x - c ≡ suc (x - (c + 1)) = ground arith in rw (n, z, d, m) (omega arith)
  ]
]

mutual
  unfolding suffixes suffixes_in refs get same_key

  times-suffixes : (p : List ℕ) (t : Trie) → times p (suffixes t) ≡ once (refs t p)
  times-suffixes [] (node refcnt low count live s) = elim (Bool-cases (ltb 0 refcnt)) [
    | inl y ↦ rw y (omega (arith, none_empty low s))
    | inr n ↦ rw n (none_empty low s)
  ]
  times-suffixes (x ∷ p) (node refcnt low count live s) =
      let k = times-suffixes_in x p low s in
      elim (Bool-cases (ltb 0 refcnt)) [
        | inl y ↦ rw (y, k) (omega (arith, at_child (if ltb x low then none else get s (x - low))))
        | inr n ↦ rw (n, k) (at_child (if ltb x low then none else get s (x - low)))
      ]
    where
      at_child :
          (o : Option Trie) → calls_below p o ≡ once (elim o [ none ↦ 0 | some u ↦ refs u p ])
      at_child none = refl
      at_child (some u) = refl

  none_empty : (c : ℕ) (s : Slots) → times [] (suffixes_in c s) ≡ 0
  none_empty c end = refl
  none_empty c (gap s) = none_empty (c + 1) s
  none_empty c (sub t s) = omega (
    arith,
    times-append [] (behind (c ∷ []) (suffixes t)) (suffixes_in (c + 1) s),
    times_empty c (suffixes t),
    none_empty (c + 1) s,
  )

  times-suffixes_in :
      (x : ℕ) (p : List ℕ) (c : ℕ) (s : Slots)
      → times (x ∷ p) (suffixes_in c s) ≡ calls_below p (if ltb x c then none else get s (x - c))
  times-suffixes_in x p c end = elim (Bool-cases (ltb x c)) [
    | inl y ↦ rw y refl
    | inr n ↦ rw n refl
  ]
  times-suffixes_in x p c (gap s) =
      times-suffixes_in x p (c + 1) s ∙ ap (calls_below p) (past_gap x c s)
  times-suffixes_in x p c (sub t s) =
      let both = times-append (x ∷ p) (behind (c ∷ []) (suffixes t)) (suffixes_in (c + 1) s) in
      let first = times_under x c p (suffixes t) in
      let rest = times-suffixes_in x p (c + 1) s in
      let here = times-suffixes p t in both ∙ rw (first, rest, here) (past_sub x c p t s)

-- On a sound tree `apply` returns, and it calls the function once for each prefix that is subscribed to, and for no
-- other.
pub times-apply :
    (t : Trie)
    → IsSound t
    → (l : List (List ℕ)) × (apply t ≡ some l) × ((p : List ℕ) → times p l ≡ once (refs t p))
unfolding apply behind
times-apply t h = (
  suffixes t,
  apply_helper_lem [] t h ∙ ap some (behind_nothing (suffixes t)),
  λ p. times-suffixes p t,
)
  where
    behind_nothing : (l : List (List ℕ)) → behind [] l ≡ l
    behind_nothing [] = refl
    behind_nothing (q ∷ l) = ap (λ x. q ∷ x) (behind_nothing l)
