-- ===== src/MsgStore/Give.antt =====
-- A message comes to point to a new content.
use zeromq.Prelude.{
  ℕ, zero, suc, ◌<◌, ◌≡◌, ◌≢◌, ◌⊎◌, refl, sym, ap, ◌∙◌, inl, inr, true, Option, none, some, List,
  [], ◌∷◌, ◌++◌, length, get_or, set, length-set, arith,
}
use zeromq.MsgStore.{Body, zclmsg, Content, Store, message, load, plain, allocate}
use zeromq.MsgStore.Count.{points, count, count-set, points-count}
use zeromq.MsgStore.Sound.{
  IsSound, message_cases, points_other, PointsNowhere, points-zclmsg, same_or_not,
}

get_or-snoc :
    (xs : List (Option Content)) (c : Content)
    → get_or (xs ++ some c ∷ []) (length xs) none ≡ some c
get_or-snoc [] c = refl
get_or-snoc (x ∷ xs) c = get_or-snoc xs c

get_or-snoc_ne :
    (xs : List (Option Content)) (c : Content) (p : ℕ)
    → p ≢ length xs
    → get_or (xs ++ some c ∷ []) p none ≡ get_or xs p none
get_or-snoc_ne [] c zero n = absurd (n refl)
get_or-snoc_ne [] c (suc p) n = refl
get_or-snoc_ne (x ∷ xs) c zero n = refl
get_or-snoc_ne (x ∷ xs) c (suc p) n = get_or-snoc_ne xs c p (λ e. n (ap suc e))

out_of_range : (xs : List (Option Content)) → get_or xs (length xs) none ≡ none
out_of_range [] = refl
out_of_range (x ∷ xs) = out_of_range xs

-- The two kinds of message with a content.
pub record PointsTo (q : ℕ) (b : Body) (c : Content) : Type 0 where
  pub to : points q b ≡ 1
  pub outer : (p : ℕ) → b ≡ zclmsg p → c.ffn ≡ true

module _ (s : Store) (i : ℕ) (kind : ℕ → Body) (c : Content) where
  new_at : ℕ
  new_at = length s.contents

  load_new :
      (p : ℕ)
      → ((p ≡ length s.contents) × (load p (allocate i kind c s) ≡ some c))
        ⊎ ((p ≢ length s.contents) × (load p (allocate i kind c s) ≡ load p s))
  load_new p = elim (same_or_not p (length s.contents)) [
    | inl e ↦
        inl (e, ap (λ x. get_or (s.contents ++ some c ∷ []) x none) e ∙ get_or-snoc s.contents c)
    | inr n ↦ inr (n, get_or-snoc_ne s.contents c p n)
  ]

  pub allocate-IsSound :
      i < length s.messages
      → PointsNowhere (message i s).type
      → PointsTo (length s.contents) (kind (length s.contents)) c
      → IsSound s
      → IsSound (allocate i kind c s)
  allocate-IsSound h old new v =
      let q = length s.contents in
      let m = plain (kind q) in
      let none_yet : count q s.messages ≡ 0 = v.freed q (out_of_range s.contents) in
      let ms = set s.messages i m in
      let one : count q ms ≡ 1 =
        omega (arith, count-set q i m s.messages h, old q, new.to, none_yet) in
      let others : (p : ℕ) → p ≢ q → count p ms ≡ count p s.messages = λ p n.
        omega (arith, count-set p i m s.messages h, old p, points_other p q (kind q) new.to n) in
      record {
        few = omega (arith, length-set s.messages i m, v.few);
        freed = λ p e. elim (load_new p) [
          | inl (a, b) ↦ absurd (let f = sym b ∙ e in cc)
          | inr (n, b) ↦ others p n ∙ v.freed p (sym b ∙ e)
        ];
        used = λ p d e. elim (load_new p) [
          | inl (a, b) ↦ omega (arith, ap (λ x. count x ms) a, one)
          | inr (n, b) ↦ omega (arith, others p n, v.used p d (sym b ∙ e))
        ];
        alone = λ k p e f. elim (same_or_not p q) [
          | inl a ↦ ap (λ x. count x ms) a ∙ one
          | inr n ↦ elim (message_cases s i k m h) [
            | inl (x, y) ↦ absurd (
                omega (
                  arith,
                  points_other p q (kind q) new.to n,
                  sym (ap (λ x. points p x.type) y) ∙ e,
                ))
            | inr (x, y) ↦
                others p n
                ∙ v.alone k p (sym (ap (λ x. points p x.type) y) ∙ e)
                    (sym (ap (λ x. x.shared) y) ∙ f)
          ]
        ];
        shared = λ k p d e f l. elim (message_cases s i k m h) [
          | inl (x, y) ↦ absurd (let g = sym (ap (λ x. x.shared) y) ∙ f in cc)
          | inr (x, y) ↦
              let old_points = sym (ap (λ x. points p x.type) y) ∙ e in
              elim (load_new p) [
                | inl (a, b) ↦ absurd (
                    omega (
                      arith,
                      points-count p k s.messages,
                      old_points,
                      ap (λ x. count x s.messages) a,
                      none_yet,
                    ))
                | inr (n, b) ↦
                    v.shared k p d old_points (sym (ap (λ x. x.shared) y) ∙ f) (sym b ∙ l)
                    ∙ sym (others p n)
              ]
        ];
        outer = λ k p d e l. elim (message_cases s i k m h) [
          | inl (x, y) ↦ elim (load_new p) [
            | inl (a, b) ↦
                let same : d.ffn ≡ c.ffn = let g = sym l ∙ b in cc in
                same ∙ new.outer p (sym (ap (λ x. x.type) y) ∙ e)
            | inr (n, b) ↦ absurd (
                omega (
                  arith,
                  points_other p q (kind q) new.to n,
                  points-zclmsg p (kind q) (sym (ap (λ x. x.type) y) ∙ e),
                ))
          ]
          | inr (x, y) ↦
              let old_type = sym (ap (λ x. x.type) y) ∙ e in
              elim (load_new p) [
                | inl (a, b) ↦ absurd (
                    omega (
                      arith,
                      points-count p k s.messages,
                      points-zclmsg p (message k s).type old_type,
                      ap (λ x. count x s.messages) a,
                      none_yet,
                    ))
                | inr (n, b) ↦ v.outer k p d old_type (sym b ∙ l)
              ]
        ];
      }
