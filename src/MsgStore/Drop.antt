-- ===== src/MsgStore/Drop.antt =====
-- A message that points to a content goes.
use zeromq.Prelude.{
  ℕ, ◌+◌, ◌≤◌, ◌<◌, ◌≡◌, ◌≢◌, sym, ap, ◌∙◌, inl, inr, none, some, length, set, length-set, ◌==◌,
  arith, Bool-cases,
}
use zeromq.MsgStore.{
  zclmsg, Message, Content, Store, message, load, put_message, store, free, sub_one, drop_ref,
}
use zeromq.MsgStore.Count.{points, count, count-set, count-le, points-count}
use zeromq.MsgStore.Sound.{
  IsSound, message_cases, load_cases, points_other, PointsNowhere, points-zclmsg,
}

module _ (s : Store) (i q : ℕ) (c : Content) (m : Message) where
  module _ (h : i < length s.messages) (old : points q (message i s).type ≡ 1)
      (new : PointsNowhere m.type) (there : load q s ≡ some c) (v : IsSound s) where
    -- The number of messages that point to a content afterwards.
    others : (p : ℕ) → p ≢ q → count p (set s.messages i m) ≡ count p s.messages
    others p n =
        omega
          (arith, count-set p i m s.messages h, points_other p q (message i s).type old n, new p)

    one_less : count q (set s.messages i m) + 1 ≡ count q s.messages
    one_less = omega (arith, count-set q i m s.messages h, old, new q)

    -- What the other messages point to has another message, or is another content.
    kept :
        (k p : ℕ)
        → points p (message k (put_message i m s)).type ≡ 1
        → 1 ≤ count p (set s.messages i m)
    kept k p e = omega (arith, points-count p k (set s.messages i m), e)

    freed-IsSound : count q s.messages ≡ 1 → IsSound (put_message i m (free q s))
    freed-IsSound one = record {
      few = omega (arith, length-set s.messages i m, v.few);
      freed = λ p e. elim (load_cases s q p c none there) [
        | inl (a, b) ↦ ap (λ x. count x (set s.messages i m)) a ∙ omega (arith, one_less, one)
        | inr (n, b) ↦ others p n ∙ v.freed p (sym b ∙ e)
      ];
      used = λ p d e. elim (load_cases s q p c none there) [
        | inl (a, b) ↦ absurd (let f = sym b ∙ e in cc)
        | inr (n, b) ↦ omega (arith, others p n, v.used p d (sym b ∙ e))
      ];
      alone = λ k p e f. elim (load_cases s q p c none there) [
        | inl (a, b) ↦
            absurd
              (omega (arith, kept k p e, ap (λ x. count x (set s.messages i m)) a, one_less, one))
        | inr (n, b) ↦ elim (message_cases s i k m h) [
          | inl (x, y) ↦ absurd (omega (arith, new p, sym (ap (λ x. points p x.type) y) ∙ e))
          | inr (x, y) ↦
              others p n
              ∙ v.alone k p (sym (ap (λ x. points p x.type) y) ∙ e) (sym (ap (λ x. x.shared) y) ∙ f)
        ]
      ];
      shared = λ k p d e f l. elim (load_cases s q p c none there) [
        | inl (a, b) ↦ absurd (let f = sym b ∙ l in cc)
        | inr (n, b) ↦ elim (message_cases s i k m h) [
          | inl (x, y) ↦ absurd (omega (arith, new p, sym (ap (λ x. points p x.type) y) ∙ e))
          | inr (x, y) ↦
              v.shared k p d (sym (ap (λ x. points p x.type) y) ∙ e)
                (sym (ap (λ x. x.shared) y) ∙ f) (sym b ∙ l)
              ∙ sym (others p n)
        ]
      ];
      outer = λ k p d e l. elim (load_cases s q p c none there) [
        | inl (a, b) ↦ absurd (let f = sym b ∙ l in cc)
        | inr (n, b) ↦ elim (message_cases s i k m h) [
          | inl (x, y) ↦
              absurd (omega (arith, new p, points-zclmsg p m.type (sym (ap (λ x. x.type) y) ∙ e)))
          | inr (x, y) ↦ v.outer k p d (sym (ap (λ x. x.type) y) ∙ e) (sym b ∙ l)
        ]
      ];
    }

    -- The content with one reference less.
    abbrev fewer : Content
    fewer = record c { refcnt = sub_one c.refcnt }

    kept-IsSound :
        fewer.refcnt ≡ count q (set s.messages i m)
        → 1 ≤ count q (set s.messages i m)
        → IsSound (put_message i m (store q fewer s))
    kept-IsSound counter some_left = record {
      few = omega (arith, length-set s.messages i m, v.few);
      freed = λ p e. elim (load_cases s q p c (some fewer) there) [
        | inl (a, b) ↦ absurd (let f = sym b ∙ e in cc)
        | inr (n, b) ↦ others p n ∙ v.freed p (sym b ∙ e)
      ];
      used = λ p d e. elim (load_cases s q p c (some fewer) there) [
        | inl (a, b) ↦ omega (arith, ap (λ x. count x (set s.messages i m)) a, some_left)
        | inr (n, b) ↦ omega (arith, others p n, v.used p d (sym b ∙ e))
      ];
      alone = λ k p e f. elim (message_cases s i k m h) [
        | inl (x, y) ↦ absurd (omega (arith, new p, sym (ap (λ x. points p x.type) y) ∙ e))
        | inr (x, y) ↦
            let one =
              v.alone k p (sym (ap (λ x. points p x.type) y) ∙ e)
                (sym (ap (λ x. x.shared) y) ∙ f) in
            elim (load_cases s q p c (some fewer) there) [
              | inl (a, b) ↦ absurd (
                  omega (
                    arith,
                    kept k p e,
                    one,
                    one_less,
                    ap (λ x. count x (set s.messages i m)) a,
                    ap (λ x. count x s.messages) a,
                  ))
              | inr (n, b) ↦ others p n ∙ one
            ]
      ];
      shared = λ k p d e f l. elim (load_cases s q p c (some fewer) there) [
        | inl (a, b) ↦
            let same : d.refcnt ≡ fewer.refcnt = let g = sym l ∙ b in cc in
            same ∙ counter ∙ sym (ap (λ x. count x (set s.messages i m)) a)
        | inr (n, b) ↦ elim (message_cases s i k m h) [
          | inl (x, y) ↦ absurd (omega (arith, new p, sym (ap (λ x. points p x.type) y) ∙ e))
          | inr (x, y) ↦
              v.shared k p d (sym (ap (λ x. points p x.type) y) ∙ e)
                (sym (ap (λ x. x.shared) y) ∙ f) (sym b ∙ l)
              ∙ sym (others p n)
        ]
      ];
      outer = λ k p d e l. elim (message_cases s i k m h) [
        | inl (x, y) ↦
            absurd (omega (arith, new p, points-zclmsg p m.type (sym (ap (λ x. x.type) y) ∙ e)))
        | inr (x, y) ↦ elim (load_cases s q p c (some fewer) there) [
          | inl (a, b) ↦
              let same : d.ffn ≡ c.ffn = let g = sym l ∙ b in cc in
              same ∙ v.outer k q c (sym (ap (λ x. x.type) y) ∙ e ∙ ap zclmsg a) there
          | inr (n, b) ↦ v.outer k p d (sym (ap (λ x. x.type) y) ∙ e) (sym b ∙ l)
        ]
      ];
    }

    -- The message that goes is written over by one that points nowhere.
    pub drop_ref-IsSound : IsSound (put_message i m (drop_ref (message i s).shared q c s))
    drop_ref-IsSound = elim (Bool-cases (message i s).shared) [
      | inr n ↦ rw n (freed-IsSound (v.alone i q old n))
      | inl y ↦
          let counter = v.shared i q c old y there in
          let bound = count-le q s.messages in
          let less : sub_one c.refcnt ≡ count q (set s.messages i m) =
            omega (arith, counter, one_less, bound, v.few) in
          elim (Bool-cases (sub_one c.refcnt == 0)) [
            | inl z ↦ rw (y, z) (freed-IsSound (ground (arith, less, one_less)))
            | inr z ↦ rw (y, z) (kept-IsSound less (ground (arith, less)))
          ]
    ]
