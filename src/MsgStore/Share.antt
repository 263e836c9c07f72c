-- ===== src/MsgStore/Share.antt =====
-- A message comes to point to the content of another message, which keeps it or gives it away.
use zeromq.Prelude.{
  ℕ, ◌+◌, ◌<◌, ◌≡◌, ◌≢◌, ◌⊎◌, sym, ap, ◌∙◌, inl, inr, true, false, Option, none, some, [], length,
  get_or, set, length-set, arith, Bool-cases,
}
use zeromq.MsgStore.{
  vsm, zclmsg, Message, Content, Store, message, load, put_message, store, plain, add_ref,
  no_message,
}
use zeromq.MsgStore.Count.{points, count, count-set, count-le, two_point}
use zeromq.MsgStore.Sound.{
  IsSound, message_cases, load_cases, points_other, PointsNowhere, same_or_not,
}

-- A message is given away, and its variable has an empty one.
abbrev pub moved : ℕ → ℕ → Store → Store
moved i j s = put_message j (plain (vsm [])) (put_message i (message j s) s)

module _ (s : Store) (i j : ℕ) (hi : i < length s.messages) (hj : j < length s.messages)
    (ne : i ≢ j) (old : PointsNowhere (message i s).type) (v : IsSound s) where
  module _ (q : ℕ) (c : Content) (to : points q (message j s).type ≡ 1)
      (there : load q s ≡ some c) where
    -- The source, which is shared from now on.
    abbrev source : Message
    source = record (message j s) { shared = true }

    abbrev more : Content
    more = add_ref (message j s) q c

    abbrev pub copied : Store
    copied = put_message i source (store q more (put_message j source s))

    at : (k : ℕ) → (message k copied ≡ source) ⊎ ((k ≢ j) × (message k copied ≡ message k s))
    at k =
        elim (message_cases (put_message j source s) i k source
          (omega (arith, length-set s.messages j source))) [
            | inl (a, b) ↦ inl b
            | inr (a, b) ↦ elim (message_cases s j k source hj) [
              | inl (x, y) ↦ inl (b ∙ y)
              | inr (x, y) ↦ inr (x, b ∙ y)
            ]
          ]

    number : (p : ℕ) → count p copied.messages ≡ count p s.messages + points p (message j s).type
    number p =
        let first = count-set p j source s.messages hj in
        let second =
          count-set p i source (set s.messages j source)
            (omega (arith, length-set s.messages j source)) in
        let kept = ap (λ (m : Message). points p m.type) other in
        omega (arith, first, second, old p, kept)
      where
        other : get_or (set s.messages j source) i no_message ≡ message i s
        other = elim (message_cases s j i source hj) [ inl (x, y) ↦ absurd (ne x) | inr (x, y) ↦ y ]

    others : (p : ℕ) → p ≢ q → count p copied.messages ≡ count p s.messages
    others p n = omega (arith, number p, points_other p q (message j s).type to n)

    counter : more.refcnt ≡ count q copied.messages
    counter = elim (Bool-cases (message j s).shared) [
      | inl y ↦
          let bound = count-le q copied.messages in
          let len1 = length-set s.messages j source in
          let len2 = length-set (set s.messages j source) i source in
          let known = v.shared j q c to y there in
          rw y (omega (arith, number q, to, known, bound, len1, len2, v.few))
      | inr n ↦ rw n (omega (arith, number q, to, v.alone j q to n))
    ]

    pub copied-IsSound : IsSound copied
    copied-IsSound = record {
      few = omega (
        arith,
        length-set s.messages j source,
        length-set (set s.messages j source) i source,
        v.few,
      );
      freed = λ p e. elim (load_cases s q p c (some more) there) [
        | inl (a, b) ↦ absurd (let f = sym b ∙ e in cc)
        | inr (n, b) ↦ others p n ∙ v.freed p (sym b ∙ e)
      ];
      used = λ p d e. elim (load_cases s q p c (some more) there) [
        | inl (a, b) ↦ omega (arith, ap (λ x. count x copied.messages) a, number q, to)
        | inr (n, b) ↦ omega (arith, others p n, v.used p d (sym b ∙ e))
      ];
      alone = λ k p e f. elim (at k) [
        | inl y ↦ absurd (let g = sym (ap (λ x. x.shared) y) ∙ f in cc)
        | inr (x, y) ↦
            let old_points = sym (ap (λ x. points p x.type) y) ∙ e in
            let one = v.alone k p old_points (sym (ap (λ x. x.shared) y) ∙ f) in
            elim (same_or_not p q) [
              | inl a ↦
                  let both =
                    two_point p j k s.messages hj x (ap (λ x. points x (message j s).type) a ∙ to)
                      old_points in
                  absurd (omega arith)
              | inr n ↦ others p n ∙ one
            ]
      ];
      shared = λ k p d e f l. elim (load_cases s q p c (some more) there) [
        | inl (a, b) ↦
            let same : d.refcnt ≡ more.refcnt =
              let g = sym l ∙ b in
              ap (λ (o : Option Content). elim o [ none ↦ 0 | some x ↦ x.refcnt ]) g in
            same ∙ counter ∙ sym (ap (λ x. count x copied.messages) a)
        | inr (n, b) ↦ elim (at k) [
          | inl y ↦ absurd (
              omega (
                arith,
                points_other p q (message j s).type to n,
                sym (ap (λ x. points p x.type) y) ∙ e,
              ))
          | inr (x, y) ↦
              v.shared k p d (sym (ap (λ x. points p x.type) y) ∙ e)
                (sym (ap (λ x. x.shared) y) ∙ f) (sym b ∙ l)
              ∙ sym (others p n)
        ]
      ];
      outer = λ k p d e l. elim (at k) [
        | inl y ↦ outer_of j p d (sym (ap (λ x. x.type) y) ∙ e) l
        | inr (x, y) ↦ outer_of k p d (sym (ap (λ x. x.type) y) ∙ e) l
      ];
    }
      where
        outer_of :
            (k p : ℕ) (d : Content)
            → (message k s).type ≡ zclmsg p
            → load p copied ≡ some d
            → d.ffn ≡ true
        outer_of k p d e l = elim (load_cases s q p c (some more) there) [
          | inl (a, b) ↦
              let same : d.ffn ≡ c.ffn =
                let g = sym l ∙ b in
                ap (λ (o : Option Content). elim o [ none ↦ false | some x ↦ x.ffn ]) g in
              same ∙ v.outer k q c (e ∙ ap zclmsg a) there
          | inr (n, b) ↦ v.outer k p d e (sym b ∙ l)
        ]

  moved_at :
      (k : ℕ)
      → (message k (moved i j s) ≡ plain (vsm []))
        ⊎ ((k' : ℕ) × (message k (moved i j s) ≡ message k' s))
  moved_at k =
      elim (message_cases (put_message i (message j s) s) j k (plain (vsm []))
        (omega (arith, length-set s.messages i (message j s)))) [
          | inl (a, b) ↦ inl b
          | inr (a, b) ↦ elim (message_cases s i k (message j s) hi) [
            | inl (x, y) ↦ inr (j, b ∙ y)
            | inr (x, y) ↦ inr (k, b ∙ y)
          ]
        ]

  moved_number : (p : ℕ) → count p (moved i j s).messages ≡ count p s.messages
  moved_number p =
      let first = count-set p i (message j s) s.messages hi in
      let second =
        count-set p j (plain (vsm [])) (set s.messages i (message j s))
          (omega (arith, length-set s.messages i (message j s))) in
      let kept : points p (message j (put_message i (message j s) s)).type
          ≡ points p (message j s).type =
        elim (message_cases s i j (message j s) hi) [
          | inl (x, y) ↦ absurd (ne (sym x))
          | inr (x, y) ↦ ap (λ (m : Message). points p m.type) y
        ] in
      omega (arith, first, second, old p, kept)

  pub moved-IsSound : IsSound (moved i j s)
  moved-IsSound = record {
    few = omega (
      arith,
      length-set s.messages i (message j s),
      length-set (set s.messages i (message j s)) j (plain (vsm [])),
      v.few,
    );
    freed = λ p e. moved_number p ∙ v.freed p e;
    used = λ p d e. omega (arith, moved_number p, v.used p d e);
    alone = λ k p e f. elim (moved_at k) [
      | inl y ↦ absurd (let g = sym (ap (λ x. points p x.type) y) ∙ e in omega arith)
      | inr (k', y) ↦
          moved_number p
          ∙ v.alone k' p (sym (ap (λ x. points p x.type) y) ∙ e) (sym (ap (λ x. x.shared) y) ∙ f)
    ];
    shared = λ k p d e f l. elim (moved_at k) [
      | inl y ↦ absurd (let g = sym (ap (λ x. points p x.type) y) ∙ e in omega arith)
      | inr (k', y) ↦
          v.shared k' p d (sym (ap (λ x. points p x.type) y) ∙ e) (sym (ap (λ x. x.shared) y) ∙ f) l
          ∙ sym (moved_number p)
    ];
    outer = λ k p d e l. elim (moved_at k) [
      | inl y ↦ absurd (let g = sym (ap (λ x. x.type) y) ∙ e in cc)
      | inr (k', y) ↦ v.outer k' p d (sym (ap (λ x. x.type) y) ∙ e) l
    ];
  }
