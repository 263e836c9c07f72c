-- ===== src/MsgStore/Transfer.antt =====
-- `move` and `copy` on sound messages and contents.
use zeromq.Prelude.{
  ◌>>=◌, ℕ, ◌<◌, ◌≡◌, ◌≢◌, refl, sym, ap, ◌∙◌, inl, inr, Bool, true, false, Option, some,
  Option-cases, [], length, set, length-set, get_or-set_self, arith, Bool-cases,
}
use zeromq.MsgStore.{
  bytes_at, Body, invalid, vsm, cmsg, lmsg, zclmsg, null_lmsg, delimiter, join, leave, Message,
  Content, Store, message, load, put_message, store, no_message, plain, check, add_ref, init, close,
  move, share, copy,
}
use zeromq.MsgStore.Count.{points_itself, points, points-count}
use zeromq.MsgStore.Sound.{IsSound, PointsNowhere, put-IsSound, same_or_not, load_cases}
use zeromq.MsgStore.Share.{copied-IsSound, moved, moved-IsSound}
use zeromq.MsgStore.Close.{Closed, close-Closed}

-- A call returns, and the messages and contents are sound afterwards.
abbrev pub Returns : Store → Option (Bool × Store) → Type 0
Returns s o =
    (rc : Bool) × (s' : Store) × (o ≡ some (rc, s'))
    × IsSound s'
    × (length s'.messages ≡ length s.messages)

module _ (s : Store) (i j : ℕ) (hi : i < length s.messages) (hj : j < length s.messages)
    (v : IsSound s) (real_i : (message i s).type ≢ null_lmsg) where
  -- After `close` of the target.
  module _ (s1 : Store) (k : Closed i s s1) where
    hi1 : i < length s1.messages
    hi1 = omega (arith, k.same_length)

    hj1 : j < length s1.messages
    hj1 = omega (arith, k.same_length)

    moving-IsSound : IsSound (moved i j s1)
    moving-IsSound = elim (same_or_not i j) [
      | inr ne ↦ moved-IsSound s1 i j hi1 hj1 ne k.nowhere k.sound
      | inl e ↦
          let nowhere : PointsNowhere (message j s1).type =
            λ p. ap (λ x. points p (message x s1).type) (sym e) ∙ k.nowhere p in
          let s2 = put_message i (message j s1) s1 in
          let sound = put-IsSound s1 i (message j s1) hi1 k.nowhere nowhere k.sound in
          let written : message j s2 ≡ message j s1 =
            ap (λ x. message x s2) (sym e)
            ∙ get_or-set_self s1.messages i (message j s1) no_message hi1 in
          put-IsSound s2 j (plain (vsm []))
            (omega (arith, length-set s1.messages i (message j s1), hj1))
            (λ p. ap (λ (m : Message). points p m.type) written ∙ nowhere p) (λ p. refl) sound
    ]

    moved-length : length (moved i j s1).messages ≡ length s.messages
    moved-length =
        length-set (set s1.messages i (message j s1)) j (plain (vsm []))
        ∙ length-set s1.messages i (message j s1)
        ∙ k.same_length

    abbrev pub Shares : Body → Type 0
    Shares b =
        (s2 : Store) × (share j s1 ≡ some s2)
        × IsSound (put_message i (message j s2) s2)
        × (length s2.messages ≡ length s1.messages)
        × ((message j s2).type ≡ (message j s1).type)
        × ((p : ℕ) → bytes_at p s2 ≡ bytes_at p s1)

    plain-Shares :
        (b : Body) → PointsNowhere b → (message j s1).type ≡ b → share j s1 ≡ some s1 → Shares b
    plain-Shares b nowhere e r = (
      s1,
      r,
      put-IsSound s1 i (message j s1) hi1 k.nowhere (λ p. ap (points p) e ∙ nowhere p) k.sound,
      refl,
      refl,
      λ p. refl,
    )

    -- A counter is no byte.
    same_bytes :
        (q : ℕ) (c : Content)
        → load q s1 ≡ some c
        → (p : ℕ)
        → bytes_at p (
            store q
              (add_ref (message j s1) q c)
              (put_message j (record (message j s1) { shared = true }) s1))
          ≡ bytes_at p s1
    same_bytes q c there p = elim (load_cases s1 q p c (some (add_ref (message j s1) q c)) there) [
      | inl (a, b) ↦
          ap (λ (o : Option Content). o >>= λ x. some x.bytes) b
          ∙ sym
              (ap (λ (o : Option Content). o >>= λ x. some x.bytes) (ap (λ x. load x s1) a ∙ there))
      | inr (a, b) ↦ ap (λ (o : Option Content). o >>= λ x. some x.bytes) b
    ]

    -- The source has a content, which has one message more afterwards.
    content-Shares :
        (q : ℕ) (b : Body)
        → points q (message j s1).type ≡ 1
        → ((c : Content)
            → load q s1 ≡ some c
            → share j s1
              ≡ some (
                  store q
                    (add_ref (message j s1) q c)
                    (put_message j (record (message j s1) { shared = true }) s1)))
        → Shares b
    content-Shares q b to r = elim (Option-cases (load q s1)) [
      | inl e ↦ absurd (omega (arith, k.sound.freed q e, points-count q j s1.messages, to))
      | inr (c, there) ↦
          let ne : i ≢ j =
            λ e. omega (arith, k.nowhere q, ap (λ x. points q (message x s1).type) e, to) in
          let source : Message = record (message j s1) { shared = true } in
          let s2 = store q (add_ref (message j s1) q c) (put_message j source s1) in
          let written : message j s2 ≡ source =
            get_or-set_self s1.messages j source no_message hj1 in
          let sound = copied-IsSound s1 i j hi1 hj1 ne k.nowhere k.sound q c to there in
          (
            s2,
            r c there,
            rw written sound,
            length-set s1.messages j source,
            ap (λ (m : Message). m.type) written,
            same_bytes q c there,
          )
    ]

    pub shares : (message j s1).type ≢ null_lmsg → Shares (message j s1).type
    unfolding share
    shares real_j = go (message j s1).type refl
      where
        of_type : ℕ → Content → Body → Option Store
        of_type q c t = some (
            store q (add_ref (message j s1) q c)
              (put_message j (record { type = t; shared = true }) s1))

        go : (b : Body) → (message j s1).type ≡ b → Shares b
        go invalid e = plain-Shares invalid (λ p. refl) e (rw (share, e) refl)
        go (vsm x) e = plain-Shares (vsm x) (λ p. refl) e (rw (share, e) refl)
        go (cmsg x) e = plain-Shares (cmsg x) (λ p. refl) e (rw (share, e) refl)
        go delimiter e = plain-Shares delimiter (λ p. refl) e (rw (share, e) refl)
        go join e = plain-Shares join (λ p. refl) e (rw (share, e) refl)
        go null_lmsg e = absurd (real_j e)
        go leave e = plain-Shares leave (λ p. refl) e (rw (share, e) refl)
        go (lmsg q) e =
            content-Shares q (lmsg q) (ap (points q) e ∙ points_itself q)
              (λ c there. rw (share, e, there) (ap (of_type q c) e))
        go (zclmsg q) e =
            content-Shares q (zclmsg q) (ap (points q) e ∙ points_itself q)
              (λ c there. rw (share, e, there) (ap (of_type q c) e))

  -- The source after `close` of the target.
  pub source_real :
      (s1 : Store)
      → Closed i s s1
      → (message j s).type ≢ null_lmsg
      → (message j s1).type ≢ null_lmsg
  source_real s1 k real_j e = elim (same_or_not j i) [
    | inl y ↦ k.real (ap (λ x. (message x s1).type) (sym y) ∙ e)
    | inr n ↦ real_j (ap (λ (m : Message). m.type) (sym (k.others j n)) ∙ e)
  ]

  move_after :
      check (message j s) ≡ true
      → (rc : Bool) × (s1 : Store) × (close i s ≡ some (rc, s1)) × Closed i s s1
      → Returns s (move i j s)
  unfolding move init
  move_after y (false, s1, e, k) = (false, s1, rw (move, y, e) refl, k.sound, k.same_length)
  move_after y (true, s1, e, k) =
      (true, moved i j s1, rw (move, y, e) refl, moving-IsSound s1 k, moved-length s1 k)

  copy_after :
      check (message j s) ≡ true
      → (message j s).type ≢ null_lmsg
      → (rc : Bool) × (s1 : Store) × (close i s ≡ some (rc, s1)) × Closed i s s1
      → Returns s (copy i j s)
  unfolding copy
  copy_after y real_j (false, s1, e, k) = (false, s1, rw (copy, y, e) refl, k.sound, k.same_length)
  copy_after y real_j (true, s1, e, k) =
      let (s2, r, sound, same, _, _) = shares s1 k (source_real s1 k real_j) in
      (
        true,
        put_message i (message j s2) s2,
        rw (copy, y, e, r) refl,
        sound,
        length-set s2.messages i (message j s2) ∙ same ∙ k.same_length,
      )

  pub move-Returns : Returns s (move i j s)
  unfolding move
  move-Returns = elim (Bool-cases (check (message j s))) [
    | inr n ↦ (false, s, rw (move, n) refl, v, refl)
    | inl y ↦ move_after y (close-Closed s i hi v real_i)
  ]

  pub copy-Returns : (message j s).type ≢ null_lmsg → Returns s (copy i j s)
  unfolding copy
  copy-Returns real_j = elim (Bool-cases (check (message j s))) [
    | inr n ↦ (false, s, rw (copy, n) refl, v, refl)
    | inl y ↦ copy_after y real_j (close-Closed s i hi v real_i)
  ]
