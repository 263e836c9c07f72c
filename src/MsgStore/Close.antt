-- ===== src/MsgStore/Close.antt =====
-- `close` on sound messages and contents.
use zeromq.Prelude.{
  ◌>>=◌, set, List, Option, none, ℕ, ◌<◌, ◌≡◌, ◌≢◌, refl, sym, ap, ◌∙◌, inl, inr, Bool, true, false,
  not, ◌||◌, some, Option-cases, length, get_or, length-set, get_or-set_self, get_or-set_ne, ◌==◌,
  arith, Bool-cases,
}
use zeromq.MsgStore.{
  Body, invalid, vsm, cmsg, lmsg, zclmsg, null_lmsg, delimiter, join, leave, Message, Content,
  Store, message, load, put_message, no_message, check, sub_one, drop_ref, release, close, bytes_at,
}
use zeromq.MsgStore.Count.{points_itself, two_point, count-le, points, points-count}
use zeromq.MsgStore.Sound.{same_or_not, in_range, IsSound, PointsNowhere, put-IsSound}
use zeromq.MsgStore.Drop.{drop_ref-IsSound}

-- What `close` leaves: the variable points nowhere, and the other variables are as they were.
pub record Closed (i : ℕ) (s s' : Store) : Type 0 where
  pub sound : IsSound s'
  pub same_length : length s'.messages ≡ length s.messages
  pub nowhere : PointsNowhere (message i s').type
  pub real : (message i s').type ≢ null_lmsg
  pub others : (j : ℕ) → j ≢ i → message j s' ≡ message j s
  pub bytes : (j p : ℕ) → j ≢ i → points p (message j s).type ≡ 1 → bytes_at p s' ≡ bytes_at p s

module _ (s : Store) (i : ℕ) (h : i < length s.messages) (v : IsSound s)
    (real : (message i s).type ≢ null_lmsg) where
  abbrev gone : Message
  gone = record (message i s) { type = invalid }

  content_there : (q : ℕ) → points q (message i s).type ≡ 1 → (c : Content) × (load q s ≡ some c)
  content_there q to = elim (Option-cases (load q s)) [
    | inl e ↦ absurd (omega (arith, v.freed q e, points-count q i s.messages, to))
    | inr (c, e) ↦ (c, e)
  ]

  drop_ref-messages : (b : Bool) (q : ℕ) (c : Content) → (drop_ref b q c s).messages ≡ s.messages
  drop_ref-messages b q c = elim (Bool-cases (not b || (sub_one c.refcnt == 0))) [
    | inl y ↦ rw y refl
    | inr n ↦ rw n refl
  ]

  -- The message is written over, after a change that keeps the messages.
  written :
      (s1 : Store)
      → s1.messages ≡ s.messages
      → ((j p : ℕ) → j ≢ i → points p (message j s).type ≡ 1 → bytes_at p s1 ≡ bytes_at p s)
      → IsSound (put_message i gone s1)
      → Closed i s (put_message i gone s1)
  written s1 same bytes sound =
      let at : message i (put_message i gone s1) ≡ gone =
        get_or-set_self s1.messages i gone no_message (omega (arith, ap length same)) in
      record {
        sound = sound;
        same_length = length-set s1.messages i gone ∙ ap length same;
        nowhere = λ p. ap (λ (m : Message). points p m.type) at;
        real = λ e. let f = sym (ap (λ (m : Message). m.type) at) ∙ e in cc;
        others = λ j n.
            get_or-set_ne s1.messages i j gone no_message (λ e. n (sym e))
            ∙ ap (λ ms. get_or ms j no_message) same;
        bytes = bytes;
      }

  abbrev Returns : Type 0
  Returns = (rc : Bool) × (s' : Store) × (close i s ≡ some (rc, s')) × Closed i s s'

  self :
      (q : ℕ) (b : Body) → points q b ≡ 1 → (message i s).type ≡ b → points q (message i s).type ≡ 1
  self q b one e = ap (points q) e ∙ one

  of_plain :
      (b : Body) → PointsNowhere b → (message i s).type ≡ b → Closed i s (put_message i gone s)
  of_plain b none_there e =
      written s refl (λ j p n e. refl)
        (put-IsSound s i gone h (λ p. ap (points p) e ∙ none_there p) (λ p. refl) v)

  -- A content to which another message points has its bytes.
  bytes_kept :
      (q : ℕ) (c : Content)
      → points q (message i s).type ≡ 1
      → load q s ≡ some c
      → (j p : ℕ) → j ≢ i
      → points p (message j s).type ≡ 1
      → bytes_at p (drop_ref (message i s).shared q c s) ≡ bytes_at p s
  bytes_kept q c to there j p n e = elim (same_or_not p q) [
    | inr ne ↦ elim (Bool-cases (not (message i s).shared || (sub_one c.refcnt == 0))) [
      | inl y ↦ rw y (ap bytes_in (get_or-set_ne s.contents q p none none (λ x. ne (sym x))))
      | inr m ↦
          rw m (ap bytes_in (get_or-set_ne s.contents q p (some (fewer c)) none (λ x. ne (sym x))))
    ]
    | inl a ↦
        let both =
          two_point q i j s.messages h n to (ap (λ x. points x (message j s).type) (sym a) ∙ e) in
        elim (Bool-cases (message i s).shared) [
          | inr f ↦ absurd (omega (arith, v.alone i q to f, both))
          | inl y ↦
              let counter = v.shared i q c to y there in
              let bound = count-le q s.messages in
              let more : (sub_one c.refcnt == 0) ≡ false =
                ground (arith, counter, bound, v.few, both) in
              rw (y, more)
                (ap bytes_in (
                    ap (λ x. get_or (set s.contents q (some (fewer c))) x none) a
                    ∙ get_or-set_self s.contents q (some (fewer c)) none
                        (in_range s.contents q c there))
                  ∙ sym (ap bytes_in (ap (λ x. get_or s.contents x none) a ∙ there)))
        ]
  ]
    where
      fewer : Content → Content
      fewer c = record c { refcnt = sub_one c.refcnt }

      bytes_in : Option Content → Option (List ℕ)
      bytes_in o = o >>= λ c. some c.bytes

  of_content :
      (q : ℕ) (c : Content)
      → points q (message i s).type ≡ 1
      → load q s ≡ some c
      → Closed i s (put_message i gone (drop_ref (message i s).shared q c s))
  of_content q c to there =
      written (drop_ref (message i s).shared q c s) (drop_ref-messages (message i s).shared q c)
        (bytes_kept q c to there) (drop_ref-IsSound s i q c gone h to (λ p. refl) there v)

  close_lem :
      (s1 : Store)
      → check (message i s) ≡ true
      → release (message i s) s ≡ some s1
      → close i s ≡ some (true, put_message i gone s1)
  unfolding close
  close_lem s1 c r = rw (close, c, r) refl

  close_plain :
      (b : Body)
      → (message i s).type ≡ b
      → check (record no_message { type = b }) ≡ true
      → release (record (message i s) { type = b }) s ≡ some s
      → release (message i s) s ≡ some s
  unfolding release
  close_plain b e c r = rw (release, e) r

  release_lmsg :
      (q : ℕ) (c : Content)
      → (message i s).type ≡ lmsg q
      → load q s ≡ some c
      → release (message i s) s ≡ some (drop_ref (message i s).shared q c s)
  unfolding release
  release_lmsg q c e there = rw (release, e, there) refl

  release_zclmsg :
      (q : ℕ) (c : Content)
      → (message i s).type ≡ zclmsg q
      → load q s ≡ some c
      → c.ffn ≡ true
      → release (message i s) s ≡ some (drop_ref (message i s).shared q c s)
  unfolding release
  release_zclmsg q c e there outer = rw (release, e, there, outer) refl

  valid :
      (b : Body)
      → (message i s).type ≡ b
      → check (record no_message { type = b }) ≡ true
      → check (message i s) ≡ true
  valid b e c = rw (check, e) c

  close_refuses : (message i s).type ≡ invalid → close i s ≡ some (false, s)
  unfolding close
  close_refuses e = rw (close, check, e) refl

  abbrev ReturnsFor : Body → Type 0
  ReturnsFor b = (message i s).type ≡ b → Returns

  plain_returns :
      (b : Body)
      → PointsNowhere b
      → check (record no_message { type = b }) ≡ true
      → release (record (message i s) { type = b }) s ≡ some s
      → ReturnsFor b
  plain_returns b none_there c r e = (
    true,
    put_message i gone s,
    close_lem s (valid b e c) (close_plain b e c r),
    of_plain b none_there e,
  )

  -- `close` does not use a content that was freed, and keeps the invariant.
  pub close-Closed : Returns
  unfolding release
  close-Closed = go (message i s).type refl
    where
      go : (b : Body) → ReturnsFor b
      go invalid e = (
        false,
        s,
        close_refuses e,
        record {
          sound = v;
          same_length = refl;
          nowhere = λ p. ap (points p) e;
          real = real;
          others = λ j n. refl;
          bytes = λ j p n x. refl;
        },
      )
      go (vsm x) e = plain_returns (vsm x) (λ p. refl) refl refl e
      go (cmsg x) e = plain_returns (cmsg x) (λ p. refl) refl refl e
      go delimiter e = plain_returns delimiter (λ p. refl) refl refl e
      go join e = plain_returns join (λ p. refl) refl refl e
      go null_lmsg e = absurd (real e)
      go leave e = plain_returns leave (λ p. refl) refl refl e
      go (lmsg q) e =
          let to = self q (lmsg q) (points_itself q) e in
          let (c, there) = content_there q to in
          let s1 = drop_ref (message i s).shared q c s in
          (
            true,
            put_message i gone s1,
            close_lem s1 (valid (lmsg q) e refl) (release_lmsg q c e there),
            of_content q c to there,
          )
      go (zclmsg q) e =
          let to = self q (zclmsg q) (points_itself q) e in
          let (c, there) = content_there q to in
          let s1 = drop_ref (message i s).shared q c s in
          let outer = v.outer i q c e there in
          (
            true,
            put_message i gone s1,
            close_lem s1 (valid (zclmsg q) e refl) (release_zclmsg q c e there outer),
            of_content q c to there,
          )
