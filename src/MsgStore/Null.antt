-- ===== src/MsgStore/Null.antt =====
-- Calls where a variable may have been left with NULL, by `init_size` or `init_data` that returned ENOMEM.
use Prim.{Unit, tt}
use zeromq.Prelude.{
  ℕ, ◌<◌, ◌≡◌, ◌≢◌, ◌⊎◌, refl, sym, ap, ◌∙◌, inl, inr, Bool, true, false, Option, none, some,
  length, Bool-cases,
}
use zeromq.MsgStore.{
  Body, invalid, vsm, cmsg, lmsg, zclmsg, null_lmsg, delimiter, join, leave, Message, Store,
  message, check, release, close, move, share, copy,
}
use zeromq.MsgStore.Sound.{IsSound, same_or_not}
use zeromq.MsgStore.Close.{Closed, close-Closed}
use zeromq.MsgStore.Transfer.{Returns, move-Returns, copy-Returns}

null_or_not : (b : Body) → (b ≡ null_lmsg) ⊎ (b ≢ null_lmsg)
null_or_not invalid = inr (λ e. cc)
null_or_not (vsm x) = inr (λ e. cc)
null_or_not (cmsg x) = inr (λ e. cc)
null_or_not (lmsg q) = inr (λ e. cc)
null_or_not (zclmsg q) = inr (λ e. cc)
null_or_not null_lmsg = inl refl
null_or_not delimiter = inr (λ e. cc)
null_or_not join = inr (λ e. cc)
null_or_not leave = inr (λ e. cc)

-- A call that returns leaves sound messages and contents.
abbrev pub SoundAfter : Option (Bool × Store) → Type 0
SoundAfter none = Unit
SoundAfter (some (rc, s)) = IsSound s

of_Returns : (s : Store) (o : Option (Bool × Store)) → Returns s o → SoundAfter o
of_Returns s o (rc, s', e, sound, _) = rw e sound

module _ (s : Store) (i j : ℕ) where
  close_null : (message i s).type ≡ null_lmsg → close i s ≡ none
  unfolding close release
  close_null e =
      let released : release (message i s) s ≡ none = rw (release, e) refl in
      rw (close, check, e) (rw released refl)

  share_null : (message j s).type ≡ null_lmsg → share j s ≡ none
  unfolding share
  share_null e = rw (share, e) refl

  -- A target that was left with NULL: nothing is returned, or the source is refused.
  move_null : (message i s).type ≡ null_lmsg → (move i j s ≡ none) ⊎ (move i j s ≡ some (false, s))
  unfolding move
  move_null e = elim (Bool-cases (check (message j s))) [
    | inl y ↦ inl (rw (move, y, close_null e) refl)
    | inr n ↦ inr (rw (move, n) refl)
  ]

  copy_null : (message i s).type ≡ null_lmsg → (copy i j s ≡ none) ⊎ (copy i j s ≡ some (false, s))
  unfolding copy
  copy_null e = elim (Bool-cases (check (message j s))) [
    | inl y ↦ inl (rw (copy, y, close_null e) refl)
    | inr n ↦ inr (rw (copy, n) refl)
  ]

refused-SoundAfter :
    (s : Store) (o : Option (Bool × Store))
    → IsSound s
    → (o ≡ none) ⊎ (o ≡ some (false, s))
    → SoundAfter o
refused-SoundAfter s o v (inl e) = rw e tt
refused-SoundAfter s o v (inr e) = rw e v

module _ (s : Store) (i j : ℕ) (hi : i < length s.messages) (hj : j < length s.messages)
    (v : IsSound s) where
  pub close-SoundAfter : SoundAfter (close i s)
  close-SoundAfter = elim (null_or_not (message i s).type) [
    | inl e ↦ rw (close_null s i j e) tt
    | inr real ↦ let (rc, s', e, k) = close-Closed s i hi v real in rw e k.sound
  ]

  pub move-SoundAfter : SoundAfter (move i j s)
  move-SoundAfter = elim (null_or_not (message i s).type) [
    | inl e ↦ refused-SoundAfter s (move i j s) v (move_null s i j e)
    | inr real ↦ of_Returns s (move i j s) (move-Returns s i j hi hj v real)
  ]

  -- A source that was left with NULL: `copy` does not return 0.
  copy_null_source :
      (message i s).type ≢ null_lmsg
      → (message j s).type ≡ null_lmsg
      → (rc : Bool) × (s1 : Store) × (close i s ≡ some (rc, s1)) × Closed i s s1
      → (copy i j s ≡ none) ⊎ ((s1 : Store) × (copy i j s ≡ some (false, s1)) × IsSound s1)
  unfolding copy
  copy_null_source real e (false, s1, c, k) = inr (s1, rw (copy, check, e, c) refl, k.sound)
  copy_null_source real e (true, s1, c, k) = elim (same_or_not j i) [
    | inl y ↦ absurd (real (ap (λ x. (message x s).type) (sym y) ∙ e))
    | inr n ↦
        let still = ap (λ (m : Message). m.type) (k.others j n) ∙ e in
        inl (rw (copy, check, e, c, share_null s1 i j still) refl)
  ]

  pub copy-SoundAfter : SoundAfter (copy i j s)
  copy-SoundAfter = elim (null_or_not (message i s).type) [
    | inl e ↦ refused-SoundAfter s (copy i j s) v (copy_null s i j e)
    | inr real ↦ elim (null_or_not (message j s).type) [
      | inr real_j ↦ of_Returns s (copy i j s) (copy-Returns s i j hi hj v real real_j)
      | inl e ↦ elim (copy_null_source real e (close-Closed s i hi v real)) [
        | inl x ↦ rw x tt
        | inr (s1, x, sound) ↦ rw x sound
      ]
    ]
  ]

  -- A copy that returns 0 was made of a variable and to one that have no NULL.
  pub copied_real :
      (s' : Store)
      → copy i j s ≡ some (true, s')
      → ((message i s).type ≢ null_lmsg) × ((message j s).type ≢ null_lmsg)
  copied_real s' r = elim (null_or_not (message i s).type) [
    | inl e ↦ elim (copy_null s i j e) [
      | inl x ↦ absurd (let g = sym x ∙ r in cc)
      | inr x ↦ absurd (let g = sym x ∙ r in cc)
    ]
    | inr real ↦ (
      real,
      λ e. elim (copy_null_source real e (close-Closed s i hi v real)) [
        | inl x ↦ absurd (let g = sym x ∙ r in cc)
        | inr (s1, x, sound) ↦ absurd (let g = sym x ∙ r in cc)
      ],
    )
  ]
