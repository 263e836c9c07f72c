-- ===== src/MsgStore/Data.antt =====
-- The bytes of messages that are copied.
use zeromq.Prelude.{
  ℕ, ◌<◌, ◌≡◌, ◌≢◌, refl, sym, ap, ◌∙◌, inl, inr, Bool, true, false, some, length, get_or-set_self,
  get_or-set_ne, arith, Bool-cases,
}
use zeromq.MsgStore.{
  Body, invalid, vsm, cmsg, lmsg, zclmsg, null_lmsg, delimiter, join, leave, Message, Store,
  message, put_message, no_message, check, bytes_at, bytes_of, data_of, close, copy,
}
use zeromq.MsgStore.Count.{points_itself, points}
use zeromq.MsgStore.Sound.{IsSound}
use zeromq.MsgStore.Close.{Closed, close-Closed}
use zeromq.MsgStore.Transfer.{shares, source_real}

-- Only the content that a message points to counts.
bytes_of_same :
    (b : Body) (s s' : Store)
    → ((p : ℕ) → points p b ≡ 1 → bytes_at p s' ≡ bytes_at p s)
    → bytes_of b s' ≡ bytes_of b s
bytes_of_same invalid s s' h = refl
bytes_of_same (vsm x) s s' h = refl
bytes_of_same (cmsg x) s s' h = refl
bytes_of_same (lmsg q) s s' h = h q (points_itself q)
bytes_of_same (zclmsg q) s s' h = h q (points_itself q)
bytes_of_same null_lmsg s s' h = refl
bytes_of_same delimiter s s' h = refl
bytes_of_same join s s' h = refl
bytes_of_same leave s s' h = refl

data_of_same :
    (j k : ℕ) (s s' : Store)
    → (message k s').type ≡ (message j s).type
    → ((p : ℕ) → points p (message j s).type ≡ 1 → bytes_at p s' ≡ bytes_at p s)
    → data_of k s' ≡ data_of j s
unfolding data_of
data_of_same j k s s' e h = ap (λ b. bytes_of b s') e ∙ bytes_of_same (message j s).type s s' h

module _ (s : Store) (i j : ℕ) (hi : i < length s.messages) (hj : j < length s.messages)
    (ne : i ≢ j) (v : IsSound s) (real_i : (message i s).type ≢ null_lmsg)
    (real_j : (message j s).type ≢ null_lmsg) where
  abbrev BothHave : Store → Type 0
  BothHave s' = (data_of i s' ≡ data_of j s) × (data_of j s' ≡ data_of j s)

  after_close :
      (s' : Store)
      → copy i j s ≡ some (true, s')
      → check (message j s) ≡ true
      → (rc : Bool) × (s1 : Store) × (close i s ≡ some (rc, s1)) × Closed i s s1
      → BothHave s'
  unfolding copy
  after_close s' e y (false, s1, c, k) =
      absurd
        (let f : copy i j s ≡ some (false, s1) = rw (copy, y, c) refl in let g = sym f ∙ e in cc)
  after_close s' e y (true, s1, c, k) =
      let (s2, r, sound, same, kind, bytes) =
        shares s i j hi hj v real_i s1 k (source_real s i j hi hj v real_i s1 k real_j) in
      let last = put_message i (message j s2) s2 in
      let f : copy i j s ≡ some (true, last) = rw (copy, y, c, r) refl in
      let is_last : last ≡ s' = let g = sym f ∙ e in cc in
      let source : (message j s2).type ≡ (message j s).type =
        kind ∙ ap (λ (m : Message). m.type) (k.others j (λ x. ne (sym x))) in
      let kept : (p : ℕ) → points p (message j s).type ≡ 1 → bytes_at p last ≡ bytes_at p s =
        λ p o. bytes p ∙ k.bytes j p (λ x. ne (sym x)) o in
      let target =
        ap (λ (m : Message). m.type)
          (get_or-set_self s2.messages i (message j s2) no_message
            (omega (arith, same, k.same_length)))
        ∙ source in
      let still =
        ap (λ (m : Message). m.type) (get_or-set_ne s2.messages i j (message j s2) no_message ne)
        ∙ source in
      (
        ap (data_of i) (sym is_last) ∙ data_of_same j i s last target kept,
        ap (data_of j) (sym is_last) ∙ data_of_same j j s last still kept,
      )

  pub copied_bytes : (s' : Store) → copy i j s ≡ some (true, s') → BothHave s'
  unfolding copy
  copied_bytes s' e = elim (Bool-cases (check (message j s))) [
    | inl y ↦ after_close s' e y (close-Closed s i hi v real_i)
    | inr n ↦
        absurd (let f : copy i j s ≡ some (false, s) = rw (copy, n) refl in let g = sym f ∙ e in cc)
  ]
