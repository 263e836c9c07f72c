-- ===== src/Codec/Decoder/Returns.antt =====
-- `decode` returns if no more than one action wants no bytes before one ends the message.
use zeromq.Prelude.{
  ℕ, suc, ◌≡◌, ◌≢◌, ◌⊎◌, refl, ◌∙◌, sym, inl, inr, Bool, true, false, List, [], ◌∷◌, ◌==◌,
  if◌then◌else◌, Bool-cases,
}
use zeromq.Codec.Decoder.{
  Decoder, Rc, go, done, fail, stuck, endless, settle, decode, store, decode_byte, after_byte,
  resume,
}

module _ {Step : Type 0} (act : Decoder Step → Rc Step) where
  -- The action wants bytes, or ends the message or the stream, or the action after it does.
  abbrev Ends : Rc Step → Type 0
  Ends (go d) = (d.to_read == 0) ≡ false
  Ends (done m d) = Unit
  Ends (fail e) = Unit
  Ends stuck = ⊥

  abbrev pub EndsSoon : Rc Step → Type 0
  EndsSoon (go d) = ((d.to_read == 0) ≡ false) ⊎ Ends (act d)
  EndsSoon (done m d) = Unit
  EndsSoon (fail e) = Unit
  EndsSoon stuck = ⊥

  -- The rest of a round, from what its action returned.
  abbrev after : ℕ → Rc Step → Rc Step
  after rounds (go d) = if d.to_read == 0 then settle act rounds d else go d
  after rounds (done m d) = done m d
  after rounds (fail e) = fail e
  after rounds stuck = stuck

  settle-suc : (rounds : ℕ) (d : Decoder Step) → settle act (suc rounds) d ≡ after rounds (act d)
  unfolding settle
  settle-suc rounds d = same (act d)
    where
      same :
          (rc : Rc Step)
          → elim rc [
            | go d' ↦ if d'.to_read == 0 then settle act rounds d' else go d'
            | done m d' ↦ done m d'
            | fail e ↦ fail e
            | stuck ↦ stuck
          ]
            ≡ after rounds rc
      same (go d) = refl
      same (done m d) = refl
      same (fail e) = refl
      same stuck = refl

  one_more : (rc : Rc Step) → Ends rc → after 0 rc ≢ stuck
  one_more (go d) h e = let e' : go d ≡ stuck = rw h at e in cc
  one_more (done m d) h e = cc
  one_more (fail x) h e = cc
  one_more stuck h e = h

  two_more : (rc : Rc Step) → EndsSoon rc → after 1 rc ≢ stuck
  two_more (go d) (inl h) e = let e' : go d ≡ stuck = rw h at e in cc
  two_more (go d) (inr h) e = elim (Bool-cases (d.to_read == 0)) [
    | inl z ↦
        let e' : settle act 1 d ≡ stuck = rw z at e in
        one_more (act d) h (sym (settle-suc 0 d) ∙ e')
    | inr z ↦ let e' : go d ≡ stuck = rw z at e in cc
  ]
  two_more (done m d) h e = cc
  two_more (fail x) h e = cc
  two_more stuck h e = h

  settle-returns : (d : Decoder Step) → EndsSoon (act d) → settle act 2 d ≢ stuck
  settle-returns d h e = two_more (act d) h (sym (settle-suc 1 d) ∙ e)

  goes_on :
      (bs : List ℕ) (rc : Rc Step)
      → ((d : Decoder Step) → decode act d bs ≢ endless)
      → rc ≢ stuck
      → resume act rc bs ≢ endless
  goes_on bs (go d) rest ne e = rest d e
  goes_on bs (done m d) rest ne e = cc
  goes_on bs (fail x) rest ne e = cc
  goes_on bs stuck rest ne e = ne refl

  -- If from any state the second action in a row that wants no bytes ends the message, then from any state
  -- and on any bytes `decode` returns.
  pub decode_returns :
      ((d : Decoder Step) → EndsSoon (act d))
      → (d : Decoder Step) (bs : List ℕ) → decode act d bs ≢ endless
  unfolding decode
  decode_returns h d [] e = cc
  decode_returns h d (b ∷ bs) e =
      by_test ((store b d).to_read == 0) (decode_returns h (store b d) bs)
        (λ d'. decode_returns h d' bs) (sym (decode_byte act d b bs) ∙ e)
    where
      by_test :
          (t : Bool)
          → decode act (store b d) bs ≢ endless
          → ((d' : Decoder Step) → decode act d' bs ≢ endless)
          → after_byte act t (store b d) bs ≢ endless
      by_test false here rest e' = here e'
      by_test true here rest e' =
          goes_on bs (settle act 2 (store b d)) rest (settle-returns (store b d) (h (store b d))) e'
