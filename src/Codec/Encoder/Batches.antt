-- ===== src/Codec/Encoder/Batches.antt =====
-- `encode` gives a message out in batches: none of its bytes is lost, repeated or moved.
use mathlib.Core.Path.{subst}
use zeromq.Prelude.{
  ℕ, zero, suc, ◌+◌, ◌-◌, ◌≤◌, ◌<◌, ◌≡◌, ◌⊎◌, refl, ap, ◌∙◌, sym, inl, inr, true, false, Option,
  none, some, List, [], ◌∷◌, ◌++◌, arith, length, take, drop, take-append-drop, length-append,
  length-drop, ltb, leb, ◌==◌, ◌&&◌, min, if◌then◌else◌, Bool-cases,
}
use mathlib.Core.List.{append_assoc, append-nil}
use zeromq.Msg.{Msg}
use zeromq.Codec.Encoder.{Encoder, next_step, Round, more, full, copy, round, rounds, encode}

-- The bytes of the message that are still to be given out.
abbrev pub left : {Step : Type 0} → Msg → Encoder Step → List ℕ
left m e = e.pending ++ (if e.new_msg_flag then [] else m.body)

-- The actions that are due for the bytes in `pending` and for the body.
abbrev weight : {Step : Type 0} → Encoder Step → ℕ
weight e = (if length e.pending == 0 then 0 else 1) + (if e.new_msg_flag then 0 else 1)

no_bytes : (xs : List ℕ) → (length xs == 0) ≡ true → xs ≡ []
no_bytes [] e = refl
no_bytes (x ∷ xs) e = absurd (ground arith)

-- Copying stops at the end of the buffer or of the bytes.
full_or_empty :
    (size : ℕ) (out bytes : List ℕ)
    → let k = min (length bytes) (size - length out) in
      (size ≤ length (out ++ take k bytes)) ⊎ ((length (drop k bytes) == 0) ≡ true)
full_or_empty size out bytes =
    let k = min (length bytes) (size - length out) in
    let total : length (take k bytes) + length (drop k bytes) ≡ length bytes =
      sym (length-append (take k bytes) (drop k bytes)) ∙ ap length (take-append-drop k bytes) in
    let after : length (drop k bytes) ≡ length bytes - k = length-drop k bytes in
    let sum : length (out ++ take k bytes) ≡ length out + length (take k bytes) =
      length-append out (take k bytes) in
    elim (Bool-cases (leb (length bytes) (size - length out))) [
      | inl e ↦ inr (ground arith)
      | inr e ↦ inl (ground arith)
    ]

module _ {Step : Type 0} (act : Msg → Encoder Step → Encoder Step) (m : Msg)
    (size_ready last : Step)
    (body_next : (e : Encoder Step)
      → e.next ≡ size_ready
      → act m e ≡ next_step e m.body last true) where
  -- The body is next unless it is in `pending`.
  abbrev pub IsDue : Encoder Step → Type 0
  IsDue e = e.new_msg_flag ≡ false → e.next ≡ size_ready

  -- The batch is full, or the message has ended.
  abbrev pub Ended : ℕ → List ℕ → Encoder Step → Type 0
  Ended size out e = (size ≤ length out) ⊎ ((e.in_progress ≡ none) × (left m e ≡ []))

  abbrev Copied : ℕ → List ℕ → Encoder Step → Round act → Type 0
  Copied size out e (more out' e') =
      (out' ++ left m e' ≡ out ++ left m e)
      × IsDue e'
      × ((size ≤ length out') ⊎ ((length e'.pending == 0) ≡ true))
      × (e'.new_msg_flag ≡ e.new_msg_flag)
  Copied size out e (full out' e') =
      (out' ++ left m e' ≡ out ++ left m e) × IsDue e' × Ended size out' e'

  copy-Copied :
      (size : ℕ) (out : List ℕ) (e : Encoder Step)
      → IsDue e
      → Copied size out e (copy act size out e)
  unfolding copy
  copy-Copied size out e due = elim (Bool-cases (length out == 0 && leb size (length e.pending))) [
    | inl t ↦
        let nothing : out ≡ [] = no_bytes out (ground arith) in
        rw t (ap (λ o. o ++ left m e) (sym nothing), due, inl (ground arith))
    | inr f ↦
        let k = min (length e.pending) (size - length out) in
        rw f (
          append_assoc out (take k e.pending)
                (drop k e.pending ++ (if e.new_msg_flag then [] else m.body))
              ∙ ap (λ l. out ++ l)
                  (sym (
                      append_assoc (take k e.pending) (drop k e.pending)
                        (if e.new_msg_flag then [] else m.body))
                    ∙ ap (λ l. l ++ (if e.new_msg_flag then [] else m.body))
                        (take-append-drop k e.pending)),
          due,
          full_or_empty size out e.pending,
          refl,
        )
  ]

  -- What `encode` promises, from the state and with the bytes that are in the buffer.
  abbrev pub Gives : ℕ → List ℕ → Encoder Step → Option (List ℕ × Encoder Step) → Type 0
  Gives size out e r =
      (out' : List ℕ) × (e' : Encoder Step) × (r ≡ some (out', e'))
      × (out' ++ left m e' ≡ out ++ left m e)
      × IsDue e'
      × Ended size out' e'

  -- A round after which so many more are enough.
  abbrev Goes : ℕ → ℕ → List ℕ → Encoder Step → Round act → Type 0
  Goes fuel size out e (more out' e') =
      (out' ++ left m e' ≡ out ++ left m e)
      × IsDue e'
      × (0 < fuel)
      × ((size ≤ length out') ⊎ (weight e' < fuel))
  Goes fuel size out e (full out' e') =
      (out' ++ left m e' ≡ out ++ left m e) × IsDue e' × Ended size out' e'

  Copied-Goes :
      (fuel size : ℕ) (out : List ℕ) (e e₁ : Encoder Step) (r : Round act)
      → Copied size out e₁ r
      → left m e₁ ≡ left m e
      → (if e₁.new_msg_flag then 0 else 1) < fuel
      → Goes fuel size out e r
  Copied-Goes fuel size out e e₁ (full out' e') (eq, due, ended) same enough =
      (eq ∙ ap (λ l. out ++ l) same, due, ended)
  Copied-Goes fuel size out e e₁ (more out' e') (eq, due, inl h, flag) same enough =
      (eq ∙ ap (λ l. out ++ l) same, due, omega arith, inl h)
  Copied-Goes fuel size out e e₁ (more out' e') (eq, due, inr h, flag) same enough =
      (eq ∙ ap (λ l. out ++ l) same, due, omega arith, inr (rw (h, flag) (omega arith)))

  round-Goes :
      (fuel size : ℕ) (out : List ℕ) (e : Encoder Step)
      → IsDue e
      → weight e < suc fuel
      → Goes fuel size out e (round act size m out e)
  unfolding round
  round-Goes fuel size out e due enough = elim (Bool-cases (length e.pending == 0)) [
    | inr held ↦ rw held (
        Copied-Goes fuel size out e e (copy act size out e) (copy-Copied size out e due) refl
          (ground arith))
    | inl empty ↦ elim (Bool-cases e.new_msg_flag) [
      | inl over ↦
          let none_left : left m e ≡ [] =
            ap (λ l. l ++ (if e.new_msg_flag then [] else m.body)) (no_bytes e.pending empty)
            ∙ rw over refl in
          let closed : round act size m out e ≡ full out (record e { in_progress = none }) =
            rw (empty, over) refl in
          subst (Goes fuel size out e) (sym closed) (refl, due, inr (refl, none_left))
      | inr body ↦
          let e₁ = next_step e m.body last true in
          let all_left : left m e ≡ m.body =
            ap (λ l. l ++ (if e.new_msg_flag then [] else m.body)) (no_bytes e.pending empty)
            ∙ rw body refl in
          let acted : round act size m out e ≡ copy act size out (act m e) =
            rw (empty, body) refl in
          subst (Goes fuel size out e)
            (sym (acted ∙ ap (copy act size out) (body_next e (due body))))
            (Copied-Goes fuel size out e e₁ (copy act size out e₁)
              (copy-Copied size out e₁ (λ h. absurd cc)) (append-nil m.body ∙ sym all_left)
              (ground arith))
    ]
  ]

  -- The rounds that follow one.
  go_on :
      (fuel size : ℕ) (out : List ℕ) (e : Encoder Step) (r : Round act)
      → ((out' : List ℕ) (e' : Encoder Step)
          → IsDue e'
          → weight e' < fuel
          → Gives size out' e' (rounds act fuel size m out' e'))
      → Goes fuel size out e r
      → Gives size out e (elim r [
        | full out' e' ↦ some (out', e')
        | more out' e' ↦ rounds act fuel size m out' e'
      ])
  unfolding rounds
  go_on fuel size out e (full out' e') ih (eq, due, ended) = (out', e', refl, eq, due, ended)
  go_on fuel size out e (more out' e') ih (eq, due, pos, inr h) =
      let (out'', e'', p, eq', due', ended) = ih out' e' due h in
      (out'', e'', p, eq' ∙ eq, due', ended)
  go_on zero size out e (more out' e') ih (eq, due, pos, inl h) = absurd (omega arith)
  go_on (suc fuel) size out e (more out' e') ih (eq, due, pos, inl h) =
      let stop : ltb (length out') size ≡ false = ground arith in
      (out', e', rw stop refl, eq, due, inl h)

  rounds-Gives :
      (fuel size : ℕ) (out : List ℕ) (e : Encoder Step)
      → IsDue e
      → weight e < fuel
      → Gives size out e (rounds act fuel size m out e)
  unfolding rounds
  rounds-Gives zero size out e due enough = absurd (omega arith)
  rounds-Gives (suc fuel) size out e due enough = elim (Bool-cases (ltb (length out) size)) [
    | inr f ↦ (out, e, rw f refl, refl, due, inl (ground arith))
    | inl t ↦ rw t (
        go_on fuel size out e (round act size m out e) (rounds-Gives fuel size)
          (round-Goes fuel size out e due enough))
  ]

  -- `encode` returns. What it gives out, followed by what is left, is what was left before; and the
  -- batch is full, or the message has ended and nothing is left of it. The derived encoder writes the body
  -- in one action, after the header.
  pub encode-Gives :
      (size : ℕ) (e : Encoder Step)
      → e.in_progress ≡ some m
      → IsDue e
      → Gives size [] e (encode act size e)
  unfolding encode
  encode-Gives size e busy due =
      subst (Gives size [] e) (sym (started e.in_progress busy))
        (rounds-Gives 4 size [] e due (ground arith))
    where
      started :
          (o : Option Msg)
          → o ≡ some m
          → elim o [ none ↦ some ([], e) | some m' ↦ rounds act 4 size m' [] e ]
            ≡ rounds act 4 size m [] e
      started o busy = rw busy refl
