-- ===== src/Codec/Decoder.antt =====
-- src/decoder.hpp: `decoder_base_t`, the state machine that reads a known number of bytes before each
-- action. `got` holds the bytes that were stored at `read_pos` since the last `next_step`, and the
-- copy of a block of bytes is made byte by byte. Out of memory is the parameter `alloc` of the actions.
pub mod Returns
use zeromq.Prelude.{
  Bool-cases, inl, inr, ap, ◌∙◌, sym, ℕ, zero, suc, ◌-◌, ◌<◌, ◌≡◌, refl, Bool, true, false, List,
  [], ◌∷◌, ◌++◌, arith, length, ◌==◌, if◌then◌else◌,
}
use mathlib.Core.List.{append_assoc}
use zeromq.Msg.{Msg}

pub data Errno : Type 0 where
  eproto emsgsize enomem : Errno

-- The bits `msg_t::more` and `msg_t::command`.
pub record Flags : Type 0 where
  pub more : Bool
  pub command : Bool

abbrev pub no_flags : Flags
no_flags = record { more = false; command = false }

-- The fields of the base class, and of the derived ones `in_progress`, with its body still to come, and
-- `msg_flags`, which only `v2_decoder_t` has.
pub record Decoder (Step : Type 0) : Type 0 where
  pub next : Step
  pub to_read : ℕ
  pub got : List ℕ
  pub msg : Msg
  pub msg_flags : Flags

-- What an action returns: 0, 1 or -1.
pub data Rc (Step : Type 0) : Type 0 where
  go : Decoder Step → Rc Step
  done : Msg → Decoder Step → Rc Step
  fail : Errno → Rc Step
  stuck : Rc Step

-- What `decode` returns; `ready` and `failed` with the bytes that were not used.
pub data Outcome (Step : Type 0) : Type 0 where
  pending : Decoder Step → Outcome Step
  ready : Msg → Decoder Step → List ℕ → Outcome Step
  failed : Errno → List ℕ → Outcome Step
  endless : Outcome Step

module _ {Step : Type 0} where
  -- `next_step (read_pos, to_read, next)`
  abbrev pub next_step : Decoder Step → ℕ → Step → Decoder Step
  next_step d n step = record d { next = step; to_read = n; got = [] }

  -- One byte is stored at `read_pos`.
  abbrev pub store : ℕ → Decoder Step → Decoder Step
  store b d = record d { got = d.got ++ b ∷ []; to_read = d.to_read - 1 }

  module _ (act : Decoder Step → Rc Step) where
    -- `while (to_read == 0)` round the actions, in at most so many rounds.
    unfoldable pub settle : ℕ → Decoder Step → Rc Step
    settle zero d = stuck
    settle (suc rounds) d = elim (act d) [
      | go d' ↦ if d'.to_read == 0 then settle rounds d' else go d'
      | done m d' ↦ done m d'
      | fail e ↦ fail e
      | stuck ↦ stuck
    ]

    unfoldable pub decode : Decoder Step → List ℕ → Outcome Step
    decode d [] = pending d
    decode d (b ∷ bs) =
        let d' = store b d in
        elim (d'.to_read == 0) [
          | false ↦ decode d' bs
          | true ↦ elim (settle 2 d') [
            | go d'' ↦ decode d'' bs
            | done m d'' ↦ ready m d'' bs
            | fail e ↦ failed e bs
            | stuck ↦ endless
          ]
        ]

    -- How `decode` goes on after the actions.
    abbrev pub resume : Rc Step → List ℕ → Outcome Step
    resume (go d) bs = decode d bs
    resume (done m d) bs = ready m d bs
    resume (fail e) bs = failed e bs
    resume stuck bs = endless

    decode_last :
        (rc : Rc Step) (bs : List ℕ)
        → elim rc [
          | go d ↦ decode d bs
          | done m d ↦ ready m d bs
          | fail e ↦ failed e bs
          | stuck ↦ endless
        ]
          ≡ resume rc bs
    decode_last (go d) bs = refl
    decode_last (done m d) bs = refl
    decode_last (fail e) bs = refl
    decode_last stuck bs = refl

    -- How one byte is read.
    abbrev pub after_byte : Bool → Decoder Step → List ℕ → Outcome Step
    after_byte false d bs = decode d bs
    after_byte true d bs = resume (settle 2 d) bs

    pub decode_byte :
        (d : Decoder Step) (b : ℕ) (bs : List ℕ)
        → decode d (b ∷ bs) ≡ after_byte (d.to_read - 1 == 0) (store b d) bs
    unfolding decode
    decode_byte d b bs = elim (Bool-cases (d.to_read - 1 == 0)) [
      | inl e ↦ rw (e, decode) (decode_last (settle 2 (store b d)) bs)
      | inr e ↦ rw (e, decode) refl
    ]

    -- A block of exactly the bytes that are wanted: the actions run once, on all of them.
    pub decode_block :
        (d : Decoder Step) (block rest : List ℕ)
        → 0 < d.to_read
        → length block ≡ d.to_read
        → decode d (block ++ rest)
          ≡ resume (settle 2 (record d { got = d.got ++ block; to_read = 0 })) rest
    decode_block d [] rest pos len = absurd (omega arith)
    decode_block d (b ∷ []) rest pos len =
        let last : (d.to_read - 1 == 0) ≡ true = ground arith in
        let none_left : d.to_read - 1 ≡ 0 = ground arith in
        decode_byte d b rest
        ∙ ap (λ t. after_byte t (store b d) rest) last
        ∙ ap (λ n. resume (settle 2 (record d { got = d.got ++ b ∷ []; to_read = n })) rest)
            none_left
    decode_block d (b ∷ c ∷ block) rest pos len =
        let more : (d.to_read - 1 == 0) ≡ false = ground arith in
        decode_byte d b (c ∷ block ++ rest)
        ∙ ap (λ t. after_byte t (store b d) (c ∷ block ++ rest)) more
        ∙ decode_block (store b d) (c ∷ block) rest (ground arith) (ground arith)
        ∙ ap (λ l. resume (settle 2 (record d { got = l; to_read = 0 })) rest)
            (append_assoc d.got (b ∷ []) (c ∷ block))

    -- An action that wants more bytes ends the loop; one that wants none runs the next action.
    pub settle_waits :
        (d d' : Decoder Step) → act d ≡ go d' → (d'.to_read == 0) ≡ false → settle 2 d ≡ go d'
    unfolding settle
    settle_waits d d' e z = rw (settle, e, z) refl

    pub settle_done :
        (d : Decoder Step) (m : Msg) (d' : Decoder Step)
        → act d ≡ done m d'
        → settle 2 d ≡ done m d'
    unfolding settle
    settle_done d m d' e = rw (settle, e) refl

    pub settle_twice :
        (d d' : Decoder Step) (m : Msg) (d'' : Decoder Step)
        → act d ≡ go d'
        → (d'.to_read == 0) ≡ true
        → act d' ≡ done m d''
        → settle 2 d ≡ done m d''
    unfolding settle
    settle_twice d d' m d'' e z f = rw (settle, e, z, f) refl

    pub settle_fails : (d : Decoder Step) (e : Errno) → act d ≡ fail e → settle 2 d ≡ fail e
    unfolding settle
    settle_fails d e h = rw (settle, h) refl

    -- The bytes of a message's body, after the action that found out its size.
    pub decode_body :
        (d d' : Decoder Step) (m : Msg) (d'' : Decoder Step) (body rest : List ℕ)
        → act d ≡ go d'
        → d'.to_read ≡ length body
        → d'.got ≡ []
        → act (record d' { got = body; to_read = 0 }) ≡ done m d''
        → resume (settle 2 d) (body ++ rest) ≡ ready m d'' rest
    decode_body d d' m d'' [] rest e len none_yet f =
        let same : d' ≡ record d' { got = []; to_read = 0 } =
          λ i. record d' { got = none_yet i; to_read = len i } in
        ap (λ rc. resume rc rest) (settle_twice d d' m d'' e (ground arith) (ap act same ∙ f))
    decode_body d d' m d'' (b ∷ bs) rest e len none_yet f =
        ap (λ rc. resume rc (b ∷ bs ++ rest)) (settle_waits d d' e (ground arith))
        ∙ decode_block d' (b ∷ bs) rest (omega arith) (sym len)
        ∙ ap (λ l. resume (settle 2 (record d' { got = l ++ b ∷ bs; to_read = 0 })) rest) none_yet
        ∙ ap (λ rc. resume rc rest) (settle_done (record d' { got = b ∷ bs; to_read = 0 }) m d'' f)
