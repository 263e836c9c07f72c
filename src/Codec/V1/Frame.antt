-- ===== src/Codec/V1/Frame.antt =====
-- What the ZMTP 1.0 encoder writes for a message, and that the decoder reads it back.
use zeromq.Prelude.{
  ℕ, suc, ◌-◌, ◌%◌, ◌^◌, ◌<◌, ◌≡◌, refl, ap, ◌∙◌, inl, inr, Bool, true, false, Option, List, [],
  ◌∷◌, ◌++◌, arith, length, length-replicate, ltb, ◌==◌, if◌then◌else◌, Bool-cases,
}
use zeromq.Msg.{Msg, empty}
use zeromq.Wire.{put_uint64, get_uint64-put_uint64}
use zeromq.Codec.Decoder
use zeromq.Codec.Decoder.{
  Decoder, Rc, Outcome, go, done, fail, ready, decode, settle, resume, store, decode_block,
  settle_waits, decode_body,
}
use zeromq.Codec.V2.{has, more_flag, exceeds}
use zeromq.Codec.V1.{
  DecoderStep, blank, one_byte_size_ready, eight_byte_size_ready, flags_ready, message_ready,
  more_bit, encode_header, new_encoder, allocate, on_one_byte_size, on_eight_byte_size, decoder_act,
}

-- The header that the encoder writes.
abbrev pub header : Msg → List ℕ
header m = (encode_header m new_encoder).pending

-- What of a message goes over the wire.
abbrev pub carried : Msg → Msg
carried m = record empty { more = m.more; body = m.body }

-- A decoder that has read no byte of its next message.
abbrev pub idle : Decoder DecoderStep → Decoder DecoderStep
idle d = Decoder.next_step d 1 one_byte_size_ready

-- The decoder that has allocated the message and is to read its flags.
abbrev allocated : Decoder DecoderStep → Msg → Decoder DecoderStep
allocated d m =
    Decoder.next_step (record d { msg = record empty { body = blank (length m.body) } }) 1
      flags_ready

-- The decoder that waits for the body of the message.
abbrev waiting : Decoder DecoderStep → Msg → Decoder DecoderStep
waiting d m =
    Decoder.next_step
      (record d { msg = record empty { more = m.more; body = blank (length m.body) } })
      (length (blank (length m.body))) message_ready

has-more_bit : (m : Msg) → has (more_bit m) more_flag ≡ m.more
has-more_bit m = go m.more
  where
    go : (b : Bool) → has (if b then 1 else 0) more_flag ≡ b
    go true = refl
    go false = refl

module _ (maxmsgsize : Option ℕ) (alloc : ℕ → Bool) (m : Msg) where
  -- From the flags on, whatever the size's form was.
  read_flags :
      (d : Decoder DecoderStep) (rest : List ℕ)
      → decode (decoder_act maxmsgsize alloc) (allocated d m) (more_bit m ∷ (m.body ++ rest))
        ≡ ready (carried m) (idle (waiting (store (more_bit m) (allocated d m)) m)) rest
  unfolding decoder_act
  read_flags d rest =
      decode_block (decoder_act maxmsgsize alloc) (allocated d m) (more_bit m ∷ []) (m.body ++ rest)
        (omega arith) refl
      ∙ decode_body (decoder_act maxmsgsize alloc) (store (more_bit m) (allocated d m))
          (waiting (store (more_bit m) (allocated d m)) m) (carried m)
          (idle (waiting (store (more_bit m) (allocated d m)) m)) m.body rest
          (ap
            (λ (b : Bool). go (
              Decoder.next_step
                (record (store (more_bit m) (allocated d m)) {
                  msg = record empty { more = b; body = blank (length m.body) };
                })
                (length (blank (length m.body))) message_ready))
            (has-more_bit m))
          (length-replicate (length m.body) 0) refl refl

  -- One block of bytes after which the message is allocated.
  read_size :
      (d d₀ : Decoder DecoderStep) (block rest : List ℕ)
      → 0 < d.to_read
      → length block ≡ d.to_read
      → decoder_act maxmsgsize alloc (record d { got = d.got ++ block; to_read = 0 })
        ≡ go (allocated d₀ m)
      → (d' : Decoder DecoderStep) × (decode
            (decoder_act maxmsgsize alloc)
            d
            (block ++ (more_bit m ∷ (m.body ++ rest)))
          ≡ ready (carried m) (idle d') rest)
  read_size d d₀ block rest pos len e = (
    waiting (store (more_bit m) (allocated d₀ m)) m,
    decode_block (decoder_act maxmsgsize alloc) d block (more_bit m ∷ (m.body ++ rest)) pos len
        ∙ ap (λ rc. resume (decoder_act maxmsgsize alloc) rc (more_bit m ∷ (m.body ++ rest)))
            (settle_waits (decoder_act maxmsgsize alloc)
              (record d { got = d.got ++ block; to_read = 0 }) (allocated d₀ m) e refl)
        ∙ read_flags d₀ rest,
  )

header_short :
    (m : Msg)
    → ltb (suc (length m.body)) 255 ≡ true
    → header m ≡ suc (length m.body) ∷ more_bit m ∷ []
unfolding encode_header
header_short m e = rw (header, e) refl

header_long :
    (m : Msg)
    → ltb (suc (length m.body)) 255 ≡ false
    → header m ≡ 255 ∷ put_uint64 (suc (length m.body)) ++ more_bit m ∷ []
unfolding encode_header
header_long m e = rw (header, e) refl

module _ (maxmsgsize : Option ℕ) (alloc : ℕ → Bool) (m : Msg) (d : Decoder DecoderStep)
    (allowed : exceeds (length m.body) maxmsgsize ≡ false)
    (free : alloc (length m.body) ≡ true) where
  short_size :
      ltb (suc (length m.body)) 255 ≡ true
      → on_one_byte_size maxmsgsize alloc (suc (length m.body)) d ≡ go (allocated d m)
  unfolding on_one_byte_size allocate
  short_size e =
      let short : (suc (length m.body) == 255) ≡ false = ground arith in
      let pos : (suc (length m.body) == 0) ≡ false = ground arith in
      let minus : suc (length m.body) - 1 ≡ length m.body = omega arith in
      rw (short, pos, minus, allowed, free) refl

  long_size :
      suc (length m.body) < 2 ^ 64
      → on_eight_byte_size maxmsgsize alloc (suc (length m.body)) d ≡ go (allocated d m)
  unfolding on_eight_byte_size allocate
  long_size small =
      let pos : (suc (length m.body) == 0) ≡ false = ground arith in
      let minus : suc (length m.body) - 1 ≡ length m.body = omega arith in
      let fits : ltb (2 ^ 64 - 1) (length m.body) ≡ false = ground arith in
      let kept : length m.body % 2 ^ 64 ≡ length m.body = omega arith in
      rw (pos, minus, allowed, fits, kept, free) refl

-- The decoder that has read the escape byte.
abbrev escaped : Decoder DecoderStep → Decoder DecoderStep
escaped d = Decoder.next_step (store 255 (idle d)) 8 eight_byte_size_ready

-- Whatever follows on the stream, a decoder that is between two messages reads from what the encoder
-- writes for a message, header and body, its body and its `more` bit, and is then between two
-- messages again, with the rest of the stream unread. The message's size is within the limit and,
-- counting the flags byte, 64 bits, and its memory can be allocated.
pub decode-encode_header :
    (maxmsgsize : Option ℕ) (alloc : ℕ → Bool) (d : Decoder DecoderStep) (m : Msg) (rest : List ℕ)
    → suc (length m.body) < 2 ^ 64
    → exceeds (length m.body) maxmsgsize ≡ false
    → alloc (length m.body) ≡ true
    → (d' : Decoder DecoderStep) × (decode
          (decoder_act maxmsgsize alloc)
          (idle d)
          (header m ++ (m.body ++ rest))
        ≡ ready (carried m) (idle d') rest)
unfolding decoder_act put_uint64 on_one_byte_size
decode-encode_header maxmsgsize alloc d m rest small allowed free =
    let act = decoder_act maxmsgsize alloc in
    elim (Bool-cases (ltb (suc (length m.body)) 255)) [
      | inl e ↦
          let (d', p) =
            read_size maxmsgsize alloc m (idle d) (store (suc (length m.body)) (idle d))
              (suc (length m.body) ∷ []) rest (omega arith) refl
              (short_size maxmsgsize alloc m (store (suc (length m.body)) (idle d)) allowed free
                e) in
          (d', ap (λ h. decode act (idle d) (h ++ (m.body ++ rest))) (header_short m e) ∙ p)
      | inr e ↦
          let size = put_uint64 (suc (length m.body)) in
          let read : Decoder DecoderStep = record (escaped d) { got = size; to_read = 0 } in
          let (d', p) = read_size maxmsgsize alloc m (escaped d) read size rest (omega arith) refl (
            ap (λ n. on_eight_byte_size maxmsgsize alloc n read)
              (get_uint64-put_uint64 (suc (length m.body)) [] small)
            ∙ long_size maxmsgsize alloc m read allowed free small) in
          (
            d',
            ap (λ h. decode act (idle d) (h ++ (m.body ++ rest))) (header_long m e)
                ∙ decode_block act (idle d) (255 ∷ []) (size ++ (more_bit m ∷ (m.body ++ rest)))
                    (omega arith) refl
                ∙ ap (λ rc. resume act rc (size ++ (more_bit m ∷ (m.body ++ rest))))
                    (settle_waits act (store 255 (idle d)) (escaped d) refl refl)
                ∙ p,
          )
    ]
