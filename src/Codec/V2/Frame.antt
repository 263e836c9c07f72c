-- ===== src/Codec/V2/Frame.antt =====
-- What the encoder writes for a message, and that the decoder reads it back.
use zeromq.Prelude.{
  ℕ, suc, ◌%◌, ◌^◌, ◌<◌, ◌≡◌, refl, ap, ◌∙◌, inl, inr, bit_or, Bool, true, false, Option, List, [],
  ◌∷◌, ◌++◌, arith, length, ltb, ◌==◌, if◌then◌else◌, Bool-cases,
}
use zeromq.Msg.{Msg, empty}
use zeromq.Wire.{put_uint64, get_uint64-put_uint64}
use zeromq.Codec.Decoder
use zeromq.Codec.Decoder.{
  Decoder, Rc, Outcome, Errno, Flags, go, done, fail, ready, failed, emsgsize, enomem, decode,
  settle, resume, store, decode_block, settle_waits, settle_done, settle_twice, settle_fails,
  decode_body,
}
use zeromq.Codec.V2.{
  DecoderStep, flags_ready, one_byte_size_ready, eight_byte_size_ready, message_ready, flags_byte,
  encode_header, new_encoder, has, more_flag, large_flag, command_flag, on_flags, exceeds,
  size_ready, decoder_act,
}

-- The header that the encoder writes.
abbrev pub header : Msg → List ℕ
header m = (encode_header m new_encoder).pending

-- What of a message goes over the wire.
abbrev pub carried : Msg → Msg
carried m = record empty { more = m.more; command = m.command; body = m.body }

-- The bits of a byte that is joined of three flags.
has_bits :
    (a b c : Bool)
    → let flags = bit_or (bit_or (if a then 1 else 0) (if b then 2 else 0)) (if c then 4 else 0) in
      (has flags 1 ≡ a) × (has flags 4 ≡ c) × (has flags 2 ≡ b)
has_bits true true true = (refl, refl, refl)
has_bits true true false = (refl, refl, refl)
has_bits true false true = (refl, refl, refl)
has_bits true false false = (refl, refl, refl)
has_bits false true true = (refl, refl, refl)
has_bits false true false = (refl, refl, refl)
has_bits false false true = (refl, refl, refl)
has_bits false false false = (refl, refl, refl)

has_flags :
    (m : Msg)
    → (has (flags_byte m) more_flag ≡ m.more)
      × (has (flags_byte m) command_flag ≡ m.command)
      × (has (flags_byte m) large_flag ≡ ltb 255 (length m.body))
unfolding flags_byte
has_flags m = has_bits m.more (ltb 255 (length m.body)) m.command

-- The decoder that waits for the body of the message.
abbrev waiting : Decoder DecoderStep → Msg → Decoder DecoderStep
waiting d m =
    Decoder.next_step (record d { msg = record empty { more = m.more; command = m.command } })
      (length m.body) message_ready

module _ (maxmsgsize : Option ℕ) (alloc : ℕ → Bool) where
  size_ready_accepts :
      (n : ℕ) (d : Decoder DecoderStep)
      → n < 2 ^ 64
      → exceeds n maxmsgsize ≡ false
      → alloc n ≡ true
      → size_ready maxmsgsize alloc n d
        ≡ go (
            Decoder.next_step
              (record d {
                msg = record empty { more = d.msg_flags.more; command = d.msg_flags.command };
              })
              n
              message_ready)
  unfolding size_ready
  size_ready_accepts n d small allowed free =
      let fits : (n == n % 2 ^ 64) ≡ true = ground arith in rw (allowed, fits, free) refl

  -- A body of a size that is allowed is read to its end.
  read_body :
      (d : Decoder DecoderStep) (m : Msg) (rest : List ℕ)
      → d.msg_flags ≡ record { more = m.more; command = m.command }
      → decoder_act maxmsgsize alloc d ≡ size_ready maxmsgsize alloc (length m.body) d
      → length m.body < 2 ^ 64
      → exceeds (length m.body) maxmsgsize ≡ false
      → alloc (length m.body) ≡ true
      → resume
          (decoder_act maxmsgsize alloc)
          (settle (decoder_act maxmsgsize alloc) 2 d)
          (m.body ++ rest)
        ≡ ready (carried m) (Decoder.next_step (waiting d m) 1 flags_ready) rest
  unfolding decoder_act
  read_body d m rest flags by_size small allowed free =
      decode_body (decoder_act maxmsgsize alloc) d (waiting d m) (carried m)
        (Decoder.next_step (waiting d m) 1 flags_ready) m.body rest
        (by_size
          ∙ size_ready_accepts (length m.body) d small allowed free
          ∙ ap
              (λ (f : Flags). go (
                Decoder.next_step
                  (record d { msg = record empty { more = f.more; command = f.command } })
                  (length m.body) message_ready))
              flags)
        refl refl refl

-- A decoder that has read no byte of its next message.
abbrev pub idle : Decoder DecoderStep → Decoder DecoderStep
idle d = Decoder.next_step d 1 flags_ready

-- The decoder that has read the flags of a message, and is to read its size.
abbrev pub sized : Decoder DecoderStep → Msg → ℕ → DecoderStep → Decoder DecoderStep
sized d m n step =
    Decoder.next_step
      (record (store (flags_byte m) (idle d)) {
        msg_flags = record { more = m.more; command = m.command };
      })
      n step

module _ (maxmsgsize : Option ℕ) (alloc : ℕ → Bool) (d : Decoder DecoderStep) (m : Msg) where
  pub on_flags-flags_byte : on_flags (flags_byte m) (store (flags_byte m) (idle d)) ≡ (
      if ltb 255 (length m.body)
      then sized d m 8 eight_byte_size_ready
      else sized d m 1 one_byte_size_ready)
  unfolding on_flags
  on_flags-flags_byte = let (a, c, l) = has_flags m in rw (a, c, l) refl

  pub read_flags :
      (n : ℕ) (step : DecoderStep) (bs : List ℕ)
      → on_flags (flags_byte m) (store (flags_byte m) (idle d)) ≡ sized d m (suc n) step
      → decode (decoder_act maxmsgsize alloc) (idle d) (flags_byte m ∷ bs)
        ≡ decode (decoder_act maxmsgsize alloc) (sized d m (suc n) step) bs
  unfolding decoder_act
  read_flags n step bs e =
      decode_block (decoder_act maxmsgsize alloc) (idle d) (flags_byte m ∷ []) bs (omega arith) refl
      ∙ ap (λ rc. resume (decoder_act maxmsgsize alloc) rc bs)
          (settle_waits (decoder_act maxmsgsize alloc) (store (flags_byte m) (idle d))
            (sized d m (suc n) step) (ap go e) (ground arith))

  -- The bytes of the size are read, and then the body.
  read_size :
      (n : ℕ) (step : DecoderStep) (block rest : List ℕ)
      → length block ≡ suc n
      → decoder_act maxmsgsize alloc (record (sized d m (suc n) step) { got = block; to_read = 0 })
        ≡ size_ready maxmsgsize alloc
            (length m.body)
            (record (sized d m (suc n) step) { got = block; to_read = 0 })
      → length m.body < 2 ^ 64
      → exceeds (length m.body) maxmsgsize ≡ false
      → alloc (length m.body) ≡ true
      → (d' : Decoder DecoderStep) × (decode
            (decoder_act maxmsgsize alloc)
            (sized d m (suc n) step)
            (block ++ (m.body ++ rest))
          ≡ ready (carried m) (idle d') rest)
  read_size n step block rest len by_size small allowed free = (
    waiting (record (sized d m (suc n) step) { got = block; to_read = 0 }) m,
    decode_block (decoder_act maxmsgsize alloc) (sized d m (suc n) step) block (m.body ++ rest)
          (omega arith) len
        ∙ read_body maxmsgsize alloc (record (sized d m (suc n) step) { got = block; to_read = 0 })
            m rest refl by_size small allowed free,
  )

pub header_large :
    (m : Msg)
    → ltb 255 (length m.body) ≡ true
    → header m ≡ flags_byte m ∷ put_uint64 (length m.body)
unfolding encode_header
header_large m e = rw (header, e) refl

pub header_small :
    (m : Msg)
    → ltb 255 (length m.body) ≡ false
    → header m ≡ flags_byte m ∷ (length m.body % 256) ∷ []
unfolding encode_header
header_small m e = rw (header, e) refl

-- Whatever follows on the stream, a decoder that is between two messages reads from what the encoder
-- writes for a message, header and body, exactly its body and its more and command bits, and is then
-- between two messages again, with the rest of the stream unread. The message's size is within the
-- limit and 64 bits, and its memory can be allocated.
pub decode-header :
    (maxmsgsize : Option ℕ) (alloc : ℕ → Bool) (d : Decoder DecoderStep) (m : Msg) (rest : List ℕ)
    → length m.body < 2 ^ 64
    → exceeds (length m.body) maxmsgsize ≡ false
    → alloc (length m.body) ≡ true
    → (d' : Decoder DecoderStep) × (decode
          (decoder_act maxmsgsize alloc)
          (idle d)
          (header m ++ (m.body ++ rest))
        ≡ ready (carried m) (idle d') rest)
unfolding decoder_act put_uint64
decode-header maxmsgsize alloc d m rest small allowed free =
    elim (Bool-cases (ltb 255 (length m.body))) [
      | inl e ↦
          let (d', p) =
            read_size maxmsgsize alloc d m 7 eight_byte_size_ready (put_uint64 (length m.body)) rest
              refl
              (ap
                (λ n. size_ready maxmsgsize alloc n (record (sized d m 8 eight_byte_size_ready) {
                  got = put_uint64 (length m.body);
                  to_read = 0;
                }))
                (get_uint64-put_uint64 (length m.body) [] small))
              small allowed free in
          (
            d',
            ap (λ h. decode (decoder_act maxmsgsize alloc) (idle d) (h ++ (m.body ++ rest)))
                  (header_large m e)
                ∙ read_flags maxmsgsize alloc d m 7 eight_byte_size_ready
                    (put_uint64 (length m.body) ++ (m.body ++ rest))
                    (on_flags-flags_byte maxmsgsize alloc d m
                      ∙ ap
                          (λ t.
                            if t
                            then sized d m 8 eight_byte_size_ready
                            else sized d m 1 one_byte_size_ready)
                          e)
                ∙ p,
          )
      | inr e ↦
          let same : length m.body % 256 ≡ length m.body = ground arith in
          let (d', p) =
            read_size maxmsgsize alloc d m 0 one_byte_size_ready ((length m.body % 256) ∷ []) rest
              refl
              (ap
                (λ n. size_ready maxmsgsize alloc n (record (sized d m 1 one_byte_size_ready) {
                  got = (length m.body % 256) ∷ [];
                  to_read = 0;
                }))
                same)
              small allowed free in
          (
            d',
            ap (λ h. decode (decoder_act maxmsgsize alloc) (idle d) (h ++ (m.body ++ rest)))
                  (header_small m e)
                ∙ read_flags maxmsgsize alloc d m 0 one_byte_size_ready
                    ((length m.body % 256) ∷ (m.body ++ rest))
                    (on_flags-flags_byte maxmsgsize alloc d m
                      ∙ ap
                          (λ t.
                            if t
                            then sized d m 8 eight_byte_size_ready
                            else sized d m 1 one_byte_size_ready)
                          e)
                ∙ p,
          )
    ]
