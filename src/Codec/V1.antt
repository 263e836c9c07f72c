-- ===== src/Codec/V1.antt =====
-- The ZMTP 1.0 framing: src/v1_encoder.cpp, src/v1_decoder.cpp.
pub mod Frame
pub mod Returns
mod Tests
use zeromq.Prelude.{
  ℕ, suc, ◌-◌, ◌%◌, ◌^◌, Bool, true, false, not, Option, none, some, List, [], ◌∷◌, ◌++◌, length,
  replicate, ltb, ◌==◌, if◌then◌else◌,
}
use zeromq.Msg.{Msg, empty}
use zeromq.Wire.{byte, put_uint64, get_uint64}
use zeromq.Codec.Encoder
use zeromq.Codec.Encoder.{Encoder}
use zeromq.Codec.Decoder
use zeromq.Codec.Decoder.{Decoder, Rc, go, done, fail, eproto, emsgsize, enomem, no_flags}
use zeromq.Codec.V2.{has, more_flag, exceeds}

pub data EncoderStep : Type 0 where
  encoder_message_ready encoder_size_ready : EncoderStep

abbrev pub new_encoder : Encoder EncoderStep
new_encoder = record {
  pending = [];
  next = encoder_message_ready;
  new_msg_flag = true;
  in_progress = none;
}

-- `in_progress->flags () & msg_t::more`
abbrev pub more_bit : Msg → ℕ
more_bit m = if m.more then 1 else 0

-- `v1_encoder_t::message_ready`; `size` counts the flags byte too.
unfoldable pub encode_header : Msg → Encoder EncoderStep → Encoder EncoderStep
encode_header m e =
    let size = suc (length m.body) in
    if ltb size 255
    then Encoder.next_step e (size ∷ more_bit m ∷ []) encoder_size_ready false
    else Encoder.next_step e (255 ∷ put_uint64 size ++ more_bit m ∷ []) encoder_size_ready false

-- `(this->*next) ()` of the encoder; `v1_encoder_t::size_ready` is its second case.
unfoldable pub encoder_act : Msg → Encoder EncoderStep → Encoder EncoderStep
encoder_act m e = elim e.next [
  | encoder_message_ready ↦ encode_header m e
  | encoder_size_ready ↦ Encoder.next_step e m.body encoder_message_ready true
]

pub data DecoderStep : Type 0 where
  one_byte_size_ready eight_byte_size_ready flags_ready message_ready : DecoderStep

-- The decoder when it is made.
abbrev pub new_decoder : Decoder DecoderStep
new_decoder = record {
  next = one_byte_size_ready;
  to_read = 1;
  got = [];
  msg = empty;
  msg_flags = no_flags;
}

-- The body of a new message, which is not initialised.
abbrev pub blank : ℕ → List ℕ
blank size = replicate size 0

-- `init_size` returns 0 where `alloc` is true.
module _ (maxmsgsize : Option ℕ) (alloc : ℕ → Bool) where
  -- The end of both size actions: the message is allocated and the flags are next.
  unfoldable pub allocate : ℕ → Decoder DecoderStep → Rc DecoderStep
  allocate size d =
      if alloc size
      then (let m : Msg = record empty { body = blank size } in
          go (Decoder.next_step (record d { msg = m }) 1 flags_ready))
      else fail enomem

  -- `v1_decoder_t::one_byte_size_ready`
  unfoldable pub on_one_byte_size : ℕ → Decoder DecoderStep → Rc DecoderStep
  on_one_byte_size b d =
      if b == 255
      then go (Decoder.next_step d 8 eight_byte_size_ready)
      else if b == 0
      then fail eproto
      else if exceeds (b - 1) maxmsgsize
      then fail emsgsize
      else allocate (b - 1) d

  -- `v1_decoder_t::eight_byte_size_ready`
  unfoldable pub on_eight_byte_size : ℕ → Decoder DecoderStep → Rc DecoderStep
  on_eight_byte_size payload_length d =
      if payload_length == 0
      then fail eproto
      else if exceeds (payload_length - 1) maxmsgsize
      then fail emsgsize
      else if ltb (2 ^ 64 - 1) (payload_length - 1)
      then fail emsgsize
      else allocate ((payload_length - 1) % 2 ^ 64) d

  -- `(this->*next) ()` of the decoder; `v1_decoder_t::flags_ready` and `message_ready` are its last two
  -- cases.
  unfoldable pub decoder_act : Decoder DecoderStep → Rc DecoderStep
  decoder_act d = elim d.next [
    | one_byte_size_ready ↦ on_one_byte_size (byte d.got 0) d
    | eight_byte_size_ready ↦ on_eight_byte_size (get_uint64 d.got) d
    | flags_ready ↦
        (let m : Msg = record d.msg { more = has (byte d.got 0) more_flag } in
          go (Decoder.next_step (record d { msg = m }) (length m.body) message_ready))
    | message_ready ↦
        (let m : Msg = record d.msg { body = d.got } in
          done m (Decoder.next_step d 1 one_byte_size_ready))
  ]
