-- ===== src/Codec/V2.antt =====
-- The ZMTP 2.0 framing: src/v2_protocol.hpp, src/v2_encoder.cpp, src/v2_decoder.cpp.
pub mod Frame
pub mod TooLarge
pub mod Returns
pub mod Load
mod Tests
use zeromq.Prelude.{
  ℕ, ◌%◌, ◌^◌, bit_or, bit_and, Bool, true, false, not, Option, none, some, List, [], ◌∷◌, length,
  ltb, ◌==◌, ◌&&◌, if◌then◌else◌,
}
use zeromq.Msg.{Msg, empty}
use zeromq.Wire.{byte, put_uint64, get_uint64}
use zeromq.Codec.Encoder
use zeromq.Codec.Encoder.{Encoder}
use zeromq.Codec.Decoder
use zeromq.Codec.Decoder.{Decoder, Rc, go, done, fail, emsgsize, enomem, no_flags}

abbrev pub more_flag : ℕ
more_flag = 1

abbrev pub large_flag : ℕ
large_flag = 2

abbrev pub command_flag : ℕ
command_flag = 4

pub data EncoderStep : Type 0 where
  encoder_message_ready encoder_size_ready : EncoderStep

abbrev pub new_encoder : Encoder EncoderStep
new_encoder = record {
  pending = [];
  next = encoder_message_ready;
  new_msg_flag = true;
  in_progress = none;
}

-- `protocol_flags` of a message.
unfoldable pub flags_byte : Msg → ℕ
flags_byte m =
    bit_or
      (bit_or (if m.more then more_flag else 0) (if ltb 255 (length m.body) then large_flag else 0))
      (if m.command then command_flag else 0)

-- `v2_encoder_t::message_ready`
unfoldable pub encode_header : Msg → Encoder EncoderStep → Encoder EncoderStep
encode_header m e =
    if ltb 255 (length m.body)
    then Encoder.next_step e (flags_byte m ∷ put_uint64 (length m.body)) encoder_size_ready false
    else Encoder.next_step e (flags_byte m ∷ (length m.body % 256) ∷ []) encoder_size_ready false

-- `(this->*next) ()` of the encoder; `v2_encoder_t::size_ready` is its second case.
unfoldable pub encoder_act : Msg → Encoder EncoderStep → Encoder EncoderStep
encoder_act m e = elim e.next [
  | encoder_message_ready ↦ encode_header m e
  | encoder_size_ready ↦ Encoder.next_step e m.body encoder_message_ready true
]

pub data DecoderStep : Type 0 where
  flags_ready one_byte_size_ready eight_byte_size_ready message_ready : DecoderStep

-- The decoder when it is made.
abbrev pub new_decoder : Decoder DecoderStep
new_decoder = record {
  next = flags_ready;
  to_read = 1;
  got = [];
  msg = empty;
  msg_flags = no_flags;
}

-- `tmpbuf [0] & mask`, as a test.
abbrev pub has : ℕ → ℕ → Bool
has flags mask = not (bit_and flags mask == 0)

-- `v2_decoder_t::flags_ready`
unfoldable pub on_flags : ℕ → Decoder DecoderStep → Decoder DecoderStep
on_flags flags d =
    let d' : Decoder DecoderStep = record d {
      msg_flags = record { more = has flags more_flag; command = has flags command_flag };
    } in
    if has flags large_flag
    then Decoder.next_step d' 8 eight_byte_size_ready
    else Decoder.next_step d' 1 one_byte_size_ready

-- `msg_size > maxmsgsize`, where a negative `maxmsgsize` is `none`.
unfoldable pub exceeds : ℕ → Option ℕ → Bool
exceeds size none = false
exceeds size (some max) = ltb max size

-- `init_size`, or `init` on the buffer, returns 0 where `alloc` is true.
module _ (maxmsgsize : Option ℕ) (alloc : ℕ → Bool) where
  -- `v2_decoder_t::size_ready`
  unfoldable pub size_ready : ℕ → Decoder DecoderStep → Rc DecoderStep
  size_ready msg_size d =
      if exceeds msg_size maxmsgsize
      then fail emsgsize
      else if not (msg_size == msg_size % 2 ^ 64)
      then fail emsgsize
      else if not (alloc msg_size)
      then fail enomem
      else (let m : Msg = record empty { more = d.msg_flags.more; command = d.msg_flags.command } in
          go (Decoder.next_step (record d { msg = m }) msg_size message_ready))

  -- `(this->*next) ()` of the decoder.
  unfoldable pub decoder_act : Decoder DecoderStep → Rc DecoderStep
  decoder_act d = elim d.next [
    | flags_ready ↦ go (on_flags (byte d.got 0) d)
    | one_byte_size_ready ↦ size_ready (byte d.got 0) d
    | eight_byte_size_ready ↦ size_ready (get_uint64 d.got) d
    | message_ready ↦
        (let m : Msg = record d.msg { body = d.got } in done m (Decoder.next_step d 1 flags_ready))
  ]
