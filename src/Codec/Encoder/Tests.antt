-- ===== src/Codec/Encoder/Tests.antt =====
-- The theorem on `encode` with the ZMTP 2.0 encoder, in batches of three bytes.
use zeromq.Prelude.{◌≡◌, refl, false, true, some, [], ◌∷◌}
use zeromq.Msg.{Msg, empty}
use zeromq.Codec.Encoder
use zeromq.Codec.Encoder.{Encoder, encode}
use zeromq.Codec.Encoder.Batches.{Gives, encode-Gives}
use zeromq.Codec.V2.{EncoderStep, encoder_message_ready, encoder_size_ready, encoder_act}

abbrev hi : Msg
hi = record empty { more = true; body = 104 ∷ 105 ∷ [] }

-- The encoder with the header of the message.
abbrev loaded : Encoder EncoderStep
loaded = record {
  pending = 1 ∷ 2 ∷ [];
  next = encoder_size_ready;
  new_msg_flag = false;
  in_progress = some hi;
}

body_next :
    (e : Encoder EncoderStep)
    → e.next ≡ encoder_size_ready
    → encoder_act hi e ≡ Encoder.next_step e hi.body encoder_message_ready true
unfolding encoder_act
body_next e h = rw h refl

encode-Gives_example :
    Gives encoder_act hi encoder_size_ready encoder_message_ready body_next 3 [] loaded
      (encode encoder_act 3 loaded)
encode-Gives_example =
    encode-Gives encoder_act hi encoder_size_ready encoder_message_ready body_next 3 loaded refl
      (λ h. refl)
