-- ===== src/Codec/V2/Load.antt =====
-- A message that is handed to an idle encoder.
use zeromq.Prelude.{◌≡◌, refl, ap, sym, inl, inr, false, none, some, ◌++◌, length, ltb, Bool-cases}
use zeromq.Msg.{Msg}
use zeromq.Codec.Encoder.{Encoder, load_msg}
use zeromq.Codec.Encoder.Batches.{left}
use zeromq.Codec.V2.{
  EncoderStep, encoder_message_ready, encoder_size_ready, encode_header, encoder_act,
}
use zeromq.Codec.V2.Frame.{header, header_large, header_small}

-- The encoder with a message, of which header and body are to be given out, the body after the header.
abbrev pub Loaded : Msg → Encoder EncoderStep → Type 0
Loaded m e =
    (e.in_progress ≡ some m)
    × (e.next ≡ encoder_size_ready)
    × (e.new_msg_flag ≡ false)
    × (left m e ≡ header m ++ m.body)

started :
    (m : Msg) (e : Encoder EncoderStep) → e.in_progress ≡ some m → Loaded m (encode_header m e)
unfolding encode_header
started m e busy = elim (Bool-cases (ltb 255 (length m.body))) [
  | inl t ↦ rw t (busy, refl, refl, ap (λ h. h ++ m.body) (sym (header_large m t)))
  | inr f ↦ rw f (busy, refl, refl, ap (λ h. h ++ m.body) (sym (header_small m f)))
]

-- An encoder without a message, between two messages, accepts one, and then has the header of the message
-- and its body to give out.
load_msg-Loaded :
    (m : Msg) (e : Encoder EncoderStep)
    → e.in_progress ≡ none
    → e.next ≡ encoder_message_ready
    → (e' : Encoder EncoderStep) × (load_msg encoder_act m e ≡ some e') × Loaded m e'
unfolding load_msg encoder_act encode_header
load_msg-Loaded m e free ready = (
  encode_header m (record e { in_progress = some m }),
  rw (load_msg, free, ready) refl,
  started m (record e { in_progress = some m }) refl,
)
