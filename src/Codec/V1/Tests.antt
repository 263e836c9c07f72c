-- ===== src/Codec/V1/Tests.antt =====
-- The theorem on the ZMTP 1.0 framing at a message of two bytes, in front of other data.
use zeromq.Prelude.{ℕ, ◌≡◌, ◌++◌, refl, Bool, true, false, some, [], ◌∷◌, arith}
use zeromq.Msg.{Msg, empty}
use zeromq.Codec.Decoder.{Decoder, ready, decode}
use zeromq.Codec.V2.{exceeds}
use zeromq.Codec.V1.{DecoderStep, new_decoder, decoder_act}
use zeromq.Codec.V1.Frame.{header, carried, idle, decode-encode_header}

abbrev hi : Msg
hi = record empty { more = true; body = 104 ∷ 105 ∷ [] }

abbrev always : ℕ → Bool
always n = true

fits : exceeds 2 (some 100) ≡ false
unfolding exceeds
fits = refl

decode-encode_header_example :
    (d' : Decoder DecoderStep) × (decode
        (decoder_act (some 100) always)
        (idle new_decoder)
        (header hi ++ (hi.body ++ (7 ∷ 8 ∷ [])))
      ≡ ready (carried hi) (idle d') (7 ∷ 8 ∷ []))
decode-encode_header_example =
    decode-encode_header (some 100) always new_decoder hi (7 ∷ 8 ∷ []) (omega arith) fits refl
