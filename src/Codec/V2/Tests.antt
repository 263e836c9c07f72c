-- ===== src/Codec/V2/Tests.antt =====
-- The theorems on the ZMTP 2.0 framing at a message of two bytes, in front of other data.
use zeromq.Prelude.{ℕ, ◌≡◌, ◌++◌, refl, Bool, true, false, some, [], ◌∷◌, arith}
use zeromq.Msg.{Msg, empty}
use zeromq.Codec.Decoder.{Decoder, ready, failed, emsgsize, decode}
use zeromq.Codec.V2.{DecoderStep, new_decoder, decoder_act, exceeds}
use zeromq.Codec.V2.Frame.{header, carried, idle, decode-header}
use zeromq.Codec.V2.TooLarge.{decode_too_large}

abbrev hi : Msg
hi = record empty { more = true; body = 104 ∷ 105 ∷ [] }

abbrev always : ℕ → Bool
always n = true

fits : exceeds 2 (some 100) ≡ false
unfolding exceeds
fits = refl

over : exceeds 2 (some 1) ≡ true
unfolding exceeds
over = refl

decode-header_example :
    (d' : Decoder DecoderStep) × (decode
        (decoder_act (some 100) always)
        (idle new_decoder)
        (header hi ++ (hi.body ++ (7 ∷ 8 ∷ [])))
      ≡ ready (carried hi) (idle d') (7 ∷ 8 ∷ []))
decode-header_example =
    decode-header (some 100) always new_decoder hi (7 ∷ 8 ∷ []) (omega arith) fits refl

decode_too_large_example :
    decode (decoder_act (some 1) always) (idle new_decoder) (header hi ++ (7 ∷ []))
    ≡ failed emsgsize (7 ∷ [])
decode_too_large_example =
    decode_too_large (some 1) always new_decoder hi (7 ∷ []) (omega arith) over
