-- ===== src/Codec/Tests.antt =====
-- Both decoders at a few bytes.
use zeromq.Prelude.{ℕ, ◌≢◌, Bool, true, some, [], ◌∷◌}
use zeromq.Codec.Decoder.{endless, decode}
use zeromq.Codec.V1
use zeromq.Codec.V2
use zeromq.Codec.Returns.{decoders_return}

abbrev always : ℕ → Bool
always n = true

decoders_return_example :
    (decode (V1.decoder_act (some 1) always) V1.new_decoder (4 ∷ 0 ∷ 7 ∷ []) ≢ endless)
    × (decode (V2.decoder_act (some 1) always) V2.new_decoder (4 ∷ 0 ∷ 7 ∷ []) ≢ endless)
decoders_return_example =
    decoders_return (some 1) always V1.new_decoder V2.new_decoder (4 ∷ 0 ∷ 7 ∷ [])
