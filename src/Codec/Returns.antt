-- ===== src/Codec/Returns.antt =====
-- Both decoders return, whatever bytes arrive.
use zeromq.Prelude.{ℕ, ◌≢◌, Bool, Option, List}
use zeromq.Codec.Decoder.{Decoder, endless, decode}
use zeromq.Codec.V1
use zeromq.Codec.V2
use zeromq.Codec.V1.Returns.{decode_v1_returns}
use zeromq.Codec.V2.Returns.{decode_v2_returns}

-- From any state and on any bytes, the decoders of ZMTP 1.0 and of ZMTP 2.0 return: their loop round the actions
-- ends.
pub decoders_return :
    (maxmsgsize : Option ℕ) (alloc : ℕ → Bool) (d1 : Decoder V1.DecoderStep)
    (d2 : Decoder V2.DecoderStep) (bs : List ℕ)
    → (decode (V1.decoder_act maxmsgsize alloc) d1 bs ≢ endless)
      × (decode (V2.decoder_act maxmsgsize alloc) d2 bs ≢ endless)
decoders_return maxmsgsize alloc d1 d2 bs =
    (decode_v1_returns maxmsgsize alloc d1 bs, decode_v2_returns maxmsgsize alloc d2 bs)
