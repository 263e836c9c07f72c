-- ===== src/Codec/V2/Returns.antt =====
-- The decoder returns, whatever bytes arrive.
use zeromq.Prelude.{ℕ, ◌%◌, ◌^◌, ◌≢◌, refl, inl, inr, Bool, Option, List, ◌==◌, Bool-cases}
use zeromq.Wire.{byte, get_uint64}
use zeromq.Codec.Decoder.{Decoder, endless, decode}
use zeromq.Codec.Decoder.Returns.{EndsSoon, decode_returns}
use zeromq.Codec.V2.{
  DecoderStep, flags_ready, one_byte_size_ready, eight_byte_size_ready, message_ready, has,
  large_flag, on_flags, exceeds, size_ready, decoder_act,
}

module _ (maxmsgsize : Option ℕ) (alloc : ℕ → Bool) where
  size_ready-EndsSoon :
      (n : ℕ) (d : Decoder DecoderStep)
      → EndsSoon (decoder_act maxmsgsize alloc) (size_ready maxmsgsize alloc n d)
  unfolding size_ready decoder_act
  size_ready-EndsSoon n d = elim (Bool-cases (exceeds n maxmsgsize)) [
    | inl a ↦ rw a tt
    | inr a ↦ elim (Bool-cases (n == n % 2 ^ 64)) [
      | inr b ↦ rw (a, b) tt
      | inl b ↦ elim (Bool-cases (alloc n)) [
        | inr c ↦ rw (a, b, c) tt
        | inl c ↦ rw (a, b, c) (inr tt)
      ]
    ]
  ]

  act-EndsSoon :
      (step : DecoderStep) (d : Decoder DecoderStep)
      → EndsSoon
          (decoder_act maxmsgsize alloc)
          (decoder_act maxmsgsize alloc (record d { next = step }))
  unfolding decoder_act on_flags
  act-EndsSoon flags_ready d = elim (Bool-cases (has (byte d.got 0) large_flag)) [
    | inl e ↦ rw e (inl refl)
    | inr e ↦ rw e (inl refl)
  ]
  act-EndsSoon one_byte_size_ready d =
      size_ready-EndsSoon (byte d.got 0) (record d { next = one_byte_size_ready })
  act-EndsSoon eight_byte_size_ready d =
      size_ready-EndsSoon (get_uint64 d.got) (record d { next = eight_byte_size_ready })
  act-EndsSoon message_ready d = tt

-- From any state and on any bytes, the ZMTP 2.0 decoder returns: its loop round the actions ends.
pub decode_v2_returns :
    (maxmsgsize : Option ℕ) (alloc : ℕ → Bool) (d : Decoder DecoderStep) (bs : List ℕ)
    → decode (decoder_act maxmsgsize alloc) d bs ≢ endless
decode_v2_returns maxmsgsize alloc =
    decode_returns (decoder_act maxmsgsize alloc) (λ d. act-EndsSoon maxmsgsize alloc d.next d)
