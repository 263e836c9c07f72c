-- ===== src/Codec/V1/Returns.antt =====
-- The decoder returns, whatever bytes arrive.
use zeromq.Prelude.{
  ℕ, ◌-◌, ◌%◌, ◌^◌, ◌≢◌, refl, inl, inr, Bool, Option, List, ltb, ◌==◌, Bool-cases,
}
use zeromq.Wire.{byte, get_uint64}
use zeromq.Codec.Decoder.{Decoder, endless, decode}
use zeromq.Codec.Decoder.Returns.{EndsSoon, decode_returns}
use zeromq.Codec.V2.{exceeds}
use zeromq.Codec.V1.{
  DecoderStep, one_byte_size_ready, eight_byte_size_ready, flags_ready, message_ready, allocate,
  on_one_byte_size, on_eight_byte_size, decoder_act,
}

module _ (maxmsgsize : Option ℕ) (alloc : ℕ → Bool) where
  allocate-EndsSoon :
      (n : ℕ) (d : Decoder DecoderStep)
      → EndsSoon (decoder_act maxmsgsize alloc) (allocate maxmsgsize alloc n d)
  unfolding allocate
  allocate-EndsSoon n d = elim (Bool-cases (alloc n)) [ inl c ↦ rw c (inl refl) | inr c ↦ rw c tt ]

  one_byte_size-EndsSoon :
      (n : ℕ) (d : Decoder DecoderStep)
      → EndsSoon (decoder_act maxmsgsize alloc) (on_one_byte_size maxmsgsize alloc n d)
  unfolding on_one_byte_size
  one_byte_size-EndsSoon n d = elim (Bool-cases (n == 255)) [
    | inl a ↦ rw a (inl refl)
    | inr a ↦ elim (Bool-cases (n == 0)) [
      | inl b ↦ rw (a, b) tt
      | inr b ↦ elim (Bool-cases (exceeds (n - 1) maxmsgsize)) [
        | inl c ↦ rw (a, b, c) tt
        | inr c ↦ rw (a, b, c) (allocate-EndsSoon (n - 1) d)
      ]
    ]
  ]

  eight_byte_size-EndsSoon :
      (n : ℕ) (d : Decoder DecoderStep)
      → EndsSoon (decoder_act maxmsgsize alloc) (on_eight_byte_size maxmsgsize alloc n d)
  unfolding on_eight_byte_size
  eight_byte_size-EndsSoon n d = elim (Bool-cases (n == 0)) [
    | inl b ↦ rw b tt
    | inr b ↦ elim (Bool-cases (exceeds (n - 1) maxmsgsize)) [
      | inl c ↦ rw (b, c) tt
      | inr c ↦ elim (Bool-cases (ltb (2 ^ 64 - 1) (n - 1))) [
        | inl s ↦ rw (b, c, s) tt
        | inr s ↦ rw (b, c, s) (allocate-EndsSoon ((n - 1) % 2 ^ 64) d)
      ]
    ]
  ]

  act-EndsSoon :
      (step : DecoderStep) (d : Decoder DecoderStep)
      → EndsSoon
          (decoder_act maxmsgsize alloc)
          (decoder_act maxmsgsize alloc (record d { next = step }))
  unfolding decoder_act
  act-EndsSoon one_byte_size_ready d =
      one_byte_size-EndsSoon (byte d.got 0) (record d { next = one_byte_size_ready })
  act-EndsSoon eight_byte_size_ready d =
      eight_byte_size-EndsSoon (get_uint64 d.got) (record d { next = eight_byte_size_ready })
  act-EndsSoon flags_ready d = inr tt
  act-EndsSoon message_ready d = tt

-- From any state and on any bytes, the ZMTP 1.0 decoder returns: its loop round the actions ends.
pub decode_v1_returns :
    (maxmsgsize : Option ℕ) (alloc : ℕ → Bool) (d : Decoder DecoderStep) (bs : List ℕ)
    → decode (decoder_act maxmsgsize alloc) d bs ≢ endless
decode_v1_returns maxmsgsize alloc =
    decode_returns (decoder_act maxmsgsize alloc) (λ d. act-EndsSoon maxmsgsize alloc d.next d)
