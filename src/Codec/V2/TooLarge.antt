-- ===== src/Codec/V2/TooLarge.antt =====
-- The decoder on a message that is larger than the limit.
use zeromq.Prelude.{
  ℕ, suc, ◌%◌, ◌^◌, ◌<◌, ◌≡◌, refl, ap, ◌∙◌, inl, inr, Bool, true, Option, List, [], ◌∷◌, ◌++◌,
  arith, length, ltb, if◌then◌else◌, Bool-cases,
}
use zeromq.Msg.{Msg}
use zeromq.Wire.{put_uint64, get_uint64-put_uint64}
use zeromq.Codec.Decoder.{
  Decoder, fail, failed, emsgsize, decode, resume, decode_block, settle_fails,
}
use zeromq.Codec.V2.{
  DecoderStep, one_byte_size_ready, eight_byte_size_ready, exceeds, size_ready, decoder_act,
}
use zeromq.Codec.V2.Frame.{
  header, idle, sized, header_large, header_small, read_flags, on_flags-flags_byte,
}

module _ (maxmsgsize : Option ℕ) (alloc : ℕ → Bool) (d : Decoder DecoderStep) (m : Msg)
    (over : exceeds (length m.body) maxmsgsize ≡ true) where
  refuse :
      (n : ℕ) (step : DecoderStep) (block rest : List ℕ)
      → length block ≡ suc n
      → decoder_act maxmsgsize alloc (record (sized d m (suc n) step) { got = block; to_read = 0 })
        ≡ size_ready maxmsgsize alloc
            (length m.body)
            (record (sized d m (suc n) step) { got = block; to_read = 0 })
      → decode (decoder_act maxmsgsize alloc) (sized d m (suc n) step) (block ++ rest)
        ≡ failed emsgsize rest
  unfolding size_ready
  refuse n step block rest len by_size =
      let refused : size_ready maxmsgsize alloc (length m.body)
            (record (sized d m (suc n) step) { got = block; to_read = 0 })
          ≡ fail emsgsize =
        rw over refl in
      decode_block (decoder_act maxmsgsize alloc) (sized d m (suc n) step) block rest (omega arith)
        len
      ∙ ap (λ rc. resume (decoder_act maxmsgsize alloc) rc rest)
          (settle_fails (decoder_act maxmsgsize alloc)
            (record (sized d m (suc n) step) { got = block; to_read = 0 }) emsgsize
            (by_size ∙ refused))

-- A message that is larger than the limit is refused with EMSGSIZE as soon as its header is read.
pub decode_too_large :
    (maxmsgsize : Option ℕ) (alloc : ℕ → Bool) (d : Decoder DecoderStep) (m : Msg) (rest : List ℕ)
    → length m.body < 2 ^ 64
    → exceeds (length m.body) maxmsgsize ≡ true
    → decode (decoder_act maxmsgsize alloc) (idle d) (header m ++ rest) ≡ failed emsgsize rest
unfolding decoder_act put_uint64
decode_too_large maxmsgsize alloc d m rest small over =
    let act = decoder_act maxmsgsize alloc in
    elim (Bool-cases (ltb 255 (length m.body))) [
      | inl e ↦
          let size = put_uint64 (length m.body) in
          ap (λ h. decode act (idle d) (h ++ rest)) (header_large m e)
          ∙ read_flags maxmsgsize alloc d m 7 eight_byte_size_ready (size ++ rest) (
              on_flags-flags_byte maxmsgsize alloc d m
              ∙ ap
                  (λ t.
                    if t
                    then sized d m 8 eight_byte_size_ready
                    else sized d m 1 one_byte_size_ready)
                  e)
          ∙ refuse maxmsgsize alloc d m over 7 eight_byte_size_ready size rest refl (
              ap
                (λ n.
                  size_ready maxmsgsize alloc n
                    (record (sized d m 8 eight_byte_size_ready) { got = size; to_read = 0 }))
                (get_uint64-put_uint64 (length m.body) [] small))
      | inr e ↦
          let same : length m.body % 256 ≡ length m.body = ground arith in
          ap (λ h. decode act (idle d) (h ++ rest)) (header_small m e)
          ∙ read_flags maxmsgsize alloc d m 0 one_byte_size_ready ((length m.body % 256) ∷ rest) (
              on_flags-flags_byte maxmsgsize alloc d m
              ∙ ap
                  (λ t.
                    if t
                    then sized d m 8 eight_byte_size_ready
                    else sized d m 1 one_byte_size_ready)
                  e)
          ∙ refuse maxmsgsize alloc d m over 0 one_byte_size_ready ((length m.body % 256) ∷ []) rest
              refl
              (ap
                (λ n. size_ready maxmsgsize alloc n (record (sized d m 1 one_byte_size_ready) {
                  got = (length m.body % 256) ∷ [];
                  to_read = 0;
                }))
                same)
    ]
