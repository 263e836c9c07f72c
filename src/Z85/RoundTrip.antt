-- ===== src/Z85/RoundTrip.antt =====
-- What is decoded after it was encoded.
use zeromq.Prelude.{
  ℕ, zero, suc, ◌+◌, ◌*◌, ◌/◌, ◌%◌, ◌^◌, ◌<◌, ◌≡◌, refl, sym, ap, ◌∙◌, Bool, true, false, some,
  List, [], ◌∷◌, ◌++◌, length, All, arith, ◌==◌, if◌then◌else◌, inl, inr, Bool-cases, IsByte, ltb,
  lt→ltb,
}
use zeromq.Z85.{
  encode_digit, decode_char, put_chars, digits, encode_loop, encode, decode_loop, decode,
}

-- Whether `f` gives back every number below `n`.
agree : (ℕ → ℕ) → ℕ → Bool
agree f zero = true
agree f (suc n) = if f n == n then agree f n else false

agree_lem : (f : ℕ → ℕ) (n d : ℕ) → agree f n ≡ true → d < n → f d ≡ d
unfolding agree
agree_lem f zero d h lt = absurd (omega arith)
agree_lem f (suc n) d h lt = elim (Bool-cases (f n == n)) [
  | inr ne ↦ let z = rw ne at h in absurd cc
  | inl same ↦
      let rest : agree f n ≡ true = rw same at h in
      elim (Bool-cases (d == n)) [
        | inl e ↦
            let e' : d ≡ n = grind arith in let s : f n ≡ n = grind arith in ap f e' ∙ s ∙ sym e'
        | inr ne ↦ agree_lem f n d rest (grind arith)
      ]
]

char_back : ℕ → ℕ
char_back d = decode_char (encode_digit d)

-- Every digit has a character, which stands for it.
decode_char-encode_digit : (d : ℕ) → d < 85 → decode_char (encode_digit d) ≡ d
unfolding agree char_back
decode_char-encode_digit d h = agree_lem char_back 85 d refl h

-- The five digits of a number.
five :
    (v : ℕ)
    → digits 6 85 (85 * 85 * 85 * 85) v
      ≡ v / 52200625 % 85 ∷ v / 614125 % 85 ∷ v / 7225 % 85 ∷ v / 85 % 85 ∷ v / 1 % 85 ∷ []
unfolding digits
five v = refl

four :
    (v : ℕ)
    → digits 5 256 (256 * 256 * 256) v
      ≡ v / 16777216 % 256 ∷ v / 65536 % 256 ∷ v / 256 % 256 ∷ v / 1 % 256 ∷ []
unfolding digits
four v = refl

from_digits :
    (v : ℕ)
    → v < 2 ^ 32
    → ((((v / 52200625 % 85) * 85 + v / 614125 % 85) * 85 + v / 7225 % 85) * 85 + v / 85 % 85) * 85
        + v / 1 % 85
      ≡ v
from_digits v h = omega arith

bytes_back :
    (a b c d : ℕ)
    → a < 256
    → b < 256
    → c < 256
    → d < 256
    → (v : ℕ) → v ≡ ((a * 256 + b) * 256 + c) * 256 + d
    → (v / 16777216 % 256 ≡ a) × (v / 65536 % 256 ≡ b) × (v / 256 % 256 ≡ c) × (v / 1 % 256 ≡ d)
bytes_back a b c d ha hb hc hd v e =
    (omega (arith, e), omega (arith, e), omega (arith, e), omega (arith, e))

abbrev word : ℕ → ℕ → ℕ → ℕ → ℕ
word a b c d = ((a * 256 + b) * 256 + c) * 256 + d

abbrev chars : ℕ → List ℕ
chars v =
    put_chars (v / 52200625 % 85 ∷ v / 614125 % 85 ∷ v / 7225 % 85 ∷ v / 85 % 85 ∷ v / 1 % 85 ∷ [])

encode_four :
    (a b c d : ℕ) (bs : List ℕ) (k : ℕ)
    → a < 256
    → b < 256
    → c < 256
    → d < 256
    → k % 4 ≡ 0
    → k + 4 < 2 ^ 32
    → encode_loop (a ∷ b ∷ c ∷ d ∷ bs) k 0
      ≡ chars (word a b c d) ++ encode_loop bs (k + 1 + 1 + 1 + 1) 0
unfolding encode_loop
encode_four a b c d bs k ha hb hc hd e small =
    let c1 : (k + 1) % 2 ^ 32 ≡ k + 1 = omega arith in
    let c2 : (k + 1 + 1) % 2 ^ 32 ≡ k + 1 + 1 = omega arith in
    let c3 : (k + 1 + 1 + 1) % 2 ^ 32 ≡ k + 1 + 1 + 1 = omega arith in
    let c4 : (k + 1 + 1 + 1 + 1) % 2 ^ 32 ≡ k + 1 + 1 + 1 + 1 = omega arith in
    let t1 : ((k + 1) % 4 == 0) ≡ false = ground (arith, e) in
    let t2 : ((k + 1 + 1) % 4 == 0) ≡ false = ground (arith, e) in
    let t3 : ((k + 1 + 1 + 1) % 4 == 0) ≡ false = ground (arith, e) in
    let t4 : ((k + 1 + 1 + 1 + 1) % 4 == 0) ≡ true = ground (arith, e) in
    let v1 : (0 * 256 + a) % 2 ^ 32 ≡ a = omega arith in
    let v2 : (a * 256 + b) % 2 ^ 32 ≡ a * 256 + b = omega arith in
    let v3 : ((a * 256 + b) * 256 + c) % 2 ^ 32 ≡ (a * 256 + b) * 256 + c = omega arith in
    let v4 : (((a * 256 + b) * 256 + c) * 256 + d) % 2 ^ 32 ≡ ((a * 256 + b) * 256 + c) * 256 + d =
      omega arith in
    rw (c1, c2, c3, c4, t1, t2, t3, t4, v1, v2, v3, v4) refl

decode_five :
    (d1 d2 d3 d4 d5 v : ℕ) (cs : List ℕ) (k : ℕ)
    → d1 < 85
    → d2 < 85
    → d3 < 85
    → d4 < 85
    → d5 < 85
    → (((d1 * 85 + d2) * 85 + d3) * 85 + d4) * 85 + d5 ≡ v
    → v < 2 ^ 32
    → k % 5 ≡ 0
    → k + 5 < 2 ^ 32
    → decode_loop (put_chars (d1 ∷ d2 ∷ d3 ∷ d4 ∷ d5 ∷ []) ++ cs) k 0
      ≡ (v / 16777216 % 256 ∷ v / 65536 % 256 ∷ v / 256 % 256 ∷ v / 1 % 256 ∷ [])
        ++ decode_loop cs (k + 1 + 1 + 1 + 1 + 1) 0
unfolding decode_loop
decode_five d1 d2 d3 d4 d5 v cs k h1 h2 h3 h4 h5 ev hv e small =
    let c1 : (k + 1) % 2 ^ 32 ≡ k + 1 = omega arith in
    let c2 : (k + 1 + 1) % 2 ^ 32 ≡ k + 1 + 1 = omega arith in
    let c3 : (k + 1 + 1 + 1) % 2 ^ 32 ≡ k + 1 + 1 + 1 = omega arith in
    let c4 : (k + 1 + 1 + 1 + 1) % 2 ^ 32 ≡ k + 1 + 1 + 1 + 1 = omega arith in
    let c5 : (k + 1 + 1 + 1 + 1 + 1) % 2 ^ 32 ≡ k + 1 + 1 + 1 + 1 + 1 = omega arith in
    let t1 : ((k + 1) % 5 == 0) ≡ false = ground (arith, e) in
    let t2 : ((k + 1 + 1) % 5 == 0) ≡ false = ground (arith, e) in
    let t3 : ((k + 1 + 1 + 1) % 5 == 0) ≡ false = ground (arith, e) in
    let t4 : ((k + 1 + 1 + 1 + 1) % 5 == 0) ≡ false = ground (arith, e) in
    let t5 : ((k + 1 + 1 + 1 + 1 + 1) % 5 == 0) ≡ true = ground (arith, e) in
    let v1 : (0 * 85 + d1) % 2 ^ 32 ≡ d1 = omega arith in
    let v2 : (d1 * 85 + d2) % 2 ^ 32 ≡ d1 * 85 + d2 = omega arith in
    let v3 : ((d1 * 85 + d2) * 85 + d3) % 2 ^ 32 ≡ (d1 * 85 + d2) * 85 + d3 = omega arith in
    let v4 : (((d1 * 85 + d2) * 85 + d3) * 85 + d4) % 2 ^ 32
        ≡ ((d1 * 85 + d2) * 85 + d3) * 85 + d4 =
      omega arith in
    let v5 : ((((d1 * 85 + d2) * 85 + d3) * 85 + d4) * 85 + d5) % 2 ^ 32 ≡ v = omega (arith, ev) in
    let b1 = decode_char-encode_digit d1 h1 in
    let b2 = decode_char-encode_digit d2 h2 in
    let b3 = decode_char-encode_digit d3 h3 in
    let b4 = decode_char-encode_digit d4 h4 in
    let b5 = decode_char-encode_digit d5 h5 in
    rw (b1, b2, b3, b4, b5, c1, c2, c3, c4, c5, t1, t2, t3, t4, t5, v1, v2, v3, v4, v5) refl

decode_word :
    (a b c d : ℕ) (cs : List ℕ) (k : ℕ)
    → a < 256
    → b < 256
    → c < 256
    → d < 256
    → k % 5 ≡ 0
    → k + 5 < 2 ^ 32
    → decode_loop (chars (word a b c d) ++ cs) k 0
      ≡ a ∷ b ∷ c ∷ d ∷ decode_loop cs (k + 1 + 1 + 1 + 1 + 1) 0
decode_word a b c d cs k ha hb hc hd e in_range =
    let v = word a b c d in
    let small : v < 2 ^ 32 = omega arith in
    let (ea, eb, ec, ed) = bytes_back a b c d ha hb hc hd v refl in
    decode_five (v / 52200625 % 85) (v / 614125 % 85) (v / 7225 % 85) (v / 85 % 85) (v / 1 % 85) v
      cs k (omega arith) (omega arith) (omega arith) (omega arith) (omega arith)
      (from_digits v small) small e in_range
    ∙ rw (ea, eb, ec, ed) refl

loop_back :
    (bs : List ℕ) (j k : ℕ)
    → All IsByte bs
    → length bs % 4 ≡ 0
    → j % 4 ≡ 0
    → k % 5 ≡ 0
    → 4 * k + length bs * 5 < 2 ^ 32 * 4
    → 5 * j ≡ 4 * k
    → (decode_loop (encode_loop bs j 0) k 0 ≡ bs)
      × (length (encode_loop bs j 0) * 4 ≡ length bs * 5)
unfolding encode_loop decode_loop
loop_back [] j k all len ej ek in_range both = (refl, refl)
loop_back (a ∷ b ∷ c ∷ d ∷ bs) j k (ha, (hb, (hc, (hd, all)))) len ej ek in_range both =
    let (back, whole) =
      loop_back bs (j + 1 + 1 + 1 + 1) (k + 1 + 1 + 1 + 1 + 1) all (omega (arith, len))
        (omega (arith, ej)) (omega (arith, ek)) (omega (arith, in_range)) (omega (arith, both)) in
    let rest = encode_loop bs (j + 1 + 1 + 1 + 1) 0 in
    let eq = encode_four a b c d bs j ha hb hc hd ej (omega (arith, in_range, both)) in
    (
      ap (λ x. decode_loop x k 0) eq
          ∙ decode_word a b c d rest k ha hb hc hd ek (omega (arith, in_range))
          ∙ ap (λ x. a ∷ b ∷ c ∷ d ∷ x) back,
      ap (λ x. length x * 4) eq ∙ (omega (arith, whole)),
    )
loop_back (a ∷ []) j k all len ej ek in_range both = absurd (omega (arith, len))
loop_back (a ∷ b ∷ []) j k all len ej ek in_range both = absurd (omega (arith, len))
loop_back (a ∷ b ∷ c ∷ []) j k all len ej ek in_range both = absurd (omega (arith, len))

-- A list of bytes whose length is a multiple of four is encoded to a string that is a quarter longer, and
-- that string is decoded to the same bytes, when the length of the string is below 2^32.
pub decode-encode :
    (bs : List ℕ)
    → All IsByte bs
    → length bs % 4 ≡ 0
    → length bs * 5 / 4 < 2 ^ 32
    → (string : List ℕ) × (encode bs ≡ some string)
      × (length string ≡ length bs * 5 / 4)
      × (decode string ≡ some bs)
unfolding encode decode
decode-encode bs all len small =
    let (back, whole) = loop_back bs 0 0 all len refl refl (omega (arith, len)) refl in
    let fives : length (encode_loop bs 0 0) % 5 ≡ 0 = omega (arith, whole, len) in
    let string = encode_loop bs 0 0 in
    let chars_fit : (length string % 2 ^ 32 == length bs * 5 / 4) ≡ true =
      grind (arith, whole, len) in
    let bytes_fit : (length bs % 2 ^ 32 == length string * 4 / 5) ≡ true =
      grind (arith, whole, len) in
    let few_bytes : ltb (length bs) (2 ^ 32) ≡ true =
      lt→ltb (length bs) (2 ^ 32) (omega (arith, len)) in
    let few_chars : ltb (length string) (2 ^ 32) ≡ true =
      lt→ltb (length string) (2 ^ 32) (omega (arith, whole, len)) in
    (
      string,
      rw (len, few_bytes, chars_fit) refl,
      omega (arith, whole),
      rw (fives, few_chars, back, bytes_fit) refl,
    )
