-- ===== src/Z85/Tests.antt =====
-- The theorem on Z85 at the bytes of the published example, and that example.
use zeromq.Prelude.{ℕ, ◌*◌, ◌/◌, ◌≡◌, refl, some, List, [], ◌∷◌, length, arith}
use Prim.{tt}
use zeromq.Z85.{encode, encode_loop, digits, decode}
use zeromq.Z85.RoundTrip.{decode-encode}

abbrev example : List ℕ
example = 134 ∷ 79 ∷ 210 ∷ 111 ∷ 181 ∷ 89 ∷ 247 ∷ 91 ∷ []

-- "HelloWorld"
hello_world : encode example ≡ some (72 ∷ 101 ∷ 108 ∷ 108 ∷ 111 ∷ 87 ∷ 111 ∷ 114 ∷ 108 ∷ 100 ∷ [])
unfolding encode encode_loop digits
hello_world = refl

decode-encode_example :
    (string : List ℕ) × (encode example ≡ some string)
    × (length string ≡ 8 * 5 / 4)
    × (decode string ≡ some example)
decode-encode_example =
    decode-encode example
      (
        omega arith,
        (
          omega arith,
          (
            omega arith,
            (omega arith, (omega arith, (omega arith, (omega arith, (omega arith, tt))))),
          ),
        ),
      )
      refl (omega arith)
