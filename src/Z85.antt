-- ===== src/Z85.antt =====
-- src/zmq_utils.cpp: `zmq_z85_encode` and `zmq_z85_decode`.
-- Characters are their ASCII codes, a string has no zero at its end here, and `none` is EINVAL, a failed
-- assertion or a loop that does not end. `value`, `byte_nbr` and `char_nbr` have 32 bits, and the number of
-- what was written is the other counter of a loop. In `decode` a character whose place is outside the table stands for zero: the code reads past
-- the table there.
mod RoundTrip
mod Tests
use zeromq.Prelude.{
  ℕ, zero, suc, ◌+◌, ◌-◌, ◌*◌, ◌/◌, ◌%◌, ◌^◌, Bool, true, false, not, Option, none, some, List, [],
  ◌∷◌, ◌++◌, length, get_or, ◌==◌, if◌then◌else◌, ltb, require,
}

abbrev encoder : List ℕ
encoder =
    48 ∷ 49 ∷ 50 ∷ 51 ∷ 52 ∷ 53 ∷ 54 ∷ 55 ∷ 56 ∷ 57 ∷ 97 ∷ 98 ∷ 99 ∷ 100 ∷ 101 ∷ 102 ∷ 103 ∷ 104
    ∷ 105 ∷ 106 ∷ 107 ∷ 108 ∷ 109 ∷ 110 ∷ 111 ∷ 112 ∷ 113 ∷ 114 ∷ 115 ∷ 116 ∷ 117 ∷ 118 ∷ 119 ∷ 120
    ∷ 121 ∷ 122 ∷ 65 ∷ 66 ∷ 67 ∷ 68 ∷ 69 ∷ 70 ∷ 71 ∷ 72 ∷ 73 ∷ 74 ∷ 75 ∷ 76 ∷ 77 ∷ 78 ∷ 79 ∷ 80 ∷ 81
    ∷ 82 ∷ 83 ∷ 84 ∷ 85 ∷ 86 ∷ 87 ∷ 88 ∷ 89 ∷ 90 ∷ 46 ∷ 45 ∷ 58 ∷ 43 ∷ 61 ∷ 94 ∷ 33 ∷ 47 ∷ 42 ∷ 63
    ∷ 38 ∷ 60 ∷ 62 ∷ 40 ∷ 41 ∷ 91 ∷ 93 ∷ 123 ∷ 125 ∷ 64 ∷ 37 ∷ 36 ∷ 35 ∷ []

abbrev decoder : List ℕ
decoder =
    0 ∷ 68 ∷ 0 ∷ 84 ∷ 83 ∷ 82 ∷ 72 ∷ 0 ∷ 75 ∷ 76 ∷ 70 ∷ 65 ∷ 0 ∷ 63 ∷ 62 ∷ 69 ∷ 0 ∷ 1 ∷ 2 ∷ 3 ∷ 4
    ∷ 5 ∷ 6 ∷ 7 ∷ 8 ∷ 9 ∷ 64 ∷ 0 ∷ 73 ∷ 66 ∷ 74 ∷ 71 ∷ 81 ∷ 36 ∷ 37 ∷ 38 ∷ 39 ∷ 40 ∷ 41 ∷ 42 ∷ 43
    ∷ 44 ∷ 45 ∷ 46 ∷ 47 ∷ 48 ∷ 49 ∷ 50 ∷ 51 ∷ 52 ∷ 53 ∷ 54 ∷ 55 ∷ 56 ∷ 57 ∷ 58 ∷ 59 ∷ 60 ∷ 61 ∷ 77
    ∷ 0 ∷ 78 ∷ 67 ∷ 0 ∷ 0 ∷ 10 ∷ 11 ∷ 12 ∷ 13 ∷ 14 ∷ 15 ∷ 16 ∷ 17 ∷ 18 ∷ 19 ∷ 20 ∷ 21 ∷ 22 ∷ 23 ∷ 24
    ∷ 25 ∷ 26 ∷ 27 ∷ 28 ∷ 29 ∷ 30 ∷ 31 ∷ 32 ∷ 33 ∷ 34 ∷ 35 ∷ 79 ∷ 0 ∷ 80 ∷ 0 ∷ 0 ∷ []

-- `while (divisor)`: the digits of `value` to the base, from the one that `divisor` stands for on. The fuel
-- is one more than the digits that there are.
unfoldable digits : ℕ → ℕ → ℕ → ℕ → List ℕ
digits zero base divisor value = []
digits (suc n) base divisor value =
    let rest = digits n base (divisor / base) value in
    if divisor == 0 then [] else value / divisor % base ∷ rest

abbrev encode_digit : ℕ → ℕ
encode_digit d = get_or encoder d 0

abbrev decode_char : ℕ → ℕ
decode_char c = get_or decoder (c - 32) 0

abbrev put_chars : List ℕ → List ℕ
put_chars [] = []
put_chars (d ∷ ds) = encode_digit d ∷ put_chars ds

-- Whether a counter gets to the size, which has 64 bits. If not, the loop goes over the data again and again.
abbrev is_counted : ℕ → Bool
is_counted size = ltb size (2 ^ 32)

-- The loop of `zmq_z85_encode` over the bytes that are left.
unfoldable encode_loop : List ℕ → ℕ → ℕ → List ℕ
unfolding digits
encode_loop [] byte_nbr value = []
encode_loop (b ∷ bs) byte_nbr value =
    let value' = (value * 256 + b) % 2 ^ 32 in
    let ends = (byte_nbr + 1) % 2 ^ 32 % 4 == 0 in
    let rest = encode_loop bs ((byte_nbr + 1) % 2 ^ 32) (if ends then 0 else value') in
    if ends then put_chars (digits 6 85 (85 * 85 * 85 * 85) value') ++ rest else rest

unfoldable encode : List ℕ → Option (List ℕ)
unfolding encode_loop
encode bytes =
    let chars = encode_loop bytes 0 0 in
    if not (length bytes % 4 == 0)
    then none
    else require (is_counted (length bytes))
        (require (length chars % 2 ^ 32 == length bytes * 5 / 4) (some chars))

-- The loop of `zmq_z85_decode` over the characters that are left.
unfoldable decode_loop : List ℕ → ℕ → ℕ → List ℕ
unfolding digits
decode_loop [] char_nbr value = []
decode_loop (c ∷ cs) char_nbr value =
    let value' = (value * 85 + decode_char c) % 2 ^ 32 in
    let ends = (char_nbr + 1) % 2 ^ 32 % 5 == 0 in
    let rest = decode_loop cs ((char_nbr + 1) % 2 ^ 32) (if ends then 0 else value') in
    if ends then digits 5 256 (256 * 256 * 256) value' ++ rest else rest

unfoldable decode : List ℕ → Option (List ℕ)
unfolding decode_loop
decode string =
    let bytes = decode_loop string 0 0 in
    if not (length string % 5 == 0)
    then none
    else require (is_counted (length string))
        (require (length bytes % 2 ^ 32 == length string * 4 / 5) (some bytes))
