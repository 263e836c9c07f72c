-- ===== src/Wire.antt =====
-- src/wire.hpp: integers to and from network byte order.
-- `put_uint16 (p, v)` writes consecutive bytes at `p`, which the model returns; `get_uint16 (p)` reads
-- the buffer that begins at `p`. A byte shifted by k is `* 2 ^ k`, which fits the word it is cast to.
use zeromq.Prelude.{
  ℕ, ◌+◌, ◌*◌, ◌/◌, ◌%◌, ◌^◌, ◌<◌, bit_or, ◌≡◌, List, [], ◌∷◌, ◌++◌, arith, IsByte, bit_or_disjoint,
  get_or,
}

-- `p [i]`; callers hand over a buffer that has the byte.
abbrev pub byte : List ℕ → ℕ → ℕ
byte p i = get_or p i 0

unfoldable pub put_uint8 : ℕ → List ℕ
put_uint8 v = v ∷ []

unfoldable pub get_uint8 : List ℕ → ℕ
get_uint8 p = byte p 0

unfoldable pub put_uint16 : ℕ → List ℕ
put_uint16 v = (v / 2 ^ 8 % 256) ∷ (v % 256) ∷ []

unfoldable pub get_uint16 : List ℕ → ℕ
get_uint16 p = bit_or (byte p 0 * 2 ^ 8) (byte p 1)

unfoldable pub put_uint32 : ℕ → List ℕ
put_uint32 v = (v / 2 ^ 24 % 256) ∷ (v / 2 ^ 16 % 256) ∷ (v / 2 ^ 8 % 256) ∷ (v % 256) ∷ []

unfoldable pub get_uint32 : List ℕ → ℕ
get_uint32 p =
    bit_or (bit_or (bit_or (byte p 0 * 2 ^ 24) (byte p 1 * 2 ^ 16)) (byte p 2 * 2 ^ 8)) (byte p 3)

unfoldable pub put_uint64 : ℕ → List ℕ
put_uint64 v =
    (v / 2 ^ 56 % 256)
    ∷ (v / 2 ^ 48 % 256)
    ∷ (v / 2 ^ 40 % 256)
    ∷ (v / 2 ^ 32 % 256)
    ∷ (v / 2 ^ 24 % 256)
    ∷ (v / 2 ^ 16 % 256)
    ∷ (v / 2 ^ 8 % 256)
    ∷ (v % 256)
    ∷ []

-- The eight shifted bytes, joined from the left as `|` groups them.
unfoldable pub get_uint64 : List ℕ → ℕ
get_uint64 p =
    let high =
      bit_or (bit_or (bit_or (byte p 0 * 2 ^ 56) (byte p 1 * 2 ^ 48)) (byte p 2 * 2 ^ 40))
        (byte p 3 * 2 ^ 32) in
    bit_or
      (bit_or (bit_or (bit_or high (byte p 4 * 2 ^ 24)) (byte p 5 * 2 ^ 16)) (byte p 6 * 2 ^ 8))
      (byte p 7)

get_uint16_sum : (b0 b1 : ℕ) (r : List ℕ) → IsByte b1 → get_uint16 (b0 ∷ b1 ∷ r) ≡ b0 * 256 + b1
unfolding get_uint16
get_uint16_sum b0 b1 r h = omega (arith, bit_or_disjoint 8 b0 b1 h)

get_uint32_sum :
    (b0 b1 b2 b3 : ℕ) (r : List ℕ)
    → IsByte b1
    → IsByte b2
    → IsByte b3
    → get_uint32 (b0 ∷ b1 ∷ b2 ∷ b3 ∷ r) ≡ b0 * 2 ^ 24 + b1 * 2 ^ 16 + b2 * 2 ^ 8 + b3
unfolding get_uint32
get_uint32_sum b0 b1 b2 b3 r h1 h2 h3 = ground (
  arith,
  bit_or_disjoint 24 b0 (b1 * 2 ^ 16) (omega arith),
  bit_or_disjoint 16 (b0 * 256 + b1) (b2 * 2 ^ 8) (omega arith),
  bit_or_disjoint 8 (b0 * 65536 + b1 * 256 + b2) b3 h3,
)

high_sum :
    (b0 b1 b2 b3 : ℕ)
    → IsByte b1
    → IsByte b2
    → IsByte b3
    → bit_or (bit_or (bit_or (b0 * 2 ^ 56) (b1 * 2 ^ 48)) (b2 * 2 ^ 40)) (b3 * 2 ^ 32)
      ≡ (b0 * 2 ^ 24 + b1 * 2 ^ 16 + b2 * 2 ^ 8 + b3) * 2 ^ 32
high_sum b0 b1 b2 b3 h1 h2 h3 = ground (
  arith,
  bit_or_disjoint 56 b0 (b1 * 2 ^ 48) (omega arith),
  bit_or_disjoint 48 (b0 * 256 + b1) (b2 * 2 ^ 40) (omega arith),
  bit_or_disjoint 40 (b0 * 65536 + b1 * 256 + b2) (b3 * 2 ^ 32) (omega arith),
)

low_sum :
    (h b4 b5 b6 b7 : ℕ)
    → IsByte b4
    → IsByte b5
    → IsByte b6
    → IsByte b7
    → bit_or (bit_or (bit_or (bit_or (h * 2 ^ 32) (b4 * 2 ^ 24)) (b5 * 2 ^ 16)) (b6 * 2 ^ 8)) b7
      ≡ h * 2 ^ 32 + b4 * 2 ^ 24 + b5 * 2 ^ 16 + b6 * 2 ^ 8 + b7
low_sum h b4 b5 b6 b7 h4 h5 h6 h7 = ground (
  arith,
  bit_or_disjoint 32 h (b4 * 2 ^ 24) (omega arith),
  bit_or_disjoint 24 (h * 256 + b4) (b5 * 2 ^ 16) (omega arith),
  bit_or_disjoint 16 (h * 65536 + b4 * 256 + b5) (b6 * 2 ^ 8) (omega arith),
  bit_or_disjoint 8 (h * 2 ^ 24 + b4 * 65536 + b5 * 256 + b6) b7 h7,
)

get_uint64_sum :
    (b0 b1 b2 b3 b4 b5 b6 b7 : ℕ) (r : List ℕ)
    → IsByte b1
    → IsByte b2
    → IsByte b3
    → IsByte b4
    → IsByte b5
    → IsByte b6
    → IsByte b7
    → get_uint64 (b0 ∷ b1 ∷ b2 ∷ b3 ∷ b4 ∷ b5 ∷ b6 ∷ b7 ∷ r)
      ≡ (b0 * 2 ^ 24 + b1 * 2 ^ 16 + b2 * 2 ^ 8 + b3) * 2 ^ 32
        + b4 * 2 ^ 24
        + b5 * 2 ^ 16
        + b6 * 2 ^ 8
        + b7
unfolding get_uint64
get_uint64_sum b0 b1 b2 b3 b4 b5 b6 b7 r h1 h2 h3 h4 h5 h6 h7 =
    rw (high_sum b0 b1 b2 b3 h1 h2 h3) (low_sum _ b4 b5 b6 b7 h4 h5 h6 h7)

-- Reading back what was written at the buffer's start gives the 16-bit value.
get_uint16-put_uint16 : (v : ℕ) (r : List ℕ) → v < 2 ^ 16 → get_uint16 (put_uint16 v ++ r) ≡ v
unfolding put_uint16
get_uint16-put_uint16 v r h =
    omega (arith, get_uint16_sum (v / 2 ^ 8 % 256) (v % 256) r (omega arith))

-- Reading back what was written at the buffer's start gives the 32-bit value.
pub get_uint32-put_uint32 : (v : ℕ) (r : List ℕ) → v < 2 ^ 32 → get_uint32 (put_uint32 v ++ r) ≡ v
unfolding put_uint32
get_uint32-put_uint32 v r h = omega (
  arith,
  get_uint32_sum (v / 2 ^ 24 % 256) (v / 2 ^ 16 % 256) (v / 2 ^ 8 % 256) (v % 256) r (omega arith)
      (omega arith) (omega arith),
)

-- Reading back what was written at the buffer's start gives the 64-bit value.
pub get_uint64-put_uint64 : (v : ℕ) (r : List ℕ) → v < 2 ^ 64 → get_uint64 (put_uint64 v ++ r) ≡ v
unfolding put_uint64
get_uint64-put_uint64 v r h = omega (
  arith,
  get_uint64_sum (v / 2 ^ 56 % 256) (v / 2 ^ 48 % 256) (v / 2 ^ 40 % 256) (v / 2 ^ 32 % 256)
      (v / 2 ^ 24 % 256) (v / 2 ^ 16 % 256) (v / 2 ^ 8 % 256) (v % 256) r (omega arith)
      (omega arith) (omega arith) (omega arith) (omega arith) (omega arith) (omega arith),
)

-- Four bytes that were read as a number are the bytes that writing the number gives.
put_uint32-get_uint32 :
    (b0 b1 b2 b3 : ℕ)
    → IsByte b0
    → IsByte b1
    → IsByte b2
    → IsByte b3
    → put_uint32 (get_uint32 (b0 ∷ b1 ∷ b2 ∷ b3 ∷ [])) ≡ b0 ∷ b1 ∷ b2 ∷ b3 ∷ []
unfolding put_uint32
put_uint32-get_uint32 b0 b1 b2 b3 h0 h1 h2 h3 =
    ground (arith, get_uint32_sum b0 b1 b2 b3 [] h1 h2 h3)
