-- ===== src/Wire.antt =====
-- include/quicsend_tools.hpp, "Serialization": little-endian words in byte buffers. A writer returns
-- the bytes that it stores; `u8` and `u32` are the casts.
use quicsend.Base.{
  ℕ, ◌+◌, ◌*◌, ◌/◌, ◌%◌, ◌^◌, ◌<◌, ◌≡◌, List, [], ◌∷◌, ◌++◌, arith, bit_or, get_or, IsByte, All,
  take, length, ◌≤◌, low-bit_or-high,
}

abbrev pub u8 : ℕ → ℕ
u8 n = n % 2 ^ 8

abbrev pub u32 : ℕ → ℕ
u32 n = n % 2 ^ 32

abbrev pub ◌>>>◌ : ℕ → ℕ → ℕ
x >>> k = x / 2 ^ k

abbrev pub ◌<<<◌ : ℕ → ℕ → ℕ
x <<< k = x * 2 ^ k

infixl 75 ◌<<<◌ ◌>>>◌
unfoldable pub write_uint16_le : ℕ → List ℕ
write_uint16_le value = u8 value ∷ u8 (value >>> 8) ∷ []

unfoldable pub read_uint16_le : List ℕ → ℕ
read_uint16_le ptr = bit_or (get_or ptr 0 0) (get_or ptr 1 0 <<< 8)

unfoldable pub write_uint32_le : ℕ → List ℕ
write_uint32_le value = u8 value ∷ u8 (value >>> 8) ∷ u8 (value >>> 16) ∷ u8 (value >>> 24) ∷ []

unfoldable pub read_uint32_le : List ℕ → ℕ
read_uint32_le ptr =
    bit_or (bit_or (bit_or (get_or ptr 0 0) (get_or ptr 1 0 <<< 8)) (get_or ptr 2 0 <<< 16))
      (get_or ptr 3 0 <<< 24)

pub read_uint16_le-sum :
    (b₀ b₁ : ℕ) (rest : List ℕ) → IsByte b₀ → read_uint16_le (b₀ ∷ b₁ ∷ rest) ≡ b₀ + b₁ * 2 ^ 8
unfolding read_uint16_le
read_uint16_le-sum b₀ b₁ rest h = low-bit_or-high 8 b₀ b₁ h

pub read_uint32_le-sum :
    (b₀ b₁ b₂ b₃ : ℕ) (rest : List ℕ)
    → IsByte b₀
    → IsByte b₁
    → IsByte b₂
    → read_uint32_le (b₀ ∷ b₁ ∷ b₂ ∷ b₃ ∷ rest) ≡ b₀ + b₁ * 2 ^ 8 + b₂ * 2 ^ 16 + b₃ * 2 ^ 24
unfolding read_uint32_le
read_uint32_le-sum b₀ b₁ b₂ b₃ rest h₀ h₁ h₂ = rw (
  low-bit_or-high 8 b₀ b₁ h₀,
  low-bit_or-high 16 (b₀ + b₁ * 2 ^ 8) b₂ (omega arith),
  low-bit_or-high 24 (b₀ + b₁ * 2 ^ 8 + b₂ * 2 ^ 16) b₃ (omega arith),
)

-- A 16-bit word is read back as it was written, whatever follows it in the buffer.
pub read-write_uint16_le :
    (value : ℕ) (rest : List ℕ)
    → value < 2 ^ 16
    → read_uint16_le (write_uint16_le value ++ rest) ≡ value
unfolding write_uint16_le
read-write_uint16_le value rest h =
    omega (arith, read_uint16_le-sum (u8 value) (u8 (value >>> 8)) rest (omega arith))

-- A 32-bit word is read back as it was written, whatever follows it in the buffer.
pub read-write_uint32_le :
    (value : ℕ) (rest : List ℕ)
    → value < 2 ^ 32
    → read_uint32_le (write_uint32_le value ++ rest) ≡ value
unfolding write_uint32_le
read-write_uint32_le value rest h = omega (
  arith,
  read_uint32_le-sum (u8 value) (u8 (value >>> 8)) (u8 (value >>> 16)) (u8 (value >>> 24)) rest
      (omega arith) (omega arith) (omega arith),
)

-- Two bytes are what their value is written as.
pub write-read_uint16_le :
    (b₀ b₁ : ℕ) (rest : List ℕ)
    → IsByte b₀
    → IsByte b₁
    → write_uint16_le (read_uint16_le (b₀ ∷ b₁ ∷ rest)) ≡ b₀ ∷ b₁ ∷ []
unfolding write_uint16_le
write-read_uint16_le b₀ b₁ rest h₀ h₁ = rw (read_uint16_le-sum b₀ b₁ rest h₀) (ground arith)

-- So are four.
pub write-read_uint32_le :
    (bs : List ℕ) → All IsByte bs → 4 ≤ length bs → write_uint32_le (read_uint32_le bs) ≡ take 4 bs
unfolding write_uint32_le
write-read_uint32_le (b₀ ∷ b₁ ∷ b₂ ∷ b₃ ∷ rest) h l =
    rw (read_uint32_le-sum b₀ b₁ b₂ b₃ rest h.0 h.1.0 h.1.1.0) (ground arith)
write-read_uint32_le (b₀ ∷ b₁ ∷ b₂ ∷ []) h l = absurd (omega arith)
write-read_uint32_le (b₀ ∷ b₁ ∷ []) h l = absurd (omega arith)
write-read_uint32_le (b₀ ∷ []) h l = absurd (omega arith)
write-read_uint32_le [] h l = absurd (omega arith)
