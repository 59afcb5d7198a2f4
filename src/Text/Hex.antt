-- ===== src/Text/Hex.antt =====
-- Hexadecimal and decimal digits, read back.
use quicsend.Base.{
  ℕ, zero, suc, ◌+◌, ◌-◌, ◌*◌, ◌/◌, ◌%◌, ◌<◌, ◌≢◌, ◌≡◌, refl, List, [], ◌∷◌, ◌++◌, Bool, true,
  false, ◌&&◌, ◌||◌, arith, All, IsByte, leb, if◌then◌else◌,
}
use quicsend.Text.{hex_digit, hex_bytes, hex_spaced, decimal, decimal_digits}

abbrev pub is_hex : ℕ → Bool
is_hex c = (leb b'0' c && leb c b'9') || (leb b'a' c && leb c b'f')

abbrev pub hex_value : ℕ → ℕ
hex_value c = if leb c b'9' then c - b'0' else c - b'a' + 10

-- Reads bytes as long as there are pairs of digits.
abbrev pub unhex : List ℕ → List ℕ
unhex [] = []
unhex (a ∷ []) = []
unhex (a ∷ b ∷ rest) =
    if is_hex a && is_hex b then (hex_value a * 16 + hex_value b) ∷ unhex rest else []

-- The same with a byte behind each pair, which it skips.
abbrev pub unhex_spaced : List ℕ → List ℕ
unhex_spaced [] = []
unhex_spaced (a ∷ []) = []
unhex_spaced (a ∷ b ∷ []) = []
unhex_spaced (a ∷ b ∷ space ∷ rest) =
    if is_hex a && is_hex b then (hex_value a * 16 + hex_value b) ∷ unhex_spaced rest else []

digit-IsHex : (n : ℕ) → n < 16 → (is_hex (hex_digit n) ≡ true) × (hex_value (hex_digit n) ≡ n)
digit-IsHex n h = ground arith

pub unhex-hex_bytes :
    (bs : List ℕ) (stop : ℕ) (rest : List ℕ)
    → All IsByte bs
    → is_hex stop ≡ false
    → unhex (hex_bytes bs ++ stop ∷ rest) ≡ bs
unfolding hex_bytes
unhex-hex_bytes [] stop [] h e = refl
unhex-hex_bytes [] stop (x ∷ rest) h e = ground arith
unhex-hex_bytes (b ∷ bs) stop rest h e =
    ground (arith, digit-IsHex (b / 16), digit-IsHex (b % 16), unhex-hex_bytes bs stop rest h.1 e)

pub unhex_spaced-hex_spaced :
    (bs rest : List ℕ)
    → All IsByte bs
    → unhex_spaced rest ≡ []
    → unhex_spaced (hex_spaced bs ++ rest) ≡ bs
unfolding hex_spaced
unhex_spaced-hex_spaced [] rest h e = e
unhex_spaced-hex_spaced (b ∷ bs) rest h e =
    ground
      (arith, digit-IsHex (b / 16), digit-IsHex (b % 16), unhex_spaced-hex_spaced bs rest h.1 e)

decimal_digits-Among :
    (stop fuel n : ℕ) (out : List ℕ)
    → b'9' < stop
    → All (λ c. c ≢ stop) out
    → All (λ c. c ≢ stop) (decimal_digits fuel n out)
unfolding decimal_digits
decimal_digits-Among stop zero n out s h = h
decimal_digits-Among stop (suc fuel) n out s h =
    ground
      (arith, decimal_digits-Among stop fuel (n / 10) ((b'0' + n % 10) ∷ out) s (omega arith, h))

-- A number is printed with digits only.
pub decimal-Among : (stop n : ℕ) → b'9' < stop → All (λ c. c ≢ stop) (decimal n)
unfolding decimal
decimal-Among stop n s = decimal_digits-Among stop (suc n) n [] s tt
