-- ===== src/Text/Reading.antt =====
-- What is printed tells the bytes that it was printed from.
use quicsend.Base.{
  ℕ, ◌≢◌, ◌≡◌, refl, List, [], ◌∷◌, ◌++◌, none, arith, All, All-take, IsByte, take, drop, length,
  ltb, ◌==◌, if◌then◌else◌, codes,
}
use quicsend.ConnectionId.{ConnectionId, bytes}
use quicsend.Text.{to_string, dump_hex, hex_spaced, decimal}
use quicsend.Text.Hex.{unhex, unhex_spaced, unhex-hex_bytes, unhex_spaced-hex_spaced, decimal-Among}

-- The hexadecimal digits at the head of what ToString prints of a connection id are read back as
-- the bytes of the id, and as no more. The array of the id holds bytes.
pub unhex-to_string : (cid : ConnectionId) → All IsByte cid.id → unhex (to_string cid) ≡ bytes cid
unfolding to_string
unhex-to_string cid h =
    unhex-hex_bytes (bytes cid) b' ' _ (All-take IsByte cid.length cid.id h) refl

-- What stands behind the first `stop`.
abbrev pub behind : ℕ → List ℕ → List ℕ
behind stop [] = []
behind stop (c ∷ rest) = if c == stop then rest else behind stop rest

behind-append :
    (stop : ℕ) (xs ys : List ℕ) → All (λ c. c ≢ stop) xs → behind stop (xs ++ ys) ≡ behind stop ys
behind-append stop [] ys h = refl
behind-append stop (x ∷ xs) ys h = ground (arith, behind-append stop xs ys h.1)

-- The pairs of digits behind the colon of what DumpHex prints of bytes, without a label, are read
-- back as the first 32 bytes of the buffer, or as all where there are fewer.
pub unhex_spaced-dump_hex :
    (buf : List ℕ)
    → All IsByte buf
    → unhex_spaced (drop 1 (behind b':' (dump_hex buf none))) ≡ take 32 buf
unfolding dump_hex
unhex_spaced-dump_hex buf h =
    let dots : List ℕ = if ltb 32 (length buf) then codes "..." else [] in
    let stops : unhex_spaced dots ≡ [] = ground arith in
    rw
      (behind-append b':' (decimal (length buf))
        (codes " bytes): " ++ (hex_spaced (take 32 buf) ++ dots))
        (decimal-Among b':' (length buf) (omega arith)))
      (unhex_spaced-hex_spaced (take 32 buf) dots (All-take IsByte 32 buf h) stops)
