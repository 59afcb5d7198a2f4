-- ===== src/Text.antt =====
-- The texts that the code prints: `ConnectionId::ToString` of src/quicsend_quiche.cpp, `DumpHex` and
-- `EndpointToString` of src/quicsend_tools.cpp, with what they use of `std::ostream`. A text is the
-- list of its bytes.
pub mod Hex
pub mod Reading
use quicsend.Base.{
  ℕ, zero, suc, ◌+◌, ◌-◌, ◌/◌, ◌%◌, List, [], ◌∷◌, ◌++◌, Option, none, some, length, take, ltb,
  ◌==◌, if◌then◌else◌, codes,
}
use quicsend.ConnectionId.{ConnectionId, bytes}
use quicsend.Asio.{Asio}

abbrev pub hex_digit : ℕ → ℕ
hex_digit n = if ltb n 10 then b'0' + n else b'a' + (n - 10)

-- `std::setfill('0') << std::setw(2) << std::hex` and a byte.
abbrev pub hex_byte : ℕ → List ℕ
hex_byte b = hex_digit (b / 16) ∷ hex_digit (b % 16) ∷ []

unfoldable pub decimal_digits : ℕ → ℕ → List ℕ → List ℕ
decimal_digits zero n out = out
decimal_digits (suc fuel) n out =
    let out' = (b'0' + n % 10) ∷ out in
    let rest = decimal_digits fuel (n / 10) out' in if n / 10 == 0 then out' else rest

-- `<<` of a number: it has no more digits than its value and one.
unfoldable pub decimal : ℕ → List ℕ
decimal n = decimal_digits (suc n) n []

-- The loop of `ToString`.
unfoldable pub hex_bytes : List ℕ → List ℕ
hex_bytes [] = []
hex_bytes (b ∷ rest) = hex_byte b ++ hex_bytes rest

-- `ConnectionId::ToString`.
unfoldable pub to_string : ConnectionId → List ℕ
to_string cid = hex_bytes (bytes cid) ++ (codes " (" ++ (decimal cid.length ++ codes " bytes)"))

-- The loop of `DumpHex`.
unfoldable pub hex_spaced : List ℕ → List ℕ
hex_spaced [] = []
hex_spaced (b ∷ rest) = hex_byte b ++ (codes " " ++ hex_spaced rest)

abbrev labelled : Option (List ℕ) → List ℕ
labelled none = []
labelled (some label) = label ++ codes " "

-- `DumpHex` of all of a buffer.
unfoldable pub dump_hex : List ℕ → Option (List ℕ) → List ℕ
dump_hex buf label =
    labelled label
    ++ (codes "("
        ++ (decimal (length buf)
            ++ (codes " bytes): "
                ++ (hex_spaced (take 32 buf)
                    ++ (if ltb 32 (length buf) then codes "..." else [])))))

-- `EndpointToString`, over `endpoint.address().to_string()`.
unfoldable pub endpoint_to_string :
    (asio : Asio) → (asio.Endpoint → List ℕ) → asio.Endpoint → List ℕ
endpoint_to_string asio address_to_string endpoint =
    address_to_string endpoint ++ (codes ":" ++ decimal (asio.port endpoint))
