-- ===== src/Examples/Texts.antt =====
-- Names of errors and printed bytes at concrete inputs.
use quicsend.Base.{
  none, some, drop, take, ◌↔◌, refl, ℕ, suc, ◌≡◌, ℤ, negsuc, List, [], ◌∷◌, true, String, str_eq,
  eq_iff, arith, if◌then◌else◌,
}
use quicsend.Errors.{h3_cases, quiche_h3_error_to_string}
use quicsend.Errors.Naming.{among, Compiles, quiche_h3_error_to_string_iff}
use quicsend.Asio.Concrete.{alice, hosts, hosts-AsioLaws}
use quicsend.Sockaddr.{Sockaddr, to_sockaddr, sockaddr_to_endpoint}
use quicsend.Sockaddr.RoundTrip.{sockaddr_to_endpoint-to_sockaddr}
use quicsend.Text.{dump_hex}
use quicsend.Text.Hex.{unhex_spaced}
use quicsend.Text.Reading.{behind, unhex_spaced-dump_hex}

-- The constants in the order of their cases, downwards from -1.
abbrev position : String → List (String × String) → ℕ
position label [] = 0
position label ((own, text) ∷ cases) = if str_eq own label then 0 else suc (position label cases)

numbered-Compiles :
    (cases : List (String × String)) (a b : String)
    → among a cases ≡ true
    → among b cases ≡ true
    → position a cases ≡ position b cases
    → a ≡ b
numbered-Compiles [] a b h k e = absurd (ground arith)
numbered-Compiles ((own, text) ∷ cases) a b h k e =
    ground (arith, eq_iff own a, eq_iff own b, numbered-Compiles cases a b)

abbrev below_zero : List (String × String) → String → ℤ
below_zero cases label = negsuc (position label cases)

below_zero-Compiles : (cases : List (String × String)) → Compiles (below_zero cases) cases
below_zero-Compiles cases a b h k e = numbered-Compiles cases a b h k (ground arith)

quiche_h3_error_to_string_iff_example :
    (quiche_h3_error_to_string (below_zero h3_cases) (negsuc 1) ≡ "QUICHE_H3_ERR_INTERNAL_ERROR")
    ↔ (below_zero h3_cases "QUICHE_H3_ERR_INTERNAL_ERROR" ≡ negsuc 1)
quiche_h3_error_to_string_iff_example =
    quiche_h3_error_to_string_iff (below_zero h3_cases) "QUICHE_H3_ERR_INTERNAL_ERROR" (negsuc 1)
      (below_zero-Compiles h3_cases) refl

unhex_spaced-dump_hex_example :
    unhex_spaced (drop 1 (behind b':' (dump_hex (4 ∷ 200 ∷ []) none))) ≡ take 32 (4 ∷ 200 ∷ [])
unhex_spaced-dump_hex_example = unhex_spaced-dump_hex (4 ∷ 200 ∷ []) (omega arith)

sockaddr_to_endpoint-to_sockaddr_example :
    (addr : Sockaddr) × (len : ℕ) × (to_sockaddr hosts alice ≡ some (addr, len))
    × (sockaddr_to_endpoint hosts addr len ≡ some alice)
sockaddr_to_endpoint-to_sockaddr_example =
    sockaddr_to_endpoint-to_sockaddr hosts hosts-AsioLaws alice
