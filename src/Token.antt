-- ===== src/Token.antt =====
-- src/quicsend_quiche.cpp, "Token Serialization": the address-validation token.
pub mod Layout
pub mod Validation
pub mod Faults
pub mod RoundTrip
use quicsend.Base.{
  ℕ, zero, ◌+◌, List, [], ◌∷◌, Bool, true, false, not, Option, none, some, get_or, take, drop,
  length, replicate, write_at, bytes_eq, ltb, ◌==◌, if◌then◌else◌,
}
use quicsend.Wire.{u8, write_uint16_le, read_uint16_le, write_uint32_le, read_uint32_le}
use quicsend.ConnectionId.{ConnectionId, local_conn_id_len}
use quicsend.Asio.{Asio}

abbrev pub token_id : ℕ
token_id = 0xdc

abbrev pub flag : Bool → ℕ
flag true = 1
flag false = 0

-- What `read_token` comes to: it returns `false`; it returns `true` with `odcid` set; its `memcpy`
-- runs past the array of `odcid`, which C++ leaves undefined; or `to_v4` or `to_v6` throws.
pub data Verdict : Type 0 where
  rejected : Verdict
  accepted : ConnectionId → Verdict
  overrun : Verdict
  bad_address_cast : Verdict

module _ (asio : Asio) where
  open asio use {Endpoint, is_v4, port, to_v4, to_v6}

  -- The last store of `mint_token`: the address, behind the connection id.
  mint_address : ℕ → Endpoint → List ℕ → Option (List ℕ)
  mint_address dcid_len endpoint token =
      if is_v4 endpoint
      then elim (to_v4 endpoint) [
        | none ↦ none
        | some addr ↦ some (write_at token (dcid_len + 5) (write_uint32_le addr))
      ]
      else elim (to_v6 endpoint) [
        | none ↦ none
        | some v6addr ↦ some (write_at token (dcid_len + 5) v6addr)
      ]

  -- `none` is the exception `bad_address_cast`.
  unfoldable pub mint_token : ConnectionId → Endpoint → Option (List ℕ)
  unfolding mint_address
  mint_token dcid endpoint =
      let dcid_len = dcid.length in
      let len = 5 + dcid_len + (if is_v4 endpoint then 4 else 16) in
      let token₀ = replicate len zero in
      let token₁ = write_at token₀ 0 (token_id ∷ []) in
      let token₂ = write_at token₁ 1 (u8 dcid_len ∷ []) in
      let token₃ = write_at token₂ 2 (u8 (flag (is_v4 endpoint)) ∷ []) in
      let token₄ = write_at token₃ 3 (write_uint16_le (port endpoint)) in
      let token₅ = write_at token₄ 5 (take dcid_len dcid.id) in
      mint_address dcid_len endpoint token₅

  -- The tests on the address, over what is left of the token.
  pub check_address : Bool → List ℕ → Endpoint → ConnectionId → Verdict
  check_address true token endpoint odcid =
      if ltb (length token) 4 then rejected else elim (to_v4 endpoint) [
        | none ↦ bad_address_cast
        | some own ↦ if own == read_uint32_le token then accepted odcid else rejected
      ]
  check_address false token endpoint odcid =
      if ltb (length token) 16 then rejected else elim (to_v6 endpoint) [
        | none ↦ bad_address_cast
        | some v6addr ↦ if bytes_eq (take 16 token) v6addr then accepted odcid else rejected
      ]

  -- `read_token`: `odcid` is the caller's id, whose array keeps the bytes that are not overwritten.
  unfoldable pub read_token : List ℕ → Endpoint → ConnectionId → Verdict
  unfolding check_address
  read_token token endpoint odcid =
      if ltb (length token) (5 + 4)
      then rejected
      else if not (get_or token 0 0 == token_id)
      then rejected
      else let dcid_len = get_or token 1 0 in
        let is_v4 = not (get_or token 2 0 == 0) in
        let port' = read_uint16_le (drop 3 token) in
        let rest = drop 5 token in
        if not (port endpoint == port')
        then rejected
        else if ltb (length rest) dcid_len
        then rejected
        else if ltb local_conn_id_len dcid_len
        then overrun
        else check_address is_v4 (drop dcid_len rest) endpoint
            (record { id = write_at odcid.id 0 (take dcid_len rest); length = dcid_len })
