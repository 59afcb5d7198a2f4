-- ===== src/Token/Faults.antt =====
-- Tokens on which `read_token` does worse than refuse.
use quicsend.Base.{
  ℕ, ◌+◌, ◌≤◌, ◌≡◌, refl, sym, ◌≢◌, ◌⊎◌, List, ◌∷◌, ◌++◌, true, false, arith, length, length-drop,
}
use quicsend.Wire.{u8, ◌>>>◌, write_uint16_le, read-write_uint16_le}
use quicsend.ConnectionId.{ConnectionId, local_conn_id_len}
use quicsend.Asio.{Asio, AsioLaws}
use quicsend.Token.{bad_address_cast, token_id, check_address, read_token}
use quicsend.Token.Validation.{read_token-header}

module _ (asio : Asio) (laws : AsioLaws asio) (endpoint : asio.Endpoint) (odcid : ConnectionId)
    (dcid_len f : ℕ) (rest : List ℕ) where
  -- A token with the sender's port in it.
  abbrev pub crafted : List ℕ
  crafted = token_id ∷ dcid_len ∷ f ∷ write_uint16_le (asio.port endpoint) ++ rest

  -- On a token with the tag and the port of its sender, a length byte that fits and enough bytes,
  -- whose family byte does not match the family of the sender, read_token throws bad_address_cast
  -- instead of refusing the token.
  pub crafted-bad_address_cast :
      dcid_len ≤ local_conn_id_len
      → dcid_len + 16 ≤ length rest
      → ((asio.is_v4 endpoint ≡ true) × (f ≡ 0)) ⊎ ((asio.is_v4 endpoint ≡ false) × (f ≢ 0))
      → read_token asio crafted endpoint odcid ≡ bad_address_cast
  unfolding check_address write_uint16_le
  crafted-bad_address_cast w l family =
      let p = asio.port endpoint in
      rw
        (read_token-header asio endpoint odcid token_id dcid_len f (u8 p) (u8 (p >>> 8)) rest refl
          (sym (read-write_uint16_le p rest (laws.port_fits endpoint))) (omega arith) (omega arith)
          w)
        (ground (arith, length-drop dcid_len rest, laws.v4_only endpoint, laws.v6_only endpoint))
