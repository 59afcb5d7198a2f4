-- ===== src/Token/Layout.antt =====
-- The bytes that `mint_token` stores, as one concatenation.
use quicsend.Base.{
  ℕ, zero, suc, ◌+◌, ◌/◌, ◌^◌, ◌≡◌, refl, sym, ap, ◌∙◌, List, [], ◌∷◌, ◌++◌, append-nil, Bool, true,
  false, some, arith, length, length-take, replicate, length-replicate, write_at, write_at-append,
  write_at_nil, replicate-add,
}
use quicsend.Wire.{u8, write_uint16_le, write_uint32_le}
use quicsend.ConnectionId.{ConnectionId, IsValid, bytes}
use quicsend.Asio.{Asio}
use quicsend.Token.{token_id, flag, mint_address, mint_token}

-- Tag, length, family and port.
abbrev pub header : ℕ → Bool → ℕ → List ℕ
header dcid_len is_v4 port =
    token_id ∷ u8 dcid_len ∷ u8 (flag is_v4) ∷ u8 port ∷ u8 (port / 2 ^ 8) ∷ []

-- The five stores before the address fill the front of the token.
front_stored :
    (n k port : ℕ) (is_v4 : Bool) (dcid : List ℕ)
    → length dcid ≡ n
    → write_at
        (write_at
          (write_at
            (write_at (write_at (replicate (5 + n + k) zero) 0 (token_id ∷ [])) 1 (u8 n ∷ []))
            2
            (u8 (flag is_v4) ∷ []))
          3
          (write_uint16_le port))
        5
        dcid
      ≡ header n is_v4 port ++ (dcid ++ replicate k zero)
unfolding write_uint16_le
front_stored n k port is_v4 dcid h =
    let e : 5 + n + k ≡ suc (suc (suc (suc (suc (n + k))))) = omega arith in
    let rest : List ℕ = replicate n zero ++ replicate k zero in
    rw (e, replicate-add n k zero)
      (ap (λ xs. header n is_v4 port ++ write_at xs 0 dcid) (write_at_nil rest 0)
        ∙ write_at-append (header n is_v4 port) (replicate n zero) dcid (replicate k zero) 5 refl
            (length-replicate n zero ∙ sym h))

-- The address goes behind the id.
address_stored :
    (n k port : ℕ) (is_v4 : Bool) (dcid address : List ℕ)
    → length dcid ≡ n
    → length address ≡ k
    → write_at (header n is_v4 port ++ (dcid ++ replicate k zero)) (n + 5) address
      ≡ header n is_v4 port ++ (dcid ++ address)
address_stored n k port is_v4 dcid address h l =
    let front : List ℕ = header n is_v4 port ++ dcid in
    let e : length front ≡ n + 5 = omega (arith, h) in
    ap (λ xs. write_at xs (n + 5) address) (sym (append-nil (front ++ replicate k zero)))
    ∙ write_at-append front (replicate k zero) address [] (n + 5) e
        (length-replicate k zero ∙ sym l)
    ∙ append-nil (front ++ address)

module _ (asio : Asio) (dcid : ConnectionId) (endpoint : asio.Endpoint) (v : IsValid dcid) where
  pub length-bytes : length (bytes dcid) ≡ dcid.length
  length-bytes = omega (arith, v.sized, v.within, length-take dcid.length dcid.id)

  -- A token for an IPv4 endpoint.
  pub mint_token-v4 :
      (a : ℕ)
      → asio.is_v4 endpoint ≡ true
      → asio.to_v4 endpoint ≡ some a
      → mint_token asio dcid endpoint
        ≡ some (header dcid.length true (asio.port endpoint) ++ (bytes dcid ++ write_uint32_le a))
  unfolding mint_token mint_address write_uint32_le
  mint_token-v4 a e f = rw (
    e,
    f,
    e,
    front_stored dcid.length 4 (asio.port endpoint) true (bytes dcid) length-bytes,
    address_stored dcid.length 4 (asio.port endpoint) true (bytes dcid) (write_uint32_le a)
        length-bytes refl,
  )

  -- A token for an IPv6 endpoint.
  pub mint_token-v6 :
      (address : List ℕ)
      → asio.is_v4 endpoint ≡ false
      → asio.to_v6 endpoint ≡ some address
      → length address ≡ 16
      → mint_token asio dcid endpoint
        ≡ some (header dcid.length false (asio.port endpoint) ++ (bytes dcid ++ address))
  unfolding mint_token mint_address
  mint_token-v6 address e f l = rw (
    e,
    f,
    e,
    front_stored dcid.length 16 (asio.port endpoint) false (bytes dcid) length-bytes,
    address_stored dcid.length 16 (asio.port endpoint) false (bytes dcid) address length-bytes l,
  )
