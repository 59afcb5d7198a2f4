-- ===== src/Token/RoundTrip.antt =====
-- Tokens that are minted are accepted from their own endpoint, and from no other.
use quicsend.Base.{
  ℕ, suc, ◌+◌, ◌^◌, ◌≤◌, ◌<◌, ◌≡◌, refl, sym, ap, ◌∙◌, inl, inr, List, [], ◌++◌, true, false, not,
  some, arith, length, length-append, take-append, drop-append, bytes_eq_refl, ◌==◌, Bool-cases,
  append-nil,
}
use quicsend.Wire.{
  u8, ◌>>>◌, write_uint16_le, write_uint32_le, read_uint32_le, read-write_uint16_le,
  read-write_uint32_le,
}
use quicsend.ConnectionId.{ConnectionId, IsValid, bytes, cid_eq}
use quicsend.ConnectionId.Laws.{cid_eq_iff}
use quicsend.Asio.{Asio, AsioLaws}
use quicsend.Token.{accepted, token_id, mint_token, check_address, read_token}
use quicsend.Token.Layout.{header, mint_token-v4, mint_token-v6, length-bytes}
use quicsend.Token.Validation.{
  Carries, TokenOf, read_token-header, stored, bytes-stored, accepted-header,
  accepted-check_address,
}

length_write_uint32_le :
    (a : ℕ) (rest : List ℕ)
    → length (write_uint32_le a ++ rest) ≡ suc (suc (suc (suc (length rest))))
unfolding write_uint32_le
length_write_uint32_le a rest = refl

module _ (asio : Asio) (laws : AsioLaws asio) (endpoint : asio.Endpoint) where
  v6-length : (address : List ℕ) → asio.to_v6 endpoint ≡ some address → length address ≡ 16
  v6-length address e = elim (Bool-cases (asio.is_v4 endpoint)) [
    | inl v4 ↦ ground (arith, laws.v4_only endpoint v4)
    | inr v6 ↦
        let (own, f, l) = laws.v6_address endpoint v6 in
        let same : own ≡ address = ground arith in rw same at l
  ]

  v4-lt : (a : ℕ) → asio.to_v4 endpoint ≡ some a → a < 2 ^ 32
  v4-lt a e = elim (Bool-cases (asio.is_v4 endpoint)) [
    | inl v4 ↦
        let (own, f, l) = laws.v4_address endpoint v4 in
        let same : own ≡ a = ground arith in rw same at l
    | inr v6 ↦ ground (arith, laws.v6_only endpoint v6)
  ]

  length-Carries : (f : ℕ) (address : List ℕ) → Carries asio endpoint f address → 4 ≤ length address
  unfolding write_uint32_le
  length-Carries f address (inl (_, (a, e, l))) = rw l (omega arith)
  length-Carries f address (inr (_, e)) = omega (arith, v6-length address e)

  check_address-Carries :
      (f : ℕ) (address trailer : List ℕ) (d : ConnectionId)
      → Carries asio endpoint f address
      → check_address asio (not (f == 0)) (address ++ trailer) endpoint d ≡ accepted d
  unfolding check_address
  check_address-Carries f address trailer d (inl (nz, (a, e, l))) =
      rw l (
        ground
          (arith, length_write_uint32_le a trailer, read-write_uint32_le a trailer (v4-lt a e)))
  check_address-Carries f address trailer d (inr (z, e)) = rw z (
      ground (
        arith,
        v6-length address e,
        length-append address trailer,
        take-append 16 address trailer,
        bytes_eq_refl address,
      ))

  -- Every token of that form is accepted, with an id equal to the one in the token.
  pub TokenOf-accepted :
      (token : List ℕ) (odcid c : ConnectionId)
      → IsValid odcid
      → IsValid c
      → TokenOf asio endpoint c token
      → (c' : ConnectionId) × (read_token asio token endpoint odcid ≡ accepted c')
        × (cid_eq c' c ≡ true)
  unfolding write_uint16_le
  TokenOf-accepted token odcid c vo v (f, address, trailer, carries, e) =
      let rest : List ℕ = bytes c ++ (address ++ trailer) in
      let n : length (bytes c) ≡ c.length = length-bytes asio c endpoint v in
      let long : 4 ≤ length (address ++ trailer) =
        omega (arith, length-append address trailer, length-Carries f address carries) in
      let all : length rest ≡ length (bytes c) + length (address ++ trailer) =
        length-append (bytes c) (address ++ trailer) in
      let back =
        bytes-stored asio endpoint odcid c.length rest vo (omega (arith, all, n)) v.within in
      (
        stored asio endpoint odcid c.length rest,
        rw
            (
              e,
              read_token-header asio endpoint odcid token_id c.length f (u8 (asio.port endpoint))
                  (u8 (asio.port endpoint >>> 8)) rest refl
                  (sym (read-write_uint16_le (asio.port endpoint) rest (laws.port_fits endpoint)))
                  (omega (arith, all, long)) (omega (arith, all, n)) v.within,
              drop-append c.length (bytes c) (address ++ trailer) n,
            )
            (check_address-Carries f address trailer _ carries),
        (cid_eq_iff _ c).1 (refl, back ∙ take-append c.length (bytes c) (address ++ trailer) n),
      )

  TokenOf-mint_token :
      (dcid : ConnectionId)
      → IsValid dcid
      → (token : List ℕ) × (mint_token asio dcid endpoint ≡ some token)
        × TokenOf asio endpoint dcid token
  unfolding write_uint16_le
  TokenOf-mint_token dcid v =
      let n : u8 dcid.length ≡ dcid.length = omega (arith, v.within) in
      elim (Bool-cases (asio.is_v4 endpoint)) [
        | inl v4 ↦
            let (a, e, _) = laws.v4_address endpoint v4 in
            (
              header dcid.length true (asio.port endpoint) ++ (bytes dcid ++ write_uint32_le a),
              mint_token-v4 asio dcid endpoint v a v4 e,
              (
                1,
                write_uint32_le a,
                [],
                inl (omega arith, (a, e, refl)),
                rw (n, append-nil (write_uint32_le a)),
              ),
            )
        | inr v6 ↦
            let (address, e, l) = laws.v6_address endpoint v6 in
            (
              header dcid.length false (asio.port endpoint) ++ (bytes dcid ++ address),
              mint_token-v6 asio dcid endpoint v address v6 e l,
              (0, address, [], inr (refl, e), rw (n, append-nil address)),
            )
      ]

  -- mint_token never throws on an id that fits its array, and read_token, given its token by the
  -- same endpoint, accepts it and yields an id that equals the one that went in.
  pub read-mint_token :
      (dcid odcid : ConnectionId)
      → IsValid dcid
      → IsValid odcid
      → (token : List ℕ) × (c : ConnectionId) × (mint_token asio dcid endpoint ≡ some token)
        × (read_token asio token endpoint odcid ≡ accepted c)
        × (cid_eq c dcid ≡ true)
  read-mint_token dcid odcid v vo =
      let (token, minted, shape) = TokenOf-mint_token dcid v in
      let (c, read, same) = TokenOf-accepted token odcid dcid vo v shape in
      (token, c, minted, read, same)

  same_v4 :
      (a : ℕ) (other : asio.Endpoint)
      → asio.to_v4 endpoint ≡ some a
      → asio.to_v4 other ≡ some a
      → asio.port other ≡ asio.port endpoint
      → other ≡ endpoint
  same_v4 a other e e' p =
      sym (laws.from-to_v4 other a e') ∙ ap (asio.from_v4 a) p ∙ laws.from-to_v4 endpoint a e

  same_v6 :
      (address : List ℕ) (other : asio.Endpoint)
      → asio.to_v6 endpoint ≡ some address
      → asio.to_v6 other ≡ some address
      → asio.port other ≡ asio.port endpoint
      → other ≡ endpoint
  same_v6 address other e e' p =
      sym (laws.from-to_v6 other address e')
      ∙ ap (asio.from_v6 address) p
      ∙ laws.from-to_v6 endpoint address e

  same_endpoint :
      (f : ℕ) (address trailer : List ℕ) (other : asio.Endpoint) (c d : ConnectionId)
      → Carries asio endpoint f address
      → asio.port other ≡ asio.port endpoint
      → check_address asio (not (f == 0)) (address ++ trailer) other d ≡ accepted c
      → other ≡ endpoint
  same_endpoint f address trailer other c d (inl (nz, (a, e, l))) p h =
      elim (accepted-check_address asio other (not (f == 0)) (address ++ trailer) c d h).1 [
        | inl (_, _, e') ↦
            let read : read_uint32_le (address ++ trailer) ≡ a =
              rw l (read-write_uint32_le a trailer (v4-lt a e)) in
            same_v4 a other e (rw read at e') p
        | inr (z, _, _) ↦ absurd (ground arith)
      ]
  same_endpoint f address trailer other c d (inr (z, e)) p h =
      elim (accepted-check_address asio other (not (f == 0)) (address ++ trailer) c d h).1 [
        | inl (nz, _, _) ↦ absurd (ground arith)
        | inr (_, _, e') ↦
            same_v6 address other e
              (rw (take-append 16 address trailer (v6-length address e)) at e') p
      ]

  -- If the token that mint_token made for an endpoint is accepted by read_token when some
  -- endpoint presents it, then that endpoint is the one it was made for.
  pub mint_token-endpoint :
      (dcid odcid c : ConnectionId) (token : List ℕ) (other : asio.Endpoint)
      → IsValid dcid
      → mint_token asio dcid endpoint ≡ some token
      → read_token asio token other odcid ≡ accepted c
      → other ≡ endpoint
  unfolding write_uint16_le
  mint_token-endpoint dcid odcid c token other v minted h =
      let (own, minted', (f, address, trailer, carries, e)) = TokenOf-mint_token dcid v in
      let same : token ≡ own = ground arith in
      let p = asio.port endpoint in
      let rest : List ℕ = bytes dcid ++ (address ++ trailer) in
      let (_, port, _, _, checked) =
        accepted-header asio other odcid token_id dcid.length f (u8 p) (u8 (p >>> 8)) rest
          (rw (same, e) at h) in
      let n = length-bytes asio dcid endpoint v in
      same_endpoint f address trailer other c _ carries
        (port ∙ read-write_uint16_le p rest (laws.port_fits endpoint))
        (rw (drop-append dcid.length (bytes dcid) (address ++ trailer) n) at checked)
