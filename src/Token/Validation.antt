-- ===== src/Token/Validation.antt =====
-- What `read_token` accepts.
use quicsend.Base.{
  ℕ, ◌≤◌, ◌≡◌, refl, sym, ◌≢◌, ◌⊎◌, inl, inr, List, [], ◌∷◌, ◌++◌, Bool, true, false, not, some,
  arith, take, drop, length, length-take, take-append-drop, All-drop, IsByte, All, write_at,
  bytes_eq→eq, ◌==◌, Option-cases, take-write_at,
}
use quicsend.Wire.{
  write_uint16_le, read_uint16_le, write_uint32_le, read_uint32_le, write-read_uint16_le,
  write-read_uint32_le,
}
use quicsend.ConnectionId.{ConnectionId, IsValid, bytes, local_conn_id_len}
use quicsend.Asio.{Asio}
use quicsend.Token.{accepted, token_id, check_address, read_token}

module _ (asio : Asio) (endpoint : asio.Endpoint) where
  pub accepted-check_address :
      (b : Bool) (rest : List ℕ) (c d : ConnectionId)
      → check_address asio b rest endpoint d ≡ accepted c
      → (c ≡ d)
        × (((b ≡ true) × (4 ≤ length rest) × (asio.to_v4 endpoint ≡ some (read_uint32_le rest)))
            ⊎ ((b ≡ false) × (16 ≤ length rest) × (asio.to_v6 endpoint ≡ some (take 16 rest))))
  unfolding check_address
  accepted-check_address true rest c d h = ground arith
  accepted-check_address false rest c d h = elim (Option-cases (asio.to_v6 endpoint)) [
    | inl e ↦ ground arith
    | inr (v6addr, e) ↦ ground (arith, bytes_eq→eq (take 16 rest) v6addr)
  ]

module _ (asio : Asio) (endpoint : asio.Endpoint) (odcid : ConnectionId) where
  -- The id that `read_token` stores over the array of `odcid`.
  abbrev pub stored : ℕ → List ℕ → ConnectionId
  stored dcid_len rest = record { id = write_at odcid.id 0 (take dcid_len rest); length = dcid_len }

  module _ (t₀ dcid_len f t₃ t₄ : ℕ) (rest : List ℕ) where
    abbrev token : List ℕ
    token = t₀ ∷ dcid_len ∷ f ∷ t₃ ∷ t₄ ∷ rest

    -- Past the header the id is stored and the address is checked.
    pub read_token-header :
        t₀ ≡ token_id
        → asio.port endpoint ≡ read_uint16_le (t₃ ∷ t₄ ∷ rest)
        → 4 ≤ length rest
        → dcid_len ≤ length rest
        → dcid_len ≤ local_conn_id_len
        → read_token asio token endpoint odcid
          ≡ check_address asio (not (f == 0)) (drop dcid_len rest) endpoint (stored dcid_len rest)
    unfolding read_token
    read_token-header e p r l w = ground arith

    -- What an accepted token has passed.
    pub accepted-header :
        {c : ConnectionId}
        → read_token asio token endpoint odcid ≡ accepted c
        → (t₀ ≡ token_id)
          × (asio.port endpoint ≡ read_uint16_le (t₃ ∷ t₄ ∷ rest))
          × (dcid_len ≤ length rest)
          × (dcid_len ≤ local_conn_id_len)
          × (check_address asio (not (f == 0)) (drop dcid_len rest) endpoint (stored dcid_len rest)
              ≡ accepted c)
    unfolding read_token
    accepted-header h = ground arith

  pub bytes-stored :
      (dcid_len : ℕ) (rest : List ℕ)
      → IsValid odcid
      → dcid_len ≤ length rest
      → dcid_len ≤ local_conn_id_len
      → bytes (stored dcid_len rest) ≡ take dcid_len rest
  bytes-stored dcid_len rest v l w =
      let e : length (take dcid_len rest) ≡ dcid_len = omega (arith, length-take dcid_len rest) in
      rw e at (take-write_at odcid.id (take dcid_len rest) (omega (arith, e, v.sized)))

-- `address` is the endpoint's address, in the form that the family byte `f` announces.
abbrev pub Carries : (asio : Asio) → asio.Endpoint → ℕ → List ℕ → Type 0
Carries asio endpoint f address =
    ((f ≢ 0) × ((a : ℕ) × (asio.to_v4 endpoint ≡ some a) × (address ≡ write_uint32_le a)))
    ⊎ ((f ≡ 0) × (asio.to_v6 endpoint ≡ some address))

-- The bytes that `read_token` accepts for an endpoint and an id.
abbrev pub TokenOf : (asio : Asio) → asio.Endpoint → ConnectionId → List ℕ → Type 0
TokenOf asio endpoint c token =
    (f : ℕ) × (address : List ℕ) × (trailer : List ℕ) × Carries asio endpoint f address
    × (token
        ≡ token_id ∷ c.length ∷ f ∷ write_uint16_le (asio.port endpoint)
          ++ (bytes c ++ (address ++ trailer)))

module _ (asio : Asio) (endpoint : asio.Endpoint) where
  accepted-long :
      (token : List ℕ) (odcid c : ConnectionId)
      → read_token asio token endpoint odcid ≡ accepted c
      → 9 ≤ length token
  unfolding read_token
  accepted-long token odcid c h = ground arith

  module _ (odcid : ConnectionId) (dcid_len f t₃ t₄ : ℕ) (rest : List ℕ) where
    -- The parts that the token is cut into make it up.
    TokenOf-stored :
        (k : ℕ) (address : List ℕ)
        → IsValid odcid
        → IsByte t₃ × IsByte t₄
        → asio.port endpoint ≡ read_uint16_le (t₃ ∷ t₄ ∷ rest)
        → dcid_len ≤ length rest
        → dcid_len ≤ local_conn_id_len
        → Carries asio endpoint f address
        → take k (drop dcid_len rest) ≡ address
        → TokenOf asio endpoint
            (stored asio endpoint odcid dcid_len rest)
            (token_id ∷ dcid_len ∷ f ∷ t₃ ∷ t₄ ∷ rest)
    TokenOf-stored k address v b p l w carries e = (
      f,
      address,
      drop k (drop dcid_len rest),
      carries,
      rw (
        p,
        write-read_uint16_le t₃ t₄ rest b.0 b.1,
        bytes-stored asio endpoint odcid dcid_len rest v l w,
        ← e,
        take-append-drop k (drop dcid_len rest),
        take-append-drop dcid_len rest,
      ),
    )

    accepted_token-cons :
        (t₀ : ℕ) (c : ConnectionId)
        → IsValid odcid
        → All IsByte (t₃ ∷ t₄ ∷ rest)
        → read_token asio (t₀ ∷ dcid_len ∷ f ∷ t₃ ∷ t₄ ∷ rest) endpoint odcid ≡ accepted c
        → TokenOf asio endpoint c (t₀ ∷ dcid_len ∷ f ∷ t₃ ∷ t₄ ∷ rest)
    accepted_token-cons t₀ c v b h =
        let (tag, p, l, w, checked) =
          accepted-header asio endpoint odcid t₀ dcid_len f t₃ t₄ rest h in
        let (id, family) =
          accepted-check_address asio endpoint (not (f == 0)) (drop dcid_len rest) c
            (stored asio endpoint odcid dcid_len rest) checked in
        let bytes_of_rest = All-drop IsByte dcid_len rest b.1.1 in
        rw (tag, id)
          (elim family [
            | inl (nonzero, long, a) ↦
                TokenOf-stored 4 (write_uint32_le (read_uint32_le (drop dcid_len rest))) v
                  (b.0, b.1.0) p l w
                  (inl (ground arith, (read_uint32_le (drop dcid_len rest), a, refl)))
                  (sym (write-read_uint32_le (drop dcid_len rest) bytes_of_rest long))
            | inr (zeroed, long, a) ↦
                TokenOf-stored 16 (take 16 (drop dcid_len rest)) v (b.0, b.1.0) p l w
                  (inr (ground arith, a)) refl
          ])

  -- A token that read_token accepts is, byte for byte, the tag, the length of the id, a family
  -- byte, the port of the endpoint that presents it, the id that is handed out, and the address
  -- of that endpoint, with any trailer. The id of the caller fits its array and the token
  -- consists of bytes.
  pub accepted_token :
      (token : List ℕ) (odcid c : ConnectionId)
      → IsValid odcid
      → All IsByte token
      → read_token asio token endpoint odcid ≡ accepted c
      → TokenOf asio endpoint c token
  accepted_token (t₀ ∷ n ∷ f ∷ t₃ ∷ t₄ ∷ rest) odcid c v b h =
      accepted_token-cons odcid n f t₃ t₄ rest t₀ c v b.1.1.1 h
  accepted_token (t₀ ∷ n ∷ f ∷ t₃ ∷ []) odcid c v b h =
      absurd (omega (arith, accepted-long _ odcid c h))
  accepted_token (t₀ ∷ n ∷ f ∷ []) odcid c v b h = absurd (omega (arith, accepted-long _ odcid c h))
  accepted_token (t₀ ∷ n ∷ []) odcid c v b h = absurd (omega (arith, accepted-long _ odcid c h))
  accepted_token (t₀ ∷ []) odcid c v b h = absurd (omega (arith, accepted-long _ odcid c h))
  accepted_token [] odcid c v b h = absurd (omega (arith, accepted-long _ odcid c h))
