-- ===== src/Certificates/Release.antt =====
-- What `LoadPEMCertAsDER` returns, and what it gives back.
use quicsend.Base.{
  ℕ, ◌+◌, ◌≡◌, refl, ap, inl, inr, List, [], ◌∷◌, Option-cases, Option, none, some, String, arith,
  pos, length,
}
use quicsend.Certificates.{
  Openssl, ResourceCall, opened, closed, made, freed, Loaded, der, failed, written_over, zeroes,
  convert, load_pem_cert_as_der,
}

-- `i2d_X509` writes one encoding, and returns its length whether or not it has a buffer.
pub record DerLaws (openssl : Openssl) : Type 0 where
  pub encoding : openssl.X509 → List ℕ
  pub length_of : (cert : openssl.X509) → openssl.der_length cert ≡ pos (length (encoding cert))
  pub writes :
      (cert : openssl.X509) → openssl.write_der cert ≡ (pos (length (encoding cert)), encoding cert)

whole : (bytes : List ℕ) → written_over bytes (zeroes (length bytes)) ≡ bytes
whole [] = refl
whole (b ∷ rest) = ap (λ (xs : List ℕ). b ∷ xs) (whole rest)

-- How often a call stands in a list of them.
abbrev pub count : (ResourceCall → ℕ) → List ResourceCall → ℕ
count f [] = 0
count f (call ∷ rest) = f call + count f rest

abbrev pub is_opened : ResourceCall → ℕ
is_opened opened = 1
is_opened _ = 0

abbrev pub is_closed : ResourceCall → ℕ
is_closed closed = 1
is_closed _ = 0

abbrev pub is_made : ResourceCall → ℕ
is_made made = 1
is_made _ = 0

abbrev pub is_freed : ResourceCall → ℕ
is_freed freed = 1
is_freed _ = 0

module _ (openssl : Openssl) (laws : DerLaws openssl) where
  open openssl use {open_file, read_x509}

  convert-encoding : (cert : openssl.X509) → convert openssl cert ≡ der (laws.encoding cert)
  unfolding convert
  convert-encoding cert =
      let bytes = laws.encoding cert in
      rw (laws.length_of cert, laws.writes cert) (ground (arith, whole bytes))

  -- The certificate that a path leads to.
  abbrev pub certificate : String → Option openssl.X509
  certificate path = elim (open_file path) [ none ↦ none | some file ↦ read_x509 file ]

  abbrev pub Encoded : Option openssl.X509 → Loaded → Type 0
  Encoded none (failed reason) = Unit {0}
  Encoded none _ = ⊥
  Encoded (some cert) r = r ≡ der (laws.encoding cert)

  -- Where i2d_X509 writes one encoding of a certificate and returns its length: LoadPEMCertAsDER
  -- returns that encoding if the path leads to a certificate and throws if it does not, its
  -- buffer is never overrun, and on every path each file that was opened is closed and each
  -- certificate that was read is freed.
  pub load_pem_cert_as_der-releases :
      (path : String)
      → let (r, calls) = load_pem_cert_as_der openssl path in
        Encoded (certificate path) r
        × (count is_closed calls ≡ count is_opened calls)
        × (count is_freed calls ≡ count is_made calls)
  unfolding load_pem_cert_as_der
  load_pem_cert_as_der-releases path = elim (Option-cases (open_file path)) [
    | inl missing ↦ rw (load_pem_cert_as_der, certificate, missing) (tt, refl, refl)
    | inr (file, found) ↦ elim (Option-cases (read_x509 file)) [
      | inl unreadable ↦ rw (load_pem_cert_as_der, certificate, found, unreadable) (tt, refl, refl)
      | inr (cert, read) ↦
          rw (load_pem_cert_as_der, certificate, found, read) (convert-encoding cert, refl, refl)
    ]
  ]
