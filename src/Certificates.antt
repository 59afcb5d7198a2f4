-- ===== src/Certificates.antt =====
-- `LoadPEMCertAsDER` of src/quicsend_tools.cpp, with what it opens and frees.
pub mod Release
use quicsend.Base.{
  ℕ, zero, suc, ℤ, List, [], ◌∷◌, ◌++◌, Bool, Option, none, some, String, pos, is_neg, pos_part,
  int_eq, length, ltb, not, if◌then◌else◌,
}

-- What the code uses of the C library and of OpenSSL: `fopen`, `PEM_read_X509`, and `i2d_X509` with
-- a null pointer and with a buffer, which returns a length and the bytes that it writes.
pub record Openssl : Type 1 where
  pub File : Type 0
  pub X509 : Type 0
  pub open_file : String → Option File
  pub read_x509 : File → Option X509
  pub der_length : X509 → ℤ
  pub write_der : X509 → ℤ × List ℕ

-- The calls that take or give back a resource.
pub data ResourceCall : Type 0 where
  opened closed made freed : ResourceCall

-- What the function comes to: the bytes, or an exception with its text; or more bytes are written
-- than the buffer has room for.
pub data Loaded : Type 0 where
  der : List ℕ → Loaded
  failed : String → Loaded
  overran : Loaded

-- The bytes that `i2d_X509` writes to the front of a buffer of so many zeroes.
abbrev pub written_over : List ℕ → List ℕ → List ℕ
written_over [] buffer = buffer
written_over (byte ∷ rest) [] = []
written_over (byte ∷ rest) (old ∷ buffer) = byte ∷ written_over rest buffer

abbrev pub zeroes : ℕ → List ℕ
zeroes zero = []
zeroes (suc n) = 0 ∷ zeroes n

module _ (openssl : Openssl) where
  open openssl use {X509, open_file, read_x509, der_length, write_der}

  -- What is done with the certificate; `X509_free` follows in any case.
  unfoldable pub convert : X509 → Loaded
  convert cert =
      let n = der_length cert in
      let (m, bytes) = write_der cert in
      if is_neg n
      then failed "Failed to determine DER length"
      else if ltb (pos_part n) (length bytes)
      then overran
      else if not (int_eq m n)
      then failed "Failed to convert PEM to DER"
      else der (written_over bytes (zeroes (pos_part n)))

  unfoldable pub load_pem_cert_as_der : String → Loaded × List ResourceCall
  unfolding convert
  load_pem_cert_as_der pem_file_path = elim (open_file pem_file_path) [
    | none ↦ (failed "Failed to open PEM file", [])
    | some pem_file ↦ elim (read_x509 pem_file) [
      | none ↦ (failed "Failed to read PEM certificate", opened ∷ closed ∷ [])
      | some cert ↦ (convert cert, opened ∷ made ∷ closed ∷ freed ∷ [])
    ]
  ]
