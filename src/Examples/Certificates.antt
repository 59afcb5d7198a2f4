-- ===== src/Examples/Certificates.antt =====
-- The certificate of a server, at a concrete input.
use quicsend.Base.{ℕ, ◌≡◌, refl, List, [], ◌∷◌, Bool, true, some, pos, length}
use quicsend.Certificates.{Openssl, load_pem_cert_as_der}
use quicsend.Certificates.Release.{
  DerLaws, Encoded, certificate, count, is_opened, is_closed, is_made, is_freed,
  load_pem_cert_as_der-releases,
}

-- A file system in which every file holds one certificate.
abbrev one_certificate : Openssl
one_certificate = record {
  File = Bool;
  X509 = List ℕ;
  open_file = λ path. some true;
  read_x509 = λ file. some (48 ∷ 3 ∷ []);
  der_length = λ cert. pos (length cert);
  write_der = λ cert. (pos (length cert), cert);
}

one_certificate-DerLaws : DerLaws one_certificate
one_certificate-DerLaws = record {
  encoding = λ cert. cert;
  length_of = λ cert. refl;
  writes = λ cert. refl;
}

load_pem_cert_as_der-releases_example :
    let (r, calls) = load_pem_cert_as_der one_certificate "cert.pem" in
    Encoded one_certificate one_certificate-DerLaws
      (certificate one_certificate one_certificate-DerLaws "cert.pem")
      r
    × (count is_closed calls ≡ count is_opened calls)
    × (count is_freed calls ≡ count is_made calls)
load_pem_cert_as_der-releases_example =
    load_pem_cert_as_der-releases one_certificate one_certificate-DerLaws "cert.pem"
