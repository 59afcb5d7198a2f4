-- ===== src/Sockaddr/RoundTrip.antt =====
-- An endpoint survives the way through a socket address.
use quicsend.Base.{ℕ, ◌<◌, ◌^◌, ◌≡◌, refl, ap, ◌∙◌, inl, inr, some, arith, Bool-cases}
use quicsend.Asio.{Asio, AsioLaws}
use quicsend.Sockaddr.{
  Sockaddr, sockaddr_in, sockaddr_in6, sizeof_sockaddr_in, sizeof_sockaddr_in6, htons, ntohs,
  to_sockaddr, sockaddr_to_endpoint,
}

ntohs-htons : (p : ℕ) → p < 2 ^ 16 → ntohs (htons p) ≡ p
ntohs-htons p h = omega arith

-- Over endpoints that are of IPv4 or of IPv6, with a port of sixteen bits and addresses that are
-- read back from their bytes: to_sockaddr throws on no endpoint, and sockaddr_to_endpoint turns
-- what it returns into the endpoint.
pub sockaddr_to_endpoint-to_sockaddr :
    (asio : Asio) (laws : AsioLaws asio) (endpoint : asio.Endpoint)
    → (addr : Sockaddr) × (len : ℕ) × (to_sockaddr asio endpoint ≡ some (addr, len))
      × (sockaddr_to_endpoint asio addr len ≡ some endpoint)
unfolding to_sockaddr sockaddr_to_endpoint
sockaddr_to_endpoint-to_sockaddr asio laws endpoint =
    let port = ntohs-htons (asio.port endpoint) (laws.port_fits endpoint) in
    elim (Bool-cases (asio.is_v4 endpoint)) [
      | inl v4 ↦
          let (a, e, _) = laws.v4_address endpoint v4 in
          (
            sockaddr_in (htons (asio.port endpoint)) a,
            sizeof_sockaddr_in,
            rw (v4, e) refl,
            ap some (ap (asio.from_v4 a) port ∙ laws.from-to_v4 endpoint a e),
          )
      | inr v6 ↦
          let (bytes, e, _) = laws.v6_address endpoint v6 in
          (
            sockaddr_in6 (htons (asio.port endpoint)) bytes,
            sizeof_sockaddr_in6,
            rw (v6, e) refl,
            ap some (ap (asio.from_v6 bytes) port ∙ laws.from-to_v6 endpoint bytes e),
          )
    ]
