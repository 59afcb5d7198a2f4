-- ===== src/Sockaddr.antt =====
-- src/quicsend_quiche.cpp, "Socket address conversion".
pub mod RoundTrip
use quicsend.Base.{
  ℕ, ◌+◌, ◌*◌, ◌/◌, ◌%◌, List, Bool, true, false, Option, none, some, ltb, if◌then◌else◌,
}
use quicsend.Asio.{Asio}

-- What a `sockaddr_storage` holds: the family, and the port and address fields as they are stored.
pub data Sockaddr : Type 0 where
  sockaddr_in : ℕ → ℕ → Sockaddr
  sockaddr_in6 : ℕ → List ℕ → Sockaddr
  other_family : Sockaddr

abbrev pub sizeof_sockaddr_in : ℕ
sizeof_sockaddr_in = 16

abbrev pub sizeof_sockaddr_in6 : ℕ
sizeof_sockaddr_in6 = 28

-- `htons` and `ntohs` on a little-endian machine: the two bytes change places.
abbrev pub htons : ℕ → ℕ
htons p = p % 256 * 256 + p / 256 % 256

abbrev pub ntohs : ℕ → ℕ
ntohs p = p % 256 * 256 + p / 256 % 256

module _ (asio : Asio) where
  open asio use {Endpoint, is_v4, port, to_v4, to_v6, from_v4, from_v6}

  -- The pair of the storage and its size; `none` is the exception `bad_address_cast`.
  unfoldable pub to_sockaddr : Endpoint → Option (Sockaddr × ℕ)
  to_sockaddr endpoint =
      if is_v4 endpoint
      then elim (to_v4 endpoint) [
        | none ↦ none
        | some addr ↦ some (sockaddr_in (htons (port endpoint)) addr, sizeof_sockaddr_in)
      ]
      else elim (to_v6 endpoint) [
        | none ↦ none
        | some bytes ↦ some (sockaddr_in6 (htons (port endpoint)) bytes, sizeof_sockaddr_in6)
      ]

  -- `none` is the exception `std::runtime_error`.
  unfoldable pub sockaddr_to_endpoint : Sockaddr → ℕ → Option Endpoint
  sockaddr_to_endpoint (sockaddr_in sin_port s_addr) len =
      if ltb len sizeof_sockaddr_in then none else some (from_v4 s_addr (ntohs sin_port))
  sockaddr_to_endpoint (sockaddr_in6 sin6_port s6_addr) len =
      if ltb len sizeof_sockaddr_in6 then none else some (from_v6 s6_addr (ntohs sin6_port))
  sockaddr_to_endpoint other_family len = none
