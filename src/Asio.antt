-- ===== src/Asio.antt =====
-- What the code uses of boost::asio, which is not part of the repository: the UDP endpoint.
-- `Asio` is the parameter of every definition that takes an endpoint, and `AsioLaws` is what the
-- theorems rely on: an endpoint is of one of the two families, and is determined by its family, its
-- address and its port.
pub mod Concrete
use quicsend.Base.{ℕ, ◌^◌, ◌<◌, ◌≡◌, List, Bool, true, false, Option, none, some, length}

pub record Asio : Type 1 where
  pub Endpoint : Type 0
  pub is_v4 : Endpoint → Bool
  pub port : Endpoint → ℕ
  -- `address().to_v4().to_ulong()` and `address().to_v6().to_bytes()`; `none` is the exception
  -- `bad_address_cast`, thrown at an address of the other family.
  pub to_v4 : Endpoint → Option ℕ
  pub to_v6 : Endpoint → Option (List ℕ)
  -- `endpoint(address_v4(address), port)` and `endpoint(address_v6(bytes), port)`.
  pub from_v4 : ℕ → ℕ → Endpoint
  pub from_v6 : List ℕ → ℕ → Endpoint

pub record AsioLaws (asio : Asio) : Type 0 where
  pub v4_address :
      (e : asio.Endpoint) → asio.is_v4 e ≡ true → (a : ℕ) × (asio.to_v4 e ≡ some a) × (a < 2 ^ 32)
  pub v6_address :
      (e : asio.Endpoint)
      → asio.is_v4 e ≡ false
      → (bytes : List ℕ) × (asio.to_v6 e ≡ some bytes) × (length bytes ≡ 16)
  pub v4_only : (e : asio.Endpoint) → asio.is_v4 e ≡ true → asio.to_v6 e ≡ none
  pub v6_only : (e : asio.Endpoint) → asio.is_v4 e ≡ false → asio.to_v4 e ≡ none
  pub port_fits : (e : asio.Endpoint) → asio.port e < 2 ^ 16
  pub from-to_v4 :
      (e : asio.Endpoint) (a : ℕ) → asio.to_v4 e ≡ some a → asio.from_v4 a (asio.port e) ≡ e
  pub from-to_v6 :
      (e : asio.Endpoint) (bytes : List ℕ)
      → asio.to_v6 e ≡ some bytes
      → asio.from_v6 bytes (asio.port e) ≡ e
