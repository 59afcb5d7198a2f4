-- ===== src/Asio/Concrete.antt =====
-- A concrete `Asio` of three endpoints, which meets `AsioLaws`: for the examples.
use quicsend.Base.{
  ℕ, refl, List, Bool, true, false, Option, none, some, arith, replicate, ◌==◌, if◌then◌else◌,
}
use quicsend.Asio.{Asio, AsioLaws}

pub data Host : Type 0 where
  alice bob carol : Host

abbrev host_is_v4 : Host → Bool
host_is_v4 alice = true
host_is_v4 bob = true
host_is_v4 carol = false

abbrev host_port : Host → ℕ
host_port alice = 4433
host_port bob = 50000
host_port carol = 4433

abbrev host_v4 : Host → Option ℕ
host_v4 alice = some 0x7f000001
host_v4 bob = some 0xc0a80001
host_v4 carol = none

abbrev host_v6 : Host → Option (List ℕ)
host_v6 alice = none
host_v6 bob = none
host_v6 carol = some (replicate 16 7)

abbrev pub hosts : Asio
hosts = record {
  Endpoint = Host;
  is_v4 = host_is_v4;
  port = host_port;
  to_v4 = host_v4;
  to_v6 = host_v6;
  from_v4 = λ a p. if a == 0x7f000001 then alice else bob;
  from_v6 = λ bytes p. carol;
}

pub hosts-AsioLaws : AsioLaws hosts
hosts-AsioLaws = record {
  v4_address = elim [
    | alice ↦ λ h. (0x7f000001, refl, omega arith)
    | bob ↦ λ h. (0xc0a80001, refl, omega arith)
    | carol ↦ λ h. absurd (ground arith)
  ];
  v6_address = elim [
    | alice ↦ λ h. absurd (ground arith)
    | bob ↦ λ h. absurd (ground arith)
    | carol ↦ λ h. (replicate 16 7, refl, refl)
  ];
  v4_only = elim [ alice ↦ λ h. refl | bob ↦ λ h. refl | carol ↦ λ h. ground arith ];
  v6_only = elim [ alice ↦ λ h. ground arith | bob ↦ λ h. ground arith | carol ↦ λ h. refl ];
  port_fits = elim [ alice ↦ omega arith | bob ↦ omega arith | carol ↦ omega arith ];
  from-to_v4 = elim [
    | alice ↦ λ a h. ground arith
    | bob ↦ λ a h. ground arith
    | carol ↦ λ a h. ground arith
  ];
  from-to_v6 = elim [
    | alice ↦ λ bytes h. ground arith
    | bob ↦ λ bytes h. ground arith
    | carol ↦ λ bytes h. refl
  ];
}
