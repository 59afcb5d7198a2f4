-- ===== src/Examples/Tokens.antt =====
-- Tokens, ids, words and addresses at concrete values.
use quicsend.Base.{ℕ, ◌≡◌, refl, inl, List, [], ◌∷◌, true, some, arith, replicate}
use quicsend.Wire.{write_uint16_le, read_uint16_le, write_uint32_le, read_uint32_le}
use quicsend.ConnectionId.{ConnectionId, IsValid, cid_eq}
use quicsend.Asio.Concrete.{Host, alice, bob, carol, hosts, hosts-AsioLaws}
use quicsend.Token
use quicsend.Token.{accepted, overrun, bad_address_cast, token_id, mint_token, read_token}
use quicsend.Token.Validation.{TokenOf, accepted_token}
use quicsend.Token.RoundTrip.{read-mint_token, mint_token-endpoint}
use quicsend.Token.Faults.{crafted, crafted-bad_address_cast}

abbrev short_id : ConnectionId
short_id = record { id = 4 ∷ 8 ∷ 15 ∷ 16 ∷ replicate 12 0; length = 4 }

-- The same bytes with others behind them.
abbrev same_id : ConnectionId
same_id = record { id = 4 ∷ 8 ∷ 15 ∷ 16 ∷ replicate 12 9; length = 4 }

abbrev blank : ConnectionId
blank = record { id = replicate 16 0; length = 16 }

short_id-IsValid : IsValid short_id
short_id-IsValid = record { sized = refl; within = omega arith }

blank-IsValid : IsValid blank
blank-IsValid = record { sized = refl; within = omega arith }

-- The token of alice, at 127.0.0.1:4433.
abbrev alice_token : List ℕ
alice_token = 0xdc ∷ 4 ∷ 1 ∷ 81 ∷ 17 ∷ 4 ∷ 8 ∷ 15 ∷ 16 ∷ 1 ∷ 0 ∷ 0 ∷ 127 ∷ []

alice_minted : mint_token hosts short_id alice ≡ some alice_token
unfolding mint_token write_uint16_le write_uint32_le
alice_minted = refl

abbrev restored_id : ConnectionId
restored_id = record { id = 4 ∷ 8 ∷ 15 ∷ 16 ∷ replicate 12 0; length = 4 }

alice_accepted : read_token hosts alice_token alice blank ≡ accepted restored_id
unfolding read_token read_uint16_le read_uint32_le
alice_accepted = refl

bob_refused : read_token hosts alice_token bob blank ≡ Token.rejected
unfolding read_token read_uint16_le
bob_refused = refl

accepted_token_example : TokenOf hosts alice restored_id alice_token
accepted_token_example =
    accepted_token hosts alice alice_token blank restored_id blank-IsValid (omega arith)
      alice_accepted

read-mint_token_example :
    (token : List ℕ) × (c : ConnectionId) × (mint_token hosts short_id carol ≡ some token)
    × (read_token hosts token carol blank ≡ accepted c)
    × (cid_eq c short_id ≡ true)
read-mint_token_example =
    read-mint_token hosts hosts-AsioLaws carol short_id blank short_id-IsValid blank-IsValid

mint_token-endpoint_example : ◌≡◌ {A = Host} alice alice
mint_token-endpoint_example =
    mint_token-endpoint hosts hosts-AsioLaws alice short_id blank restored_id alice_token alice
      short_id-IsValid alice_minted alice_accepted

crafted-bad_address_cast_example :
    read_token hosts (crafted hosts hosts-AsioLaws alice blank 4 0 (replicate 20 0xaa)) alice blank
    ≡ bad_address_cast
crafted-bad_address_cast_example =
    crafted-bad_address_cast hosts hosts-AsioLaws alice blank 4 0 (replicate 20 0xaa) (omega arith)
      (omega arith) (inl (refl, refl))
