-- ===== src/ConnectionId.antt =====
-- src/quicsend_quiche.cpp, "Quiche Connection Id", and the struct in include/quicsend_quiche.hpp.
pub mod Laws
use quicsend.Base.{
  ℕ, ◌*◌, ◌≤◌, ◌≡◌, List, [], ◌∷◌, Bool, false, bit_xor, length, take, bytes_eq, map, ltb, ◌%◌,
  ◌==◌, if◌then◌else◌,
}
use quicsend.Wire.{u32}

abbrev pub local_conn_id_len : ℕ
local_conn_id_len = 16

-- `Id` is an array of `LOCAL_CONN_ID_LEN` bytes, of which the first `Length` count.
pub record ConnectionId : Type 0 where
  pub id : List ℕ
  pub length : ℕ

-- The array has its fixed size, and `Length` stays within it.
pub record IsValid (cid : ConnectionId) : Type 0 where
  pub sized : length cid.id ≡ local_conn_id_len
  pub within : cid.length ≤ local_conn_id_len

-- The bytes that `data()` and `Length` stand for.
abbrev pub bytes : ConnectionId → List ℕ
bytes cid = take cid.length cid.id

-- `operator==`: `memcmp` over the first `Length` bytes, after a comparison of the lengths.
unfoldable pub cid_eq : ConnectionId → ConnectionId → Bool
cid_eq a b =
    if a.length == b.length then bytes_eq (take a.length a.id) (take a.length b.id) else false

-- `memcmp` below zero: the first byte that differs is the smaller one.
unfoldable pub bytes_less : List ℕ → List ℕ → Bool
bytes_less [] ys = false
bytes_less (x ∷ xs) [] = false
bytes_less (x ∷ xs) (y ∷ ys) = if x == y then bytes_less xs ys else ltb x y

-- `operator<`: over as many bytes as the left id has.
unfoldable pub cid_less : ConnectionId → ConnectionId → Bool
unfolding bytes_less
cid_less a b = bytes_less (take a.length a.id) (take a.length b.id)

-- `Randomize`, with what the random device gives for each byte of the array.
unfoldable pub randomize : List ℕ → ConnectionId
randomize draws = record { id = map (λ draw. draw % 256) draws; length = local_conn_id_len }

hash_loop : ℕ → List ℕ → ℕ
hash_loop hash [] = hash
hash_loop hash (b ∷ rest) = hash_loop (u32 (bit_xor b hash * 0x01000193)) rest

-- `ConnectionIdHash`: FNV-1a over the first `Length` bytes, in 32 bits.
pub hash : ConnectionId → ℕ
unfolding hash_loop
hash cid = hash_loop 0x811c9dc5 (take cid.length cid.id)
