-- ===== src/ConnectionId/Laws.antt =====
-- What `std::unordered_map<ConnectionId, …, ConnectionIdHash>` needs of `operator==` and of the hash.
use quicsend.Base.{
  ℕ, ◌^◌, ◌<◌, ◌≡◌, ap, ◌↔◌, List, [], ◌∷◌, true, false, refl, arith, take, bytes_eq→eq,
  bytes_eq_refl,
}
use quicsend.ConnectionId.{ConnectionId, bytes, cid_eq, bytes_less, cid_less, hash, hash_loop}

-- operator== holds of two connection ids exactly when they have the same length and the same
-- bytes.
pub cid_eq_iff :
    (a b : ConnectionId) → (cid_eq a b ≡ true) ↔ ((a.length ≡ b.length) × (bytes a ≡ bytes b))
unfolding cid_eq
cid_eq_iff a b = ground (
  arith,
  bytes_eq→eq (take a.length a.id) (take a.length b.id),
  bytes_eq_refl (take a.length a.id),
)

-- Connection ids that operator== holds for equal have equal hashes, as the unordered map needs
-- it.
pub hash-cid_eq : (a b : ConnectionId) → cid_eq a b ≡ true → hash a ≡ hash b
unfolding hash
hash-cid_eq a b h = ap (hash_loop 0x811c9dc5) ((cid_eq_iff a b).0 h).1

hash_loop-lt : (bs : List ℕ) (h : ℕ) → h < 2 ^ 32 → hash_loop h bs < 2 ^ 32
unfolding hash_loop
hash_loop-lt [] h p = p
hash_loop-lt (b ∷ bs) h p = hash_loop-lt bs _ (omega arith)

-- The hash of a connection id is below 2 ^ 32.
pub hash-lt : (a : ConnectionId) → hash a < 2 ^ 32
unfolding hash
hash-lt a = hash_loop-lt (bytes a) _ (omega arith)

less_self : (xs : List ℕ) → bytes_less xs xs ≡ false
unfolding bytes_less
less_self [] = refl
less_self (x ∷ xs) = ground (arith, less_self xs)

-- The order does not tell apart two ids of which one continues the other.
pub cid_less_of_prefix :
    (a b : ConnectionId) → take a.length a.id ≡ take a.length b.id → cid_less a b ≡ false
unfolding cid_less
cid_less_of_prefix a b h = rw h (less_self (take a.length b.id))
