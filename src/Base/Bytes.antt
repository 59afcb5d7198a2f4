-- ===== src/Base/Bytes.antt =====
-- Byte buffers: `memcpy` into a buffer at an offset, `memcmp` for equality.
use Prim.Native.Nat.{ℕ, zero, suc, ◌≤◌, ◌<◌}
use Prim.Native.Char.{code}
use Prim.Native.String.{String}
use mathlib.Core.Path.{◌≡◌, refl, ap}
use mathlib.Core.Bool.{Bool, true, false, ◌&&◌}
use mathlib.Core.List.{List, [], ◌∷◌, ◌++◌}
use native.Mathlib.Omega.{arith}
use quicsend.Base.Tests.{◌==◌}
use quicsend.Base.Lists.{length, take}

abbrev pub IsByte : ℕ → Type 0
IsByte b = b < 256

-- The buffer after `bytes` have been stored from `offset` on; nothing is stored past its end.
abbrev pub write_at : List ℕ → ℕ → List ℕ → List ℕ
write_at [] offset bytes = []
write_at (x ∷ xs) zero [] = x ∷ xs
write_at (x ∷ xs) zero (b ∷ bytes) = b ∷ write_at xs zero bytes
write_at (x ∷ xs) (suc offset) bytes = x ∷ write_at xs offset bytes

abbrev pub bytes_eq : List ℕ → List ℕ → Bool
bytes_eq [] [] = true
bytes_eq [] (y ∷ ys) = false
bytes_eq (x ∷ xs) [] = false
bytes_eq (x ∷ xs) (y ∷ ys) = (x == y) && bytes_eq xs ys

pub bytes_eq→eq : (xs ys : List ℕ) → bytes_eq xs ys ≡ true → xs ≡ ys
bytes_eq→eq [] [] h = refl
bytes_eq→eq [] (y ∷ ys) h = cc
bytes_eq→eq (x ∷ xs) [] h = cc
bytes_eq→eq (x ∷ xs) (y ∷ ys) h = ground (arith, bytes_eq→eq xs ys)

pub bytes_eq_refl : (xs : List ℕ) → bytes_eq xs xs ≡ true
bytes_eq_refl [] = refl
bytes_eq_refl (x ∷ xs) = ground (arith, bytes_eq_refl xs)

pub write_at_nil : (xs : List ℕ) (offset : ℕ) → write_at xs offset [] ≡ xs
write_at_nil [] offset = refl
write_at_nil (x ∷ xs) zero = refl
write_at_nil (x ∷ xs) (suc offset) = ap (◌∷◌ x) (write_at_nil xs offset)

write_at_start :
    (old bytes post : List ℕ)
    → length old ≡ length bytes
    → write_at (old ++ post) zero bytes ≡ bytes ++ post
write_at_start [] [] [] h = refl
write_at_start [] [] (x ∷ post) h = refl
write_at_start [] (b ∷ bytes) post h = absurd (omega arith)
write_at_start (x ∷ old) [] post h = absurd (omega arith)
write_at_start (x ∷ old) (b ∷ bytes) post h =
    ap (◌∷◌ b) (write_at_start old bytes post (omega arith))

-- A store replaces exactly the bytes that it covers.
pub write_at-append :
    (pre old bytes post : List ℕ) (offset : ℕ)
    → length pre ≡ offset
    → length old ≡ length bytes
    → write_at ((pre ++ old) ++ post) offset bytes ≡ (pre ++ bytes) ++ post
write_at-append [] old bytes post zero p h = write_at_start old bytes post h
write_at-append [] old bytes post (suc offset) p h = absurd (omega arith)
write_at-append (x ∷ pre) old bytes post zero p h = absurd (omega arith)
write_at-append (x ∷ pre) old bytes post (suc offset) p h =
    ap (◌∷◌ x) (write_at-append pre old bytes post offset (omega arith) h)

-- What was stored at the front is read back.
pub take-write_at :
    (xs bytes : List ℕ)
    → length bytes ≤ length xs
    → take (length bytes) (write_at xs zero bytes) ≡ bytes
take-write_at xs [] h = refl
take-write_at [] (b ∷ bytes) h = absurd (omega arith)
take-write_at (x ∷ xs) (b ∷ bytes) h = ap (◌∷◌ b) (take-write_at xs bytes (omega arith))

-- The bytes of a literal, which is ASCII.
abbrev pub codes : String → List ℕ
codes String.[] = []
codes (String.◌∷◌ c s) = code c ∷ codes s
