-- ===== src/Wire/RoundTrip.antt =====
-- The readers of the format take back what the format writes.
use pkcs11_proxy.Common.{
  ℕ, ◌/◌, ◌%◌, ◌^◌, ◌<◌, ◌≡◌, refl, Option, none, some, List, ◌++◌, length, length-append,
  take-append, drop-append, All, IsByte, arith,
}
use pkcs11_proxy.Wire.{and_then, be32, be64, array, read_be32, read_be64, read_array}

pub be32-IsByte : (v : ℕ) → All IsByte (be32 v)
be32-IsByte v = omega arith

pub read_be32-be32 :
    (v : ℕ) (rest : List ℕ) → v < 2 ^ 32 → read_be32 (be32 v ++ rest) ≡ some (v, rest)
unfolding read_be32
read_be32-be32 v rest h = ground arith

-- Only the low 32 bits are written.
pub read_be32_low : (v : ℕ) (rest : List ℕ) → read_be32 (be32 v ++ rest) ≡ some (v % 2 ^ 32, rest)
unfolding read_be32
read_be32_low v rest = ground arith

pub read_be64-be64 :
    (v : ℕ) (rest : List ℕ) → v < 2 ^ 64 → read_be64 (be64 v ++ rest) ≡ some (v, rest)
unfolding read_be64 and_then
read_be64-be64 v rest h =
    ground (arith, read_be32-be32 (v / 2 ^ 32) (be32 v ++ rest), read_be32_low v rest)

pub read_array-array :
    (xs : Option (List ℕ)) (rest : List ℕ)
    → ((l : List ℕ) → xs ≡ some l → length l < 0x7fff_ffff)
    → read_array (array xs ++ rest) ≡ some (xs, rest)
unfolding read_array and_then read_be32
read_array-array none rest h = refl
read_array-array (some xs) rest h =
    let short = h xs refl in
    ground (
      arith,
      take-append xs rest (length xs) refl,
      drop-append xs rest (length xs) refl,
      length-append xs rest,
      read_be32-be32 (length xs) (xs ++ rest) (omega arith),
    )
