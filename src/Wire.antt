-- ===== src/Wire.antt =====
-- The wire format as a description of its own: what each kind of value is written as, and a reader of
-- plain byte lists for each. The C code of egg-buffer.c is compared with it.
pub mod RoundTrip
use pkcs11_proxy.Common.{
  ℕ, ◌+◌, ◌-◌, ◌*◌, ◌/◌, ◌%◌, ◌^◌, Bool, true, false, Option, none, some, List, [], ◌∷◌, ◌++◌,
  length, take, drop, ltb, leb, ◌==◌, if◌then◌else◌,
}

-- Big-endian numbers of two, four and eight bytes.
abbrev pub be16 : ℕ → List ℕ
be16 v = (v / 256 % 256) ∷ (v % 256) ∷ []

abbrev pub be32 : ℕ → List ℕ
be32 v = (v / 2 ^ 24 % 256) ∷ (v / 2 ^ 16 % 256) ∷ (v / 2 ^ 8 % 256) ∷ (v % 256) ∷ []

abbrev pub be64 : ℕ → List ℕ
be64 v = be32 (v / 2 ^ 32) ++ be32 v

-- Bytes behind their number; NULL as the number 0xffffffff alone.
abbrev pub array : Option (List ℕ) → List ℕ
array none = be32 0xffff_ffff
array (some xs) = be32 (length xs) ++ xs

-- A reader returns the value and the bytes behind it.
abbrev pub Reader : Type 0 → Type 0
Reader A = List ℕ → Option (A × List ℕ)

unfoldable pub read_byte : Reader ℕ
read_byte [] = none
read_byte (x ∷ rest) = some (x, rest)

unfoldable pub read_be16 : Reader ℕ
read_be16 [] = none
read_be16 (x ∷ []) = none
read_be16 (x ∷ y ∷ rest) = some (x * 256 + y, rest)

unfoldable pub read_be32 : Reader ℕ
read_be32 [] = none
read_be32 (x ∷ []) = none
read_be32 (x ∷ y ∷ []) = none
read_be32 (x ∷ y ∷ z ∷ []) = none
read_be32 (x ∷ y ∷ z ∷ w ∷ rest) = some (x * 2 ^ 24 + y * 2 ^ 16 + z * 2 ^ 8 + w, rest)

-- The rest is read only if the first part was there.
unfoldable pub and_then :
    {A B : Type 0} → Option (A × List ℕ) → (A → List ℕ → Option (B × List ℕ)) → Option (B × List ℕ)
and_then none k = none
and_then (some (x, rest)) k = k x rest

unfoldable pub read_be64 : Reader ℕ
read_be64 bytes =
    and_then (read_be32 bytes)
      λ hi rest. and_then (read_be32 rest) λ lo rest'. some (hi * 2 ^ 32 + lo, rest')

unfoldable pub read_array : Reader (Option (List ℕ))
read_array bytes = and_then (read_be32 bytes) λ n rest.
    if n == 0xffff_ffff
    then some (none, rest)
    else if leb 0x7fff_ffff n
    then none
    else if ltb (length rest) n
    then none
    else some (some (take n rest), drop n rest)
