-- ===== src/Buffer/Unread.antt =====
-- The bytes of a buffer behind an offset, and how the C code's index arithmetic finds them.
use native.Mathlib.Numerals.{unary_clauses}
use pkcs11_proxy.Common.{
  ℕ, zero, suc, ◌+◌, ◌-◌, ◌*◌, ◌%◌, ◌^◌, ◌≤◌, ◌<◌, ◌≡◌, refl, ap, ◌∙◌, bit_or, List, [], ◌∷◌,
  length, length-drop, take, take-take, drop, drop_nil, some, get_or, All, IsByte, arith,
}
use pkcs11_proxy.Common.Bits.{bit_or_shifted}
use pkcs11_proxy.Wire.{read_be32}
use pkcs11_proxy.Buffer.{Buffer}
use pkcs11_proxy.Buffer.Ints.{decode_uint32}
use pkcs11_proxy.Buffer.Inv.{IsValid, contents}
use pkcs11_proxy.Buffer.Wrote.{length-contents}

abbrev pub unread : Buffer → ℕ → List ℕ
unread b offset = drop offset (contents b)

module _ {ℓ} {A : Type ℓ} where
  drop_cons :
      (xs : List A) (i : ℕ) (d : A) → i < length xs → drop i xs ≡ get_or xs i d ∷ drop (suc i) xs
  drop_cons [] i d h = absurd (omega arith)
  drop_cons (x ∷ xs) zero d h = refl
  drop_cons (x ∷ xs) (suc i) d h = drop_cons xs i d (omega arith)

  drop_all : (xs : List A) (i : ℕ) → length xs ≤ i → drop i xs ≡ []
  drop_all [] i h = drop_nil i
  drop_all (x ∷ xs) zero h = absurd (omega arith)
  drop_all (x ∷ xs) (suc i) h = drop_all xs i (omega arith)

  get_or-take : (xs : List A) (n i : ℕ) (d : A) → i < n → get_or (take n xs) i d ≡ get_or xs i d
  get_or-take xs zero i d h = absurd (omega arith)
  get_or-take [] (suc n) i d h = refl
  get_or-take (x ∷ xs) (suc n) zero d h = refl
  get_or-take (x ∷ xs) (suc n) (suc i) d h = get_or-take xs n i d (omega arith)

  get_or-drop : (xs : List A) (n i : ℕ) (d : A) → get_or (drop n xs) i d ≡ get_or xs (n + i) d
  get_or-drop xs zero i d = let e : i ≡ zero + i = omega arith in ap (λ k. get_or xs k d) e
  get_or-drop [] (suc n) i d = refl
  get_or-drop (x ∷ xs) (suc n) i d =
      let e : suc (n + i) ≡ suc n + i = omega arith in
      get_or-drop xs n i d ∙ ap (λ k. get_or (x ∷ xs) k d) e

  take-drop-take :
      (xs : List A) (i n m : ℕ) → i + n ≤ m → take n (drop i (take m xs)) ≡ take n (drop i xs)
  take-drop-take xs zero n m h = take-take n m xs (omega arith)
  take-drop-take xs (suc i) n zero h = absurd (omega arith)
  take-drop-take [] (suc i) n (suc m) h = refl
  take-drop-take (x ∷ xs) (suc i) n (suc m) h = take-drop-take xs i n m (omega arith)

pub get_or-IsByte : (xs : List ℕ) (i : ℕ) → All IsByte xs → IsByte (get_or xs i 0)
get_or-IsByte [] i h = omega arith
get_or-IsByte (x ∷ xs) zero h = h.0
get_or-IsByte (x ∷ xs) (suc i) h = get_or-IsByte xs i h.1

module _ {b : Buffer} (v : IsValid b) where
  pub length-unread : (offset : ℕ) → length (unread b offset) ≡ b.len - offset
  length-unread offset = omega (arith, length-drop offset (contents b), length-contents v)

  pub unread_end : (offset : ℕ) → b.len ≤ offset → unread b offset ≡ []
  unread_end offset h = drop_all (contents b) offset (omega (arith, length-contents v))

  pub unread_byte :
      (offset : ℕ)
      → offset < b.len
      → unread b offset ≡ get_or b.buf offset 0 ∷ unread b (suc offset)
  unread_byte offset h =
      drop_cons (contents b) offset 0 (omega (arith, length-contents v))
      ∙ ap (λ x. x ∷ unread b (suc offset)) (get_or-take b.buf b.len offset 0 h)

-- Four bytes joined by shifts and `|` are the number in base 256.
join_bytes :
    (p q r s : ℕ)
    → IsByte p
    → IsByte q
    → IsByte r
    → IsByte s
    → bit_or (bit_or (bit_or (p * 2 ^ 24) (q * 2 ^ 16)) (r * 2 ^ 8)) s % 2 ^ 32
      ≡ p * 2 ^ 24 + q * 2 ^ 16 + r * 2 ^ 8 + s
join_bytes p q r s hp hq hr hs =
    let two : bit_or (p * 2 ^ 24) (q * 2 ^ 16) ≡ (p * 2 ^ 8 + q) * 2 ^ 16 =
      bit_or_shifted 24 p (q * 2 ^ 16) (omega arith) ∙ omega arith in
    let three : bit_or ((p * 2 ^ 8 + q) * 2 ^ 16) (r * 2 ^ 8)
        ≡ ((p * 2 ^ 8 + q) * 2 ^ 8 + r) * 2 ^ 8 =
      bit_or_shifted 16 (p * 2 ^ 8 + q) (r * 2 ^ 8) (omega arith) ∙ omega arith in
    let four = bit_or_shifted 8 ((p * 2 ^ 8 + q) * 2 ^ 8 + r) s (omega arith) in
    rw (two, three, four) (omega arith)

pub decode_uint32_lem :
    (xs : List ℕ)
    → All IsByte xs
    → decode_uint32 xs
      ≡ get_or xs 0 0 * 2 ^ 24 + get_or xs 1 0 * 2 ^ 16 + get_or xs 2 0 * 2 ^ 8 + get_or xs 3 0
unfolding decode_uint32
decode_uint32_lem xs h =
    join_bytes (get_or xs 0 0) (get_or xs 1 0) (get_or xs 2 0) (get_or xs 3 0)
      (get_or-IsByte xs 0 h) (get_or-IsByte xs 1 h) (get_or-IsByte xs 2 h) (get_or-IsByte xs 3 h)

All-drop : (xs : List ℕ) (n : ℕ) → All IsByte xs → All IsByte (drop n xs)
All-drop xs zero h = h
All-drop [] (suc n) h = tt
All-drop (x ∷ xs) (suc n) h = All-drop xs n h.1

All-take : (xs : List ℕ) (n : ℕ) → All IsByte xs → All IsByte (take n xs)
All-take xs zero h = tt
All-take [] (suc n) h = tt
All-take (x ∷ xs) (suc n) h = (h.0, All-take xs n h.1)

pub unread-IsByte : {b : Buffer} → IsValid b → (offset : ℕ) → All IsByte (unread b offset)
unread-IsByte {b} v offset = All-drop (contents b) offset (All-take b.buf b.len v.bytes)

-- What lies inside the data is the same in the block.
pub take-unread :
    (b : Buffer) (offset n : ℕ)
    → offset + n ≤ b.len
    → take n (unread b offset) ≡ take n (drop offset b.buf)
take-unread b offset n h = take-drop-take b.buf offset n b.len h

-- A field of four bytes that lies inside the data.
pub unread_word :
    {b : Buffer}
    → IsValid b
    → (offset : ℕ) → offset + 4 ≤ b.len
    → read_be32 (unread b offset) ≡ some (decode_uint32 (drop offset b.buf), unread b (offset + 4))
unfolding read_be32
unread_word {b} v offset h =
    rw
      (
        unread_byte v offset (omega arith),
        unread_byte v (suc offset) (omega arith),
        unread_byte v (suc (suc offset)) (omega arith),
        unread_byte v (suc (suc (suc offset))) (omega arith),
        decode_uint32_lem (drop offset b.buf) (All-drop b.buf offset v.bytes),
        get_or-drop b.buf offset 0 0,
        get_or-drop b.buf offset 1 0,
        get_or-drop b.buf offset 2 0,
        get_or-drop b.buf offset 3 0,
      )
      (simp unary_clauses)
