-- ===== src/Buffer/Readers.antt =====
-- The readers of egg-buffer.c against the readers of the wire format: a bounds-checked read at an
-- offset is a parse of the bytes behind it, and every refusal counts one failure and moves nothing.
use pkcs11_proxy.Common.{
  ℕ, suc, ◌+◌, ◌-◌, ◌*◌, ◌%◌, ◌^◌, ◌≤◌, ◌<◌, ◌≡◌, refl, sym, ap, inl, inr, bit_or, ◌||◌, Bool-cases,
  Option, none, some, List, [], ◌∷◌, length, take, drop, drop-drop, ltb, leb, ◌==◌, if◌then◌else◌,
  add_size, All, IsByte, arith,
}
use pkcs11_proxy.Common.Bits.{bit_or_shifted}
use pkcs11_proxy.Wire.{and_then, read_byte, read_be32, read_be64, read_array}
use pkcs11_proxy.Buffer.{Buffer, fail, and_next, get_byte}
use pkcs11_proxy.Buffer.Ints.{get_uint32, get_uint64, out_of_range}
use pkcs11_proxy.Buffer.Arrays.{get_byte_array, null_length, length_limit}
use pkcs11_proxy.Buffer.Inv.{IsValid, contents}
use pkcs11_proxy.Buffer.Unread.{
  unread, length-unread, unread-IsByte, take-unread, unread_end, unread_byte, unread_word,
}

-- `result` is what a reader of the buffer returns where the format reads `parsed` behind the offset.
abbrev pub Reads : {A : Type 0} → Buffer → Option (A × List ℕ) → Buffer × Option (A × ℕ) → Type 0
Reads b none result = result ≡ (fail b, none)
Reads b (some (x, rest)) result =
    (next : ℕ) × (result ≡ (b, some (x, next))) × (unread b next ≡ rest) × (next ≤ b.len)

read_be32_short : (l : List ℕ) → length l < 4 → read_be32 l ≡ none
unfolding read_be32
read_be32_short [] h = refl
read_be32_short (x ∷ []) h = refl
read_be32_short (x ∷ y ∷ []) h = refl
read_be32_short (x ∷ y ∷ z ∷ []) h = refl
read_be32_short (x ∷ y ∷ z ∷ w ∷ l) h = absurd (omega arith)

read_be32-lt :
    (l : List ℕ) (x : ℕ) (rest : List ℕ) → All IsByte l → read_be32 l ≡ some (x, rest) → x < 2 ^ 32
unfolding read_be32
read_be32-lt [] x rest h e = cc
read_be32-lt (p ∷ []) x rest h e = cc
read_be32-lt (p ∷ q ∷ []) x rest h e = cc
read_be32-lt (p ∷ q ∷ r ∷ []) x rest h e = cc
read_be32-lt (p ∷ q ∷ r ∷ s ∷ l) x rest h e = ground arith

-- The two halves of 64 bits joined by `|`.
join_words :
    (hi lo : ℕ) → hi < 2 ^ 32 → lo < 2 ^ 32 → bit_or (hi * 2 ^ 32 % 2 ^ 64) lo ≡ hi * 2 ^ 32 + lo
join_words hi lo h k =
    let whole : hi * 2 ^ 32 % 2 ^ 64 ≡ hi * 2 ^ 32 = omega arith in
    rw whole (bit_or_shifted 32 hi lo k)

-- A read in two parts is a parse in two parts.
pub Reads-bind :
    {A B : Type 0} (b : Buffer) (p : Option (A × List ℕ)) (r : Buffer × Option (A × ℕ))
    (k : A → List ℕ → Option (B × List ℕ)) (k' : Buffer → A → ℕ → Buffer × Option (B × ℕ))
    → Reads b p r
    → ((x : A) (rest : List ℕ) (next : ℕ)
        → p ≡ some (x, rest)
        → unread b next ≡ rest
        → next ≤ b.len
        → Reads b (k x rest) (k' b x next))
    → Reads b (and_then p k) (and_next r k')
unfolding and_then and_next
Reads-bind b none r k k' h f = rw h
Reads-bind b (some (x, rest)) r k k' (next, e, same, le) f = rw e (f x rest next refl same le)

module _ {b : Buffer} (v : IsValid b) where
  -- In a valid buffer `egg_buffer_get_byte` reads the byte at the offset and moves one on; where no
  -- byte is left it counts a failure and moves nothing.
  pub get_byte-Reads : (offset : ℕ) → Reads b (read_byte (unread b offset)) (get_byte b offset)
  unfolding get_byte read_byte
  get_byte-Reads offset = elim (Bool-cases (ltb b.len 1 || ltb (b.len - 1) offset)) [
    | inl out ↦ rw (unread_end v offset (ground arith)) (rw out)
    | inr inside ↦
        rw (unread_byte v offset (ground arith)) (suc offset, ground arith, refl, ground arith)
  ]

  -- In a valid buffer `egg_buffer_get_uint32` reads what the wire format reads from the bytes
  -- behind the offset, and moves to the bytes that the format leaves; where the format reads
  -- nothing it counts one failure and moves nothing.
  pub get_uint32-Reads : (offset : ℕ) → Reads b (read_be32 (unread b offset)) (get_uint32 b offset)
  unfolding get_uint32
  get_uint32-Reads offset = elim (Bool-cases (out_of_range b offset 4)) [
    | inl out ↦
        rw (read_be32_short (unread b offset) (ground (arith, length-unread v offset))) (rw out)
    | inr inside ↦
        rw (unread_word v offset (ground arith)) (offset + 4, ground arith, refl, ground arith)
  ]

  -- In a valid buffer `egg_buffer_get_uint64` reads what the wire format reads from the bytes
  -- behind the offset, and moves to the bytes that the format leaves; where the format reads
  -- nothing it counts one failure and moves nothing.
  pub get_uint64-Reads : (offset : ℕ) → Reads b (read_be64 (unread b offset)) (get_uint64 b offset)
  unfolding get_uint64 read_be64
  get_uint64-Reads offset =
      Reads-bind b (read_be32 (unread b offset)) _ _ _ (get_uint32-Reads offset)
        λ hi rest middle e same le. rw (← same) (
          Reads-bind b (read_be32 (unread b middle)) _ _ _ (get_uint32-Reads middle)
            λ lo rest' next f same' le'. (
              next,
              ap (λ x. (b, some (x, next)))
                  (join_words hi lo (read_be32-lt _ hi rest (unread-IsByte v offset) e)
                    (read_be32-lt _ lo rest' (unread-IsByte v middle) f)),
              same',
              le',
            ))

  out_of_range_eq :
      (n start : ℕ) → start ≤ b.len → out_of_range b start n ≡ ltb (length (unread b start)) n
  out_of_range_eq n start le = ground (arith, length-unread v start)

  -- The array behind its length.
  array_tail :
      (n start : ℕ)
      → start ≤ b.len
      → Reads b
          (if n == null_length
            then some (none, unread b start)
            else if leb length_limit n
            then none
            else if ltb (length (unread b start)) n
            then none
            else some (some (take n (unread b start)), drop n (unread b start)))
          (if n == null_length
            then (b, some (none, start))
            else if leb length_limit n
            then (fail b, none)
            else if out_of_range b start n
            then (fail b, none)
            else (b, some (some (take n (drop start b.buf)), add_size start n)))
  array_tail n start le = elim (Bool-cases (n == null_length)) [
    | inl null ↦ rw null (start, refl, refl, le)
    | inr there ↦ elim (Bool-cases (leb length_limit n)) [
      | inl long ↦ rw (there, long)
      | inr short ↦ elim (Bool-cases (ltb (length (unread b start)) n)) [
        | inl cut ↦ rw (there, short, out_of_range_eq n start le, cut)
        | inr whole ↦
            let inside : start + n ≤ b.len = ground (arith, length-unread v start) in
            let size : add_size start n ≡ start + n = omega (arith, v.fits, v.bounded) in
            rw (there, short, out_of_range_eq n start le, whole, take-unread b start n inside, size)
              (start + n, refl, sym (drop-drop n start (contents b)), inside)
      ]
    ]
  ]

  -- In a valid buffer `egg_buffer_get_byte_array` reads what the wire format reads from the bytes
  -- behind the offset, NULL included, and moves to the bytes that the format leaves; where the
  -- format reads nothing (the length or the bytes are cut off, or the length is 2 ^ 31 - 1 or more
  -- and not that of NULL) it counts one failure and moves nothing.
  pub get_byte_array-Reads :
      (offset : ℕ) → Reads b (read_array (unread b offset)) (get_byte_array b offset)
  unfolding get_byte_array read_array
  get_byte_array-Reads offset =
      Reads-bind b (read_be32 (unread b offset)) _ _ _ (get_uint32-Reads offset)
        λ n rest start e same le. rw (← same) (array_tail n start le)
