-- ===== src/Buffer/Ints.antt =====
-- egg-buffer.c: numbers of 16, 32 and 64 bits in network byte order.
use pkcs11_proxy.Common.{
  ℕ, ◌-◌, ◌*◌, ◌/◌, ◌%◌, ◌^◌, bit_and, bit_or, Bool, true, false, ◌||◌, Option, none, some, List,
  [], ◌∷◌, get_or, drop, write_at, ltb, if◌then◌else◌, add_size, sub_size,
}
use pkcs11_proxy.Buffer.{Buffer, fail, and_next, reserve}

-- The bytes that the function stores at its pointer.
unfoldable pub encode_uint16 : ℕ → List ℕ
encode_uint16 val = bit_and (val / 2 ^ 8) 0xff ∷ bit_and val 0xff ∷ []

unfoldable pub decode_uint16 : List ℕ → ℕ
decode_uint16 ptr = bit_or (get_or ptr 0 0 * 2 ^ 8) (get_or ptr 1 0) % 2 ^ 16

unfoldable pub encode_uint32 : ℕ → List ℕ
encode_uint32 val =
    bit_and (val / 2 ^ 24) 0xff
    ∷ bit_and (val / 2 ^ 16) 0xff
    ∷ bit_and (val / 2 ^ 8) 0xff
    ∷ bit_and val 0xff
    ∷ []

unfoldable pub decode_uint32 : List ℕ → ℕ
decode_uint32 ptr =
    bit_or
      (bit_or (bit_or (get_or ptr 0 0 * 2 ^ 24) (get_or ptr 1 0 * 2 ^ 16)) (get_or ptr 2 0 * 2 ^ 8))
      (get_or ptr 3 0)
    % 2 ^ 32

-- The bounds test of a field of `n` bytes: does it end behind the data?
abbrev pub out_of_range : Buffer → ℕ → ℕ → Bool
out_of_range b offset n = ltb b.len n || ltb (b.len - n) offset

-- `encode` at `buffer->buf + offset`
abbrev pub set_field : Buffer → ℕ → List ℕ → Buffer × Bool
set_field b offset bytes = (record b { buf = write_at b.buf offset bytes }, true)

unfoldable pub set_uint16 : Buffer → ℕ → ℕ → Buffer × Bool
set_uint16 b offset val =
    if out_of_range b offset 2 then (fail b, false) else set_field b offset (encode_uint16 val)

unfoldable pub set_uint32 : Buffer → ℕ → ℕ → Buffer × Bool
set_uint32 b offset val =
    if out_of_range b offset 4 then (fail b, false) else set_field b offset (encode_uint32 val)

-- The answer of `set_uint16` is not looked at.
unfoldable pub add_uint16 : Buffer → ℕ → Buffer × Bool
add_uint16 b val =
    let (b', done) = reserve b (add_size b.len 2) in
    if done
    then (let grown = record b' { len = add_size b'.len 2 } in
        ((set_uint16 grown (sub_size grown.len 2) val).0, true))
    else (b', false)

unfoldable pub add_uint32 : Buffer → ℕ → Buffer × Bool
add_uint32 b val =
    let (b', done) = reserve b (add_size b.len 4) in
    if done
    then (let grown = record b' { len = add_size b'.len 4 } in
        ((set_uint32 grown (sub_size grown.len 4) val).0, true))
    else (b', false)

unfoldable pub get_uint16 : Buffer → ℕ → Buffer × Option (ℕ × ℕ)
get_uint16 b offset =
    if out_of_range b offset 2
    then (fail b, none)
    else (b, some (decode_uint16 (drop offset b.buf), add_size offset 2))

unfoldable pub get_uint32 : Buffer → ℕ → Buffer × Option (ℕ × ℕ)
get_uint32 b offset =
    if out_of_range b offset 4
    then (fail b, none)
    else (b, some (decode_uint32 (drop offset b.buf), add_size offset 4))

unfoldable pub add_uint64 : Buffer → ℕ → Buffer × Bool
add_uint64 b val =
    let (b', done) = add_uint32 b (bit_and (val / 2 ^ 32) 0xffff_ffff) in
    if done then add_uint32 b' (bit_and val 0xffff_ffff) else (b', false)

-- `next_offset` is set at the end only: a number cut in half moves nothing.
unfoldable pub get_uint64 : Buffer → ℕ → Buffer × Option (ℕ × ℕ)
get_uint64 b offset = and_next (get_uint32 b offset) λ b' hi middle.
    and_next (get_uint32 b' middle)
      λ b'' lo next. (b'', some (bit_or (hi * 2 ^ 32 % 2 ^ 64) lo, next))
