-- ===== src/Buffer/Arrays.antt =====
-- egg-buffer.c: arrays of bytes behind their length. The length 0xffffffff stands for NULL.
use pkcs11_proxy.Common.{
  ℕ, Bool, false, Option, none, some, List, length, take, drop, leb, ◌==◌, if◌then◌else◌, add_size,
}
use pkcs11_proxy.Buffer.{Buffer, fail, and_next, append, add_empty}
use pkcs11_proxy.Buffer.Ints.{add_uint32, get_uint32, out_of_range}

abbrev pub null_length : ℕ
null_length = 0xffff_ffff

-- Lengths from here on are refused.
abbrev pub length_limit : ℕ
length_limit = 0x7fff_ffff

unfoldable pub add_byte_array : Buffer → Option (List ℕ) → Buffer × Bool
add_byte_array b none = add_uint32 b null_length
add_byte_array b (some val) =
    if leb length_limit (length val)
    then (fail b, false)
    else let (b', done) = add_uint32 b (length val) in if done then append b' val else (b', false)

unfoldable pub add_byte_array_empty : Buffer → ℕ → Buffer × Option ℕ
add_byte_array_empty b vlen =
    if leb length_limit vlen
    then (fail b, none)
    else let (b', done) = add_uint32 b vlen in if done then add_empty b' vlen else (b', none)

-- The bytes that `*val` points to, `*vlen` of them; `none` is NULL, with the length 0.
unfoldable pub get_byte_array : Buffer → ℕ → Buffer × Option (Option (List ℕ) × ℕ)
get_byte_array b offset = and_next (get_uint32 b offset) λ b' len start.
    if len == null_length
    then (b', some (none, start))
    else if leb length_limit len
    then (fail b', none)
    else if out_of_range b' start len
    then (fail b', none)
    else (b', some (some (take len (drop start b'.buf)), add_size start len))
