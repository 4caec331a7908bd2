-- ===== src/Message/Write.antt =====
-- gck-rpc-message.c: the writers of values. Each first checks that the signature has the value's letters
-- next, and most look at the failure count of the buffer only when all is written.
use pkcs11_proxy.Common.{
  ℕ, ◌+◌, ◌-◌, ◌*◌, ◌/◌, ◌%◌, ◌^◌, bit_or, Bool, true, false, not, ◌&&◌, Option, none, some, List,
  [], ◌∷◌, take, ltb, ◌==◌, if◌then◌else◌, to_u32, Outcome, done, ◌>>=◌, ◌>>◌, assert,
}
use pkcs11_proxy.Pkcs11.{Attribute, Version}
use pkcs11_proxy.Util.{has_bad_sized_ulong_parameter}
use pkcs11_proxy.Buffer.{Buffer, has_error, add_byte}
use pkcs11_proxy.Buffer.Ints.{add_uint32, add_uint64}
use pkcs11_proxy.Buffer.Arrays.{add_byte_array}
use pkcs11_proxy.Message.{Message, check_part}

-- The answer of the buffer's writer is the answer.
abbrev pub put : Message → Buffer × Bool → Message × Bool
put msg (b, ok) = (record msg { buffer = b }, ok)

-- The answer is `!egg_buffer_has_error (&msg->buffer)`.
abbrev pub put_all : Message → Buffer → Message × Bool
put_all msg b = (record msg { buffer = b }, not (has_error b))

abbrev pub is_null : {A : Type 0} → Option A → Bool
is_null none = true
is_null (some _) = false

unfoldable pub write_byte : Message → ℕ → Outcome (Message × Bool)
write_byte msg val = do m ← check_part "y" msg; done (put m (add_byte m.buffer val))

unfoldable pub write_ulong : Message → ℕ → Outcome (Message × Bool)
write_ulong msg val = do m ← check_part "u" msg; done (put m (add_uint64 m.buffer val))

-- GCK_RPC_BYTE_BUFFER_NULL_DATA and GCK_RPC_BYTE_BUFFER_NULL_COUNT
abbrev pub null_data : ℕ
null_data = 1

abbrev pub null_count : ℕ
null_count = 2

abbrev pub flags_of : Bool → Bool → ℕ
flags_of no_data no_count =
    bit_or (if no_data then null_data else 0) (if no_count then null_count else 0)

abbrev pub or_zero : Option ℕ → ℕ
or_zero none = 0
or_zero (some n) = n

-- Of `arr` only its being NULL is used. `count` is what `count_ptr` points to.
unfoldable pub write_byte_buffer : Message → Bool → Option ℕ → Outcome (Message × Bool)
write_byte_buffer msg no_data count = do
  m ← check_part "fy" msg
  let b = (add_byte m.buffer (flags_of no_data (is_null count))).0
  done (put_all m (add_uint32 b (to_u32 (or_zero count))).0)

-- `arr` is the memory at the pointer, `num` bytes of which are sent.
unfoldable pub encode_byte_array : Buffer → Option (List ℕ) → ℕ → Buffer
encode_byte_array b none num = (add_uint32 (add_byte b 0).0 (to_u32 num)).0
encode_byte_array b (some arr) num = (add_byte_array (add_byte b 1).0 (some (take num arr))).0

unfoldable pub write_byte_array : Message → Option (List ℕ) → ℕ → Outcome (Message × Bool)
write_byte_array msg arr num = do
  m ← check_part "ay" msg
  done (put_all m (encode_byte_array m.buffer arr num))

unfoldable pub write_ulong_buffer : Message → ℕ → Outcome (Message × Bool)
write_ulong_buffer msg count = do
  m ← check_part "fu" msg
  done (put m (add_uint32 m.buffer (to_u32 count)))

-- The loop `egg_buffer_add_uint64 (&msg->buffer, array[i])`
unfoldable pub add_ulongs : Buffer → List ℕ → Buffer
add_ulongs b [] = b
add_ulongs b (x ∷ xs) = add_ulongs (add_uint64 b x).0 xs

unfoldable pub encode_ulong_array : Buffer → Option (List ℕ) → ℕ → Buffer
encode_ulong_array b none n = (add_uint32 (add_byte b 0).0 (to_u32 n)).0
encode_ulong_array b (some array) n =
    add_ulongs (add_uint32 (add_byte b 1).0 (to_u32 n)).0 (take n array)

unfoldable pub write_ulong_array : Message → Option (List ℕ) → ℕ → Outcome (Message × Bool)
write_ulong_array msg array n = do
  m ← check_part "au" msg
  done (put_all m (encode_ulong_array m.buffer array n))

unfoldable pub write_version : Message → Version → Outcome (Message × Bool)
write_version msg version = do
  m ← check_part "v" msg
  done (put_all m (add_byte (add_byte m.buffer version.major).0 version.minor).0)

-- `assert (buffer)` holds: a string is given as the memory at its address.
unfoldable pub write_space_string : Message → List ℕ → ℕ → Outcome (Message × Bool)
write_space_string msg buffer n = do
  assert (ltb 0 n)
  m ← check_part "s" msg
  done (put m (add_byte_array m.buffer (some (take n buffer))))

-- The type, and the room that the caller has for the value.
unfoldable pub add_attribute_rooms : Buffer → List Attribute → Buffer
add_attribute_rooms b [] = b
add_attribute_rooms b (attr ∷ rest) =
    let room : ℕ = if is_null attr.value then 0 else attr.value_len in
    add_attribute_rooms (add_uint32 (add_uint32 b (to_u32 attr.type)).0 (to_u32 room)).0 rest

abbrev pub items : {A : Type 0} → Option (List A) → List A
items none = []
items (some xs) = xs

unfoldable pub write_attribute_buffer :
    Message → Option (List Attribute) → ℕ → Outcome (Message × Bool)
write_attribute_buffer msg arr num = do
  assert (not (ltb 0 num && is_null arr))
  m ← check_part "fA" msg
  let b = (add_uint32 m.buffer (to_u32 num)).0
  done (put_all m (add_attribute_rooms b (take num (items arr))))

-- A number in the bytes of this machine, lowest first (the hosts are little-endian), and back.
unfoldable pub host_bytes : ℕ → ℕ → List ℕ
host_bytes ℕ.zero v = []
host_bytes (ℕ.suc n) v = (v % 256) ∷ host_bytes n (v / 256)

unfoldable pub host_value : List ℕ → ℕ
host_value [] = 0
host_value (x ∷ xs) = x + 256 * host_value xs

-- `(CK_LONG) ulValueLen == -1`, for a `CK_ULONG` of `ulong_size` bytes
abbrev pub is_invalid : ℕ → ℕ → Bool
is_invalid ulong_size value_len = value_len == 2 ^ (8 * ulong_size) - 1

-- A valid attribute's value; a number of another width than 64 bits is widened.
unfoldable pub attribute_value : ℕ → Attribute → Option (List ℕ)
attribute_value ulong_size attr = elim attr.value [
  | none ↦ none
  | some block ↦
      if has_bad_sized_ulong_parameter ulong_size attr
      then some (host_bytes 8 (host_value (take ulong_size block)))
      else some (take attr.value_len block)
]

unfoldable pub add_attribute : ℕ → Buffer → Attribute → Buffer
add_attribute ulong_size b attr =
    let b' = (add_uint32 b (to_u32 attr.type)).0 in
    if is_invalid ulong_size attr.value_len
    then (add_byte b' 0).0
    else (add_byte_array (add_uint32 (add_byte b' 1).0 (to_u32 attr.value_len)).0
        (attribute_value ulong_size attr)).0

unfoldable pub add_attributes : ℕ → Buffer → List Attribute → Buffer
add_attributes ulong_size b [] = b
add_attributes ulong_size b (attr ∷ rest) =
    add_attributes ulong_size (add_attribute ulong_size b attr) rest

unfoldable pub write_attribute_array :
    ℕ → Message → Option (List Attribute) → ℕ → Outcome (Message × Bool)
write_attribute_array ulong_size msg arr num = do
  assert (not (ltb 0 num && is_null arr))
  m ← check_part "aA" msg
  let b = (add_uint32 m.buffer (to_u32 num)).0
  done (put_all m (add_attributes ulong_size b (take num (items arr))))
