-- ===== src/Client/Arrays.antt =====
-- gck-rpc-module.c: proto_read_byte_array, proto_read_ulong_array and proto_read_attribute_array. The
-- caller's memory goes in and comes back with what was stored in it.
use pkcs11_proxy.Common.{
  ℕ, zero, suc, ◌+◌, ◌-◌, ◌^◌, ◌*◌, Bool, true, false, not, ◌&&◌, Option, none, some, List, [], ◌∷◌,
  length, write_at, set, ltb, ◌==◌, if◌then◌else◌, Outcome, done, ◌>>=◌,
}
use pkcs11_proxy.Pkcs11.{Attribute, ckr_ok, ckr_buffer_too_small}
use pkcs11_proxy.Util.{has_ulong_parameter}
use pkcs11_proxy.Buffer.{has_error, get_byte}
use pkcs11_proxy.Buffer.Ints.{get_uint32, get_uint64}
use pkcs11_proxy.Buffer.Arrays.{get_byte_array}
use pkcs11_proxy.Message.{Message, check_part, take_from}
use pkcs11_proxy.Message.Read.{read_ulong}
use pkcs11_proxy.Message.Write.{host_bytes, host_value, items}
use pkcs11_proxy.Client.{Host}
use pkcs11_proxy.Client.Session.{as_ulong}
use pkcs11_proxy.Client.Reading.{parse_error}

-- The code of a read, the memory at `arr`, and `*len`.
abbrev pub Filled : Type 0
Filled = ℕ × Option (List ℕ) × ℕ

-- A result that came as its length alone.
abbrev pub only_length : Option (List ℕ) → ℕ → Filled
only_length none n = (ckr_ok, none, n)
only_length (some block) n = (ckr_buffer_too_small, some block, n)

abbrev pub stored_bytes : Option (List ℕ) → ℕ → List ℕ → Filled
stored_bytes none max val = (ckr_ok, none, length val)
stored_bytes (some block) max val =
    if ltb max (length val)
    then (ckr_buffer_too_small, some block, length val)
    else (ckr_ok, some (write_at block 0 val), length val)

abbrev pub byte_length : Option (List ℕ) → ℕ → Message × Option ℕ → Message × Filled
byte_length arr max (m, none) = (m, (parse_error, arr, max))
byte_length arr max (m, some n) = (m, only_length arr n)

abbrev pub byte_values : Option (List ℕ) → ℕ → Message × Option (Option (List ℕ)) → Message × Filled
byte_values arr max (m, none) = (m, (parse_error, arr, max))
byte_values arr max (m, some val) = (m, stored_bytes arr max (items val))

abbrev pub bytes_by_validity : Option (List ℕ) → ℕ → Message × Option ℕ → Message × Filled
bytes_by_validity arr max (m, none) = (m, (parse_error, arr, max))
bytes_by_validity arr max (m, some valid) =
    if valid == 0
    then byte_length arr max (take_from m get_uint32)
    else byte_values arr max (take_from m get_byte_array)

-- proto_read_byte_array
unfoldable pub read_byte_array : Message → Option (List ℕ) → ℕ → Outcome (Message × Filled)
read_byte_array msg arr max =
    check_part "ay" msg >>= λ m. done (bytes_by_validity arr max (take_from m get_byte))

-- A number, or the value that the variable had where there is none.
abbrev pub or_old : ℕ → Option ℕ → ℕ
or_old old none = old
or_old old (some v) = v

abbrev pub store_if_given : Option (List ℕ) → ℕ → ℕ → Option (List ℕ)
store_if_given none i v = none
store_if_given (some block) i v = some (set block i v)

-- The loop from `i` on, with `val` from the last round (at first any number, here 0).
unfoldable pub read_ulongs :
    Host → ℕ → ℕ → ℕ → Message → Option (List ℕ) → Message × Option (List ℕ)
read_ulongs host zero i val m arr = (m, arr)
read_ulongs host (suc rounds) i val m arr =
    let (m', got) = take_from m get_uint64 in
    let val' = or_old val got in
    read_ulongs host rounds (i + 1) val' m' (store_if_given arr i (as_ulong host val'))

abbrev pub numbers_checked : ℕ → Message × Option (List ℕ) → Message × Filled
numbers_checked num (m, arr) = (m, (if has_error m.buffer then parse_error else ckr_ok, arr, num))

abbrev pub numbers_by_count : Host → ℕ → Option (List ℕ) → ℕ → Message × Option ℕ → Message × Filled
numbers_by_count host valid arr max (m, none) = (m, (parse_error, arr, max))
numbers_by_count host valid arr max (m, some num) =
    if valid == 0
    then (m, only_length arr num)
    else if ltb max num
    then (m, (ckr_buffer_too_small, arr, num))
    else numbers_checked num (read_ulongs host num 0 0 m arr)

abbrev pub numbers_by_validity : Host → Option (List ℕ) → ℕ → Message × Option ℕ → Message × Filled
numbers_by_validity host arr max (m, none) = (m, (parse_error, arr, max))
numbers_by_validity host arr max (m, some valid) =
    numbers_by_count host valid arr max (take_from m get_uint32)

-- proto_read_ulong_array
unfoldable pub read_ulong_array : Host → Message → Option (List ℕ) → ℕ → Outcome (Message × Filled)
read_ulong_array host msg arr max =
    check_part "au" msg >>= λ m. done (numbers_by_validity host arr max (take_from m get_byte))

-- One attribute as it comes: `none` for an invalid one, or its length and bytes.
pub record Item : Type 0 where
  pub type : ℕ
  pub val : Option (Option (List ℕ) × ℕ)

abbrev pub wrong_length : Option (List ℕ) → ℕ → Bool
wrong_length none size = false
wrong_length (some bytes) size = not (length bytes == size)

abbrev pub item_value : ℕ → ℕ → Message × Option (Option (List ℕ)) → Message × Option Item
item_value type size (m, none) = (m, none)
item_value type size (m, some bytes) =
    if wrong_length bytes size
    then (m, none)
    else (m, some (record { type = type; val = some (bytes, size) }))

abbrev pub item_size : ℕ → Message × Option ℕ → Message × Option Item
item_size type (m, none) = (m, none)
item_size type (m, some size) = item_value type size (take_from m get_byte_array)

abbrev pub item_valid : ℕ → Message × Option ℕ → Message × Option Item
item_valid type (m, validity) =
    if or_old 0 validity == 0
    then (m, some (record { type = type; val = none }))
    else item_size type (take_from m get_uint32)

abbrev pub item_typed : Message × Option ℕ → Message × Option Item
item_typed (m, type) = item_valid (or_old 0 type) (take_from m get_byte)

-- `none` is the answer PARSE_ERROR. Behind a type or a validity that is missing the variables hold
-- anything, here 0; the failure is counted, and the end is PARSE_ERROR whatever they hold.
unfoldable pub read_item : Message → Message × Option Item
read_item m = item_typed (take_from m get_uint32)

-- The value for the room at `block`: a number of 64 bits is narrowed where `CK_ULONG` is smaller.
unfoldable pub fitted : Host → ℕ → List ℕ → ℕ → List ℕ → Attribute
fitted host type block size bytes =
    if size == 8 && (not (host.ulong_size == 8) && has_ulong_parameter type)
    then record {
      type = type;
      value = some (write_at block 0 (host_bytes host.ulong_size (host_value bytes)));
      value_len = host.ulong_size;
    }
    else record { type = type; value = some (write_at block 0 bytes); value_len = size }

abbrev pub stuff_value : Host → Attribute → Option (List ℕ) → Option (List ℕ) × ℕ → Attribute
stuff_value host attr none (bytes, size) = record attr { value_len = size }
stuff_value host attr (some block) (none, size) =
    if ltb attr.value_len size
    then record attr { value_len = size }
    else record attr { value_len = 0 }
stuff_value host attr (some block) (some bytes, size) =
    if ltb attr.value_len size
    then record attr { value_len = size }
    else fitted host attr.type block size bytes

-- What is stored in the caller's attribute.
unfoldable pub stuff : Host → Attribute → Option (Option (List ℕ) × ℕ) → Attribute
stuff host attr none = record attr { value_len = 2 ^ (8 * host.ulong_size) - 1 }
stuff host attr (some val) = stuff_value host attr attr.value val

abbrev pub in_front : Attribute → Message × List Attribute × Bool → Message × List Attribute × Bool
in_front attr (m, attrs, ok) = (m, attr ∷ attrs, ok)

-- The loop over the attributes that come, with those of the caller that are still to be filled; `false`
-- is the answer PARSE_ERROR. (The code CKR_BUFFER_TOO_SMALL that the source sets here is overwritten
-- by the one that is read behind the attributes.)
unfoldable pub items_step :
    Host
    → (Message → List Attribute → Message × List Attribute × Bool)
    → List Attribute
    → Message × Option Item
    → Message × List Attribute × Bool
items_step host next attrs (m, none) = (m, attrs, false)
items_step host next [] (m, some item) = if has_error m.buffer then (m, [], true) else next m []
items_step host next (attr ∷ more) (m, some item) =
    if has_error m.buffer
    then (m, attr ∷ more, true)
    else if not (attr.type == item.type)
    then (m, attr ∷ more, false)
    else in_front (stuff host attr item.val) (next m more)

unfoldable pub read_items : Host → ℕ → Message → List Attribute → Message × List Attribute × Bool
read_items host zero m attrs = (m, attrs, true)
read_items host (suc n) m attrs = items_step host (read_items host n) attrs (read_item m)

-- The code that goes along with the attributes.
abbrev pub attributes_code :
    Host → List Attribute → Message × Option ℕ → Message × (ℕ × List Attribute)
attributes_code host attrs (m, none) = (m, (parse_error, attrs))
attributes_code host attrs (m, some v) = (m, (as_ulong host v, attrs))

abbrev pub attributes_read :
    Host → Message × List Attribute × Bool → Outcome (Message × (ℕ × List Attribute))
attributes_read host (m, attrs, ok) =
    if not ok
    then done (m, (parse_error, attrs))
    else if has_error m.buffer
    then done (m, (parse_error, attrs))
    else (read_ulong m >>= λ r. done (attributes_code host attrs r))

abbrev pub attributes_by_count :
    Host → List Attribute → ℕ → Message × Option ℕ → Outcome (Message × (ℕ × List Attribute))
attributes_by_count host attrs len (m, none) = done (m, (parse_error, attrs))
attributes_by_count host attrs len (m, some num) =
    if not (len == num)
    then done (m, (parse_error, attrs))
    else attributes_read host (read_items host num m attrs)

-- proto_read_attribute_array: `attrs` are the attributes at `arr`, none if it is NULL.
unfoldable pub read_attribute_array :
    Host → Message → List Attribute → ℕ → Outcome (Message × (ℕ × List Attribute))
read_attribute_array host msg attrs len =
    check_part "aA" msg >>= λ m. attributes_by_count host attrs len (take_from m get_uint32)
