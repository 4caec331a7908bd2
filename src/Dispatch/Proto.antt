-- ===== src/Dispatch/Proto.antt =====
-- gck-rpc-dispatch.c, "PROTOCOL CODE" and the IN_ macros: arguments are read from the request. Where the
-- C function returns an error the handler jumps to `_cleanup` with it.
use pkcs11_proxy.Common.{
  ℕ, zero, suc, ◌-◌, ◌*◌, ◌^◌, bit_and, Bool, false, not, ◌&&◌, Option, none, some, List, [], ◌∷◌,
  ◌++◌, length, take, drop, ◌==◌, if◌then◌else◌, Outcome, done, abort,
}
use Prim.Native.String.{String}
use pkcs11_proxy.Pkcs11.{Attribute, Mechanism, ckr_device_error, ckr_device_memory}
use pkcs11_proxy.Util.{has_ulong_parameter}
use pkcs11_proxy.Buffer.{Buffer, get_byte}
use pkcs11_proxy.Buffer.Ints.{get_uint32}
use pkcs11_proxy.Buffer.Arrays.{get_byte_array}
use pkcs11_proxy.Message.{check_part, take_from}
use pkcs11_proxy.Message.Read.{read_byte, read_ulong}
use pkcs11_proxy.Message.Write.{null_data, null_count, host_bytes, host_value}
use pkcs11_proxy.Dispatch.{
  Handler, ◌>>=◌, ◌>>◌, pure, goto_cleanup, on_req, call_alloc, World, CallState, Step, value,
  cleanup,
}

abbrev pub parse_error : ℕ
parse_error = ckr_device_error

abbrev pub prep_error : ℕ
prep_error = ckr_device_memory

-- `sizeof (CK_ATTRIBUTE)` with 64-bit pointers and longs
abbrev pub attribute_size : ℕ
attribute_size = 24

-- What the handlers take from the machine: the size of `CK_ULONG`, whether `malloc` has memory, and
-- whether `shutdown` of a socket succeeds.
pub record Machine : Type 0 where
  pub ulong_size : ℕ
  pub malloc : ℕ → Bool
  pub shutdown : ℕ → Bool

-- The number of bytes at a pointer into the request
abbrev pub byte_count : Option (List ℕ) → ℕ
byte_count none = 0
byte_count (some bytes) = length bytes

abbrev pub length_differs : Option (List ℕ) → ℕ → Bool
length_differs none size = false
length_differs (some bytes) size = not (length bytes == size)

abbrev pub bytes_or_none : Option (List ℕ) → List ℕ
bytes_or_none none = []
bytes_or_none (some bytes) = bytes

module _ {S : Type 0} where
  -- `assert (!msg->signature || gck_rpc_message_verify_part (msg, part))` on the request
  unfoldable pub expect : String → Handler S (Unit {0})
  expect part = on_req λ m. elim (check_part part m) [ done m' ↦ done (m', tt) | abort ↦ abort ]

  unfoldable pub or_parse_error : {A : Type 0} → Option A → Handler S A
  or_parse_error none = goto_cleanup parse_error
  or_parse_error (some x) = pure x

  -- `if (!egg_buffer_get (&msg->buffer, msg->parsed, &msg->parsed, &x)) return PARSE_ERROR;`
  unfoldable pub field : {A : Type 0} → (Buffer → ℕ → Buffer × Option (A × ℕ)) → Handler S A
  field get = on_req (λ m. done (take_from m get)) >>= or_parse_error

  unfoldable pub in_byte : Handler S ℕ
  in_byte = on_req read_byte >>= or_parse_error

  unfoldable pub in_ulong : Handler S ℕ
  in_ulong = on_req read_ulong >>= or_parse_error

  -- `n_array` of a pointer that is NULL, or the bytes behind their number.
  unfoldable pub byte_array_by : ℕ → Handler S (Option (List ℕ) × ℕ)
  byte_array_by valid =
      if valid == 0
      then (do n_size ← field get_uint32; pure (none, n_size))
      else (do bytes ← field get_byte_array; pure (bytes, byte_count bytes))

  -- proto_read_byte_array
  unfoldable pub in_byte_array : Handler S (Option (List ℕ) × ℕ)
  in_byte_array = do expect "ay"; valid ← field get_byte; byte_array_by valid

  -- proto_read_mechanism
  unfoldable pub in_mechanism : Handler S Mechanism
  in_mechanism = do
    expect "M"
    type ← field get_uint32
    bytes ← field get_byte_array
    pure (record { mechanism = type; parameter = bytes; parameter_len = byte_count bytes })

  -- `if (!block) return CKR_DEVICE_MEMORY;`
  abbrev pub with_block : World S → CallState × Option (List ℕ) → Outcome (World S × Step (List ℕ))
  with_block w (cs, none) = done (record w { cs = cs }, cleanup ckr_device_memory)
  with_block w (cs, some room) = done (record w { cs = cs }, value room)

  module _ (machine : Machine) where
    unfoldable pub alloc : ℕ → Handler S (List ℕ)
    alloc n w = with_block w (call_alloc machine.malloc w.cs n)

    -- Room for a result, or NULL.
    unfoldable pub alloc_if : Bool → ℕ → Handler S (Option (List ℕ))
    alloc_if wanted n = if wanted then (do block ← alloc n; pure (some block)) else pure none

    -- proto_read_byte_buffer: the pointer to the room for a result, and the number that `*n_buffer`
    -- points to, either of them NULL if the client's was.
    unfoldable pub in_byte_buffer : Handler S (Option (List ℕ) × Option ℕ)
    in_byte_buffer = do
      expect "fy"
      flags ← field get_byte
      length ← field get_uint32
      block ← alloc_if (bit_and flags null_data == 0) length
      pure (block, if bit_and flags null_count == 0 then some length else none)

    -- proto_read_ulong_buffer: room for numbers, NULL if there is to be none; the block is seen in bytes.
    unfoldable pub in_ulong_buffer : Handler S (Option (List ℕ) × ℕ)
    in_ulong_buffer = do
      expect "fu"
      length ← field get_uint32
      block ← alloc_if (not (length == 0)) (length * machine.ulong_size)
      pure (block, length)

    -- One round of proto_read_attribute_buffer.
    unfoldable pub attribute_room : Handler S Attribute
    attribute_room = do
      type ← field get_uint32
      size ← field get_uint32
      block ← alloc_if (not (size == 0)) size
      pure (record { type = type; value = block; value_len = size })

    unfoldable pub attribute_rooms : ℕ → Handler S (List Attribute)
    attribute_rooms zero = pure []
    attribute_rooms (suc n) = do attr ← attribute_room; rest ← attribute_rooms n; pure (attr ∷ rest)

    -- proto_read_attribute_buffer
    unfoldable pub in_attribute_buffer : Handler S (List Attribute × ℕ)
    in_attribute_buffer = do
      expect "fA"
      n ← field get_uint32
      _ ← alloc (n * attribute_size)
      attrs ← attribute_rooms n
      pure (attrs, n)

    -- A number of 64 bits where `CK_ULONG` is smaller: narrowed in place. NULL would be a fault.
    unfoldable pub narrow : Option (List ℕ) → Handler S (Option (List ℕ))
    narrow none = λ w. abort
    narrow (some bytes) = pure (
        some (
          host_bytes machine.ulong_size (host_value (take 8 bytes))
          ++ drop machine.ulong_size bytes))

    -- The value behind its length: the pointer with `ulValueLen`.
    unfoldable pub attribute_sized : ℕ → ℕ → Option (List ℕ) → Handler S Attribute
    attribute_sized type size bytes =
        if length_differs bytes size
        then goto_cleanup parse_error
        else if size == 8 && (not (size == machine.ulong_size) && has_ulong_parameter type)
        then (do
          narrowed ← narrow bytes
          pure (record { type = type; value = narrowed; value_len = machine.ulong_size }))
        else pure (record { type = type; value = bytes; value_len = size })

    -- An invalid attribute has the length -1.
    unfoldable pub attribute_by : ℕ → ℕ → Handler S Attribute
    attribute_by type valid =
        if valid == 0
        then pure
            (record { type = type; value = none; value_len = 2 ^ (8 * machine.ulong_size) - 1 })
        else (do
          size ← field get_uint32
          bytes ← field get_byte_array
          attribute_sized type size bytes)

    -- One round of proto_read_attribute_array
    unfoldable pub attribute_item : Handler S Attribute
    attribute_item = do type ← field get_uint32; valid ← field get_byte; attribute_by type valid

    unfoldable pub attribute_items : ℕ → Handler S (List Attribute)
    attribute_items zero = pure []
    attribute_items (suc n) = do attr ← attribute_item; rest ← attribute_items n; pure (attr ∷ rest)

    unfoldable pub attributes_of : ℕ → Handler S (Option (List Attribute) × ℕ)
    attributes_of n =
        if n == 0
        then pure (none, n)
        else (do _ ← alloc (n * attribute_size); attrs ← attribute_items n; pure (some attrs, n))

    -- proto_read_attribute_array: NULL if there are none.
    unfoldable pub in_attribute_array : Handler S (Option (List Attribute) × ℕ)
    in_attribute_array = do expect "aA"; n ← field get_uint32; attributes_of n

    -- proto_read_space_string: a copy of the bytes that came. The length that the macro names is not
    -- looked at.
    unfoldable pub in_space_string : ℕ → Handler S (List ℕ)
    in_space_string _ = do
      expect "s"
      bytes ← field get_byte_array
      _ ← alloc (byte_count bytes)
      pure (bytes_or_none bytes)
