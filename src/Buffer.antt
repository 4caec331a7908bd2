-- ===== src/Buffer.antt =====
-- egg-buffer.c, egg-buffer.h: the growing byte buffer. A function that updates `*buffer` returns the
-- new buffer beside its result; the number widths are in Buffer/Ints, arrays and strings in
-- Buffer/Arrays and Buffer/Strings.
pub mod Ints
pub mod Arrays
pub mod Strings
pub mod Inv
pub mod Reserve
pub mod Received
pub mod Wrote
pub mod Writers
pub mod Unread
pub mod Readers
pub mod Appended
use pkcs11_proxy.Common.{
  ℕ, ◌+◌, ◌-◌, ◌%◌, ◌^◌, Bool, true, false, not, ◌||◌, Option, none, some, List, [], ◌∷◌, length,
  get_or, set, replicate, take, write_at, memset, list_eq, ltb, ◌==◌, if◌then◌else◌, add_size,
  mul_size,
}

-- `EggBufferAllocator`: a function with the interface of `realloc`. `NULL` is the block of no bytes,
-- and `none` the answer `NULL`. C compares two allocators by their addresses, here `addr`.
pub record Allocator : Type 0 where
  pub addr : ℕ
  pub realloc : List ℕ → ℕ → Option (List ℕ)

-- `EggBuffer`. `buf` holds the whole block, `allocated_len` bytes of it, also those behind `len`.
pub record Buffer : Type 0 where
  pub buf : List ℕ
  pub len : ℕ
  pub allocated_len : ℕ
  pub failures : ℕ
  pub allocator : Option Allocator

-- EGG_BUFFER_EMPTY, and what `memset (buffer, 0, sizeof (*buffer))` leaves
abbrev pub empty : Buffer
empty = record { buf = []; len = 0; allocated_len = 0; failures = 0; allocator = none }

abbrev pub has_error : Buffer → Bool
has_error b = ltb 0 b.failures

-- `buffer->failures++`
abbrev pub fail : Buffer → Buffer
fail b = record b { failures = b.failures + 1 }

-- `buffer->allocator == allocator`
abbrev pub is_same : Allocator → Option Allocator → Bool
is_same a none = false
is_same a (some old) = old.addr == a.addr

-- DEFAULT_ALLOCATOR is the C library's `realloc`.
module _ (default_allocator : Allocator) where
  abbrev pub or_default : Option Allocator → Allocator
  or_default none = default_allocator
  or_default (some a) = a

  unfoldable pub init_full : ℕ → Option Allocator → Buffer × Bool
  init_full reserve allocator =
      let a = or_default allocator in
      let size : ℕ = if reserve == 0 then 64 else reserve in
      elim (a.realloc [] size) [
        | none ↦ (fail empty, false)
        | some block ↦
            (record empty { buf = block; allocated_len = size; allocator = some a }, true)
      ]

  unfoldable pub init : ℕ → Buffer × Bool
  init reserve = init_full reserve none

  unfoldable pub init_allocated : List ℕ → Option Allocator → Buffer
  init_allocated block allocator = record {
    buf = block;
    len = length block;
    allocated_len = length block;
    failures = 0;
    allocator = some (or_default allocator);
  }

  -- Moves the block to memory of the new allocator.
  unfoldable pub set_allocator : Buffer → Option Allocator → Buffer × Bool
  set_allocator b allocator =
      let a = or_default allocator in
      if is_same a b.allocator
      then (b, true)
      else if b.allocated_len == 0
      then (record b { buf = []; allocator = some a }, true)
      else elim (a.realloc [] b.allocated_len) [
        | none ↦ (b, false)
        | some block ↦ (
          record b { buf = write_at block 0 (take b.allocated_len b.buf); allocator = some a },
          true,
        )
      ]

unfoldable pub init_static : List ℕ → Buffer
init_static block = record {
  buf = block;
  len = length block;
  allocated_len = length block;
  failures = 0;
  allocator = none;
}

unfoldable pub reset : Buffer → Buffer
reset b = record b { buf = memset b.buf 0 b.allocated_len; len = 0; failures = 0 }

-- The block is freed if the buffer has an allocator; the memory is then out of the model.
unfoldable pub uninit : Buffer → Buffer
uninit b = empty

unfoldable pub equal : Buffer → Buffer → Bool
equal b c = if b.len == c.len then list_eq (take b.len b.buf) (take b.len c.buf) else false

-- The size asked for: twice the old one, and more if that is not enough.
unfoldable pub new_length : ℕ → ℕ → ℕ
new_length allocated len =
    let doubled = mul_size allocated 2 in if ltb doubled len then add_size doubled len else doubled

unfoldable pub reserve : Buffer → ℕ → Buffer × Bool
reserve b len = if ltb len b.allocated_len then (b, true) else elim b.allocator [
  | none ↦ (fail b, false)
  | some a ↦ elim (a.realloc b.buf (new_length b.allocated_len len)) [
    | none ↦ (fail b, false)
    | some block ↦ (record b { buf = block; allocated_len = new_length b.allocated_len len }, true)
  ]
]

unfoldable pub resize : Buffer → ℕ → Buffer × Bool
resize b len =
    let (b', done) = reserve b len in if done then (record b' { len = len }, true) else (b', false)

-- The result is the index of the new bytes, in place of a pointer to them.
unfoldable pub add_empty : Buffer → ℕ → Buffer × Option ℕ
add_empty b n =
    let (b', done) = reserve b (add_size b.len n) in
    if done then (record b' { len = add_size b'.len n }, some b.len) else (b', none)

-- `val` holds the `len` bytes at the pointer that the source passes with their number.
unfoldable pub append : Buffer → List ℕ → Buffer × Bool
append b val =
    let (b', done) = reserve b (add_size b.len (length val)) in
    if done
    then (record b' { buf = write_at b'.buf b'.len val; len = add_size b'.len (length val) }, true)
    else (b', false)

unfoldable pub add_byte : Buffer → ℕ → Buffer × Bool
add_byte b val =
    let (b', done) = reserve b (add_size b.len 1) in
    if done
    then (record b' { buf = set b'.buf b'.len val; len = add_size b'.len 1 }, true)
    else (b', false)

-- A reader returns the value with the next offset, or `none` where the source returns 0.
unfoldable pub get_byte : Buffer → ℕ → Buffer × Option (ℕ × ℕ)
get_byte b offset =
    if ltb b.len 1 || ltb (b.len - 1) offset
    then (fail b, none)
    else (b, some (get_or b.buf offset 0, add_size offset 1))

-- `if (!get (…, &offset, &x)) return 0;` before the rest.
unfoldable pub and_next :
    {A B : Type 0}
    → Buffer × Option (A × ℕ)
    → (Buffer → A → ℕ → Buffer × Option (B × ℕ))
    → Buffer × Option (B × ℕ)
and_next (b, none) k = (b, none)
and_next (b, some (x, next)) k = k b x next
