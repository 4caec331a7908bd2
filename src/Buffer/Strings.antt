-- ===== src/Buffer/Strings.antt =====
-- egg-buffer.c: strings, and lists of strings. A C string is the list of its bytes before the zero.
use pkcs11_proxy.Common.{
  ℕ, zero, suc, ◌+◌, Bool, true, false, ◌||◌, Option, none, some, List, [], ◌∷◌, ◌++◌, length, take,
  drop, leb, ◌==◌, if◌then◌else◌, add_size, mul_size, to_u32,
}
use pkcs11_proxy.Buffer.{Buffer, Allocator, or_default, and_next, append}
use pkcs11_proxy.Buffer.Ints.{add_uint32, get_uint32, out_of_range}
use pkcs11_proxy.Buffer.Arrays.{null_length, length_limit}

-- A string that is too long is refused with no failure counted.
unfoldable pub add_string : Buffer → Option (List ℕ) → Buffer × Bool
add_string b none = add_uint32 b null_length
add_string b (some str) =
    if leb length_limit (length str)
    then (b, false)
    else let (b', done) = add_uint32 b (length str) in if done then append b' str else (b', false)

-- `memchr (block, 0, n) != NULL` over the `n` bytes given
unfoldable pub has_nul : List ℕ → Bool
has_nul [] = false
has_nul (x ∷ xs) = x == 0 || has_nul xs

-- `sizeof (char *)`
abbrev pub pointer_size : ℕ
pointer_size = 8

-- The allocator that a reader of strings asks for memory.
abbrev pub chosen : Allocator → Option Allocator → Option Allocator → Allocator
chosen default_allocator given own = elim given [
  | some a ↦ a
  | none ↦ or_default default_allocator own
]

module _ (default_allocator : Allocator) where
  -- The new block holds the string and its zero; the result is the string.
  unfoldable pub get_string : Buffer → ℕ → Option Allocator → Buffer × Option (Option (List ℕ) × ℕ)
  get_string b offset allocator =
      let a = chosen default_allocator allocator b.allocator in
      and_next (get_uint32 b offset) λ b' len start.
        if len == null_length
        then (b', some (none, start))
        else if leb length_limit len
        then (b', none)
        else if out_of_range b' start len
        then (b', none)
        else if has_nul (take len (drop start b'.buf))
        then (b', none)
        else elim (a.realloc [] (len + 1)) [
          | none ↦ (b', none)
          | some block ↦ (b', some (some (take len (drop start b'.buf)), add_size start len))
        ]

  -- `for (i = 0; i < n; ++i)`, with the strings read so far; the strings are freed on failure.
  unfoldable pub get_strings :
      ℕ
      → Buffer
      → ℕ
      → Allocator
      → List (Option (List ℕ))
      → Buffer × Option (List (Option (List ℕ)) × ℕ)
  get_strings zero b offset a strv = (b, some (strv, offset))
  get_strings (suc n) b offset a strv =
      and_next (get_string b offset (some a))
        λ b' str next. get_strings n b' next a (strv ++ (str ∷ []))

  -- `n + 1` is computed in 32 bits.
  unfoldable pub get_stringv :
      Buffer → ℕ → Option Allocator → Buffer × Option (List (Option (List ℕ)) × ℕ)
  get_stringv b offset allocator =
      let a = chosen default_allocator allocator b.allocator in
      and_next (get_uint32 b offset) λ b' n start.
        elim (a.realloc [] (mul_size (to_u32 (n + 1)) pointer_size)) [
          | none ↦ (b', none)
          | some block ↦ get_strings n b' start a []
        ]

-- `strv` up to its NULL; `none` is a NULL array.
unfoldable pub add_strings : Buffer → List (List ℕ) → Buffer × Bool
add_strings b [] = (b, true)
add_strings b (s ∷ strv) =
    let (b', done) = add_string b (some s) in
    let rest = add_strings b' strv in if done then rest else (b', false)

unfoldable pub add_stringv : Buffer → Option (List (List ℕ)) → Buffer × Bool
add_stringv b none = (b, false)
add_stringv b (some strv) =
    let (b', done) = add_uint32 b (to_u32 (length strv)) in
    if done then add_strings b' strv else (b', false)
