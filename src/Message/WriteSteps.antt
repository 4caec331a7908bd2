-- ===== src/Message/WriteSteps.antt =====
-- The writers of gck-rpc-message.c: where the signature has the value's letters next, none of them stops
-- the process, and each leaves the value's encoding in the buffer or a failure counted.
use pkcs11_proxy.Common.{
  ℕ, ◌<◌, ◌≡◌, refl, Bool, true, false, Option, none, some, List, [], ◌∷◌, ◌++◌, take, codes,
  lt→ltb, to_u32, Outcome, done, ◌>>=◌, IsByte, arith,
}
use Prim.Native.String.{String}
use pkcs11_proxy.Pkcs11.{Version}
use pkcs11_proxy.Wire.{be32, be64, array}
use pkcs11_proxy.Buffer.{Buffer, add_byte}
use pkcs11_proxy.Buffer.Ints.{add_uint64}
use pkcs11_proxy.Buffer.Inv.{IsValid}
use pkcs11_proxy.Buffer.Wrote.{Wrote, Wrote-nothing, Wrote-seq}
use pkcs11_proxy.Buffer.Writers.{
  Sendable, add_byte-Writes, add_uint32-Writes, add_uint64-Writes, add_byte_array-Writes,
}
use pkcs11_proxy.Message.{Message, check_part}
use pkcs11_proxy.Message.Write.{
  write_byte, write_ulong, write_byte_buffer, write_byte_array, write_ulong_buffer,
  write_ulong_array, write_version, write_space_string, flags_of, is_null, or_zero,
  encode_byte_array, add_ulongs, encode_ulong_array,
}
use pkcs11_proxy.Message.Advance.{Expects, Put, advanced, check_part_lem, put-Put, put_all-Put}

-- The operation does not stop the process, and puts `xs`.
abbrev pub Puts : Message → List ℕ → List ℕ → Outcome (Message × Bool) → Type 0
Puts msg rest xs out = (r : Message × Bool) × (out ≡ done r) × Put msg rest xs r

-- What is sent for each kind of value.
abbrev pub byte_buffer_bytes : Bool → Option ℕ → List ℕ
byte_buffer_bytes no_data count = flags_of no_data (is_null count) ∷ be32 (to_u32 (or_zero count))

abbrev pub byte_array_bytes : Option (List ℕ) → ℕ → List ℕ
byte_array_bytes none num = 0 ∷ be32 (to_u32 num)
byte_array_bytes (some arr) num = 1 ∷ array (some (take num arr))

abbrev pub ulongs_bytes : List ℕ → List ℕ
ulongs_bytes [] = []
ulongs_bytes (x ∷ xs) = be64 x ++ ulongs_bytes xs

abbrev pub ulong_array_bytes : Option (List ℕ) → ℕ → List ℕ
ulong_array_bytes none n = 0 ∷ be32 (to_u32 n)
ulong_array_bytes (some xs) n = 1 ∷ (be32 (to_u32 n) ++ ulongs_bytes (take n xs))

-- A byte in front of what follows.
pub byte_first :
    {b : Buffer} (x : ℕ) (ys : List ℕ) {b' : Buffer}
    → IsValid b
    → IsByte x
    → Wrote (add_byte b x).0 ys b'
    → Wrote b (x ∷ ys) b'
byte_first x ys v h w = Wrote-seq (x ∷ []) ys v (add_byte-Writes x v h).effect w

flags-IsByte : (p q : Bool) → IsByte (flags_of p q)
flags-IsByte true true = omega arith
flags-IsByte true false = omega arith
flags-IsByte false true = omega arith
flags-IsByte false false = omega arith

-- What of the memory at a pointer goes out.
abbrev pub taken : Option (List ℕ) → ℕ → Option (List ℕ)
taken none num = none
taken (some arr) num = some (take num arr)

encode_byte_array-Wrote :
    {b : Buffer} (arr : Option (List ℕ)) (num : ℕ)
    → IsValid b
    → Sendable (taken arr num)
    → Wrote b (byte_array_bytes arr num) (encode_byte_array b arr num)
unfolding encode_byte_array
encode_byte_array-Wrote none num v h =
    let first = add_byte-Writes 0 v (omega arith) in
    byte_first 0 _ v (omega arith) (add_uint32-Writes (to_u32 num) first.effect.valid).effect
encode_byte_array-Wrote (some arr) num v h =
    let first = add_byte-Writes 1 v (omega arith) in
    byte_first 1 (array (some (take num arr))) v (omega arith)
      (add_byte_array-Writes (some (take num arr)) first.effect.valid h).effect

add_ulongs-Wrote :
    (b : Buffer) (xs : List ℕ) → IsValid b → Wrote b (ulongs_bytes xs) (add_ulongs b xs)
unfolding add_ulongs
add_ulongs-Wrote b [] v = Wrote-nothing v
add_ulongs-Wrote b (x ∷ xs) v =
    let first = add_uint64-Writes x v in
    Wrote-seq (be64 x) (ulongs_bytes xs) v first.effect
      (add_ulongs-Wrote (add_uint64 b x).0 xs first.effect.valid)

encode_ulong_array-Wrote :
    {b : Buffer} (xs : Option (List ℕ)) (n : ℕ)
    → IsValid b
    → Wrote b (ulong_array_bytes xs n) (encode_ulong_array b xs n)
unfolding encode_ulong_array
encode_ulong_array-Wrote none n v =
    let first = add_byte-Writes 0 v (omega arith) in
    byte_first 0 _ v (omega arith) (add_uint32-Writes (to_u32 n) first.effect.valid).effect
encode_ulong_array-Wrote (some xs) n v =
    let first = add_byte-Writes 1 v (omega arith) in
    let count = add_uint32-Writes (to_u32 n) first.effect.valid in
    byte_first 1 _ v (omega arith) (
      Wrote-seq (be32 (to_u32 n)) (ulongs_bytes (take n xs)) first.effect.valid count.effect
        (add_ulongs-Wrote _ (take n xs) count.effect.valid))

module _ (msg : Message) (rest : List ℕ) where
  -- The check passes, and the rest runs on the advanced message.
  pub checked :
      (part : String) (k : Message → Outcome (Message × Bool)) (xs : List ℕ)
      → Expects msg (codes part ++ rest)
      → Puts msg rest xs (k (advanced msg rest))
      → Puts msg rest xs (check_part part msg >>= k)
  checked part k xs x p = rw (check_part_lem part msg rest x) p

  -- Where the signature goes on with the letters of this value and the buffer is valid
  -- `gck_rpc_message_write_byte` does not stop the process, takes the letters off the signature,
  -- and appends this byte or counts a failure; all else in the message stays.
  pub write_byte-Puts :
      (val : ℕ)
      → Expects msg (codes "y" ++ rest)
      → IsByte val
      → Puts msg rest (val ∷ []) (write_byte msg val)
  unfolding write_byte
  write_byte-Puts val x h =
      checked "y" _ (val ∷ []) x (_, refl, put-Put msg rest _ _ (add_byte-Writes val x.valid h))

  -- Where the signature goes on with the letters of this value and the buffer is valid
  -- `gck_rpc_message_write_ulong` does not stop the process, takes the letters off the signature,
  -- and appends the low 64 bits of the number, highest byte first or counts a failure; all else in
  -- the message stays.
  pub write_ulong-Puts :
      (val : ℕ) → Expects msg (codes "u" ++ rest) → Puts msg rest (be64 val) (write_ulong msg val)
  unfolding write_ulong
  write_ulong-Puts val x =
      checked "u" _ (be64 val) x (_, refl, put-Put msg rest _ _ (add_uint64-Writes val x.valid))

  -- Where the signature goes on with the letters of this value and the buffer is valid
  -- `gck_rpc_message_write_ulong_buffer` does not stop the process, takes the letters off the
  -- signature, and appends the low 32 bits of the count or counts a failure; all else in the
  -- message stays.
  pub write_ulong_buffer-Puts :
      (count : ℕ)
      → Expects msg (codes "fu" ++ rest)
      → Puts msg rest (be32 (to_u32 count)) (write_ulong_buffer msg count)
  unfolding write_ulong_buffer
  write_ulong_buffer-Puts count x =
      checked "fu" _ _ x (_, refl, put-Put msg rest _ _ (add_uint32-Writes (to_u32 count) x.valid))

  -- Where the signature goes on with the letters of this value and the buffer is valid
  -- `gck_rpc_message_write_byte_buffer` does not stop the process, takes the letters off the
  -- signature, and appends the flags of the two pointers and the number of bytes that there is room
  -- for or counts a failure; all else in the message stays.
  pub write_byte_buffer-Puts :
      (no_data : Bool) (count : Option ℕ)
      → Expects msg (codes "fy" ++ rest)
      → Puts msg rest (byte_buffer_bytes no_data count) (write_byte_buffer msg no_data count)
  unfolding write_byte_buffer
  write_byte_buffer-Puts no_data count x =
      let small = flags-IsByte no_data (is_null count) in
      let first = add_byte-Writes (flags_of no_data (is_null count)) x.valid small in
      checked "fy" _ _ x (
        _,
        refl,
        put_all-Put msg rest _ _ (
            byte_first _ _ x.valid small
              (add_uint32-Writes (to_u32 (or_zero count)) first.effect.valid).effect),
      )

  -- Where the signature goes on with the letters of this value and the buffer is valid, for fewer
  -- than 2 ^ 31 - 1 bytes, `gck_rpc_message_write_byte_array` does not stop the process, takes the
  -- letters off the signature, and appends a 1 and the bytes behind their number, or for NULL a 0
  -- and the number, or counts a failure; all else in the message stays.
  pub write_byte_array-Puts :
      (arr : Option (List ℕ)) (num : ℕ)
      → Expects msg (codes "ay" ++ rest)
      → Sendable (taken arr num)
      → Puts msg rest (byte_array_bytes arr num) (write_byte_array msg arr num)
  unfolding write_byte_array
  write_byte_array-Puts arr num x h =
      checked "ay" _ _ x
        (_, refl, put_all-Put msg rest _ _ (encode_byte_array-Wrote arr num x.valid h))

  -- Where the signature goes on with the letters of this value and the buffer is valid
  -- `gck_rpc_message_write_ulong_array` does not stop the process, takes the letters off the
  -- signature, and appends a 1, the count and each number in 64 bits, or for NULL a 0 and the
  -- count, or counts a failure; all else in the message stays.
  pub write_ulong_array-Puts :
      (xs : Option (List ℕ)) (n : ℕ)
      → Expects msg (codes "au" ++ rest)
      → Puts msg rest (ulong_array_bytes xs n) (write_ulong_array msg xs n)
  unfolding write_ulong_array
  write_ulong_array-Puts xs n x =
      checked "au" _ _ x (_, refl, put_all-Put msg rest _ _ (encode_ulong_array-Wrote xs n x.valid))

  -- Where the signature goes on with the letters of this value and the buffer is valid
  -- `gck_rpc_message_write_version` does not stop the process, takes the letters off the signature,
  -- and appends the two bytes of the version or counts a failure; all else in the message stays.
  pub write_version-Puts :
      (version : Version)
      → Expects msg (codes "v" ++ rest)
      → IsByte version.major
      → IsByte version.minor
      → Puts msg rest (version.major ∷ version.minor ∷ []) (write_version msg version)
  unfolding write_version
  write_version-Puts version x h k =
      let first = add_byte-Writes version.major x.valid h in
      checked "v" _ _ x (
        _,
        refl,
        put_all-Put msg rest _ _ (
            byte_first version.major _ x.valid h
              (add_byte-Writes version.minor first.effect.valid k).effect),
      )

  -- Where the signature goes on with the letters of this value and the buffer is valid, for a
  -- positive length below 2 ^ 31 - 1, `gck_rpc_message_write_space_string` does not stop the
  -- process, takes the letters off the signature, and appends the string behind its length or
  -- counts a failure; all else in the message stays.
  pub write_space_string-Puts :
      (text : List ℕ) (n : ℕ)
      → Expects msg (codes "s" ++ rest)
      → 0 < n
      → Sendable (some (take n text))
      → Puts msg rest (array (some (take n text))) (write_space_string msg text n)
  unfolding write_space_string
  write_space_string-Puts text n x h k = rw (lt→ltb 0 n h) (
      checked "s" _ (array (some (take n text))) x
        (_, refl, put-Put msg rest _ _ (add_byte_array-Writes (some (take n text)) x.valid k)))
