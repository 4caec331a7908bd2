-- ===== src/Message/ReadSteps.antt =====
-- The readers of gck-rpc-message.c against the wire format: where the signature has the value's letters
-- next, none of them stops the process, and each reads what the format reads from the bytes that come.
use pkcs11_proxy.Common.{
  ℕ, ◌≤◌, ◌≡◌, refl, sym, ap, subst, Option, none, some, List, ◌++◌, codes, Outcome, done, ◌>>=◌,
}
use Prim.Native.String.{String}
use pkcs11_proxy.Pkcs11.{Version}
use pkcs11_proxy.Wire.{and_then}
use pkcs11_proxy.Wire
use pkcs11_proxy.Buffer.{Buffer, fail, get_byte}
use pkcs11_proxy.Buffer.Ints.{get_uint64}
use pkcs11_proxy.Buffer.Unread.{unread}
use pkcs11_proxy.Buffer.Readers.{Reads, get_byte-Reads, get_uint64-Reads}
use pkcs11_proxy.Message.{Message, check_part, take_from}
use pkcs11_proxy.Message.Read.{read_byte, read_ulong, read_then, read_version}
use pkcs11_proxy.Message.Advance.{Expects, advanced, check_part_lem}

-- `r` is what a reader of the message returns where the format reads `parsed` from the bytes that come.
abbrev pub TakesPair : {A : Type 0} → Message → Option (A × List ℕ) → Message × Option A → Type 0
TakesPair msg none r =
    (next : ℕ) × (r ≡ (record msg { buffer = fail msg.buffer; parsed = next }, none))
TakesPair msg (some (x, left)) r =
    (next : ℕ) × (r ≡ (record msg { parsed = next }, some x))
    × (unread msg.buffer next ≡ left)
    × (next ≤ msg.buffer.len)

-- The operation does not stop the process, and the signature moves on to `rest`.
abbrev pub Takes :
    {A : Type 0} → Message → List ℕ → Option (A × List ℕ) → Outcome (Message × Option A) → Type 0
Takes {A} msg rest parsed out =
    (r : Message × Option A) × (out ≡ done r) × TakesPair (advanced msg rest) parsed r

-- Two bytes are a version.
abbrev pub version_of : List ℕ → Option (Version × List ℕ)
version_of bytes = and_then (Wire.read_byte bytes) λ major left.
    and_then (Wire.read_byte left)
      λ minor left'. some (record { major = major; minor = minor }, left')

-- `take_from` behind the call of the reader.
abbrev taken : {A : Type 0} → Message → Buffer × Option (A × ℕ) → Message × Option A
taken msg r = elim r.1 [
  | none ↦ (record msg { buffer = r.0 }, none)
  | some (x, next) ↦ (record msg { buffer = r.0; parsed = next }, some x)
]

pub take_from-TakesPair :
    {A : Type 0} (msg : Message) (get : Buffer → ℕ → Buffer × Option (A × ℕ))
    (parsed : Option (A × List ℕ))
    → Reads msg.buffer parsed (get msg.buffer msg.parsed)
    → TakesPair msg parsed (take_from msg get)
take_from-TakesPair msg get none h = (msg.parsed, ap (taken msg) h)
take_from-TakesPair msg get (some (x, left)) (next, e, same, le) =
    (next, ap (taken msg) e, same, le)

-- A read in two parts is a parse in two parts.
read_then-TakesPair :
    {A B : Type 0} (msg : Message) (p : Option (A × List ℕ)) (r : Message × Option A)
    (k : A → List ℕ → Option (B × List ℕ)) (k' : Message → A → Message × Option B)
    → TakesPair msg p r
    → ((x : A) (left : List ℕ) (next : ℕ)
        → unread msg.buffer next ≡ left
        → next ≤ msg.buffer.len
        → TakesPair msg (k x left) (k' (record msg { parsed = next }) x))
    → TakesPair msg (and_then p k) (read_then r k')
unfolding and_then read_then
read_then-TakesPair msg none r k k' (next, e) f = (next, ap (λ t. read_then t k') e)
read_then-TakesPair msg (some (x, left)) r k k' (next, e, same, le) f =
    subst (TakesPair msg (k x left)) (sym (ap (λ t. read_then t k') e)) (f x left next same le)

module _ (msg : Message) (rest : List ℕ) where
  -- The letters are there, and then the bytes.
  checked :
      {A : Type 0} (part : String) (parsed : Option (A × List ℕ)) (k : Message → Message × Option A)
      → Expects msg (codes part ++ rest)
      → TakesPair (advanced msg rest) parsed (k (advanced msg rest))
      → Takes msg rest parsed (check_part part msg >>= λ m. done (k m))
  checked part parsed k x t = rw (check_part_lem part msg rest x) (_, refl, t)

  -- Where the signature goes on with the letter of a byte and the buffer is valid,
  -- `gck_rpc_message_read_byte` does not stop the process, takes the letter off the signature, and
  -- reads the next byte, or counts a failure if there is none.
  pub read_byte-Takes :
      Expects msg (codes "y" ++ rest)
      → Takes msg rest (Wire.read_byte (unread msg.buffer msg.parsed)) (read_byte msg)
  unfolding read_byte
  read_byte-Takes x =
      checked "y" _ (λ m. take_from m get_byte) x
        (take_from-TakesPair (advanced msg rest) get_byte _ (get_byte-Reads x.valid msg.parsed))

  -- Where the signature goes on with the letter of a number and the buffer is valid,
  -- `gck_rpc_message_read_ulong` does not stop the process, takes the letter off the signature, and
  -- reads the number in the next eight bytes, or counts a failure if there are fewer.
  pub read_ulong-Takes :
      Expects msg (codes "u" ++ rest)
      → Takes msg rest (Wire.read_be64 (unread msg.buffer msg.parsed)) (read_ulong msg)
  unfolding read_ulong
  read_ulong-Takes x =
      checked "u" _ (λ m. take_from m get_uint64) x
        (take_from-TakesPair (advanced msg rest) get_uint64 _ (get_uint64-Reads x.valid msg.parsed))

  -- Where the signature goes on with the letter of a version and the buffer is valid,
  -- `gck_rpc_message_read_version` does not stop the process, takes the letter off the signature, and
  -- reads the next two bytes, or counts a failure if there are fewer.
  pub read_version-Takes :
      Expects msg (codes "v" ++ rest)
      → Takes msg rest (version_of (unread msg.buffer msg.parsed)) (read_version msg)
  unfolding read_version
  read_version-Takes x =
      let start = advanced msg rest in
      checked "v" _ _ x (
        read_then-TakesPair start (Wire.read_byte (unread msg.buffer msg.parsed)) _ _ _
          (take_from-TakesPair start get_byte _ (get_byte-Reads x.valid msg.parsed))
          λ major left next same le. rw (← same) (
            read_then-TakesPair start (Wire.read_byte (unread msg.buffer next)) _ _ _
              (take_from-TakesPair (record start { parsed = next }) get_byte _
                (get_byte-Reads x.valid next))
              λ minor left' next' same' le'. (next', refl, same', le')))
