-- ===== src/Buffer/Appended.antt =====
-- What the writers of egg-buffer.c append, its readers take back from where it was appended.
use pkcs11_proxy.Common.{
  ℕ, ◌%◌, ◌^◌, ◌<◌, ◌≡◌, sym, ap, ◌∙◌, subst, Bool, Option, none, some, List, [], ◌++◌, append-nil,
  length, drop, drop-append,
}
use pkcs11_proxy.Wire.{be32, be64, array, read_be32, read_be64, read_array}
use pkcs11_proxy.Wire.RoundTrip.{read_be32_low, read_be64-be64, read_array-array}
use pkcs11_proxy.Buffer.{Buffer}
use pkcs11_proxy.Buffer.Ints.{add_uint32, get_uint32, add_uint64, get_uint64}
use pkcs11_proxy.Buffer.Arrays.{add_byte_array, get_byte_array, length_limit}
use pkcs11_proxy.Buffer.Inv.{IsValid, contents}
use pkcs11_proxy.Buffer.Unread.{unread}
use pkcs11_proxy.Buffer.Wrote.{length-contents}
use pkcs11_proxy.Buffer.Writers.{
  Writes, Sendable, add_uint32-Writes, add_uint64-Writes, add_byte_array-Writes,
}
use pkcs11_proxy.Buffer.Readers.{Reads, get_uint32-Reads, get_uint64-Reads, get_byte_array-Reads}

-- What is behind the old data.
pub unread-Writes :
    {b : Buffer} (xs : List ℕ) {r : Buffer × Bool}
    → IsValid b
    → Writes b xs r
    → r.0.failures ≡ 0
    → unread r.0 b.len ≡ xs ++ []
unread-Writes {b} xs v w e =
    ap (drop b.len) (w.effect.written e).1
    ∙ drop-append (contents b) xs b.len (sym (length-contents v))
    ∙ sym (append-nil xs)

-- A number that was added without a failure is read back from where it was put, cut to 32 bits.
pub get_uint32-add_uint32 :
    (b : Buffer) (x : ℕ)
    → IsValid b
    → (add_uint32 b x).0.failures ≡ 0
    → let b' = (add_uint32 b x).0 in Reads b' (some (x % 2 ^ 32, [])) (get_uint32 b' b.len)
get_uint32-add_uint32 b x v e =
    let w = add_uint32-Writes x v in
    subst (λ p. Reads (add_uint32 b x).0 p (get_uint32 (add_uint32 b x).0 b.len))
      (ap read_be32 (unread-Writes (be32 x) v w e) ∙ read_be32_low x [])
      (get_uint32-Reads w.effect.valid b.len)

-- A number of 64 bits that was added without a failure is read back from where it was put.
pub get_uint64-add_uint64 :
    (b : Buffer) (x : ℕ)
    → IsValid b
    → x < 2 ^ 64
    → (add_uint64 b x).0.failures ≡ 0
    → let b' = (add_uint64 b x).0 in Reads b' (some (x, [])) (get_uint64 b' b.len)
get_uint64-add_uint64 b x v h e =
    let w = add_uint64-Writes x v in
    subst (λ p. Reads (add_uint64 b x).0 p (get_uint64 (add_uint64 b x).0 b.len))
      (ap read_be64 (unread-Writes (be64 x) v w e) ∙ read_be64-be64 x [] h)
      (get_uint64-Reads w.effect.valid b.len)

-- An array, or NULL, that was added without a failure is read back from where it was put.
pub get_byte_array-add_byte_array :
    (b : Buffer) (val : Option (List ℕ))
    → IsValid b
    → Sendable val
    → (add_byte_array b val).0.failures ≡ 0
    → let b' = (add_byte_array b val).0 in Reads b' (some (val, [])) (get_byte_array b' b.len)
get_byte_array-add_byte_array b val v h e =
    let w = add_byte_array-Writes val v h in
    subst (λ p. Reads (add_byte_array b val).0 p (get_byte_array (add_byte_array b val).0 b.len))
      (ap read_array (unread-Writes (array val) v w e) ∙ read_array-array val [] (short val h))
      (get_byte_array-Reads w.effect.valid b.len)
  where
    short :
        (val : Option (List ℕ))
        → Sendable val
        → (l : List ℕ) → val ≡ some l
        → length l < 0x7fff_ffff
    short none h l e = absurd cc
    short (some xs) h l e = let same : xs ≡ l = cc in subst (λ t. length t < length_limit) same h.1
