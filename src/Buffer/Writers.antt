-- ===== src/Buffer/Writers.antt =====
-- The writers of egg-buffer.c against the wire format.
use pkcs11_proxy.Common.{
  ℕ, ◌+◌, ◌/◌, ◌%◌, ◌^◌, ◌≤◌, ◌<◌, ◌≡◌, refl, ap, ◌∙◌, Bool, true, false, Option, none, some, List,
  [], ◌∷◌, ◌++◌, length, length-append, set, subst, write_at, leb, All, IsByte, add_size, sub_size,
  if◌then◌else◌, arith,
}
use pkcs11_proxy.Common.Bits.{bit_and_byte, bit_and_word}
use pkcs11_proxy.Wire.{be32, be64, array}
use pkcs11_proxy.Wire.RoundTrip.{be32-IsByte}
use pkcs11_proxy.Buffer.{Buffer, fail, reserve, append, add_byte}
use pkcs11_proxy.Buffer.Ints.{encode_uint32, set_uint32, add_uint32, add_uint64}
use pkcs11_proxy.Buffer.Arrays.{add_byte_array, length_limit, null_length}
use pkcs11_proxy.Buffer.Inv.{IsValid}
use pkcs11_proxy.Buffer.Reserve.{Reserved, reserve-Reserved}
use pkcs11_proxy.Buffer.Wrote.{Wrote, filled, filled-Wrote, refused-Wrote, Wrote-seq}

-- A writer's effect, with what its answer says.
pub record Writes (b : Buffer) (xs : List ℕ) (r : Buffer × Bool) : Type 0 where
  pub effect : Wrote b xs r.0
  pub accepted : r.1 ≡ true → r.0.failures ≡ b.failures
  pub refused : r.1 ≡ false → 0 < r.0.failures

module _ {b : Buffer} (xs : List ℕ) (v : IsValid b) (bytes : All IsByte xs) where
  room_made :
      length xs ≤ 2 ^ 62
      → let r = reserve b (add_size b.len (length xs)) in Reserved b (b.len + length xs) r.0 r.1
  room_made small =
      let size : add_size b.len (length xs) ≡ b.len + length xs =
        omega (arith, v.fits, v.bounded) in
      rw size (reserve-Reserved (b.len + length xs) v (omega arith))

  -- Every writer reserves, and then puts its bytes behind the data.
  Reserved-Writes :
      (step : Buffer → Buffer)
      → ((b' : Buffer) → Reserved b (b.len + length xs) b' true → step b' ≡ filled xs b')
      → (b' : Buffer) (done : Bool) → Reserved b (b.len + length xs) b' done
      → Writes b xs (if done then (step b', true) else (b', false))
  Reserved-Writes step same b' true room = record {
    effect = rw (same b' room) (filled-Wrote xs v bytes room);
    accepted = λ _. rw (same b' room) (room.room refl).1;
    refused = λ f. cc;
  }
  Reserved-Writes step same b' false room = record {
    effect = refused-Wrote xs v bytes room;
    accepted = λ f. cc;
    refused = λ _. omega (arith, ap (λ (c : Buffer). c.failures) (room.failed refl));
  }

  -- The new length does not wrap round.
  room_size :
      (b' : Buffer)
      → Reserved b (b.len + length xs) b' true
      → add_size b'.len (length xs) ≡ b'.len + length xs
  room_size b' r = omega (arith, r.same_len, (r.room refl).0, r.valid.bounded)

  -- Appending at most 2 ^ 62 bytes to a valid buffer leaves a valid buffer. If no failure is
  -- counted after it, none was before and the data is the old data with the bytes behind it; the
  -- answer says whether this failed.
  pub append-Writes : length xs ≤ 2 ^ 62 → Writes b xs (append b xs)
  unfolding append
  append-Writes small =
      Reserved-Writes _
        (λ b' r. ap (λ n. record b' { buf = write_at b'.buf b'.len xs; len = n }) (room_size b' r))
        _ _ (room_made small)

pub encode_uint32_lem : (v : ℕ) → encode_uint32 v ≡ be32 v
unfolding encode_uint32
encode_uint32_lem v =
    rw (
      bit_and_byte (v / 2 ^ 24),
      bit_and_byte (v / 2 ^ 16),
      bit_and_byte (v / 2 ^ 8),
      bit_and_byte v,
    )

-- `egg_buffer_add_byte` appends this byte to a valid buffer, or counts a failure.
pub add_byte-Writes : {b : Buffer} (x : ℕ) → IsValid b → IsByte x → Writes b (x ∷ []) (add_byte b x)
unfolding add_byte write_at
add_byte-Writes {b} x v h =
    Reserved-Writes (x ∷ []) v (h, tt) _
      (λ b' r.
        ap (λ n. record b' { buf = set b'.buf b'.len x; len = n })
          (room_size (x ∷ []) v (h, tt) b' r))
      _ _ (room_made (x ∷ []) v (h, tt) (omega arith))

-- `set_uint32` finds the four new bytes in range.
set_new_uint32 :
    (b : Buffer) (x at : ℕ)
    → at + 4 ≡ b.len
    → (set_uint32 b at x).0 ≡ record b { buf = write_at b.buf at (be32 x) }
unfolding set_uint32
set_new_uint32 b x at h = rw (← encode_uint32_lem x) (ground arith)

-- `egg_buffer_add_uint32` appends the low 32 bits of the number to a valid buffer, highest byte
-- first, or counts a failure.
pub add_uint32-Writes : {b : Buffer} (x : ℕ) → IsValid b → Writes b (be32 x) (add_uint32 b x)
unfolding add_uint32
add_uint32-Writes {b} x v =
    Reserved-Writes (be32 x) v (be32-IsByte x) _ same _ _
      (room_made (be32 x) v (be32-IsByte x) (omega arith))
  where
    same :
        (b' : Buffer)
        → Reserved b (b.len + 4) b' true
        → (set_uint32 (record b' { len = add_size b'.len 4 }) (sub_size (add_size b'.len 4) 4) x).0
          ≡ filled (be32 x) b'
    same b' r =
        let size = room_size (be32 x) v (be32-IsByte x) b' r in
        let start : sub_size (add_size b'.len 4) 4 ≡ b'.len =
          omega (arith, size, r.valid.fits, r.valid.bounded) in
        rw (start, size) (set_new_uint32 (record b' { len = b'.len + 4 }) x b'.len refl)

-- One writer after another that succeeded.
Writes-then :
    {b : Buffer} (xs ys : List ℕ) (b' : Buffer) (done : Bool) {next : Buffer × Bool}
    → IsValid b
    → Writes b xs (b', done)
    → Writes b' ys next
    → Writes b (xs ++ ys) (if done then next else (b', false))
Writes-then xs ys b' true v first then' = record {
  effect = Wrote-seq xs ys v first.effect then'.effect;
  accepted = λ e. then'.accepted e ∙ first.accepted refl;
  refused = then'.refused;
}
Writes-then {b} xs ys b' false v first then' = record {
  effect = record {
    valid = first.effect.valid;
    same_allocator = first.effect.same_allocator;
    written = λ e. absurd (omega (arith, first.refused refl));
    roomy = λ e h. absurd (
        omega
          (arith, first.refused refl, first.effect.roomy e (omega (arith, length-append xs ys))));
  };
  accepted = λ e. cc;
  refused = λ _. first.refused refl;
}

be64_low : (x : ℕ) → be32 (x / 2 ^ 32 % 2 ^ 32) ++ be32 (x % 2 ^ 32) ≡ be64 x
be64_low x = ground arith

-- `egg_buffer_add_uint64` appends the low 64 bits of the number to a valid buffer, highest byte
-- first, or counts a failure.
pub add_uint64-Writes : {b : Buffer} (x : ℕ) → IsValid b → Writes b (be64 x) (add_uint64 b x)
unfolding add_uint64
add_uint64-Writes {b} x v =
    rw (bit_and_word (x / 2 ^ 32), bit_and_word x)
      (subst (λ l. Writes b l (if r.1 then add_uint32 r.0 (x % 2 ^ 32) else (r.0, false)))
        (be64_low x)
        (Writes-then (be32 (x / 2 ^ 32 % 2 ^ 32)) (be32 (x % 2 ^ 32)) _ _ v hi
          (add_uint32-Writes (x % 2 ^ 32) hi.effect.valid)))
  where
    r : Buffer × Bool
    r = add_uint32 b (x / 2 ^ 32 % 2 ^ 32)

    hi : Writes b (be32 (x / 2 ^ 32 % 2 ^ 32)) r
    hi = add_uint32-Writes (x / 2 ^ 32 % 2 ^ 32) v

-- NULL, or bytes, less than 2 ^ 31 - 1 of them.
abbrev pub Sendable : Option (List ℕ) → Type 0
Sendable none = Unit {0}
Sendable (some xs) = All IsByte xs × (length xs < length_limit)

-- An array of less than 2 ^ 31 - 1 bytes, or NULL, goes out in the wire format.
pub add_byte_array-Writes :
    {b : Buffer} (val : Option (List ℕ))
    → IsValid b
    → Sendable val
    → Writes b (array val) (add_byte_array b val)
unfolding add_byte_array
add_byte_array-Writes none v h = add_uint32-Writes null_length v
add_byte_array-Writes {b} (some xs) v h =
    let small : leb length_limit (length xs) ≡ false = ground arith in
    let head = add_uint32-Writes {b = b} (length xs) v in
    rw small (
      Writes-then (be32 (length xs)) xs _ _ v head
        (append-Writes xs head.effect.valid h.0 (omega arith)))

-- A longer one is refused before anything is written.
pub add_byte_array_too_long :
    (b : Buffer) (xs : List ℕ)
    → length_limit ≤ length xs
    → add_byte_array b (some xs) ≡ (fail b, false)
unfolding add_byte_array
add_byte_array_too_long b xs h = ground arith
