-- ===== src/Tests/Buffers.antt =====
-- An allocator and a buffer, and the properties of egg-buffer.c at them.
use pkcs11_proxy.Common.{
  ℕ, zero, suc, ◌^◌, ◌≤◌, ◌<◌, min, ◌≡◌, refl, sym, subst, ap, ◌∙◌, Bool-cases, inl, inr, Option,
  none, some, List, [], ◌∷◌, length, take, write_at, All, IsByte, ltb, if◌then◌else◌, arith,
}
use pkcs11_proxy.Wire.{array, read_be64, read_array}
use pkcs11_proxy.Buffer.{Allocator, Buffer, reserve, append}
use pkcs11_proxy.Buffer.Ints.{add_uint32, add_uint64, get_uint64, set_uint32}
use pkcs11_proxy.Buffer.Arrays.{add_byte_array, get_byte_array}
use pkcs11_proxy.Buffer.Reserve.{Reserved, reserve-Reserved}
use pkcs11_proxy.Buffer.Writers.{Writes, append-Writes, add_byte_array-Writes}
use pkcs11_proxy.Buffer.Unread.{unread}
use pkcs11_proxy.Buffer.Readers.{Reads, get_uint64-Reads, get_byte_array-Reads}
use pkcs11_proxy.Buffer.Appended.{get_uint64-add_uint64, get_byte_array-add_byte_array}
use pkcs11_proxy.Buffer.Inv.{IsRealloc, IsValid}

-- The old bytes as far as they reach, and zeros.
abbrev resized : List ℕ → ℕ → List ℕ
resized old zero = []
resized [] (suc n) = 0 ∷ resized [] n
resized (x ∷ old) (suc n) = x ∷ resized old n

abbrev test_realloc : List ℕ → ℕ → Option (List ℕ)
test_realloc old n = if ltb n (2 ^ 63) then some (resized old n) else none

abbrev pub test_allocator : Allocator
test_allocator = record { addr = 1; realloc = test_realloc }

length-resized : (old : List ℕ) (n : ℕ) → length (resized old n) ≡ n
length-resized old zero = refl
length-resized [] (suc n) = ap suc (length-resized [] n)
length-resized (x ∷ old) (suc n) = ap suc (length-resized old n)

take-resized :
    (old : List ℕ) (n k : ℕ) → k ≤ n → k ≤ length old → take k (resized old n) ≡ take k old
take-resized old n zero h l = refl
take-resized old zero (suc k) h l = absurd (omega arith)
take-resized [] (suc n) (suc k) h l = absurd (omega arith)
take-resized (x ∷ old) (suc n) (suc k) h l =
    ap (λ t. x ∷ t) (take-resized old n k (omega arith) (omega arith))

resized-IsByte : (old : List ℕ) (n : ℕ) → All IsByte old → All IsByte (resized old n)
resized-IsByte old zero h = tt
resized-IsByte [] (suc n) h = (omega arith, resized-IsByte [] n tt)
resized-IsByte (x ∷ old) (suc n) (b, h) = (b, resized-IsByte old n h)

-- What a block that was given is.
given :
    (old : List ℕ) (n : ℕ) (new : List ℕ)
    → test_realloc old n ≡ some new
    → (n < 2 ^ 63) × (resized old n ≡ new)
given old n new e = elim (Bool-cases (ltb n (2 ^ 63))) [
  | inl small ↦
      (ground arith, some-inj (sym (ap (λ b. if b then some (resized old n) else none) small) ∙ e))
  | inr large ↦
      absurd (none-some (sym (ap (λ b. if b then some (resized old n) else none) large) ∙ e))
]
  where
    some-inj : {x y : List ℕ} → ◌≡◌ {A = Option (List ℕ)} (some x) (some y) → x ≡ y
    some-inj e = cc

    none-some : {x : List ℕ} → ◌≡◌ {A = Option (List ℕ)} none (some x) → ⊥
    none-some e = cc

pub test_allocator-IsRealloc : IsRealloc test_allocator
test_allocator-IsRealloc = record {
  sized = λ old n new e. sym (ap length (given old n new e).1) ∙ length-resized old n;
  kept = λ old n new e.
      sym (ap (take (min n (length old))) (given old n new e).1)
      ∙ take-resized old n (min n (length old)) (omega arith) (omega arith);
  bytes = λ old n new h e. subst (All IsByte) (given old n new e).1 (resized-IsByte old n h);
  bounded = λ old n new e. (given old n new e).0;
}

-- A buffer of four bytes with one byte of data, and an allocator.
abbrev pub small_buffer : Buffer
small_buffer = record {
  buf = 7 ∷ 255 ∷ 0 ∷ 0 ∷ [];
  len = 1;
  allocated_len = 4;
  failures = 0;
  allocator = some test_allocator;
}

pub small_buffer-IsValid : IsValid small_buffer
small_buffer-IsValid = record {
  sized = refl;
  fits = omega arith;
  bounded = omega arith;
  bytes = omega arith;
  lawful = λ a e. subst IsRealloc (same a e) test_allocator-IsRealloc;
}
  where
    same :
        (a : Allocator)
        → ◌≡◌ {A = Option Allocator} (some test_allocator) (some a)
        → test_allocator ≡ a
    same a e = cc

reserve-Reserved_example :
    Reserved small_buffer 9 (reserve small_buffer 9).0 (reserve small_buffer 9).1
reserve-Reserved_example = reserve-Reserved 9 small_buffer-IsValid (omega arith)

append-Writes_example : Writes small_buffer (1 ∷ 2 ∷ 3 ∷ []) (append small_buffer (1 ∷ 2 ∷ 3 ∷ []))
append-Writes_example =
    append-Writes (1 ∷ 2 ∷ 3 ∷ []) small_buffer-IsValid (omega arith) (omega arith)

add_byte_array-Writes_example :
    Writes small_buffer
      (array (some (1 ∷ 2 ∷ [])))
      (add_byte_array small_buffer (some (1 ∷ 2 ∷ [])))
add_byte_array-Writes_example =
    add_byte_array-Writes (some (1 ∷ 2 ∷ [])) small_buffer-IsValid (omega arith, omega arith)

-- Nine bytes of data: an array of two, and a number.
abbrev pub data_buffer : Buffer
data_buffer = record {
  buf = 0 ∷ 0 ∷ 0 ∷ 2 ∷ 65 ∷ 66 ∷ 0 ∷ 0 ∷ 0 ∷ 0 ∷ [];
  len = 9;
  allocated_len = 10;
  failures = 0;
  allocator = none;
}

pub data_buffer-IsValid : IsValid data_buffer
data_buffer-IsValid = record {
  sized = refl;
  fits = omega arith;
  bounded = omega arith;
  bytes = omega arith;
  lawful = λ a e. cc;
}

get_uint64-Reads_example :
    Reads data_buffer (read_be64 (unread data_buffer 1)) (get_uint64 data_buffer 1)
get_uint64-Reads_example = get_uint64-Reads data_buffer-IsValid 1

get_byte_array-Reads_example :
    Reads data_buffer (read_array (unread data_buffer 0)) (get_byte_array data_buffer 0)
get_byte_array-Reads_example = get_byte_array-Reads data_buffer-IsValid 0

-- A buffer with room for sixteen bytes.
abbrev pub roomy_buffer : Buffer
roomy_buffer = record {
  buf = 9 ∷ 0 ∷ 0 ∷ 0 ∷ 0 ∷ 0 ∷ 0 ∷ 0 ∷ 0 ∷ 0 ∷ 0 ∷ 0 ∷ 0 ∷ 0 ∷ 0 ∷ 0 ∷ [];
  len = 1;
  allocated_len = 16;
  failures = 0;
  allocator = none;
}

pub roomy_buffer-IsValid : IsValid roomy_buffer
roomy_buffer-IsValid = record {
  sized = refl;
  fits = omega arith;
  bounded = omega arith;
  bytes = omega arith;
  lawful = λ a e. cc;
}

get_uint64-add_uint64_example :
    Reads
      (add_uint64 roomy_buffer 5000000000).0
      (some (5000000000, []))
      (get_uint64 (add_uint64 roomy_buffer 5000000000).0 1)
unfolding add_uint64 add_uint32 reserve set_uint32
get_uint64-add_uint64_example =
    get_uint64-add_uint64 roomy_buffer 5000000000 roomy_buffer-IsValid (omega arith) refl

get_byte_array-add_byte_array_example :
    Reads
      (add_byte_array roomy_buffer (some (1 ∷ 2 ∷ []))).0
      (some (some (1 ∷ 2 ∷ []), []))
      (get_byte_array (add_byte_array roomy_buffer (some (1 ∷ 2 ∷ []))).0 1)
unfolding add_byte_array add_uint32 reserve set_uint32 append write_at
get_byte_array-add_byte_array_example =
    get_byte_array-add_byte_array roomy_buffer (some (1 ∷ 2 ∷ [])) roomy_buffer-IsValid
      (omega arith, omega arith) refl
