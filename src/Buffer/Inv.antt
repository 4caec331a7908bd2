-- ===== src/Buffer/Inv.antt =====
-- The representation invariant of `EggBuffer`, and the bytes that a buffer stands for.
use pkcs11_proxy.Common.{ℕ, ◌^◌, ◌≤◌, ◌<◌, min, ◌≡◌, some, List, length, take, All, IsByte}
use pkcs11_proxy.Buffer.{Buffer, Allocator}

-- What the C library says of `realloc`: the new block has the size asked for, it begins with the old
-- bytes as far as it reaches, and no block is larger than half the address space.
pub record IsRealloc (a : Allocator) : Type 0 where
  pub sized : (old : List ℕ) (n : ℕ) (new : List ℕ) → a.realloc old n ≡ some new → length new ≡ n
  pub kept :
      (old : List ℕ) (n : ℕ) (new : List ℕ)
      → a.realloc old n ≡ some new
      → take (min n (length old)) new ≡ take (min n (length old)) old
  pub bytes :
      (old : List ℕ) (n : ℕ) (new : List ℕ)
      → All IsByte old
      → a.realloc old n ≡ some new
      → All IsByte new
  pub bounded : (old : List ℕ) (n : ℕ) (new : List ℕ) → a.realloc old n ≡ some new → n < 2 ^ 63

pub record IsValid (b : Buffer) : Type 0 where
  pub sized : length b.buf ≡ b.allocated_len
  pub fits : b.len ≤ b.allocated_len
  pub bounded : b.allocated_len < 2 ^ 63
  pub bytes : All IsByte b.buf
  pub lawful : (a : Allocator) → b.allocator ≡ some a → IsRealloc a

-- The data in the buffer.
abbrev pub contents : Buffer → List ℕ
contents b = take b.len b.buf
