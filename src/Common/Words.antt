-- ===== src/Common/Words.antt =====
-- `size_t` and `uint32_t` arithmetic on a machine whose `size_t` has 64 bits.
use Prim.Native.Nat.{ℕ, ◌+◌, ◌-◌, ◌*◌, ◌%◌, ◌^◌, ◌<◌}

abbrev pub add_size : ℕ → ℕ → ℕ
add_size a b = (a + b) % 2 ^ 64

abbrev pub sub_size : ℕ → ℕ → ℕ
sub_size a b = (a + 2 ^ 64 - b) % 2 ^ 64

abbrev pub mul_size : ℕ → ℕ → ℕ
mul_size a b = a * b % 2 ^ 64

-- The conversion to `uint32_t` at a call.
abbrev pub to_u32 : ℕ → ℕ
to_u32 a = a % 2 ^ 32

abbrev pub IsByte : ℕ → Type 0
IsByte b = b < 256
