-- ===== src/Common/Bits.antt =====
-- Shifts, masks and disjoint `|` on machine words, as arithmetic.
use Prim.Native.Nat.{
  ℕ, zero, suc, ◌+◌, ◌*◌, ◌/◌, ◌%◌, ◌^◌, ◌≤◌, ◌<◌, min, max, bit_and, bit_or, digits, bitwise,
  bit_and-bitwise, bit_or-bitwise,
}
use mathlib.Core.Path.{◌≡◌, refl, sym, ap, ◌∙◌}
use native.Mathlib.Nat.{le_refl, pow-suc}
use native.Mathlib.Omega.{arith}

-- The recursion on digits behind the native operations: `z` for the rest, `g` for two digits.
module _ (z : ℕ → ℕ) (g : ℕ → ℕ → ℕ) where
  digits_count : (a b n m : ℕ) → a ≤ n → a ≤ m → digits z g n a b ≡ digits z g m a b
  digits_count a b zero zero h k = refl
  digits_count zero b zero (suc m) h k = refl
  digits_count zero b (suc n) zero h k = refl
  digits_count zero b (suc n) (suc m) h k = refl
  digits_count (suc a) b zero (suc m) h k = absurd (omega arith)
  digits_count (suc a) b (suc n) zero h k = absurd (omega arith)
  digits_count (suc a) b (suc n) (suc m) h k =
      ap (λ r. r * 2 + g (suc a % 2) (b % 2))
        (digits_count (suc a / 2) (b / 2) n m (omega arith) (omega arith))

  bitwise_step :
      ((b : ℕ) → z b ≡ z (b / 2) * 2 + g 0 (b % 2))
      → (a b : ℕ) → bitwise z g a b ≡ bitwise z g (a / 2) (b / 2) * 2 + g (a % 2) (b % 2)
  bitwise_step law zero b = law b
  bitwise_step law (suc a) b =
      ap (λ r. r * 2 + g (suc a % 2) (b % 2))
        (digits_count (suc a / 2) (b / 2) a (suc a / 2) (omega arith) (omega arith))

pub bit_and_digit : (a b : ℕ) → bit_and a b ≡ bit_and (a / 2) (b / 2) * 2 + min (a % 2) (b % 2)
bit_and_digit a b =
    bit_and-bitwise a b
    ∙ bitwise_step (λ b. zero) min (λ b. omega arith) a b
    ∙ ap (λ r. r * 2 + min (a % 2) (b % 2)) (sym (bit_and-bitwise (a / 2) (b / 2)))

pub bit_or_digit : (a b : ℕ) → bit_or a b ≡ bit_or (a / 2) (b / 2) * 2 + max (a % 2) (b % 2)
bit_or_digit a b =
    bit_or-bitwise a b
    ∙ bitwise_step (λ b. b) max (λ b. omega arith) a b
    ∙ ap (λ r. r * 2 + max (a % 2) (b % 2)) (sym (bit_or-bitwise (a / 2) (b / 2)))

nothing_left : (n a : ℕ) → a ≤ n → (bit_and a 0 ≡ 0) × (bit_or a 0 ≡ a)
nothing_left n zero h = (refl, refl)
nothing_left zero (suc a) h = absurd (omega arith)
nothing_left (suc n) (suc a) h =
    let ih = nothing_left n (suc a / 2) (omega arith) in
    (omega (arith, bit_and_digit (suc a) 0, ih.0), omega (arith, bit_or_digit (suc a) 0, ih.1))

odd_mask : (a m k : ℕ) → k ≡ m * 2 + 1 → bit_and a k ≡ bit_and (a / 2) m * 2 + a % 2
odd_mask a m k e =
    let half : k / 2 ≡ m = omega arith in
    let rest : k % 2 ≡ 1 = omega arith in bit_and_digit a k ∙ rw (half, rest) (omega arith)

-- The eight lowest ones of a mask keep the low byte.
byte_mask : (a m : ℕ) → bit_and a (m * 256 + 255) ≡ bit_and (a / 256) m * 256 + a % 256
byte_mask a m =
    let whole : a / 2 / 2 / 2 / 2 / 2 / 2 / 2 / 2 ≡ a / 256 = omega arith in
    let low = rw whole at (odd_mask (a / 2 / 2 / 2 / 2 / 2 / 2 / 2) m (m * 2 + 1) refl) in
    omega (
      arith,
      odd_mask a (m * 128 + 127) (m * 256 + 255) (omega arith),
      odd_mask (a / 2) (m * 64 + 63) (m * 128 + 127) (omega arith),
      odd_mask (a / 2 / 2) (m * 32 + 31) (m * 64 + 63) (omega arith),
      odd_mask (a / 2 / 2 / 2) (m * 16 + 15) (m * 32 + 31) (omega arith),
      odd_mask (a / 2 / 2 / 2 / 2) (m * 8 + 7) (m * 16 + 15) (omega arith),
      odd_mask (a / 2 / 2 / 2 / 2 / 2) (m * 4 + 3) (m * 8 + 7) (omega arith),
      odd_mask (a / 2 / 2 / 2 / 2 / 2 / 2) (m * 2 + 1) (m * 4 + 3) (omega arith),
      low,
    )

pub bit_and_byte : (a : ℕ) → bit_and a 0xff ≡ a % 256
bit_and_byte a = omega (arith, byte_mask a 0, (nothing_left _ (a / 256) (le_refl _)).0)

pub bit_and_word : (a : ℕ) → bit_and a 0xffff_ffff ≡ a % 2 ^ 32
bit_and_word a = omega (
  arith,
  byte_mask a 0xff_ffff,
  byte_mask (a / 256) 0xffff,
  byte_mask (a / 256 / 256) 0xff,
  bit_and_byte (a / 256 / 256 / 256),
)

-- `|` of a shifted number and one that fits below it is a sum.
pub bit_or_shifted : (k a b : ℕ) → b < 2 ^ k → bit_or (a * 2 ^ k) b ≡ a * 2 ^ k + b
bit_or_shifted zero a zero h = (nothing_left _ (a * 2 ^ 0) (le_refl _)).1 ∙ omega arith
bit_or_shifted zero a (suc b) h = absurd (omega arith)
bit_or_shifted (suc k) a b h =
    let twice : a * 2 ^ suc k ≡ a * 2 ^ k * 2 = rw (pow-suc 2 k) (omega arith) in
    let half : a * 2 ^ k * 2 / 2 ≡ a * 2 ^ k = omega arith in
    let fits : b / 2 < 2 ^ k = omega (arith, pow-suc 2 k) in
    rw twice (
      omega
        (arith, bit_or_digit (a * 2 ^ k * 2) b, rw (← half) at (bit_or_shifted k a (b / 2) fits)))
