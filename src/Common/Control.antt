-- ===== src/Common/Control.antt =====
-- What a C function may do: return, jump to its label `_cleanup`, or stop the process by a failed `assert`.
use Prim.Native.Nat.{ℕ}
use mathlib.Core.Path.{◌≡◌, refl}
use mathlib.Core.Bool.{Bool, true, false}

pub data Outcome {ℓ} (A : Type ℓ) : Type ℓ where
  done : A → Outcome A
  abort : Outcome A

infixl 5 ◌>>=◌ ◌>>◌
abbrev pub ◌>>=◌ {ℓ κ} : {A : Type ℓ} {B : Type κ} → Outcome A → (A → Outcome B) → Outcome B
done a >>= f = f a
abort >>= f = abort

abbrev pub ◌>>◌ {ℓ} : {B : Type ℓ} → Outcome (Unit {0}) → Outcome B → Outcome B
m >> k = m >>= λ _. k

-- `assert (b)`
abbrev pub assert : Bool → Outcome (Unit {0})
assert true = done tt
assert false = abort

-- Inversion of a sequence that returned.
pub >>=-eq-done {ℓ κ} :
    {A : Type ℓ} {B : Type κ} (m : Outcome A) (f : A → Outcome B) {b : B}
    → (m >>= f) ≡ done b
    → (a : A) × (m ≡ done a) × (f a ≡ done b)
>>=-eq-done (done a) f h = (a, refl, h)
>>=-eq-done abort f h = cc

-- A part of a handler has a value for the next part, or has set `_ret` and jumps to `_cleanup`.
pub data Step (A : Type 0) : Type 0 where
  value : A → Step A
  cleanup : ℕ → Step A
