-- ===== src/Common/Lists.antt =====
-- Lists measured and indexed by native numbers, under the library's names, and blocks of memory.
use Prim.Native.Nat.{ℕ, zero, suc, ◌+◌, ◌-◌, ◌<◌, ◌≤◌, min}
use mathlib.Core.Path.{◌≡◌, refl, ap, sym, ◌∙◌}
use mathlib.Core.Bool.{Bool, true, false, ◌&&◌}
use pkcs11_proxy.Common.Tests.{◌==◌, ==_refl}
use mathlib.Core.List.{List, [], ◌∷◌, ◌++◌, append_assoc, append-nil}
use native.Mathlib.Omega.{arith}

module _ {ℓ} {A : Type ℓ} where
  abbrev pub length : List A → ℕ
  length [] = 0
  length (x ∷ xs) = suc (length xs)

  abbrev pub get_or : List A → ℕ → A → A
  get_or [] i d = d
  get_or (x ∷ xs) zero d = x
  get_or (x ∷ xs) (suc i) d = get_or xs i d

  -- A write out of bounds changes nothing.
  abbrev pub set : List A → ℕ → A → List A
  set [] i v = []
  set (x ∷ xs) zero v = v ∷ xs
  set (x ∷ xs) (suc i) v = x ∷ set xs i v

  abbrev pub take : ℕ → List A → List A
  take zero xs = []
  take (suc n) [] = []
  take (suc n) (x ∷ xs) = x ∷ take n xs

  abbrev pub drop : ℕ → List A → List A
  drop zero xs = xs
  drop (suc n) [] = []
  drop (suc n) (x ∷ xs) = drop n xs

  abbrev pub replicate : ℕ → A → List A
  replicate zero a = []
  replicate (suc n) a = a ∷ replicate n a

  abbrev pub All {κ} : (A → Type κ) → List A → Type κ
  All P [] = Unit {κ}
  All P (x ∷ xs) = P x × All P xs

  -- `memcpy (block + i, vs, length vs)`; what would fall outside the block is not written.
  unfoldable pub write_at : List A → ℕ → List A → List A
  write_at block i [] = block
  write_at block i (v ∷ vs) = write_at (set block i v) (suc i) vs

  -- `memset (block, v, n)`
  unfoldable pub memset : List A → A → ℕ → List A
  memset [] v n = []
  memset (x ∷ xs) v zero = x ∷ xs
  memset (x ∷ xs) v (suc n) = v ∷ memset xs v n

-- `memcmp` and `strcmp` as far as the result is 0
unfoldable pub list_eq : List ℕ → List ℕ → Bool
list_eq [] [] = true
list_eq [] (y ∷ ys) = false
list_eq (x ∷ xs) [] = false
list_eq (x ∷ xs) (y ∷ ys) = x == y && list_eq xs ys

pub list_eq_refl : (l : List ℕ) → list_eq l l ≡ true
unfolding list_eq
list_eq_refl [] = refl
list_eq_refl (x ∷ l) = rw (==_refl x, list_eq_refl l) refl

module _ {ℓ} {A : Type ℓ} where
  pub length-append : (xs ys : List A) → length (xs ++ ys) ≡ length xs + length ys
  length-append [] ys = omega arith
  length-append (x ∷ xs) ys = omega (arith, length-append xs ys)

  pub length-set : (xs : List A) (i : ℕ) (v : A) → length (set xs i v) ≡ length xs
  length-set [] i v = refl
  length-set (x ∷ xs) zero v = refl
  length-set (x ∷ xs) (suc i) v = ap suc (length-set xs i v)

  pub length-take : (n : ℕ) (xs : List A) → length (take n xs) ≡ min n (length xs)
  length-take zero xs = omega arith
  length-take (suc n) [] = omega arith
  length-take (suc n) (x ∷ xs) = omega (arith, length-take n xs)

  pub length-drop : (n : ℕ) (xs : List A) → length (drop n xs) ≡ length xs - n
  length-drop zero xs = omega arith
  length-drop (suc n) [] = omega arith
  length-drop (suc n) (x ∷ xs) = omega (arith, length-drop n xs)

  pub length-replicate : (n : ℕ) (a : A) → length (replicate n a) ≡ n
  length-replicate zero a = refl
  length-replicate (suc n) a = ap suc (length-replicate n a)

  pub take-append-drop : (n : ℕ) (xs : List A) → take n xs ++ drop n xs ≡ xs
  take-append-drop zero xs = refl
  take-append-drop (suc n) [] = refl
  take-append-drop (suc n) (x ∷ xs) = rw (take-append-drop n xs)

  pub take-take : (n m : ℕ) (xs : List A) → n ≤ m → take n (take m xs) ≡ take n xs
  take-take zero m xs h = refl
  take-take (suc n) zero xs h = absurd (omega arith)
  take-take (suc n) (suc m) [] h = refl
  take-take (suc n) (suc m) (x ∷ xs) h = ap (λ r. x ∷ r) (take-take n m xs (omega arith))

  pub take_all : (n : ℕ) (xs : List A) → length xs ≤ n → take n xs ≡ xs
  take_all zero [] h = refl
  take_all zero (x ∷ xs) h = absurd (omega arith)
  take_all (suc n) [] h = refl
  take_all (suc n) (x ∷ xs) h = ap (λ r. x ∷ r) (take_all n xs (omega arith))

  pub take-append : (xs ys : List A) (n : ℕ) → n ≡ length xs → take n (xs ++ ys) ≡ xs
  take-append [] ys zero e = refl
  take-append [] ys (suc n) e = absurd (omega arith)
  take-append (x ∷ xs) ys zero e = absurd (omega arith)
  take-append (x ∷ xs) ys (suc n) e = ap (λ r. x ∷ r) (take-append xs ys n (omega arith))

  pub drop-append : (xs ys : List A) (n : ℕ) → n ≡ length xs → drop n (xs ++ ys) ≡ ys
  drop-append [] ys zero e = refl
  drop-append [] ys (suc n) e = absurd (omega arith)
  drop-append (x ∷ xs) ys zero e = absurd (omega arith)
  drop-append (x ∷ xs) ys (suc n) e = drop-append xs ys n (omega arith)

  pub drop_nil : (k : ℕ) → drop {A = A} k [] ≡ []
  drop_nil zero = refl
  drop_nil (suc k) = refl

  pub drop-drop : (n m : ℕ) (xs : List A) → drop n (drop m xs) ≡ drop (m + n) xs
  drop-drop n zero xs = let e : n ≡ zero + n = omega arith in ap (λ k. drop k xs) e
  drop-drop n (suc m) [] =
      let e : suc (m + n) ≡ suc m + n = omega arith in drop_nil n ∙ ap (λ k. drop {A = A} k []) e
  drop-drop n (suc m) (x ∷ xs) =
      let e : suc (m + n) ≡ suc m + n = omega arith in
      drop-drop n m xs ∙ ap (λ k. drop k (x ∷ xs)) e

  pub take-succ :
      (i : ℕ) (xs : List A) (v d : A)
      → i < length xs
      → take (suc i) (set xs i v) ≡ take i xs ++ (v ∷ [])
  take-succ i [] v d h = absurd (omega arith)
  take-succ zero (x ∷ xs) v d h = refl
  take-succ (suc i) (x ∷ xs) v d h = ap (λ r. x ∷ r) (take-succ i xs v d (omega arith))

  pub length-write_at : (xs : List A) (i : ℕ) (vs : List A) → length (write_at xs i vs) ≡ length xs
  unfolding write_at
  length-write_at xs i [] = refl
  length-write_at xs i (v ∷ vs) = length-write_at (set xs i v) (suc i) vs ∙ length-set xs i v

  -- Written behind the first `i`, the new elements extend what is kept.
  pub take-write_at :
      (xs : List A) (i n : ℕ) (vs : List A)
      → n ≡ i + length vs
      → n ≤ length xs
      → take n (write_at xs i vs) ≡ take i xs ++ vs
  unfolding write_at
  take-write_at xs i n [] e h =
      let e' : n ≡ i = omega arith in ap (λ k. take k xs) e' ∙ sym (append-nil (take i xs))
  take-write_at xs i n (v ∷ vs) e h =
      take-write_at (set xs i v) (suc i) n vs (omega arith) (omega (arith, length-set xs i v))
      ∙ ap (λ r. r ++ vs) (take-succ i xs v v (omega arith))
      ∙ append_assoc (take i xs) (v ∷ []) vs
