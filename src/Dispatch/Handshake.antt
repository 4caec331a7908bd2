-- ===== src/Dispatch/Handshake.antt =====
-- The greeting that C_Initialize of gck-rpc-dispatch.c expects.
use pkcs11_proxy.Common.{
  ℕ, ◌≡◌, refl, ap, ap₂, ◌∙◌, true, Option, none, some, List, [], ◌∷◌, length, list_eq, arith,
}
use pkcs11_proxy.Dispatch.Calls.Slots.{handshake, is_handshake}

list_eq-eq : (xs ys : List ℕ) → list_eq xs ys ≡ true → xs ≡ ys
unfolding list_eq
list_eq-eq [] [] e = refl
list_eq-eq [] (y ∷ ys) e = absurd cc
list_eq-eq (x ∷ xs) [] e = absurd cc
list_eq-eq (x ∷ xs) (y ∷ ys) e = ap₂ (λ z l. z ∷ l) (ground arith) (list_eq-eq xs ys (ground arith))

handshake_accepted : is_handshake (some handshake) (length handshake) ≡ true
unfolding is_handshake list_eq
handshake_accepted = refl

-- A greeting is accepted only if it is the handshake of the protocol, whole and nothing more; and the
-- handshake with its length is accepted.
pub is_handshake_iff :
    (greeting : Option (List ℕ)) (n : ℕ)
    → (is_handshake greeting n ≡ true → (greeting ≡ some handshake) × (n ≡ length handshake))
      × (greeting ≡ some handshake → n ≡ length handshake → is_handshake greeting n ≡ true)
unfolding is_handshake list_eq
is_handshake_iff none n = (λ e. absurd cc, λ e h. absurd cc)
is_handshake_iff (some bytes) n = (
  λ e. (ap some (list_eq-eq bytes handshake (ground arith)), ground arith),
  λ e h.
      let same : bytes ≡ handshake = cc in
      ap₂ (λ b k. is_handshake (some b) k) same h ∙ handshake_accepted,
)
