-- ===== src/Message/Texts.antt =====
-- The signatures of `gck_rpc_calls` (gck-rpc-private.h) are texts that a message can carry.
use pkcs11_proxy.Common.{
  ℕ, zero, suc, ◌≡◌, refl, subst, Bool, true, ◌&&◌, Option-cases, inl, inr, Option, none, some,
  List, [], ◌∷◌, length, ltb, done, All, IsByte, arith,
}
use pkcs11_proxy.Calls.{Call, calls, get_elem?, request_of, response_of}
use pkcs11_proxy.Buffer.Writers.{Sendable}
use pkcs11_proxy.Message.{MessageType, request, response, no_type, signature_of}

-- The signatures of the table are short texts.
all_bytes : List ℕ → Bool
all_bytes [] = true
all_bytes (x ∷ xs) = ltb x 256 && all_bytes xs

is_short : Option (List ℕ) → Bool
is_short none = true
is_short (some text) = all_bytes text && ltb (length text) 100

all_short : List Call → Bool
all_short [] = true
all_short (c ∷ cs) = is_short c.request && (is_short c.response && all_short cs)

calls_short : all_short calls ≡ true
unfolding calls all_short is_short all_bytes
calls_short = refl

all_bytes-IsByte : (xs : List ℕ) → all_bytes xs ≡ true → All IsByte xs
unfolding all_bytes
all_bytes-IsByte [] h = tt
all_bytes-IsByte (x ∷ xs) h = (ground arith, all_bytes-IsByte xs (ground arith))

is_short-Sendable : (sig : Option (List ℕ)) → is_short sig ≡ true → Sendable sig
unfolding is_short
is_short-Sendable none h = tt
is_short-Sendable (some text) h = (all_bytes-IsByte text (ground arith), ground arith)

row_short :
    (cs : List Call) (i : ℕ) (c : Call)
    → all_short cs ≡ true
    → get_elem? cs i ≡ some c
    → (is_short c.request ≡ true) × (is_short c.response ≡ true)
unfolding all_short get_elem?
row_short [] i c h e = absurd cc
row_short (d ∷ cs) zero c h e =
    let same : d ≡ c = cc in
    subst (λ (x : Call). (is_short x.request ≡ true) × (is_short x.response ≡ true)) same
      (ground arith, ground arith)
row_short (d ∷ cs) (suc i) c h e = row_short cs i c (ground arith) e

pub signature-Sendable :
    (type : MessageType) (c : ℕ) (text : List ℕ)
    → signature_of c type ≡ done (some text)
    → Sendable (some text)
unfolding request_of response_of
signature-Sendable no_type c text e = absurd cc
signature-Sendable request c text e = elim (Option-cases (get_elem? calls c)) [
  | inl f ↦ absurd cc
  | inr (row, f) ↦
      let same : row.request ≡ some text = cc in
      subst Sendable same (is_short-Sendable row.request (row_short calls c row calls_short f).0)
]
signature-Sendable response c text e = elim (Option-cases (get_elem? calls c)) [
  | inl f ↦ absurd cc
  | inr (row, f) ↦
      let same : row.response ≡ some text = cc in
      subst Sendable same (is_short-Sendable row.response (row_short calls c row calls_short f).1)
]
