-- ===== src/Dispatch/Letters.antt =====
-- Several writers of gck-rpc-message.c in turn, and the letters that they take off the signature of a
-- response.
use pkcs11_proxy.Common.{
  ℕ, ◌≡◌, refl, ap, ◌∙◌, Bool, true, false, Bool-cases, inl, inr, some, List, [], ◌∷◌, ◌++◌,
  append_assoc, if◌then◌else◌, Outcome, done, abort,
}
use pkcs11_proxy.Message.{Message}
use pkcs11_proxy.Message.Letters.{Sends, Writer}
use pkcs11_proxy.Dispatch.Results.{in_turn}

pub in_turn_nil : Writer (in_turn []) []
unfolding in_turn
in_turn_nil = record {
  run = λ msg s rest signed e. record {
    result = _;
    returned = refl;
    same_id = refl;
    same_type = refl;
    same_signature = refl;
    moved = λ _. e;
  };
}

-- A writer behind another one.
Sends-then :
    (msg : Message) (middle rest : List ℕ) (out : Outcome (Message × Bool))
    (k : Message → Outcome (Message × Bool))
    → (a : Sends msg middle out) → (a.result.1 ≡ true → Sends a.result.0 rest (k a.result.0))
    → Sends msg rest
        (elim out [ done (m', ok) ↦ if ok then k m' else done (m', false) | abort ↦ abort ])
Sends-then msg middle rest out k a f = elim (Bool-cases a.result.1) [
  | inl ok ↦
      let b = f ok in
      rw (a.returned, ok)
        (record {
          result = b.result;
          returned = b.returned;
          same_id = b.same_id ∙ a.same_id;
          same_type = b.same_type ∙ a.same_type;
          same_signature = b.same_signature ∙ a.same_signature;
          moved = b.moved;
        })
  | inr failed ↦
      rw (a.returned, failed)
        (record {
          result = (a.result.0, false);
          returned = refl;
          same_id = a.same_id;
          same_type = a.same_type;
          same_signature = a.same_signature;
          moved = λ bad. cc;
        })
]

-- The writers in turn have their letters in turn.
pub in_turn_cons :
    {write : Message → Outcome (Message × Bool)} {letters more : List ℕ}
    (writes : List (Message → Outcome (Message × Bool)))
    → Writer write letters
    → Writer (in_turn writes) more
    → Writer (in_turn (write ∷ writes)) (letters ++ more)
unfolding in_turn
in_turn_cons {letters = letters} {more = more} writes f g = record {
  run = λ msg s rest signed e.
      let a = f.run msg s (more ++ rest) signed (e ∙ ap some (append_assoc letters more rest)) in
      Sends-then msg (more ++ rest) rest _ _ a
        λ ok. g.run a.result.0 s rest (a.same_signature ∙ signed) (a.moved ok);
}
