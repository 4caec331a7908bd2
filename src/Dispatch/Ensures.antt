-- ===== src/Dispatch/Ensures.antt =====
-- How a handler moves along the signatures of its call: a triple for its parts, in which a part that
-- jumps to `_cleanup` has an error to report, and no part stops the process.
use pkcs11_proxy.Common.{
  ℕ, ◌≡◌, refl, sym, ap, ◌∙◌, ◌≢◌, Bool, true, false, Option-cases, inl, inr, Option, none, some,
  List, [], ◌∷◌, ◌++◌, codes, ltb, ◌==◌, if◌then◌else◌, Outcome, done, abort, arith,
}
use pkcs11_proxy.Common
use Prim.Native.String.{String}
use pkcs11_proxy.Pkcs11.{ckr_ok}
use pkcs11_proxy.Buffer.{Buffer}
use pkcs11_proxy.Message.{Message, response, check_part, take_from, is_verified}
use pkcs11_proxy.Message.Advance.{advanced, verify_part_lem}
use pkcs11_proxy.Dispatch.{
  World, Step, Handler, value, cleanup, ◌>>=◌, ◌>>◌, pure, goto_cleanup, on_req, assert_that,
}
use pkcs11_proxy.Dispatch.Proto.{expect, field, or_parse_error, parse_error}
use pkcs11_proxy.Dispatch.Library.{Reply, begin_call, run_module, process_call}

-- What stays the same during a call: its number, and its signatures.
pub record Frame : Type 0 where
  pub id : ℕ
  pub asked : List ℕ
  pub answered : List ℕ

-- The call `f` has read its request up to `q`, and written its response up to `r`.
pub record At (f : Frame) (q r : List ℕ) (req resp : Message) : Type 0 where
  pub req_id : req.call_id ≡ f.id
  pub req_signature : req.signature ≡ some f.asked
  pub req_rest : req.sigverify ≡ some q
  pub resp_id : resp.call_id ≡ f.id
  pub resp_type : resp.call_type ≡ response
  pub resp_signature : resp.signature ≡ some f.answered
  pub resp_rest : resp.sigverify ≡ some r

check_part-At :
    {f : Frame} {r : List ℕ} {req resp : Message} (part : String) (q : List ℕ)
    → At f (codes part ++ q) r req resp
    → check_part part req ≡ done (advanced req q)
unfolding check_part
check_part-At {req = req} part q p =
    let signed = p.req_signature in ground (arith, verify_part_lem req (codes part) q p.req_rest)

At-verified :
    {f : Frame} {r : List ℕ} {req resp : Message} → At f [] r req resp → is_verified req ≡ true
unfolding is_verified
At-verified p = rw p.req_rest refl

At-advanced :
    {f : Frame} {q q' r : List ℕ} {req resp : Message}
    → At f q' r req resp
    → At f q r (advanced req q) resp
At-advanced p = record {
  req_id = p.req_id;
  req_signature = p.req_signature;
  req_rest = refl;
  resp_id = p.resp_id;
  resp_type = p.resp_type;
  resp_signature = p.resp_signature;
  resp_rest = p.resp_rest;
}

-- The signatures do not look at the buffers.
pub At-buffer :
    {f : Frame} {q r : List ℕ} {req resp : Message} (b : Buffer) (n : ℕ)
    → At f q r req resp
    → At f q r (record req { buffer = b; parsed = n }) resp
At-buffer b n p = record {
  req_id = p.req_id;
  req_signature = p.req_signature;
  req_rest = p.req_rest;
  resp_id = p.resp_id;
  resp_type = p.resp_type;
  resp_signature = p.resp_signature;
  resp_rest = p.resp_rest;
}

-- A reader of the buffer leaves the signature where it is.
pub take_from-At :
    {A : Type 0} {f : Frame} {q r : List ℕ} {req resp : Message}
    (get : Buffer → ℕ → Buffer × Option (A × ℕ))
    → At f q r req resp
    → At f q r (take_from req get).0 resp
take_from-At {req = req} get p = elim (Option-cases (get req.buffer req.parsed).1) [
  | inl e ↦ rw (e, take_from) (At-buffer _ _ p)
  | inr (x, e) ↦ rw (e, take_from) (At-buffer _ _ p)
]

module _ {S : Type 0} where
  abbrev pub AtWorld : Frame → List ℕ → List ℕ → World S → Type 0
  AtWorld f q r w = At f q r w.cs.req w.cs.resp

  -- The outcome has a value with `Q`, or an error to report.
  abbrev pub Holds : {A : Type 0} → (A → World S → Type 0) → Outcome (World S × Step A) → Type 0
  Holds Q abort = ⊥
  Holds Q (done (w, value a)) = Q a w
  Holds Q (done (w, cleanup ret)) = ret ≢ ckr_ok

  -- The part `h`, begun where `P` holds, ends in one of these ways.
  pub record Ensures {A : Type 0} (P : World S → Type 0) (h : Handler S A)
      (Q : A → World S → Type 0) : Type 0 where
    pub run : (w : World S) → P w → Holds Q (h w)

  Holds-bind :
      {A B : Type 0} {Q : A → World S → Type 0} (R : B → World S → Type 0)
      (r : Outcome (World S × Step A)) (k : A → Handler S B)
      → Holds Q r
      → ((a : A) → Ensures (Q a) (k a) R)
      → Holds R (elim r [
        | done (w', value a) ↦ k a w'
        | done (w', cleanup ret) ↦ done (w', cleanup ret)
        | abort ↦ abort
      ])
  Holds-bind R (done (w, value a)) k h f = (f a).run w h
  Holds-bind R (done (w, cleanup ret)) k h f = h
  Holds-bind R abort k h f = absurd h

  pub Ensures_bind :
      {A B : Type 0} {P : World S → Type 0} {Q : A → World S → Type 0} {R : B → World S → Type 0}
      {h : Handler S A} {k : A → Handler S B}
      → Ensures P h Q
      → ((a : A) → Ensures (Q a) (k a) R)
      → Ensures P (h >>= k) R
  unfolding ◌>>=◌
  Ensures_bind {R = R} {h = h} {k = k} e f = record {
    run = λ w p. Holds-bind R (h w) k (e.run w p) f;
  }

  pub Ensures_then :
      {B : Type 0} {P Q : World S → Type 0} {R : B → World S → Type 0} {h : Handler S (Unit {0})}
      {k : Handler S B}
      → Ensures P h (λ _. Q)
      → Ensures Q k R
      → Ensures P (h >> k) R
  unfolding ◌>>◌
  Ensures_then e f = Ensures_bind e λ _. f

  pub pure-Ensures : {A : Type 0} {P : World S → Type 0} (a : A) → Ensures P (pure a) (λ _. P)
  unfolding pure
  pure-Ensures a = record { run = λ w p. p }

  pub goto_cleanup-Ensures :
      {A : Type 0} {P : World S → Type 0} {Q : A → World S → Type 0} (ret : ℕ)
      → ret ≢ ckr_ok
      → Ensures P (goto_cleanup ret) Q
  unfolding goto_cleanup
  goto_cleanup-Ensures ret bad = record { run = λ w p. bad }

  pub or_parse_error-Ensures :
      {A : Type 0} {P : World S → Type 0} (x : Option A) → Ensures P (or_parse_error x) (λ _. P)
  unfolding or_parse_error
  or_parse_error-Ensures none = goto_cleanup-Ensures parse_error (omega arith)
  or_parse_error-Ensures (some x) = pure-Ensures x

  -- The letters are the next ones.
  pub expect-Ensures :
      {f : Frame} {r : List ℕ} (part : String) (q : List ℕ)
      → Ensures (AtWorld f (codes part ++ q) r) (expect part) (λ _. AtWorld f q r)
  unfolding expect on_req
  expect-Ensures part q = record { run = λ w p. rw (check_part-At part q p, Holds) (At-advanced p) }

  pub begin_call-Ensures :
      {A : Type 0} {P : World S → Type 0} (f : Option A) → Ensures P (begin_call f) (λ _. P)
  unfolding begin_call
  begin_call-Ensures none = goto_cleanup-Ensures _ (omega arith)
  begin_call-Ensures (some f) = pure-Ensures f

  pub field-Ensures :
      {A : Type 0} {f : Frame} {q r : List ℕ} (get : Buffer → ℕ → Buffer × Option (A × ℕ))
      → Ensures (AtWorld f q r) (field get) (λ _. AtWorld f q r)
  unfolding field on_req
  field-Ensures get =
      Ensures_bind (record { run = λ w p. take_from-At get p }) or_parse_error-Ensures

  -- All letters of the request have been read, so the assertion in front of the module's function holds.
  pub verified-Ensures :
      {f : Frame} {r : List ℕ}
      → Ensures (AtWorld f [] r) (assert_that λ w. is_verified w.cs.req) (λ _. AtWorld f [] r)
  unfolding assert_that
  verified-Ensures = record { run = λ w p. rw (At-verified p, Holds) p }

  pub process_call-Ensures :
      {A : Type 0} {f : Frame} {r : List ℕ} (call : Reply S A)
      → Ensures (AtWorld f [] r) (process_call call) (λ _. AtWorld f [] r)
  unfolding process_call run_module
  process_call-Ensures call = Ensures_then verified-Ensures (record { run = λ w p. p })

  -- A reader of gck-rpc-message.c: letters, and then one value from the buffer.
  pub read-Ensures :
      {A : Type 0} {f : Frame} {r : List ℕ} (part : String) (q : List ℕ)
      (get : Buffer → ℕ → Buffer × Option (A × ℕ))
      → Ensures
          (AtWorld f (codes part ++ q) r)
          (on_req λ msg. Common.◌>>=◌ (check_part part msg) λ m. done (take_from m get))
          (λ _. AtWorld f q r)
  unfolding on_req
  read-Ensures part q get = record {
    run = λ w p. rw (check_part-At part q p, Holds) (take_from-At get (At-advanced p));
  }

  pub if-Ensures :
      {A : Type 0} {P : World S → Type 0} {Q : A → World S → Type 0} {h k : Handler S A}
      (test : Bool)
      → Ensures P h Q
      → Ensures P k Q
      → Ensures P (if test then h else k) Q
  if-Ensures true e f = e
  if-Ensures false e f = f
