-- ===== src/Client/Runs.antt =====
-- How a function of gck-rpc-module.c moves along the signatures of its call: a triple for its parts between
-- BEGIN_CALL and END_CALL. A part goes on, or jumps to `_cleanup` with an error, or the process stops in
-- `call_run` behind a complete request.
use pkcs11_proxy.Common.{
  ℕ, ◌≡◌, ◌≢◌, refl, sym, subst, ◌∙◌, Bool, true, false, Bool-cases, inl, inr, Option, some, List,
  [], ◌++◌, ◌==◌, Outcome, done, abort, Step, value, cleanup, arith,
}
use pkcs11_proxy.Pkcs11.{ckr_ok, ckr_arguments_bad}
use pkcs11_proxy.Calls.{response_of}
use pkcs11_proxy.Message.{Message}
use pkcs11_proxy.Message.Letters.{Sends, Writer}
use pkcs11_proxy.Client.{CallState, Host, call_invalid}
use pkcs11_proxy.Client.Session.{call_run}
use pkcs11_proxy.Client.Invariant.{Building, Settled}
use pkcs11_proxy.Client.Dialog.{call_run-Settled}
use pkcs11_proxy.Client.Course.{Course, finished, halted, stopped, ran_with}
use pkcs11_proxy.Client.Caller.{
  Caller, ◌>>=◌, ◌>>◌, pure, goto_cleanup, or_host_memory, on_result, on_message, on_req,
  or_arguments_bad,
}
use pkcs11_proxy.Client.Begin.{on_code, process_call}
use pkcs11_proxy.Client.Results.{with_answer, from_resp, on_resp}
use pkcs11_proxy.Client.Gets.{Gets}

abbrev pub CallerPost : Type 0 → Type 1
CallerPost A = A → CallState → Type 0

-- In the state `cs` the request of the call `c` has all letters of its signature, and `call_run` stops the
-- process when it is called with this state.
pub record HaltsAt (host : Host) (c : ℕ) (cs : CallState) : Type 0 where
  pub complete : Building c [] cs
  pub stops_there : call_run host cs ≡ abort

pub data Ran (host : Host) (c : ℕ) {A : Type 0} (Q : A → CallState → Type 0)
    (out : Course (CallState × Step A)) : Type 0 where
  goes : {a : A} {cs : CallState} → Q a cs → out ≡ finished (cs, value a) → Ran host c Q out
  jumps :
      {ret : ℕ} {cs : CallState}
      → ret ≢ ckr_ok
      → cs.call_status ≢ call_invalid
      → out ≡ finished (cs, cleanup ret)
      → Ran host c Q out
  stops : {at : CallState} → HaltsAt host c at → out ≡ halted at → Ran host c Q out

pub record Runs (host : Host) (c : ℕ) {A : Type 0} (P : CallState → Type 0) (m : Caller A)
    (Q : A → CallState → Type 0) : Type 0 where
  pub run : (cs : CallState) → P cs → Ran host c Q (m cs)

pub not_begun :
    {c : ℕ} {text : List ℕ} {cs : CallState} → Building c text cs → cs.call_status ≢ call_invalid
not_begun b e = cc (b.status)

module _ {host : Host} {c : ℕ} where
  pub Runs_bind :
      {A B : Type 0} {P : CallState → Type 0} {m : Caller A} {k : A → Caller B}
      {Q : A → CallState → Type 0} {R : B → CallState → Type 0}
      → Runs host c P m Q
      → ((a : A) → Runs host c (Q a) (k a) R)
      → Runs host c P (m >>= k) R
  unfolding ◌>>=◌
  Runs_bind {A = A} {B = B} {k = k} {Q = Q} {R = R} f g = record {
    run = λ cs p. behind _ (f.run cs p);
  }
    where
      behind :
          (out : Course (CallState × Step A))
          → Ran host c Q out
          → Ran host c R (elim out [
            | finished (cs', value a) ↦ k a cs'
            | finished (cs', cleanup ret) ↦ finished (cs', cleanup ret)
            | halted at ↦ halted at
            | stopped ↦ stopped
          ])
      behind out (goes {a = a} {cs = cs} q e) = rw e ((g a).run cs q)
      behind out (jumps bad begun e) = rw e (jumps bad begun refl)
      behind out (stops s e) = rw e (stops s refl)

  pub Runs_then :
      {B : Type 0} {P Q : CallState → Type 0} {m : Caller (Unit {0})} {k : Caller B}
      {R : B → CallState → Type 0}
      → Runs host c P m (λ _. Q)
      → Runs host c Q k R
      → Runs host c P (m >> k) R
  unfolding ◌>>◌
  Runs_then f g = Runs_bind f λ _. g

  pub pure-Runs :
      {A : Type 0} {P : CallState → Type 0} {Q : A → CallState → Type 0} (a : A)
      → ((cs : CallState) → P cs → Q a cs)
      → Runs host c P (pure a) Q
  unfolding pure
  pure-Runs a f = record { run = λ cs p. goes (f cs p) refl }

  -- An IN_ macro whose writer has these letters.
  pub on_req-Runs :
      {write : Message → Outcome (Message × Bool)} {letters : List ℕ} (rest : List ℕ)
      → Writer write letters
      → Runs host c (Building c (letters ++ rest)) (on_req write) (λ _. Building c rest)
  unfolding on_req
  on_req-Runs {write = write} {letters = letters} rest w = record {
    run = λ cs b. written cs b cs.req b.given (w.run b.request b.signature rest b.signed b.rest);
  }
    where
      next :
          (cs : CallState) (b : Building c (letters ++ rest) cs)
          (s : Sends b.request rest (write b.request))
          → s.result.1 ≡ true
          → Building c rest (record cs { req = some s.result.0 })
      next cs b s ok = record {
        status = b.status;
        connection = b.connection;
        connected = b.connected;
        request = s.result.0;
        given = refl;
        id = s.same_id ∙ b.id;
        signature = b.signature;
        signed = s.same_signature ∙ b.signed;
        rest = s.moved ok;
      }

      written :
          (cs : CallState) (b : Building c (letters ++ rest) cs) (o : Option Message)
          → o ≡ some b.request
          → Sends b.request rest (write b.request)
          → Ran host c (λ _. Building c rest) (on_message write (or_host_memory cs) o)
      written cs b o e s = rw e (
          subst (λ out. Ran host c (λ _. Building c rest) (on_result (or_host_memory cs) out))
            (sym s.returned)
            (elim (Bool-cases s.result.1) [
              | inl ok ↦ rw ok (goes (next cs b s ok) refl)
              | inr bad ↦ rw bad (jumps (λ e. cc) (not_begun b) refl)
            ]))

  pub goto_cleanup-Runs :
      {A : Type 0} {text : List ℕ} {Q : A → CallState → Type 0} (ret : ℕ)
      → ret ≢ ckr_ok
      → Runs host c (Building c text) (goto_cleanup ret) Q
  unfolding goto_cleanup
  goto_cleanup-Runs ret bad = record { run = λ cs b. jumps bad (not_begun b) refl }

  pub or_arguments_bad-Runs :
      {text : List ℕ} {Q : Unit {0} → CallState → Type 0} {m : Caller (Unit {0})} (test : Bool)
      → (test ≡ false → Runs host c (Building c text) m Q)
      → Runs host c (Building c text) (or_arguments_bad test m) Q
  unfolding or_arguments_bad
  or_arguments_bad-Runs true f = goto_cleanup-Runs ckr_arguments_bad (λ e. cc)
  or_arguments_bad-Runs false f = f refl

  -- PROCESS_CALL
  pub process_call-Runs :
      (text : List ℕ)
      → response_of c ≡ some text
      → Runs host c (Building c []) (process_call host) (λ _. Settled text ckr_ok)
  unfolding process_call
  process_call-Runs text there = record { run = λ cs b. settle cs b (call_run host cs) refl }
    where
      settle :
          (cs : CallState)
          → Building c [] cs
          → (out : Outcome (CallState × ℕ)) → call_run host cs ≡ out
          → Ran host c (λ _. Settled text ckr_ok) (on_code (ran_with cs out))
      settle cs b abort e = stops (record { complete = b; stops_there = e }) refl
      settle cs b (done (cs', ret)) e =
          let settled = call_run-Settled host c text cs (cs', ret) b there e in
          elim (Bool-cases (ret == ckr_ok)) [
            | inl ok ↦
                let zero : ret ≡ ckr_ok = ground arith in
                rw ok (goes (subst (λ r. Settled text r cs') zero settled) refl)
            | inr bad ↦ rw bad (jumps (λ e. ground arith) settled.begun refl)
          ]

  -- A reader of the response.
  pub on_resp-Runs :
      {A : Type 0} {good : A → Bool} {read : Message → Outcome (Message × A)} {letters : List ℕ}
      (rest : List ℕ) (code : A → ℕ)
      → Gets good read letters
      → ((a : A) → code a ≡ ckr_ok → good a ≡ true)
      → Runs host c (Settled (letters ++ rest) ckr_ok) (on_resp read) (λ a. Settled rest (code a))
  unfolding on_resp
  on_resp-Runs {A = A} {read = read} {letters = letters} rest code g right = record {
    run = λ cs h. got cs h cs.resp (h.given refl);
  }
    where
      got :
          (cs : CallState) (h : Settled (letters ++ rest) ckr_ok cs) (o : Option Message)
          → o ≡ some (h.response refl)
          → Ran host c (λ a. Settled rest (code a)) (from_resp cs read o)
      got cs h o given =
          let ((m, a), p, signed, moved) =
            g.run (h.response refl) (h.signature refl) rest (h.signed refl) (h.rest refl) in
          rw given (
            subst (λ out. Ran host c (λ a'. Settled rest (code a')) (with_answer cs out)) (sym p)
              (goes
                (record {
                  begun = h.begun;
                  response = λ ok. m;
                  given = λ ok. refl;
                  signature = λ ok. h.signature refl;
                  signed = λ ok. signed;
                  rest = λ ok. moved (right a ok);
                })
                refl))
