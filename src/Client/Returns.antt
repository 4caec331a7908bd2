-- ===== src/Client/Returns.antt =====
-- A whole function of gck-rpc-module.c, from its checks to END_CALL.
use pkcs11_proxy.Common.{
  ℕ, ◌<◌, ◌≡◌, refl, sym, ◌∙◌, subst, Bool, true, false, not, Bool-cases, inl, inr, some, List, [],
  ◌==◌, if◌then◌else◌, Step, value, cleanup, arith,
}
use pkcs11_proxy.Pkcs11.{ckr_ok, ckr_cryptoki_not_initialized}
use pkcs11_proxy.Calls.{call_max, request_of}
use pkcs11_proxy.Client.{CallState, Module, Host}
use pkcs11_proxy.Client.Session.{call_lookup, call_done}
use pkcs11_proxy.Client.Invariant.{IsPool, Building, Settled, SameGlobals, same_globals}
use pkcs11_proxy.Client.Looked.{Found, call_lookup-Found, Prepared, call_prepare-Prepared}
use pkcs11_proxy.Client.Dialog.{failed-Settled}
use pkcs11_proxy.Client.Stashed.{call_done-IsPool}
use pkcs11_proxy.Client.Course.{Course, finished, halted, ◌>>=◌, lifted}
use pkcs11_proxy.Client.Caller.{Caller}
use pkcs11_proxy.Client.Begin.{end_call, prepared_call, found_call, begin_call, return_val_if_fail}
use pkcs11_proxy.Client.Runs.{HaltsAt, Ran, goes, jumps, stops, Runs}

-- The function returns, with the pool in order and the other variables of the module as they were; or the
-- process stops in `call_run` behind a complete request of the call `c`.
pub data Returns (host : Host) (c : ℕ) (m : Module) {A : Type 0} (out : Course (Module × ℕ × A))
    : Type 0 where
  returned :
      {r : Module × ℕ × A}
      → IsPool r.0
      → SameGlobals m r.0
      → out ≡ finished r
      → Returns host c m out
  stuck : {at : CallState} → HaltsAt host c at → out ≡ halted at → Returns host c m out

pub SameGlobals-trans : {a b c : Module} → SameGlobals a b → SameGlobals b c → SameGlobals a c
SameGlobals-trans f g = record {
  initialized = g.initialized ∙ f.initialized;
  initialized_pid = g.initialized_pid ∙ f.initialized_pid;
  app_id = g.app_id ∙ f.app_id;
  socket_path = g.socket_path ∙ f.socket_path;
  tls_psk_key_filename = g.tls_psk_key_filename ∙ f.tls_psk_key_filename;
}

module _ {host : Host} {c : ℕ} {m : Module} where
  pub return_val_if_fail-Returns :
      {A : Type 0} (test : Bool) (ret : ℕ) (untouched : A) (rest : Module → Course (Module × ℕ × A))
      → IsPool m
      → (test ≡ true → Returns host c m (rest m))
      → Returns host c m (return_val_if_fail test ret untouched rest m)
  unfolding return_val_if_fail
  return_val_if_fail-Returns true ret untouched rest valid f = f refl
  return_val_if_fail-Returns false ret untouched rest valid f = returned valid same_globals refl

module _ {A : Type 0} (host : Host) (c : ℕ) (untouched : A) where
  -- END_CALL behind a value, or behind a jump.
  end_call-Returns :
      (m : Module) (cs : CallState) (ret : ℕ) (out : A)
      → IsPool m
      → Settled [] ret cs
      → Returns host c m (lifted (call_done m cs ret) >>= λ (m', ret'). finished (m', ret', out))
  end_call-Returns m cs ret out valid h =
      let (r, e, pool, same) = call_done-IsPool m cs ret valid h in rw e (returned pool same refl)

  body-Returns :
      (m : Module) (out : Course (CallState × Step (ℕ × A)))
      → IsPool m
      → Ran host c (λ r. Settled [] r.0) out
      → Returns host c m (out >>= λ r. end_call host m untouched r)
  unfolding end_call
  body-Returns m out valid (goes {a = (ret, a)} {cs = cs} h e) =
      rw e (end_call-Returns m cs ret a valid h)
  body-Returns m out valid (jumps {ret = ret} {cs = cs} bad begun e) =
      rw e (end_call-Returns m cs ret untouched valid (failed-Settled [] ret cs begun bad))
  body-Returns m out valid (stops s e) = rw e (stuck s refl)

  prepared_call-Returns :
      (m : Module) (text : List ℕ) (body : Caller (ℕ × A)) (r : CallState × ℕ)
      → IsPool m
      → Prepared c text r
      → Runs host c (Building c text) body (λ r. Settled [] r.0)
      → Returns host c m (prepared_call host m untouched body r)
  unfolding end_call
  prepared_call-Returns m text body (cs, ret) valid p f = elim (Bool-cases (ret == ckr_ok)) [
    | inl ok ↦ rw ok (body-Returns m (body cs) valid (f.run cs (p.0 (ground arith))))
    | inr bad ↦ rw bad (
        end_call-Returns m cs ret untouched valid
          (failed-Settled [] ret cs p.1 (λ e. ground arith)))
  ]

  found_call-Returns :
      (m : Module) (text : List ℕ) (body : Caller (ℕ × A)) (r : Module × Step CallState)
      → IsPool m
      → Found m r
      → 0 < c
      → c < call_max
      → request_of c ≡ some text
      → Runs host c (Building c text) body (λ r. Settled [] r.0)
      → Returns host c m (found_call host c untouched body r)
  found_call-Returns m text body (m', cleanup ret) valid found h lt there f =
      returned (subst IsPool (sym found.0) valid) (subst (SameGlobals m) (sym found.0) same_globals)
        refl
  found_call-Returns m text body (m', value cs) valid found h lt there f =
      let (r, e, p) = call_prepare-Prepared host cs c text found.1 h lt there in
      rw e (onward (prepared_call-Returns m' text body r found.0 p f))
    where
      onward : {out : Course (Module × ℕ × A)} → Returns host c m' out → Returns host c m out
      onward (returned pool same e) = returned pool (SameGlobals-trans found.2 same) e
      onward (stuck s e) = stuck s e

  -- From BEGIN_CALL to END_CALL.
  pub begin_call-Returns :
      (m : Module) (text : List ℕ) (body : Caller (ℕ × A))
      → IsPool m
      → 0 < c
      → c < call_max
      → request_of c ≡ some text
      → Runs host c (Building c text) body (λ r. Settled [] r.0)
      → Returns host c m (begin_call host c untouched body m)
  unfolding begin_call
  begin_call-Returns m text body valid h lt there f = by_state m.initialized refl
    where
      by_state :
          (up : Bool)
          → m.initialized ≡ up
          → Returns host c m (
              if not up
              then finished (m, ckr_cryptoki_not_initialized, untouched)
              else (lifted (call_lookup host m) >>= λ r. found_call host c untouched body r))
      by_state false e = returned valid same_globals refl
      by_state true e =
          let (r, p, found) = call_lookup-Found host m valid (valid.path e) in
          rw p (found_call-Returns m text body r valid found h lt there f)
