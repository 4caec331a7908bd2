-- ===== src/Client/Updown.antt =====
-- The first and the last call of a module in gck-rpc-module.c, and C_Finalize.
use pkcs11_proxy.Common.{
  ℕ, ◌<◌, ◌≡◌, ◌≢◌, refl, sym, subst, Bool, true, false, not, Bool-cases, inl, inr, some, [],
  length, codes, ◌==◌, if◌then◌else◌, Outcome, done, abort, Step, value, cleanup, arith,
}
use pkcs11_proxy.Pkcs11.{ckr_ok, ckr_cryptoki_not_initialized}
use pkcs11_proxy.Calls.{call_initialize, call_finalize, request_of, response_of}
use pkcs11_proxy.Message.Write.{write_byte_array}
use pkcs11_proxy.Message.Letters.{byte_array-Writer}
use pkcs11_proxy.Dispatch.Calls.Slots.{handshake}
use pkcs11_proxy.Client.{CallState, Module, Host}
use pkcs11_proxy.Client.Invariant.{IsPool, Building, Settled, SameGlobals, same_globals}
use pkcs11_proxy.Client.Session.{call_run}
use pkcs11_proxy.Client.Looked.{Found, Prepared, call_lookup-Found, call_prepare-Prepared}
use pkcs11_proxy.Client.Dialog.{failed-Settled, call_run-Settled}
use pkcs11_proxy.Client.Stashed.{call_done-IsPool}
use pkcs11_proxy.Client.Course.{Course, finished, halted, ◌>>=◌, ran_with}
use pkcs11_proxy.Client.Caller.{on_req}
use pkcs11_proxy.Client.Runs.{HaltsAt, Ran, goes, jumps, stops, on_req-Runs}
use pkcs11_proxy.Client.Returns.{SameGlobals-trans}
use pkcs11_proxy.Client.Performed.{Performs, returns, halts}
use pkcs11_proxy.Client.Initialize.{
  run_if_ok, greeting_written, write_greeting, finish_with, initialize_found, initialize_daemon,
  finalize_found, finalize_daemon, rpc_finalize,
}

-- `call_run` has returned, or it was not called because of an error; or it has stopped the process.
data Over (host : Host) (c : ℕ) (out : Course (CallState × ℕ)) : Type 0 where
  over : {r : CallState × ℕ} → Settled [] r.1 r.0 → out ≡ finished r → Over host c out
  in_call : {at : CallState} → HaltsAt host c at → out ≡ halted at → Over host c out

module _ (host : Host) (c : ℕ) (answers : response_of c ≡ some []) where
  run_if_ok-Over : (r : CallState × ℕ) → Prepared c [] r → Over host c (run_if_ok host r)
  run_if_ok-Over (cs, ret) p = elim (Bool-cases (ret == ckr_ok)) [
    | inl ok ↦ rw ok (settle (p.0 (ground arith)) (call_run host cs) refl)
    | inr bad ↦ rw bad (over (failed-Settled [] ret cs p.1 (λ e. ground arith)) refl)
  ]
    where
      settle :
          Building c [] cs
          → (out : Outcome (CallState × ℕ)) → call_run host cs ≡ out
          → Over host c (ran_with cs out)
      settle b abort e = in_call (record { complete = b; stops_there = e }) refl
      settle b (done r) e = over (call_run-Settled host c [] cs r b answers e) refl

  finish_with-Performs :
      (m : Module) (out : Course (CallState × ℕ))
      → IsPool m
      → Over host c out
      → Performs host c m (out >>= finish_with host m)
  finish_with-Performs m out valid (over {r = (cs, ret)} h e) =
      let ((m', ret'), f, pool, same) = call_done-IsPool m cs ret valid h in
      rw e (rw f (returns pool same refl))
  finish_with-Performs m out valid (in_call s e) = rw e (halts s refl)

  -- What comes behind the lookup, in a module from which a call state was taken.
  onward :
      {m m' : Module} {out : Course (Module × ℕ)}
      → SameGlobals m m'
      → Performs host c m' out
      → Performs host c m out
  onward same (returns pool same' e) = returns pool (SameGlobals-trans same same') e
  onward same (halts s e) = halts s e

  -- The greeting, and the call.
  greeting-Over :
      (r : CallState × ℕ)
      → Prepared c (codes "ay") r
      → Over host c (write_greeting host r >>= run_if_ok host)
  greeting-Over (cs, ret) p = elim (Bool-cases (ret == ckr_ok)) [
    | inl ok ↦ rw ok (
        written (on_req (λ m. write_byte_array m (some handshake) (length handshake)) cs) (
          (on_req-Runs {host = host} [] (byte_array-Writer (some handshake) (length handshake))).run
            cs (p.0 (ground arith))))
    | inr bad ↦ rw bad (run_if_ok-Over (cs, ret) ((λ e. absurd (wrong bad e)), p.1))
  ]
    where
      wrong : (ret == ckr_ok) ≡ false → ret ≢ ckr_ok
      wrong bad e = ground arith

      written :
          (out : Course (CallState × Step (Unit {0})))
          → Ran host c (λ _. Building c []) out
          → Over host c (greeting_written host out >>= run_if_ok host)
      written out (goes {cs = cs'} b e) =
          rw e (run_if_ok-Over (cs', ckr_ok) ((λ _. b), λ bad. cc (b.status)))
      written out (jumps {ret = ret'} {cs = cs'} bad begun e) =
          rw e (run_if_ok-Over (cs', ret') ((λ ok. absurd (bad ok)), begun))
      written out (stops s e) = rw e (in_call s refl)

-- With a pool in order and a path to connect to, the daemon's side of C_Finalize returns, or the process
-- stops in `call_run`.
finalize_daemon-Performs :
    (host : Host) (m : Module)
    → IsPool m
    → 0 < length m.socket_path
    → Performs host call_finalize m (finalize_daemon host m)
unfolding finalize_daemon request_of response_of
finalize_daemon-Performs host m valid path =
    let (out, e, found) = call_lookup-Found host m valid path in rw e (by_found out found)
  where
    by_found :
        (out : Module × Step CallState)
        → Found m out
        → Performs host call_finalize m (finalize_found host out)
    by_found (m', cleanup ret) f =
        returns (subst IsPool (sym f.0) valid) (subst (SameGlobals m) (sym f.0) same_globals) refl
    by_found (m', value cs) f =
        let (r, e, p) =
          call_prepare-Prepared host cs call_finalize [] f.1 (omega arith) (omega arith) refl in
        rw e (
          onward host call_finalize refl f.2 (
            finish_with-Performs host call_finalize refl m' (run_if_ok host r) f.0
              (run_if_ok-Over host call_finalize refl r p)))

-- With a pool in order and a path to connect to, the daemon's side of C_Initialize returns, or the process
-- stops in `call_run`.
pub initialize_daemon-Performs :
    (host : Host) (m : Module)
    → IsPool m
    → 0 < length m.socket_path
    → Performs host call_initialize m (initialize_daemon host m)
unfolding initialize_daemon request_of response_of
initialize_daemon-Performs host m valid path =
    let (out, e, found) = call_lookup-Found host m valid path in rw e (by_found out found)
  where
    by_found :
        (out : Module × Step CallState)
        → Found m out
        → Performs host call_initialize m (initialize_found host out)
    by_found (m', cleanup ret) f =
        returns (subst IsPool (sym f.0) valid) (subst (SameGlobals m) (sym f.0) same_globals) refl
    by_found (m', value cs) f =
        let (r, e, p) =
          call_prepare-Prepared host cs call_initialize (codes "ay") f.1 (omega arith) (omega arith)
            refl in
        rw e (
          onward host call_initialize refl f.2 (
            finish_with-Performs host call_initialize refl m'
              (write_greeting host r >>= run_if_ok host) f.0
              (greeting-Over host call_initialize refl r p)))

-- The module is down with a pool in order, and the code is CKR_OK; or the process stops in `call_run`.
pub data Finalizes (host : Host) (out : Course (Module × ℕ)) : Type 0 where
  down :
      {m' : Module}
      → IsPool m'
      → m'.initialized ≡ false
      → m'.socket_path ≡ []
      → out ≡ finished (m', ckr_ok)
      → Finalizes host out
  finalize_halts :
      {at : CallState} → HaltsAt host call_finalize at → out ≡ halted at → Finalizes host out

-- With its pool in order, C_Finalize takes a module down that is up, whatever the daemon answers and also
-- where it cannot be reached: the code is CKR_OK, the path is forgotten, and the pool is still in order. Or
-- the process stops inside of `call_run`, called with a state whose request for C_Finalize has all letters
-- of its signature.
pub rpc_finalize-Finalizes :
    (host : Host) (m : Module)
    → IsPool m
    → m.initialized ≡ true
    → Finalizes host (rpc_finalize host false m)
unfolding rpc_finalize
rpc_finalize-Finalizes host m valid up = by_state m.initialized refl up
  where
    taken_down :
        (out : Course (Module × ℕ))
        → Performs host call_finalize m out
        → Finalizes host (
            out >>= λ (m', _).
            finished
              (record m' { initialized = false; initialized_pid = 0; socket_path = [] }, ckr_ok))
    taken_down out (returns {r = (m', ret)} pool same e) = rw e (
        down
          (record {
            counted = pool.counted;
            bounded = pool.bounded;
            ready = pool.ready;
            path = λ bad. cc;
          })
          refl refl refl)
    taken_down out (halts s e) = rw e (finalize_halts s refl)

    by_state :
        (b : Bool)
        → m.initialized ≡ b
        → b ≡ true
        → Finalizes host (
            if not b
            then finished (m, ckr_cryptoki_not_initialized)
            else (finalize_daemon host m >>= λ (m', _).
                finished (
                  record m' { initialized = false; initialized_pid = 0; socket_path = [] },
                  ckr_ok,
                )))
    by_state false e bad = absurd cc
    by_state true e ok =
        taken_down (finalize_daemon host m) (finalize_daemon-Performs host m valid (valid.path e))
