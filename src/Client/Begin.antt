-- ===== src/Client/Begin.antt =====
-- gck-rpc-module.c, the macros BEGIN_CALL, PROCESS_CALL and END_CALL.
use pkcs11_proxy.Common.{ℕ, Bool, not, ◌==◌, if◌then◌else◌, Step, value, cleanup}
use pkcs11_proxy.Pkcs11.{ckr_ok, ckr_cryptoki_not_initialized}
use pkcs11_proxy.Client.{CallState, Module, Host}
use pkcs11_proxy.Client.Course.{Course, finished, ◌>>=◌, lifted, ran_with}
use pkcs11_proxy.Client.Session.{call_lookup, call_prepare, call_run, call_done}
use pkcs11_proxy.Client.Caller.{Caller, unless_ok}

abbrev pub on_code : Course (CallState × ℕ) → Course (CallState × Step (Unit {0}))
on_code out = out >>= λ r. finished (unless_ok r)

module _ (host : Host) where
  -- PROCESS_CALL
  unfoldable pub process_call : Caller (Unit {0})
  process_call cs = on_code (ran_with cs (call_run host cs))

  -- END_CALL, with the results that the function has stored
  unfoldable pub end_call :
      {A : Type 0} → Module → A → CallState × Step (ℕ × A) → Course (Module × ℕ × A)
  end_call m untouched (cs, value (ret, out)) =
      lifted (call_done m cs ret) >>= λ (m', ret'). finished (m', ret', out)
  end_call m untouched (cs, cleanup ret) =
      lifted (call_done m cs ret) >>= λ (m', ret'). finished (m', ret', untouched)

  -- BEGIN_CALL up to END_CALL. `untouched` is what the results are if nothing is stored.
  abbrev pub prepared_call :
      {A : Type 0} → Module → A → Caller (ℕ × A) → CallState × ℕ → Course (Module × ℕ × A)
  prepared_call m untouched body (cs, ret) =
      if not (ret == ckr_ok)
      then end_call m untouched (cs, cleanup ret)
      else (body cs >>= λ r. end_call m untouched r)

  abbrev pub found_call :
      {A : Type 0} → ℕ → A → Caller (ℕ × A) → Module × Step CallState → Course (Module × ℕ × A)
  found_call call_id untouched body (m, cleanup ret) = finished (m, ret, untouched)
  found_call call_id untouched body (m, value cs) =
      lifted (call_prepare host cs call_id) >>= λ r. prepared_call m untouched body r

  unfoldable pub begin_call :
      {A : Type 0} → ℕ → A → Caller (ℕ × A) → Module → Course (Module × ℕ × A)
  begin_call call_id untouched body m =
      if not m.initialized
      then finished (m, ckr_cryptoki_not_initialized, untouched)
      else (lifted (call_lookup host m) >>= λ r. found_call call_id untouched body r)

-- return_val_if_fail
unfoldable pub return_val_if_fail :
    {A : Type 0}
    → Bool
    → ℕ
    → A
    → (Module → Course (Module × ℕ × A))
    → Module
    → Course (Module × ℕ × A)
return_val_if_fail test ret untouched rest m = if test then rest m else finished (m, ret, untouched)
