-- ===== src/Client/Caller.antt =====
-- gck-rpc-module.c: the shape of a part of a function between BEGIN_CALL and END_CALL, which works on the
-- call state and may jump to `_cleanup`.
use pkcs11_proxy.Common.{
  ℕ, Bool, Option, none, some, ◌==◌, if◌then◌else◌, Outcome, done, abort, Step, value, cleanup,
}
use pkcs11_proxy.Pkcs11.{ckr_ok, ckr_host_memory, ckr_arguments_bad}
use pkcs11_proxy.Message.{Message}
use pkcs11_proxy.Client.{CallState}
use pkcs11_proxy.Client.Course.{Course, finished, halted, stopped}

-- A part of a function between BEGIN_CALL and END_CALL.
abbrev pub Caller : Type 0 → Type 0
Caller A = CallState → Course (CallState × Step A)

infixl 5 ◌>>=◌ ◌>>◌
unfoldable pub ◌>>=◌ : {A B : Type 0} → Caller A → (A → Caller B) → Caller B
◌>>=◌ m k cs = elim (m cs) [
  | finished (cs', value a) ↦ k a cs'
  | finished (cs', cleanup ret) ↦ finished (cs', cleanup ret)
  | halted at ↦ halted at
  | stopped ↦ stopped
]

unfoldable pub ◌>>◌ : {B : Type 0} → Caller (Unit {0}) → Caller B → Caller B
m >> k = m >>= λ _. k

unfoldable pub pure : {A : Type 0} → A → Caller A
pure a cs = finished (cs, value a)

unfoldable pub goto_cleanup : {A : Type 0} → ℕ → Caller A
goto_cleanup ret cs = finished (cs, cleanup ret)

-- `if (_ret != CKR_OK) goto _cleanup;`
abbrev pub unless_ok : CallState × ℕ → CallState × Step (Unit {0})
unless_ok (cs, ret) = (cs, if ret == ckr_ok then value tt else cleanup ret)

abbrev pub or_host_memory : CallState → Message × Bool → CallState × Step (Unit {0})
or_host_memory cs (m, ok) =
    (record cs { req = some m }, if ok then value tt else cleanup ckr_host_memory)

abbrev pub code_of : CallState → Message × ℕ → CallState × Step (Unit {0})
code_of cs (m, ret) = unless_ok (record cs { req = some m }, ret)

abbrev pub on_result :
    {A : Type 0}
    → (Message × A → CallState × Step (Unit {0}))
    → Outcome (Message × A)
    → Course (CallState × Step (Unit {0}))
on_result result (done r) = finished (result r)
on_result result abort = stopped

abbrev pub on_message :
    {A : Type 0}
    → (Message → Outcome (Message × A))
    → (Message × A → CallState × Step (Unit {0}))
    → Option Message
    → Course (CallState × Step (Unit {0}))
on_message write result none = stopped
on_message write result (some m) = on_result result (write m)

-- `if (!write (_cs->req, …)) { _ret = CKR_HOST_MEMORY; goto _cleanup; }`
unfoldable pub on_req : (Message → Outcome (Message × Bool)) → Caller (Unit {0})
on_req write cs = on_message write (or_host_memory cs) cs.req

-- An argument that must not be NULL.
unfoldable pub or_arguments_bad : Bool → Caller (Unit {0}) → Caller (Unit {0})
or_arguments_bad bad m = if bad then goto_cleanup ckr_arguments_bad else m
