-- ===== src/Client/Course.antt =====
-- What comes of a function of gck-rpc-module.c: it goes to its end, or the process stops. A stop inside of
-- `call_run` is told from the others, with the call state that `call_run` was called with.
use pkcs11_proxy.Common.{ℕ, Outcome, done, abort}
use pkcs11_proxy.Client.{CallState}

pub data Course (A : Type 0) : Type 0 where
  finished : A → Course A
  halted : CallState → Course A
  stopped : Course A

infixl 5 ◌>>=◌
abbrev pub ◌>>=◌ : {A B : Type 0} → Course A → (A → Course B) → Course B
finished a >>= f = f a
halted cs >>= f = halted cs
stopped >>= f = stopped

-- A step that is not `call_run`.
abbrev pub lifted : {A : Type 0} → Outcome A → Course A
lifted (done a) = finished a
lifted abort = stopped

-- `call_run`, called with the state `cs`.
abbrev pub ran_with : CallState → Outcome (CallState × ℕ) → Course (CallState × ℕ)
ran_with cs (done r) = finished r
ran_with cs abort = halted cs
