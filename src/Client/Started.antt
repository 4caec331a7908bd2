-- ===== src/Client/Started.antt =====
-- C_Initialize of gck-rpc-module.c: from the arguments and the environment to a module that is up.
use pkcs11_proxy.Common.{
  ℕ, ◌<◌, ◌≡◌, ◌≢◌, refl, sym, ap, ◌∙◌, subst, Bool, true, false, ◌&&◌, Bool-cases, inl, inr,
  Option, none, some, List, [], length, ◌==◌, if◌then◌else◌, done, Step, value, cleanup, arith,
}
use pkcs11_proxy.Pkcs11.{
  ckr_ok, ckr_arguments_bad, ckr_cant_lock, ckr_function_not_supported,
  ckr_cryptoki_already_initialized,
}
use pkcs11_proxy.Calls.{call_initialize}
use pkcs11_proxy.Message.Write.{items}
use pkcs11_proxy.Client.Arguments.{fit, parse_arguments}
use pkcs11_proxy.Client.{CallState, Module, Host}
use pkcs11_proxy.Client.Invariant.{IsPool}
use pkcs11_proxy.Client.Session.{is_tls_path}
use pkcs11_proxy.Client.Course.{Course, finished, halted, ◌>>=◌}
use pkcs11_proxy.Client.Runs.{HaltsAt}
use pkcs11_proxy.Client.Performed.{Performs, returns, halts}
use pkcs11_proxy.Client.Initialize.{
  initialize_daemon, Process, InitializeArgs, supplied_ok, take_args, is_empty, is_set,
  find_socket_path, find_tls_file, env_path, arguments_parsed, with_tls_file, with_path, with_args,
  mark, rpc_initialize,
}
use pkcs11_proxy.Client.Updown.{initialize_daemon-Performs}
use pkcs11_proxy.Client.Down.{IsDown, same_pool, env_path_given, parsed-IsDown}

-- What C_Initialize makes of a module that is down: it is up, marked with the process and with a path, or
-- it is still down with an error; the pool is in order. Or the process stops in `call_run`.
pub data Initializes (host : Host) (pid : ℕ) (out : Course (Module × ℕ)) : Type 0 where
  up :
      {m' : Module}
      → IsPool m'
      → m'.initialized ≡ true
      → m'.initialized_pid ≡ pid
      → out ≡ finished (m', ckr_ok)
      → Initializes host pid out
  refused :
      {m' : Module} {ret : ℕ}
      → IsPool m'
      → m'.initialized ≡ false
      → ret ≢ ckr_ok
      → out ≡ finished (m', ret)
      → Initializes host pid out
  initialize_halts :
      {at : CallState}
      → HaltsAt host call_initialize at
      → out ≡ halted at
      → Initializes host pid out

-- The code in front of `done`, in a module that is down; behind CKR_OK there is a path.
data Reached (host : Host) (out : Course (Module × ℕ)) : Type 0 where
  reached :
      {m' : Module} {ret : ℕ}
      → IsDown m'
      → (ret ≡ ckr_ok → 0 < length m'.socket_path)
      → out ≡ finished (m', ret)
      → Reached host out
  in_first_call :
      {at : CallState} → HaltsAt host call_initialize at → out ≡ halted at → Reached host out

module _ (host : Host) (p : Process) where
  marked :
      (out : Course (Module × ℕ))
      → Reached host out
      → Initializes host p.pid (out >>= λ r. finished (mark host p r))
  unfolding mark
  marked out (in_first_call s e) = rw e (initialize_halts s refl)
  marked out (reached {m' = m} {ret = ret} d path e) = rw e (elim (Bool-cases (ret == ckr_ok)) [
    | inl ok ↦
        let zero : ret ≡ ckr_ok = ground arith in
        let on = record m { initialized = true; initialized_pid = p.pid } in
        let pool : IsPool on = record {
          counted = d.pool.counted;
          bounded = d.pool.bounded;
          ready = d.pool.ready;
          path = λ _. path zero;
        } in
        rw ok
          (up {m' = on} pool refl refl (ap {B = Course (Module × ℕ)} (λ r. finished (on, r)) zero))
    | inr bad ↦ elim (Bool-cases (ret == ckr_cryptoki_already_initialized)) [
      | inl known ↦ rw (bad, known) (refused d.pool d.off (λ e. ground arith) refl)
      | inr new ↦
          let off : IsPool
              (record m { initialized = false; initialized_pid = 0; socket_path = [] }) =
            record {
              counted = d.pool.counted;
              bounded = d.pool.bounded;
              ready = d.pool.ready;
              path = λ e. cc;
            } in
          rw (bad, new) (refused off refl (λ e. ground arith) refl)
    ]
  ])

  -- From the path on. The daemon's call leaves the module down until it is marked.
  daemon-Reached :
      (m : Module)
      → IsDown m
      → 0 < length m.socket_path
      → Reached host (initialize_daemon host (record m { app_id = p.random }))
  daemon-Reached m d path = by_call (initialize_daemon host (record m { app_id = p.random })) (
      initialize_daemon-Performs host (record m { app_id = p.random })
        (same_pool (record m { app_id = p.random }) d refl refl refl).pool path)
    where
      by_call :
          (out : Course (Module × ℕ))
          → Performs host call_initialize (record m { app_id = p.random }) out
          → Reached host out
      by_call out (returns {r = (m', ret)} pool same e) =
          reached (record { pool = pool; off = same.initialized ∙ d.off })
            (λ ok. subst (λ (l : List ℕ). 0 < length l) (sym same.socket_path) path) e
      by_call out (halts s e) = in_first_call s e

  tls_file-Reached :
      (m : Module)
      → IsDown m
      → 0 < length m.socket_path
      → Reached host (with_tls_file host p (find_tls_file p m))
  unfolding find_tls_file
  tls_file-Reached m d path = elim (Bool-cases (is_tls_path m.socket_path)) [
    | inr plain ↦ rw plain (daemon-Reached m d path)
    | inl secure ↦
        rw secure (with_file (is_empty m.tls_psk_key_filename && is_set p.env_tls_psk_file))
  ]
    where
      fails : {m' : Module} → IsDown m' → Reached host (finished (m', ckr_function_not_supported))
      fails d' = reached d' (λ bad. cc) refl

      by_name :
          (m' : Module)
          → IsDown m'
          → 0 < length m'.socket_path
          → Reached host (
              with_tls_file host p (
                if is_empty m'.tls_psk_key_filename
                then (m', cleanup ckr_function_not_supported)
                else (m', value tt)))
      by_name m' d' path' = elim (Bool-cases (is_empty m'.tls_psk_key_filename)) [
        | inl missing ↦ rw missing (fails d')
        | inr there ↦ rw there (daemon-Reached m' d' path')
      ]

      with_file :
          (b : Bool)
          → let m' =
              if b then record m { tls_psk_key_filename = fit (items p.env_tls_psk_file) } else m in
            Reached host (
              with_tls_file host p (
                if is_empty m'.tls_psk_key_filename
                then (m', cleanup ckr_function_not_supported)
                else (m', value tt)))
      with_file true =
          by_name (record m { tls_psk_key_filename = fit (items p.env_tls_psk_file) })
            (same_pool _ d refl refl refl) path
      with_file false = by_name m d path

  path-Reached : (m : Module) → IsDown m → Reached host (with_path host p (find_socket_path p m))
  unfolding find_socket_path
  path-Reached m d = elim (Bool-cases (is_empty m.socket_path)) [
    | inr there ↦ rw there (tls_file-Reached m d (ground arith))
    | inl missing ↦ elim (Bool-cases (is_set p.env_socket)) [
      | inr unset ↦ rw (missing, unset) (reached d (λ bad. cc) refl)
      | inl set ↦
          rw (missing, set)
            (tls_file-Reached (record m { socket_path = env_path (items p.env_socket) })
              (same_pool (record m { socket_path = env_path (items p.env_socket) }) d refl refl
                refl)
              (env_path_given p.env_socket set))
    ]
  ]

  -- What take_args leaves: a module that is down, and an error where it jumps.
  Taken : Module × Step (Unit {0}) → Type 0
  Taken (m, value _) = IsDown m
  Taken (m, cleanup ret) = IsDown m × (ret ≢ ckr_ok)

  parsed-Taken :
      (m : Module) (parsed : Option Module) (r : Module × Step (Unit {0}))
      → ((m1 : Module) → parsed ≡ some m1 → IsDown m1)
      → arguments_parsed parsed ≡ done r
      → Taken r
  unfolding Taken
  parsed-Taken m none r f e = absurd cc
  parsed-Taken m (some m1) r f e =
      let same : (m1, value tt) ≡ r = cc in subst Taken same (f m1 refl)

  take_args-Taken :
      (m : Module) (a : Option InitializeArgs) (r : Module × Step (Unit {0}))
      → IsDown m
      → take_args p m a ≡ done r
      → Taken r
  unfolding take_args Taken
  take_args-Taken m none r d e = let same : (m, value tt) ≡ r = cc in subst Taken same d
  take_args-Taken m (some a) r d e = elim (Bool-cases (supplied_ok a)) [
    | inr bad ↦
        let same : (m, cleanup ckr_arguments_bad) ≡ r = cc (rw bad at e) in
        subst Taken same (d, λ f. cc)
    | inl ok ↦ elim (Bool-cases a.os_locking_ok) [
      | inr unlocked ↦
          let same : (m, cleanup ckr_cant_lock) ≡ r = cc (rw (ok, unlocked) at e) in
          subst Taken same (d, λ f. cc)
      | inl locked ↦
          parsed-Taken m (parse_arguments p.null_text p.dup_given m a.reserved) r
            (λ m1 f. parsed-IsDown p.null_text p.dup_given m m1 a.reserved d f)
            (rw (ok, locked) at e)
    ]
  ]

  args-Reached : (r : Module × Step (Unit {0})) → Taken r → Reached host (with_args host p r)
  unfolding Taken
  args-Reached (m, cleanup ret) (d, bad) = reached d (λ ok. absurd (bad ok)) refl
  args-Reached (m, value _) d =
      let off : (m.initialized && p.pid == m.initialized_pid) ≡ false = ground (arith, d.off) in
      rw off (path-Reached m d)

  -- With its pool in order and a module that is down, and with arguments that can be taken apart in their
  -- copy, C_Initialize either returns CKR_OK, and then the module is up, marked with this process, and
  -- knows a path; or it returns an error, and the module is down; the pool is in order. Or the process
  -- stops inside of `call_run`, called with a state whose request for C_Initialize has all letters of its
  -- signature.
  pub rpc_initialize-Initializes :
      (m : Module) (init_args : Option InitializeArgs) (taken : Module × Step (Unit {0}))
      → IsPool m
      → m.initialized ≡ false
      → take_args p m init_args ≡ done taken
      → Initializes host p.pid (rpc_initialize host p init_args m)
  unfolding rpc_initialize
  rpc_initialize-Initializes m init_args taken valid off e = rw e (
      marked (with_args host p taken) (
        args-Reached taken
          (take_args-Taken m init_args taken (record { pool = valid; off = off }) e)))
