-- ===== src/Client/Initialize.antt =====
-- gck-rpc-module.c: C_Initialize and C_Finalize, which bring the module up with a first call to the daemon
-- and take it down with a last one.
use pkcs11_proxy.Common.{
  ℕ, Bool, true, false, not, ◌&&◌, ◌||◌, Option, none, some, List, [], ◌++◌, length, codes, ◌==◌,
  if◌then◌else◌, Outcome, done, abort, Step, value, cleanup,
}
use pkcs11_proxy.Pkcs11.{
  ckr_ok, ckr_arguments_bad, ckr_cant_lock, ckr_function_not_supported,
  ckr_cryptoki_not_initialized, ckr_cryptoki_already_initialized,
}
use pkcs11_proxy.Calls.{call_initialize, call_finalize}
use pkcs11_proxy.Message.Write.{write_byte_array, items}
use pkcs11_proxy.Dispatch.Calls.Slots.{handshake}
use pkcs11_proxy.Client.{CallState, Module, Host}
use pkcs11_proxy.Client.Course.{Course, finished, halted, stopped, ◌>>=◌, lifted, ran_with}
use pkcs11_proxy.Client.Session.{
  is_tcp_path, is_tls_path, call_lookup, call_prepare, call_run, call_done,
}
use pkcs11_proxy.Client.Caller.{on_req}
use pkcs11_proxy.Client.Arguments.{fit, parse_arguments}

-- `CK_C_INITIALIZE_ARGS`: which functions are given, whether CKF_OS_LOCKING_OK is set, and the text at
-- `pReserved`.
pub record InitializeArgs : Type 0 where
  pub create_mutex : Bool
  pub destroy_mutex : Bool
  pub lock_mutex : Bool
  pub unlock_mutex : Bool
  pub os_locking_ok : Bool
  pub reserved : Option (List ℕ)

-- What C_Initialize takes from the process: its number, the two environment variables, the number that
-- `rand` makes, the memory for a copy of the arguments, and what `snprintf` prints for NULL.
pub record Process : Type 0 where
  pub pid : ℕ
  pub env_socket : Option (List ℕ)
  pub env_tls_psk_file : Option (List ℕ)
  pub random : ℕ
  pub dup_given : Bool
  pub null_text : List ℕ

-- All four functions are given, or none.
unfoldable pub supplied_ok : InitializeArgs → Bool
supplied_ok a =
    not a.create_mutex && (not a.destroy_mutex && (not a.lock_mutex && not a.unlock_mutex))
    || a.create_mutex && (a.destroy_mutex && (a.lock_mutex && a.unlock_mutex))

abbrev pub is_empty : List ℕ → Bool
is_empty path = length path == 0

-- `cleanup` is a jump to `done` with the code; `abort` is also a memory error.
abbrev pub arguments_parsed : Option Module → Outcome (Module × Step (Unit {0}))
arguments_parsed none = abort
arguments_parsed (some m) = done (m, value tt)

-- The arguments that are given with the call.
unfoldable pub take_args :
    Process → Module → Option InitializeArgs → Outcome (Module × Step (Unit {0}))
take_args p m none = done (m, value tt)
take_args p m (some a) =
    if not (supplied_ok a)
    then done (m, cleanup ckr_arguments_bad)
    else if not a.os_locking_ok
    then done (m, cleanup ckr_cant_lock)
    else arguments_parsed (parse_arguments p.null_text p.dup_given m a.reserved)

abbrev pub is_set : Option (List ℕ) → Bool
is_set none = false
is_set (some text) = not (is_empty text)

-- The path from the environment; '.pkcs11' is appended if it is a domain socket.
abbrev pub env_path : List ℕ → List ℕ
env_path path =
    if is_tcp_path path || is_tls_path path then fit path else fit (path ++ codes ".pkcs11")

unfoldable pub find_socket_path : Process → Module → Module × Step (Unit {0})
find_socket_path p m =
    if not (is_empty m.socket_path)
    then (m, value tt)
    else if is_set p.env_socket
    then (record m { socket_path = env_path (items p.env_socket) }, value tt)
    else (m, cleanup ckr_function_not_supported)

abbrev pub tls_file : Process → Module → Module
tls_file p m =
    if is_empty m.tls_psk_key_filename && is_set p.env_tls_psk_file
    then record m { tls_psk_key_filename = fit (items p.env_tls_psk_file) }
    else m

-- A TLS path needs the file with the key.
unfoldable pub find_tls_file : Process → Module → Module × Step (Unit {0})
find_tls_file p m =
    if is_tls_path m.socket_path
    then (let m' = tls_file p m in
        if is_empty m'.tls_psk_key_filename
        then (m', cleanup ckr_function_not_supported)
        else (m', value tt))
    else (m, value tt)

module _ (host : Host) where
  abbrev pub run_if_ok : CallState × ℕ → Course (CallState × ℕ)
  run_if_ok (cs, ret) = if ret == ckr_ok then ran_with cs (call_run host cs) else finished (cs, ret)

  abbrev pub greeting_written : Course (CallState × Step (Unit {0})) → Course (CallState × ℕ)
  greeting_written (finished (cs, value _)) = finished (cs, ckr_ok)
  greeting_written (finished (cs, cleanup ret)) = finished (cs, ret)
  greeting_written (halted at) = halted at
  greeting_written stopped = stopped

  -- The handshake, if the call could be prepared.
  abbrev pub write_greeting : CallState × ℕ → Course (CallState × ℕ)
  write_greeting (cs, ret) =
      if ret == ckr_ok
      then greeting_written
          (on_req (λ m. write_byte_array m (some handshake) (length handshake)) cs)
      else finished (cs, ret)

  -- The answer of call_done is not looked at.
  abbrev pub finish_with : Module → CallState × ℕ → Course (Module × ℕ)
  finish_with m (cs, ret) = lifted (call_done m cs ret) >>= λ (m', _). finished (m', ret)

  abbrev pub initialize_found : Module × Step CallState → Course (Module × ℕ)
  initialize_found (m, cleanup ret) = finished (m, ret)
  initialize_found (m, value cs) =
      lifted (call_prepare host cs call_initialize)
      >>= write_greeting
      >>= run_if_ok
      >>= finish_with m

  -- Call through and initialize the daemon.
  unfoldable pub initialize_daemon : Module → Course (Module × ℕ)
  initialize_daemon m = lifted (call_lookup host m) >>= initialize_found

  abbrev pub finalize_found : Module × Step CallState → Course (Module × ℕ)
  finalize_found (m, cleanup ret) = finished (m, ret)
  finalize_found (m, value cs) =
      lifted (call_prepare host cs call_finalize) >>= run_if_ok >>= finish_with m

  unfoldable pub finalize_daemon : Module → Course (Module × ℕ)
  finalize_daemon m = lifted (call_lookup host m) >>= finalize_found

  module _ (p : Process) where
    abbrev pub with_tls_file : Module × Step (Unit {0}) → Course (Module × ℕ)
    with_tls_file (m, cleanup ret) = finished (m, ret)
    with_tls_file (m, value _) = initialize_daemon (record m { app_id = p.random })

    abbrev pub with_path : Module × Step (Unit {0}) → Course (Module × ℕ)
    with_path (m, cleanup ret) = finished (m, ret)
    with_path (m, value _) = with_tls_file (find_tls_file p m)

    -- A process that calls twice is refused; a forked one goes on.
    abbrev pub with_args : Module × Step (Unit {0}) → Course (Module × ℕ)
    with_args (m, cleanup ret) = finished (m, ret)
    with_args (m, value _) =
        if m.initialized && p.pid == m.initialized_pid
        then finished (m, ckr_cryptoki_already_initialized)
        else with_path (find_socket_path p m)

    -- Behind the label `done`.
    unfoldable pub mark : Module × ℕ → Module × ℕ
    mark (m, ret) =
        if ret == ckr_ok
        then (record m { initialized = true; initialized_pid = p.pid }, ret)
        else if not (ret == ckr_cryptoki_already_initialized)
        then (record m { initialized = false; initialized_pid = 0; socket_path = [] }, ret)
        else (m, ret)

    unfoldable pub rpc_initialize : Option InitializeArgs → Module → Course (Module × ℕ)
    rpc_initialize init_args m =
        lifted (take_args p m init_args) >>= with_args >>= λ r. finished (mark r)

  -- The module is down whatever the daemon answers. `reserved` says whether the pointer is given.
  unfoldable pub rpc_finalize : Bool → Module → Course (Module × ℕ)
  rpc_finalize reserved m =
      if reserved
      then finished (m, ckr_arguments_bad)
      else if not m.initialized
      then finished (m, ckr_cryptoki_not_initialized)
      else (finalize_daemon m >>= λ (m', _).
          finished
            (record m' { initialized = false; initialized_pid = 0; socket_path = [] }, ckr_ok))
