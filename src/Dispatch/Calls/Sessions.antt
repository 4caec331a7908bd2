-- ===== src/Dispatch/Calls/Sessions.antt =====
-- gck-rpc-dispatch.c: the handlers of the calls on sessions.
use pkcs11_proxy.Common.{ℕ, none, some, done, abort, ◌==◌, if◌then◌else◌}
use pkcs11_proxy.Pkcs11.{appartment_slot, ckr_ok, ckr_session_count}
use pkcs11_proxy.Dispatch.{Handler, ◌>>=◌, ◌>>◌, pure, value, cleanup, goto_cleanup}
use pkcs11_proxy.Dispatch.Proto.{Machine, in_ulong, in_byte_array, in_byte_buffer}
use pkcs11_proxy.Dispatch.Results.{out_ulong, out_byte_array, out_session_info}
use pkcs11_proxy.Dispatch.Library.{
  FunctionList, begin_call, run_module, process_call, filled_at, stored_at,
}
use pkcs11_proxy.Dispatch.Sessions.{close_chosen, is_of_slot, is_gone, remember, forget}

-- `if (_ret != CKR_OK) goto _cleanup;`
unfoldable pub or_cleanup : {S : Type 0} → ℕ → Handler S (Unit {0})
or_cleanup ret = if ret == ckr_ok then pure tt else goto_cleanup ret

module _ {S : Type 0} where
  -- The session is remembered; without a free position the handler gives up.
  unfoldable pub store_session : ℕ → ℕ → Handler S (Unit {0})
  store_session session slot_id w =
      elim (remember (record { id = session; slot = slot_id }) w.cs.sessions) [
        | none ↦ done (w, cleanup ckr_session_count)
        | some sessions ↦ done (record w { cs = record w.cs { sessions = sessions } }, value tt)
      ]

  unfoldable pub drop_session : ℕ → Handler S (Unit {0})
  drop_session session w =
      done (record w { cs = record w.cs { sessions = forget session w.cs.sessions } }, value tt)

  module _ (lib : FunctionList S) where
    -- C_GetSlotInfo shows whether the slot is valid; the function is called without a look at its pointer.
    unfoldable pub check_slot : ℕ → Handler S (Unit {0})
    check_slot slot_id w = elim lib.get_slot_info [
      | none ↦ abort
      | some f ↦ (run_module (f slot_id) >>= λ (ret, _). or_cleanup ret) w
    ]

    unfoldable pub close_slot : ℕ → Handler S ℕ
    close_slot slot_id w =
        elim (close_chosen lib.close_session (is_of_slot slot_id) is_gone w.cs.sessions
          w.module_state) [
            | abort ↦ abort
            | done (sessions, s, ret) ↦
                done (
                  record w { cs = record w.cs { sessions = sessions }; module_state = s },
                  value ret,
                )
          ]

module _ {S : Type 0} (machine : Machine) (lib : FunctionList S) where
  unfoldable pub rpc_open_session : Handler S ℕ
  rpc_open_session = do
    f ← begin_call lib.open_session
    slot_id ← in_ulong
    flags ← in_ulong
    (ret, session) ← process_call (f slot_id flags)
    (if ret == ckr_ok then store_session session slot_id else pure tt)
    out_ulong session ret

  unfoldable pub rpc_close_session : Handler S ℕ
  rpc_close_session = do
    f ← begin_call lib.close_session
    session ← in_ulong
    (ret, _) ← process_call (f session)
    (if ret == ckr_ok then drop_session session else pure tt)
    pure ret

  unfoldable pub rpc_close_all_sessions : Handler S ℕ
  rpc_close_all_sessions = do
    _ ← begin_call lib.close_all_sessions
    slot_id ← in_ulong
    check_slot lib slot_id
    close_slot lib slot_id

  unfoldable pub rpc_get_function_status : Handler S ℕ
  rpc_get_function_status = do
    f ← begin_call lib.get_function_status
    session ← in_ulong
    (ret, _) ← process_call (f session)
    pure ret

  unfoldable pub rpc_cancel_function : Handler S ℕ
  rpc_cancel_function = do
    f ← begin_call lib.cancel_function
    session ← in_ulong
    (ret, _) ← process_call (f session)
    pure ret

  unfoldable pub rpc_get_session_info : Handler S ℕ
  rpc_get_session_info = do
    f ← begin_call lib.get_session_info
    session ← in_ulong
    (ret, info) ← process_call (f session)
    out_session_info (record info { slot_id = appartment_slot info.slot_id }) ret

  unfoldable pub rpc_init_pin : Handler S ℕ
  rpc_init_pin = do
    f ← begin_call lib.init_pin
    session ← in_ulong
    (pin, pin_len) ← in_byte_array
    (ret, _) ← process_call (f session pin pin_len)
    pure ret

  unfoldable pub rpc_set_pin : Handler S ℕ
  rpc_set_pin = do
    f ← begin_call lib.set_pin
    session ← in_ulong
    (old_pin, old_len) ← in_byte_array
    (new_pin, new_len) ← in_byte_array
    (ret, _) ← process_call (f session old_pin old_len new_pin new_len)
    pure ret

  unfoldable pub rpc_get_operation_state : Handler S ℕ
  rpc_get_operation_state = do
    f ← begin_call lib.get_operation_state
    session ← in_ulong
    (operation_state, operation_state_len) ← in_byte_buffer machine
    (ret, (written, written_len)) ← process_call (f session operation_state operation_state_len)
    out_byte_array (filled_at operation_state written) (stored_at operation_state_len written_len)
        ret

  unfoldable pub rpc_set_operation_state : Handler S ℕ
  rpc_set_operation_state = do
    f ← begin_call lib.set_operation_state
    session ← in_ulong
    (operation_state, operation_state_len) ← in_byte_array
    encryption_key ← in_ulong
    authentication_key ← in_ulong
    (ret, _) ←
        process_call
          (f session operation_state operation_state_len encryption_key authentication_key)
    pure ret

  unfoldable pub rpc_login : Handler S ℕ
  rpc_login = do
    f ← begin_call lib.login
    session ← in_ulong
    user_type ← in_ulong
    (pin, pin_len) ← in_byte_array
    (ret, _) ← process_call (f session user_type pin pin_len)
    pure ret

  unfoldable pub rpc_logout : Handler S ℕ
  rpc_logout = do
    f ← begin_call lib.logout
    session ← in_ulong
    (ret, _) ← process_call (f session)
    pure ret
