-- ===== src/Client/Calls/Sessions.antt =====
-- gck-rpc-module.c: the functions of the module for sessions.
use pkcs11_proxy.Common.{ℕ, Bool, Option, none, List}
use pkcs11_proxy.Pkcs11.{SessionInfo, ckr_ok, ckr_arguments_bad, ckr_cryptoki_not_initialized}
use pkcs11_proxy.Calls.{
  call_open_session, call_close_session, call_close_all_sessions, call_get_function_status,
  call_cancel_function, call_get_session_info, call_init_pin, call_set_pin,
  call_get_operation_state, call_set_operation_state, call_login, call_logout,
}
use pkcs11_proxy.Client.{Module, Host}
use pkcs11_proxy.Client.Course.{Course}
use pkcs11_proxy.Client.Caller.{◌>>◌, pure}
use pkcs11_proxy.Client.Begin.{begin_call, process_call, return_val_if_fail}
use pkcs11_proxy.Client.Proto.{in_ulong, in_byte_buffer, in_byte_array}
use pkcs11_proxy.Client.Results.{Stored, out_ulong, out_session_info, out_byte_array}

module _ (host : Host) where
  unfoldable pub rpc_open_session : ℕ → ℕ → Bool → Module → Course (Module × ℕ × Option ℕ)
  rpc_open_session id flags session m =
      return_val_if_fail m.initialized ckr_cryptoki_not_initialized none
        (begin_call host call_open_session none
          (do in_ulong id; in_ulong flags; process_call host; out_ulong host session ckr_ok))
        m

  unfoldable pub rpc_close_session : ℕ → Module → Course (Module × ℕ × Unit {0})
  rpc_close_session session m =
      return_val_if_fail m.initialized ckr_cryptoki_not_initialized tt
        (begin_call host call_close_session tt
          (do in_ulong session; process_call host; pure (ckr_ok, tt)))
        m

  unfoldable pub rpc_close_all_sessions : ℕ → Module → Course (Module × ℕ × Unit {0})
  rpc_close_all_sessions id m =
      return_val_if_fail m.initialized ckr_cryptoki_not_initialized tt
        (begin_call host call_close_all_sessions tt
          (do in_ulong id; process_call host; pure (ckr_ok, tt)))
        m

  unfoldable pub rpc_get_function_status : ℕ → Module → Course (Module × ℕ × Unit {0})
  rpc_get_function_status session m =
      return_val_if_fail m.initialized ckr_cryptoki_not_initialized tt
        (begin_call host call_get_function_status tt
          (do in_ulong session; process_call host; pure (ckr_ok, tt)))
        m

  unfoldable pub rpc_cancel_function : ℕ → Module → Course (Module × ℕ × Unit {0})
  rpc_cancel_function session m =
      return_val_if_fail m.initialized ckr_cryptoki_not_initialized tt
        (begin_call host call_cancel_function tt
          (do in_ulong session; process_call host; pure (ckr_ok, tt)))
        m

  unfoldable pub rpc_get_session_info : ℕ → Bool → Module → Course (Module × ℕ × Option SessionInfo)
  rpc_get_session_info session info m =
      return_val_if_fail m.initialized ckr_cryptoki_not_initialized none
        (return_val_if_fail info ckr_arguments_bad none (
          begin_call host call_get_session_info none
            (do in_ulong session; process_call host; out_session_info host info ckr_ok)))
        m

  unfoldable pub rpc_init_pin : ℕ → Option (List ℕ) → ℕ → Module → Course (Module × ℕ × Unit {0})
  rpc_init_pin session pin pin_len m =
      return_val_if_fail m.initialized ckr_cryptoki_not_initialized tt
        (begin_call host call_init_pin tt
          (do in_ulong session; in_byte_array pin pin_len; process_call host; pure (ckr_ok, tt)))
        m

  unfoldable pub rpc_set_pin :
      ℕ → Option (List ℕ) → ℕ → Option (List ℕ) → ℕ → Module → Course (Module × ℕ × Unit {0})
  rpc_set_pin session old_pin old_pin_len new_pin new_pin_len m =
      return_val_if_fail m.initialized ckr_cryptoki_not_initialized tt
        (begin_call host call_set_pin tt (do
          in_ulong session
          in_byte_array old_pin old_pin_len
          in_byte_array new_pin new_pin_len
          process_call host
          pure (ckr_ok, tt)))
        m

  unfoldable pub rpc_get_operation_state :
      ℕ → Option (List ℕ) → Option ℕ → Module → Course (Module × ℕ × Stored)
  rpc_get_operation_state session operation_state operation_state_len m =
      return_val_if_fail m.initialized ckr_cryptoki_not_initialized
        (operation_state, operation_state_len)
        (begin_call host call_get_operation_state (operation_state, operation_state_len)
          (do
            in_ulong session
            in_byte_buffer operation_state operation_state_len
            process_call host
            out_byte_array operation_state operation_state_len ckr_ok))
        m

  unfoldable pub rpc_set_operation_state :
      ℕ → Option (List ℕ) → ℕ → ℕ → ℕ → Module → Course (Module × ℕ × Unit {0})
  rpc_set_operation_state session operation_state operation_state_len encryption_key
        authentication_key m =
      return_val_if_fail m.initialized ckr_cryptoki_not_initialized tt
        (begin_call host call_set_operation_state tt (do
          in_ulong session
          in_byte_array operation_state operation_state_len
          in_ulong encryption_key
          in_ulong authentication_key
          process_call host
          pure (ckr_ok, tt)))
        m

  unfoldable pub rpc_login : ℕ → ℕ → Option (List ℕ) → ℕ → Module → Course (Module × ℕ × Unit {0})
  rpc_login session user_type pin pin_len m =
      return_val_if_fail m.initialized ckr_cryptoki_not_initialized tt
        (begin_call host call_login tt (do
          in_ulong session
          in_ulong user_type
          in_byte_array pin pin_len
          process_call host
          pure (ckr_ok, tt)))
        m

  unfoldable pub rpc_logout : ℕ → Module → Course (Module × ℕ × Unit {0})
  rpc_logout session m =
      return_val_if_fail m.initialized ckr_cryptoki_not_initialized tt
        (begin_call host call_logout tt (do in_ulong session; process_call host; pure (ckr_ok, tt)))
        m
