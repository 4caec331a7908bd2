-- ===== src/Client/Safe/Sessions.antt =====
-- gck-rpc-module.c: the functions for sessions keep to the table of signatures.
use pkcs11_proxy.Common.{ℕ, refl, Bool, Option, none, List, [], codes, arith}
use pkcs11_proxy.Pkcs11.{ckr_ok, ckr_arguments_bad, ckr_cryptoki_not_initialized}
use pkcs11_proxy.Calls.{
  request_of, response_of, call_open_session, call_close_session, call_close_all_sessions,
  call_get_function_status, call_cancel_function, call_get_session_info, call_init_pin,
  call_set_pin, call_get_operation_state, call_set_operation_state, call_login, call_logout,
}
use pkcs11_proxy.Client.{Module, Host}
use pkcs11_proxy.Client.Invariant.{IsPool}
use pkcs11_proxy.Client.Calls.Sessions.{
  rpc_open_session, rpc_close_session, rpc_close_all_sessions, rpc_get_function_status,
  rpc_cancel_function, rpc_get_session_info, rpc_init_pin, rpc_set_pin, rpc_get_operation_state,
  rpc_set_operation_state, rpc_login, rpc_logout,
}
use pkcs11_proxy.Client.Runs.{Runs_then, process_call-Runs, pure-Runs}
use pkcs11_proxy.Client.Returns.{Returns, begin_call-Returns, return_val_if_fail-Returns}
use pkcs11_proxy.Client.Asks.{in_byte_array-Runs, in_byte_buffer-Runs, in_ulong-Runs}
use pkcs11_proxy.Client.Answers.{out_byte_array-Runs, out_session_info-Runs, out_ulong-Runs}

module _ {host : Host} {m : Module} (valid : IsPool m) where
  pub open_session-Returns :
      (id : ℕ) (flags : ℕ) (session : Bool)
      → Returns host call_open_session m (rpc_open_session host id flags session m)
  unfolding rpc_open_session request_of response_of
  open_session-Returns id flags session =
      return_val_if_fail-Returns m.initialized ckr_cryptoki_not_initialized none _ valid (λ _.
        begin_call-Returns host call_open_session none m (codes "uu") _ valid (omega arith)
          (omega arith) refl
          (Runs_then (in_ulong-Runs (codes "u") id) (
            Runs_then (in_ulong-Runs [] flags)
              (Runs_then (process_call-Runs (codes "u") refl) (out_ulong-Runs [] session ckr_ok)))))

  pub close_session-Returns :
      (session : ℕ) → Returns host call_close_session m (rpc_close_session host session m)
  unfolding rpc_close_session request_of response_of
  close_session-Returns session =
      return_val_if_fail-Returns m.initialized ckr_cryptoki_not_initialized tt _ valid (λ _.
        begin_call-Returns host call_close_session tt m (codes "u") _ valid (omega arith)
          (omega arith) refl
          (Runs_then (in_ulong-Runs [] session)
            (Runs_then (process_call-Runs [] refl) (pure-Runs (ckr_ok, tt) (λ cs h. h)))))

  pub close_all_sessions-Returns :
      (id : ℕ) → Returns host call_close_all_sessions m (rpc_close_all_sessions host id m)
  unfolding rpc_close_all_sessions request_of response_of
  close_all_sessions-Returns id =
      return_val_if_fail-Returns m.initialized ckr_cryptoki_not_initialized tt _ valid (λ _.
        begin_call-Returns host call_close_all_sessions tt m (codes "u") _ valid (omega arith)
          (omega arith) refl
          (Runs_then (in_ulong-Runs [] id)
            (Runs_then (process_call-Runs [] refl) (pure-Runs (ckr_ok, tt) (λ cs h. h)))))

  pub get_function_status-Returns :
      (session : ℕ)
      → Returns host call_get_function_status m (rpc_get_function_status host session m)
  unfolding rpc_get_function_status request_of response_of
  get_function_status-Returns session =
      return_val_if_fail-Returns m.initialized ckr_cryptoki_not_initialized tt _ valid (λ _.
        begin_call-Returns host call_get_function_status tt m (codes "u") _ valid (omega arith)
          (omega arith) refl
          (Runs_then (in_ulong-Runs [] session)
            (Runs_then (process_call-Runs [] refl) (pure-Runs (ckr_ok, tt) (λ cs h. h)))))

  pub cancel_function-Returns :
      (session : ℕ) → Returns host call_cancel_function m (rpc_cancel_function host session m)
  unfolding rpc_cancel_function request_of response_of
  cancel_function-Returns session =
      return_val_if_fail-Returns m.initialized ckr_cryptoki_not_initialized tt _ valid (λ _.
        begin_call-Returns host call_cancel_function tt m (codes "u") _ valid (omega arith)
          (omega arith) refl
          (Runs_then (in_ulong-Runs [] session)
            (Runs_then (process_call-Runs [] refl) (pure-Runs (ckr_ok, tt) (λ cs h. h)))))

  pub get_session_info-Returns :
      (session : ℕ) (info : Bool)
      → Returns host call_get_session_info m (rpc_get_session_info host session info m)
  unfolding rpc_get_session_info request_of response_of
  get_session_info-Returns session info =
      return_val_if_fail-Returns m.initialized ckr_cryptoki_not_initialized none _ valid (λ _.
        return_val_if_fail-Returns info ckr_arguments_bad none _ valid (λ _.
          begin_call-Returns host call_get_session_info none m (codes "u") _ valid (omega arith)
            (omega arith) refl
            (Runs_then (in_ulong-Runs [] session) (
              Runs_then (process_call-Runs (codes "uuuu") refl)
                (out_session_info-Runs [] info ckr_ok)))))

  pub init_pin-Returns :
      (session : ℕ) (pin : Option (List ℕ)) (pin_len : ℕ)
      → Returns host call_init_pin m (rpc_init_pin host session pin pin_len m)
  unfolding rpc_init_pin request_of response_of
  init_pin-Returns session pin pin_len =
      return_val_if_fail-Returns m.initialized ckr_cryptoki_not_initialized tt _ valid (λ _.
        begin_call-Returns host call_init_pin tt m (codes "uay") _ valid (omega arith) (omega arith)
          refl
          (Runs_then (in_ulong-Runs (codes "ay") session) (
            Runs_then (in_byte_array-Runs [] pin pin_len)
              (Runs_then (process_call-Runs [] refl) (pure-Runs (ckr_ok, tt) (λ cs h. h))))))

  pub set_pin-Returns :
      (session : ℕ) (old_pin : Option (List ℕ)) (old_pin_len : ℕ) (new_pin : Option (List ℕ))
      (new_pin_len : ℕ)
      → Returns host call_set_pin m
          (rpc_set_pin host session old_pin old_pin_len new_pin new_pin_len m)
  unfolding rpc_set_pin request_of response_of
  set_pin-Returns session old_pin old_pin_len new_pin new_pin_len =
      return_val_if_fail-Returns m.initialized ckr_cryptoki_not_initialized tt _ valid (λ _.
        begin_call-Returns host call_set_pin tt m (codes "uayay") _ valid (omega arith)
          (omega arith) refl
          (Runs_then (in_ulong-Runs (codes "ayay") session) (
            Runs_then (in_byte_array-Runs (codes "ay") old_pin old_pin_len) (
              Runs_then (in_byte_array-Runs [] new_pin new_pin_len)
                (Runs_then (process_call-Runs [] refl) (pure-Runs (ckr_ok, tt) (λ cs h. h)))))))

  pub get_operation_state-Returns :
      (session : ℕ) (operation_state : Option (List ℕ)) (operation_state_len : Option ℕ)
      → Returns host call_get_operation_state m
          (rpc_get_operation_state host session operation_state operation_state_len m)
  unfolding rpc_get_operation_state request_of response_of
  get_operation_state-Returns session operation_state operation_state_len =
      return_val_if_fail-Returns m.initialized ckr_cryptoki_not_initialized
        (operation_state, operation_state_len) _ valid
        (λ _.
          begin_call-Returns host call_get_operation_state (operation_state, operation_state_len) m
            (codes "ufy") _ valid (omega arith) (omega arith) refl
            (Runs_then (in_ulong-Runs (codes "fy") session) (
              Runs_then (in_byte_buffer-Runs [] operation_state operation_state_len) (
                Runs_then (process_call-Runs (codes "ay") refl)
                  (out_byte_array-Runs [] operation_state operation_state_len ckr_ok)))))

  pub set_operation_state-Returns :
      (session : ℕ) (operation_state : Option (List ℕ)) (operation_state_len : ℕ)
      (encryption_key : ℕ) (authentication_key : ℕ)
      → Returns host call_set_operation_state m (
          rpc_set_operation_state host session operation_state operation_state_len encryption_key
            authentication_key m)
  unfolding rpc_set_operation_state request_of response_of
  set_operation_state-Returns session operation_state operation_state_len encryption_key
        authentication_key =
      return_val_if_fail-Returns m.initialized ckr_cryptoki_not_initialized tt _ valid (λ _.
        begin_call-Returns host call_set_operation_state tt m (codes "uayuu") _ valid (omega arith)
          (omega arith) refl
          (Runs_then (in_ulong-Runs (codes "ayuu") session) (
            Runs_then (in_byte_array-Runs (codes "uu") operation_state operation_state_len) (
              Runs_then (in_ulong-Runs (codes "u") encryption_key) (
                Runs_then (in_ulong-Runs [] authentication_key)
                  (Runs_then (process_call-Runs [] refl) (pure-Runs (ckr_ok, tt) (λ cs h. h))))))))

  pub login-Returns :
      (session : ℕ) (user_type : ℕ) (pin : Option (List ℕ)) (pin_len : ℕ)
      → Returns host call_login m (rpc_login host session user_type pin pin_len m)
  unfolding rpc_login request_of response_of
  login-Returns session user_type pin pin_len =
      return_val_if_fail-Returns m.initialized ckr_cryptoki_not_initialized tt _ valid (λ _.
        begin_call-Returns host call_login tt m (codes "uuay") _ valid (omega arith) (omega arith)
          refl
          (Runs_then (in_ulong-Runs (codes "uay") session) (
            Runs_then (in_ulong-Runs (codes "ay") user_type) (
              Runs_then (in_byte_array-Runs [] pin pin_len)
                (Runs_then (process_call-Runs [] refl) (pure-Runs (ckr_ok, tt) (λ cs h. h)))))))

  pub logout-Returns : (session : ℕ) → Returns host call_logout m (rpc_logout host session m)
  unfolding rpc_logout request_of response_of
  logout-Returns session =
      return_val_if_fail-Returns m.initialized ckr_cryptoki_not_initialized tt _ valid (λ _.
        begin_call-Returns host call_logout tt m (codes "u") _ valid (omega arith) (omega arith)
          refl
          (Runs_then (in_ulong-Runs [] session)
            (Runs_then (process_call-Runs [] refl) (pure-Runs (ckr_ok, tt) (λ cs h. h)))))
