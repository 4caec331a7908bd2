-- ===== src/Dispatch/Safe/Sessions.antt =====
-- The handlers of the calls on sessions keep to the table of signatures.
use pkcs11_proxy.Common.{[], codes}
use pkcs11_proxy.Calls
use pkcs11_proxy.Dispatch.Proto.{Machine}
use pkcs11_proxy.Dispatch.Library.{FunctionList}
use pkcs11_proxy.Dispatch.Calls.Sessions.{
  rpc_open_session, rpc_close_session, rpc_close_all_sessions, rpc_get_function_status,
  rpc_cancel_function, rpc_get_session_info, rpc_init_pin, rpc_set_pin, rpc_get_operation_state,
  rpc_set_operation_state, rpc_login, rpc_logout,
}
use pkcs11_proxy.Dispatch.Ensures.{
  Ensures_bind, Ensures_then, pure-Ensures, if-Ensures, begin_call-Ensures, process_call-Ensures,
}
use pkcs11_proxy.Dispatch.Asked.{in_ulong-Ensures, in_byte_array-Ensures, in_byte_buffer-Ensures}
use pkcs11_proxy.Dispatch.Answered.{
  Completes, pure_ret-Ensures, out_ulong-Ensures, out_byte_array-Ensures, out_session_info-Ensures,
}
use pkcs11_proxy.Dispatch.Opened.{
  store_session-Ensures, drop_session-Ensures, check_slot-Ensures, close_slot-Ensures, IsPresent,
}

module _ {S : Type 0} (machine : Machine) (lib : FunctionList S) (present : IsPresent lib) where
  pub open_session-Completes :
      Completes {S = S} Calls.call_open_session
        (codes "uu")
        (codes "u")
        (rpc_open_session machine lib)
  unfolding rpc_open_session
  open_session-Completes = Ensures_bind (begin_call-Ensures _) λ _.
      Ensures_bind (in_ulong-Ensures (codes "u")) λ _. Ensures_bind (in_ulong-Ensures []) λ _.
        Ensures_bind (process_call-Ensures _) λ _.
          Ensures_then (if-Ensures _ (store_session-Ensures _ _) (pure-Ensures tt))
            (out_ulong-Ensures [] _ _)

  pub close_session-Completes :
      Completes {S = S} Calls.call_close_session (codes "u") [] (rpc_close_session machine lib)
  unfolding rpc_close_session
  close_session-Completes = Ensures_bind (begin_call-Ensures _) λ _.
      Ensures_bind (in_ulong-Ensures []) λ _. Ensures_bind (process_call-Ensures _) λ _.
        Ensures_then (if-Ensures _ (drop_session-Ensures _) (pure-Ensures tt))
          (pure_ret-Ensures [] _)

  pub close_all_sessions-Completes :
      Completes {S = S} Calls.call_close_all_sessions
        (codes "u")
        []
        (rpc_close_all_sessions machine lib)
  unfolding rpc_close_all_sessions
  close_all_sessions-Completes = Ensures_bind (begin_call-Ensures _) λ _.
      Ensures_bind (in_ulong-Ensures []) λ slot_id.
        Ensures_then (check_slot-Ensures lib present slot_id)
          (close_slot-Ensures lib present slot_id)

  pub get_function_status-Completes :
      Completes {S = S} Calls.call_get_function_status
        (codes "u")
        []
        (rpc_get_function_status machine lib)
  unfolding rpc_get_function_status
  get_function_status-Completes = Ensures_bind (begin_call-Ensures _) λ _.
      Ensures_bind (in_ulong-Ensures [])
        λ _. Ensures_bind (process_call-Ensures _) λ _. pure_ret-Ensures [] _

  pub cancel_function-Completes :
      Completes {S = S} Calls.call_cancel_function (codes "u") [] (rpc_cancel_function machine lib)
  unfolding rpc_cancel_function
  cancel_function-Completes = Ensures_bind (begin_call-Ensures _) λ _.
      Ensures_bind (in_ulong-Ensures [])
        λ _. Ensures_bind (process_call-Ensures _) λ _. pure_ret-Ensures [] _

  pub get_session_info-Completes :
      Completes {S = S} Calls.call_get_session_info
        (codes "u")
        (codes "uuuu")
        (rpc_get_session_info machine lib)
  unfolding rpc_get_session_info
  get_session_info-Completes = Ensures_bind (begin_call-Ensures _) λ _.
      Ensures_bind (in_ulong-Ensures [])
        λ _. Ensures_bind (process_call-Ensures _) λ _. out_session_info-Ensures [] _ _

  pub init_pin-Completes :
      Completes {S = S} Calls.call_init_pin (codes "uay") [] (rpc_init_pin machine lib)
  unfolding rpc_init_pin
  init_pin-Completes = Ensures_bind (begin_call-Ensures _) λ _.
      Ensures_bind (in_ulong-Ensures (codes "ay")) λ _.
        Ensures_bind (in_byte_array-Ensures [])
          λ _. Ensures_bind (process_call-Ensures _) λ _. pure_ret-Ensures [] _

  pub set_pin-Completes :
      Completes {S = S} Calls.call_set_pin (codes "uayay") [] (rpc_set_pin machine lib)
  unfolding rpc_set_pin
  set_pin-Completes = Ensures_bind (begin_call-Ensures _) λ _.
      Ensures_bind (in_ulong-Ensures (codes "ayay")) λ _.
        Ensures_bind (in_byte_array-Ensures (codes "ay")) λ _.
          Ensures_bind (in_byte_array-Ensures [])
            λ _. Ensures_bind (process_call-Ensures _) λ _. pure_ret-Ensures [] _

  pub get_operation_state-Completes :
      Completes {S = S} Calls.call_get_operation_state
        (codes "ufy")
        (codes "ay")
        (rpc_get_operation_state machine lib)
  unfolding rpc_get_operation_state
  get_operation_state-Completes = Ensures_bind (begin_call-Ensures _) λ _.
      Ensures_bind (in_ulong-Ensures (codes "fy")) λ _.
        Ensures_bind (in_byte_buffer-Ensures machine [])
          λ _. Ensures_bind (process_call-Ensures _) λ _. out_byte_array-Ensures [] _ _ _

  pub set_operation_state-Completes :
      Completes {S = S} Calls.call_set_operation_state
        (codes "uayuu")
        []
        (rpc_set_operation_state machine lib)
  unfolding rpc_set_operation_state
  set_operation_state-Completes = Ensures_bind (begin_call-Ensures _) λ _.
      Ensures_bind (in_ulong-Ensures (codes "ayuu")) λ _.
        Ensures_bind (in_byte_array-Ensures (codes "uu")) λ _.
          Ensures_bind (in_ulong-Ensures (codes "u")) λ _.
            Ensures_bind (in_ulong-Ensures [])
              λ _. Ensures_bind (process_call-Ensures _) λ _. pure_ret-Ensures [] _

  pub login-Completes : Completes {S = S} Calls.call_login (codes "uuay") [] (rpc_login machine lib)
  unfolding rpc_login
  login-Completes = Ensures_bind (begin_call-Ensures _) λ _.
      Ensures_bind (in_ulong-Ensures (codes "uay")) λ _.
        Ensures_bind (in_ulong-Ensures (codes "ay")) λ _.
          Ensures_bind (in_byte_array-Ensures [])
            λ _. Ensures_bind (process_call-Ensures _) λ _. pure_ret-Ensures [] _

  pub logout-Completes : Completes {S = S} Calls.call_logout (codes "u") [] (rpc_logout machine lib)
  unfolding rpc_logout
  logout-Completes = Ensures_bind (begin_call-Ensures _) λ _.
      Ensures_bind (in_ulong-Ensures [])
        λ _. Ensures_bind (process_call-Ensures _) λ _. pure_ret-Ensures [] _
