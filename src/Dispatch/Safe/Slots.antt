-- ===== src/Dispatch/Safe/Slots.antt =====
-- The handlers of the calls on slots, tokens and mechanisms keep to the table of signatures.
use pkcs11_proxy.Common.{[], codes}
use pkcs11_proxy.Calls
use pkcs11_proxy.Dispatch.Proto.{Machine}
use pkcs11_proxy.Dispatch.Library.{FunctionList}
use pkcs11_proxy.Dispatch.Calls.Slots.{
  rpc_initialize, rpc_finalize, rpc_get_info, rpc_get_slot_list, rpc_get_slot_info,
  rpc_get_token_info, rpc_get_mechanism_list, rpc_get_mechanism_info, rpc_init_token,
  rpc_wait_for_slot_event,
}
use pkcs11_proxy.Dispatch.Ensures.{
  Ensures_bind, Ensures_then, begin_call-Ensures, process_call-Ensures, verified-Ensures,
}
use pkcs11_proxy.Dispatch.Asked.{
  in_byte-Ensures, in_ulong-Ensures, in_byte_array-Ensures, in_ulong_buffer-Ensures,
  in_space_string-Ensures,
}
use pkcs11_proxy.Dispatch.Answered.{
  Completes, pure_ret-Ensures, out_ulong-Ensures, out_ulong_array-Ensures, out_info-Ensures,
  out_slot_info-Ensures, out_token_info-Ensures, out_mechanism_info-Ensures,
}
use pkcs11_proxy.Dispatch.Opened.{finalize-Ensures, IsPresent}

module _ {S : Type 0} (machine : Machine) (lib : FunctionList S) (present : IsPresent lib) where
  pub initialize-Completes :
      Completes {S = S} Calls.call_initialize (codes "ay") [] (rpc_initialize machine lib)
  unfolding rpc_initialize
  initialize-Completes =
      Ensures_bind (in_byte_array-Ensures [])
        λ _. Ensures_then (verified-Ensures) (pure_ret-Ensures [] _)

  pub finalize-Completes : Completes {S = S} Calls.call_finalize [] [] (rpc_finalize machine lib)
  unfolding rpc_finalize
  finalize-Completes = finalize-Ensures lib present machine

  pub get_info-Completes :
      Completes {S = S} Calls.call_get_info [] (codes "vsusv") (rpc_get_info machine lib)
  unfolding rpc_get_info
  get_info-Completes =
      Ensures_bind (begin_call-Ensures _)
        λ _. Ensures_bind (process_call-Ensures _) λ _. out_info-Ensures [] _ _

  pub get_slot_list-Completes :
      Completes {S = S} Calls.call_get_slot_list
        (codes "yfu")
        (codes "au")
        (rpc_get_slot_list machine lib)
  unfolding rpc_get_slot_list
  get_slot_list-Completes = Ensures_bind (begin_call-Ensures _) λ _.
      Ensures_bind (in_byte-Ensures (codes "fu")) λ _.
        Ensures_bind (in_ulong_buffer-Ensures machine [])
          λ _. Ensures_bind (process_call-Ensures _) λ _. out_ulong_array-Ensures [] _ _ _

  pub get_slot_info-Completes :
      Completes {S = S} Calls.call_get_slot_info
        (codes "u")
        (codes "ssuvv")
        (rpc_get_slot_info machine lib)
  unfolding rpc_get_slot_info
  get_slot_info-Completes = Ensures_bind (begin_call-Ensures _) λ _.
      Ensures_bind (in_ulong-Ensures [])
        λ _. Ensures_bind (process_call-Ensures _) λ _. out_slot_info-Ensures [] _ _

  pub get_token_info-Completes :
      Completes {S = S} Calls.call_get_token_info
        (codes "u")
        (codes "ssssuuuuuuuuuuuvvs")
        (rpc_get_token_info machine lib)
  unfolding rpc_get_token_info
  get_token_info-Completes = Ensures_bind (begin_call-Ensures _) λ _.
      Ensures_bind (in_ulong-Ensures [])
        λ _. Ensures_bind (process_call-Ensures _) λ _. out_token_info-Ensures [] _ _

  pub get_mechanism_list-Completes :
      Completes {S = S} Calls.call_get_mechanism_list
        (codes "ufu")
        (codes "au")
        (rpc_get_mechanism_list machine lib)
  unfolding rpc_get_mechanism_list
  get_mechanism_list-Completes = Ensures_bind (begin_call-Ensures _) λ _.
      Ensures_bind (in_ulong-Ensures (codes "fu")) λ _.
        Ensures_bind (in_ulong_buffer-Ensures machine [])
          λ _. Ensures_bind (process_call-Ensures _) λ _. out_ulong_array-Ensures [] _ _ _

  pub get_mechanism_info-Completes :
      Completes {S = S} Calls.call_get_mechanism_info
        (codes "uu")
        (codes "uuu")
        (rpc_get_mechanism_info machine lib)
  unfolding rpc_get_mechanism_info
  get_mechanism_info-Completes = Ensures_bind (begin_call-Ensures _) λ _.
      Ensures_bind (in_ulong-Ensures (codes "u")) λ _.
        Ensures_bind (in_ulong-Ensures [])
          λ _. Ensures_bind (process_call-Ensures _) λ _. out_mechanism_info-Ensures [] _ _

  pub init_token-Completes :
      Completes {S = S} Calls.call_init_token (codes "uays") [] (rpc_init_token machine lib)
  unfolding rpc_init_token
  init_token-Completes = Ensures_bind (begin_call-Ensures _) λ _.
      Ensures_bind (in_ulong-Ensures (codes "ays")) λ _.
        Ensures_bind (in_byte_array-Ensures (codes "s")) λ _.
          Ensures_bind (in_space_string-Ensures machine 32 [])
            λ _. Ensures_bind (process_call-Ensures _) λ _. pure_ret-Ensures [] _

  pub wait_for_slot_event-Completes :
      Completes {S = S} Calls.call_wait_for_slot_event
        (codes "u")
        (codes "u")
        (rpc_wait_for_slot_event machine lib)
  unfolding rpc_wait_for_slot_event
  wait_for_slot_event-Completes = Ensures_bind (begin_call-Ensures _) λ _.
      Ensures_bind (in_ulong-Ensures [])
        λ _. Ensures_bind (process_call-Ensures _) λ _. out_ulong-Ensures [] _ _
