-- ===== src/Client/Calls/Slots.antt =====
-- gck-rpc-module.c: the functions of the module for slots, tokens and mechanisms.
use pkcs11_proxy.Common.{ℕ, Bool, Option, none, List}
use pkcs11_proxy.Pkcs11.{
  Info, SlotInfo, TokenInfo, MechanismInfo, ckr_ok, ckr_arguments_bad, ckr_cryptoki_not_initialized,
}
use pkcs11_proxy.Calls.{
  call_get_info, call_get_slot_list, call_get_slot_info, call_get_token_info,
  call_get_mechanism_list, call_get_mechanism_info, call_init_token, call_wait_for_slot_event,
}
use pkcs11_proxy.Message.{is_given}
use pkcs11_proxy.Client.{Module, Host}
use pkcs11_proxy.Client.Course.{Course}
use pkcs11_proxy.Client.Caller.{◌>>◌, pure}
use pkcs11_proxy.Client.Begin.{begin_call, process_call, return_val_if_fail}
use pkcs11_proxy.Client.Proto.{
  in_byte, in_ulong, in_space_string, in_byte_array, in_ulong_buffer, in_mechanism_type,
}
use pkcs11_proxy.Client.Results.{
  Stored, out_ulong, out_info, out_slot_info, out_token_info, out_mechanism_info, out_ulong_array,
  out_mechanism_type_array,
}

module _ (host : Host) where
  unfoldable pub rpc_get_info : Bool → Module → Course (Module × ℕ × Option Info)
  rpc_get_info info m =
      return_val_if_fail m.initialized ckr_cryptoki_not_initialized none
        (return_val_if_fail info ckr_arguments_bad none
          (begin_call host call_get_info none (do process_call host; out_info host info ckr_ok)))
        m

  unfoldable pub rpc_get_slot_list :
      ℕ → Option (List ℕ) → Option ℕ → Module → Course (Module × ℕ × Stored)
  rpc_get_slot_list token_present slot_list count m =
      return_val_if_fail m.initialized ckr_cryptoki_not_initialized (slot_list, count)
        (return_val_if_fail (is_given count) ckr_arguments_bad (slot_list, count)
          (begin_call host call_get_slot_list (slot_list, count)
            (do
              in_byte token_present
              in_ulong_buffer slot_list count
              process_call host
              out_ulong_array host slot_list count ckr_ok)))
        m

  unfoldable pub rpc_get_slot_info : ℕ → Bool → Module → Course (Module × ℕ × Option SlotInfo)
  rpc_get_slot_info id info m =
      return_val_if_fail m.initialized ckr_cryptoki_not_initialized none
        (return_val_if_fail info ckr_arguments_bad none (
          begin_call host call_get_slot_info none
            (do in_ulong id; process_call host; out_slot_info host info ckr_ok)))
        m

  unfoldable pub rpc_get_token_info : ℕ → Bool → Module → Course (Module × ℕ × Option TokenInfo)
  rpc_get_token_info id info m =
      return_val_if_fail m.initialized ckr_cryptoki_not_initialized none
        (return_val_if_fail info ckr_arguments_bad none (
          begin_call host call_get_token_info none
            (do in_ulong id; process_call host; out_token_info host info ckr_ok)))
        m

  unfoldable pub rpc_get_mechanism_list :
      ℕ → Option (List ℕ) → Option ℕ → Module → Course (Module × ℕ × Stored)
  rpc_get_mechanism_list id mechanism_list count m =
      return_val_if_fail m.initialized ckr_cryptoki_not_initialized (mechanism_list, count)
        (return_val_if_fail (is_given count) ckr_arguments_bad (mechanism_list, count)
          (begin_call host call_get_mechanism_list (mechanism_list, count)
            (do
              in_ulong id
              in_ulong_buffer mechanism_list count
              process_call host
              out_mechanism_type_array host mechanism_list count ckr_ok)))
        m

  unfoldable pub rpc_get_mechanism_info :
      ℕ → ℕ → Bool → Module → Course (Module × ℕ × Option MechanismInfo)
  rpc_get_mechanism_info id mechanism_type info m =
      return_val_if_fail m.initialized ckr_cryptoki_not_initialized none
        (return_val_if_fail info ckr_arguments_bad none (
          begin_call host call_get_mechanism_info none (do
            in_ulong id
            in_mechanism_type mechanism_type
            process_call host
            out_mechanism_info host info ckr_ok)))
        m

  unfoldable pub rpc_init_token :
      ℕ → Option (List ℕ) → ℕ → Option (List ℕ) → Module → Course (Module × ℕ × Unit {0})
  rpc_init_token id pin pin_len label m =
      return_val_if_fail m.initialized ckr_cryptoki_not_initialized tt
        (begin_call host call_init_token tt (do
          in_ulong id
          in_byte_array pin pin_len
          in_space_string label 32
          process_call host
          pure (ckr_ok, tt)))
        m

  -- Here only BEGIN_CALL looks at `pkcs11_initialized`.
  unfoldable pub rpc_wait_for_slot_event : ℕ → Bool → Module → Course (Module × ℕ × Option ℕ)
  rpc_wait_for_slot_event flags slot m =
      return_val_if_fail slot ckr_arguments_bad none
        (begin_call host call_wait_for_slot_event none
          (do in_ulong flags; process_call host; out_ulong host slot ckr_ok))
        m
