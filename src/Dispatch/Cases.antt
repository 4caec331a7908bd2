-- ===== src/Dispatch/Cases.antt =====
-- gck-rpc-dispatch.c: which handler `dispatch_call` runs for which call.
use pkcs11_proxy.Common.{ℕ, List, [], ◌∷◌}
use pkcs11_proxy.Calls
use pkcs11_proxy.Dispatch.{Handler}
use pkcs11_proxy.Dispatch.Proto.{Machine}
use pkcs11_proxy.Dispatch.Library.{FunctionList}
use pkcs11_proxy.Dispatch.Calls.Slots.{
  rpc_initialize, rpc_finalize, rpc_get_info, rpc_get_slot_list, rpc_get_slot_info,
  rpc_get_token_info, rpc_get_mechanism_list, rpc_get_mechanism_info, rpc_init_token,
  rpc_wait_for_slot_event,
}
use pkcs11_proxy.Dispatch.Calls.Sessions.{
  rpc_open_session, rpc_close_session, rpc_close_all_sessions, rpc_get_function_status,
  rpc_cancel_function, rpc_get_session_info, rpc_init_pin, rpc_set_pin, rpc_get_operation_state,
  rpc_set_operation_state, rpc_login, rpc_logout,
}
use pkcs11_proxy.Dispatch.Calls.Objects.{
  rpc_create_object, rpc_copy_object, rpc_destroy_object, rpc_get_object_size,
  rpc_get_attribute_value, rpc_set_attribute_value, rpc_find_objects_init, rpc_find_objects,
  rpc_find_objects_final,
}
use pkcs11_proxy.Dispatch.Calls.Ciphers.{
  rpc_encrypt_init, rpc_encrypt, rpc_encrypt_update, rpc_encrypt_final, rpc_decrypt_init,
  rpc_decrypt, rpc_decrypt_update, rpc_decrypt_final,
}
use pkcs11_proxy.Dispatch.Calls.Digests.{
  rpc_digest_init, rpc_digest, rpc_digest_update, rpc_digest_key, rpc_digest_final,
}
use pkcs11_proxy.Dispatch.Calls.Signatures.{
  rpc_sign_init, rpc_sign, rpc_sign_update, rpc_sign_final, rpc_sign_recover_init, rpc_sign_recover,
  rpc_verify_init, rpc_verify, rpc_verify_update, rpc_verify_final, rpc_verify_recover_init,
  rpc_verify_recover,
}
use pkcs11_proxy.Dispatch.Calls.Combined.{
  rpc_digest_encrypt_update, rpc_decrypt_digest_update, rpc_sign_encrypt_update,
  rpc_decrypt_verify_update,
}
use pkcs11_proxy.Dispatch.Calls.Keys.{
  rpc_generate_key, rpc_generate_key_pair, rpc_wrap_key, rpc_unwrap_key, rpc_derive_key,
  rpc_seed_random, rpc_generate_random,
}

module _ {S : Type 0} (machine : Machine) (lib : FunctionList S) where
  -- The CASE_CALL lines.
  unfoldable pub cases : List (ℕ × Handler S ℕ)
  cases =
      (Calls.call_initialize, rpc_initialize machine lib)
      ∷ (Calls.call_finalize, rpc_finalize machine lib)
      ∷ (Calls.call_get_info, rpc_get_info machine lib)
      ∷ (Calls.call_get_slot_list, rpc_get_slot_list machine lib)
      ∷ (Calls.call_get_slot_info, rpc_get_slot_info machine lib)
      ∷ (Calls.call_get_token_info, rpc_get_token_info machine lib)
      ∷ (Calls.call_get_mechanism_list, rpc_get_mechanism_list machine lib)
      ∷ (Calls.call_get_mechanism_info, rpc_get_mechanism_info machine lib)
      ∷ (Calls.call_init_token, rpc_init_token machine lib)
      ∷ (Calls.call_wait_for_slot_event, rpc_wait_for_slot_event machine lib)
      ∷ (Calls.call_open_session, rpc_open_session machine lib)
      ∷ (Calls.call_close_session, rpc_close_session machine lib)
      ∷ (Calls.call_close_all_sessions, rpc_close_all_sessions machine lib)
      ∷ (Calls.call_get_function_status, rpc_get_function_status machine lib)
      ∷ (Calls.call_cancel_function, rpc_cancel_function machine lib)
      ∷ (Calls.call_get_session_info, rpc_get_session_info machine lib)
      ∷ (Calls.call_init_pin, rpc_init_pin machine lib)
      ∷ (Calls.call_set_pin, rpc_set_pin machine lib)
      ∷ (Calls.call_get_operation_state, rpc_get_operation_state machine lib)
      ∷ (Calls.call_set_operation_state, rpc_set_operation_state machine lib)
      ∷ (Calls.call_login, rpc_login machine lib)
      ∷ (Calls.call_logout, rpc_logout machine lib)
      ∷ (Calls.call_create_object, rpc_create_object machine lib)
      ∷ (Calls.call_copy_object, rpc_copy_object machine lib)
      ∷ (Calls.call_destroy_object, rpc_destroy_object machine lib)
      ∷ (Calls.call_get_object_size, rpc_get_object_size machine lib)
      ∷ (Calls.call_get_attribute_value, rpc_get_attribute_value machine lib)
      ∷ (Calls.call_set_attribute_value, rpc_set_attribute_value machine lib)
      ∷ (Calls.call_find_objects_init, rpc_find_objects_init machine lib)
      ∷ (Calls.call_find_objects, rpc_find_objects machine lib)
      ∷ (Calls.call_find_objects_final, rpc_find_objects_final machine lib)
      ∷ (Calls.call_encrypt_init, rpc_encrypt_init machine lib)
      ∷ (Calls.call_encrypt, rpc_encrypt machine lib)
      ∷ (Calls.call_encrypt_update, rpc_encrypt_update machine lib)
      ∷ (Calls.call_encrypt_final, rpc_encrypt_final machine lib)
      ∷ (Calls.call_decrypt_init, rpc_decrypt_init machine lib)
      ∷ (Calls.call_decrypt, rpc_decrypt machine lib)
      ∷ (Calls.call_decrypt_update, rpc_decrypt_update machine lib)
      ∷ (Calls.call_decrypt_final, rpc_decrypt_final machine lib)
      ∷ (Calls.call_digest_init, rpc_digest_init machine lib)
      ∷ (Calls.call_digest, rpc_digest machine lib)
      ∷ (Calls.call_digest_update, rpc_digest_update machine lib)
      ∷ (Calls.call_digest_key, rpc_digest_key machine lib)
      ∷ (Calls.call_digest_final, rpc_digest_final machine lib)
      ∷ (Calls.call_sign_init, rpc_sign_init machine lib)
      ∷ (Calls.call_sign, rpc_sign machine lib)
      ∷ (Calls.call_sign_update, rpc_sign_update machine lib)
      ∷ (Calls.call_sign_final, rpc_sign_final machine lib)
      ∷ (Calls.call_sign_recover_init, rpc_sign_recover_init machine lib)
      ∷ (Calls.call_sign_recover, rpc_sign_recover machine lib)
      ∷ (Calls.call_verify_init, rpc_verify_init machine lib)
      ∷ (Calls.call_verify, rpc_verify machine lib)
      ∷ (Calls.call_verify_update, rpc_verify_update machine lib)
      ∷ (Calls.call_verify_final, rpc_verify_final machine lib)
      ∷ (Calls.call_verify_recover_init, rpc_verify_recover_init machine lib)
      ∷ (Calls.call_verify_recover, rpc_verify_recover machine lib)
      ∷ (Calls.call_digest_encrypt_update, rpc_digest_encrypt_update machine lib)
      ∷ (Calls.call_decrypt_digest_update, rpc_decrypt_digest_update machine lib)
      ∷ (Calls.call_sign_encrypt_update, rpc_sign_encrypt_update machine lib)
      ∷ (Calls.call_decrypt_verify_update, rpc_decrypt_verify_update machine lib)
      ∷ (Calls.call_generate_key, rpc_generate_key machine lib)
      ∷ (Calls.call_generate_key_pair, rpc_generate_key_pair machine lib)
      ∷ (Calls.call_wrap_key, rpc_wrap_key machine lib)
      ∷ (Calls.call_unwrap_key, rpc_unwrap_key machine lib)
      ∷ (Calls.call_derive_key, rpc_derive_key machine lib)
      ∷ (Calls.call_seed_random, rpc_seed_random machine lib)
      ∷ (Calls.call_generate_random, rpc_generate_random machine lib)
      ∷ []
