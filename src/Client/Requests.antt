-- ===== src/Client/Requests.antt =====
-- gck-rpc-module.c, `functionList`: what an application may call between C_Initialize and C_Finalize.
use pkcs11_proxy.Common.{ℕ, Bool, true, false, Option, none, List, [], ◌∷◌}
use pkcs11_proxy.Pkcs11.{Attribute, Mechanism}
use pkcs11_proxy.Calls.{
  call_get_info, call_get_slot_list, call_get_slot_info, call_get_token_info,
  call_get_mechanism_list, call_get_mechanism_info, call_init_token, call_wait_for_slot_event,
  call_open_session, call_close_session, call_close_all_sessions, call_get_function_status,
  call_cancel_function, call_get_session_info, call_init_pin, call_set_pin,
  call_get_operation_state, call_set_operation_state, call_login, call_logout, call_create_object,
  call_copy_object, call_destroy_object, call_get_object_size, call_get_attribute_value,
  call_set_attribute_value, call_find_objects_init, call_find_objects, call_find_objects_final,
  call_encrypt_init, call_encrypt, call_encrypt_update, call_encrypt_final, call_decrypt_init,
  call_decrypt, call_decrypt_update, call_decrypt_final, call_digest_init, call_digest,
  call_digest_update, call_digest_key, call_digest_final, call_sign_init, call_sign,
  call_sign_update, call_sign_final, call_sign_recover_init, call_sign_recover, call_verify_init,
  call_verify, call_verify_update, call_verify_final, call_verify_recover_init, call_verify_recover,
  call_digest_encrypt_update, call_decrypt_digest_update, call_sign_encrypt_update,
  call_decrypt_verify_update, call_generate_key, call_generate_key_pair, call_wrap_key,
  call_unwrap_key, call_derive_key, call_seed_random, call_generate_random,
}
use pkcs11_proxy.Client.{Module, Host}
use pkcs11_proxy.Client.Course.{Course, finished, ◌>>=◌}
use pkcs11_proxy.Client.Calls.Slots.{
  rpc_get_info, rpc_get_slot_list, rpc_get_slot_info, rpc_get_token_info, rpc_get_mechanism_list,
  rpc_get_mechanism_info, rpc_init_token, rpc_wait_for_slot_event,
}
use pkcs11_proxy.Client.Calls.Sessions.{
  rpc_open_session, rpc_close_session, rpc_close_all_sessions, rpc_get_function_status,
  rpc_cancel_function, rpc_get_session_info, rpc_init_pin, rpc_set_pin, rpc_get_operation_state,
  rpc_set_operation_state, rpc_login, rpc_logout,
}
use pkcs11_proxy.Client.Calls.Objects.{
  rpc_create_object, rpc_copy_object, rpc_destroy_object, rpc_get_object_size,
  rpc_get_attribute_value, rpc_set_attribute_value, rpc_find_objects_init, rpc_find_objects,
  rpc_find_objects_final,
}
use pkcs11_proxy.Client.Calls.Ciphers.{
  rpc_encrypt_init, rpc_encrypt, rpc_encrypt_update, rpc_encrypt_final, rpc_decrypt_init,
  rpc_decrypt, rpc_decrypt_update, rpc_decrypt_final,
}
use pkcs11_proxy.Client.Calls.Digests.{
  rpc_digest_init, rpc_digest, rpc_digest_update, rpc_digest_key, rpc_digest_final,
}
use pkcs11_proxy.Client.Calls.Signatures.{
  rpc_sign_init, rpc_sign, rpc_sign_update, rpc_sign_final, rpc_sign_recover_init, rpc_sign_recover,
  rpc_verify_init, rpc_verify, rpc_verify_update, rpc_verify_final, rpc_verify_recover_init,
  rpc_verify_recover,
}
use pkcs11_proxy.Client.Calls.Combined.{
  rpc_digest_encrypt_update, rpc_decrypt_digest_update, rpc_sign_encrypt_update,
  rpc_decrypt_verify_update,
}
use pkcs11_proxy.Client.Calls.Keys.{
  rpc_generate_key, rpc_generate_key_pair, rpc_wrap_key, rpc_unwrap_key, rpc_derive_key,
  rpc_seed_random, rpc_generate_random,
}

-- A call with its arguments: a pointer is an `Option` with what it points to, and a pointer to a single
-- result only says whether it is given.
pub data Request : Type 0 where
  c_get_info : Bool → Request
  c_get_slot_list : ℕ → Option (List ℕ) → Option ℕ → Request
  c_get_slot_info : ℕ → Bool → Request
  c_get_token_info : ℕ → Bool → Request
  c_get_mechanism_list : ℕ → Option (List ℕ) → Option ℕ → Request
  c_get_mechanism_info : ℕ → ℕ → Bool → Request
  c_init_token : ℕ → Option (List ℕ) → ℕ → Option (List ℕ) → Request
  c_wait_for_slot_event : ℕ → Bool → Request
  c_open_session : ℕ → ℕ → Bool → Request
  c_close_session : ℕ → Request
  c_close_all_sessions : ℕ → Request
  c_get_function_status : ℕ → Request
  c_cancel_function : ℕ → Request
  c_get_session_info : ℕ → Bool → Request
  c_init_pin : ℕ → Option (List ℕ) → ℕ → Request
  c_set_pin : ℕ → Option (List ℕ) → ℕ → Option (List ℕ) → ℕ → Request
  c_get_operation_state : ℕ → Option (List ℕ) → Option ℕ → Request
  c_set_operation_state : ℕ → Option (List ℕ) → ℕ → ℕ → ℕ → Request
  c_login : ℕ → ℕ → Option (List ℕ) → ℕ → Request
  c_logout : ℕ → Request
  c_create_object : ℕ → Option (List Attribute) → ℕ → Bool → Request
  c_copy_object : ℕ → ℕ → Option (List Attribute) → ℕ → Bool → Request
  c_destroy_object : ℕ → ℕ → Request
  c_get_object_size : ℕ → ℕ → Bool → Request
  c_get_attribute_value : ℕ → ℕ → Option (List Attribute) → ℕ → Request
  c_set_attribute_value : ℕ → ℕ → Option (List Attribute) → ℕ → Request
  c_find_objects_init : ℕ → Option (List Attribute) → ℕ → Request
  c_find_objects : ℕ → Option (List ℕ) → ℕ → Option ℕ → Request
  c_find_objects_final : ℕ → Request
  c_encrypt_init : ℕ → Option Mechanism → ℕ → Request
  c_encrypt : ℕ → Option (List ℕ) → ℕ → Option (List ℕ) → Option ℕ → Request
  c_encrypt_update : ℕ → Option (List ℕ) → ℕ → Option (List ℕ) → Option ℕ → Request
  c_encrypt_final : ℕ → Option (List ℕ) → Option ℕ → Request
  c_decrypt_init : ℕ → Option Mechanism → ℕ → Request
  c_decrypt : ℕ → Option (List ℕ) → ℕ → Option (List ℕ) → Option ℕ → Request
  c_decrypt_update : ℕ → Option (List ℕ) → ℕ → Option (List ℕ) → Option ℕ → Request
  c_decrypt_final : ℕ → Option (List ℕ) → Option ℕ → Request
  c_digest_init : ℕ → Option Mechanism → Request
  c_digest : ℕ → Option (List ℕ) → ℕ → Option (List ℕ) → Option ℕ → Request
  c_digest_update : ℕ → Option (List ℕ) → ℕ → Request
  c_digest_key : ℕ → ℕ → Request
  c_digest_final : ℕ → Option (List ℕ) → Option ℕ → Request
  c_sign_init : ℕ → Option Mechanism → ℕ → Request
  c_sign : ℕ → Option (List ℕ) → ℕ → Option (List ℕ) → Option ℕ → Request
  c_sign_update : ℕ → Option (List ℕ) → ℕ → Request
  c_sign_final : ℕ → Option (List ℕ) → Option ℕ → Request
  c_sign_recover_init : ℕ → Option Mechanism → ℕ → Request
  c_sign_recover : ℕ → Option (List ℕ) → ℕ → Option (List ℕ) → Option ℕ → Request
  c_verify_init : ℕ → Option Mechanism → ℕ → Request
  c_verify : ℕ → Option (List ℕ) → ℕ → Option (List ℕ) → ℕ → Request
  c_verify_update : ℕ → Option (List ℕ) → ℕ → Request
  c_verify_final : ℕ → Option (List ℕ) → ℕ → Request
  c_verify_recover_init : ℕ → Option Mechanism → ℕ → Request
  c_verify_recover : ℕ → Option (List ℕ) → ℕ → Option (List ℕ) → Option ℕ → Request
  c_digest_encrypt_update : ℕ → Option (List ℕ) → ℕ → Option (List ℕ) → Option ℕ → Request
  c_decrypt_digest_update : ℕ → Option (List ℕ) → ℕ → Option (List ℕ) → Option ℕ → Request
  c_sign_encrypt_update : ℕ → Option (List ℕ) → ℕ → Option (List ℕ) → Option ℕ → Request
  c_decrypt_verify_update : ℕ → Option (List ℕ) → ℕ → Option (List ℕ) → Option ℕ → Request
  c_generate_key : ℕ → Option Mechanism → Option (List Attribute) → ℕ → Bool → Request
  c_generate_key_pair :
      ℕ
      → Option Mechanism
      → Option (List Attribute)
      → ℕ
      → Option (List Attribute)
      → ℕ
      → Bool
      → Bool
      → Request
  c_wrap_key : ℕ → Option Mechanism → ℕ → ℕ → Option (List ℕ) → Option ℕ → Request
  c_unwrap_key :
      ℕ → Option Mechanism → ℕ → Option (List ℕ) → ℕ → Option (List Attribute) → ℕ → Bool → Request
  c_derive_key : ℕ → Option Mechanism → ℕ → Option (List Attribute) → ℕ → Bool → Request
  c_seed_random : ℕ → Option (List ℕ) → ℕ → Request
  c_generate_random : ℕ → Option (List ℕ) → ℕ → Request

-- The code, without the results.
abbrev pub forget : {A : Type 0} → Course (Module × ℕ × A) → Course (Module × ℕ)
forget call = call >>= λ (m, ret, out). finished (m, ret)

unfoldable pub perform : Host → Request → Module → Course (Module × ℕ)
perform host (c_get_info info) m = forget (rpc_get_info host info m)
perform host (c_get_slot_list token_present slot_list count) m =
    forget (rpc_get_slot_list host token_present slot_list count m)
perform host (c_get_slot_info id info) m = forget (rpc_get_slot_info host id info m)
perform host (c_get_token_info id info) m = forget (rpc_get_token_info host id info m)
perform host (c_get_mechanism_list id mechanism_list count) m =
    forget (rpc_get_mechanism_list host id mechanism_list count m)
perform host (c_get_mechanism_info id mechanism_type info) m =
    forget (rpc_get_mechanism_info host id mechanism_type info m)
perform host (c_init_token id pin pin_len label) m =
    forget (rpc_init_token host id pin pin_len label m)
perform host (c_wait_for_slot_event flags slot) m =
    forget (rpc_wait_for_slot_event host flags slot m)
perform host (c_open_session id flags session) m = forget (rpc_open_session host id flags session m)
perform host (c_close_session session) m = forget (rpc_close_session host session m)
perform host (c_close_all_sessions id) m = forget (rpc_close_all_sessions host id m)
perform host (c_get_function_status session) m = forget (rpc_get_function_status host session m)
perform host (c_cancel_function session) m = forget (rpc_cancel_function host session m)
perform host (c_get_session_info session info) m = forget (rpc_get_session_info host session info m)
perform host (c_init_pin session pin pin_len) m = forget (rpc_init_pin host session pin pin_len m)
perform host (c_set_pin session old_pin old_pin_len new_pin new_pin_len) m =
    forget (rpc_set_pin host session old_pin old_pin_len new_pin new_pin_len m)
perform host (c_get_operation_state session operation_state operation_state_len) m =
    forget (rpc_get_operation_state host session operation_state operation_state_len m)
perform host
      (c_set_operation_state session operation_state operation_state_len encryption_key
        authentication_key)
      m =
    forget (
      rpc_set_operation_state host session operation_state operation_state_len encryption_key
        authentication_key m)
perform host (c_login session user_type pin pin_len) m =
    forget (rpc_login host session user_type pin pin_len m)
perform host (c_logout session) m = forget (rpc_logout host session m)
perform host (c_create_object session template count new_object) m =
    forget (rpc_create_object host session template count new_object m)
perform host (c_copy_object session object template count new_object) m =
    forget (rpc_copy_object host session object template count new_object m)
perform host (c_destroy_object session object) m = forget (rpc_destroy_object host session object m)
perform host (c_get_object_size session object size) m =
    forget (rpc_get_object_size host session object size m)
perform host (c_get_attribute_value session object template count) m =
    forget (rpc_get_attribute_value host session object template count m)
perform host (c_set_attribute_value session object template count) m =
    forget (rpc_set_attribute_value host session object template count m)
perform host (c_find_objects_init session template count) m =
    forget (rpc_find_objects_init host session template count m)
perform host (c_find_objects session objects max_count count) m =
    forget (rpc_find_objects host session objects max_count count m)
perform host (c_find_objects_final session) m = forget (rpc_find_objects_final host session m)
perform host (c_encrypt_init session mechanism key) m =
    forget (rpc_encrypt_init host session mechanism key m)
perform host (c_encrypt session input input_len encrypted_data encrypted_data_len) m =
    forget (rpc_encrypt host session input input_len encrypted_data encrypted_data_len m)
perform host (c_encrypt_update session part part_len encrypted_part encrypted_part_len) m =
    forget (rpc_encrypt_update host session part part_len encrypted_part encrypted_part_len m)
perform host (c_encrypt_final session last_part last_part_len) m =
    forget (rpc_encrypt_final host session last_part last_part_len m)
perform host (c_decrypt_init session mechanism key) m =
    forget (rpc_decrypt_init host session mechanism key m)
perform host (c_decrypt session enc_data enc_data_len input input_len) m =
    forget (rpc_decrypt host session enc_data enc_data_len input input_len m)
perform host (c_decrypt_update session enc_part enc_part_len part part_len) m =
    forget (rpc_decrypt_update host session enc_part enc_part_len part part_len m)
perform host (c_decrypt_final session last_part last_part_len) m =
    forget (rpc_decrypt_final host session last_part last_part_len m)
perform host (c_digest_init session mechanism) m = forget (rpc_digest_init host session mechanism m)
perform host (c_digest session input input_len digest digest_len) m =
    forget (rpc_digest host session input input_len digest digest_len m)
perform host (c_digest_update session part part_len) m =
    forget (rpc_digest_update host session part part_len m)
perform host (c_digest_key session key) m = forget (rpc_digest_key host session key m)
perform host (c_digest_final session digest digest_len) m =
    forget (rpc_digest_final host session digest digest_len m)
perform host (c_sign_init session mechanism key) m =
    forget (rpc_sign_init host session mechanism key m)
perform host (c_sign session input input_len sig sig_len) m =
    forget (rpc_sign host session input input_len sig sig_len m)
perform host (c_sign_update session part part_len) m =
    forget (rpc_sign_update host session part part_len m)
perform host (c_sign_final session sig sig_len) m =
    forget (rpc_sign_final host session sig sig_len m)
perform host (c_sign_recover_init session mechanism key) m =
    forget (rpc_sign_recover_init host session mechanism key m)
perform host (c_sign_recover session input input_len sig sig_len) m =
    forget (rpc_sign_recover host session input input_len sig sig_len m)
perform host (c_verify_init session mechanism key) m =
    forget (rpc_verify_init host session mechanism key m)
perform host (c_verify session input input_len sig sig_len) m =
    forget (rpc_verify host session input input_len sig sig_len m)
perform host (c_verify_update session part part_len) m =
    forget (rpc_verify_update host session part part_len m)
perform host (c_verify_final session sig sig_len) m =
    forget (rpc_verify_final host session sig sig_len m)
perform host (c_verify_recover_init session mechanism key) m =
    forget (rpc_verify_recover_init host session mechanism key m)
perform host (c_verify_recover session sig sig_len input input_len) m =
    forget (rpc_verify_recover host session sig sig_len input input_len m)
perform host (c_digest_encrypt_update session part part_len enc_part enc_part_len) m =
    forget (rpc_digest_encrypt_update host session part part_len enc_part enc_part_len m)
perform host (c_decrypt_digest_update session enc_part enc_part_len part part_len) m =
    forget (rpc_decrypt_digest_update host session enc_part enc_part_len part part_len m)
perform host (c_sign_encrypt_update session part part_len enc_part enc_part_len) m =
    forget (rpc_sign_encrypt_update host session part part_len enc_part enc_part_len m)
perform host (c_decrypt_verify_update session enc_part enc_part_len part part_len) m =
    forget (rpc_decrypt_verify_update host session enc_part enc_part_len part part_len m)
perform host (c_generate_key session mechanism template count key) m =
    forget (rpc_generate_key host session mechanism template count key m)
perform host
      (c_generate_key_pair session mechanism pub_template pub_count priv_template priv_count pub_key
        priv_key)
      m =
    forget (
      rpc_generate_key_pair host session mechanism pub_template pub_count priv_template priv_count
        pub_key priv_key m)
perform host (c_wrap_key session mechanism wrapping_key key wrapped_key wrapped_key_len) m =
    forget (rpc_wrap_key host session mechanism wrapping_key key wrapped_key wrapped_key_len m)
perform host
      (c_unwrap_key session mechanism unwrapping_key wrapped_key wrapped_key_len template count key)
      m =
    forget (
      rpc_unwrap_key host session mechanism unwrapping_key wrapped_key wrapped_key_len template
        count key m)
perform host (c_derive_key session mechanism base_key template count key) m =
    forget (rpc_derive_key host session mechanism base_key template count key m)
perform host (c_seed_random session seed seed_len) m =
    forget (rpc_seed_random host session seed seed_len m)
perform host (c_generate_random session random_data random_len) m =
    forget (rpc_generate_random host session random_data random_len m)

-- The number of the call.
unfoldable pub id_of : Request → ℕ
id_of (c_get_info info) = call_get_info
id_of (c_get_slot_list token_present slot_list count) = call_get_slot_list
id_of (c_get_slot_info id info) = call_get_slot_info
id_of (c_get_token_info id info) = call_get_token_info
id_of (c_get_mechanism_list id mechanism_list count) = call_get_mechanism_list
id_of (c_get_mechanism_info id mechanism_type info) = call_get_mechanism_info
id_of (c_init_token id pin pin_len label) = call_init_token
id_of (c_wait_for_slot_event flags slot) = call_wait_for_slot_event
id_of (c_open_session id flags session) = call_open_session
id_of (c_close_session session) = call_close_session
id_of (c_close_all_sessions id) = call_close_all_sessions
id_of (c_get_function_status session) = call_get_function_status
id_of (c_cancel_function session) = call_cancel_function
id_of (c_get_session_info session info) = call_get_session_info
id_of (c_init_pin session pin pin_len) = call_init_pin
id_of (c_set_pin session old_pin old_pin_len new_pin new_pin_len) = call_set_pin
id_of (c_get_operation_state session operation_state operation_state_len) = call_get_operation_state
id_of
      (c_set_operation_state session operation_state operation_state_len encryption_key
        authentication_key) =
    call_set_operation_state
id_of (c_login session user_type pin pin_len) = call_login
id_of (c_logout session) = call_logout
id_of (c_create_object session template count new_object) = call_create_object
id_of (c_copy_object session object template count new_object) = call_copy_object
id_of (c_destroy_object session object) = call_destroy_object
id_of (c_get_object_size session object size) = call_get_object_size
id_of (c_get_attribute_value session object template count) = call_get_attribute_value
id_of (c_set_attribute_value session object template count) = call_set_attribute_value
id_of (c_find_objects_init session template count) = call_find_objects_init
id_of (c_find_objects session objects max_count count) = call_find_objects
id_of (c_find_objects_final session) = call_find_objects_final
id_of (c_encrypt_init session mechanism key) = call_encrypt_init
id_of (c_encrypt session input input_len encrypted_data encrypted_data_len) = call_encrypt
id_of (c_encrypt_update session part part_len encrypted_part encrypted_part_len) =
    call_encrypt_update
id_of (c_encrypt_final session last_part last_part_len) = call_encrypt_final
id_of (c_decrypt_init session mechanism key) = call_decrypt_init
id_of (c_decrypt session enc_data enc_data_len input input_len) = call_decrypt
id_of (c_decrypt_update session enc_part enc_part_len part part_len) = call_decrypt_update
id_of (c_decrypt_final session last_part last_part_len) = call_decrypt_final
id_of (c_digest_init session mechanism) = call_digest_init
id_of (c_digest session input input_len digest digest_len) = call_digest
id_of (c_digest_update session part part_len) = call_digest_update
id_of (c_digest_key session key) = call_digest_key
id_of (c_digest_final session digest digest_len) = call_digest_final
id_of (c_sign_init session mechanism key) = call_sign_init
id_of (c_sign session input input_len sig sig_len) = call_sign
id_of (c_sign_update session part part_len) = call_sign_update
id_of (c_sign_final session sig sig_len) = call_sign_final
id_of (c_sign_recover_init session mechanism key) = call_sign_recover_init
id_of (c_sign_recover session input input_len sig sig_len) = call_sign_recover
id_of (c_verify_init session mechanism key) = call_verify_init
id_of (c_verify session input input_len sig sig_len) = call_verify
id_of (c_verify_update session part part_len) = call_verify_update
id_of (c_verify_final session sig sig_len) = call_verify_final
id_of (c_verify_recover_init session mechanism key) = call_verify_recover_init
id_of (c_verify_recover session sig sig_len input input_len) = call_verify_recover
id_of (c_digest_encrypt_update session part part_len enc_part enc_part_len) =
    call_digest_encrypt_update
id_of (c_decrypt_digest_update session enc_part enc_part_len part part_len) =
    call_decrypt_digest_update
id_of (c_sign_encrypt_update session part part_len enc_part enc_part_len) = call_sign_encrypt_update
id_of (c_decrypt_verify_update session enc_part enc_part_len part part_len) =
    call_decrypt_verify_update
id_of (c_generate_key session mechanism template count key) = call_generate_key
id_of
      (c_generate_key_pair session mechanism pub_template pub_count priv_template priv_count pub_key
        priv_key) =
    call_generate_key_pair
id_of (c_wrap_key session mechanism wrapping_key key wrapped_key wrapped_key_len) = call_wrap_key
id_of
      (c_unwrap_key session mechanism unwrapping_key wrapped_key wrapped_key_len template count
        key) =
    call_unwrap_key
id_of (c_derive_key session mechanism base_key template count key) = call_derive_key
id_of (c_seed_random session seed seed_len) = call_seed_random
id_of (c_generate_random session random_data random_len) = call_generate_random

-- The calls of an application, one behind the other, each with what the machine has for it.
unfoldable pub perform_all : List (Host × Request) → Module → Course Module
perform_all [] m = finished m
perform_all ((host, request) ∷ more) m = perform host request m >>= λ (m', _). perform_all more m'

-- C_InitToken takes the label as it is.
abbrev pub gives_label : Request → Bool
gives_label (c_init_token id pin pin_len none) = false
gives_label _ = true
