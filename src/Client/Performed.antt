-- ===== src/Client/Performed.antt =====
-- What every call of an application makes of the module.
use pkcs11_proxy.Common.{ℕ, ◌≡◌, ap, subst, true, none, some, List, [], ◌∷◌, All}
use pkcs11_proxy.Client.{CallState, Module, Host}
use pkcs11_proxy.Client.Invariant.{IsPool, SameGlobals, same_globals}
use pkcs11_proxy.Client.Course.{Course, finished, halted, stopped, ◌>>=◌}
use pkcs11_proxy.Client.Runs.{HaltsAt}
use pkcs11_proxy.Client.Returns.{Returns, returned, stuck, SameGlobals-trans}
use pkcs11_proxy.Client.Requests.{
  Request, forget, perform, id_of, perform_all, gives_label, c_get_info, c_get_slot_list,
  c_get_slot_info, c_get_token_info, c_get_mechanism_list, c_get_mechanism_info, c_init_token,
  c_wait_for_slot_event, c_open_session, c_close_session, c_close_all_sessions,
  c_get_function_status, c_cancel_function, c_get_session_info, c_init_pin, c_set_pin,
  c_get_operation_state, c_set_operation_state, c_login, c_logout, c_create_object, c_copy_object,
  c_destroy_object, c_get_object_size, c_get_attribute_value, c_set_attribute_value,
  c_find_objects_init, c_find_objects, c_find_objects_final, c_encrypt_init, c_encrypt,
  c_encrypt_update, c_encrypt_final, c_decrypt_init, c_decrypt, c_decrypt_update, c_decrypt_final,
  c_digest_init, c_digest, c_digest_update, c_digest_key, c_digest_final, c_sign_init, c_sign,
  c_sign_update, c_sign_final, c_sign_recover_init, c_sign_recover, c_verify_init, c_verify,
  c_verify_update, c_verify_final, c_verify_recover_init, c_verify_recover, c_digest_encrypt_update,
  c_decrypt_digest_update, c_sign_encrypt_update, c_decrypt_verify_update, c_generate_key,
  c_generate_key_pair, c_wrap_key, c_unwrap_key, c_derive_key, c_seed_random, c_generate_random,
}
use pkcs11_proxy.Client.Safe.Slots.{
  get_info-Returns, get_slot_list-Returns, get_slot_info-Returns, get_token_info-Returns,
  get_mechanism_list-Returns, get_mechanism_info-Returns, init_token-Returns,
  wait_for_slot_event-Returns,
}
use pkcs11_proxy.Client.Safe.Sessions.{
  open_session-Returns, close_session-Returns, close_all_sessions-Returns,
  get_function_status-Returns, cancel_function-Returns, get_session_info-Returns, init_pin-Returns,
  set_pin-Returns, get_operation_state-Returns, set_operation_state-Returns, login-Returns,
  logout-Returns,
}
use pkcs11_proxy.Client.Safe.Objects.{
  create_object-Returns, copy_object-Returns, destroy_object-Returns, get_object_size-Returns,
  get_attribute_value-Returns, set_attribute_value-Returns, find_objects_init-Returns,
  find_objects-Returns, find_objects_final-Returns,
}
use pkcs11_proxy.Client.Safe.Ciphers.{
  encrypt_init-Returns, encrypt-Returns, encrypt_update-Returns, encrypt_final-Returns,
  decrypt_init-Returns, decrypt-Returns, decrypt_update-Returns, decrypt_final-Returns,
}
use pkcs11_proxy.Client.Safe.Digests.{
  digest_init-Returns, digest-Returns, digest_update-Returns, digest_key-Returns,
  digest_final-Returns,
}
use pkcs11_proxy.Client.Safe.Signatures.{
  sign_init-Returns, sign-Returns, sign_update-Returns, sign_final-Returns,
  sign_recover_init-Returns, sign_recover-Returns, verify_init-Returns, verify-Returns,
  verify_update-Returns, verify_final-Returns, verify_recover_init-Returns, verify_recover-Returns,
}
use pkcs11_proxy.Client.Safe.Combined.{
  digest_encrypt_update-Returns, decrypt_digest_update-Returns, sign_encrypt_update-Returns,
  decrypt_verify_update-Returns,
}
use pkcs11_proxy.Client.Safe.Keys.{
  generate_key-Returns, generate_key_pair-Returns, wrap_key-Returns, unwrap_key-Returns,
  derive_key-Returns, seed_random-Returns, generate_random-Returns,
}

-- The call returns, with the pool in order and the other variables of the module as they were; or the
-- process stops in `call_run` behind a complete request.
pub data Performs (host : Host) (c : ℕ) (m : Module) (out : Course (Module × ℕ)) : Type 0 where
  returns :
      {r : Module × ℕ} → IsPool r.0 → SameGlobals m r.0 → out ≡ finished r → Performs host c m out
  halts : {at : CallState} → HaltsAt host c at → out ≡ halted at → Performs host c m out

forgotten :
    {host : Host} {c : ℕ} {m : Module} {A : Type 0} {out : Course (Module × ℕ × A)}
    → Returns host c m out
    → Performs host c m (forget out)
forgotten (returned {r = (m', ret, a)} pool same e) = returns pool same (ap forget e)
forgotten (stuck s e) = halts s (ap forget e)

-- With a pool in order and a label wherever one is needed, every call returns, whatever its other arguments
-- are and whatever the daemon sends, and leaves the pool in order and the other variables of the module as
-- they were; or the process stops inside of `call_run`, and in the state that `call_run` was called with the
-- request of this call has all letters of its signature.
pub perform-Performs :
    (host : Host) (request : Request) (m : Module)
    → IsPool m
    → gives_label request ≡ true
    → Performs host (id_of request) m (perform host request m)
unfolding perform id_of
perform-Performs host (c_get_info info) m valid fine = forgotten (get_info-Returns valid info)
perform-Performs host (c_get_slot_list token_present slot_list count) m valid fine =
    forgotten (get_slot_list-Returns valid token_present slot_list count)
perform-Performs host (c_get_slot_info id info) m valid fine =
    forgotten (get_slot_info-Returns valid id info)
perform-Performs host (c_get_token_info id info) m valid fine =
    forgotten (get_token_info-Returns valid id info)
perform-Performs host (c_get_mechanism_list id mechanism_list count) m valid fine =
    forgotten (get_mechanism_list-Returns valid id mechanism_list count)
perform-Performs host (c_get_mechanism_info id mechanism_type info) m valid fine =
    forgotten (get_mechanism_info-Returns valid id mechanism_type info)
perform-Performs host (c_init_token id pin pin_len none) m valid fine = absurd cc
perform-Performs host (c_init_token id pin pin_len (some label)) m valid fine =
    forgotten (init_token-Returns valid id pin pin_len label)
perform-Performs host (c_wait_for_slot_event flags slot) m valid fine =
    forgotten (wait_for_slot_event-Returns valid flags slot)
perform-Performs host (c_open_session id flags session) m valid fine =
    forgotten (open_session-Returns valid id flags session)
perform-Performs host (c_close_session session) m valid fine =
    forgotten (close_session-Returns valid session)
perform-Performs host (c_close_all_sessions id) m valid fine =
    forgotten (close_all_sessions-Returns valid id)
perform-Performs host (c_get_function_status session) m valid fine =
    forgotten (get_function_status-Returns valid session)
perform-Performs host (c_cancel_function session) m valid fine =
    forgotten (cancel_function-Returns valid session)
perform-Performs host (c_get_session_info session info) m valid fine =
    forgotten (get_session_info-Returns valid session info)
perform-Performs host (c_init_pin session pin pin_len) m valid fine =
    forgotten (init_pin-Returns valid session pin pin_len)
perform-Performs host (c_set_pin session old_pin old_pin_len new_pin new_pin_len) m valid fine =
    forgotten (set_pin-Returns valid session old_pin old_pin_len new_pin new_pin_len)
perform-Performs host (c_get_operation_state session operation_state operation_state_len) m valid
      fine =
    forgotten (get_operation_state-Returns valid session operation_state operation_state_len)
perform-Performs host
      (c_set_operation_state session operation_state operation_state_len encryption_key
        authentication_key)
      m valid fine =
    forgotten (
      set_operation_state-Returns valid session operation_state operation_state_len encryption_key
        authentication_key)
perform-Performs host (c_login session user_type pin pin_len) m valid fine =
    forgotten (login-Returns valid session user_type pin pin_len)
perform-Performs host (c_logout session) m valid fine = forgotten (logout-Returns valid session)
perform-Performs host (c_create_object session template count new_object) m valid fine =
    forgotten (create_object-Returns valid session template count new_object)
perform-Performs host (c_copy_object session object template count new_object) m valid fine =
    forgotten (copy_object-Returns valid session object template count new_object)
perform-Performs host (c_destroy_object session object) m valid fine =
    forgotten (destroy_object-Returns valid session object)
perform-Performs host (c_get_object_size session object size) m valid fine =
    forgotten (get_object_size-Returns valid session object size)
perform-Performs host (c_get_attribute_value session object template count) m valid fine =
    forgotten (get_attribute_value-Returns valid session object template count)
perform-Performs host (c_set_attribute_value session object template count) m valid fine =
    forgotten (set_attribute_value-Returns valid session object template count)
perform-Performs host (c_find_objects_init session template count) m valid fine =
    forgotten (find_objects_init-Returns valid session template count)
perform-Performs host (c_find_objects session objects max_count count) m valid fine =
    forgotten (find_objects-Returns valid session objects max_count count)
perform-Performs host (c_find_objects_final session) m valid fine =
    forgotten (find_objects_final-Returns valid session)
perform-Performs host (c_encrypt_init session mechanism key) m valid fine =
    forgotten (encrypt_init-Returns valid session mechanism key)
perform-Performs host (c_encrypt session input input_len encrypted_data encrypted_data_len) m valid
      fine =
    forgotten (encrypt-Returns valid session input input_len encrypted_data encrypted_data_len)
perform-Performs host (c_encrypt_update session part part_len encrypted_part encrypted_part_len) m
      valid fine =
    forgotten (encrypt_update-Returns valid session part part_len encrypted_part encrypted_part_len)
perform-Performs host (c_encrypt_final session last_part last_part_len) m valid fine =
    forgotten (encrypt_final-Returns valid session last_part last_part_len)
perform-Performs host (c_decrypt_init session mechanism key) m valid fine =
    forgotten (decrypt_init-Returns valid session mechanism key)
perform-Performs host (c_decrypt session enc_data enc_data_len input input_len) m valid fine =
    forgotten (decrypt-Returns valid session enc_data enc_data_len input input_len)
perform-Performs host (c_decrypt_update session enc_part enc_part_len part part_len) m valid fine =
    forgotten (decrypt_update-Returns valid session enc_part enc_part_len part part_len)
perform-Performs host (c_decrypt_final session last_part last_part_len) m valid fine =
    forgotten (decrypt_final-Returns valid session last_part last_part_len)
perform-Performs host (c_digest_init session mechanism) m valid fine =
    forgotten (digest_init-Returns valid session mechanism)
perform-Performs host (c_digest session input input_len digest digest_len) m valid fine =
    forgotten (digest-Returns valid session input input_len digest digest_len)
perform-Performs host (c_digest_update session part part_len) m valid fine =
    forgotten (digest_update-Returns valid session part part_len)
perform-Performs host (c_digest_key session key) m valid fine =
    forgotten (digest_key-Returns valid session key)
perform-Performs host (c_digest_final session digest digest_len) m valid fine =
    forgotten (digest_final-Returns valid session digest digest_len)
perform-Performs host (c_sign_init session mechanism key) m valid fine =
    forgotten (sign_init-Returns valid session mechanism key)
perform-Performs host (c_sign session input input_len sig sig_len) m valid fine =
    forgotten (sign-Returns valid session input input_len sig sig_len)
perform-Performs host (c_sign_update session part part_len) m valid fine =
    forgotten (sign_update-Returns valid session part part_len)
perform-Performs host (c_sign_final session sig sig_len) m valid fine =
    forgotten (sign_final-Returns valid session sig sig_len)
perform-Performs host (c_sign_recover_init session mechanism key) m valid fine =
    forgotten (sign_recover_init-Returns valid session mechanism key)
perform-Performs host (c_sign_recover session input input_len sig sig_len) m valid fine =
    forgotten (sign_recover-Returns valid session input input_len sig sig_len)
perform-Performs host (c_verify_init session mechanism key) m valid fine =
    forgotten (verify_init-Returns valid session mechanism key)
perform-Performs host (c_verify session input input_len sig sig_len) m valid fine =
    forgotten (verify-Returns valid session input input_len sig sig_len)
perform-Performs host (c_verify_update session part part_len) m valid fine =
    forgotten (verify_update-Returns valid session part part_len)
perform-Performs host (c_verify_final session sig sig_len) m valid fine =
    forgotten (verify_final-Returns valid session sig sig_len)
perform-Performs host (c_verify_recover_init session mechanism key) m valid fine =
    forgotten (verify_recover_init-Returns valid session mechanism key)
perform-Performs host (c_verify_recover session sig sig_len input input_len) m valid fine =
    forgotten (verify_recover-Returns valid session sig sig_len input input_len)
perform-Performs host (c_digest_encrypt_update session part part_len enc_part enc_part_len) m valid
      fine =
    forgotten (digest_encrypt_update-Returns valid session part part_len enc_part enc_part_len)
perform-Performs host (c_decrypt_digest_update session enc_part enc_part_len part part_len) m valid
      fine =
    forgotten (decrypt_digest_update-Returns valid session enc_part enc_part_len part part_len)
perform-Performs host (c_sign_encrypt_update session part part_len enc_part enc_part_len) m valid
      fine =
    forgotten (sign_encrypt_update-Returns valid session part part_len enc_part enc_part_len)
perform-Performs host (c_decrypt_verify_update session enc_part enc_part_len part part_len) m valid
      fine =
    forgotten (decrypt_verify_update-Returns valid session enc_part enc_part_len part part_len)
perform-Performs host (c_generate_key session mechanism template count key) m valid fine =
    forgotten (generate_key-Returns valid session mechanism template count key)
perform-Performs host
      (c_generate_key_pair session mechanism pub_template pub_count priv_template priv_count pub_key
        priv_key)
      m valid fine =
    forgotten (
      generate_key_pair-Returns valid session mechanism pub_template pub_count priv_template
        priv_count pub_key priv_key)
perform-Performs host (c_wrap_key session mechanism wrapping_key key wrapped_key wrapped_key_len) m
      valid fine =
    forgotten
      (wrap_key-Returns valid session mechanism wrapping_key key wrapped_key wrapped_key_len)
perform-Performs host
      (c_unwrap_key session mechanism unwrapping_key wrapped_key wrapped_key_len template count key)
      m valid fine =
    forgotten (
      unwrap_key-Returns valid session mechanism unwrapping_key wrapped_key wrapped_key_len template
        count key)
perform-Performs host (c_derive_key session mechanism base_key template count key) m valid fine =
    forgotten (derive_key-Returns valid session mechanism base_key template count key)
perform-Performs host (c_seed_random session seed seed_len) m valid fine =
    forgotten (seed_random-Returns valid session seed seed_len)
perform-Performs host (c_generate_random session random_data random_len) m valid fine =
    forgotten (generate_random-Returns valid session random_data random_len)

-- One call after another.
abbrev pub EachGivesLabel : List (Host × Request) → Type 0
EachGivesLabel = All (λ (r : Host × Request). gives_label r.1 ≡ true)

-- From a pool in order, with a label wherever one is needed, any sequence of calls that returns leaves a
-- pool in order: it holds at most MAX_CALL_STATE_POOL call states, as many as are counted, and each of
-- them waits for a call on an open connection.
pub perform_all-IsPool :
    (requests : List (Host × Request)) (m m' : Module)
    → IsPool m
    → EachGivesLabel requests
    → perform_all requests m ≡ finished m'
    → IsPool m' × SameGlobals m m'
unfolding perform_all
perform_all-IsPool [] m m' valid fine e =
    let same : m ≡ m' = cc in (subst IsPool same valid, subst (SameGlobals m) same same_globals)
perform_all-IsPool ((host, request) ∷ more) m m' valid fine e =
    onward (λ m1 pool. perform_all-IsPool more m1 m' pool fine.1) (perform host request m)
      (perform-Performs host request m valid fine.0) e
  where
    onward :
        ((m1 : Module)
          → IsPool m1
          → perform_all more m1 ≡ finished m'
          → IsPool m' × SameGlobals m1 m')
        → (out : Course (Module × ℕ)) → Performs host (id_of request) m out
        → (out >>= λ (m1, _). perform_all more m1) ≡ finished m'
        → IsPool m' × SameGlobals m m'
    onward next (halted at) p e = absurd cc
    onward next stopped p e = absurd cc
    onward next (finished (m1, ret)) (halts s bad) e = absurd cc
    onward next (finished (m1, ret)) (returns {r = r} pool same at) e =
        let here : r.0 ≡ m1 = cc in
        let (pool', same') = next m1 (subst IsPool here pool) e in
        (pool', SameGlobals-trans (subst (SameGlobals m) here same) same')
