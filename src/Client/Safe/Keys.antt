-- ===== src/Client/Safe/Keys.antt =====
-- gck-rpc-module.c: the functions for keys and random numbers keep to the table of signatures.
use pkcs11_proxy.Common.{ℕ, refl, Bool, not, Option, none, some, List, [], codes, ◌==◌, arith}
use pkcs11_proxy.Pkcs11.{
  Attribute, Mechanism, ckr_ok, ckr_arguments_bad, ckr_cryptoki_not_initialized,
  ckr_session_handle_invalid,
}
use pkcs11_proxy.Calls.{
  request_of, response_of, call_generate_key, call_generate_key_pair, call_wrap_key,
  call_unwrap_key, call_derive_key, call_seed_random, call_generate_random,
}
use pkcs11_proxy.Message.{is_given}
use pkcs11_proxy.Client.{Module, Host}
use pkcs11_proxy.Client.Invariant.{IsPool}
use pkcs11_proxy.Client.Calls.Keys.{
  rpc_generate_key, rpc_generate_key_pair, rpc_wrap_key, rpc_unwrap_key, rpc_derive_key,
  rpc_seed_random, rpc_generate_random,
}
use pkcs11_proxy.Client.Runs.{Runs_then, process_call-Runs, Runs_bind, pure-Runs}
use pkcs11_proxy.Client.Returns.{Returns, begin_call-Returns, return_val_if_fail-Returns}
use pkcs11_proxy.Client.Asks.{
  in_attribute_array-Runs, in_byte_array-Runs, in_byte_buffer-Runs, in_mechanism-Runs,
  in_ulong-Runs,
}
use pkcs11_proxy.Client.Answers.{out_byte_array-Runs, out_ulong-Runs}

module _ {host : Host} {m : Module} (valid : IsPool m) where
  pub generate_key-Returns :
      (session : ℕ) (mechanism : Option Mechanism) (template : Option (List Attribute)) (count : ℕ)
      (key : Bool)
      → Returns host call_generate_key m
          (rpc_generate_key host session mechanism template count key m)
  unfolding rpc_generate_key request_of response_of
  generate_key-Returns session mechanism template count key =
      return_val_if_fail-Returns m.initialized ckr_cryptoki_not_initialized none _ valid (λ _.
        begin_call-Returns host call_generate_key none m (codes "uMaA") _ valid (omega arith)
          (omega arith) refl
          (Runs_then (in_ulong-Runs (codes "MaA") session) (
            Runs_then (in_mechanism-Runs (codes "aA") mechanism) (
              Runs_then (in_attribute_array-Runs [] template count)
                (Runs_then (process_call-Runs (codes "u") refl) (out_ulong-Runs [] key ckr_ok))))))

  pub generate_key_pair-Returns :
      (session : ℕ) (mechanism : Option Mechanism) (pub_template : Option (List Attribute))
      (pub_count : ℕ) (priv_template : Option (List Attribute)) (priv_count : ℕ) (pub_key : Bool)
      (priv_key : Bool)
      → Returns host call_generate_key_pair m (
          rpc_generate_key_pair host session mechanism pub_template pub_count priv_template
            priv_count pub_key priv_key m)
  unfolding rpc_generate_key_pair request_of response_of
  generate_key_pair-Returns session mechanism pub_template pub_count priv_template priv_count
        pub_key priv_key =
      return_val_if_fail-Returns m.initialized ckr_cryptoki_not_initialized (none, none) _ valid
        (λ _.
          return_val_if_fail-Returns (not (session == 0)) ckr_session_handle_invalid (none, none) _
            valid
            (λ _.
              return_val_if_fail-Returns (is_given mechanism) ckr_arguments_bad (none, none) _ valid
                (λ _.
                  return_val_if_fail-Returns (is_given pub_template) ckr_arguments_bad (none, none)
                    _ valid
                    (λ _.
                      return_val_if_fail-Returns (is_given priv_template) ckr_arguments_bad
                        (none, none) _ valid
                        (λ _.
                          return_val_if_fail-Returns pub_key ckr_arguments_bad (none, none) _ valid
                            (λ _.
                              return_val_if_fail-Returns priv_key ckr_arguments_bad (none, none) _
                                valid
                                (λ _.
                                  begin_call-Returns host call_generate_key_pair (none, none) m
                                    (codes "uMaAaA") _ valid (omega arith) (omega arith) refl
                                    (Runs_then (in_ulong-Runs (codes "MaAaA") session) (
                                      Runs_then (in_mechanism-Runs (codes "aAaA") mechanism) (
                                        Runs_then
                                          (in_attribute_array-Runs (codes "aA") pub_template
                                            pub_count)
                                          (Runs_then
                                            (in_attribute_array-Runs [] priv_template priv_count)
                                            (Runs_then (process_call-Runs (codes "uu") refl) (
                                              Runs_bind (out_ulong-Runs (codes "u") pub_key ckr_ok)
                                                (λ r.
                                                  Runs_bind (out_ulong-Runs [] priv_key r.0)
                                                    (λ r'. pure-Runs _ (λ cs h. h))))))))))))))))

  pub wrap_key-Returns :
      (session : ℕ) (mechanism : Option Mechanism) (wrapping_key : ℕ) (key : ℕ)
      (wrapped_key : Option (List ℕ)) (wrapped_key_len : Option ℕ)
      → Returns host call_wrap_key m
          (rpc_wrap_key host session mechanism wrapping_key key wrapped_key wrapped_key_len m)
  unfolding rpc_wrap_key request_of response_of
  wrap_key-Returns session mechanism wrapping_key key wrapped_key wrapped_key_len =
      return_val_if_fail-Returns m.initialized ckr_cryptoki_not_initialized
        (wrapped_key, wrapped_key_len) _ valid
        (λ _.
          begin_call-Returns host call_wrap_key (wrapped_key, wrapped_key_len) m (codes "uMuufy") _
            valid (omega arith) (omega arith) refl
            (Runs_then (in_ulong-Runs (codes "Muufy") session) (
              Runs_then (in_mechanism-Runs (codes "uufy") mechanism) (
                Runs_then (in_ulong-Runs (codes "ufy") wrapping_key) (
                  Runs_then (in_ulong-Runs (codes "fy") key) (
                    Runs_then (in_byte_buffer-Runs [] wrapped_key wrapped_key_len) (
                      Runs_then (process_call-Runs (codes "ay") refl)
                        (out_byte_array-Runs [] wrapped_key wrapped_key_len ckr_ok))))))))

  pub unwrap_key-Returns :
      (session : ℕ) (mechanism : Option Mechanism) (unwrapping_key : ℕ)
      (wrapped_key : Option (List ℕ)) (wrapped_key_len : ℕ) (template : Option (List Attribute))
      (count : ℕ) (key : Bool)
      → Returns host call_unwrap_key m (
          rpc_unwrap_key host session mechanism unwrapping_key wrapped_key wrapped_key_len template
            count key m)
  unfolding rpc_unwrap_key request_of response_of
  unwrap_key-Returns session mechanism unwrapping_key wrapped_key wrapped_key_len template count
        key =
      return_val_if_fail-Returns m.initialized ckr_cryptoki_not_initialized none _ valid (λ _.
        begin_call-Returns host call_unwrap_key none m (codes "uMuayaA") _ valid (omega arith)
          (omega arith) refl
          (Runs_then (in_ulong-Runs (codes "MuayaA") session) (
            Runs_then (in_mechanism-Runs (codes "uayaA") mechanism) (
              Runs_then (in_ulong-Runs (codes "ayaA") unwrapping_key) (
                Runs_then (in_byte_array-Runs (codes "aA") wrapped_key wrapped_key_len) (
                  Runs_then (in_attribute_array-Runs [] template count) (
                    Runs_then (process_call-Runs (codes "u") refl)
                      (out_ulong-Runs [] key ckr_ok))))))))

  pub derive_key-Returns :
      (session : ℕ) (mechanism : Option Mechanism) (base_key : ℕ)
      (template : Option (List Attribute)) (count : ℕ) (key : Bool)
      → Returns host call_derive_key m
          (rpc_derive_key host session mechanism base_key template count key m)
  unfolding rpc_derive_key request_of response_of
  derive_key-Returns session mechanism base_key template count key =
      return_val_if_fail-Returns m.initialized ckr_cryptoki_not_initialized none _ valid (λ _.
        begin_call-Returns host call_derive_key none m (codes "uMuaA") _ valid (omega arith)
          (omega arith) refl
          (Runs_then (in_ulong-Runs (codes "MuaA") session) (
            Runs_then (in_mechanism-Runs (codes "uaA") mechanism) (
              Runs_then (in_ulong-Runs (codes "aA") base_key) (
                Runs_then (in_attribute_array-Runs [] template count) (
                  Runs_then (process_call-Runs (codes "u") refl)
                    (out_ulong-Runs [] key ckr_ok)))))))

  pub seed_random-Returns :
      (session : ℕ) (seed : Option (List ℕ)) (seed_len : ℕ)
      → Returns host call_seed_random m (rpc_seed_random host session seed seed_len m)
  unfolding rpc_seed_random request_of response_of
  seed_random-Returns session seed seed_len =
      return_val_if_fail-Returns m.initialized ckr_cryptoki_not_initialized tt _ valid (λ _.
        begin_call-Returns host call_seed_random tt m (codes "uay") _ valid (omega arith)
          (omega arith) refl
          (Runs_then (in_ulong-Runs (codes "ay") session) (
            Runs_then (in_byte_array-Runs [] seed seed_len)
              (Runs_then (process_call-Runs [] refl) (pure-Runs (ckr_ok, tt) (λ cs h. h))))))

  pub generate_random-Returns :
      (session : ℕ) (random_data : Option (List ℕ)) (random_len : ℕ)
      → Returns host call_generate_random m
          (rpc_generate_random host session random_data random_len m)
  unfolding rpc_generate_random request_of response_of
  generate_random-Returns session random_data random_len =
      return_val_if_fail-Returns m.initialized ckr_cryptoki_not_initialized
        (random_data, some random_len) _ valid
        (λ _.
          return_val_if_fail-Returns (is_given random_data) ckr_arguments_bad
            (random_data, some random_len) _ valid
            (λ _.
              begin_call-Returns host call_generate_random (random_data, some random_len) m
                (codes "ufy") _ valid (omega arith) (omega arith) refl
                (Runs_then (in_ulong-Runs (codes "fy") session) (
                  Runs_then (in_byte_buffer-Runs [] random_data (some random_len)) (
                    Runs_then (process_call-Runs (codes "ay") refl)
                      (out_byte_array-Runs [] random_data (some random_len) ckr_ok))))))
