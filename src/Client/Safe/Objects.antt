-- ===== src/Client/Safe/Objects.antt =====
-- gck-rpc-module.c: the functions for objects keep to the table of signatures.
use pkcs11_proxy.Common.{ℕ, refl, Bool, not, Option, none, some, List, [], codes, ◌==◌, arith}
use pkcs11_proxy.Pkcs11.{
  Attribute, ckr_ok, ckr_arguments_bad, ckr_cryptoki_not_initialized, ckr_session_handle_invalid,
}
use pkcs11_proxy.Calls.{
  request_of, response_of, call_create_object, call_copy_object, call_destroy_object,
  call_get_object_size, call_get_attribute_value, call_set_attribute_value, call_find_objects_init,
  call_find_objects, call_find_objects_final,
}
use pkcs11_proxy.Message.{is_given}
use pkcs11_proxy.Message.Write.{items}
use pkcs11_proxy.Client.{Module, Host}
use pkcs11_proxy.Client.Invariant.{IsPool}
use pkcs11_proxy.Client.Calls.Objects.{
  rpc_create_object, rpc_copy_object, rpc_destroy_object, rpc_get_object_size,
  rpc_get_attribute_value, rpc_set_attribute_value, rpc_find_objects_init, rpc_find_objects,
  rpc_find_objects_final,
}
use pkcs11_proxy.Client.Runs.{Runs_then, process_call-Runs, pure-Runs}
use pkcs11_proxy.Client.Returns.{Returns, begin_call-Returns, return_val_if_fail-Returns}
use pkcs11_proxy.Client.Asks.{
  in_attribute_array-Runs, in_attribute_buffer-Runs, in_ulong-Runs, in_ulong_buffer2-Runs,
}
use pkcs11_proxy.Client.Answers.{out_attribute_array-Runs, out_ulong-Runs, out_ulong_array-Runs}

module _ {host : Host} {m : Module} (valid : IsPool m) where
  pub create_object-Returns :
      (session : ℕ) (template : Option (List Attribute)) (count : ℕ) (new_object : Bool)
      → Returns host call_create_object m
          (rpc_create_object host session template count new_object m)
  unfolding rpc_create_object request_of response_of
  create_object-Returns session template count new_object =
      return_val_if_fail-Returns m.initialized ckr_cryptoki_not_initialized none _ valid (λ _.
        return_val_if_fail-Returns (not (session == 0)) ckr_session_handle_invalid none _ valid
          (λ _. return_val_if_fail-Returns (is_given template) ckr_arguments_bad none _ valid (λ _.
            return_val_if_fail-Returns new_object ckr_arguments_bad none _ valid (λ _.
              begin_call-Returns host call_create_object none m (codes "uaA") _ valid (omega arith)
                (omega arith) refl
                (Runs_then (in_ulong-Runs (codes "aA") session) (
                  Runs_then (in_attribute_array-Runs [] template count) (
                    Runs_then (process_call-Runs (codes "u") refl)
                      (out_ulong-Runs [] new_object ckr_ok))))))))

  pub copy_object-Returns :
      (session : ℕ) (object : ℕ) (template : Option (List Attribute)) (count : ℕ)
      (new_object : Bool)
      → Returns host call_copy_object m
          (rpc_copy_object host session object template count new_object m)
  unfolding rpc_copy_object request_of response_of
  copy_object-Returns session object template count new_object =
      return_val_if_fail-Returns m.initialized ckr_cryptoki_not_initialized none _ valid (λ _.
        return_val_if_fail-Returns new_object ckr_arguments_bad none _ valid (λ _.
          begin_call-Returns host call_copy_object none m (codes "uuaA") _ valid (omega arith)
            (omega arith) refl
            (Runs_then (in_ulong-Runs (codes "uaA") session) (
              Runs_then (in_ulong-Runs (codes "aA") object) (
                Runs_then (in_attribute_array-Runs [] template count) (
                  Runs_then (process_call-Runs (codes "u") refl)
                    (out_ulong-Runs [] new_object ckr_ok)))))))

  pub destroy_object-Returns :
      (session : ℕ) (object : ℕ)
      → Returns host call_destroy_object m (rpc_destroy_object host session object m)
  unfolding rpc_destroy_object request_of response_of
  destroy_object-Returns session object =
      return_val_if_fail-Returns m.initialized ckr_cryptoki_not_initialized tt _ valid (λ _.
        begin_call-Returns host call_destroy_object tt m (codes "uu") _ valid (omega arith)
          (omega arith) refl
          (Runs_then (in_ulong-Runs (codes "u") session) (
            Runs_then (in_ulong-Runs [] object)
              (Runs_then (process_call-Runs [] refl) (pure-Runs (ckr_ok, tt) (λ cs h. h))))))

  pub get_object_size-Returns :
      (session : ℕ) (object : ℕ) (size : Bool)
      → Returns host call_get_object_size m (rpc_get_object_size host session object size m)
  unfolding rpc_get_object_size request_of response_of
  get_object_size-Returns session object size =
      return_val_if_fail-Returns m.initialized ckr_cryptoki_not_initialized none _ valid (λ _.
        return_val_if_fail-Returns size ckr_arguments_bad none _ valid (λ _.
          begin_call-Returns host call_get_object_size none m (codes "uu") _ valid (omega arith)
            (omega arith) refl
            (Runs_then (in_ulong-Runs (codes "u") session) (
              Runs_then (in_ulong-Runs [] object)
                (Runs_then (process_call-Runs (codes "u") refl) (out_ulong-Runs [] size ckr_ok))))))

  pub get_attribute_value-Returns :
      (session : ℕ) (object : ℕ) (template : Option (List Attribute)) (count : ℕ)
      → Returns host call_get_attribute_value m
          (rpc_get_attribute_value host session object template count m)
  unfolding rpc_get_attribute_value request_of response_of
  get_attribute_value-Returns session object template count =
      return_val_if_fail-Returns m.initialized ckr_cryptoki_not_initialized (items template) _ valid
        (λ _.
          return_val_if_fail-Returns (is_given template) ckr_arguments_bad (items template) _ valid
            (λ _.
              begin_call-Returns host call_get_attribute_value (items template) m (codes "uufA") _
                valid (omega arith) (omega arith) refl
                (Runs_then (in_ulong-Runs (codes "ufA") session) (
                  Runs_then (in_ulong-Runs (codes "fA") object) (
                    Runs_then (in_attribute_buffer-Runs [] template count) (
                      Runs_then (process_call-Runs (codes "aAu") refl)
                        (out_attribute_array-Runs [] template count ckr_ok)))))))

  pub set_attribute_value-Returns :
      (session : ℕ) (object : ℕ) (template : Option (List Attribute)) (count : ℕ)
      → Returns host call_set_attribute_value m
          (rpc_set_attribute_value host session object template count m)
  unfolding rpc_set_attribute_value request_of response_of
  set_attribute_value-Returns session object template count =
      return_val_if_fail-Returns m.initialized ckr_cryptoki_not_initialized tt _ valid (λ _.
        begin_call-Returns host call_set_attribute_value tt m (codes "uuaA") _ valid (omega arith)
          (omega arith) refl
          (Runs_then (in_ulong-Runs (codes "uaA") session) (
            Runs_then (in_ulong-Runs (codes "aA") object) (
              Runs_then (in_attribute_array-Runs [] template count)
                (Runs_then (process_call-Runs [] refl) (pure-Runs (ckr_ok, tt) (λ cs h. h)))))))

  pub find_objects_init-Returns :
      (session : ℕ) (template : Option (List Attribute)) (count : ℕ)
      → Returns host call_find_objects_init m (rpc_find_objects_init host session template count m)
  unfolding rpc_find_objects_init request_of response_of
  find_objects_init-Returns session template count =
      return_val_if_fail-Returns m.initialized ckr_cryptoki_not_initialized tt _ valid (λ _.
        begin_call-Returns host call_find_objects_init tt m (codes "uaA") _ valid (omega arith)
          (omega arith) refl
          (Runs_then (in_ulong-Runs (codes "aA") session) (
            Runs_then (in_attribute_array-Runs [] template count)
              (Runs_then (process_call-Runs [] refl) (pure-Runs (ckr_ok, tt) (λ cs h. h))))))

  pub find_objects-Returns :
      (session : ℕ) (objects : Option (List ℕ)) (max_count : ℕ) (count : Option ℕ)
      → Returns host call_find_objects m (rpc_find_objects host session objects max_count count m)
  unfolding rpc_find_objects request_of response_of
  find_objects-Returns session objects max_count count =
      return_val_if_fail-Returns m.initialized ckr_cryptoki_not_initialized (objects, count) _ valid
        (λ _.
          return_val_if_fail-Returns (is_given count) ckr_arguments_bad (objects, count) _ valid
            (λ _.
              begin_call-Returns host call_find_objects (objects, count) m (codes "ufu") _ valid
                (omega arith) (omega arith) refl
                (Runs_then (in_ulong-Runs (codes "fu") session) (
                  Runs_then (in_ulong_buffer2-Runs [] objects max_count) (
                    Runs_then (process_call-Runs (codes "au") refl)
                      (out_ulong_array-Runs [] objects (some max_count) ckr_ok))))))

  pub find_objects_final-Returns :
      (session : ℕ) → Returns host call_find_objects_final m (rpc_find_objects_final host session m)
  unfolding rpc_find_objects_final request_of response_of
  find_objects_final-Returns session =
      return_val_if_fail-Returns m.initialized ckr_cryptoki_not_initialized tt _ valid (λ _.
        begin_call-Returns host call_find_objects_final tt m (codes "u") _ valid (omega arith)
          (omega arith) refl
          (Runs_then (in_ulong-Runs [] session)
            (Runs_then (process_call-Runs [] refl) (pure-Runs (ckr_ok, tt) (λ cs h. h)))))
