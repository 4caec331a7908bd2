-- ===== src/Client/Calls/Objects.antt =====
-- gck-rpc-module.c: the functions of the module for objects.
use pkcs11_proxy.Common.{ℕ, Bool, not, Option, none, some, List, ◌==◌}
use pkcs11_proxy.Pkcs11.{
  Attribute, ckr_ok, ckr_arguments_bad, ckr_cryptoki_not_initialized, ckr_session_handle_invalid,
}
use pkcs11_proxy.Calls.{
  call_create_object, call_copy_object, call_destroy_object, call_get_object_size,
  call_get_attribute_value, call_set_attribute_value, call_find_objects_init, call_find_objects,
  call_find_objects_final,
}
use pkcs11_proxy.Message.{is_given}
use pkcs11_proxy.Message.Write.{items}
use pkcs11_proxy.Client.{Module, Host}
use pkcs11_proxy.Client.Course.{Course}
use pkcs11_proxy.Client.Caller.{◌>>◌, pure}
use pkcs11_proxy.Client.Begin.{begin_call, process_call, return_val_if_fail}
use pkcs11_proxy.Client.Proto.{in_ulong, in_ulong_buffer2, in_attribute_buffer, in_attribute_array}
use pkcs11_proxy.Client.Results.{Stored, out_ulong, out_ulong_array, out_attribute_array}

module _ (host : Host) where
  unfoldable pub rpc_create_object :
      ℕ → Option (List Attribute) → ℕ → Bool → Module → Course (Module × ℕ × Option ℕ)
  rpc_create_object session template count new_object m =
      return_val_if_fail m.initialized ckr_cryptoki_not_initialized none
        (return_val_if_fail (not (session == 0)) ckr_session_handle_invalid none (
          return_val_if_fail (is_given template) ckr_arguments_bad none (
            return_val_if_fail new_object ckr_arguments_bad none (
              begin_call host call_create_object none (do
                in_ulong session
                in_attribute_array host template count
                process_call host
                out_ulong host new_object ckr_ok)))))
        m

  unfoldable pub rpc_copy_object :
      ℕ → ℕ → Option (List Attribute) → ℕ → Bool → Module → Course (Module × ℕ × Option ℕ)
  rpc_copy_object session object template count new_object m =
      return_val_if_fail m.initialized ckr_cryptoki_not_initialized none
        (return_val_if_fail new_object ckr_arguments_bad none (
          begin_call host call_copy_object none (do
            in_ulong session
            in_ulong object
            in_attribute_array host template count
            process_call host
            out_ulong host new_object ckr_ok)))
        m

  unfoldable pub rpc_destroy_object : ℕ → ℕ → Module → Course (Module × ℕ × Unit {0})
  rpc_destroy_object session object m =
      return_val_if_fail m.initialized ckr_cryptoki_not_initialized tt
        (begin_call host call_destroy_object tt
          (do in_ulong session; in_ulong object; process_call host; pure (ckr_ok, tt)))
        m

  unfoldable pub rpc_get_object_size : ℕ → ℕ → Bool → Module → Course (Module × ℕ × Option ℕ)
  rpc_get_object_size session object size m =
      return_val_if_fail m.initialized ckr_cryptoki_not_initialized none
        (return_val_if_fail size ckr_arguments_bad none (
          begin_call host call_get_object_size none
            (do in_ulong session; in_ulong object; process_call host; out_ulong host size ckr_ok)))
        m

  unfoldable pub rpc_get_attribute_value :
      ℕ → ℕ → Option (List Attribute) → ℕ → Module → Course (Module × ℕ × List Attribute)
  rpc_get_attribute_value session object template count m =
      return_val_if_fail m.initialized ckr_cryptoki_not_initialized (items template)
        (return_val_if_fail (is_given template) ckr_arguments_bad (items template) (
          begin_call host call_get_attribute_value (items template) (do
            in_ulong session
            in_ulong object
            in_attribute_buffer template count
            process_call host
            out_attribute_array host template count ckr_ok)))
        m

  unfoldable pub rpc_set_attribute_value :
      ℕ → ℕ → Option (List Attribute) → ℕ → Module → Course (Module × ℕ × Unit {0})
  rpc_set_attribute_value session object template count m =
      return_val_if_fail m.initialized ckr_cryptoki_not_initialized tt
        (begin_call host call_set_attribute_value tt (do
          in_ulong session
          in_ulong object
          in_attribute_array host template count
          process_call host
          pure (ckr_ok, tt)))
        m

  unfoldable pub rpc_find_objects_init :
      ℕ → Option (List Attribute) → ℕ → Module → Course (Module × ℕ × Unit {0})
  rpc_find_objects_init session template count m =
      return_val_if_fail m.initialized ckr_cryptoki_not_initialized tt
        (begin_call host call_find_objects_init tt (do
          in_ulong session
          in_attribute_array host template count
          process_call host
          pure (ckr_ok, tt)))
        m

  -- `*count = max_count` goes before the results.
  unfoldable pub rpc_find_objects :
      ℕ → Option (List ℕ) → ℕ → Option ℕ → Module → Course (Module × ℕ × Stored)
  rpc_find_objects session objects max_count count m =
      return_val_if_fail m.initialized ckr_cryptoki_not_initialized (objects, count)
        (return_val_if_fail (is_given count) ckr_arguments_bad (objects, count)
          (begin_call host call_find_objects (objects, count)
            (do
              in_ulong session
              in_ulong_buffer2 objects max_count
              process_call host
              out_ulong_array host objects (some max_count) ckr_ok)))
        m

  unfoldable pub rpc_find_objects_final : ℕ → Module → Course (Module × ℕ × Unit {0})
  rpc_find_objects_final session m =
      return_val_if_fail m.initialized ckr_cryptoki_not_initialized tt
        (begin_call host call_find_objects_final tt
          (do in_ulong session; process_call host; pure (ckr_ok, tt)))
        m
