-- ===== src/Dispatch/Calls/Objects.antt =====
-- gck-rpc-dispatch.c: the handlers of the calls on objects.
use pkcs11_proxy.Common.{ℕ}
use pkcs11_proxy.Dispatch.{Handler, ◌>>=◌, pure}
use pkcs11_proxy.Dispatch.Proto.{
  Machine, in_ulong, in_ulong_buffer, in_attribute_buffer, in_attribute_array,
}
use pkcs11_proxy.Dispatch.Results.{out_ulong, out_ulong_array, out_attribute_array}
use pkcs11_proxy.Dispatch.Library.{FunctionList, begin_call, process_call, filled_at}

module _ {S : Type 0} (machine : Machine) (lib : FunctionList S) where
  unfoldable pub rpc_create_object : Handler S ℕ
  rpc_create_object = do
    f ← begin_call lib.create_object
    session ← in_ulong
    (template, count) ← in_attribute_array machine
    (ret, new_object) ← process_call (f session template count)
    out_ulong new_object ret

  unfoldable pub rpc_copy_object : Handler S ℕ
  rpc_copy_object = do
    f ← begin_call lib.copy_object
    session ← in_ulong
    object ← in_ulong
    (template, count) ← in_attribute_array machine
    (ret, new_object) ← process_call (f session object template count)
    out_ulong new_object ret

  unfoldable pub rpc_destroy_object : Handler S ℕ
  rpc_destroy_object = do
    f ← begin_call lib.destroy_object
    session ← in_ulong
    object ← in_ulong
    (ret, _) ← process_call (f session object)
    pure ret

  unfoldable pub rpc_get_object_size : Handler S ℕ
  rpc_get_object_size = do
    f ← begin_call lib.get_object_size
    session ← in_ulong
    object ← in_ulong
    (ret, size) ← process_call (f session object)
    out_ulong size ret

  unfoldable pub rpc_get_attribute_value : Handler S ℕ
  rpc_get_attribute_value = do
    f ← begin_call lib.get_attribute_value
    session ← in_ulong
    object ← in_ulong
    (template, count) ← in_attribute_buffer machine
    (ret, answered) ← process_call (f session object template count)
    out_attribute_array machine answered count ret

  unfoldable pub rpc_set_attribute_value : Handler S ℕ
  rpc_set_attribute_value = do
    f ← begin_call lib.set_attribute_value
    session ← in_ulong
    object ← in_ulong
    (template, count) ← in_attribute_array machine
    (ret, _) ← process_call (f session object template count)
    pure ret

  unfoldable pub rpc_find_objects_init : Handler S ℕ
  rpc_find_objects_init = do
    f ← begin_call lib.find_objects_init
    session ← in_ulong
    (template, count) ← in_attribute_array machine
    (ret, _) ← process_call (f session template count)
    pure ret

  unfoldable pub rpc_find_objects : Handler S ℕ
  rpc_find_objects = do
    f ← begin_call lib.find_objects
    session ← in_ulong
    (objects, max_object_count) ← in_ulong_buffer machine
    (ret, (numbers, object_count)) ← process_call (f session objects max_object_count)
    out_ulong_array (filled_at objects numbers) object_count ret

  unfoldable pub rpc_find_objects_final : Handler S ℕ
  rpc_find_objects_final = do
    f ← begin_call lib.find_objects_final
    session ← in_ulong
    (ret, _) ← process_call (f session)
    pure ret
