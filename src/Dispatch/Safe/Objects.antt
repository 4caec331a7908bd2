-- ===== src/Dispatch/Safe/Objects.antt =====
-- The handlers of the calls on objects keep to the table of signatures.
use pkcs11_proxy.Common.{◌≡◌, [], codes}
use pkcs11_proxy.Calls
use pkcs11_proxy.Dispatch.Proto.{Machine}
use pkcs11_proxy.Dispatch.Library.{FunctionList}
use pkcs11_proxy.Dispatch.Calls.Objects.{
  rpc_create_object, rpc_copy_object, rpc_destroy_object, rpc_get_object_size,
  rpc_get_attribute_value, rpc_set_attribute_value, rpc_find_objects_init, rpc_find_objects,
  rpc_find_objects_final,
}
use pkcs11_proxy.Dispatch.Ensures.{Ensures_bind, begin_call-Ensures, process_call-Ensures}
use pkcs11_proxy.Dispatch.Asked.{
  in_ulong-Ensures, in_ulong_buffer-Ensures, in_attribute_buffer-Ensures,
  in_attribute_array-Ensures,
}
use pkcs11_proxy.Dispatch.Answered.{
  Completes, pure_ret-Ensures, out_ulong-Ensures, out_ulong_array-Ensures,
  out_attribute_array-Ensures,
}

module _ {S : Type 0} (machine : Machine) (wide : machine.ulong_size ≡ 8)
    (lib : FunctionList S) where
  pub create_object-Completes :
      Completes {S = S} Calls.call_create_object
        (codes "uaA")
        (codes "u")
        (rpc_create_object machine lib)
  unfolding rpc_create_object
  create_object-Completes = Ensures_bind (begin_call-Ensures _) λ _.
      Ensures_bind (in_ulong-Ensures (codes "aA")) λ _.
        Ensures_bind (in_attribute_array-Ensures machine wide [])
          λ _. Ensures_bind (process_call-Ensures _) λ _. out_ulong-Ensures [] _ _

  pub copy_object-Completes :
      Completes {S = S} Calls.call_copy_object
        (codes "uuaA")
        (codes "u")
        (rpc_copy_object machine lib)
  unfolding rpc_copy_object
  copy_object-Completes = Ensures_bind (begin_call-Ensures _) λ _.
      Ensures_bind (in_ulong-Ensures (codes "uaA")) λ _.
        Ensures_bind (in_ulong-Ensures (codes "aA")) λ _.
          Ensures_bind (in_attribute_array-Ensures machine wide [])
            λ _. Ensures_bind (process_call-Ensures _) λ _. out_ulong-Ensures [] _ _

  pub destroy_object-Completes :
      Completes {S = S} Calls.call_destroy_object (codes "uu") [] (rpc_destroy_object machine lib)
  unfolding rpc_destroy_object
  destroy_object-Completes = Ensures_bind (begin_call-Ensures _) λ _.
      Ensures_bind (in_ulong-Ensures (codes "u")) λ _.
        Ensures_bind (in_ulong-Ensures [])
          λ _. Ensures_bind (process_call-Ensures _) λ _. pure_ret-Ensures [] _

  pub get_object_size-Completes :
      Completes {S = S} Calls.call_get_object_size
        (codes "uu")
        (codes "u")
        (rpc_get_object_size machine lib)
  unfolding rpc_get_object_size
  get_object_size-Completes = Ensures_bind (begin_call-Ensures _) λ _.
      Ensures_bind (in_ulong-Ensures (codes "u")) λ _.
        Ensures_bind (in_ulong-Ensures [])
          λ _. Ensures_bind (process_call-Ensures _) λ _. out_ulong-Ensures [] _ _

  pub get_attribute_value-Completes :
      Completes {S = S} Calls.call_get_attribute_value
        (codes "uufA")
        (codes "aAu")
        (rpc_get_attribute_value machine lib)
  unfolding rpc_get_attribute_value
  get_attribute_value-Completes = Ensures_bind (begin_call-Ensures _) λ _.
      Ensures_bind (in_ulong-Ensures (codes "ufA")) λ _.
        Ensures_bind (in_ulong-Ensures (codes "fA")) λ _.
          Ensures_bind (in_attribute_buffer-Ensures machine []) λ _.
            Ensures_bind (process_call-Ensures _) λ _. out_attribute_array-Ensures [] _ machine _ _

  pub set_attribute_value-Completes :
      Completes {S = S} Calls.call_set_attribute_value
        (codes "uuaA")
        []
        (rpc_set_attribute_value machine lib)
  unfolding rpc_set_attribute_value
  set_attribute_value-Completes = Ensures_bind (begin_call-Ensures _) λ _.
      Ensures_bind (in_ulong-Ensures (codes "uaA")) λ _.
        Ensures_bind (in_ulong-Ensures (codes "aA")) λ _.
          Ensures_bind (in_attribute_array-Ensures machine wide [])
            λ _. Ensures_bind (process_call-Ensures _) λ _. pure_ret-Ensures [] _

  pub find_objects_init-Completes :
      Completes {S = S} Calls.call_find_objects_init
        (codes "uaA")
        []
        (rpc_find_objects_init machine lib)
  unfolding rpc_find_objects_init
  find_objects_init-Completes = Ensures_bind (begin_call-Ensures _) λ _.
      Ensures_bind (in_ulong-Ensures (codes "aA")) λ _.
        Ensures_bind (in_attribute_array-Ensures machine wide [])
          λ _. Ensures_bind (process_call-Ensures _) λ _. pure_ret-Ensures [] _

  pub find_objects-Completes :
      Completes {S = S} Calls.call_find_objects
        (codes "ufu")
        (codes "au")
        (rpc_find_objects machine lib)
  unfolding rpc_find_objects
  find_objects-Completes = Ensures_bind (begin_call-Ensures _) λ _.
      Ensures_bind (in_ulong-Ensures (codes "fu")) λ _.
        Ensures_bind (in_ulong_buffer-Ensures machine [])
          λ _. Ensures_bind (process_call-Ensures _) λ _. out_ulong_array-Ensures [] _ _ _

  pub find_objects_final-Completes :
      Completes {S = S} Calls.call_find_objects_final
        (codes "u")
        []
        (rpc_find_objects_final machine lib)
  unfolding rpc_find_objects_final
  find_objects_final-Completes = Ensures_bind (begin_call-Ensures _) λ _.
      Ensures_bind (in_ulong-Ensures [])
        λ _. Ensures_bind (process_call-Ensures _) λ _. pure_ret-Ensures [] _
