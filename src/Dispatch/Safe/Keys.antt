-- ===== src/Dispatch/Safe/Keys.antt =====
-- The handlers of the calls on keys and random numbers keep to the table of signatures.
use pkcs11_proxy.Common.{◌≡◌, [], codes}
use pkcs11_proxy.Calls
use pkcs11_proxy.Dispatch.Proto.{Machine}
use pkcs11_proxy.Dispatch.Library.{FunctionList}
use pkcs11_proxy.Dispatch.Calls.Keys.{
  rpc_generate_key, rpc_generate_key_pair, rpc_wrap_key, rpc_unwrap_key, rpc_derive_key,
  rpc_seed_random, rpc_generate_random,
}
use pkcs11_proxy.Dispatch.Ensures.{
  Ensures_bind, or_parse_error-Ensures, begin_call-Ensures, process_call-Ensures,
}
use pkcs11_proxy.Dispatch.Asked.{
  in_ulong-Ensures, in_byte_array-Ensures, in_mechanism-Ensures, in_byte_buffer-Ensures,
  in_attribute_array-Ensures,
}
use pkcs11_proxy.Dispatch.Answered.{
  Completes, pure_ret-Ensures, out_ulong-Ensures, out_ulong_next-Ensures, out_byte_array-Ensures,
}

module _ {S : Type 0} (machine : Machine) (wide : machine.ulong_size ≡ 8)
    (lib : FunctionList S) where
  pub generate_key-Completes :
      Completes {S = S} Calls.call_generate_key
        (codes "uMaA")
        (codes "u")
        (rpc_generate_key machine lib)
  unfolding rpc_generate_key
  generate_key-Completes = Ensures_bind (begin_call-Ensures _) λ _.
      Ensures_bind (in_ulong-Ensures (codes "MaA")) λ _.
        Ensures_bind (in_mechanism-Ensures (codes "aA")) λ _.
          Ensures_bind (in_attribute_array-Ensures machine wide [])
            λ _. Ensures_bind (process_call-Ensures _) λ _. out_ulong-Ensures [] _ _

  pub generate_key_pair-Completes :
      Completes {S = S} Calls.call_generate_key_pair
        (codes "uMaAaA")
        (codes "uu")
        (rpc_generate_key_pair machine lib)
  unfolding rpc_generate_key_pair
  generate_key_pair-Completes = Ensures_bind (begin_call-Ensures _) λ _.
      Ensures_bind (in_ulong-Ensures (codes "MaAaA")) λ _.
        Ensures_bind (in_mechanism-Ensures (codes "aAaA")) λ _.
          Ensures_bind (in_attribute_array-Ensures machine wide (codes "aA")) λ _.
            Ensures_bind (in_attribute_array-Ensures machine wide []) λ _.
              Ensures_bind (process_call-Ensures _) λ _.
                Ensures_bind (out_ulong-Ensures (codes "u") _ _) λ _. out_ulong_next-Ensures [] _ _

  pub wrap_key-Completes :
      Completes {S = S} Calls.call_wrap_key (codes "uMuufy") (codes "ay") (rpc_wrap_key machine lib)
  unfolding rpc_wrap_key
  wrap_key-Completes = Ensures_bind (begin_call-Ensures _) λ _.
      Ensures_bind (in_ulong-Ensures (codes "Muufy")) λ _.
        Ensures_bind (in_mechanism-Ensures (codes "uufy")) λ _.
          Ensures_bind (in_ulong-Ensures (codes "ufy")) λ _.
            Ensures_bind (in_ulong-Ensures (codes "fy")) λ _.
              Ensures_bind (in_byte_buffer-Ensures machine [])
                λ _. Ensures_bind (process_call-Ensures _) λ _. out_byte_array-Ensures [] _ _ _

  pub unwrap_key-Completes :
      Completes {S = S} Calls.call_unwrap_key
        (codes "uMuayaA")
        (codes "u")
        (rpc_unwrap_key machine lib)
  unfolding rpc_unwrap_key
  unwrap_key-Completes = Ensures_bind (begin_call-Ensures _) λ _.
      Ensures_bind (in_ulong-Ensures (codes "MuayaA")) λ _.
        Ensures_bind (in_mechanism-Ensures (codes "uayaA")) λ _.
          Ensures_bind (in_ulong-Ensures (codes "ayaA")) λ _.
            Ensures_bind (in_byte_array-Ensures (codes "aA")) λ _.
              Ensures_bind (in_attribute_array-Ensures machine wide [])
                λ _. Ensures_bind (process_call-Ensures _) λ _. out_ulong-Ensures [] _ _

  pub derive_key-Completes :
      Completes {S = S} Calls.call_derive_key
        (codes "uMuaA")
        (codes "u")
        (rpc_derive_key machine lib)
  unfolding rpc_derive_key
  derive_key-Completes = Ensures_bind (begin_call-Ensures _) λ _.
      Ensures_bind (in_ulong-Ensures (codes "MuaA")) λ _.
        Ensures_bind (in_mechanism-Ensures (codes "uaA")) λ _.
          Ensures_bind (in_ulong-Ensures (codes "aA")) λ _.
            Ensures_bind (in_attribute_array-Ensures machine wide [])
              λ _. Ensures_bind (process_call-Ensures _) λ _. out_ulong-Ensures [] _ _

  pub seed_random-Completes :
      Completes {S = S} Calls.call_seed_random (codes "uay") [] (rpc_seed_random machine lib)
  unfolding rpc_seed_random
  seed_random-Completes = Ensures_bind (begin_call-Ensures _) λ _.
      Ensures_bind (in_ulong-Ensures (codes "ay")) λ _.
        Ensures_bind (in_byte_array-Ensures [])
          λ _. Ensures_bind (process_call-Ensures _) λ _. pure_ret-Ensures [] _

  pub generate_random-Completes :
      Completes {S = S} Calls.call_generate_random
        (codes "ufy")
        (codes "ay")
        (rpc_generate_random machine lib)
  unfolding rpc_generate_random
  generate_random-Completes = Ensures_bind (begin_call-Ensures _) λ _.
      Ensures_bind (in_ulong-Ensures (codes "fy")) λ _.
        Ensures_bind (in_byte_buffer-Ensures machine []) λ _.
          Ensures_bind (or_parse_error-Ensures _)
            λ _. Ensures_bind (process_call-Ensures _) λ _. out_byte_array-Ensures [] _ _ _
