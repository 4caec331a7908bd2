-- ===== src/Dispatch/Safe/Digests.antt =====
-- The handlers of the calls on digests keep to the table of signatures.
use pkcs11_proxy.Common.{[], codes}
use pkcs11_proxy.Calls
use pkcs11_proxy.Dispatch.Proto.{Machine}
use pkcs11_proxy.Dispatch.Library.{FunctionList}
use pkcs11_proxy.Dispatch.Calls.Digests.{
  rpc_digest_init, rpc_digest, rpc_digest_update, rpc_digest_key, rpc_digest_final,
}
use pkcs11_proxy.Dispatch.Ensures.{Ensures_bind, begin_call-Ensures, process_call-Ensures}
use pkcs11_proxy.Dispatch.Asked.{
  in_ulong-Ensures, in_byte_array-Ensures, in_mechanism-Ensures, in_byte_buffer-Ensures,
}
use pkcs11_proxy.Dispatch.Answered.{Completes, pure_ret-Ensures, out_byte_array-Ensures}

module _ {S : Type 0} (machine : Machine) (lib : FunctionList S) where
  pub digest_init-Completes :
      Completes {S = S} Calls.call_digest_init (codes "uM") [] (rpc_digest_init machine lib)
  unfolding rpc_digest_init
  digest_init-Completes = Ensures_bind (begin_call-Ensures _) λ _.
      Ensures_bind (in_ulong-Ensures (codes "M")) λ _.
        Ensures_bind (in_mechanism-Ensures [])
          λ _. Ensures_bind (process_call-Ensures _) λ _. pure_ret-Ensures [] _

  pub digest-Completes :
      Completes {S = S} Calls.call_digest (codes "uayfy") (codes "ay") (rpc_digest machine lib)
  unfolding rpc_digest
  digest-Completes = Ensures_bind (begin_call-Ensures _) λ _.
      Ensures_bind (in_ulong-Ensures (codes "ayfy")) λ _.
        Ensures_bind (in_byte_array-Ensures (codes "fy")) λ _.
          Ensures_bind (in_byte_buffer-Ensures machine [])
            λ _. Ensures_bind (process_call-Ensures _) λ _. out_byte_array-Ensures [] _ _ _

  pub digest_update-Completes :
      Completes {S = S} Calls.call_digest_update (codes "uay") [] (rpc_digest_update machine lib)
  unfolding rpc_digest_update
  digest_update-Completes = Ensures_bind (begin_call-Ensures _) λ _.
      Ensures_bind (in_ulong-Ensures (codes "ay")) λ _.
        Ensures_bind (in_byte_array-Ensures [])
          λ _. Ensures_bind (process_call-Ensures _) λ _. pure_ret-Ensures [] _

  pub digest_key-Completes :
      Completes {S = S} Calls.call_digest_key (codes "uu") [] (rpc_digest_key machine lib)
  unfolding rpc_digest_key
  digest_key-Completes = Ensures_bind (begin_call-Ensures _) λ _.
      Ensures_bind (in_ulong-Ensures (codes "u")) λ _.
        Ensures_bind (in_ulong-Ensures [])
          λ _. Ensures_bind (process_call-Ensures _) λ _. pure_ret-Ensures [] _

  pub digest_final-Completes :
      Completes {S = S} Calls.call_digest_final
        (codes "ufy")
        (codes "ay")
        (rpc_digest_final machine lib)
  unfolding rpc_digest_final
  digest_final-Completes = Ensures_bind (begin_call-Ensures _) λ _.
      Ensures_bind (in_ulong-Ensures (codes "fy")) λ _.
        Ensures_bind (in_byte_buffer-Ensures machine [])
          λ _. Ensures_bind (process_call-Ensures _) λ _. out_byte_array-Ensures [] _ _ _
