-- ===== src/Dispatch/Safe/Combined.antt =====
-- The handlers of the calls on two operations in one call keep to the table of signatures.
use pkcs11_proxy.Common.{[], codes}
use pkcs11_proxy.Calls
use pkcs11_proxy.Dispatch.Proto.{Machine}
use pkcs11_proxy.Dispatch.Library.{FunctionList}
use pkcs11_proxy.Dispatch.Calls.Combined.{
  rpc_digest_encrypt_update, rpc_decrypt_digest_update, rpc_sign_encrypt_update,
  rpc_decrypt_verify_update,
}
use pkcs11_proxy.Dispatch.Ensures.{Ensures_bind, begin_call-Ensures, process_call-Ensures}
use pkcs11_proxy.Dispatch.Asked.{in_ulong-Ensures, in_byte_array-Ensures, in_byte_buffer-Ensures}
use pkcs11_proxy.Dispatch.Answered.{Completes, out_byte_array-Ensures}

module _ {S : Type 0} (machine : Machine) (lib : FunctionList S) where
  pub digest_encrypt_update-Completes :
      Completes {S = S} Calls.call_digest_encrypt_update
        (codes "uayfy")
        (codes "ay")
        (rpc_digest_encrypt_update machine lib)
  unfolding rpc_digest_encrypt_update
  digest_encrypt_update-Completes = Ensures_bind (begin_call-Ensures _) λ _.
      Ensures_bind (in_ulong-Ensures (codes "ayfy")) λ _.
        Ensures_bind (in_byte_array-Ensures (codes "fy")) λ _.
          Ensures_bind (in_byte_buffer-Ensures machine [])
            λ _. Ensures_bind (process_call-Ensures _) λ _. out_byte_array-Ensures [] _ _ _

  pub decrypt_digest_update-Completes :
      Completes {S = S} Calls.call_decrypt_digest_update
        (codes "uayfy")
        (codes "ay")
        (rpc_decrypt_digest_update machine lib)
  unfolding rpc_decrypt_digest_update
  decrypt_digest_update-Completes = Ensures_bind (begin_call-Ensures _) λ _.
      Ensures_bind (in_ulong-Ensures (codes "ayfy")) λ _.
        Ensures_bind (in_byte_array-Ensures (codes "fy")) λ _.
          Ensures_bind (in_byte_buffer-Ensures machine [])
            λ _. Ensures_bind (process_call-Ensures _) λ _. out_byte_array-Ensures [] _ _ _

  pub sign_encrypt_update-Completes :
      Completes {S = S} Calls.call_sign_encrypt_update
        (codes "uayfy")
        (codes "ay")
        (rpc_sign_encrypt_update machine lib)
  unfolding rpc_sign_encrypt_update
  sign_encrypt_update-Completes = Ensures_bind (begin_call-Ensures _) λ _.
      Ensures_bind (in_ulong-Ensures (codes "ayfy")) λ _.
        Ensures_bind (in_byte_array-Ensures (codes "fy")) λ _.
          Ensures_bind (in_byte_buffer-Ensures machine [])
            λ _. Ensures_bind (process_call-Ensures _) λ _. out_byte_array-Ensures [] _ _ _

  pub decrypt_verify_update-Completes :
      Completes {S = S} Calls.call_decrypt_verify_update
        (codes "uayfy")
        (codes "ay")
        (rpc_decrypt_verify_update machine lib)
  unfolding rpc_decrypt_verify_update
  decrypt_verify_update-Completes = Ensures_bind (begin_call-Ensures _) λ _.
      Ensures_bind (in_ulong-Ensures (codes "ayfy")) λ _.
        Ensures_bind (in_byte_array-Ensures (codes "fy")) λ _.
          Ensures_bind (in_byte_buffer-Ensures machine [])
            λ _. Ensures_bind (process_call-Ensures _) λ _. out_byte_array-Ensures [] _ _ _
