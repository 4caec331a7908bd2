-- ===== src/Dispatch/Safe/Ciphers.antt =====
-- The handlers of the calls on encryption and decryption keep to the table of signatures.
use pkcs11_proxy.Common.{[], codes}
use pkcs11_proxy.Calls
use pkcs11_proxy.Dispatch.Proto.{Machine}
use pkcs11_proxy.Dispatch.Library.{FunctionList}
use pkcs11_proxy.Dispatch.Calls.Ciphers.{
  rpc_encrypt_init, rpc_encrypt, rpc_encrypt_update, rpc_encrypt_final, rpc_decrypt_init,
  rpc_decrypt, rpc_decrypt_update, rpc_decrypt_final,
}
use pkcs11_proxy.Dispatch.Ensures.{Ensures_bind, begin_call-Ensures, process_call-Ensures}
use pkcs11_proxy.Dispatch.Asked.{
  in_ulong-Ensures, in_byte_array-Ensures, in_mechanism-Ensures, in_byte_buffer-Ensures,
}
use pkcs11_proxy.Dispatch.Answered.{Completes, pure_ret-Ensures, out_byte_array-Ensures}

module _ {S : Type 0} (machine : Machine) (lib : FunctionList S) where
  pub encrypt_init-Completes :
      Completes {S = S} Calls.call_encrypt_init (codes "uMu") [] (rpc_encrypt_init machine lib)
  unfolding rpc_encrypt_init
  encrypt_init-Completes = Ensures_bind (begin_call-Ensures _) λ _.
      Ensures_bind (in_ulong-Ensures (codes "Mu")) λ _.
        Ensures_bind (in_mechanism-Ensures (codes "u")) λ _.
          Ensures_bind (in_ulong-Ensures [])
            λ _. Ensures_bind (process_call-Ensures _) λ _. pure_ret-Ensures [] _

  pub encrypt-Completes :
      Completes {S = S} Calls.call_encrypt (codes "uayfy") (codes "ay") (rpc_encrypt machine lib)
  unfolding rpc_encrypt
  encrypt-Completes = Ensures_bind (begin_call-Ensures _) λ _.
      Ensures_bind (in_ulong-Ensures (codes "ayfy")) λ _.
        Ensures_bind (in_byte_array-Ensures (codes "fy")) λ _.
          Ensures_bind (in_byte_buffer-Ensures machine [])
            λ _. Ensures_bind (process_call-Ensures _) λ _. out_byte_array-Ensures [] _ _ _

  pub encrypt_update-Completes :
      Completes {S = S} Calls.call_encrypt_update
        (codes "uayfy")
        (codes "ay")
        (rpc_encrypt_update machine lib)
  unfolding rpc_encrypt_update
  encrypt_update-Completes = Ensures_bind (begin_call-Ensures _) λ _.
      Ensures_bind (in_ulong-Ensures (codes "ayfy")) λ _.
        Ensures_bind (in_byte_array-Ensures (codes "fy")) λ _.
          Ensures_bind (in_byte_buffer-Ensures machine [])
            λ _. Ensures_bind (process_call-Ensures _) λ _. out_byte_array-Ensures [] _ _ _

  pub encrypt_final-Completes :
      Completes {S = S} Calls.call_encrypt_final
        (codes "ufy")
        (codes "ay")
        (rpc_encrypt_final machine lib)
  unfolding rpc_encrypt_final
  encrypt_final-Completes = Ensures_bind (begin_call-Ensures _) λ _.
      Ensures_bind (in_ulong-Ensures (codes "fy")) λ _.
        Ensures_bind (in_byte_buffer-Ensures machine [])
          λ _. Ensures_bind (process_call-Ensures _) λ _. out_byte_array-Ensures [] _ _ _

  pub decrypt_init-Completes :
      Completes {S = S} Calls.call_decrypt_init (codes "uMu") [] (rpc_decrypt_init machine lib)
  unfolding rpc_decrypt_init
  decrypt_init-Completes = Ensures_bind (begin_call-Ensures _) λ _.
      Ensures_bind (in_ulong-Ensures (codes "Mu")) λ _.
        Ensures_bind (in_mechanism-Ensures (codes "u")) λ _.
          Ensures_bind (in_ulong-Ensures [])
            λ _. Ensures_bind (process_call-Ensures _) λ _. pure_ret-Ensures [] _

  pub decrypt-Completes :
      Completes {S = S} Calls.call_decrypt (codes "uayfy") (codes "ay") (rpc_decrypt machine lib)
  unfolding rpc_decrypt
  decrypt-Completes = Ensures_bind (begin_call-Ensures _) λ _.
      Ensures_bind (in_ulong-Ensures (codes "ayfy")) λ _.
        Ensures_bind (in_byte_array-Ensures (codes "fy")) λ _.
          Ensures_bind (in_byte_buffer-Ensures machine [])
            λ _. Ensures_bind (process_call-Ensures _) λ _. out_byte_array-Ensures [] _ _ _

  pub decrypt_update-Completes :
      Completes {S = S} Calls.call_decrypt_update
        (codes "uayfy")
        (codes "ay")
        (rpc_decrypt_update machine lib)
  unfolding rpc_decrypt_update
  decrypt_update-Completes = Ensures_bind (begin_call-Ensures _) λ _.
      Ensures_bind (in_ulong-Ensures (codes "ayfy")) λ _.
        Ensures_bind (in_byte_array-Ensures (codes "fy")) λ _.
          Ensures_bind (in_byte_buffer-Ensures machine [])
            λ _. Ensures_bind (process_call-Ensures _) λ _. out_byte_array-Ensures [] _ _ _

  pub decrypt_final-Completes :
      Completes {S = S} Calls.call_decrypt_final
        (codes "ufy")
        (codes "ay")
        (rpc_decrypt_final machine lib)
  unfolding rpc_decrypt_final
  decrypt_final-Completes = Ensures_bind (begin_call-Ensures _) λ _.
      Ensures_bind (in_ulong-Ensures (codes "fy")) λ _.
        Ensures_bind (in_byte_buffer-Ensures machine [])
          λ _. Ensures_bind (process_call-Ensures _) λ _. out_byte_array-Ensures [] _ _ _
