-- ===== src/Dispatch/Safe/Signatures.antt =====
-- The handlers of the calls on signatures keep to the table of signatures.
use pkcs11_proxy.Common.{[], codes}
use pkcs11_proxy.Calls
use pkcs11_proxy.Dispatch.Proto.{Machine}
use pkcs11_proxy.Dispatch.Library.{FunctionList}
use pkcs11_proxy.Dispatch.Calls.Signatures.{
  rpc_sign_init, rpc_sign, rpc_sign_update, rpc_sign_final, rpc_sign_recover_init, rpc_sign_recover,
  rpc_verify_init, rpc_verify, rpc_verify_update, rpc_verify_final, rpc_verify_recover_init,
  rpc_verify_recover,
}
use pkcs11_proxy.Dispatch.Ensures.{Ensures_bind, begin_call-Ensures, process_call-Ensures}
use pkcs11_proxy.Dispatch.Asked.{
  in_ulong-Ensures, in_byte_array-Ensures, in_mechanism-Ensures, in_byte_buffer-Ensures,
}
use pkcs11_proxy.Dispatch.Answered.{Completes, pure_ret-Ensures, out_byte_array-Ensures}

module _ {S : Type 0} (machine : Machine) (lib : FunctionList S) where
  pub sign_init-Completes :
      Completes {S = S} Calls.call_sign_init (codes "uMu") [] (rpc_sign_init machine lib)
  unfolding rpc_sign_init
  sign_init-Completes = Ensures_bind (begin_call-Ensures _) λ _.
      Ensures_bind (in_ulong-Ensures (codes "Mu")) λ _.
        Ensures_bind (in_mechanism-Ensures (codes "u")) λ _.
          Ensures_bind (in_ulong-Ensures [])
            λ _. Ensures_bind (process_call-Ensures _) λ _. pure_ret-Ensures [] _

  pub sign-Completes :
      Completes {S = S} Calls.call_sign (codes "uayfy") (codes "ay") (rpc_sign machine lib)
  unfolding rpc_sign
  sign-Completes = Ensures_bind (begin_call-Ensures _) λ _.
      Ensures_bind (in_ulong-Ensures (codes "ayfy")) λ _.
        Ensures_bind (in_byte_array-Ensures (codes "fy")) λ _.
          Ensures_bind (in_byte_buffer-Ensures machine [])
            λ _. Ensures_bind (process_call-Ensures _) λ _. out_byte_array-Ensures [] _ _ _

  pub sign_update-Completes :
      Completes {S = S} Calls.call_sign_update (codes "uay") [] (rpc_sign_update machine lib)
  unfolding rpc_sign_update
  sign_update-Completes = Ensures_bind (begin_call-Ensures _) λ _.
      Ensures_bind (in_ulong-Ensures (codes "ay")) λ _.
        Ensures_bind (in_byte_array-Ensures [])
          λ _. Ensures_bind (process_call-Ensures _) λ _. pure_ret-Ensures [] _

  pub sign_final-Completes :
      Completes {S = S} Calls.call_sign_final
        (codes "ufy")
        (codes "ay")
        (rpc_sign_final machine lib)
  unfolding rpc_sign_final
  sign_final-Completes = Ensures_bind (begin_call-Ensures _) λ _.
      Ensures_bind (in_ulong-Ensures (codes "fy")) λ _.
        Ensures_bind (in_byte_buffer-Ensures machine [])
          λ _. Ensures_bind (process_call-Ensures _) λ _. out_byte_array-Ensures [] _ _ _

  pub sign_recover_init-Completes :
      Completes {S = S} Calls.call_sign_recover_init
        (codes "uMu")
        []
        (rpc_sign_recover_init machine lib)
  unfolding rpc_sign_recover_init
  sign_recover_init-Completes = Ensures_bind (begin_call-Ensures _) λ _.
      Ensures_bind (in_ulong-Ensures (codes "Mu")) λ _.
        Ensures_bind (in_mechanism-Ensures (codes "u")) λ _.
          Ensures_bind (in_ulong-Ensures [])
            λ _. Ensures_bind (process_call-Ensures _) λ _. pure_ret-Ensures [] _

  pub sign_recover-Completes :
      Completes {S = S} Calls.call_sign_recover
        (codes "uayfy")
        (codes "ay")
        (rpc_sign_recover machine lib)
  unfolding rpc_sign_recover
  sign_recover-Completes = Ensures_bind (begin_call-Ensures _) λ _.
      Ensures_bind (in_ulong-Ensures (codes "ayfy")) λ _.
        Ensures_bind (in_byte_array-Ensures (codes "fy")) λ _.
          Ensures_bind (in_byte_buffer-Ensures machine [])
            λ _. Ensures_bind (process_call-Ensures _) λ _. out_byte_array-Ensures [] _ _ _

  pub verify_init-Completes :
      Completes {S = S} Calls.call_verify_init (codes "uMu") [] (rpc_verify_init machine lib)
  unfolding rpc_verify_init
  verify_init-Completes = Ensures_bind (begin_call-Ensures _) λ _.
      Ensures_bind (in_ulong-Ensures (codes "Mu")) λ _.
        Ensures_bind (in_mechanism-Ensures (codes "u")) λ _.
          Ensures_bind (in_ulong-Ensures [])
            λ _. Ensures_bind (process_call-Ensures _) λ _. pure_ret-Ensures [] _

  pub verify-Completes :
      Completes {S = S} Calls.call_verify (codes "uayay") [] (rpc_verify machine lib)
  unfolding rpc_verify
  verify-Completes = Ensures_bind (begin_call-Ensures _) λ _.
      Ensures_bind (in_ulong-Ensures (codes "ayay")) λ _.
        Ensures_bind (in_byte_array-Ensures (codes "ay")) λ _.
          Ensures_bind (in_byte_array-Ensures [])
            λ _. Ensures_bind (process_call-Ensures _) λ _. pure_ret-Ensures [] _

  pub verify_update-Completes :
      Completes {S = S} Calls.call_verify_update (codes "uay") [] (rpc_verify_update machine lib)
  unfolding rpc_verify_update
  verify_update-Completes = Ensures_bind (begin_call-Ensures _) λ _.
      Ensures_bind (in_ulong-Ensures (codes "ay")) λ _.
        Ensures_bind (in_byte_array-Ensures [])
          λ _. Ensures_bind (process_call-Ensures _) λ _. pure_ret-Ensures [] _

  pub verify_final-Completes :
      Completes {S = S} Calls.call_verify_final (codes "uay") [] (rpc_verify_final machine lib)
  unfolding rpc_verify_final
  verify_final-Completes = Ensures_bind (begin_call-Ensures _) λ _.
      Ensures_bind (in_ulong-Ensures (codes "ay")) λ _.
        Ensures_bind (in_byte_array-Ensures [])
          λ _. Ensures_bind (process_call-Ensures _) λ _. pure_ret-Ensures [] _

  pub verify_recover_init-Completes :
      Completes {S = S} Calls.call_verify_recover_init
        (codes "uMu")
        []
        (rpc_verify_recover_init machine lib)
  unfolding rpc_verify_recover_init
  verify_recover_init-Completes = Ensures_bind (begin_call-Ensures _) λ _.
      Ensures_bind (in_ulong-Ensures (codes "Mu")) λ _.
        Ensures_bind (in_mechanism-Ensures (codes "u")) λ _.
          Ensures_bind (in_ulong-Ensures [])
            λ _. Ensures_bind (process_call-Ensures _) λ _. pure_ret-Ensures [] _

  pub verify_recover-Completes :
      Completes {S = S} Calls.call_verify_recover
        (codes "uayfy")
        (codes "ay")
        (rpc_verify_recover machine lib)
  unfolding rpc_verify_recover
  verify_recover-Completes = Ensures_bind (begin_call-Ensures _) λ _.
      Ensures_bind (in_ulong-Ensures (codes "ayfy")) λ _.
        Ensures_bind (in_byte_array-Ensures (codes "fy")) λ _.
          Ensures_bind (in_byte_buffer-Ensures machine [])
            λ _. Ensures_bind (process_call-Ensures _) λ _. out_byte_array-Ensures [] _ _ _
