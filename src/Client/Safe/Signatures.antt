-- ===== src/Client/Safe/Signatures.antt =====
-- gck-rpc-module.c: the functions for signatures keep to the table of signatures.
use pkcs11_proxy.Common.{ℕ, refl, not, Option, List, [], codes, ◌==◌, arith}
use pkcs11_proxy.Pkcs11.{Mechanism, ckr_ok, ckr_arguments_bad, ckr_cryptoki_not_initialized}
use pkcs11_proxy.Calls.{
  request_of, response_of, call_sign_init, call_sign, call_sign_update, call_sign_final,
  call_sign_recover_init, call_sign_recover, call_verify_init, call_verify, call_verify_update,
  call_verify_final, call_verify_recover_init, call_verify_recover,
}
use pkcs11_proxy.Client.{Module, Host}
use pkcs11_proxy.Client.Invariant.{IsPool}
use pkcs11_proxy.Client.Calls.Signatures.{
  rpc_sign_init, rpc_sign, rpc_sign_update, rpc_sign_final, rpc_sign_recover_init, rpc_sign_recover,
  rpc_verify_init, rpc_verify, rpc_verify_update, rpc_verify_final, rpc_verify_recover_init,
  rpc_verify_recover,
}
use pkcs11_proxy.Client.Runs.{Runs_then, process_call-Runs, pure-Runs}
use pkcs11_proxy.Client.Returns.{Returns, begin_call-Returns, return_val_if_fail-Returns}
use pkcs11_proxy.Client.Asks.{
  in_byte_array-Runs, in_byte_buffer-Runs, in_mechanism-Runs, in_ulong-Runs,
}
use pkcs11_proxy.Client.Answers.{out_byte_array-Runs}

module _ {host : Host} {m : Module} (valid : IsPool m) where
  pub sign_init-Returns :
      (session : ℕ) (mechanism : Option Mechanism) (key : ℕ)
      → Returns host call_sign_init m (rpc_sign_init host session mechanism key m)
  unfolding rpc_sign_init request_of response_of
  sign_init-Returns session mechanism key =
      return_val_if_fail-Returns m.initialized ckr_cryptoki_not_initialized tt _ valid (λ _.
        begin_call-Returns host call_sign_init tt m (codes "uMu") _ valid (omega arith)
          (omega arith) refl
          (Runs_then (in_ulong-Runs (codes "Mu") session) (
            Runs_then (in_mechanism-Runs (codes "u") mechanism) (
              Runs_then (in_ulong-Runs [] key)
                (Runs_then (process_call-Runs [] refl) (pure-Runs (ckr_ok, tt) (λ cs h. h)))))))

  pub sign-Returns :
      (session : ℕ) (input : Option (List ℕ)) (input_len : ℕ) (sig : Option (List ℕ))
      (sig_len : Option ℕ)
      → Returns host call_sign m (rpc_sign host session input input_len sig sig_len m)
  unfolding rpc_sign request_of response_of
  sign-Returns session input input_len sig sig_len =
      return_val_if_fail-Returns m.initialized ckr_cryptoki_not_initialized (sig, sig_len) _ valid
        (λ _.
          begin_call-Returns host call_sign (sig, sig_len) m (codes "uayfy") _ valid (omega arith)
            (omega arith) refl
            (Runs_then (in_ulong-Runs (codes "ayfy") session) (
              Runs_then (in_byte_array-Runs (codes "fy") input input_len) (
                Runs_then (in_byte_buffer-Runs [] sig sig_len) (
                  Runs_then (process_call-Runs (codes "ay") refl)
                    (out_byte_array-Runs [] sig sig_len ckr_ok))))))

  pub sign_update-Returns :
      (session : ℕ) (part : Option (List ℕ)) (part_len : ℕ)
      → Returns host call_sign_update m (rpc_sign_update host session part part_len m)
  unfolding rpc_sign_update request_of response_of
  sign_update-Returns session part part_len =
      return_val_if_fail-Returns m.initialized ckr_cryptoki_not_initialized tt _ valid (λ _.
        return_val_if_fail-Returns (not (part_len == 0)) ckr_arguments_bad tt _ valid (λ _.
          begin_call-Returns host call_sign_update tt m (codes "uay") _ valid (omega arith)
            (omega arith) refl
            (Runs_then (in_ulong-Runs (codes "ay") session) (
              Runs_then (in_byte_array-Runs [] part part_len)
                (Runs_then (process_call-Runs [] refl) (pure-Runs (ckr_ok, tt) (λ cs h. h)))))))

  pub sign_final-Returns :
      (session : ℕ) (sig : Option (List ℕ)) (sig_len : Option ℕ)
      → Returns host call_sign_final m (rpc_sign_final host session sig sig_len m)
  unfolding rpc_sign_final request_of response_of
  sign_final-Returns session sig sig_len =
      return_val_if_fail-Returns m.initialized ckr_cryptoki_not_initialized (sig, sig_len) _ valid
        (λ _.
          begin_call-Returns host call_sign_final (sig, sig_len) m (codes "ufy") _ valid
            (omega arith) (omega arith) refl
            (Runs_then (in_ulong-Runs (codes "fy") session) (
              Runs_then (in_byte_buffer-Runs [] sig sig_len) (
                Runs_then (process_call-Runs (codes "ay") refl)
                  (out_byte_array-Runs [] sig sig_len ckr_ok)))))

  pub sign_recover_init-Returns :
      (session : ℕ) (mechanism : Option Mechanism) (key : ℕ)
      → Returns host call_sign_recover_init m (rpc_sign_recover_init host session mechanism key m)
  unfolding rpc_sign_recover_init request_of response_of
  sign_recover_init-Returns session mechanism key =
      return_val_if_fail-Returns m.initialized ckr_cryptoki_not_initialized tt _ valid (λ _.
        begin_call-Returns host call_sign_recover_init tt m (codes "uMu") _ valid (omega arith)
          (omega arith) refl
          (Runs_then (in_ulong-Runs (codes "Mu") session) (
            Runs_then (in_mechanism-Runs (codes "u") mechanism) (
              Runs_then (in_ulong-Runs [] key)
                (Runs_then (process_call-Runs [] refl) (pure-Runs (ckr_ok, tt) (λ cs h. h)))))))

  pub sign_recover-Returns :
      (session : ℕ) (input : Option (List ℕ)) (input_len : ℕ) (sig : Option (List ℕ))
      (sig_len : Option ℕ)
      → Returns host call_sign_recover m
          (rpc_sign_recover host session input input_len sig sig_len m)
  unfolding rpc_sign_recover request_of response_of
  sign_recover-Returns session input input_len sig sig_len =
      return_val_if_fail-Returns m.initialized ckr_cryptoki_not_initialized (sig, sig_len) _ valid
        (λ _.
          begin_call-Returns host call_sign_recover (sig, sig_len) m (codes "uayfy") _ valid
            (omega arith) (omega arith) refl
            (Runs_then (in_ulong-Runs (codes "ayfy") session) (
              Runs_then (in_byte_array-Runs (codes "fy") input input_len) (
                Runs_then (in_byte_buffer-Runs [] sig sig_len) (
                  Runs_then (process_call-Runs (codes "ay") refl)
                    (out_byte_array-Runs [] sig sig_len ckr_ok))))))

  pub verify_init-Returns :
      (session : ℕ) (mechanism : Option Mechanism) (key : ℕ)
      → Returns host call_verify_init m (rpc_verify_init host session mechanism key m)
  unfolding rpc_verify_init request_of response_of
  verify_init-Returns session mechanism key =
      return_val_if_fail-Returns m.initialized ckr_cryptoki_not_initialized tt _ valid (λ _.
        begin_call-Returns host call_verify_init tt m (codes "uMu") _ valid (omega arith)
          (omega arith) refl
          (Runs_then (in_ulong-Runs (codes "Mu") session) (
            Runs_then (in_mechanism-Runs (codes "u") mechanism) (
              Runs_then (in_ulong-Runs [] key)
                (Runs_then (process_call-Runs [] refl) (pure-Runs (ckr_ok, tt) (λ cs h. h)))))))

  pub verify-Returns :
      (session : ℕ) (input : Option (List ℕ)) (input_len : ℕ) (sig : Option (List ℕ)) (sig_len : ℕ)
      → Returns host call_verify m (rpc_verify host session input input_len sig sig_len m)
  unfolding rpc_verify request_of response_of
  verify-Returns session input input_len sig sig_len =
      return_val_if_fail-Returns m.initialized ckr_cryptoki_not_initialized tt _ valid (λ _.
        begin_call-Returns host call_verify tt m (codes "uayay") _ valid (omega arith) (omega arith)
          refl
          (Runs_then (in_ulong-Runs (codes "ayay") session) (
            Runs_then (in_byte_array-Runs (codes "ay") input input_len) (
              Runs_then (in_byte_array-Runs [] sig sig_len)
                (Runs_then (process_call-Runs [] refl) (pure-Runs (ckr_ok, tt) (λ cs h. h)))))))

  pub verify_update-Returns :
      (session : ℕ) (part : Option (List ℕ)) (part_len : ℕ)
      → Returns host call_verify_update m (rpc_verify_update host session part part_len m)
  unfolding rpc_verify_update request_of response_of
  verify_update-Returns session part part_len =
      return_val_if_fail-Returns m.initialized ckr_cryptoki_not_initialized tt _ valid (λ _.
        begin_call-Returns host call_verify_update tt m (codes "uay") _ valid (omega arith)
          (omega arith) refl
          (Runs_then (in_ulong-Runs (codes "ay") session) (
            Runs_then (in_byte_array-Runs [] part part_len)
              (Runs_then (process_call-Runs [] refl) (pure-Runs (ckr_ok, tt) (λ cs h. h))))))

  pub verify_final-Returns :
      (session : ℕ) (sig : Option (List ℕ)) (sig_len : ℕ)
      → Returns host call_verify_final m (rpc_verify_final host session sig sig_len m)
  unfolding rpc_verify_final request_of response_of
  verify_final-Returns session sig sig_len =
      return_val_if_fail-Returns m.initialized ckr_cryptoki_not_initialized tt _ valid (λ _.
        begin_call-Returns host call_verify_final tt m (codes "uay") _ valid (omega arith)
          (omega arith) refl
          (Runs_then (in_ulong-Runs (codes "ay") session) (
            Runs_then (in_byte_array-Runs [] sig sig_len)
              (Runs_then (process_call-Runs [] refl) (pure-Runs (ckr_ok, tt) (λ cs h. h))))))

  pub verify_recover_init-Returns :
      (session : ℕ) (mechanism : Option Mechanism) (key : ℕ)
      → Returns host call_verify_recover_init m
          (rpc_verify_recover_init host session mechanism key m)
  unfolding rpc_verify_recover_init request_of response_of
  verify_recover_init-Returns session mechanism key =
      return_val_if_fail-Returns m.initialized ckr_cryptoki_not_initialized tt _ valid (λ _.
        begin_call-Returns host call_verify_recover_init tt m (codes "uMu") _ valid (omega arith)
          (omega arith) refl
          (Runs_then (in_ulong-Runs (codes "Mu") session) (
            Runs_then (in_mechanism-Runs (codes "u") mechanism) (
              Runs_then (in_ulong-Runs [] key)
                (Runs_then (process_call-Runs [] refl) (pure-Runs (ckr_ok, tt) (λ cs h. h)))))))

  pub verify_recover-Returns :
      (session : ℕ) (sig : Option (List ℕ)) (sig_len : ℕ) (input : Option (List ℕ))
      (input_len : Option ℕ)
      → Returns host call_verify_recover m
          (rpc_verify_recover host session sig sig_len input input_len m)
  unfolding rpc_verify_recover request_of response_of
  verify_recover-Returns session sig sig_len input input_len =
      return_val_if_fail-Returns m.initialized ckr_cryptoki_not_initialized (input, input_len) _
        valid
        (λ _.
          begin_call-Returns host call_verify_recover (input, input_len) m (codes "uayfy") _ valid
            (omega arith) (omega arith) refl
            (Runs_then (in_ulong-Runs (codes "ayfy") session) (
              Runs_then (in_byte_array-Runs (codes "fy") sig sig_len) (
                Runs_then (in_byte_buffer-Runs [] input input_len) (
                  Runs_then (process_call-Runs (codes "ay") refl)
                    (out_byte_array-Runs [] input input_len ckr_ok))))))
