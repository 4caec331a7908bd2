-- ===== src/Client/Safe/Combined.antt =====
-- gck-rpc-module.c: the functions for two operations at once keep to the table of signatures.
use pkcs11_proxy.Common.{ℕ, refl, Option, List, [], codes, arith}
use pkcs11_proxy.Pkcs11.{ckr_ok, ckr_cryptoki_not_initialized}
use pkcs11_proxy.Calls.{
  request_of, response_of, call_digest_encrypt_update, call_decrypt_digest_update,
  call_sign_encrypt_update, call_decrypt_verify_update,
}
use pkcs11_proxy.Client.{Module, Host}
use pkcs11_proxy.Client.Invariant.{IsPool}
use pkcs11_proxy.Client.Calls.Combined.{
  rpc_digest_encrypt_update, rpc_decrypt_digest_update, rpc_sign_encrypt_update,
  rpc_decrypt_verify_update,
}
use pkcs11_proxy.Client.Runs.{Runs_then, process_call-Runs}
use pkcs11_proxy.Client.Returns.{Returns, begin_call-Returns, return_val_if_fail-Returns}
use pkcs11_proxy.Client.Asks.{in_byte_array-Runs, in_byte_buffer-Runs, in_ulong-Runs}
use pkcs11_proxy.Client.Answers.{out_byte_array-Runs}

module _ {host : Host} {m : Module} (valid : IsPool m) where
  pub digest_encrypt_update-Returns :
      (session : ℕ) (part : Option (List ℕ)) (part_len : ℕ) (enc_part : Option (List ℕ))
      (enc_part_len : Option ℕ)
      → Returns host call_digest_encrypt_update m
          (rpc_digest_encrypt_update host session part part_len enc_part enc_part_len m)
  unfolding rpc_digest_encrypt_update request_of response_of
  digest_encrypt_update-Returns session part part_len enc_part enc_part_len =
      return_val_if_fail-Returns m.initialized ckr_cryptoki_not_initialized (enc_part, enc_part_len)
        _ valid
        (λ _.
          begin_call-Returns host call_digest_encrypt_update (enc_part, enc_part_len) m
            (codes "uayfy") _ valid (omega arith) (omega arith) refl
            (Runs_then (in_ulong-Runs (codes "ayfy") session) (
              Runs_then (in_byte_array-Runs (codes "fy") part part_len) (
                Runs_then (in_byte_buffer-Runs [] enc_part enc_part_len) (
                  Runs_then (process_call-Runs (codes "ay") refl)
                    (out_byte_array-Runs [] enc_part enc_part_len ckr_ok))))))

  pub decrypt_digest_update-Returns :
      (session : ℕ) (enc_part : Option (List ℕ)) (enc_part_len : ℕ) (part : Option (List ℕ))
      (part_len : Option ℕ)
      → Returns host call_decrypt_digest_update m
          (rpc_decrypt_digest_update host session enc_part enc_part_len part part_len m)
  unfolding rpc_decrypt_digest_update request_of response_of
  decrypt_digest_update-Returns session enc_part enc_part_len part part_len =
      return_val_if_fail-Returns m.initialized ckr_cryptoki_not_initialized (part, part_len) _ valid
        (λ _.
          begin_call-Returns host call_decrypt_digest_update (part, part_len) m (codes "uayfy") _
            valid (omega arith) (omega arith) refl
            (Runs_then (in_ulong-Runs (codes "ayfy") session) (
              Runs_then (in_byte_array-Runs (codes "fy") enc_part enc_part_len) (
                Runs_then (in_byte_buffer-Runs [] part part_len) (
                  Runs_then (process_call-Runs (codes "ay") refl)
                    (out_byte_array-Runs [] part part_len ckr_ok))))))

  pub sign_encrypt_update-Returns :
      (session : ℕ) (part : Option (List ℕ)) (part_len : ℕ) (enc_part : Option (List ℕ))
      (enc_part_len : Option ℕ)
      → Returns host call_sign_encrypt_update m
          (rpc_sign_encrypt_update host session part part_len enc_part enc_part_len m)
  unfolding rpc_sign_encrypt_update request_of response_of
  sign_encrypt_update-Returns session part part_len enc_part enc_part_len =
      return_val_if_fail-Returns m.initialized ckr_cryptoki_not_initialized (enc_part, enc_part_len)
        _ valid
        (λ _.
          begin_call-Returns host call_sign_encrypt_update (enc_part, enc_part_len) m
            (codes "uayfy") _ valid (omega arith) (omega arith) refl
            (Runs_then (in_ulong-Runs (codes "ayfy") session) (
              Runs_then (in_byte_array-Runs (codes "fy") part part_len) (
                Runs_then (in_byte_buffer-Runs [] enc_part enc_part_len) (
                  Runs_then (process_call-Runs (codes "ay") refl)
                    (out_byte_array-Runs [] enc_part enc_part_len ckr_ok))))))

  pub decrypt_verify_update-Returns :
      (session : ℕ) (enc_part : Option (List ℕ)) (enc_part_len : ℕ) (part : Option (List ℕ))
      (part_len : Option ℕ)
      → Returns host call_decrypt_verify_update m
          (rpc_decrypt_verify_update host session enc_part enc_part_len part part_len m)
  unfolding rpc_decrypt_verify_update request_of response_of
  decrypt_verify_update-Returns session enc_part enc_part_len part part_len =
      return_val_if_fail-Returns m.initialized ckr_cryptoki_not_initialized (part, part_len) _ valid
        (λ _.
          begin_call-Returns host call_decrypt_verify_update (part, part_len) m (codes "uayfy") _
            valid (omega arith) (omega arith) refl
            (Runs_then (in_ulong-Runs (codes "ayfy") session) (
              Runs_then (in_byte_array-Runs (codes "fy") enc_part enc_part_len) (
                Runs_then (in_byte_buffer-Runs [] part part_len) (
                  Runs_then (process_call-Runs (codes "ay") refl)
                    (out_byte_array-Runs [] part part_len ckr_ok))))))
