-- ===== src/Client/Safe/Ciphers.antt =====
-- gck-rpc-module.c: the functions for encryption and decryption keep to the table of signatures.
use pkcs11_proxy.Common.{ℕ, refl, Option, List, [], codes, arith}
use pkcs11_proxy.Pkcs11.{Mechanism, ckr_ok, ckr_cryptoki_not_initialized}
use pkcs11_proxy.Calls.{
  request_of, response_of, call_encrypt_init, call_encrypt, call_encrypt_update, call_encrypt_final,
  call_decrypt_init, call_decrypt, call_decrypt_update, call_decrypt_final,
}
use pkcs11_proxy.Client.{Module, Host}
use pkcs11_proxy.Client.Invariant.{IsPool}
use pkcs11_proxy.Client.Calls.Ciphers.{
  rpc_encrypt_init, rpc_encrypt, rpc_encrypt_update, rpc_encrypt_final, rpc_decrypt_init,
  rpc_decrypt, rpc_decrypt_update, rpc_decrypt_final,
}
use pkcs11_proxy.Client.Runs.{Runs_then, process_call-Runs, pure-Runs}
use pkcs11_proxy.Client.Returns.{Returns, begin_call-Returns, return_val_if_fail-Returns}
use pkcs11_proxy.Client.Asks.{
  in_byte_array-Runs, in_byte_buffer-Runs, in_mechanism-Runs, in_ulong-Runs,
}
use pkcs11_proxy.Client.Answers.{out_byte_array-Runs}

module _ {host : Host} {m : Module} (valid : IsPool m) where
  pub encrypt_init-Returns :
      (session : ℕ) (mechanism : Option Mechanism) (key : ℕ)
      → Returns host call_encrypt_init m (rpc_encrypt_init host session mechanism key m)
  unfolding rpc_encrypt_init request_of response_of
  encrypt_init-Returns session mechanism key =
      return_val_if_fail-Returns m.initialized ckr_cryptoki_not_initialized tt _ valid (λ _.
        begin_call-Returns host call_encrypt_init tt m (codes "uMu") _ valid (omega arith)
          (omega arith) refl
          (Runs_then (in_ulong-Runs (codes "Mu") session) (
            Runs_then (in_mechanism-Runs (codes "u") mechanism) (
              Runs_then (in_ulong-Runs [] key)
                (Runs_then (process_call-Runs [] refl) (pure-Runs (ckr_ok, tt) (λ cs h. h)))))))

  pub encrypt-Returns :
      (session : ℕ) (input : Option (List ℕ)) (input_len : ℕ) (encrypted_data : Option (List ℕ))
      (encrypted_data_len : Option ℕ)
      → Returns host call_encrypt m
          (rpc_encrypt host session input input_len encrypted_data encrypted_data_len m)
  unfolding rpc_encrypt request_of response_of
  encrypt-Returns session input input_len encrypted_data encrypted_data_len =
      return_val_if_fail-Returns m.initialized ckr_cryptoki_not_initialized
        (encrypted_data, encrypted_data_len) _ valid
        (λ _.
          begin_call-Returns host call_encrypt (encrypted_data, encrypted_data_len) m
            (codes "uayfy") _ valid (omega arith) (omega arith) refl
            (Runs_then (in_ulong-Runs (codes "ayfy") session) (
              Runs_then (in_byte_array-Runs (codes "fy") input input_len) (
                Runs_then (in_byte_buffer-Runs [] encrypted_data encrypted_data_len) (
                  Runs_then (process_call-Runs (codes "ay") refl)
                    (out_byte_array-Runs [] encrypted_data encrypted_data_len ckr_ok))))))

  pub encrypt_update-Returns :
      (session : ℕ) (part : Option (List ℕ)) (part_len : ℕ) (encrypted_part : Option (List ℕ))
      (encrypted_part_len : Option ℕ)
      → Returns host call_encrypt_update m
          (rpc_encrypt_update host session part part_len encrypted_part encrypted_part_len m)
  unfolding rpc_encrypt_update request_of response_of
  encrypt_update-Returns session part part_len encrypted_part encrypted_part_len =
      return_val_if_fail-Returns m.initialized ckr_cryptoki_not_initialized
        (encrypted_part, encrypted_part_len) _ valid
        (λ _.
          begin_call-Returns host call_encrypt_update (encrypted_part, encrypted_part_len) m
            (codes "uayfy") _ valid (omega arith) (omega arith) refl
            (Runs_then (in_ulong-Runs (codes "ayfy") session) (
              Runs_then (in_byte_array-Runs (codes "fy") part part_len) (
                Runs_then (in_byte_buffer-Runs [] encrypted_part encrypted_part_len) (
                  Runs_then (process_call-Runs (codes "ay") refl)
                    (out_byte_array-Runs [] encrypted_part encrypted_part_len ckr_ok))))))

  pub encrypt_final-Returns :
      (session : ℕ) (last_part : Option (List ℕ)) (last_part_len : Option ℕ)
      → Returns host call_encrypt_final m (rpc_encrypt_final host session last_part last_part_len m)
  unfolding rpc_encrypt_final request_of response_of
  encrypt_final-Returns session last_part last_part_len =
      return_val_if_fail-Returns m.initialized ckr_cryptoki_not_initialized
        (last_part, last_part_len) _ valid
        (λ _.
          begin_call-Returns host call_encrypt_final (last_part, last_part_len) m (codes "ufy") _
            valid (omega arith) (omega arith) refl
            (Runs_then (in_ulong-Runs (codes "fy") session) (
              Runs_then (in_byte_buffer-Runs [] last_part last_part_len) (
                Runs_then (process_call-Runs (codes "ay") refl)
                  (out_byte_array-Runs [] last_part last_part_len ckr_ok)))))

  pub decrypt_init-Returns :
      (session : ℕ) (mechanism : Option Mechanism) (key : ℕ)
      → Returns host call_decrypt_init m (rpc_decrypt_init host session mechanism key m)
  unfolding rpc_decrypt_init request_of response_of
  decrypt_init-Returns session mechanism key =
      return_val_if_fail-Returns m.initialized ckr_cryptoki_not_initialized tt _ valid (λ _.
        begin_call-Returns host call_decrypt_init tt m (codes "uMu") _ valid (omega arith)
          (omega arith) refl
          (Runs_then (in_ulong-Runs (codes "Mu") session) (
            Runs_then (in_mechanism-Runs (codes "u") mechanism) (
              Runs_then (in_ulong-Runs [] key)
                (Runs_then (process_call-Runs [] refl) (pure-Runs (ckr_ok, tt) (λ cs h. h)))))))

  pub decrypt-Returns :
      (session : ℕ) (enc_data : Option (List ℕ)) (enc_data_len : ℕ) (input : Option (List ℕ))
      (input_len : Option ℕ)
      → Returns host call_decrypt m
          (rpc_decrypt host session enc_data enc_data_len input input_len m)
  unfolding rpc_decrypt request_of response_of
  decrypt-Returns session enc_data enc_data_len input input_len =
      return_val_if_fail-Returns m.initialized ckr_cryptoki_not_initialized (input, input_len) _
        valid
        (λ _.
          begin_call-Returns host call_decrypt (input, input_len) m (codes "uayfy") _ valid
            (omega arith) (omega arith) refl
            (Runs_then (in_ulong-Runs (codes "ayfy") session) (
              Runs_then (in_byte_array-Runs (codes "fy") enc_data enc_data_len) (
                Runs_then (in_byte_buffer-Runs [] input input_len) (
                  Runs_then (process_call-Runs (codes "ay") refl)
                    (out_byte_array-Runs [] input input_len ckr_ok))))))

  pub decrypt_update-Returns :
      (session : ℕ) (enc_part : Option (List ℕ)) (enc_part_len : ℕ) (part : Option (List ℕ))
      (part_len : Option ℕ)
      → Returns host call_decrypt_update m
          (rpc_decrypt_update host session enc_part enc_part_len part part_len m)
  unfolding rpc_decrypt_update request_of response_of
  decrypt_update-Returns session enc_part enc_part_len part part_len =
      return_val_if_fail-Returns m.initialized ckr_cryptoki_not_initialized (part, part_len) _ valid
        (λ _.
          begin_call-Returns host call_decrypt_update (part, part_len) m (codes "uayfy") _ valid
            (omega arith) (omega arith) refl
            (Runs_then (in_ulong-Runs (codes "ayfy") session) (
              Runs_then (in_byte_array-Runs (codes "fy") enc_part enc_part_len) (
                Runs_then (in_byte_buffer-Runs [] part part_len) (
                  Runs_then (process_call-Runs (codes "ay") refl)
                    (out_byte_array-Runs [] part part_len ckr_ok))))))

  pub decrypt_final-Returns :
      (session : ℕ) (last_part : Option (List ℕ)) (last_part_len : Option ℕ)
      → Returns host call_decrypt_final m (rpc_decrypt_final host session last_part last_part_len m)
  unfolding rpc_decrypt_final request_of response_of
  decrypt_final-Returns session last_part last_part_len =
      return_val_if_fail-Returns m.initialized ckr_cryptoki_not_initialized
        (last_part, last_part_len) _ valid
        (λ _.
          begin_call-Returns host call_decrypt_final (last_part, last_part_len) m (codes "ufy") _
            valid (omega arith) (omega arith) refl
            (Runs_then (in_ulong-Runs (codes "fy") session) (
              Runs_then (in_byte_buffer-Runs [] last_part last_part_len) (
                Runs_then (process_call-Runs (codes "ay") refl)
                  (out_byte_array-Runs [] last_part last_part_len ckr_ok)))))
