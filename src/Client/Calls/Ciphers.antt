-- ===== src/Client/Calls/Ciphers.antt =====
-- gck-rpc-module.c: the functions of the module for encryption and decryption.
use pkcs11_proxy.Common.{ℕ, Option, List}
use pkcs11_proxy.Pkcs11.{Mechanism, ckr_ok, ckr_cryptoki_not_initialized}
use pkcs11_proxy.Calls.{
  call_encrypt_init, call_encrypt, call_encrypt_update, call_encrypt_final, call_decrypt_init,
  call_decrypt, call_decrypt_update, call_decrypt_final,
}
use pkcs11_proxy.Client.{Module, Host}
use pkcs11_proxy.Client.Course.{Course}
use pkcs11_proxy.Client.Caller.{◌>>◌, pure}
use pkcs11_proxy.Client.Begin.{begin_call, process_call, return_val_if_fail}
use pkcs11_proxy.Client.Proto.{in_ulong, in_byte_buffer, in_byte_array, in_mechanism}
use pkcs11_proxy.Client.Results.{Stored, out_byte_array}

module _ (host : Host) where
  unfoldable pub rpc_encrypt_init :
      ℕ → Option Mechanism → ℕ → Module → Course (Module × ℕ × Unit {0})
  rpc_encrypt_init session mechanism key m =
      return_val_if_fail m.initialized ckr_cryptoki_not_initialized tt
        (begin_call host call_encrypt_init tt (do
          in_ulong session
          in_mechanism mechanism
          in_ulong key
          process_call host
          pure (ckr_ok, tt)))
        m

  unfoldable pub rpc_encrypt :
      ℕ → Option (List ℕ) → ℕ → Option (List ℕ) → Option ℕ → Module → Course (Module × ℕ × Stored)
  rpc_encrypt session input input_len encrypted_data encrypted_data_len m =
      return_val_if_fail m.initialized ckr_cryptoki_not_initialized
        (encrypted_data, encrypted_data_len)
        (begin_call host call_encrypt (encrypted_data, encrypted_data_len)
          (do
            in_ulong session
            in_byte_array input input_len
            in_byte_buffer encrypted_data encrypted_data_len
            process_call host
            out_byte_array encrypted_data encrypted_data_len ckr_ok))
        m

  unfoldable pub rpc_encrypt_update :
      ℕ → Option (List ℕ) → ℕ → Option (List ℕ) → Option ℕ → Module → Course (Module × ℕ × Stored)
  rpc_encrypt_update session part part_len encrypted_part encrypted_part_len m =
      return_val_if_fail m.initialized ckr_cryptoki_not_initialized
        (encrypted_part, encrypted_part_len)
        (begin_call host call_encrypt_update (encrypted_part, encrypted_part_len)
          (do
            in_ulong session
            in_byte_array part part_len
            in_byte_buffer encrypted_part encrypted_part_len
            process_call host
            out_byte_array encrypted_part encrypted_part_len ckr_ok))
        m

  unfoldable pub rpc_encrypt_final :
      ℕ → Option (List ℕ) → Option ℕ → Module → Course (Module × ℕ × Stored)
  rpc_encrypt_final session last_part last_part_len m =
      return_val_if_fail m.initialized ckr_cryptoki_not_initialized (last_part, last_part_len)
        (begin_call host call_encrypt_final (last_part, last_part_len)
          (do
            in_ulong session
            in_byte_buffer last_part last_part_len
            process_call host
            out_byte_array last_part last_part_len ckr_ok))
        m

  unfoldable pub rpc_decrypt_init :
      ℕ → Option Mechanism → ℕ → Module → Course (Module × ℕ × Unit {0})
  rpc_decrypt_init session mechanism key m =
      return_val_if_fail m.initialized ckr_cryptoki_not_initialized tt
        (begin_call host call_decrypt_init tt (do
          in_ulong session
          in_mechanism mechanism
          in_ulong key
          process_call host
          pure (ckr_ok, tt)))
        m

  unfoldable pub rpc_decrypt :
      ℕ → Option (List ℕ) → ℕ → Option (List ℕ) → Option ℕ → Module → Course (Module × ℕ × Stored)
  rpc_decrypt session enc_data enc_data_len input input_len m =
      return_val_if_fail m.initialized ckr_cryptoki_not_initialized (input, input_len)
        (begin_call host call_decrypt (input, input_len)
          (do
            in_ulong session
            in_byte_array enc_data enc_data_len
            in_byte_buffer input input_len
            process_call host
            out_byte_array input input_len ckr_ok))
        m

  unfoldable pub rpc_decrypt_update :
      ℕ → Option (List ℕ) → ℕ → Option (List ℕ) → Option ℕ → Module → Course (Module × ℕ × Stored)
  rpc_decrypt_update session enc_part enc_part_len part part_len m =
      return_val_if_fail m.initialized ckr_cryptoki_not_initialized (part, part_len)
        (begin_call host call_decrypt_update (part, part_len)
          (do
            in_ulong session
            in_byte_array enc_part enc_part_len
            in_byte_buffer part part_len
            process_call host
            out_byte_array part part_len ckr_ok))
        m

  unfoldable pub rpc_decrypt_final :
      ℕ → Option (List ℕ) → Option ℕ → Module → Course (Module × ℕ × Stored)
  rpc_decrypt_final session last_part last_part_len m =
      return_val_if_fail m.initialized ckr_cryptoki_not_initialized (last_part, last_part_len)
        (begin_call host call_decrypt_final (last_part, last_part_len)
          (do
            in_ulong session
            in_byte_buffer last_part last_part_len
            process_call host
            out_byte_array last_part last_part_len ckr_ok))
        m
