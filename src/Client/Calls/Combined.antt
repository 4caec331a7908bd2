-- ===== src/Client/Calls/Combined.antt =====
-- gck-rpc-module.c: the functions of the module for two operations at once.
use pkcs11_proxy.Common.{ℕ, Option, List}
use pkcs11_proxy.Pkcs11.{ckr_ok, ckr_cryptoki_not_initialized}
use pkcs11_proxy.Calls.{
  call_digest_encrypt_update, call_decrypt_digest_update, call_sign_encrypt_update,
  call_decrypt_verify_update,
}
use pkcs11_proxy.Client.{Module, Host}
use pkcs11_proxy.Client.Course.{Course}
use pkcs11_proxy.Client.Caller.{◌>>◌}
use pkcs11_proxy.Client.Begin.{begin_call, process_call, return_val_if_fail}
use pkcs11_proxy.Client.Proto.{in_ulong, in_byte_buffer, in_byte_array}
use pkcs11_proxy.Client.Results.{Stored, out_byte_array}

module _ (host : Host) where
  unfoldable pub rpc_digest_encrypt_update :
      ℕ → Option (List ℕ) → ℕ → Option (List ℕ) → Option ℕ → Module → Course (Module × ℕ × Stored)
  rpc_digest_encrypt_update session part part_len enc_part enc_part_len m =
      return_val_if_fail m.initialized ckr_cryptoki_not_initialized (enc_part, enc_part_len)
        (begin_call host call_digest_encrypt_update (enc_part, enc_part_len)
          (do
            in_ulong session
            in_byte_array part part_len
            in_byte_buffer enc_part enc_part_len
            process_call host
            out_byte_array enc_part enc_part_len ckr_ok))
        m

  unfoldable pub rpc_decrypt_digest_update :
      ℕ → Option (List ℕ) → ℕ → Option (List ℕ) → Option ℕ → Module → Course (Module × ℕ × Stored)
  rpc_decrypt_digest_update session enc_part enc_part_len part part_len m =
      return_val_if_fail m.initialized ckr_cryptoki_not_initialized (part, part_len)
        (begin_call host call_decrypt_digest_update (part, part_len)
          (do
            in_ulong session
            in_byte_array enc_part enc_part_len
            in_byte_buffer part part_len
            process_call host
            out_byte_array part part_len ckr_ok))
        m

  unfoldable pub rpc_sign_encrypt_update :
      ℕ → Option (List ℕ) → ℕ → Option (List ℕ) → Option ℕ → Module → Course (Module × ℕ × Stored)
  rpc_sign_encrypt_update session part part_len enc_part enc_part_len m =
      return_val_if_fail m.initialized ckr_cryptoki_not_initialized (enc_part, enc_part_len)
        (begin_call host call_sign_encrypt_update (enc_part, enc_part_len)
          (do
            in_ulong session
            in_byte_array part part_len
            in_byte_buffer enc_part enc_part_len
            process_call host
            out_byte_array enc_part enc_part_len ckr_ok))
        m

  unfoldable pub rpc_decrypt_verify_update :
      ℕ → Option (List ℕ) → ℕ → Option (List ℕ) → Option ℕ → Module → Course (Module × ℕ × Stored)
  rpc_decrypt_verify_update session enc_part enc_part_len part part_len m =
      return_val_if_fail m.initialized ckr_cryptoki_not_initialized (part, part_len)
        (begin_call host call_decrypt_verify_update (part, part_len)
          (do
            in_ulong session
            in_byte_array enc_part enc_part_len
            in_byte_buffer part part_len
            process_call host
            out_byte_array part part_len ckr_ok))
        m
