-- ===== src/Client/Calls/Signatures.antt =====
-- gck-rpc-module.c: the functions of the module for signatures.
use pkcs11_proxy.Common.{ℕ, not, Option, List, ◌==◌}
use pkcs11_proxy.Pkcs11.{Mechanism, ckr_ok, ckr_arguments_bad, ckr_cryptoki_not_initialized}
use pkcs11_proxy.Calls.{
  call_sign_init, call_sign, call_sign_update, call_sign_final, call_sign_recover_init,
  call_sign_recover, call_verify_init, call_verify, call_verify_update, call_verify_final,
  call_verify_recover_init, call_verify_recover,
}
use pkcs11_proxy.Client.{Module, Host}
use pkcs11_proxy.Client.Course.{Course}
use pkcs11_proxy.Client.Caller.{◌>>◌, pure}
use pkcs11_proxy.Client.Begin.{begin_call, process_call, return_val_if_fail}
use pkcs11_proxy.Client.Proto.{in_ulong, in_byte_buffer, in_byte_array, in_mechanism}
use pkcs11_proxy.Client.Results.{Stored, out_byte_array}

module _ (host : Host) where
  unfoldable pub rpc_sign_init : ℕ → Option Mechanism → ℕ → Module → Course (Module × ℕ × Unit {0})
  rpc_sign_init session mechanism key m =
      return_val_if_fail m.initialized ckr_cryptoki_not_initialized tt
        (begin_call host call_sign_init tt (do
          in_ulong session
          in_mechanism mechanism
          in_ulong key
          process_call host
          pure (ckr_ok, tt)))
        m

  unfoldable pub rpc_sign :
      ℕ → Option (List ℕ) → ℕ → Option (List ℕ) → Option ℕ → Module → Course (Module × ℕ × Stored)
  rpc_sign session input input_len sig sig_len m =
      return_val_if_fail m.initialized ckr_cryptoki_not_initialized (sig, sig_len)
        (begin_call host call_sign (sig, sig_len)
          (do
            in_ulong session
            in_byte_array input input_len
            in_byte_buffer sig sig_len
            process_call host
            out_byte_array sig sig_len ckr_ok))
        m

  unfoldable pub rpc_sign_update : ℕ → Option (List ℕ) → ℕ → Module → Course (Module × ℕ × Unit {0})
  rpc_sign_update session part part_len m =
      return_val_if_fail m.initialized ckr_cryptoki_not_initialized tt
        (return_val_if_fail (not (part_len == 0)) ckr_arguments_bad tt (
          begin_call host call_sign_update tt (do
            in_ulong session
            in_byte_array part part_len
            process_call host
            pure (ckr_ok, tt))))
        m

  unfoldable pub rpc_sign_final :
      ℕ → Option (List ℕ) → Option ℕ → Module → Course (Module × ℕ × Stored)
  rpc_sign_final session sig sig_len m =
      return_val_if_fail m.initialized ckr_cryptoki_not_initialized (sig, sig_len)
        (begin_call host call_sign_final (sig, sig_len)
          (do
            in_ulong session
            in_byte_buffer sig sig_len
            process_call host
            out_byte_array sig sig_len ckr_ok))
        m

  unfoldable pub rpc_sign_recover_init :
      ℕ → Option Mechanism → ℕ → Module → Course (Module × ℕ × Unit {0})
  rpc_sign_recover_init session mechanism key m =
      return_val_if_fail m.initialized ckr_cryptoki_not_initialized tt
        (begin_call host call_sign_recover_init tt (do
          in_ulong session
          in_mechanism mechanism
          in_ulong key
          process_call host
          pure (ckr_ok, tt)))
        m

  unfoldable pub rpc_sign_recover :
      ℕ → Option (List ℕ) → ℕ → Option (List ℕ) → Option ℕ → Module → Course (Module × ℕ × Stored)
  rpc_sign_recover session input input_len sig sig_len m =
      return_val_if_fail m.initialized ckr_cryptoki_not_initialized (sig, sig_len)
        (begin_call host call_sign_recover (sig, sig_len)
          (do
            in_ulong session
            in_byte_array input input_len
            in_byte_buffer sig sig_len
            process_call host
            out_byte_array sig sig_len ckr_ok))
        m

  unfoldable pub rpc_verify_init :
      ℕ → Option Mechanism → ℕ → Module → Course (Module × ℕ × Unit {0})
  rpc_verify_init session mechanism key m =
      return_val_if_fail m.initialized ckr_cryptoki_not_initialized tt
        (begin_call host call_verify_init tt (do
          in_ulong session
          in_mechanism mechanism
          in_ulong key
          process_call host
          pure (ckr_ok, tt)))
        m

  unfoldable pub rpc_verify :
      ℕ → Option (List ℕ) → ℕ → Option (List ℕ) → ℕ → Module → Course (Module × ℕ × Unit {0})
  rpc_verify session input input_len sig sig_len m =
      return_val_if_fail m.initialized ckr_cryptoki_not_initialized tt
        (begin_call host call_verify tt (do
          in_ulong session
          in_byte_array input input_len
          in_byte_array sig sig_len
          process_call host
          pure (ckr_ok, tt)))
        m

  unfoldable pub rpc_verify_update :
      ℕ → Option (List ℕ) → ℕ → Module → Course (Module × ℕ × Unit {0})
  rpc_verify_update session part part_len m =
      return_val_if_fail m.initialized ckr_cryptoki_not_initialized tt
        (begin_call host call_verify_update tt
          (do in_ulong session; in_byte_array part part_len; process_call host; pure (ckr_ok, tt)))
        m

  unfoldable pub rpc_verify_final :
      ℕ → Option (List ℕ) → ℕ → Module → Course (Module × ℕ × Unit {0})
  rpc_verify_final session sig sig_len m =
      return_val_if_fail m.initialized ckr_cryptoki_not_initialized tt
        (begin_call host call_verify_final tt
          (do in_ulong session; in_byte_array sig sig_len; process_call host; pure (ckr_ok, tt)))
        m

  unfoldable pub rpc_verify_recover_init :
      ℕ → Option Mechanism → ℕ → Module → Course (Module × ℕ × Unit {0})
  rpc_verify_recover_init session mechanism key m =
      return_val_if_fail m.initialized ckr_cryptoki_not_initialized tt
        (begin_call host call_verify_recover_init tt (do
          in_ulong session
          in_mechanism mechanism
          in_ulong key
          process_call host
          pure (ckr_ok, tt)))
        m

  unfoldable pub rpc_verify_recover :
      ℕ → Option (List ℕ) → ℕ → Option (List ℕ) → Option ℕ → Module → Course (Module × ℕ × Stored)
  rpc_verify_recover session sig sig_len input input_len m =
      return_val_if_fail m.initialized ckr_cryptoki_not_initialized (input, input_len)
        (begin_call host call_verify_recover (input, input_len)
          (do
            in_ulong session
            in_byte_array sig sig_len
            in_byte_buffer input input_len
            process_call host
            out_byte_array input input_len ckr_ok))
        m
