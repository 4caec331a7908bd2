-- ===== src/Client/Calls/Digests.antt =====
-- gck-rpc-module.c: the functions of the module for digests.
use pkcs11_proxy.Common.{ℕ, Option, List}
use pkcs11_proxy.Pkcs11.{Mechanism, ckr_ok, ckr_cryptoki_not_initialized}
use pkcs11_proxy.Calls.{
  call_digest_init, call_digest, call_digest_update, call_digest_key, call_digest_final,
}
use pkcs11_proxy.Client.{Module, Host}
use pkcs11_proxy.Client.Course.{Course}
use pkcs11_proxy.Client.Caller.{◌>>◌, pure}
use pkcs11_proxy.Client.Begin.{begin_call, process_call, return_val_if_fail}
use pkcs11_proxy.Client.Proto.{in_ulong, in_byte_buffer, in_byte_array, in_mechanism}
use pkcs11_proxy.Client.Results.{Stored, out_byte_array}

module _ (host : Host) where
  unfoldable pub rpc_digest_init : ℕ → Option Mechanism → Module → Course (Module × ℕ × Unit {0})
  rpc_digest_init session mechanism m =
      return_val_if_fail m.initialized ckr_cryptoki_not_initialized tt
        (begin_call host call_digest_init tt
          (do in_ulong session; in_mechanism mechanism; process_call host; pure (ckr_ok, tt)))
        m

  unfoldable pub rpc_digest :
      ℕ → Option (List ℕ) → ℕ → Option (List ℕ) → Option ℕ → Module → Course (Module × ℕ × Stored)
  rpc_digest session input input_len digest digest_len m =
      return_val_if_fail m.initialized ckr_cryptoki_not_initialized (digest, digest_len)
        (begin_call host call_digest (digest, digest_len)
          (do
            in_ulong session
            in_byte_array input input_len
            in_byte_buffer digest digest_len
            process_call host
            out_byte_array digest digest_len ckr_ok))
        m

  unfoldable pub rpc_digest_update :
      ℕ → Option (List ℕ) → ℕ → Module → Course (Module × ℕ × Unit {0})
  rpc_digest_update session part part_len m =
      return_val_if_fail m.initialized ckr_cryptoki_not_initialized tt
        (begin_call host call_digest_update tt
          (do in_ulong session; in_byte_array part part_len; process_call host; pure (ckr_ok, tt)))
        m

  unfoldable pub rpc_digest_key : ℕ → ℕ → Module → Course (Module × ℕ × Unit {0})
  rpc_digest_key session key m =
      return_val_if_fail m.initialized ckr_cryptoki_not_initialized tt
        (begin_call host call_digest_key tt
          (do in_ulong session; in_ulong key; process_call host; pure (ckr_ok, tt)))
        m

  unfoldable pub rpc_digest_final :
      ℕ → Option (List ℕ) → Option ℕ → Module → Course (Module × ℕ × Stored)
  rpc_digest_final session digest digest_len m =
      return_val_if_fail m.initialized ckr_cryptoki_not_initialized (digest, digest_len)
        (begin_call host call_digest_final (digest, digest_len)
          (do
            in_ulong session
            in_byte_buffer digest digest_len
            process_call host
            out_byte_array digest digest_len ckr_ok))
        m
