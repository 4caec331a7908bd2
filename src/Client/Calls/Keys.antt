-- ===== src/Client/Calls/Keys.antt =====
-- gck-rpc-module.c: the functions of the module for keys and random numbers.
use pkcs11_proxy.Common.{ℕ, Bool, not, Option, none, some, List, ◌==◌}
use pkcs11_proxy.Pkcs11.{
  Attribute, Mechanism, ckr_ok, ckr_arguments_bad, ckr_cryptoki_not_initialized,
  ckr_session_handle_invalid,
}
use pkcs11_proxy.Calls.{
  call_generate_key, call_generate_key_pair, call_wrap_key, call_unwrap_key, call_derive_key,
  call_seed_random, call_generate_random,
}
use pkcs11_proxy.Message.{is_given}
use pkcs11_proxy.Client.{Module, Host}
use pkcs11_proxy.Client.Course.{Course}
use pkcs11_proxy.Client.Caller.{◌>>◌, ◌>>=◌, pure}
use pkcs11_proxy.Client.Begin.{begin_call, process_call, return_val_if_fail}
use pkcs11_proxy.Client.Proto.{
  in_ulong, in_byte_buffer, in_byte_array, in_attribute_array, in_mechanism,
}
use pkcs11_proxy.Client.Results.{Stored, out_ulong, out_byte_array}

module _ (host : Host) where
  unfoldable pub rpc_generate_key :
      ℕ
      → Option Mechanism
      → Option (List Attribute)
      → ℕ
      → Bool
      → Module
      → Course (Module × ℕ × Option ℕ)
  rpc_generate_key session mechanism template count key m =
      return_val_if_fail m.initialized ckr_cryptoki_not_initialized none
        (begin_call host call_generate_key none (do
          in_ulong session
          in_mechanism mechanism
          in_attribute_array host template count
          process_call host
          out_ulong host key ckr_ok))
        m

  unfoldable pub rpc_generate_key_pair :
      ℕ
      → Option Mechanism
      → Option (List Attribute)
      → ℕ
      → Option (List Attribute)
      → ℕ
      → Bool
      → Bool
      → Module
      → Course (Module × ℕ × (Option ℕ × Option ℕ))
  rpc_generate_key_pair session mechanism pub_template pub_count priv_template priv_count pub_key
        priv_key m =
      return_val_if_fail m.initialized ckr_cryptoki_not_initialized (none, none)
        (return_val_if_fail (not (session == 0)) ckr_session_handle_invalid (none, none)
          (return_val_if_fail (is_given mechanism) ckr_arguments_bad (none, none)
            (return_val_if_fail (is_given pub_template) ckr_arguments_bad (none, none)
              (return_val_if_fail (is_given priv_template) ckr_arguments_bad (none, none)
                (return_val_if_fail pub_key ckr_arguments_bad (none, none)
                  (return_val_if_fail priv_key ckr_arguments_bad (none, none)
                    (begin_call host call_generate_key_pair (none, none)
                      (do
                        in_ulong session
                        in_mechanism mechanism
                        in_attribute_array host pub_template pub_count
                        in_attribute_array host priv_template priv_count
                        process_call host
                        (ret, pub_key') ← out_ulong host pub_key ckr_ok
                        (ret', priv_key') ← out_ulong host priv_key ret
                        pure (ret', (pub_key', priv_key'))))))))))
        m

  unfoldable pub rpc_wrap_key :
      ℕ
      → Option Mechanism
      → ℕ
      → ℕ
      → Option (List ℕ)
      → Option ℕ
      → Module
      → Course (Module × ℕ × Stored)
  rpc_wrap_key session mechanism wrapping_key key wrapped_key wrapped_key_len m =
      return_val_if_fail m.initialized ckr_cryptoki_not_initialized (wrapped_key, wrapped_key_len)
        (begin_call host call_wrap_key (wrapped_key, wrapped_key_len)
          (do
            in_ulong session
            in_mechanism mechanism
            in_ulong wrapping_key
            in_ulong key
            in_byte_buffer wrapped_key wrapped_key_len
            process_call host
            out_byte_array wrapped_key wrapped_key_len ckr_ok))
        m

  unfoldable pub rpc_unwrap_key :
      ℕ
      → Option Mechanism
      → ℕ
      → Option (List ℕ)
      → ℕ
      → Option (List Attribute)
      → ℕ
      → Bool
      → Module
      → Course (Module × ℕ × Option ℕ)
  rpc_unwrap_key session mechanism unwrapping_key wrapped_key wrapped_key_len template count key m =
      return_val_if_fail m.initialized ckr_cryptoki_not_initialized none
        (begin_call host call_unwrap_key none (do
          in_ulong session
          in_mechanism mechanism
          in_ulong unwrapping_key
          in_byte_array wrapped_key wrapped_key_len
          in_attribute_array host template count
          process_call host
          out_ulong host key ckr_ok))
        m

  unfoldable pub rpc_derive_key :
      ℕ
      → Option Mechanism
      → ℕ
      → Option (List Attribute)
      → ℕ
      → Bool
      → Module
      → Course (Module × ℕ × Option ℕ)
  rpc_derive_key session mechanism base_key template count key m =
      return_val_if_fail m.initialized ckr_cryptoki_not_initialized none
        (begin_call host call_derive_key none (do
          in_ulong session
          in_mechanism mechanism
          in_ulong base_key
          in_attribute_array host template count
          process_call host
          out_ulong host key ckr_ok))
        m

  unfoldable pub rpc_seed_random : ℕ → Option (List ℕ) → ℕ → Module → Course (Module × ℕ × Unit {0})
  rpc_seed_random session seed seed_len m =
      return_val_if_fail m.initialized ckr_cryptoki_not_initialized tt
        (begin_call host call_seed_random tt
          (do in_ulong session; in_byte_array seed seed_len; process_call host; pure (ckr_ok, tt)))
        m

  unfoldable pub rpc_generate_random :
      ℕ → Option (List ℕ) → ℕ → Module → Course (Module × ℕ × Stored)
  rpc_generate_random session random_data random_len m =
      return_val_if_fail m.initialized ckr_cryptoki_not_initialized (random_data, some random_len)
        (return_val_if_fail (is_given random_data) ckr_arguments_bad (random_data, some random_len)
          (begin_call host call_generate_random (random_data, some random_len)
            (do
              in_ulong session
              in_byte_buffer random_data (some random_len)
              process_call host
              out_byte_array random_data (some random_len) ckr_ok)))
        m
