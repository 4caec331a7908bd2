-- ===== src/Client/Safe/Digests.antt =====
-- gck-rpc-module.c: the functions for digests keep to the table of signatures.
use pkcs11_proxy.Common.{ℕ, refl, Option, List, [], codes, arith}
use pkcs11_proxy.Pkcs11.{Mechanism, ckr_ok, ckr_cryptoki_not_initialized}
use pkcs11_proxy.Calls.{
  request_of, response_of, call_digest_init, call_digest, call_digest_update, call_digest_key,
  call_digest_final,
}
use pkcs11_proxy.Client.{Module, Host}
use pkcs11_proxy.Client.Invariant.{IsPool}
use pkcs11_proxy.Client.Calls.Digests.{
  rpc_digest_init, rpc_digest, rpc_digest_update, rpc_digest_key, rpc_digest_final,
}
use pkcs11_proxy.Client.Runs.{Runs_then, process_call-Runs, pure-Runs}
use pkcs11_proxy.Client.Returns.{Returns, begin_call-Returns, return_val_if_fail-Returns}
use pkcs11_proxy.Client.Asks.{
  in_byte_array-Runs, in_byte_buffer-Runs, in_mechanism-Runs, in_ulong-Runs,
}
use pkcs11_proxy.Client.Answers.{out_byte_array-Runs}

module _ {host : Host} {m : Module} (valid : IsPool m) where
  pub digest_init-Returns :
      (session : ℕ) (mechanism : Option Mechanism)
      → Returns host call_digest_init m (rpc_digest_init host session mechanism m)
  unfolding rpc_digest_init request_of response_of
  digest_init-Returns session mechanism =
      return_val_if_fail-Returns m.initialized ckr_cryptoki_not_initialized tt _ valid (λ _.
        begin_call-Returns host call_digest_init tt m (codes "uM") _ valid (omega arith)
          (omega arith) refl
          (Runs_then (in_ulong-Runs (codes "M") session) (
            Runs_then (in_mechanism-Runs [] mechanism)
              (Runs_then (process_call-Runs [] refl) (pure-Runs (ckr_ok, tt) (λ cs h. h))))))

  pub digest-Returns :
      (session : ℕ) (input : Option (List ℕ)) (input_len : ℕ) (digest : Option (List ℕ))
      (digest_len : Option ℕ)
      → Returns host call_digest m (rpc_digest host session input input_len digest digest_len m)
  unfolding rpc_digest request_of response_of
  digest-Returns session input input_len digest digest_len =
      return_val_if_fail-Returns m.initialized ckr_cryptoki_not_initialized (digest, digest_len) _
        valid
        (λ _.
          begin_call-Returns host call_digest (digest, digest_len) m (codes "uayfy") _ valid
            (omega arith) (omega arith) refl
            (Runs_then (in_ulong-Runs (codes "ayfy") session) (
              Runs_then (in_byte_array-Runs (codes "fy") input input_len) (
                Runs_then (in_byte_buffer-Runs [] digest digest_len) (
                  Runs_then (process_call-Runs (codes "ay") refl)
                    (out_byte_array-Runs [] digest digest_len ckr_ok))))))

  pub digest_update-Returns :
      (session : ℕ) (part : Option (List ℕ)) (part_len : ℕ)
      → Returns host call_digest_update m (rpc_digest_update host session part part_len m)
  unfolding rpc_digest_update request_of response_of
  digest_update-Returns session part part_len =
      return_val_if_fail-Returns m.initialized ckr_cryptoki_not_initialized tt _ valid (λ _.
        begin_call-Returns host call_digest_update tt m (codes "uay") _ valid (omega arith)
          (omega arith) refl
          (Runs_then (in_ulong-Runs (codes "ay") session) (
            Runs_then (in_byte_array-Runs [] part part_len)
              (Runs_then (process_call-Runs [] refl) (pure-Runs (ckr_ok, tt) (λ cs h. h))))))

  pub digest_key-Returns :
      (session : ℕ) (key : ℕ) → Returns host call_digest_key m (rpc_digest_key host session key m)
  unfolding rpc_digest_key request_of response_of
  digest_key-Returns session key =
      return_val_if_fail-Returns m.initialized ckr_cryptoki_not_initialized tt _ valid (λ _.
        begin_call-Returns host call_digest_key tt m (codes "uu") _ valid (omega arith)
          (omega arith) refl
          (Runs_then (in_ulong-Runs (codes "u") session) (
            Runs_then (in_ulong-Runs [] key)
              (Runs_then (process_call-Runs [] refl) (pure-Runs (ckr_ok, tt) (λ cs h. h))))))

  pub digest_final-Returns :
      (session : ℕ) (digest : Option (List ℕ)) (digest_len : Option ℕ)
      → Returns host call_digest_final m (rpc_digest_final host session digest digest_len m)
  unfolding rpc_digest_final request_of response_of
  digest_final-Returns session digest digest_len =
      return_val_if_fail-Returns m.initialized ckr_cryptoki_not_initialized (digest, digest_len) _
        valid
        (λ _.
          begin_call-Returns host call_digest_final (digest, digest_len) m (codes "ufy") _ valid
            (omega arith) (omega arith) refl
            (Runs_then (in_ulong-Runs (codes "fy") session) (
              Runs_then (in_byte_buffer-Runs [] digest digest_len) (
                Runs_then (process_call-Runs (codes "ay") refl)
                  (out_byte_array-Runs [] digest digest_len ckr_ok)))))
