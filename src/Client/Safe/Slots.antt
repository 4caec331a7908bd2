-- ===== src/Client/Safe/Slots.antt =====
-- gck-rpc-module.c: the functions for slots, tokens and mechanisms keep to the table of signatures.
use pkcs11_proxy.Common.{ℕ, refl, Bool, Option, none, some, List, [], codes, arith}
use pkcs11_proxy.Pkcs11.{ckr_ok, ckr_arguments_bad, ckr_cryptoki_not_initialized}
use pkcs11_proxy.Calls.{
  request_of, response_of, call_get_info, call_get_slot_list, call_get_slot_info,
  call_get_token_info, call_get_mechanism_list, call_get_mechanism_info, call_init_token,
  call_wait_for_slot_event,
}
use pkcs11_proxy.Message.{is_given}
use pkcs11_proxy.Client.{Module, Host}
use pkcs11_proxy.Client.Invariant.{IsPool}
use pkcs11_proxy.Client.Calls.Slots.{
  rpc_get_info, rpc_get_slot_list, rpc_get_slot_info, rpc_get_token_info, rpc_get_mechanism_list,
  rpc_get_mechanism_info, rpc_init_token, rpc_wait_for_slot_event,
}
use pkcs11_proxy.Client.Runs.{Runs_then, process_call-Runs, pure-Runs}
use pkcs11_proxy.Client.Returns.{Returns, begin_call-Returns, return_val_if_fail-Returns}
use pkcs11_proxy.Client.Asks.{
  in_byte-Runs, in_byte_array-Runs, in_mechanism_type-Runs, in_space_string-Runs, in_ulong-Runs,
  in_ulong_buffer-Runs,
}
use pkcs11_proxy.Client.Answers.{
  out_info-Runs, out_mechanism_info-Runs, out_mechanism_type_array-Runs, out_slot_info-Runs,
  out_token_info-Runs, out_ulong-Runs, out_ulong_array-Runs,
}

module _ {host : Host} {m : Module} (valid : IsPool m) where
  pub get_info-Returns : (info : Bool) → Returns host call_get_info m (rpc_get_info host info m)
  unfolding rpc_get_info request_of response_of
  get_info-Returns info =
      return_val_if_fail-Returns m.initialized ckr_cryptoki_not_initialized none _ valid (λ _.
        return_val_if_fail-Returns info ckr_arguments_bad none _ valid (λ _.
          begin_call-Returns host call_get_info none m [] _ valid (omega arith) (omega arith) refl
            (Runs_then (process_call-Runs (codes "vsusv") refl) (out_info-Runs [] info ckr_ok))))

  pub get_slot_list-Returns :
      (token_present : ℕ) (slot_list : Option (List ℕ)) (count : Option ℕ)
      → Returns host call_get_slot_list m (rpc_get_slot_list host token_present slot_list count m)
  unfolding rpc_get_slot_list request_of response_of
  get_slot_list-Returns token_present slot_list count =
      return_val_if_fail-Returns m.initialized ckr_cryptoki_not_initialized (slot_list, count) _
        valid
        (λ _.
          return_val_if_fail-Returns (is_given count) ckr_arguments_bad (slot_list, count) _ valid
            (λ _.
              begin_call-Returns host call_get_slot_list (slot_list, count) m (codes "yfu") _ valid
                (omega arith) (omega arith) refl
                (Runs_then (in_byte-Runs (codes "fu") token_present) (
                  Runs_then (in_ulong_buffer-Runs [] slot_list count) (
                    Runs_then (process_call-Runs (codes "au") refl)
                      (out_ulong_array-Runs [] slot_list count ckr_ok))))))

  pub get_slot_info-Returns :
      (id : ℕ) (info : Bool) → Returns host call_get_slot_info m (rpc_get_slot_info host id info m)
  unfolding rpc_get_slot_info request_of response_of
  get_slot_info-Returns id info =
      return_val_if_fail-Returns m.initialized ckr_cryptoki_not_initialized none _ valid (λ _.
        return_val_if_fail-Returns info ckr_arguments_bad none _ valid (λ _.
          begin_call-Returns host call_get_slot_info none m (codes "u") _ valid (omega arith)
            (omega arith) refl
            (Runs_then (in_ulong-Runs [] id) (
              Runs_then (process_call-Runs (codes "ssuvv") refl)
                (out_slot_info-Runs [] info ckr_ok)))))

  pub get_token_info-Returns :
      (id : ℕ) (info : Bool)
      → Returns host call_get_token_info m (rpc_get_token_info host id info m)
  unfolding rpc_get_token_info request_of response_of
  get_token_info-Returns id info =
      return_val_if_fail-Returns m.initialized ckr_cryptoki_not_initialized none _ valid (λ _.
        return_val_if_fail-Returns info ckr_arguments_bad none _ valid (λ _.
          begin_call-Returns host call_get_token_info none m (codes "u") _ valid (omega arith)
            (omega arith) refl
            (Runs_then (in_ulong-Runs [] id) (
              Runs_then (process_call-Runs (codes "ssssuuuuuuuuuuuvvs") refl)
                (out_token_info-Runs [] info ckr_ok)))))

  pub get_mechanism_list-Returns :
      (id : ℕ) (mechanism_list : Option (List ℕ)) (count : Option ℕ)
      → Returns host call_get_mechanism_list m
          (rpc_get_mechanism_list host id mechanism_list count m)
  unfolding rpc_get_mechanism_list request_of response_of
  get_mechanism_list-Returns id mechanism_list count =
      return_val_if_fail-Returns m.initialized ckr_cryptoki_not_initialized (mechanism_list, count)
        _ valid
        (λ _.
          return_val_if_fail-Returns (is_given count) ckr_arguments_bad (mechanism_list, count) _
            valid
            (λ _.
              begin_call-Returns host call_get_mechanism_list (mechanism_list, count) m
                (codes "ufu") _ valid (omega arith) (omega arith) refl
                (Runs_then (in_ulong-Runs (codes "fu") id) (
                  Runs_then (in_ulong_buffer-Runs [] mechanism_list count) (
                    Runs_then (process_call-Runs (codes "au") refl)
                      (out_mechanism_type_array-Runs [] mechanism_list count ckr_ok))))))

  pub get_mechanism_info-Returns :
      (id : ℕ) (mechanism_type : ℕ) (info : Bool)
      → Returns host call_get_mechanism_info m
          (rpc_get_mechanism_info host id mechanism_type info m)
  unfolding rpc_get_mechanism_info request_of response_of
  get_mechanism_info-Returns id mechanism_type info =
      return_val_if_fail-Returns m.initialized ckr_cryptoki_not_initialized none _ valid (λ _.
        return_val_if_fail-Returns info ckr_arguments_bad none _ valid (λ _.
          begin_call-Returns host call_get_mechanism_info none m (codes "uu") _ valid (omega arith)
            (omega arith) refl
            (Runs_then (in_ulong-Runs (codes "u") id) (
              Runs_then (in_mechanism_type-Runs [] mechanism_type) (
                Runs_then (process_call-Runs (codes "uuu") refl)
                  (out_mechanism_info-Runs [] info ckr_ok))))))

  pub init_token-Returns :
      (id : ℕ) (pin : Option (List ℕ)) (pin_len : ℕ) (label : List ℕ)
      → Returns host call_init_token m (rpc_init_token host id pin pin_len (some label) m)
  unfolding rpc_init_token request_of response_of
  init_token-Returns id pin pin_len label =
      return_val_if_fail-Returns m.initialized ckr_cryptoki_not_initialized tt _ valid (λ _.
        begin_call-Returns host call_init_token tt m (codes "uays") _ valid (omega arith)
          (omega arith) refl
          (Runs_then (in_ulong-Runs (codes "ays") id) (
            Runs_then (in_byte_array-Runs (codes "s") pin pin_len) (
              Runs_then (in_space_string-Runs [] label 32 refl)
                (Runs_then (process_call-Runs [] refl) (pure-Runs (ckr_ok, tt) (λ cs h. h)))))))

  pub wait_for_slot_event-Returns :
      (flags : ℕ) (slot : Bool)
      → Returns host call_wait_for_slot_event m (rpc_wait_for_slot_event host flags slot m)
  unfolding rpc_wait_for_slot_event request_of response_of
  wait_for_slot_event-Returns flags slot =
      return_val_if_fail-Returns slot ckr_arguments_bad none _ valid (λ _.
        begin_call-Returns host call_wait_for_slot_event none m (codes "u") _ valid (omega arith)
          (omega arith) refl
          (Runs_then (in_ulong-Runs [] flags)
            (Runs_then (process_call-Runs (codes "u") refl) (out_ulong-Runs [] slot ckr_ok))))
