-- ===== src/Dispatch/Completion.antt =====
-- The `switch` of gck-rpc-dispatch.c: every call of the table has a handler, and the one that is run
-- keeps to the signatures of that call.
use pkcs11_proxy.Common.{
  ℕ, suc, ◌+◌, ◌≤◌, ◌<◌, ◌≡◌, refl, Bool, true, ◌&&◌, Bool-cases, inl, inr, Option, none, some,
  List, [], ◌∷◌, length, ◌==◌, arith, subst,
}
use pkcs11_proxy.Calls.{calls, get_elem?, call_max, request_of, response_of}
use pkcs11_proxy.Dispatch.{Handler}
use pkcs11_proxy.Dispatch.Proto.{Machine}
use pkcs11_proxy.Dispatch.Library.{FunctionList}
use pkcs11_proxy.Dispatch.Cases.{cases}
use pkcs11_proxy.Dispatch.Server.{switch}
use pkcs11_proxy.Dispatch.Ensures.{Holds}
use pkcs11_proxy.Dispatch.Answered.{Completes}
use pkcs11_proxy.Dispatch.Opened.{IsPresent}
use pkcs11_proxy.Dispatch.Safe.Slots.{
  initialize-Completes, finalize-Completes, get_info-Completes, get_slot_list-Completes,
  get_slot_info-Completes, get_token_info-Completes, get_mechanism_list-Completes,
  get_mechanism_info-Completes, init_token-Completes, wait_for_slot_event-Completes,
}
use pkcs11_proxy.Dispatch.Safe.Sessions.{
  open_session-Completes, close_session-Completes, close_all_sessions-Completes,
  get_function_status-Completes, cancel_function-Completes, get_session_info-Completes,
  init_pin-Completes, set_pin-Completes, get_operation_state-Completes,
  set_operation_state-Completes, login-Completes, logout-Completes,
}
use pkcs11_proxy.Dispatch.Safe.Objects.{
  create_object-Completes, copy_object-Completes, destroy_object-Completes,
  get_object_size-Completes, get_attribute_value-Completes, set_attribute_value-Completes,
  find_objects_init-Completes, find_objects-Completes, find_objects_final-Completes,
}
use pkcs11_proxy.Dispatch.Safe.Ciphers.{
  encrypt_init-Completes, encrypt-Completes, encrypt_update-Completes, encrypt_final-Completes,
  decrypt_init-Completes, decrypt-Completes, decrypt_update-Completes, decrypt_final-Completes,
}
use pkcs11_proxy.Dispatch.Safe.Digests.{
  digest_init-Completes, digest-Completes, digest_update-Completes, digest_key-Completes,
  digest_final-Completes,
}
use pkcs11_proxy.Dispatch.Safe.Signatures.{
  sign_init-Completes, sign-Completes, sign_update-Completes, sign_final-Completes,
  sign_recover_init-Completes, sign_recover-Completes, verify_init-Completes, verify-Completes,
  verify_update-Completes, verify_final-Completes, verify_recover_init-Completes,
  verify_recover-Completes,
}
use pkcs11_proxy.Dispatch.Safe.Combined.{
  digest_encrypt_update-Completes, decrypt_digest_update-Completes, sign_encrypt_update-Completes,
  decrypt_verify_update-Completes,
}
use pkcs11_proxy.Dispatch.Safe.Keys.{
  generate_key-Completes, generate_key_pair-Completes, wrap_key-Completes, unwrap_key-Completes,
  derive_key-Completes, seed_random-Completes, generate_random-Completes,
}

-- A signature of the table; NULL has no letters.
abbrev pub letters_of : Option (List ℕ) → List ℕ
letters_of none = []
letters_of (some text) = text

-- The handler keeps to the row of the table for `id`.
abbrev pub CompletesCall : {S : Type 0} → ℕ → Handler S ℕ → Type 0
CompletesCall id h = Completes id (letters_of (request_of id)) (letters_of (response_of id)) h

infixr 4 ◌▸◌
data AllComplete {S : Type 0} : List (ℕ × Handler S ℕ) → Type 0 where
  no_more : AllComplete []
  ◌▸◌ :
      {id : ℕ} {h : Handler S ℕ} {rest : List (ℕ × Handler S ℕ)}
      → CompletesCall id h
      → AllComplete rest
      → AllComplete ((id, h) ∷ rest)

module _ {S : Type 0} where
  -- The cases have the numbers from `i` on.
  unfoldable numbered : ℕ → List (ℕ × Handler S ℕ) → Bool
  numbered i [] = true
  numbered i ((id, h) ∷ rest) = id == i && numbered (suc i) rest

  switch-Completes :
      (i : ℕ) (cs : List (ℕ × Handler S ℕ)) (id : ℕ)
      → numbered i cs ≡ true
      → AllComplete cs
      → i ≤ id
      → id < i + length cs
      → CompletesCall id (switch id cs)
  unfolding numbered switch
  switch-Completes i [] id e all h lt = absurd (omega arith)
  switch-Completes i ((k, handler) ∷ rest) id e (this ▸ others) h lt = elim (Bool-cases (k == id)) [
    | inl found ↦ record {
      run = λ w p.
          let same : k ≡ id = ground arith in
          rw (found, Holds) ((subst (λ n. CompletesCall n handler) same this).run w p);
    }
    | inr further ↦
        let first : k ≡ i = ground arith in
        let later =
          switch-Completes (suc i) rest id (ground arith) others (ground arith) (omega arith) in
        record { run = λ w p. rw (further, Holds) (later.run w p) }
  ]

  module _ (machine : Machine) (wide : machine.ulong_size ≡ 8) (lib : FunctionList S)
      (present : IsPresent lib) where
    cases-AllComplete : AllComplete (cases machine lib)
    unfolding cases request_of response_of calls get_elem?
    cases-AllComplete =
        initialize-Completes machine lib present
        ▸ finalize-Completes machine lib present
        ▸ get_info-Completes machine lib present
        ▸ get_slot_list-Completes machine lib present
        ▸ get_slot_info-Completes machine lib present
        ▸ get_token_info-Completes machine lib present
        ▸ get_mechanism_list-Completes machine lib present
        ▸ get_mechanism_info-Completes machine lib present
        ▸ init_token-Completes machine lib present
        ▸ wait_for_slot_event-Completes machine lib present
        ▸ open_session-Completes machine lib present
        ▸ close_session-Completes machine lib present
        ▸ close_all_sessions-Completes machine lib present
        ▸ get_function_status-Completes machine lib present
        ▸ cancel_function-Completes machine lib present
        ▸ get_session_info-Completes machine lib present
        ▸ init_pin-Completes machine lib present
        ▸ set_pin-Completes machine lib present
        ▸ get_operation_state-Completes machine lib present
        ▸ set_operation_state-Completes machine lib present
        ▸ login-Completes machine lib present
        ▸ logout-Completes machine lib present
        ▸ create_object-Completes machine wide lib
        ▸ copy_object-Completes machine wide lib
        ▸ destroy_object-Completes machine wide lib
        ▸ get_object_size-Completes machine wide lib
        ▸ get_attribute_value-Completes machine wide lib
        ▸ set_attribute_value-Completes machine wide lib
        ▸ find_objects_init-Completes machine wide lib
        ▸ find_objects-Completes machine wide lib
        ▸ find_objects_final-Completes machine wide lib
        ▸ encrypt_init-Completes machine lib
        ▸ encrypt-Completes machine lib
        ▸ encrypt_update-Completes machine lib
        ▸ encrypt_final-Completes machine lib
        ▸ decrypt_init-Completes machine lib
        ▸ decrypt-Completes machine lib
        ▸ decrypt_update-Completes machine lib
        ▸ decrypt_final-Completes machine lib
        ▸ digest_init-Completes machine lib
        ▸ digest-Completes machine lib
        ▸ digest_update-Completes machine lib
        ▸ digest_key-Completes machine lib
        ▸ digest_final-Completes machine lib
        ▸ sign_init-Completes machine lib
        ▸ sign-Completes machine lib
        ▸ sign_update-Completes machine lib
        ▸ sign_final-Completes machine lib
        ▸ sign_recover_init-Completes machine lib
        ▸ sign_recover-Completes machine lib
        ▸ verify_init-Completes machine lib
        ▸ verify-Completes machine lib
        ▸ verify_update-Completes machine lib
        ▸ verify_final-Completes machine lib
        ▸ verify_recover_init-Completes machine lib
        ▸ verify_recover-Completes machine lib
        ▸ digest_encrypt_update-Completes machine lib
        ▸ decrypt_digest_update-Completes machine lib
        ▸ sign_encrypt_update-Completes machine lib
        ▸ decrypt_verify_update-Completes machine lib
        ▸ generate_key-Completes machine wide lib
        ▸ generate_key_pair-Completes machine wide lib
        ▸ wrap_key-Completes machine wide lib
        ▸ unwrap_key-Completes machine wide lib
        ▸ derive_key-Completes machine wide lib
        ▸ seed_random-Completes machine wide lib
        ▸ generate_random-Completes machine wide lib
        ▸ no_more

    numbered-cases : (numbered 1 (cases machine lib) ≡ true) × (length (cases machine lib) ≡ 67)
    unfolding numbered cases
    numbered-cases = (refl, refl)

    -- The handler of a call of the table that begins at both signatures of the call fails no assertion.
    -- It answers OK only when it has read the request to the end of its signature, and has written the
    -- response to the end of its own. It is assumed that `CK_ULONG` has 64 bits, and that the module has
    -- C_GetSlotInfo and C_CloseSession.
    pub handlers-Completes :
        (id : ℕ) → 0 < id → id < call_max → CompletesCall id (switch id (cases machine lib))
    handlers-Completes id h lt =
        let (n, size) = numbered-cases in
        switch-Completes 1 (cases machine lib) id n cases-AllComplete h (omega (arith, size))
