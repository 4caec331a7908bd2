-- ===== src/Dispatch/Library.antt =====
-- The PKCS#11 module behind the daemon (`pkcs11_module`), and the macros with which a handler calls it.
-- The module's code is not in this repository: a function of its list is NULL, or what the module does
-- with its state and what it hands back. A buffer goes in as the room behind the pointer and its size,
-- and comes back as what the module has put there.
use pkcs11_proxy.Common.{ℕ, Option, none, some, List, done}
use pkcs11_proxy.Pkcs11.{
  Attribute, Mechanism, Info, SlotInfo, TokenInfo, MechanismInfo, SessionInfo, ckr_general_error,
}
use pkcs11_proxy.Message.{is_verified}
use pkcs11_proxy.Dispatch.{Handler, ◌>>◌, pure, goto_cleanup, assert_that, value}

-- The module's new state, its answer, and its results.
abbrev pub Reply : Type 0 → Type 0 → Type 0
Reply S A = S → S × ℕ × A

-- `CK_FUNCTION_LIST`, the functions that a handler calls
pub record FunctionList (S : Type 0) : Type 0 where
  pub get_info : Option (Reply S Info)
  pub get_slot_list : Option (ℕ → Option (List ℕ) → ℕ → Reply S (List ℕ × ℕ))
  pub get_slot_info : Option (ℕ → Reply S SlotInfo)
  pub get_token_info : Option (ℕ → Reply S TokenInfo)
  pub get_mechanism_list : Option (ℕ → Option (List ℕ) → ℕ → Reply S (List ℕ × ℕ))
  pub get_mechanism_info : Option (ℕ → ℕ → Reply S MechanismInfo)
  pub init_token : Option (ℕ → Option (List ℕ) → ℕ → List ℕ → Reply S (Unit {0}))
  pub wait_for_slot_event : Option (ℕ → Reply S ℕ)
  pub open_session : Option (ℕ → ℕ → Reply S ℕ)
  pub close_session : Option (ℕ → Reply S (Unit {0}))
  pub close_all_sessions : Option (ℕ → Reply S (Unit {0}))
  pub get_function_status : Option (ℕ → Reply S (Unit {0}))
  pub cancel_function : Option (ℕ → Reply S (Unit {0}))
  pub get_session_info : Option (ℕ → Reply S SessionInfo)
  pub init_pin : Option (ℕ → Option (List ℕ) → ℕ → Reply S (Unit {0}))
  pub set_pin : Option (ℕ → Option (List ℕ) → ℕ → Option (List ℕ) → ℕ → Reply S (Unit {0}))
  pub get_operation_state : Option (ℕ → Option (List ℕ) → Option ℕ → Reply S (List ℕ × ℕ))
  pub set_operation_state : Option (ℕ → Option (List ℕ) → ℕ → ℕ → ℕ → Reply S (Unit {0}))
  pub login : Option (ℕ → ℕ → Option (List ℕ) → ℕ → Reply S (Unit {0}))
  pub logout : Option (ℕ → Reply S (Unit {0}))
  pub create_object : Option (ℕ → Option (List Attribute) → ℕ → Reply S ℕ)
  pub copy_object : Option (ℕ → ℕ → Option (List Attribute) → ℕ → Reply S ℕ)
  pub destroy_object : Option (ℕ → ℕ → Reply S (Unit {0}))
  pub get_object_size : Option (ℕ → ℕ → Reply S ℕ)
  pub get_attribute_value : Option (ℕ → ℕ → List Attribute → ℕ → Reply S (List Attribute))
  pub set_attribute_value : Option (ℕ → ℕ → Option (List Attribute) → ℕ → Reply S (Unit {0}))
  pub find_objects_init : Option (ℕ → Option (List Attribute) → ℕ → Reply S (Unit {0}))
  pub find_objects : Option (ℕ → Option (List ℕ) → ℕ → Reply S (List ℕ × ℕ))
  pub find_objects_final : Option (ℕ → Reply S (Unit {0}))
  pub encrypt_init : Option (ℕ → Mechanism → ℕ → Reply S (Unit {0}))
  pub encrypt : Option (ℕ → Option (List ℕ) → ℕ → Option (List ℕ) → Option ℕ → Reply S (List ℕ × ℕ))
  pub encrypt_update :
      Option (ℕ → Option (List ℕ) → ℕ → Option (List ℕ) → Option ℕ → Reply S (List ℕ × ℕ))
  pub encrypt_final : Option (ℕ → Option (List ℕ) → Option ℕ → Reply S (List ℕ × ℕ))
  pub decrypt_init : Option (ℕ → Mechanism → ℕ → Reply S (Unit {0}))
  pub decrypt : Option (ℕ → Option (List ℕ) → ℕ → Option (List ℕ) → Option ℕ → Reply S (List ℕ × ℕ))
  pub decrypt_update :
      Option (ℕ → Option (List ℕ) → ℕ → Option (List ℕ) → Option ℕ → Reply S (List ℕ × ℕ))
  pub decrypt_final : Option (ℕ → Option (List ℕ) → Option ℕ → Reply S (List ℕ × ℕ))
  pub digest_init : Option (ℕ → Mechanism → Reply S (Unit {0}))
  pub digest : Option (ℕ → Option (List ℕ) → ℕ → Option (List ℕ) → Option ℕ → Reply S (List ℕ × ℕ))
  pub digest_update : Option (ℕ → Option (List ℕ) → ℕ → Reply S (Unit {0}))
  pub digest_key : Option (ℕ → ℕ → Reply S (Unit {0}))
  pub digest_final : Option (ℕ → Option (List ℕ) → Option ℕ → Reply S (List ℕ × ℕ))
  pub sign_init : Option (ℕ → Mechanism → ℕ → Reply S (Unit {0}))
  pub sign : Option (ℕ → Option (List ℕ) → ℕ → Option (List ℕ) → Option ℕ → Reply S (List ℕ × ℕ))
  pub sign_update : Option (ℕ → Option (List ℕ) → ℕ → Reply S (Unit {0}))
  pub sign_final : Option (ℕ → Option (List ℕ) → Option ℕ → Reply S (List ℕ × ℕ))
  pub sign_recover_init : Option (ℕ → Mechanism → ℕ → Reply S (Unit {0}))
  pub sign_recover :
      Option (ℕ → Option (List ℕ) → ℕ → Option (List ℕ) → Option ℕ → Reply S (List ℕ × ℕ))
  pub verify_init : Option (ℕ → Mechanism → ℕ → Reply S (Unit {0}))
  pub verify : Option (ℕ → Option (List ℕ) → ℕ → Option (List ℕ) → ℕ → Reply S (Unit {0}))
  pub verify_update : Option (ℕ → Option (List ℕ) → ℕ → Reply S (Unit {0}))
  pub verify_final : Option (ℕ → Option (List ℕ) → ℕ → Reply S (Unit {0}))
  pub verify_recover_init : Option (ℕ → Mechanism → ℕ → Reply S (Unit {0}))
  pub verify_recover :
      Option (ℕ → Option (List ℕ) → ℕ → Option (List ℕ) → Option ℕ → Reply S (List ℕ × ℕ))
  pub digest_encrypt_update :
      Option (ℕ → Option (List ℕ) → ℕ → Option (List ℕ) → Option ℕ → Reply S (List ℕ × ℕ))
  pub decrypt_digest_update :
      Option (ℕ → Option (List ℕ) → ℕ → Option (List ℕ) → Option ℕ → Reply S (List ℕ × ℕ))
  pub sign_encrypt_update :
      Option (ℕ → Option (List ℕ) → ℕ → Option (List ℕ) → Option ℕ → Reply S (List ℕ × ℕ))
  pub decrypt_verify_update :
      Option (ℕ → Option (List ℕ) → ℕ → Option (List ℕ) → Option ℕ → Reply S (List ℕ × ℕ))
  pub generate_key : Option (ℕ → Mechanism → Option (List Attribute) → ℕ → Reply S ℕ)
  pub generate_key_pair :
      Option (
        ℕ → Mechanism → Option (List Attribute) → ℕ → Option (List Attribute) → ℕ → Reply S (ℕ × ℕ))
  pub wrap_key : Option (ℕ → Mechanism → ℕ → ℕ → Option (List ℕ) → Option ℕ → Reply S (List ℕ × ℕ))
  pub unwrap_key :
      Option (ℕ → Mechanism → ℕ → Option (List ℕ) → ℕ → Option (List Attribute) → ℕ → Reply S ℕ)
  pub derive_key : Option (ℕ → Mechanism → ℕ → Option (List Attribute) → ℕ → Reply S ℕ)
  pub seed_random : Option (ℕ → Option (List ℕ) → ℕ → Reply S (Unit {0}))
  pub generate_random : Option (ℕ → Option (List ℕ) → ℕ → Reply S (List ℕ))

-- What the module has put into the room at a pointer: nothing, where it is NULL.
abbrev pub filled_at : {A B : Type 0} → Option A → B → Option B
filled_at none written = none
filled_at (some _) written = some written

-- The number that the module has stored at a pointer.
abbrev pub stored_at : Option ℕ → ℕ → Option ℕ
stored_at none n = none
stored_at (some _) n = some n

module _ {S : Type 0} where
  -- BEGIN_CALL: a function that the module does not have is CKR_GENERAL_ERROR.
  unfoldable pub begin_call : {A : Type 0} → Option A → Handler S A
  begin_call none = goto_cleanup ckr_general_error
  begin_call (some f) = pure f

  -- `_ret = func args`
  unfoldable pub run_module : {A : Type 0} → Reply S A → Handler S (ℕ × A)
  run_module f w =
      let (s, ret, results) = f w.module_state in
      done (record w { module_state = s }, value (ret, results))

  -- PROCESS_CALL: all arguments have been read.
  unfoldable pub process_call : {A : Type 0} → Reply S A → Handler S (ℕ × A)
  process_call f = do assert_that λ w. is_verified w.cs.req; run_module f
