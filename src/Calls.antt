-- ===== src/Calls.antt =====
-- gck-rpc-private.h: the identifiers of the calls, and the table of their names and signatures.
pub mod Table
use pkcs11_proxy.Common.{ℕ, zero, suc, Bool, Option, none, some, List, [], ◌∷◌, codes}
use Prim.Native.String.{String}

-- `enum { GCK_RPC_CALL_ERROR = 0, … }`
abbrev pub call_error : ℕ
call_error = 0

abbrev pub call_initialize : ℕ
call_initialize = 1

abbrev pub call_finalize : ℕ
call_finalize = 2

abbrev pub call_get_info : ℕ
call_get_info = 3

abbrev pub call_get_slot_list : ℕ
call_get_slot_list = 4

abbrev pub call_get_slot_info : ℕ
call_get_slot_info = 5

abbrev pub call_get_token_info : ℕ
call_get_token_info = 6

abbrev pub call_get_mechanism_list : ℕ
call_get_mechanism_list = 7

abbrev pub call_get_mechanism_info : ℕ
call_get_mechanism_info = 8

abbrev pub call_init_token : ℕ
call_init_token = 9

abbrev pub call_wait_for_slot_event : ℕ
call_wait_for_slot_event = 10

abbrev pub call_open_session : ℕ
call_open_session = 11

abbrev pub call_close_session : ℕ
call_close_session = 12

abbrev pub call_close_all_sessions : ℕ
call_close_all_sessions = 13

abbrev pub call_get_function_status : ℕ
call_get_function_status = 14

abbrev pub call_cancel_function : ℕ
call_cancel_function = 15

abbrev pub call_get_session_info : ℕ
call_get_session_info = 16

abbrev pub call_init_pin : ℕ
call_init_pin = 17

abbrev pub call_set_pin : ℕ
call_set_pin = 18

abbrev pub call_get_operation_state : ℕ
call_get_operation_state = 19

abbrev pub call_set_operation_state : ℕ
call_set_operation_state = 20

abbrev pub call_login : ℕ
call_login = 21

abbrev pub call_logout : ℕ
call_logout = 22

abbrev pub call_create_object : ℕ
call_create_object = 23

abbrev pub call_copy_object : ℕ
call_copy_object = 24

abbrev pub call_destroy_object : ℕ
call_destroy_object = 25

abbrev pub call_get_object_size : ℕ
call_get_object_size = 26

abbrev pub call_get_attribute_value : ℕ
call_get_attribute_value = 27

abbrev pub call_set_attribute_value : ℕ
call_set_attribute_value = 28

abbrev pub call_find_objects_init : ℕ
call_find_objects_init = 29

abbrev pub call_find_objects : ℕ
call_find_objects = 30

abbrev pub call_find_objects_final : ℕ
call_find_objects_final = 31

abbrev pub call_encrypt_init : ℕ
call_encrypt_init = 32

abbrev pub call_encrypt : ℕ
call_encrypt = 33

abbrev pub call_encrypt_update : ℕ
call_encrypt_update = 34

abbrev pub call_encrypt_final : ℕ
call_encrypt_final = 35

abbrev pub call_decrypt_init : ℕ
call_decrypt_init = 36

abbrev pub call_decrypt : ℕ
call_decrypt = 37

abbrev pub call_decrypt_update : ℕ
call_decrypt_update = 38

abbrev pub call_decrypt_final : ℕ
call_decrypt_final = 39

abbrev pub call_digest_init : ℕ
call_digest_init = 40

abbrev pub call_digest : ℕ
call_digest = 41

abbrev pub call_digest_update : ℕ
call_digest_update = 42

abbrev pub call_digest_key : ℕ
call_digest_key = 43

abbrev pub call_digest_final : ℕ
call_digest_final = 44

abbrev pub call_sign_init : ℕ
call_sign_init = 45

abbrev pub call_sign : ℕ
call_sign = 46

abbrev pub call_sign_update : ℕ
call_sign_update = 47

abbrev pub call_sign_final : ℕ
call_sign_final = 48

abbrev pub call_sign_recover_init : ℕ
call_sign_recover_init = 49

abbrev pub call_sign_recover : ℕ
call_sign_recover = 50

abbrev pub call_verify_init : ℕ
call_verify_init = 51

abbrev pub call_verify : ℕ
call_verify = 52

abbrev pub call_verify_update : ℕ
call_verify_update = 53

abbrev pub call_verify_final : ℕ
call_verify_final = 54

abbrev pub call_verify_recover_init : ℕ
call_verify_recover_init = 55

abbrev pub call_verify_recover : ℕ
call_verify_recover = 56

abbrev pub call_digest_encrypt_update : ℕ
call_digest_encrypt_update = 57

abbrev pub call_decrypt_digest_update : ℕ
call_decrypt_digest_update = 58

abbrev pub call_sign_encrypt_update : ℕ
call_sign_encrypt_update = 59

abbrev pub call_decrypt_verify_update : ℕ
call_decrypt_verify_update = 60

abbrev pub call_generate_key : ℕ
call_generate_key = 61

abbrev pub call_generate_key_pair : ℕ
call_generate_key_pair = 62

abbrev pub call_wrap_key : ℕ
call_wrap_key = 63

abbrev pub call_unwrap_key : ℕ
call_unwrap_key = 64

abbrev pub call_derive_key : ℕ
call_derive_key = 65

abbrev pub call_seed_random : ℕ
call_seed_random = 66

abbrev pub call_generate_random : ℕ
call_generate_random = 67

-- GCK_RPC_CALL_MAX
abbrev pub call_max : ℕ
call_max = 68

-- `GckRpcCall`; the name is only printed, and NULL is `none`.
pub record Call : Type 0 where
  pub call_id : ℕ
  pub name : String
  pub request : Option (List ℕ)
  pub response : Option (List ℕ)

abbrev row : ℕ → String → String → String → Call
row id name request response = record {
  call_id = id;
  name = name;
  request = some (codes request);
  response = some (codes response);
}

-- `gck_rpc_calls`
unfoldable pub calls : List Call
calls =
    record { call_id = call_error; name = "ERROR"; request = none; response = none }
    ∷ row call_initialize "C_Initialize" "ay" ""
    ∷ row call_finalize "C_Finalize" "" ""
    ∷ row call_get_info "C_GetInfo" "" "vsusv"
    ∷ row call_get_slot_list "C_GetSlotList" "yfu" "au"
    ∷ row call_get_slot_info "C_GetSlotInfo" "u" "ssuvv"
    ∷ row call_get_token_info "C_GetTokenInfo" "u" "ssssuuuuuuuuuuuvvs"
    ∷ row call_get_mechanism_list "C_GetMechanismList" "ufu" "au"
    ∷ row call_get_mechanism_info "C_GetMechanismInfo" "uu" "uuu"
    ∷ row call_init_token "C_InitToken" "uays" ""
    ∷ row call_wait_for_slot_event "C_WaitForSlotEvent" "u" "u"
    ∷ row call_open_session "C_OpenSession" "uu" "u"
    ∷ row call_close_session "C_CloseSession" "u" ""
    ∷ row call_close_all_sessions "C_CloseAllSessions" "u" ""
    ∷ row call_get_function_status "C_GetFunctionStatus" "u" ""
    ∷ row call_cancel_function "C_CancelFunction" "u" ""
    ∷ row call_get_session_info "C_GetSessionInfo" "u" "uuuu"
    ∷ row call_init_pin "C_InitPIN" "uay" ""
    ∷ row call_set_pin "C_SetPIN" "uayay" ""
    ∷ row call_get_operation_state "C_GetOperationState" "ufy" "ay"
    ∷ row call_set_operation_state "C_SetOperationState" "uayuu" ""
    ∷ row call_login "C_Login" "uuay" ""
    ∷ row call_logout "C_Logout" "u" ""
    ∷ row call_create_object "C_CreateObject" "uaA" "u"
    ∷ row call_copy_object "C_CopyObject" "uuaA" "u"
    ∷ row call_destroy_object "C_DestroyObject" "uu" ""
    ∷ row call_get_object_size "C_GetObjectSize" "uu" "u"
    ∷ row call_get_attribute_value "C_GetAttributeValue" "uufA" "aAu"
    ∷ row call_set_attribute_value "C_SetAttributeValue" "uuaA" ""
    ∷ row call_find_objects_init "C_FindObjectsInit" "uaA" ""
    ∷ row call_find_objects "C_FindObjects" "ufu" "au"
    ∷ row call_find_objects_final "C_FindObjectsFinal" "u" ""
    ∷ row call_encrypt_init "C_EncryptInit" "uMu" ""
    ∷ row call_encrypt "C_Encrypt" "uayfy" "ay"
    ∷ row call_encrypt_update "C_EncryptUpdate" "uayfy" "ay"
    ∷ row call_encrypt_final "C_EncryptFinal" "ufy" "ay"
    ∷ row call_decrypt_init "C_DecryptInit" "uMu" ""
    ∷ row call_decrypt "C_Decrypt" "uayfy" "ay"
    ∷ row call_decrypt_update "C_DecryptUpdate" "uayfy" "ay"
    ∷ row call_decrypt_final "C_DecryptFinal" "ufy" "ay"
    ∷ row call_digest_init "C_DigestInit" "uM" ""
    ∷ row call_digest "C_Digest" "uayfy" "ay"
    ∷ row call_digest_update "C_DigestUpdate" "uay" ""
    ∷ row call_digest_key "C_DigestKey" "uu" ""
    ∷ row call_digest_final "C_DigestFinal" "ufy" "ay"
    ∷ row call_sign_init "C_SignInit" "uMu" ""
    ∷ row call_sign "C_Sign" "uayfy" "ay"
    ∷ row call_sign_update "C_SignUpdate" "uay" ""
    ∷ row call_sign_final "C_SignFinal" "ufy" "ay"
    ∷ row call_sign_recover_init "C_SignRecoverInit" "uMu" ""
    ∷ row call_sign_recover "C_SignRecover" "uayfy" "ay"
    ∷ row call_verify_init "C_VerifyInit" "uMu" ""
    ∷ row call_verify "C_Verify" "uayay" ""
    ∷ row call_verify_update "C_VerifyUpdate" "uay" ""
    ∷ row call_verify_final "C_VerifyFinal" "uay" ""
    ∷ row call_verify_recover_init "C_VerifyRecoverInit" "uMu" ""
    ∷ row call_verify_recover "C_VerifyRecover" "uayfy" "ay"
    ∷ row call_digest_encrypt_update "C_DigestEncryptUpdate" "uayfy" "ay"
    ∷ row call_decrypt_digest_update "C_DecryptDigestUpdate" "uayfy" "ay"
    ∷ row call_sign_encrypt_update "C_SignEncryptUpdate" "uayfy" "ay"
    ∷ row call_decrypt_verify_update "C_DecryptVerifyUpdate" "uayfy" "ay"
    ∷ row call_generate_key "C_GenerateKey" "uMaA" "u"
    ∷ row call_generate_key_pair "C_GenerateKeyPair" "uMaAaA" "uu"
    ∷ row call_wrap_key "C_WrapKey" "uMuufy" "ay"
    ∷ row call_unwrap_key "C_UnwrapKey" "uMuayaA" "u"
    ∷ row call_derive_key "C_DeriveKey" "uMuaA" "u"
    ∷ row call_seed_random "C_SeedRandom" "uay" ""
    ∷ row call_generate_random "C_GenerateRandom" "ufy" "ay"
    ∷ []

unfoldable pub get_elem? : List Call → ℕ → Option Call
get_elem? [] i = none
get_elem? (c ∷ cs) zero = some c
get_elem? (c ∷ cs) (suc i) = get_elem? cs i

-- `gck_rpc_calls[call_id].request` and `.response`; `none` also where there is no such row.
unfoldable pub request_of : ℕ → Option (List ℕ)
unfolding calls get_elem?
request_of call_id = elim (get_elem? calls call_id) [ none ↦ none | some c ↦ c.request ]

unfoldable pub response_of : ℕ → Option (List ℕ)
unfolding calls get_elem?
response_of call_id = elim (get_elem? calls call_id) [ none ↦ none | some c ↦ c.response ]
