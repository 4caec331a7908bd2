-- ===== src/Tests/Dispatches.antt =====
-- A connection, a module with three functions, and the properties of gck-rpc-dispatch.c at them.
use pkcs11_proxy.Common.{
  ℕ, ◌+◌, ◌≡◌, refl, Bool, true, Option, none, some, List, [], ◌∷◌, length, take, drop, replicate,
  ltb, if◌then◌else◌, done, abort, arith,
}
use pkcs11_proxy.Pkcs11.{Version, SlotInfo, ckr_ok}
use pkcs11_proxy.Util.HostPort.{parse_host_port, parse_host_port_plain, parse_host_port_bracketed}
use pkcs11_proxy.Util.Purge.{
  Leaves, supported, mechanism_list_purge, mechanism_list_purge-HoldsList,
}
use pkcs11_proxy.Buffer.{reserve, reset}
use pkcs11_proxy.Buffer.Ints.{decode_uint32}
use pkcs11_proxy.Message.{Message, request, message_parse, message_reset}
use pkcs11_proxy.Dispatch.{CallState, SessionState, World, call_reset}
use pkcs11_proxy.Dispatch.Proto.{Machine}
use pkcs11_proxy.Dispatch.Library.{FunctionList}
use pkcs11_proxy.Dispatch.Sessions.{remember, forget, close_chosen, is_of_slot, is_gone}
use pkcs11_proxy.Dispatch.Calls.Slots.{handshake, is_handshake}
use pkcs11_proxy.Dispatch.Handshake.{is_handshake_iff}
use pkcs11_proxy.Dispatch.Cases.{cases}
use pkcs11_proxy.Dispatch.Server.{Socket, switch, serve, dispatch_call, with_req}
use pkcs11_proxy.Dispatch.Opened.{IsPresent}
use pkcs11_proxy.Dispatch.Completion.{CompletesCall, handlers-Completes}
use pkcs11_proxy.Dispatch.Dispatched.{Answers, parse-dispatch_call-Answers, serve_empty}
use pkcs11_proxy.Dispatch.Table.{
  Remembers, remember-Remembers, ids, forget-remember, Closes, close_chosen-Closes,
}
use pkcs11_proxy.Tests.Messages.{received_message}

abbrev pub test_machine : Machine
test_machine = record { ulong_size = 8; malloc = λ n. ltb n 100000; shutdown = λ s. true }

abbrev test_version : Version
test_version = record { major = 1; minor = 0 }

abbrev test_info : SlotInfo
test_info = record {
  slot_description = replicate 64 32;
  manufacturer_id = replicate 32 32;
  flags = 1;
  hardware_version = test_version;
  firmware_version = test_version;
}

-- The module counts its calls.
abbrev pub test_lib : FunctionList ℕ
test_lib = record {
  get_info = none;
  get_slot_list = none;
  get_slot_info = some (λ slot s. (s + 1, ckr_ok, test_info));
  get_token_info = none;
  get_mechanism_list = none;
  get_mechanism_info = none;
  init_token = none;
  wait_for_slot_event = none;
  open_session = some (λ slot flags s. (s + 1, ckr_ok, s + 100));
  close_session = some (λ session s. (s + 1, ckr_ok, tt));
  close_all_sessions = none;
  get_function_status = none;
  cancel_function = none;
  get_session_info = none;
  init_pin = none;
  set_pin = none;
  get_operation_state = none;
  set_operation_state = none;
  login = none;
  logout = none;
  create_object = none;
  copy_object = none;
  destroy_object = none;
  get_object_size = none;
  get_attribute_value = none;
  set_attribute_value = none;
  find_objects_init = none;
  find_objects = none;
  find_objects_final = none;
  encrypt_init = none;
  encrypt = none;
  encrypt_update = none;
  encrypt_final = none;
  decrypt_init = none;
  decrypt = none;
  decrypt_update = none;
  decrypt_final = none;
  digest_init = none;
  digest = none;
  digest_update = none;
  digest_key = none;
  digest_final = none;
  sign_init = none;
  sign = none;
  sign_update = none;
  sign_final = none;
  sign_recover_init = none;
  sign_recover = none;
  verify_init = none;
  verify = none;
  verify_update = none;
  verify_final = none;
  verify_recover_init = none;
  verify_recover = none;
  digest_encrypt_update = none;
  decrypt_digest_update = none;
  sign_encrypt_update = none;
  decrypt_verify_update = none;
  generate_key = none;
  generate_key_pair = none;
  wrap_key = none;
  unwrap_key = none;
  derive_key = none;
  seed_random = none;
  generate_random = none;
}

abbrev test_lib-IsPresent : IsPresent test_lib
test_lib-IsPresent = record {
  slot_info = λ slot s. (s + 1, ckr_ok, test_info);
  slot_info_there = refl;
  close = λ session s. (s + 1, ckr_ok, tt);
  close_there = refl;
}

abbrev session_one : SessionState
session_one = record { id = 11; slot = 1 }

abbrev session_two : SessionState
session_two = record { id = 12; slot = 2 }

abbrev free_position : SessionState
free_position = record { id = 0; slot = 0 }

abbrev test_sessions : List SessionState
test_sessions = session_one ∷ free_position ∷ session_two ∷ free_position ∷ []

-- The connection has received a request for C_GetSlotInfo.
abbrev pub test_state : CallState
test_state = record {
  req = received_message;
  resp = received_message;
  allocated = [];
  appid = 9;
  sock = some 4;
  sessions = test_sessions;
}

abbrev pub test_world : World ℕ
test_world = record { cs = test_state; peers = []; module_state = 0 }

handlers-Completes_example : CompletesCall 5 (switch 5 (cases test_machine test_lib))
handlers-Completes_example =
    handlers-Completes test_machine refl test_lib test_lib-IsPresent 5 (omega arith) (omega arith)

parse-dispatch_call-Answers_example :
    (r : Message × Bool) × (message_parse received_message request ≡ done r)
    × (r.1 ≡ true
        → Answers r.0.call_id (dispatch_call test_machine test_lib (with_req test_world r.0)))
parse-dispatch_call-Answers_example =
    parse-dispatch_call-Answers test_machine refl test_lib test_lib-IsPresent test_world

-- A client that has sent these bytes.
abbrev test_receive : ℕ → List ℕ → List ℕ × Option (List ℕ)
test_receive n t = if ltb (length t) n then (t, none) else (drop n t, some (take n t))

abbrev pub test_socket : Socket (List ℕ)
test_socket = record { receive = test_receive; send = λ bytes t. (t, true) }

serve_empty_example :
    serve test_machine test_lib test_socket test_world (0 ∷ 0 ∷ 0 ∷ 0 ∷ []) ≡ abort
unfolding decode_uint32 reserve call_reset message_reset reset
serve_empty_example =
    serve_empty test_machine test_lib test_socket test_world (0 ∷ 0 ∷ 0 ∷ 0 ∷ [])
      (0 ∷ 0 ∷ 0 ∷ 0 ∷ []) refl refl refl

abbrev session_new : SessionState
session_new = record { id = 13; slot = 1 }

remember-Remembers_example :
    Remembers session_new test_sessions (remember session_new test_sessions)
remember-Remembers_example = remember-Remembers session_new test_sessions

forget-remember_example :
    ids (forget 13 (session_one ∷ session_new ∷ session_two ∷ free_position ∷ []))
    ≡ ids test_sessions
unfolding remember
forget-remember_example =
    forget-remember session_new test_sessions
      (session_one ∷ session_new ∷ session_two ∷ free_position ∷ [])
      (refl, (refl, (refl, (refl, tt)))) refl

close_chosen-Closes_example :
    (r : List SessionState × ℕ × ℕ) × (close_chosen
        (some (λ session s. (s + 1, ckr_ok, tt)))
        (is_of_slot 1)
        is_gone
        test_sessions
        0
      ≡ done r)
    × Closes (λ session s. (s + 1, ckr_ok, tt)) (is_of_slot 1) is_gone test_sessions 0 r
close_chosen-Closes_example =
    close_chosen-Closes (λ session s. (s + 1, ckr_ok, tt)) (is_of_slot 1) is_gone refl test_sessions
      0

-- CKM_RSA_PKCS, a mechanism that is not known, CKM_SHA_1, and what lies behind them in memory
mechanism_list_purge-HoldsList_example :
    Leaves
      (supported (1 ∷ 0x9999 ∷ 0x220 ∷ []))
      (mechanism_list_purge 77 (1 ∷ 0x9999 ∷ 0x220 ∷ []) 3)
mechanism_list_purge-HoldsList_example =
    mechanism_list_purge-HoldsList 77 (1 ∷ 0x9999 ∷ 0x220 ∷ []) [] (omega arith)

-- "lo:17" and "[::1]:17"
parse_host_port_plain_example :
    parse_host_port (108 ∷ 111 ∷ 58 ∷ 49 ∷ 55 ∷ []) true
    ≡ some (108 ∷ 111 ∷ [], some (49 ∷ 55 ∷ []))
parse_host_port_plain_example =
    parse_host_port_plain 108 (111 ∷ []) (49 ∷ 55 ∷ []) (omega arith)
      (λ e. omega arith, (λ e. omega arith, tt))

parse_host_port_bracketed_example :
    parse_host_port (91 ∷ 58 ∷ 58 ∷ 49 ∷ 93 ∷ 58 ∷ 49 ∷ 55 ∷ []) true
    ≡ some (58 ∷ 58 ∷ 49 ∷ [], some (49 ∷ 55 ∷ []))
parse_host_port_bracketed_example =
    parse_host_port_bracketed (58 ∷ 58 ∷ 49 ∷ []) (49 ∷ 55 ∷ [])
      (λ e. omega arith, (λ e. omega arith, (λ e. omega arith, tt)))

-- A greeting without its last letter.
is_handshake_iff_example :
    (is_handshake (some (take 40 handshake)) 40 ≡ true
      → (◌≡◌ {A = Option (List ℕ)} (some (take 40 handshake)) (some handshake))
        × (40 ≡ length handshake))
    × (◌≡◌ {A = Option (List ℕ)} (some (take 40 handshake)) (some handshake)
        → 40 ≡ length handshake
        → is_handshake (some (take 40 handshake)) 40 ≡ true)
is_handshake_iff_example = is_handshake_iff (some (take 40 handshake)) 40
