-- ===== src/Tests/Exchanges.antt =====
-- A request for C_CloseSession and its response, from one end to the other.
use pkcs11_proxy.Common.{
  ℕ, ◌≡◌, refl, true, some, List, [], ◌++◌, codes, length, write_at, memset, done, arith,
}
use pkcs11_proxy.Pkcs11.{ckr_ok}
use pkcs11_proxy.Wire.{be32, be64}
use pkcs11_proxy.Calls.{request_of, response_of, call_close_session}
use pkcs11_proxy.Buffer.{Buffer, reserve, reset, append}
use pkcs11_proxy.Buffer.Ints.{add_uint32}
use pkcs11_proxy.Buffer.Arrays.{add_byte_array}
use pkcs11_proxy.Buffer.Inv.{IsValid}
use pkcs11_proxy.Buffer.Unread.{unread}
use pkcs11_proxy.Message.{
  Message, MessageType, request, response, message_prep, message_parse, message_reset, prepared,
  prep_signature, encode_header,
}
use pkcs11_proxy.Message.Advance.{Expects}
use pkcs11_proxy.Message.Heading.{headed, message_parse-message_prep}
use pkcs11_proxy.Dispatch.{World, call_reset}
use pkcs11_proxy.Dispatch.Server.{serve, dispatch_call, with_req}
use pkcs11_proxy.Dispatch.Served.{responded, serve-message_prep}
use pkcs11_proxy.Client.{Socket}
use pkcs11_proxy.Client.Session.{call_run}
use pkcs11_proxy.Client.Answered.{Response, HasRoom, Complete, answered, call_run-message_prep}
use pkcs11_proxy.Tests.Clients
use pkcs11_proxy.Tests.Clients.{
  block, empty_message, answer, request_bytes, request_message, test_host, complete, waiting,
}
use pkcs11_proxy.Tests.Dispatches
use pkcs11_proxy.Tests.Dispatches.{test_machine, test_lib, test_world, test_state}

block-IsValid : IsValid (block [])
block-IsValid = record {
  sized = refl;
  fits = omega arith;
  bounded = omega arith;
  bytes = omega arith;
  lawful = λ a e. cc;
}

-- A message of which the head is filled in.
abbrev started : MessageType → List ℕ → Message
started type text = record {
  call_id = call_close_session;
  call_type = type;
  signature = some text;
  buffer = block (be32 call_close_session ++ (be32 (length text) ++ text));
  parsed = 0;
  sigverify = some text;
}

starts :
    (message_prep empty_message call_close_session request
      ≡ done (started request (codes "u"), true))
    × (message_prep empty_message call_close_session response ≡ done (started response [], true))
unfolding message_prep prep_signature request_of prepared encode_header add_byte_array add_uint32
    reserve message_reset reset pkcs11_proxy.Buffer.Ints.set_uint32 append write_at
    pkcs11_proxy.Buffer.Ints.encode_uint32 memset response_of
starts = (refl, refl)

abbrev whole_request : Message
whole_request = record empty_message { buffer = block request_bytes }

whole_request-IsValid : IsValid whole_request.buffer
whole_request-IsValid = record {
  sized = refl;
  fits = omega arith;
  bounded = omega arith;
  bytes = omega arith;
  lawful = λ a e. cc;
}

message_parse-message_prep_example :
    (next : ℕ) × (message_parse whole_request request
      ≡ done (headed whole_request request call_close_session (codes "u") next, true))
    × (unread whole_request.buffer next ≡ be64 3)
    × Expects (started request (codes "u")) (codes "u")
    × Expects (headed whole_request request call_close_session (codes "u") next) (codes "u")
unfolding request_of
message_parse-message_prep_example =
    message_parse-message_prep empty_message (started request (codes "u")) whole_request request
      call_close_session (codes "u") (be64 3) block-IsValid (omega arith) (omega arith) refl
      starts.0 whole_request-IsValid refl

-- A connection that was emptied, and a client that sends the request.
abbrev idle_world : World ℕ
idle_world = record test_world { cs = record test_state { req = empty_message } }

serve-message_prep_example :
    (asked : Message) × (serve test_machine test_lib Dispatches.test_socket idle_world
        (be32 17 ++ request_bytes)
      ≡ responded test_machine test_lib Dispatches.test_socket [] (
          dispatch_call test_machine test_lib
            (with_req (record idle_world { cs = call_reset idle_world.cs }) asked)))
    × (asked.call_id ≡ call_close_session)
    × (unread asked.buffer asked.parsed ≡ be64 3)
    × Expects asked (codes "u")
unfolding request_of reset reserve
serve-message_prep_example =
    serve-message_prep test_machine test_lib Dispatches.test_socket empty_message
      (started request (codes "u")) call_close_session (codes "u") request_bytes (be64 3) idle_world
      (be32 17 ++ request_bytes) request_bytes [] refl block-IsValid (omega arith) (omega arith)
      refl starts.0 refl (omega arith) (omega arith) (omega arith) refl refl block-IsValid refl
      (omega arith)

answer-Response : Response call_close_session [] [] answer
answer-Response = record {
  start = empty_message;
  message = started response [];
  valid = block-IsValid;
  prepared_there = starts.1;
  whole = refl;
  all_bytes = omega arith;
}

complete-HasRoom : HasRoom test_host complete 8
unfolding reserve reset
complete-HasRoom = record {
  resp = empty_message;
  there = refl;
  valid = block-IsValid;
  given = refl;
  fits = omega arith;
}

complete-Complete : Complete call_close_session complete request_message
complete-Complete = record {
  status = refl;
  given = refl;
  id = refl;
  verified_whole = refl;
  sound = refl;
  some_bytes = omega arith;
}

call_run-message_prep_example :
    (s' : Socket) × (resp : Message) × (call_run test_host complete
      ≡ done (answered complete s' request_message resp, ckr_ok))
    × (unread resp.buffer resp.parsed ≡ [])
    × Expects resp []
    × (s'.outgoing ≡ be32 17 ++ request_bytes)
    × (s'.incoming ≡ [])
unfolding response_of
call_run-message_prep_example =
    call_run-message_prep test_host complete (Clients.test_socket (be32 8 ++ answer))
      request_message call_close_session [] [] answer [] (omega arith) (omega arith) refl
      (record {
        given = refl;
        plain = refl;
        harmless = (omega arith, (tt, (omega arith, (tt, tt))));
      })
      complete-Complete answer-Response (omega arith) complete-HasRoom refl
