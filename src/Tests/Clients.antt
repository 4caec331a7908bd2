-- ===== src/Tests/Clients.antt =====
-- A module with one connection in its pool, and the properties of gck-rpc-module.c at it.
use pkcs11_proxy.Common.{
  list_eq, ℕ, ◌-◌, ◌≡◌, ◌≢◌, refl, Bool, true, false, Option, none, some, List, [], ◌∷◌, ◌++◌,
  length, take, drop, codes, replicate, All, Outcome, done, abort, Step, value, cleanup, arith,
}
use pkcs11_proxy.Pkcs11.{ckr_ok}
use pkcs11_proxy.Wire.{be32, be64}
use pkcs11_proxy.Calls.{request_of, response_of, call_error, call_close_session}
use pkcs11_proxy.Buffer.{Buffer, reserve}
use pkcs11_proxy.Message.{Message, request, response, message_parse}
use pkcs11_proxy.Message.Answer.{IsAnswer, message_parse-IsAnswer}
use pkcs11_proxy.Client.{
  Reply, moved, failed, eagain, eintr, Socket, CallState, Module, Host, call_ready, call_transit,
  call_prep, call_parse,
}
use pkcs11_proxy.Client.Course.{Course, finished}
use pkcs11_proxy.Client.Transport.{call_write, call_read}
use pkcs11_proxy.Client.Session.{call_lookup, call_run, call_done, exchange}
use pkcs11_proxy.Client.Delivered.{Harmless, call_write_delivers, call_read_receives}
use pkcs11_proxy.Client.Invariant.{IsPool, Building, Settled, SameGlobals}
use pkcs11_proxy.Client.Looked.{Found, call_lookup-Found}
use pkcs11_proxy.Client.Dialog.{Accepted, call_run-Accepted}
use pkcs11_proxy.Client.Stashed.{call_done-IsPool}
use pkcs11_proxy.Client.Exchanged.{IsOpen, exchange_empty}
use pkcs11_proxy.Client.Requests.{c_close_session, id_of, perform, perform_all}
use pkcs11_proxy.Client.Performed.{Performs, perform-Performs, perform_all-IsPool}

-- The answer to C_CloseSession: its number and its signature, which is empty.
abbrev pub answer : List ℕ
answer = be32 call_close_session ++ be32 0

-- A daemon that sends this, on a machine that moves few bytes at a time and is interrupted.
abbrev pub test_socket : List ℕ → Socket
test_socket incoming = record {
  incoming = incoming;
  outgoing = [];
  replies = moved 3 ∷ failed eintr ∷ moved 1 ∷ failed eagain ∷ [];
}

-- A block of 64 bytes that begins with these.
abbrev pub block : List ℕ → Buffer
block bytes = record {
  buf = bytes ++ replicate (64 - length bytes) 0;
  len = length bytes;
  allocated_len = 64;
  failures = 0;
  allocator = none;
}

abbrev pub request_bytes : List ℕ
request_bytes = be32 call_close_session ++ (be32 1 ++ codes "u") ++ be64 3

abbrev pub empty_message : Message
empty_message = record {
  call_id = call_error;
  call_type = response;
  signature = none;
  buffer = block [];
  parsed = 0;
  sigverify = none;
}

abbrev pub waiting : List ℕ → CallState
waiting incoming = record {
  socket = some (test_socket incoming);
  req = some empty_message;
  resp = some empty_message;
  call_status = call_ready;
  tls = false;
}

abbrev pub test_module : Module
test_module = record {
  initialized = true;
  initialized_pid = 77;
  app_id = 5;
  socket_path = codes "/run/p11";
  tls_psk_key_filename = [];
  call_state_pool = waiting (be32 8 ++ answer) ∷ [];
  n_call_state_pool = 1;
}

pub test_module-IsPool : IsPool test_module
test_module-IsPool = record {
  counted = refl;
  bounded = omega arith;
  ready = (record { status = refl; connection = _; connected = refl }, tt);
  path = λ up. omega arith;
}

call_write_delivers_example :
    (s' : Socket) × (call_write (waiting answer) (1 ∷ 2 ∷ 3 ∷ 4 ∷ 5 ∷ [])
      ≡ done (record (waiting answer) { socket = some s' }, ckr_ok))
    × (s'.outgoing ≡ 1 ∷ 2 ∷ 3 ∷ 4 ∷ 5 ∷ [])
    × (s'.incoming ≡ answer)
    × All Harmless s'.replies
call_write_delivers_example =
    call_write_delivers (waiting answer) (test_socket answer) (1 ∷ 2 ∷ 3 ∷ 4 ∷ 5 ∷ []) refl refl
      (omega arith, (tt, (omega arith, (tt, tt)))) (omega arith)

call_read_receives_example :
    (s' : Socket) × (call_read (waiting answer) 5
      ≡ done (record (waiting answer) { socket = some s' }, take 5 answer, ckr_ok))
    × (s'.incoming ≡ drop 5 answer)
    × (s'.outgoing ≡ [])
    × All Harmless s'.replies
call_read_receives_example =
    call_read_receives (waiting answer) (test_socket answer) 5 refl refl
      (omega arith, (tt, (omega arith, (tt, tt)))) (omega arith) (omega arith)

abbrev pub test_host : Host
test_host = record {
  ulong_size = 8;
  past_array = 77;
  call_allocator = record { addr = 1; realloc = λ old n. some (take n (old ++ replicate n 0)) };
  state_given = true;
  req_given = true;
  resp_given = true;
  host_given = true;
  tls_given = true;
  init_tls = true;
  start_tls = true;
  connect_unix = λ path. some (test_socket (be32 8 ++ answer));
  connect_tcp = λ address port. none;
}

call_lookup-Found_example :
    (out : Module × Step CallState) × (call_lookup test_host test_module ≡ done out)
    × Found test_module out
call_lookup-Found_example = call_lookup-Found test_host test_module test_module-IsPool (omega arith)

perform-Performs_example :
    Performs test_host call_close_session test_module
      (perform test_host (c_close_session 3) test_module)
unfolding id_of
perform-Performs_example =
    perform-Performs test_host (c_close_session 3) test_module test_module-IsPool refl

abbrev closed : Course (Module × ℕ)
closed = perform test_host (c_close_session 3) test_module

abbrev pub request_message : Message
request_message = record {
  call_id = call_close_session;
  call_type = request;
  signature = some (codes "u");
  buffer = block request_bytes;
  parsed = 0;
  sigverify = some [];
}

-- The request has gone out behind its length, and the connection is back in the pool.
abbrev closed_module : Module
closed_module = record test_module {
  call_state_pool =
      record {
        socket = some (record { incoming = []; outgoing = be32 17 ++ request_bytes; replies = [] });
        req = some request_message;
        resp = some (record {
          call_id = call_close_session;
          call_type = response;
          signature = some [];
          buffer = block answer;
          parsed = 8;
          sigverify = some [];
        });
        call_status = call_ready;
        tls = false;
      }
      ∷ [];
}

closes : perform_all ((test_host, c_close_session 3) ∷ []) test_module ≡ finished closed_module
unfolding perform_all perform pkcs11_proxy.Client.Calls.Sessions.rpc_close_session
    pkcs11_proxy.Client.Begin.return_val_if_fail pkcs11_proxy.Client.Begin.begin_call call_lookup
    pkcs11_proxy.Client.Session.call_prepare pkcs11_proxy.Message.message_prep
    pkcs11_proxy.Message.prep_signature request_of pkcs11_proxy.Message.prepared
    pkcs11_proxy.Message.encode_header pkcs11_proxy.Buffer.Arrays.add_byte_array
    pkcs11_proxy.Buffer.Ints.add_uint32 reserve pkcs11_proxy.Message.message_reset
    pkcs11_proxy.Buffer.reset pkcs11_proxy.Buffer.Ints.set_uint32 pkcs11_proxy.Buffer.append
    pkcs11_proxy.Client.Caller.◌>>◌ pkcs11_proxy.Client.Caller.◌>>=◌
    pkcs11_proxy.Client.Proto.in_ulong pkcs11_proxy.Client.Caller.on_req
    pkcs11_proxy.Message.Write.write_ulong pkcs11_proxy.Message.check_part
    pkcs11_proxy.Message.verify_part pkcs11_proxy.Common.strip_prefix
    pkcs11_proxy.Buffer.Ints.add_uint64 pkcs11_proxy.Client.Begin.process_call call_run
    pkcs11_proxy.Message.is_verified pkcs11_proxy.Client.Session.call_send_recv exchange
    pkcs11_proxy.Client.Session.send_request call_write pkcs11_proxy.Buffer.Ints.encode_uint32
    pkcs11_proxy.Client.Transport.write_loop pkcs11_proxy.Client.Transport.result_of
    pkcs11_proxy.Common.write_at pkcs11_proxy.Common.memset call_read
    pkcs11_proxy.Client.Transport.read_loop pkcs11_proxy.Client.Transport.read_rest
    pkcs11_proxy.Buffer.Ints.decode_uint32 message_parse pkcs11_proxy.Message.parse_call
    pkcs11_proxy.Buffer.Ints.get_uint32 pkcs11_proxy.Client.Session.received
    pkcs11_proxy.Buffer.add_empty pkcs11_proxy.Message.parse_signature response_of
    pkcs11_proxy.Buffer.Arrays.get_byte_array pkcs11_proxy.Buffer.and_next
    pkcs11_proxy.Client.Caller.pure pkcs11_proxy.Client.Begin.end_call call_done
    pkcs11_proxy.Client.Session.final_code pkcs11_proxy.Client.Session.stash
closes = refl

perform_all-IsPool_example : IsPool closed_module × SameGlobals test_module closed_module
perform_all-IsPool_example =
    perform_all-IsPool ((test_host, c_close_session 3) ∷ []) test_module closed_module
      test_module-IsPool (refl, tt) closes

-- The request is complete, and the daemon answers.
abbrev pub complete : CallState
complete = record (waiting (be32 8 ++ answer)) {
  req = some request_message;
  call_status = call_prep;
}

abbrev answered : CallState
answered = record complete {
  socket = some (record { incoming = []; outgoing = be32 17 ++ request_bytes; replies = [] });
  resp = some (record {
    call_id = call_close_session;
    call_type = response;
    signature = some [];
    buffer = block answer;
    parsed = 8;
    sigverify = some [];
  });
  call_status = call_parse;
}

runs : call_run test_host complete ≡ done (answered, ckr_ok)
unfolding perform_all perform pkcs11_proxy.Client.Calls.Sessions.rpc_close_session
    pkcs11_proxy.Client.Begin.return_val_if_fail pkcs11_proxy.Client.Begin.begin_call call_lookup
    pkcs11_proxy.Client.Session.call_prepare pkcs11_proxy.Message.message_prep
    pkcs11_proxy.Message.prep_signature request_of pkcs11_proxy.Message.prepared
    pkcs11_proxy.Message.encode_header pkcs11_proxy.Buffer.Arrays.add_byte_array
    pkcs11_proxy.Buffer.Ints.add_uint32 reserve pkcs11_proxy.Message.message_reset
    pkcs11_proxy.Buffer.reset pkcs11_proxy.Buffer.Ints.set_uint32 pkcs11_proxy.Buffer.append
    pkcs11_proxy.Client.Caller.◌>>◌ pkcs11_proxy.Client.Caller.◌>>=◌
    pkcs11_proxy.Client.Proto.in_ulong pkcs11_proxy.Client.Caller.on_req
    pkcs11_proxy.Message.Write.write_ulong pkcs11_proxy.Message.check_part
    pkcs11_proxy.Message.verify_part pkcs11_proxy.Common.strip_prefix
    pkcs11_proxy.Buffer.Ints.add_uint64 pkcs11_proxy.Client.Begin.process_call call_run
    pkcs11_proxy.Message.is_verified pkcs11_proxy.Client.Session.call_send_recv exchange
    pkcs11_proxy.Client.Session.send_request call_write pkcs11_proxy.Buffer.Ints.encode_uint32
    pkcs11_proxy.Client.Transport.write_loop pkcs11_proxy.Client.Transport.result_of
    pkcs11_proxy.Common.write_at pkcs11_proxy.Common.memset call_read
    pkcs11_proxy.Client.Transport.read_loop pkcs11_proxy.Client.Transport.read_rest
    pkcs11_proxy.Buffer.Ints.decode_uint32 message_parse pkcs11_proxy.Message.parse_call
    pkcs11_proxy.Buffer.Ints.get_uint32 pkcs11_proxy.Client.Session.received
    pkcs11_proxy.Buffer.add_empty pkcs11_proxy.Message.parse_signature response_of
    pkcs11_proxy.Buffer.Arrays.get_byte_array pkcs11_proxy.Buffer.and_next
    pkcs11_proxy.Client.Caller.pure pkcs11_proxy.Client.Begin.end_call call_done
    pkcs11_proxy.Client.Session.final_code pkcs11_proxy.Client.Session.stash
runs = refl

complete-Building : Building call_close_session [] complete
complete-Building = record {
  status = refl;
  connection = _;
  connected = refl;
  request = request_message;
  given = refl;
  id = refl;
  signature = codes "u";
  signed = refl;
  rest = refl;
}

call_run-Accepted_example : Accepted call_close_session [] (answered, ckr_ok)
unfolding response_of
call_run-Accepted_example =
    call_run-Accepted test_host call_close_session [] complete (answered, ckr_ok) complete-Building
      refl runs

answered-Settled : Settled [] ckr_ok answered
answered-Settled = record {
  begun = λ e. cc;
  response = λ ok. _;
  given = λ ok. refl;
  signature = λ ok. [];
  signed = λ ok. refl;
  rest = λ ok. refl;
}

call_done-IsPool_example :
    (r : Module × ℕ) × (call_done test_module answered ckr_ok ≡ done r)
    × IsPool r.0
    × SameGlobals test_module r.0
call_done-IsPool_example =
    call_done-IsPool test_module answered ckr_ok test_module-IsPool answered-Settled

message_parse-IsAnswer_example :
    (r : Message × Bool) × (message_parse (record empty_message { buffer = block answer }) response
      ≡ done r)
    × IsAnswer r.0
message_parse-IsAnswer_example =
    message_parse-IsAnswer (record empty_message { buffer = block answer }) refl refl

-- In the middle of the call.
abbrev under_way : List ℕ → CallState
under_way incoming = record (waiting incoming) {
  req = some request_message;
  call_status = call_transit;
}

under_way-IsOpen : (incoming : List ℕ) → IsOpen (under_way incoming) (test_socket incoming)
under_way-IsOpen incoming = record {
  given = refl;
  plain = refl;
  harmless = (omega arith, (tt, (omega arith, (tt, tt))));
}

exchange_empty_example :
    exchange (under_way (be32 0 ++ answer)) request_message empty_message ≡ abort
unfolding reserve
exchange_empty_example =
    exchange_empty (under_way (be32 0 ++ answer)) (test_socket _) request_message empty_message
      answer (under_way-IsOpen _) (omega arith) refl refl
