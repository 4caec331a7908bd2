-- ===== src/Tests/Starts.antt =====
-- A module that is taken down and brought up, and the arguments of C_Initialize.
use pkcs11_proxy.Common.{
  list_eq, ◌≡◌, refl, true, false, none, some, [], ◌∷◌, codes, done, value, arith,
}
use pkcs11_proxy.Client.{
  Reply, moved, failed, eagain, eintr, Socket, CallState, Module, Host, call_ready, call_transit,
  call_prep, call_parse,
}
use pkcs11_proxy.Client.Invariant.{IsPool}
use pkcs11_proxy.Client.Arguments.{arguments_of}
use pkcs11_proxy.Client.Initialize.{
  Process, InitializeArgs, take_args, rpc_initialize, rpc_finalize,
}
use pkcs11_proxy.Client.Updown.{Finalizes, rpc_finalize-Finalizes}
use pkcs11_proxy.Client.Started.{Initializes, rpc_initialize-Initializes}
use pkcs11_proxy.Wire.{be32}
use pkcs11_proxy.Client.Course.{halted}
use pkcs11_proxy.Client.Requests.{c_close_session, perform}
use pkcs11_proxy.Tests.Clients.{
  waiting, request_message, test_host, test_module, test_module-IsPool,
}

rpc_finalize-Finalizes_example : Finalizes test_host (rpc_finalize test_host false test_module)
rpc_finalize-Finalizes_example =
    rpc_finalize-Finalizes test_host test_module test_module-IsPool refl

-- A process that gives the path as an argument.
abbrev test_process : Process
test_process = record {
  pid = 78;
  env_socket = none;
  env_tls_psk_file = none;
  random = 6;
  dup_given = true;
  null_text = codes "(null)";
}

abbrev test_args : InitializeArgs
test_args = record {
  create_mutex = false;
  destroy_mutex = false;
  lock_mutex = false;
  unlock_mutex = false;
  os_locking_ok = true;
  reserved = some (codes "socket=/run/p12");
}

abbrev down_module : Module
down_module = record test_module { initialized = false; socket_path = [] }

down_module-IsPool : IsPool down_module
down_module-IsPool = record {
  counted = refl;
  bounded = omega arith;
  ready = (record { status = refl; connection = _; connected = refl }, tt);
  path = λ up. cc;
}

takes :
    take_args test_process down_module (some test_args)
    ≡ done (record down_module { socket_path = codes "/run/p12" }, value tt)
unfolding take_args pkcs11_proxy.Client.Initialize.supplied_ok
    pkcs11_proxy.Client.Arguments.parse_arguments pkcs11_proxy.Client.Arguments.parse_argument
    pkcs11_proxy.Client.Arguments.cut pkcs11_proxy.Client.Arguments.arguments_of
    pkcs11_proxy.Client.Arguments.scan pkcs11_proxy.Client.Arguments.scan_byte
    pkcs11_proxy.Client.Arguments.put pkcs11_proxy.Client.Arguments.text_at list_eq
takes = refl

rpc_initialize-Initializes_example :
    Initializes test_host 78 (rpc_initialize test_host test_process (some test_args) down_module)
rpc_initialize-Initializes_example =
    rpc_initialize-Initializes test_host test_process down_module (some test_args)
      (record down_module { socket_path = codes "/run/p12" }, value tt) down_module-IsPool refl
      takes

-- One argument is passed on as it is; of two the last keeps a byte too many; and backslashes in quotes
-- write behind the end of the copy.
one_argument : arguments_of (codes "socket=foo") ≡ some (codes "socket=foo" ∷ [])
unfolding arguments_of pkcs11_proxy.Client.Arguments.scan pkcs11_proxy.Client.Arguments.scan_byte
    pkcs11_proxy.Client.Arguments.put pkcs11_proxy.Client.Arguments.text_at
one_argument = refl

two_arguments :
    arguments_of (codes "a=b socket=foo") ≡ some (codes "a=b" ∷ codes "socket=fooo" ∷ [])
unfolding arguments_of pkcs11_proxy.Client.Arguments.scan pkcs11_proxy.Client.Arguments.scan_byte
    pkcs11_proxy.Client.Arguments.put pkcs11_proxy.Client.Arguments.text_at
two_arguments = refl

quoted_backslashes : arguments_of (codes "'\\a\\b\\c'") ≡ none
unfolding arguments_of pkcs11_proxy.Client.Arguments.scan pkcs11_proxy.Client.Arguments.scan_byte
    pkcs11_proxy.Client.Arguments.put pkcs11_proxy.Client.Arguments.text_at
quoted_backslashes = refl

-- A daemon that answers with an empty response stops the process, inside of `call_run`.
abbrev empty_answer : CallState
empty_answer = waiting (be32 0)

stops_in_call :
    perform test_host
      (c_close_session 3)
      (record test_module { call_state_pool = empty_answer ∷ [] })
    ≡ halted (record empty_answer { req = some request_message; call_status = call_prep })
unfolding pkcs11_proxy.Client.Requests.perform_all pkcs11_proxy.Client.Requests.perform
    pkcs11_proxy.Client.Calls.Sessions.rpc_close_session
    pkcs11_proxy.Client.Begin.return_val_if_fail pkcs11_proxy.Client.Begin.begin_call
    pkcs11_proxy.Client.Session.call_lookup pkcs11_proxy.Client.Session.call_prepare
    pkcs11_proxy.Message.message_prep pkcs11_proxy.Message.prep_signature
    pkcs11_proxy.Calls.request_of pkcs11_proxy.Message.prepared pkcs11_proxy.Message.encode_header
    pkcs11_proxy.Buffer.Arrays.add_byte_array pkcs11_proxy.Buffer.Ints.add_uint32
    pkcs11_proxy.Buffer.reserve pkcs11_proxy.Message.message_reset pkcs11_proxy.Buffer.reset
    pkcs11_proxy.Buffer.Ints.set_uint32 pkcs11_proxy.Buffer.append pkcs11_proxy.Client.Caller.◌>>◌
    pkcs11_proxy.Client.Caller.◌>>=◌ pkcs11_proxy.Client.Proto.in_ulong
    pkcs11_proxy.Client.Caller.on_req pkcs11_proxy.Message.Write.write_ulong
    pkcs11_proxy.Message.check_part pkcs11_proxy.Message.verify_part
    pkcs11_proxy.Common.strip_prefix pkcs11_proxy.Buffer.Ints.add_uint64
    pkcs11_proxy.Client.Begin.process_call pkcs11_proxy.Client.Session.call_run
    pkcs11_proxy.Message.is_verified pkcs11_proxy.Client.Session.call_send_recv
    pkcs11_proxy.Client.Session.exchange pkcs11_proxy.Client.Session.send_request
    pkcs11_proxy.Client.Transport.call_write pkcs11_proxy.Buffer.Ints.encode_uint32
    pkcs11_proxy.Client.Transport.write_loop pkcs11_proxy.Client.Transport.result_of
    pkcs11_proxy.Common.write_at pkcs11_proxy.Common.memset pkcs11_proxy.Client.Transport.call_read
    pkcs11_proxy.Client.Transport.read_loop pkcs11_proxy.Client.Transport.read_rest
    pkcs11_proxy.Buffer.Ints.decode_uint32 pkcs11_proxy.Message.message_parse
    pkcs11_proxy.Message.parse_call pkcs11_proxy.Buffer.Ints.get_uint32
    pkcs11_proxy.Client.Session.received pkcs11_proxy.Buffer.add_empty
    pkcs11_proxy.Message.parse_signature pkcs11_proxy.Calls.response_of
    pkcs11_proxy.Buffer.Arrays.get_byte_array pkcs11_proxy.Buffer.and_next
    pkcs11_proxy.Client.Caller.pure pkcs11_proxy.Client.Begin.end_call
    pkcs11_proxy.Client.Session.call_done pkcs11_proxy.Client.Session.final_code
    pkcs11_proxy.Client.Session.stash
stops_in_call = refl
