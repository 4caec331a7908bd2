-- ===== src/Client/Session.antt =====
-- gck-rpc-module.c, "CALL SESSION": a call state comes from the pool or from a new connection
-- (`call_lookup`), carries one call (`call_prepare`, `call_run`) and goes back (`call_done`). The mutex
-- makes each step on the pool one step.
use pkcs11_proxy.Common.{
  ℕ, ◌+◌, ◌-◌, ◌*◌, ◌%◌, ◌^◌, Bool, true, false, not, ◌&&◌, ◌||◌, Option, none, some, List, [], ◌∷◌,
  length, take, drop, codes, write_at, strip_prefix, add_size, ltb, leb, ◌==◌, if◌then◌else◌,
  Outcome, done, abort, ◌>>=◌, ◌>>◌, assert, Step, value, cleanup,
}
use pkcs11_proxy.Pkcs11.{
  ckr_ok, ckr_host_memory, ckr_general_error, ckr_device_error, ckr_device_removed,
}
use pkcs11_proxy.Calls.{call_error}
use pkcs11_proxy.Util.HostPort.{parse_host_port}
use pkcs11_proxy.Buffer.{Buffer, reserve, add_empty}
use pkcs11_proxy.Buffer.Ints.{encode_uint32, decode_uint32}
use pkcs11_proxy.Message.{
  Message, request, response, message_new, message_reset, message_prep, message_parse, buffer_error,
  is_verified, is_given,
}
use pkcs11_proxy.Message.Write.{host_bytes}
use pkcs11_proxy.Message.Read.{read_ulong}
use pkcs11_proxy.Client.{
  CallStatus, call_invalid, call_ready, call_prep, call_transit, call_parse, Socket, CallState,
  Module, Host, max_call_state_pool,
}
use pkcs11_proxy.Client.Transport.{call_write, call_read}

abbrev pub same_status : CallStatus → CallStatus → Bool
same_status call_invalid call_invalid = true
same_status call_ready call_ready = true
same_status call_prep call_prep = true
same_status call_transit call_transit = true
same_status call_parse call_parse = true
same_status _ _ = false

-- `strncmp (prefix, path, 6)` for a prefix of six characters
abbrev pub begins : List ℕ → List ℕ → Bool
begins prefix path = is_given (strip_prefix prefix path)

abbrev pub is_tls_path : List ℕ → Bool
is_tls_path path = begins (codes "tls://") path

abbrev pub is_tcp_path : List ℕ → Bool
is_tcp_path path = begins (codes "tcp://") path

-- TLS on a new connection.
abbrev pub secured : Host → CallState → Socket → CallState × Step Socket
secured host cs s =
    if not host.tls_given
    then (cs, cleanup ckr_host_memory)
    else if not host.init_tls || not host.start_tls
    then (record cs { tls = true }, cleanup ckr_device_error)
    else (record cs { tls = true }, value s)

abbrev pub through_tcp : Host → List ℕ → CallState → Option Socket → CallState × Step Socket
through_tcp host path cs none = (cs, cleanup ckr_device_error)
through_tcp host path cs (some s) = if is_tls_path path then secured host cs s else (cs, value s)

abbrev pub to_address :
    Host → List ℕ → CallState → Option (List ℕ × Option (List ℕ)) → CallState × Step Socket
to_address host path cs none = (cs, cleanup ckr_device_error)
to_address host path cs (some (address, port)) =
    through_tcp host path cs (host.connect_tcp address port)

abbrev pub through_unix : CallState → Option Socket → CallState × Step Socket
through_unix cs none = (cs, cleanup ckr_device_error)
through_unix cs (some s) = (cs, value s)

-- The part of call_connect in front of the first bytes.
unfoldable pub open_path : Host → List ℕ → CallState → CallState × Step Socket
open_path host path cs =
    if is_tcp_path path || is_tls_path path
    then to_address host path cs (parse_host_port (drop 6 path) host.host_given)
    else through_unix cs (host.connect_unix path)

-- The connection is ready, and begins with the number of the application.
abbrev pub greeted : ℕ → CallState × Step Socket → Outcome (CallState × ℕ)
greeted app_id (cs, cleanup ret) = done (cs, ret)
greeted app_id (cs, value s) =
    call_write (record cs { socket = some s; call_status = call_ready }) (host_bytes 8 app_id)

unfoldable pub call_connect : Host → Module → CallState → Outcome (CallState × ℕ)
call_connect host m cs = do
  assert (not (is_given cs.socket))
  assert (same_status cs.call_status call_invalid)
  assert (ltb 0 (length m.socket_path))
  greeted m.app_id (open_path host m.socket_path cs)

-- `calloc (1, sizeof (CallState))`, with the socket and the status that are set at once
abbrev pub fresh : CallState
fresh = record { socket = none; req = none; resp = none; call_status = call_invalid; tls = false }

-- Where connecting has failed the state is freed.
abbrev pub connected : CallState × ℕ → Step CallState
connected (cs, ret) = if ret == ckr_ok then value cs else cleanup ret

abbrev pub lookup_asserted : Module → Step CallState → Outcome (Module × Step CallState)
lookup_asserted m (cleanup ret) = done (m, cleanup ret)
lookup_asserted m (value cs) = do
  assert (same_status cs.call_status call_ready)
  assert (is_given cs.socket)
  done (m, value cs)

abbrev pub lookup_new : Host → Module → Bool → Outcome (Module × Step CallState)
lookup_new host m false = done (m, cleanup ckr_host_memory)
lookup_new host m true = call_connect host m fresh >>= λ r. lookup_asserted m (connected r)

-- The newest of the pool, or a new connection.
abbrev pub lookup_in : Host → Module → List CallState → Outcome (Module × Step CallState)
lookup_in host m (cs ∷ rest) = do
  assert (ltb 0 m.n_call_state_pool)
  let m' = record m { call_state_pool = rest; n_call_state_pool = m.n_call_state_pool - 1 }
  lookup_asserted m' (value cs)
lookup_in host m [] = lookup_new host m host.state_given

-- `value` is a call state that is ready, `cleanup` an error.
unfoldable pub call_lookup : Host → Module → Outcome (Module × Step CallState)
call_lookup host m = lookup_in host m m.call_state_pool

-- A message, if there is none.
abbrev pub message_there : Host → Bool → Option Message → Option Message
message_there host struct_given (some m) = some m
message_there host struct_given none = message_new host.call_allocator struct_given

abbrev pub prep_req : CallState → ℕ → Option Message → Outcome (CallState × ℕ)
prep_req cs call_id none = done (cs, ckr_host_memory)
prep_req cs call_id (some req) =
    message_prep (message_reset req) call_id request >>= λ (m, prepared).
    if prepared
    then done (record cs { req = some m; call_status = call_prep }, ckr_ok)
    else done (record cs { req = some m }, ckr_host_memory)

unfoldable pub call_prepare : Host → CallState → ℕ → Outcome (CallState × ℕ)
call_prepare host cs call_id = do
  assert (same_status cs.call_status call_ready)
  prep_req cs call_id (message_there host host.req_given cs.req)

-- The body of the response, received into the buffer's block.
unfoldable pub received : Message → List ℕ → Message
received m bytes =
    let b = m.buffer in
    record m { buffer = (add_empty (record b { buf = write_at b.buf 0 bytes }) (length bytes)).0 }

-- The answer of gck_rpc_message_parse is not passed on: at `cleanup` the code is still CKR_OK.
abbrev pub parsed_response : CallState × List ℕ × ℕ → Message → Outcome (CallState × Message × ℕ)
parsed_response (cs, bytes, ret) resp =
    if not (ret == ckr_ok)
    then done (cs, resp, ret)
    else (message_parse (received resp bytes) response >>= λ (m, _). done (cs, m, ckr_ok))

-- A response of `len` bytes, for which there must be room.
abbrev pub receive_body : CallState → Message → ℕ → Outcome (CallState × Message × ℕ)
receive_body cs resp len =
    let (b, room) = reserve resp.buffer (add_size len resp.buffer.len) in
    let resp' = record resp { buffer = b } in
    if not room
    then done (cs, resp', ckr_host_memory)
    else (call_read cs len >>= λ r. parsed_response r resp')

abbrev pub receive_response : CallState × ℕ → Message → Outcome (CallState × Message × ℕ)
receive_response (cs, ret) resp =
    if not (ret == ckr_ok)
    then done (cs, resp, ret)
    else (call_read cs 4 >>= λ (cs', head, ret').
        if not (ret' == ckr_ok)
        then done (cs', resp, ret')
        else receive_body cs' resp (decode_uint32 head))

-- The number of bytes, and then the bytes.
unfoldable pub send_request : CallState → Buffer → Outcome (CallState × ℕ)
send_request cs b = call_write cs (encode_uint32 b.len) >>= λ (cs', ret).
    if not (ret == ckr_ok) then done (cs', ret) else call_write cs' (take b.len b.buf)

-- At `cleanup`: both messages go back.
abbrev pub restored : Message → CallState × Message × ℕ → Outcome (CallState × ℕ)
restored req (cs, resp, ret) = do
  assert (same_status cs.call_status call_transit)
  assert (not (is_given cs.resp))
  assert (not (is_given cs.req))
  done (record cs { req = some req; resp = some resp }, ret)

-- Both messages are out of the state until the dialog is over.
unfoldable pub exchange : CallState → Message → Message → Outcome (CallState × ℕ)
exchange cs req resp = do
  sent ← send_request (record cs { req = none; resp = none }) req.buffer
  got ← receive_response sent resp
  restored req got

abbrev pub with_resp : CallState → Option Message → Option Message → Outcome (CallState × ℕ)
with_resp cs none resp = abort
with_resp cs (some req) none = done (cs, ckr_host_memory)
with_resp cs (some req) (some resp) = exchange cs req (message_reset resp)

unfoldable pub call_send_recv : Host → CallState → Outcome (CallState × ℕ)
call_send_recv host cs = do
  assert (is_given cs.req)
  assert (same_status cs.call_status call_prep)
  let cs' = record cs { call_status = call_transit }
  with_resp cs' cs.req (message_there host host.resp_given cs.resp)

-- A 64-bit number as a `CK_ULONG`
abbrev pub as_ulong : Host → ℕ → ℕ
as_ulong host v = v % 2 ^ (8 * host.ulong_size)

-- The code of an error response must be an error.
abbrev pub error_code : Host → CallState → Message × Option ℕ → CallState × ℕ
error_code host cs (m, none) = (record cs { resp = some m }, ckr_device_error)
error_code host cs (m, some v) =
    let ckerr = as_ulong host v in
    (record cs { resp = some m }, if leb ckerr ckr_ok then ckr_device_error else ckerr)

-- The response to the request, which must be an error or have the request's number.
abbrev pub judged : Host → CallState → Option Message → Option Message → Outcome (CallState × ℕ)
judged host cs (some req) (some resp) =
    if resp.call_id == call_error
    then (read_ulong resp >>= λ r. done (error_code host cs r))
    else if not (req.call_id == resp.call_id)
    then done (cs, ckr_device_error)
    else (do assert (not (buffer_error resp)); done (cs, ckr_ok))
judged host cs _ _ = abort

abbrev pub after_dialog : Host → CallState × ℕ → Outcome (CallState × ℕ)
after_dialog host (cs, ret) =
    let cs' = record cs { call_status = call_parse } in
    if not (ret == ckr_ok) then done (cs', ret) else judged host cs' cs'.req cs'.resp

abbrev pub run_req : Host → CallState → Option Message → Outcome (CallState × ℕ)
run_req host cs none = abort
run_req host cs (some req) =
    if buffer_error req
    then done (cs, ckr_host_memory)
    else (do assert (is_verified req); call_send_recv host cs >>= after_dialog host)

unfoldable pub call_run : Host → CallState → Outcome (CallState × ℕ)
call_run host cs = do
  assert (same_status cs.call_status call_prep)
  assert (is_given cs.socket)
  run_req host cs cs.req

-- The last look at a response that was read.
abbrev pub checked_resp : Message → Outcome ℕ
checked_resp resp =
    if buffer_error resp
    then done ckr_general_error
    else (do assert (is_verified resp); done ckr_ok)

abbrev pub checked_messages : Option Message → Option Message → ℕ → Outcome ℕ
checked_messages (some req) (some resp) ret = if ret == ckr_ok then checked_resp resp else done ret
checked_messages _ _ ret = done ret

-- The errors that were not caught elsewhere.
unfoldable pub final_code : CallState → ℕ → Outcome ℕ
final_code cs ret =
    if same_status cs.call_status call_parse then checked_messages cs.req cs.resp ret else done ret

-- The state goes back to the pool unless the connection is of no use or the pool is full; else it is
-- destroyed.
unfoldable pub stash : Module → CallState → ℕ → Module
stash m cs ret =
    if not (ret == ckr_device_error) && (not (ret == ckr_device_removed) && is_given cs.socket)
    then (if ltb m.n_call_state_pool max_call_state_pool
        then record m {
          call_state_pool = record cs { call_status = call_ready } ∷ m.call_state_pool;
          n_call_state_pool = m.n_call_state_pool + 1;
        }
        else m)
    else m

unfoldable pub call_done : Module → CallState → ℕ → Outcome (Module × ℕ)
call_done m cs ret = do
  assert (not (same_status cs.call_status call_invalid))
  ret' ← final_code cs ret
  done (stash m cs ret', ret')
