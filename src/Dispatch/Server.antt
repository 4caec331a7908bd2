-- ===== src/Dispatch/Server.antt =====
-- gck-rpc-dispatch.c: one call from request to response (`dispatch_call`) and the loop of a connection
-- (`run_dispatch_loop`). The socket is behind the function pointers `read` and `write`.
use pkcs11_proxy.Common.{
  ℕ, zero, suc, ◌%◌, ◌^◌, Bool, true, false, not, ◌||◌, Option, none, some, List, [], ◌∷◌, length,
  take, ltb, leb, ◌==◌, if◌then◌else◌, write_at, add_size, Outcome, done, abort, ◌>>=◌, ◌>>◌,
  assert,
}
use pkcs11_proxy.Pkcs11.{ckr_ok}
use pkcs11_proxy.Calls.{call_error, call_max, response_of}
use pkcs11_proxy.Buffer.{Buffer, has_error, reserve, add_empty}
use pkcs11_proxy.Buffer.Ints.{encode_uint32, decode_uint32}
use pkcs11_proxy.Message.{
  Message, request, response, message_prep, message_parse, buffer_error, is_verified, is_given,
  same_type, same_signature,
}
use pkcs11_proxy.Message.Write.{write_ulong}
use pkcs11_proxy.Dispatch.{World, Handler, Step, value, cleanup, call_reset}
use pkcs11_proxy.Dispatch.Proto.{Machine, parse_error, prep_error}
use pkcs11_proxy.Dispatch.Library.{FunctionList}
use pkcs11_proxy.Dispatch.Calls.Slots.{rpc_finalize}
use pkcs11_proxy.Dispatch.Cases.{cases}

-- The smallest length of a request that is refused
abbrev pub request_limit : ℕ
request_limit = 0x0FFFFFFF

-- `_ret` at `_cleanup`
abbrev pub ret_of : Step ℕ → ℕ
ret_of (value ret) = ret
ret_of (cleanup ret) = ret

module _ {S : Type 0} where
  abbrev pub with_resp : World S → Message → World S
  with_resp w m = record w { cs = record w.cs { resp = m } }

  abbrev pub with_req : World S → Message → World S
  with_req w m = record w { cs = record w.cs { req = m } }

  -- The `switch`: a call without a case stops the process.
  unfoldable pub switch : ℕ → List (ℕ × Handler S ℕ) → Handler S ℕ
  switch call_id [] w = abort
  switch call_id ((id, handler) ∷ rest) w =
      let later = switch call_id rest w in if id == call_id then handler w else later

  -- Parsing errors, and then memory errors, of a handler that found none.
  unfoldable pub buffers_checked : World S → ℕ → ℕ
  buffers_checked w ret =
      if ret == ckr_ok
      then (if buffer_error w.cs.resp
          then prep_error
          else if buffer_error w.cs.req
          then parse_error
          else ret)
      else ret

  -- The assertions on a response that is filled in.
  unfoldable pub assert_filled : World S → Outcome (World S × Bool)
  assert_filled w = do
    assert (is_verified w.cs.resp)
    assert (same_type w.cs.resp.call_type response)
    assert (w.cs.resp.call_id == w.cs.req.call_id)
    let expected = response_of w.cs.resp.call_id
    assert (is_given expected)
    assert (is_given w.cs.resp.signature)
    assert (same_signature expected w.cs.resp.signature)
    done (w, true)

  -- The error response in place of what the handler has written.
  unfoldable pub error_response : World S → ℕ → Outcome (World S × Bool)
  error_response w ret = message_prep w.cs.resp call_error response >>= λ (m, prepared).
      if not prepared
      then done (with_resp w m, false)
      else (write_ulong m (ret % 2 ^ 32) >>= λ (m', written).
          done (with_resp w m', if not written || buffer_error m' then false else true))

  unfoldable pub finish_call : World S × Step ℕ → Outcome (World S × Bool)
  finish_call (w, result) =
      let ret = buffers_checked w (ret_of result) in
      if ret == ckr_ok then assert_filled w else error_response w ret

  module _ (machine : Machine) (lib : FunctionList S) where
    unfoldable pub dispatch_call : World S → Outcome (World S × Bool)
    dispatch_call w = do
      assert (ltb call_error w.cs.req.call_id)
      assert (ltb w.cs.req.call_id call_max)
      message_prep w.cs.resp w.cs.req.call_id response >>= λ (m, prepared).
          if not prepared
          then done (with_resp w m, false)
          else (switch w.cs.req.call_id (cases machine lib) (with_resp w m) >>= finish_call)

-- The functions behind `cs->read` and `cs->write`: all bytes, or none where the connection has ended.
pub record Socket (T : Type 0) : Type 0 where
  pub receive : ℕ → T → T × Option (List ℕ)
  pub send : List ℕ → T → T × Bool

module _ {T : Type 0} (socket : Socket T) where
  -- read_all and write_all on the socket `sock`: their assertions, and then all of the bytes.
  unfoldable pub read_all : Option ℕ → ℕ → T → Outcome (T × Option (List ℕ))
  read_all sock len t = do assert (is_given sock); assert (ltb 0 len); done (socket.receive len t)

  unfoldable pub write_all : Option ℕ → List ℕ → T → Outcome (T × Bool)
  write_all sock bytes t = do
    assert (is_given sock)
    assert (ltb 0 (length bytes))
    done (socket.send bytes t)

-- The body of a request, received into the buffer's block behind `egg_buffer_reserve`.
unfoldable pub received : Buffer → List ℕ → Buffer
received b bytes = (add_empty (record b { buf = write_at b.buf 0 bytes }) (length bytes)).0

module _ {S T : Type 0} (machine : Machine) (lib : FunctionList S) (socket : Socket T) where
  -- The response: its length, and then its bytes.
  unfoldable pub send_response : World S → T → Outcome ((World S × T) × Bool)
  send_response w t =
      let b = w.cs.resp.buffer in
      write_all socket w.cs.sock (encode_uint32 b.len) t >>= λ (t', sent).
      if not sent
      then done ((w, t'), false)
      else (write_all socket w.cs.sock (take b.len b.buf) t' >>= λ (t'', sent').
          done ((w, t''), sent'))

  -- A request that was received whole.
  unfoldable pub answer : World S → T → Outcome ((World S × T) × Bool)
  answer w t = message_parse w.cs.req request >>= λ (m, parsed).
      if not parsed
      then done ((with_req w m, t), false)
      else (dispatch_call machine lib (with_req w m) >>= λ (w', answered).
          if not answered then done ((w', t), false) else send_response w' t)

  -- The body of a request of `len` bytes.
  unfoldable pub receive_body : World S → T → ℕ → Outcome ((World S × T) × Bool)
  receive_body w t len =
      let (b, _) = reserve w.cs.req.buffer (add_size w.cs.req.buffer.len len) in
      let w' = with_req w (record w.cs.req { buffer = b }) in
      if has_error b
      then done ((w', t), false)
      else (read_all socket w.cs.sock len t >>= λ (t', body). elim body [
        | none ↦ done ((w', t'), false)
        | some bytes ↦ answer (with_req w (record w.cs.req { buffer = received b bytes })) t'
      ])

  -- One round of the loop; the answer says whether it goes on.
  unfoldable pub serve : World S → T → Outcome ((World S × T) × Bool)
  serve w t =
      let w' = record w { cs = call_reset w.cs } in
      read_all socket w'.cs.sock 4 t >>= λ (t', head). elim head [
        | none ↦ done ((w', t'), false)
        | some bytes ↦
            let len = decode_uint32 bytes in
            if leb request_limit len then done ((w', t'), false) else receive_body w' t' len
      ]

  -- The sessions are closed, whatever the answer, and the blocks freed; the messages are given up.
  unfoldable pub call_uninit : World S → Outcome (World S)
  call_uninit w =
      rpc_finalize machine lib w >>= λ (w', _). done (record w' { cs = call_reset w'.cs })

  -- The loop, for at most `rounds` rounds; `true` says that it has not ended by then.
  unfoldable pub run_dispatch_loop : ℕ → World S → T → Outcome ((World S × T) × Bool)
  run_dispatch_loop zero w t = done ((w, t), true)
  run_dispatch_loop (suc rounds) w t = serve w t >>= λ ((w', t'), going).
      if going
      then run_dispatch_loop rounds w' t'
      else (call_uninit w' >>= λ w''. done ((w'', t'), false))
