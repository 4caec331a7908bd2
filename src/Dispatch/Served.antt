-- ===== src/Dispatch/Served.antt =====
-- `run_dispatch_loop` on a request that the other end has prepared with gck_rpc_message_prep: it reaches
-- `dispatch_call` as the call that it was prepared for.
use pkcs11_proxy.Common.{
  ℕ, ◌<◌, ◌≡◌, refl, ap, ◌∙◌, Bool, true, false, not, some, List, ◌++◌, length, ltb, leb, lt→ltb,
  All, IsByte, add_size, if◌then◌else◌, Outcome, done, ◌>>=◌, arith,
}
use pkcs11_proxy.Wire.{be32}
use pkcs11_proxy.Calls.{call_max, request_of}
use pkcs11_proxy.Buffer.{Buffer, reserve, reset, has_error}
use pkcs11_proxy.Buffer.Ints.{decode_uint32}
use pkcs11_proxy.Buffer.Inv.{IsValid, contents}
use pkcs11_proxy.Buffer.Unread.{unread}
use pkcs11_proxy.Buffer.Received.{arrived, arrived_lem, decode_uint32-be32}
use pkcs11_proxy.Message.{Message, request, message_prep, message_parse, message_reset, is_given}
use pkcs11_proxy.Message.Advance.{Expects}
use pkcs11_proxy.Message.Heading.{headed, reset-IsValid, reset_empty, message_parse-message_prep}
use pkcs11_proxy.Dispatch.{World, call_reset}
use pkcs11_proxy.Dispatch.Proto.{Machine}
use pkcs11_proxy.Dispatch.Library.{FunctionList}
use pkcs11_proxy.Dispatch.Server.{
  Socket, request_limit, with_req, received, read_all, dispatch_call, send_response, answer,
  receive_body, serve,
}

module _ {S T : Type 0} (machine : Machine) (lib : FunctionList S) (socket : Socket T) where
  -- The end of a round with a request that was accepted: it is dispatched, and the response is sent.
  abbrev pub responded : T → Outcome (World S × Bool) → Outcome ((World S × T) × Bool)
  responded t out = out >>= λ (w, answered).
      if not answered then done ((w, t), false) else send_response machine lib socket w t

  answer_accepted :
      (w : World S) (t : T) (m : Message)
      → message_parse w.cs.req request ≡ done (m, true)
      → answer machine lib socket w t ≡ responded t (dispatch_call machine lib (with_req w m))
  unfolding answer
  answer_accepted w t m e = rw e refl

  -- The buffer with room for the body.
  abbrev room_for : World S → ℕ → Buffer
  room_for w n = (reserve w.cs.req.buffer (add_size w.cs.req.buffer.len n)).0

  body_read :
      (w : World S) (t t2 : T) (body : List ℕ)
      → is_given w.cs.sock ≡ true
      → has_error (room_for w (length body)) ≡ false
      → 0 < length body
      → socket.receive (length body) t ≡ (t2, some body)
      → receive_body machine lib socket w t (length body)
        ≡ answer machine lib socket
            (with_req w (record w.cs.req { buffer = received (room_for w (length body)) body }))
            t2
  unfolding receive_body read_all
  body_read w t t2 body is_open sound positive got =
      let bytes : (socket.receive (length body) t).1 ≡ some body = ap (λ r. r.1) got in
      let after : (socket.receive (length body) t).0 ≡ t2 = ap (λ r. r.0) got in
      rw (sound, is_open, lt→ltb _ _ positive) (rw bytes (rw after refl))

  head_read :
      (w : World S) (t t1 : T) (head : List ℕ) (n : ℕ)
      → is_given (call_reset w.cs).sock ≡ true
      → socket.receive 4 t ≡ (t1, some head)
      → decode_uint32 head ≡ n
      → leb request_limit n ≡ false
      → serve machine lib socket w t
        ≡ receive_body machine lib socket (record w { cs = call_reset w.cs }) t1 n
  unfolding serve read_all
  head_read w t t1 head n is_open got size small =
      let bytes : (socket.receive 4 t).1 ≡ some head = ap (λ r. r.1) got in
      let after : (socket.receive 4 t).0 ≡ t1 = ap (λ r. r.0) got in
      rw (is_open, bytes) (rw (size, small) (rw after refl))

  -- A round of the loop on an open socket, where four bytes come that are the length of a body and then the body, which is
  -- what a message has in its buffer that was prepared as a request for a call of the table, with
  -- arguments behind it. Where there is memory for it (with one byte to spare), the round is
  -- `dispatch_call` on a request of this call, and the sending of its response if there is one; the
  -- arguments of the request are unread, and it expects the values of the table's signature.
  pub serve-message_prep :
      (msg m : Message) (c : ℕ) (text body args : List ℕ) (w : World S) (t t1 t2 : T)
      → is_given w.cs.sock ≡ true
      → IsValid msg.buffer
      → 0 < c
      → c < call_max
      → request_of c ≡ some text
      → message_prep msg c request ≡ done (m, true)
      → body ≡ contents m.buffer ++ args
      → All IsByte body
      → 0 < length body
      → length body < request_limit
      → socket.receive 4 t ≡ (t1, some (be32 (length body)))
      → socket.receive (length body) t1 ≡ (t2, some body)
      → IsValid w.cs.req.buffer
      → (reserve (reset w.cs.req.buffer) (length body)).1 ≡ true
      → length body < (reserve (reset w.cs.req.buffer) (length body)).0.allocated_len
      → (asked : Message) × (serve machine lib socket w t
          ≡ responded t2
              (dispatch_call machine lib (with_req (record w { cs = call_reset w.cs }) asked)))
        × (asked.call_id ≡ c)
        × (unread asked.buffer asked.parsed ≡ args)
        × Expects asked text
  unfolding received call_reset message_reset
  serve-message_prep msg m c text body args w t t1 t2 is_open v h lt there prep comes all_bytes
        positive small head_comes body_comes v' given fits =
      let start = record w { cs = call_reset w.cs } in
      let b = reset w.cs.req.buffer in
      let (no_data, no_failure) = reset_empty w.cs.req.buffer in
      let (valid, all_there, kept, still) =
        arrived_lem b body (reset-IsValid w.cs.req.buffer v') no_data all_bytes given fits
          (omega arith) in
      let size : add_size b.len (length body) ≡ length body = omega arith in
      let room : room_for start (length body) ≡ (reserve b (length body)).0 =
        ap (λ n. (reserve b n).0) size in
      let sound : has_error (room_for start (length body)) ≡ false =
        ap has_error room ∙ no_error (kept ∙ no_failure) in
      let in_buffer = record start.cs.req { buffer = arrived (reserve b (length body)).0 body } in
      let (next, parsed, left, asks, expects) =
        message_parse-message_prep msg m in_buffer request c text args v h lt (ap done there) prep
          valid (all_there ∙ comes) in
      (
        headed in_buffer request c text next,
        head_read w t t1 (be32 (length body)) (length body) is_open head_comes
              (decode_uint32-be32 (length body) (omega arith)) (ground arith)
            ∙ body_read start t1 t2 body is_open sound positive body_comes
            ∙ ap
                (λ r.
                  answer machine lib socket
                    (with_req start (record start.cs.req { buffer = received r body })) t2)
                room
            ∙ answer_accepted (with_req start in_buffer) t2 _ parsed,
        refl,
        left,
        expects,
      )
    where
      no_error : {n : ℕ} → n ≡ 0 → ltb 0 n ≡ false
      no_error e = ground arith
