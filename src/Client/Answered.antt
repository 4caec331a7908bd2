-- ===== src/Client/Answered.antt =====
-- call_run of gck-rpc-module.c with a daemon that answers: a response that was prepared with
-- gck_rpc_message_prep for the same call is taken, and its results are next.
use pkcs11_proxy.Common.{
  ℕ, ◌^◌, ◌<◌, ◌≡◌, refl, sym, ap, ◌∙◌, Bool, true, false, some, List, [], ◌++◌, length, ltb, ◌==◌,
  ==_refl, All, IsByte, add_size, Outcome, done, arith,
}
use pkcs11_proxy.Pkcs11.{ckr_ok}
use pkcs11_proxy.Wire.{be32}
use pkcs11_proxy.Calls.{call_error, call_max, response_of}
use pkcs11_proxy.Buffer.{reserve, reset}
use pkcs11_proxy.Buffer.Inv.{IsValid, contents}
use pkcs11_proxy.Buffer.Unread.{unread}
use pkcs11_proxy.Buffer.Received.{arrived, arrived_lem}
use pkcs11_proxy.Message.{
  Message, response, message_prep, message_parse, message_reset, buffer_error, is_verified,
}
use pkcs11_proxy.Message.Advance.{Expects}
use pkcs11_proxy.Message.Heading.{
  headed, reset-IsValid, reset_empty, message_prep-head, message_parse-message_prep,
}
use pkcs11_proxy.Client.{Socket, CallState, Host, call_prep, call_transit, call_parse}
use pkcs11_proxy.Client.Session.{
  received, message_there, exchange, call_send_recv, judged, run_req, call_run,
}
use pkcs11_proxy.Client.Exchanged.{IsOpen, filled, exchange_lem}

same_done : {x y : Message × Bool} → ◌≡◌ {A = Outcome (Message × Bool)} (done x) (done y) → x ≡ y
same_done e = cc

-- The state in which the dialog begins, and the one in which it ends.
abbrev sending : CallState → CallState
sending cs = record cs { call_status = call_transit }

abbrev pub answered : CallState → Socket → Message → Message → CallState
answered cs s req resp = record cs {
  socket = some s;
  req = some req;
  resp = some resp;
  call_status = call_parse;
}

judged_ok :
    (host : Host) (cs : CallState) (req resp : Message)
    → (resp.call_id == call_error) ≡ false
    → (req.call_id == resp.call_id) ≡ true
    → buffer_error resp ≡ false
    → judged host cs (some req) (some resp) ≡ done (cs, ckr_ok)
judged_ok host cs req resp known same sound = rw (known, same, sound) refl

verified : (m : Message) → m.sigverify ≡ some [] → is_verified m ≡ true
unfolding is_verified
verified m e = rw e refl

run_req_ok :
    (host : Host) (cs : CallState) (s : Socket) (req resp answer : Message)
    → cs.call_status ≡ call_prep
    → cs.req ≡ some req
    → is_verified req ≡ true
    → buffer_error req ≡ false
    → message_there host host.resp_given cs.resp ≡ some resp
    → exchange (sending cs) req (message_reset resp)
      ≡ done (record (sending cs) { socket = some s; req = some req; resp = some answer }, ckr_ok)
    → judged host (answered cs s req answer) (some req) (some answer)
      ≡ done (answered cs s req answer, ckr_ok)
    → run_req host cs (some req) ≡ done (answered cs s req answer, ckr_ok)
unfolding call_send_recv exchange
run_req_ok host cs s req resp answer status given complete sound there sent fine =
    rw (sound, complete, given) (rw (status, there) (rw sent fine))

call_run_start :
    (host : Host) (cs : CallState) (s : Socket) (req : Message)
    → cs.call_status ≡ call_prep
    → cs.socket ≡ some s
    → cs.req ≡ some req
    → call_run host cs ≡ run_req host cs (some req)
unfolding call_run
call_run_start host cs s req status connected given = rw (status, connected, given) refl

no_error : {n : ℕ} → n ≡ 0 → ltb 0 n ≡ false
no_error e = ground arith

-- A response of the daemon that is on its way: a message that was prepared for the call, with the results
-- behind its head.
pub record Response (c : ℕ) (text results body : List ℕ) : Type 0 where
  pub start : Message
  pub message : Message
  pub valid : IsValid start.buffer
  pub prepared_there : message_prep start c response ≡ done (message, true)
  pub whole : body ≡ contents message.buffer ++ results
  pub all_bytes : All IsByte body

-- There is a message for the response, and memory for so many bytes and one more.
pub record HasRoom (host : Host) (cs : CallState) (n : ℕ) : Type 0 where
  pub resp : Message
  pub there : message_there host host.resp_given cs.resp ≡ some resp
  pub valid : IsValid resp.buffer
  pub given : (reserve (reset resp.buffer) n).1 ≡ true
  pub fits : n < (reserve (reset resp.buffer) n).0.allocated_len

-- A request that is complete.
pub record Complete (c : ℕ) (cs : CallState) (req : Message) : Type 0 where
  pub status : cs.call_status ≡ call_prep
  pub given : cs.req ≡ some req
  pub id : req.call_id ≡ c
  pub verified_whole : req.sigverify ≡ some []
  pub sound : buffer_error req ≡ false
  pub some_bytes : 0 < length (contents req.buffer)

-- The two ends of a call. On a plain connection whose system never fails for good, with a request that is
-- complete and has no failure: when the daemon sends the length of a response in four bytes and then the
-- response, which it has prepared for this call, and there is memory for it (with one byte to spare),
-- then, whatever short counts and interruptions come between, `call_run` returns CKR_OK; exactly the
-- length of the request and the request were written, and what comes behind the response is still
-- unread; the results are what is unread of the response, which expects the values of the table's
-- signature.
pub call_run-message_prep :
    (host : Host) (cs : CallState) (s : Socket) (req : Message) (c : ℕ)
    (text results body rest : List ℕ)
    → 0 < c
    → c < call_max
    → response_of c ≡ some text
    → IsOpen cs s
    → Complete c cs req
    → Response c text results body
    → length body < 2 ^ 32
    → HasRoom host cs (length body)
    → s.incoming ≡ be32 (length body) ++ (body ++ rest)
    → (s' : Socket) × (resp : Message) × (call_run host cs ≡ done (answered cs s' req resp, ckr_ok))
      × (unread resp.buffer resp.parsed ≡ results)
      × Expects resp text
      × (s'.outgoing ≡ s.outgoing ++ (be32 req.buffer.len ++ contents req.buffer))
      × (s'.incoming ≡ rest)
unfolding received message_reset
call_run-message_prep host cs s req c text results body rest h lt there o q d small room comes =
    let b = reset room.resp.buffer in
    let (no_data, no_failure) = reset_empty room.resp.buffer in
    let (valid, all_there, kept, still) =
      arrived_lem b body (reset-IsValid room.resp.buffer room.valid) no_data d.all_bytes room.given
        room.fits (omega arith) in
    let size : add_size (length body) b.len ≡ length body = omega arith in
    let same : filled (message_reset room.resp) body
        ≡ record (message_reset room.resp) { buffer = arrived (reserve b (length body)).0 body } =
      ap (λ n. record (message_reset room.resp) { buffer = arrived (reserve b n).0 body }) size in
    let given : (reserve b (add_size (length body) b.len)).1 ≡ true =
      ap (λ n. (reserve b n).1) size ∙ room.given in
    let positive : 0 < length body =
      let e = ap length (
        d.whole
        ∙ ap (λ l. l ++ results)
            (message_prep-head d.start d.message response c text d.valid h lt (ap done there)
              d.prepared_there).0) in
      omega arith in
    let in_buffer = record (message_reset room.resp) {
      buffer = arrived (reserve b (length body)).0 body;
    } in
    let (next, parsed, left, asks, expects) =
      message_parse-message_prep d.start d.message in_buffer response c text results d.valid h lt
        (ap done there) d.prepared_there valid (all_there ∙ d.whole) in
    let resp = headed in_buffer response c text next in
    let (s', got, taken, sent, out, in') =
      exchange_lem (sending cs) s req (message_reset room.resp) body rest
        (record { given = o.given; plain = o.plain; harmless = o.harmless }) refl q.some_bytes comes
        positive small given refl refl in
    let found : got ≡ (resp, true) =
      same_done (sym taken ∙ ap (λ m. message_parse m response) same ∙ parsed) in
    let known : (c == call_error) ≡ false = ground arith in
    (
      s',
      resp,
      call_run_start host cs s req q.status o.given q.given
          ∙ run_req_ok host cs s' req room.resp resp q.status q.given
              (verified req q.verified_whole) q.sound room.there
              (sent
                ∙ ap
                    (λ (g : Message × Bool). done (
                      record (sending cs) { socket = some s'; req = some req; resp = some g.0 },
                      ckr_ok,
                    ))
                    found)
              (judged_ok host (answered cs s' req resp) req resp known
                (ap (λ n. n == c) q.id ∙ ==_refl c) (no_error (still ∙ no_failure))),
      left,
      expects,
      out,
      in',
    )
