-- ===== src/Client/Dialog.antt =====
-- call_run of gck-rpc-module.c: what it leaves when it returns, whatever the daemon has sent.
use pkcs11_proxy.Common.{
  ℕ, ◌≡◌, ◌≢◌, ◌⊎◌, refl, sym, ap, ap₂, ◌∙◌, subst, Bool, true, false, not, Bool-cases, inl, inr,
  Option, none, some, List, [], leb, ◌==◌, done, >>=-eq-done, assert, add_size, arith,
}
use pkcs11_proxy.Pkcs11.{ckr_ok, ckr_host_memory, ckr_device_error}
use pkcs11_proxy.Calls.{call_error, response_of}
use pkcs11_proxy.Buffer.{reserve}
use pkcs11_proxy.Buffer.Ints.{decode_uint32}
use pkcs11_proxy.Message.{Message, buffer_error, message_reset, is_verified, is_given}
use pkcs11_proxy.Message.Read.{read_ulong}
use pkcs11_proxy.Message.Answer.{IsAnswer, bare, known, message_parse-IsAnswer}
use pkcs11_proxy.Client.{call_invalid, call_prep, call_transit, call_parse, CallState, Host}
use pkcs11_proxy.Client.Transport.{call_read}
use pkcs11_proxy.Client.Session.{
  same_status, message_there, received, parsed_response, receive_body, receive_response,
  send_request, exchange, with_resp, call_send_recv, as_ulong, error_code, judged, after_dialog,
  run_req, call_run,
}
use pkcs11_proxy.Client.Invariant.{Building, Settled}

assert-not : (b : Bool) {x : Unit {0}} → assert (not b) ≡ done x → b ≡ false
assert-not true p = absurd cc
assert-not false p = refl

-- With an error code the rest of the state does not matter.
pub failed-Settled :
    (text : List ℕ) (ret : ℕ) (cs : CallState)
    → cs.call_status ≢ call_invalid
    → ret ≢ ckr_ok
    → Settled text ret cs
failed-Settled text ret cs begun bad = record {
  begun = begun;
  response = λ ok. absurd (bad ok);
  given = λ ok. absurd (bad ok);
  signature = λ ok. absurd (bad ok);
  signed = λ ok. absurd (bad ok);
  rest = λ ok. absurd (bad ok);
}

parsed_response-IsAnswer :
    (r : CallState × List ℕ × ℕ) (resp : Message) (out : CallState × Message × ℕ)
    → resp.call_id ≡ call_error
    → resp.signature ≡ none
    → parsed_response r resp ≡ done out
    → out.2 ≡ ckr_ok
    → IsAnswer out.1
unfolding received
parsed_response-IsAnswer (cs, bytes, ret) resp out e f h ok = elim (Bool-cases (ret == ckr_ok)) [
  | inl good ↦
      let (m, p, answer) = message_parse-IsAnswer (received resp bytes) e f in
      let same : done (cs, m.0, ckr_ok) ≡ done out = rw (good, p) at h in
      let same' : m.0 ≡ out.1 = cc in subst IsAnswer same' answer
  | inr bad ↦
      let same : done (cs, resp, ret) ≡ done out = rw bad at h in
      let e' : ret ≡ ckr_ok = cc in absurd (ground arith)
]

receive_body-IsAnswer :
    (cs : CallState) (resp : Message) (len : ℕ) (out : CallState × Message × ℕ)
    → resp.call_id ≡ call_error
    → resp.signature ≡ none
    → receive_body cs resp len ≡ done out
    → out.2 ≡ ckr_ok
    → IsAnswer out.1
receive_body-IsAnswer cs resp len out e f h ok =
    let r = reserve resp.buffer (add_size len resp.buffer.len) in
    elim (Bool-cases r.1) [
      | inl room ↦
          let (got, p, q) = >>=-eq-done (call_read cs len) _ (rw room at h) in
          parsed_response-IsAnswer got (record resp { buffer = r.0 }) out e f q ok
      | inr full ↦
          let same : done (cs, record resp { buffer = r.0 }, ckr_host_memory) ≡ done out =
            rw full at h in
          absurd cc
    ]

receive_response-IsAnswer :
    (r : CallState × ℕ) (resp : Message) (out : CallState × Message × ℕ)
    → resp.call_id ≡ call_error
    → resp.signature ≡ none
    → receive_response r resp ≡ done out
    → out.2 ≡ ckr_ok
    → IsAnswer out.1
receive_response-IsAnswer (cs, ret) resp out e f h ok = elim (Bool-cases (ret == ckr_ok)) [
  | inl good ↦
      let ((cs', head, ret'), p, q) = >>=-eq-done (call_read cs 4) _ (rw good at h) in
      elim (Bool-cases (ret' == ckr_ok)) [
        | inl good' ↦ receive_body-IsAnswer cs' resp (decode_uint32 head) out e f (rw good' at q) ok
        | inr bad ↦
            let same : done (cs', resp, ret') ≡ done out = rw bad at q in
            let e' : ret' ≡ ckr_ok = cc in absurd (ground arith)
      ]
  | inr bad ↦
      let same : done (cs, resp, ret) ≡ done out = rw bad at h in
      let e' : ret ≡ ckr_ok = cc in absurd (ground arith)
]

-- Both messages are back in the state, and without an error the response was taken apart.
pub record Dialog (req : Message) (r : CallState × ℕ) : Type 0 where
  pub resp : Message
  pub asked : r.0.req ≡ some req
  pub answered : r.0.resp ≡ some resp
  pub answer : r.1 ≡ ckr_ok → IsAnswer resp

exchange-Dialog :
    (cs : CallState) (req resp : Message) (r : CallState × ℕ)
    → resp.call_id ≡ call_error
    → resp.signature ≡ none
    → exchange cs req resp ≡ done r
    → Dialog req r
unfolding exchange
exchange-Dialog cs req resp r e f h =
    let (sent, p, q) =
      >>=-eq-done (send_request (record cs { req = none; resp = none }) req.buffer) _ h in
    let ((cs', resp', ret), p', q') = >>=-eq-done (receive_response sent resp) _ q in
    let (_, p2, q2) = >>=-eq-done (assert (same_status cs'.call_status call_transit)) _ q' in
    let (_, p3, q3) = >>=-eq-done (assert (not (is_given cs'.resp))) _ q2 in
    let (_, p4, q4) = >>=-eq-done (assert (not (is_given cs'.req))) _ q3 in
    let answer = receive_response-IsAnswer sent resp (cs', resp', ret) e f p' in
    let same : (record cs' { req = some req; resp = some resp' }, ret) ≡ r = cc in
    subst (Dialog req) same
      (record { resp = resp'; asked = refl; answered = refl; answer = answer })

-- Of a dialog whose messages came to nothing there is a code.
with_resp-Dialog :
    (cs : CallState) (req : Message) (o : Option Message) (r : CallState × ℕ)
    → with_resp cs (some req) o ≡ done r
    → (r ≡ (cs, ckr_host_memory)) ⊎ Dialog req r
unfolding message_reset
with_resp-Dialog cs req none r h = inl cc
with_resp-Dialog cs req (some resp) r h =
    inr (exchange-Dialog cs req (message_reset resp) r refl refl h)

error_code-fails :
    (host : Host) (cs : CallState) (r : Message × Option ℕ) → (error_code host cs r).1 ≢ ckr_ok
error_code-fails host cs (m, none) = λ bad. cc
error_code-fails host cs (m, some v) = elim (Bool-cases (leb (as_ulong host v) ckr_ok)) [
  | inl e ↦ rw e (λ bad. cc)
  | inr e ↦ rw e (λ bad. ground arith)
]

error_code-status :
    (host : Host) (cs : CallState) (r : Message × Option ℕ)
    → (error_code host cs r).0.call_status ≡ cs.call_status
error_code-status host cs (m, none) = refl
error_code-status host cs (m, some v) = refl

-- The code is CKR_OK only with the response of the call `c`: it has the number of the call and no failure,
-- and `text` is still to be read of it.
pub record Accepted (c : ℕ) (text : List ℕ) (r : CallState × ℕ) : Type 0 where
  pub settled : Settled text r.1 r.0
  pub numbered : (ok : r.1 ≡ ckr_ok) → (settled.response ok).call_id ≡ c
  pub unfailed : (ok : r.1 ≡ ckr_ok) → buffer_error (settled.response ok) ≡ false

failed-Accepted :
    (c : ℕ) (text : List ℕ) (ret : ℕ) (cs : CallState)
    → cs.call_status ≢ call_invalid
    → ret ≢ ckr_ok
    → Accepted c text (cs, ret)
failed-Accepted c text ret cs begun bad = record {
  settled = failed-Settled text ret cs begun bad;
  numbered = λ ok. absurd (bad ok);
  unfailed = λ ok. absurd (bad ok);
}

judged-Accepted :
    (host : Host) (cs : CallState) (req resp : Message) (text : List ℕ) (r : CallState × ℕ)
    → cs.call_status ≢ call_invalid
    → cs.resp ≡ some resp
    → response_of req.call_id ≡ some text
    → IsAnswer resp
    → judged host cs (some req) (some resp) ≡ done r
    → Accepted req.call_id text r
judged-Accepted host cs req resp text r begun given there answer h =
    elim (Bool-cases (resp.call_id == call_error)) [
      | inl error ↦
          let (got, p, q) = >>=-eq-done (read_ulong resp) _ (rw error at h) in
          let same : error_code host cs got ≡ r = cc in
          subst (Accepted req.call_id text) same (
            failed-Accepted req.call_id text _ _
              (λ e. begun (sym (error_code-status host cs got) ∙ e)) (error_code-fails host cs got))
      | inr fine ↦ elim (Bool-cases (req.call_id == resp.call_id)) [
        | inr other ↦
            let same : (cs, ckr_device_error) ≡ r = cc in
            subst (Accepted req.call_id text) same
              (failed-Accepted req.call_id text _ _ begun (λ bad. cc))
        | inl right ↦
            let number : req.call_id ≡ resp.call_id = ground arith in
            let (_, p, q) =
              >>=-eq-done (assert (not (buffer_error resp))) _ (rw (fine, right) at h) in
            let unfailed : buffer_error resp ≡ false = assert-not (buffer_error resp) p in
            let same : (cs, ckr_ok) ≡ r = cc in
            subst (Accepted req.call_id text) same (
              accepted (λ e. ground arith) (sym number) unfailed answer
                (sym (ap response_of number) ∙ there))
      ]
    ]
  where
    accepted :
        resp.call_id ≢ call_error
        → resp.call_id ≡ req.call_id
        → buffer_error resp ≡ false
        → IsAnswer resp
        → response_of resp.call_id ≡ some text
        → Accepted req.call_id text (cs, ckr_ok)
    accepted other number unfailed (bare e f) there' = absurd (other e)
    accepted other number unfailed (known text' of signature rest) there' =
        let same : text' ≡ text = cc in
        let settled : Settled text ckr_ok cs = record {
          begun = begun;
          response = λ ok. resp;
          given = λ ok. given;
          signature = λ ok. text';
          signed = λ ok. signature;
          rest = λ ok. rest ∙ ap some same;
        } in
        record { settled = settled; numbered = λ ok. number; unfailed = λ ok. unfailed }

after_dialog-Accepted :
    (host : Host) (req : Message) (text : List ℕ) (d r : CallState × ℕ)
    → (d.1 ≡ ckr_host_memory) ⊎ Dialog req d
    → response_of req.call_id ≡ some text
    → after_dialog host d ≡ done r
    → Accepted req.call_id text r
after_dialog-Accepted host req text (cs, ret) r how there h = elim (Bool-cases (ret == ckr_ok)) [
  | inr bad ↦
      let same : (record cs { call_status = call_parse }, ret) ≡ r = cc in
      subst (Accepted req.call_id text) same
        (failed-Accepted req.call_id text ret _ (λ e. cc) (λ e. ground arith))
  | inl good ↦ over (ground arith) (rw good at h) how
]
  where
    parsing : CallState
    parsing = record cs { call_status = call_parse }

    over :
        ret ≡ ckr_ok
        → judged host parsing cs.req cs.resp ≡ done r
        → (ret ≡ ckr_host_memory) ⊎ Dialog req (cs, ret)
        → Accepted req.call_id text r
    over ok q (inl e) = absurd (omega arith)
    over ok q (inr d) =
        judged-Accepted host parsing req d.resp text r (λ e. cc) d.answered there (d.answer ok)
          (sym (ap₂ (judged host parsing) d.asked d.answered) ∙ q)

run_req-Accepted :
    (host : Host) (cs : CallState) (req : Message) (text : List ℕ) (r : CallState × ℕ)
    → cs.call_status ≢ call_invalid
    → cs.req ≡ some req
    → response_of req.call_id ≡ some text
    → run_req host cs (some req) ≡ done r
    → Accepted req.call_id text r
unfolding call_send_recv
run_req-Accepted host cs req text r begun given there h = elim (Bool-cases (buffer_error req)) [
  | inl bad ↦
      let same : (cs, ckr_host_memory) ≡ r = cc in
      subst (Accepted req.call_id text) same
        (failed-Accepted req.call_id text ckr_host_memory cs begun (λ e. cc))
  | inr fine ↦
      let (_, p1, q1) = >>=-eq-done (assert (is_verified req)) _ (rw fine at h) in
      let (d, p2, q2) = >>=-eq-done (call_send_recv host cs) _ q1 in
      let (_, p3, q3) = >>=-eq-done (assert (is_given cs.req)) _ p2 in
      let (_, p4, q4) = >>=-eq-done (assert (same_status cs.call_status call_prep)) _ q3 in
      let start = record cs { call_status = call_transit } in
      let messages = message_there host host.resp_given cs.resp in
      let q5 : with_resp start (some req) messages ≡ done d =
        sym (ap (λ o. with_resp start o messages) given) ∙ q4 in
      elim (with_resp-Dialog start req messages d q5) [
        | inl e ↦
            after_dialog-Accepted host req text d r (inl (ap (λ (x : CallState × ℕ). x.1) e)) there
              q2
        | inr dialog ↦ after_dialog-Accepted host req text d r (inr dialog) there q2
      ]
]

-- When `call_run` returns from a call with a complete request, then with CKR_OK only if the response in the
-- state has the number of the call and no failure; what is still to be read of it is then the table's whole
-- signature for this call.
pub call_run-Accepted :
    (host : Host) (c : ℕ) (text : List ℕ) (cs : CallState) (r : CallState × ℕ)
    → Building c [] cs
    → response_of c ≡ some text
    → call_run host cs ≡ done r
    → Accepted c text r
unfolding call_run
call_run-Accepted host c text cs r b there h =
    let (_, p1, q1) = >>=-eq-done (assert (same_status cs.call_status call_prep)) _ h in
    let (_, p2, q2) = >>=-eq-done (assert (is_given cs.socket)) _ q1 in
    let begun : cs.call_status ≢ call_invalid = λ e. cc (b.status) in
    let q3 : run_req host cs (some b.request) ≡ done r = sym (ap (run_req host cs) b.given) ∙ q2 in
    subst (λ (n : ℕ). Accepted n text r) b.id
      (run_req-Accepted host cs b.request text r begun b.given (ap response_of b.id ∙ there) q3)

-- What the functions behind PROCESS_CALL take from it.
pub call_run-Settled :
    (host : Host) (c : ℕ) (text : List ℕ) (cs : CallState) (r : CallState × ℕ)
    → Building c [] cs
    → response_of c ≡ some text
    → call_run host cs ≡ done r
    → Settled text r.1 r.0
call_run-Settled host c text cs r b there h = (call_run-Accepted host c text cs r b there h).settled
