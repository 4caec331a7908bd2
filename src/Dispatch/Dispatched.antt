-- ===== src/Dispatch/Dispatched.antt =====
-- `dispatch_call` of gck-rpc-dispatch.c: from a request that was accepted to a response that may be sent.
use pkcs11_proxy.Common.{
  ℕ, ◌≡◌, refl, sym, ap, ◌∙◌, ◌⊎◌, inl, inr, Bool, true, false, not, ◌||◌, Bool-cases, none, some,
  List, [], ltb, ==_refl, ◌==◌, if◌then◌else◌, list_eq_refl, Outcome, done, abort, ◌>>=◌, subst,
  add_size, arith,
}
use pkcs11_proxy.Pkcs11.{ckr_ok}
use pkcs11_proxy.Calls.{call_error, call_max, request_of, response_of}
use pkcs11_proxy.Calls.Table.{response_there}
use pkcs11_proxy.Buffer.{has_error, reserve}
use pkcs11_proxy.Buffer.Ints.{decode_uint32}
use pkcs11_proxy.Message.{
  Message, request, response, message_parse, prepared, buffer_error, is_verified, same_type,
  same_signature, is_given, check_part,
}
use pkcs11_proxy.Message.Write.{write_ulong}
use pkcs11_proxy.Message.Header.{
  IsAsked, message_parse_returns, message_parse-IsAsked, message_prep_response, message_prep_error,
}
use pkcs11_proxy.Dispatch.{World, call_reset, Step, value, cleanup}
use pkcs11_proxy.Dispatch.Proto.{Machine}
use pkcs11_proxy.Dispatch.Library.{FunctionList}
use pkcs11_proxy.Dispatch.Cases.{cases}
use pkcs11_proxy.Dispatch.Server.{
  with_resp, with_req, Socket, read_all, receive_body, serve, switch, buffers_checked,
  assert_filled, error_response, finish_call, dispatch_call,
}
use pkcs11_proxy.Dispatch.Ensures.{Frame, At, AtWorld, Holds}
use pkcs11_proxy.Dispatch.Answered.{WhenOk, Completes, frame}
use pkcs11_proxy.Dispatch.Opened.{IsPresent}
use pkcs11_proxy.Dispatch.Completion.{letters_of, handlers-Completes}

-- The response of `resp` may be sent: no failure is counted in its buffer, and it is the whole response
-- to the call `id`, or an error.
pub record IsAnswer (id : ℕ) (resp : Message) : Type 0 where
  pub no_failure : buffer_error resp ≡ false
  pub for_call : ((resp.call_id ≡ id) × (is_verified resp ≡ true)) ⊎ (resp.call_id ≡ call_error)

-- The process goes on, and what it says it has answered is an answer.
abbrev pub Answers : {S : Type 0} → ℕ → Outcome (World S × Bool) → Type 0
Answers {S} id out = (r : World S × Bool) × (out ≡ done r) × (r.1 ≡ true → IsAnswer id r.0.cs.resp)

same_text : (text : List ℕ) → same_signature (some text) (some text) ≡ true
unfolding same_signature
same_text text = list_eq_refl text

At-verified :
    {f : Frame} {q : List ℕ} {req resp : Message} → At f q [] req resp → is_verified resp ≡ true
unfolding is_verified
At-verified p = rw p.resp_rest refl

settled : (ok bad : Bool) → (if not ok || bad then false else true) ≡ true → bad ≡ false
settled true true e = sym e
settled true false e = refl
settled false bad e = absurd cc

module _ {S : Type 0} where
  buffers_checked-ok :
      (w : World S) (ret : ℕ)
      → buffers_checked w ret ≡ ckr_ok
      → (ret ≡ ckr_ok) × (buffer_error w.cs.resp ≡ false)
  unfolding buffers_checked
  buffers_checked-ok w ret e = (ground arith, ground arith)

  error_response-Answers : (w : World S) (id ret : ℕ) → Answers id (error_response w ret)
  unfolding error_response write_ulong check_part prepared
  error_response-Answers w id ret =
      elim (Bool-cases (buffer_error (prepared w.cs.resp call_error response none))) [
        | inl failed ↦ rw (message_prep_error w.cs.resp, failed) (_, refl, λ e. cc)
        | inr sound ↦
            rw (message_prep_error w.cs.resp, sound)
              (_, refl, λ e. record { no_failure = settled _ _ e; for_call = inr refl })
      ]

  assert_filled-Answers :
      (w : World S) (id : ℕ) (asked answered : List ℕ)
      → response_of id ≡ some answered
      → AtWorld (frame id asked answered) [] [] w
      → buffer_error w.cs.resp ≡ false
      → Answers id (assert_filled w)
  unfolding assert_filled
  assert_filled-Answers w id asked answered there p sound =
      let verified : is_verified w.cs.resp ≡ true = At-verified p in
      let typed : same_type w.cs.resp.call_type response ≡ true = rw p.resp_type refl in
      let numbers : (w.cs.resp.call_id == w.cs.req.call_id) ≡ true =
        rw (p.resp_id, p.req_id) (==_refl id) in
      let expected : response_of w.cs.resp.call_id ≡ some answered =
        ap response_of p.resp_id ∙ there in
      let given : is_given w.cs.resp.signature ≡ true = rw p.resp_signature refl in
      let same : same_signature (some answered) w.cs.resp.signature ≡ true =
        ap (same_signature (some answered)) p.resp_signature ∙ same_text answered in
      (
        (w, true),
        rw (verified, typed, numbers, expected, given, same) refl,
        λ _. record { no_failure = sound; for_call = inl (p.resp_id, verified) },
      )

  finish_call-Answers :
      (out : World S × Step ℕ) (id : ℕ) (asked answered : List ℕ)
      → response_of id ≡ some answered
      → Holds (WhenOk (frame id asked answered) []) (done out)
      → Answers id (finish_call out)
  unfolding finish_call
  finish_call-Answers (w, cleanup ret) id asked answered there p =
      elim (Bool-cases (buffers_checked w ret == ckr_ok)) [
        | inl ok ↦ absurd (p (buffers_checked-ok w ret (ground arith)).0)
        | inr bad ↦ rw bad (error_response-Answers w id (buffers_checked w ret))
      ]
  finish_call-Answers (w, value ret) id asked answered there p =
      elim (Bool-cases (buffers_checked w ret == ckr_ok)) [
        | inl ok ↦
            let (is_ok, sound) = buffers_checked-ok w ret (ground arith) in
            rw ok (assert_filled-Answers w id asked answered there (p is_ok) sound)
        | inr bad ↦ rw bad (error_response-Answers w id (buffers_checked w ret))
      ]

  finished-Answers :
      (out : Outcome (World S × Step ℕ)) (id : ℕ) (asked answered : List ℕ)
      → response_of id ≡ some answered
      → Holds (WhenOk (frame id asked answered) []) out
      → Answers id (out >>= finish_call)
  finished-Answers (done out) id asked answered there p =
      finish_call-Answers out id asked answered there p
  finished-Answers abort id asked answered there p = absurd p

  -- The response is prepared, and the handler begins at the first letters of both signatures.
  prepared_at :
      (w : World S) (answered : List ℕ)
      → (asked : IsAsked w.cs.req)
      → AtWorld
          (frame w.cs.req.call_id asked.text answered)
          asked.text
          answered
          (with_resp w (prepared w.cs.resp w.cs.req.call_id response (some answered)))
  unfolding prepared
  prepared_at w answered asked = record {
    req_id = refl;
    req_signature = asked.signature;
    req_rest = asked.whole;
    resp_id = refl;
    resp_type = refl;
    resp_signature = refl;
    resp_rest = refl;
  }

  module _ (machine : Machine) (wide : machine.ulong_size ≡ 8) (lib : FunctionList S)
      (present : IsPresent lib) where
    handler-Completes :
        (w : World S) (asked : IsAsked w.cs.req) (answered : List ℕ)
        → response_of w.cs.req.call_id ≡ some answered
        → Completes w.cs.req.call_id asked.text answered
            (switch w.cs.req.call_id (cases machine lib))
    handler-Completes w asked answered there =
        let id = w.cs.req.call_id in
        let h = switch id (cases machine lib) in
        let complete = handlers-Completes machine wide lib present id asked.positive asked.known in
        subst (λ l. Completes id l answered h) (ap letters_of asked.of_table)
          (subst (λ l. Completes id (letters_of (request_of id)) l h) (ap letters_of there)
            complete)

    dispatch_call-Answers :
        (w : World S) → IsAsked w.cs.req → Answers w.cs.req.call_id (dispatch_call machine lib w)
    unfolding dispatch_call
    dispatch_call-Answers w asked =
        let id = w.cs.req.call_id in
        let (answered, there) = response_there id asked.positive asked.known in
        let positive : ltb call_error id ≡ true = ground (arith, asked.positive) in
        let known : ltb id call_max ≡ true = ground (arith, asked.known) in
        let prepares =
          message_prep_response w.cs.resp id answered asked.positive asked.known there in
        elim (Bool-cases (buffer_error (prepared w.cs.resp id response (some answered)))) [
          | inl failed ↦ rw (positive, known, prepares, failed) (_, refl, λ e. cc)
          | inr sound ↦
              rw (positive, known, prepares, sound)
                (finished-Answers _ id asked.text answered there
                  ((handler-Completes w asked answered there).run _ (prepared_at w answered asked)))
        ]

    -- Whatever bytes a request has, no assertion of its parsing, of `dispatch_call` or of a handler
    -- fails: the request is refused, or it is dispatched, and if the daemon then means to answer, the
    -- response has no failure counted and is the whole response to this call, or an error. It is assumed
    -- that `CK_ULONG` has 64 bits, and that the module has C_GetSlotInfo and C_CloseSession; the module's
    -- and `malloc`'s answers are arbitrary.
    pub parse-dispatch_call-Answers :
        (w : World S)
        → (r : Message × Bool) × (message_parse w.cs.req request ≡ done r)
          × (r.1 ≡ true → Answers r.0.call_id (dispatch_call machine lib (with_req w r.0)))
    parse-dispatch_call-Answers w =
        let (r, e) = message_parse_returns w.cs.req in
        (
          r,
          e,
          λ ok.
              dispatch_call-Answers (with_req w r.0)
                (message_parse-IsAsked w.cs.req r.0 (e ∙ ap (λ b. done (r.0, b)) ok)),
        )

-- Where four bytes of a client are received, which say that the request has no bytes, and the emptied
-- buffer of the request has no failure, the process stops: `read_all` asserts that the socket is open and
-- that there is something to read.
pub serve_empty :
    {S T : Type 0} (machine : Machine) (lib : FunctionList S) (socket : Socket T) (w : World S)
    (t : T) (head : List ℕ)
    → (socket.receive 4 t).1 ≡ some head
    → decode_uint32 head ≡ 0
    → has_error
        (reserve (call_reset w.cs).req.buffer (add_size (call_reset w.cs).req.buffer.len 0)).0
      ≡ false
    → serve machine lib socket w t ≡ abort
unfolding serve receive_body read_all
serve_empty machine lib socket w t head got empty sound =
    elim (Bool-cases (is_given (call_reset w.cs).sock)) [
      | inl is_open ↦ rw (is_open, got, empty, sound) (rw is_open refl)
      | inr closed ↦ rw closed refl
    ]
