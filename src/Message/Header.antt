-- ===== src/Message/Header.antt =====
-- The head of a message (gck-rpc-message.c): what `gck_rpc_message_prep` leaves, and what
-- `gck_rpc_message_parse` has checked when it accepts.
use pkcs11_proxy.Common.{
  ℕ, ◌<◌, ◌≡◌, refl, sym, ap, ◌∙◌, Bool, true, false, not, Bool-cases, inl, inr, Option-cases,
  Option, none, some, List, leb, lt→ltb, ◌==◌, done, arith,
}
use pkcs11_proxy.Buffer.{Buffer}
use pkcs11_proxy.Buffer.Ints.{get_uint32}
use pkcs11_proxy.Buffer.Arrays.{get_byte_array}
use pkcs11_proxy.Calls.{call_error, call_max, request_of, response_of}
use pkcs11_proxy.Calls.Table.{request_there}
use pkcs11_proxy.Message.{
  Message, request, response, buffer_error, prepared, prep_signature, message_prep, take_from,
  named, compared, parse_named, parse_call, parse_signature, message_parse,
}

-- A response that is not an error carries the table's signature.
pub message_prep_response :
    (msg : Message) (call_id : ℕ) (sig : List ℕ)
    → 0 < call_id
    → call_id < call_max
    → response_of call_id ≡ some sig
    → message_prep msg call_id response
      ≡ done (
        prepared msg call_id response (some sig),
        not (buffer_error (prepared msg call_id response (some sig))),
      )
unfolding message_prep prep_signature
message_prep_response msg call_id sig h lt e =
    let no_error : (call_id == call_error) ≡ false = ground arith in
    rw (lt→ltb _ _ lt, no_error, e) refl

-- A request carries the table's signature.
pub message_prep_request :
    (msg : Message) (call_id : ℕ) (sig : List ℕ)
    → 0 < call_id
    → call_id < call_max
    → request_of call_id ≡ some sig
    → message_prep msg call_id request
      ≡ done (
        prepared msg call_id request (some sig),
        not (buffer_error (prepared msg call_id request (some sig))),
      )
unfolding message_prep prep_signature
message_prep_request msg call_id sig h lt e =
    let no_error : (call_id == call_error) ≡ false = ground arith in
    rw (lt→ltb _ _ lt, no_error, e) refl

pub message_prep_error :
    (msg : Message)
    → message_prep msg call_error response
      ≡ done (
        prepared msg call_error response none,
        not (buffer_error (prepared msg call_error response none)),
      )
unfolding message_prep prep_signature
message_prep_error msg = refl

-- What holds of a request that `gck_rpc_message_parse` has accepted.
pub record IsAsked (m : Message) : Type 0 where
  pub text : List ℕ
  pub positive : 0 < m.call_id
  pub known : m.call_id < call_max
  pub of_table : request_of m.call_id ≡ some text
  pub signature : m.signature ≡ some text
  pub whole : m.sigverify ≡ some text

-- A reader of the buffer leaves the head.
pub record SameHead (m m' : Message) : Type 0 where
  pub call_id : m'.call_id ≡ m.call_id
  pub signature : m'.signature ≡ m.signature
  pub sigverify : m'.sigverify ≡ m.sigverify

pub take_from-SameHead :
    {A : Type 0} (m : Message) (get : Buffer → ℕ → Buffer × Option (A × ℕ))
    → SameHead m (take_from m get).0
take_from-SameHead m get = elim (Option-cases (get m.buffer m.parsed).1) [
  | inl e ↦ rw (e, take_from) (record { call_id = refl; signature = refl; sigverify = refl })
  | inr (x, e) ↦ rw (e, take_from) (record { call_id = refl; signature = refl; sigverify = refl })
]

compared-head :
    (text : List ℕ) (r : Message × Option (Option (List ℕ))) (m : Message)
    → compared text r ≡ (m, true)
    → r.0 ≡ m
compared-head text (m', none) m e = cc
compared-head text (m', some val) m e = cc

parse_named-IsAsked :
    (msg : Message) (call_id : ℕ) (sig : Option (List ℕ)) (m : Message)
    → 0 < call_id
    → call_id < call_max
    → request_of call_id ≡ sig
    → parse_named msg call_id request sig ≡ done (m, true)
    → IsAsked m
parse_named-IsAsked msg call_id none m h lt there e = absurd cc
parse_named-IsAsked msg call_id (some text) m h lt there e =
    let start = named msg call_id request text in
    let head = take_from-SameHead start get_byte_array in
    let same : (take_from start get_byte_array).0 ≡ m =
      compared-head text (take_from start get_byte_array) m cc in
    let number : m.call_id ≡ call_id = ap (λ (x : Message). x.call_id) (sym same) ∙ head.call_id in
    record {
      text = text;
      positive = omega arith;
      known = omega arith;
      of_table = ap request_of number ∙ there;
      signature = ap (λ (x : Message). x.signature) (sym same) ∙ head.signature;
      whole = ap (λ (x : Message). x.sigverify) (sym same) ∙ head.sigverify;
    }

parse_call-IsAsked :
    (r : Message × Option ℕ) (m : Message) → parse_call request r ≡ done (m, true) → IsAsked m
unfolding parse_call parse_signature
parse_call-IsAsked (msg, none) m e = absurd cc
parse_call-IsAsked (msg, some call_id) m e =
    let bare = record msg { signature = none; sigverify = none } in
    let other : (call_id == call_error) ≡ false = ground arith in
    let known : leb call_max call_id ≡ false = ground arith in
    let e' : parse_named bare call_id request (request_of call_id) ≡ done (m, true) =
      ground arith in
    parse_named-IsAsked bare call_id (request_of call_id) m (ground arith) (ground arith) refl e'

-- A request that is accepted names a call of the table, and is expected to follow its request signature.
pub message_parse-IsAsked :
    (msg m : Message) → message_parse msg request ≡ done (m, true) → IsAsked m
unfolding message_parse
message_parse-IsAsked msg m e =
    parse_call-IsAsked (take_from (record msg { parsed = 0 }) get_uint32) m e

parse_call_returns :
    (r : Message × Option ℕ) → (out : Message × Bool) × (parse_call request r ≡ done out)
unfolding parse_call parse_signature
parse_call_returns (m, none) = (_, refl)
parse_call_returns (m, some call_id) = elim (Bool-cases (call_id == call_error)) [
  | inl error ↦ rw error (_, refl)
  | inr other ↦ elim (Bool-cases (leb call_max call_id)) [
    | inl large ↦ rw (other, large) (_, refl)
    | inr known ↦
        let (text, there) = request_there call_id (ground arith) (ground arith) in
        rw (other, known, there) (_, refl)
  ]
]

-- No assertion fails in a request, whatever its bytes are.
pub message_parse_returns :
    (msg : Message) → (r : Message × Bool) × (message_parse msg request ≡ done r)
unfolding message_parse
message_parse_returns msg = parse_call_returns (take_from (record msg { parsed = 0 }) get_uint32)
