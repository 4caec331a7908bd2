-- ===== src/Message/Answer.antt =====
-- `gck_rpc_message_parse` on the bytes of a response, in a message that was reset: what the caller, who
-- does not look at the answer, has before it.
use pkcs11_proxy.Common.{
  ℕ, ◌≡◌, refl, ap, ◌∙◌, Bool, Bool-cases, inl, inr, Option, none, some, List, leb, ◌==◌, done,
  arith,
}
use pkcs11_proxy.Buffer.Ints.{get_uint32}
use pkcs11_proxy.Buffer.Arrays.{get_byte_array}
use pkcs11_proxy.Calls.{call_error, call_max, response_of}
use pkcs11_proxy.Calls.Table.{response_there}
use pkcs11_proxy.Message.{
  Message, response, take_from, named, compared, parse_call, parse_signature, message_parse,
}
use pkcs11_proxy.Message.Header.{take_from-SameHead}

-- Nothing of the head was taken over, and the number is that of an error; or the number is that of a call,
-- whose response signature is still to come whole.
pub data IsAnswer (m : Message) : Type 0 where
  bare : m.call_id ≡ call_error → m.signature ≡ none → IsAnswer m
  known :
      (text : List ℕ)
      → response_of m.call_id ≡ some text
      → m.signature ≡ some text
      → m.sigverify ≡ some text
      → IsAnswer m

compared-same : (text : List ℕ) (r : Message × Option (Option (List ℕ))) → (compared text r).0 ≡ r.0
compared-same text (m, none) = refl
compared-same text (m, some val) = refl

parse_named-IsAnswer :
    (msg : Message) (call_id : ℕ) (text : List ℕ)
    → response_of call_id ≡ some text
    → IsAnswer (compared text (take_from (named msg call_id response text) get_byte_array)).0
parse_named-IsAnswer msg call_id text there =
    let start = named msg call_id response text in
    let head = take_from-SameHead start get_byte_array in
    let same = compared-same text (take_from start get_byte_array) in
    known text (ap response_of (ap (λ (x : Message). x.call_id) same ∙ head.call_id) ∙ there)
      (ap (λ (x : Message). x.signature) same ∙ head.signature)
      (ap (λ (x : Message). x.sigverify) same ∙ head.sigverify)

parse_call-IsAnswer :
    (r : Message × Option ℕ)
    → r.0.call_id ≡ call_error
    → r.0.signature ≡ none
    → (out : Message × Bool) × (parse_call response r ≡ done out) × IsAnswer out.0
unfolding parse_call parse_signature
parse_call-IsAnswer (m, none) e f = (_, refl, bare e f)
parse_call-IsAnswer (m, some call_id) e f = elim (Bool-cases (call_id == call_error)) [
  | inl error ↦ rw error (_, refl, bare e refl)
  | inr other ↦ elim (Bool-cases (leb call_max call_id)) [
    | inl large ↦ rw (other, large) (_, refl, bare e refl)
    | inr there ↦
        let (text, found) = response_there call_id (ground arith) (ground arith) in
        rw (other, there, found)
          (
            _,
            refl,
            parse_named-IsAnswer (record m { signature = none; sigverify = none }) call_id text
                found,
          )
  ]
]

-- In a message that was reset, no assertion of the parser fails whatever the bytes of the response are,
-- and it ends in one of the two ways, also where the parser refuses.
pub message_parse-IsAnswer :
    (msg : Message)
    → msg.call_id ≡ call_error
    → msg.signature ≡ none
    → (r : Message × Bool) × (message_parse msg response ≡ done r) × IsAnswer r.0
unfolding message_parse
message_parse-IsAnswer msg e f =
    let start = record msg { parsed = 0 } in
    let head = take_from-SameHead start get_uint32 in
    parse_call-IsAnswer (take_from start get_uint32) (head.call_id ∙ e) (head.signature ∙ f)
