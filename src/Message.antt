-- ===== src/Message.antt =====
-- gck-rpc-message.c and the message structure of gck-rpc-private.h: one request or response being
-- built or taken apart. `assert` stops the process; the writers and readers of values are in
-- Message/Write and Message/Read.
pub mod Write
pub mod Read
pub mod Advance
pub mod Header
pub mod Answer
pub mod WriteSteps
pub mod ReadSteps
pub mod RoundTrip
pub mod Texts
pub mod Heading
pub mod Letters
pub mod AttributeSteps
use pkcs11_proxy.Common.{
  ℕ, ◌%◌, ◌^◌, Bool, true, false, not, ◌||◌, Option, none, some, List, [], ◌∷◌, length, codes,
  strip_prefix, list_eq, ltb, leb, ◌==◌, if◌then◌else◌, Outcome, done, abort, ◌>>=◌, ◌>>◌, assert,
}
use Prim.Native.String.{String}
use pkcs11_proxy.Buffer.{Buffer, Allocator, empty, has_error, init_full, reset, equal}
use pkcs11_proxy.Buffer.Ints.{add_uint32, get_uint32}
use pkcs11_proxy.Buffer.Arrays.{add_byte_array, get_byte_array}
use pkcs11_proxy.Calls.{call_error, call_max, request_of, response_of}

-- `GckRpcMessageType`; `no_type` is the 0 that a reset message has.
pub data MessageType : Type 0 where
  no_type request response : MessageType

-- `GckRpcMessage`. `sigverify` points into the signature: it is the part still to come.
pub record Message : Type 0 where
  pub call_id : ℕ
  pub call_type : MessageType
  pub signature : Option (List ℕ)
  pub buffer : Buffer
  pub parsed : ℕ
  pub sigverify : Option (List ℕ)

unfoldable pub message_reset : Message → Message
message_reset msg = record {
  call_id = 0;
  call_type = no_type;
  signature = none;
  buffer = reset msg.buffer;
  parsed = 0;
  sigverify = none;
}

-- The allocator gives the structure (`struct_given`) and then the buffer's block.
unfoldable pub message_new : Allocator → Bool → Option Message
message_new allocator struct_given =
    if not struct_given
    then none
    else (let (b, given) = init_full allocator 64 (some allocator) in
        if given
        then some (
            message_reset (record {
              call_id = 0;
              call_type = no_type;
              signature = none;
              buffer = b;
              parsed = 0;
              sigverify = none;
            }))
        else none)

-- gck_rpc_message_buffer_error
abbrev pub buffer_error : Message → Bool
buffer_error msg = has_error msg.buffer

-- gck_rpc_message_is_verified
unfoldable pub is_verified : Message → Bool
is_verified msg = elim msg.sigverify [
  | none ↦ true
  | some rest ↦ elim rest [ [] ↦ true | _ ∷ _ ↦ false ]
]

-- The signature that the table has for a call in this direction.
abbrev pub signature_of : ℕ → MessageType → Outcome (Option (List ℕ))
signature_of call_id request = done (request_of call_id)
signature_of call_id response = done (response_of call_id)
signature_of call_id no_type = abort

abbrev pub is_given : {A : Type 0} → Option A → Bool
is_given none = false
is_given (some _) = true

abbrev is_a_type : MessageType → Bool
is_a_type no_type = false
is_a_type _ = true

-- The signature of a message that is being prepared: none for an error.
unfoldable pub prep_signature : ℕ → MessageType → Outcome (Option (List ℕ))
prep_signature call_id type =
    if call_id == call_error
    then done none
    else do sig ← signature_of call_id type; assert (is_given sig); done sig

-- The call's number, and its signature if it has one.
unfoldable pub encode_header : Buffer → ℕ → Option (List ℕ) → Buffer
encode_header b call_id none = (add_uint32 b call_id).0
encode_header b call_id (some sig) = (add_byte_array (add_uint32 b call_id).0 (some sig)).0

-- The message that is filled in when all is checked.
unfoldable pub prepared : Message → ℕ → MessageType → Option (List ℕ) → Message
prepared msg call_id type sig = record {
  call_id = call_id;
  call_type = type;
  signature = sig;
  buffer = encode_header (message_reset msg).buffer call_id sig;
  parsed = 0;
  sigverify = sig;
}

unfoldable pub message_prep : Message → ℕ → MessageType → Outcome (Message × Bool)
message_prep msg call_id type = do
  assert (is_a_type type)
  assert (ltb call_id call_max)
  sig ← prep_signature call_id type
  let msg' = prepared msg call_id type sig
  done (msg', not (buffer_error msg'))

-- A reader at `msg->parsed`, which it moves.
abbrev pub take_from :
    {A : Type 0} → Message → (Buffer → ℕ → Buffer × Option (A × ℕ)) → Message × Option A
take_from msg get =
    let (b, result) = get msg.buffer msg.parsed in
    elim result [
      | none ↦ (record msg { buffer = b }, none)
      | some (x, next) ↦ (record msg { buffer = b; parsed = next }, some x)
    ]

-- The signature that came with the message is the table's. A NULL array has the length 0.
unfoldable pub signature_matches : List ℕ → Option (List ℕ) → Bool
signature_matches sig none = length sig == 0
signature_matches sig (some val) = list_eq sig val

-- The head that is filled in before the message's own signature is read.
abbrev pub named : Message → ℕ → MessageType → List ℕ → Message
named msg call_id type text = record msg {
  signature = some text;
  call_id = call_id;
  call_type = type;
  sigverify = some text;
}

abbrev pub compared : List ℕ → Message × Option (Option (List ℕ)) → Message × Bool
compared text (msg, none) = (msg, false)
compared text (msg, some val) = (msg, signature_matches text val)

-- The table's signature, which may not be NULL here, and then the message's own.
abbrev pub parse_named : Message → ℕ → MessageType → Option (List ℕ) → Outcome (Message × Bool)
parse_named msg call_id type none = abort
parse_named msg call_id type (some text) =
    done (compared text (take_from (named msg call_id type text) get_byte_array))

-- The part of gck_rpc_message_parse behind the call's number.
unfoldable pub parse_signature : Message → ℕ → MessageType → Outcome (Message × Bool)
parse_signature msg call_id type = signature_of call_id type >>= parse_named msg call_id type

abbrev is_request : MessageType → Bool
is_request request = true
is_request _ = false

-- The call's number, and what there is for a call with that number.
unfoldable pub parse_call : MessageType → Message × Option ℕ → Outcome (Message × Bool)
parse_call type (msg, none) = done (msg, false)
parse_call type (msg, some call_id) =
    let bare = record msg { signature = none; sigverify = none } in
    if call_id == call_error
    then done (bare, not (is_request type))
    else if leb call_max call_id
    then done (bare, false)
    else parse_signature bare call_id type

unfoldable pub message_parse : Message → MessageType → Outcome (Message × Bool)
message_parse msg type = parse_call type (take_from (record msg { parsed = 0 }) get_uint32)

-- Both signatures NULL, or the same text.
unfoldable pub same_signature : Option (List ℕ) → Option (List ℕ) → Bool
same_signature none none = true
same_signature none (some t) = false
same_signature (some s) none = false
same_signature (some s) (some t) = list_eq s t

abbrev pub same_type : MessageType → MessageType → Bool
same_type no_type no_type = true
same_type request request = true
same_type response response = true
same_type _ _ = false

unfoldable pub message_equals : Message → Message → Bool
message_equals m n =
    if buffer_error m || buffer_error n
    then false
    else if not (m.call_id == n.call_id)
    then false
    else if not (same_type m.call_type n.call_type)
    then false
    else if not (same_signature m.signature n.signature)
    then false
    else equal m.buffer n.buffer

unfoldable pub verify_part : Message → List ℕ → Message × Bool
verify_part msg part = elim msg.sigverify [
  | none ↦ (msg, true)
  | some text ↦ elim (strip_prefix part text) [
    | none ↦ (msg, false)
    | some rest ↦ (record msg { sigverify = some rest }, true)
  ]
]

-- `assert (!msg->signature || gck_rpc_message_verify_part (msg, part))`
unfoldable pub check_part : String → Message → Outcome Message
check_part part msg = elim msg.signature [
  | none ↦ done msg
  | some _ ↦ let (msg', ok) = verify_part msg (codes part) in if ok then done msg' else abort
]
