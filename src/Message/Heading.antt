-- ===== src/Message/Heading.antt =====
-- The head of a message, from gck_rpc_message_prep at one end to gck_rpc_message_parse at the other: the
-- call's number and its signature.
use pkcs11_proxy.Common.{
  ℕ, zero, suc, ◌<◌, ◌≤◌, ◌≡◌, refl, sym, ap, ◌∙◌, subst, Bool, true, false, not, Option, some,
  List, [], ◌∷◌, ◌++◌, append_assoc, length, list_eq_refl, memset, ltb, leb, lt→ltb, ◌==◌, Outcome,
  done, All, IsByte, arith,
}
use pkcs11_proxy.Wire.{be32, array, read_be32, read_array}
use pkcs11_proxy.Wire.RoundTrip.{read_be32-be32, read_array-array}
use pkcs11_proxy.Calls.{call_error, call_max, request_of, response_of}
use pkcs11_proxy.Buffer.{Buffer, reset}
use pkcs11_proxy.Buffer.Ints.{get_uint32}
use pkcs11_proxy.Buffer.Arrays.{get_byte_array, length_limit}
use pkcs11_proxy.Buffer.Inv.{IsValid, contents}
use pkcs11_proxy.Buffer.Unread.{unread}
use pkcs11_proxy.Buffer.Wrote.{Wrote, Wrote-seq}
use pkcs11_proxy.Buffer.Writers.{Sendable, add_uint32-Writes, add_byte_array-Writes}
use pkcs11_proxy.Buffer.Readers.{Reads, get_uint32-Reads, get_byte_array-Reads}
use pkcs11_proxy.Message.{
  Message, MessageType, request, response, no_type, signature_of, message_reset, encode_header,
  prepared, prep_signature, buffer_error, message_prep, take_from, named, compared, parse_signature,
  parse_call, signature_matches, message_parse,
}
use pkcs11_proxy.Message.Advance.{Expects}
use pkcs11_proxy.Message.ReadSteps.{take_from-TakesPair}
use pkcs11_proxy.Message.Texts.{signature-Sendable}

-- What the head is on the wire.
abbrev pub head_bytes : ℕ → List ℕ → List ℕ
head_bytes c text = be32 c ++ array (some text)

encode_header-Wrote :
    {b : Buffer} (c : ℕ) (text : List ℕ)
    → IsValid b
    → Sendable (some text)
    → Wrote b (head_bytes c text) (encode_header b c (some text))
unfolding encode_header
encode_header-Wrote c text v h =
    let first = add_uint32-Writes c v in
    Wrote-seq (be32 c) (array (some text)) v first.effect
      (add_byte_array-Writes (some text) first.effect.valid h).effect

memset-IsByte : (xs : List ℕ) (n : ℕ) → All IsByte xs → All IsByte (memset xs 0 n)
unfolding memset
memset-IsByte [] n h = tt
memset-IsByte (x ∷ xs) zero h = h
memset-IsByte (x ∷ xs) (suc n) h = (omega arith, memset-IsByte xs n h.1)

length-memset : (xs : List ℕ) (n : ℕ) → length (memset xs 0 n) ≡ length xs
unfolding memset
length-memset [] n = refl
length-memset (x ∷ xs) zero = refl
length-memset (x ∷ xs) (suc n) = ap suc (length-memset xs n)

pub reset-IsValid : (b : Buffer) → IsValid b → IsValid (reset b)
unfolding reset
reset-IsValid b v = record {
  sized = length-memset b.buf b.allocated_len ∙ v.sized;
  fits = omega arith;
  bounded = v.bounded;
  bytes = memset-IsByte b.buf b.allocated_len v.bytes;
  lawful = v.lawful;
}

pub reset_empty : (b : Buffer) → ((reset b).len ≡ 0) × ((reset b).failures ≡ 0)
unfolding reset
reset_empty b = (refl, refl)

signed_prep :
    (msg : Message) (type : MessageType) (c : ℕ) (text : List ℕ)
    → 0 < c
    → c < call_max
    → signature_of c type ≡ done (some text)
    → message_prep msg c type
      ≡ done (prepared msg c type (some text), not (buffer_error (prepared msg c type (some text))))
unfolding message_prep prep_signature
signed_prep msg no_type c text h lt e = absurd cc
signed_prep msg request c text h lt e =
    let no_error : (c == call_error) ≡ false = ground arith in
    let there : request_of c ≡ some text = cc in rw (lt→ltb _ _ lt, no_error, there) refl
signed_prep msg response c text h lt e =
    let no_error : (c == call_error) ≡ false = ground arith in
    let there : response_of c ≡ some text = cc in rw (lt→ltb _ _ lt, no_error, there) refl

done_parts :
    {a b : Message} {x y : Bool}
    → ◌≡◌ {A = Outcome (Message × Bool)} (done (a, x)) (done (b, y))
    → (a ≡ b) × (x ≡ y)
done_parts e = (cc, cc)

-- A message that was prepared has the head in its buffer, and expects the values of its signature.
pub message_prep-head :
    (msg m : Message) (type : MessageType) (c : ℕ) (text : List ℕ)
    → IsValid msg.buffer
    → 0 < c
    → c < call_max
    → signature_of c type ≡ done (some text)
    → message_prep msg c type ≡ done (m, true)
    → (contents m.buffer ≡ head_bytes c text) × Expects m text
unfolding prepared message_reset reset
message_prep-head msg m type c text v h lt there e =
    let start = reset msg.buffer in
    let w =
      encode_header-Wrote c text (reset-IsValid msg.buffer v)
        (signature-Sendable type c text there) in
    let (same, sound) = done_parts (sym (signed_prep msg type c text h lt there) ∙ e) in
    let none_failed : (encode_header start c (some text)).failures ≡ 0 = no_failure _ sound in
    subst (λ (x : Message). (contents x.buffer ≡ head_bytes c text) × Expects x text) same
      ((w.written none_failed).1, record { signed = λ bad. cc; rest = refl; valid = w.valid })
  where
    no_failure : (n : ℕ) → not (ltb 0 n) ≡ true → n ≡ 0
    no_failure n h = ground arith

-- The message that the parser makes of a head.
abbrev pub headed : Message → MessageType → ℕ → List ℕ → ℕ → Message
headed msg type c text next = record {
  call_id = c;
  call_type = type;
  signature = some text;
  buffer = msg.buffer;
  parsed = next;
  sigverify = some text;
}

signed_parse :
    (msg : Message) (type : MessageType) (c : ℕ) (text : List ℕ)
    → 0 < c
    → c < call_max
    → signature_of c type ≡ done (some text)
    → parse_call type (msg, some c)
      ≡ done (compared text (take_from (named msg c type text) get_byte_array))
unfolding parse_call parse_signature
signed_parse msg type c text h lt there =
    let no_error : (c == call_error) ≡ false = ground arith in
    let known : leb call_max c ≡ false = ground arith in rw (no_error, known, there) refl

signature-same :
    (text : List ℕ) (r : Message × Option (Option (List ℕ))) (m : Message)
    → r ≡ (m, some (some text))
    → compared text r ≡ (m, true)
unfolding signature_matches
signature-same text r m e = rw e (ap (λ ok. (m, ok)) (list_eq_refl text))

-- The parser takes the head from bytes that begin with it, and stands at the bytes behind it.
pub message_parse-head :
    (msg : Message) (type : MessageType) (c : ℕ) (text more : List ℕ)
    → IsValid msg.buffer
    → 0 < c
    → c < call_max
    → signature_of c type ≡ done (some text)
    → contents msg.buffer ≡ head_bytes c text ++ more
    → (next : ℕ) × (message_parse msg type ≡ done (headed msg type c text next, true))
      × (unread msg.buffer next ≡ more)
      × (next ≤ msg.buffer.len)
unfolding message_parse
message_parse-head msg type c text more v h lt there comes =
    let start = record msg { parsed = 0 } in
    let number : read_be32 (unread msg.buffer 0) ≡ some (c, array (some text) ++ more) =
      ap read_be32 (comes ∙ append_assoc (be32 c) (array (some text)) more)
      ∙ read_be32-be32 c (array (some text) ++ more) (omega arith) in
    let (n1, e1, left1, le1) =
      take_from-TakesPair start get_uint32 (some (c, array (some text) ++ more))
        (subst (λ p. Reads msg.buffer p (get_uint32 msg.buffer 0)) number (get_uint32-Reads v 0)) in
    let middle = named (record start { parsed = n1 }) c type text in
    let short : length text < length_limit = (signature-Sendable type c text there).1 in
    let text_there : read_array (unread msg.buffer n1) ≡ some (some text, more) =
      ap read_array left1
      ∙ read_array-array (some text) more
          (λ l e. let same : text ≡ l = cc in subst (λ t. length t < length_limit) same short) in
    let (n2, e2, left2, le2) = take_from-TakesPair middle get_byte_array (some (some text, more)) (
      subst (λ p. Reads msg.buffer p (get_byte_array msg.buffer n1)) text_there
        (get_byte_array-Reads v n1)) in
    (
      n2,
      ap (parse_call type) e1
          ∙ signed_parse (record start { parsed = n1 }) type c text h lt there
          ∙ ap done (signature-same text _ (record middle { parsed = n2 }) e2),
      left2,
      le2,
    )

-- What one end prepares for a call of the table, the other end parses: where the data of a valid buffer
-- are those of a message that was prepared without a failure, with more behind them, the parser accepts,
-- with the number and the type of the call; it stands in front of what is behind the head, and both
-- messages then expect the values of the same signature, the table's.
pub message_parse-message_prep :
    (msg m msg' : Message) (type : MessageType) (c : ℕ) (text more : List ℕ)
    → IsValid msg.buffer
    → 0 < c
    → c < call_max
    → signature_of c type ≡ done (some text)
    → message_prep msg c type ≡ done (m, true)
    → IsValid msg'.buffer
    → contents msg'.buffer ≡ contents m.buffer ++ more
    → (next : ℕ) × (message_parse msg' type ≡ done (headed msg' type c text next, true))
      × (unread msg'.buffer next ≡ more)
      × Expects m text
      × Expects (headed msg' type c text next) text
message_parse-message_prep msg m msg' type c text more v h lt there prep v' comes =
    let (head, expects) = message_prep-head msg m type c text v h lt there prep in
    let (next, e, left, le) =
      message_parse-head msg' type c text more v' h lt there (comes ∙ ap (λ l. l ++ more) head) in
    (next, e, left, expects, record { signed = λ bad. cc; rest = refl; valid = v' })
