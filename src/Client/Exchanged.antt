-- ===== src/Client/Exchanged.antt =====
-- `call_send_recv` of gck-rpc-module.c on the wire: a request goes out behind its length, and a response
-- comes in behind its length.
use pkcs11_proxy.Common.{
  ℕ, ◌+◌, ◌^◌, ◌<◌, ◌≤◌, ◌≡◌, refl, ap, ◌∙◌, Bool, true, false, none, some, List, ◌++◌,
  append_assoc, length, length-append, take, drop, take-append, drop-append, All, add_size, done,
  abort, ◌>>=◌, arith,
}
use pkcs11_proxy.Pkcs11.{ckr_ok}
use pkcs11_proxy.Wire.{be32}
use pkcs11_proxy.Buffer.{Buffer, reserve}
use pkcs11_proxy.Buffer.Ints.{encode_uint32, decode_uint32}
use pkcs11_proxy.Buffer.Received.{decode_uint32-be32}
use pkcs11_proxy.Buffer.Writers.{encode_uint32_lem}
use pkcs11_proxy.Buffer.Inv.{contents}
use pkcs11_proxy.Message.{Message, response, message_parse}
use pkcs11_proxy.Calls.{call_error}
use pkcs11_proxy.Message.Answer.{message_parse-IsAnswer}
use pkcs11_proxy.Client.{Socket, CallState, call_transit}
use pkcs11_proxy.Client.Transport.{call_read}
use pkcs11_proxy.Client.Session.{
  send_request, received, parsed_response, receive_body, receive_response, restored, exchange,
}
use pkcs11_proxy.Client.Delivered.{Harmless, call_write_delivers, call_read_receives}

-- A plain connection that is being used for a dialog, and whose system never fails for good.
pub record IsOpen (cs : CallState) (s : Socket) : Type 0 where
  pub given : cs.socket ≡ some s
  pub plain : cs.tls ≡ false
  pub harmless : All Harmless s.replies

-- The request is on the wire behind its length.
pub send_request_lem :
    (cs : CallState) (s : Socket) (b : Buffer)
    → IsOpen cs s
    → 0 < length (contents b)
    → (s' : Socket) × (send_request cs b ≡ done (record cs { socket = some s' }, ckr_ok))
      × (s'.outgoing ≡ s.outgoing ++ (be32 b.len ++ contents b))
      × (s'.incoming ≡ s.incoming)
      × All Harmless s'.replies
unfolding send_request
send_request_lem cs s b o h =
    let size : 0 < length (encode_uint32 b.len) =
      let e = ap length (encode_uint32_lem b.len) in omega arith in
    let (s1, e1, out1, in1, calm1) =
      call_write_delivers cs s (encode_uint32 b.len) o.given o.plain o.harmless size in
    let (s2, e2, out2, in2, calm2) =
      call_write_delivers (record cs { socket = some s1 }) s1 (contents b) refl o.plain calm1 h in
    (
      s2,
      rw (e1, e2) refl,
      out2
          ∙ ap (λ t. t ++ contents b) (out1 ∙ ap (λ t. s.outgoing ++ t) (encode_uint32_lem b.len))
          ∙ append_assoc s.outgoing (be32 b.len) (contents b),
      in2 ∙ in1,
      calm2,
    )

-- The message that the body is parsed from.
abbrev pub filled : Message → List ℕ → Message
filled resp body =
    received
      (record resp { buffer = (reserve resp.buffer (add_size (length body) resp.buffer.len)).0 })
      body

head_read :
    (cs cs' : CallState) (resp : Message) (head : List ℕ) (n : ℕ)
    → call_read cs 4 ≡ done (cs', head, ckr_ok)
    → decode_uint32 head ≡ n
    → receive_response (cs, ckr_ok) resp ≡ receive_body cs' resp n
head_read cs cs' resp head n e size = rw e (ap (receive_body cs' resp) size)

body_read :
    (cs cs' : CallState) (resp : Message) (body : List ℕ) (n : ℕ)
    → call_read cs n ≡ done (cs', body, ckr_ok)
    → (reserve resp.buffer (add_size n resp.buffer.len)).1 ≡ true
    → receive_body cs resp n
      ≡ parsed_response
          (cs', body, ckr_ok)
          (record resp { buffer = (reserve resp.buffer (add_size n resp.buffer.len)).0 })
body_read cs cs' resp body n e room = rw (room, e) refl

pub receive_response_lem :
    (cs : CallState) (s : Socket) (resp : Message) (body rest : List ℕ)
    → IsOpen cs s
    → s.incoming ≡ be32 (length body) ++ (body ++ rest)
    → 0 < length body
    → length body < 2 ^ 32
    → (reserve resp.buffer (add_size (length body) resp.buffer.len)).1 ≡ true
    → (s' : Socket) × (receive_response (cs, ckr_ok) resp
        ≡ parsed_response
            (record cs { socket = some s' }, body, ckr_ok)
            (record resp {
              buffer = (reserve resp.buffer (add_size (length body) resp.buffer.len)).0;
            }))
      × (s'.incoming ≡ rest)
      × (s'.outgoing ≡ s.outgoing)
receive_response_lem cs s resp body rest o comes positive small room =
    let total : length s.incoming ≡ 4 + (length body + length rest) =
      ap length comes
      ∙ length-append (be32 (length body)) (body ++ rest)
      ∙ ap (λ n. 4 + n) (length-append body rest) in
    let (s1, e1, in1, out1, calm1) =
      call_read_receives cs s 4 o.given o.plain o.harmless (omega arith) (omega arith) in
    let head : take 4 s.incoming ≡ be32 (length body) =
      ap (take 4) comes ∙ take-append (be32 (length body)) (body ++ rest) 4 refl in
    let left : s1.incoming ≡ body ++ rest =
      in1 ∙ ap (drop 4) comes ∙ drop-append (be32 (length body)) (body ++ rest) 4 refl in
    let size : decode_uint32 (take 4 s.incoming) ≡ length body =
      ap decode_uint32 head ∙ decode_uint32-be32 (length body) small in
    let enough : length body ≤ length s1.incoming =
      let e = ap length left in omega (arith, length-append body rest) in
    let (s2, e2, in2, out2, calm2) =
      call_read_receives (record cs { socket = some s1 }) s1 (length body) refl o.plain calm1
        positive enough in
    let got : take (length body) s1.incoming ≡ body =
      ap (take (length body)) left ∙ take-append body rest (length body) refl in
    (
      s2,
      head_read cs (record cs { socket = some s1 }) resp (take 4 s.incoming) (length body) e1 size
          ∙ body_read (record cs { socket = some s1 }) (record cs { socket = some s2 }) resp body
              (length body) (e2 ∙ ap (λ t. done (record cs { socket = some s2 }, t, ckr_ok)) got)
              room,
      in2 ∙ ap (drop (length body)) left ∙ drop-append body rest (length body) refl,
      out2 ∙ out1,
    )

pub exchange_lem :
    (cs : CallState) (s : Socket) (req resp : Message) (body rest : List ℕ)
    → IsOpen cs s
    → cs.call_status ≡ call_transit
    → 0 < length (contents req.buffer)
    → s.incoming ≡ be32 (length body) ++ (body ++ rest)
    → 0 < length body
    → length body < 2 ^ 32
    → (reserve resp.buffer (add_size (length body) resp.buffer.len)).1 ≡ true
    → resp.call_id ≡ call_error
    → resp.signature ≡ none
    → (s' : Socket) × (parsed : Message × Bool) × (message_parse (filled resp body) response
        ≡ done parsed)
      × (exchange cs req resp
          ≡ done (record cs { socket = some s'; req = some req; resp = some parsed.0 }, ckr_ok))
      × (s'.outgoing ≡ s.outgoing ++ (be32 req.buffer.len ++ contents req.buffer))
      × (s'.incoming ≡ rest)
unfolding exchange received
exchange_lem cs s req resp body rest o transit some_bytes comes positive small room none_yet bare =
    let start = record cs { req = none; resp = none } in
    let o' : IsOpen start s = record { given = o.given; plain = o.plain; harmless = o.harmless } in
    let (s1, e1, out1, in1, calm1) = send_request_lem start s req.buffer o' some_bytes in
    let middle = record start { socket = some s1 } in
    let o1 : IsOpen middle s1 = record { given = refl; plain = o.plain; harmless = calm1 } in
    let (s2, e2, in2, out2) =
      receive_response_lem middle s1 resp body rest o1 (in1 ∙ comes) positive small room in
    let (parsed, e3, answer) = message_parse-IsAnswer (filled resp body) none_yet bare in
    (s2, parsed, e3, rw e1 (rw (e2, e3) (rw transit refl)), out2 ∙ out1, in2)

-- In the same state, a response that announces no bytes stops the process: `call_read` asserts that it is
-- to read something.
pub exchange_empty :
    (cs : CallState) (s : Socket) (req resp : Message) (rest : List ℕ)
    → IsOpen cs s
    → 0 < length (contents req.buffer)
    → s.incoming ≡ be32 0 ++ rest
    → (reserve resp.buffer (add_size 0 resp.buffer.len)).1 ≡ true
    → exchange cs req resp ≡ abort
unfolding exchange call_read
exchange_empty cs s req resp rest o some_bytes comes room =
    let start = record cs { req = none; resp = none } in
    let o' : IsOpen start s = record { given = o.given; plain = o.plain; harmless = o.harmless } in
    let (s1, e1, out1, in1, calm1) = send_request_lem start s req.buffer o' some_bytes in
    let middle = record start { socket = some s1 } in
    let total : length s1.incoming ≡ 4 + length rest =
      ap length (in1 ∙ comes) ∙ length-append (be32 0) rest in
    let (s2, e2, in2, out2, calm2) =
      call_read_receives middle s1 4 refl o.plain calm1 (omega arith) (omega arith) in
    let head : take 4 s1.incoming ≡ be32 0 =
      ap (take 4) (in1 ∙ comes) ∙ take-append (be32 0) rest 4 refl in
    let size : decode_uint32 (take 4 s1.incoming) ≡ 0 =
      ap decode_uint32 head ∙ decode_uint32-be32 0 (omega arith) in
    rw e1 (
      rw (head_read middle (record middle { socket = some s2 }) resp (take 4 s1.incoming) 0 e2 size)
        (stops (record middle { socket = some s2 }) resp room))
  where
    stops :
        (c : CallState) (m : Message)
        → (reserve m.buffer (add_size 0 m.buffer.len)).1 ≡ true
        → (receive_body c m 0 >>= restored req) ≡ abort
    stops c m room' = rw room' refl
