-- ===== src/Client/Transport.antt =====
-- gck-rpc-module.c and gck-rpc-tls-psk.c: all bytes are written to the socket, or read from it, however
-- little the system moves at a time.
use pkcs11_proxy.Common.{
  ℕ, zero, suc, ◌-◌, min, Bool, Option, none, some, List, [], ◌∷◌, ◌++◌, length, take, drop, ltb,
  leb, if◌then◌else◌, Outcome, done, ◌>>◌, assert,
}
use pkcs11_proxy.Pkcs11.{ckr_ok, ckr_device_error}
use pkcs11_proxy.Client.{
  Errno, epipe, eagain, eintr, other, Reply, moved, failed, Socket, CallState, call_disconnect,
}

-- The result of one call: a number of bytes, or -1 with `errno`.
pub data Result : Type 0 where
  count : ℕ → Result
  error : Errno → Result

-- gck_rpc_tls_write_all and gck_rpc_tls_read_all: a failure of `SSL_write` or `SSL_read` is the number 0.
unfoldable pub tls_result : Result → Result
tls_result (count n) = count n
tls_result (error e) = count 0

-- `send` and `recv` of up to `n` bytes
abbrev pub plain_result : Reply → ℕ → Result
plain_result (moved k) n = count (min k n)
plain_result (failed e) n = error e

unfoldable pub result_of : Bool → Reply → ℕ → Result
result_of tls reply n = if tls then tls_result (plain_result reply n) else plain_result reply n

-- The loop of call_write. The socket is closed where the daemon has closed the connection.
unfoldable pub write_loop : Bool → List Reply → Socket → List ℕ → Option Socket × ℕ
write_loop tls [] s bytes =
    (some (record s { outgoing = s.outgoing ++ bytes; replies = [] }), ckr_ok)
write_loop tls (reply ∷ replies) s [] = (some (record s { replies = reply ∷ replies }), ckr_ok)
write_loop tls (reply ∷ replies) s (x ∷ bytes) = elim (result_of tls reply (length (x ∷ bytes))) [
  | count n ↦
      write_loop tls replies (record s { outgoing = s.outgoing ++ take n (x ∷ bytes) })
        (drop n (x ∷ bytes))
  | error e ↦ elim e [
    | epipe ↦ (none, ckr_device_error)
    | eagain ↦ write_loop tls replies s (x ∷ bytes)
    | eintr ↦ write_loop tls replies s (x ∷ bytes)
    | other ↦ (some (record s { replies = replies }), ckr_device_error)
  ]
]

abbrev pub with_socket : CallState → Option Socket × ℕ → CallState × ℕ
with_socket cs (none, ret) = (call_disconnect cs, ret)
with_socket cs (some s, ret) = (record cs { socket = some s }, ret)

abbrev pub write_open : CallState → Option Socket → List ℕ → CallState × ℕ
write_open cs none bytes = (cs, ckr_device_error)
write_open cs (some s) bytes = with_socket cs (write_loop cs.tls s.replies s bytes)

unfoldable pub call_write : CallState → List ℕ → Outcome (CallState × ℕ)
call_write cs bytes = do assert (ltb 0 (length bytes)); done (write_open cs cs.socket bytes)

-- What of `n` bytes has arrived when no answer is left: the end of the connection where it is too little.
unfoldable pub read_rest : Socket → ℕ → Option Socket × List ℕ × ℕ
read_rest s n =
    if leb n (length s.incoming)
    then (some (record s { incoming = drop n s.incoming; replies = [] }), take n s.incoming, ckr_ok)
    else (none, s.incoming, ckr_device_error)

abbrev pub behind : List ℕ → Option Socket × List ℕ × ℕ → Option Socket × List ℕ × ℕ
behind first (s, bytes, ret) = (s, first ++ bytes, ret)

-- The loop of call_read, with the bytes that were read.
unfoldable pub read_loop : Bool → List Reply → Socket → ℕ → Option Socket × List ℕ × ℕ
read_loop tls [] s n = read_rest s n
read_loop tls (reply ∷ replies) s zero = (some (record s { replies = reply ∷ replies }), [], ckr_ok)
read_loop tls (reply ∷ replies) s (suc n) =
    elim (result_of tls reply (min (suc n) (length s.incoming))) [
      | count k ↦ elim k [
        | zero ↦ (none, [], ckr_device_error)
        | suc j ↦
            behind (take (suc j) s.incoming)
              (read_loop tls replies (record s { incoming = drop (suc j) s.incoming }) (n - j))
      ]
      | error e ↦ elim e [
        | epipe ↦ (some (record s { replies = replies }), [], ckr_device_error)
        | eagain ↦ read_loop tls replies s (suc n)
        | eintr ↦ read_loop tls replies s (suc n)
        | other ↦ (some (record s { replies = replies }), [], ckr_device_error)
      ]
    ]

abbrev pub with_bytes : CallState → Option Socket × List ℕ × ℕ → CallState × List ℕ × ℕ
with_bytes cs (none, bytes, ret) = (call_disconnect cs, bytes, ret)
with_bytes cs (some s, bytes, ret) = (record cs { socket = some s }, bytes, ret)

abbrev pub read_open : CallState → Option Socket → ℕ → CallState × List ℕ × ℕ
read_open cs none n = (cs, [], ckr_device_error)
read_open cs (some s) n = with_bytes cs (read_loop cs.tls s.replies s n)

unfoldable pub call_read : CallState → ℕ → Outcome (CallState × List ℕ × ℕ)
call_read cs n = do assert (ltb 0 n); done (read_open cs cs.socket n)
