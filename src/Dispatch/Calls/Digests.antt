-- ===== src/Dispatch/Calls/Digests.antt =====
-- gck-rpc-dispatch.c: the handlers of the calls on digests.
use pkcs11_proxy.Common.{ℕ}
use pkcs11_proxy.Dispatch.{Handler, ◌>>=◌, pure}
use pkcs11_proxy.Dispatch.Proto.{Machine, in_ulong, in_byte_array, in_byte_buffer, in_mechanism}
use pkcs11_proxy.Dispatch.Results.{out_byte_array}
use pkcs11_proxy.Dispatch.Library.{FunctionList, begin_call, process_call, filled_at, stored_at}

module _ {S : Type 0} (machine : Machine) (lib : FunctionList S) where
  unfoldable pub rpc_digest_init : Handler S ℕ
  rpc_digest_init = do
    f ← begin_call lib.digest_init
    session ← in_ulong
    mechanism ← in_mechanism
    (ret, _) ← process_call (f session mechanism)
    pure ret

  unfoldable pub rpc_digest : Handler S ℕ
  rpc_digest = do
    f ← begin_call lib.digest
    session ← in_ulong
    (input, input_len) ← in_byte_array
    (digest, digest_len) ← in_byte_buffer machine
    (ret, (written, written_len)) ← process_call (f session input input_len digest digest_len)
    out_byte_array (filled_at digest written) (stored_at digest_len written_len) ret

  unfoldable pub rpc_digest_update : Handler S ℕ
  rpc_digest_update = do
    f ← begin_call lib.digest_update
    session ← in_ulong
    (part, part_len) ← in_byte_array
    (ret, _) ← process_call (f session part part_len)
    pure ret

  unfoldable pub rpc_digest_key : Handler S ℕ
  rpc_digest_key = do
    f ← begin_call lib.digest_key
    session ← in_ulong
    key ← in_ulong
    (ret, _) ← process_call (f session key)
    pure ret

  unfoldable pub rpc_digest_final : Handler S ℕ
  rpc_digest_final = do
    f ← begin_call lib.digest_final
    session ← in_ulong
    (digest, digest_len) ← in_byte_buffer machine
    (ret, (written, written_len)) ← process_call (f session digest digest_len)
    out_byte_array (filled_at digest written) (stored_at digest_len written_len) ret
