-- ===== src/Dispatch/Calls/Signatures.antt =====
-- gck-rpc-dispatch.c: the handlers of the calls on signatures.
use pkcs11_proxy.Common.{ℕ}
use pkcs11_proxy.Dispatch.{Handler, ◌>>=◌, pure}
use pkcs11_proxy.Dispatch.Proto.{Machine, in_ulong, in_byte_array, in_byte_buffer, in_mechanism}
use pkcs11_proxy.Dispatch.Results.{out_byte_array}
use pkcs11_proxy.Dispatch.Library.{FunctionList, begin_call, process_call, filled_at, stored_at}

module _ {S : Type 0} (machine : Machine) (lib : FunctionList S) where
  unfoldable pub rpc_sign_init : Handler S ℕ
  rpc_sign_init = do
    f ← begin_call lib.sign_init
    session ← in_ulong
    mechanism ← in_mechanism
    key ← in_ulong
    (ret, _) ← process_call (f session mechanism key)
    pure ret

  unfoldable pub rpc_sign : Handler S ℕ
  rpc_sign = do
    f ← begin_call lib.sign
    session ← in_ulong
    (part, part_len) ← in_byte_array
    (signature, signature_len) ← in_byte_buffer machine
    (ret, (written, written_len)) ← process_call (f session part part_len signature signature_len)
    out_byte_array (filled_at signature written) (stored_at signature_len written_len) ret

  unfoldable pub rpc_sign_update : Handler S ℕ
  rpc_sign_update = do
    f ← begin_call lib.sign_update
    session ← in_ulong
    (part, part_len) ← in_byte_array
    (ret, _) ← process_call (f session part part_len)
    pure ret

  unfoldable pub rpc_sign_final : Handler S ℕ
  rpc_sign_final = do
    f ← begin_call lib.sign_final
    session ← in_ulong
    (signature, signature_len) ← in_byte_buffer machine
    (ret, (written, written_len)) ← process_call (f session signature signature_len)
    out_byte_array (filled_at signature written) (stored_at signature_len written_len) ret

  unfoldable pub rpc_sign_recover_init : Handler S ℕ
  rpc_sign_recover_init = do
    f ← begin_call lib.sign_recover_init
    session ← in_ulong
    mechanism ← in_mechanism
    key ← in_ulong
    (ret, _) ← process_call (f session mechanism key)
    pure ret

  unfoldable pub rpc_sign_recover : Handler S ℕ
  rpc_sign_recover = do
    f ← begin_call lib.sign_recover
    session ← in_ulong
    (input, input_len) ← in_byte_array
    (signature, signature_len) ← in_byte_buffer machine
    (ret, (written, written_len)) ← process_call (f session input input_len signature signature_len)
    out_byte_array (filled_at signature written) (stored_at signature_len written_len) ret

  unfoldable pub rpc_verify_init : Handler S ℕ
  rpc_verify_init = do
    f ← begin_call lib.verify_init
    session ← in_ulong
    mechanism ← in_mechanism
    key ← in_ulong
    (ret, _) ← process_call (f session mechanism key)
    pure ret

  unfoldable pub rpc_verify : Handler S ℕ
  rpc_verify = do
    f ← begin_call lib.verify
    session ← in_ulong
    (input, input_len) ← in_byte_array
    (signature, signature_len) ← in_byte_array
    (ret, _) ← process_call (f session input input_len signature signature_len)
    pure ret

  unfoldable pub rpc_verify_update : Handler S ℕ
  rpc_verify_update = do
    f ← begin_call lib.verify_update
    session ← in_ulong
    (part, part_len) ← in_byte_array
    (ret, _) ← process_call (f session part part_len)
    pure ret

  unfoldable pub rpc_verify_final : Handler S ℕ
  rpc_verify_final = do
    f ← begin_call lib.verify_final
    session ← in_ulong
    (signature, signature_len) ← in_byte_array
    (ret, _) ← process_call (f session signature signature_len)
    pure ret

  unfoldable pub rpc_verify_recover_init : Handler S ℕ
  rpc_verify_recover_init = do
    f ← begin_call lib.verify_recover_init
    session ← in_ulong
    mechanism ← in_mechanism
    key ← in_ulong
    (ret, _) ← process_call (f session mechanism key)
    pure ret

  unfoldable pub rpc_verify_recover : Handler S ℕ
  rpc_verify_recover = do
    f ← begin_call lib.verify_recover
    session ← in_ulong
    (signature, signature_len) ← in_byte_array
    (input, input_len) ← in_byte_buffer machine
    (ret, (written, written_len)) ← process_call (f session signature signature_len input input_len)
    out_byte_array (filled_at input written) (stored_at input_len written_len) ret
