-- ===== src/Dispatch/Calls/Combined.antt =====
-- gck-rpc-dispatch.c: the handlers of the calls on two operations in one call.
use pkcs11_proxy.Common.{ℕ}
use pkcs11_proxy.Dispatch.{Handler, ◌>>=◌}
use pkcs11_proxy.Dispatch.Proto.{Machine, in_ulong, in_byte_array, in_byte_buffer}
use pkcs11_proxy.Dispatch.Results.{out_byte_array}
use pkcs11_proxy.Dispatch.Library.{FunctionList, begin_call, process_call, filled_at, stored_at}

module _ {S : Type 0} (machine : Machine) (lib : FunctionList S) where
  unfoldable pub rpc_digest_encrypt_update : Handler S ℕ
  rpc_digest_encrypt_update = do
    f ← begin_call lib.digest_encrypt_update
    session ← in_ulong
    (part, part_len) ← in_byte_array
    (encrypted_part, encrypted_part_len) ← in_byte_buffer machine
    (ret, (written, written_len)) ←
        process_call (f session part part_len encrypted_part encrypted_part_len)
    out_byte_array (filled_at encrypted_part written) (stored_at encrypted_part_len written_len) ret

  unfoldable pub rpc_decrypt_digest_update : Handler S ℕ
  rpc_decrypt_digest_update = do
    f ← begin_call lib.decrypt_digest_update
    session ← in_ulong
    (encrypted_part, encrypted_part_len) ← in_byte_array
    (part, part_len) ← in_byte_buffer machine
    (ret, (written, written_len)) ←
        process_call (f session encrypted_part encrypted_part_len part part_len)
    out_byte_array (filled_at part written) (stored_at part_len written_len) ret

  unfoldable pub rpc_sign_encrypt_update : Handler S ℕ
  rpc_sign_encrypt_update = do
    f ← begin_call lib.sign_encrypt_update
    session ← in_ulong
    (part, part_len) ← in_byte_array
    (encrypted_part, encrypted_part_len) ← in_byte_buffer machine
    (ret, (written, written_len)) ←
        process_call (f session part part_len encrypted_part encrypted_part_len)
    out_byte_array (filled_at encrypted_part written) (stored_at encrypted_part_len written_len) ret

  unfoldable pub rpc_decrypt_verify_update : Handler S ℕ
  rpc_decrypt_verify_update = do
    f ← begin_call lib.decrypt_verify_update
    session ← in_ulong
    (encrypted_part, encrypted_part_len) ← in_byte_array
    (part, part_len) ← in_byte_buffer machine
    (ret, (written, written_len)) ←
        process_call (f session encrypted_part encrypted_part_len part part_len)
    out_byte_array (filled_at part written) (stored_at part_len written_len) ret
