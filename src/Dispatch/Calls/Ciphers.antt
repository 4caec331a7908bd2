-- ===== src/Dispatch/Calls/Ciphers.antt =====
-- gck-rpc-dispatch.c: the handlers of the calls on encryption and decryption.
use pkcs11_proxy.Common.{ℕ}
use pkcs11_proxy.Dispatch.{Handler, ◌>>=◌, pure}
use pkcs11_proxy.Dispatch.Proto.{Machine, in_ulong, in_byte_array, in_byte_buffer, in_mechanism}
use pkcs11_proxy.Dispatch.Results.{out_byte_array}
use pkcs11_proxy.Dispatch.Library.{FunctionList, begin_call, process_call, filled_at, stored_at}

module _ {S : Type 0} (machine : Machine) (lib : FunctionList S) where
  unfoldable pub rpc_encrypt_init : Handler S ℕ
  rpc_encrypt_init = do
    f ← begin_call lib.encrypt_init
    session ← in_ulong
    mechanism ← in_mechanism
    key ← in_ulong
    (ret, _) ← process_call (f session mechanism key)
    pure ret

  unfoldable pub rpc_encrypt : Handler S ℕ
  rpc_encrypt = do
    f ← begin_call lib.encrypt
    session ← in_ulong
    (input, input_len) ← in_byte_array
    (encrypted_data, encrypted_data_len) ← in_byte_buffer machine
    (ret, (written, written_len)) ←
        process_call (f session input input_len encrypted_data encrypted_data_len)
    out_byte_array (filled_at encrypted_data written) (stored_at encrypted_data_len written_len) ret

  unfoldable pub rpc_encrypt_update : Handler S ℕ
  rpc_encrypt_update = do
    f ← begin_call lib.encrypt_update
    session ← in_ulong
    (part, part_len) ← in_byte_array
    (encrypted_part, encrypted_part_len) ← in_byte_buffer machine
    (ret, (written, written_len)) ←
        process_call (f session part part_len encrypted_part encrypted_part_len)
    out_byte_array (filled_at encrypted_part written) (stored_at encrypted_part_len written_len) ret

  unfoldable pub rpc_encrypt_final : Handler S ℕ
  rpc_encrypt_final = do
    f ← begin_call lib.encrypt_final
    session ← in_ulong
    (last_encrypted_part, last_encrypted_part_len) ← in_byte_buffer machine
    (ret, (written, written_len)) ←
        process_call (f session last_encrypted_part last_encrypted_part_len)
    out_byte_array (filled_at last_encrypted_part written)
        (stored_at last_encrypted_part_len written_len) ret

  unfoldable pub rpc_decrypt_init : Handler S ℕ
  rpc_decrypt_init = do
    f ← begin_call lib.decrypt_init
    session ← in_ulong
    mechanism ← in_mechanism
    key ← in_ulong
    (ret, _) ← process_call (f session mechanism key)
    pure ret

  unfoldable pub rpc_decrypt : Handler S ℕ
  rpc_decrypt = do
    f ← begin_call lib.decrypt
    session ← in_ulong
    (encrypted_data, encrypted_data_len) ← in_byte_array
    (input, input_len) ← in_byte_buffer machine
    (ret, (written, written_len)) ←
        process_call (f session encrypted_data encrypted_data_len input input_len)
    out_byte_array (filled_at input written) (stored_at input_len written_len) ret

  unfoldable pub rpc_decrypt_update : Handler S ℕ
  rpc_decrypt_update = do
    f ← begin_call lib.decrypt_update
    session ← in_ulong
    (encrypted_part, encrypted_part_len) ← in_byte_array
    (part, part_len) ← in_byte_buffer machine
    (ret, (written, written_len)) ←
        process_call (f session encrypted_part encrypted_part_len part part_len)
    out_byte_array (filled_at part written) (stored_at part_len written_len) ret

  unfoldable pub rpc_decrypt_final : Handler S ℕ
  rpc_decrypt_final = do
    f ← begin_call lib.decrypt_final
    session ← in_ulong
    (last_part, last_part_len) ← in_byte_buffer machine
    (ret, (written, written_len)) ← process_call (f session last_part last_part_len)
    out_byte_array (filled_at last_part written) (stored_at last_part_len written_len) ret
