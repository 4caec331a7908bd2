-- ===== src/Dispatch/Calls/Keys.antt =====
-- gck-rpc-dispatch.c: the handlers of the calls on keys and random numbers.
use pkcs11_proxy.Common.{ℕ, some}
use pkcs11_proxy.Dispatch.{Handler, ◌>>=◌, pure}
use pkcs11_proxy.Dispatch.Proto.{
  Machine, in_ulong, in_byte_array, in_byte_buffer, in_attribute_array, in_mechanism,
  or_parse_error,
}
use pkcs11_proxy.Dispatch.Results.{out_ulong, out_byte_array}
use pkcs11_proxy.Dispatch.Library.{FunctionList, begin_call, process_call, filled_at, stored_at}

module _ {S : Type 0} (machine : Machine) (lib : FunctionList S) where
  unfoldable pub rpc_generate_key : Handler S ℕ
  rpc_generate_key = do
    f ← begin_call lib.generate_key
    session ← in_ulong
    mechanism ← in_mechanism
    (template, count) ← in_attribute_array machine
    (ret, key) ← process_call (f session mechanism template count)
    out_ulong key ret

  unfoldable pub rpc_generate_key_pair : Handler S ℕ
  rpc_generate_key_pair = do
    f ← begin_call lib.generate_key_pair
    session ← in_ulong
    mechanism ← in_mechanism
    (public_key_template, public_key_attribute_count) ← in_attribute_array machine
    (private_key_template, private_key_attribute_count) ← in_attribute_array machine
    (ret, (public_key, private_key)) ← process_call (
        f session mechanism public_key_template public_key_attribute_count private_key_template
          private_key_attribute_count)
    sent ← out_ulong public_key ret
    out_ulong private_key sent

  unfoldable pub rpc_wrap_key : Handler S ℕ
  rpc_wrap_key = do
    f ← begin_call lib.wrap_key
    session ← in_ulong
    mechanism ← in_mechanism
    wrapping_key ← in_ulong
    key ← in_ulong
    (wrapped_key, wrapped_key_len) ← in_byte_buffer machine
    (ret, (written, written_len)) ←
        process_call (f session mechanism wrapping_key key wrapped_key wrapped_key_len)
    out_byte_array (filled_at wrapped_key written) (stored_at wrapped_key_len written_len) ret

  unfoldable pub rpc_unwrap_key : Handler S ℕ
  rpc_unwrap_key = do
    f ← begin_call lib.unwrap_key
    session ← in_ulong
    mechanism ← in_mechanism
    unwrapping_key ← in_ulong
    (wrapped_key, wrapped_key_len) ← in_byte_array
    (template, attribute_count) ← in_attribute_array machine
    (ret, key) ←
        process_call
          (f session mechanism unwrapping_key wrapped_key wrapped_key_len template attribute_count)
    out_ulong key ret

  unfoldable pub rpc_derive_key : Handler S ℕ
  rpc_derive_key = do
    f ← begin_call lib.derive_key
    session ← in_ulong
    mechanism ← in_mechanism
    base_key ← in_ulong
    (template, attribute_count) ← in_attribute_array machine
    (ret, key) ← process_call (f session mechanism base_key template attribute_count)
    out_ulong key ret

  unfoldable pub rpc_seed_random : Handler S ℕ
  rpc_seed_random = do
    f ← begin_call lib.seed_random
    session ← in_ulong
    (seed, seed_len) ← in_byte_array
    (ret, _) ← process_call (f session seed seed_len)
    pure ret

  unfoldable pub rpc_generate_random : Handler S ℕ
  rpc_generate_random = do
    f ← begin_call lib.generate_random
    session ← in_ulong
    (random_data, random_len) ← in_byte_buffer machine
    n ← or_parse_error random_len
    (ret, written) ← process_call (f session random_data n)
    out_byte_array (filled_at random_data written) (some n) ret
