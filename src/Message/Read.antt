-- ===== src/Message/Read.antt =====
-- gck-rpc-message.c: the readers of values. `none` is the answer 0; a value that is not read whole
-- leaves the failure counted in the buffer.
use pkcs11_proxy.Common.{
  ℕ, Option, none, some, List, length, ltb, ◌==◌, if◌then◌else◌, Outcome, done, ◌>>=◌, ◌>>◌, assert,
}
use pkcs11_proxy.Pkcs11.{Version}
use pkcs11_proxy.Buffer.{get_byte}
use pkcs11_proxy.Buffer.Ints.{get_uint64}
use pkcs11_proxy.Buffer.Arrays.{get_byte_array}
use pkcs11_proxy.Message.{Message, check_part, take_from}

unfoldable pub read_byte : Message → Outcome (Message × Option ℕ)
read_byte msg = do m ← check_part "y" msg; done (take_from m get_byte)

unfoldable pub read_ulong : Message → Outcome (Message × Option ℕ)
read_ulong msg = do m ← check_part "u" msg; done (take_from m get_uint64)

-- `if (!get) return 0;` before the rest
unfoldable pub read_then :
    {A B : Type 0} → Message × Option A → (Message → A → Message × Option B) → Message × Option B
read_then (m, none) k = (m, none)
read_then (m, some x) k = k m x

unfoldable pub read_version : Message → Outcome (Message × Option Version)
read_version msg = do
  m ← check_part "v" msg
  done (
      read_then (take_from m get_byte) λ m' major.
        read_then (take_from m' get_byte)
          λ m'' minor. (m'', some (record { major = major; minor = minor })))

-- The number of bytes must be the one that is expected. (A NULL array has the length 0.)
unfoldable pub exactly : ℕ → Message → Option (List ℕ) → Message × Option (List ℕ)
exactly n m none = (m, none)
exactly n m (some val) = if length val == n then (m, some val) else (m, none)

unfoldable pub read_space_string : Message → ℕ → Outcome (Message × Option (List ℕ))
read_space_string msg n = do
  assert (ltb 0 n)
  m ← check_part "s" msg
  done (read_then (take_from m get_byte_array) (exactly n))
