-- ===== src/Client/Results.antt =====
-- gck-rpc-module.c, the OUT_ macros. Each takes `_ret` and gives the new one with what is stored at the
-- caller's pointers.
use mathlib.Core.Option.{map}
use pkcs11_proxy.Common.{
  ℕ, Bool, not, Option, none, some, List, ◌==◌, if◌then◌else◌, Outcome, done, abort, Step, value,
}
use pkcs11_proxy.Pkcs11.{
  Attribute, Info, SlotInfo, TokenInfo, MechanismInfo, SessionInfo, ckr_ok, ckr_arguments_bad,
}
use pkcs11_proxy.Util.Purge.{mechanism_list_purge}
use pkcs11_proxy.Message.{Message}
use pkcs11_proxy.Message.Write.{items}
use pkcs11_proxy.Client.{CallState, Host}
use pkcs11_proxy.Client.Course.{Course, finished, stopped}
use pkcs11_proxy.Client.Caller.{Caller, pure}
use pkcs11_proxy.Client.Reading.{
  Reading, parse_error, ulong, read_info, read_slot_info, read_token_info, read_mechanism_info,
  read_session_info,
}
use pkcs11_proxy.Client.Arrays.{Filled, read_byte_array, read_ulong_array, read_attribute_array}

abbrev pub with_answer :
    {A : Type 0} → CallState → Outcome (Message × A) → Course (CallState × Step A)
with_answer cs (done (m, a)) = finished (record cs { resp = some m }, value a)
with_answer cs abort = stopped

abbrev pub from_resp :
    {A : Type 0}
    → CallState
    → (Message → Outcome (Message × A))
    → Option Message
    → Course (CallState × Step A)
from_resp cs read none = stopped
from_resp cs read (some m) = with_answer cs (read m)

-- An operation on the response.
unfoldable pub on_resp : {A : Type 0} → (Message → Outcome (Message × A)) → Caller A
on_resp read cs = from_resp cs read cs.resp

-- `if (!read (…)) return PARSE_ERROR;`
abbrev pub or_parse_error : {A : Type 0} → Option A → ℕ × Option A
or_parse_error none = (parse_error, none)
or_parse_error (some a) = (ckr_ok, some a)

abbrev pub stored : {A : Type 0} → Outcome (Message × Option A) → Outcome (Message × (ℕ × Option A))
stored (done (m, a)) = done (m, or_parse_error a)
stored abort = abort

-- A result that is stored at a pointer, which must be given.
unfoldable pub out_value : {A : Type 0} → Reading A → Bool → ℕ → Caller (ℕ × Option A)
out_value read given ret =
    if not given
    then pure (ckr_arguments_bad, none)
    else if ret == ckr_ok
    then on_resp (λ m. stored (read m))
    else pure (ret, none)

-- The memory at a pointer, and what the pointer to its length points to.
abbrev pub Stored : Type 0
Stored = Option (List ℕ) × Option ℕ

abbrev pub with_len : Filled → ℕ × Stored
with_len (ret, arr, len) = (ret, (arr, some len))

abbrev pub filled_by : Outcome (Message × Filled) → Outcome (Message × (ℕ × Stored))
filled_by (done (m, filled)) = done (m, with_len filled)
filled_by abort = abort

abbrev pub of_list : ℕ → List ℕ × ℕ → ℕ × Stored
of_list ret (arr, len) = (ret, (some arr, some len))

-- `past` is what lies behind the array.
abbrev pub purged : ℕ → ℕ × Stored → Option (ℕ × Stored)
purged past (ret, (some arr, some len)) =
    if ret == ckr_ok
    then map (of_list ret) (mechanism_list_purge past arr len)
    else some (ret, (some arr, some len))
purged past (ret, (none, len)) = some (ret, (none, len))
purged past (ret, (some arr, none)) = some (ret, (some arr, none))

-- The loop over the list always comes to its end.
abbrev pub with_list : Message → Option (ℕ × Stored) → Outcome (Message × (ℕ × Stored))
with_list m (some filled) = done (m, filled)
with_list m none = abort

abbrev pub purged_by : ℕ → Outcome (Message × (ℕ × Stored)) → Outcome (Message × (ℕ × Stored))
purged_by past (done (m, filled)) = with_list m (purged past filled)
purged_by past abort = abort

-- OUT_BYTE_ARRAY. With `len` given it is OUT_BYTE_ARRAY2.
unfoldable pub out_byte_array : Option (List ℕ) → Option ℕ → ℕ → Caller (ℕ × Stored)
out_byte_array arr none ret = pure (ckr_arguments_bad, (arr, none))
out_byte_array arr (some len) ret =
    if ret == ckr_ok
    then on_resp (λ m. filled_by (read_byte_array m arr len))
    else pure (ret, (arr, some len))

module _ (host : Host) where
  unfoldable pub out_ulong : Bool → ℕ → Caller (ℕ × Option ℕ)
  out_ulong = out_value (ulong host)

  unfoldable pub out_info : Bool → ℕ → Caller (ℕ × Option Info)
  out_info = out_value (read_info host)

  unfoldable pub out_slot_info : Bool → ℕ → Caller (ℕ × Option SlotInfo)
  out_slot_info = out_value (read_slot_info host)

  unfoldable pub out_token_info : Bool → ℕ → Caller (ℕ × Option TokenInfo)
  out_token_info = out_value (read_token_info host)

  unfoldable pub out_mechanism_info : Bool → ℕ → Caller (ℕ × Option MechanismInfo)
  out_mechanism_info = out_value (read_mechanism_info host)

  unfoldable pub out_session_info : Bool → ℕ → Caller (ℕ × Option SessionInfo)
  out_session_info = out_value (read_session_info host)

  unfoldable pub out_ulong_array : Option (List ℕ) → Option ℕ → ℕ → Caller (ℕ × Stored)
  out_ulong_array arr none ret = pure (ckr_arguments_bad, (arr, none))
  out_ulong_array arr (some len) ret =
      if ret == ckr_ok
      then on_resp (λ m. filled_by (read_ulong_array host m arr len))
      else pure (ret, (arr, some len))

  -- The mechanisms that cannot be sent are taken out of the list.
  unfoldable pub out_mechanism_type_array : Option (List ℕ) → Option ℕ → ℕ → Caller (ℕ × Stored)
  out_mechanism_type_array arr none ret = pure (ckr_arguments_bad, (arr, none))
  out_mechanism_type_array arr (some len) ret =
      if ret == ckr_ok
      then on_resp (λ m. purged_by host.past_array (filled_by (read_ulong_array host m arr len)))
      else pure (ret, (arr, some len))

  unfoldable pub out_attribute_array : Option (List Attribute) → ℕ → ℕ → Caller (ℕ × List Attribute)
  out_attribute_array arr num ret =
      if ret == ckr_ok
      then on_resp (λ m. read_attribute_array host m (items arr) num)
      else pure (ret, items arr)
