-- ===== src/Client/Proto.antt =====
-- gck-rpc-module.c, the IN_ macros and proto_write_mechanism: the arguments of a call are written into
-- the request.
use pkcs11_proxy.Common.{
  ℕ, not, ◌&&◌, Option, none, some, List, take, ◌==◌, if◌then◌else◌, to_u32, Outcome, done, abort,
}
use pkcs11_proxy.Pkcs11.{
  Attribute, Mechanism, ckr_ok, ckr_host_memory, ckr_arguments_bad, ckr_mechanism_invalid,
}
use pkcs11_proxy.Util.{
  mechanism_has_no_parameters, mechanism_has_sane_parameters, mechanism_is_supported,
}
use pkcs11_proxy.Buffer.{Buffer, has_error}
use pkcs11_proxy.Buffer.Ints.{add_uint32}
use pkcs11_proxy.Buffer.Arrays.{add_byte_array}
use pkcs11_proxy.Message.{Message, check_part}
use pkcs11_proxy.Message.Write.{
  is_null, write_byte, write_ulong, write_byte_buffer, write_byte_array, write_ulong_buffer,
  write_space_string, write_attribute_buffer, write_attribute_array,
}
use pkcs11_proxy.Client.{Host}
use pkcs11_proxy.Client.Course.{stopped}
use pkcs11_proxy.Client.Caller.{Caller, goto_cleanup, code_of, on_message, on_req, or_arguments_bad}

unfoldable pub in_byte : ℕ → Caller (Unit {0})
in_byte val = on_req λ m. write_byte m val

unfoldable pub in_ulong : ℕ → Caller (Unit {0})
in_ulong val = on_req λ m. write_ulong m val

-- gck_rpc_message_write_space_string asserts that there is a string.
unfoldable pub in_space_string : Option (List ℕ) → ℕ → Caller (Unit {0})
in_space_string none n = λ cs. stopped
in_space_string (some val) n = on_req λ m. write_space_string m val n

unfoldable pub in_byte_buffer : Option (List ℕ) → Option ℕ → Caller (Unit {0})
in_byte_buffer arr len = on_req λ m. write_byte_buffer m (is_null arr) len

unfoldable pub in_byte_array : Option (List ℕ) → ℕ → Caller (Unit {0})
in_byte_array arr len =
    or_arguments_bad (not (len == 0) && is_null arr) (on_req λ m. write_byte_array m arr len)

-- `arr ? *len : 0`
abbrev pub room_for : Option (List ℕ) → ℕ → ℕ
room_for none len = 0
room_for (some _) len = len

-- IN_ULONG_BUFFER2
unfoldable pub in_ulong_buffer2 : Option (List ℕ) → ℕ → Caller (Unit {0})
in_ulong_buffer2 arr len = on_req λ m. write_ulong_buffer m (room_for arr len)

unfoldable pub in_ulong_buffer : Option (List ℕ) → Option ℕ → Caller (Unit {0})
in_ulong_buffer arr none = goto_cleanup ckr_arguments_bad
in_ulong_buffer arr (some len) = in_ulong_buffer2 arr len

unfoldable pub in_attribute_buffer : Option (List Attribute) → ℕ → Caller (Unit {0})
in_attribute_buffer arr num =
    or_arguments_bad (not (num == 0) && is_null arr) (on_req λ m. write_attribute_buffer m arr num)

unfoldable pub in_attribute_array : Host → Option (List Attribute) → ℕ → Caller (Unit {0})
in_attribute_array host arr num =
    or_arguments_bad (not (num == 0) && is_null arr)
      (on_req λ m. write_attribute_array host.ulong_size m arr num)

unfoldable pub in_mechanism_type : ℕ → Caller (Unit {0})
in_mechanism_type val =
    if not (mechanism_is_supported val)
    then goto_cleanup ckr_mechanism_invalid
    else on_req λ m. write_ulong m val

-- proto_write_mechanism, behind the check of the letters
abbrev pub finish_mechanism : Message → Buffer → Message × ℕ
finish_mechanism m b = (record m { buffer = b }, if has_error b then ckr_host_memory else ckr_ok)

-- So many bytes at a pointer
abbrev pub sent_bytes : Option (List ℕ) → ℕ → Option (List ℕ)
sent_bytes none n = none
sent_bytes (some block) n = some (take n block)

-- What of the parameter is sent: nothing for a mechanism without one.
unfoldable pub add_parameter : Message → Buffer → Mechanism → Message × ℕ
add_parameter m b mech =
    if mechanism_has_no_parameters mech.mechanism
    then finish_mechanism m (add_byte_array b none).0
    else if mechanism_has_sane_parameters mech.mechanism
    then finish_mechanism m (add_byte_array b (sent_bytes mech.parameter mech.parameter_len)).0
    else (record m { buffer = b }, ckr_mechanism_invalid)

abbrev pub add_mechanism : Mechanism → Outcome Message → Outcome (Message × ℕ)
add_mechanism mech abort = abort
add_mechanism mech (done m) =
    done (add_parameter m (add_uint32 m.buffer (to_u32 mech.mechanism)).0 mech)

-- proto_write_mechanism
unfoldable pub write_mechanism : Message → Mechanism → Outcome (Message × ℕ)
write_mechanism msg mech = add_mechanism mech (check_part "M" msg)

unfoldable pub in_mechanism : Option Mechanism → Caller (Unit {0})
in_mechanism none = goto_cleanup ckr_arguments_bad
in_mechanism (some mech) = λ cs. on_message (λ m. write_mechanism m mech) (code_of cs) cs.req
