-- ===== src/Dispatch/Results.antt =====
-- gck-rpc-dispatch.c, "PROTOCOL CODE" and the OUT_ macros: results are written to the response. Where
-- the C function returns an error the handler goes on with it.
use pkcs11_proxy.Common.{
  ℕ, Bool, true, false, ◌||◌, Option, none, some, List, [], ◌∷◌, ◌==◌, if◌then◌else◌, Outcome, done,
  abort,
}
use pkcs11_proxy.Pkcs11.{
  Attribute, Info, SlotInfo, TokenInfo, MechanismInfo, SessionInfo, ckr_ok, ckr_buffer_too_small,
  ckr_attribute_sensitive, ckr_attribute_type_invalid,
}
use pkcs11_proxy.Message.{Message}
use pkcs11_proxy.Message.Write.{
  write_ulong, write_byte_array, write_ulong_array, write_attribute_array, write_version,
  write_space_string,
}
use pkcs11_proxy.Dispatch.{Handler, ◌>>=◌, pure, on_resp}
use pkcs11_proxy.Dispatch.Proto.{Machine, prep_error}

-- A result that was too large is sent as its length alone; other errors are passed on.
abbrev pub unless_too_small : {A : Type 0} → ℕ → Option A → Option A
unless_too_small ret array = if ret == ckr_buffer_too_small then none else array

abbrev pub len_or_zero : Option ℕ → ℕ
len_or_zero none = 0
len_or_zero (some n) = n

-- `a || b || …` of failing writers: the first failure ends it.
unfoldable pub in_turn :
    List (Message → Outcome (Message × Bool)) → Message → Outcome (Message × Bool)
in_turn [] m = done (m, true)
in_turn (write ∷ rest) m = elim (write m) [
  | done (m', ok) ↦ let next = in_turn rest m' in if ok then next else done (m', false)
  | abort ↦ abort
]

module _ {S : Type 0} where
  -- `if (!write) return PREP_ERROR;`
  unfoldable pub respond : (Message → Outcome (Message × Bool)) → ℕ → Handler S ℕ
  respond write ret = do ok ← on_resp write; pure (if ok then ret else prep_error)

  unfoldable pub out_ulong : ℕ → ℕ → Handler S ℕ
  out_ulong val ret = if ret == ckr_ok then respond (λ m. write_ulong m val) ret else pure ret

  -- proto_write_byte_array
  unfoldable pub out_byte_array : Option (List ℕ) → Option ℕ → ℕ → Handler S ℕ
  out_byte_array array len ret =
      if ret == ckr_buffer_too_small || ret == ckr_ok
      then respond (λ m. write_byte_array m (unless_too_small ret array) (len_or_zero len)) ckr_ok
      else pure ret

  -- proto_write_ulong_array
  unfoldable pub out_ulong_array : Option (List ℕ) → ℕ → ℕ → Handler S ℕ
  out_ulong_array array len ret =
      if ret == ckr_buffer_too_small || ret == ckr_ok
      then respond (λ m. write_ulong_array m (unless_too_small ret array) len) ckr_ok
      else pure ret

  -- proto_write_attribute_array: some errors are no real errors, and go out behind the attributes.
  unfoldable pub out_attribute_array : Machine → List Attribute → ℕ → ℕ → Handler S ℕ
  out_attribute_array machine attrs len ret =
      if ret == ckr_attribute_sensitive
        || ret == ckr_attribute_type_invalid
        || ret == ckr_buffer_too_small
        || ret == ckr_ok
      then respond
          (in_turn (
            (λ m. write_attribute_array machine.ulong_size m (some attrs) len)
            ∷ (λ m. write_ulong m ret)
            ∷ []))
          ckr_ok
      else pure ret

  -- proto_write_info
  unfoldable pub out_info : Info → ℕ → Handler S ℕ
  out_info info ret =
      if ret == ckr_ok
      then respond
          (in_turn (
            (λ m. write_version m info.cryptoki_version)
            ∷ (λ m. write_space_string m info.manufacturer_id 32)
            ∷ (λ m. write_ulong m info.flags)
            ∷ (λ m. write_space_string m info.library_description 32)
            ∷ (λ m. write_version m info.library_version)
            ∷ []))
          ckr_ok
      else pure ret

  -- proto_write_slot_info
  unfoldable pub out_slot_info : SlotInfo → ℕ → Handler S ℕ
  out_slot_info info ret =
      if ret == ckr_ok
      then respond
          (in_turn (
            (λ m. write_space_string m info.slot_description 64)
            ∷ (λ m. write_space_string m info.manufacturer_id 32)
            ∷ (λ m. write_ulong m info.flags)
            ∷ (λ m. write_version m info.hardware_version)
            ∷ (λ m. write_version m info.firmware_version)
            ∷ []))
          ckr_ok
      else pure ret

  -- proto_write_token_info
  unfoldable pub out_token_info : TokenInfo → ℕ → Handler S ℕ
  out_token_info info ret =
      if ret == ckr_ok
      then respond
          (in_turn (
            (λ m. write_space_string m info.label 32)
            ∷ (λ m. write_space_string m info.manufacturer_id 32)
            ∷ (λ m. write_space_string m info.model 16)
            ∷ (λ m. write_space_string m info.serial_number 16)
            ∷ (λ m. write_ulong m info.flags)
            ∷ (λ m. write_ulong m info.max_session_count)
            ∷ (λ m. write_ulong m info.session_count)
            ∷ (λ m. write_ulong m info.max_rw_session_count)
            ∷ (λ m. write_ulong m info.rw_session_count)
            ∷ (λ m. write_ulong m info.max_pin_len)
            ∷ (λ m. write_ulong m info.min_pin_len)
            ∷ (λ m. write_ulong m info.total_public_memory)
            ∷ (λ m. write_ulong m info.free_public_memory)
            ∷ (λ m. write_ulong m info.total_private_memory)
            ∷ (λ m. write_ulong m info.free_private_memory)
            ∷ (λ m. write_version m info.hardware_version)
            ∷ (λ m. write_version m info.firmware_version)
            ∷ (λ m. write_space_string m info.utc_time 16)
            ∷ []))
          ckr_ok
      else pure ret

  -- proto_write_mechanism_info
  unfoldable pub out_mechanism_info : MechanismInfo → ℕ → Handler S ℕ
  out_mechanism_info info ret =
      if ret == ckr_ok
      then respond
          (in_turn (
            (λ m. write_ulong m info.min_key_size)
            ∷ (λ m. write_ulong m info.max_key_size)
            ∷ (λ m. write_ulong m info.flags)
            ∷ []))
          ckr_ok
      else pure ret

  -- proto_write_session_info
  unfoldable pub out_session_info : SessionInfo → ℕ → Handler S ℕ
  out_session_info info ret =
      if ret == ckr_ok
      then respond
          (in_turn (
            (λ m. write_ulong m info.slot_id)
            ∷ (λ m. write_ulong m info.state)
            ∷ (λ m. write_ulong m info.flags)
            ∷ (λ m. write_ulong m info.device_error)
            ∷ []))
          ckr_ok
      else pure ret
