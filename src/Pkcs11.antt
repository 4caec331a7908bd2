-- ===== src/Pkcs11.antt =====
-- pkcs11/pkcs11.h: the return codes and the structures that cross the wire. A pointer is an `Option`,
-- and what it points to is the list of the bytes, or the structure, behind it.
use pkcs11_proxy.Common.{ℕ, bit_and, Option, List}

abbrev pub ckr_ok : ℕ
ckr_ok = 0

abbrev pub ckr_host_memory : ℕ
ckr_host_memory = 2

abbrev pub ckr_general_error : ℕ
ckr_general_error = 5

abbrev pub ckr_arguments_bad : ℕ
ckr_arguments_bad = 7

abbrev pub ckr_cant_lock : ℕ
ckr_cant_lock = 0xa

abbrev pub ckr_attribute_sensitive : ℕ
ckr_attribute_sensitive = 0x11

abbrev pub ckr_attribute_type_invalid : ℕ
ckr_attribute_type_invalid = 0x12

abbrev pub ckr_function_not_supported : ℕ
ckr_function_not_supported = 0x54

abbrev pub ckr_device_error : ℕ
ckr_device_error = 0x30

abbrev pub ckr_device_memory : ℕ
ckr_device_memory = 0x31

abbrev pub ckr_device_removed : ℕ
ckr_device_removed = 0x32

abbrev pub ckr_mechanism_invalid : ℕ
ckr_mechanism_invalid = 0x70

abbrev pub ckr_session_closed : ℕ
ckr_session_closed = 0xb0

abbrev pub ckr_session_count : ℕ
ckr_session_count = 0xb1

abbrev pub ckr_session_handle_invalid : ℕ
ckr_session_handle_invalid = 0xb3

abbrev pub ckr_buffer_too_small : ℕ
ckr_buffer_too_small = 0x150

abbrev pub ckr_cryptoki_not_initialized : ℕ
ckr_cryptoki_not_initialized = 0x190

abbrev pub ckr_cryptoki_already_initialized : ℕ
ckr_cryptoki_already_initialized = 0x191

-- `CK_ATTRIBUTE`
pub record Attribute : Type 0 where
  pub type : ℕ
  pub value : Option (List ℕ)
  pub value_len : ℕ

-- `CK_VERSION`
pub record Version : Type 0 where
  pub major : ℕ
  pub minor : ℕ

-- `CK_MECHANISM`
pub record Mechanism : Type 0 where
  pub mechanism : ℕ
  pub parameter : Option (List ℕ)
  pub parameter_len : ℕ

-- `CK_INFO`
pub record Info : Type 0 where
  pub cryptoki_version : Version
  pub manufacturer_id : List ℕ
  pub flags : ℕ
  pub library_description : List ℕ
  pub library_version : Version

-- `CK_SLOT_INFO`
pub record SlotInfo : Type 0 where
  pub slot_description : List ℕ
  pub manufacturer_id : List ℕ
  pub flags : ℕ
  pub hardware_version : Version
  pub firmware_version : Version

-- `CK_TOKEN_INFO`
pub record TokenInfo : Type 0 where
  pub label : List ℕ
  pub manufacturer_id : List ℕ
  pub model : List ℕ
  pub serial_number : List ℕ
  pub flags : ℕ
  pub max_session_count : ℕ
  pub session_count : ℕ
  pub max_rw_session_count : ℕ
  pub rw_session_count : ℕ
  pub max_pin_len : ℕ
  pub min_pin_len : ℕ
  pub total_public_memory : ℕ
  pub free_public_memory : ℕ
  pub total_private_memory : ℕ
  pub free_private_memory : ℕ
  pub hardware_version : Version
  pub firmware_version : Version
  pub utc_time : List ℕ

-- `CK_MECHANISM_INFO`
pub record MechanismInfo : Type 0 where
  pub min_key_size : ℕ
  pub max_key_size : ℕ
  pub flags : ℕ

-- `CK_SESSION_INFO`
pub record SessionInfo : Type 0 where
  pub slot_id : ℕ
  pub state : ℕ
  pub flags : ℕ
  pub device_error : ℕ

-- `CK_GNOME_APPARTMENT_SLOT`: the slot's number without the application's
unfoldable pub appartment_slot : ℕ → ℕ
appartment_slot slot_id = bit_and slot_id 0x3ff
