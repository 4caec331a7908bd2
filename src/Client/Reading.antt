-- ===== src/Client/Reading.antt =====
-- gck-rpc-module.c, "MODULE SPECIFIC PROTOCOL CODE": results are read from the response. A field of a
-- structure that is not reached because of a failure is not read; what a failed read leaves in the
-- structure is not modelled.
use pkcs11_proxy.Common.{ℕ, Option, none, some, List, Outcome, done, abort}
use pkcs11_proxy.Pkcs11.{Info, SlotInfo, TokenInfo, MechanismInfo, SessionInfo, ckr_device_error}
use pkcs11_proxy.Message.{Message}
use pkcs11_proxy.Message.Read.{read_ulong, read_version, read_space_string}
use pkcs11_proxy.Client.{Host}
use pkcs11_proxy.Client.Session.{as_ulong}

abbrev pub parse_error : ℕ
parse_error = ckr_device_error

-- `if (!read (msg, …) || !read (msg, …) …) return PARSE_ERROR;`
abbrev pub Reading : Type 0 → Type 0
Reading A = Message → Outcome (Message × Option A)

abbrev pub continue :
    {A B : Type 0} → (A → Reading B) → Outcome (Message × Option A) → Outcome (Message × Option B)
continue k (done (m, some a)) = k a m
continue k (done (m, none)) = done (m, none)
continue k abort = abort

infixl 5 ◌>>=◌
unfoldable pub ◌>>=◌ : {A B : Type 0} → Reading A → (A → Reading B) → Reading B
◌>>=◌ f k m = continue k (f m)

unfoldable pub pure : {A : Type 0} → A → Reading A
pure a m = done (m, some a)

abbrev pub space_string : ℕ → Reading (List ℕ)
space_string n m = read_space_string m n

module _ (host : Host) where
  -- gck_rpc_message_read_ulong, with the conversion to `CK_ULONG`
  unfoldable pub ulong : Reading ℕ
  ulong = do v ← read_ulong; pure (as_ulong host v)

  -- proto_read_info
  unfoldable pub read_info : Reading Info
  read_info = do
    cryptoki_version ← read_version
    manufacturer_id ← space_string 32
    flags ← ulong
    library_description ← space_string 32
    library_version ← read_version
    pure (record {
      cryptoki_version = cryptoki_version;
      manufacturer_id = manufacturer_id;
      flags = flags;
      library_description = library_description;
      library_version = library_version;
    })

  -- proto_read_slot_info
  unfoldable pub read_slot_info : Reading SlotInfo
  read_slot_info = do
    slot_description ← space_string 64
    manufacturer_id ← space_string 32
    flags ← ulong
    hardware_version ← read_version
    firmware_version ← read_version
    pure (record {
      slot_description = slot_description;
      manufacturer_id = manufacturer_id;
      flags = flags;
      hardware_version = hardware_version;
      firmware_version = firmware_version;
    })

  -- proto_read_token_info
  unfoldable pub read_token_info : Reading TokenInfo
  read_token_info = do
    label ← space_string 32
    manufacturer_id ← space_string 32
    model ← space_string 16
    serial_number ← space_string 16
    flags ← ulong
    max_session_count ← ulong
    session_count ← ulong
    max_rw_session_count ← ulong
    rw_session_count ← ulong
    max_pin_len ← ulong
    min_pin_len ← ulong
    total_public_memory ← ulong
    free_public_memory ← ulong
    total_private_memory ← ulong
    free_private_memory ← ulong
    hardware_version ← read_version
    firmware_version ← read_version
    utc_time ← space_string 16
    pure (record {
      label = label;
      manufacturer_id = manufacturer_id;
      model = model;
      serial_number = serial_number;
      flags = flags;
      max_session_count = max_session_count;
      session_count = session_count;
      max_rw_session_count = max_rw_session_count;
      rw_session_count = rw_session_count;
      max_pin_len = max_pin_len;
      min_pin_len = min_pin_len;
      total_public_memory = total_public_memory;
      free_public_memory = free_public_memory;
      total_private_memory = total_private_memory;
      free_private_memory = free_private_memory;
      hardware_version = hardware_version;
      firmware_version = firmware_version;
      utc_time = utc_time;
    })

  -- proto_read_mechanism_info
  unfoldable pub read_mechanism_info : Reading MechanismInfo
  read_mechanism_info = do
    min_key_size ← ulong
    max_key_size ← ulong
    flags ← ulong
    pure (record { min_key_size = min_key_size; max_key_size = max_key_size; flags = flags })

  -- proto_read_sesssion_info
  unfoldable pub read_session_info : Reading SessionInfo
  read_session_info = do
    slot_id ← ulong
    state ← ulong
    flags ← ulong
    device_error ← ulong
    pure (record { slot_id = slot_id; state = state; flags = flags; device_error = device_error })
