-- ===== src/Tests/Messages.antt =====
-- A message under way, and the properties of gck-rpc-message.c at it.
use pkcs11_proxy.Common.{
  ℕ, ◌≡◌, ◌<◌, refl, Bool, true, none, some, List, [], ◌∷◌, ◌++◌, length, list_eq, write_at, codes,
  strip_prefix, All, IsByte, done, to_u32, arith,
}
use pkcs11_proxy.Pkcs11.{Version, Attribute}
use pkcs11_proxy.Util.{has_bad_sized_ulong_parameter}
use pkcs11_proxy.Wire
use pkcs11_proxy.Wire.{be32, be64, array}
use pkcs11_proxy.Buffer.{Buffer, and_next, reserve, add_byte}
use pkcs11_proxy.Buffer.Ints.{
  get_uint32, decode_uint32, add_uint64, add_uint32, set_uint32, encode_uint32,
}
use pkcs11_proxy.Buffer.Arrays.{get_byte_array}
use pkcs11_proxy.Calls.{get_elem?, Call, calls, request_of}
use pkcs11_proxy.Calls.Table.{IsRow, calls-IsRow}
use pkcs11_proxy.Message.{
  Message, response, request, message_parse, parse_call, parse_signature, signature_matches,
  check_part, verify_part,
}
use pkcs11_proxy.Message.Write.{
  write_ulong, write_byte_array, write_ulong_array, write_version, write_attribute_array,
  attribute_value,
}
use pkcs11_proxy.Message.Advance.{Expects}
use pkcs11_proxy.Message.AttributeSteps.{attributes_bytes, write_attribute_array-Puts}
use pkcs11_proxy.Message.Read.{read_ulong, read_version}
use pkcs11_proxy.Message.ReadSteps.{Takes, read_ulong-Takes}
use pkcs11_proxy.Message.RoundTrip.{read_ulong-write_ulong, read_version-write_version}
use pkcs11_proxy.Message.Header.{IsAsked, message_parse-IsAsked}
use pkcs11_proxy.Message.WriteSteps.{
  Puts, byte_array_bytes, ulong_array_bytes, write_byte_array-Puts, write_ulong_array-Puts,
}
use pkcs11_proxy.Tests.Buffers.{roomy_buffer, roomy_buffer-IsValid}

-- A message whose signature goes on with these letters.
abbrev pub expecting : List ℕ → Message
expecting letters = record {
  call_id = 5;
  call_type = response;
  signature = some letters;
  buffer = roomy_buffer;
  parsed = 0;
  sigverify = some letters;
}

pub expecting-Expects : (letters : List ℕ) → Expects (expecting letters) letters
expecting-Expects letters = record { signed = λ e. cc; rest = refl; valid = roomy_buffer-IsValid }

calls-IsRow_example : (c : Call) × (get_elem? calls 5 ≡ some c) × IsRow 5 c
calls-IsRow_example = calls-IsRow 5 (omega arith) (omega arith)

write_byte_array-Puts_example :
    Puts
      (expecting (codes "ay"))
      []
      (byte_array_bytes (some (1 ∷ 2 ∷ 3 ∷ [])) 2)
      (write_byte_array (expecting (codes "ay")) (some (1 ∷ 2 ∷ 3 ∷ [])) 2)
write_byte_array-Puts_example =
    write_byte_array-Puts (expecting (codes "ay")) [] (some (1 ∷ 2 ∷ 3 ∷ [])) 2
      (expecting-Expects (codes "ay")) (omega arith, omega arith)

write_ulong_array-Puts_example :
    Puts
      (expecting (codes "au"))
      []
      (ulong_array_bytes (some (1 ∷ 2 ∷ [])) 2)
      (write_ulong_array (expecting (codes "au")) (some (1 ∷ 2 ∷ [])) 2)
write_ulong_array-Puts_example =
    write_ulong_array-Puts (expecting (codes "au")) [] (some (1 ∷ 2 ∷ [])) 2
      (expecting-Expects (codes "au"))

abbrev version_two : Version
version_two = record { major = 2; minor = 20 }

-- A request for C_GetSlotInfo of slot 1, as it is received.
abbrev pub slot_info_bytes : List ℕ
slot_info_bytes = be32 5 ++ array (some (codes "u")) ++ be64 1

abbrev pub received_buffer : Buffer
received_buffer = record {
  buf = slot_info_bytes;
  len = 17;
  allocated_len = 17;
  failures = 0;
  allocator = none;
}

abbrev pub received_message : Message
received_message = record {
  call_id = 0;
  call_type = request;
  signature = none;
  buffer = received_buffer;
  parsed = 0;
  sigverify = none;
}

-- The request behind its head.
abbrev pub parsed_message : Message
parsed_message = record {
  call_id = 5;
  call_type = request;
  signature = some (codes "u");
  buffer = received_buffer;
  parsed = 9;
  sigverify = some (codes "u");
}

pub received_message_parse : message_parse received_message request ≡ done (parsed_message, true)
unfolding message_parse parse_call parse_signature signature_matches request_of get_uint32
    decode_uint32 get_byte_array list_eq and_next
received_message_parse = refl

message_parse-IsAsked_example : IsAsked parsed_message
message_parse-IsAsked_example =
    message_parse-IsAsked received_message parsed_message received_message_parse

-- The other end: a message that expects these letters, at the beginning of these bytes.
abbrev arriving_buffer : List ℕ → Buffer
arriving_buffer bytes = record {
  buf = bytes;
  len = length bytes;
  allocated_len = length bytes;
  failures = 0;
  allocator = none;
}

abbrev arriving : List ℕ → List ℕ → Message
arriving letters bytes = record {
  call_id = 5;
  call_type = request;
  signature = some letters;
  buffer = arriving_buffer bytes;
  parsed = 0;
  sigverify = some letters;
}

arriving-Expects :
    (letters bytes : List ℕ)
    → All IsByte bytes
    → length bytes < 100
    → Expects (arriving letters bytes) letters
arriving-Expects letters bytes h small = record {
  signed = λ e. cc;
  rest = refl;
  valid = record {
    sized = refl;
    fits = omega arith;
    bounded = omega arith;
    bytes = h;
    lawful = λ a e. cc;
  };
}

-- The number is cut off.
read_ulong-Takes_example :
    Takes
      (arriving (codes "u") (3 ∷ 4 ∷ []))
      []
      (Wire.read_be64 (3 ∷ 4 ∷ []))
      (read_ulong (arriving (codes "u") (3 ∷ 4 ∷ [])))
read_ulong-Takes_example =
    read_ulong-Takes (arriving (codes "u") (3 ∷ 4 ∷ [])) []
      (arriving-Expects (codes "u") (3 ∷ 4 ∷ []) (omega arith) (omega arith))

-- What the writers leave.
abbrev sent_ulong : Message × Bool
sent_ulong = (
  record (expecting (codes "uv")) {
    buffer = (add_uint64 roomy_buffer 77).0;
    sigverify = some (codes "v");
  },
  true,
)

abbrev ulong_bytes : List ℕ
ulong_bytes = 0 ∷ 0 ∷ 0 ∷ 0 ∷ 0 ∷ 0 ∷ 0 ∷ 77 ∷ 6 ∷ []

read_ulong-write_ulong_example :
    Takes
      (arriving (codes "u") ulong_bytes)
      []
      (some (77, 6 ∷ []))
      (read_ulong (arriving (codes "u") ulong_bytes))
unfolding write_ulong check_part verify_part strip_prefix add_uint64 add_uint32 reserve set_uint32
    write_at encode_uint32
read_ulong-write_ulong_example =
    read_ulong-write_ulong (expecting (codes "uv")) (arriving (codes "u") ulong_bytes) (codes "v")
      [] (6 ∷ []) sent_ulong 77 (omega arith) (expecting-Expects (codes "uv"))
      (arriving-Expects (codes "u") ulong_bytes (omega arith) (omega arith)) refl refl refl

abbrev sent_version : Message × Bool
sent_version = (
  record (expecting (codes "vs")) {
    buffer = (add_byte (add_byte roomy_buffer 2).0 20).0;
    sigverify = some (codes "s");
  },
  true,
)

read_version-write_version_example :
    Takes
      (arriving (codes "v") (2 ∷ 20 ∷ 6 ∷ []))
      []
      (some (version_two, 6 ∷ []))
      (read_version (arriving (codes "v") (2 ∷ 20 ∷ 6 ∷ [])))
unfolding write_version check_part verify_part strip_prefix add_byte reserve
read_version-write_version_example =
    read_version-write_version (expecting (codes "vs")) (arriving (codes "v") (2 ∷ 20 ∷ 6 ∷ []))
      (codes "s") [] (6 ∷ []) sent_version version_two (omega arith) (omega arith)
      (expecting-Expects (codes "vs"))
      (arriving-Expects (codes "v") (2 ∷ 20 ∷ 6 ∷ []) (omega arith) (omega arith)) refl refl refl

-- CKA_MODULUS_BITS with the value 77, and CKA_LABEL, which is not valid.
abbrev modulus_bits : Attribute
modulus_bits = record {
  type = 0x121;
  value = some (77 ∷ 0 ∷ 0 ∷ 0 ∷ 0 ∷ 0 ∷ 0 ∷ 0 ∷ []);
  value_len = 8;
}

abbrev label_missing : Attribute
label_missing = record { type = 3; value = none; value_len = 0xffff_ffff_ffff_ffff }

write_attribute_array-Puts_example :
    Puts
      (expecting (codes "aAu"))
      (codes "u")
      (be32 (to_u32 2) ++ attributes_bytes 8 (modulus_bits ∷ label_missing ∷ []))
      (write_attribute_array 8
        (expecting (codes "aAu"))
        (some (modulus_bits ∷ label_missing ∷ []))
        2)
unfolding has_bad_sized_ulong_parameter attribute_value
write_attribute_array-Puts_example =
    write_attribute_array-Puts 8 (expecting (codes "aAu")) (codes "u")
      (modulus_bits ∷ label_missing ∷ []) 2 (expecting-Expects (codes "aAu"))
      ((omega arith, omega arith), (tt, tt))
