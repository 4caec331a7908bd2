-- ===== src/Message/Letters.antt =====
-- The writers of gck-rpc-message.c, and the letters that they take off the signature of a message.
use pkcs11_proxy.Common.{
  ℕ, ◌≡◌, refl, Bool, true, false, Bool-cases, inl, inr, Option, some, List, ◌++◌, ◌&&◌, codes, ltb,
  Outcome, done, arith,
}
use Prim.Native.String.{String}
use pkcs11_proxy.Pkcs11.{Attribute, Version}
use pkcs11_proxy.Buffer.{Buffer}
use pkcs11_proxy.Message.{Message, check_part}
use pkcs11_proxy.Message.Write.{
  is_null, write_byte, write_ulong, write_byte_buffer, write_byte_array, write_ulong_buffer,
  write_ulong_array, write_attribute_buffer, write_attribute_array, write_version,
  write_space_string,
}
use pkcs11_proxy.Message.Advance.{advanced, verify_part_lem}

-- The operation does not stop the process, and where it succeeds the signature has moved on to `rest`.
pub record Sends (msg : Message) (rest : List ℕ) (out : Outcome (Message × Bool)) : Type 0 where
  pub result : Message × Bool
  pub returned : out ≡ done result
  pub same_id : result.0.call_id ≡ msg.call_id
  pub same_type : result.0.call_type ≡ msg.call_type
  pub same_signature : result.0.signature ≡ msg.signature
  pub moved : result.1 ≡ true → result.0.sigverify ≡ some rest

-- The operation writes a value that these letters stand for.
pub record Writer (write : Message → Outcome (Message × Bool)) (letters : List ℕ) : Type 0 where
  pub run :
      (msg : Message) (s rest : List ℕ)
      → msg.signature ≡ some s
      → msg.sigverify ≡ some (letters ++ rest)
      → Sends msg rest (write msg)

pub check_part_signed :
    (part : String) (msg : Message) (s rest : List ℕ)
    → msg.signature ≡ some s
    → msg.sigverify ≡ some (codes part ++ rest)
    → check_part part msg ≡ done (advanced msg rest)
unfolding check_part
check_part_signed part msg s rest signed e = ground (arith, verify_part_lem msg (codes part) rest e)

-- The message behind a check of its letters, with whatever the buffer's writers have made of the buffer.
pub sent-Sends :
    (msg : Message) (rest : List ℕ) (b : Buffer) (ok : Bool)
    → Sends msg rest (done (record (advanced msg rest) { buffer = b }, ok))
sent-Sends msg rest b ok = record {
  result = _;
  returned = refl;
  same_id = refl;
  same_type = refl;
  same_signature = refl;
  moved = λ _. refl;
}

pub ulong-Writer : (val : ℕ) → Writer (λ m. write_ulong m val) (codes "u")
unfolding write_ulong
ulong-Writer val = record {
  run = λ msg s rest signed e.
      rw (check_part_signed "u" msg s rest signed e) (sent-Sends msg rest _ _);
}

pub byte_array-Writer :
    (arr : Option (List ℕ)) (num : ℕ) → Writer (λ m. write_byte_array m arr num) (codes "ay")
unfolding write_byte_array
byte_array-Writer arr num = record {
  run = λ msg s rest signed e.
      rw (check_part_signed "ay" msg s rest signed e) (sent-Sends msg rest _ _);
}

pub ulong_array-Writer :
    (array : Option (List ℕ)) (n : ℕ) → Writer (λ m. write_ulong_array m array n) (codes "au")
unfolding write_ulong_array
ulong_array-Writer array n = record {
  run = λ msg s rest signed e.
      rw (check_part_signed "au" msg s rest signed e) (sent-Sends msg rest _ _);
}

pub version-Writer : (version : Version) → Writer (λ m. write_version m version) (codes "v")
unfolding write_version
version-Writer version = record {
  run = λ msg s rest signed e.
      rw (check_part_signed "v" msg s rest signed e) (sent-Sends msg rest _ _);
}

pub space_string-Writer :
    (buffer : List ℕ) (n : ℕ)
    → ltb 0 n ≡ true
    → Writer (λ m. write_space_string m buffer n) (codes "s")
unfolding write_space_string
space_string-Writer buffer n h = record {
  run = λ msg s rest signed e.
      rw (h, check_part_signed "s" msg s rest signed e) (sent-Sends msg rest _ _);
}

pub attribute_array-Writer :
    (ulong_size : ℕ) (attrs : List Attribute) (n : ℕ)
    → Writer (λ m. write_attribute_array ulong_size m (some attrs) n) (codes "aA")
unfolding write_attribute_array
attribute_array-Writer ulong_size attrs n = record {
  run = λ msg s rest signed e. elim (Bool-cases (ltb 0 n)) [
    | inl h ↦ rw (h, check_part_signed "aA" msg s rest signed e) (sent-Sends msg rest _ _)
    | inr h ↦ rw (h, check_part_signed "aA" msg s rest signed e) (sent-Sends msg rest _ _)
  ];
}

pub byte-Writer : (val : ℕ) → Writer (λ m. write_byte m val) (codes "y")
unfolding write_byte
byte-Writer val = record {
  run = λ msg s rest signed e.
      rw (check_part_signed "y" msg s rest signed e) (sent-Sends msg rest _ _);
}

pub byte_buffer-Writer :
    (no_data : Bool) (count : Option ℕ)
    → Writer (λ m. write_byte_buffer m no_data count) (codes "fy")
unfolding write_byte_buffer
byte_buffer-Writer no_data count = record {
  run = λ msg s rest signed e.
      rw (check_part_signed "fy" msg s rest signed e) (sent-Sends msg rest _ _);
}

pub ulong_buffer-Writer : (count : ℕ) → Writer (λ m. write_ulong_buffer m count) (codes "fu")
unfolding write_ulong_buffer
ulong_buffer-Writer count = record {
  run = λ msg s rest signed e.
      rw (check_part_signed "fu" msg s rest signed e) (sent-Sends msg rest _ _);
}

-- An attribute buffer or array whose number is not 0 must be there.
pub attribute_buffer-Writer :
    (attrs : Option (List Attribute)) (n : ℕ)
    → (ltb 0 n && is_null attrs) ≡ false
    → Writer (λ m. write_attribute_buffer m attrs n) (codes "fA")
unfolding write_attribute_buffer
attribute_buffer-Writer attrs n h = record {
  run = λ msg s rest signed e.
      rw (h, check_part_signed "fA" msg s rest signed e) (sent-Sends msg rest _ _);
}

pub attributes-Writer :
    (ulong_size : ℕ) (attrs : Option (List Attribute)) (n : ℕ)
    → (ltb 0 n && is_null attrs) ≡ false
    → Writer (λ m. write_attribute_array ulong_size m attrs n) (codes "aA")
unfolding write_attribute_array
attributes-Writer ulong_size attrs n h = record {
  run = λ msg s rest signed e.
      rw (h, check_part_signed "aA" msg s rest signed e) (sent-Sends msg rest _ _);
}
