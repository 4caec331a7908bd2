-- ===== src/Client/Gets.antt =====
-- The readers of gck-rpc-module.c, and the letters that they take off the signature of a response.
use pkcs11_proxy.Common.{
  ℕ, ◌<◌, ◌≡◌, refl, sym, ap, ◌∙◌, subst, Bool, true, Bool-cases, inl, inr, Option, none, some,
  List, [], ◌++◌, append_assoc, codes, lt→ltb, length, ◌==◌, Outcome, done, arith,
}
use Prim.Native.String.{String}
use pkcs11_proxy.Pkcs11.{Version}
use pkcs11_proxy.Buffer.{get_byte}
use pkcs11_proxy.Buffer.Ints.{get_uint64}
use pkcs11_proxy.Buffer.Arrays.{get_byte_array}
use pkcs11_proxy.Message.{Message, check_part, take_from, is_given}
use pkcs11_proxy.Message.Header.{SameHead, take_from-SameHead}
use pkcs11_proxy.Message.Read.{read_ulong, read_then, read_version, exactly, read_space_string}
use pkcs11_proxy.Message.Advance.{advanced}
use pkcs11_proxy.Message.Letters.{check_part_signed}
use pkcs11_proxy.Client.{Host}
use pkcs11_proxy.Client.Reading.{
  Reading, continue, ◌>>=◌, pure, space_string, ulong, read_info, read_slot_info, read_token_info,
  read_mechanism_info, read_session_info,
}

-- The operation does not stop the process, and where its answer is good the signature has moved on.
pub record Gets {A : Type 0} (good : A → Bool) (read : Message → Outcome (Message × A))
    (letters : List ℕ) : Type 0 where
  pub run :
      (msg : Message) (s rest : List ℕ)
      → msg.signature ≡ some s
      → msg.sigverify ≡ some (letters ++ rest)
      → (r : Message × A) × (read msg ≡ done r)
        × (r.0.signature ≡ some s)
        × (good r.1 ≡ true → r.0.sigverify ≡ some rest)

pub same_head : {m : Message} → SameHead m m
same_head = record { call_id = refl; signature = refl; sigverify = refl }

pub SameHead-trans : {a b c : Message} → SameHead a b → SameHead b c → SameHead a c
SameHead-trans f g = record {
  call_id = g.call_id ∙ f.call_id;
  signature = g.signature ∙ f.signature;
  sigverify = g.sigverify ∙ f.sigverify;
}

-- A check of the letters, and then an operation that leaves the head alone.
pub checked-Gets :
    {A : Type 0} {good : A → Bool} (part : String) (read : Message → Outcome (Message × A))
    (k : Message → Message × A)
    → ((msg m : Message) → check_part part msg ≡ done m → read msg ≡ done (k m))
    → ((m : Message) → SameHead m (k m).0)
    → Gets good read (codes part)
checked-Gets part read k step keeps = record {
  run = λ msg s rest signed e.
      let m = advanced msg rest in
      let same = keeps m in
      (
        k m,
        step msg m (check_part_signed part msg s rest signed e),
        same.signature ∙ signed,
        λ ok. same.sigverify,
      );
}

read_then-SameHead :
    {A B : Type 0} (m : Message) (r : Message × Option A) (k : Message → A → Message × Option B)
    → SameHead m r.0
    → ((m' : Message) (a : A) → SameHead m' (k m' a).0)
    → SameHead m (read_then r k).0
unfolding read_then
read_then-SameHead m (m', none) k h keeps = h
read_then-SameHead m (m', some a) k h keeps = SameHead-trans h (keeps m' a)

exactly-SameHead : (n : ℕ) (m : Message) (val : Option (List ℕ)) → SameHead m (exactly n m val).0
unfolding exactly
exactly-SameHead n m none = same_head
exactly-SameHead n m (some val) = elim (Bool-cases (length val == n)) [
  | inl e ↦ rw e same_head
  | inr e ↦ rw e same_head
]

pub read_ulong-Gets : Gets is_given read_ulong (codes "u")
unfolding read_ulong
read_ulong-Gets =
    checked-Gets "u" read_ulong (λ m. take_from m get_uint64) (λ msg m e. rw e refl)
      λ m. take_from-SameHead m get_uint64

-- Behind the check of its letter.
abbrev version_parts : Message → Message × Option Version
version_parts m = read_then (take_from m get_byte) λ m' major.
    read_then (take_from m' get_byte)
      λ m'' minor. (m'', some (record { major = major; minor = minor }))

abbrev string_parts : ℕ → Message → Message × Option (List ℕ)
string_parts n m = read_then (take_from m get_byte_array) (exactly n)

pub version-Gets : Gets is_given read_version (codes "v")
unfolding read_version
version-Gets =
    checked-Gets "v" read_version version_parts (λ msg m e. rw e refl)
      λ m. read_then-SameHead m (take_from m get_byte) _ (take_from-SameHead m get_byte) λ m' major.
        read_then-SameHead m' (take_from m' get_byte) _ (take_from-SameHead m' get_byte)
          λ m'' minor. same_head

pub space_string-Gets : (n : ℕ) → 0 < n → Gets is_given (space_string n) (codes "s")
unfolding read_space_string
space_string-Gets n h =
    checked-Gets "s" (space_string n) (string_parts n) (λ msg m e. rw (lt→ltb 0 n h, e) refl)
      λ m.
        read_then-SameHead m (take_from m get_byte_array) _ (take_from-SameHead m get_byte_array)
          λ m' val. exactly-SameHead n m' val

pub pure-Gets : {A : Type 0} (a : A) → Gets is_given (pure a) []
unfolding pure
pure-Gets a = record { run = λ msg s rest signed e. (_, refl, signed, λ ok. e) }

-- The operation has returned so, with `rest` still to come where the answer is good.
abbrev Returned : {A : Type 0} → (A → Bool) → List ℕ → List ℕ → Outcome (Message × A) → Type 0
Returned {A} good s rest out =
    (r : Message × A) × (out ≡ done r)
    × (r.0.signature ≡ some s)
    × (good r.1 ≡ true → r.0.sigverify ≡ some rest)

continue-Returned :
    {A B : Type 0} (k : A → Reading B) (more : List ℕ) (m : Message) (o : Option A)
    (s rest : List ℕ)
    → ((a : A) → Gets is_given (k a) more)
    → m.signature ≡ some s
    → (is_given o ≡ true → m.sigverify ≡ some (more ++ rest))
    → Returned is_given s rest (continue k (done (m, o)))
continue-Returned k more m none s rest h signed moved = (_, refl, signed, λ bad. absurd cc)
continue-Returned k more m (some a) s rest h signed moved = (h a).run m s rest signed (moved refl)

-- One read behind another.
pub Gets-bind :
    {A B : Type 0} {f : Reading A} {k : A → Reading B} (letters : List ℕ) {more : List ℕ}
    → Gets is_given f letters
    → ((a : A) → Gets is_given (k a) more)
    → Gets is_given (f >>= k) (letters ++ more)
unfolding ◌>>=◌
Gets-bind {f = f} {k = k} letters {more = more} g h = record {
  run = λ msg s rest signed e.
      let ((m, o), p, signed', moved) =
        g.run msg s (more ++ rest) signed (e ∙ ap some (append_assoc letters more rest)) in
      subst (λ out. Returned is_given s rest (continue k out)) (sym p)
        (continue-Returned k more m o s rest h signed' moved);
}

module _ (host : Host) where
  pub ulong-Gets : Gets is_given (ulong host) (codes "u")
  unfolding ulong
  ulong-Gets = Gets-bind (codes "u") read_ulong-Gets λ v. pure-Gets _

  pub info-Gets : Gets is_given (read_info host) (codes "vsusv")
  unfolding read_info
  info-Gets = Gets-bind (codes "v") version-Gets λ _.
      Gets-bind (codes "s") (space_string-Gets 32 (omega arith)) λ _.
        Gets-bind (codes "u") ulong-Gets λ _.
          Gets-bind (codes "s") (space_string-Gets 32 (omega arith))
            λ _. Gets-bind (codes "v") version-Gets λ _. pure-Gets _

  pub slot_info-Gets : Gets is_given (read_slot_info host) (codes "ssuvv")
  unfolding read_slot_info
  slot_info-Gets = Gets-bind (codes "s") (space_string-Gets 64 (omega arith)) λ _.
      Gets-bind (codes "s") (space_string-Gets 32 (omega arith)) λ _.
        Gets-bind (codes "u") ulong-Gets λ _.
          Gets-bind (codes "v") version-Gets
            λ _. Gets-bind (codes "v") version-Gets λ _. pure-Gets _

  pub token_info-Gets : Gets is_given (read_token_info host) (codes "ssssuuuuuuuuuuuvvs")
  unfolding read_token_info
  token_info-Gets = Gets-bind (codes "s") (space_string-Gets 32 (omega arith)) λ _.
      Gets-bind (codes "s") (space_string-Gets 32 (omega arith)) λ _.
        Gets-bind (codes "s") (space_string-Gets 16 (omega arith)) λ _.
          Gets-bind (codes "s") (space_string-Gets 16 (omega arith)) λ _.
            Gets-bind (codes "u") ulong-Gets λ _. Gets-bind (codes "u") ulong-Gets λ _.
              Gets-bind (codes "u") ulong-Gets λ _. Gets-bind (codes "u") ulong-Gets λ _.
                Gets-bind (codes "u") ulong-Gets λ _. Gets-bind (codes "u") ulong-Gets λ _.
                  Gets-bind (codes "u") ulong-Gets λ _. Gets-bind (codes "u") ulong-Gets λ _.
                    Gets-bind (codes "u") ulong-Gets λ _. Gets-bind (codes "u") ulong-Gets λ _.
                      Gets-bind (codes "u") ulong-Gets λ _. Gets-bind (codes "v") version-Gets λ _.
                        Gets-bind (codes "v") version-Gets λ _.
                          Gets-bind (codes "s") (space_string-Gets 16 (omega arith))
                            λ _. pure-Gets _

  pub mechanism_info-Gets : Gets is_given (read_mechanism_info host) (codes "uuu")
  unfolding read_mechanism_info
  mechanism_info-Gets =
      Gets-bind (codes "u") ulong-Gets
        λ _. Gets-bind (codes "u") ulong-Gets λ _. Gets-bind (codes "u") ulong-Gets λ _. pure-Gets _

  pub session_info-Gets : Gets is_given (read_session_info host) (codes "uuuu")
  unfolding read_session_info
  session_info-Gets = Gets-bind (codes "u") ulong-Gets λ _.
      Gets-bind (codes "u") ulong-Gets
        λ _. Gets-bind (codes "u") ulong-Gets λ _. Gets-bind (codes "u") ulong-Gets λ _. pure-Gets _
