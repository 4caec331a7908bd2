-- ===== src/Client/ArraySteps.antt =====
-- The readers of arrays in gck-rpc-module.c, and the letters that they take off the signature of a response.
use pkcs11_proxy.Common.{
  ℕ, zero, suc, ◌≡◌, refl, sym, ◌∙◌, subst, Bool, true, false, Bool-cases, inl, inr, Option, none,
  some, List, [], ◌∷◌, ◌++◌, codes, ltb, ◌==◌, Outcome, done, ◌>>=◌,
}
use pkcs11_proxy.Pkcs11.{Attribute, ckr_ok}
use pkcs11_proxy.Buffer.{has_error, get_byte}
use pkcs11_proxy.Buffer.Ints.{get_uint32, get_uint64}
use pkcs11_proxy.Buffer.Arrays.{get_byte_array}
use pkcs11_proxy.Message.{Message, take_from, is_given}
use pkcs11_proxy.Message.Header.{SameHead, take_from-SameHead}
use pkcs11_proxy.Message.Read.{read_ulong}
use pkcs11_proxy.Message.Advance.{advanced}
use pkcs11_proxy.Message.Letters.{check_part_signed}
use pkcs11_proxy.Client.{Host}
use pkcs11_proxy.Client.Arrays.{
  Filled, byte_length, byte_values, bytes_by_validity, read_byte_array, or_old, read_ulongs,
  numbers_by_count, numbers_by_validity, read_ulong_array, Item, item_value, item_size, item_valid,
  wrong_length, read_item, items_step, read_items, attributes_code, attributes_read,
  attributes_by_count, read_attribute_array,
}
use pkcs11_proxy.Client.Gets.{Gets, same_head, SameHead-trans, checked-Gets, read_ulong-Gets}

-- The code is CKR_OK.
abbrev pub is_ok : {A : Type 0} → ℕ × A → Bool
is_ok (ret, a) = ret == ckr_ok

abbrev pub filled_ok : Filled → Bool
filled_ok (ret, arr, len) = ret == ckr_ok

module _ (arr : Option (List ℕ)) (max : ℕ) where
  byte_length-same : (r : Message × Option ℕ) → (byte_length arr max r).0 ≡ r.0
  byte_length-same (m, none) = refl
  byte_length-same (m, some n) = refl

  byte_values-same : (r : Message × Option (Option (List ℕ))) → (byte_values arr max r).0 ≡ r.0
  byte_values-same (m, none) = refl
  byte_values-same (m, some val) = refl

  bytes_by_validity-SameHead :
      (r : Message × Option ℕ) → SameHead r.0 (bytes_by_validity arr max r).0
  bytes_by_validity-SameHead (m, none) = same_head
  bytes_by_validity-SameHead (m, some valid) = elim (Bool-cases (valid == 0)) [
    | inl e ↦
        let h = take_from-SameHead m get_uint32 in
        rw e (subst (SameHead m) (sym (byte_length-same (take_from m get_uint32))) h)
    | inr e ↦
        let h = take_from-SameHead m get_byte_array in
        rw e (subst (SameHead m) (sym (byte_values-same (take_from m get_byte_array))) h)
  ]

  pub byte_array-Gets : Gets filled_ok (λ m. read_byte_array m arr max) (codes "ay")
  unfolding read_byte_array
  byte_array-Gets =
      checked-Gets "ay" (λ m. read_byte_array m arr max)
        (λ m. bytes_by_validity arr max (take_from m get_byte)) (λ msg m e. rw e refl)
        λ m.
          SameHead-trans (take_from-SameHead m get_byte)
            (bytes_by_validity-SameHead (take_from m get_byte))

module _ (host : Host) where
  read_ulongs-SameHead :
      (rounds i val : ℕ) (m : Message) (arr : Option (List ℕ))
      → SameHead m (read_ulongs host rounds i val m arr).0
  unfolding read_ulongs
  read_ulongs-SameHead zero i val m arr = same_head
  read_ulongs-SameHead (suc rounds) i val m arr =
      SameHead-trans (take_from-SameHead m get_uint64) (read_ulongs-SameHead rounds _ _ _ _)

  numbers_by_count-SameHead :
      (valid : ℕ) (arr : Option (List ℕ)) (max : ℕ) (r : Message × Option ℕ)
      → SameHead r.0 (numbers_by_count host valid arr max r).0
  numbers_by_count-SameHead valid arr max (m, none) = same_head
  numbers_by_count-SameHead valid arr max (m, some num) = elim (Bool-cases (valid == 0)) [
    | inl e ↦ rw e same_head
    | inr e ↦ elim (Bool-cases (ltb max num)) [
      | inl f ↦ rw (e, f) same_head
      | inr f ↦ rw (e, f) (read_ulongs-SameHead num 0 0 m arr)
    ]
  ]

  numbers_by_validity-SameHead :
      (arr : Option (List ℕ)) (max : ℕ) (r : Message × Option ℕ)
      → SameHead r.0 (numbers_by_validity host arr max r).0
  numbers_by_validity-SameHead arr max (m, none) = same_head
  numbers_by_validity-SameHead arr max (m, some valid) =
      SameHead-trans (take_from-SameHead m get_uint32)
        (numbers_by_count-SameHead valid arr max (take_from m get_uint32))

  pub ulong_array-Gets :
      (arr : Option (List ℕ)) (max : ℕ)
      → Gets filled_ok (λ m. read_ulong_array host m arr max) (codes "au")
  unfolding read_ulong_array
  ulong_array-Gets arr max =
      checked-Gets "au" (λ m. read_ulong_array host m arr max)
        (λ m. numbers_by_validity host arr max (take_from m get_byte)) (λ msg m e. rw e refl)
        λ m.
          SameHead-trans (take_from-SameHead m get_byte)
            (numbers_by_validity-SameHead arr max (take_from m get_byte))

  item_value-SameHead :
      (type size : ℕ) (r : Message × Option (Option (List ℕ)))
      → SameHead r.0 (item_value type size r).0
  item_value-SameHead type size (m, none) = same_head
  item_value-SameHead type size (m, some bytes) = elim (Bool-cases (wrong_length bytes size)) [
    | inl e ↦ rw e same_head
    | inr e ↦ rw e same_head
  ]

  item_size-SameHead : (type : ℕ) (r : Message × Option ℕ) → SameHead r.0 (item_size type r).0
  item_size-SameHead type (m, none) = same_head
  item_size-SameHead type (m, some size) =
      SameHead-trans (take_from-SameHead m get_byte_array)
        (item_value-SameHead type size (take_from m get_byte_array))

  item_valid-SameHead : (type : ℕ) (r : Message × Option ℕ) → SameHead r.0 (item_valid type r).0
  item_valid-SameHead type (m, validity) = elim (Bool-cases (or_old 0 validity == 0)) [
    | inl e ↦ rw e same_head
    | inr e ↦ rw e (
        SameHead-trans (take_from-SameHead m get_uint32)
          (item_size-SameHead type (take_from m get_uint32)))
  ]

  read_item-SameHead : (m : Message) → SameHead m (read_item m).0
  unfolding read_item
  read_item-SameHead m =
      let (m', type) = take_from m get_uint32 in
      SameHead-trans (take_from-SameHead m get_uint32) (
        SameHead-trans (take_from-SameHead m' get_byte)
          (item_valid-SameHead (or_old 0 type) (take_from m' get_byte)))

  items_step-SameHead :
      (next : Message → List Attribute → Message × List Attribute × Bool) (attrs : List Attribute)
      (r : Message × Option Item)
      → ((m : Message) (more : List Attribute) → SameHead m (next m more).0)
      → SameHead r.0 (items_step host next attrs r).0
  unfolding items_step
  items_step-SameHead next [] (m, none) keeps = same_head
  items_step-SameHead next (attr ∷ more) (m, none) keeps = same_head
  items_step-SameHead next [] (m, some item) keeps = elim (Bool-cases (has_error m.buffer)) [
    | inl e ↦ rw e same_head
    | inr e ↦ rw e (keeps m [])
  ]
  items_step-SameHead next (attr ∷ more) (m, some item) keeps =
      elim (Bool-cases (has_error m.buffer)) [
        | inl e ↦ rw e same_head
        | inr e ↦ elim (Bool-cases (attr.type == item.type)) [
          | inl f ↦ rw (e, f) (keeps m more)
          | inr f ↦ rw (e, f) same_head
        ]
      ]

  read_items-SameHead :
      (n : ℕ) (m : Message) (attrs : List Attribute) → SameHead m (read_items host n m attrs).0
  unfolding read_items
  read_items-SameHead zero m attrs = same_head
  read_items-SameHead (suc n) m attrs = SameHead-trans (read_item-SameHead m) (
      items_step-SameHead (read_items host n) attrs (read_item m)
        (λ m' more. read_items-SameHead n m' more))

  -- The code of an attribute array, with what is still to come behind it.
  abbrev Coded : List ℕ → List ℕ → Outcome (Message × (ℕ × List Attribute)) → Type 0
  Coded s rest out =
      (r : Message × (ℕ × List Attribute)) × (out ≡ done r)
      × (r.0.signature ≡ some s)
      × (is_ok r.1 ≡ true → r.0.sigverify ≡ some rest)

  code-Coded :
      (m : Message) (attrs : List Attribute) (s rest : List ℕ)
      → m.signature ≡ some s
      → m.sigverify ≡ some (codes "u" ++ rest)
      → Coded s rest (read_ulong m >>= λ r. done (attributes_code host attrs r))
  code-Coded m attrs s rest signed e =
      let ((m', o), p, signed', moved) = read_ulong-Gets.run m s rest signed e in
      rw p (answered m' o signed' moved)
    where
      answered :
          (m' : Message) (o : Option ℕ)
          → m'.signature ≡ some s
          → (is_given o ≡ true → m'.sigverify ≡ some rest)
          → Coded s rest (done (attributes_code host attrs (m', o)))
      answered m' none signed moved = (_, refl, signed, λ bad. absurd cc)
      answered m' (some v) signed moved = (_, refl, signed, λ ok. moved refl)

  read-Coded :
      (r : Message × List Attribute × Bool) (s rest : List ℕ)
      → r.0.signature ≡ some s
      → r.0.sigverify ≡ some (codes "u" ++ rest)
      → Coded s rest (attributes_read host r)
  read-Coded (m, attrs, false) s rest signed e = (_, refl, signed, λ bad. absurd cc)
  read-Coded (m, attrs, true) s rest signed e = elim (Bool-cases (has_error m.buffer)) [
    | inl f ↦ rw f (_, refl, signed, λ bad. absurd cc)
    | inr f ↦ rw f (code-Coded m attrs s rest signed e)
  ]

  count-Coded :
      (attrs : List Attribute) (len : ℕ) (r : Message × Option ℕ) (s rest : List ℕ)
      → r.0.signature ≡ some s
      → r.0.sigverify ≡ some (codes "u" ++ rest)
      → Coded s rest (attributes_by_count host attrs len r)
  count-Coded attrs len (m, none) s rest signed e = (_, refl, signed, λ bad. absurd cc)
  count-Coded attrs len (m, some num) s rest signed e = elim (Bool-cases (len == num)) [
    | inr f ↦ rw f (_, refl, signed, λ bad. absurd cc)
    | inl f ↦
        let head = read_items-SameHead num m attrs in
        rw f (
          read-Coded (read_items host num m attrs) s rest (head.signature ∙ signed)
            (head.sigverify ∙ e))
  ]

  pub attribute_array-Gets :
      (attrs : List Attribute) (len : ℕ)
      → Gets is_ok (λ m. read_attribute_array host m attrs len) (codes "aAu")
  unfolding read_attribute_array
  attribute_array-Gets attrs len = record {
    run = λ msg s rest signed e.
        let m = advanced msg (codes "u" ++ rest) in
        let head = take_from-SameHead m get_uint32 in
        rw (check_part_signed "aA" msg s (codes "u" ++ rest) signed e) (
          count-Coded attrs len (take_from m get_uint32) s rest (head.signature ∙ signed)
            head.sigverify);
  }
