-- ===== src/Message/AttributeSteps.antt =====
-- The writer of attributes in gck-rpc-message.c: what an array of attributes is on the wire.
use pkcs11_proxy.Common.{
  ℕ, refl, Bool-cases, inl, inr, some, List, [], ◌∷◌, ◌++◌, take, codes, ltb, if◌then◌else◌, to_u32,
  All, arith,
}
use pkcs11_proxy.Pkcs11.{Attribute}
use pkcs11_proxy.Wire.{be32, array}
use pkcs11_proxy.Buffer.{Buffer}
use pkcs11_proxy.Buffer.Inv.{IsValid}
use pkcs11_proxy.Buffer.Wrote.{Wrote, Wrote-nothing, Wrote-seq}
use pkcs11_proxy.Buffer.Writers.{
  Sendable, add_byte-Writes, add_uint32-Writes, add_byte_array-Writes,
}
use pkcs11_proxy.Message.{Message}
use pkcs11_proxy.Message.Write.{
  is_invalid, attribute_value, add_attribute, add_attributes, write_attribute_array,
}
use pkcs11_proxy.Message.Advance.{Expects, put_all-Put}
use pkcs11_proxy.Message.WriteSteps.{Puts, byte_first, checked}

-- The value behind its length; an attribute that is not valid has no value.
abbrev pub value_bytes : ℕ → Attribute → List ℕ
value_bytes ulong_size attr =
    if is_invalid ulong_size attr.value_len
    then 0 ∷ []
    else 1 ∷ (be32 (to_u32 attr.value_len) ++ array (attribute_value ulong_size attr))

abbrev pub attributes_bytes : ℕ → List Attribute → List ℕ
attributes_bytes ulong_size [] = []
attributes_bytes ulong_size (attr ∷ rest) =
    (be32 (to_u32 attr.type) ++ value_bytes ulong_size attr) ++ attributes_bytes ulong_size rest

module _ (ulong_size : ℕ) where
  -- The values can be sent.
  abbrev pub AllSendable : List Attribute → Type 0
  AllSendable attrs = All (λ attr. Sendable (attribute_value ulong_size attr)) attrs

  add_attribute-Wrote :
      (b : Buffer) (attr : Attribute)
      → IsValid b
      → Sendable (attribute_value ulong_size attr)
      → Wrote b
          (be32 (to_u32 attr.type) ++ value_bytes ulong_size attr)
          (add_attribute ulong_size b attr)
  unfolding add_attribute
  add_attribute-Wrote b attr v h =
      let type = add_uint32-Writes (to_u32 attr.type) v in
      elim (Bool-cases (is_invalid ulong_size attr.value_len)) [
        | inl bad ↦ rw bad (
            Wrote-seq (be32 (to_u32 attr.type)) (0 ∷ []) v type.effect
              (add_byte-Writes 0 type.effect.valid (omega arith)).effect)
        | inr good ↦
            let valid = add_byte-Writes 1 type.effect.valid (omega arith) in
            let size = add_uint32-Writes (to_u32 attr.value_len) valid.effect.valid in
            let bytes =
              add_byte_array-Writes (attribute_value ulong_size attr) size.effect.valid h in
            rw good (
              Wrote-seq (be32 (to_u32 attr.type)) _ v type.effect (
                byte_first 1 _ type.effect.valid (omega arith) (
                  Wrote-seq (be32 (to_u32 attr.value_len)) (array (attribute_value ulong_size attr))
                    valid.effect.valid size.effect bytes.effect)))
      ]

  add_attributes-Wrote :
      (b : Buffer) (attrs : List Attribute)
      → IsValid b
      → AllSendable attrs
      → Wrote b (attributes_bytes ulong_size attrs) (add_attributes ulong_size b attrs)
  unfolding add_attributes
  add_attributes-Wrote b [] v h = Wrote-nothing v
  add_attributes-Wrote b (attr ∷ rest) v (this, others) =
      let first = add_attribute-Wrote b attr v this in
      Wrote-seq _ _ v first
        (add_attributes-Wrote (add_attribute ulong_size b attr) rest first.valid others)

  -- Where the signature goes on with the letters of attributes, the buffer is valid and the values can be
  -- sent, `gck_rpc_message_write_attribute_array` does not stop the process, takes the letters off the
  -- signature, and appends the number of attributes and for each its type, whether it is valid, and if so
  -- its length and its value, or counts a failure; all else in the message stays.
  pub write_attribute_array-Puts :
      (msg : Message) (rest : List ℕ) (attrs : List Attribute) (num : ℕ)
      → Expects msg (codes "aA" ++ rest)
      → AllSendable (take num attrs)
      → Puts msg rest
          (be32 (to_u32 num) ++ attributes_bytes ulong_size (take num attrs))
          (write_attribute_array ulong_size msg (some attrs) num)
  unfolding write_attribute_array
  write_attribute_array-Puts msg rest attrs num x h =
      let count = add_uint32-Writes (to_u32 num) x.valid in
      let steps = checked msg rest "aA" _ _ x (
        _,
        refl,
        put_all-Put msg rest _ _ (
            Wrote-seq (be32 (to_u32 num)) (attributes_bytes ulong_size (take num attrs)) x.valid
              count.effect (add_attributes-Wrote _ (take num attrs) count.effect.valid h)),
      ) in
      elim (Bool-cases (ltb 0 num)) [ inl e ↦ rw e steps | inr e ↦ rw e steps ]
