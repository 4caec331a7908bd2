-- ===== src/Dispatch/Asked.antt =====
-- The readers of arguments in gck-rpc-dispatch.c take their letters off the request's signature. The
-- numbers of the machine have 64 bits.
use pkcs11_proxy.Common.{
  ℕ, zero, suc, ◌+◌, ◌≡◌, refl, sym, subst, Bool, not, ◌&&◌, Bool-cases, ◌⊎◌, inl, inr, replicate,
  Option, none, some, List, [], ◌∷◌, ◌++◌, codes, ltb, ◌==◌, arith,
}
use pkcs11_proxy.Util.{has_ulong_parameter}
use pkcs11_proxy.Message.Read.{read_byte, read_ulong}
use pkcs11_proxy.Buffer.{get_byte}
use pkcs11_proxy.Buffer.Ints.{get_uint32, get_uint64}
use pkcs11_proxy.Buffer.Arrays.{get_byte_array}
use pkcs11_proxy.Dispatch.{CallState, Handler, call_alloc, link_size}
use pkcs11_proxy.Dispatch.Proto.{
  Machine, in_byte, in_ulong, byte_array_by, in_byte_array, in_mechanism, with_block, alloc,
  alloc_if, in_byte_buffer, in_ulong_buffer, attribute_room, attribute_rooms, in_attribute_buffer,
  attribute_sized, attribute_by, attribute_item, attribute_items, attributes_of, in_attribute_array,
  in_space_string, parse_error, length_differs,
}
use pkcs11_proxy.Dispatch.Ensures.{
  Frame, AtWorld, Holds, Ensures, Ensures_bind, Ensures_then, pure-Ensures, goto_cleanup-Ensures,
  or_parse_error-Ensures, expect-Ensures, field-Ensures, read-Ensures, if-Ensures,
}

-- A part of a handler that takes the call from `q` in the request to `q'`.
abbrev pub Reads :
    {A : Type 0} → (S : Type 0) → Frame → List ℕ → List ℕ → List ℕ → Handler S A → Type 0
Reads S f r q q' h = Ensures (AtWorld f q r) h (λ _. AtWorld f q' r)

-- A block, or none and nothing has changed.
call_alloc-cases :
    (malloc : ℕ → Bool) (cs : CallState) (n : ℕ)
    → (call_alloc malloc cs n ≡ (cs, none))
      ⊎ (call_alloc malloc cs n
          ≡ (record cs { allocated = (link_size + n) ∷ cs.allocated }, some (replicate n 0xff)))
unfolding call_alloc
call_alloc-cases malloc cs n = elim (Bool-cases (ltb 0x7fff_ffff n)) [
  | inl long ↦ inl (rw long refl)
  | inr short ↦ elim (Bool-cases (malloc (link_size + n))) [
    | inl given ↦ inr (rw (short, given) refl)
    | inr refused ↦ inl (rw (short, refused) refl)
  ]
]

module _ {S : Type 0} {f : Frame} {r : List ℕ} where
  pub in_byte-Ensures : (q : List ℕ) → Reads S f r (codes "y" ++ q) q in_byte
  unfolding in_byte read_byte
  in_byte-Ensures q = Ensures_bind (read-Ensures "y" q get_byte) or_parse_error-Ensures

  pub in_ulong-Ensures : (q : List ℕ) → Reads S f r (codes "u" ++ q) q in_ulong
  unfolding in_ulong read_ulong
  in_ulong-Ensures q = Ensures_bind (read-Ensures "u" q get_uint64) or_parse_error-Ensures

  pub in_byte_array-Ensures : (q : List ℕ) → Reads S f r (codes "ay" ++ q) q in_byte_array
  unfolding in_byte_array byte_array_by
  in_byte_array-Ensures q = Ensures_then (expect-Ensures "ay" q) (
      Ensures_bind (field-Ensures get_byte) λ valid.
        if-Ensures (valid == 0) (Ensures_bind (field-Ensures get_uint32) λ n. pure-Ensures _)
          (Ensures_bind (field-Ensures get_byte_array) λ bytes. pure-Ensures _))

  pub in_mechanism-Ensures : (q : List ℕ) → Reads S f r (codes "M" ++ q) q in_mechanism
  unfolding in_mechanism
  in_mechanism-Ensures q = Ensures_then (expect-Ensures "M" q) (
      Ensures_bind (field-Ensures get_uint32)
        λ type. Ensures_bind (field-Ensures get_byte_array) λ bytes. pure-Ensures _)

  module _ (machine : Machine) where
    alloc-Ensures : {q : List ℕ} (n : ℕ) → Reads S f r q q (alloc machine n)
    unfolding alloc
    alloc-Ensures {q = q} n = record {
      run = λ w p. elim (call_alloc-cases machine.malloc w.cs n) [
        | inl e ↦
            subst (λ t. Holds (λ _. AtWorld f q r) (with_block w t)) (sym e) (λ bad. omega arith)
        | inr e ↦ subst (λ t. Holds (λ _. AtWorld f q r) (with_block w t)) (sym e) p
      ];
    }

    alloc_if-Ensures :
        {q : List ℕ} (wanted : Bool) (n : ℕ) → Reads S f r q q (alloc_if machine wanted n)
    unfolding alloc_if
    alloc_if-Ensures wanted n =
        if-Ensures wanted (Ensures_bind (alloc-Ensures n) λ block. pure-Ensures _) (pure-Ensures _)

    pub in_byte_buffer-Ensures :
        (q : List ℕ) → Reads S f r (codes "fy" ++ q) q (in_byte_buffer machine)
    unfolding in_byte_buffer
    in_byte_buffer-Ensures q = Ensures_then (expect-Ensures "fy" q) (
        Ensures_bind (field-Ensures get_byte) λ flags.
          Ensures_bind (field-Ensures get_uint32)
            λ length. Ensures_bind (alloc_if-Ensures _ length) λ block. pure-Ensures _)

    pub in_ulong_buffer-Ensures :
        (q : List ℕ) → Reads S f r (codes "fu" ++ q) q (in_ulong_buffer machine)
    unfolding in_ulong_buffer
    in_ulong_buffer-Ensures q = Ensures_then (expect-Ensures "fu" q) (
        Ensures_bind (field-Ensures get_uint32)
          λ length. Ensures_bind (alloc_if-Ensures _ _) λ block. pure-Ensures _)

    attribute_rooms-Ensures : {q : List ℕ} (n : ℕ) → Reads S f r q q (attribute_rooms machine n)
    unfolding attribute_rooms attribute_room
    attribute_rooms-Ensures zero = pure-Ensures []
    attribute_rooms-Ensures (suc n) =
        Ensures_bind
          (Ensures_bind (field-Ensures get_uint32) λ type.
            Ensures_bind (field-Ensures get_uint32)
              λ size. Ensures_bind (alloc_if-Ensures _ size) λ block. pure-Ensures _)
          λ attr. Ensures_bind (attribute_rooms-Ensures n) λ rest. pure-Ensures _

    pub in_attribute_buffer-Ensures :
        (q : List ℕ) → Reads S f r (codes "fA" ++ q) q (in_attribute_buffer machine)
    unfolding in_attribute_buffer
    in_attribute_buffer-Ensures q = Ensures_then (expect-Ensures "fA" q) (
        Ensures_bind (field-Ensures get_uint32) λ n.
          Ensures_bind (alloc-Ensures _)
            λ _. Ensures_bind (attribute_rooms-Ensures n) λ attrs. pure-Ensures _)

    pub in_space_string-Ensures :
        (n : ℕ) (q : List ℕ) → Reads S f r (codes "s" ++ q) q (in_space_string machine n)
    unfolding in_space_string
    in_space_string-Ensures n q = Ensures_then (expect-Ensures "s" q) (
        Ensures_bind (field-Ensures get_byte_array)
          λ bytes. Ensures_bind (alloc-Ensures _) λ _. pure-Ensures _)

    module _ (wide : machine.ulong_size ≡ 8) where
      -- Numbers of 64 bits are never narrowed.
      attribute_sized-Ensures :
          {q : List ℕ} (type size : ℕ) (bytes : Option (List ℕ))
          → Reads S f r q q (attribute_sized machine type size bytes)
      unfolding attribute_sized
      attribute_sized-Ensures type size bytes =
          if-Ensures (length_differs bytes size) (goto_cleanup-Ensures parse_error (omega arith))
            (elim (Bool-cases
              (size == 8 && (not (size == machine.ulong_size) && has_ulong_parameter type))) [
                | inl narrows ↦ absurd (ground (arith, wide))
                | inr keeps ↦ rw keeps (pure-Ensures _)
              ])

      attribute_items-Ensures : {q : List ℕ} (n : ℕ) → Reads S f r q q (attribute_items machine n)
      unfolding attribute_items attribute_item attribute_by
      attribute_items-Ensures zero = pure-Ensures []
      attribute_items-Ensures (suc n) =
          Ensures_bind
            (Ensures_bind (field-Ensures get_uint32) λ type.
              Ensures_bind (field-Ensures get_byte) λ valid.
                if-Ensures (valid == 0) (pure-Ensures _) (
                  Ensures_bind (field-Ensures get_uint32) λ size.
                    Ensures_bind (field-Ensures get_byte_array)
                      λ bytes. attribute_sized-Ensures type size bytes))
            λ attr. Ensures_bind (attribute_items-Ensures n) λ rest. pure-Ensures _

      pub in_attribute_array-Ensures :
          (q : List ℕ) → Reads S f r (codes "aA" ++ q) q (in_attribute_array machine)
      unfolding in_attribute_array attributes_of
      in_attribute_array-Ensures q = Ensures_then (expect-Ensures "aA" q) (
          Ensures_bind (field-Ensures get_uint32) λ n. if-Ensures (n == 0) (pure-Ensures _) (
            Ensures_bind (alloc-Ensures _)
              λ _. Ensures_bind (attribute_items-Ensures n) λ attrs. pure-Ensures _))
