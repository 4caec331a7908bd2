-- ===== src/Util.antt =====
-- gck-rpc-util.c: which mechanisms and attributes the proxy knows, and the host and port of an address.
pub mod Purge
pub mod HostPort
use pkcs11_proxy.Common.{
  ℕ, zero, suc, ◌+◌, ◌-◌, Bool, true, false, not, ◌||◌, ◌&&◌, Option, none, some, List, [], ◌∷◌,
  drop, take, get_or, ltb, ◌==◌, if◌then◌else◌,
}
use pkcs11_proxy.Pkcs11.{Attribute}

-- The `case` labels of a `switch` that answers 1 for them and 0 for all else.
unfoldable pub is_one_of : ℕ → List ℕ → Bool
is_one_of x [] = false
is_one_of x (y ∷ ys) = x == y || is_one_of x ys

-- CKM_RSA_PKCS_OAEP, CKM_RSA_PKCS_PSS, CKM_AES_CBC_PAD
abbrev pub sane_mechanisms : List ℕ
sane_mechanisms = 9 ∷ 0xd ∷ 0x1085 ∷ []

-- CKM_RSA_PKCS_KEY_PAIR_GEN, CKM_RSA_X9_31_KEY_PAIR_GEN, CKM_RSA_PKCS, … in the order of the source
abbrev pub plain_mechanisms : List ℕ
plain_mechanisms =
    0 ∷ 0xa ∷ 1 ∷ 2 ∷ 3 ∷ 0xb ∷ 4 ∷ 5 ∷ 6 ∷ 0x40 ∷ 0x41 ∷ 0x42 ∷ 7 ∷ 8 ∷ 0xc ∷ 0x10 ∷ 0x2000 ∷ 0x11
    ∷ 0x12 ∷ 0x1020 ∷ 0x1040 ∷ 0x1041 ∷ 0x1042 ∷ 0x20 ∷ 0x2001 ∷ 0x30 ∷ 0x2002 ∷ 0x1010 ∷ 0x350
    ∷ 0x100 ∷ 0x110 ∷ 0x111 ∷ 0x330 ∷ 0x1080 ∷ 0x1081 ∷ 0x1083 ∷ 0x120 ∷ 0x130 ∷ 0x131 ∷ 0x140
    ∷ 0x300 ∷ 0x310 ∷ 0x320 ∷ 0x340 ∷ 0x370 ∷ 0x374 ∷ 0x1000 ∷ 0x1030 ∷ 0x1060 ∷ 0x101 ∷ 0x121
    ∷ 0x132 ∷ 0x141 ∷ 0x301 ∷ 0x311 ∷ 0x321 ∷ 0x331 ∷ 0x341 ∷ 0x103 ∷ 0x123 ∷ 0x134 ∷ 0x143 ∷ 0x303
    ∷ 0x313 ∷ 0x333 ∷ 0x343 ∷ 0x380 ∷ 0x381 ∷ 0x1008 ∷ 0x1036 ∷ 0x1065 ∷ 0x200 ∷ 0x201 ∷ 0x210
    ∷ 0x211 ∷ 0x220 ∷ 0x221 ∷ 0x250 ∷ 0x251 ∷ 0x260 ∷ 0x261 ∷ 0x270 ∷ 0x271 ∷ 0x1070 ∷ 0x230 ∷ 0x231
    ∷ 0x240 ∷ 0x241 ∷ 0x400 ∷ []

-- CKA_CLASS, CKA_KEY_TYPE, CKA_CERTIFICATE_TYPE, CKA_HW_FEATURE_TYPE, CKA_MODULUS_BITS
abbrev pub ulong_attributes : List ℕ
ulong_attributes = 0 ∷ 0x100 ∷ 0x80 ∷ 0x300 ∷ 0x121 ∷ []

unfoldable pub mechanism_has_sane_parameters : ℕ → Bool
mechanism_has_sane_parameters type = is_one_of type sane_mechanisms

unfoldable pub mechanism_has_no_parameters : ℕ → Bool
mechanism_has_no_parameters mech = is_one_of mech plain_mechanisms

unfoldable pub mechanism_is_supported : ℕ → Bool
mechanism_is_supported mech = mechanism_has_no_parameters mech || mechanism_has_sane_parameters mech

unfoldable pub has_ulong_parameter : ℕ → Bool
has_ulong_parameter type = is_one_of type ulong_attributes

-- `ulong_size` is `sizeof (CK_ULONG)` of the platform; `sizeof (uint64_t)` is 8.
unfoldable pub has_bad_sized_ulong_parameter : ℕ → Attribute → Bool
has_bad_sized_ulong_parameter ulong_size attr = elim attr.value [
  | none ↦ false
  | some _ ↦
      if not (8 == attr.value_len)
      then false
      else if ulong_size == attr.value_len
      then false
      else has_ulong_parameter attr.type
]
