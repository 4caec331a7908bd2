-- ===== src/Client/Asks.antt =====
-- The IN_ macros of gck-rpc-module.c and the letters that each takes off the signature of the request.
use pkcs11_proxy.Common.{
  ℕ, ◌≡◌, refl, sym, ap, ◌∙◌, subst, true, false, not, ◌&&◌, Bool-cases, inl, inr, Option, none,
  some, List, ◌++◌, codes, ltb, ◌==◌, to_u32, done, arith,
}
use pkcs11_proxy.Pkcs11.{Attribute, Mechanism, ckr_ok, ckr_mechanism_invalid, ckr_arguments_bad}
use pkcs11_proxy.Util.{
  mechanism_is_supported, mechanism_has_no_parameters, mechanism_has_sane_parameters,
}
use pkcs11_proxy.Buffer.{Buffer}
use pkcs11_proxy.Buffer.Ints.{add_uint32}
use pkcs11_proxy.Message.{Message}
use pkcs11_proxy.Message.Write.{is_null}
use pkcs11_proxy.Message.Advance.{advanced}
use pkcs11_proxy.Message.Letters.{
  check_part_signed, byte-Writer, ulong-Writer, byte_array-Writer, byte_buffer-Writer,
  ulong_buffer-Writer, attribute_buffer-Writer, attributes-Writer, space_string-Writer,
}
use pkcs11_proxy.Client.{CallState, Host}
use pkcs11_proxy.Client.Invariant.{Building}
use pkcs11_proxy.Client.Course.{finished}
use pkcs11_proxy.Client.Caller.{code_of, on_result, on_message}
use pkcs11_proxy.Client.Proto.{
  in_byte, in_ulong, in_space_string, in_byte_buffer, in_byte_array, room_for, in_ulong_buffer2,
  in_ulong_buffer, in_attribute_buffer, in_attribute_array, in_mechanism_type, in_mechanism,
  add_parameter, add_mechanism, write_mechanism,
}
use pkcs11_proxy.Client.Runs.{
  Runs, Ran, goes, jumps, not_begun, on_req-Runs, goto_cleanup-Runs, or_arguments_bad-Runs,
}

-- What the macro asks of a pointer and its number is what the writer asserts.
no_null :
    {A : Type 0} (arr : Option A) (num : ℕ)
    → (not (num == 0) && is_null arr) ≡ false
    → (ltb 0 num && is_null arr) ≡ false
no_null none num h = ground arith
no_null (some a) num h = ground arith

-- The message behind proto_write_mechanism differs in its buffer.
add_parameter-same :
    (m : Message) (b : Buffer) (mech : Mechanism)
    → (add_parameter m b mech).0 ≡ record m { buffer = (add_parameter m b mech).0.buffer }
unfolding add_parameter
add_parameter-same m b mech = elim (Bool-cases (mechanism_has_no_parameters mech.mechanism)) [
  | inl e ↦ rw e refl
  | inr e ↦ elim (Bool-cases (mechanism_has_sane_parameters mech.mechanism)) [
    | inl f ↦ rw (e, f) refl
    | inr f ↦ rw (e, f) refl
  ]
]

module _ {host : Host} {c : ℕ} (rest : List ℕ) where
  pub in_byte-Runs :
      (val : ℕ) → Runs host c (Building c (codes "y" ++ rest)) (in_byte val) (λ _. Building c rest)
  unfolding in_byte
  in_byte-Runs val = on_req-Runs rest (byte-Writer val)

  pub in_ulong-Runs :
      (val : ℕ) → Runs host c (Building c (codes "u" ++ rest)) (in_ulong val) (λ _. Building c rest)
  unfolding in_ulong
  in_ulong-Runs val = on_req-Runs rest (ulong-Writer val)

  pub in_space_string-Runs :
      (val : List ℕ) (n : ℕ)
      → ltb 0 n ≡ true
      → Runs host c
          (Building c (codes "s" ++ rest))
          (in_space_string (some val) n)
          (λ _. Building c rest)
  unfolding in_space_string
  in_space_string-Runs val n h = on_req-Runs rest (space_string-Writer val n h)

  pub in_byte_buffer-Runs :
      (arr : Option (List ℕ)) (len : Option ℕ)
      → Runs host c
          (Building c (codes "fy" ++ rest))
          (in_byte_buffer arr len)
          (λ _. Building c rest)
  unfolding in_byte_buffer
  in_byte_buffer-Runs arr len = on_req-Runs rest (byte_buffer-Writer (is_null arr) len)

  pub in_byte_array-Runs :
      (arr : Option (List ℕ)) (len : ℕ)
      → Runs host c (Building c (codes "ay" ++ rest)) (in_byte_array arr len) (λ _. Building c rest)
  unfolding in_byte_array
  in_byte_array-Runs arr len =
      or_arguments_bad-Runs _ λ h. on_req-Runs rest (byte_array-Writer arr len)

  pub in_ulong_buffer2-Runs :
      (arr : Option (List ℕ)) (len : ℕ)
      → Runs host c
          (Building c (codes "fu" ++ rest))
          (in_ulong_buffer2 arr len)
          (λ _. Building c rest)
  unfolding in_ulong_buffer2
  in_ulong_buffer2-Runs arr len = on_req-Runs rest (ulong_buffer-Writer (room_for arr len))

  pub in_ulong_buffer-Runs :
      (arr : Option (List ℕ)) (len : Option ℕ)
      → Runs host c
          (Building c (codes "fu" ++ rest))
          (in_ulong_buffer arr len)
          (λ _. Building c rest)
  unfolding in_ulong_buffer
  in_ulong_buffer-Runs arr none = goto_cleanup-Runs ckr_arguments_bad (λ e. cc)
  in_ulong_buffer-Runs arr (some len) = in_ulong_buffer2-Runs arr len

  pub in_attribute_buffer-Runs :
      (arr : Option (List Attribute)) (num : ℕ)
      → Runs host c
          (Building c (codes "fA" ++ rest))
          (in_attribute_buffer arr num)
          (λ _. Building c rest)
  unfolding in_attribute_buffer
  in_attribute_buffer-Runs arr num =
      or_arguments_bad-Runs _
        λ h. on_req-Runs rest (attribute_buffer-Writer arr num (no_null arr num h))

  pub in_attribute_array-Runs :
      (arr : Option (List Attribute)) (num : ℕ)
      → Runs host c
          (Building c (codes "aA" ++ rest))
          (in_attribute_array host arr num)
          (λ _. Building c rest)
  unfolding in_attribute_array
  in_attribute_array-Runs arr num =
      or_arguments_bad-Runs _
        λ h. on_req-Runs rest (attributes-Writer host.ulong_size arr num (no_null arr num h))

  pub in_mechanism_type-Runs :
      (val : ℕ)
      → Runs host c (Building c (codes "u" ++ rest)) (in_mechanism_type val) (λ _. Building c rest)
  unfolding in_mechanism_type
  in_mechanism_type-Runs val = elim (Bool-cases (mechanism_is_supported val)) [
    | inl e ↦ rw e (on_req-Runs rest (ulong-Writer val))
    | inr e ↦ rw e (goto_cleanup-Runs ckr_mechanism_invalid (λ f. cc))
  ]

  -- The message with the mechanism, or a code that is an error.
  mechanism_written :
      (cs : CallState) (b : Building c (codes "M" ++ rest) cs) (buffer : Buffer) (ret : ℕ)
      → Ran host c
          (λ _. Building c rest)
          (finished (code_of cs (record (advanced b.request rest) { buffer = buffer }, ret)))
  mechanism_written cs b buffer ret = elim (Bool-cases (ret == ckr_ok)) [
    | inl ok ↦ rw ok (
        goes
          (record {
            status = b.status;
            connection = b.connection;
            connected = b.connected;
            request = record (advanced b.request rest) { buffer = buffer };
            given = refl;
            id = b.id;
            signature = b.signature;
            signed = b.signed;
            rest = refl;
          })
          refl)
    | inr bad ↦ rw bad (jumps (λ e. ground arith) (not_begun b) refl)
  ]

  mechanism_message :
      (mech : Mechanism) (cs : CallState) (b : Building c (codes "M" ++ rest) cs)
      (o : Option Message)
      → o ≡ some b.request
      → Ran host c (λ _. Building c rest) (on_message (λ m. write_mechanism m mech) (code_of cs) o)
  unfolding write_mechanism
  mechanism_message mech cs b o e =
      let m = advanced b.request rest in
      let r = add_parameter m (add_uint32 m.buffer (to_u32 mech.mechanism)).0 mech in
      let same : r ≡ (record m { buffer = r.0.buffer }, r.1) =
        ap (λ (x : Message). (x, r.1)) (add_parameter-same m _ mech) in
      let written : write_mechanism b.request mech ≡ done r =
        ap (add_mechanism mech)
          (check_part_signed "M" b.request b.signature rest b.signed b.rest) in
      rw e (
        subst (λ out. Ran host c (λ _. Building c rest) (on_result (code_of cs) out))
          (sym (written ∙ ap done same)) (mechanism_written cs b r.0.buffer r.1))

  pub in_mechanism-Runs :
      (mech : Option Mechanism)
      → Runs host c (Building c (codes "M" ++ rest)) (in_mechanism mech) (λ _. Building c rest)
  unfolding in_mechanism
  in_mechanism-Runs none = goto_cleanup-Runs ckr_arguments_bad (λ e. cc)
  in_mechanism-Runs (some mech) = record {
    run = λ cs b. mechanism_message mech cs b cs.req b.given;
  }
