-- ===== src/Client/Answers.antt =====
-- The OUT_ macros of gck-rpc-module.c and the letters that each takes off the signature of the response.
use pkcs11_proxy.Common.{
  ℕ, ◌≡◌, refl, sym, ap, ◌∙◌, subst, Bool, true, false, Bool-cases, inl, inr, Option, none, some,
  List, ◌++◌, codes, ◌==◌, if◌then◌else◌, Outcome, done, arith,
}
use pkcs11_proxy.Pkcs11.{Attribute, ckr_ok, ckr_arguments_bad}
use pkcs11_proxy.Util.Purge.{mechanism_list_purge_returns}
use pkcs11_proxy.Message.{Message, is_given}
use pkcs11_proxy.Message.Write.{items}
use pkcs11_proxy.Client.{Host}
use pkcs11_proxy.Client.Invariant.{Settled}
use pkcs11_proxy.Client.Caller.{pure}
use pkcs11_proxy.Client.Reading.{Reading}
use pkcs11_proxy.Client.Arrays.{read_byte_array, read_ulong_array}
use pkcs11_proxy.Client.Results.{
  of_list, on_resp, or_parse_error, stored, out_value, Stored, with_len, filled_by, purged,
  purged_by, out_byte_array, out_ulong, out_info, out_slot_info, out_token_info, out_mechanism_info,
  out_session_info, out_ulong_array, out_mechanism_type_array, out_attribute_array,
}
use pkcs11_proxy.Client.Dialog.{failed-Settled}
use pkcs11_proxy.Client.Gets.{
  Gets, ulong-Gets, info-Gets, slot_info-Gets, token_info-Gets, mechanism_info-Gets,
  session_info-Gets,
}
use pkcs11_proxy.Client.ArraySteps.{is_ok, byte_array-Gets, ulong_array-Gets, attribute_array-Gets}
use pkcs11_proxy.Client.Runs.{Runs, pure-Runs, on_resp-Runs}

-- What `good` says of an answer is what a code made of it says.
map-Gets :
    {A B : Type 0} {good : A → Bool} {read : Message → Outcome (Message × A)} {letters : List ℕ}
    (good' : B → Bool) (read' : Message → Outcome (Message × B)) (f : A → B)
    → Gets good read letters
    → ((msg m : Message) (a : A) → read msg ≡ done (m, a) → read' msg ≡ done (m, f a))
    → ((a : A) → good' (f a) ≡ true → good a ≡ true)
    → Gets good' read' letters
map-Gets good' read' f g step right = record {
  run = λ msg s rest signed e.
      let ((m, a), p, signed', moved) = g.run msg s rest signed e in
      ((m, f a), step msg m a p, signed', λ ok. moved (right a ok));
}

stored-Gets :
    {A : Type 0} {read : Reading A} {letters : List ℕ}
    → Gets is_given read letters
    → Gets is_ok (λ m. stored (read m)) letters
stored-Gets {A = A} {read = read} g =
    map-Gets is_ok (λ m. stored (read m)) or_parse_error g (λ msg m a e. rw e refl) right
  where
    right : (o : Option A) → is_ok (or_parse_error o) ≡ true → is_given o ≡ true
    right none h = cc
    right (some a) h = refl

-- The code is not changed by the purge.
purged_returns :
    (past : ℕ) (r : ℕ × Stored) → (out : ℕ × Stored) × (purged past r ≡ some out) × (out.0 ≡ r.0)
purged_returns past (ret, (none, len)) = (_, refl, refl)
purged_returns past (ret, (some arr, none)) = (_, refl, refl)
purged_returns past (ret, (some arr, some len)) = elim (Bool-cases (ret == ckr_ok)) [
  | inr bad ↦ ((ret, (some arr, some len)), rw bad refl, refl)
  | inl ok ↦
      let (list, e) = mechanism_list_purge_returns past arr len in
      (of_list ret list, rw (ok, e) refl, refl)
]

module _ {host : Host} {c : ℕ} (rest : List ℕ) where
  -- Results that are read unless there is an error already.
  unless-Runs :
      {A : Type 0} {read : Message → Outcome (Message × (ℕ × A))} {letters : List ℕ} (ret : ℕ)
      (a : A)
      → Gets is_ok read letters
      → Runs host c
          (Settled (letters ++ rest) ret)
          (if ret == ckr_ok then on_resp read else pure (ret, a))
          (λ r. Settled rest r.0)
  unless-Runs {read = read} {letters = letters} ret a g = elim (Bool-cases (ret == ckr_ok)) [
    | inl ok ↦
        let zero : ret ≡ ckr_ok = ground arith in
        rw ok (
          subst
            (λ (code : ℕ).
              Runs host c (Settled (letters ++ rest) code) (on_resp read) (λ r. Settled rest r.0))
            (sym zero) (on_resp-Runs rest (λ r. r.0) g (λ r e. rw e refl)))
    | inr bad ↦
        rw bad (pure-Runs (ret, a) λ cs h. failed-Settled rest ret cs h.begun (λ e. ground arith))
  ]

  -- A pointer that is NULL.
  null-Runs :
      {A : Type 0} {text : List ℕ} (ret : ℕ) (a : A)
      → Runs host c {A = ℕ × A}
          (Settled text ret)
          (pure (ckr_arguments_bad, a))
          (λ r. Settled rest r.0)
  null-Runs ret a =
      pure-Runs (ckr_arguments_bad, a)
        λ cs h. failed-Settled rest ckr_arguments_bad cs h.begun (λ e. cc)

  out_value-Runs :
      {A : Type 0} {read : Reading A} {letters : List ℕ} (given : Bool) (ret : ℕ)
      → Gets is_given read letters
      → Runs host c
          (Settled (letters ++ rest) ret)
          (out_value read given ret)
          (λ r. Settled rest r.0)
  unfolding out_value
  out_value-Runs false ret g = null-Runs ret none
  out_value-Runs true ret g = unless-Runs ret none (stored-Gets g)

  pub out_ulong-Runs :
      (given : Bool) (ret : ℕ)
      → Runs host c
          (Settled (codes "u" ++ rest) ret)
          (out_ulong host given ret)
          (λ r. Settled rest r.0)
  unfolding out_ulong
  out_ulong-Runs given ret = out_value-Runs given ret (ulong-Gets host)

  pub out_info-Runs :
      (given : Bool) (ret : ℕ)
      → Runs host c
          (Settled (codes "vsusv" ++ rest) ret)
          (out_info host given ret)
          (λ r. Settled rest r.0)
  unfolding out_info
  out_info-Runs given ret = out_value-Runs given ret (info-Gets host)

  pub out_slot_info-Runs :
      (given : Bool) (ret : ℕ)
      → Runs host c
          (Settled (codes "ssuvv" ++ rest) ret)
          (out_slot_info host given ret)
          (λ r. Settled rest r.0)
  unfolding out_slot_info
  out_slot_info-Runs given ret = out_value-Runs given ret (slot_info-Gets host)

  pub out_token_info-Runs :
      (given : Bool) (ret : ℕ)
      → Runs host c
          (Settled (codes "ssssuuuuuuuuuuuvvs" ++ rest) ret)
          (out_token_info host given ret)
          (λ r. Settled rest r.0)
  unfolding out_token_info
  out_token_info-Runs given ret = out_value-Runs given ret (token_info-Gets host)

  pub out_mechanism_info-Runs :
      (given : Bool) (ret : ℕ)
      → Runs host c
          (Settled (codes "uuu" ++ rest) ret)
          (out_mechanism_info host given ret)
          (λ r. Settled rest r.0)
  unfolding out_mechanism_info
  out_mechanism_info-Runs given ret = out_value-Runs given ret (mechanism_info-Gets host)

  pub out_session_info-Runs :
      (given : Bool) (ret : ℕ)
      → Runs host c
          (Settled (codes "uuuu" ++ rest) ret)
          (out_session_info host given ret)
          (λ r. Settled rest r.0)
  unfolding out_session_info
  out_session_info-Runs given ret = out_value-Runs given ret (session_info-Gets host)

  pub out_byte_array-Runs :
      (arr : Option (List ℕ)) (len : Option ℕ) (ret : ℕ)
      → Runs host c
          (Settled (codes "ay" ++ rest) ret)
          (out_byte_array arr len ret)
          (λ r. Settled rest r.0)
  unfolding out_byte_array
  out_byte_array-Runs arr none ret = null-Runs ret (arr, none)
  out_byte_array-Runs arr (some len) ret =
      unless-Runs ret (arr, some len)
        (map-Gets is_ok (λ m. filled_by (read_byte_array m arr len)) with_len
          (byte_array-Gets arr len) (λ msg m a e. rw e refl) (λ a h. h))

  pub out_ulong_array-Runs :
      (arr : Option (List ℕ)) (len : Option ℕ) (ret : ℕ)
      → Runs host c
          (Settled (codes "au" ++ rest) ret)
          (out_ulong_array host arr len ret)
          (λ r. Settled rest r.0)
  unfolding out_ulong_array
  out_ulong_array-Runs arr none ret = null-Runs ret (arr, none)
  out_ulong_array-Runs arr (some len) ret =
      unless-Runs ret (arr, some len)
        (map-Gets is_ok (λ m. filled_by (read_ulong_array host m arr len)) with_len
          (ulong_array-Gets host arr len) (λ msg m a e. rw e refl) (λ a h. h))

  pub out_mechanism_type_array-Runs :
      (arr : Option (List ℕ)) (len : Option ℕ) (ret : ℕ)
      → Runs host c
          (Settled (codes "au" ++ rest) ret)
          (out_mechanism_type_array host arr len ret)
          (λ r. Settled rest r.0)
  unfolding out_mechanism_type_array
  out_mechanism_type_array-Runs arr none ret = null-Runs ret (arr, none)
  out_mechanism_type_array-Runs arr (some len) ret =
      unless-Runs ret (arr, some len)
        (map-Gets is_ok
          (λ m. purged_by host.past_array (filled_by (read_ulong_array host m arr len)))
          (λ a. (purged_returns host.past_array (with_len a)).0) (ulong_array-Gets host arr len)
          (λ msg m a e.
            let (out, p, same) = purged_returns host.past_array (with_len a) in rw e (rw p refl))
          (λ a h.
            let (out, p, same) = purged_returns host.past_array (with_len a) in
            sym (ap (λ (ret : ℕ). ret == ckr_ok) same) ∙ h))

  pub out_attribute_array-Runs :
      (arr : Option (List Attribute)) (num ret : ℕ)
      → Runs host c
          (Settled (codes "aAu" ++ rest) ret)
          (out_attribute_array host arr num ret)
          (λ r. Settled rest r.0)
  unfolding out_attribute_array
  out_attribute_array-Runs arr num ret =
      unless-Runs ret (items arr) (attribute_array-Gets host (items arr) num)
