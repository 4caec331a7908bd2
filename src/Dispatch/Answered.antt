-- ===== src/Dispatch/Answered.antt =====
-- The writers of results in gck-rpc-dispatch.c take their letters off the response's signature.
use pkcs11_proxy.Common.{
  ℕ, ◌≡◌, refl, ◌∙◌, ◌≢◌, Bool, true, false, Bool-cases, inl, inr, Option, List, [], ◌++◌, codes,
  ◌==◌, if◌then◌else◌, Outcome, arith,
}
use pkcs11_proxy.Pkcs11.{Attribute, Info, SlotInfo, TokenInfo, MechanismInfo, SessionInfo, ckr_ok}
use pkcs11_proxy.Message.{Message}
use pkcs11_proxy.Dispatch.{World, Handler, pure, on_resp}
use pkcs11_proxy.Dispatch.Proto.{Machine, prep_error}
use pkcs11_proxy.Dispatch.Results.{
  respond, out_ulong, out_byte_array, out_ulong_array, out_attribute_array, out_info, out_slot_info,
  out_token_info, out_mechanism_info, out_session_info,
}
use pkcs11_proxy.Dispatch.Ensures.{Frame, AtWorld, Holds, Ensures, Ensures_bind}
use pkcs11_proxy.Message.Letters.{
  Writer, ulong-Writer, byte_array-Writer, ulong_array-Writer, version-Writer, space_string-Writer,
  attribute_array-Writer,
}
use pkcs11_proxy.Dispatch.Letters.{in_turn_nil, in_turn_cons}

-- A call by its number and its two signatures.
abbrev pub frame : ℕ → List ℕ → List ℕ → Frame
frame id asked answered = record { id = id; asked = asked; answered = answered }

module _ {S : Type 0} where
  -- What a handler has to show for the answer `ret`.
  abbrev pub WhenOk : Frame → List ℕ → ℕ → World S → Type 0
  WhenOk f r ret w = ret ≡ ckr_ok → AtWorld f [] r w

  on_resp-Ensures :
      {f : Frame} {write : Message → Outcome (Message × Bool)} (letters r : List ℕ)
      → Writer write letters
      → Ensures
          (AtWorld f [] (letters ++ r))
          (on_resp write)
          (λ ok (w : World S). ok ≡ true → AtWorld f [] r w)
  unfolding on_resp
  on_resp-Ensures {f = f} letters r g = record {
    run = λ w p.
        let a = g.run w.cs.resp f.answered r p.resp_signature p.resp_rest in
        rw (a.returned, Holds)
          (λ ok. record {
            req_id = p.req_id;
            req_signature = p.req_signature;
            req_rest = p.req_rest;
            resp_id = a.same_id ∙ p.resp_id;
            resp_type = a.same_type ∙ p.resp_type;
            resp_signature = a.same_signature ∙ p.resp_signature;
            resp_rest = a.moved ok;
          });
  }

  prep_error_unless :
      {f : Frame} {r : List ℕ} (ret : ℕ) (ok : Bool)
      → Ensures
          (λ w. ok ≡ true → AtWorld f [] r w)
          (pure (if ok then ret else prep_error))
          (WhenOk f r)
  unfolding pure
  prep_error_unless ret true = record { run = λ w q _. q refl }
  prep_error_unless ret false = record { run = λ w q bad. absurd (omega arith) }

  pub respond-Ensures :
      {f : Frame} {write : Message → Outcome (Message × Bool)} (letters r : List ℕ) (ret : ℕ)
      → Writer write letters
      → Ensures (AtWorld f [] (letters ++ r)) (respond write ret) (WhenOk f r)
  unfolding respond
  respond-Ensures letters r ret g =
      Ensures_bind (on_resp-Ensures letters r g) (prep_error_unless ret)

  -- An error goes on as it is.
  refused-Ensures :
      {f : Frame} {P : World S → Type 0} (r : List ℕ) (ret : ℕ)
      → ret ≢ ckr_ok
      → Ensures P (pure ret) (WhenOk f r)
  unfolding pure
  refused-Ensures r ret bad = record { run = λ w p e. absurd (bad e) }

  answer_if :
      {f : Frame} {P : World S → Type 0} {h : Handler S ℕ} (r : List ℕ) (ret : ℕ) (test : Bool)
      → (test ≡ false → ret ≢ ckr_ok)
      → Ensures P h (WhenOk f r)
      → Ensures P (if test then h else pure ret) (WhenOk f r)
  answer_if r ret true bad e = e
  answer_if r ret false bad e = refused-Ensures r ret (bad refl)

  module _ {f : Frame} (r : List ℕ) (ret : ℕ) where
    -- A handler without results.
    pub pure_ret-Ensures : Ensures (AtWorld {S = S} f [] r) (pure ret) (WhenOk f r)
    unfolding pure
    pure_ret-Ensures = record { run = λ w p e. p }

    pub out_ulong-Ensures :
        (val : ℕ) → Ensures (AtWorld {S = S} f [] (codes "u" ++ r)) (out_ulong val ret) (WhenOk f r)
    unfolding out_ulong
    out_ulong-Ensures val =
        answer_if r ret _ (λ e bad. ground arith)
          (respond-Ensures (codes "u") r ret (ulong-Writer val))

    -- A result behind another one.
    pub out_ulong_next-Ensures :
        (val : ℕ) → Ensures (WhenOk f (codes "u" ++ r) ret) (out_ulong val ret) (WhenOk f r)
    unfolding out_ulong
    out_ulong_next-Ensures val = elim (Bool-cases (ret == ckr_ok)) [
      | inl ok ↦
          let is_ok : ret ≡ ckr_ok = ground arith in
          let written = respond-Ensures {f = f} (codes "u") r ret (ulong-Writer val) in
          rw ok (record { run = λ w p. written.run w (p is_ok) })
      | inr bad ↦ rw bad (refused-Ensures r ret (λ e. ground arith))
    ]

    pub out_byte_array-Ensures :
        (array : Option (List ℕ)) (len : Option ℕ)
        → Ensures
            (AtWorld {S = S} f [] (codes "ay" ++ r))
            (out_byte_array array len ret)
            (WhenOk f r)
    unfolding out_byte_array
    out_byte_array-Ensures array len =
        answer_if r ret _ (λ e bad. ground arith)
          (respond-Ensures (codes "ay") r ckr_ok (byte_array-Writer _ _))

    pub out_ulong_array-Ensures :
        (array : Option (List ℕ)) (len : ℕ)
        → Ensures
            (AtWorld {S = S} f [] (codes "au" ++ r))
            (out_ulong_array array len ret)
            (WhenOk f r)
    unfolding out_ulong_array
    out_ulong_array-Ensures array len =
        answer_if r ret _ (λ e bad. ground arith)
          (respond-Ensures (codes "au") r ckr_ok (ulong_array-Writer _ _))

    pub out_attribute_array-Ensures :
        (machine : Machine) (attrs : List Attribute) (len : ℕ)
        → Ensures
            (AtWorld {S = S} f [] (codes "aAu" ++ r))
            (out_attribute_array machine attrs len ret)
            (WhenOk f r)
    unfolding out_attribute_array
    out_attribute_array-Ensures machine attrs len =
        answer_if r ret _ (λ e bad. ground arith)
          (respond-Ensures (codes "aAu") r ckr_ok (
            in_turn_cons _ (attribute_array-Writer _ attrs len)
              (in_turn_cons _ (ulong-Writer ret) in_turn_nil)))

    pub out_info-Ensures :
        (info : Info)
        → Ensures (AtWorld {S = S} f [] (codes "vsusv" ++ r)) (out_info info ret) (WhenOk f r)
    unfolding out_info
    out_info-Ensures info =
        answer_if r ret _ (λ e bad. ground arith)
          (respond-Ensures (codes "vsusv") r ckr_ok (
            in_turn_cons _ (version-Writer _) (
              in_turn_cons _ (space_string-Writer _ _ refl) (
                in_turn_cons _ (ulong-Writer _) (
                  in_turn_cons _ (space_string-Writer _ _ refl)
                    (in_turn_cons _ (version-Writer _) in_turn_nil))))))

    pub out_slot_info-Ensures :
        (info : SlotInfo)
        → Ensures (AtWorld {S = S} f [] (codes "ssuvv" ++ r)) (out_slot_info info ret) (WhenOk f r)
    unfolding out_slot_info
    out_slot_info-Ensures info =
        answer_if r ret _ (λ e bad. ground arith)
          (respond-Ensures (codes "ssuvv") r ckr_ok (
            in_turn_cons _ (space_string-Writer _ _ refl) (
              in_turn_cons _ (space_string-Writer _ _ refl) (
                in_turn_cons _ (ulong-Writer _) (
                  in_turn_cons _ (version-Writer _)
                    (in_turn_cons _ (version-Writer _) in_turn_nil))))))

    pub out_token_info-Ensures :
        (info : TokenInfo)
        → Ensures
            (AtWorld {S = S} f [] (codes "ssssuuuuuuuuuuuvvs" ++ r))
            (out_token_info info ret)
            (WhenOk f r)
    unfolding out_token_info
    out_token_info-Ensures info =
        answer_if r ret _ (λ e bad. ground arith)
          (respond-Ensures (codes "ssssuuuuuuuuuuuvvs") r ckr_ok (
            in_turn_cons _ (space_string-Writer _ _ refl) (
              in_turn_cons _ (space_string-Writer _ _ refl) (
                in_turn_cons _ (space_string-Writer _ _ refl) (
                  in_turn_cons _ (space_string-Writer _ _ refl) (
                    in_turn_cons _ (ulong-Writer _) (
                      in_turn_cons _ (ulong-Writer _) (
                        in_turn_cons _ (ulong-Writer _) (
                          in_turn_cons _ (ulong-Writer _) (
                            in_turn_cons _ (ulong-Writer _) (
                              in_turn_cons _ (ulong-Writer _) (
                                in_turn_cons _ (ulong-Writer _) (
                                  in_turn_cons _ (ulong-Writer _) (
                                    in_turn_cons _ (ulong-Writer _) (
                                      in_turn_cons _ (ulong-Writer _) (
                                        in_turn_cons _ (ulong-Writer _) (
                                          in_turn_cons _ (version-Writer _) (
                                            in_turn_cons _ (version-Writer _) (
                                              in_turn_cons _ (space_string-Writer _ _ refl)
                                                in_turn_nil)))))))))))))))))))

    pub out_mechanism_info-Ensures :
        (info : MechanismInfo)
        → Ensures
            (AtWorld {S = S} f [] (codes "uuu" ++ r))
            (out_mechanism_info info ret)
            (WhenOk f r)
    unfolding out_mechanism_info
    out_mechanism_info-Ensures info =
        answer_if r ret _ (λ e bad. ground arith)
          (respond-Ensures (codes "uuu") r ckr_ok (
            in_turn_cons _ (ulong-Writer _)
              (in_turn_cons _ (ulong-Writer _) (in_turn_cons _ (ulong-Writer _) in_turn_nil))))

    pub out_session_info-Ensures :
        (info : SessionInfo)
        → Ensures
            (AtWorld {S = S} f [] (codes "uuuu" ++ r))
            (out_session_info info ret)
            (WhenOk f r)
    unfolding out_session_info
    out_session_info-Ensures info =
        answer_if r ret _ (λ e bad. ground arith)
          (respond-Ensures (codes "uuuu") r ckr_ok (
            in_turn_cons _ (ulong-Writer _) (
              in_turn_cons _ (ulong-Writer _)
                (in_turn_cons _ (ulong-Writer _) (in_turn_cons _ (ulong-Writer _) in_turn_nil)))))

-- The handler reads exactly its request, and an OK answer comes with exactly its response: nothing stops
-- the process, and each other answer is an error.
abbrev pub Completes : {S : Type 0} → ℕ → List ℕ → List ℕ → Handler S ℕ → Type 0
Completes id asked answered h =
    Ensures (AtWorld (frame id asked answered) asked answered) h
      (WhenOk (frame id asked answered) [])
