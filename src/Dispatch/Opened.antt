-- ===== src/Dispatch/Opened.antt =====
-- The steps of gck-rpc-dispatch.c that work on the sessions of a connection leave its messages alone.
use pkcs11_proxy.Common.{
  ℕ, ◌≡◌, refl, Bool, not, Bool-cases, Option-cases, inl, inr, some, List, [], ◌∷◌, ◌==◌, done,
  arith,
}
use pkcs11_proxy.Pkcs11.{SlotInfo, ckr_ok}
use pkcs11_proxy.Dispatch.{SessionState}
use pkcs11_proxy.Dispatch.Proto.{Machine}
use pkcs11_proxy.Dispatch.Library.{Reply, FunctionList, run_module}
use pkcs11_proxy.Dispatch.Sessions.{remember, close_by, close_chosen, is_free, is_of_slot, is_gone}
use pkcs11_proxy.Dispatch.Calls.Slots.{rpc_finalize}
use pkcs11_proxy.Dispatch.Calls.Sessions.{
  store_session, drop_session, check_slot, close_slot, or_cleanup,
}
use pkcs11_proxy.Dispatch.Ensures.{
  Frame, AtWorld, Holds, Ensures, Ensures_bind, pure-Ensures, goto_cleanup-Ensures,
}
use pkcs11_proxy.Dispatch.Answered.{WhenOk}

-- The two functions that are called without a look at their pointers are there.
pub record IsPresent {S : Type 0} (lib : FunctionList S) : Type 0 where
  pub slot_info : ℕ → Reply S SlotInfo
  pub slot_info_there : lib.get_slot_info ≡ some slot_info
  pub close : ℕ → Reply S (Unit {0})
  pub close_there : lib.close_session ≡ some close

-- A loop over the sessions ends: the module's function is there.
pub close_chosen_returns :
    {S : Type 0} (close : ℕ → Reply S (Unit {0})) (chosen : SessionState → Bool)
    (forgets : ℕ → Bool) (xs : List SessionState) (s : S)
    → (r : List SessionState × S × ℕ) × (close_chosen (some close) chosen forgets xs s ≡ done r)
unfolding close_chosen close_by
close_chosen_returns close chosen forgets [] s = (_, refl)
close_chosen_returns close chosen forgets (x ∷ xs) s = elim (Bool-cases (chosen x)) [
  | inr skipped ↦
      let (r, e) = close_chosen_returns close chosen forgets xs s in rw (skipped, e) (_, refl)
  | inl picked ↦
      let answer = close x.id s in
      elim (Bool-cases (answer.1 == ckr_ok)) [
        | inl closed ↦
            let (r, e) = close_chosen_returns close chosen forgets xs answer.0 in
            rw (picked, closed, e) (_, refl)
        | inr failed ↦ rw (picked, failed) (_, refl)
      ]
]

module _ {S : Type 0} where
  module _ {f : Frame} {q r : List ℕ} where
    pub store_session-Ensures :
        (session slot_id : ℕ)
        → Ensures (AtWorld {S = S} f q r) (store_session session slot_id) (λ _. AtWorld f q r)
    unfolding store_session
    store_session-Ensures session slot_id = record {
      run = λ w p.
          elim (Option-cases (remember (record { id = session; slot = slot_id }) w.cs.sessions)) [
            | inl full ↦ rw (full, Holds) (λ bad. omega arith)
            | inr (xs, stored) ↦ rw (stored, Holds) p
          ];
    }

    pub drop_session-Ensures :
        (session : ℕ) → Ensures (AtWorld {S = S} f q r) (drop_session session) (λ _. AtWorld f q r)
    unfolding drop_session
    drop_session-Ensures session = record { run = λ w p. p }

    or_cleanup-Ensures :
        (ret : ℕ) → Ensures (AtWorld f q r) (or_cleanup {S = S} ret) (λ _. AtWorld f q r)
    unfolding or_cleanup
    or_cleanup-Ensures ret = elim (Bool-cases (ret == ckr_ok)) [
      | inl ok ↦ rw ok (pure-Ensures tt)
      | inr bad ↦ rw bad (goto_cleanup-Ensures ret (λ e. ground arith))
    ]

  module _ (lib : FunctionList S) (present : IsPresent lib) where
    pub check_slot-Ensures :
        {f : Frame} {q r : List ℕ} (slot_id : ℕ)
        → Ensures (AtWorld f q r) (check_slot lib slot_id) (λ _. AtWorld f q r)
    unfolding check_slot run_module
    check_slot-Ensures slot_id = record {
      run = λ w p.
          rw (present.slot_info_there, Holds)
            ((Ensures_bind (record { run = λ w' p'. p' }) λ (ret, _). or_cleanup-Ensures ret).run w
              p);
    }

    pub close_slot-Ensures :
        {f : Frame} {r : List ℕ} (slot_id : ℕ)
        → Ensures (AtWorld f [] r) (close_slot lib slot_id) (WhenOk f r)
    unfolding close_slot
    close_slot-Ensures slot_id = record {
      run = λ w p.
          let (done_with, e) =
            close_chosen_returns present.close (is_of_slot slot_id) is_gone w.cs.sessions
              w.module_state in
          rw (present.close_there, e, Holds) (λ _. p);
    }

    pub finalize-Ensures :
        (machine : Machine) {f : Frame} {r : List ℕ}
        → Ensures (AtWorld f [] r) (rpc_finalize machine lib) (WhenOk f r)
    unfolding rpc_finalize
    finalize-Ensures machine = record {
      run = λ w p.
          let (done_with, e) =
            close_chosen_returns present.close (λ x. not (is_free x)) (λ ret. ret == ckr_ok)
              w.cs.sessions w.module_state in
          rw (present.close_there, e, Holds) (λ _. p);
    }
