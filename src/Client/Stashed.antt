-- ===== src/Client/Stashed.antt =====
-- call_done of gck-rpc-module.c takes a state that is fit for it, and leaves a pool in order.
use pkcs11_proxy.Common.{
  ℕ, ◌+◌, ◌≡◌, ◌≢◌, refl, ap, ◌∙◌, true, false, not, ◌&&◌, Bool-cases, inl, inr, Option, none, some,
  [], ◌∷◌, ltb, ltb→lt, ◌==◌, done, arith,
}
use pkcs11_proxy.Pkcs11.{ckr_ok, ckr_device_error, ckr_device_removed}
use pkcs11_proxy.Message.{Message, buffer_error, is_verified, is_given}
use pkcs11_proxy.Client.{
  CallStatus, call_invalid, call_ready, call_prep, call_transit, call_parse, CallState, Module,
  Socket, max_call_state_pool,
}
use pkcs11_proxy.Client.Session.{same_status, checked_messages, final_code, stash, call_done}
use pkcs11_proxy.Client.Invariant.{IsPool, Settled, SameGlobals, same_globals}

checked-Settled :
    (req resp : Option Message) (cs : CallState) (ret : ℕ)
    → cs.resp ≡ resp
    → Settled [] ret cs
    → (out : ℕ) × (checked_messages req resp ret ≡ done out)
unfolding is_verified
checked-Settled none resp cs ret e h = (_, refl)
checked-Settled (some req) none cs ret e h = (_, refl)
checked-Settled (some req) (some resp) cs ret e h = elim (Bool-cases (ret == ckr_ok)) [
  | inr bad ↦ rw bad (_, refl)
  | inl good ↦ elim (Bool-cases (buffer_error resp)) [
    | inl f ↦ rw (good, f) (_, refl)
    | inr f ↦
        let ok : ret ≡ ckr_ok = ground arith in
        let same : resp ≡ h.response ok = cc (h.given ok) in
        let rest : resp.sigverify ≡ some [] = ap (λ (m : Message). m.sigverify) same ∙ h.rest ok in
        rw (good, f, rest) (_, refl)
  ]
]

final_code_returns :
    (cs : CallState) (ret : ℕ) → Settled [] ret cs → (out : ℕ) × (final_code cs ret ≡ done out)
unfolding final_code
final_code_returns cs ret h = elim (Bool-cases (same_status cs.call_status call_parse)) [
  | inl e ↦ rw e (checked-Settled cs.req cs.resp cs ret refl h)
  | inr e ↦ rw e (_, refl)
]

stashed-IsPool :
    (m : Module) (cs : CallState) (given : Option Socket)
    → cs.socket ≡ given
    → is_given given ≡ true
    → IsPool m
    → ltb m.n_call_state_pool max_call_state_pool ≡ true
    → IsPool (record m {
      call_state_pool = record cs { call_status = call_ready } ∷ m.call_state_pool;
      n_call_state_pool = m.n_call_state_pool + 1;
    })
stashed-IsPool m cs none e bad valid room = absurd cc
stashed-IsPool m cs (some s) e ok valid room = record {
  counted = omega (arith, valid.counted);
  bounded = omega (arith, valid.counted, ltb→lt m.n_call_state_pool max_call_state_pool room);
  ready = (record { status = refl; connection = s; connected = e }, valid.ready);
  path = valid.path;
}

stash-IsPool :
    (m : Module) (cs : CallState) (ret : ℕ)
    → IsPool m
    → IsPool (stash m cs ret) × SameGlobals m (stash m cs ret)
unfolding stash
stash-IsPool m cs ret valid =
    elim (Bool-cases
      (not (ret == ckr_device_error) && (not (ret == ckr_device_removed) && is_given cs.socket))) [
        | inr e ↦ rw e (valid, same_globals)
        | inl e ↦ elim (Bool-cases (ltb m.n_call_state_pool max_call_state_pool)) [
          | inr full ↦ rw (e, full) (valid, same_globals)
          | inl room ↦
              rw (e, room)
                (
                  stashed-IsPool m cs cs.socket refl (ground arith) valid room,
                  record {
                    initialized = refl;
                    initialized_pid = refl;
                    app_id = refl;
                    socket_path = refl;
                    tls_psk_key_filename = refl;
                  },
                )
        ]
      ]

-- A state that is fit for it is taken by `call_done`, which leaves a pool in order.
pub call_done-IsPool :
    (m : Module) (cs : CallState) (ret : ℕ)
    → IsPool m
    → Settled [] ret cs
    → (r : Module × ℕ) × (call_done m cs ret ≡ done r) × IsPool r.0 × SameGlobals m r.0
unfolding call_done
call_done-IsPool m cs ret valid h =
    let (ret', e) = final_code_returns cs ret h in
    let begun : same_status cs.call_status call_invalid ≡ false =
      not_invalid cs.call_status h.begun in
    let (pool, same) = stash-IsPool m cs ret' valid in rw (begun, e) (_, refl, pool, same)
  where
    not_invalid : (s : CallStatus) → s ≢ call_invalid → same_status s call_invalid ≡ false
    not_invalid call_invalid bad = absurd (bad refl)
    not_invalid call_ready ok = refl
    not_invalid call_prep ok = refl
    not_invalid call_transit ok = refl
    not_invalid call_parse ok = refl
