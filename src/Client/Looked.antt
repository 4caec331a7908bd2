-- ===== src/Client/Looked.antt =====
-- call_lookup, call_prepare and call_done of gck-rpc-module.c on a pool that is in order.
use pkcs11_proxy.Common.{
  ℕ, ◌-◌, ◌<◌, ◌≤◌, ◌≡◌, ◌≢◌, refl, ap, ◌∙◌, subst, Bool, true, false, not, Bool-cases, ◌||◌, drop,
  suc, inl, inr, Option, none, some, List, [], ◌∷◌, length, All, lt→ltb, ◌==◌, done, Step, value,
  cleanup, arith,
}
use pkcs11_proxy.Pkcs11.{ckr_ok}
use pkcs11_proxy.Calls.{call_max, request_of}
use pkcs11_proxy.Message.{Message, request, buffer_error, message_reset, prepared}
use pkcs11_proxy.Message.Header.{message_prep_request}
use pkcs11_proxy.Message.Write.{host_bytes}
use pkcs11_proxy.Client.{
  call_invalid, call_ready, CallState, Module, Host, Socket, max_call_state_pool,
}
use pkcs11_proxy.Util.HostPort.{parse_host_port}
use pkcs11_proxy.Client.Session.{
  is_tcp_path, is_tls_path, secured, through_tcp, to_address, through_unix, open_path, greeted,
  fresh, call_connect, connected, lookup_asserted, lookup_new, lookup_in, call_lookup,
  message_there, prep_req, call_prepare, same_status,
}
use pkcs11_proxy.Client.Invariant.{Ready, IsPool, Building, SameGlobals, same_globals}
use pkcs11_proxy.Client.Moved.{call_write-Moved}

-- A new connection that succeeds is ready.
pub record Connects (r : CallState × ℕ) : Type 0 where
  pub ready : r.1 ≡ ckr_ok → Ready r.0

eight_bytes : (v : ℕ) → 0 < length (host_bytes 8 v)
unfolding host_bytes
eight_bytes v = omega arith

-- A jump to `_cleanup` has an error.
abbrev Fails : {A : Type 0} → Step A → Type 0
Fails (value a) = Unit {0}
Fails (cleanup ret) = ret ≢ ckr_ok

secured-Fails : (host : Host) (cs : CallState) (s : Socket) → Fails (secured host cs s).1
secured-Fails host cs s = elim (Bool-cases host.tls_given) [
  | inl e ↦ elim (Bool-cases (not host.init_tls || not host.start_tls)) [
    | inl f ↦ rw (e, f) (λ bad. cc)
    | inr f ↦ rw (e, f) tt
  ]
  | inr e ↦ rw e (λ bad. cc)
]

through_tcp-Fails :
    (host : Host) (path : List ℕ) (cs : CallState) (o : Option Socket)
    → Fails (through_tcp host path cs o).1
through_tcp-Fails host path cs none = λ bad. cc
through_tcp-Fails host path cs (some s) = elim (Bool-cases (is_tls_path path)) [
  | inl e ↦ rw e (secured-Fails host cs s)
  | inr e ↦ rw e tt
]

to_address-Fails :
    (host : Host) (path : List ℕ) (cs : CallState) (o : Option (List ℕ × Option (List ℕ)))
    → Fails (to_address host path cs o).1
to_address-Fails host path cs none = λ bad. cc
to_address-Fails host path cs (some (address, port)) =
    through_tcp-Fails host path cs (host.connect_tcp address port)

through_unix-Fails : (cs : CallState) (o : Option Socket) → Fails (through_unix cs o).1
through_unix-Fails cs none = λ bad. cc
through_unix-Fails cs (some s) = tt

open_path-Fails : (host : Host) (path : List ℕ) (cs : CallState) → Fails (open_path host path cs).1
unfolding open_path
open_path-Fails host path cs = elim (Bool-cases (is_tcp_path path || is_tls_path path)) [
  | inl e ↦ rw e (to_address-Fails host path cs (parse_host_port (drop 6 path) host.host_given))
  | inr e ↦ rw e (through_unix-Fails cs (host.connect_unix path))
]

greeted-Connects :
    (app_id : ℕ) (r : CallState × Step Socket)
    → Fails r.1
    → (out : CallState × ℕ) × (greeted app_id r ≡ done out) × Connects out
greeted-Connects app_id (cs, cleanup ret) bad = (_, refl, record { ready = λ ok. absurd (bad ok) })
greeted-Connects app_id (cs, value s) bad =
    let start = record cs { socket = some s; call_status = call_ready } in
    let (out, e, moved) = call_write-Moved start (host_bytes 8 app_id) (eight_bytes app_id) in
    (
      out,
      e,
      record {
        ready = λ ok. record {
          status = ap (λ (x : CallState). x.call_status) moved.same;
          connection = (moved.still ok).0;
          connected = (moved.still ok).1;
        };
      },
    )

call_connect-Connects :
    (host : Host) (m : Module)
    → 0 < length m.socket_path
    → (out : CallState × ℕ) × (call_connect host m fresh ≡ done out) × Connects out
unfolding call_connect
call_connect-Connects host m h = rw (lt→ltb 0 (length m.socket_path) h) (
    greeted-Connects m.app_id (open_path host m.socket_path fresh)
      (open_path-Fails host m.socket_path fresh))

-- `call_lookup` leaves a pool in order, and gives a call state that is ready, or an error.
abbrev pub Found : Module → Module × Step CallState → Type 0
Found m (m', value cs) = IsPool m' × Ready cs × SameGlobals m m'
Found m (m', cleanup ret) = (m' ≡ m) × (ret ≢ ckr_ok)

asserted :
    (m : Module) {cs : CallState} → Ready cs → lookup_asserted m (value cs) ≡ done (m, value cs)
asserted m r = rw (r.status, r.connected) refl

looked_up :
    (host : Host) (m : Module) (r : CallState × ℕ)
    → IsPool m
    → Connects r
    → (out : Module × Step CallState) × (lookup_asserted m (connected r) ≡ done out) × Found m out
looked_up host m (cs, ret) valid c = elim (Bool-cases (ret == ckr_ok)) [
  | inl ok ↦
      let ready = c.ready (ground arith) in
      rw ok (_, asserted m ready, (valid, ready, same_globals))
  | inr bad ↦ rw bad (_, refl, (refl, λ e. ground arith))
]

lookup_new-Found :
    (host : Host) (m : Module) (given : Bool)
    → IsPool m
    → 0 < length m.socket_path
    → (out : Module × Step CallState) × (lookup_new host m given ≡ done out) × Found m out
lookup_new-Found host m false valid path = (_, refl, (refl, λ bad. cc))
lookup_new-Found host m true valid path =
    let (r, f, c) = call_connect-Connects host m path in rw f (looked_up host m r valid c)

lookup_in-Found :
    (host : Host) (m : Module) (pool : List CallState)
    → m.call_state_pool ≡ pool
    → IsPool m
    → 0 < length m.socket_path
    → (out : Module × Step CallState) × (lookup_in host m pool ≡ done out) × Found m out
lookup_in-Found host m [] e valid path = lookup_new-Found host m host.state_given valid path
lookup_in-Found host m (cs ∷ rest) e valid path =
    let all_ready = subst (All Ready) e valid.ready in
    let size : m.n_call_state_pool ≡ suc (length rest) = valid.counted ∙ ap length e in
    let room : suc (length rest) ≤ max_call_state_pool =
      omega (arith, valid.bounded, ap length e) in
    let m' = record m { call_state_pool = rest; n_call_state_pool = m.n_call_state_pool - 1 } in
    rw (lt→ltb 0 m.n_call_state_pool (omega arith)) (
      _,
      asserted m' all_ready.0,
      (
        record {
          counted = omega arith;
          bounded = omega arith;
          ready = all_ready.1;
          path = valid.path;
        },
        all_ready.0,
        record {
          initialized = refl;
          initialized_pid = refl;
          app_id = refl;
          socket_path = refl;
          tls_psk_key_filename = refl;
        },
      ),
    )

-- With a path to connect to and a pool in order no assertion of `call_lookup` fails; it gives a call state
-- that is ready, with the pool still in order, or an error, with the module as it was.
pub call_lookup-Found :
    (host : Host) (m : Module)
    → IsPool m
    → 0 < length m.socket_path
    → (out : Module × Step CallState) × (call_lookup host m ≡ done out) × Found m out
unfolding call_lookup
call_lookup-Found host m valid path = lookup_in-Found host m m.call_state_pool refl valid path

-- `call_prepare` gives a request that expects the signature of the call, or an error; then the state is
-- fit for `call_done`.
abbrev pub Prepared : ℕ → List ℕ → CallState × ℕ → Type 0
Prepared c text (cs, ret) = (ret ≡ ckr_ok → Building c text cs) × (cs.call_status ≢ call_invalid)

prep_req-Prepared :
    (cs : CallState) (c : ℕ) (text : List ℕ) (o : Option Message)
    → Ready cs
    → 0 < c
    → c < call_max
    → request_of c ≡ some text
    → (r : CallState × ℕ) × (prep_req cs c o ≡ done r) × Prepared c text r
unfolding prepared
prep_req-Prepared cs c text none ready h lt e =
    (_, refl, ((λ bad. absurd cc), λ bad. absurd (cc (ready.status))))
prep_req-Prepared cs c text (some req) ready h lt e =
    rw (message_prep_request (message_reset req) c text h lt e)
      (elim (Bool-cases (buffer_error (prepared (message_reset req) c request (some text)))) [
        | inl bad ↦ rw bad (_, refl, ((λ bad. absurd cc), λ bad. absurd (cc (ready.status))))
        | inr ok ↦ rw ok (
          _,
          refl,
          (
            (λ e'. record {
              status = refl;
              connection = ready.connection;
              connected = ready.connected;
              request = _;
              given = refl;
              id = refl;
              signature = text;
              signed = refl;
              rest = refl;
            }),
            λ bad. absurd cc,
          ),
        )
      ])

pub call_prepare-Prepared :
    (host : Host) (cs : CallState) (c : ℕ) (text : List ℕ)
    → Ready cs
    → 0 < c
    → c < call_max
    → request_of c ≡ some text
    → (r : CallState × ℕ) × (call_prepare host cs c ≡ done r) × Prepared c text r
unfolding call_prepare
call_prepare-Prepared host cs c text ready h lt e =
    let ok : same_status cs.call_status call_ready ≡ true = rw ready.status refl in
    rw ok (prep_req-Prepared cs c text (message_there host host.req_given cs.req) ready h lt e)
