-- ===== src/Client/Invariant.antt =====
-- The states of the module of gck-rpc-module.c: what holds of the pool, and of a call state at each stage
-- of a call.
use pkcs11_proxy.Common.{ℕ, ◌<◌, ◌≤◌, ◌≡◌, ◌≢◌, refl, true, some, List, length, All}
use pkcs11_proxy.Pkcs11.{ckr_ok}
use pkcs11_proxy.Message.{Message}
use pkcs11_proxy.Client.{
  Socket, CallState, Module, call_ready, call_invalid, call_prep, max_call_state_pool,
}

-- A call state that waits for a call.
pub record Ready (cs : CallState) : Type 0 where
  pub status : cs.call_status ≡ call_ready
  pub connection : Socket
  pub connected : cs.socket ≡ some connection

-- The pool has as many call states as it counts, at most MAX_CALL_STATE_POOL, and each waits for a call;
-- a module that is up knows where to connect.
pub record IsPool (m : Module) : Type 0 where
  pub counted : m.n_call_state_pool ≡ length m.call_state_pool
  pub bounded : length m.call_state_pool ≤ max_call_state_pool
  pub ready : All Ready m.call_state_pool
  pub path : m.initialized ≡ true → 0 < length m.socket_path

-- The request of the call `c` is being written, and `text` is what is still to come of its signature.
pub record Building (c : ℕ) (text : List ℕ) (cs : CallState) : Type 0 where
  pub status : cs.call_status ≡ call_prep
  pub connection : Socket
  pub connected : cs.socket ≡ some connection
  pub request : Message
  pub given : cs.req ≡ some request
  pub id : request.call_id ≡ c
  pub signature : List ℕ
  pub signed : request.signature ≡ some signature
  pub rest : request.sigverify ≡ some text

-- `call_done` takes the state with this code: what is left of the response is `text` if the code is CKR_OK.
pub record Settled (text : List ℕ) (ret : ℕ) (cs : CallState) : Type 0 where
  pub begun : cs.call_status ≢ call_invalid
  pub response : ret ≡ ckr_ok → Message
  pub given : (ok : ret ≡ ckr_ok) → cs.resp ≡ some (response ok)
  pub signature : ret ≡ ckr_ok → List ℕ
  pub signed : (ok : ret ≡ ckr_ok) → (response ok).signature ≡ some (signature ok)
  pub rest : (ok : ret ≡ ckr_ok) → (response ok).sigverify ≡ some text

-- What a step on the pool leaves alone.
pub record SameGlobals (m m' : Module) : Type 0 where
  pub initialized : m'.initialized ≡ m.initialized
  pub initialized_pid : m'.initialized_pid ≡ m.initialized_pid
  pub app_id : m'.app_id ≡ m.app_id
  pub socket_path : m'.socket_path ≡ m.socket_path
  pub tls_psk_key_filename : m'.tls_psk_key_filename ≡ m.tls_psk_key_filename

pub same_globals : {m : Module} → SameGlobals m m
same_globals = record {
  initialized = refl;
  initialized_pid = refl;
  app_id = refl;
  socket_path = refl;
  tls_psk_key_filename = refl;
}
