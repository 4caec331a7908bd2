-- ===== src/Dispatch.antt =====
-- gck-rpc-dispatch.c: the daemon's side of the protocol. This file holds the state of a connection, the
-- memory of a call, and the shape of a handler; Dispatch/Proto reads arguments, Dispatch/Results writes
-- results, Dispatch/Calls has the handlers, and Dispatch/Server the dispatcher and its loop.
pub mod Proto
pub mod Results
pub mod Library
pub mod Sessions
pub mod Calls
pub mod Cases
pub mod Server
pub mod Ensures
pub mod Asked
pub mod Letters
pub mod Answered
pub mod Opened
pub mod Safe
pub mod Completion
pub mod Dispatched
pub mod Table
pub mod Handshake
pub mod Served
use pkcs11_proxy.Common.{
  ℕ, ◌+◌, Bool, true, false, not, Option, none, some, List, [], ◌∷◌, replicate, ltb, if◌then◌else◌,
  Outcome, done, abort,
}
pub use pkcs11_proxy.Common.{Step, value, cleanup}
use pkcs11_proxy.Buffer.{Allocator}
use pkcs11_proxy.Message.{Message, message_new, message_reset}

-- `SessionState`
pub record SessionState : Type 0 where
  pub id : ℕ
  pub slot : ℕ

-- `CallState`, without what the socket functions keep for themselves. `sock` is `none` for -1, and
-- `allocated` has the size of each block of the call, newest first.
pub record CallState : Type 0 where
  pub req : Message
  pub resp : Message
  pub allocated : List ℕ
  pub appid : ℕ
  pub sock : Option ℕ
  pub sessions : List SessionState

-- The two messages of a new connection; `given` says of each whether its structure can be allocated.
unfoldable pub call_init : Allocator → Bool → Bool → CallState → Option CallState
call_init realloc req_given resp_given cs = elim (message_new realloc req_given) [
  | none ↦ none
  | some req ↦ elim (message_new realloc resp_given) [
    | none ↦ none
    | some resp ↦ some (record cs { req = req; resp = resp; allocated = [] })
  ]
]

-- All blocks are freed, and both messages emptied.
unfoldable pub call_reset : CallState → CallState
call_reset cs = record cs {
  req = message_reset cs.req;
  resp = message_reset cs.resp;
  allocated = [];
}

-- `sizeof (void *)`, the link in front of a block
abbrev pub link_size : ℕ
link_size = 8

-- A block of the call, filled with 0xff; `malloc` says whether the C library has the memory.
unfoldable pub call_alloc : (ℕ → Bool) → CallState → ℕ → CallState × Option (List ℕ)
call_alloc malloc cs length =
    if ltb 0x7fff_ffff length
    then (cs, none)
    else if not (malloc (link_size + length))
    then (cs, none)
    else (
      record cs { allocated = (link_size + length) ∷ cs.allocated },
      some (replicate length 0xff),
    )

-- What C_Finalize sees of another connection: `call_id` is `none` where `req` is NULL.
pub record Peer : Type 0 where
  pub appid : ℕ
  pub sock : Option ℕ
  pub call_id : Option ℕ

-- What a handler works on: its connection, the other ones, and the state `S` of the PKCS#11 module
-- behind the daemon.
pub record World (S : Type 0) : Type 0 where
  pub cs : CallState
  pub peers : List Peer
  pub module_state : S

abbrev pub Handler : Type 0 → Type 0 → Type 0
Handler S A = World S → Outcome (World S × Step A)

module _ {S : Type 0} where
  infixl 5 ◌>>=◌ ◌>>◌
  unfoldable pub ◌>>=◌ : {A B : Type 0} → Handler S A → (A → Handler S B) → Handler S B
  ◌>>=◌ m k w = elim (m w) [
    | done (w', value a) ↦ k a w'
    | done (w', cleanup ret) ↦ done (w', cleanup ret)
    | abort ↦ abort
  ]

  unfoldable pub ◌>>◌ : {B : Type 0} → Handler S (Unit {0}) → Handler S B → Handler S B
  m >> k = m >>= λ _. k

  unfoldable pub pure : {A : Type 0} → A → Handler S A
  pure a w = done (w, value a)

  unfoldable pub goto_cleanup : {A : Type 0} → ℕ → Handler S A
  goto_cleanup ret w = done (w, cleanup ret)

  -- An operation on the request, or on the response.
  unfoldable pub on_req : {A : Type 0} → (Message → Outcome (Message × A)) → Handler S A
  on_req f w = elim (f w.cs.req) [
    | done (m, a) ↦ done (record w { cs = record w.cs { req = m } }, value a)
    | abort ↦ abort
  ]

  unfoldable pub on_resp : {A : Type 0} → (Message → Outcome (Message × A)) → Handler S A
  on_resp f w = elim (f w.cs.resp) [
    | done (m, a) ↦ done (record w { cs = record w.cs { resp = m } }, value a)
    | abort ↦ abort
  ]

  unfoldable pub assert_that : (World S → Bool) → Handler S (Unit {0})
  assert_that test w = if test w then done (w, value tt) else abort
