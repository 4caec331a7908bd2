-- ===== src/Dispatch/Sessions.antt =====
-- The sessions that a connection has opened (`CallState.sessions`), and what C_OpenSession,
-- C_CloseSession, C_CloseAllSessions and C_Finalize of gck-rpc-dispatch.c do with them. A free position
-- has the id 0.
use pkcs11_proxy.Common.{
  ℕ, Bool, true, false, not, ◌&&◌, ◌||◌, Option, none, some, List, [], ◌∷◌, ◌==◌, if◌then◌else◌,
  Outcome, done, abort,
}
use pkcs11_proxy.Pkcs11.{ckr_ok, ckr_session_closed, ckr_session_handle_invalid}
use pkcs11_proxy.Calls.{call_wait_for_slot_event}
use pkcs11_proxy.Dispatch.{SessionState, Peer}
use pkcs11_proxy.Dispatch.Library.{Reply}

-- PKCS11PROXY_MAX_SESSION_COUNT
abbrev pub max_session_count : ℕ
max_session_count = 256

abbrev pub is_free : SessionState → Bool
is_free x = x.id == 0

abbrev pub freed : SessionState → SessionState
freed x = record x { id = 0 }

abbrev pub behind : SessionState → Option (List SessionState) → Option (List SessionState)
behind x none = none
behind x (some xs) = some (x ∷ xs)

-- The loop of C_OpenSession: the first free position has the new session, `none` where there is none.
unfoldable pub remember : SessionState → List SessionState → Option (List SessionState)
remember new [] = none
remember new (x ∷ xs) =
    let rest = remember new xs in if is_free x then some (new ∷ xs) else behind x rest

-- The loop of C_CloseSession: the first position of the session becomes free.
unfoldable pub forget : ℕ → List SessionState → List SessionState
forget session [] = []
forget session (x ∷ xs) =
    let rest = forget session xs in if x.id == session then freed x ∷ xs else x ∷ rest

module _ {S : Type 0} where
  -- `pkcs11_module->C_CloseSession` called without a look at the pointer.
  unfoldable pub close_by : Option (ℕ → Reply S (Unit {0})) → ℕ → S → Outcome (S × ℕ)
  close_by none session s = abort
  close_by (some close) session s = let (s', ret, _) = close session s in done (s', ret)

  abbrev pub kept :
      SessionState → Outcome (List SessionState × S × ℕ) → Outcome (List SessionState × S × ℕ)
  kept x abort = abort
  kept x (done (xs, s, ret)) = done (x ∷ xs, s, ret)

  -- The loops of C_Finalize and C_CloseAllSessions: the module closes the chosen sessions one after the
  -- other; a position becomes free on the answers that `forgets` names, and a bad answer ends the loop.
  unfoldable pub close_chosen :
      Option (ℕ → Reply S (Unit {0}))
      → (SessionState → Bool)
      → (ℕ → Bool)
      → List SessionState
      → S
      → Outcome (List SessionState × S × ℕ)
  close_chosen close chosen forgets [] s = done ([], s, ckr_ok)
  close_chosen close chosen forgets (x ∷ xs) s =
      let rest = close_chosen close chosen forgets xs in
      if chosen x
      then elim (close_by close x.id s) [
        | abort ↦ abort
        | done (s', ret) ↦
            let x' = if forgets ret then freed x else x in
            if ret == ckr_ok then kept x' (rest s') else done (x' ∷ xs, s', ret)
      ]
      else kept x (rest s)

-- The answers on which C_CloseAllSessions takes a session for closed.
abbrev pub is_gone : ℕ → Bool
is_gone ret = ret == ckr_ok || ret == ckr_session_closed || ret == ckr_session_handle_invalid

abbrev pub is_of_slot : ℕ → SessionState → Bool
is_of_slot slot_id x = not (is_free x) && x.slot == slot_id

abbrev same_sock : Option ℕ → Option ℕ → Bool
same_sock none none = true
same_sock (some s) (some t) = s == t
same_sock _ _ = false

abbrev is_waiting : Option ℕ → Bool
is_waiting none = false
is_waiting (some call_id) = call_id == call_wait_for_slot_event

-- A connection of the application that waits for an event: its socket is shut down, and marked as
-- closed if that succeeds.
abbrev shut : (ℕ → Bool) → Option ℕ → Option ℕ
shut shutdown none = none
shut shutdown (some s) = if shutdown s then none else some s

-- The loop of C_Finalize over the dispatchers.
unfoldable pub interrupt : (ℕ → Bool) → ℕ → Option ℕ → List Peer → List Peer
interrupt shutdown appid sock [] = []
interrupt shutdown appid sock (c ∷ cs) =
    let rest = interrupt shutdown appid sock cs in
    if not (c.appid == appid) || (same_sock c.sock sock || not (is_waiting c.call_id))
    then c ∷ rest
    else record c { sock = shut shutdown c.sock } ∷ rest
