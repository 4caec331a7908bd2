-- ===== src/Dispatch/Calls/Slots.antt =====
-- gck-rpc-dispatch.c: the handlers of the calls on slots, tokens and mechanisms.
use pkcs11_proxy.Common.{
  ℕ, Bool, false, not, Option, none, some, List, length, list_eq, codes, done, abort, ◌&&◌, ◌==◌,
  if◌then◌else◌,
}
use pkcs11_proxy.Pkcs11.{appartment_slot, ckr_ok, ckr_general_error}
use pkcs11_proxy.Message.{is_verified}
use pkcs11_proxy.Dispatch.{Handler, ◌>>=◌, ◌>>◌, pure, assert_that, value}
use pkcs11_proxy.Dispatch.Proto.{
  Machine, in_byte, in_ulong, in_byte_array, in_ulong_buffer, in_space_string,
}
use pkcs11_proxy.Dispatch.Results.{
  out_ulong, out_ulong_array, out_info, out_slot_info, out_token_info, out_mechanism_info,
}
use pkcs11_proxy.Dispatch.Library.{FunctionList, begin_call, process_call, filled_at}
use pkcs11_proxy.Dispatch.Sessions.{close_chosen, is_free, interrupt}

-- GCK_RPC_HANDSHAKE
abbrev pub handshake : List ℕ
handshake = codes "PRIVATE-GNOME-KEYRING-PKCS11-PROTOCOL-V-3"

-- memcmp with GCK_RPC_HANDSHAKE, behind the comparison of the lengths.
unfoldable pub is_handshake : Option (List ℕ) → ℕ → Bool
is_handshake none n = false
is_handshake (some bytes) n = n == length handshake && list_eq bytes handshake

module _ {S : Type 0} (machine : Machine) (lib : FunctionList S) where
  unfoldable pub rpc_initialize : Handler S ℕ
  rpc_initialize = do
    (greeting, n_greeting) ← in_byte_array
    assert_that λ w. is_verified w.cs.req
    pure (if is_handshake greeting n_greeting then ckr_ok else ckr_general_error)

  -- The sessions are closed, and the other connections of the application stop waiting for events.
  unfoldable pub rpc_finalize : Handler S ℕ
  rpc_finalize w =
      elim (close_chosen lib.close_session (λ x. not (is_free x)) (λ ret. ret == ckr_ok)
        w.cs.sessions w.module_state) [
          | abort ↦ abort
          | done (sessions, s, ret) ↦ done (
            record {
              cs = record w.cs { sessions = sessions };
              peers = interrupt machine.shutdown w.cs.appid w.cs.sock w.peers;
              module_state = s;
            },
            value ret,
          )
        ]

  unfoldable pub rpc_get_info : Handler S ℕ
  rpc_get_info = do f ← begin_call lib.get_info; (ret, info) ← process_call f; out_info info ret

  unfoldable pub rpc_get_slot_list : Handler S ℕ
  rpc_get_slot_list = do
    f ← begin_call lib.get_slot_list
    token_present ← in_byte
    (slot_list, count) ← in_ulong_buffer machine
    (ret, (numbers, number_count)) ← process_call (f token_present slot_list count)
    out_ulong_array (filled_at slot_list numbers) number_count ret

  unfoldable pub rpc_get_slot_info : Handler S ℕ
  rpc_get_slot_info = do
    f ← begin_call lib.get_slot_info
    slot_id ← in_ulong
    (ret, info) ← process_call (f slot_id)
    out_slot_info info ret

  unfoldable pub rpc_get_token_info : Handler S ℕ
  rpc_get_token_info = do
    f ← begin_call lib.get_token_info
    slot_id ← in_ulong
    (ret, info) ← process_call (f slot_id)
    out_token_info info ret

  unfoldable pub rpc_get_mechanism_list : Handler S ℕ
  rpc_get_mechanism_list = do
    f ← begin_call lib.get_mechanism_list
    slot_id ← in_ulong
    (mechanism_list, count) ← in_ulong_buffer machine
    (ret, (numbers, number_count)) ← process_call (f slot_id mechanism_list count)
    out_ulong_array (filled_at mechanism_list numbers) number_count ret

  unfoldable pub rpc_get_mechanism_info : Handler S ℕ
  rpc_get_mechanism_info = do
    f ← begin_call lib.get_mechanism_info
    slot_id ← in_ulong
    mechanism_type ← in_ulong
    (ret, info) ← process_call (f slot_id mechanism_type)
    out_mechanism_info info ret

  unfoldable pub rpc_init_token : Handler S ℕ
  rpc_init_token = do
    f ← begin_call lib.init_token
    slot_id ← in_ulong
    (pin, pin_len) ← in_byte_array
    label ← in_space_string machine 32
    (ret, _) ← process_call (f slot_id pin pin_len label)
    pure ret

  unfoldable pub rpc_wait_for_slot_event : Handler S ℕ
  rpc_wait_for_slot_event = do
    f ← begin_call lib.wait_for_slot_event
    flags ← in_ulong
    (ret, slot_id) ← process_call (f flags)
    out_ulong (appartment_slot slot_id) ret
