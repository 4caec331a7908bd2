-- ===== src/Client.antt =====
-- gck-rpc-module.c: the PKCS#11 module that an application loads, the client's side of the protocol. This
-- file holds the state of a call, of the module and of the machine; Client/Transport moves bytes,
-- Client/Session has the life of a call, Client/Proto writes arguments, Client/Results reads results, and
-- Client/Calls has the functions of the module.
pub mod Transport
pub mod Delivered
pub mod Invariant
pub mod Moved
pub mod Session
pub mod Looked
pub mod Dialog
pub mod Stashed
pub mod Course
pub mod Caller
pub mod Begin
pub mod Proto
pub mod Reading
pub mod Arrays
pub mod Results
pub mod Arguments
pub mod Initialize
pub mod Gets
pub mod ArraySteps
pub mod Runs
pub mod Returns
pub mod Asks
pub mod Answers
pub mod Safe
pub mod Exchanged
pub mod Answered
pub mod Updown
pub mod Down
pub mod Started
pub mod Requests
pub mod Performed
pub mod Calls
use pkcs11_proxy.Common.{ℕ, Bool, Option, none, List}
use pkcs11_proxy.Buffer.{Allocator}
use pkcs11_proxy.Message.{Message}

-- `enum CallStatus`
pub data CallStatus : Type 0 where
  call_invalid call_ready call_prep call_transit call_parse : CallStatus

-- The values of `errno` that the code tells apart.
pub data Errno : Type 0 where
  epipe eagain eintr other : Errno

-- What the system answers to one call of `send`, `recv`, `SSL_write` or `SSL_read`: it has moved so many
-- bytes at most, or the call fails.
pub data Reply : Type 0 where
  moved : ℕ → Reply
  failed : Errno → Reply

-- The connection behind a socket: the bytes that the daemon has sent and that are not read, the bytes that
-- were written, and what the system answers to the next calls. Behind these answers every call moves all
-- that it can.
pub record Socket : Type 0 where
  pub incoming : List ℕ
  pub outgoing : List ℕ
  pub replies : List Reply

-- `CallState`. `socket` is `none` for -1, and `tls` says whether there is a TLS state. The link `next` is
-- the order of the pool.
pub record CallState : Type 0 where
  pub socket : Option Socket
  pub req : Option Message
  pub resp : Option Message
  pub call_status : CallStatus
  pub tls : Bool

-- MAX_CALL_STATE_POOL
abbrev pub max_call_state_pool : ℕ
max_call_state_pool = 8

-- The variables of the module.
pub record Module : Type 0 where
  pub initialized : Bool
  pub initialized_pid : ℕ
  pub app_id : ℕ
  pub socket_path : List ℕ
  pub tls_psk_key_filename : List ℕ
  pub call_state_pool : List CallState
  pub n_call_state_pool : ℕ

-- What one call of the module takes from the machine: the size of `CK_ULONG`, what lies in memory
-- behind an array of the application, the memory of buffers, whether there is memory for each structure,
-- how TLS starts, and what connecting to a path or to a host with a port gives.
pub record Host : Type 0 where
  pub ulong_size : ℕ
  pub past_array : ℕ
  pub call_allocator : Allocator
  pub state_given : Bool
  pub req_given : Bool
  pub resp_given : Bool
  pub host_given : Bool
  pub tls_given : Bool
  pub init_tls : Bool
  pub start_tls : Bool
  pub connect_unix : List ℕ → Option Socket
  pub connect_tcp : List ℕ → Option (List ℕ) → Option Socket

unfoldable pub call_disconnect : CallState → CallState
call_disconnect cs = record cs { socket = none }
