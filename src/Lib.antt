-- ===== src/Lib.antt =====
-- PKCS#11 proxy: a client module (gck-rpc-module.c) sends each PKCS#11 call over a socket to a
-- daemon, which calls a real PKCS#11 module and sends the results back. This library models the
-- byte buffers and the messages that both ends share, the daemon's side of the protocol, and the
-- client's.
--
-- - Common: numbers, tests, lists, machine words (Common/Words: `size_t` and `uint32_t` wrap round
--   at 2 ^ 64 and 2 ^ 32), and `Outcome`, what a C function does: return, or stop the process in
--   `assert`; `Step` (Common/Control) is a value or a jump to the end of a function with a code.
-- - Wire: the format of numbers and arrays on the wire, described apart from the code.
-- - Buffer, for egg-buffer.c and egg-buffer.h: `Buffer` is `EggBuffer` with its block as a list of
--   bytes. A function that changes `*buffer` returns the new buffer; `none` is a reader's answer 0.
--   Buffer/Ints, Buffer/Arrays and Buffer/Strings have the kinds of values; Buffer/Inv is the
--   invariant, Buffer/Reserve and Buffer/Writers say what growing and writing do, Buffer/Unread and
--   Buffer/Readers compare reading with the wire format, Buffer/Appended puts the two together, and
--   Buffer/Received is the way a message comes into a buffer. `realloc` is a parameter, an
--   `Allocator`, of which `IsRealloc` assumes what the C library documents.
-- - Calls, for the enumeration and `gck_rpc_calls` of gck-rpc-private.h; Calls/Table compares the
--   two.
-- - Pkcs11: codes and structures of pkcs11/pkcs11.h. Util: the lists of gck-rpc-util.c; Util/Purge
--   is `gck_rpc_mechanism_list_purge`, whose loop has no result if it has not ended after one round
--   more than the list has mechanisms, and Util/HostPort is `gck_rpc_parse_host_port`.
-- - Message, for gck-rpc-message.c: `Message` is `GckRpcMessage`, and a signature is the list of
--   its letters. Message/Write and Message/Read have the values; Message/Advance,
--   Message/WriteSteps and Message/AttributeSteps say what a writer does to the message,
--   Message/ReadSteps compares the readers with the wire format, Message/RoundTrip puts the two
--   together, Message/Heading takes the head of a message from one end to the other (Message/Texts:
--   the signatures are texts it can carry), and Message/Header says what is known of a request that
--   was accepted. Message/Answer is about parsing a response, and Message/Letters says which
--   letters each writer takes from the signature.
-- - Dispatch, for gck-rpc-dispatch.c: a handler is a step on a `World`, the connection
--   (`CallState`), the other connections, and the state of the module behind the daemon.
--   Dispatch/Proto and Dispatch/Results are its protocol code with the IN_ and OUT_ macros,
--   Dispatch/Library the module's functions and the macros that call them, Dispatch/Sessions the
--   table of sessions, Dispatch/Calls/... the `rpc_C_` functions, Dispatch/Cases and
--   Dispatch/Server `dispatch_call` and `run_dispatch_loop`. `Ensures` (Dispatch/Ensures) is a
--   triple for the parts of a handler; Dispatch/Asked and Dispatch/Answered have its instances for
--   arguments and results, Dispatch/Safe/... one for each handler, and Dispatch/Completion and
--   Dispatch/Dispatched put them together. Dispatch/Table is about the sessions, and
--   Dispatch/Handshake about the greeting of C_Initialize. Dispatch/Served takes a request that was
--   prepared at the other end to `dispatch_call`.
-- - Client, for gck-rpc-module.c: `Module` is its static variables, with the pool of call states,
--   and a handler is a step on a `Module` that also gives the code and what is stored at the
--   caller's pointers. Client/Transport is call_write and call_read with the results of
--   gck-rpc-tls-psk.c, Client/Session the life of a call from call_lookup to call_done,
--   Client/Course what comes of a function (a stop of the process inside of call_run is told from
--   the others, with the state that call_run was called with), Client/Caller and Client/Begin the
--   control flow of the macros (`Caller` is a step on the call state), Client/Proto the IN_ macros, Client/Reading and Client/Arrays the `proto_read_`
--   functions, Client/Results the OUT_ macros, Client/Arguments parse_arguments, Client/Initialize
--   C_Initialize and C_Finalize, Client/Calls/... the `rpc_C_` functions, and Client/Requests the
--   table of functions. Client/Delivered is about moving bytes, Client/Invariant has the invariants
--   of a pool and of a call state at each stage, Client/Moved, Client/Looked, Client/Dialog and
--   Client/Stashed say how the stages lead from one to the next, and Client/Exchanged and
--   Client/Answered what a call makes of the wire and of a response that the daemon has prepared.
--   `Runs` (Client/Runs) is a triple for the parts of a function; Client/Asks and Client/Answers
--   (with Client/Gets and Client/ArraySteps) have its instances for arguments and results,
--   Client/Returns goes from BEGIN_CALL to END_CALL, Client/Safe/... has one theorem for each
--   function, and Client/Performed puts them together; Client/Updown, and Client/Down and
--   Client/Started, are about C_Finalize and C_Initialize.
-- - Tests: the properties at concrete inputs.
--
-- The PKCS#11 module (`FunctionList`), `malloc`, `shutdown` and the daemon's socket are parameters,
-- and nothing is assumed of their answers. On the client's side a `Host` says what the machine
-- gives to a call: memory, what lies behind an array of the application, new connections, and
-- whether TLS starts; a connection carries the bytes
-- that the daemon sends and the answers of the system to the next calls of `send` and `recv`, and
-- moves all bytes when these answers are used up. So a loop of call_write or call_read ends, by
-- recursion on the answers; that a system goes on answering "try again" for ever is left out. A
-- pointer is an `Option` of what is behind it, so the length that comes with a pointer is as large
-- as what is there; hosts are little-endian. `run_dispatch_loop` has a number of rounds, and says
-- whether it has ended by then.
--
-- Not modelled: the threads of the daemon and their list, the threads of an application (each part
-- that a mutex guards is one step), the set-up of connections and of TLS (gck-rpc-tls-psk.c), the
-- start of the daemon (gck-rpc-daemon-standalone.c), and the filter of system calls
-- (syscall-reporter.c).
pub mod Common
pub mod Wire
pub mod Buffer
pub mod Calls
pub mod Pkcs11
pub mod Util
pub mod Message
pub mod Dispatch
pub mod Client
pub mod Tests
