-- ===== src/Lib.antt =====
-- msim-dap: a Debug Adapter Protocol server for the MSIM simulator.
--
-- An editor speaks DAP to the adapter, and the adapter speaks a binary protocol to MSIM. The program's
-- parts are the wire format and the connection (src/msim), the target, which turns operations on
-- breakpoints, registers and memory into requests (src/target), an index from source lines to
-- addresses (src/dwarf), the debugger with its request handlers and event loop (src/debugger) and the
-- DAP session (src/adapter).
--
-- Msim/Frame.antt and its children model src/msim/frame.rs: `Request::write` is `write`,
-- `Inbound::read` is `read`, over byte streams that may fail (Msim/Frame/Stream.antt): one that is
-- written to may fail any number of times, each time after some bytes, and take more afterwards, as a
-- socket does whose write timed out. The children
-- Meaning, Requests, Replies and Taken describe MSIM's side of the protocol and relate the two.
-- Msim/Messages.antt models the errors, events and responses of src/msim/mod.rs and connection.rs.
-- Msim/Connection.antt models the listener thread and `TcpConnection::send` of connection.rs: the
-- stream is the bytes that will arrive, a channel is what was sent on it. The listener has one round of
-- fuel more than the stream has bytes, and a round that goes on takes a frame of 26.
-- Target.antt models the state of `MsimTarget` in src/target/msim_target.rs. The connection is the
-- list of exchanges so far, with an arbitrary function from it and a request to what `send` returns;
-- the debug index is an arbitrary pair of functions. Target/Breakpoints.antt, Control.antt,
-- Registers.antt and Memory.antt have the operations under the names of the source, and their
-- children the proofs. Target/Session.antt runs any sequence of operations, and Target/Sent.antt
-- follows what is sent. Target/Registers/Machine.antt states what it is that MSIM keeps registers, and
-- Target/Memory/Contents.antt that it serves a memory.
-- Dwarf/Index.antt models the builder and the lookups of src/dwarf/index.rs, with `debug_index` as the
-- index of a target, and Dwarf/Parse.antt the loops of src/dwarf/parse.rs over what gimli reads.
-- Target/Interface.antt has the trait `DebugTarget` as a record, which `msim_target` fills, and the
-- debugger of src/debugger runs over any such record. Target/Interface/Invariant.antt states what the
-- methods of a target keep of its state, and Debugger/Kept.antt carries it over to the handlers and
-- to runs; Debugger/Numbered.antt follows the ids of breakpoints through them.
-- Debugger/Registries.antt, MemoryRefs.antt, Requests.antt and Events.antt have the parts of core.rs,
-- requests.rs and events.rs under their names, with the loop of `set_breakpoints` in BpInfos.antt and
-- the steps in Requests/Steps.antt, and EventLoop.antt has `handle` and `run`. Events/BpHit.antt and
-- Events/StepOver.antt follow a request to the stop that it leads to. Debugger/Commands.antt and
-- Protocol.antt have the DAP messages: the client is a function that says whether it takes a message,
-- and the state of the session is the list of what was sent. Text that is parsed is a list of
-- character codes (Debugger/Strings.antt); the texts of errors are kept as their cause.
-- Net.antt has the sockets of the standard library, with the outcomes of the system's calls arbitrary.
-- Msim/Tcp.antt models src/msim/tcp.rs and `TcpConnection::connect`, and gives the connection's `send`
-- as the function that a target is built over. Adapter.antt models src/adapter: the thread of the DAP
-- server, the session and their set-up, over the dap library as a parameter. The client decides how
-- many requests there are, so that thread's loop has fuel, of which one round more than there are
-- requests is enough. App.antt models `run` of src/lib.rs and App/Main.antt src/main.rs.
-- App/Wire.antt joins the index, the debugger and the connection.
-- App/Threads.antt has the three threads of a run as interleaved steps over the event channel.
-- Common.antt passes on the library and has Boolean tests, lists, maps, `i64` arithmetic, results and
-- the monad of methods that return a `Result`, with what such a method keeps and ensures. Tests.antt
-- has concrete runs.
--
-- Words are natural numbers with their range as a hypothesis, and what wraps in a release build is
-- written with a remainder by 2 ^ 64. A `PathBuf` is the list of its components. A `HashMap` is an
-- association list, and where the program iterates over one the order is a parameter. Other loops
-- need no fuel: each follows a list or a count that the source fixes before it starts.
--
-- Not modelled: the object and gimli readers, the dap library, clap and base64, which are parameters.
-- Logging to standard error is left out throughout.
pub mod Common
pub mod Net
pub mod Msim
pub mod Target
pub mod Dwarf
pub mod Debugger
pub mod Adapter
pub mod App
mod Tests
