-- ===== src/App.antt =====
-- src/lib.rs: the configuration, the errors and `run`, which starts the threads and then debugs.
pub mod Main
pub mod Starting
pub mod Threads
pub mod Wire
use msim_dap.Common.{ℕ, ◌≡◌, Option, none, some, List, [], ◌∷◌, String}
use msim_dap.Common.Int.{ℤ}
use msim_dap.Common.Results.{Result, ok, err, map_err}
use msim_dap.Common.Exec.{Exec, pure, lift, modify, ◌>>=◌, ◌>>◌}
use msim_dap.Net.{Net, TcpStream}
use msim_dap.Msim.Frame.{Request}
use msim_dap.Msim.Messages.{MsimError}
use msim_dap.Msim.Connection.{Listener, TcpConnection}
use msim_dap.Msim.Tcp.{Arrivals, listener_of, connect_and_post, answer}
use msim_dap.Target
use msim_dap.Target.{FilePath, Exchange, Env, MsimTarget}
use msim_dap.Target.Interface.{msim_target}
use msim_dap.Dwarf.Index.{DwarfIndex, debug_index}
use msim_dap.Dwarf.Parse.{DwarfError, ObjectFiles, parse_dwarf}
use msim_dap.Debugger.{AdapterError, DebuggerError}
use msim_dap.Debugger.Strings.{Text}
use msim_dap.Debugger.Protocol.{Message, Client, Debugger}
use msim_dap.Debugger.Protocol
use msim_dap.Debugger.EventLoop
use msim_dap.Adapter.{
  Dap, DebugEventResult, DapListener, Session, session_from_stdio, session_from_tcp, send,
}

pub data Error : Type 0 where
  dwarf : DwarfError → Error
  adapter : AdapterError → Error
  msim : MsimError → Error
  debugger : DebuggerError → Error

pub data Mode : Type 0 where
  stdio : Mode
  tcp : ℕ → Mode

pub record Config : Type 0 where
  pub mode : Mode
  pub msim_port : ℕ
  pub kernel_path : FilePath

-- Everything that the program runs on: the dap library, the system's sockets, the files, base64, what
-- MSIM sends and when, how long the receivers of the channels live, and the order in which hash maps
-- are iterated.
pub record Outside : Type 1 where
  pub dap : Dap
  pub net : Net
  pub files : ObjectFiles
  pub encode : List ℕ → Text
  pub arrivals : List Exchange → Request → Arrivals
  pub resp_room : ℕ
  pub dap_room : ℕ
  pub msim_room : ℕ
  pub file_order : List (FilePath × ℕ) → List (FilePath × ℕ)
  pub line_order : List (ℤ × ℕ) → List (ℤ × ℕ)

module _ (outside : Outside) where
  open outside use {
    dap, net, files, encode, arrivals, resp_room, dap_room, msim_room, file_order, line_order,
  }

  -- The threads that were started, as they start.
  pub record Started : Type 0 where
    pub dap_listener : Option (DapListener dap)
    pub msim_listener : Option Listener

  -- Note the thread of the DAP server as started.
  abbrev pub posted : Session dap × DapListener dap → Exec Started Error (Session dap)
  posted (session, listener) started = (ok session, record started { dap_listener = some listener })

  -- The `match` on the mode in `run`.
  unfoldable pub start_session : Mode → Exec Started Error (Session dap)
  start_session Mode.stdio = posted (session_from_stdio dap dap_room)
  start_session (Mode.tcp port) = do
    made ← lift (map_err adapter (session_from_tcp dap net port dap_room))
    posted made

  -- `TcpConnection::connect`, with the listener that it starts
  unfoldable pub start_msim : ℕ → Exec Started Error TcpConnection
  start_msim port = do
    (connection, stream) ← lift (map_err msim (connect_and_post net port))
    modify (λ (s : Started). record s {
      msim_listener = some (listener_of stream resp_room msim_room);
    })
    pure connection

  -- The session after messages were sent, the latest first.
  unfoldable pub after_sent : Session dap → List Message → Session dap
  after_sent s [] = s
  after_sent s (message ∷ log) = (send dap message (after_sent s log)).1

  -- The session as the debugger uses it.
  abbrev pub client_of : Session dap → Client
  client_of s = record {
    deliver = λ log message. (send dap message (after_sent s log)).0;
    encode = encode;
  }

  -- The connection and the index as the target uses them: `MsimTarget::new`.
  abbrev pub env_of : TcpConnection → DwarfIndex → Env
  env_of c index = record {
    answer = answer arrivals c;
    index = debug_index file_order index;
    order = line_order;
  }

  -- `Debugger::new` and `debugger.run()`, over what comes on the event channel.
  unfoldable pub debug :
      Session dap
      → TcpConnection
      → DwarfIndex
      → List DebugEventResult
      → Result DebuggerError (Unit {0}) × Debugger MsimTarget
  debug session c index events =
      EventLoop.run (msim_target (env_of c index)) (client_of session) events
        (Protocol.new Target.new)

  -- `run`
  unfoldable pub run : Config → List DebugEventResult → Exec Started Error (Unit {0})
  run config events = do
    index ← lift (map_err dwarf (parse_dwarf files config.kernel_path))
    session ← start_session config.mode
    connection ← start_msim config.msim_port
    lift (map_err debugger (debug session connection index events).0)
