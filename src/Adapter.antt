-- ===== src/Adapter.antt =====
-- src/adapter: the DAP server's thread, which forwards requests, and the session, which sends.
pub mod Forwarding
use msim_dap.Common.{
  ℕ, zero, suc, Bool, true, false, Option, none, some, List, [], ◌∷◌, String, if◌then◌else◌,
}
use msim_dap.Common.Results.{Result, ok, err, map_err, ◌>>=◌}
use msim_dap.Common.Exec.{Exec}
use msim_dap.Msim.Connection.{Channel, send_to}
use msim_dap.Net.{IoFault, TcpStream, Net, try_clone}
use msim_dap.Debugger.{AdapterError, poisoned_lock, ListenerError}
use msim_dap.Debugger.Commands.{DapRequest}
use msim_dap.Debugger.Protocol.{Message}
use msim_dap.Debugger.EventLoop.{DebugEvent, dap_request}

-- The reader and the writer that a server is built over.
pub data Io : Type 0 where
  std_streams : Io
  socket : TcpStream → TcpStream → Io

-- `Server` of the dap library: its input, which `poll_request` reads, and its output, which `send` of
-- `ServerOutput` writes to. An error has its text.
pub record Dap : Type 1 where
  pub Input : Type 0
  pub Output : Type 0
  pub server : Io → Input × Output
  pub poll_request : Input → Result String (Option DapRequest) × Input
  pub send : Message → Output → Result String (Unit {0}) × Output

-- `DebugEventResult` of src/lib.rs
abbrev pub DebugEventResult : Type 0
DebugEventResult = Result ListenerError DebugEvent

module _ (dap : Dap) where
  -- The state of `post_server_background`.
  pub record DapListener : Type 0 where
    pub server : dap.Input
    pub tx : Channel DebugEventResult

  -- `tx.send(…)`
  abbrev pub forward : DebugEventResult → DapListener → Bool × DapListener
  forward message l = let (alive, tx) = send_to message l.tx in (alive, record l { tx = tx })

  -- The arms of a round, by what was polled: whether the loop goes on, and the state.
  abbrev pub server_arm : Result String (Option DapRequest) → DapListener → Bool × DapListener
  server_arm (ok (some req)) l = forward (ok (dap_request req)) l
  server_arm (ok none) l = (false, l)
  server_arm (err e) l =
      let (_, l') = forward (err (ListenerError.adapter (AdapterError.server e))) l in (false, l')

  -- One round of the loop.
  unfoldable pub server_round : DapListener → Bool × DapListener
  server_round l =
      let (polled, server) = dap.poll_request l.server in
      server_arm polled (record l { server = server })

  -- The loop of `post_server_background`, for at most as many rounds as there is fuel: whether it has
  -- ended, and the state. The client decides how many requests there are.
  unfoldable pub post_server_background : ℕ → DapListener → Bool × DapListener
  post_server_background zero l = (false, l)
  post_server_background (suc fuel) l =
      let (goes_on, l') = server_round l in
      let later = post_server_background fuel l' in if goes_on then later else (true, l')

  -- `Session`: the output behind its lock, which is poisoned once a thread has panicked with it.
  pub record Session : Type 0 where
    pub server_output : dap.Output
    pub is_poisoned : Bool

  -- `Session::send`
  unfoldable pub send : Message → Exec Session AdapterError (Unit {0})
  send what s =
      let (result, output) = dap.send what s.server_output in
      if s.is_poisoned
      then (err poisoned_lock, s)
      else (map_err AdapterError.server result, record s { server_output = output })

  -- `DapServer`
  abbrev pub DapServer : Type 0
  DapServer = dap.Input × dap.Output

  abbrev server_from_io : Io → DapServer
  server_from_io io = dap.server io

  abbrev pub server_from_stdio : DapServer
  server_from_stdio = server_from_io std_streams

  -- `From<std::io::Error> for AdapterError`
  abbrev or_io : {A : Type 0} → Result IoFault A → Result AdapterError A
  or_io r = map_err (λ (fault : IoFault). AdapterError.io fault.text) r

  unfoldable pub server_from_tcp : Net → ℕ → Result AdapterError DapServer
  server_from_tcp net port = do
    listener ← or_io (net.bind port)
    stream ← or_io (net.accept listener)
    clone ← or_io (try_clone net stream)
    ok (server_from_io (socket clone stream))

  -- `Session::new`
  abbrev pub new : dap.Output → Session
  new server_output = record { server_output = server_output; is_poisoned = false }

  -- A session and the thread that is posted for its server. How long the receiver lives is not known.
  abbrev pub post : DapServer → ℕ → Session × DapListener
  post (input, output) room =
      (new output, record { server = input; tx = record { sent = []; room = room } })

  -- `Session::session_from_io`
  unfoldable pub session_from_io : Io → ℕ → Session × DapListener
  session_from_io io room = post (server_from_io io) room

  -- `Session::session_from_stdio`
  unfoldable pub session_from_stdio : ℕ → Session × DapListener
  session_from_stdio room = post server_from_stdio room

  -- `Session::session_from_tcp`
  unfoldable pub session_from_tcp : Net → ℕ → ℕ → Result AdapterError (Session × DapListener)
  session_from_tcp net port room = do server ← server_from_tcp net port; ok (post server room)
