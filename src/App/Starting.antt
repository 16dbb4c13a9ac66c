-- ===== src/App/Starting.antt =====
-- In which ways a run ends, and what it has started by then.
use msim_dap.Common.{ℕ, ◌≡◌, refl, none, some, List, inl, inr}
use msim_dap.Common.Results.{Result, ok, err, map_err, Result-cases}
use msim_dap.Common.Exec.{Exec, lift, continue, ◌>>=◌}
use msim_dap.Net.{TcpStream}
use msim_dap.Msim.Messages.{MsimError}
use msim_dap.Msim.Connection.{TcpConnection}
use msim_dap.Msim.Tcp.{listener_of, connect_and_post}
use msim_dap.Msim.Tcp.Conversation.{IsSetUp, connect_and_post-IsSetUp}
use msim_dap.Dwarf.Index.{DwarfIndex}
use msim_dap.Dwarf.Parse.{DwarfError, parse_dwarf}
use msim_dap.Debugger.{AdapterError}
use msim_dap.Adapter.{DebugEventResult, DapListener, Session, session_from_stdio, session_from_tcp}
use msim_dap.App.{
  Error, dwarf, adapter, msim, debugger, Mode, Config, Outside, Started, start_session, start_msim,
  debug, run,
}

module _ (outside : Outside) where
  abbrev pub idle : Started outside
  idle = record { dap_listener = none; msim_listener = none }

  abbrev Posted : Type 0
  Posted = Session outside.dap × DapListener outside.dap

  -- The session of a mode, and the thread that is posted for its server.
  pub data IsPosted : Mode → Posted → Type 0 where
    over_stdio : IsPosted Mode.stdio (session_from_stdio outside.dap outside.dap_room)
    over_tcp :
        (port : ℕ) (made : Posted)
        → session_from_tcp outside.dap outside.net port outside.dap_room ≡ ok made
        → IsPosted (Mode.tcp port) made

  -- With only the thread of the DAP server started.
  abbrev pub dap_only : Posted → Started outside
  dap_only (session, listener) = record { dap_listener = some listener; msim_listener = none }

  -- With both threads started.
  abbrev pub both : Posted → TcpStream → Started outside
  both (session, listener) stream = record {
    dap_listener = some listener;
    msim_listener = some (listener_of stream outside.resp_room outside.msim_room);
  }

  -- The ways a run ends: its result, and the threads it has started.
  pub data Ran (config : Config) (events : List DebugEventResult)
      : Result Error (Unit {0}) → Started outside → Type 0 where
    no_index :
        (e : DwarfError)
        → parse_dwarf outside.files config.kernel_path ≡ err e
        → Ran config events (err (dwarf e)) idle
    no_session :
        (index : DwarfIndex) (port : ℕ) (e : AdapterError)
        → parse_dwarf outside.files config.kernel_path ≡ ok index
        → config.mode ≡ Mode.tcp port
        → session_from_tcp outside.dap outside.net port outside.dap_room ≡ err e
        → Ran config events (err (adapter e)) idle
    no_msim :
        (index : DwarfIndex) (made : Posted) (e : MsimError)
        → parse_dwarf outside.files config.kernel_path ≡ ok index
        → IsPosted config.mode made
        → connect_and_post outside.net config.msim_port ≡ err e
        → Ran config events (err (msim e)) (dap_only made)
    debugged :
        (index : DwarfIndex) (made : Posted) (c : TcpConnection) (stream : TcpStream)
        → parse_dwarf outside.files config.kernel_path ≡ ok index
        → IsPosted config.mode made
        → connect_and_post outside.net config.msim_port ≡ ok (c, stream)
        → IsSetUp stream
        → Ran config events
            (map_err debugger (debug outside made.0 c index events).0)
            (both made stream)

  -- Whether a session started: its state, or the error.
  data SessionStarted (mode : Mode)
      : Result Error (Session outside.dap) → Started outside → Type 0 where
    up : (made : Posted) → IsPosted mode made → SessionStarted mode (ok made.0) (dap_only made)
    down :
        (port : ℕ) (e : AdapterError)
        → mode ≡ Mode.tcp port
        → session_from_tcp outside.dap outside.net port outside.dap_room ≡ err e
        → SessionStarted mode (err (adapter e)) idle

  start_session_lem :
      (mode : Mode)
      → SessionStarted mode (start_session outside mode idle).0 (start_session outside mode idle).1
  unfolding start_session
  start_session_lem Mode.stdio = up (session_from_stdio outside.dap outside.dap_room) over_stdio
  start_session_lem (Mode.tcp port) =
      elim (Result-cases (session_from_tcp outside.dap outside.net port outside.dap_room)) [
        | inl (made, h) ↦ rw (h, start_session) (up made (over_tcp port made h))
        | inr (e, h) ↦ rw (h, start_session) (down port e refl h)
      ]

  abbrev after_session :
      Config
      → List DebugEventResult
      → DwarfIndex
      → Session outside.dap
      → Exec (Started outside) Error (Unit {0})
  after_session config events index session = do
    connection ← start_msim outside config.msim_port
    lift (map_err debugger (debug outside session connection index events).0)

  after_session-Ran :
      (config : Config) (events : List DebugEventResult) (index : DwarfIndex) (made : Posted)
      → parse_dwarf outside.files config.kernel_path ≡ ok index
      → IsPosted config.mode made
      → Ran config events
          (after_session config events index made.0 (dap_only made)).0
          (after_session config events index made.0 (dap_only made)).1
  unfolding start_msim
  after_session-Ran config events index made parsed h =
      elim (Result-cases (connect_and_post outside.net config.msim_port)) [
        | inl ((c, stream), connected) ↦
            rw (connected, start_msim)
              (debugged index made c stream parsed h connected
                (connect_and_post-IsSetUp outside.net config.msim_port c stream connected).0)
        | inr (e, failed) ↦ rw (failed, start_msim) (no_msim index made e parsed h failed)
      ]

  continue-Ran :
      (config : Config) (events : List DebugEventResult) (index : DwarfIndex)
      (result : Result Error (Session outside.dap)) (started : Started outside)
      → parse_dwarf outside.files config.kernel_path ≡ ok index
      → SessionStarted config.mode result started
      → Ran config events
          (continue (result, started) (after_session config events index)).0
          (continue (result, started) (after_session config events index)).1
  continue-Ran config events index result started parsed (up made h) =
      after_session-Ran config events index made parsed h
  continue-Ran config events index result started parsed (down port e h failed) =
      no_session index port e parsed h failed

  -- A run that starts with no threads ends with the first of its steps that fails: no index; in the TCP
  -- mode no client; no connection to MSIM; or else with the result of the debugger. The thread of the
  -- DAP server is started only if there is an index, that of MSIM only if there is a connection as
  -- well, and the debugger runs with both started and the socket set up.
  pub run_lem :
      (config : Config) (events : List DebugEventResult)
      → Ran config events (run outside config events idle).0 (run outside config events idle).1
  unfolding run
  run_lem config events = elim (Result-cases (parse_dwarf outside.files config.kernel_path)) [
    | inl (index, h) ↦
        rw (h, run) (continue-Ran config events index _ _ h (start_session_lem config.mode))
    | inr (e, h) ↦ rw (h, run) (no_index e h)
  ]
