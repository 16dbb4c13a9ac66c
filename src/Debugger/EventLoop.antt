-- ===== src/Debugger/EventLoop.antt =====
-- The event loop of src/debugger/core.rs: `run`, `handle` and the dispatch to handlers.
pub mod Usual
pub mod Quiet
pub mod Answers
pub mod Turns
pub mod Reported
pub mod Transcript
pub mod Disconnecting
use msim_dap.Common.{ℕ, ◌≡◌, Option, none, some, List, [], ◌∷◌}
use msim_dap.Common.Results.{Result, ok, err}
use msim_dap.Common.Exec.{Exec, pure, raise, lift, gets, modify, ◌>>=◌, ◌>>◌}
use msim_dap.Msim.Messages.{Event, terminated, stopped_at}
use msim_dap.Target.Interface.{DebugTarget}
use msim_dap.Debugger.{
  DebuggerError, request_failed, received_fatal_error, dap_error, ListenerError, unhandled_command,
}
use msim_dap.Debugger.Commands.{Command, DapRequest}
use msim_dap.Debugger.Protocol.{
  Debugger, HandlerAction, PostAction, DapEvent, Client, send, success, error, event,
}
use msim_dap.Debugger.Requests.{Handler}
use msim_dap.Debugger.Requests
use msim_dap.Debugger.Requests.Steps
use msim_dap.Debugger.Events.{EventHandler, handle_event_terminated, handle_event_stopped_at}

-- `DebugEvent` of src/lib.rs
pub data DebugEvent : Type 0 where
  dap_request : DapRequest → DebugEvent
  msim_event : Event → DebugEvent

module _ (T : DebugTarget) (client : Client) where
  -- `Debugger::handle_dap_request`
  unfoldable pub handle_dap_request : Command → Handler T
  handle_dap_request Command.initialize = pure Requests.initialize
  handle_dap_request Command.attach = pure Requests.attach
  handle_dap_request Command.launch = pure Requests.launch
  handle_dap_request Command.configuration_done = Requests.configuration_done T
  handle_dap_request (Command.set_breakpoints path bps) = Requests.set_breakpoints T path bps
  handle_dap_request Command.set_exception_breakpoints = pure Requests.set_exception_breakpoints
  handle_dap_request Command.threads = Requests.threads T
  handle_dap_request Command.disconnect = Requests.disconnect T
  handle_dap_request (Command.stack_trace thread_id) = Requests.stack_trace T thread_id
  handle_dap_request (Command.scopes frame_id) = Requests.scopes T frame_id
  handle_dap_request Command.continue = Requests.resume T
  handle_dap_request Command.pause = Requests.pause T
  handle_dap_request (Command.next thread_id) = Steps.next T thread_id
  handle_dap_request (Command.step_in thread_id) = Steps.step_in T thread_id
  handle_dap_request (Command.step_out thread_id) = Steps.step_out T thread_id
  handle_dap_request (Command.variables var_ref) = Requests.variables T var_ref
  handle_dap_request (Command.set_variable var_ref name value) =
      Requests.set_variable T var_ref name value
  handle_dap_request (Command.read_memory memory_reference offset count) =
      Requests.read_memory T client memory_reference offset count
  handle_dap_request Command.source = pure Requests.source
  handle_dap_request Command.other = raise (request_failed unhandled_command)

  -- `Debugger::handle_msim_event`
  unfoldable pub handle_msim_event : Event → EventHandler T
  handle_msim_event terminated = handle_event_terminated T client
  handle_msim_event (stopped_at cpu address reason) = handle_event_stopped_at T cpu address reason

  -- `PostAction::execute`, if there is one.
  abbrev pub execute : Option PostAction → Exec (Debugger T.State) DebuggerError (Unit {0})
  execute none = pure tt
  execute (some (PostAction.send_event e)) = send client (event e)
  execute (some PostAction.disconnect) = raise DebuggerError.dap_disconnected

  -- The arms of `handle` for a request, by what its handler returned.
  abbrev pub answer :
      DapRequest
      → Result DebuggerError HandlerAction × Debugger T.State
      → Result DebuggerError (Unit {0}) × Debugger T.State
  answer req (ok action, d) =
      (send client (success req action.body) >> execute action.post_action) d
  answer req (err (request_failed e), d) = send client (error req e) d
  answer req (err DebuggerError.session_lost, d) = (err DebuggerError.session_lost, d)
  answer req (err DebuggerError.dap_disconnected, d) = (err DebuggerError.dap_disconnected, d)
  answer req (err (dap_error e), d) = (err (dap_error e), d)
  answer req (err (received_fatal_error e), d) = (err (received_fatal_error e), d)

  -- The arms of `handle` for an event of MSIM.
  abbrev pub report :
      Result DebuggerError (Option DapEvent) × Debugger T.State
      → Result DebuggerError (Unit {0}) × Debugger T.State
  report (ok none, d) = (ok tt, d)
  report (ok (some body), d) = send client (event body) d
  report (err (request_failed e), d) = (ok tt, d)
  report (err DebuggerError.session_lost, d) = (err DebuggerError.session_lost, d)
  report (err DebuggerError.dap_disconnected, d) = (err DebuggerError.dap_disconnected, d)
  report (err (dap_error e), d) = (err (dap_error e), d)
  report (err (received_fatal_error e), d) = (err (received_fatal_error e), d)

  -- `Debugger::handle`
  unfoldable pub handle : DebugEvent → Exec (Debugger T.State) DebuggerError (Unit {0})
  handle (dap_request req) d = answer req (handle_dap_request req.command d)
  handle (msim_event e) d = report (handle_msim_event e d)

  -- Whether `run` returns after `handle` has, and what.
  abbrev pub returned : Result DebuggerError (Unit {0}) → Option (Result DebuggerError (Unit {0}))
  returned (ok _) = none
  returned (err e) = elim e [
    | DebuggerError.dap_disconnected ↦ some (ok tt)
    | other ↦ some (err other)
  ]

  -- One round of the loop, on what was received: what `run` returns, if it does, and the debugger.
  unfoldable pub turn :
      Result ListenerError DebugEvent
      → Debugger T.State
      → Option (Result DebuggerError (Unit {0})) × Debugger T.State
  turn (err fatal) d = (some (err (received_fatal_error fatal)), d)
  turn (ok e) d = let (result, d') = handle e d in (returned result, d')

  -- `Debugger::run`, over what the channel gives until its senders are dropped.
  unfoldable pub run :
      List (Result ListenerError DebugEvent) → Exec (Debugger T.State) DebuggerError (Unit {0})
  run [] d = (ok tt, d)
  run (message ∷ messages) d =
      let (out, d') = turn message d in
      let later = run messages d' in elim out [ none ↦ later | some result ↦ (result, d') ]
