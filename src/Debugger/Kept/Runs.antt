-- ===== src/Debugger/Kept/Runs.antt =====
-- src/debugger/events.rs and core.rs: what every method of the target keeps, a run of the debugger keeps.
use msim_dap.Common.{ℕ, Bool-cases, inl, inr, Option, none, some, List, [], ◌∷◌}
use msim_dap.Common.Int.{ℤ}
use msim_dap.Common.Results.{Result, ok, err}
use msim_dap.Common.Ensures.{Anything, Ensures-pure, Ensures-raise, Ensures-then, OnOk-Anything}
use msim_dap.Msim.Frame.{StoppedAtReason}
use msim_dap.Msim.Messages.{Event, terminated, stopped_at}
use msim_dap.Target.{FilePath}
use msim_dap.Target.Interface.{DebugTarget}
use msim_dap.Target.Interface.Invariant.{Invariant}
use msim_dap.Debugger.{
  DebuggerError, ListenerError, request_failed, dap_error, received_fatal_error,
}
use msim_dap.Debugger.Commands.{Command, DapRequest}
use msim_dap.Debugger.Protocol.{
  Debugger, DapEvent, HandlerAction, PostAction, Client, Message, send, event,
}
use msim_dap.Debugger.BpInfos.{bp_id}
use msim_dap.Debugger.Events.{
  clean_up, end_step, forget_step, is_step_end, hit, cause, handle_event_stopped_at,
  handle_event_terminated,
}
use msim_dap.Debugger.EventLoop.{
  DebugEvent, dap_request, msim_event, handle_dap_request, handle_msim_event, execute, answer,
  report, handle, turn, run,
}
use msim_dap.Debugger.Kept.{
  Kept, configuration_done-Kept, threads-Kept, disconnect-Kept, stack_trace-Kept, scopes-Kept,
  resume-Kept, pause-Kept, step_in-Kept, step_out-Kept, variables-Kept, set_variable-Kept,
  read_memory-Kept,
}
use msim_dap.Debugger.Kept.Breakpoints.{set_breakpoints-Kept, next-Kept}

module _ {T : DebugTarget} {P : T.State → Type 0} (inv : Invariant T P) (client : Client) where
  send-Kept : (m : Message) → Kept inv (send client m)
  unfolding send
  send-Kept m = record { at = λ d h. (h, OnOk-Anything _) }

  handle_dap_request-Kept : (command : Command) → Kept inv (handle_dap_request T client command)
  unfolding handle_dap_request
  handle_dap_request-Kept Command.initialize = Ensures-pure Anything _ tt
  handle_dap_request-Kept Command.attach = Ensures-pure Anything _ tt
  handle_dap_request-Kept Command.launch = Ensures-pure Anything _ tt
  handle_dap_request-Kept Command.configuration_done = configuration_done-Kept inv
  handle_dap_request-Kept (Command.set_breakpoints path bps) = set_breakpoints-Kept inv path bps
  handle_dap_request-Kept Command.set_exception_breakpoints = Ensures-pure Anything _ tt
  handle_dap_request-Kept Command.threads = threads-Kept inv
  handle_dap_request-Kept Command.disconnect = disconnect-Kept inv
  handle_dap_request-Kept (Command.stack_trace thread_id) = stack_trace-Kept inv thread_id
  handle_dap_request-Kept (Command.scopes frame_id) = scopes-Kept inv frame_id
  handle_dap_request-Kept Command.continue = resume-Kept inv
  handle_dap_request-Kept Command.pause = pause-Kept inv
  handle_dap_request-Kept (Command.next thread_id) = next-Kept inv thread_id
  handle_dap_request-Kept (Command.step_in thread_id) = step_in-Kept inv thread_id
  handle_dap_request-Kept (Command.step_out thread_id) = step_out-Kept inv thread_id
  handle_dap_request-Kept (Command.variables var_ref) = variables-Kept inv var_ref
  handle_dap_request-Kept (Command.set_variable var_ref name value) =
      set_variable-Kept inv var_ref name value
  handle_dap_request-Kept (Command.read_memory ref offset count) =
      read_memory-Kept inv client ref offset count
  handle_dap_request-Kept Command.source = Ensures-pure Anything _ tt
  handle_dap_request-Kept Command.other = Ensures-raise Anything _

  execute-Kept : (action : Option PostAction) → Kept inv (execute T client action)
  execute-Kept none = Ensures-pure Anything tt tt
  execute-Kept (some (PostAction.send_event e)) = send-Kept (event e)
  execute-Kept (some PostAction.disconnect) = Ensures-raise Anything _

  answer-kept :
      (req : DapRequest) (r : Result DebuggerError HandlerAction) (d : Debugger T.State)
      → P d.target
      → P (answer T client req (r, d)).1.target
  answer-kept req (ok action) d h =
      ((Ensures-then Anything _ _ (send-Kept _) (λ _. execute-Kept action.post_action)).at d h).0
  answer-kept req (err (request_failed e)) d h = ((send-Kept _).at d h).0
  answer-kept req (err DebuggerError.session_lost) d h = h
  answer-kept req (err DebuggerError.dap_disconnected) d h = h
  answer-kept req (err (dap_error e)) d h = h
  answer-kept req (err (received_fatal_error e)) d h = h

  report-kept :
      (r : Result DebuggerError (Option DapEvent)) (d : Debugger T.State)
      → P d.target
      → P (report T client (r, d)).1.target
  report-kept (ok none) d h = h
  report-kept (ok (some body)) d h = ((send-Kept (event body)).at d h).0
  report-kept (err (request_failed e)) d h = h
  report-kept (err DebuggerError.session_lost) d h = h
  report-kept (err DebuggerError.dap_disconnected) d h = h
  report-kept (err (dap_error e)) d h = h
  report-kept (err (received_fatal_error e)) d h = h

  clean_up-kept :
      (place : Option (FilePath × ℤ)) (d : Debugger T.State)
      → P d.target
      → P (clean_up T place d).target
  clean_up-kept none d h = h
  clean_up-kept (some (path, line)) d h = ((inv.remove_code_bp path line).at d.target h).0

  end_step-kept :
      (cpu address : ℕ) (d : Debugger T.State) → P d.target → P (end_step T cpu address d).target
  unfolding end_step
  end_step-kept cpu address d h = clean_up-kept _ (forget_step T cpu d) h

  hit-kept :
      (place : Option (FilePath × ℤ)) (d : Debugger T.State)
      → P d.target
      → P (hit T place d).2.target
  unfolding bp_id
  hit-kept none d h = h
  hit-kept (some (path, line)) d h = h

  cause-kept :
      (address : ℕ) (reason : StoppedAtReason) (d : Debugger T.State)
      → P d.target
      → P (cause T address reason d).2.target
  unfolding cause
  cause-kept address StoppedAtReason.paused d h = h
  cause-kept address StoppedAtReason.breakpoint d h =
      hit-kept (T.resolve_code_bp address d.target) d h
  cause-kept address StoppedAtReason.step_complete d h = h
  cause-kept address StoppedAtReason.interrupt d h = h

  handle_msim_event-kept :
      (e : Event) (d : Debugger T.State) → P d.target → P (handle_msim_event T client e d).1.target
  unfolding handle_msim_event handle_event_terminated handle_event_stopped_at
  handle_msim_event-kept terminated d h =
      ((Ensures-then Anything _ _ (send-Kept _) (λ _. Ensures-pure Anything _ tt)).at d h).0
  handle_msim_event-kept (stopped_at cpu address reason) d h =
      elim (Bool-cases (is_step_end T cpu address d)) [
        | inl done ↦ rw done (end_step-kept cpu address d h)
        | inr on ↦ rw on (cause-kept address reason d h)
      ]

  handle-kept :
      (e : DebugEvent) (d : Debugger T.State) → P d.target → P (handle T client e d).1.target
  unfolding handle
  handle-kept (dap_request req) d h =
      answer-kept req (handle_dap_request T client req.command d).0 _
        ((handle_dap_request-Kept req.command).at d h).0
  handle-kept (msim_event e) d h =
      report-kept (handle_msim_event T client e d).0 _ (handle_msim_event-kept e d h)

  turn-kept :
      (message : Result ListenerError DebugEvent) (d : Debugger T.State)
      → P d.target
      → P (turn T client message d).1.target
  unfolding turn
  turn-kept (ok e) d h = handle-kept e d h
  turn-kept (err fatal) d h = h

  rest-kept :
      (out : Option (Result DebuggerError (Unit {0}))) (d : Debugger T.State)
      (later : Result DebuggerError (Unit {0}) × Debugger T.State)
      → P d.target
      → P later.1.target
      → P
          (elim out as (λ x. Result DebuggerError (Unit {0}) × Debugger T.State) [
            | none ↦ later
            | some result ↦ (result, d)
          ]).1.target
  rest-kept none d later h l = l
  rest-kept (some result) d later h l = h

  pub run-kept :
      (messages : List (Result ListenerError DebugEvent)) (d : Debugger T.State)
      → P d.target
      → P (run T client messages d).1.target
  unfolding run
  run-kept [] d h = h
  run-kept (message ∷ messages) d h =
      let (out, d') = turn T client message d in
      let h' = turn-kept message d h in rest-kept out d' _ h' (run-kept messages d' h')
