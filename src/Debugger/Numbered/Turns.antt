-- ===== src/Debugger/Numbered/Turns.antt =====
-- src/debugger/core.rs and events.rs: for how many ids a turn of the event loop asks at most.
use msim_dap.Common.{
  ℕ, ◌+◌, ◌≡◌, refl, ◌∙◌, Option, none, some, List, [], ◌∷◌, arith, Bool-cases, inl, inr, nat_eq,
  int_eq, string_eq, list_eq, pair_eq,
}
use msim_dap.Common.Int.{ℤ}
use msim_dap.Common.Results.{Result, ok, err}
use msim_dap.Common.Exec.{Keeps-pure, Keeps-raise, Keeps-bind}
use msim_dap.Msim.Frame.{StoppedAtReason}
use msim_dap.Msim.Messages.{Event, terminated, stopped_at}
use msim_dap.Target.{FilePath}
use msim_dap.Target.Interface.{DebugTarget}
use msim_dap.Debugger.{
  BpRegistry, DebuggerError, ListenerError, request_failed, dap_error, received_fatal_error,
}
use msim_dap.Debugger.Commands.{Command, DapRequest}
use msim_dap.Debugger.Protocol.{
  Debugger, DapEvent, HandlerAction, PostAction, Client, event, success,
}
use msim_dap.Debugger.BpInfos.{bp_id}
use msim_dap.Debugger.Events.{
  clean_up, end_step, forget_step, is_step_end, hit, cause, handle_event_stopped_at,
  handle_event_terminated,
}
use msim_dap.Debugger.EventLoop.{
  DebugEvent, dap_request, msim_event, handle_dap_request, handle_msim_event, execute, answer,
  report, handle, turn,
}
use msim_dap.Debugger.Numbered.{
  Leaves, send-Leaves, configuration_done-Leaves, resume-Leaves, pause-Leaves, threads-Leaves,
  disconnect-Leaves, stack_trace-Leaves, scopes-Leaves, variables-Leaves, set_variable-Leaves,
  step_in-Leaves, step_out-Leaves, read_memory-Leaves, next-Leaves,
}
use msim_dap.Debugger.Numbered.Asking.{
  Gives, Gives-none, Gives-one, Asks, Leaves-Asks, breakpoints_in, set_breakpoints-Asks,
}

-- For how many ids a message that was received may ask.
abbrev pub ids_for : Result ListenerError DebugEvent → ℕ
ids_for (ok (dap_request req)) = breakpoints_in req.command
ids_for (ok (msim_event terminated)) = 0
ids_for (ok (msim_event (stopped_at cpu address reason))) = 1
ids_for (err e) = 0

abbrev pub ids_for_all : List (Result ListenerError DebugEvent) → ℕ
ids_for_all [] = 0
ids_for_all (message ∷ messages) = ids_for message + ids_for_all messages

module _ (T : DebugTarget) (client : Client) where
  handle_dap_request-Asks :
      (command : Command) → Asks (breakpoints_in command) (handle_dap_request T client command)
  unfolding handle_dap_request
  handle_dap_request-Asks Command.initialize = λ d. Gives-none 0 _ _ refl
  handle_dap_request-Asks Command.attach = λ d. Gives-none 0 _ _ refl
  handle_dap_request-Asks Command.launch = λ d. Gives-none 0 _ _ refl
  handle_dap_request-Asks Command.configuration_done =
      Leaves-Asks T _ (λ r. configuration_done-Leaves T r)
  handle_dap_request-Asks (Command.set_breakpoints path bps) = set_breakpoints-Asks T path bps
  handle_dap_request-Asks Command.set_exception_breakpoints = λ d. Gives-none 0 _ _ refl
  handle_dap_request-Asks Command.threads = Leaves-Asks T _ (λ r. threads-Leaves T r)
  handle_dap_request-Asks Command.disconnect = Leaves-Asks T _ (λ r. disconnect-Leaves T r)
  handle_dap_request-Asks (Command.stack_trace thread_id) =
      Leaves-Asks T _ (λ r. stack_trace-Leaves T r thread_id)
  handle_dap_request-Asks (Command.scopes frame_id) =
      Leaves-Asks T _ (λ r. scopes-Leaves T r frame_id)
  handle_dap_request-Asks Command.continue = Leaves-Asks T _ (λ r. resume-Leaves T r)
  handle_dap_request-Asks Command.pause = Leaves-Asks T _ (λ r. pause-Leaves T r)
  handle_dap_request-Asks (Command.next thread_id) =
      Leaves-Asks T _ (λ r. next-Leaves T r thread_id)
  handle_dap_request-Asks (Command.step_in thread_id) =
      Leaves-Asks T _ (λ r. step_in-Leaves T r thread_id)
  handle_dap_request-Asks (Command.step_out thread_id) =
      Leaves-Asks T _ (λ r. step_out-Leaves T r thread_id)
  handle_dap_request-Asks (Command.variables var_ref) =
      Leaves-Asks T _ (λ r. variables-Leaves T r var_ref)
  handle_dap_request-Asks (Command.set_variable var_ref name value) =
      Leaves-Asks T _ (λ r. set_variable-Leaves T r var_ref name value)
  handle_dap_request-Asks (Command.read_memory ref offset count) =
      Leaves-Asks T _ (λ r. read_memory-Leaves T r client ref offset count)
  handle_dap_request-Asks Command.source = λ d. Gives-none 0 _ _ refl
  handle_dap_request-Asks Command.other = λ d. Gives-none 0 _ _ refl

  module _ (r : BpRegistry) where
    execute-Leaves : (action : Option PostAction) → Leaves T r (execute T client action)
    execute-Leaves none = Keeps-pure tt
    execute-Leaves (some (PostAction.send_event e)) = send-Leaves T r client (event e)
    execute-Leaves (some PostAction.disconnect) = Keeps-raise _

    answer-leaves :
        (req : DapRequest) (result : Result DebuggerError HandlerAction) (d : Debugger T.State)
        → d.bp_registry ≡ r
        → (answer T client req (result, d)).1.bp_registry ≡ r
    answer-leaves req (ok action) d h =
        (Keeps-bind _ _ (send-Leaves T r client (success req action.body))
            (λ _. execute-Leaves action.post_action)).at
          d h
    answer-leaves req (err (request_failed e)) d h = (send-Leaves T r client _).at d h
    answer-leaves req (err DebuggerError.session_lost) d h = h
    answer-leaves req (err DebuggerError.dap_disconnected) d h = h
    answer-leaves req (err (dap_error e)) d h = h
    answer-leaves req (err (received_fatal_error e)) d h = h

    report-leaves :
        (result : Result DebuggerError (Option DapEvent)) (d : Debugger T.State)
        → d.bp_registry ≡ r
        → (report T client (result, d)).1.bp_registry ≡ r
    report-leaves (ok none) d h = h
    report-leaves (ok (some body)) d h = (send-Leaves T r client (event body)).at d h
    report-leaves (err (request_failed e)) d h = h
    report-leaves (err DebuggerError.session_lost) d h = h
    report-leaves (err DebuggerError.dap_disconnected) d h = h
    report-leaves (err (dap_error e)) d h = h
    report-leaves (err (received_fatal_error e)) d h = h

  clean_up-leaves :
      (place : Option (FilePath × ℤ)) (d : Debugger T.State)
      → (clean_up T place d).bp_registry ≡ d.bp_registry
  clean_up-leaves none d = refl
  clean_up-leaves (some (path, line)) d = refl

  end_step-leaves :
      (cpu address : ℕ) (d : Debugger T.State)
      → (end_step T cpu address d).bp_registry ≡ d.bp_registry
  unfolding end_step
  end_step-leaves cpu address d = clean_up-leaves _ (forget_step T cpu d)

  hit-Gives :
      (place : Option (FilePath × ℤ)) (d : Debugger T.State)
      → Gives 1 d.bp_registry (hit T place d).2.bp_registry
  unfolding bp_id
  hit-Gives none d = Gives-none 1 _ _ refl
  hit-Gives (some (path, line)) d = Gives-one 1 path line d.bp_registry (omega arith)

  cause-Gives :
      (address : ℕ) (reason : StoppedAtReason) (d : Debugger T.State)
      → Gives 1 d.bp_registry (cause T address reason d).2.bp_registry
  unfolding cause
  cause-Gives address StoppedAtReason.paused d = Gives-none 1 _ _ refl
  cause-Gives address StoppedAtReason.breakpoint d =
      hit-Gives (T.resolve_code_bp address d.target) d
  cause-Gives address StoppedAtReason.step_complete d = Gives-none 1 _ _ refl
  cause-Gives address StoppedAtReason.interrupt d = Gives-none 1 _ _ refl

  handle_msim_event-Gives :
      (e : Event) (d : Debugger T.State)
      → Gives
          (ids_for (ok (msim_event e)))
          d.bp_registry
          (handle_msim_event T client e d).1.bp_registry
  unfolding handle_msim_event handle_event_terminated handle_event_stopped_at
  handle_msim_event-Gives terminated d =
      Gives-none 0 _ _
        ((Keeps-bind _ _ (send-Leaves T d.bp_registry client _) (λ _. Keeps-pure _)).at d refl)
  handle_msim_event-Gives (stopped_at cpu address reason) d =
      elim (Bool-cases (is_step_end T cpu address d)) [
        | inl done ↦ rw done (Gives-none 1 _ _ (end_step-leaves cpu address d))
        | inr on ↦ rw on (cause-Gives address reason d)
      ]

  pub turn-Gives :
      (message : Result ListenerError DebugEvent) (d : Debugger T.State)
      → Gives (ids_for message) d.bp_registry (turn T client message d).1.bp_registry
  unfolding turn handle
  turn-Gives (err fatal) d = Gives-none 0 _ _ refl
  turn-Gives (ok (dap_request req)) d =
      let (result, d') = handle_dap_request T client req.command d in
      let (ps, few, p) = handle_dap_request-Asks req.command d in
      (ps, few, answer-leaves d'.bp_registry req result d' refl ∙ p)
  turn-Gives (ok (msim_event e)) d =
      let (result, d') = handle_msim_event T client e d in
      let (ps, few, p) = handle_msim_event-Gives e d in
      (ps, few, report-leaves d'.bp_registry result d' refl ∙ p)
