-- ===== src/Debugger/EventLoop/Answers.antt =====
-- What one request makes the debugger send.
use msim_dap.Common.{arith, ◌≡◌, ◌≢◌, ◌⊎◌, inl, inr, refl, sym, none, some, List, ◌∷◌, subst}
use msim_dap.Common.Results.{Result, ok, err}
use msim_dap.Target.Interface.{DebugTarget}
use msim_dap.Debugger.{DebuggerError, Failure, request_failed, dap_error, received_fatal_error}
use msim_dap.Debugger.Commands.{Command, DapRequest}
use msim_dap.Debugger.Protocol.{
  Debugger, HandlerAction, PostAction, ResponseBody, Message, Client, send, success, error, event,
  initialized,
}
use msim_dap.Debugger.Requests
use msim_dap.Debugger.EventLoop.{dap_request, handle, handle_dap_request, answer}
use msim_dap.Debugger.EventLoop.Usual.{IsUsual}
use msim_dap.Debugger.EventLoop.Quiet.{
  Quiet, IsPlain, configuration_done-Quiet, stack_trace-Quiet, scopes-Quiet, resume-Quiet,
  pause-Quiet, step_in-Quiet, step_out-Quiet, variables-Quiet, set_variable-Quiet,
  read_memory-Quiet, set_breakpoints-Quiet, threads-Quiet, next-Quiet,
}

-- The outcomes that a request may have: the result of `handle`, and the messages sent, the latest first.
pub data Answered (req : DapRequest) (sent : List Message)
    : Result DebuggerError (Unit {0}) → List Message → Type 0 where
  -- The session with MSIM is lost: no answer, and the loop ends.
  lost : req.command ≢ Command.disconnect → Answered req sent (err DebuggerError.session_lost) sent
  -- One error response.
  failed :
      req.command ≢ Command.disconnect
      → (e : Failure) → Answered req sent (ok tt) (error req e ∷ sent)
  -- One response.
  replied :
      req.command ≢ Command.disconnect
      → (body : ResponseBody) → Answered req sent (ok tt) (success req body ∷ sent)
  -- `initialize`: the response, and then the event `Initialized`.
  started :
      req.command ≡ Command.initialize
      → Answered req sent (ok tt) (event initialized ∷ success req ResponseBody.initialize ∷ sent)
  -- `disconnect`: the response, and the loop ends.
  ended :
      req.command ≡ Command.disconnect
      → Answered req sent
          (err DebuggerError.dap_disconnected)
          (success req ResponseBody.disconnect ∷ sent)

disconnect-cases :
    (command : Command) → (command ≡ Command.disconnect) ⊎ (command ≢ Command.disconnect)
disconnect-cases Command.disconnect = inl refl
disconnect-cases Command.initialize = inr (λ e. cc)
disconnect-cases _ = inr (λ e. cc)

-- The actions that handlers return.
pub data IsAction (command : Command) : HandlerAction → Type 0 where
  plain : (body : ResponseBody) → IsAction command (record { body = body; post_action = none })
  initialize : command ≡ Command.initialize → IsAction command Requests.initialize
  disconnect :
      command ≡ Command.disconnect
      → IsAction command
          (record { body = ResponseBody.disconnect; post_action = some PostAction.disconnect })

module _ (T : DebugTarget) (client : Client)
    (delivers : (log : List Message) (m : Message) → client.deliver log m ≡ ok tt) where
  pub send-sends :
      (m : Message) (d : Debugger T.State)
      → send client m d ≡ (ok tt, record d { sent = m ∷ d.sent })
  unfolding send
  send-sends m d = rw (delivers d.sent m) refl

  -- Any action of a handler that sends nothing leads to one of the outcomes.
  answer-Answered :
      (req : DapRequest) (sent : List Message) (r : Result DebuggerError HandlerAction)
      (d : Debugger T.State)
      → req.command ≢ Command.disconnect
      → d.sent ≡ sent
      → IsUsual (IsAction req.command) r
      → Answered req sent (answer T client req (r, d)).0 (answer T client req (r, d)).1.sent
  answer-Answered req sent (ok action) d stays same (plain body) =
      rw (send-sends (success req body) d, same) (replied stays body)
  answer-Answered req sent (ok action) d stays same (initialize at) =
      rw
        (
          send-sends (success req ResponseBody.initialize) d,
          send-sends (event initialized)
              (record d { sent = success req ResponseBody.initialize ∷ d.sent }),
          same,
        )
        (started at)
  answer-Answered req sent (ok action) d stays same (disconnect at) = absurd (stays at)
  answer-Answered req sent (err (request_failed e)) d stays same q =
      rw (send-sends (error req e) d, same) (failed stays e)
  answer-Answered req sent (err DebuggerError.session_lost) d stays same q = rw same (lost stays)
  answer-Answered req sent (err DebuggerError.dap_disconnected) d stays same q =
      absurd (ground (arith, q))
  answer-Answered req sent (err (dap_error e)) d stays same q = absurd (ground (arith, q))
  answer-Answered req sent (err (received_fatal_error e)) d stays same q =
      absurd (ground (arith, q))

  disconnect-handled :
      (d : Debugger T.State)
      → handle_dap_request T client Command.disconnect d ≡ (
        ok (record { body = ResponseBody.disconnect; post_action = some PostAction.disconnect }),
        record d { target = (T.terminate d.target).1 },
      )
  unfolding handle_dap_request Requests.disconnect
  disconnect-handled d = refl

  disconnect-answered :
      (req : DapRequest) (d : Debugger T.State)
      → req.command ≡ Command.disconnect
      → let reply = answer T client req (
        ok (record { body = ResponseBody.disconnect; post_action = some PostAction.disconnect }),
        d,
      ) in
        Answered req d.sent reply.0 reply.1.sent
  disconnect-answered req d at = rw (send-sends (success req ResponseBody.disconnect) d) (ended at)

  -- The request to disconnect is answered, and ends the loop.
  disconnect-Answered :
      (req : DapRequest) (d : Debugger T.State)
      → req.command ≡ Command.disconnect
      → Answered req d.sent
          (handle T client (dap_request req) d).0
          (handle T client (dap_request req) d).1.sent
  unfolding handle
  disconnect-Answered req d at =
      rw (at, disconnect-handled d)
        (disconnect-answered (record { seq = req.seq; command = Command.disconnect })
          (record d { target = (T.terminate d.target).1 }) refl)

  plain-IsAction :
      (command : Command) (action : HandlerAction) → IsPlain action → IsAction command action
  plain-IsAction command action h =
      subst (λ p. IsAction command (record { body = action.body; post_action = p })) (sym h)
        (plain action.body)

  IsUsual-IsAction :
      (command : Command) (r : Result DebuggerError HandlerAction)
      → IsUsual IsPlain r
      → IsUsual (IsAction command) r
  IsUsual-IsAction command (ok action) q = plain-IsAction command action q
  IsUsual-IsAction command (err (request_failed e)) q = tt
  IsUsual-IsAction command (err DebuggerError.session_lost) q = tt
  IsUsual-IsAction command (err DebuggerError.dap_disconnected) q = q
  IsUsual-IsAction command (err (dap_error e)) q = q
  IsUsual-IsAction command (err (received_fatal_error e)) q = q

  Quiet-IsAction :
      (command : Command) (m : Requests.Handler T) → Quiet IsPlain m → Quiet (IsAction command) m
  Quiet-IsAction command m q = record {
    at = λ d. let (same, usual) = q.at d in (same, IsUsual-IsAction command (m d).0 usual);
  }

  handle_dap_request-Quiet :
      (command : Command) → Quiet (IsAction command) (handle_dap_request T client command)
  unfolding handle_dap_request Requests.disconnect
  handle_dap_request-Quiet Command.initialize = record { at = λ d. (refl, initialize refl) }
  handle_dap_request-Quiet Command.attach = record { at = λ d. (refl, plain _) }
  handle_dap_request-Quiet Command.launch = record { at = λ d. (refl, plain _) }
  handle_dap_request-Quiet Command.configuration_done =
      Quiet-IsAction _ _ (configuration_done-Quiet T)
  handle_dap_request-Quiet (Command.set_breakpoints path bps) =
      Quiet-IsAction _ _ (set_breakpoints-Quiet T path bps)
  handle_dap_request-Quiet Command.set_exception_breakpoints = record { at = λ d. (refl, plain _) }
  handle_dap_request-Quiet Command.threads = Quiet-IsAction _ _ (threads-Quiet T)
  handle_dap_request-Quiet Command.disconnect = record { at = λ d. (refl, disconnect refl) }
  handle_dap_request-Quiet (Command.stack_trace thread_id) =
      Quiet-IsAction _ _ (stack_trace-Quiet T thread_id)
  handle_dap_request-Quiet (Command.scopes frame_id) = Quiet-IsAction _ _ (scopes-Quiet T frame_id)
  handle_dap_request-Quiet Command.continue = Quiet-IsAction _ _ (resume-Quiet T)
  handle_dap_request-Quiet Command.pause = Quiet-IsAction _ _ (pause-Quiet T)
  handle_dap_request-Quiet (Command.next thread_id) = Quiet-IsAction _ _ (next-Quiet T thread_id)
  handle_dap_request-Quiet (Command.step_in thread_id) =
      Quiet-IsAction _ _ (step_in-Quiet T thread_id)
  handle_dap_request-Quiet (Command.step_out thread_id) =
      Quiet-IsAction _ _ (step_out-Quiet T thread_id)
  handle_dap_request-Quiet (Command.variables var_ref) =
      Quiet-IsAction _ _ (variables-Quiet T var_ref)
  handle_dap_request-Quiet (Command.set_variable var_ref name value) =
      Quiet-IsAction _ _ (set_variable-Quiet T var_ref name value)
  handle_dap_request-Quiet (Command.read_memory ref offset count) =
      Quiet-IsAction _ _ (read_memory-Quiet T client ref offset count)
  handle_dap_request-Quiet Command.source = record { at = λ d. (refl, plain _) }
  handle_dap_request-Quiet Command.other = record { at = λ d. (refl, tt) }

  pub handle-Answered :
      (req : DapRequest) (d : Debugger T.State)
      → Answered req d.sent
          (handle T client (dap_request req) d).0
          (handle T client (dap_request req) d).1.sent
  unfolding handle
  handle-Answered req d = elim (disconnect-cases req.command) [
    | inl at ↦ disconnect-Answered req d at
    | inr stays ↦
        let (same, usual) = (handle_dap_request-Quiet req.command).at d in
        let (r, d') = handle_dap_request T client req.command d in
        answer-Answered req d.sent r d' stays same usual
  ]
