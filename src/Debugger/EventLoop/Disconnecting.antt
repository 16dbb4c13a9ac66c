-- ===== src/Debugger/EventLoop/Disconnecting.antt =====
-- The end of a run at the client's request to disconnect.
use msim_dap.Common.{◌≡◌, refl, ap, ◌∙◌, some, List, ◌∷◌}
use msim_dap.Common.Int.{ℤ}
use msim_dap.Common.Results.{Result, ok, err}
use msim_dap.Msim.Frame.{terminate}
use msim_dap.Target.{Env, MsimTarget, send_raw}
use msim_dap.Target.Control
use msim_dap.Target.Interface.{msim_target}
use msim_dap.Debugger.{AdapterError, DebuggerError, ListenerError, dap_error}
use msim_dap.Debugger.Commands.{Command, DapRequest}
use msim_dap.Debugger.Protocol.{Client, Debugger, ResponseBody, Message, success, send}
use msim_dap.Debugger.Requests
use msim_dap.Debugger.EventLoop.{DebugEvent, dap_request, handle, handle_dap_request, turn, run}
use msim_dap.Debugger.EventLoop.Turns.{run-ends}

-- The request to disconnect, by its number, and the response to it.
abbrev pub quit : ℤ → DapRequest
quit seq = record { seq = seq; command = Command.disconnect }

abbrev pub farewell : ℤ → Message
farewell seq = success (quit seq) ResponseBody.disconnect

-- What the run returns, by whether the client took the response.
abbrev pub closing : Result AdapterError (Unit {0}) → Result DebuggerError (Unit {0})
closing (ok u) = ok tt
closing (err e) = err (dap_error e)

module _ (env : Env) (client : Client) where
  -- The debugger after it: MSIM was asked to terminate, and the response was sent.
  abbrev pub disconnected : ℤ → Debugger MsimTarget → Debugger MsimTarget
  disconnected seq d = record d {
    sent = farewell seq ∷ d.sent;
    target = record d.target {
      exchanges = (terminate, env.answer d.target.exchanges terminate) ∷ d.target.exchanges;
    };
  }

  turn-disconnects :
      (seq : ℤ) (d : Debugger MsimTarget) (taken : Result AdapterError (Unit {0}))
      → client.deliver d.sent (farewell seq) ≡ taken
      → turn (msim_target env) client (ok (dap_request (quit seq))) d
        ≡ (some (closing taken), disconnected seq d)
  unfolding turn handle handle_dap_request Requests.disconnect Control.terminate send_raw send
  turn-disconnects seq d (ok u) h = rw h refl
  turn-disconnects seq d (err e) h = rw h refl

  -- Whatever MSIM answers, and also where the session with it is lost: a run ends when it receives the
  -- request to disconnect, with all that follows left alone. MSIM was asked once to terminate, the client
  -- was sent the response, and nothing else has changed; it is an error only if the client did not take
  -- the response.
  pub run-disconnected :
      (seq : ℤ) (later : List (Result ListenerError DebugEvent)) (d : Debugger MsimTarget)
      → run (msim_target env) client (ok (dap_request (quit seq)) ∷ later) d
        ≡ (closing (client.deliver d.sent (farewell seq)), disconnected seq d)
  run-disconnected seq later d =
      let result = closing (client.deliver d.sent (farewell seq)) in
      let t = turn-disconnects seq d (client.deliver d.sent (farewell seq)) refl in
      run-ends (msim_target env) client (ok (dap_request (quit seq))) later d result
        (ap (λ x. x.0) t)
      ∙ ap (λ x. (result, x.1)) t
