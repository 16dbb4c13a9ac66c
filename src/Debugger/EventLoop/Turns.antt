-- ===== src/Debugger/EventLoop/Turns.antt =====
-- `run` by its rounds.
use msim_dap.Common.{◌≡◌, refl, none, some, List, ◌∷◌}
use msim_dap.Common.Results.{Result}
use msim_dap.Target.Interface.{DebugTarget}
use msim_dap.Debugger.{DebuggerError, ListenerError}
use msim_dap.Debugger.Protocol.{Client, Debugger}
use msim_dap.Debugger.EventLoop.{DebugEvent, turn, run}

module _ (T : DebugTarget) (client : Client) where
  pub run-goes_on :
      (m : Result ListenerError DebugEvent) (ms : List (Result ListenerError DebugEvent))
      (d : Debugger T.State)
      → (turn T client m d).0 ≡ none
      → run T client (m ∷ ms) d ≡ run T client ms (turn T client m d).1
  unfolding run
  run-goes_on m ms d h = rw (h, run) refl

  pub run-ends :
      (m : Result ListenerError DebugEvent) (ms : List (Result ListenerError DebugEvent))
      (d : Debugger T.State) (r : Result DebuggerError (Unit {0}))
      → (turn T client m d).0 ≡ some r
      → run T client (m ∷ ms) d ≡ (r, (turn T client m d).1)
  unfolding run
  run-ends m ms d r h = rw (h, run) refl
