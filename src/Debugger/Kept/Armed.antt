-- ===== src/Debugger/Kept/Armed.antt =====
-- Runs of src/debugger/core.rs over an `MsimTarget`: the breakpoint addresses that the target remembers.
use msim_dap.Common.{ℕ, ◌≡◌, ◌&&◌, not, List, nat_eq}
use msim_dap.Common.Map.{contains}
use msim_dap.Common.Results.{Result}
use msim_dap.Target
use msim_dap.Target.{Env}
use msim_dap.Target.Breakpoints.Log.{is_set, is_abandoned}
use msim_dap.Target.Session.Logged.{new-IsLogged}
use msim_dap.Target.Interface.{msim_target}
use msim_dap.Target.Interface.Logged.{logged}
use msim_dap.Debugger.{ListenerError}
use msim_dap.Debugger.Protocol.{Client, new}
use msim_dap.Debugger.EventLoop.{DebugEvent, run}
use msim_dap.Debugger.Kept.Runs.{run-kept}

-- Whatever a run of the debugger receives, from the client and of MSIM's events, whatever MSIM
-- answers and the index says, and however the run ends: an address is among the breakpoint
-- addresses that the target remembers exactly if a breakpoint is set there by what MSIM has
-- acknowledged, requests to set and to remove, and MSIM has not left a request to remove it
-- unacknowledged since.
pub run-armed :
    (env : Env) (client : Client) (messages : List (Result ListenerError DebugEvent)) (a : ℕ)
    → contains a
        (run (msim_target env) client messages (new Target.new)).1.target.bp_store.bps_addresses
      ≡ (is_set a (run (msim_target env) client messages (new Target.new)).1.target.exchanges
          && not (
              is_abandoned a
                (run (msim_target env) client messages (new Target.new)).1.target.exchanges))
run-armed env client messages a =
    run-kept (logged env) client messages (new Target.new) new-IsLogged a
