-- ===== src/Debugger/Kept/Ranges.antt =====
-- Runs of src/debugger/core.rs over an `MsimTarget`, where its requests have 64-bit fields.
use msim_dap.Common.{List, []}
use msim_dap.Common.Results.{Result}
use msim_dap.Target
use msim_dap.Target.{Exchange, Env}
use msim_dap.Target.Sent.{AnswersWords, HasWords, Grows}
use msim_dap.Target.Interface.{msim_target}
use msim_dap.Target.Interface.Sent.{sent}
use msim_dap.Debugger.{ListenerError}
use msim_dap.Debugger.Protocol.{Client, new}
use msim_dap.Debugger.EventLoop.{DebugEvent, run}
use msim_dap.Debugger.Kept.Runs.{run-kept}

-- What a run keeps of the exchanges: what each request with 64-bit fields keeps.
pub run-Holds :
    (env : Env) (client : Client) (messages : List (Result ListenerError DebugEvent))
    → AnswersWords env.answer
    → HasWords env.index
    → (P : List Exchange → Type 0) → Grows env P
    → P []
    → P (run (msim_target env) client messages (new Target.new)).1.target.exchanges
run-Holds env client messages replies index P grows start =
    run-kept (sent env replies P grows index) client messages (new Target.new) start
