-- ===== src/Debugger/BpInfos.antt =====
-- src/debugger/requests.rs, the part of `set_breakpoints` that makes what the client is told of each
-- of its breakpoints.
use msim_dap.Common.{true, false, Option, none, some, List, [], ◌∷◌, nat_eq, list_eq}
use msim_dap.Common.Int.{ℤ, pos}
use msim_dap.Common.Results.{Result, ok, err}
use msim_dap.Common.Exec.{Exec, pure, ◌>>=◌}
use msim_dap.Target.{FilePath, TargetError}
use msim_dap.Debugger.{DebuggerError}
use msim_dap.Debugger.Registries.{get_id}
use msim_dap.Debugger.Commands.{SourceBreakpoint}
use msim_dap.Debugger.Protocol.{
  Debugger, HandlerAction, ResponseBody, PostAction, send_event, initialized, Breakpoint, BpMessage,
  Client, on_target, Variable,
}
use msim_dap.Debugger.Protocol

-- `i64::from(self.bp_registry.get_id(path, line))`
unfoldable pub bp_id : {S : Type 0} → FilePath → ℤ → Debugger S → ℤ × Debugger S
bp_id path line d =
    let (id, registry) = get_id path line d.bp_registry in
    (pos id, record d { bp_registry = registry })

-- The message for an error that is not fatal.
unfoldable pub bp_message : FilePath → ℤ → TargetError → Option BpMessage
bp_message path line TargetError.request_failed = some (Protocol.setting_failed path line)
bp_message path line (TargetError.address_not_found p l) = some (Protocol.address_not_found p l)
bp_message path line (TargetError.address_out_of_range a) =
    some (Protocol.address_out_of_range path line a)
bp_message path line _ = none

-- One round of the loop of `set_breakpoints`.
unfoldable pub bp_info :
    {S : Type 0}
    → FilePath
    → SourceBreakpoint
    → Result TargetError (Unit {0})
    → Exec (Debugger S) DebuggerError Breakpoint
bp_info path bp (ok u) d =
    let (id, d') = bp_id path bp.line d in
    (
      ok (record {
        id = some id;
        verified = true;
        message = none;
        line = bp.line;
        column = bp.column;
      }),
      d',
    )
bp_info path bp (err TargetError.session_lost) d = (err DebuggerError.session_lost, d)
bp_info path bp (err e) d = (
  ok (record {
    id = none;
    verified = false;
    message = bp_message path bp.line e;
    line = bp.line;
    column = bp.column;
  }),
  d,
)

-- The loop over `zip(bps, results)`
unfoldable pub bp_infos :
    {S : Type 0}
    → FilePath
    → List SourceBreakpoint
    → List (Result TargetError (Unit {0}))
    → Exec (Debugger S) DebuggerError (List Breakpoint)
bp_infos path [] results = pure []
bp_infos path (bp ∷ bps) [] = pure []
bp_infos path (bp ∷ bps) (result ∷ results) = do
  info ← bp_info path bp result
  infos ← bp_infos path bps results
  pure (info ∷ infos)
