-- ===== src/Debugger/Events.antt =====
-- src/debugger/events.rs: the handlers of MSIM events.
pub mod StepEnd
pub mod BpHit
pub mod StepOver
use msim_dap.Common.{ℕ, Bool, false, Option, none, some, List, [], ◌∷◌, if◌then◌else◌, ◌==◌, nat_eq}
use msim_dap.Common.Int.{ℤ, pos}
use msim_dap.Common.Map.{lookup, remove}
use msim_dap.Common.Results.{ok}
use msim_dap.Common.Exec.{Exec, pure, ◌>>◌}
use msim_dap.Msim.Frame.{StoppedAtReason}
use msim_dap.Target.{FilePath}
use msim_dap.Target.Interface.{DebugTarget}
use msim_dap.Debugger.{DebuggerError}
use msim_dap.Debugger.Registries.{cpu_to_thread_id}
use msim_dap.Debugger.Protocol.{
  Debugger, DapEvent, StoppedEventReason, event, terminated, exited, stopped, Client, send,
}
use msim_dap.Debugger.BpInfos.{bp_id}

module _ (T : DebugTarget) where
  abbrev pub EventHandler : Type 0
  EventHandler = Exec (Debugger T.State) DebuggerError (Option DapEvent)

  unfoldable pub handle_event_terminated : Client → EventHandler
  handle_event_terminated client = do send client (event terminated); pure (some (exited (pos 0)))

  -- `self.step_bp.get(&cpu) == Some(&address)`
  unfoldable pub is_step_end : ℕ → ℕ → Debugger T.State → Bool
  is_step_end cpu address d = elim (lookup cpu d.step_bp) [
    | none ↦ false
    | some pending ↦ pending == address
  ]

  abbrev pub forget_step : ℕ → Debugger T.State → Debugger T.State
  forget_step cpu d = record d { step_bp = remove cpu d.step_bp }

  -- The removal of the breakpoint at the end of a step, whose outcome is dropped.
  abbrev pub clean_up : Option (FilePath × ℤ) → Debugger T.State → Debugger T.State
  clean_up none d = d
  clean_up (some (path, line)) d = record d { target = (T.remove_code_bp path line d.target).1 }

  unfoldable pub end_step : ℕ → ℕ → Debugger T.State → Debugger T.State
  end_step cpu address d =
      clean_up (T.resolve_address address (forget_step cpu d).target) (forget_step cpu d)

  -- The reason for the client, and the id of the breakpoint that was hit.
  abbrev Cause : Type 0
  Cause = StoppedEventReason × Option ℤ × Debugger T.State

  abbrev pub hit : Option (FilePath × ℤ) → Debugger T.State → Cause
  hit none d = (StoppedEventReason.breakpoint, none, d)
  hit (some (path, line)) d =
      let (id, d') = bp_id path line d in (StoppedEventReason.breakpoint, some id, d')

  unfoldable pub cause : ℕ → StoppedAtReason → Debugger T.State → Cause
  cause address StoppedAtReason.paused d = (StoppedEventReason.pause, none, d)
  cause address StoppedAtReason.breakpoint d = hit (T.resolve_code_bp address d.target) d
  cause address StoppedAtReason.step_complete d = (StoppedEventReason.step, none, d)
  cause address StoppedAtReason.interrupt d = (StoppedEventReason.exception, none, d)

  abbrev ids : Option ℤ → Option (List ℤ)
  ids none = none
  ids (some id) = some (id ∷ [])

  unfoldable pub handle_event_stopped_at : ℕ → ℕ → StoppedAtReason → EventHandler
  handle_event_stopped_at cpu address reason d =
      let (dap_reason, id, d') =
        if is_step_end cpu address d
        then (StoppedEventReason.step, none, end_step cpu address d)
        else cause address reason d in
      (
        ok (
            some (
              stopped (record {
                reason = dap_reason;
                address = address;
                place = T.resolve_address address d.target;
                thread_id = cpu_to_thread_id cpu;
                hit_breakpoint_ids = ids id;
              }))),
        d',
      )
