-- ===== src/Debugger/Events/StepEnd.antt =====
-- The end of a step over.
use msim_dap.Common.{
  ℕ, ◌≡◌, refl, arith, Bool, true, false, Option, none, some, nat_eq, eq_self, same, ◌==◌,
  if◌then◌else◌, Bool-cases, inl, inr,
}
use msim_dap.Common.Int.{ℤ}
use msim_dap.Common.Map.{lookup, remove, lookup-remove, contains-set_remove}
use msim_dap.Common.Results.{Result, ok}
use msim_dap.Common.Exec.{continue_keeps}
use msim_dap.Msim.Frame.{StoppedAtReason}
use msim_dap.Msim.Messages.{to_result}
use msim_dap.Target.{FilePath, Env, MsimTarget, request, send, send_raw}
use msim_dap.Target.Breakpoints.{remove_code_bp, disarm, drop_address, drop_entry}
use msim_dap.Target.Breakpoints.Acknowledged.{is_armed}
use msim_dap.Target.Interface.{DebugTarget, msim_target}
use msim_dap.Debugger.{DebuggerError}
use msim_dap.Debugger.Registries.{cpu_to_thread_id}
use msim_dap.Debugger.Protocol.{Debugger, DapEvent, StoppedEventReason, stopped}
use msim_dap.Debugger.Events.{handle_event_stopped_at, is_step_end, end_step}

module _ (T : DebugTarget) (cpu a : ℕ) where
  pending-is_step_end :
      (d : Debugger T.State) → lookup cpu d.step_bp ≡ some a → is_step_end T cpu a d ≡ true
  unfolding is_step_end
  pending-is_step_end d pending = ground (arith, pending, eq_self a)

  stopped_at-step :
      (reason : StoppedAtReason) (d : Debugger T.State)
      → is_step_end T cpu a d ≡ true
      → handle_event_stopped_at T cpu a reason d ≡ (
        ok (
            some (
              stopped (record {
                reason = StoppedEventReason.step;
                address = a;
                place = T.resolve_address a d.target;
                thread_id = cpu_to_thread_id cpu;
                hit_breakpoint_ids = none;
              }))),
        end_step T cpu a d,
      )
  unfolding handle_event_stopped_at
  stopped_at-step reason d at_end = rw at_end refl

  end_step-resolved :
      (path : FilePath) (line : ℤ) (d : Debugger T.State)
      → T.resolve_address a d.target ≡ some (path, line)
      → end_step T cpu a d ≡ record d {
        step_bp = remove cpu d.step_bp;
        target = (T.remove_code_bp path line d.target).1;
      }
  unfolding end_step
  end_step-resolved path line d resolved = rw resolved refl

module _ (env : Env) (path : FilePath) (line : ℤ) (a : ℕ) where
  -- What the end of a step of a CPU at the address comes to, where the debugger was `d` before.
  pub record IsStepEnded (cpu : ℕ) (d : Debugger MsimTarget)
      (result : Result DebuggerError (Option DapEvent)) (d' : Debugger MsimTarget) : Type 0 where
    pub told :
        result
        ≡ ok (
            some (
              stopped (record {
                reason = StoppedEventReason.step;
                address = a;
                place = some (path, line);
                thread_id = cpu_to_thread_id cpu;
                hit_breakpoint_ids = none;
              })))
    pub pending :
        (other : ℕ)
        → lookup other d'.step_bp ≡ (if cpu == other then none else lookup other d.step_bp)
    pub armed : (b : ℕ) → is_armed b d'.target ≡ (if a == b then false else is_armed b d.target)

  module _ (found : env.index.get_address path line ≡ some a) where
    disarm-disarmed :
        (b : ℕ) (t : MsimTarget)
        → is_armed b (disarm env path a t).1 ≡ (if a == b then false else is_armed b t)
    unfolding drop_address request send send_raw to_result
    disarm-disarmed b t = elim (Bool-cases (is_armed a t)) [
      | inl known ↦ rw known (ground (arith, contains-set_remove a b t.bp_store.bps_addresses))
      | inr new ↦ rw new (ground (arith, new, same a b))
    ]

    drop_entry-disarmed :
        (b : ℕ) (armed : Bool) (t : MsimTarget)
        → is_armed b t ≡ armed
        → is_armed b (drop_entry path a t) ≡ armed
    unfolding drop_entry
    drop_entry-disarmed b armed t h = ground (arith, h)

    remove_code_bp-disarmed :
        (b : ℕ) (t : MsimTarget)
        → is_armed b (remove_code_bp env path line t).1 ≡ (if a == b then false else is_armed b t)
    unfolding remove_code_bp drop_entry
    remove_code_bp-disarmed b t =
        let armed = if a == b then false else is_armed b t in
        rw found (
          continue_keeps {P = λ t'. is_armed b t' ≡ armed} (disarm env path a t).0
            (disarm env path a t).1 _ (disarm-disarmed b t)
            (λ _. record { at = λ t' h. drop_entry-disarmed b armed t' h }))

    -- When a CPU stops at the address of its pending step, and the index leads from that address to a
    -- line and back: the client is told that a step ended, the step is no longer pending, those of the
    -- other CPUs are, and the address is no longer that of a breakpoint, not even if one stood there
    -- before the step, while all other breakpoint addresses are left alone.
    pub step_end :
        (cpu : ℕ) (reason : StoppedAtReason) (d : Debugger MsimTarget)
        → env.index.resolve_address a ≡ some (path, line)
        → lookup cpu d.step_bp ≡ some a
        → IsStepEnded cpu d
            (handle_event_stopped_at (msim_target env) cpu a reason d).0
            (handle_event_stopped_at (msim_target env) cpu a reason d).1
    step_end cpu reason d resolved pending =
        rw
          (
            stopped_at-step (msim_target env) cpu a reason d
                (pending-is_step_end (msim_target env) cpu a d pending),
            end_step-resolved (msim_target env) cpu a path line d resolved,
            resolved,
          )
          (record {
            told = refl;
            pending = λ other. lookup-remove cpu other d.step_bp;
            armed = λ b. remove_code_bp-disarmed b d.target;
          })
