-- ===== src/Debugger/Events/StepOver.antt =====
-- A whole step over, from the request `next` to the stop at its end.
use msim_dap.Common.{ℕ, ◌≡◌, subst, arith, some, range, nat_eq}
use msim_dap.Common.Int.{ℤ}
use msim_dap.Common.Map.{lookup}
use msim_dap.Common.Results.{Result, ok}
use msim_dap.Msim.Frame
use msim_dap.Msim.Frame.{StoppedAtReason}
use msim_dap.Msim.Messages.{RawResponse}
use msim_dap.Target.{FilePath, Env, MsimTarget}
use msim_dap.Target.Interface.{msim_target}
use msim_dap.Target.Breakpoints.Acknowledged.{Acknowledges}
use msim_dap.Debugger.{DebuggerError}
use msim_dap.Debugger.Registries.{thread_to_cpu_id}
use msim_dap.Debugger.Protocol.{Debugger, HandlerAction, ResponseBody}
use msim_dap.Debugger.Requests.{reply}
use msim_dap.Debugger.Requests.Steps.{next}
use msim_dap.Debugger.Requests.Stepping.{IsStepped, first_place, next_lem}
use msim_dap.Debugger.Events.{handle_event_stopped_at}
use msim_dap.Debugger.Events.StepEnd.{IsStepEnded, step_end}

module _ (env : Env) where
  -- A step that ends leaves the pending steps and the breakpoints as they were before it began, but
  -- for the step of the CPU and the breakpoint at its end.
  IsStepped-IsStepEnded :
      (path : FilePath) (next_line : ℤ) (cpu a : ℕ) (end_path : FilePath) (end_line : ℤ)
      (reason : StoppedAtReason) (d : Debugger MsimTarget) (r : Result DebuggerError HandlerAction)
      (d' : Debugger MsimTarget)
      → env.index.get_address end_path end_line ≡ some a
      → env.index.resolve_address a ≡ some (end_path, end_line)
      → IsStepped env path cpu d (some (next_line, a)) (r, d')
      → IsStepEnded env end_path end_line a cpu d
          (handle_event_stopped_at (msim_target env) cpu a reason d').0
          (handle_event_stopped_at (msim_target env) cpu a reason d').1
  IsStepped-IsStepEnded path next_line cpu a end_path end_line reason d r d' found resolved
        (answered, pending, armed, stored, others, sent) =
      let here : lookup cpu d'.step_bp ≡ some a = ground (arith, pending cpu) in
      let ended = step_end env end_path end_line a found cpu reason d' resolved here in
      record {
        told = ended.told;
        pending = λ other. ground (arith, ended.pending other, pending other);
        armed = λ b. ground (arith, ended.armed b, armed b);
      }

  -- Where MSIM acknowledges every request, a CPU stands at an address, the index leads from it to a
  -- line, and it has one of the 19 lines that follow: if the CPU stops, once the client has asked to
  -- step over, at the address of the first of them, which the index leads to a line and back, then the
  -- request is answered with success, the client is told that a step ended at that line, and compared
  -- with before the request, the CPU has no pending step, the address of the line is that of no
  -- breakpoint, and all other pending steps and breakpoint addresses are the same.
  pub step_over_ends :
      (acks : Acknowledges env) (thread_id : ℤ) (cpu pc : ℕ) (path : FilePath) (line : ℤ)
      (d : Debugger MsimTarget) (r : RawResponse) (next_line : ℤ) (a : ℕ) (end_path : FilePath)
      (end_line : ℤ) (reason : StoppedAtReason)
      → thread_to_cpu_id thread_id ≡ ok cpu
      → env.answer d.target.exchanges (Frame.read_pc cpu) ≡ ok r
      → r.arg0 ≡ pc
      → env.index.resolve_address pc ≡ some (path, line)
      → first_place env path line (range 1 19) ≡ some (next_line, a)
      → env.index.resolve_address a ≡ some (end_path, end_line)
      → env.index.get_address end_path end_line ≡ some a
      → ((next (msim_target env) thread_id d).0 ≡ ok (reply ResponseBody.next))
        × IsStepEnded env end_path end_line a cpu d
            (handle_event_stopped_at
              (msim_target env)
              cpu
              a
              reason
              (next (msim_target env) thread_id d).1).0
            (handle_event_stopped_at
              (msim_target env)
              cpu
              a
              reason
              (next (msim_target env) thread_id d).1).1
  step_over_ends acks thread_id cpu pc path line d r next_line a end_path end_line reason thread
        answered at place first resolved found =
      let stepped : IsStepped env path cpu d (some (next_line, a))
          (next (msim_target env) thread_id d) =
        subst (λ end. IsStepped env path cpu d end (next (msim_target env) thread_id d)) first
          (next_lem env acks thread_id cpu pc path line d r thread answered at place) in
      (
        stepped.0,
        IsStepped-IsStepEnded path next_line cpu a end_path end_line reason d
            (next (msim_target env) thread_id d).0 (next (msim_target env) thread_id d).1 found
            resolved stepped,
      )
