-- ===== src/Debugger/Requests/Steps.antt =====
-- src/debugger/requests.rs: `next`, `step_in` and `step_out`.
use msim_dap.Common.{ℕ, ◌-◌, List, [], ◌∷◌, range, nat_eq, list_eq}
use msim_dap.Common.Int.{ℤ, pos, ◌+i64◌}
use msim_dap.Common.Map
use msim_dap.Common.Results.{Result, ok, err, ok_or}
use msim_dap.Common.Exec.{pure, lift, modify, ◌>>=◌, ◌>>◌}
use msim_dap.Target.{FilePath, TargetError}
use msim_dap.Target.Interface.{DebugTarget}
use msim_dap.Debugger.{DebuggerError, request_failed, unresolved_address, no_next_line}
use msim_dap.Debugger.Registries.{thread_to_cpu_id}
use msim_dap.Debugger.Protocol.{Debugger, HandlerAction, ResponseBody, on_target}
use msim_dap.Debugger.Requests.{reply, Handler, resolve_address}

-- The offsets of `1..STEP_OVER_LINE_SEARCH_LIMIT`
abbrev pub step_over_line_search_limit : ℕ
step_over_line_search_limit = 20

module _ (T : DebugTarget) where
  -- `self.step_bp.insert(cpu_id, next_address)`
  unfoldable pub note_step : ℕ → ℕ → Debugger T.State → Debugger T.State
  note_step cpu next_address d = record d { step_bp = Map.insert cpu next_address d.step_bp }

  -- The end of a round that set a breakpoint.
  abbrev pub step_over_to : ℕ → ℕ → Handler T
  step_over_to cpu next_address = do
    modify (note_step cpu next_address)
    on_target T.resume
    pure (reply ResponseBody.next)

  -- The arms of a round, with what the rounds that follow make of it.
  abbrev pub after_round :
      ℕ
      → Result TargetError ℕ
      → Debugger T.State
      → Result DebuggerError HandlerAction × Debugger T.State
      → Result DebuggerError HandlerAction × Debugger T.State
  after_round cpu (ok next_address) d later = step_over_to cpu next_address d
  after_round cpu (err TargetError.session_lost) d later = (err DebuggerError.session_lost, d)
  after_round cpu (err _) d later = later

  -- The loop of `next`, over the offsets that are left.
  unfoldable pub step_over : FilePath → ℤ → ℕ → List ℕ → Handler T
  step_over path line cpu [] d = (err (request_failed no_next_line), d)
  step_over path line cpu (offset ∷ offsets) d =
      let (result, target) = T.set_code_bp path (line +i64 pos offset) d.target in
      let d' = record d { target = target } in
      let later = step_over path line cpu offsets d' in after_round cpu result d' later

  unfoldable pub next : ℤ → Handler T
  next thread_id = do
    cpu_id ← lift (thread_to_cpu_id thread_id)
    pc ← on_target (T.read_pc cpu_id)
    place ← resolve_address T pc
    place' ← lift (ok_or (request_failed unresolved_address) place)
    step_over place'.0 place'.1 cpu_id (range 1 (step_over_line_search_limit - 1))

  unfoldable pub step_in : ℤ → Handler T
  step_in thread_id = do
    cpu_id ← lift (thread_to_cpu_id thread_id)
    on_target (T.step_by cpu_id 1)
    pure (reply ResponseBody.step_in)

  unfoldable pub step_out : ℤ → Handler T
  step_out thread_id = do
    cpu_id ← lift (thread_to_cpu_id thread_id)
    on_target (T.step_by cpu_id 1)
    pure (reply ResponseBody.step_out)
