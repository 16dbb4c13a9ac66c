-- ===== src/Debugger/Kept/Breakpoints.antt =====
-- src/debugger/requests.rs: `set_breakpoints` and `next` keep what every method of the target keeps.
use msim_dap.Common.{ℕ, Option, none, some, List, [], ◌∷◌, map, nat_eq, list_eq}
use msim_dap.Common.Int.{ℤ, pos, ◌+i64◌}
use msim_dap.Common.Results.{Result, ok, err}
use msim_dap.Common.Ensures.{Anything, Ensures-pure, Ensures-raise, OnOk-Anything, ensures_rules}
use msim_dap.Target.{FilePath, TargetError}
use msim_dap.Target.Interface.{DebugTarget}
use msim_dap.Target.Interface.Invariant.{Invariant}
use msim_dap.Debugger.{DebuggerError}
use msim_dap.Debugger.Commands.{SourceBreakpoint}
use msim_dap.Debugger.Protocol.{Debugger, HandlerAction}
use msim_dap.Debugger.BpInfos.{bp_id, bp_info, bp_infos}
use msim_dap.Debugger.Requests
use msim_dap.Debugger.Requests.Steps
use msim_dap.Debugger.Kept.{Kept, Kept-on_target, with_cpu-Kept}

module _ {T : DebugTarget} {P : T.State → Type 0} (inv : Invariant T P) where
  bp_info-Kept :
      (path : FilePath) (bp : SourceBreakpoint) (r : Result TargetError (Unit {0}))
      → Kept inv (bp_info path bp r)
  unfolding bp_info bp_id
  bp_info-Kept path bp (ok u) = record { at = λ d h. (h, tt) }
  bp_info-Kept path bp (err TargetError.session_lost) = record { at = λ d h. (h, tt) }
  bp_info-Kept path bp (err _) = record { at = λ d h. (h, tt) }

  bp_infos-Kept :
      (path : FilePath) (bps : List SourceBreakpoint)
      (results : List (Result TargetError (Unit {0})))
      → Kept inv (bp_infos path bps results)
  unfolding bp_infos
  bp_infos-Kept path [] results = Ensures-pure Anything [] tt
  bp_infos-Kept path (bp ∷ bps) [] = Ensures-pure Anything [] tt
  bp_infos-Kept path (bp ∷ bps) (result ∷ results) =
      let first = bp_info-Kept path bp result in
      let ih = bp_infos-Kept path bps results in search ensures_rules

  set_bps-Kept :
      (path : FilePath) (bps : List SourceBreakpoint) → Kept inv (Requests.set_bps T path bps)
  set_bps-Kept path bps =
      let lines = map (λ (bp : SourceBreakpoint). bp.line) bps in
      let replaced : Kept inv (Requests.replace_code_bps T path lines) = record {
        at = λ d h. (inv.replace_code_bps path lines d.target h, tt);
      } in
      let infos = bp_infos-Kept path bps in search ensures_rules

  pub set_breakpoints-Kept :
      (path : Option FilePath) (bps : Option (List SourceBreakpoint))
      → Kept inv (Requests.set_breakpoints T path bps)
  unfolding Requests.set_breakpoints
  set_breakpoints-Kept none bps = Ensures-raise Anything _
  set_breakpoints-Kept (some path) none = set_bps-Kept path []
  set_breakpoints-Kept (some path) (some bps) = set_bps-Kept path bps

  step_over_to-Kept : (cpu address : ℕ) → Kept inv (Steps.step_over_to T cpu address)
  unfolding Steps.note_step
  step_over_to-Kept cpu address =
      let resume = Kept-on_target inv _ inv.resume in search ensures_rules

  after_round-kept :
      (cpu : ℕ) (r : Result TargetError ℕ) (d : Debugger T.State)
      (later : Result DebuggerError HandlerAction × Debugger T.State)
      → P d.target
      → P later.1.target
      → P (Steps.after_round T cpu r d later).1.target
  after_round-kept cpu (ok address) d later h l = ((step_over_to-Kept cpu address).at d h).0
  after_round-kept cpu (err TargetError.session_lost) d later h l = h
  after_round-kept cpu (err _) d later h l = l

  step_over-kept :
      (path : FilePath) (line : ℤ) (cpu : ℕ) (offsets : List ℕ) (d : Debugger T.State)
      → P d.target
      → P (Steps.step_over T path line cpu offsets d).1.target
  unfolding Steps.step_over
  step_over-kept path line cpu [] d h = h
  step_over-kept path line cpu (offset ∷ offsets) d h =
      let (result, target) = T.set_code_bp path (line +i64 pos offset) d.target in
      let h' = ((inv.set_code_bp path (line +i64 pos offset)).at d.target h).0 in
      after_round-kept cpu result (record d { target = target }) _ h'
        (step_over-kept path line cpu offsets (record d { target = target }) h')

  step_over-Kept :
      (path : FilePath) (line : ℤ) (cpu : ℕ) (offsets : List ℕ)
      → Kept inv (Steps.step_over T path line cpu offsets)
  step_over-Kept path line cpu offsets = record {
    at = λ d h. (step_over-kept path line cpu offsets d h, OnOk-Anything _);
  }

  pub next-Kept : (thread_id : ℤ) → Kept inv (Steps.next T thread_id)
  unfolding Steps.next
  next-Kept thread_id = with_cpu-Kept inv thread_id _ (λ cpu c.
      let pc = Kept-on_target inv _ (inv.read_pc cpu c) in
      search (ensures_rules, step_over-Kept) depth 9)
