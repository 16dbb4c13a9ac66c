-- ===== src/Debugger/EventLoop/Quiet.antt =====
-- Handlers send nothing themselves, and fail in one of two ways.
use msim_dap.Common.{ℕ, ◌≡◌, refl, ◌∙◌, Option, none, some, List, [], ◌∷◌, map, String}
use msim_dap.Common.Int.{◌+i64◌, ℤ, pos}
use msim_dap.Common.Results.{Result, ok, err}
use msim_dap.Common.Exec.{Exec, pure, lift, gets, ◌>>=◌, continue}
use msim_dap.Target.{FilePath, TargetError}
use msim_dap.Target.Interface.{DebugTarget}
use msim_dap.Debugger.{
  DebuggerError, VarScopeKind, general_registers, csr_registers, request_failed, dap_error,
  received_fatal_error, from_target, physical, virtual, MemoryRef,
}
use msim_dap.Debugger.Strings.{Text}
use msim_dap.Debugger.Commands.{SourceBreakpoint}
use msim_dap.Debugger.Protocol.{
  PostAction, Debugger, HandlerAction, ResponseBody, Client, on_target,
}
use msim_dap.Debugger.Requests
use msim_dap.Debugger.Requests.{parse_value}
use msim_dap.Debugger.BpInfos.{bp_id, bp_info, bp_infos}
use msim_dap.Debugger.Requests.Steps
use msim_dap.Debugger.EventLoop.Usual.{IsUsual, Any, from_target-IsUsual, usual_rules}

pub record Quiet {S A : Type 0} (Q : A → Type 0) (m : Exec (Debugger S) DebuggerError A)
    : Type 0 where
  pub at : (d : Debugger S) → ((m d).1.sent ≡ d.sent) × IsUsual Q (m d).0

on_target-IsUsual :
    {A : Type 0} (r : Result TargetError A)
    → IsUsual Any
        (elim r as (λ x. Result DebuggerError A) [ ok a ↦ ok a | err e ↦ err (from_target e) ])
on_target-IsUsual (ok a) = tt
on_target-IsUsual {A} (err e) = from_target-IsUsual {A = A} Any e

module _ {S A : Type 0} where
  pub Quiet-pure : (Q : A → Type 0) (a : A) → Q a → Quiet {S = S} Q (pure a)
  Quiet-pure Q a q = record { at = λ d. (refl, q) }

  pub Quiet-lift :
      (Q : A → Type 0) (r : Result DebuggerError A) → IsUsual Q r → Quiet {S = S} Q (lift r)
  Quiet-lift Q r q = record { at = λ d. (refl, q) }

  pub Quiet-gets : (f : Debugger S → A) → Quiet Any (gets f)
  Quiet-gets f = record { at = λ d. (refl, tt) }

  pub Quiet-on_target : (m : Exec S TargetError A) → Quiet Any (on_target m)
  Quiet-on_target m = record { at = λ d. (refl, on_target-IsUsual (m d.target).0) }

module _ {S A B : Type 0} (Q : B → Type 0) (f : A → Exec (Debugger S) DebuggerError B)
    (kf : (a : A) → Quiet Q (f a)) where
  continue_quiet :
      (r : Result DebuggerError A) (d : Debugger S)
      → IsUsual Any r
      → ((continue (r, d) f).1.sent ≡ d.sent) × IsUsual Q (continue (r, d) f).0
  continue_quiet (ok a) d q = (kf a).at d
  continue_quiet (err DebuggerError.session_lost) d q = (refl, tt)
  continue_quiet (err (request_failed e)) d q = (refl, tt)
  continue_quiet (err DebuggerError.dap_disconnected) d q = (refl, q)
  continue_quiet (err (dap_error e)) d q = (refl, q)
  continue_quiet (err (received_fatal_error e)) d q = (refl, q)

  pub Quiet-bind : (m : Exec (Debugger S) DebuggerError A) → Quiet Any m → Quiet Q (m >>= f)
  Quiet-bind m km = record {
    at = λ d.
        let (same, usual) = km.at d in
        let (same', usual') = continue_quiet (m d).0 (m d).1 usual in (same' ∙ same, usual');
  }

pub ruleset quiet_rules = (Quiet-pure, Quiet-lift, Quiet-gets, Quiet-on_target, Quiet-bind)

pub bp_info-Quiet :
    (S : Type 0) (path : FilePath) (bp : SourceBreakpoint) (r : Result TargetError (Unit {0}))
    → Quiet {S = S} Any (bp_info path bp r)
unfolding bp_info bp_id
bp_info-Quiet S path bp (ok u) = record { at = λ d. (refl, tt) }
bp_info-Quiet S path bp (err TargetError.session_lost) = record { at = λ d. (refl, tt) }
bp_info-Quiet S path bp (err _) = record { at = λ d. (refl, tt) }

pub bp_infos-Quiet :
    (S : Type 0) (path : FilePath) (bps : List SourceBreakpoint)
    (results : List (Result TargetError (Unit {0})))
    → Quiet {S = S} Any (bp_infos path bps results)
unfolding bp_infos
bp_infos-Quiet S path [] results = Quiet-pure Any [] tt
bp_infos-Quiet S path (bp ∷ bps) [] = Quiet-pure Any [] tt
bp_infos-Quiet S path (bp ∷ bps) (result ∷ results) =
    Quiet-bind Any _
      (λ info.
        Quiet-bind Any _ (λ infos. Quiet-pure Any (info ∷ infos) tt) (bp_infos path bps results)
          (bp_infos-Quiet S path bps results))
      (bp_info path bp result) (bp_info-Quiet S path bp result)

-- An action with no message to send after the response.
abbrev pub IsPlain : HandlerAction → Type 0
IsPlain action = action.post_action ≡ none

one_cpu-IsUsual :
    (r : Result TargetError ℕ)
    → IsUsual Any (elim r as (λ x. Result DebuggerError ℕ) [ ok n ↦ ok n | err e ↦ ok 1 ])
one_cpu-IsUsual (ok n) = tt
one_cpu-IsUsual (err e) = tt

module _ (T : DebugTarget) where
  pub configuration_done-Quiet : Quiet IsPlain (Requests.configuration_done T)
  unfolding Requests.configuration_done
  configuration_done-Quiet = search quiet_rules

  pub stack_trace-Quiet : (thread_id : ℤ) → Quiet IsPlain (Requests.stack_trace T thread_id)
  unfolding Requests.stack_trace
  stack_trace-Quiet thread_id = search (quiet_rules, usual_rules)

  pub scopes-Quiet : (frame_id : ℤ) → Quiet IsPlain (Requests.scopes T frame_id)
  unfolding Requests.scopes
  scopes-Quiet frame_id = search (quiet_rules, usual_rules)

  pub resume-Quiet : Quiet IsPlain (Requests.resume T)
  unfolding Requests.resume
  resume-Quiet = search quiet_rules

  pub pause-Quiet : Quiet IsPlain (Requests.pause T)
  unfolding Requests.pause
  pause-Quiet = search quiet_rules

  pub step_in-Quiet : (thread_id : ℤ) → Quiet IsPlain (Steps.step_in T thread_id)
  unfolding Steps.step_in
  step_in-Quiet thread_id = search (quiet_rules, usual_rules)

  pub step_out-Quiet : (thread_id : ℤ) → Quiet IsPlain (Steps.step_out T thread_id)
  unfolding Steps.step_out
  step_out-Quiet thread_id = search (quiet_rules, usual_rules)

  pub read_scope-Quiet : (scope : VarScopeKind) → Quiet Any (Requests.read_scope T scope)
  read_scope-Quiet (general_registers cpu) = search quiet_rules
  read_scope-Quiet (csr_registers cpu) = search quiet_rules

  pub variables-Quiet : (var_ref : ℤ) → Quiet IsPlain (Requests.variables T var_ref)
  unfolding Requests.variables
  variables-Quiet var_ref = search (quiet_rules, usual_rules, read_scope-Quiet)

  pub write_scope-Quiet :
      (scope : VarScopeKind) (name : String) (value : ℕ)
      → Quiet Any (Requests.write_scope T scope name value)
  write_scope-Quiet (general_registers cpu) name value = search quiet_rules
  write_scope-Quiet (csr_registers cpu) name value = search quiet_rules

  pub set_variable-Quiet :
      (var_ref : ℤ) (name : String) (text : Text)
      → Quiet IsPlain (Requests.set_variable T var_ref name text)
  unfolding Requests.set_variable
  set_variable-Quiet var_ref name text = search (quiet_rules, usual_rules, write_scope-Quiet)

  pub read_bytes-Quiet :
      (mem_ref : MemoryRef) (at length : ℕ) → Quiet Any (Requests.read_bytes T mem_ref at length)
  read_bytes-Quiet (physical base) at length = search quiet_rules
  read_bytes-Quiet (virtual cpu base) at length = search quiet_rules

  pub read_memory-Quiet :
      (client : Client) (ref : Text) (offset : Option ℤ) (count : ℤ)
      → Quiet IsPlain (Requests.read_memory T client ref offset count)
  unfolding Requests.read_memory
  read_memory-Quiet client ref offset count = search (quiet_rules, usual_rules, read_bytes-Quiet)

  pub set_bps-Quiet :
      (path : FilePath) (bps : List SourceBreakpoint) → Quiet IsPlain (Requests.set_bps T path bps)
  set_bps-Quiet path bps = record {
    at = λ d.
        let (results, target) = T.replace_code_bps path (map (λ bp. bp.line) bps) d.target in
        (Quiet-bind IsPlain _
            (λ infos. Quiet-pure IsPlain (Requests.reply (ResponseBody.set_breakpoints infos)) refl)
            (bp_infos path bps results) (bp_infos-Quiet T.State path bps results)).at
          (record d { target = target });
  }

  pub set_breakpoints-Quiet :
      (path : Option FilePath) (bps : Option (List SourceBreakpoint))
      → Quiet IsPlain (Requests.set_breakpoints T path bps)
  unfolding Requests.set_breakpoints
  set_breakpoints-Quiet none bps = record { at = λ d. (refl, tt) }
  set_breakpoints-Quiet (some path) none = set_bps-Quiet path []
  set_breakpoints-Quiet (some path) (some bps) = set_bps-Quiet path bps

  pub cpu_count_or_one-Quiet : Quiet Any (Requests.cpu_count_or_one T)
  cpu_count_or_one-Quiet = record { at = λ d. (refl, one_cpu-IsUsual (T.cpu_count d.target).0) }

  pub threads-Quiet : Quiet IsPlain (Requests.threads T)
  unfolding Requests.threads
  threads-Quiet = search (quiet_rules, cpu_count_or_one-Quiet)

  pub step_over_to-Quiet : (cpu address : ℕ) → Quiet IsPlain (Steps.step_over_to T cpu address)
  unfolding Steps.note_step Requests.resume
  step_over_to-Quiet cpu address = record {
    at = λ d.
        (Quiet-bind IsPlain _ (λ _. Quiet-pure IsPlain (Requests.reply ResponseBody.next) refl)
            (on_target T.resume) (Quiet-on_target T.resume)).at
          (Steps.note_step T cpu address d);
  }

  after_round-quiet :
      (cpu : ℕ) (r : Result TargetError ℕ) (d : Debugger T.State)
      (later : Result DebuggerError HandlerAction × Debugger T.State)
      → (later.1.sent ≡ d.sent) × IsUsual IsPlain later.0
      → ((Steps.after_round T cpu r d later).1.sent ≡ d.sent)
        × IsUsual IsPlain (Steps.after_round T cpu r d later).0
  after_round-quiet cpu (ok address) d later q = (step_over_to-Quiet cpu address).at d
  after_round-quiet cpu (err TargetError.session_lost) d later q = (refl, tt)
  after_round-quiet cpu (err _) d later q = q

  pub step_over-Quiet :
      (path : FilePath) (line : ℤ) (cpu : ℕ) (offsets : List ℕ)
      → Quiet IsPlain (Steps.step_over T path line cpu offsets)
  unfolding Steps.step_over
  step_over-Quiet path line cpu [] = record { at = λ d. (refl, tt) }
  step_over-Quiet path line cpu (offset ∷ offsets) = record {
    at = λ d.
        let (result, target) = T.set_code_bp path (line +i64 pos offset) d.target in
        let d' = record d { target = target } in
        after_round-quiet cpu result d' _ ((step_over-Quiet path line cpu offsets).at d');
  }

  pub next-Quiet : (thread_id : ℤ) → Quiet IsPlain (Steps.next T thread_id)
  unfolding Steps.next
  next-Quiet thread_id = search (quiet_rules, usual_rules, step_over-Quiet) depth 9

  pub disconnect-Quiet :
      Quiet
        (λ action.
          action
          ≡ record { body = ResponseBody.disconnect; post_action = some PostAction.disconnect })
        (Requests.disconnect T)
  unfolding Requests.disconnect
  disconnect-Quiet = record { at = λ d. (refl, refl) }
