-- ===== src/Debugger/Numbered.antt =====
-- src/debugger/requests.rs: the handlers that give no ids, so that they leave the registry alone.
pub mod Asking
pub mod Turns
pub mod Runs
use msim_dap.Common.{ℕ, ◌≡◌, Option, none, some, List, [], ◌∷◌, String, arith}
use msim_dap.Common.Int.{ℤ, pos, ◌+i64◌}
use msim_dap.Common.Results.{Result, ok, err}
use msim_dap.Common.Exec.{
  Exec, Keeps, Keeps-pure, Keeps-raise, Keeps-lift, Keeps-gets, Keeps-bind, keeps_rules, lift,
  modify, ◌>>=◌,
}
use msim_dap.Target.{FilePath, TargetError}
use msim_dap.Target.Interface.{DebugTarget}
use msim_dap.Debugger.{
  BpRegistry, DebuggerError, MemoryRef, physical, virtual, VarScopeKind, general_registers,
  csr_registers,
}
use msim_dap.Debugger.Strings.{Text}
use msim_dap.Debugger.Protocol.{Debugger, HandlerAction, Client, Message, on_target, send}
use msim_dap.Debugger.Requests
use msim_dap.Debugger.Requests.Steps

module _ (T : DebugTarget) (r : BpRegistry) where
  -- An action that starts from a registry and ends with it, whatever the outcome.
  abbrev pub Leaves : {A : Type 0} → Exec (Debugger T.State) DebuggerError A → Type 0
  Leaves m = Keeps (λ (d : Debugger T.State). d.bp_registry ≡ r) m

  Leaves-on_target : {A : Type 0} (m : Exec T.State TargetError A) → Leaves (on_target m)
  Leaves-on_target m = record { at = λ d h. h }

  ruleset leaves_rules = (keeps_rules, Leaves-on_target)

  pub send-Leaves : (client : Client) (m : Message) → Leaves (send client m)
  unfolding send
  send-Leaves client m = record { at = λ d h. h }

  pub configuration_done-Leaves : Leaves (Requests.configuration_done T)
  unfolding Requests.configuration_done
  configuration_done-Leaves = search leaves_rules

  pub resume-Leaves : Leaves (Requests.resume T)
  unfolding Requests.resume
  resume-Leaves = search leaves_rules

  pub pause-Leaves : Leaves (Requests.pause T)
  unfolding Requests.pause
  pause-Leaves = search leaves_rules

  pub threads-Leaves : Leaves (Requests.threads T)
  unfolding Requests.threads
  threads-Leaves = Keeps-bind _ _ (record { at = λ d h. h }) (λ n. Keeps-pure _)

  pub disconnect-Leaves : Leaves (Requests.disconnect T)
  unfolding Requests.disconnect
  disconnect-Leaves = record { at = λ d h. h }

  pub stack_trace-Leaves : (thread_id : ℤ) → Leaves (Requests.stack_trace T thread_id)
  unfolding Requests.stack_trace
  stack_trace-Leaves thread_id = search leaves_rules depth 9

  pub scopes-Leaves : (frame_id : ℤ) → Leaves (Requests.scopes T frame_id)
  unfolding Requests.scopes
  scopes-Leaves frame_id = search leaves_rules

  read_scope-Leaves : (scope : VarScopeKind) → Leaves (Requests.read_scope T scope)
  read_scope-Leaves (general_registers cpu) = search leaves_rules
  read_scope-Leaves (csr_registers cpu) = search leaves_rules

  pub variables-Leaves : (var_ref : ℤ) → Leaves (Requests.variables T var_ref)
  unfolding Requests.variables
  variables-Leaves var_ref = search (leaves_rules, read_scope-Leaves) depth 9

  write_scope-Leaves :
      (scope : VarScopeKind) (name : String) (value : ℕ)
      → Leaves (Requests.write_scope T scope name value)
  write_scope-Leaves (general_registers cpu) name value = Leaves-on_target _
  write_scope-Leaves (csr_registers cpu) name value = Leaves-on_target _

  pub set_variable-Leaves :
      (var_ref : ℤ) (name : String) (text : Text)
      → Leaves (Requests.set_variable T var_ref name text)
  unfolding Requests.set_variable
  set_variable-Leaves var_ref name text = search (leaves_rules, write_scope-Leaves) depth 9

  pub step_in-Leaves : (thread_id : ℤ) → Leaves (Steps.step_in T thread_id)
  unfolding Steps.step_in
  step_in-Leaves thread_id = search leaves_rules depth 9

  pub step_out-Leaves : (thread_id : ℤ) → Leaves (Steps.step_out T thread_id)
  unfolding Steps.step_out
  step_out-Leaves thread_id = search leaves_rules depth 9

  read_bytes-Leaves :
      (mem_ref : MemoryRef) (at length : ℕ) → Leaves (Requests.read_bytes T mem_ref at length)
  read_bytes-Leaves (physical base) at length = Leaves-on_target _
  read_bytes-Leaves (virtual cpu base) at length = Leaves-on_target _

  pub read_memory-Leaves :
      (client : Client) (ref : Text) (offset : Option ℤ) (count : ℤ)
      → Leaves (Requests.read_memory T client ref offset count)
  unfolding Requests.read_memory
  read_memory-Leaves client ref offset count = search (leaves_rules, read_bytes-Leaves) depth 9

  step_over_to-Leaves : (cpu address : ℕ) → Leaves (Steps.step_over_to T cpu address)
  unfolding Steps.note_step
  step_over_to-Leaves cpu address =
      let noted : Leaves (modify (Steps.note_step T cpu address)) = record { at = λ d h. h } in
      search leaves_rules

  after_round-leaves :
      (cpu : ℕ) (result : Result TargetError ℕ) (d : Debugger T.State)
      (later : Result DebuggerError HandlerAction × Debugger T.State)
      → d.bp_registry ≡ r
      → later.1.bp_registry ≡ r
      → (Steps.after_round T cpu result d later).1.bp_registry ≡ r
  after_round-leaves cpu (ok address) d later h l = (step_over_to-Leaves cpu address).at d h
  after_round-leaves cpu (err TargetError.session_lost) d later h l = h
  after_round-leaves cpu (err _) d later h l = l

  step_over-leaves :
      (path : FilePath) (line : ℤ) (cpu : ℕ) (offsets : List ℕ) (d : Debugger T.State)
      → d.bp_registry ≡ r
      → (Steps.step_over T path line cpu offsets d).1.bp_registry ≡ r
  unfolding Steps.step_over
  step_over-leaves path line cpu [] d h = h
  step_over-leaves path line cpu (offset ∷ offsets) d h =
      let (result, target) = T.set_code_bp path (line +i64 pos offset) d.target in
      after_round-leaves cpu result (record d { target = target }) _ h
        (step_over-leaves path line cpu offsets (record d { target = target }) h)

  step_over-Leaves :
      (path : FilePath) (line : ℤ) (cpu : ℕ) (offsets : List ℕ)
      → Leaves (Steps.step_over T path line cpu offsets)
  step_over-Leaves path line cpu offsets = record { at = step_over-leaves path line cpu offsets }

  pub next-Leaves : (thread_id : ℤ) → Leaves (Steps.next T thread_id)
  unfolding Steps.next
  next-Leaves thread_id = search (leaves_rules, step_over-Leaves) depth 12
