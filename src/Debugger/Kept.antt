-- ===== src/Debugger/Kept.antt =====
-- src/debugger/requests.rs: what every method of the target keeps of its state, the handlers of requests
-- keep.
pub mod Breakpoints
pub mod Runs
pub mod Ranges
pub mod Armed
use msim_dap.Common.{ℕ, Option, none, some, List, [], ◌∷◌, map, range, String, arith}
use msim_dap.Common.Int.{ℤ, pos, IsU64, ◌+i64◌}
use msim_dap.Common.Results.{Result, ok, err, ok_or}
use msim_dap.Common.Exec.{Exec, lift, ◌>>=◌}
use msim_dap.Common.Ensures.{
  OnOk, Anything, Ensures, Ensures-pure, Ensures-lift, Ensures-gets, Ensures-bind, Ensures-then,
  Ensures-modify, OnOk-Anything, ensures_rules,
}
use msim_dap.Target.{FilePath, TargetError}
use msim_dap.Target.Interface.{DebugTarget}
use msim_dap.Target.Interface.Invariant.{Invariant}
use msim_dap.Debugger.{
  DebuggerError, MemoryRef, physical, virtual, VarScopeKind, general_registers, csr_registers,
}
use msim_dap.Debugger.Strings.{Text}
use msim_dap.Debugger.Commands.{SourceBreakpoint}
use msim_dap.Debugger.Protocol.{Debugger, HandlerAction, ResponseBody, Client, on_target}
use msim_dap.Debugger.BpInfos.{bp_id, bp_info, bp_infos}
use msim_dap.Debugger.Registries.{thread_to_cpu_id, resolve_var_ref}
use msim_dap.Debugger.MemoryRefs.{parse}
use msim_dap.Debugger.Requests
use msim_dap.Debugger.Requests.{Handler, parse_value}
use msim_dap.Debugger.Requests.Steps
use msim_dap.Debugger.Words.{
  IsScope, IsRef, cast_unsigned-IsU64, thread_to_cpu_id-IsU64, resolve_var_ref-IsScope,
  parse_value-IsU64, parse-IsRef,
}

module _ {T : DebugTarget} {P : T.State → Type 0} (inv : Invariant T P) where
  -- An action of the debugger that keeps the property of its target.
  abbrev pub Kept : {A : Type 0} → Exec (Debugger T.State) DebuggerError A → Type 0
  Kept m = Ensures (λ (d : Debugger T.State). P d.target) Anything m

  pub Kept-on_target :
      {A : Type 0} (m : Exec T.State TargetError A) → Ensures P Anything m → Kept (on_target m)
  Kept-on_target m k = record { at = λ d h. ((k.at d.target h).0, OnOk-Anything _) }

  ruleset kept_rules = (ensures_rules, Kept-on_target)

  -- How the handlers that are about a thread, or a variables reference, start.
  pub with_cpu-Kept :
      {A : Type 0} (thread_id : ℤ) (k : ℕ → Exec (Debugger T.State) DebuggerError A)
      → ((cpu : ℕ) → IsU64 cpu → Kept (k cpu))
      → Kept (lift (thread_to_cpu_id thread_id) >>= k)
  with_cpu-Kept thread_id k =
      Ensures-bind IsU64 Anything _ k (Ensures-lift IsU64 _ (thread_to_cpu_id-IsU64 thread_id))

  with_scope-Kept :
      {A : Type 0} (var_ref : ℤ) (k : VarScopeKind → Exec (Debugger T.State) DebuggerError A)
      → ((scope : VarScopeKind) → IsScope scope → Kept (k scope))
      → Kept (lift (resolve_var_ref var_ref) >>= k)
  with_scope-Kept var_ref k =
      Ensures-bind IsScope Anything _ k (Ensures-lift IsScope _ (resolve_var_ref-IsScope var_ref))

  pub resume-Kept : Kept (Requests.resume T)
  unfolding Requests.resume
  resume-Kept = let m = inv.resume in search kept_rules

  pub configuration_done-Kept : Kept (Requests.configuration_done T)
  unfolding Requests.configuration_done
  configuration_done-Kept = let m = inv.resume in search kept_rules

  pub pause-Kept : Kept (Requests.pause T)
  unfolding Requests.pause
  pause-Kept = let m = inv.pause in search kept_rules

  pub threads-Kept : Kept (Requests.threads T)
  unfolding Requests.threads
  threads-Kept =
      Ensures-then Anything _ _
        (record { at = λ d h. ((inv.cpu_count.at d.target h).0, OnOk-Anything _) })
        (λ n. Ensures-pure Anything _ tt)

  pub disconnect-Kept : Kept (Requests.disconnect T)
  unfolding Requests.disconnect
  disconnect-Kept = record { at = λ d h. ((inv.terminate.at d.target h).0, tt) }

  pub stack_trace-Kept : (thread_id : ℤ) → Kept (Requests.stack_trace T thread_id)
  unfolding Requests.stack_trace
  stack_trace-Kept thread_id =
      with_cpu-Kept thread_id _ (λ cpu c. let pc = inv.read_pc cpu c in search kept_rules)

  pub scopes-Kept : (frame_id : ℤ) → Kept (Requests.scopes T frame_id)
  unfolding Requests.scopes
  scopes-Kept frame_id = with_cpu-Kept _ _ (λ cpu c. search kept_rules)

  read_scope-Kept : (scope : VarScopeKind) → IsScope scope → Kept (Requests.read_scope T scope)
  read_scope-Kept (general_registers cpu) c =
      let read = inv.read_general_regs cpu c in search kept_rules
  read_scope-Kept (csr_registers cpu) c = let read = inv.read_csrs cpu c in search kept_rules

  pub variables-Kept : (var_ref : ℤ) → Kept (Requests.variables T var_ref)
  unfolding Requests.variables
  variables-Kept var_ref =
      with_scope-Kept var_ref _ (λ scope s. let read = read_scope-Kept scope s in search kept_rules)

  write_scope-Kept :
      (scope : VarScopeKind) (name : String) (value : ℕ)
      → IsScope scope
      → IsU64 value
      → Kept (Requests.write_scope T scope name value)
  write_scope-Kept (general_registers cpu) name value c v =
      Kept-on_target _ (inv.write_general_reg cpu name value c v)
  write_scope-Kept (csr_registers cpu) name value c v =
      Kept-on_target _ (inv.write_csr cpu name value c v)

  pub set_variable-Kept :
      (var_ref : ℤ) (name : String) (text : Text) → Kept (Requests.set_variable T var_ref name text)
  unfolding Requests.set_variable
  set_variable-Kept var_ref name text = with_scope-Kept var_ref _ (λ scope s.
      Ensures-bind IsU64 Anything _ _ (Ensures-lift IsU64 _ (parse_value-IsU64 text))
        (λ value v. let write = write_scope-Kept scope name value s v in search kept_rules))

  pub step_in-Kept : (thread_id : ℤ) → Kept (Steps.step_in T thread_id)
  unfolding Steps.step_in
  step_in-Kept thread_id =
      with_cpu-Kept thread_id _
        (λ cpu c. let step = inv.step_by cpu 1 c (omega arith) in search kept_rules)

  pub step_out-Kept : (thread_id : ℤ) → Kept (Steps.step_out T thread_id)
  unfolding Steps.step_out
  step_out-Kept thread_id =
      with_cpu-Kept thread_id _
        (λ cpu c. let step = inv.step_by cpu 1 c (omega arith) in search kept_rules)

  read_bytes-Kept :
      (mem_ref : MemoryRef) (at length : ℕ)
      → IsRef mem_ref
      → IsU64 at
      → Kept (Requests.read_bytes T mem_ref at length)
  read_bytes-Kept (physical base) at length r a =
      Kept-on_target _ (inv.read_phys_memory at length a)
  read_bytes-Kept (virtual cpu base) at length (c, _) a =
      Kept-on_target _ (inv.read_virt_memory cpu at length c a)

  pub read_memory-Kept :
      (client : Client) (ref : Text) (offset : Option ℤ) (count : ℤ)
      → Kept (Requests.read_memory T client ref offset count)
  unfolding Requests.read_memory
  read_memory-Kept client ref offset count =
      Ensures-then Anything _ _ (Ensures-lift Anything _ (OnOk-Anything _)) (λ length.
        Ensures-bind IsRef Anything _ _ (Ensures-lift IsRef _ (parse-IsRef ref)) (λ r h.
          let read =
            read_bytes-Kept r (Requests.offset_address T r offset) length h
              (cast_unsigned-IsU64 _) in
          search kept_rules))
