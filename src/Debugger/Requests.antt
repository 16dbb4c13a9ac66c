-- ===== src/Debugger/Requests.antt =====
-- src/debugger/requests.rs: the handlers of DAP requests.
pub mod Values
pub mod Variables
pub mod Memory
pub mod Steps
pub mod Stepping
pub mod Hits
use msim_dap.Common.{
  ℕ, ◌-◌, true, false, Option, none, some, List, [], ◌∷◌, map, range, String, if◌then◌else◌, nat_eq,
  list_eq, drop,
}
use msim_dap.Common.Int.{ℤ, pos, negsuc, ◌+i64◌, cast_signed, cast_unsigned}
use msim_dap.Common.Map
use msim_dap.Common.Results.{Result, ok, err, ok_or}
use msim_dap.Common.Exec.{Exec, pure, raise, lift, gets, modify, ◌>>=◌, ◌>>◌}
use msim_dap.Target.{FilePath, TargetError}
use msim_dap.Target.Registers.{Register}
use msim_dap.Target.Interface.{DebugTarget}
use msim_dap.Debugger.{
  DebuggerError, request_failed, VarScopeKind, general_registers, csr_registers, MemoryRef,
  physical, virtual, path_required, invalid_byte_count, unresolved_address, no_next_line,
  invalid_hexadecimal, invalid_binary, invalid_decimal,
}
use msim_dap.Debugger.Strings.{Text, hex, starts_with, from_str_radix}
use msim_dap.Debugger.Registries.{
  get_id, cpu_to_thread_id, thread_to_cpu_id, thread_to_frame_id, frame_to_thread_id,
  reg_scope_var_ref, csr_scope_var_ref, resolve_var_ref,
}
use msim_dap.Debugger.MemoryRefs.{parse, to_string, address}
use msim_dap.Debugger.Commands.{SourceBreakpoint}
use msim_dap.Debugger.Protocol.{
  Debugger, HandlerAction, ResponseBody, PostAction, send_event, initialized, Breakpoint, BpMessage,
  Client, on_target, Variable,
}
use msim_dap.Debugger.Protocol
use msim_dap.Debugger.BpInfos.{bp_infos}

-- A response with nothing to do after it.
abbrev pub reply : ResponseBody → HandlerAction
reply body = record { body = body; post_action = none }

abbrev pub initialize : HandlerAction
initialize = record { body = ResponseBody.initialize; post_action = some (send_event initialized) }

abbrev pub attach : HandlerAction
attach = reply ResponseBody.attach

abbrev pub launch : HandlerAction
launch = reply ResponseBody.launch

abbrev pub set_exception_breakpoints : HandlerAction
set_exception_breakpoints = reply ResponseBody.set_exception_breakpoints

abbrev pub source : HandlerAction
source = reply ResponseBody.source

-- The value of `set_variable`
unfoldable pub parse_value : Text → Result DebuggerError ℕ
parse_value v =
    if starts_with (48 ∷ 120 ∷ []) v
    then ok_or (request_failed (invalid_hexadecimal v)) (from_str_radix 16 (drop 2 v))
    else if starts_with (48 ∷ 98 ∷ []) v
    then ok_or (request_failed (invalid_binary v)) (from_str_radix 2 (drop 2 v))
    else ok_or (request_failed (invalid_decimal v)) (from_str_radix 10 v)

-- `usize::try_from(args.count)`
abbrev pub byte_count : ℤ → Result DebuggerError ℕ
byte_count (pos n) = ok n
byte_count (negsuc n) = err (request_failed invalid_byte_count)

abbrev pub or_zero : Option ℤ → ℤ
or_zero none = pos 0
or_zero (some offset) = offset

abbrev pub variable : ℕ → Register → Variable
variable cpu reg = record {
  name = reg.name;
  value = hex reg.value;
  memory_reference = to_string (virtual cpu reg.value);
}

module _ (T : DebugTarget) where
  abbrev pub Handler : Type 0
  Handler = Exec (Debugger T.State) DebuggerError HandlerAction

  unfoldable pub configuration_done : Handler
  configuration_done = do on_target T.resume; pure (reply ResponseBody.configuration_done)

  -- `self.target.replace_code_bps(…)`
  abbrev pub replace_code_bps :
      FilePath
      → List ℤ
      → Exec (Debugger T.State) DebuggerError (List (Result TargetError (Unit {0})))
  replace_code_bps path lines d =
      let (results, target) = T.replace_code_bps path lines d.target in
      (ok results, record d { target = target })

  abbrev pub set_bps : FilePath → List SourceBreakpoint → Handler
  set_bps path bps = do
    results ← replace_code_bps path (map (λ bp. bp.line) bps)
    infos ← bp_infos path bps results
    pure (reply (ResponseBody.set_breakpoints infos))

  unfoldable pub set_breakpoints : Option FilePath → Option (List SourceBreakpoint) → Handler
  set_breakpoints none bps = raise (request_failed path_required)
  set_breakpoints (some path) none = set_bps path []
  set_breakpoints (some path) (some bps) = set_bps path bps

  -- `self.target.cpu_count().unwrap_or(1)`
  abbrev pub cpu_count_or_one : Exec (Debugger T.State) DebuggerError ℕ
  cpu_count_or_one d =
      let (result, target) = T.cpu_count d.target in
      (elim result [ ok n ↦ ok n | err e ↦ ok 1 ], record d { target = target })

  unfoldable pub threads : Handler
  threads = do
    cpu_count ← cpu_count_or_one
    pure (
        reply (ResponseBody.threads (map (λ cpu. (cpu_to_thread_id cpu, cpu)) (range 0 cpu_count))))

  -- `self.target.….ok()`: what came out is dropped.
  abbrev pub best_effort :
      {A : Type 0} → Exec T.State TargetError A → Exec (Debugger T.State) DebuggerError (Unit {0})
  best_effort m d = (ok tt, record d { target = (m d.target).1 })

  unfoldable pub disconnect : Handler
  disconnect = do
    best_effort T.terminate
    pure (record { body = ResponseBody.disconnect; post_action = some PostAction.disconnect })

  -- `self.target.resolve_address(address)`
  abbrev pub resolve_address : ℕ → Exec (Debugger T.State) DebuggerError (Option (FilePath × ℤ))
  resolve_address pc = gets (λ d. T.resolve_address pc d.target)

  abbrev pub frame : ℤ → Option (FilePath × ℤ) → Protocol.StackFrame
  frame thread_id none = record { id = thread_to_frame_id thread_id; path = none; line = pos 0 }
  frame thread_id (some (path, line)) = record {
    id = thread_to_frame_id thread_id;
    path = some path;
    line = line;
  }

  unfoldable pub stack_trace : ℤ → Handler
  stack_trace thread_id = do
    cpu_id ← lift (thread_to_cpu_id thread_id)
    pc ← on_target (T.read_pc cpu_id)
    place ← resolve_address pc
    pure (reply (ResponseBody.stack_trace (frame thread_id place ∷ [])))

  unfoldable pub scopes : ℤ → Handler
  scopes frame_id = do
    _ ← lift (thread_to_cpu_id (frame_to_thread_id frame_id))
    pure (reply (ResponseBody.scopes (reg_scope_var_ref frame_id) (csr_scope_var_ref frame_id)))

  abbrev pub read_scope : VarScopeKind → Exec (Debugger T.State) DebuggerError (List Variable)
  read_scope (general_registers cpu) = do
    registers ← on_target (T.read_general_regs cpu)
    pure (map (variable cpu) registers)
  read_scope (csr_registers cpu) = do
    registers ← on_target (T.read_csrs cpu)
    pure (map (variable cpu) registers)

  unfoldable pub variables : ℤ → Handler
  variables var_ref = do
    scope ← lift (resolve_var_ref var_ref)
    read ← read_scope scope
    pure (reply (ResponseBody.variables read))

  abbrev pub write_scope :
      VarScopeKind → String → ℕ → Exec (Debugger T.State) DebuggerError (Unit {0})
  write_scope (general_registers cpu) name value = on_target (T.write_general_reg cpu name value)
  write_scope (csr_registers cpu) name value = on_target (T.write_csr cpu name value)

  unfoldable pub set_variable : ℤ → String → Text → Handler
  set_variable var_ref name text = do
    scope ← lift (resolve_var_ref var_ref)
    value ← lift (parse_value text)
    write_scope scope name value
    pure (reply (ResponseBody.set_variable (hex value)))

  unfoldable pub resume : Handler
  resume = do on_target T.resume; pure (reply ResponseBody.continue)

  unfoldable pub pause : Handler
  pause = do on_target T.pause; pure (reply ResponseBody.pause)

  -- The `match` on the reference.
  abbrev pub read_bytes : MemoryRef → ℕ → ℕ → Exec (Debugger T.State) DebuggerError (List ℕ)
  read_bytes (physical base) at length = on_target (T.read_phys_memory at length)
  read_bytes (virtual cpu base) at length = on_target (T.read_virt_memory cpu at length)

  -- `(mem_ref.address().cast_signed() + offset).cast_unsigned()`
  abbrev pub offset_address : MemoryRef → Option ℤ → ℕ
  offset_address mem_ref offset = cast_unsigned (cast_signed (address mem_ref) +i64 or_zero offset)

  unfoldable pub read_memory : Client → Text → Option ℤ → ℤ → Handler
  read_memory client memory_reference offset count = do
    length ← lift (byte_count count)
    mem_ref ← lift (parse memory_reference)
    data' ← read_bytes mem_ref (offset_address mem_ref offset) length
    pure (
        reply
          (ResponseBody.read_memory (hex (offset_address mem_ref offset)) (client.encode data')))
