-- ===== src/Debugger/Registries.antt =====
-- `BpRegistry` and `CpuRegistry` of src/debugger/core.rs.
pub mod Ids
use msim_dap.Common.{
  ℕ, zero, suc, ◌+◌, ◌%◌, ◌^◌, ◌≡◌, Bool, true, false, Option, none, some, List, [], ◌∷◌, ltb,
  if◌then◌else◌, ◌==◌, nat_eq, int_eq, string_eq, list_eq, pair_eq,
}
use msim_dap.Common.Int.{
  ℤ, pos, negsuc, cast_signed, cast_unsigned, ◌-i64◌, ◌+i64◌, ◌*i64◌, div_i64, rem_i64,
}
use msim_dap.Common.Map.{lookup, insert}
use msim_dap.Common.Results.{Result, ok, err, ◌>>=◌}
use msim_dap.Target.{FilePath}
use msim_dap.Debugger.{
  BpRegistry, DebuggerError, request_failed, invalid_thread_id, invalid_variables_reference,
  VarScopeKind, general_registers, csr_registers,
}

-- `BpRegistry::new`
abbrev pub new : BpRegistry
new = record { next_id = 0; ids = [] }

-- `BpRegistry::get_id`
unfoldable pub get_id : FilePath → ℤ → BpRegistry → ℕ × BpRegistry
get_id path line r = elim (lookup (path, line) r.ids) [
  | some id ↦ (id, r)
  | none ↦ (
    r.next_id,
    record { next_id = (r.next_id + 1) % 2 ^ 32; ids = insert (path, line) r.next_id r.ids },
  )
]

unfoldable pub cpu_to_thread_id : ℕ → ℤ
cpu_to_thread_id cpu_id = cast_signed ((cpu_id + 1) % 2 ^ 64)

abbrev pub is_positive : ℤ → Bool
is_positive (pos n) = ltb 0 n
is_positive (negsuc n) = false

unfoldable pub thread_to_cpu_id : ℤ → Result DebuggerError ℕ
thread_to_cpu_id thread_id =
    if is_positive thread_id
    then ok (cast_unsigned (thread_id -i64 pos 1))
    else err (request_failed (invalid_thread_id thread_id))

abbrev pub thread_to_frame_id : ℤ → ℤ
thread_to_frame_id thread_id = thread_id

abbrev pub frame_to_thread_id : ℤ → ℤ
frame_to_thread_id frame_id = frame_id

unfoldable pub reg_scope_var_ref : ℤ → ℤ
reg_scope_var_ref frame_id = frame_id *i64 pos 10 +i64 pos 1

unfoldable pub csr_scope_var_ref : ℤ → ℤ
csr_scope_var_ref frame_id = frame_id *i64 pos 10 +i64 pos 2

-- The `match` on the last digit.
abbrev pub scope_kind : ℤ → ℤ → ℕ → Result DebuggerError VarScopeKind
scope_kind var_ref kind cpu_id =
    if kind == pos 1
    then ok (general_registers cpu_id)
    else if kind == pos 2
    then ok (csr_registers cpu_id)
    else err (request_failed (invalid_variables_reference var_ref))

unfoldable pub resolve_var_ref : ℤ → Result DebuggerError VarScopeKind
resolve_var_ref var_ref = do
  cpu_id ← thread_to_cpu_id (frame_to_thread_id (div_i64 var_ref 10))
  scope_kind var_ref (rem_i64 var_ref 10) cpu_id
