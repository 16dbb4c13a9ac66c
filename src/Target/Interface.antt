-- ===== src/Target/Interface.antt =====
-- The trait `DebugTarget` of src/target/mod.rs, and `MsimTarget` as an implementation of it.
pub mod Invariant
pub mod Logged
pub mod Sent
use msim_dap.Common.{ℕ, Option, List, String}
use msim_dap.Common.Int.{ℤ}
use msim_dap.Common.Results.{Result}
use msim_dap.Common.Exec.{Exec}
use msim_dap.Target.{FilePath, TargetError, Env, MsimTarget}
use msim_dap.Target.Breakpoints
use msim_dap.Target.Control
use msim_dap.Target.Registers
use msim_dap.Target.Registers.{Register}
use msim_dap.Target.Memory

pub record DebugTarget : Type 1 where
  pub State : Type 0
  pub cpu_count : Exec State TargetError ℕ
  pub resume : Exec State TargetError (Unit {0})
  pub pause : Exec State TargetError (Unit {0})
  pub terminate : Exec State TargetError (Unit {0})
  pub step_by : ℕ → ℕ → Exec State TargetError (Unit {0})
  pub set_code_bp : FilePath → ℤ → Exec State TargetError ℕ
  pub remove_code_bp : FilePath → ℤ → Exec State TargetError ℕ
  pub replace_code_bps : FilePath → List ℤ → State → List (Result TargetError (Unit {0})) × State
  pub resolve_code_bp : ℕ → State → Option (FilePath × ℤ)
  pub resolve_address : ℕ → State → Option (FilePath × ℤ)
  pub read_general_regs : ℕ → Exec State TargetError (List Register)
  pub write_general_reg : ℕ → String → ℕ → Exec State TargetError (Unit {0})
  pub read_csrs : ℕ → Exec State TargetError (List Register)
  pub write_csr : ℕ → String → ℕ → Exec State TargetError (Unit {0})
  pub read_pc : ℕ → Exec State TargetError ℕ
  pub write_pc : ℕ → ℕ → Exec State TargetError (Unit {0})
  pub read_phys_memory : ℕ → ℕ → Exec State TargetError (List ℕ)
  pub read_virt_memory : ℕ → ℕ → ℕ → Exec State TargetError (List ℕ)

-- `impl DebugTarget for MsimTarget`
abbrev pub msim_target : Env → DebugTarget
msim_target env = record {
  State = MsimTarget;
  cpu_count = Control.cpu_count env;
  resume = Control.resume env;
  pause = Control.pause env;
  terminate = Control.terminate env;
  step_by = Control.step_by env;
  set_code_bp = Breakpoints.set_code_bp env;
  remove_code_bp = Breakpoints.remove_code_bp env;
  replace_code_bps = Breakpoints.replace_code_bps env;
  resolve_code_bp = Breakpoints.resolve_code_bp env;
  resolve_address = Breakpoints.resolve_address env;
  read_general_regs = Registers.read_general_regs env;
  write_general_reg = Registers.write_general_reg env;
  read_csrs = Registers.read_csrs env;
  write_csr = Registers.write_csr env;
  read_pc = Registers.read_pc env;
  write_pc = Registers.write_pc env;
  read_phys_memory = Memory.read_phys_memory env;
  read_virt_memory = Memory.read_virt_memory env;
}
