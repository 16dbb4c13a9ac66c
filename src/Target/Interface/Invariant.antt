-- ===== src/Target/Interface/Invariant.antt =====
-- Properties of the state of a target that every method of the trait `DebugTarget` keeps, at arguments
-- of 64 bits: what a user of the trait need know of its implementation.
use msim_dap.Common.{ℕ, List, String}
use msim_dap.Common.Int.{ℤ, IsU64}
use msim_dap.Common.Ensures.{Anything, Ensures}
use msim_dap.Target.{FilePath}
use msim_dap.Target.Interface.{DebugTarget}

pub record Invariant (T : DebugTarget) (P : T.State → Type 0) : Type 0 where
  pub cpu_count : Ensures P Anything T.cpu_count
  pub resume : Ensures P Anything T.resume
  pub pause : Ensures P Anything T.pause
  pub terminate : Ensures P Anything T.terminate
  pub step_by : (cpu count : ℕ) → IsU64 cpu → IsU64 count → Ensures P Anything (T.step_by cpu count)
  pub set_code_bp : (path : FilePath) (line : ℤ) → Ensures P Anything (T.set_code_bp path line)
  pub remove_code_bp :
      (path : FilePath) (line : ℤ) → Ensures P Anything (T.remove_code_bp path line)
  pub replace_code_bps :
      (path : FilePath) (lines : List ℤ) (t : T.State) → P t → P (T.replace_code_bps path lines t).1
  pub read_general_regs : (cpu : ℕ) → IsU64 cpu → Ensures P Anything (T.read_general_regs cpu)
  pub write_general_reg :
      (cpu : ℕ) (name : String) (value : ℕ)
      → IsU64 cpu
      → IsU64 value
      → Ensures P Anything (T.write_general_reg cpu name value)
  pub read_csrs : (cpu : ℕ) → IsU64 cpu → Ensures P Anything (T.read_csrs cpu)
  pub write_csr :
      (cpu : ℕ) (name : String) (value : ℕ)
      → IsU64 cpu
      → IsU64 value
      → Ensures P Anything (T.write_csr cpu name value)
  pub read_pc : (cpu : ℕ) → IsU64 cpu → Ensures P Anything (T.read_pc cpu)
  pub write_pc :
      (cpu address : ℕ) → IsU64 cpu → IsU64 address → Ensures P Anything (T.write_pc cpu address)
  pub read_phys_memory :
      (address length : ℕ) → IsU64 address → Ensures P Anything (T.read_phys_memory address length)
  pub read_virt_memory :
      (cpu address length : ℕ)
      → IsU64 cpu
      → IsU64 address
      → Ensures P Anything (T.read_virt_memory cpu address length)
