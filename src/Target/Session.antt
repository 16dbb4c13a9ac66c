-- ===== src/Target/Session.antt =====
-- Every operation of the trait `DebugTarget`, src/target/mod.rs, and runs of them in any order.
pub mod Logged
use msim_dap.Common.{
  ℕ, zero, suc, ◌+◌, ◌≡◌, refl, List, [], ◌∷◌, String, if◌then◌else◌, ◌==◌, string_eq, Bool-cases,
  inl, inr, Option-cases, none, some, arith,
}
use msim_dap.Common.Int.{ℤ}
use msim_dap.Common.Results.{Result, ok, err}
use msim_dap.Common.Exec.{Exec, Keeps, Keeps-bind, Keeps-lift, Keeps-pure, Keeps-gets, keeps_rules}
use msim_dap.Msim.Frame.{Request, set_code_breakpoint, remove_code_breakpoint, CpuArch}
use msim_dap.Target.{FilePath, TargetError, Env, MsimTarget, new, send_raw, send, request}
use msim_dap.Target.Breakpoints.{set_code_bp, remove_code_bp, replace_code_bps}
use msim_dap.Target.Breakpoints.Log.{
  IsLogged, set_code_bp-IsLogged, remove_code_bp-IsLogged, replace_code_bps-IsLogged,
}
use msim_dap.Target.Control
use msim_dap.Target.Registers
use msim_dap.Target.Registers.Names.{RegisterMapper, reg_name, csr_name}
use msim_dap.Target.Memory
use msim_dap.Msim.Frame

pub data Operation : Type 0 where
  cpu_count resume pause terminate : Operation
  step_by : ℕ → ℕ → Operation
  set_bp remove_bp : FilePath → ℤ → Operation
  replace_bps : FilePath → List ℤ → Operation
  read_general_regs read_csrs read_pc : ℕ → Operation
  write_general_reg write_csr : ℕ → String → ℕ → Operation
  write_pc : ℕ → ℕ → Operation
  read_phys_memory : ℕ → ℕ → Operation
  read_virt_memory : ℕ → ℕ → ℕ → Operation

module _ (env : Env) where
  -- The target after an operation, however it came out.
  unfoldable pub perform : Operation → MsimTarget → MsimTarget
  perform cpu_count t = (Control.cpu_count env t).1
  perform resume t = (Control.resume env t).1
  perform pause t = (Control.pause env t).1
  perform terminate t = (Control.terminate env t).1
  perform (step_by cpu count) t = (Control.step_by env cpu count t).1
  perform (set_bp source line) t = (set_code_bp env source line t).1
  perform (remove_bp source line) t = (remove_code_bp env source line t).1
  perform (replace_bps source lines) t = (replace_code_bps env source lines t).1
  perform (read_general_regs cpu) t = (Registers.read_general_regs env cpu t).1
  perform (read_csrs cpu) t = (Registers.read_csrs env cpu t).1
  perform (read_pc cpu) t = (Registers.read_pc env cpu t).1
  perform (write_general_reg cpu name value) t =
      (Registers.write_general_reg env cpu name value t).1
  perform (write_csr cpu name value) t = (Registers.write_csr env cpu name value t).1
  perform (write_pc cpu address) t = (Registers.write_pc env cpu address t).1
  perform (read_phys_memory address length) t = (Memory.read_phys_memory env address length t).1
  perform (read_virt_memory cpu address length) t =
      (Memory.read_virt_memory env cpu address length t).1

  unfoldable pub perform_all : List Operation → MsimTarget → MsimTarget
  unfolding perform
  perform_all [] t = t
  perform_all (op ∷ ops) t = perform_all ops (perform op t)
