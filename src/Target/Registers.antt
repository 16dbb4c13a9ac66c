-- ===== src/Target/Registers.antt =====
-- src/target/msim_target.rs, reading and writing the registers of a CPU.
pub mod Names
pub mod Tables
pub mod Access
pub mod Machine
pub mod Values
use msim_dap.Common.{ℕ, List, [], ◌∷◌, ◌++◌, String, if◌then◌else◌, ◌==◌, string_eq, map, range}
use msim_dap.Common.Exec.{Exec, pure, lift, ◌>>=◌, ◌>>◌}
use msim_dap.Msim.Frame.{
  read_general_register, write_general_register, read_csr, read_pc as read_pc_request,
  write_csr as write_csr_request, write_pc as write_pc_request,
}
use msim_dap.Target.{TargetError, Env, MsimTarget, send, request}
use msim_dap.Target.Control.{get_config, cpu_arch}
use Names.{RegisterMapper, info, reg_map, reg_name, csr_name, name_to_reg_id, name_to_csr_addr}

pub record Register : Type 0 where
  pub name : String
  pub value : ℕ

abbrev pub pc_reg_name : String
pc_reg_name = "pc"

module _ (env : Env) (cpu : ℕ) where
  -- The loop of `read_general_regs`: the status of the response is not looked at.
  unfoldable pub read_general_loop :
      RegisterMapper → List ℕ → Exec MsimTarget TargetError (List Register)
  read_general_loop mapper [] = pure []
  read_general_loop mapper (reg ∷ regs) = do
    name ← lift (reg_name mapper reg)
    response ← send env (read_general_register cpu reg)
    registers ← read_general_loop mapper regs
    pure (record { name = name; value = response.arg0 } ∷ registers)

  -- `DebugTarget::read_general_regs`
  unfoldable pub read_general_regs : Exec MsimTarget TargetError (List Register)
  read_general_regs = do
    config ← get_config env
    arch ← lift (cpu_arch config cpu)
    mapper ← lift (reg_map arch)
    reg_count ← lift (info arch)
    read_general_loop mapper (range 0 reg_count)

  -- `DebugTarget::write_general_reg`
  unfoldable pub write_general_reg : String → ℕ → Exec MsimTarget TargetError (Unit {0})
  write_general_reg name value = do
    config ← get_config env
    arch ← lift (cpu_arch config cpu)
    mapper ← lift (reg_map arch)
    reg ← lift (name_to_reg_id mapper name)
    request env (write_general_register cpu reg value)
    pure tt

  -- `DebugTarget::read_pc`
  unfoldable pub read_pc : Exec MsimTarget TargetError ℕ
  read_pc = do response ← request env (read_pc_request cpu); pure response.arg0

  -- `DebugTarget::write_pc`
  unfoldable pub write_pc : ℕ → Exec MsimTarget TargetError (Unit {0})
  write_pc address = do request env (write_pc_request cpu address); pure tt

  -- The loop of `read_csrs`
  unfoldable pub read_csr_loop :
      RegisterMapper → List ℕ → Exec MsimTarget TargetError (List Register)
  read_csr_loop mapper [] = pure []
  read_csr_loop mapper (reg ∷ regs) = do
    response ← request env (read_csr cpu reg)
    name ← lift (csr_name mapper reg)
    registers ← read_csr_loop mapper regs
    pure (record { name = name; value = response.arg0 } ∷ registers)

  -- `DebugTarget::read_csrs`
  unfoldable pub read_csrs : Exec MsimTarget TargetError (List Register)
  read_csrs = do
    config ← get_config env
    arch ← lift (cpu_arch config cpu)
    mapper ← lift (reg_map arch)
    pc ← read_pc
    registers ← read_csr_loop mapper (map (λ csr. csr.0) mapper.csr_map)
    pure (record { name = pc_reg_name; value = pc } ∷ registers)

  abbrev pub write_named_csr : String → ℕ → Exec MsimTarget TargetError (Unit {0})
  write_named_csr name value = do
    config ← get_config env
    arch ← lift (cpu_arch config cpu)
    mapper ← lift (reg_map arch)
    reg ← lift (name_to_csr_addr mapper name)
    request env (write_csr_request cpu reg value)
    pure tt

  -- `DebugTarget::write_csr`
  unfoldable pub write_csr : String → ℕ → Exec MsimTarget TargetError (Unit {0})
  write_csr name value = if name == pc_reg_name then write_pc value else write_named_csr name value
