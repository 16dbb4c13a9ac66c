-- ===== src/Target/Interface/Sent.antt =====
-- What requests with 64-bit fields keep of the exchanges of an `MsimTarget`, as an invariant of its
-- methods.
use msim_dap.Common.{List}
use msim_dap.Target.{Exchange, Env}
use msim_dap.Target.Interface.{msim_target}
use msim_dap.Target.Interface.Invariant.{Invariant}
use msim_dap.Target.Sent.{
  Holds, Grows, AnswersWords, HasWords, cpu_count-Holds, resume-Holds, pause-Holds, terminate-Holds,
  step_by-Holds,
}
use msim_dap.Target.Sent.Breakpoints.{
  set_code_bp-Holds, remove_code_bp-Holds, replace_code_bps-Holds,
}
use msim_dap.Target.Sent.Registers.{
  read_general_regs-Holds, write_general_reg-Holds, read_csrs-Holds, write_csr-Holds, read_pc-Holds,
  write_pc-Holds,
}
use msim_dap.Target.Sent.Memory.{read_phys_memory-Holds, read_virt_memory-Holds}

pub sent :
    (env : Env)
    → AnswersWords env.answer
    → (P : List Exchange → Type 0) (grows : Grows env P) (index : HasWords env.index)
    → Invariant (msim_target env) (Holds P)
sent env replies P grows index = record {
  cpu_count = cpu_count-Holds env replies P grows;
  resume = resume-Holds env replies P grows;
  pause = pause-Holds env replies P grows;
  terminate = terminate-Holds env replies P grows;
  step_by = step_by-Holds env replies P grows;
  set_code_bp = set_code_bp-Holds env replies P grows index;
  remove_code_bp = remove_code_bp-Holds env replies P grows index;
  replace_code_bps = replace_code_bps-Holds env replies P grows index;
  read_general_regs = read_general_regs-Holds env replies P grows;
  write_general_reg =
      λ cpu name value h. write_general_reg-Holds env replies P grows cpu h name value;
  read_csrs = read_csrs-Holds env replies P grows;
  write_csr = λ cpu name value h. write_csr-Holds env replies P grows cpu h name value;
  read_pc = read_pc-Holds env replies P grows;
  write_pc = λ cpu address h. write_pc-Holds env replies P grows cpu h address;
  read_phys_memory = read_phys_memory-Holds env replies P grows;
  read_virt_memory = read_virt_memory-Holds env replies P grows;
}
