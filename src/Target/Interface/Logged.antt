-- ===== src/Target/Interface/Logged.antt =====
-- That the breakpoints which an `MsimTarget` remembers are those in its exchanges, as an invariant of
-- its methods.
use msim_dap.Common.{◌≡◌, refl, sym, subst}
use msim_dap.Common.Exec.{Exec}
use msim_dap.Common.Ensures.{Anything, Ensures, OnOk-Anything}
use msim_dap.Target.{Env, MsimTarget, TargetError}
use msim_dap.Target.Breakpoints.Log.{IsLogged}
use msim_dap.Target.Interface.{msim_target}
use msim_dap.Target.Interface.Invariant.{Invariant}
use msim_dap.Target.Session.{
  Operation, perform, cpu_count, resume, pause, terminate, step_by, set_bp, remove_bp, replace_bps,
  read_general_regs, read_csrs, read_pc, write_general_reg, write_csr, write_pc, read_phys_memory,
  read_virt_memory,
}
use msim_dap.Target.Session.Logged.{perform-IsLogged}

performed :
    (env : Env) {A : Type 0} (m : Exec MsimTarget TargetError A) (op : Operation)
    → ((t : MsimTarget) → (m t).1 ≡ perform env op t)
    → Ensures IsLogged Anything m
performed env m op same = record {
  at = λ t h. (subst IsLogged (sym (same t)) (perform-IsLogged env op t h), OnOk-Anything (m t).0);
}

pub logged : (env : Env) → Invariant (msim_target env) IsLogged
unfolding perform
logged env = record {
  cpu_count = performed env _ cpu_count (λ t. refl);
  resume = performed env _ resume (λ t. refl);
  pause = performed env _ pause (λ t. refl);
  terminate = performed env _ terminate (λ t. refl);
  step_by = λ cpu count _ _. performed env _ (step_by cpu count) (λ t. refl);
  set_code_bp = λ path line. performed env _ (set_bp path line) (λ t. refl);
  remove_code_bp = λ path line. performed env _ (remove_bp path line) (λ t. refl);
  replace_code_bps = λ path lines t h. perform-IsLogged env (replace_bps path lines) t h;
  read_general_regs = λ cpu _. performed env _ (read_general_regs cpu) (λ t. refl);
  write_general_reg =
      λ cpu name value _ _. performed env _ (write_general_reg cpu name value) (λ t. refl);
  read_csrs = λ cpu _. performed env _ (read_csrs cpu) (λ t. refl);
  write_csr = λ cpu name value _ _. performed env _ (write_csr cpu name value) (λ t. refl);
  read_pc = λ cpu _. performed env _ (read_pc cpu) (λ t. refl);
  write_pc = λ cpu address _ _. performed env _ (write_pc cpu address) (λ t. refl);
  read_phys_memory =
      λ address length _. performed env _ (read_phys_memory address length) (λ t. refl);
  read_virt_memory =
      λ cpu address length _ _. performed env _ (read_virt_memory cpu address length) (λ t. refl);
}
