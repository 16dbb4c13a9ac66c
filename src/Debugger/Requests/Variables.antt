-- ===== src/Debugger/Requests/Variables.antt =====
-- `setVariable` and then `variables`, over the target of src/target/msim_target.rs and an MSIM that
-- keeps the registers.
use msim_dap.Common.{ℕ, ◌≡◌, ◌≢◌, refl, ap, ◌∙◌, List, String, map, nat_eq, eq_self}
use msim_dap.Common.Int.{ℤ}
use msim_dap.Common.Results.{ok}
use msim_dap.Msim.Frame.{CpuArch}
use msim_dap.Target.{Exchange, Env, MsimTarget}
use msim_dap.Target.Interface.{msim_target}
use msim_dap.Target.Registers.{
  Register, pc_reg_name, read_general_regs, read_csrs, write_general_reg, write_csr,
}
use msim_dap.Target.Registers.Names.{RegisterMapper, reg_name, csr_name}
use msim_dap.Target.Registers.Access.{Knows}
use msim_dap.Target.Registers.Machine.{Machine, set, KeepsRegisters}
use msim_dap.Target.Registers.Values.{
  general_of, csrs_of, read_general_regs-values, read_csrs-values, write_general_reg-IsWritten,
  write_csr-IsWritten, write_pc-IsWritten,
}
use msim_dap.Debugger.{general_registers, csr_registers}
use msim_dap.Debugger.Strings.{Text, hex}
use msim_dap.Debugger.Registries.{resolve_var_ref}
use msim_dap.Debugger.Protocol.{Debugger, ResponseBody}
use msim_dap.Debugger.Requests.{reply, variable, variables, set_variable, parse_value}

module _ (env : Env) where
  -- Setting a variable of a scope is answered with the value, and of the scope is shown afterwards:
  -- these registers.
  abbrev pub Shows : ℕ → ℤ → String → Text → ℕ → Debugger MsimTarget → List Register → Type 0
  Shows cpu var_ref name text value d registers =
      ((set_variable (msim_target env) var_ref name text d).0
        ≡ ok (reply (ResponseBody.set_variable (hex value))))
      × ((variables (msim_target env) var_ref
            (set_variable (msim_target env) var_ref name text d).1).0
          ≡ ok (reply (ResponseBody.variables (map (variable cpu) registers))))

  -- From a write that returned and a read after it.
  general-Shows :
      (cpu : ℕ) (var_ref : ℤ) (name : String) (text : Text) (value : ℕ) (d : Debugger MsimTarget)
      (t : MsimTarget) (registers : List Register)
      → resolve_var_ref var_ref ≡ ok (general_registers cpu)
      → parse_value text ≡ ok value
      → write_general_reg env cpu name value d.target ≡ (ok tt, t)
      → (read_general_regs env cpu t).0 ≡ ok registers
      → Shows cpu var_ref name text value d registers
  unfolding set_variable variables
  general-Shows cpu var_ref name text value d t registers scope parsed written shown =
      rw (scope, parsed, written, shown) (refl, refl)

  csr-Shows :
      (cpu : ℕ) (var_ref : ℤ) (name : String) (text : Text) (value : ℕ) (d : Debugger MsimTarget)
      (t : MsimTarget) (registers : List Register)
      → resolve_var_ref var_ref ≡ ok (csr_registers cpu)
      → parse_value text ≡ ok value
      → write_csr env cpu name value d.target ≡ (ok tt, t)
      → (read_csrs env cpu t).0 ≡ ok registers
      → Shows cpu var_ref name text value d registers
  unfolding set_variable variables
  csr-Shows cpu var_ref name text value d t registers scope parsed written shown =
      rw (scope, parsed, written, shown) (refl, refl)

-- The registers of a CPU after some were set.
set_self : {A : Type 0} (a : ℕ) (x : A) (f : ℕ → A) → set a x f a ≡ x
set_self a x f = rw (eq_self a) refl

module _ (env : Env) (m : List Exchange → Machine) (kept : KeepsRegisters env m) where
  -- Where MSIM acknowledges every request and keeps the registers, the architecture of a CPU is
  -- known, and a text is one that `setVariable` takes for a value: setting a general register of
  -- the CPU by its name to it, a control register, or the program counter is answered with the
  -- value, and `variables` then lists all registers of that scope under their names, in order, the
  -- one that was set with the value and the others as before.
  pub variables-set_variable :
      (cpu value id addr : ℕ) (arch : CpuArch) (mapper : RegisterMapper) (d : Debugger MsimTarget)
      (general_ref csr_ref : ℤ) (name csr : String) (text : Text)
      → Knows d.target cpu arch mapper
      → resolve_var_ref general_ref ≡ ok (general_registers cpu)
      → resolve_var_ref csr_ref ≡ ok (csr_registers cpu)
      → reg_name mapper id ≡ ok name
      → csr_name mapper addr ≡ ok csr
      → csr ≢ pc_reg_name
      → parse_value text ≡ ok value
      → Shows env cpu general_ref name text value d
          (general_of mapper (set id value ((m d.target.exchanges).general cpu)))
        × Shows env cpu csr_ref csr text value d (
            csrs_of mapper
              ((m d.target.exchanges).pc cpu)
              (set addr value ((m d.target.exchanges).csr cpu)))
        × Shows env cpu csr_ref pc_reg_name text value d
            (csrs_of mapper value ((m d.target.exchanges).csr cpu))
  variables-set_variable cpu value id addr arch mapper d general_ref csr_ref name csr text knows
        general_scope csr_scope is_register is_csr not_pc parsed =
      let s = m d.target.exchanges in
      let a =
        write_general_reg-IsWritten env m kept cpu arch mapper d.target id value name knows
          is_register in
      let b =
        write_csr-IsWritten env m kept cpu arch mapper d.target addr value csr knows not_pc
          is_csr in
      let c = write_pc-IsWritten env m kept cpu arch mapper d.target value knows in
      (
        general-Shows env cpu general_ref name text value d _ _ general_scope parsed a.succeeded (
            read_general_regs-values env m kept cpu arch mapper _ _ a.knows a.machine
            ∙ ap (λ f. ok (general_of mapper f))
                (set_self cpu (set id value (s.general cpu)) s.general)),
        csr-Shows env cpu csr_ref csr text value d _ _ csr_scope parsed b.succeeded (
            read_csrs-values env m kept cpu arch mapper _ _ b.knows b.machine
            ∙ ap (λ f. ok (csrs_of mapper (s.pc cpu) f))
                (set_self cpu (set addr value (s.csr cpu)) s.csr)),
        csr-Shows env cpu csr_ref pc_reg_name text value d _ _ csr_scope parsed c.succeeded (
            read_csrs-values env m kept cpu arch mapper _ _ c.knows c.machine
            ∙ ap (λ pc. ok (csrs_of mapper pc (s.csr cpu))) (set_self cpu value s.pc)),
      )
