-- ===== src/Target/Registers/Values.antt =====
-- All registers of a CPU as they are read, and a register that is written by name,
-- src/target/msim_target.rs.
use msim_dap.Common.{
  ℕ, ◌≡◌, ◌≢◌, refl, ◌∙◌, List, ◌∷◌, String, map, range, nat_eq, string_eq, differ,
}
use msim_dap.Common.Results.{Result, ok}
use msim_dap.Common.Exec.{continue-pure}
use msim_dap.Msim.Frame.{
  CpuArch, write_general_register, write_csr as write_csr_request, write_pc as write_pc_request,
  read_pc as read_pc_request,
}
use msim_dap.Target.{TargetError, Exchange, Env, MsimTarget}
use msim_dap.Target.Registers.{
  Register, pc_reg_name, read_general_regs, write_general_reg, read_pc, write_pc, read_csr_loop,
  read_csrs, write_csr,
}
use msim_dap.Target.Registers.Names.{RegisterMapper, reg_name, csr_name}
use msim_dap.Target.Registers.Tables.{register_names}
use msim_dap.Target.Registers.Access.{Knows, csr_names, cached, reg_map-IsComplete}
use msim_dap.Target.Registers.Machine.{
  Machine, set, KeepsRegisters, registers_at, asked, answered, read_general_loop-values,
  read_csr_loop-values,
}

-- The general registers as they are read, and the control registers, the program counter first.
abbrev pub general_of : RegisterMapper → (ℕ → ℕ) → List Register
general_of mapper f = registers_at f (range 0 32) mapper.gen_reg_names

abbrev pub csrs_of : RegisterMapper → ℕ → (ℕ → ℕ) → List Register
csrs_of mapper pc f =
    record { name = pc_reg_name; value = pc }
    ∷ registers_at f (map (λ csr. csr.0) mapper.csr_map) (csr_names mapper)

module _ (env : Env) (m : List Exchange → Machine) (kept : KeepsRegisters env m) (cpu : ℕ)
    (arch : CpuArch) (mapper : RegisterMapper) where
  pub read_general_regs-values :
      (t : MsimTarget) (s : Machine)
      → Knows t cpu arch mapper
      → m t.exchanges ≡ s
      → (read_general_regs env cpu t).0 ≡ ok (general_of mapper (s.general cpu))
  unfolding read_general_regs
  read_general_regs-values t s (c, stored, known, table) at =
      let (count, complete, _) = reg_map-IsComplete arch mapper table in
      rw (cached env t c stored, known, table, count)
        (read_general_loop-values env m kept cpu mapper (range 0 32) mapper.gen_reg_names t s
          complete at)

  pub read_csrs-values :
      (t : MsimTarget) (s : Machine)
      → Knows t cpu arch mapper
      → m t.exchanges ≡ s
      → (read_csrs env cpu t).0 ≡ ok (csrs_of mapper (s.pc cpu) (s.csr cpu))
  unfolding read_csrs read_pc
  read_csrs-values t s (c, stored, known, table) at =
      let (_, _, complete) = reg_map-IsComplete arch mapper table in
      let (r, e, _, sent) = answered env m kept (read_pc_request cpu) t in
      let (value, still) = kept.pc t.exchanges cpu r e in
      rw (cached env t c stored, known, table, sent, value, at)
        (continue-pure (read_csr_loop env cpu mapper (map (λ csr. csr.0) mapper.csr_map) _)
          (λ l. record { name = pc_reg_name; value = s.pc cpu } ∷ l)
          (read_csr_loop-values env m kept cpu mapper (map (λ csr. csr.0) mapper.csr_map)
            (csr_names mapper) (asked env m kept (read_pc_request cpu) r t) s complete
            (still ∙ at)))

  -- A write of a register came to one exchange, after which the registers are these.
  pub record IsWritten (s : Machine) (outcome : Result TargetError (Unit {0}) × MsimTarget)
      : Type 0 where
    pub succeeded : outcome ≡ (ok tt, outcome.1)
    pub machine : m outcome.1.exchanges ≡ s
    pub knows : Knows outcome.1 cpu arch mapper

  pub write_general_reg-IsWritten :
      (t : MsimTarget) (id value : ℕ) (name : String)
      → Knows t cpu arch mapper
      → reg_name mapper id ≡ ok name
      → IsWritten
          (record (m t.exchanges) {
            general = set cpu (set id value ((m t.exchanges).general cpu)) (m t.exchanges).general;
          })
          (write_general_reg env cpu name value t)
  unfolding write_general_reg
  write_general_reg-IsWritten t id value name (c, stored, known, table) is_named =
      let (r, e, _, sent) = answered env m kept (write_general_register cpu id value) t in
      rw
        (
          cached env t c stored,
          known,
          table,
          (register_names arch mapper id name table).0.0 is_named,
          sent,
        )
        (record {
          succeeded = refl;
          machine = kept.set_general t.exchanges cpu id value (ok r);
          knows = (c, stored, known, table);
        })

  pub write_csr-IsWritten :
      (t : MsimTarget) (addr value : ℕ) (name : String)
      → Knows t cpu arch mapper
      → name ≢ pc_reg_name
      → csr_name mapper addr ≡ ok name
      → IsWritten
          (record (m t.exchanges) {
            csr = set cpu (set addr value ((m t.exchanges).csr cpu)) (m t.exchanges).csr;
          })
          (write_csr env cpu name value t)
  unfolding write_csr
  write_csr-IsWritten t addr value name (c, stored, known, table) not_pc is_named =
      let (r, e, _, sent) = answered env m kept (write_csr_request cpu addr value) t in
      rw
        (
          differ name pc_reg_name not_pc,
          cached env t c stored,
          known,
          table,
          (register_names arch mapper addr name table).1.0 is_named,
          sent,
        )
        (record {
          succeeded = refl;
          machine = kept.set_csr t.exchanges cpu addr value (ok r);
          knows = (c, stored, known, table);
        })

  pub write_pc-IsWritten :
      (t : MsimTarget) (value : ℕ)
      → Knows t cpu arch mapper
      → IsWritten
          (record (m t.exchanges) { pc = set cpu value (m t.exchanges).pc })
          (write_csr env cpu pc_reg_name value t)
  unfolding write_csr write_pc
  write_pc-IsWritten t value knows =
      let (r, e, _, sent) = answered env m kept (write_pc_request cpu value) t in
      rw sent (record {
        succeeded = refl;
        machine = kept.set_pc t.exchanges cpu value (ok r);
        knows = knows;
      })
