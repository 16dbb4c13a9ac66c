-- ===== src/Target/Registers/Machine.antt =====
-- Registers read from an MSIM that keeps them, src/target/msim_target.rs.
use msim_dap.Common.{
  ℕ, ◌≡◌, refl, ◌∙◌, arith, List, [], ◌∷◌, String, map, if◌then◌else◌, ◌==◌, nat_eq,
}
use msim_dap.Common.Results.{Result, ok}
use msim_dap.Common.Exec.{continue-pure}
use msim_dap.Msim.Frame.{
  Request, read_general_register, write_general_register, read_csr, write_csr, read_pc, write_pc,
}
use msim_dap.Msim.Messages.{MsimError, RawResponse}
use msim_dap.Target.{Exchange, Env, MsimTarget, send_raw, send, request}
use msim_dap.Target.Breakpoints.Acknowledged.{Acknowledges, acknowledged-ok}
use msim_dap.Target.Registers.{Register, read_general_loop, read_csr_loop}
use msim_dap.Target.Registers.Names.{RegisterMapper, reg_name, csr_name}
use msim_dap.Target.Registers.Access.{named}

-- The registers of all CPUs: general by CPU and number, control by CPU and address, and the counters.
pub record Machine : Type 0 where
  pub general : ℕ → ℕ → ℕ
  pub csr : ℕ → ℕ → ℕ
  pub pc : ℕ → ℕ

-- A function with its value at one argument set.
abbrev pub set : {A : Type 0} → ℕ → A → (ℕ → A) → ℕ → A
set a x f b = if a == b then x else f b

-- MSIM acknowledges every request and keeps the registers, which are `m log` after the exchanges of a
-- log: a read answers with the value and leaves the registers alone, a write sets one of them. What
-- other requests do to them is left open.
pub record KeepsRegisters (env : Env) (m : List Exchange → Machine) : Type 0 where
  pub acks : Acknowledges env
  pub general :
      (log : List Exchange) (cpu reg : ℕ) (r : RawResponse)
      → env.answer log (read_general_register cpu reg) ≡ ok r
      → (r.arg0 ≡ (m log).general cpu reg)
        × (m ((read_general_register cpu reg, ok r) ∷ log) ≡ m log)
  pub csr :
      (log : List Exchange) (cpu reg : ℕ) (r : RawResponse)
      → env.answer log (read_csr cpu reg) ≡ ok r
      → (r.arg0 ≡ (m log).csr cpu reg) × (m ((read_csr cpu reg, ok r) ∷ log) ≡ m log)
  pub pc :
      (log : List Exchange) (cpu : ℕ) (r : RawResponse)
      → env.answer log (read_pc cpu) ≡ ok r
      → (r.arg0 ≡ (m log).pc cpu) × (m ((read_pc cpu, ok r) ∷ log) ≡ m log)
  pub set_general :
      (log : List Exchange) (cpu reg value : ℕ) (reply : Result MsimError RawResponse)
      → m ((write_general_register cpu reg value, reply) ∷ log)
        ≡ record (m log) { general = set cpu (set reg value ((m log).general cpu)) (m log).general }
  pub set_csr :
      (log : List Exchange) (cpu reg value : ℕ) (reply : Result MsimError RawResponse)
      → m ((write_csr cpu reg value, reply) ∷ log)
        ≡ record (m log) { csr = set cpu (set reg value ((m log).csr cpu)) (m log).csr }
  pub set_pc :
      (log : List Exchange) (cpu value : ℕ) (reply : Result MsimError RawResponse)
      → m ((write_pc cpu value, reply) ∷ log) ≡ record (m log) { pc = set cpu value (m log).pc }

-- Registers by number, under these names.
abbrev pub registers_at : (ℕ → ℕ) → List ℕ → List String → List Register
registers_at f [] names = []
registers_at f (reg ∷ regs) [] = []
registers_at f (reg ∷ regs) (name ∷ names) =
    record { name = name; value = f reg } ∷ registers_at f regs names

module _ (env : Env) (m : List Exchange → Machine) (kept : KeepsRegisters env m) where
  -- The target after one more exchange.
  abbrev pub asked : Request → RawResponse → MsimTarget → MsimTarget
  asked q r t = record t { exchanges = (q, ok r) ∷ t.exchanges }

  pub answered :
      (q : Request) (t : MsimTarget)
      → (r : RawResponse) × (env.answer t.exchanges q ≡ ok r)
        × (send env q t ≡ (ok r, asked q r t))
        × (request env q t ≡ (ok r, asked q r t))
  unfolding request send send_raw
  answered q t =
      let (r, e, fine) = acknowledged-ok (env.answer t.exchanges q) (kept.acks t.exchanges q) in
      (r, e, rw e refl, rw (e, fine) refl)

  pub read_general_loop-values :
      (cpu : ℕ) (mapper : RegisterMapper) (regs : List ℕ) (names : List String) (t : MsimTarget)
      (s : Machine)
      → map (reg_name mapper) regs ≡ map named names
      → m t.exchanges ≡ s
      → (read_general_loop env cpu mapper regs t).0 ≡ ok (registers_at (s.general cpu) regs names)
  unfolding read_general_loop
  read_general_loop-values cpu mapper [] names t s h at = refl
  read_general_loop-values cpu mapper (reg ∷ regs) [] t s h at = cc
  read_general_loop-values cpu mapper (reg ∷ regs) (name ∷ names) t s h at =
      let (r, e, sent, _) = answered (read_general_register cpu reg) t in
      let (value, still) = kept.general t.exchanges cpu reg r e in
      let is_named : reg_name mapper reg ≡ ok name = ground arith in
      let rest =
        read_general_loop-values cpu mapper regs names (asked (read_general_register cpu reg) r t) s
          (ground arith) (still ∙ at) in
      rw (is_named, sent, value, at)
        (continue-pure (read_general_loop env cpu mapper regs _)
          (λ l. record { name = name; value = s.general cpu reg } ∷ l) rest)

  pub read_csr_loop-values :
      (cpu : ℕ) (mapper : RegisterMapper) (regs : List ℕ) (names : List String) (t : MsimTarget)
      (s : Machine)
      → map (csr_name mapper) regs ≡ map named names
      → m t.exchanges ≡ s
      → (read_csr_loop env cpu mapper regs t).0 ≡ ok (registers_at (s.csr cpu) regs names)
  unfolding read_csr_loop
  read_csr_loop-values cpu mapper [] names t s h at = refl
  read_csr_loop-values cpu mapper (reg ∷ regs) [] t s h at = cc
  read_csr_loop-values cpu mapper (reg ∷ regs) (name ∷ names) t s h at =
      let (r, e, _, sent) = answered (read_csr cpu reg) t in
      let (value, still) = kept.csr t.exchanges cpu reg r e in
      let is_named : csr_name mapper reg ≡ ok name = ground arith in
      let rest =
        read_csr_loop-values cpu mapper regs names (asked (read_csr cpu reg) r t) s (ground arith)
          (still ∙ at) in
      rw (is_named, sent, value, at)
        (continue-pure (read_csr_loop env cpu mapper regs _)
          (λ l. record { name = name; value = s.csr cpu reg } ∷ l) rest)
