-- ===== src/Target/Sent/Registers.antt =====
-- src/target/msim_target.rs: registers are requested by numbers and addresses of 64 bits.
use msim_dap.Common.{
  ℕ, zero, suc, ◌+◌, ◌^◌, ◌≤◌, ◌<◌, ◌≡◌, Option, none, some, List, [], ◌∷◌, String, Bool-cases, inl,
  inr, arith, refl, length, All, map, range, string_eq, ◌==◌,
}
use msim_dap.Common.Int.{IsU64}
use msim_dap.Common.Exec.{Exec, lift, ◌>>=◌}
use msim_dap.Common.Ensures.{
  OnSome, OnOk-ok_or, OnOk, Anything, Ensures, Ensures-bind, Ensures-then, Ensures-lift, Ensures-if,
  Ensures-Anything, OnOk-Anything, ensures_rules,
}
use msim_dap.Msim.Frame.{
  CpuArch, mips, riscv32, riscv64, unknown, read_general_register, write_general_register, read_csr,
  read_pc as read_pc_request, write_csr as write_csr_request, write_pc as write_pc_request,
}
use msim_dap.Target.{TargetError, Exchange, Env, MsimTarget}
use msim_dap.Target.Control.{get_config, cpu_arch}
use msim_dap.Target.Registers.{
  read_general_loop, read_general_regs, write_general_reg, read_pc, write_pc, read_csr_loop,
  read_csrs, write_named_csr, write_csr, pc_reg_name,
}
use msim_dap.Target.Registers.Names.{
  RegisterMapper, info, reg_map, position, name_to_reg_id, find_csr_addr, name_to_csr_addr,
}
use msim_dap.Target.Sent.{Holds, Grows, AnswersWords, send-Holds, request-Holds, get_config-Holds}

-- Tables whose numbers and addresses have 64 bits.
abbrev IsMapper : RegisterMapper → Type 0
IsMapper m = (length m.gen_reg_names ≤ 32) × All IsU64 (map (λ csr. csr.0) m.csr_map)

reg_map-IsMapper : (arch : CpuArch) → OnOk IsMapper (reg_map arch)
unfolding reg_map
reg_map-IsMapper mips = omega arith
reg_map-IsMapper riscv32 = omega arith
reg_map-IsMapper riscv64 = omega arith
reg_map-IsMapper unknown = tt

info-IsU64 : (arch : CpuArch) → OnOk IsU64 (info arch)
unfolding info
info-IsU64 unknown = tt
info-IsU64 _ = omega arith

range-IsU64 : (i n : ℕ) → i + n ≤ 2 ^ 64 → All IsU64 (range i n)
range-IsU64 i zero h = tt
range-IsU64 i (suc n) h = (omega arith, range-IsU64 (i + 1) n (omega arith))

-- What holds of whatever value there is.
OnSome-each :
    {A : Type 0} (Q : A → Type 0) (o : Option A) → ((a : A) → o ≡ some a → Q a) → OnSome Q o
OnSome-each Q none h = tt
OnSome-each Q (some a) h = h a refl

position-bound :
    (i : ℕ) (name : String) (names : List String) (k : ℕ)
    → position i name names ≡ some k
    → k < i + length names
unfolding position
position-bound i name [] k e = absurd (ground arith)
position-bound i name (n ∷ names) k e = elim (Bool-cases (n == name)) [
  | inl here ↦ ground arith
  | inr there ↦ omega (arith, position-bound (i + 1) name names k (ground arith))
]

find_csr_addr-IsU64 :
    (name : String) (csrs : List (ℕ × String)) (a : ℕ)
    → All IsU64 (map (λ csr. csr.0) csrs)
    → find_csr_addr name csrs ≡ some a
    → IsU64 a
unfolding find_csr_addr
find_csr_addr-IsU64 name [] a all e = absurd (ground arith)
find_csr_addr-IsU64 name ((b, n) ∷ csrs) a (h, all) e = elim (Bool-cases (n == name)) [
  | inl here ↦ ground arith
  | inr there ↦ find_csr_addr-IsU64 name csrs a all (ground arith)
]

name_to_reg_id-IsU64 :
    (m : RegisterMapper) (name : String) → IsMapper m → OnOk IsU64 (name_to_reg_id m name)
unfolding name_to_reg_id
name_to_reg_id-IsU64 m name (few, _) =
    OnOk-ok_or IsU64 _ _
      (OnSome-each IsU64 _ (λ k e. omega (arith, position-bound 0 name m.gen_reg_names k e)))

name_to_csr_addr-IsU64 :
    (m : RegisterMapper) (name : String) → IsMapper m → OnOk IsU64 (name_to_csr_addr m name)
unfolding name_to_csr_addr
name_to_csr_addr-IsU64 m name (_, small) =
    OnOk-ok_or IsU64 _ _ (OnSome-each IsU64 _ (λ a e. find_csr_addr-IsU64 name m.csr_map a small e))

module _ (env : Env) (replies : AnswersWords env.answer) (P : List Exchange → Type 0)
    (grows : Grows env P) (cpu : ℕ) (cpu-IsU64 : IsU64 cpu) where
  -- How every access by name starts: the architecture of the CPU, and its tables.
  with_tables-Holds :
      {A : Type 0} (k : CpuArch → RegisterMapper → Exec MsimTarget TargetError A)
      → ((arch : CpuArch) (m : RegisterMapper) → IsMapper m → Ensures (Holds P) Anything (k arch m))
      → Ensures (Holds P) Anything (
          get_config env >>= λ config.
          lift (cpu_arch config cpu) >>= λ arch. lift (reg_map arch) >>= k arch)
  with_tables-Holds k h =
      Ensures-then Anything _ _ (get_config-Holds env replies P grows) (λ config.
        Ensures-then Anything _ _ (Ensures-lift Anything _ (OnOk-Anything _)) (λ arch.
          Ensures-bind IsMapper Anything _ _ (Ensures-lift IsMapper _ (reg_map-IsMapper arch))
            (λ m. h arch m)))

  read_general_loop-Holds :
      (m : RegisterMapper) (regs : List ℕ)
      → All IsU64 regs
      → Ensures (Holds P) Anything (read_general_loop env cpu m regs)
  unfolding read_general_loop
  read_general_loop-Holds m [] all = search ensures_rules
  read_general_loop-Holds m (reg ∷ regs) (h, all) =
      let ih = read_general_loop-Holds m regs all in
      let first =
        Ensures-Anything _ _
          (send-Holds env replies P grows (read_general_register cpu reg) (cpu-IsU64, h)) in
      search ensures_rules

  pub read_general_regs-Holds : Ensures (Holds P) Anything (read_general_regs env cpu)
  unfolding read_general_regs
  read_general_regs-Holds = with_tables-Holds _ (λ arch m _.
      Ensures-bind IsU64 Anything _ _ (Ensures-lift IsU64 _ (info-IsU64 arch))
        (λ n h. read_general_loop-Holds m (range 0 n) (range-IsU64 0 n (omega (arith, h)))))

  pub write_general_reg-Holds :
      (name : String) (value : ℕ)
      → IsU64 value
      → Ensures (Holds P) Anything (write_general_reg env cpu name value)
  unfolding write_general_reg
  write_general_reg-Holds name value v = with_tables-Holds _ (λ arch m tables.
      Ensures-bind IsU64 Anything _ _ (Ensures-lift IsU64 _ (name_to_reg_id-IsU64 m name tables))
        (λ reg r.
          let first =
            request-Holds env replies P grows (write_general_register cpu reg value)
              (cpu-IsU64, r, v) in
          search ensures_rules))

  pub read_pc-Holds : Ensures (Holds P) Anything (read_pc env cpu)
  unfolding read_pc
  read_pc-Holds =
      let first = request-Holds env replies P grows (read_pc_request cpu) cpu-IsU64 in
      search ensures_rules

  pub write_pc-Holds :
      (address : ℕ) → IsU64 address → Ensures (Holds P) Anything (write_pc env cpu address)
  unfolding write_pc
  write_pc-Holds address a =
      let first = request-Holds env replies P grows (write_pc_request cpu address) (cpu-IsU64, a) in
      search ensures_rules

  read_csr_loop-Holds :
      (m : RegisterMapper) (regs : List ℕ)
      → All IsU64 regs
      → Ensures (Holds P) Anything (read_csr_loop env cpu m regs)
  unfolding read_csr_loop
  read_csr_loop-Holds m [] all = search ensures_rules
  read_csr_loop-Holds m (reg ∷ regs) (h, all) =
      let ih = read_csr_loop-Holds m regs all in
      let first = request-Holds env replies P grows (read_csr cpu reg) (cpu-IsU64, h) in
      search ensures_rules

  pub read_csrs-Holds : Ensures (Holds P) Anything (read_csrs env cpu)
  unfolding read_csrs
  read_csrs-Holds = with_tables-Holds _ (λ arch m tables.
      let rest = read_csr_loop-Holds m (map (λ csr. csr.0) m.csr_map) tables.1 in
      search (ensures_rules, read_pc-Holds))

  write_named_csr-Holds :
      (name : String) (value : ℕ)
      → IsU64 value
      → Ensures (Holds P) Anything (write_named_csr env cpu name value)
  write_named_csr-Holds name value v = with_tables-Holds _ (λ arch m tables.
      Ensures-bind IsU64 Anything _ _ (Ensures-lift IsU64 _ (name_to_csr_addr-IsU64 m name tables))
        (λ reg r.
          let first =
            request-Holds env replies P grows (write_csr_request cpu reg value) (cpu-IsU64, r, v) in
          search ensures_rules))

  pub write_csr-Holds :
      (name : String) (value : ℕ)
      → IsU64 value
      → Ensures (Holds P) Anything (write_csr env cpu name value)
  unfolding write_csr
  write_csr-Holds name value v =
      Ensures-if Anything (name == pc_reg_name) _ _ (write_pc-Holds value v)
        (write_named_csr-Holds name value v)
