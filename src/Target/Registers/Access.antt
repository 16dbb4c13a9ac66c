-- ===== src/Target/Registers/Access.antt =====
-- Reading and writing registers by name, src/target/msim_target.rs.
use msim_dap.Common.{
  ℕ, ◌≡◌, ◌≢◌, ◌⊎◌, inl, inr, refl, sym, ap, ap₂, ◌∙◌, subst, some, List, [], ◌∷◌, arith, String,
  string_eq, differ, map, range,
}
use msim_dap.Common.Results.{Result, ok, err, map_err, ok-injective, ok_or-cases}
use msim_dap.Common.Exec.{pure, lift, bind-eq-ok, ◌>>◌}
use msim_dap.Msim.Frame.{
  Request, CpuArch, mips, riscv32, riscv64, unknown, write_general_register,
  write_csr as write_csr_request, write_pc as write_pc_request, read_general_register, read_csr,
}
use msim_dap.Msim.Messages.{MsimError, RawResponse, to_result}
use msim_dap.Target.{
  TargetError, unknown_register_name, unknown_csr_name, Env, Config, MsimTarget, from_msim,
  send_raw, send, request,
}
use msim_dap.Target.Control.{get_config, cpu_arch}
use msim_dap.Target.Registers.{
  Register, pc_reg_name, read_general_loop, read_general_regs, write_general_reg, read_pc, write_pc,
  read_csr_loop, read_csrs, write_csr,
}
use msim_dap.Target.Registers.Names.{
  RegisterMapper, mips_map, riscv_map, info, reg_map, reg_name, csr_name, name_to_reg_id,
  name_to_csr_addr,
}
use msim_dap.Target.Registers.Tables.{register_names}

-- A cached configuration in which the CPU has the architecture of this mapper.
abbrev pub Knows : MsimTarget → ℕ → CpuArch → RegisterMapper → Type 0
Knows t cpu arch mapper =
    (c : Config) × (t.config ≡ some c) × (cpu_arch c cpu ≡ ok arch) × (reg_map arch ≡ ok mapper)

-- One request and nothing else: the reply decides the result.
abbrev pub settled : Result MsimError RawResponse → Result TargetError (Unit {0})
settled reply =
    map_err from_msim
      (elim reply [ ok r ↦ elim (to_result r) [ ok _ ↦ ok tt | err e ↦ err e ] | err e ↦ err e ])

abbrev pub One : Env → Request → MsimTarget → Result TargetError (Unit {0}) × MsimTarget → Type 0
One env q t outcome =
    let reply = env.answer t.exchanges q in
    outcome ≡ (settled reply, record t { exchanges = (q, reply) ∷ t.exchanges })

request-One :
    (env : Env) (q : Request) (t : MsimTarget) → One env q t ((request env q >> pure tt) t)
unfolding request send send_raw to_result
request-One env q t = ground arith

-- With a cached configuration a lookup in it sends nothing.
pub cached :
    (env : Env) (t : MsimTarget) (c : Config) → t.config ≡ some c → get_config env t ≡ (ok c, t)
unfolding get_config
cached env t c h = rw h

reg_id-cases :
    (mapper : RegisterMapper) (name : String)
    → ((id : ℕ) × (name_to_reg_id mapper name ≡ ok id))
      ⊎ (name_to_reg_id mapper name ≡ err (unknown_register_name name))
unfolding name_to_reg_id
reg_id-cases mapper name = ok_or-cases _ _

csr_addr-cases :
    (mapper : RegisterMapper) (name : String)
    → ((addr : ℕ) × (name_to_csr_addr mapper name ≡ ok addr))
      ⊎ (name_to_csr_addr mapper name ≡ err (unknown_csr_name name))
unfolding name_to_csr_addr
csr_addr-cases mapper name = ok_or-cases _ _

-- A write to a general register by name, the architecture being known. For the name of register `id`
-- just one request goes out, to write the value to register `id` of that CPU, and the reply decides
-- the result. The name of no register is answered by `UnknownRegisterName`, and nothing is sent.
write_general_by_name :
    (env : Env) (cpu value : ℕ) (t : MsimTarget) (arch : CpuArch) (mapper : RegisterMapper)
    → Knows t cpu arch mapper
    → (id : ℕ) (name other : String) → reg_name mapper id ≡ ok name
    → ((i : ℕ) → reg_name mapper i ≢ ok other)
    → One env (write_general_register cpu id value) t (write_general_reg env cpu name value t)
      × (write_general_reg env cpu other value t ≡ (err (unknown_register_name other), t))
unfolding write_general_reg
write_general_by_name env cpu value t arch mapper (c, stored, known, table) id name other named
      unnamed =
    (
      rw (cached env t c stored, known, table, (register_names arch mapper id name table).0.0 named)
          (request-One env (write_general_register cpu id value) t),
      elim (reg_id-cases mapper other) [
        | inl (i, found) ↦ absurd (unnamed i ((register_names arch mapper i other table).0.1 found))
        | inr missing ↦ rw (cached env t c stored, known, table, missing)
      ],
    )

-- A write to a control register by name, the architecture being known. The name `pc` sends just the
-- request to write the program counter. Another name that the table has at an address sends just the
-- request to write the value there. A reply decides the result. A name that is neither is answered by
-- `UnknownCsrName`, and nothing is sent.
pub write_csr_by_name :
    (env : Env) (cpu value : ℕ) (t : MsimTarget) (arch : CpuArch) (mapper : RegisterMapper)
    → Knows t cpu arch mapper
    → (addr : ℕ) (name other : String) → name ≢ pc_reg_name
    → csr_name mapper addr ≡ ok name
    → other ≢ pc_reg_name
    → ((a : ℕ) → csr_name mapper a ≢ ok other)
    → One env (write_pc_request cpu value) t (write_csr env cpu pc_reg_name value t)
      × One env (write_csr_request cpu addr value) t (write_csr env cpu name value t)
      × (write_csr env cpu other value t ≡ (err (unknown_csr_name other), t))
unfolding write_csr write_pc
write_csr_by_name env cpu value t arch mapper (c, stored, known, table) addr name other not_pc named
      other_not_pc unnamed =
    (
      request-One env (write_pc_request cpu value) t,
      rw
          (
            differ name pc_reg_name not_pc,
            cached env t c stored,
            known,
            table,
            (register_names arch mapper addr name table).1.0 named,
          )
          (request-One env (write_csr_request cpu addr value) t),
      elim (csr_addr-cases mapper other) [
        | inl (a, found) ↦ absurd (unnamed a ((register_names arch mapper a other table).1.1 found))
        | inr missing ↦
            rw (differ other pc_reg_name other_not_pc, cached env t c stored, known, table, missing)
      ],
    )

abbrev pub names : List Register → List String
names = map (λ r. r.name)

read_general_loop-names :
    (env : Env) (cpu : ℕ) (mapper : RegisterMapper) (regs : List ℕ) (t t' : MsimTarget)
    (l : List Register)
    → read_general_loop env cpu mapper regs t ≡ (ok l, t')
    → map (reg_name mapper) regs ≡ map (λ r. ok r.name) l
unfolding read_general_loop
read_general_loop-names env cpu mapper [] t t' l e =
    let none_read : [] ≡ l = ground arith in rw (← none_read)
read_general_loop-names env cpu mapper (reg ∷ regs) t t' l e =
    let (name, t1, p, q) = bind-eq-ok (lift (reg_name mapper reg) t) _ e in
    let (response, t2, p', q') = bind-eq-ok (send env (read_general_register cpu reg) t1) _ q in
    let (rest, t3, p'', q'') = bind-eq-ok (read_general_loop env cpu mapper regs t2) _ q' in
    let read_all : record { name = name; value = response.arg0 } ∷ rest ≡ l = ground arith in
    let named : reg_name mapper reg ≡ ok name = ground arith in
    rw (← read_all)
      (ap₂ (λ n ns. n ∷ ns) named (read_general_loop-names env cpu mapper regs t2 t3 rest p''))

read_csr_loop-names :
    (env : Env) (cpu : ℕ) (mapper : RegisterMapper) (regs : List ℕ) (t t' : MsimTarget)
    (l : List Register)
    → read_csr_loop env cpu mapper regs t ≡ (ok l, t')
    → map (csr_name mapper) regs ≡ map (λ r. ok r.name) l
unfolding read_csr_loop
read_csr_loop-names env cpu mapper [] t t' l e =
    let none_read : [] ≡ l = ground arith in rw (← none_read)
read_csr_loop-names env cpu mapper (reg ∷ regs) t t' l e =
    let (response, t2, p', q) = bind-eq-ok (request env (read_csr cpu reg) t) _ e in
    let (name, t1, p, q') = bind-eq-ok (lift (csr_name mapper reg) t2) _ q in
    let (rest, t3, p'', q'') = bind-eq-ok (read_csr_loop env cpu mapper regs t1) _ q' in
    let read_all : record { name = name; value = response.arg0 } ∷ rest ≡ l = ground arith in
    let named : csr_name mapper reg ≡ ok name = ground arith in
    rw (← read_all)
      (ap₂ (λ n ns. n ∷ ns) named (read_csr_loop-names env cpu mapper regs t1 t3 rest p''))

abbrev pub named : String → Result TargetError String
named n = ok n

-- Results that are all `ok` determine their values.
all_named :
    (l : List Register) (ns : List String) → map (λ r. named r.name) l ≡ map named ns → names l ≡ ns
all_named [] [] h = refl
all_named [] (n ∷ ns) h = cc
all_named (r ∷ l) [] h = cc
all_named (r ∷ l) (n ∷ ns) h = ap₂ (λ m ms. m ∷ ms) (ground arith) (all_named l ns (ground arith))

abbrev pub csr_names : RegisterMapper → List String
csr_names mapper = map (λ c. c.1) mapper.csr_map

-- By number, the tables give all names in order, and no error.
abbrev pub IsComplete : CpuArch → RegisterMapper → Type 0
IsComplete arch mapper =
    (info arch ≡ ok 32)
    × (map (reg_name mapper) (range 0 32) ≡ map named mapper.gen_reg_names)
    × (map (csr_name mapper) (map (λ c. c.0) mapper.csr_map) ≡ map named (csr_names mapper))

pub reg_map-IsComplete :
    (arch : CpuArch) (mapper : RegisterMapper) → reg_map arch ≡ ok mapper → IsComplete arch mapper
unfolding reg_map info reg_name csr_name
reg_map-IsComplete mips mapper h =
    subst (IsComplete mips) (ok-injective mips_map mapper h) (refl, refl, refl)
reg_map-IsComplete riscv32 mapper h =
    subst (IsComplete riscv32) (ok-injective riscv_map mapper h) (refl, refl, refl)
reg_map-IsComplete riscv64 mapper h =
    subst (IsComplete riscv64) (ok-injective riscv_map mapper h) (refl, refl, refl)
reg_map-IsComplete unknown mapper h = cc

-- Where all registers of a CPU of a known architecture are read, the result lists the general
-- registers under their names, in order and all of them; for control registers it is the program
-- counter, under `pc`, and then all control registers of the architecture in the order of its table.
pub read_register_names :
    (env : Env) (cpu : ℕ) (t t1 t2 : MsimTarget) (arch : CpuArch) (mapper : RegisterMapper)
    (general csrs : List Register)
    → Knows t cpu arch mapper
    → read_general_regs env cpu t ≡ (ok general, t1)
    → read_csrs env cpu t ≡ (ok csrs, t2)
    → (names general ≡ mapper.gen_reg_names) × (names csrs ≡ pc_reg_name ∷ csr_names mapper)
unfolding read_general_regs read_csrs
read_register_names env cpu t t1 t2 arch mapper general csrs (c, stored, known, table) e e' =
    let (count, all_regs, all_csrs) = reg_map-IsComplete arch mapper table in
    let loop : read_general_loop env cpu mapper (range 0 32) t ≡ (ok general, t1) =
      rw (cached env t c stored, known, table, count) at e in
    let after : _ = rw (cached env t c stored, known, table) at e' in
    let (pc, t3, p, q) = bind-eq-ok (read_pc env cpu t) _ after in
    let addrs = map (λ csr. csr.0) mapper.csr_map in
    let (rest, t4, p', q') = bind-eq-ok (read_csr_loop env cpu mapper addrs t3) _ q in
    let read_all : record { name = pc_reg_name; value = pc } ∷ rest ≡ csrs = ground arith in
    (
      all_named general mapper.gen_reg_names
          (sym (read_general_loop-names env cpu mapper (range 0 32) t t1 general loop) ∙ all_regs),
      rw (← read_all) (
          ap (λ ns. pc_reg_name ∷ ns)
            (all_named rest (csr_names mapper)
              (sym (read_csr_loop-names env cpu mapper addrs t3 t4 rest p') ∙ all_csrs))),
    )
