-- ===== src/Target/Registers/Names.antt =====
-- src/target/msim_target.rs, the tables of register names by architecture and their lookups.
use msim_dap.Common.{
  ℕ, ◌+◌, Option, none, some, List, [], ◌∷◌, String, if◌then◌else◌, ◌==◌, nat_eq, string_eq,
  get_elem?,
}
use msim_dap.Common.Results.{Result, ok, err, ok_or}
use msim_dap.Msim.Frame.{CpuArch, mips, riscv32, riscv64, unknown}
use msim_dap.Target.{
  TargetError, unknown_arch, bad_general_reg, bad_csr_reg, unknown_register_name, unknown_csr_name,
}

pub record RegisterMapper : Type 0 where
  pub gen_reg_names : List String
  pub csr_map : List (ℕ × String)

abbrev pub mips_map : RegisterMapper
mips_map = record {
  gen_reg_names =
      "0" ∷ "at" ∷ "v0" ∷ "v1" ∷ "a0" ∷ "a1" ∷ "a2" ∷ "a3" ∷ "t0" ∷ "t1" ∷ "t2" ∷ "t3" ∷ "t4" ∷ "t5"
      ∷ "t6" ∷ "t7" ∷ "s0" ∷ "s1" ∷ "s2" ∷ "s3" ∷ "s4" ∷ "s5" ∷ "s6" ∷ "s7" ∷ "t8" ∷ "t9" ∷ "k0"
      ∷ "k1" ∷ "gp" ∷ "sp" ∷ "fp" ∷ "ra" ∷ [];
  csr_map =
      (0, "index")
      ∷ (1, "random")
      ∷ (2, "entrylo0")
      ∷ (3, "entrylo1")
      ∷ (4, "context")
      ∷ (5, "pagemask")
      ∷ (6, "wired")
      ∷ (7, "res_7")
      ∷ (8, "badvaddr")
      ∷ (9, "count")
      ∷ (10, "entryhi")
      ∷ (11, "compare")
      ∷ (12, "status")
      ∷ (13, "cause")
      ∷ (14, "epc")
      ∷ (15, "prid")
      ∷ (16, "config")
      ∷ (17, "lladdr")
      ∷ (18, "watchlo")
      ∷ (19, "watchhi")
      ∷ (20, "xcontext")
      ∷ (21, "res_21")
      ∷ (22, "res_22")
      ∷ (23, "res_23")
      ∷ (24, "res_24")
      ∷ (25, "res_25")
      ∷ (26, "res_26")
      ∷ (27, "res_27")
      ∷ (28, "res_28")
      ∷ (29, "res_29")
      ∷ (30, "errorepc")
      ∷ (31, "res_31")
      ∷ [];
}

abbrev pub riscv_map : RegisterMapper
riscv_map = record {
  gen_reg_names =
      "zero" ∷ "ra" ∷ "sp" ∷ "gp" ∷ "tp" ∷ "t0" ∷ "t1" ∷ "t2" ∷ "s0/fp" ∷ "s1" ∷ "a0" ∷ "a1" ∷ "a2"
      ∷ "a3" ∷ "a4" ∷ "a5" ∷ "a6" ∷ "a7" ∷ "s2" ∷ "s3" ∷ "s4" ∷ "s5" ∷ "s6" ∷ "s7" ∷ "s8" ∷ "s9"
      ∷ "s10" ∷ "s11" ∷ "t3" ∷ "t4" ∷ "t5" ∷ "t6" ∷ [];
  csr_map =
      (0xC00, "cycle")
      ∷ (0xC01, "time")
      ∷ (0x300, "mstatus")
      ∷ (0x302, "medeleg")
      ∷ (0x303, "mideleg")
      ∷ (0x304, "mie")
      ∷ (0x305, "mtvec")
      ∷ (0x306, "mcounteren")
      ∷ (0x340, "mscratch")
      ∷ (0x341, "mepc")
      ∷ (0x342, "mcause")
      ∷ (0x343, "mtval")
      ∷ (0x344, "mip")
      ∷ (0x301, "misa")
      ∷ (0xF14, "mhartid")
      ∷ (0x100, "sstatus")
      ∷ (0x104, "sie")
      ∷ (0x105, "stvec")
      ∷ (0x106, "scounteren")
      ∷ (0x140, "sscratch")
      ∷ (0x141, "sepc")
      ∷ (0x142, "scause")
      ∷ (0x143, "stval")
      ∷ (0x144, "sip")
      ∷ (0x180, "satp")
      ∷ (0x5C0, "scyclecmp")
      ∷ [];
}

-- `CpuArch::info`, whose only field is `reg_count`
unfoldable pub info : CpuArch → Result TargetError ℕ
info mips = ok 32
info riscv32 = ok 32
info riscv64 = ok 32
info unknown = err unknown_arch

-- `CpuArch::reg_map`
unfoldable pub reg_map : CpuArch → Result TargetError RegisterMapper
reg_map mips = ok mips_map
reg_map riscv32 = ok riscv_map
reg_map riscv64 = ok riscv_map
reg_map unknown = err unknown_arch

-- `RegisterMapper::reg_name`; a `usize` holds every `u64`
unfoldable pub reg_name : RegisterMapper → ℕ → Result TargetError String
reg_name mapper reg_id = ok_or (bad_general_reg reg_id) (get_elem? mapper.gen_reg_names reg_id)

unfoldable pub find_csr_name : ℕ → List (ℕ × String) → Option String
find_csr_name csr_addr [] = none
find_csr_name csr_addr ((addr, name) ∷ csrs) =
    if addr == csr_addr then some name else find_csr_name csr_addr csrs

-- `RegisterMapper::csr_name`
unfoldable pub csr_name : RegisterMapper → ℕ → Result TargetError String
unfolding find_csr_name
csr_name mapper csr_addr = ok_or (bad_csr_reg csr_addr) (find_csr_name csr_addr mapper.csr_map)

-- `iter().position(…)`, counting from `i`
unfoldable pub position : ℕ → String → List String → Option ℕ
position i name [] = none
position i name (reg_name ∷ names) =
    if reg_name == name then some i else position (i + 1) name names

-- `RegisterMapper::name_to_reg_id`
unfoldable pub name_to_reg_id : RegisterMapper → String → Result TargetError ℕ
unfolding position
name_to_reg_id mapper name =
    ok_or (unknown_register_name name) (position 0 name mapper.gen_reg_names)

unfoldable pub find_csr_addr : String → List (ℕ × String) → Option ℕ
find_csr_addr name [] = none
find_csr_addr name ((addr, csr_name) ∷ csrs) =
    if csr_name == name then some addr else find_csr_addr name csrs

-- `RegisterMapper::name_to_csr_addr`
unfoldable pub name_to_csr_addr : RegisterMapper → String → Result TargetError ℕ
unfolding find_csr_addr
name_to_csr_addr mapper name = ok_or (unknown_csr_name name) (find_csr_addr name mapper.csr_map)
