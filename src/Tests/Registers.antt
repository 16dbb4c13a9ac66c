-- ===== src/Tests/Registers.antt =====
-- Registers and the configuration of src/target/msim_target.rs over the simulated MSIM.
use msim_dap.Common.{
  ℕ, ◌≡◌, ◌≢◌, ◌↔◌, refl, some, List, [], ◌∷◌, arith, String, length, string_eq, ◌==◌, false, sym,
  ◌∙◌,
}
use mathlib.Core.Bool.{false≢true}
use text.Mathlib.TextEquality.{eq_iff}
use msim_dap.Common.Map.{lookup, insert}
use msim_dap.Common.Results.{Result, ok, err}
use msim_dap.Common.Bytes.{be_bytes, be_word}
use msim_dap.Msim.Frame
use msim_dap.Msim.Frame.{CpuArch}
use msim_dap.Msim.Frame.Codec.{read_arch}
use msim_dap.Msim.Messages.{to_result}
use msim_dap.Target.{
  MsimTarget, Config, TargetError, new, unknown_cpu, unknown_csr_name, request, send, send_raw,
}
use msim_dap.Target.Control.{get_config, fetch_config, read_archs, cpu_arch}
use msim_dap.Target.Control.Caching.{get_config_caches}
use msim_dap.Target.Memory.{read_memory, step_by, stepped, read_chunks, chunk_bytes}
use msim_dap.Target.Memory.Contents.{length-read_memory, chunk_at}
use msim_dap.Target.Registers.{
  Register, pc_reg_name, read_general_regs, read_general_loop, read_csrs, read_csr_loop, read_pc,
  write_csr,
}
use msim_dap.Target.Registers.Names.{
  mips_map, reg_map, info, reg_name, csr_name, name_to_reg_id, name_to_csr_addr,
}
use msim_dap.Target.Registers.Tables.{register_names}
use msim_dap.Target.Registers.Access.{
  Knows, One, names, csr_names, write_csr_by_name, read_register_names,
}
use msim_dap.Tests.Targets.{env, plain, mem}

abbrev two_mips : Config
two_mips = record { cpu_count = 2; cpu_to_arch = (0, CpuArch.mips) ∷ (1, CpuArch.mips) ∷ [] }

abbrev pub configured : MsimTarget
configured = record new {
  exchanges =
      (Frame.get_cpu_info 1, ok (plain 1))
      ∷ (Frame.get_cpu_info 0, ok (plain 1))
      ∷ (Frame.get_config, ok (plain 2))
      ∷ [];
  config = some two_mips;
}

new_is_configured : get_config env new ≡ (ok two_mips, configured)
unfolding get_config fetch_config read_archs send send_raw insert read_arch
new_is_configured = refl

get_config_caches_example :
    (get_config env configured ≡ (ok two_mips, configured))
    × ((a : CpuArch) × (cpu_arch two_mips 1 ≡ ok a))
    × (cpu_arch two_mips 2 ≡ err (unknown_cpu 2))
get_config_caches_example =
    get_config_caches env new configured two_mips 1 2 refl new_is_configured (omega arith)
      (omega arith)

pub Knows-mips : Knows configured 1 CpuArch.mips mips_map
unfolding cpu_arch reg_map lookup
Knows-mips = (two_mips, refl, refl, refl)

register_names_example :
    ((reg_name mips_map 12 ≡ ok "t4") ↔ (name_to_reg_id mips_map "t4" ≡ ok 12))
    × ((csr_name mips_map 12 ≡ ok "t4") ↔ (name_to_csr_addr mips_map "t4" ≡ ok 12))
unfolding reg_map
register_names_example = register_names CpuArch.mips mips_map 12 "t4" refl

pub sp_is_29 : reg_name mips_map 29 ≡ ok "sp"
unfolding reg_name
sp_is_29 = refl

pub epc_is_14 : csr_name mips_map 14 ≡ ok "epc"
unfolding csr_name
epc_is_14 = refl

-- A name in neither table.
not_general : (i : ℕ) → reg_name mips_map i ≢ ok "x9"
unfolding name_to_reg_id
not_general i e = cc ((register_names CpuArch.mips mips_map i "x9" (unfold reg_map in refl)).0.0 e)

not_csr : (a : ℕ) → csr_name mips_map a ≢ ok "x9"
unfolding name_to_csr_addr
not_csr a e = cc ((register_names CpuArch.mips mips_map a "x9" (unfold reg_map in refl)).1.0 e)

pub different : (a b : String) → (a == b) ≡ false → a ≢ b
different a b h e = false≢true (sym h ∙ (eq_iff a b).1 e)

write_csr_by_name_example :
    One env (Frame.write_pc 1 64) configured (write_csr env 1 pc_reg_name 64 configured)
    × One env (Frame.write_csr 1 14 64) configured (write_csr env 1 "epc" 64 configured)
    × (write_csr env 1 "x9" 64 configured ≡ (err (unknown_csr_name "x9"), configured))
write_csr_by_name_example =
    write_csr_by_name env 1 64 configured CpuArch.mips mips_map Knows-mips 14 "epc" "x9"
      (different "epc" pc_reg_name refl) epc_is_14 (different "x9" pc_reg_name refl) not_csr

-- What a read returned, and the target after it.
abbrev registers_of : Result TargetError (List Register) → List Register
registers_of (ok l) = l
registers_of (err e) = []

abbrev general : List Register
general = registers_of (read_general_regs env 1 configured).0

abbrev csrs : List Register
csrs = registers_of (read_csrs env 1 configured).0

general_read :
    read_general_regs env 1 configured ≡ (ok general, (read_general_regs env 1 configured).1)
unfolding read_general_regs read_general_loop get_config cpu_arch reg_map info reg_name send
    send_raw lookup
general_read = refl

csrs_read : read_csrs env 1 configured ≡ (ok csrs, (read_csrs env 1 configured).1)
unfolding read_csrs read_csr_loop read_pc get_config cpu_arch reg_map csr_name request send send_raw
    lookup to_result
csrs_read = refl

read_register_names_example :
    (names general ≡ mips_map.gen_reg_names) × (names csrs ≡ pc_reg_name ∷ csr_names mips_map)
read_register_names_example =
    read_register_names env 1 configured (read_general_regs env 1 configured).1
      (read_csrs env 1 configured).1 CpuArch.mips mips_map general csrs Knows-mips general_read
      csrs_read

one_chunk : read_memory env Frame.read_phys_memory 8 2 new ≡ (
  ok (8 ∷ 9 ∷ []),
  record new { exchanges = (Frame.read_phys_memory 8, ok (chunk_at mem 8)) ∷ [] },
)
unfolding read_memory step_by stepped read_chunks chunk_bytes request send send_raw to_result
    be_bytes be_word
one_chunk = refl

abbrev two_bytes : List ℕ
two_bytes = 8 ∷ 9 ∷ []

length-read_memory_example : length two_bytes ≡ 2
length-read_memory_example =
    length-read_memory env Frame.read_phys_memory 8 2 new
      (record new { exchanges = (Frame.read_phys_memory 8, ok (chunk_at mem 8)) ∷ [] }) two_bytes
      (omega arith) one_chunk
