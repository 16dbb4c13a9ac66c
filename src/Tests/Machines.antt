-- ===== src/Tests/Machines.antt =====
-- The debugger of src/debugger over an MSIM that keeps the registers of its processors.
use msim_dap.Common.{ℕ, ◌≡◌, refl, arith, List, [], ◌∷◌, nat_eq, string_eq}
use msim_dap.Common.Int.{pos, ◌-i64◌, div_i64, rem_i64}
use msim_dap.Common.Results.{ok}
use msim_dap.Msim.Frame
use msim_dap.Msim.Frame.{Request, CpuArch}
use msim_dap.Target.{MsimTarget, Exchange, Env}
use msim_dap.Target.Registers.{pc_reg_name}
use msim_dap.Target.Registers.Names.{mips_map}
use msim_dap.Target.Registers.Machine.{Machine, set, KeepsRegisters}
use msim_dap.Target.Registers.Values.{general_of, csrs_of}
use msim_dap.Debugger.{general_registers, csr_registers}
use msim_dap.Debugger.Strings.{Text, from_str_radix, parse_digits, to_digit, add_digit}
use msim_dap.Debugger.Registries.{resolve_var_ref, thread_to_cpu_id}
use msim_dap.Debugger.Protocol.{Debugger, new}
use msim_dap.Debugger.Requests.{parse_value}
use msim_dap.Debugger.Requests.Variables.{Shows, variables-set_variable}
use msim_dap.Tests.Targets.{plain, lines_of}
use msim_dap.Tests.Registers.{configured, Knows-mips, sp_is_29, epc_is_14, different}

-- What a request does to the registers.
abbrev effect : Request → Machine → Machine
effect (Frame.write_general_register cpu reg value) s = record s {
  general = set cpu (set reg value (s.general cpu)) s.general;
}
effect (Frame.write_csr cpu reg value) s = record s {
  csr = set cpu (set reg value (s.csr cpu)) s.csr;
}
effect (Frame.write_pc cpu value) s = record s { pc = set cpu value s.pc }
effect _ s = s

-- The registers after a log, all zero before.
abbrev replay : List Exchange → Machine
replay [] = record { general = λ cpu reg. 0; csr = λ cpu reg. 0; pc = λ cpu. 0 }
replay ((q, _) ∷ log) = effect q (replay log)

abbrev value_of : Request → Machine → ℕ
value_of (Frame.read_general_register cpu reg) s = s.general cpu reg
value_of (Frame.read_csr cpu reg) s = s.csr cpu reg
value_of (Frame.read_pc cpu) s = s.pc cpu
value_of _ s = 0

abbrev keeping : Env
keeping = record {
  answer = λ log q. ok (plain (value_of q (replay log)));
  index = lines_of;
  order = λ m. m;
}

keeping-KeepsRegisters : KeepsRegisters keeping replay
keeping-KeepsRegisters = record {
  acks = λ log q. refl;
  general = λ log cpu reg r e. (ground (arith, e), refl);
  csr = λ log cpu reg r e. (ground (arith, e), refl);
  pc = λ log cpu r e. (ground (arith, e), refl);
  set_general = λ log cpu reg value reply. refl;
  set_csr = λ log cpu reg value reply. refl;
  set_pc = λ log cpu value reply. refl;
}

abbrev ready_to_show : Debugger MsimTarget
ready_to_show = new configured

-- "0x40"
abbrev sixty_four : Text
sixty_four = 48 ∷ 120 ∷ 52 ∷ 48 ∷ []

is_sixty_four : parse_value sixty_four ≡ ok 64
unfolding parse_value from_str_radix parse_digits to_digit add_digit
is_sixty_four = refl

general_scope : resolve_var_ref (pos 21) ≡ ok (general_registers 1)
unfolding resolve_var_ref thread_to_cpu_id ◌-i64◌ div_i64 rem_i64
general_scope = refl

csr_scope : resolve_var_ref (pos 22) ≡ ok (csr_registers 1)
unfolding resolve_var_ref thread_to_cpu_id ◌-i64◌ div_i64 rem_i64
csr_scope = refl

variables-set_variable_example :
    Shows keeping 1
      (pos 21)
      "sp"
      sixty_four
      64
      ready_to_show
      (general_of mips_map (set 29 64 ((replay configured.exchanges).general 1)))
    × Shows keeping 1 (pos 22) "epc" sixty_four 64 ready_to_show (
        csrs_of mips_map
          ((replay configured.exchanges).pc 1)
          (set 14 64 ((replay configured.exchanges).csr 1)))
    × Shows keeping 1
        (pos 22)
        pc_reg_name
        sixty_four
        64
        ready_to_show
        (csrs_of mips_map 64 ((replay configured.exchanges).csr 1))
variables-set_variable_example =
    variables-set_variable keeping replay keeping-KeepsRegisters 1 64 29 14 CpuArch.mips mips_map
      ready_to_show (pos 21) (pos 22) "sp" "epc" sixty_four Knows-mips general_scope csr_scope
      sp_is_29 epc_is_14 (different "epc" pc_reg_name refl) is_sixty_four
