-- ===== src/Debugger/MemoryRefs.antt =====
-- `MemoryRef` of src/debugger/core.rs: references to memory as text.
pub mod RoundTrip
use msim_dap.Common.{ℕ, List, [], ◌∷◌, ◌++◌, if◌then◌else◌, ◌==◌, nat_eq, list_eq}
use msim_dap.Common.Results.{Result, ok, err, ◌>>=◌, ok_or}
use msim_dap.Debugger.Strings.{Text, from_str_radix, trim_0x, split, hex, decimal}
use msim_dap.Debugger.{
  MemoryRef, physical, virtual, DebuggerError, request_failed, missing_address, missing_cpu_id,
  invalid_cpu_id, unknown_kind, invalid_address,
}

-- "phys" and "virt"
abbrev pub phys : Text
phys = 112 ∷ 104 ∷ 121 ∷ 115 ∷ []

abbrev pub virt : Text
virt = 118 ∷ 105 ∷ 114 ∷ 116 ∷ []

abbrev pub address : MemoryRef → ℕ
address (physical addr) = addr
address (virtual cpu_id addr) = addr

unfoldable pub parse_hex : Text → Result DebuggerError ℕ
parse_hex s = ok_or (request_failed (invalid_address s)) (from_str_radix 16 (trim_0x s))

-- The arm for "phys"
abbrev pub parse_phys : Text → List Text → Result DebuggerError MemoryRef
parse_phys string [] = err (request_failed (missing_address string))
parse_phys string (addr ∷ parts) = do addr' ← parse_hex addr; ok (physical addr')

-- The arm for "virt", after the CPU ID
abbrev pub parse_virt_address : Text → ℕ → List Text → Result DebuggerError MemoryRef
parse_virt_address string cpu_id [] = err (request_failed (missing_address string))
parse_virt_address string cpu_id (addr ∷ parts) = do
  addr' ← parse_hex addr
  ok (virtual cpu_id addr')

-- The arm for "virt"
abbrev pub parse_virt : Text → List Text → Result DebuggerError MemoryRef
parse_virt string [] = err (request_failed (missing_cpu_id string))
parse_virt string (cpu ∷ parts) = do
  cpu_id ← ok_or (request_failed (invalid_cpu_id string)) (from_str_radix 10 cpu)
  parse_virt_address string cpu_id parts

-- `MemoryRef::parse`. Parts after the address are not looked at.
unfoldable pub parse : Text → Result DebuggerError MemoryRef
parse string =
    let (kind, parts) = split string in
    if kind == phys
    then parse_phys string parts
    else if kind == virt
    then parse_virt string parts
    else err (request_failed (unknown_kind string))

-- `MemoryRef::fmt`
unfoldable pub to_string : MemoryRef → Text
to_string (physical addr) = phys ++ (58 ∷ hex addr)
to_string (virtual cpu_id addr) = virt ++ (58 ∷ (decimal cpu_id ++ (58 ∷ hex addr)))
