-- ===== src/Msim/Frame/Meaning.antt =====
-- src/msim/frame.rs: what the kind and the arguments of a request mean to MSIM, by the comments on the
-- variants of `Request`, against `Request::fields`.
use mathlib.Core.Option
use msim_dap.Common.{ℕ, ◌≡◌, refl, Option, none, some, arith, if◌then◌else◌, ◌==◌, nat_eq}
use msim_dap.Common.Int.{IsU64}
use msim_dap.Msim.Frame.{
  Request, resume, pause, terminate, step, set_code_breakpoint, remove_code_breakpoint,
  set_phys_data_breakpoint, remove_phys_data_breakpoint, read_general_register,
  write_general_register, read_csr, write_csr, read_pc, write_pc, read_phys_memory,
  write_phys_memory, read_virt_memory, write_virt_memory, translate_address, raise_interrupt,
  clear_interrupt, get_config, get_cpu_info, DataBreakpointKind,
}
use msim_dap.Msim.Frame.Codec.{fields}

-- MSIM's reading of the kind and the arguments, by the comments on the variants of `Request`.
-- Arguments that a kind does not use are not looked at.
abbrev breakpoint_kind_of : ℕ → Option DataBreakpointKind
breakpoint_kind_of n =
    if n == 1
    then some DataBreakpointKind.read
    else if n == 2
    then some DataBreakpointKind.write
    else if n == 3
    then some DataBreakpointKind.read_write
    else none

unfoldable pub request_of : ℕ → ℕ → ℕ → ℕ → Option Request
request_of kind arg0 arg1 arg2 =
    if kind == 0x01
    then some resume
    else if kind == 0x02
    then some pause
    else if kind == 0x03
    then some terminate
    else if kind == 0x04
    then some (step arg0 arg1)
    else if kind == 0x05
    then some (set_code_breakpoint arg0)
    else if kind == 0x06
    then some (remove_code_breakpoint arg0)
    else if kind == 0x07
    then Option.map (set_phys_data_breakpoint arg0) (breakpoint_kind_of arg1)
    else if kind == 0x08
    then some (remove_phys_data_breakpoint arg0)
    else if kind == 0x09
    then some (read_general_register arg0 arg1)
    else if kind == 0x0A
    then some (write_general_register arg0 arg1 arg2)
    else if kind == 0x0B
    then some (read_csr arg0 arg1)
    else if kind == 0x0C
    then some (write_csr arg0 arg1 arg2)
    else if kind == 0x0D
    then some (read_pc arg0)
    else if kind == 0x0E
    then some (write_pc arg0 arg1)
    else if kind == 0x0F
    then some (read_phys_memory arg0)
    else if kind == 0x10
    then some (write_phys_memory arg0 arg1)
    else if kind == 0x11
    then some (read_virt_memory arg0 arg1)
    else if kind == 0x12
    then some (write_virt_memory arg0 arg1 arg2)
    else if kind == 0x13
    then some (translate_address arg0 arg1)
    else if kind == 0x14
    then some (raise_interrupt arg0 arg1)
    else if kind == 0x15
    then some (clear_interrupt arg0 arg1)
    else if kind == 0x16
    then some get_config
    else if kind == 0x17
    then some (get_cpu_info arg0)
    else none

-- Every field fits its width.
abbrev pub IsRequest : Request → Type 0
IsRequest (step cpu count) = IsU64 cpu × IsU64 count
IsRequest (set_code_breakpoint a) = IsU64 a
IsRequest (remove_code_breakpoint a) = IsU64 a
IsRequest (set_phys_data_breakpoint a kind) = IsU64 a
IsRequest (remove_phys_data_breakpoint a) = IsU64 a
IsRequest (read_general_register c r) = IsU64 c × IsU64 r
IsRequest (write_general_register c r v) = IsU64 c × IsU64 r × IsU64 v
IsRequest (read_csr c r) = IsU64 c × IsU64 r
IsRequest (write_csr c r v) = IsU64 c × IsU64 r × IsU64 v
IsRequest (read_pc c) = IsU64 c
IsRequest (write_pc c v) = IsU64 c × IsU64 v
IsRequest (read_phys_memory a) = IsU64 a
IsRequest (write_phys_memory a v) = IsU64 a × IsU64 v
IsRequest (read_virt_memory c a) = IsU64 c × IsU64 a
IsRequest (write_virt_memory c a v) = IsU64 c × IsU64 a × IsU64 v
IsRequest (translate_address c a) = IsU64 c × IsU64 a
IsRequest (raise_interrupt c i) = IsU64 c × IsU64 i
IsRequest (clear_interrupt c i) = IsU64 c × IsU64 i
IsRequest (get_cpu_info c) = IsU64 c
IsRequest _ = Unit

pub request_of-fields :
    (r : Request)
    → (let (kind, arg0, arg1, arg2) = fields r in request_of kind arg0 arg1 arg2) ≡ some r
unfolding fields request_of
request_of-fields resume = refl
request_of-fields pause = refl
request_of-fields terminate = refl
request_of-fields (step cpu count) = refl
request_of-fields (set_code_breakpoint a) = refl
request_of-fields (remove_code_breakpoint a) = refl
request_of-fields (set_phys_data_breakpoint a DataBreakpointKind.read) = refl
request_of-fields (set_phys_data_breakpoint a DataBreakpointKind.write) = refl
request_of-fields (set_phys_data_breakpoint a DataBreakpointKind.read_write) = refl
request_of-fields (remove_phys_data_breakpoint a) = refl
request_of-fields (read_general_register c r) = refl
request_of-fields (write_general_register c r v) = refl
request_of-fields (read_csr c r) = refl
request_of-fields (write_csr c r v) = refl
request_of-fields (read_pc c) = refl
request_of-fields (write_pc c v) = refl
request_of-fields (read_phys_memory a) = refl
request_of-fields (write_phys_memory a v) = refl
request_of-fields (read_virt_memory c a) = refl
request_of-fields (write_virt_memory c a v) = refl
request_of-fields (translate_address c a) = refl
request_of-fields (raise_interrupt c i) = refl
request_of-fields (clear_interrupt c i) = refl
request_of-fields get_config = refl
request_of-fields (get_cpu_info c) = refl

pub fields-IsU64 :
    (r : Request)
    → IsRequest r
    → (let (kind, arg0, arg1, arg2) = fields r in IsU64 arg0 × IsU64 arg1 × IsU64 arg2)
unfolding fields
fields-IsU64 resume h = omega arith
fields-IsU64 (set_phys_data_breakpoint a DataBreakpointKind.read) h = omega arith
fields-IsU64 (set_phys_data_breakpoint a DataBreakpointKind.write) h = omega arith
fields-IsU64 (set_phys_data_breakpoint a DataBreakpointKind.read_write) h = omega arith
fields-IsU64 _ h = omega arith
