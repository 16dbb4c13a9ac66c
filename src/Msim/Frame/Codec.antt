-- ===== src/Msim/Frame/Codec.antt =====
-- src/msim/frame.rs: `Request::write`, `Inbound::read` and the readers of single fields.
use msim_dap.Common.{ℕ, [], ◌∷◌, if◌then◌else◌, ◌==◌, nat_eq}
use msim_dap.Common.Bytes.{be_bytes, be_word}
use msim_dap.Common.Results
use msim_dap.Common.Results.{Result, ok, err}
use msim_dap.Common.Exec.{Exec, pure, lift, ◌>>=◌, ◌>>◌}
use msim_dap.Msim.Frame.{
  Request, resume, pause, terminate, step, set_code_breakpoint, remove_code_breakpoint,
  set_phys_data_breakpoint, remove_phys_data_breakpoint, read_general_register,
  write_general_register, read_csr, write_csr, read_pc, write_pc, read_phys_memory,
  write_phys_memory, read_virt_memory, write_virt_memory, translate_address, raise_interrupt,
  clear_interrupt, get_config, get_cpu_info, DataBreakpointKind, ResponseStatus, EventKind,
  StoppedAtReason, CpuArch, Inbound, response, event, FrameError, parsing,
}
use msim_dap.Msim.Frame.Stream.{Writer, Reader, write_all, read_exact}

-- `kind as u64`
unfoldable pub breakpoint_kind : DataBreakpointKind → ℕ
breakpoint_kind DataBreakpointKind.read = 0x01
breakpoint_kind DataBreakpointKind.write = 0x02
breakpoint_kind DataBreakpointKind.read_write = 0x03

-- The match of `Request::write`: the kind and the three arguments.
unfoldable pub fields : Request → ℕ × ℕ × ℕ × ℕ
unfolding breakpoint_kind
fields resume = (0x01, 0x00, 0x00, 0x00)
fields pause = (0x02, 0x00, 0x00, 0x00)
fields terminate = (0x03, 0x00, 0x00, 0x00)
fields (step cpu count) = (0x04, cpu, count, 0x00)
fields (set_code_breakpoint address) = (0x05, address, 0x00, 0x00)
fields (remove_code_breakpoint address) = (0x06, address, 0x00, 0x00)
fields (set_phys_data_breakpoint address kind) = (0x07, address, breakpoint_kind kind, 0x00)
fields (remove_phys_data_breakpoint address) = (0x08, address, 0x00, 0x00)
fields (read_general_register cpu reg) = (0x09, cpu, reg, 0x00)
fields (write_general_register cpu reg value) = (0x0A, cpu, reg, value)
fields (read_csr cpu reg) = (0x0B, cpu, reg, 0x00)
fields (write_csr cpu reg value) = (0x0C, cpu, reg, value)
fields (read_pc cpu) = (0x0D, cpu, 0x00, 0x00)
fields (write_pc cpu value) = (0x0E, cpu, value, 0x00)
fields (read_phys_memory address) = (0x0F, address, 0x00, 0x00)
fields (write_phys_memory address value) = (0x10, address, value, 0x00)
fields (read_virt_memory cpu address) = (0x11, cpu, address, 0x00)
fields (write_virt_memory cpu address value) = (0x12, cpu, address, value)
fields (translate_address cpu address) = (0x13, cpu, address, 0x00)
fields (raise_interrupt cpu id) = (0x14, cpu, id, 0x00)
fields (clear_interrupt cpu id) = (0x15, cpu, id, 0x00)
fields get_config = (0x16, 0x00, 0x00, 0x00)
fields (get_cpu_info cpu) = (0x17, cpu, 0x00, 0x00)

unfoldable pub write_u8 : ℕ → Exec Writer FrameError (Unit {0})
write_u8 b = write_all (b ∷ [])

unfoldable pub write_u64 : ℕ → Exec Writer FrameError (Unit {0})
write_u64 w = write_all (be_bytes 8 w)

unfoldable pub write_fields : ℕ × ℕ × ℕ × ℕ → Exec Writer FrameError (Unit {0})
unfolding write_u8 write_u64
write_fields (kind, arg0, arg1, arg2) = do
  write_u8 kind
  write_u64 arg0
  write_u64 arg1
  write_u64 arg2
  pure tt

-- `Request::write`
unfoldable pub write : Request → Exec Writer FrameError (Unit {0})
unfolding write_fields
write request = write_fields (fields request)

-- `ResponseStatus::read`
unfoldable pub read_status : ℕ → Result FrameError ResponseStatus
read_status status =
    if status == 0x01
    then ok ResponseStatus.ok
    else if status == 0x02
    then ok ResponseStatus.unspecified_error
    else if status == 0x03
    then ok ResponseStatus.unsupported_request_error
    else err parsing

-- `EventKind::read`
unfoldable pub read_event_kind : ℕ → Result FrameError EventKind
read_event_kind kind =
    if kind == 0x01
    then ok EventKind.terminated
    else if kind == 0x02
    then ok EventKind.stopped_at
    else err parsing

-- `StoppedAtReason::read`
unfoldable pub read_reason : ℕ → Result FrameError StoppedAtReason
read_reason reason =
    if reason == 0x01
    then ok StoppedAtReason.paused
    else if reason == 0x02
    then ok StoppedAtReason.breakpoint
    else if reason == 0x03
    then ok StoppedAtReason.step_complete
    else if reason == 0x04
    then ok StoppedAtReason.interrupt
    else err parsing

-- `CpuArch::read`
unfoldable pub read_arch : ℕ → CpuArch
read_arch arch =
    if arch == 0x01
    then CpuArch.mips
    else if arch == 0x02
    then CpuArch.riscv32
    else if arch == 0x03
    then CpuArch.riscv64
    else CpuArch.unknown

unfoldable pub read_u8 : Exec Reader FrameError ℕ
read_u8 = do bytes ← read_exact 1; pure (be_word 0 bytes)

unfoldable pub read_u64 : Exec Reader FrameError ℕ
read_u64 = do bytes ← read_exact 8; pure (be_word 0 bytes)

-- The match of `Inbound::read` on the category.
unfoldable pub inbound : ℕ → ℕ → ℕ → ℕ → ℕ → Result FrameError Inbound
inbound category kind arg0 arg1 arg2 =
    if category == 0x01
    then Results.◌>>=◌ (read_status kind) (λ status. ok (response status arg0 arg1 arg2))
    else if category == 0x02
    then Results.◌>>=◌ (read_event_kind kind) (λ k. ok (event k arg0 arg1 arg2))
    else err parsing

-- `Inbound::read`
unfoldable pub read : Exec Reader FrameError Inbound
read = do
  category ← read_u8
  kind ← read_u8
  arg0 ← read_u64
  arg1 ← read_u64
  arg2 ← read_u64
  lift (inbound category kind arg0 arg1 arg2)
