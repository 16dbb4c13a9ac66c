-- ===== src/Msim/Frame.antt =====
-- src/msim/frame.rs: the messages of the MSIM protocol. The fields are Rust's `u64`; their range is
-- `IsU64`, which `IsRequest` and `IsInbound` in the children collect.
pub mod Stream
pub mod Codec
pub mod Meaning
pub mod Requests
pub mod Replies
pub mod Taken
use msim_dap.Common.{ℕ}

-- `OUTBOUND_FRAME_SIZE` and `INBOUND_FRAME_SIZE`, in bytes
abbrev pub outbound_frame_size : ℕ
outbound_frame_size = 25

abbrev pub inbound_frame_size : ℕ
inbound_frame_size = 26

pub data DataBreakpointKind : Type 0 where
  read write read_write : DataBreakpointKind

pub data Request : Type 0 where
  resume pause terminate : Request
  -- CPU and instruction count
  step : ℕ → ℕ → Request
  set_code_breakpoint remove_code_breakpoint : ℕ → Request
  set_phys_data_breakpoint : ℕ → DataBreakpointKind → Request
  remove_phys_data_breakpoint : ℕ → Request
  -- CPU, register and, to write, the value
  read_general_register : ℕ → ℕ → Request
  write_general_register : ℕ → ℕ → ℕ → Request
  read_csr : ℕ → ℕ → Request
  write_csr : ℕ → ℕ → ℕ → Request
  read_pc : ℕ → Request
  write_pc : ℕ → ℕ → Request
  -- the address and, to write, the data
  read_phys_memory : ℕ → Request
  write_phys_memory : ℕ → ℕ → Request
  -- CPU, address and, to write, the data
  read_virt_memory : ℕ → ℕ → Request
  write_virt_memory : ℕ → ℕ → ℕ → Request
  translate_address : ℕ → ℕ → Request
  -- CPU and interrupt
  raise_interrupt clear_interrupt : ℕ → ℕ → Request
  get_config : Request
  get_cpu_info : ℕ → Request

pub data ResponseStatus : Type 0 where
  ok unspecified_error unsupported_request_error : ResponseStatus

pub data EventKind : Type 0 where
  terminated stopped_at : EventKind

pub data StoppedAtReason : Type 0 where
  paused breakpoint step_complete interrupt : StoppedAtReason

pub data CpuArch : Type 0 where
  mips riscv32 riscv64 unknown : CpuArch

-- A response or an event, with its three arguments.
pub data Inbound : Type 0 where
  response : ResponseStatus → ℕ → ℕ → ℕ → Inbound
  event : EventKind → ℕ → ℕ → ℕ → Inbound

-- The kinds of `std::io::Error` that the adapter tells apart.
pub data IoError : Type 0 where
  unexpected_eof other : IoError

pub data FrameError : Type 0 where
  io : IoError → FrameError
  parsing : FrameError
