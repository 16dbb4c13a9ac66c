-- ===== src/Debugger.antt =====
-- src/debugger: the errors of src/debugger/mod.rs, what the debugger takes from and gives to the DAP
-- client, and the state of `Debugger` in src/debugger/core.rs.
pub mod Strings
pub mod Registries
pub mod MemoryRefs
pub mod Commands
pub mod Protocol
pub mod BpInfos
pub mod Requests
pub mod Words
pub mod Events
pub mod EventLoop
pub mod Kept
pub mod Numbered
use msim_dap.Common.{ℕ, ◌≡◌, Bool, Option, none, some, List, [], ◌∷◌, String}
use msim_dap.Common.Int.{ℤ}
use msim_dap.Common.Results.{Result, ok, err}
use msim_dap.Common.Exec.{Exec}
use msim_dap.Msim.Messages.{MsimError}
use msim_dap.Target.{FilePath, TargetError}
use msim_dap.Debugger.Strings.{Text}

-- `AdapterError` of src/adapter/mod.rs, with the text of an error of the dap library.
pub data AdapterError : Type 0 where
  server io : String → AdapterError
  poisoned_lock : AdapterError

-- What `RequestFailed` boxes: an error of the target, or one text per cause, kept as the cause and
-- what the text is made from.
pub data Failure : Type 0 where
  target : TargetError → Failure
  invalid_thread_id invalid_variables_reference : ℤ → Failure
  missing_kind missing_address missing_cpu_id invalid_cpu_id unknown_kind invalid_address :
      Text → Failure
  invalid_hexadecimal invalid_binary invalid_decimal : Text → Failure
  path_required invalid_byte_count unresolved_address no_next_line unhandled_command : Failure

-- The fatal errors that the listeners send: `AnyError`.
pub data ListenerError : Type 0 where
  adapter : AdapterError → ListenerError
  msim : MsimError → ListenerError

pub data DebuggerError : Type 0 where
  session_lost dap_disconnected : DebuggerError
  dap_error : AdapterError → DebuggerError
  received_fatal_error : ListenerError → DebuggerError
  request_failed : Failure → DebuggerError

-- `From<TargetError> for DebuggerError`
unfoldable pub from_target : TargetError → DebuggerError
from_target TargetError.session_lost = DebuggerError.session_lost
from_target e = DebuggerError.request_failed (target e)

-- `BpRegistry`
pub record BpRegistry : Type 0 where
  pub next_id : ℕ
  pub ids : List ((FilePath × ℤ) × ℕ)

pub data MemoryRef : Type 0 where
  physical : ℕ → MemoryRef
  virtual : ℕ → ℕ → MemoryRef

pub data VarScopeKind : Type 0 where
  general_registers csr_registers : ℕ → VarScopeKind
