-- ===== src/Debugger/Commands.antt =====
-- The DAP requests that src/debugger/core.rs dispatches on, with the arguments that the handlers of
-- src/debugger/requests.rs read.
use msim_dap.Common.{Option, List, String}
use msim_dap.Common.Int.{ℤ}
use msim_dap.Target.{FilePath}
use msim_dap.Debugger.Strings.{Text}

pub record SourceBreakpoint : Type 0 where
  pub line : ℤ
  pub column : Option ℤ

-- `other` stands for every command that is not dispatched.
pub data Command : Type 0 where
  initialize attach launch configuration_done set_exception_breakpoints threads disconnect : Command
  continue pause source other : Command
  set_breakpoints : Option FilePath → Option (List SourceBreakpoint) → Command
  stack_trace scopes variables next step_in step_out : ℤ → Command
  set_variable : ℤ → String → Text → Command
  read_memory : Text → Option ℤ → ℤ → Command

-- `dap::requests::Request`
pub record DapRequest : Type 0 where
  pub seq : ℤ
  pub command : Command
