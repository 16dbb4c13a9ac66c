-- ===== src/Debugger/Protocol.antt =====
-- What the debugger sends to the DAP client, and the state of `Debugger`. Of a message the fields are
-- kept that the handlers fill in from their input or the target, not names and hints that are constant.
use msim_dap.Common.{ℕ, Bool, Option, List, [], ◌∷◌, String}
use msim_dap.Common.Int.{ℤ}
use msim_dap.Common.Results.{Result, ok, err}
use msim_dap.Common.Exec.{Exec}
use msim_dap.Target.{FilePath, TargetError}
use msim_dap.Debugger.Strings.{Text}
use msim_dap.Debugger.{AdapterError, DebuggerError, Failure, BpRegistry, dap_error, from_target}
use msim_dap.Debugger.Registries
use msim_dap.Debugger.Commands.{DapRequest}

-- The text that explains why a breakpoint was not set.
pub data BpMessage : Type 0 where
  setting_failed : FilePath → ℤ → BpMessage
  address_not_found : FilePath → ℤ → BpMessage
  address_out_of_range : FilePath → ℤ → ℕ → BpMessage

pub record Breakpoint : Type 0 where
  pub id : Option ℤ
  pub verified : Bool
  pub message : Option BpMessage
  pub line : ℤ
  pub column : Option ℤ

pub record StackFrame : Type 0 where
  pub id : ℤ
  pub path : Option FilePath
  pub line : ℤ

-- A register, with the reference to the memory that it may point to.
pub record Variable : Type 0 where
  pub name : String
  pub value : Text
  pub memory_reference : Text

pub data ResponseBody : Type 0 where
  initialize attach launch configuration_done set_exception_breakpoints disconnect : ResponseBody
  continue pause next step_in step_out source : ResponseBody
  set_breakpoints : List Breakpoint → ResponseBody
  threads : List (ℤ × ℕ) → ResponseBody
  stack_trace : List StackFrame → ResponseBody
  scopes : ℤ → ℤ → ResponseBody
  variables : List Variable → ResponseBody
  set_variable : Text → ResponseBody
  read_memory : Text → Text → ResponseBody

pub data StoppedEventReason : Type 0 where
  step pause breakpoint exception : StoppedEventReason

-- The body of a `Stopped` event; `place` and the fields before it make up its description.
pub record Stopped : Type 0 where
  pub reason : StoppedEventReason
  pub address : ℕ
  pub place : Option (FilePath × ℤ)
  pub thread_id : ℤ
  pub hit_breakpoint_ids : Option (List ℤ)

pub data DapEvent : Type 0 where
  initialized terminated : DapEvent
  exited : ℤ → DapEvent
  stopped : Stopped → DapEvent

-- `Sendable`, with `req.success(body)` and `req.error(…)` as the request that they answer.
pub data Message : Type 0 where
  success : DapRequest → ResponseBody → Message
  error : DapRequest → Failure → Message
  event : DapEvent → Message

pub data PostAction : Type 0 where
  send_event : DapEvent → PostAction
  disconnect : PostAction

pub record HandlerAction : Type 0 where
  pub body : ResponseBody
  pub post_action : Option PostAction

-- The DAP client behind `Session`: whether sending a message fails, which may depend on what was sent
-- before, and `STANDARD.encode` of base64.
pub record Client : Type 0 where
  pub deliver : List Message → Message → Result AdapterError (Unit {0})
  pub encode : List ℕ → Text

-- `Debugger`, over the state of its target. `sent` is the state of the session: what was handed to it,
-- the latest first.
pub record Debugger (S : Type 0) : Type 0 where
  pub sent : List Message
  pub target : S
  pub bp_registry : BpRegistry
  pub step_bp : List (ℕ × ℕ)

-- `Debugger::new`
abbrev pub new : {S : Type 0} → S → Debugger S
new target = record { sent = []; target = target; bp_registry = Registries.new; step_bp = [] }

module _ {S A : Type 0} where
  -- `self.target.…()?`
  abbrev pub on_target : Exec S TargetError A → Exec (Debugger S) DebuggerError A
  on_target m d =
      let (result, target) = m d.target in
      (elim result [ ok a ↦ ok a | err e ↦ err (from_target e) ], record d { target = target })

module _ {S : Type 0} (client : Client) where
  -- `self.dap_session.send(…)?`
  unfoldable pub send : Message → Exec (Debugger S) DebuggerError (Unit {0})
  send message d = (
    elim (client.deliver d.sent message) [ ok u ↦ ok u | err e ↦ err (dap_error e) ],
    record d { sent = message ∷ d.sent },
  )
