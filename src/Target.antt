-- ===== src/Target.antt =====
-- src/target/mod.rs and the state of src/target/msim_target.rs: the errors of a target, the debug
-- index that it asks, the connection that it owns and the breakpoints that it remembers.
pub mod Breakpoints
pub mod Control
pub mod Registers
pub mod Memory
pub mod Sent
pub mod Session
pub mod Interface
use msim_dap.Common.{ℕ, ◌≡◌, Option, none, some, List, [], ◌∷◌, String}
use msim_dap.Common.Int.{ℤ}
use msim_dap.Common.Results.{Result, map_err}
use msim_dap.Common.Exec.{Exec, pure, lift, ◌>>=◌}
use msim_dap.Msim.Frame.{Request, CpuArch}
use msim_dap.Msim.Messages.{MsimError, RawResponse, to_result}

-- `PathBuf`. Rust compares and hashes a path by its components, and these are what is kept.
abbrev pub FilePath : Type 0
FilePath = List String

pub data TargetError : Type 0 where
  session_lost request_failed unknown_arch : TargetError
  address_not_found : FilePath → ℤ → TargetError
  address_out_of_range unknown_cpu bad_general_reg bad_csr_reg : ℕ → TargetError
  unknown_register_name unknown_csr_name : String → TargetError

-- The trait `DebugIndex` of src/dwarf/index.rs.
pub record DebugIndex : Type 0 where
  pub get_address : FilePath → ℤ → Option ℕ
  pub resolve_address : ℕ → Option (FilePath × ℤ)

-- One call of `Connection::send`: the request, and what came back.
abbrev pub Exchange : Type 0
Exchange = Request × Result MsimError RawResponse

-- What a target is built over. The trait `Connection` is `answer`: what `send` returns may depend on
-- all that was exchanged before, the latest first. `order` is the order in which a `HashMap` from
-- lines to addresses is iterated, which Rust leaves open.
pub record Env : Type 0 where
  pub answer : List Exchange → Request → Result MsimError RawResponse
  pub index : DebugIndex
  pub order : List (ℤ × ℕ) → List (ℤ × ℕ)

pub record BpStore : Type 0 where
  pub bps_per_file : List (FilePath × List (ℤ × ℕ))
  pub bps_addresses : List ℕ

pub record Config : Type 0 where
  pub cpu_count : ℕ
  pub cpu_to_arch : List (ℕ × CpuArch)

-- `exchanges` is the state of the connection.
pub record MsimTarget : Type 0 where
  pub exchanges : List Exchange
  pub bp_store : BpStore
  pub config : Option Config

-- `MsimTarget::new`
abbrev pub new : MsimTarget
new = record {
  exchanges = [];
  bp_store = record { bps_per_file = []; bps_addresses = [] };
  config = none;
}

-- `From<MsimError> for TargetError`
unfoldable pub from_msim : MsimError → TargetError
from_msim MsimError.request_failed = TargetError.request_failed
from_msim _ = session_lost

-- `self.connection.send(request)`
unfoldable pub send_raw : Env → Request → MsimTarget → Result MsimError RawResponse × MsimTarget
send_raw env request t =
    let reply = env.answer t.exchanges request in
    (reply, record t { exchanges = (request, reply) ∷ t.exchanges })

-- `self.connection.send(request)?`
unfoldable pub send : Env → Request → Exec MsimTarget TargetError RawResponse
unfolding send_raw
send env request t = let (reply, t') = send_raw env request t in (map_err from_msim reply, t')

-- `self.connection.send(request)?.to_result()?`
unfoldable pub request : Env → Request → Exec MsimTarget TargetError RawResponse
request env r = do response ← send env r; lift (map_err from_msim (to_result response))
