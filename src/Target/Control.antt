-- ===== src/Target/Control.antt =====
-- src/target/msim_target.rs, execution control and the cached configuration of `MsimTarget`.
pub mod Caching
use msim_dap.Common.{ℕ, zero, suc, ◌+◌, none, some, List, [], nat_eq}
use msim_dap.Common.Map.{lookup, insert}
use msim_dap.Common.Results.{Result, ok, err, ok_or}
use msim_dap.Common.Exec.{Exec, pure, gets, modify, ◌>>=◌, ◌>>◌}
use msim_dap.Msim.Frame.{
  CpuArch, resume as resume_request, pause as pause_request, terminate as terminate_request, step,
  get_config as config_request, get_cpu_info,
}
use msim_dap.Msim.Frame.Codec.{read_arch}
use msim_dap.Msim.Messages.{MsimError, RawResponse, listener_died, closed_error, io_error}
use msim_dap.Target.{
  TargetError, unknown_cpu, Env, Config, MsimTarget, from_msim, send_raw, send, request,
}

module _ (env : Env) where
  -- `DebugTarget::resume`
  unfoldable pub resume : Exec MsimTarget TargetError (Unit {0})
  resume = do request env resume_request; pure tt

  -- `DebugTarget::pause`
  unfoldable pub pause : Exec MsimTarget TargetError (Unit {0})
  pause = do request env pause_request; pure tt

  abbrev terminated : Result MsimError RawResponse → Result TargetError (Unit {0})
  terminated (ok r) = ok tt
  terminated (err listener_died) = ok tt
  terminated (err closed_error) = ok tt
  terminated (err (io_error e)) = ok tt
  terminated (err e) = err (from_msim e)

  -- `DebugTarget::terminate`
  unfoldable pub terminate : Exec MsimTarget TargetError (Unit {0})
  terminate t = let (reply, t') = send_raw env terminate_request t in (terminated reply, t')

  -- `DebugTarget::step_by`
  unfoldable pub step_by : ℕ → ℕ → Exec MsimTarget TargetError (Unit {0})
  step_by cpu count = do request env (step cpu count); resume; pure tt

  -- The loop `for cpu_id in 0..cpu_count` of `get_config`, with `n` rounds left.
  unfoldable pub read_archs :
      ℕ → ℕ → List (ℕ × CpuArch) → Exec MsimTarget TargetError (List (ℕ × CpuArch))
  read_archs zero cpu_id cpu_to_arch = pure cpu_to_arch
  read_archs (suc n) cpu_id cpu_to_arch = do
    response ← send env (get_cpu_info cpu_id)
    read_archs n (cpu_id + 1) (insert cpu_id (read_arch response.arg0) cpu_to_arch)

  -- The body of `if self.config.is_none()`
  unfoldable pub fetch_config : Exec MsimTarget TargetError Config
  fetch_config = do
    response ← send env config_request
    cpu_to_arch ← read_archs response.arg0 0 []
    let config : Config = record { cpu_count = response.arg0; cpu_to_arch = cpu_to_arch }
    modify (λ t. record t { config = some config })
    pure config

  -- `MsimTarget::get_config`
  unfoldable pub get_config : Exec MsimTarget TargetError Config
  get_config = do
    cached ← gets (λ t. t.config)
    elim cached [ some config ↦ pure config | none ↦ fetch_config ]

  -- `DebugTarget::cpu_count`
  unfoldable pub cpu_count : Exec MsimTarget TargetError ℕ
  cpu_count = do config ← get_config; pure config.cpu_count

-- `Config::cpu_arch`
unfoldable pub cpu_arch : Config → ℕ → Result TargetError CpuArch
cpu_arch config cpu_id = ok_or (unknown_cpu cpu_id) (lookup cpu_id config.cpu_to_arch)
