-- ===== src/Tests/Lost.antt =====
-- The `threads` request of src/debugger/requests.rs when the session with MSIM is lost.
use msim_dap.Common.{◌≡◌, refl, none, [], ◌∷◌}
use msim_dap.Common.Int.{pos}
use msim_dap.Common.Results.{ok, err}
use msim_dap.Msim.Messages.{listener_died}
use msim_dap.Target
use msim_dap.Target.{Env, send_raw}
use msim_dap.Target.Control.{cpu_count, get_config, fetch_config}
use msim_dap.Target.Interface.{msim_target}
use msim_dap.Debugger.Protocol.{ResponseBody}
use msim_dap.Debugger.Registries.{cpu_to_thread_id}
use msim_dap.Debugger.Requests.{reply, threads}
use msim_dap.Tests.Debugger.{fresh}

-- MSIM is gone.
abbrev lost : Env
lost = record {
  answer = λ log q. err listener_died;
  index = record { get_address = λ path line. none; resolve_address = λ a. none };
  order = λ m. m;
}

threads-lost :
    (threads (msim_target lost) fresh).0 ≡ ok (reply (ResponseBody.threads ((pos 1, 0) ∷ [])))
unfolding threads cpu_count get_config fetch_config Target.send send_raw cpu_to_thread_id
threads-lost = refl
