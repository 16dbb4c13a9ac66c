-- ===== src/App/Main.antt =====
-- src/main.rs: from the options to a run.
use msim_dap.Common.{ℕ, Bool, Option, none, some, List, String, if◌then◌else◌}
use msim_dap.Common.Results.{Result, ok, err, map_err}
use msim_dap.Common.Exec.{Exec, pure, lift, ◌>>◌}
use msim_dap.Net.{IoFault}
use msim_dap.Target.{FilePath}
use msim_dap.Adapter.{DebugEventResult}
use msim_dap.App.{Error, Mode, Config, Outside, Started}
use msim_dap.App

-- `Opts`, as clap parses them
pub record Opts : Type 0 where
  pub dap_tcp_mode : Option ℕ
  pub msim_port : ℕ
  pub kernel_raw_path : FilePath
  pub verbose : Bool
  pub log : Bool

-- `Box<dyn std::error::Error>`
pub data MainError : Type 0 where
  io : IoFault → MainError
  app : Error → MainError

-- `opts.dap_tcp_mode.map_or(Mode::Stdio, Mode::Tcp)`
abbrev pub mode_of : Option ℕ → Mode
mode_of none = Mode.stdio
mode_of (some port) = Mode.tcp port

abbrev pub config_of : Opts → Config
config_of opts = record {
  mode = mode_of opts.dap_tcp_mode;
  msim_port = opts.msim_port;
  kernel_path = opts.kernel_raw_path;
}

-- What opening the log file, duplicating its descriptor and asking for the current directory lead to.
pub record Process : Type 0 where
  pub open_log : Result IoFault ℕ
  pub dup2_stderr : ℕ → Option IoFault
  pub current_dir : Result IoFault String

module _ (outside : Outside) (process : Process) where
  abbrev after_dup2 : Option IoFault → Result IoFault (Unit {0})
  after_dup2 none = ok tt
  after_dup2 (some fault) = err fault

  -- `redirect_stderr`
  unfoldable pub redirect_stderr : Result IoFault (Unit {0})
  redirect_stderr = elim process.open_log [
    | ok file ↦ after_dup2 (process.dup2_stderr file)
    | err fault ↦ err fault
  ]

  -- `main`
  unfoldable pub main : Opts → List DebugEventResult → Exec (Started outside) MainError (Unit {0})
  main opts events = do
    if opts.log then lift (map_err io redirect_stderr) else pure tt
    lift (map_err io process.current_dir)
    (λ started.
        let (result, started') = App.run outside (config_of opts) events started in
        (map_err app result, started'))
