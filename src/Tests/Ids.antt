-- ===== src/Tests/Ids.antt =====
-- Ids of breakpoints in a run of src/debugger over the target of src/target/msim_target.rs.
use msim_dap.Common.{
  ℕ, ◌≡◌, ◌↔◌, refl, arith, some, none, List, [], ◌∷◌, ◌++◌, map, nat_eq, int_eq, string_eq,
  list_eq, pair_eq,
}
use msim_dap.Common.Int.{ℤ, pos}
use msim_dap.Common.Map.{
  lookup, insert, remove, collect, collect_into, contains, set_insert, set_remove,
}
use msim_dap.Common.Results.{Result, ok}
use msim_dap.Msim.Messages.{stopped_at, to_result}
use msim_dap.Msim.Frame.{StoppedAtReason}
use msim_dap.Target
use msim_dap.Target.{FilePath, request, send_raw}
use msim_dap.Target.Interface.{msim_target}
use msim_dap.Target.Breakpoints.{
  replace_code_bps, replace_lines, replace_line, remove_missing, remove_code_bp, drop_address,
  drop_entry, drop_file, store_file, set_code_bp, add_bp, resolve_code_bp,
}
use msim_dap.Debugger.{ListenerError}
use msim_dap.Debugger.BpInfos.{bp_infos, bp_info, bp_id}
use msim_dap.Debugger.Registries.{get_id}
use msim_dap.Debugger.Requests.{set_breakpoints}
use msim_dap.Debugger.Protocol
use msim_dap.Debugger.Commands.{Command}
use msim_dap.Debugger.Events.{handle_event_stopped_at, is_step_end, cause}
use msim_dap.Debugger.EventLoop.{
  DebugEvent, dap_request, msim_event, handle_dap_request, handle_msim_event, handle, turn, run,
}
use msim_dap.Debugger.Numbered.Runs.{run_ids}
use msim_dap.Tests.Targets.{main_c}
use msim_dap.Tests.Debugger.{editor, both_ways}

-- A request for breakpoints on lines of `main.c`.
abbrev setting : List ℤ → Result ListenerError DebugEvent
setting lines = ok (
    dap_request (record {
      seq = pos 1;
      command =
          Command.set_breakpoints (some main_c)
            (some (map (λ line. record { line = line; column = none }) lines));
    }))

abbrev first_lines : List (Result ListenerError DebugEvent)
first_lines = setting (pos 5 ∷ pos 6 ∷ []) ∷ []

abbrev later_lines : List (Result ListenerError DebugEvent)
later_lines =
    ok (msim_event (stopped_at 0 20 StoppedAtReason.breakpoint)) ∷ setting (pos 6 ∷ pos 7 ∷ []) ∷ []

ids_given :
    (lookup
        (main_c, pos 6)
        (run (msim_target both_ways) editor first_lines (Protocol.new Target.new)).1.bp_registry.ids
      ≡ some 1)
    × (lookup
          (main_c, pos 7)
          (run
            (msim_target both_ways)
            editor
            (first_lines ++ later_lines)
            (Protocol.new Target.new)).1.bp_registry.ids
        ≡ some 2)
unfolding run turn handle handle_dap_request handle_msim_event handle_event_stopped_at is_step_end
    cause set_breakpoints bp_infos bp_info bp_id get_id replace_code_bps replace_lines replace_line
    remove_missing remove_code_bp drop_address drop_entry drop_file store_file set_code_bp add_bp
    resolve_code_bp lookup insert remove collect collect_into contains set_insert set_remove request
    Target.send send_raw to_result Protocol.send
ids_given = (refl, refl)

run_ids_example : ◌≡◌ {A = ℕ} 1 2 ↔ ◌≡◌ {A = FilePath × ℤ} (main_c, pos 6) (main_c, pos 7)
run_ids_example =
    run_ids (msim_target both_ways) editor first_lines later_lines Target.new (main_c, pos 6)
      (main_c, pos 7) 1 2 (omega arith) ids_given.0 ids_given.1
