-- ===== src/Tests/Wire.antt =====
-- Runs of src/lib.rs over a connection, and of the debugger over any target.
use msim_dap.Common.{
  ℕ, nat_eq, true, false, ◌≡◌, refl, some, none, List, [], ◌∷◌, ◌++◌, ◌&&◌, not, length, arith,
}
use msim_dap.Common.Int.{pos}
use msim_dap.Common.Results.{ok}
use msim_dap.Msim.Frame.{Request, ResponseStatus, resume, set_code_breakpoint}
use msim_dap.Msim.Tcp.{new, answer, send_next, after_log}
use msim_dap.Msim.Tcp.Conversation.{requests, polite}
use msim_dap.Msim.Tcp.Frames.{IsFramed}
use msim_dap.Dwarf.Index.{DwarfIndex, insert, file_id, add_id, note_line, get_address}
use msim_dap.Common.Map.{lookup, insert as map_insert, collect, collect_into, contains, set_insert}
use msim_dap.Common.Bytes.{be_bytes}
use msim_dap.Msim.Frame.Codec.{write, write_fields, fields, write_u8, write_u64}
use msim_dap.Msim.Frame.Stream.{write_all}
use msim_dap.Msim.Messages.{RawResponse, to_result}
use msim_dap.Msim.Connection
use msim_dap.Target
use msim_dap.Target.{request, send_raw}
use msim_dap.Target.Control.{resume as resume_target}
use msim_dap.Target.Breakpoints.{
  replace_code_bps, replace_lines, replace_line, remove_missing, drop_file, store_file, set_code_bp,
  add_bp,
}
use msim_dap.Debugger.BpInfos.{bp_infos, bp_info, bp_id}
use msim_dap.Debugger.Registries.{get_id}
use msim_dap.Debugger.Requests.{set_breakpoints, resume as resume_handler}
use msim_dap.Dwarf.Parse.{
  UnitRef, parse_dwarf, parse_sections, load_section, parse_lines, parse_units, parse_unit,
  parse_rows, parse_row, row_path, push_directory, push,
}
use msim_dap.Debugger.Protocol
use msim_dap.Adapter
use msim_dap.Adapter.{DebugEventResult, Session}
use msim_dap.Debugger.Commands.{Command}
use msim_dap.Debugger.EventLoop.{dap_request, run, turn, handle, handle_dap_request}
use msim_dap.App.{Outside, env_of, after_sent, debug}
use msim_dap.App.Wire.{exchanged, debug-IsFramed}
use msim_dap.Debugger.Kept.Armed.{run-armed}
use msim_dap.Target.Interface.{msim_target}
use msim_dap.Target.Breakpoints.Log.{is_set, is_abandoned}
use msim_dap.Tests.Debugger.{editor}
use msim_dap.Tests.App.{dap, ready, outside}

-- A file with one statement.
abbrev main_unit : UnitRef
main_unit = record {
  comp_dir = some ("kernel" ∷ []);
  line_program = some (
      ok (record {
        address = 64;
        file =
            some (record { directory_index = 0; directory = none; path_name = ok ("main.c" ∷ []) });
        line = some 3;
        end_sequence = false;
        is_stmt = true;
      })
      ∷ []);
}

-- MSIM acknowledges every request.
abbrev done : List Target.Exchange → Request → RawResponse
done log q = record { status = ResponseStatus.ok; arg0 = 0; arg1 = 0; arg2 = 0 }

abbrev with_main : Outside
with_main = record outside {
  arrivals = polite done;
  files = record outside.files { units = λ endian sections. ok main_unit ∷ [] };
}

abbrev main_index : DwarfIndex
main_index = record {
  file_ids = (("kernel" ∷ "main.c" ∷ []), 1) ∷ [];
  line_to_address = ((1, pos 3), 64) ∷ [];
  address_to_line = (64, (1, pos 3)) ∷ [];
}

parsed : parse_dwarf with_main.files ("kernel.raw" ∷ []) ≡ ok main_index
unfolding parse_dwarf parse_sections load_section parse_lines parse_units parse_unit parse_rows
    parse_row row_path push_directory push insert file_id add_id note_line lookup map_insert
parsed = refl

-- The client sets a breakpoint and lets the program run.
abbrev to_main : List DebugEventResult
to_main =
    ok (
      dap_request (record {
        seq = pos 1;
        command =
            Command.set_breakpoints (some ("kernel" ∷ "main.c" ∷ []))
              (some (record { line = pos 3; column = none } ∷ []));
      }))
    ∷ ok (dap_request (record { seq = pos 2; command = Command.continue }))
    ∷ []

abbrev session : Session dap
session = record { server_output = []; is_poisoned = false }

two_requests :
    (requests (exchanged with_main session (new ready []) main_index to_main)
      ≡ resume ∷ set_code_breakpoint 64 ∷ [])
    × (length (exchanged with_main session (new ready []) main_index to_main) ≡ 2)
unfolding debug run turn handle handle_dap_request set_breakpoints bp_infos bp_info bp_id get_id
    replace_code_bps replace_lines replace_line remove_missing drop_file store_file set_code_bp
    add_bp lookup map_insert collect collect_into contains set_insert get_address request
    Target.send send_raw to_result answer send_next after_log Connection.send write write_fields
    fields write_u8 write_u64 write_all be_bytes resume_handler resume_target Protocol.send
    Adapter.send after_sent
two_requests = (refl, refl)

debug-IsFramed_example :
    (bytes : List ℕ) × ((after_log
        (polite done)
        (new ready [])
        (exchanged with_main session (new ready []) main_index to_main)).stream.sent
      ≡ ready.writer.sent ++ bytes)
    × IsFramed (exchanged with_main session (new ready []) main_index to_main) bytes
debug-IsFramed_example =
    debug-IsFramed with_main ("kernel.raw" ∷ []) main_index (new ready []) session to_main
      (λ log q. omega arith) (λ endian sections. ((omega arith, tt), tt)) parsed

-- The target of that run.
abbrev main_env : Target.Env
main_env = env_of with_main (new ready []) main_index

run-armed_example :
    contains 64
      (run
        (msim_target main_env)
        editor
        to_main
        (Protocol.new Target.new)).1.target.bp_store.bps_addresses
    ≡ (is_set 64
          (run (msim_target main_env) editor to_main (Protocol.new Target.new)).1.target.exchanges
        && not (
            is_abandoned 64
              (run
                (msim_target main_env)
                editor
                to_main
                (Protocol.new Target.new)).1.target.exchanges))
run-armed_example = run-armed main_env editor to_main 64
