-- ===== src/Tests/Debugger.antt =====
-- The debugger of src/debugger over the target of src/target/msim_target.rs.
use msim_dap.Common.{◌+◌, map, range}
use msim_dap.Debugger.Strings.{hex}
use msim_dap.Debugger.Protocol.{ResponseBody}
use msim_dap.Debugger.Requests.{reply, read_memory}
use msim_dap.Debugger.Requests.Memory.{read_memory_lem}
use msim_dap.Tests.Targets.{mem, mem-Serves, virt-Serves}
use msim_dap.Target.Registers.{Register}
use msim_dap.Debugger.Requests.{parse_value, variable}
use msim_dap.Debugger.Requests.Values.{variable_lem}
use msim_dap.Common.{some, none, if◌then◌else◌, ◌==◌, nat_eq}
use msim_dap.Common.Map.{lookup, contains}
use msim_dap.Msim.Frame.{StoppedAtReason}
use msim_dap.Target.{Env}
use msim_dap.Debugger.{physical, virtual}
use msim_dap.Debugger.MemoryRefs.{parse, to_string}
use msim_dap.Debugger.MemoryRefs.RoundTrip.{parse-to_string}
use msim_dap.Debugger.Protocol.{StoppedEventReason, stopped}
use msim_dap.Debugger.Events.{handle_event_stopped_at}
use msim_dap.Common.{◌≡◌, refl, List, [], ◌∷◌, arith}
use msim_dap.Common.Int.{pos}
use msim_dap.Common.Results.{ok}
use msim_dap.Target
use msim_dap.Target.{FilePath}
use msim_dap.Target.Interface.{msim_target}
use msim_dap.Debugger.Registries.{cpu_to_thread_id}
use msim_dap.Debugger.Commands.{Command, DapRequest}
use msim_dap.Debugger.Protocol.{Debugger, Client, new}
use msim_dap.Common.{ℕ, true, int_eq, string_eq, list_eq, pair_eq}
use msim_dap.Common.Int.{negsuc}
use msim_dap.Target.Breakpoints.Standing.{IsConsistent}
use msim_dap.Debugger.Commands.{SourceBreakpoint}
use msim_dap.Debugger.Protocol.{Breakpoint}
use msim_dap.Debugger.Requests.{set_breakpoints}
use msim_dap.Debugger.Requests.Hits.{IsListed}
use msim_dap.Debugger.Events.BpHit.{lines_asked, set_breakpoints-hit}
use msim_dap.Tests.Targets.{env, main_c, msim-Acknowledges, lines_of-distinct}

-- The index of these tests, which leads from address 20 back to line 5.
abbrev pub both_ways : Env
both_ways = record {
  answer = env.answer;
  index = record {
    get_address = env.index.get_address;
    resolve_address = λ a. if a == 20 then some (main_c, pos 5) else none;
  };
  order = env.order;
}

-- A client that takes every message.
abbrev pub editor : Client
editor = record { deliver = λ log m. ok tt; encode = λ bytes. bytes }

abbrev pub next_request : DapRequest
next_request = record { seq = pos 7; command = Command.next (pos 1) }

abbrev pub fresh : Debugger Target.MsimTarget
fresh = new Target.new

parse-to_string_example :
    (parse (to_string (physical 0x1f00)) ≡ ok (physical 0x1f00))
    × (parse (to_string (virtual 12 0x1f00)) ≡ ok (virtual 12 0x1f00))
parse-to_string_example = parse-to_string 12 0x1f00 (omega arith) (omega arith)

abbrev sp : Register
sp = record { name = "sp"; value = 0x8000_1ff0 }

variable_lem_example :
    (parse_value (variable 2 sp).value ≡ ok 0x8000_1ff0)
    × (parse (variable 2 sp).memory_reference ≡ ok (virtual 2 0x8000_1ff0))
variable_lem_example = variable_lem 2 sp (omega arith) (omega arith)

read_memory_lem_example :
    ((read_memory
        (msim_target env)
        editor
        (to_string (physical 250))
        (some (pos 6))
        (pos 30)
        fresh).0
      ≡ ok (
          reply (
            ResponseBody.read_memory
              (hex (250 + 6))
              (editor.encode (map mem (range (250 + 6) 30))))))
    × ((read_memory
          (msim_target env)
          editor
          (to_string (virtual 1 250))
          (some (pos 6))
          (pos 30)
          fresh).0
        ≡ ok (
            reply (
              ResponseBody.read_memory
                (hex (250 + 6))
                (editor.encode (map mem (range (250 + 6) 30))))))
read_memory_lem_example =
    read_memory_lem env editor 1 mem mem mem-Serves (virt-Serves 1) 250 6 30 fresh (omega arith)
      (omega arith) (omega arith)

abbrev wanted : List SourceBreakpoint
wanted =
    record { line = pos 5; column = none }
    ∷ record { line = negsuc 0; column = none }
    ∷ record { line = pos 6; column = none }
    ∷ []

nothing_stored : IsConsistent both_ways main_c fresh.target
unfolding lookup
nothing_stored = record { indexed = tt; armed = tt }

no_step : lookup 1 fresh.step_bp ≡ none
unfolding lookup
no_step = refl

five_wanted : contains (pos 5) (lines_asked wanted) ≡ true
unfolding contains
five_wanted = refl

set_breakpoints-hit_example :
    (infos : List Breakpoint) × (d' : Debugger Target.MsimTarget) × (n : ℕ) × (set_breakpoints
        (msim_target both_ways)
        (some main_c)
        (some wanted)
        fresh
      ≡ (ok (reply (ResponseBody.set_breakpoints infos)), d'))
    × IsListed both_ways main_c d'.bp_registry wanted infos
    × (lookup (main_c, pos 5) d'.bp_registry.ids ≡ some n)
    × ((handle_event_stopped_at (msim_target both_ways) 1 20 StoppedAtReason.breakpoint d').0
        ≡ ok (
            some (
              stopped (record {
                reason = StoppedEventReason.breakpoint;
                address = 20;
                place = some (main_c, pos 5);
                thread_id = cpu_to_thread_id 1;
                hit_breakpoint_ids = some (pos n ∷ []);
              }))))
set_breakpoints-hit_example =
    set_breakpoints-hit both_ways main_c msim-Acknowledges (λ m line. refl) lines_of-distinct wanted
      fresh (pos 5) 20 1 nothing_stored five_wanted refl refl no_step
