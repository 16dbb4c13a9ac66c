-- ===== src/Tests/Steps.antt =====
-- Steps of the debugger of src/debugger over the target of src/target/msim_target.rs.
use msim_dap.Common.{
  ◌≡◌, refl, arith, some, none, [], ◌∷◌, range, if◌then◌else◌, ◌==◌, nat_eq, int_eq, string_eq,
  list_eq, pair_eq,
}
use msim_dap.Common.Int.{pos, ◌+i64◌, ◌-i64◌}
use msim_dap.Common.Map.{lookup}
use msim_dap.Common.Results.{ok}
use msim_dap.Msim.Frame.{StoppedAtReason}
use msim_dap.Target
use msim_dap.Target.{Env}
use msim_dap.Target.Interface.{msim_target}
use msim_dap.Target.Breakpoints.{set_code_bp}
use msim_dap.Debugger.Registries
use msim_dap.Debugger.Registries.{thread_to_cpu_id}
use msim_dap.Debugger.Protocol.{Debugger, ResponseBody}
use msim_dap.Debugger.Requests.{reply}
use msim_dap.Debugger.Requests.Steps.{next}
use msim_dap.Debugger.Requests.Stepping.{IsStepped, first_place, next_lem}
use msim_dap.Debugger.Events.{handle_event_stopped_at}
use msim_dap.Debugger.Events.StepEnd.{IsStepEnded, step_end}
use msim_dap.Debugger.Events.StepOver.{step_over_ends}
use msim_dap.Tests.Targets.{env, main_c, plain, msim-Acknowledges}
use msim_dap.Tests.Debugger.{fresh, both_ways}

-- A breakpoint that the user set on line 5, and a step of CPU 1 that is to end there.
abbrev stepping : Debugger Target.MsimTarget
stepping = record {
  sent = [];
  target = (set_code_bp both_ways main_c (pos 5) Target.new).1;
  bp_registry = Registries.new;
  step_bp = (1, 20) ∷ [];
}

pending_step : lookup 1 stepping.step_bp ≡ some 20
unfolding lookup
pending_step = refl

step_end_example :
    IsStepEnded both_ways main_c
      (pos 5)
      20
      1
      stepping
      (handle_event_stopped_at (msim_target both_ways) 1 20 StoppedAtReason.breakpoint stepping).0
      (handle_event_stopped_at (msim_target both_ways) 1 20 StoppedAtReason.breakpoint stepping).1
step_end_example =
    step_end both_ways main_c (pos 5) 20 refl 1 StoppedAtReason.breakpoint stepping refl
      pending_step

-- CPU 1 at address 0, which is that of line 3 here.
abbrev at_three : Env
at_three = record {
  answer = env.answer;
  index = record {
    get_address = env.index.get_address;
    resolve_address = λ a. if a == 0 then some (main_c, pos 3) else none;
  };
  order = env.order;
}

thread_of_one : thread_to_cpu_id (pos 2) ≡ ok 1
unfolding thread_to_cpu_id ◌-i64◌
thread_of_one = ground arith

next_lem_example :
    IsStepped at_three main_c 1 fresh
      (first_place at_three main_c (pos 3) (range 1 19))
      (next (msim_target at_three) (pos 2) fresh)
next_lem_example =
    next_lem at_three msim-Acknowledges (pos 2) 1 0 main_c (pos 3) fresh (plain 0) thread_of_one
      refl refl refl

-- CPU 1 on line 4 here, and a breakpoint of the user on line 5.
abbrev at_four : Env
at_four = record {
  answer = env.answer;
  index = record {
    get_address = env.index.get_address;
    resolve_address = λ a.
        if a == 0 then some (main_c, pos 4) else if a == 20 then some (main_c, pos 5) else none;
  };
  order = env.order;
}

abbrev halted : Debugger Target.MsimTarget
halted = record fresh { target = (set_code_bp at_four main_c (pos 5) Target.new).1 }

five_first : first_place at_four main_c (pos 4) (range 1 19) ≡ some (pos 5, 20)
unfolding ◌+i64◌
five_first = refl

step_over_ends_example :
    ((next (msim_target at_four) (pos 2) halted).0 ≡ ok (reply ResponseBody.next))
    × IsStepEnded at_four main_c
        (pos 5)
        20
        1
        halted
        (handle_event_stopped_at
          (msim_target at_four)
          1
          20
          StoppedAtReason.breakpoint
          (next (msim_target at_four) (pos 2) halted).1).0
        (handle_event_stopped_at
          (msim_target at_four)
          1
          20
          StoppedAtReason.breakpoint
          (next (msim_target at_four) (pos 2) halted).1).1
step_over_ends_example =
    step_over_ends at_four msim-Acknowledges (pos 2) 1 0 main_c (pos 4) halted (plain 0) (pos 5) 20
      main_c (pos 5) StoppedAtReason.breakpoint thread_of_one refl refl refl five_first refl refl
