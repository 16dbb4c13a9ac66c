-- ===== src/Debugger/Events/BpHit.antt =====
-- From setting the breakpoints of a file to the stop at one of them.
use msim_dap.Common.{
  ℕ, ◌≡◌, ◌∙◌, refl, arith, true, false, none, some, List, [], ◌∷◌, map, int_eq, nat_eq, string_eq,
  list_eq, pair_eq, eq_self,
}
use msim_dap.Common.Int.{ℤ, pos}
use msim_dap.Common.Map.{lookup, contains}
use msim_dap.Common.Results.{ok}
use msim_dap.Msim.Frame.{StoppedAtReason}
use msim_dap.Target.{FilePath, Env, MsimTarget}
use msim_dap.Target.Interface.{msim_target}
use msim_dap.Target.Breakpoints
use msim_dap.Target.Breakpoints.{resolve_code_bp}
use msim_dap.Target.Breakpoints.Acknowledged.{Acknowledges, is_armed, stands_at, stands_at-found}
use msim_dap.Target.Breakpoints.Rounds.{outcome}
use msim_dap.Target.Breakpoints.Sets.{lines_in, is_wanted-intro}
use msim_dap.Target.Breakpoints.Standing.{IsConsistent}
use msim_dap.Target.Breakpoints.Replacing.{replace_code_bps-IsReplaced}
use msim_dap.Debugger.{BpRegistry}
use msim_dap.Debugger.Registries.{get_id, cpu_to_thread_id}
use msim_dap.Debugger.Commands.{SourceBreakpoint}
use msim_dap.Debugger.Protocol.{Debugger, Breakpoint, ResponseBody, StoppedEventReason, stopped}
use msim_dap.Debugger.Requests.{reply, set_breakpoints}
use msim_dap.Debugger.BpInfos.{bp_id}
use msim_dap.Debugger.Requests.Hits.{IsListed, bp_infos-IsListed, listed_id}
use msim_dap.Debugger.Events.{is_step_end, cause, handle_event_stopped_at}

abbrev pub lines_asked : List SourceBreakpoint → List ℤ
lines_asked = map (λ bp. bp.line)

module _ (env : Env) (path : FilePath) where
  not_step_end :
      (cpu a : ℕ) (d : Debugger MsimTarget)
      → lookup cpu d.step_bp ≡ none
      → is_step_end (msim_target env) cpu a d ≡ false
  unfolding is_step_end
  not_step_end cpu a d idle = rw (idle, is_step_end) refl

  resolves :
      (line : ℤ) (a : ℕ) (t : MsimTarget)
      → is_armed a t ≡ true
      → env.index.resolve_address a ≡ some (path, line)
      → resolve_code_bp env a t ≡ some (path, line)
  unfolding resolve_code_bp
  resolves line a t armed at = rw (armed, resolve_code_bp) at

  bp_id-known :
      (line : ℤ) (n : ℕ) (d : Debugger MsimTarget)
      → lookup (path, line) d.bp_registry.ids ≡ some n
      → bp_id path line d ≡ (pos n, d)
  unfolding bp_id get_id
  bp_id-known line n d known = rw (known, get_id) refl

  cause_hit :
      (line : ℤ) (a n : ℕ) (d : Debugger MsimTarget)
      → resolve_code_bp env a d.target ≡ some (path, line)
      → bp_id path line d ≡ (pos n, d)
      → cause (msim_target env) a StoppedAtReason.breakpoint d
        ≡ (StoppedEventReason.breakpoint, some (pos n), d)
  unfolding cause
  cause_hit line a n d at id = rw (at, id) refl

  -- The stop at a breakpoint whose place has an id, on a CPU with no step pending.
  stop_at-id :
      (line : ℤ) (a cpu n : ℕ) (d : Debugger MsimTarget)
      → is_armed a d.target ≡ true
      → env.index.resolve_address a ≡ some (path, line)
      → lookup (path, line) d.bp_registry.ids ≡ some n
      → lookup cpu d.step_bp ≡ none
      → (handle_event_stopped_at (msim_target env) cpu a StoppedAtReason.breakpoint d).0
        ≡ ok (
            some (
              stopped (record {
                reason = StoppedEventReason.breakpoint;
                address = a;
                place = some (path, line);
                thread_id = cpu_to_thread_id cpu;
                hit_breakpoint_ids = some (pos n ∷ []);
              })))
  unfolding handle_event_stopped_at
  stop_at-id line a cpu n d armed at known idle =
      rw
        (
          not_step_end cpu a d idle,
          cause_hit line a n d (resolves line a d.target armed at) (bp_id-known line n d known),
          at,
        )
        refl

  -- `set_breakpoints` by what replacing the breakpoints came to.
  set_breakpoints-lists :
      (bps : List SourceBreakpoint) (d : Debugger MsimTarget)
      → (Breakpoints.replace_code_bps env path (lines_asked bps) d.target).0
        ≡ map (outcome env path) (lines_asked bps)
      → (infos : List Breakpoint) × (r : BpRegistry) × (set_breakpoints
            (msim_target env)
            (some path)
            (some bps)
            d
          ≡ (
            ok (reply (ResponseBody.set_breakpoints infos)),
            record d {
              target = (Breakpoints.replace_code_bps env path (lines_asked bps) d.target).1;
              bp_registry = r;
            },
          ))
        × IsListed env path r bps infos
  unfolding set_breakpoints
  set_breakpoints-lists bps d answered =
      let d' = record d {
        target = (Breakpoints.replace_code_bps env path (lines_asked bps) d.target).1;
      } in
      let (infos, r, e, listed, _) = bp_infos-IsListed env path bps d' in
      (infos, r, rw (answered, e) refl, listed)

  module _ (acks : Acknowledges env)
      (ordered : (m : List (ℤ × ℕ)) (line : ℤ)
        → contains line (lines_in (env.order m)) ≡ contains line (lines_in m))
      (distinct : (line line' : ℤ) (a : ℕ)
        → env.index.get_address path line ≡ some a
        → env.index.get_address path line' ≡ some a
        → line ≡ line') where
    -- Where MSIM acknowledges every request, no two lines of the file share an address, the order of a
    -- map keeps its lines, and what is stored for the file is where the index has it and armed: setting
    -- the breakpoints of the file tells the client of each, in their order, whether the index has its
    -- line, with an id if so; and when a CPU with no step pending stops afterwards at the breakpoint of one
    -- of the lines, at an address that the index leads back to the line, the client is told the id of
    -- that line.
    pub set_breakpoints-hit :
        (bps : List SourceBreakpoint) (d : Debugger MsimTarget) (line : ℤ) (a cpu : ℕ)
        → IsConsistent env path d.target
        → contains line (lines_asked bps) ≡ true
        → env.index.get_address path line ≡ some a
        → env.index.resolve_address a ≡ some (path, line)
        → lookup cpu d.step_bp ≡ none
        → (infos : List Breakpoint) × (d' : Debugger MsimTarget) × (n : ℕ) × (set_breakpoints
              (msim_target env)
              (some path)
              (some bps)
              d
            ≡ (ok (reply (ResponseBody.set_breakpoints infos)), d'))
          × IsListed env path d'.bp_registry bps infos
          × (lookup (path, line) d'.bp_registry.ids ≡ some n)
          × ((handle_event_stopped_at (msim_target env) cpu a StoppedAtReason.breakpoint d').0
              ≡ ok (
                  some (
                    stopped (record {
                      reason = StoppedEventReason.breakpoint;
                      address = a;
                      place = some (path, line);
                      thread_id = cpu_to_thread_id cpu;
                      hit_breakpoint_ids = some (pos n ∷ []);
                    }))))
    set_breakpoints-hit bps d line a cpu consistent among at back idle =
        let r =
          replace_code_bps-IsReplaced env path acks ordered distinct (lines_asked bps) d.target
            consistent in
        let (infos, registry, e, listed) = set_breakpoints-lists bps d r.answered in
        let (n, known) = listed_id env path registry bps infos line a listed among at in
        let d' = record d {
          target = (Breakpoints.replace_code_bps env path (lines_asked bps) d.target).1;
          bp_registry = registry;
        } in
        let here : stands_at env path line a ≡ true =
          stands_at-found env path line a a at ∙ eq_self a in
        let armed : is_armed a d'.target ≡ true =
          ground (arith, r.armed a, is_wanted-intro env path (lines_asked bps) a line among here) in
        (infos, d', n, e, listed, known, stop_at-id line a cpu n d' armed back known idle)
