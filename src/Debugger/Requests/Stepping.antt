-- ===== src/Debugger/Requests/Stepping.antt =====
-- `next` over the target of src/target/msim_target.rs, where MSIM acknowledges every request.
use msim_dap.Common.{
  ℕ, ◌≡◌, ◌≢◌, refl, ◌++◌, arith, ◌||◌, Option, none, some, List, [], ◌∷◌, range, ◌==◌, nat_eq,
  if◌then◌else◌, Option-cases, inl, inr,
}
use msim_dap.Common.Int.{ℤ, pos, ◌+i64◌}
use msim_dap.Common.Map.{lookup, lookup-insert}
use msim_dap.Common.Results.{Result, ok, err}
use msim_dap.Msim.Frame
use msim_dap.Msim.Messages.{RawResponse, to_result}
use msim_dap.Target.{FilePath, Exchange, Env, MsimTarget, request, send, send_raw}
use msim_dap.Target.Interface.{msim_target}
use msim_dap.Target.Breakpoints.{or_default}
use msim_dap.Target.Control
use msim_dap.Target.Registers
use msim_dap.Target.Breakpoints.Acknowledged.{
  Acknowledges, is_armed, bps_of, with_bp, request-acknowledged, set_code_bp-IsBpSet,
  set_code_bp-stored, set_code_bp-missing,
}
use msim_dap.Debugger.{DebuggerError, request_failed, no_next_line}
use msim_dap.Debugger.Registries.{thread_to_cpu_id}
use msim_dap.Debugger.Protocol.{Debugger, HandlerAction, ResponseBody}
use msim_dap.Debugger.Requests.{reply}
use msim_dap.Debugger.Requests.Steps.{note_step, step_over_to, step_over, next}

abbrev place_at : ℤ → Option ℕ → Option (ℤ × ℕ) → Option (ℤ × ℕ)
place_at line none later = later
place_at line (some a) later = some (line, a)

module _ (env : Env) where
  -- The first of the lines at these offsets that the index has, and its address.
  abbrev pub first_place : FilePath → ℤ → List ℕ → Option (ℤ × ℕ)
  first_place path line [] = none
  first_place path line (offset ∷ offsets) =
      let next_line = line +i64 pos offset in
      place_at next_line (env.index.get_address path next_line) (first_place path line offsets)

  -- What stepping over comes to: with no such line, an error, and the pending steps and breakpoints
  -- as they were; or else the line's address is that of the pending step of the CPU and armed, the
  -- line is stored for its file after the others unless its address was armed before, and the last
  -- request was to resume.
  abbrev pub IsStepped :
      FilePath
      → ℕ
      → Debugger MsimTarget
      → Option (ℤ × ℕ)
      → Result DebuggerError HandlerAction × Debugger MsimTarget
      → Type 0
  IsStepped path cpu d none (r, d') =
      (r ≡ err (request_failed no_next_line))
      × (d'.step_bp ≡ d.step_bp)
      × (d'.target.bp_store ≡ d.target.bp_store)
  IsStepped path cpu d (some (next_line, a)) (r, d') =
      (r ≡ ok (reply ResponseBody.next))
      × ((other : ℕ)
          → lookup other d'.step_bp ≡ (if cpu == other then some a else lookup other d.step_bp))
      × ((b : ℕ) → is_armed b d'.target ≡ ((a == b) || is_armed b d.target))
      × (bps_of path d'.target ≡ (
          if is_armed a d.target
          then bps_of path d.target
          else some (or_default (bps_of path d.target) ++ ((next_line, a) ∷ []))))
      × ((other : FilePath) → path ≢ other → bps_of other d'.target ≡ bps_of other d.target)
      × ((log : List Exchange) × (d'.target.exchanges
            ≡ (Frame.resume, env.answer log Frame.resume) ∷ log))

module _ (env : Env) (acks : Acknowledges env) where
  resume-acknowledged :
      (t : MsimTarget)
      → Control.resume env t ≡ (
        ok tt,
        record t { exchanges = (Frame.resume, env.answer t.exchanges Frame.resume) ∷ t.exchanges },
      )
  unfolding Control.resume
  resume-acknowledged t =
      let (response, log, e, sent) = request-acknowledged env acks Frame.resume t in
      rw (sent, e) refl

  step_over_to-IsStepped :
      (path : FilePath) (next_line : ℤ) (cpu a : ℕ) (d d' : Debugger MsimTarget)
      → ((b : ℕ) → is_armed b d'.target ≡ ((a == b) || is_armed b d.target))
      → bps_of path d'.target ≡ with_bp env acks path next_line a d.target
      → ((other : FilePath) → path ≢ other → bps_of other d'.target ≡ bps_of other d.target)
      → d'.step_bp ≡ d.step_bp
      → IsStepped env path cpu d (some (next_line, a)) (step_over_to (msim_target env) cpu a d')
  unfolding note_step
  step_over_to-IsStepped path next_line cpu a d d' armed stored others same =
      rw (resume-acknowledged d'.target, same)
        (
          refl,
          λ other. lookup-insert cpu other a d.step_bp,
          armed,
          stored,
          others,
          (d'.target.exchanges, refl),
        )

  step_over-IsStepped :
      (path : FilePath) (line : ℤ) (cpu : ℕ) (offsets : List ℕ) (d : Debugger MsimTarget)
      → IsStepped env path cpu d
          (first_place env path line offsets)
          (step_over (msim_target env) path line cpu offsets d)
  unfolding step_over
  step_over-IsStepped path line cpu [] d = (refl, refl, refl)
  step_over-IsStepped path line cpu (offset ∷ offsets) d =
      elim (Option-cases (env.index.get_address path (line +i64 pos offset))) [
        | inl missing ↦
            rw
              (
                step_over,
                set_code_bp-missing env acks path (line +i64 pos offset) d.target missing,
                missing,
              )
              (step_over-IsStepped path line cpu offsets d)
        | inr (a, found) ↦
            let next_line = line +i64 pos offset in
            let (result, armed, others) =
              set_code_bp-IsBpSet env acks path next_line a d.target found in
            let stored = set_code_bp-stored env acks path next_line a d.target found in
            rw (step_over, result, found)
              (step_over_to-IsStepped path next_line cpu a d _ armed stored others refl)
      ]

  read_pc-acknowledged :
      (cpu pc : ℕ) (t : MsimTarget) (r : RawResponse)
      → env.answer t.exchanges (Frame.read_pc cpu) ≡ ok r
      → r.arg0 ≡ pc
      → Registers.read_pc env cpu t
        ≡ (ok pc, record t { exchanges = (Frame.read_pc cpu, ok r) ∷ t.exchanges })
  unfolding Registers.read_pc request send send_raw to_result
  read_pc-acknowledged cpu pc t r answered at =
      ground (arith, answered, at, acks t.exchanges (Frame.read_pc cpu))

  -- Where MSIM acknowledges every request, a CPU stands at an address, and the index leads from it to a
  -- line: stepping over from there goes by the first of the 19 lines that follow which the index has.
  -- If there is none, the request fails, and the breakpoints and pending steps are as before. Or else
  -- the request succeeds, the address of that line is that of a breakpoint and of the pending step of
  -- the CPU, all other breakpoint addresses and pending steps are as before, and the CPU was resumed
  -- last; if the address was that of a breakpoint before, the breakpoints stored for the file are as
  -- before, or else the line and its address follow them; those of other files are as before.
  pub next_lem :
      (thread_id : ℤ) (cpu pc : ℕ) (path : FilePath) (line : ℤ) (d : Debugger MsimTarget)
      (r : RawResponse)
      → thread_to_cpu_id thread_id ≡ ok cpu
      → env.answer d.target.exchanges (Frame.read_pc cpu) ≡ ok r
      → r.arg0 ≡ pc
      → env.index.resolve_address pc ≡ some (path, line)
      → IsStepped env path cpu d
          (first_place env path line (range 1 19))
          (next (msim_target env) thread_id d)
  unfolding next
  next_lem thread_id cpu pc path line d r thread answered at place =
      rw (thread, next, read_pc-acknowledged cpu pc d.target r answered at, place)
        (step_over-IsStepped path line cpu (range 1 19) (record d {
          target = record d.target { exchanges = (Frame.read_pc cpu, ok r) ∷ d.target.exchanges };
        }))
