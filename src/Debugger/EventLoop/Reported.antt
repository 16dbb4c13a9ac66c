-- ===== src/Debugger/EventLoop/Reported.antt =====
-- Events of MSIM in the event loop: what the client is told of them.
use msim_dap.Common.{ℕ, ◌≡◌, refl, Option, none, some, List, ◌∷◌, Bool-cases, inl, inr}
use msim_dap.Common.Int.{ℤ, pos}
use msim_dap.Common.Results.{Result, ok}
use msim_dap.Msim.Frame.{StoppedAtReason}
use msim_dap.Msim.Messages.{Event, terminated, stopped_at}
use msim_dap.Target.{FilePath}
use msim_dap.Target.Interface.{DebugTarget}
use msim_dap.Debugger.{DebuggerError}
use msim_dap.Debugger.Protocol.{
  Debugger, DapEvent, Stopped, stopped, exited, event, Client, Message,
}
use msim_dap.Debugger.Registries.{cpu_to_thread_id}
use msim_dap.Debugger.BpInfos.{bp_id}
use msim_dap.Debugger.Events.{
  is_step_end, end_step, forget_step, clean_up, cause, hit, handle_event_stopped_at,
  handle_event_terminated,
}
use msim_dap.Debugger.EventLoop.{msim_event, handle, handle_msim_event, report}
use msim_dap.Debugger.EventLoop.Answers.{send-sends}

-- What the client is told of an event of MSIM, the latest message first.
pub data Reported (sent : List Message) : Event → List Message → Type 0 where
  stop :
      {cpu address : ℕ} {reason : StoppedAtReason} (s : Stopped)
      → s.address ≡ address
      → s.thread_id ≡ cpu_to_thread_id cpu
      → Reported sent (stopped_at cpu address reason) (event (stopped s) ∷ sent)
  end : Reported sent terminated (event (exited (pos 0)) ∷ event DapEvent.terminated ∷ sent)

module _ (T : DebugTarget) (client : Client) where
  clean_up-sent :
      (place : Option (FilePath × ℤ)) (d : Debugger T.State) → (clean_up T place d).sent ≡ d.sent
  clean_up-sent none d = refl
  clean_up-sent (some (path, line)) d = refl

  end_step-sent :
      (cpu address : ℕ) (d : Debugger T.State) → (end_step T cpu address d).sent ≡ d.sent
  unfolding end_step
  end_step-sent cpu address d = clean_up-sent _ (forget_step T cpu d)

  hit-sent :
      (place : Option (FilePath × ℤ)) (d : Debugger T.State) → (hit T place d).2.sent ≡ d.sent
  unfolding bp_id
  hit-sent none d = refl
  hit-sent (some (path, line)) d = refl

  cause-sent :
      (address : ℕ) (reason : StoppedAtReason) (d : Debugger T.State)
      → (cause T address reason d).2.sent ≡ d.sent
  unfolding cause
  cause-sent address StoppedAtReason.paused d = refl
  cause-sent address StoppedAtReason.breakpoint d = hit-sent (T.resolve_code_bp address d.target) d
  cause-sent address StoppedAtReason.step_complete d = refl
  cause-sent address StoppedAtReason.interrupt d = refl

  stopped_at-sends :
      (cpu address : ℕ) (reason : StoppedAtReason) (d : Debugger T.State)
      → (s : Stopped) × (s.address ≡ address)
        × (s.thread_id ≡ cpu_to_thread_id cpu)
        × ((handle_event_stopped_at T cpu address reason d).0 ≡ ok (some (stopped s)))
        × ((handle_event_stopped_at T cpu address reason d).1.sent ≡ d.sent)
  unfolding handle_event_stopped_at
  stopped_at-sends cpu address reason d = (
    _,
    refl,
    refl,
    refl,
    elim (Bool-cases (is_step_end T cpu address d)) [
      | inl done ↦ rw done (end_step-sent cpu address d)
      | inr on ↦ rw on (cause-sent address reason d)
    ],
  )

  module _ (delivers : (log : List Message) (m : Message) → client.deliver log m ≡ ok tt) where
    report-sends :
        (r : Result DebuggerError (Option DapEvent)) (body : DapEvent) (d : Debugger T.State)
        → r ≡ ok (some body)
        → report T client (r, d) ≡ (ok tt, record d { sent = event body ∷ d.sent })
    report-sends r body d h = rw h (send-sends T client delivers (event body) d)

    handle_event_terminated-sends :
        (d : Debugger T.State)
        → handle_event_terminated T client d
          ≡ (ok (some (exited (pos 0))), record d { sent = event DapEvent.terminated ∷ d.sent })
    unfolding handle_event_terminated
    handle_event_terminated-sends d =
        rw (send-sends T client delivers (event DapEvent.terminated) d) refl

    report_stop :
        (cpu address : ℕ) (reason : StoppedAtReason) (s : Stopped) (d d' : Debugger T.State)
        (r : Result DebuggerError (Option DapEvent))
        → s.address ≡ address
        → s.thread_id ≡ cpu_to_thread_id cpu
        → r ≡ ok (some (stopped s))
        → d'.sent ≡ d.sent
        → ((report T client (r, d')).0 ≡ ok tt)
          × Reported d.sent (stopped_at cpu address reason) (report T client (r, d')).1.sent
    report_stop cpu address reason s d d' r at on body same =
        rw (report-sends r (stopped s) d' body, same) (refl, stop s at on)

    -- An event leads to what the client is told of it, and the loop goes on.
    pub handle-Reported :
        (e : Event) (d : Debugger T.State)
        → ((handle T client (msim_event e) d).0 ≡ ok tt)
          × Reported d.sent e (handle T client (msim_event e) d).1.sent
    unfolding handle handle_msim_event
    handle-Reported terminated d =
        rw
          (
            handle_event_terminated-sends d,
            report-sends (ok (some (exited (pos 0)))) (exited (pos 0))
                (record d { sent = event DapEvent.terminated ∷ d.sent }) refl,
          )
          (refl, end)
    handle-Reported (stopped_at cpu address reason) d =
        let (s, at, on, body, same) = stopped_at-sends cpu address reason d in
        report_stop cpu address reason s d (handle_event_stopped_at T cpu address reason d).1
          (handle_event_stopped_at T cpu address reason d).0 at on body same
