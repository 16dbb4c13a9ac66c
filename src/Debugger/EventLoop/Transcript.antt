-- ===== src/Debugger/EventLoop/Transcript.antt =====
-- Runs of the event loop: what the client is sent, message by message received.
use msim_dap.Common.{◌≡◌, ◌≢◌, refl, ap, ◌⊎◌, none, List, [], ◌∷◌, subst, inl, inr}
use msim_dap.Common.Results.{Result, ok, err}
use msim_dap.Msim.Messages.{Event}
use msim_dap.Target.Interface.{DebugTarget}
use msim_dap.Debugger.{DebuggerError, received_fatal_error, ListenerError}
use msim_dap.Debugger.Commands.{Command, DapRequest}
use msim_dap.Debugger.Protocol.{Debugger, Client, Message}
use msim_dap.Debugger.EventLoop.{DebugEvent, dap_request, msim_event, handle, returned, turn, run}
use msim_dap.Debugger.EventLoop.Answers.{Answered, lost, replied, started, ended, handle-Answered}
use msim_dap.Debugger.EventLoop.Turns.{run-goes_on, run-ends}
use msim_dap.Debugger.EventLoop.Reported.{Reported, handle-Reported}

-- What a run sends for the messages received, and what it returns: from the messages sent before, the
-- latest first, to those sent after it.
pub data Transcript
    : List Message
      → List (Result ListenerError DebugEvent)
      → Result DebuggerError (Unit {0})
      → List Message
      → Type 0 where
  -- Nothing more is received.
  quiet : {sent : List Message} → Transcript sent [] (ok tt) sent
  -- A listener has failed.
  failed :
      {sent : List Message} {messages : List (Result ListenerError DebugEvent)} (e : ListenerError)
      → Transcript sent (err e ∷ messages) (err (received_fatal_error e)) sent
  -- An event is reported, and the run goes on.
  reports :
      {sent : List Message} {messages : List (Result ListenerError DebugEvent)} {e : Event}
      {r : Result DebuggerError (Unit {0})} {between after : List Message}
      → Reported sent e between
      → Transcript between messages r after
      → Transcript sent (ok (msim_event e) ∷ messages) r after
  -- A request is answered, and the run goes on: it was not to disconnect.
  answers :
      {sent : List Message} {messages : List (Result ListenerError DebugEvent)} {req : DapRequest}
      {r : Result DebuggerError (Unit {0})} {between after : List Message}
      → Answered req sent (ok tt) between
      → Transcript between messages r after
      → Transcript sent (ok (dap_request req) ∷ messages) r after
  -- A request is answered, and the run ends: it was to disconnect.
  disconnects :
      {sent : List Message} {messages : List (Result ListenerError DebugEvent)} {req : DapRequest}
      {after : List Message}
      → Answered req sent (err DebuggerError.dap_disconnected) after
      → Transcript sent (ok (dap_request req) ∷ messages) (ok tt) after
  -- The handler of a request, which is not one to disconnect, fails as the session with MSIM is lost.
  loses :
      {sent : List Message} {messages : List (Result ListenerError DebugEvent)} (req : DapRequest)
      → req.command ≢ Command.disconnect
      → Transcript sent (ok (dap_request req) ∷ messages) (err DebuggerError.session_lost) sent

-- An answer leaves the loop going, or ends it in one of two ways.
Answered-cases :
    (req : DapRequest) (sent after : List Message) (r : Result DebuggerError (Unit {0}))
    → Answered req sent r after
    → (r ≡ ok tt)
      ⊎ (r ≡ err DebuggerError.dap_disconnected)
      ⊎ ((req.command ≢ Command.disconnect) × (r ≡ err DebuggerError.session_lost) × (after ≡ sent))
Answered-cases req sent after r (lost stays) = inr (inr (stays, refl, refl))
Answered-cases req sent after r (Answered.failed stays e) = inl refl
Answered-cases req sent after r (replied stays body) = inl refl
Answered-cases req sent after r (started c) = inl refl
Answered-cases req sent after r (ended c) = inr (inl refl)

module _ (T : DebugTarget) (client : Client)
    (delivers : (log : List Message) (m : Message) → client.deliver log m ≡ ok tt) where
  -- The transcript of a run.
  abbrev Recorded : List (Result ListenerError DebugEvent) → Debugger T.State → Type 0
  Recorded messages d =
      Transcript d.sent messages (run T client messages d).0 (run T client messages d).1.sent

  turn-goes_on :
      (e : DebugEvent) (d : Debugger T.State)
      → (handle T client e d).0 ≡ ok tt
      → (turn T client (ok e) d).0 ≡ none
  unfolding turn
  turn-goes_on e d h = rw h refl

  turn-after :
      (e : DebugEvent) (d : Debugger T.State) → (turn T client (ok e) d).1 ≡ (handle T client e d).1
  unfolding turn
  turn-after e d = refl

  request-Recorded :
      (req : DapRequest) (messages : List (Result ListenerError DebugEvent)) (d : Debugger T.State)
      → Recorded messages (handle T client (dap_request req) d).1
      → Recorded (ok (dap_request req) ∷ messages) d
  unfolding turn
  request-Recorded req messages d rest =
      let (r, d') = handle T client (dap_request req) d in
      let a = handle-Answered T client delivers req d in
      elim (Answered-cases req d.sent d'.sent r a) [
        | inl on ↦
            rw
              (run-goes_on T client (ok (dap_request req)) messages d
                (turn-goes_on (dap_request req) d on))
              (answers (subst (λ x. Answered req d.sent x d'.sent) on a) rest)
        | inr (inl off) ↦
            rw
              (run-ends T client (ok (dap_request req)) messages d (ok tt)
                (ap (returned T client) off))
              (disconnects (subst (λ x. Answered req d.sent x d'.sent) off a))
        | inr (inr (stays, gone, same)) ↦
            rw
              (
                run-ends T client (ok (dap_request req)) messages d (err DebuggerError.session_lost)
                    (ap (returned T client) gone),
                same,
              )
              (loses req stays)
      ]

  event-Recorded :
      (e : Event) (messages : List (Result ListenerError DebugEvent)) (d : Debugger T.State)
      → Recorded messages (handle T client (msim_event e) d).1
      → Recorded (ok (msim_event e) ∷ messages) d
  unfolding turn
  event-Recorded e messages d rest =
      let (on, told) = handle-Reported T client delivers e d in
      rw (run-goes_on T client (ok (msim_event e)) messages d (turn-goes_on (msim_event e) d on))
        (reports told rest)

  pub run-Transcript :
      (messages : List (Result ListenerError DebugEvent)) (d : Debugger T.State)
      → Transcript d.sent messages (run T client messages d).0 (run T client messages d).1.sent
  unfolding run turn
  run-Transcript [] d = quiet
  run-Transcript (err e ∷ messages) d = failed e
  run-Transcript (ok (dap_request req) ∷ messages) d =
      request-Recorded req messages d
        (run-Transcript messages (handle T client (dap_request req) d).1)
  run-Transcript (ok (msim_event e) ∷ messages) d =
      event-Recorded e messages d (run-Transcript messages (handle T client (msim_event e) d).1)
