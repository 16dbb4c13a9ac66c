-- ===== src/App/Threads/Handled.antt =====
-- The debugger of a reachable state against `run` on what it has received.
use mathlib.Core.List.{append_assoc, append-nil}
use msim_dap.Common.{
  arith, subst, ℕ, ◌≡◌, refl, sym, ap, ◌∙◌, Option, none, some, List, [], ◌∷◌, ◌++◌,
}
use msim_dap.Common.Results.{Result, ok}
use msim_dap.Msim.Connection.{Listener}
use msim_dap.Target.Interface.{DebugTarget}
use msim_dap.Debugger.{DebuggerError}
use msim_dap.Debugger.Protocol.{Client, Debugger, Message}
use msim_dap.Debugger.EventLoop.{turn, run}
use msim_dap.Debugger.EventLoop.Transcript.{Transcript, run-Transcript}
use msim_dap.Debugger.EventLoop.Turns.{run-goes_on, run-ends}
use msim_dap.Adapter.{Dap, DebugEventResult, DapListener}
use msim_dap.App.Threads.{
  System, start, Step, dap_round, msim_round, turns, hangs_up, Reach, here, later,
}

module _ (T : DebugTarget) (client : Client) where
  abbrev Out : Type 0
  Out = Option (Result DebuggerError (Unit {0}))

  -- The turns on some messages led to a debugger, and to a result if the loop has ended.
  pub data Turned (d : Debugger T.State)
      : List DebugEventResult → Out → Debugger T.State → Type 0 where
    none_taken : Turned d [] none d
    one_more :
        {ms : List DebugEventResult} {d' : Debugger T.State} (m : DebugEventResult)
        → Turned d ms none d'
        → Turned d (ms ++ (m ∷ [])) (turn T client m d').0 (turn T client m d').1

  -- While the loop goes on, the messages taken are the first part of any run that starts with them.
  Turned-goes_on :
      {d d' : Debugger T.State} {ms : List DebugEventResult} {out : Out}
      (rest : List DebugEventResult)
      → Turned d ms out d'
      → out ≡ none
      → run T client (ms ++ rest) d ≡ run T client rest d'
  Turned-goes_on rest none_taken e = refl
  Turned-goes_on {d} rest (one_more {ms} {d'} m h) e =
      ap (λ l. run T client l d) (append_assoc ms (m ∷ []) rest)
      ∙ Turned-goes_on (m ∷ rest) h refl
      ∙ run-goes_on T client m rest d' e

  Turned-ends :
      {d d' : Debugger T.State} {ms : List DebugEventResult} {out : Out}
      (r : Result DebuggerError (Unit {0}))
      → Turned d ms out d'
      → out ≡ some r
      → run T client ms d ≡ (r, d')
  Turned-ends r none_taken e = absurd (ground (arith, e))
  Turned-ends {d} r (one_more {ms} {d'} m h) e =
      Turned-goes_on (m ∷ []) h refl ∙ run-ends T client m [] d' r e

  -- What `run` returns: `Ok` while it has not, in the event that nothing more comes.
  abbrev pub outcome : Out → Result DebuggerError (Unit {0})
  outcome none = ok tt
  outcome (some r) = r

  Turned-run :
      {d d' : Debugger T.State} {ms : List DebugEventResult} (out : Out)
      → Turned d ms out d'
      → run T client ms d ≡ (outcome out, d')
  unfolding run
  Turned-run {d} {d'} {ms} none h =
      ap (λ l. run T client l d) (sym (append-nil ms)) ∙ Turned-goes_on [] h refl
  Turned-run (some r) h = Turned-ends r h refl

  module _ (dap : Dap) (d : Debugger T.State) where
    -- The loop has taken turns only, or hung up after them.
    data IsHandled (s : System dap T client) : Type 0 where
      turned : Turned d s.received s.finished s.debugger → IsHandled s
      hung_up : s.finished ≡ some (ok tt) → Turned d s.received none s.debugger → IsHandled s

    Step-IsHandled : {s t : System dap T client} → Step dap T client s t → IsHandled s → IsHandled t
    Step-IsHandled (dap_round alive) (turned h) = turned h
    Step-IsHandled (dap_round alive) (hung_up e h) = hung_up e h
    Step-IsHandled (msim_round alive) (turned h) = turned h
    Step-IsHandled (msim_round alive) (hung_up e h) = hung_up e h
    Step-IsHandled (turns m rest going q) (hung_up e h) = absurd (ground (arith, going, e))
    Step-IsHandled {s} (turns m rest going q) (turned h) =
        turned (one_more m (subst (λ out. Turned d s.received out s.debugger) going h))
    Step-IsHandled (hangs_up going q da ma) (hung_up e h) = absurd (ground (arith, going, e))
    Step-IsHandled {s} (hangs_up going q da ma) (turned h) =
        hung_up refl (subst (λ out. Turned d s.received out s.debugger) going h)

    Reach-IsHandled :
        (l : DapListener dap) (m : Listener) {n : ℕ} {s : System dap T client}
        → Reach dap T client (start dap T client l m d) n s
        → IsHandled s
    Reach-IsHandled l m here = turned none_taken
    Reach-IsHandled l m (later r st) = Step-IsHandled st (Reach-IsHandled l m r)

    IsHandled-run :
        (s : System dap T client)
        → IsHandled s
        → run T client s.received d ≡ (outcome s.finished, s.debugger)
    IsHandled-run s (turned h) = Turned-run s.finished h
    IsHandled-run s (hung_up e h) = rw e (Turned-run none h)

    -- Whatever the order in which the threads take turns: the debugger is in the state in which `run`
    -- leaves it on the messages received so far, and if it has finished, it has with what `run` returns
    -- on them.
    pub Reach-run :
        (l : DapListener dap) (m : Listener) {n : ℕ} {s : System dap T client}
        → Reach dap T client (start dap T client l m d) n s
        → run T client s.received d ≡ (outcome s.finished, s.debugger)
    Reach-run l m {n} {s} r = IsHandled-run s (Reach-IsHandled l m r)

    -- If the client takes every message, then whatever the order in which the threads take turns: what
    -- the client was sent is the transcript of the messages received so far, each event reported and each
    -- request answered, once and in their order, up to the end of the run if there is one.
    pub Reach-Transcript :
        (delivers : (log : List Message) (m : Message) → client.deliver log m ≡ ok tt)
        (l : DapListener dap) (m : Listener) {n : ℕ} {s : System dap T client}
        → Reach dap T client (start dap T client l m d) n s
        → Transcript d.sent s.received (outcome s.finished) s.debugger.sent
    Reach-Transcript delivers l m {n} {s} r =
        let e = Reach-run l m r in
        subst (λ p. Transcript d.sent s.received p.0 p.1.sent) e
          (run-Transcript T client delivers s.received d)
