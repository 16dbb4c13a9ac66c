-- ===== src/App/Threads.antt =====
-- The three threads of a run as interleaved steps: the one that reads DAP requests, the one that reads
-- from MSIM, and the debugger, which takes what both send on one channel. A step is one round of a
-- loop. A round is one step although the other threads run during it, since what they send meanwhile
-- only waits at the end of the queue.
pub mod Order
pub mod Handled
pub mod Ending
use msim_dap.Common.{
  ℕ, suc, ◌≡◌, Bool, true, false, Option, none, some, List, [], ◌∷◌, ◌++◌, length, drop, map,
}
use msim_dap.Common.Results.{Result, ok, err}
use msim_dap.Msim.Messages.{MsimError, Event}
use msim_dap.Msim.Connection.{Channel, Listener, round}
use msim_dap.Target.Interface.{DebugTarget}
use msim_dap.Debugger.{DebuggerError, ListenerError}
use msim_dap.Debugger.Protocol.{Client, Debugger}
use msim_dap.Debugger.EventLoop.{msim_event, turn}
use msim_dap.Adapter.{Dap, DebugEventResult, DapListener, server_round}

-- What the thread of MSIM sends, as the debugger gets it.
abbrev pub wrap : Result MsimError Event → DebugEventResult
wrap (ok e) = ok (msim_event e)
wrap (err e) = err (ListenerError.msim e)

-- What was sent on a channel since it was as before.
abbrev pub since : {A : Type 0} → Channel A → Channel A → List A
since before after = drop (length before.sent) after.sent

module _ (dap : Dap) (T : DebugTarget) (client : Client) where
  -- `queue` is what is on the event channel, the oldest first. `received` records what the debugger has
  -- taken, and `finished` what its `run` has returned.
  pub record System : Type 0 where
    pub dap_listener : DapListener dap
    pub dap_alive : Bool
    pub msim_listener : Listener
    pub msim_alive : Bool
    pub queue : List DebugEventResult
    pub received : List DebugEventResult
    pub debugger : Debugger T.State
    pub finished : Option (Result DebuggerError (Unit {0}))

  -- `run` once both threads are started.
  abbrev pub start : DapListener dap → Listener → Debugger T.State → System
  start dap_listener msim_listener debugger = record {
    dap_listener = dap_listener;
    dap_alive = true;
    msim_listener = msim_listener;
    msim_alive = true;
    queue = [];
    received = [];
    debugger = debugger;
    finished = none;
  }

  abbrev pub after_dap_round : System → System
  after_dap_round s =
      let (goes_on, l) = server_round dap s.dap_listener in
      record s {
        dap_listener = l;
        dap_alive = goes_on;
        queue = s.queue ++ since s.dap_listener.tx l.tx;
      }

  abbrev pub after_msim_round : System → System
  after_msim_round s =
      let (goes_on, l) = round s.msim_listener in
      record s {
        msim_listener = l;
        msim_alive = goes_on;
        queue = s.queue ++ map wrap (since s.msim_listener.event_tx l.event_tx);
      }

  abbrev pub after_turn : DebugEventResult → List DebugEventResult → System → System
  after_turn message rest s =
      let (out, d) = turn T client message s.debugger in
      record s {
        queue = rest;
        received = s.received ++ (message ∷ []);
        debugger = d;
        finished = out;
      }

  pub data Step (s : System) : System → Type 0 where
    dap_round : s.dap_alive ≡ true → Step s (after_dap_round s)
    msim_round : s.msim_alive ≡ true → Step s (after_msim_round s)
    turns :
        (message : DebugEventResult) (rest : List DebugEventResult)
        → s.finished ≡ none
        → s.queue ≡ message ∷ rest
        → Step s (after_turn message rest s)
    -- `recv` fails: nothing is left, and both senders are gone.
    hangs_up :
        s.finished ≡ none
        → s.queue ≡ []
        → s.dap_alive ≡ false
        → s.msim_alive ≡ false
        → Step s (record s { finished = some (ok tt) })

  -- After a number of steps.
  pub data Reach (s : System) : ℕ → System → Type 0 where
    here : Reach s 0 s
    later : {n : ℕ} {t u : System} → Reach s n t → Step t u → Reach s (suc n) u
