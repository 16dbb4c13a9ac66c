-- ===== src/App/Threads/Ending.antt =====
-- No order of the threads' turns goes on for ever, and none gets stuck.
use msim_dap.Common.{
  ℕ, suc, ◌+◌, ◌*◌, ◌≤◌, ◌<◌, ◌≡◌, refl, sym, subst, arith, Bool, true, false, Option, none, some,
  List, [], ◌∷◌, ◌⊎◌, inl, inr, length, length-append, map, if◌then◌else◌, Bool-cases, Option-cases,
}
use msim_dap.Common.Results.{Result, ok}
use msim_dap.Msim.Connection.{Listener, round}
use msim_dap.Msim.Connection.Progress.{round-shrinks}
use msim_dap.Target.Interface.{DebugTarget}
use msim_dap.Debugger.{DebuggerError}
use msim_dap.Debugger.Commands.{DapRequest}
use msim_dap.Debugger.EventLoop.{turn}
use msim_dap.Debugger.Protocol.{Client, Debugger}
use msim_dap.Adapter.{Dap, DebugEventResult, DapListener, server_round}
use msim_dap.Adapter.Forwarding.{End, eof, failed, IsPolled, ends, polls}
use msim_dap.App.Threads.{
  wrap, since, System, start, Step, dap_round, msim_round, turns, hangs_up, Reach, here, later,
}
use msim_dap.App.Threads.Order.{length-since, round-Sends, server_round-Sends}

-- The rounds that the thread of MSIM may have left.
abbrev msim_left : Bool → Listener → ℕ
msim_left alive l = if alive then suc (length l.msim_stream.input) else 0

abbrev open_end : Option (Result DebuggerError (Unit {0})) → ℕ
open_end none = 1
open_end (some r) = 0

msim_left-round : (l : Listener) → msim_left (round l).0 (round l).1 ≤ length l.msim_stream.input
msim_left-round l = elim (Bool-cases (round l).0) [
  | inl on ↦ rw on (round-shrinks l on)
  | inr off ↦ rw off (omega arith)
]

msim_left-alive :
    (alive : Bool) (l : Listener)
    → alive ≡ true
    → msim_left alive l ≡ suc (length l.msim_stream.input)
msim_left-alive alive l h = rw h refl

open_end-le : (out : Option (Result DebuggerError (Unit {0}))) → open_end out ≤ 1
open_end-le none = omega arith
open_end-le (some r) = omega arith

open_end-none : (out : Option (Result DebuggerError (Unit {0}))) → out ≡ none → open_end out ≡ 1
open_end-none out h = rw h refl

length-cons :
    {A : Type 0} (xs : List A) (x : A) (rest : List A)
    → xs ≡ x ∷ rest
    → length xs ≡ suc (length rest)
length-cons xs x rest h = rw h refl

length-map : {A B : Type 0} (f : A → B) (xs : List A) → length (map f xs) ≡ length xs
length-map f [] = refl
length-map f (x ∷ xs) = omega (arith, length-map f xs)

module _ (dap : Dap) where
  -- The rounds that the thread of the DAP server has left.
  data DapLeft (alive : Bool) (input : dap.Input) : ℕ → Type 0 where
    dead : alive ≡ false → DapLeft alive input 0
    alive :
        {reqs : List DapRequest} {end : End}
        → IsPolled dap input reqs end
        → DapLeft alive input (suc (length reqs))

  server_round-ends :
      (l : DapListener dap) (end : End)
      → IsPolled dap l.server [] end
      → (server_round dap l).0 ≡ false
  unfolding server_round
  server_round-ends l eof (ends h) = rw h refl
  server_round-ends l (failed e) (ends h) = rw h refl

  server_round-server :
      (l : DapListener dap) (req : DapRequest) (rest : dap.Input)
      → dap.poll_request l.server ≡ (ok (some req), rest)
      → (server_round dap l).1.server ≡ rest
  unfolding server_round
  server_round-server l req rest h = rw h refl

  server_round-DapLeft :
      (l : DapListener dap) {k : ℕ}
      → DapLeft true l.server k
      → (j : ℕ) × DapLeft (server_round dap l).0 (server_round dap l).1.server j × (j < k)
  server_round-DapLeft l (dead h) = absurd (ground (arith, h))
  server_round-DapLeft l (alive {end} (ends h)) =
      (0, dead (server_round-ends l end (ends h)), omega arith)
  server_round-DapLeft l (alive {end} (polls {rest} {req} {reqs} h more)) = (
    suc (length reqs),
    subst (λ input. DapLeft (server_round dap l).0 input (suc (length reqs)))
        (sym (server_round-server l req rest h)) (alive more),
    omega arith,
  )

  module _ (T : DebugTarget) (client : Client) where
    -- What bounds the steps to come: the rounds of the threads, each with a message that it may send,
    -- the queue, and the end of `run`.
    record Left (s : System dap T client) (n : ℕ) : Type 0 where
      dap_left : ℕ
      has : DapLeft s.dap_alive s.dap_listener.server dap_left
      total :
          2 * dap_left
            + 2 * msim_left s.msim_alive s.msim_listener
            + (length s.queue + open_end s.finished)
          ≡ n

    Step-Left :
        {s t : System dap T client} {n : ℕ}
        → Step dap T client s t
        → Left s n
        → (m : ℕ) × Left t m × (m < n)
    Step-Left {s} (dap_round on) h =
        let (_, l) = server_round dap s.dap_listener in
        let new = since s.dap_listener.tx l.tx in
        let (j, left, less) =
          server_round-DapLeft s.dap_listener
            (subst (λ b. DapLeft b s.dap_listener.server h.dap_left) on h.has) in
        (
          _,
          record { dap_left = j; has = left; total = refl },
          omega (
            arith,
            h.total,
            less,
            length-append s.queue new,
            length-since s.dap_listener.tx l.tx (server_round-Sends dap s.dap_listener),
          ),
        )
    Step-Left {s} (msim_round on) h =
        let (_, l) = round s.msim_listener in
        let new = since s.msim_listener.event_tx l.event_tx in
        (
          _,
          record { dap_left = h.dap_left; has = h.has; total = refl },
          omega (
            arith,
            h.total,
            msim_left-round s.msim_listener,
            msim_left-alive s.msim_alive s.msim_listener on,
            length-append s.queue (map wrap new),
            length-map wrap new,
            length-since s.msim_listener.event_tx l.event_tx (round-Sends s.msim_listener),
          ),
        )
    Step-Left {s} (turns message rest going q) h = (
      _,
      record { dap_left = h.dap_left; has = h.has; total = refl },
      omega (
        arith,
        h.total,
        open_end-le (turn T client message s.debugger).0,
        open_end-none s.finished going,
        length-cons s.queue message rest q,
      ),
    )
    Step-Left {s} (hangs_up going q da ma) h = (
      _,
      record { dap_left = h.dap_left; has = h.has; total = refl },
      omega (arith, h.total, open_end-none s.finished going),
    )

    Reach-Left :
        {s : System dap T client} {k n : ℕ} {t : System dap T client}
        → Reach dap T client s n t
        → Left s k
        → (j : ℕ) × Left t j × (n + j ≤ k)
    Reach-Left {k} here h = (k, h, omega arith)
    Reach-Left (later r st) h =
        let (i, left, bound) = Reach-Left r h in
        let (j, left', less) = Step-Left st left in (j, left', omega arith)

    -- The state either has a result or a turn to come.
    abbrev pub Goes : System dap T client → Type 0
    Goes s =
        ((r : Result DebuggerError (Unit {0})) × (s.finished ≡ some r))
        ⊎ ((t : System dap T client) × Step dap T client s t)

    receives :
        (s : System dap T client) (queue : List DebugEventResult)
        → s.finished ≡ none
        → s.dap_alive ≡ false
        → s.msim_alive ≡ false
        → s.queue ≡ queue
        → (t : System dap T client) × Step dap T client s t
    receives s [] going da ma q = (_, hangs_up going q da ma)
    receives s (message ∷ rest) going da ma q = (_, turns message rest going q)

    progress : (s : System dap T client) → Goes s
    progress s = elim (Option-cases s.finished) [
      | inr done ↦ inl done
      | inl going ↦ elim (Bool-cases s.dap_alive) [
        | inl on ↦ inr (_, dap_round on)
        | inr da ↦ elim (Bool-cases s.msim_alive) [
          | inl on ↦ inr (_, msim_round on)
          | inr ma ↦ inr (receives s s.queue going da ma refl)
        ]
      ]
    ]

    -- If the requests of the client come to an end, and the stream of MSIM: whatever the order in which
    -- the threads take turns, they have taken at most two turns for each request and each byte, and five;
    -- and as long as `run` of the debugger has not returned there is a turn to take.
    pub Reach-ends :
        (l : DapListener dap) (m : Listener) (d : Debugger T.State) (reqs : List DapRequest)
        (end : End) (n : ℕ) (s : System dap T client)
        → IsPolled dap l.server reqs end
        → Reach dap T client (start dap T client l m d) n s
        → (n ≤ 2 * length reqs + 2 * length m.msim_stream.input + 5) × Goes s
    Reach-ends l m d reqs end n s polled r =
        let (j, left, bound) =
          Reach-Left r
            (record { dap_left = suc (length reqs); has = alive polled; total = refl }) in
        (omega arith, progress s)
