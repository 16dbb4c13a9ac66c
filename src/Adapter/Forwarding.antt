-- ===== src/Adapter/Forwarding.antt =====
-- What the thread of the DAP server forwards.
use mathlib.Core.List.{append_assoc, append-nil}
use msim_dap.Common.{
  ℕ, zero, suc, ◌<◌, ◌≡◌, refl, sym, ◌∙◌, arith, true, false, Option, none, some, List, [], ◌∷◌,
  ◌++◌, String, length, take,
}
use msim_dap.Common.Results.{Result, ok, err}
use msim_dap.Msim.Connection.{send_to}
use msim_dap.Debugger.{AdapterError, ListenerError}
use msim_dap.Debugger.Commands.{DapRequest}
use msim_dap.Debugger.EventLoop.{dap_request}
use msim_dap.Adapter.{Dap, DebugEventResult, DapListener, server_round, post_server_background}

-- How the requests of a client end: `poll_request` sees the end of the input, or fails.
pub data End : Type 0 where
  eof : End
  failed : String → End

abbrev last_poll : End → Result String (Option DapRequest)
last_poll eof = ok none
last_poll (failed e) = err e

-- What is forwarded of it all.
abbrev last_message : End → List DebugEventResult
last_message eof = []
last_message (failed e) = err (ListenerError.adapter (AdapterError.server e)) ∷ []

abbrev pub messages : List DapRequest → End → List DebugEventResult
messages [] end = last_message end
messages (req ∷ reqs) end = ok (dap_request req) ∷ messages reqs end

module _ (dap : Dap) where
  -- The input from which these requests are polled, in this order, and then the end.
  pub data IsPolled : dap.Input → List DapRequest → End → Type 0 where
    ends :
        {input rest : dap.Input} {end : End}
        → dap.poll_request input ≡ (last_poll end, rest)
        → IsPolled input [] end
    polls :
        {input rest : dap.Input} {end : End} {req : DapRequest} {reqs : List DapRequest}
        → dap.poll_request input ≡ (ok (some req), rest)
        → IsPolled rest reqs end
        → IsPolled input (req ∷ reqs) end

  server_round-ends :
      (fuel : ℕ) (l l' : DapListener dap)
      → server_round dap l ≡ (false, l')
      → post_server_background dap (suc fuel) l ≡ (true, l')
  unfolding post_server_background
  server_round-ends fuel l l' h = rw (h, post_server_background) refl

  server_round-goes_on :
      (fuel : ℕ) (l l' : DapListener dap)
      → server_round dap l ≡ (true, l')
      → post_server_background dap (suc fuel) l ≡ post_server_background dap fuel l'
  unfolding post_server_background
  server_round-goes_on fuel l l' h = rw (h, post_server_background) refl

  module _ (sent : List DebugEventResult) where
    abbrev listening : dap.Input → ℕ → DapListener dap
    listening input room = record { server = input; tx = record { sent = sent; room = room } }

    server_round-last :
        (end : End) (input rest : dap.Input) (room : ℕ)
        → dap.poll_request input ≡ (last_poll end, rest)
        → (l : DapListener dap) × (server_round dap (listening input room) ≡ (false, l))
          × (l.tx.sent ≡ sent ++ take room (last_message end))
    unfolding server_round send_to
    server_round-last eof input rest zero h = (listening rest 0, rw h refl, sym (append-nil sent))
    server_round-last eof input rest (suc room) h =
        (listening rest (suc room), rw h refl, sym (append-nil sent))
    server_round-last (failed e) input rest zero h =
        (listening rest 0, rw h refl, sym (append-nil sent))
    server_round-last (failed e) input rest (suc zero) h = (
      record { server = rest; tx = record { sent = sent ++ last_message (failed e); room = 0 } },
      rw h refl,
      refl,
    )
    server_round-last (failed e) input rest (suc (suc room)) h = (
      record {
        server = rest;
        tx = record { sent = sent ++ last_message (failed e); room = (suc room) };
      },
      rw h refl,
      refl,
    )

    server_round-dropped :
        (req : DapRequest) (input rest : dap.Input)
        → dap.poll_request input ≡ (ok (some req), rest)
        → server_round dap (listening input 0) ≡ (false, listening rest 0)
    unfolding server_round send_to
    server_round-dropped req input rest h = rw h refl

    server_round-request :
        (req : DapRequest) (input rest : dap.Input) (room : ℕ)
        → dap.poll_request input ≡ (ok (some req), rest)
        → server_round dap (listening input (suc room)) ≡ (
          true,
          record {
            server = rest;
            tx = record { sent = sent ++ (ok (dap_request req) ∷ []); room = room };
          },
        )
    unfolding server_round send_to
    server_round-request req input rest room h = rw h refl

  -- Where the client sends some requests and then its input ends or the server fails: the loop ends
  -- after at most one round more than there are requests, and has forwarded the requests in order and
  -- the failure, if there is one, after them, all of it or, if the receiver is dropped earlier, as many
  -- messages as it took.
  pub post_server_background_lem :
      (reqs : List DapRequest) (end : End) (input : dap.Input) (sent : List DebugEventResult)
      (room fuel : ℕ)
      → IsPolled input reqs end
      → length reqs < fuel
      → (l : DapListener dap) × (post_server_background dap fuel
            (record { server = input; tx = record { sent = sent; room = room } })
          ≡ (true, l))
        × (l.tx.sent ≡ sent ++ take room (messages reqs end))
  post_server_background_lem reqs end input sent room zero h enough = absurd (omega arith)
  post_server_background_lem [] end input sent room (suc fuel) (ends polled) enough =
      let (l, ended, all) = server_round-last sent end input _ room polled in
      (l, server_round-ends fuel _ l ended, all)
  post_server_background_lem (req ∷ reqs) end input sent zero (suc fuel) (polls polled later)
        enough =
      (
        _,
        server_round-ends fuel _ _ (server_round-dropped sent req input _ polled),
        sym (append-nil sent),
      )
  post_server_background_lem (req ∷ reqs) end input sent (suc room) (suc fuel) (polls polled later)
        enough =
      let one = ok (dap_request req) ∷ [] in
      let (l, ended, all) =
        post_server_background_lem reqs end _ (sent ++ one) room fuel later (omega arith) in
      (
        l,
        server_round-goes_on fuel _ _ (server_round-request sent req input _ room polled) ∙ ended,
        all ∙ append_assoc sent one (take room (messages reqs end)),
      )
