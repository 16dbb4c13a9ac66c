-- ===== src/Tests/Connection.antt =====
-- The listener of src/msim/connection.rs on two messages and the start of a third.
use msim_dap.Common.Results.{err}
use msim_dap.Common.{true, ◌≡◌, refl, List, [], ◌∷◌, ◌++◌, arith, All}
use msim_dap.Msim.Frame.{ResponseStatus, EventKind, Inbound, response, event, other}
use msim_dap.Msim.Messages.{Event, from_raw}
use msim_dap.Msim.Connection.{Listener, post_msim_background}
use msim_dap.Msim.Connection.Streams.{stream_of, responses, events, listener, IsMeant}
use msim_dap.Msim.Connection.Dispatch.{last_event, post_msim_background_lem}
use msim_dap.Msim.Frame.Replies.{inbound_layout}
use msim_dap.Msim.Messages.{parse_error}
use msim_dap.Msim.Connection.Fatal.{post_msim_background-fatal}

abbrev messages : List Inbound
messages = response ResponseStatus.ok 1 2 300 ∷ event EventKind.terminated 0 0 0 ∷ []

messages-IsMeant : All IsMeant messages
unfolding from_raw
messages-IsMeant = (omega arith, ((omega arith, (Event.terminated, refl)), tt))

post_msim_background_lem_example :
    (l : Listener) × (post_msim_background (
        listener
          (stream_of messages (1 ∷ 1 ∷ 0 ∷ []))
          other
          (record { sent = []; room = 5 })
          (record { sent = []; room = 6 }))
      ≡ (true, l))
    × (l.resp_tx.sent ≡ responses messages)
    × (l.event_tx.sent ≡ events messages ++ last_event other)
post_msim_background_lem_example =
    post_msim_background_lem messages (1 ∷ 1 ∷ 0 ∷ []) other 5 5 (omega arith) messages-IsMeant
      (omega arith) (omega arith)

-- A stop for a reason that there is not, and one byte more.
post_msim_background-fatal_example :
    (l : Listener) × (post_msim_background (
        listener
          (stream_of messages (inbound_layout 2 2 0 4096 5 ++ (1 ∷ [])))
          other
          (record { sent = []; room = 5 })
          (record { sent = []; room = 6 }))
      ≡ (true, l))
    × (l.resp_tx.sent ≡ responses messages)
    × (l.event_tx.sent ≡ events messages ++ (err parse_error ∷ []))
    × (l.msim_stream.input ≡ 1 ∷ [])
post_msim_background-fatal_example =
    post_msim_background-fatal messages 2 2 0 4096 5 (1 ∷ []) other 5 5 refl (omega arith)
      messages-IsMeant (omega arith) (omega arith)
