-- ===== src/Msim/Connection/Dispatch.antt =====
-- The listener on a stream that ends, inside a frame or between two.
use mathlib.Core.List.{append-nil}
use msim_dap.Common.{
  ℕ, suc, ◌≤◌, ◌<◌, ◌≡◌, refl, sym, true, false, List, [], ◌∷◌, ◌++◌, length, All,
}
use msim_dap.Common.Results.{Result, err}
use msim_dap.Msim.Frame.{inbound_frame_size, Inbound, IoError, unexpected_eof, other, io}
use msim_dap.Msim.Frame.Replies.{read_cut}
use msim_dap.Msim.Messages.{MsimError, Event, RawResponse, from_frame}
use msim_dap.Msim.Connection.{Channel, Listener, send_to, round, post_msim_background}
use msim_dap.Msim.Connection.Streams.{stream_of, responses, events, listener, IsMeant}
use msim_dap.Msim.Connection.Rounds.{post_msim_background-dispatch}

-- What the end of the stream adds to the events: nothing if the connection was closed.
abbrev pub last_event : IoError → List (Result MsimError Event)
last_event unexpected_eof = []
last_event other = err (from_frame (io other)) ∷ []

module _ (cut : List ℕ) (short : length cut < inbound_frame_size) where
  round-end :
      (fault : IoError) (resp : Channel RawResponse) (sent_e : List (Result MsimError Event))
      (room : ℕ)
      → (l : Listener) × (round
            (listener cut fault resp (record { sent = sent_e; room = suc room }))
          ≡ (false, l))
        × (l.resp_tx.sent ≡ resp.sent)
        × (l.event_tx.sent ≡ sent_e ++ last_event fault)
        × (l.msim_stream.input ≡ [])
  unfolding round send_to
  round-end unexpected_eof resp sent_e room = (
    listener [] unexpected_eof resp (record { sent = sent_e; room = suc room }),
    rw (read_cut cut unexpected_eof short) refl,
    refl,
    sym (append-nil sent_e),
    refl,
  )
  round-end other resp sent_e room = (
    listener [] other resp
        (record { sent = sent_e ++ (err (from_frame (io other)) ∷ []); room = room }),
    rw (read_cut cut other short) refl,
    refl,
    refl,
    refl,
  )

-- Where MSIM sends messages that can be interpreted and then the stream ends inside a frame or between
-- two, while both receivers take what comes: the listener ends, and has handed over all responses in
-- order, and all events in order, the failure of the stream after them unless it was just closed.
pub post_msim_background_lem :
    (is : List Inbound) (cut : List ℕ) (fault : IoError) (room_r room_e : ℕ)
    → length cut < inbound_frame_size
    → All IsMeant is
    → length is ≤ room_r
    → length is ≤ room_e
    → (l : Listener) × (post_msim_background (
          listener
            (stream_of is cut)
            fault
            (record { sent = []; room = room_r })
            (record { sent = []; room = suc room_e }))
        ≡ (true, l))
      × (l.resp_tx.sent ≡ responses is)
      × (l.event_tx.sent ≡ events is ++ last_event fault)
post_msim_background_lem is cut fault room_r room_e short meant rr re =
    let (l, ended, rs, es, _) =
      post_msim_background-dispatch cut [] fault (last_event fault) (round-end cut short fault) is
        room_r room_e meant rr re in
    (l, ended, rs, es)
