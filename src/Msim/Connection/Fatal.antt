-- ===== src/Msim/Connection/Fatal.antt =====
-- The listener on a frame that it cannot interpret.
use msim_dap.Common.{
  ℕ, suc, ◌≤◌, ◌≡◌, refl, Bool, true, false, ◌==◌, ◌&&◌, nat_eq, if◌then◌else◌, leb, List, [], ◌∷◌,
  ◌++◌, length, All, arith, ◌⊎◌, inl, inr,
}
use msim_dap.Common.Int.{IsU64}
use msim_dap.Common.Results.{Result, ok, err}
use msim_dap.Msim.Frame.{EventKind, Inbound, event, IoError, parsing}
use msim_dap.Msim.Frame.Codec.{inbound, read_status, read_event_kind, read_reason}
use msim_dap.Msim.Frame.Replies.{inbound_layout, read_layout}
use msim_dap.Msim.Messages.{MsimError, parse_error, Event, from_frame, from_raw}
use msim_dap.Msim.Connection.{Channel, Listener, send_to, arm, round, post_msim_background}
use msim_dap.Msim.Connection.Streams.{stream_of, responses, events, listener, IsMeant}
use msim_dap.Msim.Connection.Rounds.{IsEnd, post_msim_background-dispatch}

-- What there is in the protocol: a response with one of three statuses, the event that MSIM has
-- terminated, and the event of a stop for one of four reasons, its third argument.
abbrev pub is_known : ℕ → ℕ → ℕ → Bool
is_known category kind arg2 =
    if category == 1
    then leb 1 kind && leb kind 3
    else if category == 2
    then if kind == 2 then leb 1 arg2 && leb arg2 4 else kind == 1
    else false

module _ (category kind arg0 arg1 arg2 : ℕ) (unknown : is_known category kind arg2 ≡ false) where
  -- Such a frame is not decoded, or it is a stop whose reason is not.
  inbound-unknown :
      (inbound category kind arg0 arg1 arg2 ≡ err parsing)
      ⊎ ((inbound category kind arg0 arg1 arg2 ≡ ok (event EventKind.stopped_at arg0 arg1 arg2))
          × (from_raw EventKind.stopped_at arg0 arg1 arg2 ≡ err parsing))
  unfolding inbound read_status read_event_kind from_raw read_reason
  inbound-unknown = ground arith

  arm-unknown :
      (l : Listener) (sent_e : List (Result MsimError Event)) (room : ℕ)
      → l.event_tx ≡ record { sent = sent_e; room = suc room }
      → arm (inbound category kind arg0 arg1 arg2) l ≡ (
        false,
        record l { event_tx = record { sent = sent_e ++ (err parse_error ∷ []); room = room } },
      )
  unfolding send_to from_frame
  arm-unknown l sent_e room h = elim inbound-unknown [
    | inl e ↦ rw (e, h) refl
    | inr (e, r) ↦ rw (e, r, h) refl
  ]

  module _ (rest : List ℕ) (fault : IoError) (h0 : IsU64 arg0) (h1 : IsU64 arg1)
      (h2 : IsU64 arg2) where
    round-unknown :
        IsEnd
          (inbound_layout category kind arg0 arg1 arg2 ++ rest)
          rest
          fault
          (err parse_error ∷ [])
    unfolding round
    round-unknown resp sent_e room =
        let ev : Channel (Result MsimError Event) = record { sent = sent_e; room = suc room } in
        (
          listener rest fault resp
              (record { sent = sent_e ++ (err parse_error ∷ []); room = room }),
          rw (read_layout fault category kind arg0 arg1 arg2 rest h0 h1 h2)
              (arm-unknown (listener rest fault resp ev) sent_e room refl),
          refl,
          refl,
          refl,
        )

-- Where MSIM sends messages that can be interpreted and then a frame that the protocol does not have,
-- while both receivers take what comes: the listener ends, has handed over all responses and all events
-- in order and a parsing error after the events, and reads nothing of what follows that frame.
pub post_msim_background-fatal :
    (is : List Inbound) (category kind arg0 arg1 arg2 : ℕ) (rest : List ℕ) (fault : IoError)
    (room_r room_e : ℕ)
    → is_known category kind arg2 ≡ false
    → IsU64 arg0 × IsU64 arg1 × IsU64 arg2
    → All IsMeant is
    → length is ≤ room_r
    → length is ≤ room_e
    → (l : Listener) × (post_msim_background (
          listener
            (stream_of is (inbound_layout category kind arg0 arg1 arg2 ++ rest))
            fault
            (record { sent = []; room = room_r })
            (record { sent = []; room = suc room_e }))
        ≡ (true, l))
      × (l.resp_tx.sent ≡ responses is)
      × (l.event_tx.sent ≡ events is ++ (err parse_error ∷ []))
      × (l.msim_stream.input ≡ rest)
post_msim_background-fatal is category kind arg0 arg1 arg2 rest fault room_r room_e unknown
      (h0, h1, h2) meant rr re =
    post_msim_background-dispatch (inbound_layout category kind arg0 arg1 arg2 ++ rest) rest fault
      (err parse_error ∷ [])
      (round-unknown category kind arg0 arg1 arg2 unknown rest fault h0 h1 h2) is room_r room_e
      meant rr re
