-- ===== src/Msim/Connection/Rounds.antt =====
-- The listener on a stream of messages, whatever ends it.
use mathlib.Core.List.{append_assoc, append-nil}
use msim_dap.Common.{
  ℕ, zero, suc, ◌≤◌, ◌<◌, ◌≡◌, refl, sym, ap, ◌∙◌, arith, true, false, List, [], ◌∷◌, ◌++◌, length,
  All, length-append,
}
use msim_dap.Common.Bytes.{be_bytes}
use msim_dap.Common.Results.{Result, ok}
use msim_dap.Msim.Frame.{ResponseStatus, EventKind, Inbound, response, event, IoError}
use msim_dap.Msim.Frame.Replies.{inbound_bytes, IsInbound, read_round_trip}
use msim_dap.Msim.Messages.{MsimError, Event, RawResponse, from_raw}
use msim_dap.Msim.Connection.{Channel, Listener, send_to, round, rounds, post_msim_background}
use msim_dap.Msim.Connection.Streams.{stream_of, responses, interpreted, events, listener, IsMeant}

module _ (fault : IoError) (sent_r : List RawResponse)
    (sent_e : List (Result MsimError Event)) where
  round-response :
      (status : ResponseStatus) (a b c room : ℕ) (rest : List ℕ)
      (ev : Channel (Result MsimError Event))
      → IsInbound (response status a b c)
      → round (
          listener
            (inbound_bytes (response status a b c) ++ rest)
            fault
            (record { sent = sent_r; room = suc room })
            ev)
        ≡ (
          true,
          listener rest fault
              (record {
                sent = sent_r ++ (record { status = status; arg0 = a; arg1 = b; arg2 = c } ∷ []);
                room = room;
              })
              ev,
        )
  unfolding round send_to
  round-response status a b c room rest ev h =
      rw (read_round_trip (response status a b c) rest fault h) refl

  round-event :
      (kind : EventKind) (a b c room : ℕ) (e : Event) (rest : List ℕ) (resp : Channel RawResponse)
      → IsInbound (event kind a b c)
      → from_raw kind a b c ≡ ok e
      → round (
          listener
            (inbound_bytes (event kind a b c) ++ rest)
            fault
            resp
            (record { sent = sent_e; room = suc room }))
        ≡ (true, listener rest fault resp (record { sent = sent_e ++ (ok e ∷ []); room = room }))
  unfolding round send_to
  round-event kind a b c room e rest resp h meant =
      rw (read_round_trip (event kind a b c) rest fault h, meant) refl

rounds-goes_on :
    (fuel : ℕ) (l l' : Listener) → round l ≡ (true, l') → rounds (suc fuel) l ≡ rounds fuel l'
unfolding rounds
rounds-goes_on fuel l l' h = rw (h, rounds) refl

rounds-ends :
    (fuel : ℕ) (l l' : Listener) → round l ≡ (false, l') → rounds (suc fuel) l ≡ (true, l')
unfolding rounds
rounds-ends fuel l l' h = rw (h, rounds) refl

inbound_bytes-some : (i : Inbound) (rest : List ℕ) → length rest < length (inbound_bytes i ++ rest)
unfolding inbound_bytes be_bytes
inbound_bytes-some (response status a b c) rest = omega (
  arith,
  length-append (be_bytes 8 a) ((be_bytes 8 b ++ be_bytes 8 c) ++ rest),
  length-append (be_bytes 8 b ++ be_bytes 8 c) rest,
)
inbound_bytes-some (event kind a b c) rest = omega (
  arith,
  length-append (be_bytes 8 a) ((be_bytes 8 b ++ be_bytes 8 c) ++ rest),
  length-append (be_bytes 8 b ++ be_bytes 8 c) rest,
)

-- A frame has a byte, so there are no more messages than bytes.
enough_fuel : (is : List Inbound) (cut : List ℕ) → length is < suc (length (stream_of is cut))
enough_fuel [] cut = omega arith
enough_fuel (i ∷ is) cut =
    omega (arith, enough_fuel is cut, inbound_bytes-some i (stream_of is cut))

-- How the listener ends on this stream: what is left of it, and what goes to the events.
abbrev pub IsEnd : List ℕ → List ℕ → IoError → List (Result MsimError Event) → Type 0
IsEnd tail left fault last =
    (resp : Channel RawResponse) (sent_e : List (Result MsimError Event)) (room : ℕ)
    → (l : Listener) × (round (listener tail fault resp (record { sent = sent_e; room = suc room }))
        ≡ (false, l))
      × (l.resp_tx.sent ≡ resp.sent)
      × (l.event_tx.sent ≡ sent_e ++ last)
      × (l.msim_stream.input ≡ left)

module _ (tail left : List ℕ) (fault : IoError) (last : List (Result MsimError Event))
    (ends : IsEnd tail left fault last) where
  rounds-dispatch :
      (fuel : ℕ) (is : List Inbound) (sent_r : List RawResponse)
      (sent_e : List (Result MsimError Event)) (room_r room_e : ℕ)
      → length is < fuel
      → All IsMeant is
      → length is ≤ room_r
      → length is ≤ room_e
      → (l : Listener) × (rounds fuel (
            listener
              (stream_of is tail)
              fault
              (record { sent = sent_r; room = room_r })
              (record { sent = sent_e; room = suc room_e }))
          ≡ (true, l))
        × (l.resp_tx.sent ≡ sent_r ++ responses is)
        × (l.event_tx.sent ≡ sent_e ++ (events is ++ last))
        × (l.msim_stream.input ≡ left)
  rounds-dispatch zero is sent_r sent_e room_r room_e enough meant rr re = absurd (omega arith)
  rounds-dispatch (suc fuel) [] sent_r sent_e room_r room_e enough meant rr re =
      let (l, ended, rs, es, ls) = ends (record { sent = sent_r; room = room_r }) sent_e room_e in
      (l, rounds-ends fuel _ l ended, rs ∙ sym (append-nil sent_r), es, ls)
  rounds-dispatch (suc fuel) (response status a b c ∷ is) sent_r sent_e zero room_e enough meant rr
        re =
      absurd (omega arith)
  rounds-dispatch (suc fuel) (response status a b c ∷ is) sent_r sent_e (suc room_r) room_e enough
        (m, meant) rr re =
      let one = record { status = status; arg0 = a; arg1 = b; arg2 = c } ∷ [] in
      let (l, ended, rs, es, ls) =
        rounds-dispatch fuel is (sent_r ++ one) sent_e room_r room_e (omega arith) meant
          (omega arith) (omega arith) in
      (
        l,
        rounds-goes_on fuel _ _ (
              round-response fault sent_r sent_e status a b c room_r (stream_of is tail)
                (record { sent = sent_e; room = suc room_e }) m)
            ∙ ended,
        rs ∙ append_assoc sent_r one (responses is),
        es,
        ls,
      )
  rounds-dispatch (suc fuel) (event kind a b c ∷ is) sent_r sent_e room_r zero enough meant rr re =
      absurd (omega arith)
  rounds-dispatch (suc fuel) (event kind a b c ∷ is) sent_r sent_e room_r (suc room_e) enough
        ((m, (e, ok_e)), meant) rr re =
      let (l, ended, rs, es, ls) =
        rounds-dispatch fuel is sent_r (sent_e ++ (ok e ∷ [])) room_r room_e (omega arith) meant
          (omega arith) (omega arith) in
      (
        l,
        rounds-goes_on fuel _ _ (
              round-event fault sent_r sent_e kind a b c (suc room_e) e (stream_of is tail)
                (record { sent = sent_r; room = room_r }) m ok_e)
            ∙ ended,
        rs,
        es
            ∙ append_assoc sent_e (ok e ∷ []) (events is ++ last)
            ∙ ap (λ x. sent_e ++ (interpreted x (events is) ++ last)) (sym ok_e),
        ls,
      )

  -- The same from the start, with the fuel of the program.
  pub post_msim_background-dispatch :
      (is : List Inbound) (room_r room_e : ℕ)
      → All IsMeant is
      → length is ≤ room_r
      → length is ≤ room_e
      → (l : Listener) × (post_msim_background (
            listener
              (stream_of is tail)
              fault
              (record { sent = []; room = room_r })
              (record { sent = []; room = suc room_e }))
          ≡ (true, l))
        × (l.resp_tx.sent ≡ responses is)
        × (l.event_tx.sent ≡ events is ++ last)
        × (l.msim_stream.input ≡ left)
  unfolding post_msim_background
  post_msim_background-dispatch is room_r room_e meant rr re =
      rounds-dispatch (suc (length (stream_of is tail))) is [] [] room_r room_e
        (enough_fuel is tail) meant rr re
