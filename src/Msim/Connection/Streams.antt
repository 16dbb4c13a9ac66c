-- ===== src/Msim/Connection/Streams.antt =====
-- The messages of MSIM on a stream, and what the listener is to make of them.
use msim_dap.Common.{ℕ, ◌≡◌, List, [], ◌∷◌, ◌++◌}
use msim_dap.Common.Results.{Result, ok, err}
use msim_dap.Msim.Frame.{Inbound, response, event, IoError, FrameError}
use msim_dap.Msim.Frame.Replies.{inbound_bytes, IsInbound}
use msim_dap.Msim.Messages.{MsimError, Event, RawResponse, from_raw}
use msim_dap.Msim.Connection.{Channel, Listener}

-- The bytes of messages, one after the other.
abbrev pub stream_of : List Inbound → List ℕ → List ℕ
stream_of [] cut = cut
stream_of (i ∷ is) cut = inbound_bytes i ++ stream_of is cut

-- The responses among messages, and the events.
abbrev pub responses : List Inbound → List RawResponse
responses [] = []
responses (response status a b c ∷ is) =
    record { status = status; arg0 = a; arg1 = b; arg2 = c } ∷ responses is
responses (event kind a b c ∷ is) = responses is

-- Messages that MSIM means: arguments of 64 bits, and events that can be interpreted.
abbrev pub IsMeant : Inbound → Type 0
IsMeant (response status a b c) = IsInbound (response status a b c)
IsMeant (event kind a b c) =
    IsInbound (event kind a b c) × ((e : Event) × (from_raw kind a b c ≡ ok e))

abbrev pub interpreted :
    Result FrameError Event → List (Result MsimError Event) → List (Result MsimError Event)
interpreted (ok e) es = ok e ∷ es
interpreted (err e) es = es

abbrev pub events : List Inbound → List (Result MsimError Event)
events [] = []
events (response status a b c ∷ is) = events is
events (event kind a b c ∷ is) = interpreted (from_raw kind a b c) (events is)

abbrev pub listener :
    List ℕ → IoError → Channel RawResponse → Channel (Result MsimError Event) → Listener
listener input fault resp ev = record {
  msim_stream = record { input = input; fault = fault };
  resp_tx = resp;
  event_tx = ev;
}
