-- ===== src/Msim/Connection.antt =====
-- src/msim/connection.rs: the thread that reads what MSIM sends, and `TcpConnection::send`.
pub mod Streams
pub mod Rounds
pub mod Dispatch
pub mod Fatal
pub mod Progress
use msim_dap.Common.{
  if◌then◌else◌, ℕ, zero, suc, ◌-◌, ◌≡◌, Bool, true, false, Option, none, some, List, [], ◌∷◌, ◌++◌,
  length,
}
use msim_dap.Common.Results.{Result, ok, err, map_err, ok_or}
use msim_dap.Common.Exec.{Exec}
use msim_dap.Msim.Frame.{
  Request, Inbound, response, event, IoError, unexpected_eof, other, FrameError, io, parsing,
}
use msim_dap.Msim.Frame.Stream.{Reader, Writer}
use msim_dap.Msim.Frame.Codec.{read, write}
use msim_dap.Msim.Messages.{
  MsimError, unexpected_message, listener_died, Event, RawResponse, from_frame, from_raw,
}

-- An `mpsc` channel seen by its sender: what was sent, the oldest first, and how many more messages it
-- takes before the receiver is dropped and sending fails.
pub record Channel (A : Type 0) : Type 0 where
  pub sent : List A
  pub room : ℕ

-- The state of `post_msim_background`.
pub record Listener : Type 0 where
  pub msim_stream : Reader
  pub resp_tx : Channel RawResponse
  pub event_tx : Channel (Result MsimError Event)

-- `Sender::send`: whether it went well, and the channel.
unfoldable pub send_to : {A : Type 0} → A → Channel A → Bool × Channel A
send_to a c = elim c.room [
  | zero ↦ (false, c)
  | suc n ↦ (true, record { sent = c.sent ++ (a ∷ []); room = n })
]

abbrev send_response : RawResponse → Listener → Bool × Listener
send_response r l = let (alive, tx) = send_to r l.resp_tx in (alive, record l { resp_tx = tx })

abbrev send_event : Result MsimError Event → Listener → Bool × Listener
send_event e l = let (alive, tx) = send_to e l.event_tx in (alive, record l { event_tx = tx })

-- The arm for an event: an error from `from_raw` is fatal.
abbrev pub event_arm : Result FrameError Event → Listener → Bool × Listener
event_arm (ok e) l = send_event (ok e) l
event_arm (err e) l = let (_, l') = send_event (err (from_frame e)) l in (false, l')

-- The arms of a round, by what was read: whether the loop goes on, and the state.
abbrev pub arm : Result FrameError Inbound → Listener → Bool × Listener
arm (ok (response status arg0 arg1 arg2)) l =
    send_response (record { status = status; arg0 = arg0; arg1 = arg1; arg2 = arg2 }) l
arm (ok (event kind arg0 arg1 arg2)) l = event_arm (from_raw kind arg0 arg1 arg2) l
arm (err (io unexpected_eof)) l = (false, l)
arm (err (io other)) l = let (_, l') = send_event (err (from_frame (io other))) l in (false, l')
arm (err parsing) l = let (_, l') = send_event (err (from_frame parsing)) l in (false, l')

-- One round of the loop.
unfoldable pub round : Listener → Bool × Listener
round l =
    let (inbound, stream) = read l.msim_stream in arm inbound (record l { msim_stream = stream })

-- The loop, for at most as many rounds as there is fuel: whether it has ended, and the state.
unfoldable pub rounds : ℕ → Listener → Bool × Listener
rounds zero l = (false, l)
rounds (suc fuel) l =
    let (goes_on, l') = round l in
    let later = rounds fuel l' in if goes_on then later else (true, l')

-- The loop of `post_msim_background`. A round that goes on takes a frame from the stream, so there
-- are no more rounds than bytes, and one that ends the loop.
unfoldable pub post_msim_background : Listener → Bool × Listener
post_msim_background l = rounds (suc (length l.msim_stream.input)) l

-- `TcpConnection`, with the responses that wait in its channel.
pub record TcpConnection : Type 0 where
  pub stream : Writer
  pub resp_rx : List RawResponse

-- `recv` after the request was written. `arrives` is what it gives: a response, or nothing if the
-- listener is gone.
abbrev pub written :
    Option RawResponse → Result FrameError (Unit {0}) → Result MsimError RawResponse
written arrives (ok u) = ok_or listener_died arrives
written arrives (err e) = err (from_frame e)

-- `TcpConnection::send`
unfoldable pub send : Request → Option RawResponse → Exec TcpConnection MsimError RawResponse
send request arrives c = elim c.resp_rx [
  | r ∷ waiting ↦ (err unexpected_message, record c { resp_rx = waiting })
  | [] ↦
      let (result, stream) = write request c.stream in
      (written arrives result, record c { stream = stream })
]
