-- ===== src/Msim/Tcp/Frames.antt =====
-- The stream of a `TcpConnection`, src/msim/connection.rs, whatever MSIM sends and when, and where the
-- stream fails.
use mathlib.Core.List.{append_assoc, append-nil}
use msim_dap.Common.{
  ℕ, ◌<◌, ◌≡◌, refl, sym, ap, ◌∙◌, arith, leb, Bool-cases, inl, inr, none, some, Option, List, [],
  ◌∷◌, ◌++◌, length, take, All,
}
use msim_dap.Common.Results.{Result, ok, err}
use msim_dap.Msim.Frame.{
  outbound_frame_size, Request, FrameError, io, parsing, unexpected_eof, other,
}
use msim_dap.Msim.Frame.Stream.{Writer, write_all}
use msim_dap.Msim.Frame.Codec.{fields}
use msim_dap.Msim.Frame.Meaning.{IsRequest}
use msim_dap.Msim.Frame.Requests.{
  parse_request, request_bytes, write_lem, length-request_bytes, parse_request-fields,
}
use msim_dap.Msim.Messages.{
  MsimError, unexpected_message, io_error, closed_error, RawResponse, from_frame, from_io,
}
use msim_dap.Msim.Connection.{TcpConnection, send, written}
use msim_dap.Msim.Tcp.{Arrivals, send_next, after_log, answer}
use msim_dap.Msim.Tcp.Conversation.{requests}

abbrev Log : Type 0
Log = List (Request × Result MsimError RawResponse)

-- What became of the frame of a request.
pub data Sending : Type 0 where
  refused cut whole : Sending

-- By the answer: `UnexpectedMessage` where a response was waiting that nobody had asked for, so that
-- nothing was written, and an error of the stream where writing has failed.
abbrev pub sending : Result MsimError RawResponse → Sending
sending (err unexpected_message) = refused
sending (err (io_error e)) = cut
sending (err closed_error) = cut
sending _ = whole

-- The part of a frame that has gone out.
abbrev pub IsPart : Sending → List ℕ → List ℕ → Type 0
IsPart refused frame part = part ≡ []
IsPart cut frame part = (n : ℕ) × (n < length frame) × (part ≡ take n frame)
IsPart whole frame part = part ≡ frame

-- The bytes that have gone out for a log, the latest exchange first and its bytes last: for each
-- request, as much as its answer says of the 25 bytes from which MSIM reads that request.
abbrev pub IsFramed : Log → List ℕ → Type 0
IsFramed [] bytes = bytes ≡ []
IsFramed ((q, reply) ∷ older) bytes =
    (before : List ℕ) × (part : List ℕ) × (frame : List ℕ) × (bytes ≡ before ++ part)
    × IsPart (sending reply) frame part
    × (length frame ≡ outbound_frame_size)
    × (parse_request frame ≡ some q)
    × IsFramed older before

-- A write, by its result: of the bytes all have gone out, or a proper prefix.
abbrev IsSent : List ℕ → Writer → Result FrameError (Unit {0}) → Writer → Type 0
IsSent bytes w (ok u) w' = w'.sent ≡ w.sent ++ bytes
IsSent bytes w (err (io e)) w' = (n : ℕ) × (n < length bytes) × (w'.sent ≡ w.sent ++ take n bytes)
IsSent bytes w (err parsing) w' = ⊥

write_all-IsSent :
    (bytes : List ℕ) (w : Writer) → IsSent bytes w (write_all bytes w).0 (write_all bytes w).1
unfolding write_all
write_all-IsSent bytes w = elim (Bool-cases (leb (length bytes) w.room)) [
  | inl fits ↦ rw fits refl
  | inr short ↦ rw short (w.room, ground (arith, short), refl)
]

-- What a request has sent, by what comes of it.
IsSent-IsPart :
    (frame : List ℕ) (w w' : Writer) (reply : Option RawResponse)
    (result : Result FrameError (Unit {0}))
    → IsSent frame w result w'
    → (part : List ℕ) × (w'.sent ≡ w.sent ++ part)
      × IsPart (sending (written reply result)) frame part
unfolding from_frame from_io
IsSent-IsPart frame w w' none (ok u) h = (frame, h, refl)
IsSent-IsPart frame w w' (some r) (ok u) h = (frame, h, refl)
IsSent-IsPart frame w w' reply (err parsing) h = absurd h
IsSent-IsPart frame w w' reply (err (io unexpected_eof)) (n, short, h) =
    (take n frame, h, (n, short, refl))
IsSent-IsPart frame w w' reply (err (io other)) (n, short, h) = (take n frame, h, (n, short, refl))

module _ (arrivals : Log → Request → Arrivals) (w : Writer) (waiting : List RawResponse) where
  -- The connection at the start, and the log of a target that it answers.
  abbrev opened : TcpConnection
  opened = record { stream = w; resp_rx = waiting }

  -- Every reply of the log is what the connection answered.
  abbrev pub IsAnswered : Log → Type 0
  IsAnswered [] = Unit
  IsAnswered ((q, reply) ∷ older) = (reply ≡ answer arrivals opened older q) × IsAnswered older

  -- One exchange, with these responses in the channel when it starts.
  send-IsPart :
      (q : Request) (reply : Option RawResponse) (s : Writer) (ready : List RawResponse)
      → (part : List ℕ) × ((send q reply (record { stream = s; resp_rx = ready })).1.stream.sent
          ≡ s.sent ++ part)
        × IsPart
            (sending (send q reply (record { stream = s; resp_rx = ready })).0)
            (request_bytes (fields q))
            part
  unfolding send
  send-IsPart q reply s (r ∷ ready) = ([], sym (append-nil s.sent), refl)
  send-IsPart q reply s [] =
      let frame = request_bytes (fields q) in
      let sent = write_all-IsSent frame s in
      rw (write_lem q s)
        (IsSent-IsPart frame s (write_all frame s).1 reply (write_all frame s).0 sent)

  -- Whatever MSIM sends and when, and wherever the stream fails: what has gone out is, for each
  -- request of the log in their order, as much as its answer says of the frame of 25 bytes from which
  -- MSIM reads it.
  pub after_log-IsFramed :
      (log : Log)
      → All IsRequest (requests log)
      → IsAnswered log
      → (bytes : List ℕ) × ((after_log arrivals opened log).stream.sent ≡ w.sent ++ bytes)
        × IsFramed log bytes
  unfolding after_log send_next answer
  after_log-IsFramed [] all answered = ([], sym (append-nil w.sent), refl)
  after_log-IsFramed ((q, reply) ∷ older) (h, all) (answered_so, answered) =
      let (before, same, old) = after_log-IsFramed older all answered in
      let c = after_log arrivals opened older in
      let (part, sent, is_part) =
        send-IsPart q (arrivals older q).reply c.stream (c.resp_rx ++ (arrivals older q).early) in
      (
        before ++ part,
        sent ∙ ap (λ x. x ++ part) same ∙ append_assoc w.sent before part,
        (
          before,
          part,
          request_bytes (fields q),
          refl,
          rw answered_so is_part,
          length-request_bytes (fields q),
          parse_request-fields q h,
          old,
        ),
      )
