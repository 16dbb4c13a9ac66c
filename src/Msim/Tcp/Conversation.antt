-- ===== src/Msim/Tcp/Conversation.antt =====
-- A connection that was set up: the options of its socket, and what its sends write and return.
use mathlib.Core.List.{append_assoc, append-nil}
use msim_dap.Common.{
  ℕ, ◌+◌, ◌-◌, ◌*◌, ◌≤◌, ◌≡◌, refl, sym, ap, ap₂, ◌∙◌, arith, true, none, some, List, [], ◌∷◌, ◌++◌,
  length, All,
}
use msim_dap.Common.Results.{Result, ok}
use msim_dap.Msim.Frame.{outbound_frame_size, Request}
use msim_dap.Msim.Frame.Stream.{Writer}
use msim_dap.Msim.Frame.Meaning.{IsRequest}
use msim_dap.Msim.Frame.Requests.{parse_request, write_round_trip}
use msim_dap.Msim.Messages.{MsimError, RawResponse}
use msim_dap.Msim.Connection.{TcpConnection, send}
use msim_dap.Net.{Net, TcpStream}
use msim_dap.Msim.Tcp.{Arrivals, new, connect, connect_and_post, send_next, after_log, answer}

-- A socket that sends small messages at once, on which the listener waits as long as it takes, and a
-- write for five seconds.
abbrev pub IsSetUp : TcpStream → Type 0
IsSetUp s = (s.nodelay ≡ true) × (s.read_timeout ≡ none) × (s.write_timeout ≡ some 5)

-- A connection that was made has its socket set up, for the listener as well: small messages are sent
-- at once, a read waits without limit and a write for five seconds; and no response is waiting.
pub connect_and_post-IsSetUp :
    (net : Net) (port : ℕ) (c : TcpConnection) (s : TcpStream)
    → connect_and_post net port ≡ ok (c, s)
    → IsSetUp s × (c ≡ new s [])
unfolding connect_and_post connect
connect_and_post-IsSetUp net port c s h = ground (arith, h)

abbrev Log : Type 0
Log = List (Request × Result MsimError RawResponse)

abbrev pub requests : Log → List Request
requests [] = []
requests ((r, _) ∷ log) = r ∷ requests log

-- Bytes that are one frame for each request, the latest request first and its frame last.
abbrev pub IsWritten : List Request → List ℕ → Type 0
IsWritten [] bytes = bytes ≡ []
IsWritten (r ∷ older) bytes =
    (before : List ℕ) × (frame : List ℕ) × (bytes ≡ before ++ frame)
    × (length frame ≡ outbound_frame_size)
    × (parse_request frame ≡ some r)
    × IsWritten older before

-- A peer that replies to each request, and sends no response before one.
abbrev pub polite : (Log → Request → RawResponse) → Log → Request → Arrivals
polite respond log r = record { early = []; reply = some (respond log r) }

module _ (respond : Log → Request → RawResponse) where
  send_next-polite :
      (log : Log) (r : Request) (w : Writer)
      → IsRequest r
      → outbound_frame_size ≤ w.room
      → (frame : List ℕ) × (send_next (polite respond) log r (record { stream = w; resp_rx = [] })
          ≡ (
            ok (respond log r),
            record {
              stream = record w { sent = w.sent ++ frame; room = w.room - 25 };
              resp_rx = [];
            },
          ))
        × (length frame ≡ outbound_frame_size)
        × (parse_request frame ≡ some r)
  unfolding send_next send
  send_next-polite log r w h room =
      let (frame, written, size, read) = write_round_trip r w h room in
      (frame, rw written refl, size, read)

  module _ (w : Writer) where
    abbrev ahead : List ℕ → ℕ → TcpConnection
    ahead bytes room = record {
      stream = record w { sent = w.sent ++ bytes; room = room };
      resp_rx = [];
    }

    pub after_log-polite :
        (log : Log)
        → All IsRequest (requests log)
        → outbound_frame_size * length log ≤ w.room
        → (bytes : List ℕ) × (after_log (polite respond) (record { stream = w; resp_rx = [] }) log
            ≡ ahead bytes (w.room - outbound_frame_size * length log))
          × IsWritten (requests log) bytes
    unfolding after_log
    after_log-polite [] h room = (
      [],
      ap₂ (λ s n. record { stream = record w { sent = s; room = n }; resp_rx = [] })
          (sym (append-nil w.sent)) (omega arith),
      refl,
    )
    after_log-polite ((r, _) ∷ log) (h, hs) room =
        let (before, e, old) = after_log-polite log hs (omega arith) in
        let (frame, e', size, read) =
          send_next-polite log r
            (record w { sent = w.sent ++ before; room = w.room - outbound_frame_size * length log })
            h (omega arith) in
        (
          before ++ frame,
          ap (λ c. (send_next (polite respond) log r c).1) e
              ∙ ap (λ p. p.1) e'
              ∙ ap₂ (λ s n. record { stream = record w { sent = s; room = n }; resp_rx = [] })
                  (append_assoc w.sent before frame) (omega arith),
          (before, frame, refl, size, read, old),
        )

    -- To a peer that replies to each request in turn: after any requests of u64 fields for which the
    -- stream had room, the next one returns the reply to it and no other, and the stream has had exactly
    -- one frame of 25 bytes for each request, in their order, from which MSIM reads that request.
    pub answer-polite :
        (log : Log) (r : Request)
        → All IsRequest (requests log)
        → IsRequest r
        → outbound_frame_size * length log + outbound_frame_size ≤ w.room
        → (answer (polite respond) (record { stream = w; resp_rx = [] }) log r ≡ ok (respond log r))
          × (bytes : List ℕ) × ((after_log
                (polite respond)
                (record { stream = w; resp_rx = [] })
                ((r, ok (respond log r)) ∷ log)).stream.sent
              ≡ w.sent ++ bytes)
          × IsWritten (r ∷ requests log) bytes
    unfolding answer
    answer-polite log r hs h room =
        let (before, e, old) = after_log-polite log hs (omega arith) in
        let (frame, e', _, _) =
          send_next-polite log r
            (record w { sent = w.sent ++ before; room = w.room - outbound_frame_size * length log })
            h (omega arith) in
        let (bytes, sent, written) =
          after_log-polite ((r, ok (respond log r)) ∷ log) (h, hs) (omega arith) in
        (
          ap (λ c. (send_next (polite respond) log r c).0) e ∙ ap (λ p. p.0) e',
          bytes,
          ap (λ (c : TcpConnection). c.stream.sent) sent,
          written,
        )
