-- ===== src/App/Wire.antt =====
-- src/lib.rs, a run over a connection of src/msim/connection.rs: what it writes to MSIM.
use msim_dap.Common.{ℕ, ◌≡◌, refl, some, none, Option, List, [], ◌∷◌, ◌++◌, All, arith}
use msim_dap.Common.Int.{IsU64}
use msim_dap.Common.Results.{Result, ok, err}
use msim_dap.Common.Ensures.{OnSome}
use msim_dap.Msim.Frame.{Request, FrameError}
use msim_dap.Msim.Frame.Codec.{write}
use msim_dap.Msim.Frame.Meaning.{IsRequest}
use msim_dap.Msim.Frame.Stream.{Writer}
use msim_dap.Msim.Messages.{RawResponse}
use msim_dap.Msim.Connection.{TcpConnection, send, written}
use msim_dap.Msim.Tcp.{Arrivals, send_next, after_log, answer}
use msim_dap.Msim.Tcp.Conversation.{requests}
use msim_dap.Msim.Tcp.Frames.{IsAnswered, IsFramed, after_log-IsFramed}
use msim_dap.Target.{FilePath, Exchange}
use msim_dap.Target.Sent.{AnswersWords}
use msim_dap.Dwarf.Index.{DwarfIndex}
use msim_dap.Dwarf.Parse.{RunTimeEndian, parse_dwarf}
use msim_dap.Dwarf.Parse.Words.{AreWordUnits, parse_dwarf-HasWords}
use msim_dap.Adapter.{DebugEventResult, Session}
use msim_dap.Debugger.Kept.Ranges.{run-Holds}
use msim_dap.App.{Outside, client_of, env_of, debug}

-- A response with a 64-bit value.
abbrev pub IsWordResponse : RawResponse → Type 0
IsWordResponse r = IsU64 r.arg0

-- A `send` that returns a response returns one that came.
written-IsWordResponse :
    (reply : Option RawResponse) (r : RawResponse) (result : Result FrameError (Unit {0}))
    → OnSome IsWordResponse reply
    → written reply result ≡ ok r
    → IsWordResponse r
written-IsWordResponse (some reply) r (ok u) h e = ground (arith, e, h)
written-IsWordResponse none r (ok u) h e = absurd (ground (arith, e))
written-IsWordResponse reply r (err f) h e = absurd (ground (arith, e))

send-IsWordResponse :
    (q : Request) (reply : Option RawResponse) (r : RawResponse) (w : Writer)
    (waiting : List RawResponse)
    → OnSome IsWordResponse reply
    → (send q reply (record { stream = w; resp_rx = waiting })).0 ≡ ok r
    → IsWordResponse r
unfolding send
send-IsWordResponse q reply r w [] h e = written-IsWordResponse reply r (write q w).0 h e
send-IsWordResponse q reply r w (x ∷ waiting) h e = absurd (ground (arith, e))

module _ (arrivals : List Exchange → Request → Arrivals)
    (words : (log : List Exchange) (q : Request)
      → OnSome IsWordResponse (arrivals log q).reply) where
  pub answer-AnswersWords : (c : TcpConnection) → AnswersWords (answer arrivals c)
  unfolding answer send_next
  answer-AnswersWords c log q r e =
      let before = after_log arrivals c log in
      send-IsWordResponse q (arrivals log q).reply r before.stream
        (before.resp_rx ++ (arrivals log q).early) (words log q) e

-- The exchanges of a run.
abbrev pub exchanged :
    (outside : Outside)
    → Session outside.dap
    → TcpConnection
    → DwarfIndex
    → List DebugEventResult
    → List Exchange
exchanged outside session c index events = (debug outside session c index events).1.target.exchanges

-- What is known of the exchanges of a run.
abbrev IsKnown : (List Exchange → Request → Arrivals) → TcpConnection → List Exchange → Type 0
IsKnown arrivals c log = All IsRequest (requests log) × IsAnswered arrivals c.stream c.resp_rx log

-- Where replies have 64-bit values and the rows of the debug information 64-bit addresses: whatever
-- MSIM sends and when, wherever writes to the stream fail, and whatever a run receives and however
-- it ends, what the stream has taken is, for each request of the run in their order, the frame of
-- 25 bytes from which MSIM reads that request; but only a proper prefix of it, with the next one
-- right behind, where the request was answered by an error of the stream, and nothing where it was
-- refused because a response that nobody had asked for was waiting.
pub debug-IsFramed :
    (outside : Outside) (path : FilePath) (index : DwarfIndex) (c : TcpConnection)
    (session : Session outside.dap) (events : List DebugEventResult)
    → ((log : List Exchange) (q : Request) → OnSome IsWordResponse (outside.arrivals log q).reply)
    → ((endian : RunTimeEndian) (sections : outside.files.DwarfSections)
        → AreWordUnits (outside.files.units endian sections))
    → parse_dwarf outside.files path ≡ ok index
    → (bytes : List ℕ) × ((after_log outside.arrivals c
          (exchanged outside session c index events)).stream.sent
        ≡ c.stream.sent ++ bytes)
      × IsFramed (exchanged outside session c index events) bytes
unfolding debug
debug-IsFramed outside path index c session events words rows parsed =
    let (all, answered) : IsKnown outside.arrivals c (exchanged outside session c index events) =
      run-Holds (env_of outside c index) (client_of outside session) events
        (answer-AnswersWords outside.arrivals words c)
        (parse_dwarf-HasWords outside.files rows path outside.file_order index parsed)
        (IsKnown outside.arrivals c) (λ log q h k. ((h, k.0), (refl, k.1))) (tt, tt) in
    after_log-IsFramed outside.arrivals c.stream c.resp_rx _ all answered
