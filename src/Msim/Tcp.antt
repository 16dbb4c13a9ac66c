-- ===== src/Msim/Tcp.antt =====
-- src/msim/tcp.rs, and `TcpConnection::connect` of src/msim/connection.rs.
pub mod Conversation
pub mod Frames
use msim_dap.Common.{ℕ, ◌≡◌, refl, true, Option, none, some, List, [], ◌∷◌, ◌++◌}
use msim_dap.Common.Results.{Result, ok, err, map_err, ◌>>=◌}
use msim_dap.Msim.Frame.{Request}
use msim_dap.Msim.Messages.{MsimError, RawResponse, from_io}
use msim_dap.Msim.Connection.{Listener, Channel, TcpConnection, send}
use msim_dap.Net.{
  IoFault, TcpStream, Net, set_nodelay, set_read_timeout, set_write_timeout, try_clone,
}

-- `?` from a `std::io::Error`
abbrev pub or_io : {A : Type 0} → Result IoFault A → Result MsimError A
or_io r = map_err (λ (fault : IoFault). from_io fault.kind) r

-- `connect`
unfoldable pub connect : Net → ℕ → Result MsimError TcpStream
connect net port = do
  fresh ← or_io (net.connect port)
  prompt ← or_io (set_nodelay net true fresh)
  patient ← or_io (set_read_timeout net none prompt)
  or_io (set_write_timeout net (some 5) patient)

-- What `post_msim_background` starts with. How long the two receivers live is not known here.
abbrev pub listener_of : TcpStream → ℕ → ℕ → Listener
listener_of stream resp_room event_room = record {
  msim_stream = stream.reader;
  resp_tx = record { sent = []; room = resp_room };
  event_tx = record { sent = []; room = event_room };
}

-- `TcpConnection::new`
abbrev pub new : TcpStream → List RawResponse → TcpConnection
new stream resp_rx = record { stream = stream.writer; resp_rx = resp_rx }

-- `TcpConnection::connect`: the connection, and the stream that the listener gets.
unfoldable pub connect_and_post : Net → ℕ → Result MsimError (TcpConnection × TcpStream)
connect_and_post net port = do
  stream ← connect net port
  clone ← or_io (try_clone net stream)
  ok (new stream [], clone)

-- What the listener hands over to one `send`: responses that came before it with no request pending,
-- and the one that came after the request was written, if any did.
pub record Arrivals : Type 0 where
  pub early : List RawResponse
  pub reply : Option RawResponse

module _ (arrivals : List (Request × Result MsimError RawResponse) → Request → Arrivals) where
  -- A `send`, with the early responses in the channel.
  unfoldable pub send_next :
      List (Request × Result MsimError RawResponse)
      → Request
      → TcpConnection
      → Result MsimError RawResponse × TcpConnection
  send_next log request c =
      let now = arrivals log request in
      send request now.reply (record c { resp_rx = c.resp_rx ++ now.early })

  -- The connection after the exchanges of a log, the latest first.
  unfoldable pub after_log :
      TcpConnection → List (Request × Result MsimError RawResponse) → TcpConnection
  after_log c [] = c
  after_log c ((request, _) ∷ log) = (send_next log request (after_log c log)).1

  -- `impl Connection for TcpConnection`: what `send` returns after the exchanges of a log.
  unfoldable pub answer :
      TcpConnection
      → List (Request × Result MsimError RawResponse)
      → Request
      → Result MsimError RawResponse
  answer c log request = (send_next log request (after_log c log)).0
