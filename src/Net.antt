-- ===== src/Net.antt =====
-- What the program uses of `std::io` and `std::net`: errors, TCP streams with their options, and the
-- calls of the operating system, whose outcomes are arbitrary.
use msim_dap.Common.{ℕ, Bool, Option, none, some, String}
use msim_dap.Common.Results.{Result, ok, err}
use msim_dap.Msim.Frame.{IoError}
use msim_dap.Msim.Frame.Stream.{Reader, Writer}

-- `std::io::Error`: the kind, as far as the program tells kinds apart, and the text.
pub record IoFault : Type 0 where
  pub kind : IoError
  pub text : String

-- `TcpStream`: the bytes that arrive and those that go out, and the options of the socket, with
-- timeouts in seconds.
pub record TcpStream : Type 0 where
  pub reader : Reader
  pub writer : Writer
  pub nodelay : Bool
  pub read_timeout : Option ℕ
  pub write_timeout : Option ℕ

-- The outcomes of the calls that set up sockets. Each is made once in a run of the program. The number
-- that `bind` gives is the listening socket.
pub record Net : Type 0 where
  pub bind : ℕ → Result IoFault ℕ
  pub accept : ℕ → Result IoFault TcpStream
  pub connect : ℕ → Result IoFault TcpStream
  pub nodelay_fault : Option IoFault
  pub read_timeout_fault : Option IoFault
  pub write_timeout_fault : Option IoFault
  pub clone_fault : Option IoFault

abbrev unless_fault {ℓ} : {A : Type ℓ} → Option IoFault → A → Result IoFault A
unless_fault none a = ok a
unless_fault (some fault) a = err fault

module _ (net : Net) where
  -- `TcpStream::set_nodelay`, `set_read_timeout` and `set_write_timeout`
  abbrev pub set_nodelay : Bool → TcpStream → Result IoFault TcpStream
  set_nodelay on s = unless_fault net.nodelay_fault (record s { nodelay = on })

  abbrev pub set_read_timeout : Option ℕ → TcpStream → Result IoFault TcpStream
  set_read_timeout timeout s =
      unless_fault net.read_timeout_fault (record s { read_timeout = timeout })

  abbrev pub set_write_timeout : Option ℕ → TcpStream → Result IoFault TcpStream
  set_write_timeout timeout s =
      unless_fault net.write_timeout_fault (record s { write_timeout = timeout })

  -- `TcpStream::try_clone`: a second handle of the same socket.
  abbrev pub try_clone : TcpStream → Result IoFault TcpStream
  try_clone s = unless_fault net.clone_fault s
