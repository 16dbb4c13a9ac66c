-- ===== src/Msim/Frame/Stream.antt =====
-- What frame.rs uses of `std::io::Write` and `std::io::Read`. A writer takes a number of bytes and
-- then fails a write, with what it has taken already gone out, as a socket does whose write times out;
-- the writes after that go on from there, with as many bytes until the next failure as `later` says.
-- A reader has the bytes that will arrive, and then the error that ends the stream (`UnexpectedEof`
-- where it is closed).
use msim_dap.Common.{ℕ, ◌-◌, List, [], ◌∷◌, ◌++◌, leb, if◌then◌else◌, length, take, drop}
use msim_dap.Common.Results.{ok, err}
use msim_dap.Common.Exec.{Exec}
use msim_dap.Msim.Frame.{IoError, FrameError, io}

-- `room` bytes are taken before a write fails with `fault`, and `later` has the same for the failures
-- that follow, the next one first. After the last one no byte is taken.
pub record Writer : Type 0 where
  pub sent : List ℕ
  pub room : ℕ
  pub fault : IoError
  pub later : List (ℕ × IoError)

pub record Reader : Type 0 where
  pub input : List ℕ
  pub fault : IoError

-- What is left after a failure.
unfoldable pub next_chance : IoError → List (ℕ × IoError) → ℕ × IoError × List (ℕ × IoError)
next_chance fault [] = (0, fault, [])
next_chance fault ((room, next_fault) ∷ later) = (room, next_fault, later)

-- The stream after a write that failed.
abbrev pub failed : Writer → Writer
failed w =
    let (room, fault, later) = next_chance w.fault w.later in
    record { sent = w.sent; room = room; fault = fault; later = later }

-- `Write::write_all`, with `?` into a `FrameError`
unfoldable pub write_all : List ℕ → Exec Writer FrameError (Unit {0})
write_all bytes w =
    if leb (length bytes) w.room
    then (ok tt, record w { sent = w.sent ++ bytes; room = w.room - length bytes })
    else (err (io w.fault), failed (record w { sent = w.sent ++ take w.room bytes }))

-- `Read::read_exact`, with `?` into a `FrameError`
unfoldable pub read_exact : ℕ → Exec Reader FrameError (List ℕ)
read_exact n r =
    if leb n (length r.input)
    then (ok (take n r.input), record r { input = drop n r.input })
    else (err (io r.fault), record r { input = drop n r.input })
