-- ===== src/Msim/Messages.antt =====
-- src/msim/mod.rs and the conversions of src/msim/connection.rs: the errors of a connection, the
-- events that the adapter interprets, and a response as the connection hands it over.
use msim_dap.Common.{ℕ}
use msim_dap.Common.Results.{Result, ok, err, ◌>>=◌}
use msim_dap.Msim.Frame.{
  ResponseStatus, EventKind, StoppedAtReason, IoError, unexpected_eof, other, FrameError, io,
  parsing,
}
use msim_dap.Msim.Frame.Codec.{read_reason}

pub data MsimError : Type 0 where
  io_error : IoError → MsimError
  closed_error parse_error unexpected_message request_failed listener_died : MsimError

-- `Event`; `StoppedAt` has the CPU, the address and the reason
pub data Event : Type 0 where
  terminated : Event
  stopped_at : ℕ → ℕ → StoppedAtReason → Event

pub record RawResponse : Type 0 where
  pub status : ResponseStatus
  pub arg0 : ℕ
  pub arg1 : ℕ
  pub arg2 : ℕ

-- `From<std::io::Error> for MsimError`
unfoldable pub from_io : IoError → MsimError
from_io unexpected_eof = closed_error
from_io other = io_error other

-- `From<FrameError> for MsimError`
unfoldable pub from_frame : FrameError → MsimError
unfolding from_io
from_frame (io e) = from_io e
from_frame parsing = parse_error

-- `Event::from_raw`
unfoldable pub from_raw : EventKind → ℕ → ℕ → ℕ → Result FrameError Event
from_raw EventKind.terminated arg0 arg1 arg2 = ok Event.terminated
from_raw EventKind.stopped_at arg0 arg1 arg2 = do
  reason ← read_reason arg2
  ok (Event.stopped_at arg0 arg1 reason)

-- `RawResponse::to_result`
unfoldable pub to_result : RawResponse → Result MsimError RawResponse
to_result r = elim r.status [ ResponseStatus.ok ↦ ok r | _ ↦ err request_failed ]
