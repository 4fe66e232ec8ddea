-- ===== src/Host/Errors.antt =====
-- src/host/native.rs: the errors of the tasks, and the kinds that the application sees.
use upc.Common.{ℕ, Option, none, some, ErrorKind}

-- nusb's TransferError; `unknown` stands for the kinds that the code does not name.
pub data TransferError : Type 0 where
  disconnected cancelled fault invalid_argument stall unknown : TransferError

-- nusb's ErrorKind, likewise.
pub data UsbErrorKind : Type 0 where
  disconnected permission_denied not_found busy unsupported other : UsbErrorKind

pub data TaskError : Type 0 where
  transfer : TransferError → TaskError
  partial_send : ℕ → ℕ → TaskError

unfoldable pub nusb_to_io_err : UsbErrorKind → ErrorKind
nusb_to_io_err UsbErrorKind.disconnected = ErrorKind.connection_aborted
nusb_to_io_err UsbErrorKind.permission_denied = ErrorKind.permission_denied
nusb_to_io_err UsbErrorKind.not_found = ErrorKind.not_found
nusb_to_io_err UsbErrorKind.busy = ErrorKind.resource_busy
nusb_to_io_err UsbErrorKind.unsupported = ErrorKind.unsupported
nusb_to_io_err UsbErrorKind.other = ErrorKind.other

unfoldable pub transfer_to_io_err : TransferError → ErrorKind
transfer_to_io_err TransferError.disconnected = ErrorKind.connection_aborted
transfer_to_io_err TransferError.cancelled = ErrorKind.timed_out
transfer_to_io_err TransferError.fault = ErrorKind.unexpected_eof
transfer_to_io_err TransferError.invalid_argument = ErrorKind.invalid_input
transfer_to_io_err TransferError.stall = ErrorKind.write_zero
transfer_to_io_err TransferError.unknown = ErrorKind.other

unfoldable pub to_io_err : TaskError → ErrorKind
unfolding transfer_to_io_err
to_io_err (transfer e) = transfer_to_io_err e
to_io_err (partial_send size sent) = ErrorKind.write_zero

-- `get_or_insert`: the first error stays.
unfoldable pub get_or_insert : Option TaskError → TaskError → Option TaskError
get_or_insert none e = some e
get_or_insert (some first) e = some first
