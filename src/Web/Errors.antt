-- ===== src/Web/Errors.antt =====
-- src/host/web.rs: the errors of the tasks, and the kinds that the application sees.
use upc.Common.{ℕ, Option, none, some, ErrorKind}

-- webusb_web's ErrorKind; `unknown` stands for the kinds that the code does not name.
pub data WebErrorKind : Type 0 where
  unsupported already_open disconnected security stall babble transfer : WebErrorKind
  invalid_access other unknown : WebErrorKind

pub data TaskError : Type 0 where
  web_usb : WebErrorKind → TaskError
  partial_send : ℕ → ℕ → TaskError

unfoldable pub web_to_io_err : WebErrorKind → ErrorKind
web_to_io_err WebErrorKind.unsupported = ErrorKind.unsupported
web_to_io_err WebErrorKind.already_open = ErrorKind.resource_busy
web_to_io_err WebErrorKind.disconnected = ErrorKind.not_found
web_to_io_err WebErrorKind.security = ErrorKind.permission_denied
web_to_io_err WebErrorKind.stall = ErrorKind.connection_aborted
web_to_io_err WebErrorKind.babble = ErrorKind.connection_aborted
web_to_io_err WebErrorKind.transfer = ErrorKind.connection_aborted
web_to_io_err WebErrorKind.invalid_access = ErrorKind.invalid_input
web_to_io_err WebErrorKind.other = ErrorKind.other
web_to_io_err WebErrorKind.unknown = ErrorKind.other

unfoldable pub to_io_err : TaskError → ErrorKind
unfolding web_to_io_err
to_io_err (web_usb e) = web_to_io_err e
to_io_err (partial_send size sent) = ErrorKind.write_zero

-- `get_or_insert`: the first error stays.
unfoldable pub get_or_insert : Option TaskError → TaskError → Option TaskError
get_or_insert none e = some e
get_or_insert (some first) e = some first
