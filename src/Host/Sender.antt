-- ===== src/Host/Sender.antt =====
-- src/host/mod.rs: `UpcSender::send`.
use upc.Common.{
  ℕ, List, [], ◌∷◌, ◌++◌, ltb, if◌then◌else◌, Bool, Option, none, some, ErrorKind, broken_pipe,
  invalid_input, Result, ok, err,
}
use upc.Common.Lists.{length}
use upc.Host.Errors.{TaskError, to_io_err}

-- `error` is the error of the tasks, which both ends share.
pub record UpcSender : Type 0 where
  pub tx : List (List ℕ)
  pub tx_closed : Bool
  pub error : Option TaskError
  pub max_size : ℕ

unfoldable pub closed_error : Option TaskError → ErrorKind
unfolding to_io_err
closed_error (some e) = to_io_err e
closed_error none = broken_pipe

unfoldable pub send : UpcSender → List ℕ → Result (Unit {0}) × UpcSender
unfolding closed_error
send s packet =
    if ltb s.max_size (length packet)
    then (err invalid_input, s)
    else if s.tx_closed
    then (err (closed_error s.error), s)
    else (ok tt, record s { tx = s.tx ++ (packet ∷ []) })
