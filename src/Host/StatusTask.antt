-- ===== src/Host/StatusTask.antt =====
-- src/host/native.rs: `status_task`.
use upc.Common.{
  ℕ, ◌≡◌, List, [], ◌∷◌, Bool, true, false, not, ◌||◌, ◌==◌, if◌then◌else◌, Option, arith,
}
use upc.Protocol.Status
use upc.Host.Errors.{TransferError, TaskError, transfer, get_or_insert}
use upc.Host.Options.{DeviceStatus}
use upc.Device.Task.Requests.{status_reply}

-- The status that the other tasks watch, and the shared error.
pub record Watched : Type 0 where
  pub status : DeviceStatus
  pub error : Option TaskError

unfoldable pub on_byte : ℕ → Watched → Watched
on_byte byte w =
    if byte == Status.recv_closed
    then (if w.status.recv_closed
        then w
        else record w { status = record (w.status) { recv_closed = true } })
    else w

unfoldable pub on_bytes : List ℕ → Watched → Watched
unfolding on_byte
on_bytes [] w = w
on_bytes (b ∷ bs) w = on_bytes bs (on_byte b w)

-- A poll of the device: the bytes of its reply, or the error of the request.
pub data Poll : Type 0 where
  reply : List ℕ → Poll
  failure : TransferError → Poll

-- The loop over the polls, until the watchers are gone or a request fails; whether it goes on.
unfoldable pub status_task : List Poll → Watched → Bool × Watched
unfolding on_bytes get_or_insert
status_task [] w = (true, w)
status_task (reply bytes ∷ ps) w = status_task ps (on_bytes bytes w)
status_task (failure e ∷ ps) w = (
  false,
  record { status = record (w.status) { dead = true }; error = get_or_insert w.error (transfer e) },
)

-- The host learns from the device's answer to STATUS just whether the device's receive direction is
-- closed, and goes on polling with what it knew before kept.
pub status_learned :
    (recv_open : Bool) (ps : List Poll) (w : Watched)
    → status_task (reply (status_reply recv_open) ∷ ps) w
      ≡ status_task ps (record w {
        status = record (w.status) { recv_closed = w.status.recv_closed || not recv_open };
      })
unfolding status_task status_reply
status_learned true ps w = ground arith
status_learned false ps w = ground arith

-- Bytes other than RECV_CLOSED are ignored.
pub status_unknown_ignored :
    (b : ℕ) (bytes : List ℕ) (w : Watched)
    → (b ≡ Status.recv_closed → ⊥)
    → on_bytes (b ∷ bytes) w ≡ on_bytes bytes w
unfolding on_bytes
status_unknown_ignored b bytes w h = ground arith
