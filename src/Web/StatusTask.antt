-- ===== src/Web/StatusTask.antt =====
-- src/host/web.rs: `status_task`.
use upc.Common.{ℕ, ◌≡◌, refl, List, [], ◌∷◌, Bool, true, false, ◌==◌, if◌then◌else◌, Option, arith}
use upc.Protocol.Status
use upc.Host.Errors.{TransferError}
use upc.Host.Options.{DeviceStatus}
use upc.Host.StatusTask as Native
use upc.Web.Errors.{WebErrorKind, TaskError, web_usb, get_or_insert}

-- The status that the other tasks watch, and the shared error.
pub record Watched : Type 0 where
  pub status : DeviceStatus
  pub error : Option TaskError

unfoldable pub on_byte : ℕ → Watched → Watched
on_byte byte w =
    if byte == Status.recv_closed
    then (if w.status.recv_closed
        then w
        else record w { status = record (w.status) { recv_closed = true } })
    else w

unfoldable pub on_bytes : List ℕ → Watched → Watched
unfolding on_byte
on_bytes [] w = w
on_bytes (b ∷ bs) w = on_bytes bs (on_byte b w)

-- A poll of the device: the bytes of its reply, or the error of the request.
pub data Poll : Type 0 where
  reply : List ℕ → Poll
  failure : WebErrorKind → Poll

-- The loop over the polls, until the watchers are gone or a request fails; whether it goes on.
unfoldable pub status_task : List Poll → Watched → Bool × Watched
unfolding on_bytes get_or_insert
status_task [] w = (true, w)
status_task (reply bytes ∷ ps) w = status_task ps (on_bytes bytes w)
status_task (failure e ∷ ps) w = (
  false,
  record { status = record (w.status) { dead = true }; error = get_or_insert w.error (web_usb e) },
)

-- The same polls of the native task, its errors aside.
abbrev pub native_polls : List Poll → List Native.Poll
native_polls [] = []
native_polls (reply bytes ∷ ps) = Native.reply bytes ∷ native_polls ps
native_polls (failure e ∷ ps) = Native.failure TransferError.unknown ∷ native_polls ps

on_bytes_same :
    (bytes : List ℕ) (w : Watched) (n : Native.Watched)
    → w.status ≡ n.status
    → (on_bytes bytes w).status ≡ (Native.on_bytes bytes n).status
unfolding on_bytes Native.on_bytes
on_bytes_same [] w n e = e
on_bytes_same (b ∷ bs) w n e = on_bytes_same bs (on_byte b w) (Native.on_byte b n) (ground arith)

-- The browser's status task learns from the same answers what the native one does, and ends with it.
pub status_task_same :
    (ps : List Poll) (w : Watched) (n : Native.Watched)
    → w.status ≡ n.status
    → ((status_task ps w).0 ≡ (Native.status_task (native_polls ps) n).0)
      × ((status_task ps w).1.status ≡ (Native.status_task (native_polls ps) n).1.status)
unfolding status_task Native.status_task
status_task_same [] w n e = (refl, e)
status_task_same (reply bytes ∷ ps) w n e =
    status_task_same ps (on_bytes bytes w) (Native.on_bytes bytes n) (on_bytes_same bytes w n e)
status_task_same (failure x ∷ ps) w n e = (refl, ground arith)
