-- ===== src/Tests/Print.antt =====
-- The output of the scan and list commands, and the trace of the device's send task.
use upc.Common.{ℕ, ◌≡◌, refl, List, [], ◌∷◌, ◌++◌, map, false, Option, none, some, ErrorKind}
use upc.Cli.Devices.{DeviceFilter}
use upc.Cli.Scan.{scan_rows, list_rows}
use upc.Cli.Commands.{exit}
use upc.Cli.Print.{Line, Texts, print_row}
use upc.Cli.Print.ScanCmd.{exec_scan}
use upc.Cli.Print.ListCmd.{exec_list}
use upc.Cli.Print.Laws.{ending, on_stdout, exec-rows}
use upc.Tests.Cli.{devices, responses}
use upc.Common.Lists.{length}
use upc.Device.OutTask.{EpOp, out_task}
use upc.Device.OutTask.Frames.{transfers}
use upc.Trace.Packets.{packets}
use upc.Trace.NoOp.{no_op}
use upc.Trace.OutTask.{out_task_traced}
use upc.Trace.OutTask.Reports.{reported, out_task_traced-reports}

abbrev texts : Texts
texts = record {
  manufacturer_string = λ dev. none;
  product_string = λ dev. some (b'm' ∷ []);
  interface_string = λ i. none;
  list_error = [];
  open_error = λ dev. [];
  probe_error = λ dev n. [];
  info_error = λ dev n. [];
}

abbrev everything : DeviceFilter
everything = record {
  ids = record { vid = none; pid = none; serial = none; bus = none; address = none };
  interface = none;
  subclass = none;
  protocol = none;
}

exec-rows_example :
    (ls ms : List Line) × (exec_scan false responses texts everything.ids (some devices)
      ≡ (ls ++ ending (scan_rows everything.ids responses devices), exit 0))
    × (on_stdout ls ≡ map print_row (scan_rows everything.ids responses devices))
    × (exec_list false responses texts everything (some devices)
        ≡ (ms ++ ending (list_rows everything responses devices), exit 0))
    × (on_stdout ms ≡ map print_row (list_rows everything responses devices))
exec-rows_example = exec-rows responses texts everything devices

abbrev third_fails : List EpOp → EpOp → Option ErrorKind
third_fails (a ∷ b ∷ log) op = some ErrorKind.broken_pipe
third_fails log op = none

abbrev sent : List (List ℕ)
sent = (1 ∷ 2 ∷ 3 ∷ 4 ∷ []) ∷ (5 ∷ []) ∷ []

reported_three : reported (out_task_traced third_fails (packets 255) 4 8 sent).events ≡ 4 ∷ 0 ∷ []
unfolding out_task_traced packets upc.Trace.Packets.on_send_part
    upc.Trace.Packets.on_send_terminator upc.Trace.Packets.on_sending_data
    upc.Trace.Packets.on_data_finished
reported_three = refl

out_task_traced-reports_example :
    let traced = out_task_traced third_fails (packets 255) 4 8 sent in
    (traced.run ≡ out_task third_fails 4 8 sent)
    × ((out_task_traced third_fails no_op 4 8 sent).run ≡ out_task third_fails 4 8 sent)
    × (reported traced.events ≡ map length (transfers (out_task third_fails 4 8 sent).0))
out_task_traced-reports_example = out_task_traced-reports third_fails 255 4 8 sent
