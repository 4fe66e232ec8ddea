-- ===== src/Lib.antt =====
-- USB packet channel (upc): packets over a pair of USB bulk endpoints, from a host to a device and back.
--
-- The device side, src/device.rs, runs one main task that handles USB events and control requests, and
-- for each connection a task per direction; the application holds a sender and a receiver. The host
-- side, src/host/, makes a connection by control requests, runs a task per direction and one that
-- polls the device's status, and gives the application a sender and a receiver too. The tasks and the
-- ends share queues; a packet is sent as one or more USB transfers and ends with a short USB packet.
--
-- Which file is about which code:
--   Protocol, Protocol/*   src/lib.rs: sizes, `ctrl_req`, `status`, `Class`
--   Tlv                    src/lib.rs: `mod tlv`
--   Caps/Device, Caps/Host src/lib.rs: `DeviceCapabilities` and `HostCapabilities`; Caps/Typed has them
--                          as machine values
--   Framing, Framing/*     no code: short-packet framing of PROTOCOL.md, and the USB controller as a
--                          record of functions and documented laws (`Controller`)
--   Device/Sender          src/device.rs: `UpcSender::send`, `connection`
--   Device/Receiver        src/device.rs: `UpcReceiver::recv`, `into_stream`
--   Device/OutTask         src/device.rs: `UpcFunction::out_task`
--   Device/InTask          src/device.rs: `UpcFunction::in_task`
--   Device/Task, Device/Task/Requests, Device/Task/Events
--                          src/device.rs: `UpcFunction::task`, its local variables (`Task`), its
--                          handlers of control requests, and its `select!` as a step relation (`Reach`)
--   Device/Function        src/device.rs: `InterfaceId`, the setters and `accept` of `UpcFunction`,
--                          `BytesPool` and `prepare_in`; Device/Function/Setup has `UpcFunction` with
--                          `new`, `with_ffs` and `init`
--   Host/Options, Host/Sender, Host/Receiver
--                          src/host/mod.rs: `UpcOptions`, `UpcSender::send`, `UpcReceiver::recv`
--   Host/Errors, Host/Interfaces, Host/Connect, Host/InTask, Host/OutTask, Host/StatusTask,
--   Host/HalfClose         src/host/native.rs: the functions of those names; Host/Interfaces also has
--                          the guard of src/host/guard.rs
--   Web/Errors, Web/Interfaces, Web/Connect, Web/Barrier, Web/InTask, Web/OutTask, Web/StatusTask,
--   Web/HalfClose          src/host/web.rs: the same functions for a browser; Web/Barrier is the part of
--                          `connect_with` that drops stale data
--   Cli/Hex                src/bin/upc.rs: `parse_hex_u16`, `parse_hex_u8` and the number formats
--   Cli/Devices, Cli/Select, Cli/Scan
--                          src/bin/upc.rs: the filters, the selection of an interface by the connect
--                          command, and the rows of the scan and list commands
--   Cli/Sender, Cli/Forward, Cli/Output
--                          src/bin/upc.rs: `UpcSend` as an interface that both senders fill, and the two
--                          halves of `forward_stdio`
--   Cli/Commands, Cli/DeviceCmd
--                          src/bin/upc.rs: the join of the halves, and the connect and device commands
--                          with their exit codes
--   Cli/Print, Cli/Print/*, Cli/Texts
--                          src/bin/upc.rs: the scan and list commands with every line that they print
--   Cli/Main               src/bin/upc.rs: `Cli`, `Command` and `main`
--   Trace, Trace/Packets, Trace/NoOp
--                          src/trace.rs: what a tracer offers, and its two implementations
--   Trace/OutTask          src/device.rs: `out_task` with the calls of its tracer
--   Examples/TestData      examples/common.rs: the test packets
--   Examples/Halves, Examples/Programs
--                          examples/host.rs and examples/device.rs: the two halves of the programs
--   Channel, Channel/*     both sides together, over a `Controller`; Channel/Tools has the tool or the
--                          browser at their ends
--   Tests, Tests/*         runs on concrete inputs, over a computable `Controller`
--
-- Conventions. Numbers are natural numbers with the wrap-around of u64 written out; a Duration is its
-- nanoseconds (in Cli/Output its milliseconds); `usize::MAX` is a parameter, and for the device's
-- main task so are the last `Instant` and the largest buffer (`Platform`); the tool's `isize::MAX` is
-- that of 64 bits. A byte string is a list of numbers. A queue is the list of what it holds, with a
-- flag that its other end is gone; an answer `pending` stands for a future that waits. What hardware
-- and executor do is a parameter or a sequence of events: the errors of endpoint operations
-- (`fails`), the completions of host transfers (`outcome`), the branch that a `select!` takes
-- (`InEvent`, `Round`, `Input`, `Event`), the answers of the device while a connection is made
-- (`Answers`), what comes through the channel of the browser's receive task until then (`Wait`), and
-- what happens on stdin, stdout and the receiver during a session of the tool (`Session`), the random
-- numbers of the examples (`ChaCha8Rng`) and what usb_gadget makes of a description (`UsbGadget`).
-- `log`, `requests` and `submitted` record the effects in order.
--
-- Fuel. The TLV decoder has the length of its input, and each round takes three bytes. The loop that
-- splits a packet has the length of the packet, and each round takes a byte. The host's `recv` has the
-- length of its queue, and each round takes a transfer. The pieces of a line have its length, and each
-- has a byte. The retries of the browser's connection are the code's own: 100 for the guard, 50 for
-- ECHO. The packet size is taken as positive where a remainder by it is (Rust panics on a remainder by
-- zero).
--
-- Not modelled: an allocation that fails for want of memory, and the overflow of the product of the
-- packet size and 128 in a usize, as a USB packet has 1024 bytes at most; the time that a round of
-- the tool's receiving half takes to write its packet; the adapters to the Sink and Stream traits
-- beyond `into_stream`, and `closed`, which are calls of tokio and futures; the timer of the browser
-- (`sleep` and `timeout` of src/host/web.rs), which is calls of JavaScript; log output and, but for
-- that of the device's `out_task`, the tracer's part in the functions; of the command line tool the
-- parser of its arguments, which a macro makes, the notes on stderr of connect and device, and how
-- its reader splits stdin into lines; of the examples the delays, which a constant switches off, the
-- measurement of time, the setup of the gadget, and the two simple programs; the tests; the wait of
-- an OPEN request for room in the queue of connections not yet accepted, which has four places; the
-- recycling of DMA buffers, which only saves allocations.
pub mod Common
pub mod Protocol
pub mod Tlv
pub mod Caps
pub mod Framing
pub mod Device
pub mod Host
pub mod Web
pub mod Cli
pub mod Channel
pub mod Examples
pub mod Trace
pub mod Tests
