-- ===== src/Lib.antt =====
-- A model of the Iridium SBD module for Zephyr, and what its code does.
--
-- The program is a stack of libraries. lib/zuart drives a UART, by polling or by interrupts.
-- lib/at_uart sends AT commands over such a port and parses the responses, byte by byte.
-- lib/iridium/isu.c, evt.c and dte.c are the commands, events and errors of the Iridium subscriber
-- unit (ISU) on top of it, and lib/iridium/isbd is a service with queues of messages and events.
-- lib/stru compares strings.
--
--   Prelude    lists, tests and the state monad `Io`
--   Stru       lib/stru/stru.c: `streq`
--   Libc       what the code uses of the C library: decimal printing, `sscanf`, `atoi`, `htons`
--   Serial     the interface between lib/at_uart and lib/zuart: `zuart_read`, `zuart_write`,
--              `zuart_drain`, `zuart_get_err`, `zuart_setup`, over any state of a port and its line
--   ZUart      lib/zuart: what it uses of the kernel and the driver (Kernel), the structure and the
--              interrupt handlers (Port), the protocols (Transfer), the set-up (Setup); what
--              interrupts do (Runs, Wait), the transfers (Reads, ReadIrq, Writes, PollReads, Polls), and the
--              port as an instance of Serial (Served, Handed, Line)
--   AtUart     lib/at_uart: result codes (Code), the response parser (Parse), the exchange of a
--              command (Command) and what it does over a port of lib/zuart (Command/Ported), the basic
--              commands and `at_uart_setup` (Basic)
--   Iridium    lib/iridium: the checksum (Checksum), dte.c (Dte), evt.c (Evt), isu.c (Isu)
--   Isbd       lib/iridium/isbd/isbd.c: what it uses of the kernel (Kernel), its data (Message), the
--              calls of its user and the notifications (Queue), its thread (Service), `isbd_setup` (Setup);
--              the queue behind `isbd_send_mo_msg` (Send), the events that `_wait_for_dte_events` finds on
--              the line, and its end (Events), who has which block of the heap (Blocks), over calls and
--              rounds in any order (Blocks/World), the end of a session that failed (Retry), the way of a
--              message over all layers, from its user to the line (Delivery), from a ring to its user
--              (Delivery/Arrival), and over rounds that fail (Delivery/Retries); the same code call by call
--              of the kernel (Action, Atomic), with the loop of samples/isbd_app (Atomic/App), under any
--              interleaving of the threads (Atomic/Pool), and beside the functions as a whole
--              (Atomic/Whole)
--   Tests      runs with a scripted modem, a scripted device, and a heap and queues
--
-- A C function that works on a structure is a function of the same name, without its prefix, in the
-- monad `Io` over that structure: it returns its result with the structure behind it. An array that a
-- function fills is an argument and part of its result; a pointer that may be null is an option. A
-- variable that C leaves without a value is an argument that can be anything, but for the line buffer of
-- `evt_wait`, which starts as zeros (only lines of null bytes would show it). Integers of w bits keep
-- their wrap-around as a remainder.
--
-- The bytes that the other end will send are part of the state behind a port. `pending` bounds how many
-- can still come; each round of the loops of `at_uart_parse_resp` and `at_uart_check_echo` but the last
-- takes one of them, so a fuel of one more than `pending` is enough. An answer "in time" is one whose
-- every byte reaches the one-byte read that waits for it; `Delivers` in Serial/Delivery states that.
--
-- Interrupts and calls of other threads are events: `Uart` tells, as any device may, which of them happen
-- before the next statement that looks at shared state and which while a thread waits. The loop of a
-- read by interrupts takes away from `rx_work` in each round, that of a write from `tx_work`, and a loop
-- that polls reads a clock that moves on; a fuel of one more than these is enough. The set-up of a port has
-- such events from the moment on at which the interrupts of the reception are enabled.
--
-- In Isbd/Queue and Isbd/Service a call of the service or a round of its thread is one step. In
-- Isbd/Atomic each call of the kernel is one action, and between any two actions other threads run; the
-- terminal and the memory behind a pointer that only one thread has are used in one action.
--
-- Not modelled: the log messages, the Zephyr kernel and its drivers, what samples/isbd_app does besides
-- its loop of events, the other sample and the tests.
pub mod Prelude
pub mod Stru
pub mod Libc
pub mod Serial
pub mod ZUart
pub mod AtUart
pub mod Iridium
pub mod Isbd
pub mod Tests
