-- ===== src/Tests/Ports.antt =====
-- Reads and writes of a port on a scripted device.
use isbd_zephyr_module.Prelude.{
  ℕ, ◌+◌, ◌≤◌, ◌≡◌, ◌⊎◌, ◌↔◌, Bytes, true, false, [], ◌∷◌, ◌++◌, length, codes, arith, refl,
  replicate,
}
use isbd_zephyr_module.ZUart.Types.{ZuartErr, ok, setup}
use isbd_zephyr_module.ZUart.Kernel.{interrupt}
use isbd_zephyr_module.ZUart.Port.{
  by_irq, meanwhile, all_happen, happens, isr, serve, rx_isr, rx_byte, tx_isr, tx_byte, take_rx,
  take_tx, wait_rx, wait_tx,
}
use isbd_zephyr_module.ZUart.Transfer.{
  read_irq, read_irq_loop, read_irq_err, read_poll, write_irq, write_poll, rx_work, tx_work,
  ready_rx, ready_tx, get_rx, put_tx, write_irq_reset, write_irq_loop,
}
use isbd_zephyr_module.ZUart.ReadIrq.{Verdict, read_irq_lem, read_irq_loop_fuel}
use isbd_zephyr_module.ZUart.Writes.{Wrote, outgoing, incoming, write_irq_lem}
use isbd_zephyr_module.ZUart.Polls.{write_poll_lem, read_poll_lem}
use isbd_zephyr_module.ZUart.Setup.{zuart_setup, choose_protos}
use isbd_zephyr_module.ZUart.Setup.Laws.{lacks, Since, zuart_setup_lem}
use isbd_zephyr_module.Tests.Device.{Line, ring_double, sem_double, uart_double, port, irq_config}

-- Three bytes come, by an interrupt each: one before the read, two while it waits.
abbrev line : Line
line = record {
  coming = codes "abc";
  taken = [];
  placed = [];
  points = (interrupt ∷ []) ∷ [];
  waits = (interrupt ∷ []) ∷ (interrupt ∷ []) ∷ [];
  clock = 5;
}

-- Each wait for room has an interrupt.
abbrev slow : Line
slow = record {
  coming = [];
  taken = [];
  placed = [];
  points = [];
  waits = replicate 9 (interrupt ∷ []);
  clock = 5;
}

read_result : Bytes × ZuartErr
read_result = let (got, q) = read_irq 3 1000 (port line) in (got, q.err)

read_test : read_result ≡ (codes "abc", ZuartErr.ok)
unfolding read_result read_irq read_irq_loop read_irq_err rx_work ready_rx get_rx meanwhile
    all_happen happens isr serve rx_isr rx_byte tx_isr tx_byte take_rx wait_rx
read_test = refl

write_result : ℕ × Bytes
write_result = let (n, q) = write_irq (codes "abcdef") 1000 (port slow) in (n, outgoing q)

write_test : write_result ≡ (6, codes "abcdef")
unfolding write_result write_irq write_irq_reset write_irq_loop tx_work ready_tx put_tx meanwhile
    all_happen happens isr serve rx_isr rx_byte tx_isr tx_byte take_tx wait_tx
write_test = refl

read_irq_lem_example :
    let (got, q) = read_irq 3 1000 (port line) in
    (fresh : Bytes) × (kept : Bytes) × (q.dev.taken ≡ [] ++ fresh)
    × (got ++ q.rx_rbuf.held ≡ [] ++ kept)
    × (length got ≤ 3)
    × (q.overrun ≡ false)
    × Verdict (port line) 3 1000 got kept fresh q.err
read_irq_lem_example = read_irq_lem 3 1000 (port line)

read_irq_loop_fuel_example :
    read_irq_loop 20 1000 3 (port line) ≡ read_irq_loop 30 1000 3 (port line)
unfolding rx_work
read_irq_loop_fuel_example = read_irq_loop_fuel 20 30 1000 3 (port line) (omega arith) (omega arith)

write_irq_lem_example :
    Wrote (codes "abcdef") (port slow) (write_irq (codes "abcdef") 1000 (port slow))
write_irq_lem_example = write_irq_lem (codes "abcdef") 1000 (port slow) (omega arith)

write_poll_lem_example :
    let (n, q) = write_poll (codes "abc") (port slow) in
    (n ≡ 3) × (q.dev.placed ≡ [] ++ codes "abc")
write_poll_lem_example = write_poll_lem (codes "abc") (port slow) refl

read_poll_lem_example :
    let (got, q) = read_poll 5 2 (port line) in
    (length got ≤ 5)
    × ((length got ≡ 5) ⊎ (q.err ≡ ZuartErr.timeout) ⊎ (q.err ≡ ZuartErr.err))
    × (outgoing q ≡ outgoing (port line))
    × (incoming q + length got ≤ incoming (port line))
read_poll_lem_example = read_poll_lem 5 2 (port line) (omega arith)

abbrev early : Line
early = record {
  coming = codes "x";
  taken = [];
  placed = [];
  points = (interrupt ∷ []) ∷ [];
  waits = [];
  clock = 0;
}

-- A byte comes in as soon as the interrupts of the reception are enabled.
zuart_setup_lem_example :
    let (e, q) = zuart_setup irq_config (port early) in
    let d = choose_protos irq_config in
    (q.config ≡ d)
    × ((e ≡ ok) ↔ (
        (lacks d.read_proto d.rx_buf d.rx_buf_size ≡ false)
        × (lacks d.write_proto d.tx_buf d.tx_buf_size ≡ false)))
    × ((e ≡ ok) ⊎ (e ≡ setup))
    × (e ≡ ok → by_irq d.read_proto ≡ true → Since [] q)
    × (e ≡ ok → by_irq d.write_proto ≡ true → q.tx_rbuf.held ≡ [])
zuart_setup_lem_example = zuart_setup_lem irq_config (port early)
