-- ===== src/ZUart/Line.antt =====
-- A port of lib/zuart is what lib/at_uart expects: the interface Serial over `zuart_read`, `zuart_write`,
-- `zuart_drain` and `zuart_setup`, by interrupts, by polling or mixed.
use isbd_zephyr_module.Prelude.{ℕ, ◌≤◌, ◌≡◌, true, length, arith, refl, ap}
use isbd_zephyr_module.Serial.{Serial}
use isbd_zephyr_module.ZUart.Kernel.{RingBuf, Sem, Uart}
use isbd_zephyr_module.ZUart.Port.{Port}
use isbd_zephyr_module.ZUart.Transfer.{read, write}
use isbd_zephyr_module.ZUart.Setup.{get_err, drain, zuart_setup}
use isbd_zephyr_module.ZUart.Setup.Laws.{drain_lem}
use isbd_zephyr_module.ZUart.Writes.{outgoing, incoming}
use isbd_zephyr_module.ZUart.Served.{port_in_order, read-Served, in_order-kept}
use isbd_zephyr_module.ZUart.Handed.{write-Handed}

module _ {R S D : Type 0} ⦃ring : RingBuf R⦄ ⦃sem : Sem S⦄ ⦃uart : Uart D⦄ where
  pub drain-incoming : (p : Port R S D) → incoming (drain p).1 ≤ incoming p
  unfolding drain
  drain-incoming p = omega (arith, ap length (drain_lem p).1)

  pub drain-outgoing : (p : Port R S D) → outgoing (drain p).1 ≡ outgoing p
  unfolding drain
  drain-outgoing p = refl

  pub drain-in_order : (p : Port R S D) → port_in_order p ≡ true → port_in_order (drain p).1 ≡ true
  unfolding drain
  drain-in_order p h = h

  pub read-in_order :
      (n t : ℕ) (p : Port R S D) → port_in_order p ≡ true → port_in_order (read n t p).1 ≡ true
  read-in_order n t p h =
      let x = read-Served n t p in in_order-kept p (read n t p).1 x.tx_length_le x.config_eq h

instance abbrev pub port_line :
    {R S D : Type 0} ⦃ring : RingBuf R⦄ ⦃sem : Sem S⦄ ⦃uart : Uart D⦄ → Serial (Port R S D)
port_line ⦃ring⦄ ⦃sem⦄ ⦃uart⦄ = record {
  read = read;
  write = write;
  drain = drain;
  get_err = get_err;
  setup = zuart_setup;
  no_flow_control = λ p. uart.no_flow_control p.dev;
  pending = incoming;
  sent = outgoing;
  in_order = port_in_order;
  read_le = λ n t p. (read-Served n t p).at_most;
  read_pending = λ n t p. (read-Served n t p).incoming_le;
  write_le = λ s t p. (write-Handed s t p).at_most;
  write_pending = λ s t p. (write-Handed s t p).incoming_le;
  drain_pending = drain-incoming;
  sent-read = λ n t p. (read-Served n t p).tx_eq;
  sent-write = λ s t p h. ((write-Handed s t p).in_turn h).0;
  sent-drain = drain-outgoing;
  in_order-read = read-in_order;
  in_order-write = λ s t p h. ((write-Handed s t p).in_turn h).1;
  in_order-drain = drain-in_order;
}
