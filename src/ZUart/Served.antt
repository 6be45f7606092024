-- ===== src/ZUart/Served.antt =====
-- `zuart_read`, by whatever protocol, as lib/at_uart relies on it.
use isbd_zephyr_module.Prelude.{
  ℕ, suc, ◌+◌, ◌≤◌, ◌≡◌, Bytes, Bool, true, ◌||◌, Option, none, some, [], ◌∷◌, ◌++◌, ◌==◌, length,
  length-append, arith, refl, ap, ◌∙◌, Bool-cases, inl, inr,
}
use isbd_zephyr_module.ZUart.Types.{Proto, irq_proto, poll_proto, ZuartConfig}
use isbd_zephyr_module.ZUart.Kernel.{RingBuf, Sem, Uart}
use isbd_zephyr_module.ZUart.Port.{Port, by_irq, meanwhile}
use isbd_zephyr_module.ZUart.Transfer.{
  read_irq_loop, read_irq_err, read_irq, read_poll, read_by, read, rx_work,
}
use isbd_zephyr_module.ZUart.Runs.{Runs-quiet, Runs-meanwhile}
use isbd_zephyr_module.ZUart.Reads.{Reads, Reads-Runs}
use isbd_zephyr_module.ZUart.ReadIrq.{read_irq_loop-Got, err_rest}
use isbd_zephyr_module.ZUart.Writes.{outgoing, incoming}
use isbd_zephyr_module.ZUart.PollReads.{Takes, Takes-Runs, Takes-trans, read_poll_now-Takes}
use isbd_zephyr_module.ZUart.Polls.{read_poll_loop-Polled}

pub empty_of : (s : Bytes) → (length s == 0) ≡ true → s ≡ []
empty_of [] h = refl
empty_of (b ∷ s) h = absurd (ground arith)

module _ {R S D : Type 0} ⦃ring : RingBuf R⦄ ⦃sem : Sem S⦄ ⦃uart : Uart D⦄ where
  -- A write by interrupts goes behind what waits in the buffer; a write by polling overtakes it.
  abbrev pub port_in_order : Port R S D → Bool
  port_in_order p = by_irq p.config.write_proto || ring.is_empty p.tx_rbuf

  -- The port behind a read that got these bytes.
  pub record Served (n : ℕ) (p : Port R S D) (r : Bytes × Port R S D) : Type 0 where
    pub at_most : length r.0 ≤ n
    pub tx_eq : outgoing r.1 ≡ outgoing p
    pub incoming_le : incoming r.1 + length r.0 ≤ incoming p
    pub tx_length_le : length (ring.items r.1.tx_rbuf) ≤ length (ring.items p.tx_rbuf)
    pub config_eq : r.1.config ≡ p.config

  Takes-Served :
      (n : ℕ) (p : Port R S D) (got : Bytes) (q : Port R S D)
      → length got ≤ n
      → Takes p got q
      → Served n p (got, q)
  Takes-Served n p got q h x = record {
    at_most = h;
    tx_eq = x.tx_eq;
    incoming_le = x.incoming_le;
    tx_length_le = x.tx_length_le;
    config_eq = x.config_eq;
  }

  read_irq-Served : (n t : ℕ) (p : Port R S D) → Served n p (read_irq n t p)
  unfolding read_irq
  read_irq-Served n t p =
      let ((s, got), p') = read_irq_loop (suc (rx_work p)) t n p in
      let g = read_irq_loop-Got (suc (rx_work p)) t n p in
      let q = meanwhile p' in
      let r : Reads p got q = Reads-Runs p p' q got g.reads (Runs-meanwhile p') in
      let (d, x, y, c, _) = err_rest t s q in
      let z = read_irq_err t s q in
      let dev_le : uart.to_come z.dev ≡ uart.to_come q.dev = ap uart.to_come d in
      let rx_le = ap (λ b. length (ring.items b)) x in
      let tx_le = ap (λ b. length (ring.items b)) y in
      record {
        at_most = g.at_most;
        tx_eq =
            ap (λ e. uart.sent e ++ ring.items z.tx_rbuf) d
            ∙ ap (λ b. uart.sent q.dev ++ ring.items b) y
            ∙ r.tx_eq;
        incoming_le = omega (
          arith,
          dev_le,
          rx_le,
          r.coming_le,
          ap length r.rx_eq,
          length-append got (ring.items q.rx_rbuf),
          length-append (ring.items p.rx_rbuf) r.kept,
        );
        tx_length_le = omega (arith, tx_le, r.tx_length_le);
        config_eq = c ∙ r.config_eq;
      }

  read_poll-Served : (n t : ℕ) (p : Port R S D) → Served n p (read_poll n t p)
  unfolding read_poll
  read_poll-Served n t p = elim (Bool-cases (t == 0)) [
    | inl e ↦ let (x, l) = read_poll_now-Takes n p in rw e (Takes-Served n p _ _ l x)
    | inr e ↦
        let (ts_old, d) = uart.uptime p.dev in
        let q : Port R S D = record p { dev = d } in
        let x = Takes-Runs p q (Runs-quiet p d (uart.uptime_moves p.dev)) in
        let (y, l, _) =
          read_poll_loop-Polled (suc (uart.until (ts_old + t) d)) ts_old t n q (omega arith) in
        rw e (Takes-Served n p _ _ l (Takes-trans p q _ [] _ x y))
  ]

  read_by-Served :
      (proto : Option Proto) (n t : ℕ) (p : Port R S D) → Served n p (read_by proto n t p)
  unfolding read_by
  read_by-Served (some irq_proto) n t p = read_irq-Served n t p
  read_by-Served (some poll_proto) n t p = read_poll-Served n t p
  read_by-Served none n t p = record {
    at_most = omega arith;
    tx_eq = refl;
    incoming_le = omega arith;
    tx_length_le = omega arith;
    config_eq = refl;
  }

  pub read-Served : (n t : ℕ) (p : Port R S D) → Served n p (read n t p)
  unfolding read
  read-Served n t p = read_by-Served p.config.read_proto n t p

  pub in_order-kept :
      (p q : Port R S D)
      → length (ring.items q.tx_rbuf) ≤ length (ring.items p.tx_rbuf)
      → q.config ≡ p.config
      → port_in_order p ≡ true
      → port_in_order q ≡ true
  in_order-kept p q l c h = ground (
    arith,
    ring.is_empty_lem p.tx_rbuf,
    ring.is_empty_lem q.tx_rbuf,
    ap (λ (k : ZuartConfig). by_irq k.write_proto) c,
  )
