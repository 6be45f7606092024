-- ===== src/ZUart/Handed.antt =====
-- `zuart_write`, by whatever protocol, as lib/at_uart relies on it.
use isbd_zephyr_module.Prelude.{
  ℕ, zero, suc, ◌≤◌, ◌≡◌, Bytes, true, false, Option, none, some, [], ◌∷◌, ◌++◌, length, min, take,
  take-length, append-nil, append_assoc, arith, refl, ap, sym, ◌∙◌,
}
use isbd_zephyr_module.ZUart.Types.{Proto, irq_proto, poll_proto, ZuartConfig}
use isbd_zephyr_module.ZUart.Kernel.{RingBuf, Sem, Uart}
use isbd_zephyr_module.ZUart.Port.{Port, by_irq, meanwhile}
use isbd_zephyr_module.ZUart.Transfer.{
  put_tx, write_irq, write_irq_reset, write_poll, write_by, write,
}
use isbd_zephyr_module.ZUart.Runs.{Runs, Runs-trans, Runs-meanwhile, Runs-tx_sem}
use isbd_zephyr_module.ZUart.Writes.{
  outgoing, incoming, Writes, Writes-Runs, Writes-trans, put_tx-Writes, put_tx_count, write_irq_lem,
}
use isbd_zephyr_module.ZUart.PollReads.{Takes-Runs}
use isbd_zephyr_module.ZUart.Polls.{Runs-idle, Runs-sent}
use isbd_zephyr_module.ZUart.Served.{port_in_order, empty_of}

module _ {R S D : Type 0} ⦃ring : RingBuf R⦄ ⦃sem : Sem S⦄ ⦃uart : Uart D⦄ where
  -- What a write of `src` does: it takes a prefix, which goes behind all that was to be sent where no
  -- write overtakes another.
  pub record Handed (src : Bytes) (p : Port R S D) (r : ℕ × Port R S D) : Type 0 where
    pub at_most : r.0 ≤ length src
    pub incoming_le : incoming r.1 ≤ incoming p
    pub config_eq : r.1.config ≡ p.config
    pub in_turn :
        port_in_order p ≡ true
        → (outgoing r.1 ≡ outgoing p ++ take r.0 src) × (port_in_order r.1 ≡ true)

  Writes-Handed :
      (src : Bytes) (p : Port R S D) (n : ℕ) (q : Port R S D)
      → by_irq p.config.write_proto ≡ true
      → n ≤ length src
      → Writes p (take n src) q
      → Handed src p (n, q)
  Writes-Handed src p n q e h w = record {
    at_most = h;
    incoming_le = w.incoming_le;
    config_eq = w.config_eq;
    in_turn = λ o.
        (w.tx_eq, ground (arith, ap (λ (k : ZuartConfig). by_irq k.write_proto) w.config_eq, e));
  }

  write_irq-Handed :
      (src : Bytes) (t : ℕ) (p : Port R S D)
      → by_irq p.config.write_proto ≡ true
      → Handed src p (write_irq src t p)
  unfolding write_irq write_irq_reset
  write_irq-Handed src zero p e =
      let q : Port R S D = record p { tx_sem = sem.reset p.tx_sem } in
      let m = meanwhile q in
      let x : Runs p q =
        Runs-tx_sem p (sem.reset p.tx_sem) (omega (arith, sem.count-reset p.tx_sem)) in
      let y = Writes-Runs p m (Runs-trans p q m x (Runs-meanwhile q)) in
      let c = put_tx_count src m in now src p m e y c
    where
      now :
          (src : Bytes) (p m : Port R S D)
          → by_irq p.config.write_proto ≡ true
          → Writes p [] m
          → (put_tx src m).0 ≡ min (length src) (ring.space_get m.tx_rbuf)
          → Handed src p (put_tx src m)
      now src p m e y c =
          Writes-Handed src p _ _ e (omega (arith, c))
            (Writes-trans p m _ [] _ y (put_tx-Writes src m))
  write_irq-Handed src (suc t) p e =
      let w = write_irq_lem src (suc t) p (omega arith) in
      Writes-Handed src p _ _ e w.at_most w.writes

  -- What a write by polling does, and where nothing waits to be sent.
  record Polls (src : Bytes) (p : Port R S D) (r : ℕ × Port R S D) : Type 0 where
    whole : r.0 ≡ length src
    incoming_le : incoming r.1 ≤ incoming p
    config_eq : r.1.config ≡ p.config
    idle :
        ring.items p.tx_rbuf ≡ []
        → (ring.items r.1.tx_rbuf ≡ []) × (outgoing r.1 ≡ outgoing p ++ src)

  write_poll-Polls : (src : Bytes) (p : Port R S D) → Polls src p (write_poll src p)
  unfolding write_poll
  write_poll-Polls [] p = record {
    whole = refl;
    incoming_le = omega arith;
    config_eq = refl;
    idle = λ h. (h, sym (append-nil (outgoing p)));
  }
  write_poll-Polls (b ∷ src) p =
      let m = meanwhile p in
      let x = Runs-meanwhile p in
      let v = Takes-Runs p m x in
      let o = uart.poll_out_moves b m.dev in
      let q : Port R S D = record m { dev = uart.poll_out b m.dev } in
      let y = write_poll-Polls src q in
      record {
        whole = ap suc y.whole;
        incoming_le = omega (arith, y.incoming_le, o.to_come_le, v.incoming_le);
        config_eq = y.config_eq ∙ x.config_eq;
        idle = λ h.
            let idle_m = Runs-idle p m x h in
            let (i, w) = y.idle idle_m in
            (
              i,
              w
                  ∙ ap (λ s. s ++ src) (out_one p m b x h o.sent_eq idle_m)
                  ∙ append_assoc (outgoing p) (b ∷ []) src,
            );
      }
    where
      out_one :
          (p m : Port R S D) (b : ℕ)
          → Runs p m
          → ring.items p.tx_rbuf ≡ []
          → uart.sent (uart.poll_out b m.dev) ≡ uart.sent m.dev ++ b ∷ []
          → ring.items m.tx_rbuf ≡ []
          → uart.sent (uart.poll_out b m.dev) ++ ring.items m.tx_rbuf ≡ outgoing p ++ b ∷ []
      out_one p m b x h e i =
          ap (λ s. uart.sent (uart.poll_out b m.dev) ++ s) i
          ∙ append-nil _
          ∙ e
          ∙ ap (λ s. s ++ b ∷ []) (Runs-sent p m x h)
          ∙ ap (λ s. s ++ b ∷ []) (sym (append-nil (uart.sent p.dev)))
          ∙ ap (λ s. (uart.sent p.dev ++ s) ++ b ∷ []) (sym h)

  idle_port :
      (p : Port R S D)
      → by_irq p.config.write_proto ≡ false
      → port_in_order p ≡ true
      → ring.items p.tx_rbuf ≡ []
  idle_port p e o =
      empty_of (ring.items p.tx_rbuf) (ground (arith, ring.is_empty_lem p.tx_rbuf, e, o))

  idle-in_order : (p : Port R S D) → ring.items p.tx_rbuf ≡ [] → port_in_order p ≡ true
  idle-in_order p h = ground (arith, ring.is_empty_lem p.tx_rbuf, ap length h)

  write_poll-Handed :
      (src : Bytes) (p : Port R S D)
      → by_irq p.config.write_proto ≡ false
      → Handed src p (write_poll src p)
  write_poll-Handed src p e =
      let y = write_poll-Polls src p in
      record {
        at_most = omega (arith, y.whole);
        incoming_le = y.incoming_le;
        config_eq = y.config_eq;
        in_turn = λ o.
            let (i, w) = y.idle (idle_port p e o) in
            (
              w
                  ∙ ap (λ s. outgoing p ++ s) (sym (take-length src))
                  ∙ ap (λ n. outgoing p ++ take n src) (sym y.whole),
              idle-in_order (write_poll src p).1 i,
            );
      }

  write_by-Handed :
      (proto : Option Proto) (src : Bytes) (t : ℕ) (p : Port R S D)
      → p.config.write_proto ≡ proto
      → Handed src p (write_by proto src t p)
  unfolding write_by
  write_by-Handed (some irq_proto) src t p e = write_irq-Handed src t p (ap by_irq e)
  write_by-Handed (some poll_proto) src t p e = write_poll-Handed src p (ap by_irq e)
  write_by-Handed none src t p e = record {
    at_most = omega arith;
    incoming_le = omega arith;
    config_eq = refl;
    in_turn = λ o. (sym (append-nil (outgoing p)), o);
  }

  pub write-Handed : (src : Bytes) (t : ℕ) (p : Port R S D) → Handed src p (write src t p)
  unfolding write
  write-Handed src t p = write_by-Handed p.config.write_proto src t p refl
