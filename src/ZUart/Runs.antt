-- ===== src/ZUart/Runs.antt =====
-- What interrupts and other threads do to a port.
use isbd_zephyr_module.Prelude.{
  ℕ, zero, suc, ◌+◌, ◌≤◌, ◌<◌, ◌≡◌, Bytes, Bool, true, false, ◌||◌, List, Option, none, some, [],
  ◌∷◌, ◌++◌, ◌==◌, ltb, if◌then◌else◌, length, take, append-nil, append_assoc, length-append,
  length-take, length-drop, take-append-drop, arith, refl, ap, sym, ◌∙◌, Bool-cases, inl, inr, peek,
}
use isbd_zephyr_module.ZUart.Kernel.{
  RingBuf, Sem, Uart, Moves, Event, interrupt, force_read, force_write, fifo_bytes,
}
use isbd_zephyr_module.ZUart.Port.{
  Port, by_irq, rx_byte, rx_isr, tx_byte, tx_isr, serve, isr, force_read_timeout,
  force_write_timeout, happens, all_happen, meanwhile,
}
use isbd_zephyr_module.ZUart.Transfer.{rx_work, tx_work}

kept_all :
    (o : Bool) (n b : ℕ) → n ≤ 1 → (o || n == 0) ≡ false → (o ≡ false) × (take n (b ∷ []) ≡ b ∷ [])
kept_all true n b h e = absurd (ground arith)
kept_all false zero b h e = absurd (ground arith)
kept_all false (suc zero) b h e = (refl, refl)
kept_all false (suc (suc n)) b h e = absurd (omega arith)

length-kept : (n b : ℕ) → length (take n (b ∷ [])) ≤ 1
length-kept n b = omega (arith, length-take n (b ∷ []))

take_peek : (s : Bytes) → 0 < length s → take 1 s ≡ peek (take 1 s) ∷ []
take_peek [] h = elim h [ ]
take_peek (b ∷ s) h = refl

put_one : {R : Type 0} ⦃ring : RingBuf R⦄ → (b : ℕ) (r : R) → (ring.put (b ∷ []) r).0 ≤ 1
put_one ⦃ring⦄ b r = omega (arith, ring.put_lem (b ∷ []) r)

module _ {R S D : Type 0} ⦃ring : RingBuf R⦄ ⦃sem : Sem S⦄ ⦃uart : Uart D⦄ where
  -- Between `p` and `q` the bytes `fresh` were taken off the line, of which the reception buffer got
  -- `kept`: all of them, if no overrun is recorded at the end. What is sent, and behind it what waits
  -- to be sent, stays as it is.
  pub record Runs (p q : Port R S D) : Type 0 where
    pub fresh : Bytes
    pub kept : Bytes
    pub arrived_eq : uart.arrived q.dev ≡ uart.arrived p.dev ++ fresh
    pub rx_eq : ring.items q.rx_rbuf ≡ ring.items p.rx_rbuf ++ kept
    pub lossless : q.overrun ≡ false → (p.overrun ≡ false) × (kept ≡ fresh)
    pub tx_eq : uart.sent q.dev ++ ring.items q.tx_rbuf ≡ uart.sent p.dev ++ ring.items p.tx_rbuf
    pub rx_work_le : rx_work q ≤ rx_work p
    pub tx_length_le : length (ring.items q.tx_rbuf) ≤ length (ring.items p.tx_rbuf)
    pub tx_space_le : ring.space_get p.tx_rbuf ≤ ring.space_get q.tx_rbuf
    pub tx_work_le : tx_work [] q ≤ tx_work [] p
    pub coming_le : uart.to_come q.dev + length kept ≤ uart.to_come p.dev
    pub until_le : (t : ℕ) → uart.until t q.dev ≤ uart.until t p.dev
    pub config_eq : q.config ≡ p.config
    pub err_eq : q.err ≡ p.err

  pub Runs-refl : (p : Port R S D) → Runs p p
  Runs-refl p = record {
    fresh = [];
    kept = [];
    arrived_eq = sym (append-nil (uart.arrived p.dev));
    rx_eq = sym (append-nil (ring.items p.rx_rbuf));
    lossless = λ h. (h, refl);
    tx_eq = refl;
    rx_work_le = omega arith;
    tx_length_le = omega arith;
    tx_space_le = omega arith;
    tx_work_le = omega arith;
    coming_le = omega arith;
    until_le = λ t. omega arith;
    config_eq = refl;
    err_eq = refl;
  }

  pub Runs-trans : (p q r : Port R S D) → Runs p q → Runs q r → Runs p r
  Runs-trans p q r x y = record {
    fresh = x.fresh ++ y.fresh;
    kept = x.kept ++ y.kept;
    arrived_eq =
        y.arrived_eq ∙ ap (λ s. s ++ y.fresh) x.arrived_eq ∙ append_assoc _ x.fresh y.fresh;
    rx_eq = y.rx_eq ∙ ap (λ s. s ++ y.kept) x.rx_eq ∙ append_assoc _ x.kept y.kept;
    lossless = λ h.
        let (a, b) = y.lossless h in
        let (c, d) = x.lossless a in (c, ap (λ s. s ++ y.kept) d ∙ ap (λ s. x.fresh ++ s) b);
    tx_eq = y.tx_eq ∙ x.tx_eq;
    rx_work_le = omega (arith, x.rx_work_le, y.rx_work_le);
    tx_length_le = omega (arith, x.tx_length_le, y.tx_length_le);
    tx_space_le = omega (arith, x.tx_space_le, y.tx_space_le);
    tx_work_le = omega (arith, x.tx_work_le, y.tx_work_le);
    coming_le = omega (arith, x.coming_le, y.coming_le, length-append x.kept y.kept);
    until_le = λ t. omega (arith, x.until_le t, y.until_le t);
    config_eq = y.config_eq ∙ x.config_eq;
    err_eq = y.err_eq ∙ x.err_eq;
  }

  -- A call of the driver that takes and puts nothing.
  pub Runs-quiet :
      (p : Port R S D) (d : D)
      → Moves uart.arrived uart.sent uart.to_come uart.until p.dev [] [] d
      → Runs p (record p { dev = d })
  unfolding rx_work tx_work
  Runs-quiet p d m = record {
    fresh = [];
    kept = [];
    arrived_eq = m.arrived_eq;
    rx_eq = sym (append-nil (ring.items p.rx_rbuf));
    lossless = λ h. (h, refl);
    tx_eq = ap (λ s. s ++ ring.items p.tx_rbuf) (m.sent_eq ∙ append-nil (uart.sent p.dev));
    rx_work_le = omega (arith, m.to_come_le);
    tx_length_le = omega arith;
    tx_space_le = omega arith;
    tx_work_le = omega arith;
    coming_le = m.to_come_le;
    until_le = m.until_le;
    config_eq = refl;
    err_eq = refl;
  }

  -- The byte that the driver hands over goes to the buffer, or is lost and an overrun is recorded.
  Runs-rx_byte :
      (p : Port R S D) (o : Option ℕ) (d : D)
      → Moves uart.arrived uart.sent uart.to_come uart.until p.dev (fifo_bytes o) [] d
      → Runs p (rx_byte o (record p { dev = d }))
  unfolding rx_work tx_work rx_byte
  Runs-rx_byte p none d m = Runs-quiet p d m
  Runs-rx_byte p (some b) d m = record {
    fresh = b ∷ [];
    kept = take (ring.put (b ∷ []) p.rx_rbuf).0 (b ∷ []);
    arrived_eq = m.arrived_eq;
    rx_eq = ring.items-put (b ∷ []) p.rx_rbuf;
    lossless = λ h. kept_all p.overrun (ring.put (b ∷ []) p.rx_rbuf).0 b (put_one b p.rx_rbuf) h;
    tx_eq = ap (λ s. s ++ ring.items p.tx_rbuf) (m.sent_eq ∙ append-nil (uart.sent p.dev));
    rx_work_le = omega (
      arith,
      m.to_come_le,
      ap length (ring.items-put (b ∷ []) p.rx_rbuf),
      length-append (ring.items p.rx_rbuf) (take (ring.put (b ∷ []) p.rx_rbuf).0 (b ∷ [])),
      length-kept (ring.put (b ∷ []) p.rx_rbuf).0 b,
      sem.count-give p.rx_sem,
    );
    tx_length_le = omega arith;
    tx_space_le = omega arith;
    tx_work_le = omega arith;
    coming_le = omega (arith, m.to_come_le, length-kept (ring.put (b ∷ []) p.rx_rbuf).0 b);
    until_le = m.until_le;
    config_eq = refl;
    err_eq = refl;
  }

  Runs-rx_isr : (p : Port R S D) → Runs p (rx_isr p)
  unfolding rx_isr
  Runs-rx_isr p =
      Runs-rx_byte p (uart.fifo_read p.dev).0 (uart.fifo_read p.dev).1 (uart.fifo_read_moves p.dev)

  -- The oldest byte that waits to be sent goes on the line.
  Runs-tx_byte : (p : Port R S D) → 0 < length (ring.items p.tx_rbuf) → Runs p (tx_byte p)
  unfolding rx_work tx_work tx_byte
  Runs-tx_byte p h =
      let got = (ring.get 1 p.tx_rbuf).0 in
      let m = uart.fifo_fill_moves (peek got) p.dev in
      let one : got ≡ peek got ∷ [] =
        rw (ring.get_lem 1 p.tx_rbuf) (take_peek (ring.items p.tx_rbuf) h) in
      record {
        fresh = [];
        kept = [];
        arrived_eq = m.arrived_eq;
        rx_eq = sym (append-nil (ring.items p.rx_rbuf));
        lossless = λ e. (e, refl);
        tx_eq =
            ap (λ s. s ++ ring.items (ring.get 1 p.tx_rbuf).1) m.sent_eq
            ∙ append_assoc (uart.sent p.dev) (peek got ∷ []) (ring.items (ring.get 1 p.tx_rbuf).1)
            ∙ ap (λ s. uart.sent p.dev ++ s)
                (ap (λ s. s ++ ring.items (ring.get 1 p.tx_rbuf).1)
                    (sym one ∙ ring.get_lem 1 p.tx_rbuf)
                  ∙ ap (λ s. take 1 (ring.items p.tx_rbuf) ++ s) (ring.items-get 1 p.tx_rbuf)
                  ∙ take-append-drop 1 (ring.items p.tx_rbuf));
        rx_work_le = omega (arith, m.to_come_le);
        tx_length_le =
            omega
              (arith, ap length (ring.items-get 1 p.tx_rbuf), length-drop 1 (ring.items p.tx_rbuf));
        tx_space_le = ring.space-get 1 p.tx_rbuf;
        tx_work_le = omega (
          arith,
          ap length (ring.items-get 1 p.tx_rbuf),
          length-drop 1 (ring.items p.tx_rbuf),
          sem.count-give p.tx_sem,
        );
        coming_le = m.to_come_le;
        until_le = m.until_le;
        config_eq = refl;
        err_eq = refl;
      }

  Runs-tx_isr : (p : Port R S D) → Runs p (tx_isr p)
  unfolding tx_isr
  Runs-tx_isr p = elim (Bool-cases (ltb 0 (ring.size_get p.tx_rbuf))) [
    | inl e ↦ rw e (Runs-tx_byte p (ground (arith, ring.size_get_lem p.tx_rbuf)))
    | inr e ↦ rw e (elim (Bool-cases (uart.irq_tx_complete p.dev)) [
      | inl c ↦ rw c (Runs-quiet p (uart.irq_tx_disable p.dev) (uart.irq_tx_disable_moves p.dev))
      | inr c ↦ rw c (Runs-refl p)
    ])
  ]

  Runs-if : (b : Bool) (p q r : Port R S D) → Runs p q → Runs p r → Runs p (if b then q else r)
  Runs-if true p q r x y = x
  Runs-if false p q r x y = y

  Runs-serve : (p : Port R S D) → Runs p (serve p)
  unfolding serve
  Runs-serve p =
      let q = if uart.irq_rx_ready p.dev then rx_isr p else p in
      let x : Runs p q =
        Runs-if (uart.irq_rx_ready p.dev) p (rx_isr p) p (Runs-rx_isr p) (Runs-refl p) in
      Runs-trans p q _ x
        (Runs-if (uart.irq_tx_ready q.dev) q (tx_isr q) q (Runs-tx_isr q) (Runs-refl q))

  pub Runs-isr : (p : Port R S D) → Runs p (isr p)
  unfolding isr
  Runs-isr p =
      let q : Port R S D = record p { dev = (uart.irq_update p.dev).1 } in
      let x : Runs p q = Runs-quiet p (uart.irq_update p.dev).1 (uart.irq_update_moves p.dev) in
      Runs-if (uart.irq_update p.dev).0 p (serve q) q (Runs-trans p q (serve q) x (Runs-serve q)) x

  -- A semaphore whose count does not grow.
  pub Runs-rx_sem :
      (p : Port R S D) (s : S) → sem.count s ≤ sem.count p.rx_sem → Runs p (record p { rx_sem = s })
  unfolding rx_work tx_work
  Runs-rx_sem p s h = record {
    fresh = [];
    kept = [];
    arrived_eq = sym (append-nil (uart.arrived p.dev));
    rx_eq = sym (append-nil (ring.items p.rx_rbuf));
    lossless = λ e. (e, refl);
    tx_eq = refl;
    rx_work_le = omega arith;
    tx_length_le = omega arith;
    tx_space_le = omega arith;
    tx_work_le = omega arith;
    coming_le = omega arith;
    until_le = λ t. omega arith;
    config_eq = refl;
    err_eq = refl;
  }

  pub Runs-tx_sem :
      (p : Port R S D) (s : S) → sem.count s ≤ sem.count p.tx_sem → Runs p (record p { tx_sem = s })
  unfolding rx_work tx_work
  Runs-tx_sem p s h = record {
    fresh = [];
    kept = [];
    arrived_eq = sym (append-nil (uart.arrived p.dev));
    rx_eq = sym (append-nil (ring.items p.rx_rbuf));
    lossless = λ e. (e, refl);
    tx_eq = refl;
    rx_work_le = omega arith;
    tx_length_le = omega arith;
    tx_space_le = omega arith;
    tx_work_le = omega arith;
    coming_le = omega arith;
    until_le = λ t. omega arith;
    config_eq = refl;
    err_eq = refl;
  }

  pub Runs-force_read : (p : Port R S D) → Runs p (force_read_timeout p)
  unfolding force_read_timeout
  Runs-force_read p =
      Runs-if (by_irq p.config.read_proto) p _ p
        (Runs-rx_sem p (sem.reset p.rx_sem) (omega (arith, sem.count-reset p.rx_sem))) (Runs-refl p)

  pub Runs-force_write : (p : Port R S D) → Runs p (force_write_timeout p)
  unfolding force_write_timeout
  Runs-force_write p =
      Runs-if (by_irq p.config.write_proto) p _ p
        (Runs-tx_sem p (sem.reset p.tx_sem) (omega (arith, sem.count-reset p.tx_sem))) (Runs-refl p)

  Runs-happens : (e : Event) (p : Port R S D) → Runs p (happens e p)
  unfolding happens
  Runs-happens interrupt p = Runs-isr p
  Runs-happens force_read p = Runs-force_read p
  Runs-happens force_write p = Runs-force_write p

  Runs-all_happen : (es : List Event) (p : Port R S D) → Runs p (all_happen es p)
  unfolding all_happen
  Runs-all_happen [] p = Runs-refl p
  Runs-all_happen (e ∷ es) p =
      Runs-trans p (happens e p) _ (Runs-happens e p) (Runs-all_happen es (happens e p))

  pub Runs-meanwhile : (p : Port R S D) → Runs p (meanwhile p)
  unfolding meanwhile
  Runs-meanwhile p =
      let q : Port R S D = record p { dev = (uart.events p.dev).1 } in
      Runs-trans p q _ (Runs-quiet p (uart.events p.dev).1 (uart.events_moves p.dev))
        (Runs-all_happen (uart.events p.dev).0 q)
