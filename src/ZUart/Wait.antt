-- ===== src/ZUart/Wait.antt =====
-- A thread that waits for a semaphore of a port.
use isbd_zephyr_module.Prelude.{
  ℕ, ◌<◌, ◌≡◌, Bool, true, false, List, [], ◌∷◌, ltb, if◌then◌else◌, arith, refl, Bool-cases, inl,
  inr,
}
use isbd_zephyr_module.ZUart.Kernel.{RingBuf, Sem, Uart, Event, interrupt, force_read, force_write}
use isbd_zephyr_module.ZUart.Port.{
  Port, by_irq, isr, force_read_timeout, force_write_timeout, wait_rx, wait_tx, take_rx, take_tx,
}
use isbd_zephyr_module.ZUart.Transfer.{rx_work, tx_work}
use isbd_zephyr_module.ZUart.Runs.{
  Runs, Runs-refl, Runs-trans, Runs-quiet, Runs-isr, Runs-rx_sem, Runs-tx_sem, Runs-force_read,
  Runs-force_write,
}

module _ {R S D : Type 0} ⦃ring : RingBuf R⦄ ⦃sem : Sem S⦄ ⦃uart : Uart D⦄ where
  -- The wait is a run; one that succeeds leaves less to do.
  pub record RxWait (p : Port R S D) (r : Bool × Port R S D) : Type 0 where
    pub runs : Runs p r.1
    pub less : r.0 ≡ true → rx_work r.1 < rx_work p

  pub record TxWait (p : Port R S D) (r : Bool × Port R S D) : Type 0 where
    pub runs : Runs p r.1
    pub less : r.0 ≡ true → tx_work [] r.1 < tx_work [] p

  taken_rx :
      (p : Port R S D)
      → 0 < sem.count p.rx_sem
      → RxWait p (true, record p { rx_sem = sem.take p.rx_sem })
  unfolding rx_work
  taken_rx p h = record {
    runs = Runs-rx_sem p (sem.take p.rx_sem) (omega (arith, sem.count-take p.rx_sem h));
    less = λ e. omega (arith, sem.count-take p.rx_sem h);
  }

  taken_tx :
      (p : Port R S D)
      → 0 < sem.count p.tx_sem
      → TxWait p (true, record p { tx_sem = sem.take p.tx_sem })
  unfolding tx_work
  taken_tx p h = record {
    runs = Runs-tx_sem p (sem.take p.tx_sem) (omega (arith, sem.count-take p.tx_sem h));
    less = λ e. omega (arith, sem.count-take p.tx_sem h);
  }

  RxWait-after : (p q : Port R S D) (r : Bool × Port R S D) → Runs p q → RxWait q r → RxWait p r
  RxWait-after p q r x y = record {
    runs = Runs-trans p q r.1 x y.runs;
    less = λ e. omega (arith, x.rx_work_le, y.less e);
  }

  TxWait-after : (p q : Port R S D) (r : Bool × Port R S D) → Runs p q → TxWait q r → TxWait p r
  TxWait-after p q r x y = record {
    runs = Runs-trans p q r.1 x y.runs;
    less = λ e. omega (arith, x.tx_work_le, y.less e);
  }

  RxWait-none : (p q : Port R S D) → Runs p q → RxWait p (false, q)
  RxWait-none p q x = record { runs = x; less = λ e. absurd (ground arith) }

  TxWait-none : (p q : Port R S D) → Runs p q → TxWait p (false, q)
  TxWait-none p q x = record { runs = x; less = λ e. absurd (ground arith) }

  wait_rx-RxWait : (es : List Event) (p : Port R S D) → RxWait p (wait_rx es p)
  unfolding wait_rx
  wait_rx-RxWait [] p = RxWait-none p p (Runs-refl p)
  wait_rx-RxWait (interrupt ∷ es) p = elim (Bool-cases (ltb 0 (sem.count (isr p).rx_sem))) [
    | inl e ↦
        rw (e, wait_rx) (RxWait-after p (isr p) _ (Runs-isr p) (taken_rx (isr p) (ground arith)))
    | inr e ↦ rw (e, wait_rx) (RxWait-after p (isr p) _ (Runs-isr p) (wait_rx-RxWait es (isr p)))
  ]
  wait_rx-RxWait (force_read ∷ es) p = elim (Bool-cases (by_irq p.config.read_proto)) [
    | inl e ↦ rw (e, wait_rx) (RxWait-none p _ (Runs-force_read p))
    | inr e ↦ rw (e, wait_rx) (wait_rx-RxWait es p)
  ]
  wait_rx-RxWait (force_write ∷ es) p =
      RxWait-after p (force_write_timeout p) _ (Runs-force_write p)
        (wait_rx-RxWait es (force_write_timeout p))

  wait_tx-TxWait : (es : List Event) (p : Port R S D) → TxWait p (wait_tx es p)
  unfolding wait_tx
  wait_tx-TxWait [] p = TxWait-none p p (Runs-refl p)
  wait_tx-TxWait (interrupt ∷ es) p = elim (Bool-cases (ltb 0 (sem.count (isr p).tx_sem))) [
    | inl e ↦
        rw (e, wait_tx) (TxWait-after p (isr p) _ (Runs-isr p) (taken_tx (isr p) (ground arith)))
    | inr e ↦ rw (e, wait_tx) (TxWait-after p (isr p) _ (Runs-isr p) (wait_tx-TxWait es (isr p)))
  ]
  wait_tx-TxWait (force_read ∷ es) p =
      TxWait-after p (force_read_timeout p) _ (Runs-force_read p)
        (wait_tx-TxWait es (force_read_timeout p))
  wait_tx-TxWait (force_write ∷ es) p = elim (Bool-cases (by_irq p.config.write_proto)) [
    | inl e ↦ rw (e, wait_tx) (TxWait-none p _ (Runs-force_write p))
    | inr e ↦ rw (e, wait_tx) (wait_tx-TxWait es p)
  ]

  RxWait-if :
      (b : Bool) (p : Port R S D) (r s : Bool × Port R S D)
      → (b ≡ true → RxWait p r)
      → RxWait p s
      → RxWait p (if b then r else s)
  RxWait-if true p r s x y = x refl
  RxWait-if false p r s x y = y

  TxWait-if :
      (b : Bool) (p : Port R S D) (r s : Bool × Port R S D)
      → (b ≡ true → TxWait p r)
      → TxWait p s
      → TxWait p (if b then r else s)
  TxWait-if true p r s x y = x refl
  TxWait-if false p r s x y = y

  pub take_rx-RxWait : (t : ℕ) (p : Port R S D) → RxWait p (take_rx t p)
  unfolding take_rx
  take_rx-RxWait t p =
      let q : Port R S D = record p { dev = (uart.window t p.dev).1 } in
      RxWait-if _ p _ _ (λ e. taken_rx p (ground arith))
        (RxWait-if _ p _ _ (λ e. RxWait-none p p (Runs-refl p))
          (RxWait-after p q _ (Runs-quiet p (uart.window t p.dev).1 (uart.window_moves t p.dev))
            (wait_rx-RxWait (uart.window t p.dev).0 q)))

  pub take_tx-TxWait : (t : ℕ) (p : Port R S D) → TxWait p (take_tx t p)
  unfolding take_tx
  take_tx-TxWait t p =
      let q : Port R S D = record p { dev = (uart.window t p.dev).1 } in
      TxWait-if _ p _ _ (λ e. taken_tx p (ground arith))
        (TxWait-if _ p _ _ (λ e. TxWait-none p p (Runs-refl p))
          (TxWait-after p q _ (Runs-quiet p (uart.window t p.dev).1 (uart.window_moves t p.dev))
            (wait_tx-TxWait (uart.window t p.dev).0 q)))
