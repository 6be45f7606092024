-- ===== src/ZUart/Port.antt =====
-- The structure of lib/zuart/inc/zuart.h and the interrupt handlers of lib/zuart/zuart.c.
use isbd_zephyr_module.Prelude.{
  ℕ, Bool, true, false, ◌||◌, List, Option, none, some, [], ◌∷◌, ◌==◌, ltb, if◌then◌else◌, peek,
}
use isbd_zephyr_module.ZUart.Types.{ZuartErr, Proto, irq_proto, poll_proto, ZuartConfig}
use isbd_zephyr_module.ZUart.Kernel.{RingBuf, Sem, Uart, Event, interrupt, force_read, force_write}

-- `struct zuart`, over the ring buffers, semaphores and the device; `overrun` is the bit FLAG_OVERRUN
-- of `flags`, the only one in use.
pub record Port (R S D : Type 0) : Type 0 where
  pub overrun : Bool
  pub err : ZuartErr
  pub dev : D
  pub rx_sem : S
  pub tx_sem : S
  pub rx_rbuf : R
  pub tx_rbuf : R
  pub config : ZuartConfig

-- Is a protocol that of interrupts?
abbrev pub by_irq : Option Proto → Bool
by_irq none = false
by_irq (some irq_proto) = true
by_irq (some poll_proto) = false

module _ {R S D : Type 0} ⦃ring : RingBuf R⦄ ⦃sem : Sem S⦄ ⦃uart : Uart D⦄ where
  -- `_uart_rx_isr`, behind `uart_fifo_read`.
  unfoldable pub rx_byte : Option ℕ → Port R S D → Port R S D
  rx_byte none p = p
  rx_byte (some b) p =
      let (n, r) = ring.put (b ∷ []) p.rx_rbuf in
      record p { rx_rbuf = r; overrun = p.overrun || n == 0; rx_sem = sem.give p.rx_sem }

  unfoldable pub rx_isr : Port R S D → Port R S D
  rx_isr p = let (b, d) = uart.fifo_read p.dev in rx_byte b (record p { dev = d })

  -- `_uart_tx_isr` with something to send.
  unfoldable pub tx_byte : Port R S D → Port R S D
  tx_byte p =
      let (got, r) = ring.get 1 p.tx_rbuf in
      record p { tx_rbuf = r; dev = uart.fifo_fill (peek got) p.dev; tx_sem = sem.give p.tx_sem }

  unfoldable pub tx_isr : Port R S D → Port R S D
  tx_isr p =
      if ltb 0 (ring.size_get p.tx_rbuf)
      then tx_byte p
      else if uart.irq_tx_complete p.dev
      then record p { dev = uart.irq_tx_disable p.dev }
      else p

  -- `_uart_isr` behind `uart_irq_update`.
  unfoldable pub serve : Port R S D → Port R S D
  serve p =
      let p₁ = if uart.irq_rx_ready p.dev then rx_isr p else p in
      if uart.irq_tx_ready p₁.dev then tx_isr p₁ else p₁

  unfoldable pub isr : Port R S D → Port R S D
  isr p =
      let (u, d) = uart.irq_update p.dev in
      if u then serve (record p { dev = d }) else record p { dev = d }

  unfoldable pub force_read_timeout : Port R S D → Port R S D
  force_read_timeout p =
      if by_irq p.config.read_proto then record p { rx_sem = sem.reset p.rx_sem } else p

  unfoldable pub force_write_timeout : Port R S D → Port R S D
  force_write_timeout p =
      if by_irq p.config.write_proto then record p { tx_sem = sem.reset p.tx_sem } else p

  unfoldable pub happens : Event → Port R S D → Port R S D
  happens interrupt p = isr p
  happens force_read p = force_read_timeout p
  happens force_write p = force_write_timeout p

  unfoldable pub all_happen : List Event → Port R S D → Port R S D
  all_happen [] p = p
  all_happen (e ∷ es) p = all_happen es (happens e p)

  -- What happens before the next statement.
  unfoldable pub meanwhile : Port R S D → Port R S D
  meanwhile p = let (es, d) = uart.events p.dev in all_happen es (record p { dev = d })

  -- A thread that waits in `k_sem_take` for a semaphore, while events happen: it wakes when the
  -- semaphore is given, and gives up when it is reset or the time is over.
  unfoldable pub wait_rx : List Event → Port R S D → Bool × Port R S D
  wait_rx [] p = (false, p)
  wait_rx (interrupt ∷ es) p =
      let p' = isr p in
      elim (ltb 0 (sem.count p'.rx_sem)) [
        | true ↦ (true, record p' { rx_sem = sem.take p'.rx_sem })
        | false ↦ wait_rx es p'
      ]
  wait_rx (force_read ∷ es) p = elim (by_irq p.config.read_proto) [
    | true ↦ (false, force_read_timeout p)
    | false ↦ wait_rx es p
  ]
  wait_rx (force_write ∷ es) p = wait_rx es (force_write_timeout p)

  unfoldable pub wait_tx : List Event → Port R S D → Bool × Port R S D
  wait_tx [] p = (false, p)
  wait_tx (interrupt ∷ es) p =
      let p' = isr p in
      elim (ltb 0 (sem.count p'.tx_sem)) [
        | true ↦ (true, record p' { tx_sem = sem.take p'.tx_sem })
        | false ↦ wait_tx es p'
      ]
  wait_tx (force_read ∷ es) p = wait_tx es (force_read_timeout p)
  wait_tx (force_write ∷ es) p = elim (by_irq p.config.write_proto) [
    | true ↦ (false, force_write_timeout p)
    | false ↦ wait_tx es p
  ]

  -- `k_sem_take( &zuart->rx_sem, K_MSEC( t ) )`: does it return 0?
  unfoldable pub take_rx : ℕ → Port R S D → Bool × Port R S D
  take_rx t p =
      if ltb 0 (sem.count p.rx_sem)
      then (true, record p { rx_sem = sem.take p.rx_sem })
      else if t == 0
      then (false, p)
      else (let (es, d) = uart.window t p.dev in wait_rx es (record p { dev = d }))

  unfoldable pub take_tx : ℕ → Port R S D → Bool × Port R S D
  take_tx t p =
      if ltb 0 (sem.count p.tx_sem)
      then (true, record p { tx_sem = sem.take p.tx_sem })
      else if t == 0
      then (false, p)
      else (let (es, d) = uart.window t p.dev in wait_tx es (record p { dev = d }))
