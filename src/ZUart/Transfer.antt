-- ===== src/ZUart/Transfer.antt =====
-- The protocols of lib/zuart/zuart.c, `zuart_read` and `zuart_write`.
use isbd_zephyr_module.Prelude.{
  ℕ, zero, suc, ◌+◌, ◌-◌, ◌*◌, Bytes, Bool, true, false, ◌&&◌, not, Option, none, some, [], ◌∷◌,
  ◌++◌, ◌==◌, ltb, leb, if◌then◌else◌, length, drop,
}
use isbd_zephyr_module.ZUart.Types.{ZuartErr, Proto, irq_proto, poll_proto}
use isbd_zephyr_module.ZUart.Kernel.{RingBuf, Sem, Uart, byte, nothing, failed}
use isbd_zephyr_module.ZUart.Port.{Port, meanwhile, take_rx, take_tx}

module _ {R S D : Type 0} ⦃ring : RingBuf R⦄ ⦃sem : Sem S⦄ ⦃uart : Uart D⦄ where
  -- Lines 41 to 44: is there a byte, or a semaphore that was given? Another event may come before each
  -- statement.
  unfoldable pub ready_rx : ℕ → Port R S D → Bool × Port R S D
  ready_rx t p = if ring.is_empty p.rx_rbuf then take_rx t (meanwhile p) else (true, p)

  unfoldable pub get_rx : ℕ → Port R S D → Bytes × Port R S D
  get_rx n p = let (got, r) = ring.get n p.rx_rbuf in (got, record p { rx_rbuf = r })

  -- The loop of `zuart_read_irq_proto` for `n` more bytes: is the last result of `k_sem_take` 0, and the
  -- bytes that it gets.
  unfoldable pub read_irq_loop : ℕ → ℕ → ℕ → Port R S D → (Bool × Bytes) × Port R S D
  read_irq_loop zero t n p = ((false, []), p)
  read_irq_loop (suc fuel) t zero p = ((true, []), p)
  read_irq_loop (suc fuel) t (suc n) p =
      let (s, p₁) = ready_rx t (meanwhile p) in
      elim s [
        | false ↦ ((false, []), p₁)
        | true ↦
            let (bs, p₂) = get_rx (suc n) (meanwhile p₁) in
            let ((s', rest), p₃) = read_irq_loop fuel t (suc n - length bs) p₂ in
            ((s', bs ++ rest), p₃)
      ]

  -- Each round of the loop takes away from this.
  unfoldable pub rx_work : Port R S D → ℕ
  rx_work p = 3 * uart.to_come p.dev + (2 * length (ring.items p.rx_rbuf) + sem.count p.rx_sem)

  -- Lines 69 to 74.
  unfoldable pub read_irq_err : ℕ → Bool → Port R S D → Port R S D
  read_irq_err t s p =
      if p.overrun
      then record p { err = ZuartErr.overrun; overrun = false }
      else if ltb 0 t && not s
      then record p { err = ZuartErr.timeout }
      else p

  unfoldable pub read_irq : ℕ → ℕ → Port R S D → Bytes × Port R S D
  read_irq n t p =
      let ((s, got), p') = read_irq_loop (suc (rx_work p)) t n p in
      (got, read_irq_err t s (meanwhile p'))

  -- The loop of `zuart_read_poll_proto` without a timeout.
  unfoldable pub read_poll_now : ℕ → Port R S D → Bytes × Port R S D
  read_poll_now zero p = ([], p)
  read_poll_now (suc n) p₀ =
      let p = meanwhile p₀ in
      let (r, d) = uart.poll_in p.dev in
      let (rest, p') = read_poll_now n (record p { dev = d }) in
      elim r [
        | byte b ↦ (b ∷ rest, p')
        | nothing ↦ ([], record p { dev = d })
        | failed ↦ ([], record p { dev = d })
      ]

  -- The loop with a timeout, from the time `ts_old`.
  unfoldable pub read_poll_loop : ℕ → ℕ → ℕ → ℕ → Port R S D → Bytes × Port R S D
  read_poll_loop zero ts_old t n p = ([], p)
  read_poll_loop (suc fuel) ts_old t zero p = ([], p)
  read_poll_loop (suc fuel) ts_old t (suc n) p₀ =
      let p = meanwhile p₀ in
      let (ts_now, d₁) = uart.uptime p.dev in
      elim (leb t (ts_now - ts_old)) [
        | true ↦ ([], record p { dev = d₁; err = ZuartErr.timeout })
        | false ↦
            let (r, d₂) = uart.poll_in d₁ in
            elim r [
              | byte b ↦
                  let (rest, p') = read_poll_loop fuel ts_old t n (record p { dev = d₂ }) in
                  (b ∷ rest, p')
              | nothing ↦
                  read_poll_loop fuel ts_old t (suc n) (record p { dev = uart.yield_cpu d₂ })
              | failed ↦ ([], record p { dev = d₂; err = ZuartErr.err })
            ]
      ]

  unfoldable pub read_poll : ℕ → ℕ → Port R S D → Bytes × Port R S D
  read_poll n t p =
      if t == 0
      then read_poll_now n p
      else (let (ts_old, d) = uart.uptime p.dev in
          read_poll_loop (suc (uart.until (ts_old + t) d)) ts_old t n (record p { dev = d }))

  unfoldable pub read_by : Option Proto → ℕ → ℕ → Port R S D → Bytes × Port R S D
  read_by (some irq_proto) n t p = read_irq n t p
  read_by (some poll_proto) n t p = read_poll n t p
  read_by none n t p = ([], record p { err = ZuartErr.err })

  -- `zuart_read`, with the bytes that reach the caller's array.
  unfoldable pub read : ℕ → ℕ → Port R S D → Bytes × Port R S D
  read n t p = read_by p.config.read_proto n t p

  -- `ring_buf_put` and `uart_irq_tx_enable`; events may come between them.
  unfoldable pub put_tx : Bytes → Port R S D → ℕ × Port R S D
  put_tx src p =
      let (k, r) = ring.put src p.tx_rbuf in
      let q = meanwhile (record p { tx_rbuf = r }) in
      (k, record q { dev = uart.irq_tx_enable q.dev })

  -- Lines 181 to 186.
  unfoldable pub ready_tx : ℕ → Port R S D → Bool × Port R S D
  ready_tx t p = if ring.space_get p.tx_rbuf == 0 then take_tx t (meanwhile p) else (true, p)

  -- The loop of `zuart_write_irq_proto` over the bytes that are left.
  unfoldable pub write_irq_loop : ℕ → ℕ → Bytes → Port R S D → ℕ × Port R S D
  write_irq_loop zero t src p = (0, p)
  write_irq_loop (suc fuel) t [] p = (0, p)
  write_irq_loop (suc fuel) t (b ∷ src) p =
      let (s, p₁) = ready_tx t (meanwhile p) in
      elim s [
        | false ↦ (0, record p₁ { err = ZuartErr.timeout })
        | true ↦
            let (k, p₂) = put_tx (b ∷ src) (meanwhile p₁) in
            let (rest, p₃) = write_irq_loop fuel t (drop k (b ∷ src)) p₂ in (k + rest, p₃)
      ]

  -- What is left to do, with `src` to be written.
  unfoldable pub tx_work : Bytes → Port R S D → ℕ
  tx_work src p = 3 * length src + (2 * length (ring.items p.tx_rbuf) + sem.count p.tx_sem)

  unfoldable pub write_irq_reset : Bytes → ℕ → Port R S D → ℕ × Port R S D
  write_irq_reset src t p =
      if t == 0 then put_tx src (meanwhile p) else write_irq_loop (suc (tx_work src p)) t src p

  unfoldable pub write_irq : Bytes → ℕ → Port R S D → ℕ × Port R S D
  write_irq src t p = write_irq_reset src t (record p { tx_sem = sem.reset p.tx_sem })

  unfoldable pub write_poll : Bytes → Port R S D → ℕ × Port R S D
  write_poll [] p = (0, p)
  write_poll (b ∷ src) p₀ =
      let p = meanwhile p₀ in
      let (n, p') = write_poll src (record p { dev = uart.poll_out b p.dev }) in (suc n, p')

  unfoldable pub write_by : Option Proto → Bytes → ℕ → Port R S D → ℕ × Port R S D
  write_by (some irq_proto) src t p = write_irq src t p
  write_by (some poll_proto) src t p = write_poll src p
  write_by none src t p = (0, record p { err = ZuartErr.err })

  -- `zuart_write`: how many bytes were taken.
  unfoldable pub write : Bytes → ℕ → Port R S D → ℕ × Port R S D
  write src t p = write_by p.config.write_proto src t p
