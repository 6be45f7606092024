-- ===== src/ZUart/Setup.antt =====
-- `zuart_setup`, `zuart_drain`, `zuart_available` and `zuart_get_err` of lib/zuart.
pub mod Laws
use isbd_zephyr_module.Prelude.{
  ℕ, ◌%◌, ◌^◌, Bytes, Bool, true, false, ◌||◌, List, Option, none, some, ◌==◌, if◌then◌else◌,
}
use isbd_zephyr_module.ZUart.Types.{
  ZuartErr, ok, setup, Mode, irq, poll, mixed, Proto, irq_proto, poll_proto, ZuartConfig,
}
use isbd_zephyr_module.ZUart.Kernel.{RingBuf, Sem, Uart}
use isbd_zephyr_module.ZUart.Port.{Port, by_irq, meanwhile}

-- A null pointer or a size of 0.
abbrev pub no_buffer : Option ℕ → ℕ → Bool
no_buffer none size = true
no_buffer (some _) size = size == 0

-- Lines 254 to 266.
unfoldable pub choose_protos : ZuartConfig → ZuartConfig
choose_protos c = elim c.mode [
  | irq ↦ record c { read_proto = some irq_proto; write_proto = some irq_proto }
  | poll ↦ record c { read_proto = some poll_proto; write_proto = some poll_proto }
  | mixed ↦ c
]

module _ {R S D : Type 0} ⦃ring : RingBuf R⦄ ⦃sem : Sem S⦄ ⦃uart : Uart D⦄ where
  unfoldable pub get_err : Port R S D → ZuartErr
  get_err p = p.err

  unfoldable pub available : Port R S D → ℕ
  available p = if by_irq p.config.read_proto then ring.size_get p.rx_rbuf % 2 ^ 16 else 0

  unfoldable pub drain : Port R S D → ℕ × Port R S D
  drain p =
      let size = ring.size_get p.rx_rbuf in
      (size, record p { rx_rbuf = (ring.get size p.rx_rbuf).1 })

  -- Lines 268 to 272.
  unfoldable pub set_callback : Port R S D → Port R S D
  set_callback p =
      if by_irq p.config.read_proto || by_irq p.config.write_proto
      then record p { dev = uart.irq_callback_set p.dev }
      else p

  -- Lines 274 to 287: does it go on?
  unfoldable pub setup_rx : Port R S D → Bool × Port R S D
  setup_rx p =
      if by_irq p.config.read_proto
      then (if no_buffer p.config.rx_buf p.config.rx_buf_size then (false, p) else (
        true,
        record p {
          rx_sem = sem.init;
          rx_rbuf = ring.init p.config.rx_buf_size;
          dev = uart.irq_rx_enable p.dev;
        },
      ))
      else (true, p)

  -- Lines 289 to 300.
  unfoldable pub setup_tx : Port R S D → Bool × Port R S D
  setup_tx p =
      if by_irq p.config.write_proto
      then (if no_buffer p.config.tx_buf p.config.tx_buf_size
          then (false, p)
          else (true, record p { tx_sem = sem.init; tx_rbuf = ring.init p.config.tx_buf_size }))
      else (true, p)

  -- Interrupts come in once those of the reception are enabled.
  unfoldable pub zuart_setup : ZuartConfig → Port R S D → ZuartErr × Port R S D
  zuart_setup config p =
      let (rx, p₁) = setup_rx (set_callback (record p { config = choose_protos config })) in
      elim rx [
        | false ↦ (setup, p₁)
        | true ↦ let (tx, p₂) = setup_tx (meanwhile p₁) in (if tx then ok else setup, meanwhile p₂)
      ]
