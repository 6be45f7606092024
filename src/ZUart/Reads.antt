-- ===== src/ZUart/Reads.antt =====
-- `zuart_read_irq_proto` loses, adds and reorders nothing.
use isbd_zephyr_module.Prelude.{
  ℕ, ◌+◌, ◌≤◌, ◌<◌, ◌≡◌, ◌⊎◌, Bytes, Bool, true, false, [], ◌++◌, length, take, min, length-take,
  length-append, take-append-drop, append_assoc, arith, ap, sym, ◌∙◌, Bool-cases, inl, inr,
}
use isbd_zephyr_module.ZUart.Kernel.{RingBuf, Sem, Uart}
use isbd_zephyr_module.ZUart.Port.{Port, meanwhile, take_rx}
use isbd_zephyr_module.ZUart.Transfer.{ready_rx, get_rx, rx_work}
use isbd_zephyr_module.ZUart.Runs.{Runs, Runs-refl, Runs-trans, Runs-meanwhile}
use isbd_zephyr_module.ZUart.Wait.{take_rx-RxWait}

module _ {R S D : Type 0} ⦃ring : RingBuf R⦄ ⦃sem : Sem S⦄ ⦃uart : Uart D⦄ where
  -- Between `p` and `q` the thread got `got` from the reception buffer, while `fresh` came from the
  -- line and `kept` of it into the buffer: what it got and what is left in the buffer is what was in the
  -- buffer and came into it, in that order, and `kept` is all of `fresh` if no overrun is recorded.
  pub record Reads (p : Port R S D) (got : Bytes) (q : Port R S D) : Type 0 where
    pub fresh : Bytes
    pub kept : Bytes
    pub arrived_eq : uart.arrived q.dev ≡ uart.arrived p.dev ++ fresh
    pub rx_eq : got ++ ring.items q.rx_rbuf ≡ ring.items p.rx_rbuf ++ kept
    pub lossless : q.overrun ≡ false → (p.overrun ≡ false) × (kept ≡ fresh)
    pub tx_eq : uart.sent q.dev ++ ring.items q.tx_rbuf ≡ uart.sent p.dev ++ ring.items p.tx_rbuf
    pub tx_length_le : length (ring.items q.tx_rbuf) ≤ length (ring.items p.tx_rbuf)
    pub coming_le : uart.to_come q.dev + length kept ≤ uart.to_come p.dev
    pub config_eq : q.config ≡ p.config
    pub err_eq : q.err ≡ p.err

  pub Reads-nil : (p q : Port R S D) → Runs p q → Reads p [] q
  Reads-nil p q x = record {
    fresh = x.fresh;
    kept = x.kept;
    arrived_eq = x.arrived_eq;
    rx_eq = x.rx_eq;
    lossless = x.lossless;
    tx_eq = x.tx_eq;
    tx_length_le = x.tx_length_le;
    coming_le = x.coming_le;
    config_eq = x.config_eq;
    err_eq = x.err_eq;
  }

  pub Reads-after : (p q r : Port R S D) (got : Bytes) → Runs p q → Reads q got r → Reads p got r
  Reads-after p q r got x y = record {
    fresh = x.fresh ++ y.fresh;
    kept = x.kept ++ y.kept;
    arrived_eq =
        y.arrived_eq ∙ ap (λ s. s ++ y.fresh) x.arrived_eq ∙ append_assoc _ x.fresh y.fresh;
    rx_eq = y.rx_eq ∙ ap (λ s. s ++ y.kept) x.rx_eq ∙ append_assoc _ x.kept y.kept;
    lossless = λ h.
        let (a, b) = y.lossless h in
        let (c, d) = x.lossless a in (c, ap (λ s. s ++ y.kept) d ∙ ap (λ s. x.fresh ++ s) b);
    tx_eq = y.tx_eq ∙ x.tx_eq;
    tx_length_le = omega (arith, x.tx_length_le, y.tx_length_le);
    coming_le = omega (arith, x.coming_le, y.coming_le, length-append x.kept y.kept);
    config_eq = y.config_eq ∙ x.config_eq;
    err_eq = y.err_eq ∙ x.err_eq;
  }

  pub Reads-Runs : (p q r : Port R S D) (got : Bytes) → Reads p got q → Runs q r → Reads p got r
  Reads-Runs p q r got x y = record {
    fresh = x.fresh ++ y.fresh;
    kept = x.kept ++ y.kept;
    arrived_eq =
        y.arrived_eq ∙ ap (λ s. s ++ y.fresh) x.arrived_eq ∙ append_assoc _ x.fresh y.fresh;
    rx_eq =
        ap (λ s. got ++ s) y.rx_eq
        ∙ sym (append_assoc got (ring.items q.rx_rbuf) y.kept)
        ∙ ap (λ s. s ++ y.kept) x.rx_eq
        ∙ append_assoc _ x.kept y.kept;
    lossless = λ h.
        let (a, b) = y.lossless h in
        let (c, d) = x.lossless a in (c, ap (λ s. s ++ y.kept) d ∙ ap (λ s. x.fresh ++ s) b);
    tx_eq = y.tx_eq ∙ x.tx_eq;
    tx_length_le = omega (arith, x.tx_length_le, y.tx_length_le);
    coming_le = omega (arith, x.coming_le, y.coming_le, length-append x.kept y.kept);
    config_eq = y.config_eq ∙ x.config_eq;
    err_eq = y.err_eq ∙ x.err_eq;
  }

  pub get_rx_all :
      (n : ℕ) (p : Port R S D)
      → (get_rx n p).0 ++ ring.items (get_rx n p).1.rx_rbuf ≡ ring.items p.rx_rbuf
  unfolding get_rx
  get_rx_all n p =
      ap (λ s. s ++ ring.items (ring.get n p.rx_rbuf).1) (ring.get_lem n p.rx_rbuf)
      ∙ ap (λ s. take n (ring.items p.rx_rbuf) ++ s) (ring.items-get n p.rx_rbuf)
      ∙ take-append-drop n (ring.items p.rx_rbuf)

  pub length-get_rx :
      (n : ℕ) (p : Port R S D) → length (get_rx n p).0 ≡ min n (length (ring.items p.rx_rbuf))
  unfolding get_rx
  length-get_rx n p = ap length (ring.get_lem n p.rx_rbuf) ∙ length-take n (ring.items p.rx_rbuf)

  pub Reads-get :
      (n : ℕ) (p r : Port R S D) (rest : Bytes)
      → Reads (get_rx n p).1 rest r
      → Reads p ((get_rx n p).0 ++ rest) r
  unfolding get_rx
  Reads-get n p r rest y =
      let bs = (get_rx n p).0 in
      record {
        fresh = y.fresh;
        kept = y.kept;
        arrived_eq = y.arrived_eq;
        rx_eq =
            append_assoc bs rest (ring.items r.rx_rbuf)
            ∙ ap (λ s. bs ++ s) y.rx_eq
            ∙ sym (append_assoc bs (ring.items (get_rx n p).1.rx_rbuf) y.kept)
            ∙ ap (λ s. s ++ y.kept) (get_rx_all n p);
        lossless = y.lossless;
        tx_eq = y.tx_eq;
        tx_length_le = y.tx_length_le;
        coming_le = y.coming_le;
        config_eq = y.config_eq;
        err_eq = y.err_eq;
      }

  -- Behind the test there is a byte, or less to do.
  pub record Ready (p : Port R S D) (r : Bool × Port R S D) : Type 0 where
    pub runs : Runs p r.1
    pub worth : r.0 ≡ true → (rx_work r.1 < rx_work p) ⊎ (0 < length (ring.items r.1.rx_rbuf))

  pub ready_rx-Ready : (t : ℕ) (p : Port R S D) → Ready p (ready_rx t p)
  unfolding ready_rx
  ready_rx-Ready t p = elim (Bool-cases (ring.is_empty p.rx_rbuf)) [
    | inl e ↦
        let x = Runs-meanwhile p in
        let y = take_rx-RxWait t (meanwhile p) in
        rw (e, ready_rx)
          (record {
            runs = Runs-trans p (meanwhile p) (take_rx t (meanwhile p)).1 x y.runs;
            worth = λ h. inl (omega (arith, x.rx_work_le, y.less h));
          })
    | inr e ↦
        rw (e, ready_rx)
          (record {
            runs = Runs-refl p;
            worth = λ h. inr (ground (arith, ring.is_empty_lem p.rx_rbuf));
          })
  ]
