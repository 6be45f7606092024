-- ===== src/ZUart/Setup/Laws.antt =====
-- What `zuart_setup` and `zuart_drain` leave behind.
use isbd_zephyr_module.Prelude.{
  ℕ, ◌≡◌, ◌↔◌, ◌⊎◌, Bytes, Bool, true, false, ◌&&◌, ◌||◌, Option, [], ◌∷◌, ◌++◌, if◌then◌else◌,
  length, drop, append-nil, append_assoc, ◌≤◌, arith, refl, ap, sym, ◌∙◌, Bool-cases, inl, inr,
}
use isbd_zephyr_module.ZUart.Types.{ZuartErr, ok, setup, Proto, ZuartConfig}
use isbd_zephyr_module.ZUart.Kernel.{RingBuf, Sem, Uart}
use isbd_zephyr_module.ZUart.Port.{Port, by_irq, meanwhile}
use isbd_zephyr_module.ZUart.Runs.{Runs, Runs-meanwhile}
use isbd_zephyr_module.ZUart.Setup.{
  no_buffer, choose_protos, set_callback, setup_rx, setup_tx, zuart_setup, drain,
}

-- A protocol of interrupts without the buffer that it needs.
abbrev pub lacks : Option Proto → Option ℕ → ℕ → Bool
lacks proto buf size = by_irq proto && no_buffer buf size

drop-length : (s : Bytes) → drop (length s) s ≡ []
drop-length [] = refl
drop-length (b ∷ s) = drop-length s

none_left : (s : Bytes) → length s ≤ 0 → s ≡ []
none_left [] h = refl
none_left (b ∷ s) h = absurd (omega arith)

-- The results of the two halves and the result of the whole.
abbrev result : Bool → ZuartErr
result b = if b then ok else setup

result_ok : (b : Bool) → result b ≡ ok → b ≡ true
result_ok true e = refl
result_ok false e = absurd (ground arith)

result_either : (b : Bool) → (result b ≡ ok) ⊎ (result b ≡ setup)
result_either true = inl refl
result_either false = inr refl

result_iff :
    (b l m : Bool)
    → l ≡ false
    → (b ≡ false) ↔ (m ≡ true)
    → (result b ≡ ok) ↔ ((l ≡ false) × (m ≡ false))
result_iff true l m h i = ground arith
result_iff false l m h i = ground arith

not_stopped : (b l : Bool) → b ≡ true → (b ≡ false) ↔ (l ≡ true) → l ≡ false
not_stopped b true h i = absurd (ground arith)
not_stopped b false h i = refl

stops_same : (b l m : Bool) → l ≡ m → (b ≡ false) ↔ (l ≡ true) → (b ≡ false) ↔ (m ≡ true)
stops_same b l m e i = rw e at i

abbrev lacks_rx : ZuartConfig → Bool
lacks_rx d = lacks d.read_proto d.rx_buf d.rx_buf_size

abbrev lacks_tx : ZuartConfig → Bool
lacks_tx d = lacks d.write_proto d.tx_buf d.tx_buf_size

module _ {R S D : Type 0} ⦃ring : RingBuf R⦄ ⦃sem : Sem S⦄ ⦃uart : Uart D⦄ where
  config-set_callback : (p : Port R S D) → (set_callback p).config ≡ p.config
  unfolding set_callback
  config-set_callback p = ground arith

  arrived-set_callback : (p : Port R S D) → uart.arrived (set_callback p).dev ≡ uart.arrived p.dev
  unfolding set_callback
  arrived-set_callback p =
      let h : uart.arrived (uart.irq_callback_set p.dev) ≡ uart.arrived p.dev =
        (uart.irq_callback_set_moves p.dev).arrived_eq ∙ append-nil (uart.arrived p.dev) in
      elim (Bool-cases (by_irq p.config.read_proto || by_irq p.config.write_proto)) [
        | inl e ↦ rw e h
        | inr e ↦ rw e refl
      ]

  -- Behind the bytes `a` of the line only `fresh` came in; the reception buffer holds all of it, unless
  -- an overrun is recorded.
  pub record Since (a : Bytes) (p : Port R S D) : Type 0 where
    pub fresh : Bytes
    pub arrived_eq : uart.arrived p.dev ≡ a ++ fresh
    pub rx_eq : p.overrun ≡ false → ring.items p.rx_rbuf ≡ fresh

  Since-Runs : (a : Bytes) (p q : Port R S D) → Since a p → Runs p q → Since a q
  Since-Runs a p q x y = record {
    fresh = x.fresh ++ y.fresh;
    arrived_eq =
        y.arrived_eq ∙ ap (λ s. s ++ y.fresh) x.arrived_eq ∙ append_assoc a x.fresh y.fresh;
    rx_eq = λ h.
        let (o, k) = y.lossless h in
        y.rx_eq ∙ ap (λ s. s ++ y.kept) (x.rx_eq o) ∙ ap (λ s. x.fresh ++ s) k;
  }

  setup_rx_lem :
      (p : Port R S D)
      → let (go, q) = setup_rx p in
        (q.config ≡ p.config)
        × ((go ≡ false) ↔ (lacks p.config.read_proto p.config.rx_buf p.config.rx_buf_size ≡ true))
        × (go ≡ true → by_irq p.config.read_proto ≡ true → ring.items q.rx_rbuf ≡ [])
        × (uart.arrived q.dev ≡ uart.arrived p.dev)
  unfolding setup_rx
  setup_rx_lem p =
      let h : uart.arrived (uart.irq_rx_enable p.dev) ≡ uart.arrived p.dev =
        (uart.irq_rx_enable_moves p.dev).arrived_eq ∙ append-nil (uart.arrived p.dev) in
      ground (arith, ring.items-init p.config.rx_buf_size, h)

  setup_tx_lem :
      (p : Port R S D)
      → let (go, q) = setup_tx p in
        (q.config ≡ p.config)
        × ((go ≡ false) ↔ (lacks p.config.write_proto p.config.tx_buf p.config.tx_buf_size ≡ true))
        × (go ≡ true → by_irq p.config.write_proto ≡ true → ring.items q.tx_rbuf ≡ [])
        × (q.rx_rbuf ≡ p.rx_rbuf)
        × (q.dev ≡ p.dev)
        × (q.overrun ≡ p.overrun)
  unfolding setup_tx
  setup_tx_lem p = ground (arith, ring.items-init p.config.tx_buf_size)

  -- Both halves of the set-up keep what came in.
  Since-setup_rx :
      (a : Bytes) (p : Port R S D)
      → uart.arrived p.dev ≡ a
      → (setup_rx p).0 ≡ true
      → by_irq p.config.read_proto ≡ true
      → Since a (setup_rx p).1
  Since-setup_rx a p h e k =
      let (_, _, b, d) = setup_rx_lem p in
      record { fresh = []; arrived_eq = d ∙ h ∙ sym (append-nil a); rx_eq = λ _. b e k }

  Since-setup_tx : (a : Bytes) (p : Port R S D) → Since a p → Since a (setup_tx p).1
  Since-setup_tx a p x =
      let (_, _, _, r, d, o) = setup_tx_lem p in
      record {
        fresh = x.fresh;
        arrived_eq = ap uart.arrived d ∙ x.arrived_eq;
        rx_eq = λ h. ap ring.items r ∙ x.rx_eq (sym o ∙ h);
      }

  Since-setup :
      (a : Bytes) (p : Port R S D)
      → uart.arrived p.dev ≡ a
      → (setup_rx p).0 ≡ true
      → by_irq p.config.read_proto ≡ true
      → Since a (meanwhile (setup_tx (meanwhile (setup_rx p).1)).1)
  Since-setup a p h e k =
      let q = meanwhile (setup_rx p).1 in
      let r = (setup_tx q).1 in
      let x : Since a q =
        Since-Runs a (setup_rx p).1 q (Since-setup_rx a p h e k) (Runs-meanwhile (setup_rx p).1) in
      Since-Runs a r (meanwhile r) (Since-setup_tx a q x) (Runs-meanwhile r)

  tx-meanwhile :
      (p : Port R S D) → ring.items p.tx_rbuf ≡ [] → ring.items (meanwhile p).tx_rbuf ≡ []
  tx-meanwhile p h =
      let x = Runs-meanwhile p in
      none_left (ring.items (meanwhile p).tx_rbuf) (omega (arith, x.tx_length_le, ap length h))

  -- `zuart_drain` empties the reception buffer and returns how many bytes it held.
  pub drain_lem :
      (p : Port R S D)
      → ((drain p).0 ≡ length (ring.items p.rx_rbuf)) × (ring.items (drain p).1.rx_rbuf ≡ [])
  unfolding drain
  drain_lem p = (
    ring.size_get_lem p.rx_rbuf,
    ring.items-get (ring.size_get p.rx_rbuf) p.rx_rbuf
        ∙ ap (λ n. drop n (ring.items p.rx_rbuf)) (ring.size_get_lem p.rx_rbuf)
        ∙ drop-length (ring.items p.rx_rbuf),
  )

  setup_stop :
      (c : ZuartConfig) (p : Port R S D)
      → let r = setup_rx (set_callback (record p { config = choose_protos c })) in
        r.0 ≡ false → zuart_setup c p ≡ (setup, r.1)
  unfolding zuart_setup
  setup_stop c p e = rw (e, zuart_setup) refl

  setup_go :
      (c : ZuartConfig) (p : Port R S D)
      → let r = setup_rx (set_callback (record p { config = choose_protos c })) in
        let y = setup_tx (meanwhile r.1) in
        r.0 ≡ true → zuart_setup c p ≡ (if y.0 then ok else setup, meanwhile y.1)
  unfolding zuart_setup
  setup_go c p e = rw (e, zuart_setup) refl

  -- `zuart_setup` stores the configuration with the protocols that its mode stands for. It returns OK
  -- exactly if neither protocol is one of interrupts without its buffer, or else the error of the set-up.
  -- Interrupts can come before it returns: behind an OK, where the port reads by interrupts, its
  -- reception buffer holds exactly the bytes that came in since the call, unless an overrun is recorded
  -- (an older one is not cleared); and where it writes by interrupts, its transmission buffer is empty.
  pub zuart_setup_lem :
      (c : ZuartConfig) (p : Port R S D)
      → let (e, q) = zuart_setup c p in
        let d = choose_protos c in
        (q.config ≡ d)
        × ((e ≡ ok) ↔ (
            (lacks d.read_proto d.rx_buf d.rx_buf_size ≡ false)
            × (lacks d.write_proto d.tx_buf d.tx_buf_size ≡ false)))
        × ((e ≡ ok) ⊎ (e ≡ setup))
        × (e ≡ ok → by_irq d.read_proto ≡ true → Since (uart.arrived p.dev) q)
        × (e ≡ ok → by_irq d.write_proto ≡ true → ring.items q.tx_rbuf ≡ [])
  zuart_setup_lem c p =
      let p₀ : Port R S D = record p { config = choose_protos c } in
      let p₁ = set_callback p₀ in
      let r = setup_rx p₁ in
      let v = meanwhile r.1 in
      let w = setup_tx v in
      let (c₁, i₁, b₁, _) = setup_rx_lem p₁ in
      let (c₂, i₂, b₂, _, _, _) = setup_tx_lem v in
      let c₀ = config-set_callback p₀ in
      let cv : v.config ≡ choose_protos c = (Runs-meanwhile r.1).config_eq ∙ c₁ ∙ c₀ in
      let i : (r.0 ≡ false) ↔ (lacks_rx (choose_protos c) ≡ true) =
        stops_same r.0 (lacks_rx p₁.config) (lacks_rx (choose_protos c)) (ap lacks_rx c₀) i₁ in
      let j : (w.0 ≡ false) ↔ (lacks_tx (choose_protos c) ≡ true) =
        stops_same w.0 (lacks_tx v.config) (lacks_tx (choose_protos c)) (ap lacks_tx cv) i₂ in
      elim (Bool-cases r.0) [
        | inl e ↦ rw (setup_go c p e) (
          (Runs-meanwhile w.1).config_eq ∙ c₂ ∙ cv,
          result_iff w.0 _ _ (not_stopped r.0 _ e i) j,
          result_either w.0,
          λ h k.
              Since-setup (uart.arrived p.dev) p₁ (arrived-set_callback p₀) e
                (ap (λ (d : ZuartConfig). by_irq d.read_proto) c₀ ∙ k),
          λ h k.
              tx-meanwhile w.1
                (b₂ (result_ok w.0 h) (ap (λ (d : ZuartConfig). by_irq d.write_proto) cv ∙ k)),
        )
        | inr e ↦ rw (setup_stop c p e) (
          c₁ ∙ c₀,
          (λ h. absurd (ground arith), λ h. absurd (ground (arith, i))),
          inr refl,
          λ h k. absurd (ground arith),
          λ h k. absurd (ground arith),
        )
      ]
