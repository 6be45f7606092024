-- ===== src/ZUart/PollReads.antt =====
-- Bytes that a thread of lib/zuart/zuart.c takes from the device by polling.
use isbd_zephyr_module.Prelude.{
  ℕ, zero, suc, ◌+◌, ◌≤◌, ◌≡◌, Bytes, [], ◌∷◌, ◌++◌, length, append-nil, length-append, arith, refl,
  ap, ◌∙◌, inl, inr, ◌⊎◌,
}
use isbd_zephyr_module.ZUart.Types.{ZuartErr}
use isbd_zephyr_module.ZUart.Kernel.{
  RingBuf, Sem, Uart, PollIn, byte, nothing, failed, polled, Moves,
}
use isbd_zephyr_module.ZUart.Port.{Port, meanwhile}
use isbd_zephyr_module.ZUart.Transfer.{read_poll_now}
use isbd_zephyr_module.ZUart.Runs.{Runs, Runs-refl, Runs-meanwhile}
use isbd_zephyr_module.ZUart.Writes.{outgoing, incoming}

pub PollIn-cases : (r : PollIn) → ((b : ℕ) × (r ≡ byte b)) ⊎ (r ≡ nothing) ⊎ (r ≡ failed)
PollIn-cases (byte b) = inl (b, refl)
PollIn-cases nothing = inr (inl refl)
PollIn-cases failed = inr (inr refl)

module _ {R S D : Type 0} ⦃ring : RingBuf R⦄ ⦃sem : Sem S⦄ ⦃uart : Uart D⦄ where
  -- Between `p` and `q` the thread got these bytes, and nothing was given out to be sent.
  pub record Takes (p : Port R S D) (got : Bytes) (q : Port R S D) : Type 0 where
    pub tx_eq : outgoing q ≡ outgoing p
    pub incoming_le : incoming q + length got ≤ incoming p
    pub until_le : (t : ℕ) → uart.until t q.dev ≤ uart.until t p.dev
    pub tx_length_le : length (ring.items q.tx_rbuf) ≤ length (ring.items p.tx_rbuf)
    pub config_eq : q.config ≡ p.config

  pub Takes-Runs : (p q : Port R S D) → Runs p q → Takes p [] q
  Takes-Runs p q x = record {
    tx_eq = x.tx_eq;
    incoming_le =
        omega (arith, x.coming_le, ap length x.rx_eq, length-append (ring.items p.rx_rbuf) x.kept);
    until_le = x.until_le;
    tx_length_le = x.tx_length_le;
    config_eq = x.config_eq;
  }

  pub Takes-trans :
      (p q r : Port R S D) (s t : Bytes) → Takes p s q → Takes q t r → Takes p (s ++ t) r
  Takes-trans p q r s t x y = record {
    tx_eq = y.tx_eq ∙ x.tx_eq;
    incoming_le = omega (arith, x.incoming_le, y.incoming_le, length-append s t);
    until_le = λ t. omega (arith, x.until_le t, y.until_le t);
    tx_length_le = omega (arith, x.tx_length_le, y.tx_length_le);
    config_eq = y.config_eq ∙ x.config_eq;
  }

  pub Takes-poll :
      (p : Port R S D) (r : PollIn) (d : D)
      → Moves uart.arrived uart.sent uart.to_come uart.until p.dev (polled r) [] d
      → Takes p (polled r) (record p { dev = d })
  Takes-poll p r d m = record {
    tx_eq = ap (λ s. s ++ ring.items p.tx_rbuf) (m.sent_eq ∙ append-nil (uart.sent p.dev));
    incoming_le = omega (arith, m.to_come_le);
    until_le = m.until_le;
    tx_length_le = omega arith;
    config_eq = refl;
  }

  pub Takes-err :
      (p q : Port R S D) (got : Bytes) (e : ZuartErr)
      → Takes p got q
      → Takes p got (record q { err = e })
  Takes-err p q got e x = record {
    tx_eq = x.tx_eq;
    incoming_le = x.incoming_le;
    until_le = x.until_le;
    tx_length_le = x.tx_length_le;
    config_eq = x.config_eq;
  }

  -- The port behind a poll.
  abbrev pub polled_port : Port R S D → Port R S D
  polled_port p = record p { dev = (uart.poll_in p.dev).1 }

  now_byte :
      (n b : ℕ) (p : Port R S D)
      → (uart.poll_in (meanwhile p).dev).0 ≡ byte b
      → read_poll_now (suc n) p ≡ (
        b ∷ (read_poll_now n (polled_port (meanwhile p))).0,
        (read_poll_now n (polled_port (meanwhile p))).1,
      )
  unfolding read_poll_now
  now_byte n b p e = rw (e, read_poll_now) refl

  now_none :
      (n : ℕ) (p : Port R S D)
      → ((uart.poll_in (meanwhile p).dev).0 ≡ nothing)
        ⊎ ((uart.poll_in (meanwhile p).dev).0 ≡ failed)
      → read_poll_now (suc n) p ≡ ([], polled_port (meanwhile p))
  unfolding read_poll_now
  now_none n p (inl e) = rw (e, read_poll_now) refl
  now_none n p (inr e) = rw (e, read_poll_now) refl

  -- A poll, whatever it gives.
  Takes-polled :
      (p : Port R S D) (got : Bytes)
      → length got ≤ length (polled (uart.poll_in (meanwhile p).dev).0)
      → Takes p got (polled_port (meanwhile p))
  Takes-polled p got h =
      let x = Takes-Runs p (meanwhile p) (Runs-meanwhile p) in
      let y =
        Takes-poll (meanwhile p) (uart.poll_in (meanwhile p).dev).0
          (uart.poll_in (meanwhile p).dev).1 (uart.poll_in_moves (meanwhile p).dev) in
      record {
        tx_eq = y.tx_eq ∙ x.tx_eq;
        incoming_le = omega (arith, x.incoming_le, y.incoming_le, h);
        until_le = λ t. omega (arith, x.until_le t, y.until_le t);
        tx_length_le = omega (arith, x.tx_length_le, y.tx_length_le);
        config_eq = y.config_eq ∙ x.config_eq;
      }

  pub read_poll_now-Takes :
      (n : ℕ) (p : Port R S D)
      → let (got, q) = read_poll_now n p in Takes p got q × (length got ≤ n)
  unfolding read_poll_now
  read_poll_now-Takes zero p = (Takes-Runs p p (Runs-refl p), omega arith)
  read_poll_now-Takes (suc n) p =
      let q = polled_port (meanwhile p) in
      elim (PollIn-cases (uart.poll_in (meanwhile p).dev).0) [
        | inl (b, e) ↦
            let (x, l) = read_poll_now-Takes n q in
            let one : 1 ≤ length (polled (uart.poll_in (meanwhile p).dev).0) =
              omega (arith, ap (λ r. length (polled r)) e) in
            rw (now_byte n b p e)
              (Takes-trans p q _ (b ∷ []) _ (Takes-polled p (b ∷ []) one) x, omega (arith, l))
        | inr e ↦ rw (now_none n p e) (Takes-polled p [] (omega arith), omega arith)
      ]
