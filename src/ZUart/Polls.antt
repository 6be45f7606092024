-- ===== src/ZUart/Polls.antt =====
-- The polling protocols of lib/zuart/zuart.c.
use isbd_zephyr_module.Prelude.{
  ℕ, zero, suc, ◌+◌, ◌-◌, ◌≤◌, ◌<◌, ◌≡◌, Bytes, Bool, true, false, [], ◌∷◌, ◌++◌, ◌==◌, leb, length,
  append-nil, append_assoc, arith, refl, ap, sym, ◌∙◌, Bool-cases, inl, inr, ◌⊎◌,
}
use isbd_zephyr_module.ZUart.Types.{ZuartErr}
use isbd_zephyr_module.ZUart.Kernel.{RingBuf, Sem, Uart, byte, nothing, failed, polled}
use isbd_zephyr_module.ZUart.Port.{Port, meanwhile}
use isbd_zephyr_module.ZUart.Transfer.{read_poll_loop, read_poll, write_poll}
use isbd_zephyr_module.ZUart.Runs.{Runs, Runs-refl, Runs-trans, Runs-quiet, Runs-meanwhile}
use isbd_zephyr_module.ZUart.Writes.{outgoing, incoming}
use isbd_zephyr_module.ZUart.PollReads.{
  PollIn-cases, Takes, polled_port, Takes-Runs, Takes-trans, Takes-poll, Takes-err,
}

length_zero : (s : Bytes) → length s ≤ 0 → s ≡ []
length_zero [] h = refl
length_zero (b ∷ s) h = absurd (omega arith)

module _ {R S D : Type 0} ⦃ring : RingBuf R⦄ ⦃sem : Sem S⦄ ⦃uart : Uart D⦄ where
  pub Runs-idle :
      (p q : Port R S D) → Runs p q → ring.items p.tx_rbuf ≡ [] → ring.items q.tx_rbuf ≡ []
  Runs-idle p q x h =
      length_zero (ring.items q.tx_rbuf) (omega (arith, x.tx_length_le, ap length h))

  pub Runs-sent :
      (p q : Port R S D) → Runs p q → ring.items p.tx_rbuf ≡ [] → uart.sent q.dev ≡ uart.sent p.dev
  Runs-sent p q x h =
      sym (append-nil (uart.sent q.dev))
      ∙ ap (λ s. uart.sent q.dev ++ s) (sym (Runs-idle p q x h))
      ∙ x.tx_eq
      ∙ ap (λ s. uart.sent p.dev ++ s) h
      ∙ append-nil (uart.sent p.dev)

  -- Where nothing waits in the transmission buffer, `zuart_write_poll_proto` puts exactly its bytes on the
  -- line, in order, whatever interrupts come, and returns their number.
  pub write_poll_lem :
      (src : Bytes) (p : Port R S D)
      → ring.items p.tx_rbuf ≡ []
      → let (n, q) = write_poll src p in
        (n ≡ length src) × (uart.sent q.dev ≡ uart.sent p.dev ++ src)
  unfolding write_poll
  write_poll_lem [] p h = (refl, sym (append-nil (uart.sent p.dev)))
  write_poll_lem (b ∷ src) p h =
      let m = meanwhile p in
      let x = Runs-meanwhile p in
      let d = uart.poll_out b m.dev in
      let (n, w) = write_poll_lem src (record m { dev = d }) (Runs-idle p m x h) in
      let o = uart.poll_out_moves b m.dev in
      (
        ap suc n,
        w
            ∙ ap (λ s. s ++ src) (o.sent_eq ∙ ap (λ s. s ++ b ∷ []) (Runs-sent p m x h))
            ∙ append_assoc (uart.sent p.dev) (b ∷ []) src,
      )

  -- The clock, and a poll behind it.
  abbrev clocked : Port R S D → Port R S D
  clocked p = record (meanwhile p) { dev = (uart.uptime (meanwhile p).dev).1 }

  Takes-clocked : (p : Port R S D) → Takes p [] (clocked p)
  Takes-clocked p = Takes-Runs p (clocked p) (
      Runs-trans p (meanwhile p) (clocked p) (Runs-meanwhile p)
        (Runs-quiet (meanwhile p) _ (uart.uptime_moves (meanwhile p).dev)))

  Takes-clocked_poll :
      (p : Port R S D) (got : Bytes)
      → length got ≤ length (polled (uart.poll_in (clocked p).dev).0)
      → Takes p got (polled_port (clocked p))
  Takes-clocked_poll p got h =
      let x = Takes-clocked p in
      let y =
        Takes-poll (clocked p) (uart.poll_in (clocked p).dev).0 (uart.poll_in (clocked p).dev).1
          (uart.poll_in_moves (clocked p).dev) in
      record {
        tx_eq = y.tx_eq ∙ x.tx_eq;
        incoming_le = omega (arith, x.incoming_le, y.incoming_le, h);
        until_le = λ t. omega (arith, x.until_le t, y.until_le t);
        tx_length_le = omega (arith, x.tx_length_le, y.tx_length_le);
        config_eq = y.config_eq ∙ x.config_eq;
      }

  abbrev late : ℕ → ℕ → Port R S D → Bool
  late ts_old t p = leb t ((uart.uptime (meanwhile p).dev).0 - ts_old)

  abbrev yielded : Port R S D → Port R S D
  yielded p = record (clocked p) { dev = uart.yield_cpu (uart.poll_in (clocked p).dev).1 }

  loop_late :
      (f ts_old t n : ℕ) (p : Port R S D)
      → late ts_old t p ≡ true
      → read_poll_loop (suc f) ts_old t (suc n) p
        ≡ ([], record (clocked p) { err = ZuartErr.timeout })
  unfolding read_poll_loop
  loop_late f ts_old t n p e = rw (e, read_poll_loop) refl

  abbrev joined : ℕ → Bytes × Port R S D → Bytes × Port R S D
  joined b (rest, q) = (b ∷ rest, q)

  loop_byte :
      (f ts_old t n b : ℕ) (p : Port R S D)
      → late ts_old t p ≡ false
      → (uart.poll_in (clocked p).dev).0 ≡ byte b
      → read_poll_loop (suc f) ts_old t (suc n) p
        ≡ joined b (read_poll_loop f ts_old t n (polled_port (clocked p)))
  unfolding read_poll_loop
  loop_byte f ts_old t n b p e h = rw (e, h, read_poll_loop) refl

  loop_nothing :
      (f ts_old t n : ℕ) (p : Port R S D)
      → late ts_old t p ≡ false
      → (uart.poll_in (clocked p).dev).0 ≡ nothing
      → read_poll_loop (suc f) ts_old t (suc n) p ≡ read_poll_loop f ts_old t (suc n) (yielded p)
  unfolding read_poll_loop
  loop_nothing f ts_old t n p e h = rw (e, h, read_poll_loop) refl

  loop_failed :
      (f ts_old t n : ℕ) (p : Port R S D)
      → late ts_old t p ≡ false
      → (uart.poll_in (clocked p).dev).0 ≡ failed
      → read_poll_loop (suc f) ts_old t (suc n) p
        ≡ ([], record (polled_port (clocked p)) { err = ZuartErr.err })
  unfolding read_poll_loop
  loop_failed f ts_old t n p e h = rw (e, h, read_poll_loop) refl

  Takes-yielded : (p : Port R S D) → Takes p [] (yielded p)
  Takes-yielded p =
      let q = polled_port (clocked p) in
      Takes-trans p q (yielded p) [] [] (Takes-clocked_poll p [] (omega arith))
        (Takes-Runs q (yielded p) (Runs-quiet q _ (uart.yield_cpu_moves q.dev)))

  -- What a loop gives for `n` bytes.
  abbrev pub Polled : ℕ → Port R S D → Bytes × Port R S D → Type 0
  Polled n p (got, q) =
      Takes p got q
      × (length got ≤ n)
      × ((length got ≡ n) ⊎ (q.err ≡ ZuartErr.timeout) ⊎ (q.err ≡ ZuartErr.err))

  Polled-joined :
      (n b : ℕ) (p q : Port R S D) (r : Bytes × Port R S D)
      → Takes p (b ∷ []) q
      → Polled n q r
      → Polled (suc n) p (joined b r)
  Polled-joined n b p q (rest, s) x (y, l, w) = (
    Takes-trans p q s (b ∷ []) rest x y,
    omega arith,
    elim w [ inl e ↦ inl (omega arith) | inr e ↦ inr e ],
  )

  Polled-after :
      (n : ℕ) (p q : Port R S D) (r : Bytes × Port R S D)
      → Takes p [] q
      → Polled n q r
      → Polled n p r
  Polled-after n p q (got, s) x (y, l, w) = (Takes-trans p q s [] got x y, l, w)

  -- The clock was not late, so it has been read below the end of the time.
  until_less :
      (ts_old t : ℕ) (p q : Port R S D) (got : Bytes)
      → late ts_old t p ≡ false
      → Takes (clocked p) got q
      → uart.until (ts_old + t) q.dev < uart.until (ts_old + t) p.dev
  until_less ts_old t p q got e x =
      let m = meanwhile p in
      let below : (uart.uptime m.dev).0 < ts_old + t = ground arith in
      omega (
        arith,
        uart.uptime_until (ts_old + t) m.dev below,
        (Runs-meanwhile p).until_le (ts_old + t),
        x.until_le (ts_old + t),
      )

  Takes-poll_clocked :
      (p : Port R S D)
      → Takes (clocked p) (polled (uart.poll_in (clocked p).dev).0) (polled_port (clocked p))
  Takes-poll_clocked p =
      Takes-poll (clocked p) (uart.poll_in (clocked p).dev).0 (uart.poll_in (clocked p).dev).1
        (uart.poll_in_moves (clocked p).dev)

  Takes-yield_clocked :
      (p : Port R S D)
      → Takes (clocked p) (polled (uart.poll_in (clocked p).dev).0 ++ []) (yielded p)
  Takes-yield_clocked p =
      let q = polled_port (clocked p) in
      Takes-trans (clocked p) q (yielded p) _ [] (Takes-poll_clocked p)
        (Takes-Runs q (yielded p) (Runs-quiet q _ (uart.yield_cpu_moves q.dev)))

  -- The loop with enough fuel for the time that is left.
  pub read_poll_loop-Polled :
      (f ts_old t n : ℕ) (p : Port R S D)
      → uart.until (ts_old + t) p.dev < f
      → Polled n p (read_poll_loop f ts_old t n p)
  unfolding read_poll_loop
  read_poll_loop-Polled zero ts_old t n p h = elim h [ ]
  read_poll_loop-Polled (suc f) ts_old t zero p h =
      (Takes-Runs p p (Runs-refl p), omega arith, inl refl)
  read_poll_loop-Polled (suc f) ts_old t (suc n) p h = elim (Bool-cases (late ts_old t p)) [
    | inl e ↦
        rw (loop_late f ts_old t n p e) (
          Takes-err p (clocked p) [] ZuartErr.timeout (Takes-clocked p),
          omega arith,
          inr (inl refl),
        )
    | inr e ↦ elim (PollIn-cases (uart.poll_in (clocked p).dev).0) [
      | inl (b, r) ↦
          let q = polled_port (clocked p) in
          let one : 1 ≤ length (polled (uart.poll_in (clocked p).dev).0) =
            omega (arith, ap (λ v. length (polled v)) r) in
          rw (loop_byte f ts_old t n b p e r) (
            Polled-joined n b p q _ (Takes-clocked_poll p (b ∷ []) one) (
              read_poll_loop-Polled f ts_old t n q
                (omega (arith, until_less ts_old t p q _ e (Takes-poll_clocked p)))))
      | inr (inl r) ↦
          let q = yielded p in
          rw (loop_nothing f ts_old t n p e r) (
            Polled-after (suc n) p q _ (Takes-yielded p) (
              read_poll_loop-Polled f ts_old t (suc n) q
                (omega (arith, until_less ts_old t p q _ e (Takes-yield_clocked p)))))
      | inr (inr r) ↦ rw (loop_failed f ts_old t n p e r) (
        Takes-err p (polled_port (clocked p)) [] ZuartErr.err
            (Takes-clocked_poll p [] (omega arith)),
        omega arith,
        inr (inr refl),
      )
    ]
  ]

  -- `zuart_read_poll_proto` with a timeout ends, since time passes, and gets at most the bytes that were
  -- asked for: all of them, or the error is that of the timeout or of the driver. It sends nothing.
  pub read_poll_lem :
      (n t : ℕ) (p : Port R S D)
      → 0 < t
      → let (got, q) = read_poll n t p in
        (length got ≤ n)
        × ((length got ≡ n) ⊎ (q.err ≡ ZuartErr.timeout) ⊎ (q.err ≡ ZuartErr.err))
        × (outgoing q ≡ outgoing p)
        × (incoming q + length got ≤ incoming p)
  unfolding read_poll
  read_poll_lem n t p h =
      let (ts_old, d) = uart.uptime p.dev in
      let q : Port R S D = record p { dev = d } in
      let no : (t == 0) ≡ false = ground arith in
      let x = Takes-Runs p q (Runs-quiet p d (uart.uptime_moves p.dev)) in
      let (y, l, w) =
        read_poll_loop-Polled (suc (uart.until (ts_old + t) d)) ts_old t n q (omega arith) in
      rw no (l, w, y.tx_eq ∙ x.tx_eq, omega (arith, x.incoming_le, y.incoming_le))
