-- ===== src/ZUart/Writes.antt =====
-- `zuart_write_irq_proto` sends a prefix of the bytes, in order.
use isbd_zephyr_module.Prelude.{
  ℕ, zero, suc, ◌+◌, ◌*◌, ◌≤◌, ◌<◌, ◌≡◌, ◌⊎◌, Bytes, Bool, true, false, [], ◌∷◌, ◌++◌, ◌==◌, length,
  take, drop, min, length-take, length-drop, length-append, append-nil, append_assoc, take-nil,
  arith, refl, ap, sym, subst, ◌∙◌, Bool-cases, inl, inr,
}
use isbd_zephyr_module.ZUart.Types.{ZuartErr}
use isbd_zephyr_module.ZUart.Kernel.{RingBuf, Sem, Uart}
use isbd_zephyr_module.ZUart.Port.{Port, meanwhile, take_tx}
use isbd_zephyr_module.ZUart.Transfer.{
  ready_tx, put_tx, write_irq_loop, write_irq_reset, write_irq, tx_work,
}
use isbd_zephyr_module.ZUart.Runs.{
  Runs, Runs-refl, Runs-trans, Runs-quiet, Runs-meanwhile, Runs-tx_sem,
}
use isbd_zephyr_module.ZUart.Wait.{take_tx-TxWait}

take-add : (k n : ℕ) (s : Bytes) → take k s ++ take n (drop k s) ≡ take (k + n) s
take-add zero n s = let e : n ≡ 0 + n = omega arith in ap (λ m. take m s) e
take-add (suc k) n [] = take-nil ℕ n ∙ sym (take-nil ℕ (suc k + n))
take-add (suc k) n (b ∷ s) =
    let e : suc (k + n) ≡ suc k + n = omega arith in
    ap (λ r. b ∷ r) (take-add k n s) ∙ ap (λ m. take m (b ∷ s)) e

module _ {R S D : Type 0} ⦃ring : RingBuf R⦄ ⦃sem : Sem S⦄ ⦃uart : Uart D⦄ where
  -- What is on the line, and behind it what waits to be sent.
  abbrev pub outgoing : Port R S D → Bytes
  outgoing p = uart.sent p.dev ++ ring.items p.tx_rbuf

  -- What the thread can still be given.
  abbrev pub incoming : Port R S D → ℕ
  incoming p = uart.to_come p.dev + length (ring.items p.rx_rbuf)

  -- Between `p` and `q` the port has taken `s` to be sent.
  pub record Writes (p : Port R S D) (s : Bytes) (q : Port R S D) : Type 0 where
    pub tx_eq : outgoing q ≡ outgoing p ++ s
    pub incoming_le : incoming q ≤ incoming p
    pub config_eq : q.config ≡ p.config

  pub Writes-Runs : (p q : Port R S D) → Runs p q → Writes p [] q
  Writes-Runs p q x = record {
    tx_eq = x.tx_eq ∙ sym (append-nil (outgoing p));
    incoming_le =
        omega (arith, x.coming_le, ap length x.rx_eq, length-append (ring.items p.rx_rbuf) x.kept);
    config_eq = x.config_eq;
  }

  pub Writes-trans :
      (p q r : Port R S D) (s t : Bytes) → Writes p s q → Writes q t r → Writes p (s ++ t) r
  Writes-trans p q r s t x y = record {
    tx_eq = y.tx_eq ∙ ap (λ u. u ++ t) x.tx_eq ∙ append_assoc (outgoing p) s t;
    incoming_le = omega (arith, x.incoming_le, y.incoming_le);
    config_eq = y.config_eq ∙ x.config_eq;
  }

  -- The port with the bytes in its buffer, before the interrupts are enabled.
  abbrev filled : Bytes → Port R S D → Port R S D
  filled src p = record p { tx_rbuf = (ring.put src p.tx_rbuf).1 }

  filled-Writes :
      (src : Bytes) (p : Port R S D) → Writes p (take (ring.put src p.tx_rbuf).0 src) (filled src p)
  filled-Writes src p = record {
    tx_eq =
        ap (λ s. uart.sent p.dev ++ s) (ring.items-put src p.tx_rbuf)
        ∙ sym (
            append_assoc (uart.sent p.dev) (ring.items p.tx_rbuf)
              (take (ring.put src p.tx_rbuf).0 src));
    incoming_le = omega arith;
    config_eq = refl;
  }

  filled-Runs : (src : Bytes) (p : Port R S D) → Runs (filled src p) (put_tx src p).1
  unfolding put_tx
  filled-Runs src p =
      let q = meanwhile (filled src p) in
      Runs-trans (filled src p) q (put_tx src p).1 (Runs-meanwhile (filled src p))
        (Runs-quiet q (uart.irq_tx_enable q.dev) (uart.irq_tx_enable_moves q.dev))

  pub put_tx-Writes :
      (src : Bytes) (p : Port R S D) → Writes p (take (put_tx src p).0 src) (put_tx src p).1
  unfolding put_tx
  put_tx-Writes src p =
      let s = take (ring.put src p.tx_rbuf).0 src in
      let q = (put_tx src p).1 in
      subst (λ t. Writes p t q) (append-nil s)
        (Writes-trans p (filled src p) q s [] (filled-Writes src p)
          (Writes-Runs (filled src p) q (filled-Runs src p)))

  pub put_tx_count :
      (src : Bytes) (p : Port R S D)
      → (put_tx src p).0 ≡ min (length src) (ring.space_get p.tx_rbuf)
  unfolding put_tx
  put_tx_count src p = ring.put_lem src p.tx_rbuf

  err-put_tx : (src : Bytes) (p : Port R S D) → (put_tx src p).1.err ≡ p.err
  err-put_tx src p = (filled-Runs src p).err_eq

  tx_work_split : (src : Bytes) (p : Port R S D) → tx_work src p ≡ 3 * length src + tx_work [] p
  unfolding tx_work
  tx_work_split src p = omega arith

  tx_work-put_tx :
      (src : Bytes) (p : Port R S D)
      → tx_work (drop (put_tx src p).0 src) (put_tx src p).1 + (put_tx src p).0
        ≤ 3 * length src + tx_work [] p
  unfolding tx_work
  tx_work-put_tx src p =
      let k = (put_tx src p).0 in
      omega (
        arith,
        ap length (ring.items-put src p.tx_rbuf),
        length-append (ring.items p.tx_rbuf) (take (ring.put src p.tx_rbuf).0 src),
        length-take (ring.put src p.tx_rbuf).0 src,
        length-drop k src,
        put_tx_count src p,
        ring.put_lem src p.tx_rbuf,
        (filled-Runs src p).tx_work_le,
      )

  -- Behind the test there is room, or less to do.
  record Ready (p : Port R S D) (r : Bool × Port R S D) : Type 0 where
    runs : Runs p r.1
    worth : r.0 ≡ true → (tx_work [] r.1 < tx_work [] p) ⊎ (0 < ring.space_get r.1.tx_rbuf)

  ready_tx-Ready : (t : ℕ) (p : Port R S D) → Ready p (ready_tx t p)
  unfolding ready_tx
  ready_tx-Ready t p = elim (Bool-cases (ring.space_get p.tx_rbuf == 0)) [
    | inl e ↦
        let x = Runs-meanwhile p in
        let y = take_tx-TxWait t (meanwhile p) in
        rw (e, ready_tx)
          (record {
            runs = Runs-trans p (meanwhile p) (take_tx t (meanwhile p)).1 x y.runs;
            worth = λ h. inl (omega (arith, x.tx_work_le, y.less h));
          })
    | inr e ↦ rw (e, ready_tx) (record { runs = Runs-refl p; worth = λ h. inr (ground arith) })
  ]

  abbrev tested : ℕ → Port R S D → Port R S D
  tested t p = (ready_tx t (meanwhile p)).1

  abbrev put_now : ℕ → Bytes → Port R S D → ℕ × Port R S D
  put_now t src p = put_tx src (meanwhile (tested t p))

  tested-Runs : (t : ℕ) (p : Port R S D) → Runs p (meanwhile (tested t p))
  tested-Runs t p =
      let m = tested t p in
      Runs-trans p m (meanwhile m)
        (Runs-trans p (meanwhile p) m (Runs-meanwhile p) (ready_tx-Ready t (meanwhile p)).runs)
        (Runs-meanwhile m)

  round_less :
      (t b : ℕ) (src : Bytes) (p : Port R S D)
      → (ready_tx t (meanwhile p)).0 ≡ true
      → tx_work (drop (put_now t (b ∷ src) p).0 (b ∷ src)) (put_now t (b ∷ src) p).1
        < 3 * length (b ∷ src) + tx_work [] p
  round_less t b src p e =
      let q = tested t p in
      let x = Runs-meanwhile p in
      let y = ready_tx-Ready t (meanwhile p) in
      let z = Runs-meanwhile q in
      elim (y.worth e) [
        | inl h ↦
            omega (arith, x.tx_work_le, h, z.tx_work_le, tx_work-put_tx (b ∷ src) (meanwhile q))
        | inr h ↦ omega (
          arith,
          x.tx_work_le,
          y.runs.tx_work_le,
          z.tx_work_le,
          h,
          z.tx_space_le,
          put_tx_count (b ∷ src) (meanwhile q),
          tx_work-put_tx (b ∷ src) (meanwhile q),
        )
      ]

  loop_stop :
      (f t b : ℕ) (src : Bytes) (p : Port R S D)
      → (ready_tx t (meanwhile p)).0 ≡ false
      → write_irq_loop (suc f) t (b ∷ src) p ≡ (0, record (tested t p) { err = ZuartErr.timeout })
  unfolding write_irq_loop
  loop_stop f t b src p e = rw (e, write_irq_loop) refl

  abbrev joined : ℕ → ℕ × Port R S D → ℕ × Port R S D
  joined k (n, q) = (k + n, q)

  loop_round :
      (f t b : ℕ) (src : Bytes) (p : Port R S D)
      → (ready_tx t (meanwhile p)).0 ≡ true
      → write_irq_loop (suc f) t (b ∷ src) p
        ≡ joined (put_now t (b ∷ src) p).0 (
            write_irq_loop f t (drop (put_now t (b ∷ src) p).0 (b ∷ src)) (put_now t (b ∷ src) p).1)
  unfolding write_irq_loop
  loop_round f t b src p e = rw (e, write_irq_loop) refl

  -- What a write of `src` gives: the number of the bytes taken, all of them unless the error is a timeout.
  pub record Wrote (src : Bytes) (p : Port R S D) (r : ℕ × Port R S D) : Type 0 where
    pub writes : Writes p (take r.0 src) r.1
    pub at_most : r.0 ≤ length src
    pub whole : ((r.0 ≡ length src) × (r.1.err ≡ p.err)) ⊎ (r.1.err ≡ ZuartErr.timeout)

  Wrote-joined :
      (t : ℕ) (src : Bytes) (p : Port R S D) (r : ℕ × Port R S D)
      → Wrote (drop (put_now t src p).0 src) (put_now t src p).1 r
      → Wrote src p (joined (put_now t src p).0 r)
  Wrote-joined t src p (n, q) w =
      let m = meanwhile (tested t p) in
      let x = tested-Runs t p in
      let k = (put_tx src m).0 in
      let p₂ = (put_tx src m).1 in
      let le : k ≤ length src = omega (arith, put_tx_count src m) in
      let all : Writes p (take k src ++ take n (drop k src)) q =
        Writes-trans p p₂ q (take k src) (take n (drop k src))
          (Writes-trans p m p₂ [] (take k src) (Writes-Runs p m x) (put_tx-Writes src m))
          w.writes in
      record {
        writes = subst (λ s. Writes p s q) (take-add k n src) all;
        at_most = omega (arith, w.at_most, length-drop k src, le);
        whole = elim w.whole [
          | inl (e, h) ↦
              inl (omega (arith, e, length-drop k src, le), h ∙ err-put_tx src m ∙ x.err_eq)
          | inr h ↦ inr h
        ];
      }

  Writes-err :
      (p q : Port R S D) (e : ZuartErr) → Writes p [] q → Writes p [] (record q { err = e })
  Writes-err p q e w = record {
    tx_eq = w.tx_eq;
    incoming_le = w.incoming_le;
    config_eq = w.config_eq;
  }

  Wrote-nothing : (p : Port R S D) → Wrote [] p (0, p)
  Wrote-nothing p = record {
    writes = Writes-Runs p p (Runs-refl p);
    at_most = omega arith;
    whole = inl (refl, refl);
  }

  write_irq_loop-Wrote :
      (f t : ℕ) (src : Bytes) (p : Port R S D)
      → 3 * length src + tx_work [] p < f
      → Wrote src p (write_irq_loop f t src p)
  unfolding write_irq_loop
  write_irq_loop-Wrote zero t src p h = elim h [ ]
  write_irq_loop-Wrote (suc f) t [] p h = Wrote-nothing p
  write_irq_loop-Wrote (suc f) t (b ∷ src) p h = elim (Bool-cases (ready_tx t (meanwhile p)).0) [
    | inl e ↦
        let r = put_now t (b ∷ src) p in
        let less = round_less t b src p e in
        rw (loop_round f t b src p e) (
          Wrote-joined t (b ∷ src) p _ (
            write_irq_loop-Wrote f t (drop r.0 (b ∷ src)) r.1
              (omega (arith, less, h, tx_work_split (drop r.0 (b ∷ src)) r.1))))
    | inr e ↦ rw (loop_stop f t b src p e) (record {
      writes = Writes-err p (tested t p) ZuartErr.timeout (
          Writes-Runs p (tested t p) (
            Runs-trans p (meanwhile p) (tested t p) (Runs-meanwhile p)
              (ready_tx-Ready t (meanwhile p)).runs));
      at_most = omega arith;
      whole = inr refl;
    })
  ]

  -- Whatever interrupts come, `zuart_write_irq_proto` with a timeout takes a prefix of the bytes, which
  -- goes behind all that was to be sent before, in order: all of the bytes, or fewer and the error is that
  -- of the timeout. The loop never runs out of fuel.
  pub write_irq_lem :
      (src : Bytes) (t : ℕ) (p : Port R S D) → 0 < t → Wrote src p (write_irq src t p)
  unfolding write_irq write_irq_reset
  write_irq_lem src t p h =
      let q : Port R S D = record p { tx_sem = sem.reset p.tx_sem } in
      let x : Runs p q =
        Runs-tx_sem p (sem.reset p.tx_sem) (omega (arith, sem.count-reset p.tx_sem)) in
      let w =
        write_irq_loop-Wrote (suc (tx_work src q)) t src q (omega (arith, tx_work_split src q)) in
      let no : (t == 0) ≡ false = ground arith in
      rw no (record {
        writes = Writes-trans p q _ [] _ (Writes-Runs p q x) w.writes;
        at_most = w.at_most;
        whole = w.whole;
      })
