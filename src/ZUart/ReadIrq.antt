-- ===== src/ZUart/ReadIrq.antt =====
-- The loop of `zuart_read_irq_proto`, and what the function returns and records.
use isbd_zephyr_module.Prelude.{
  ℕ, zero, suc, ◌+◌, ◌-◌, ◌*◌, ◌≤◌, ◌<◌, ◌≡◌, Bytes, Bool, true, false, [], ◌++◌, length,
  length-drop, length-append, arith, refl, ap, sym, ◌∙◌, Bool-cases, inl, inr,
}
use isbd_zephyr_module.ZUart.Types.{ZuartErr}
use isbd_zephyr_module.ZUart.Kernel.{RingBuf, Sem, Uart}
use isbd_zephyr_module.ZUart.Port.{Port, meanwhile}
use isbd_zephyr_module.ZUart.Transfer.{
  ready_rx, get_rx, read_irq_loop, read_irq_err, read_irq, rx_work,
}
use isbd_zephyr_module.ZUart.Runs.{Runs, Runs-refl, Runs-trans, Runs-meanwhile}
use isbd_zephyr_module.ZUart.Reads.{
  Reads, Reads-nil, Reads-after, Reads-Runs, Reads-get, length-get_rx, ready_rx-Ready,
}

module _ {R S D : Type 0} ⦃ring : RingBuf R⦄ ⦃sem : Sem S⦄ ⦃uart : Uart D⦄ where
  -- The port behind lines 41 to 44, and behind line 50.
  abbrev tested : ℕ → Port R S D → Port R S D
  tested t p = (ready_rx t (meanwhile p)).1

  abbrev gotten : ℕ → ℕ → Port R S D → Port R S D
  gotten t n p = (get_rx n (meanwhile (tested t p))).1

  abbrev got_now : ℕ → ℕ → Port R S D → Bytes
  got_now t n p = (get_rx n (meanwhile (tested t p))).0

  loop_stop :
      (f t n : ℕ) (p : Port R S D)
      → (ready_rx t (meanwhile p)).0 ≡ false
      → read_irq_loop (suc f) t (suc n) p ≡ ((false, []), tested t p)
  unfolding read_irq_loop
  loop_stop f t n p e = rw (e, read_irq_loop) refl

  -- A round that gets something, and the rest of the loop.
  abbrev joined : Bytes → (Bool × Bytes) × Port R S D → (Bool × Bytes) × Port R S D
  joined bs ((s, rest), q) = ((s, bs ++ rest), q)

  loop_round :
      (f t n : ℕ) (p : Port R S D)
      → (ready_rx t (meanwhile p)).0 ≡ true
      → read_irq_loop (suc f) t (suc n) p
        ≡ joined
            (got_now t (suc n) p)
            (read_irq_loop f t (suc n - length (got_now t (suc n) p)) (gotten t (suc n) p))
  unfolding read_irq_loop
  loop_round f t n p e = rw (e, read_irq_loop) refl

  rx_work-get_rx :
      (n : ℕ) (p : Port R S D) → rx_work (get_rx n p).1 + 2 * length (get_rx n p).0 ≡ rx_work p
  unfolding rx_work get_rx
  rx_work-get_rx n p = omega (
    arith,
    ap length (ring.items-get n p.rx_rbuf),
    length-drop n (ring.items p.rx_rbuf),
    length-get_rx n p,
  )

  length-items_le :
      (p q : Port R S D) → Runs p q → length (ring.items p.rx_rbuf) ≤ length (ring.items q.rx_rbuf)
  length-items_le p q x =
      omega (arith, ap length x.rx_eq, length-append (ring.items p.rx_rbuf) x.kept)

  -- A round leaves less to do.
  round_less :
      (t n : ℕ) (p : Port R S D)
      → (ready_rx t (meanwhile p)).0 ≡ true
      → rx_work (gotten t (suc n) p) < rx_work p
  round_less t n p e =
      let q = tested t p in
      let x = Runs-meanwhile p in
      let y = ready_rx-Ready t (meanwhile p) in
      let z = Runs-meanwhile q in
      elim (y.worth e) [
        | inl h ↦ omega (arith, x.rx_work_le, h, z.rx_work_le, rx_work-get_rx (suc n) (meanwhile q))
        | inr h ↦ omega (
          arith,
          x.rx_work_le,
          y.runs.rx_work_le,
          z.rx_work_le,
          h,
          length-items_le q (meanwhile q) z,
          length-get_rx (suc n) (meanwhile q),
          rx_work-get_rx (suc n) (meanwhile q),
        )
      ]

  round-Reads :
      (t n : ℕ) (p q : Port R S D) (rest : Bytes)
      → Reads (gotten t n p) rest q
      → Reads p (got_now t n p ++ rest) q
  round-Reads t n p q rest r =
      let m = tested t p in
      let y = ready_rx-Ready t (meanwhile p) in
      Reads-after p m q (got_now t n p ++ rest)
        (Runs-trans p (meanwhile p) m (Runs-meanwhile p) y.runs)
        (Reads-after m (meanwhile m) q (got_now t n p ++ rest) (Runs-meanwhile m)
          (Reads-get n (meanwhile m) q rest r))

  -- What the loop gives: all bytes that were asked for if the last wait did not fail.
  pub record Got (n : ℕ) (p : Port R S D) (r : (Bool × Bytes) × Port R S D) : Type 0 where
    pub reads : Reads p r.0.1 r.1
    pub at_most : length r.0.1 ≤ n
    pub whole : r.0.0 ≡ true → length r.0.1 ≡ n

  Got-joined :
      (t n : ℕ) (p : Port R S D) (r : (Bool × Bytes) × Port R S D)
      → Got (n - length (got_now t n p)) (gotten t n p) r
      → Got n p (joined (got_now t n p) r)
  Got-joined t n p r g =
      let l = length-get_rx n (meanwhile (tested t p)) in
      record {
        reads = round-Reads t n p r.1 r.0.1 g.reads;
        at_most = omega (arith, g.at_most, length-append (got_now t n p) r.0.1, l);
        whole = λ e. omega (arith, g.whole e, length-append (got_now t n p) r.0.1, l);
      }

  pub read_irq_loop-Got : (f t n : ℕ) (p : Port R S D) → Got n p (read_irq_loop f t n p)
  unfolding read_irq_loop
  read_irq_loop-Got zero t n p = record {
    reads = Reads-nil p p (Runs-refl p);
    at_most = omega arith;
    whole = λ e. absurd (ground arith);
  }
  read_irq_loop-Got (suc f) t zero p = record {
    reads = Reads-nil p p (Runs-refl p);
    at_most = omega arith;
    whole = λ e. refl;
  }
  read_irq_loop-Got (suc f) t (suc n) p = elim (Bool-cases (ready_rx t (meanwhile p)).0) [
    | inl e ↦ rw (loop_round f t n p e) (
        Got-joined t (suc n) p _
          (read_irq_loop-Got f t (suc n - length (got_now t (suc n) p)) (gotten t (suc n) p)))
    | inr e ↦ rw (loop_stop f t n p e) (record {
      reads = Reads-nil p (tested t p) (
          Runs-trans p (meanwhile p) (tested t p) (Runs-meanwhile p)
            (ready_rx-Ready t (meanwhile p)).runs);
      at_most = omega arith;
      whole = λ h. absurd (ground arith);
    })
  ]

  -- With any fuel above the work that is left the loop of `zuart_read_irq_proto` gives the same result, so
  -- it ends by its own tests, whatever interrupts come and in whatever order.
  pub read_irq_loop_fuel :
      (f g t n : ℕ) (p : Port R S D)
      → rx_work p < f
      → rx_work p < g
      → read_irq_loop f t n p ≡ read_irq_loop g t n p
  unfolding read_irq_loop
  read_irq_loop_fuel zero g t n p hf hg = elim hf [ ]
  read_irq_loop_fuel (suc f) zero t n p hf hg = elim hg [ ]
  read_irq_loop_fuel (suc f) (suc g) t zero p hf hg = refl
  read_irq_loop_fuel (suc f) (suc g) t (suc n) p hf hg =
      elim (Bool-cases (ready_rx t (meanwhile p)).0) [
        | inl e ↦
            let less = round_less t n p e in
            loop_round f t n p e
            ∙ ap (joined (got_now t (suc n) p)) (
                read_irq_loop_fuel f g t (suc n - length (got_now t (suc n) p)) (gotten t (suc n) p)
                  (omega (arith, less)) (omega (arith, less)))
            ∙ sym (loop_round g t n p e)
        | inr e ↦ loop_stop f t n p e ∙ sym (loop_stop g t n p e)
      ]

  -- What the error of a port says behind a read of `n` bytes within `t` that got `got`.
  pub data Verdict (p : Port R S D) (n t : ℕ) (got : Bytes) (kept fresh : Bytes) (err : ZuartErr)
      : Type 0 where
    lost : err ≡ ZuartErr.overrun → Verdict p n t got kept fresh err
    complete :
        p.overrun ≡ false
        → kept ≡ fresh
        → length got ≡ n
        → err ≡ p.err
        → Verdict p n t got kept fresh err
    nothing_left :
        p.overrun ≡ false → kept ≡ fresh → t ≡ 0 → err ≡ p.err → Verdict p n t got kept fresh err
    timed_out :
        p.overrun ≡ false
        → kept ≡ fresh
        → 0 < t
        → err ≡ ZuartErr.timeout
        → Verdict p n t got kept fresh err

  err_overrun :
      (t : ℕ) (s : Bool) (q : Port R S D)
      → q.overrun ≡ true
      → (read_irq_err t s q).err ≡ ZuartErr.overrun
  unfolding read_irq_err
  err_overrun t s q e = ground arith

  err_whole : (t : ℕ) (q : Port R S D) → q.overrun ≡ false → (read_irq_err t true q).err ≡ q.err
  unfolding read_irq_err
  err_whole t q e = ground arith

  err_now : (s : Bool) (q : Port R S D) → q.overrun ≡ false → (read_irq_err 0 s q).err ≡ q.err
  unfolding read_irq_err
  err_now s q e = ground arith

  err_late :
      (t : ℕ) (q : Port R S D)
      → q.overrun ≡ false
      → 0 < t
      → (read_irq_err t false q).err ≡ ZuartErr.timeout
  unfolding read_irq_err
  err_late t q e h = ground arith

  -- It touches the error and the flag only, and clears the flag.
  pub err_rest :
      (t : ℕ) (s : Bool) (q : Port R S D)
      → ((read_irq_err t s q).dev ≡ q.dev)
        × ((read_irq_err t s q).rx_rbuf ≡ q.rx_rbuf)
        × ((read_irq_err t s q).tx_rbuf ≡ q.tx_rbuf)
        × ((read_irq_err t s q).config ≡ q.config)
        × ((read_irq_err t s q).overrun ≡ false)
  unfolding read_irq_err
  err_rest t s q = ground arith

  read_irq_err-Verdict :
      (p q : Port R S D) (n t : ℕ) (s : Bool) (got : Bytes)
      → (r : Reads p got q) → (s ≡ true → length got ≡ n)
      → Verdict p n t got r.kept r.fresh (read_irq_err t s q).err
  read_irq_err-Verdict p q n t true got r w = elim (Bool-cases q.overrun) [
    | inl e ↦ lost (err_overrun t true q e)
    | inr e ↦ let (o, k) = r.lossless e in complete o k (w refl) (err_whole t q e ∙ r.err_eq)
  ]
  read_irq_err-Verdict p q n zero false got r w = elim (Bool-cases q.overrun) [
    | inl e ↦ lost (err_overrun zero false q e)
    | inr e ↦ let (o, k) = r.lossless e in nothing_left o k refl (err_now false q e ∙ r.err_eq)
  ]
  read_irq_err-Verdict p q n (suc t) false got r w = elim (Bool-cases q.overrun) [
    | inl e ↦ lost (err_overrun (suc t) false q e)
    | inr e ↦
        let (o, k) = r.lossless e in
        timed_out o k (omega arith) (err_late (suc t) q e (omega arith))
  ]

  -- Whatever interrupts come, `zuart_read_irq_proto` for `n` bytes gets at most `n`, and they are the
  -- oldest of the reception buffer and of what came into it, in order, with the rest still there. The
  -- bytes that came are all those that were taken off the line unless the error is an overrun; else the
  -- read is complete, or there is no timeout, or the error is that of the timeout. The flag of an overrun
  -- is clear behind it.
  pub read_irq_lem :
      (n t : ℕ) (p : Port R S D)
      → let (got, q) = read_irq n t p in
        (fresh : Bytes) × (kept : Bytes) × (uart.arrived q.dev ≡ uart.arrived p.dev ++ fresh)
        × (got ++ ring.items q.rx_rbuf ≡ ring.items p.rx_rbuf ++ kept)
        × (length got ≤ n)
        × (q.overrun ≡ false)
        × Verdict p n t got kept fresh q.err
  unfolding read_irq
  read_irq_lem n t p =
      let ((s, got), p') = read_irq_loop (suc (rx_work p)) t n p in
      let g = read_irq_loop-Got (suc (rx_work p)) t n p in
      let q = meanwhile p' in
      let r : Reads p got q = Reads-Runs p p' q got g.reads (Runs-meanwhile p') in
      let (d, x, _, _, o) = err_rest t s q in
      (
        r.fresh,
        r.kept,
        ap uart.arrived d ∙ r.arrived_eq,
        ap (λ b. got ++ ring.items b) x ∙ r.rx_eq,
        g.at_most,
        o,
        read_irq_err-Verdict p q n t s got r g.whole,
      )
