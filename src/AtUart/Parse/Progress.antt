-- ===== src/AtUart/Parse/Progress.antt =====
-- The loop of `at_uart_parse_resp` takes something off the line, unless nothing comes.
use isbd_zephyr_module.Prelude.{
  ℕ, zero, suc, ◌<◌, ◌≤◌, ◌≡◌, Bytes, Bool, length, arith, refl, ap, ◌∙◌, Option, List-cases, inl,
  inr,
}
use isbd_zephyr_module.Serial.{Serial}
use isbd_zephyr_module.AtUart.Types.{AtErr, timeout}
use isbd_zephyr_module.AtUart.Parse.{Parser, parse_byte, parse_loop, Step-cases}

module _ {Z : Type 0} ⦃line : Serial Z⦄ (verbose : Bool) (eol size lines : ℕ) where
  -- A result at `z'` of a loop that began at `z`.
  pub record Progress (z : Z) (r : (AtErr × Option Bytes) × Z) : Type 0 where
    pub at_most : line.pending r.1 ≤ line.pending z
    pub less : (r.0.0 ≡ timeout → ⊥) → line.pending r.1 < line.pending z
    pub sent_eq : line.sent r.1 ≡ line.sent z

  Progress-stop :
      (z z' : Z) (b : Option Bytes)
      → line.pending z' ≤ line.pending z
      → line.sent z' ≡ line.sent z
      → Progress z ((timeout, b), z')
  Progress-stop z z' b h s = record { at_most = h; less = λ n. absurd (n refl); sent_eq = s }

  Progress-after :
      (z m : Z) (r : (AtErr × Option Bytes) × Z)
      → line.pending m < line.pending z
      → line.sent m ≡ line.sent z
      → Progress m r
      → Progress z r
  Progress-after z m r h s p = record {
    at_most = omega (arith, p.at_most);
    less = λ n. omega (arith, p.at_most);
    sent_eq = p.sent_eq ∙ s;
  }

  pub parse_loop-Progress :
      (fuel t : ℕ) (p : Parser) (z : Z) → Progress z (parse_loop verbose eol size lines fuel t p z)
  unfolding parse_loop
  parse_loop-Progress zero t p z = Progress-stop z z p.buf (omega arith) refl
  parse_loop-Progress (suc fuel) t p z =
      let m = (line.read 1 t z).1 in
      let h = line.read_pending 1 t z in
      let k = line.sent-read 1 t z in
      elim (List-cases (line.read 1 t z).0) [
        | inl e ↦ rw (e, parse_loop) (Progress-stop z m p.buf (omega (arith, h)) k)
        | inr (b, bs, e) ↦
            let less : line.pending m < line.pending z = omega (arith, h, ap length e) in
            elim (Step-cases (parse_byte verbose eol size lines p b)) [
              | inl (q, s) ↦
                  rw (e, s, parse_loop)
                    (Progress-after z m _ less k (parse_loop-Progress fuel t q m))
              | inr (c, a, s) ↦
                  rw (e, s, parse_loop)
                    (record { at_most = omega (arith, less); less = λ n. less; sent_eq = k })
            ]
      ]
