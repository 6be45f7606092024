-- ===== src/AtUart/Parse/Fuel.antt =====
-- The loop of `at_uart_parse_resp` ends: the fuel of the model never runs out.
use isbd_zephyr_module.Prelude.{ℕ, zero, suc, ◌<◌, ◌≡◌, Bool, arith, List-cases, inl, inr}
use isbd_zephyr_module.Serial.{Serial}
use isbd_zephyr_module.AtUart.Parse.{Parser, parse_byte, parse_loop, Step-cases}

module _ {Z : Type 0} ⦃line : Serial Z⦄ (verbose : Bool) (eol size lines : ℕ) where
  -- With any fuel above what the line can still deliver the loop gives the same code, array and port,
  -- so it returns by its own tests.
  pub parse_loop_fuel :
      (f g t : ℕ) (p : Parser) (z : Z)
      → line.pending z < f
      → line.pending z < g
      → parse_loop verbose eol size lines f t p z ≡ parse_loop verbose eol size lines g t p z
  unfolding parse_loop
  parse_loop_fuel zero g t p z hf hg = elim hf [ ]
  parse_loop_fuel (suc f) zero t p z hf hg = elim hg [ ]
  parse_loop_fuel (suc f) (suc g) t p z hf hg = elim (List-cases (line.read 1 t z).0) [
    | inl e ↦ ground arith
    | inr (b, bs, e) ↦ elim (Step-cases (parse_byte verbose eol size lines p b)) [
      | inl (q, s) ↦
          ground (arith, line.read_pending 1 t z, parse_loop_fuel f g t q (line.read 1 t z).1)
      | inr (c, a, s) ↦ ground arith
    ]
  ]
