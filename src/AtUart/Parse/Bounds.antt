-- ===== src/AtUart/Parse/Bounds.antt =====
-- What `at_uart_parse_resp` writes to the caller's array.
use isbd_zephyr_module.Prelude.{
  ℕ, zero, suc, ◌+◌, ◌<◌, ◌≤◌, ◌≡◌, Bytes, Bool, true, false, [], ◌∷◌, length, set, drop,
  length-set, drop-set, c_str, arith, refl, Option, none, some, List-cases, inl, inr, if◌then◌else◌,
}
use isbd_zephyr_module.Serial.{Serial}
use isbd_zephyr_module.AtUart.Types.{AtErr, ok, err, AtUart}
use isbd_zephyr_module.AtUart.Parse.{
  Parser, Step, next, return, parse_byte, parse_loop, parse_resp, Step-cases, put_char,
  put_code_char, next_line, return_code, return_unknown, initial, array,
}

-- The array keeps its length, and what lies behind its first `size` bytes.
abbrev pub Within : ℕ → Bytes → Option Bytes → Type 0
Within size b none = ⊥
Within size b (some b') = (length b' ≡ length b) × (drop size b' ≡ drop size b)

-- A code that ends the response leaves a string that fits into `size` bytes.
abbrev pub Terminated : ℕ → AtErr → Option Bytes → Type 0
Terminated size ok buf = length (c_str (array buf)) < size
Terminated size err buf = length (c_str (array buf)) < size
Terminated size _ buf = Unit

length-c_str-set : (b : Bytes) (i : ℕ) → length (c_str (set b i 0)) ≤ i
length-c_str-set [] i = omega arith
length-c_str-set (x ∷ b) zero = omega arith
length-c_str-set (x ∷ b) (suc i) = ground (arith, length-c_str-set b i)

module _ (verbose : Bool) (eol size lines : ℕ) (b₀ : Bytes) where
  StepWithin : Step → Type 0
  StepWithin (next p) = Within size b₀ p.buf
  StepWithin (return code buf) = Within size b₀ buf × Terminated size code buf

  put_char-Within :
      (c : ℕ) (buf : Option Bytes) (p : Parser)
      → p.buf ≡ buf
      → Within size b₀ buf
      → Within size b₀ (put_char size c buf p).buf
  unfolding put_char
  put_char-Within c none p e w = elim w [ ]
  put_char-Within c (some b) p e w = ground (
    arith,
    length-set b p.buf_i c,
    length-set (set b p.buf_i c) (p.buf_i + 1) 0,
    drop-set b p.buf_i size c,
    drop-set (set b p.buf_i c) (p.buf_i + 1) size 0,
  )

  buf-put_code_char : (trail byte : ℕ) (p : Parser) → (put_code_char trail byte p).buf ≡ p.buf
  unfolding put_code_char
  buf-put_code_char trail byte p = ground arith

  return_code-Within :
      (code : AtErr) (li : ℕ) (buf : Option Bytes)
      → Within size b₀ buf
      → StepWithin (return_code size code li buf)
  unfolding return_code StepWithin
  return_code-Within code li none w = elim w [ ]
  return_code-Within ok li (some b) w =
      ground (arith, length-set b li 0, drop-set b li size 0, length-c_str-set b li)
  return_code-Within err li (some b) w =
      ground (arith, length-set b li 0, drop-set b li size 0, length-c_str-set b li)
  return_code-Within _ li (some b) w = ground (arith, length-set b li 0, drop-set b li size 0)

  return_unknown-Within :
      (i : ℕ) (buf : Option Bytes) → Within size b₀ buf → StepWithin (return_unknown size i buf)
  unfolding return_unknown StepWithin
  return_unknown-Within i none w = elim w [ ]
  return_unknown-Within i (some b) w = ground arith

  next-Within :
      (trail byte c : ℕ) (p : Parser)
      → Within size b₀ p.buf
      → StepWithin (next (put_code_char trail byte (put_char size c p.buf p)))
  unfolding StepWithin
  next-Within trail byte c p w = rw buf-put_code_char (put_char-Within c p.buf p refl w)

  if-Within :
      (b : Bool) (s t : Step) → StepWithin s → StepWithin t → StepWithin (if b then s else t)
  if-Within true s t hs ht = hs
  if-Within false s t hs ht = ht

  parse_byte-Within :
      (p : Parser) (byte : ℕ)
      → Within size b₀ p.buf
      → StepWithin (parse_byte verbose eol size lines p byte)
  unfolding parse_byte next_line
  parse_byte-Within p byte w =
      if-Within _ _ _
        (if-Within _ _ _ (return_code-Within _ p.buf_li p.buf w)
          (if-Within _ _ _ (return_unknown-Within p.buf_i p.buf w) (next-Within _ byte b'\n' _ w)))
        (next-Within _ byte _ p w)

  module _ {Z : Type 0} ⦃line : Serial Z⦄ where
    abbrev ResultWithin : (AtErr × Option Bytes) × Z → Type 0
    ResultWithin ((code, buf), z) = Within size b₀ buf × Terminated size code buf

    parse_loop-Within :
        (fuel t : ℕ) (p : Parser) (z : Z)
        → Within size b₀ p.buf
        → ResultWithin (parse_loop verbose eol size lines fuel t p z)
    unfolding parse_loop StepWithin
    parse_loop-Within zero t p z w = (w, tt)
    parse_loop-Within (suc fuel) t p z w = elim (List-cases (line.read 1 t z).0) [
      | inl e ↦ rw (e, parse_loop) (w, tt)
      | inr (b, bs, e) ↦ elim (Step-cases (parse_byte verbose eol size lines p b)) [
        | inl (q, s) ↦
            rw (e, s, parse_loop)
              (parse_loop-Within fuel t q (line.read 1 t z).1 (rw s at (parse_byte-Within p b w)))
        | inr (c, a, s) ↦ rw (e, s, parse_loop) (rw s at (parse_byte-Within p b w))
      ]
    ]

module _ {Z : Type 0} ⦃line : Serial Z⦄ where
  -- Given an array and its size, `at_uart_parse_resp` writes within its first `size` bytes and nowhere
  -- else, and where it returns OK or ERROR it leaves a terminated string there.
  pub parse_resp_bounds :
      (b : Bytes) (size lines t : ℕ) (at_uart : AtUart Z)
      → let (code, buf) = (parse_resp (some b) size lines t at_uart).0 in
        Within size b buf × Terminated size code buf
  unfolding parse_resp
  parse_resp_bounds b size lines t at_uart =
      parse_loop-Within at_uart.config.verbose at_uart.eol size lines b
        (suc (line.pending at_uart.zuart)) t (initial (some b)) at_uart.zuart (refl, refl)
