-- ===== src/AtUart/Parse/Feed.antt =====
-- The loop of `at_uart_parse_resp` over the bytes that come.
use isbd_zephyr_module.Prelude.{
  ℕ, zero, suc, ◌≤◌, ◌≡◌, Bytes, Bool, [], ◌∷◌, ◌++◌, length, arith, refl, Option, inl, inr,
}
use isbd_zephyr_module.Serial.{Serial}
use isbd_zephyr_module.Serial.Delivery.{Delivers, Delivers-nil}
use isbd_zephyr_module.AtUart.Types.{AtErr}
use isbd_zephyr_module.AtUart.Parse.{Parser, next, return, parse_byte, parse_loop, Step-cases}

-- The loop still waits, or it has returned and has not read the rest.
pub data Outcome : Type 0 where
  waiting : Parser → Outcome
  returned : AtErr → Option Bytes → Bytes → Outcome

module _ (verbose : Bool) (eol size lines : ℕ) where
  pub feed : Parser → Bytes → Outcome
  feed p [] = waiting p
  feed p (b ∷ bs) = elim (parse_byte verbose eol size lines p b) [
    | next q ↦ feed q bs
    | return code buf ↦ returned code buf bs
  ]

  pub feed_next :
      (p q : Parser) (b : ℕ) (bs : Bytes)
      → parse_byte verbose eol size lines p b ≡ next q
      → feed p (b ∷ bs) ≡ feed q bs
  unfolding feed
  feed_next p q b bs e = ground arith

  pub feed_return :
      (p : Parser) (b : ℕ) (bs : Bytes) (code : AtErr) (buf : Option Bytes)
      → parse_byte verbose eol size lines p b ≡ return code buf
      → feed p (b ∷ bs) ≡ returned code buf bs
  unfolding feed
  feed_return p b bs code buf e = ground arith

  pub feed_nil : (p : Parser) → feed p [] ≡ waiting p
  unfolding feed
  feed_nil p = refl

  pub feed-append :
      (p q : Parser) (xs ys : Bytes) → feed p xs ≡ waiting q → feed p (xs ++ ys) ≡ feed q ys
  unfolding feed
  feed-append p q [] ys h = ground arith
  feed-append p q (x ∷ xs) ys h = elim (Step-cases (parse_byte verbose eol size lines p x)) [
    | inl (r, e) ↦ ground (arith, feed-append r q xs ys)
    | inr (c, b, e) ↦ ground arith
  ]

module _ {Z : Type 0} ⦃line : Serial Z⦄ (verbose : Bool) (eol size lines : ℕ) where
  pub parse_loop-feed :
      (fuel t : ℕ) (bs : Bytes) (p : Parser) (z z' : Z) (code : AtErr) (buf : Option Bytes)
      → length bs ≤ fuel
      → Delivers t bs z z'
      → feed verbose eol size lines p bs ≡ returned code buf []
      → parse_loop verbose eol size lines fuel t p z ≡ ((code, buf), z')
  unfolding feed parse_loop
  parse_loop-feed fuel t [] p z z' code buf h d e = ground arith
  parse_loop-feed zero t (b ∷ bs) p z z' code buf h d e = absurd (omega arith)
  parse_loop-feed (suc fuel) t (b ∷ bs) p z z' code buf h (m, r, d) e =
      elim (Step-cases (parse_byte verbose eol size lines p b)) [
        | inl (q, s) ↦ ground (arith, parse_loop-feed fuel t bs q m z' code buf)
        | inr (c, a, s) ↦ ground (arith, Delivers-nil t bs m z' d)
      ]
