-- ===== src/AtUart/Parse/Skip.antt =====
-- A response that is a result code alone, and what the caller's array has to do with the code.
use isbd_zephyr_module.Prelude.{
  ℕ, suc, ◌+◌, ◌≤◌, ◌≡◌, Bytes, Bool, [], ◌∷◌, ◌++◌, length, All, append_assoc, append-nil,
  length-append, arith, refl, ap, ◌∙◌, Option, none, ◌⊎◌,
}
use isbd_zephyr_module.Serial.{Serial}
use isbd_zephyr_module.Serial.Delivery.{Delivers, length-le-pending}
use isbd_zephyr_module.AtUart.Types.{AtErr, ok, err, AtUart}
use isbd_zephyr_module.AtUart.Code.Laws.{code_text, get_str_code-code_text}
use isbd_zephyr_module.AtUart.Parse.{
  Parser, next, parse_byte, parse_resp, skip_resp, initial, put_char, return_code,
}
use isbd_zephyr_module.AtUart.Parse.Feed.{
  waiting, returned, feed, feed-append, feed_next, feed_nil, feed_return, parse_loop-feed,
}
use isbd_zephyr_module.AtUart.Parse.Line.{
  IsEol, IsChar, feed_blanks, parse_byte_char, parse_byte_code,
}
use isbd_zephyr_module.AtUart.Parse.SecondLine.{put_code_char_line, line_code_first}
use isbd_zephyr_module.AtUart.Parse.Response.{
  Blanks, Gap, code_text_chars, Blanks-first, Blanks-Gap,
}

-- The response to a command that only sets something.
abbrev pub code_response : Bool → ℕ → Bytes → Bytes → AtErr → Bytes
code_response verbose eol pre gap code = pre ++ (code_text verbose code ++ (gap ++ (eol ∷ [])))

module _ (verbose : Bool) (eol size lines : ℕ) where
  feed_line_none :
      (read s : Bytes) (p : Parser)
      → IsEol eol
      → All IsChar s
      → length read + length s ≤ 31
      → p.at_buf ≡ read
      → p.buf ≡ none
      → feed verbose eol size lines p s ≡ waiting (record p { at_buf = read ++ s })
  unfolding put_char
  feed_line_none read [] p ee a h e n =
      feed_nil verbose eol size lines p ∙ ap waiting (rw (append-nil, ← e))
  feed_line_none read (c ∷ s) p ee (ec, a) h e n =
      let step : parse_byte verbose eol size lines p c
          ≡ next (record p { at_buf = read ++ c ∷ [] }) =
        ground (
          arith,
          parse_byte_char verbose eol size lines p c ee ec,
          put_code_char_line verbose eol size lines c read p (omega arith) e,
        ) in
      feed_next verbose eol size lines p _ c s step
      ∙ feed_line_none (read ++ c ∷ []) s (record p { at_buf = read ++ c ∷ [] }) ee a
          (omega (arith, length-append read (c ∷ []))) refl n
      ∙ rw (append_assoc read (c ∷ []) s)

  feed-code_response :
      (pre gap : Bytes) (code : AtErr)
      → IsEol eol
      → Blanks pre
      → Gap eol gap
      → (code ≡ ok) ⊎ (code ≡ err)
      → feed verbose eol size lines (initial none) (code_response verbose eol pre gap code)
        ≡ returned code none []
  unfolding return_code
  feed-code_response pre gap code ee hp hg hc =
      let f = feed-append verbose eol size lines in
      let p : Parser = initial none in
      let q : Parser = record p { at_buf = code_text verbose code } in
      let (looked, u, ne) = get_str_code-code_text verbose code hc in
      let chars = code_text_chars verbose code in
      f p p pre _ (feed_blanks verbose eol size lines p pre (Blanks-first p eol pre refl hp))
      ∙ f p q (code_text verbose code) _ (
          feed_line_none [] (code_text verbose code) p ee chars.0 (omega (arith, chars.1)) refl
            refl)
      ∙ f q q gap _ (feed_blanks verbose eol size lines q gap (Blanks-Gap q eol gap hg))
      ∙ feed_return verbose eol size lines q eol [] code none (
          parse_byte_code verbose eol size lines q code ee ne
            (line_code_first verbose eol size lines q refl ∙ looked) u)

module _ {Z : Type 0} ⦃line : Serial Z⦄ where
  -- Where the line delivers in time a result code, OK or ERROR, between blanks, `at_uart_skip_resp`
  -- returns that code, for any number of lines, and has read no further.
  pub skip_resp_code :
      (at_uart : AtUart Z) (pre gap : Bytes) (lines t : ℕ) (code : AtErr) (z' : Z)
      → IsEol at_uart.eol
      → Blanks pre
      → Gap at_uart.eol gap
      → (code ≡ ok) ⊎ (code ≡ err)
      → Delivers t (code_response at_uart.config.verbose at_uart.eol pre gap code) at_uart.zuart z'
      → skip_resp lines t at_uart ≡ (code, record at_uart { zuart = z' })
  unfolding skip_resp parse_resp
  skip_resp_code at_uart pre gap lines t code z' ee hp hg hc d =
      let bs = code_response at_uart.config.verbose at_uart.eol pre gap code in
      ap (λ (r : (AtErr × Option Bytes) × Z). (r.0.0, record at_uart { zuart = r.1 }))
        (parse_loop-feed at_uart.config.verbose at_uart.eol 0 lines
          (suc (line.pending at_uart.zuart)) t bs (initial none) at_uart.zuart z' code none
          (omega (arith, length-le-pending t bs at_uart.zuart z' d)) d
          (feed-code_response at_uart.config.verbose at_uart.eol 0 lines pre gap code ee hp hg hc))
