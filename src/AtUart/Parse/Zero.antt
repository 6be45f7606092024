-- ===== src/AtUart/Parse/Zero.antt =====
-- A number on a line where the format of the results is numeric: 0 is the result code OK as well.
use isbd_zephyr_module.Prelude.{
  ℕ, suc, ◌<◌, ◌≤◌, ◌≡◌, ◌^◌, ◌%◌, Bytes, Bool, false, [], ◌∷◌, length, set, length-set, arith,
  refl, ap, ◌∙◌, some, ◌⊎◌, inl, inr,
}
use isbd_zephyr_module.Serial.{Serial}
use isbd_zephyr_module.Serial.Delivery.{Delivers, length-le-pending}
use isbd_zephyr_module.Libc.Print.{decimal}
use isbd_zephyr_module.AtUart.Types.{ok, AtUart}
use isbd_zephyr_module.AtUart.Code.Laws.{get_str_code-code_text}
use isbd_zephyr_module.AtUart.Parse.{
  Parser, next, return, parse_byte, parse_resp, get_resp_code, resp_code, put_code_char, initial,
}
use isbd_zephyr_module.AtUart.Parse.Feed.{
  returned, feed, feed-append, feed_next, feed_nil, feed_return, parse_loop-feed,
}
use isbd_zephyr_module.AtUart.Parse.Line.{
  IsEol, IsChar, feed_blanks, parse_byte_char, parse_byte_code, put_char_fits,
}
use isbd_zephyr_module.AtUart.Parse.SecondLine.{
  line_code_first, put_code_char_line, return_code_fits,
}
use isbd_zephyr_module.AtUart.Parse.Response.{Blanks, Gap, IsText, Blanks-first, Blanks-Gap}
use isbd_zephyr_module.AtUart.Parse.Single.{line_response, get_resp_code_number}

-- A number that the parser reads as a number: it is no result code of the format, or it is 0, which is OK.
-- So it is any number but a 4 in the numeric format, which is ERROR.
abbrev pub IsNumber : Bool → ℕ → ℕ → Type 0
IsNumber verbose size n = IsText verbose size (decimal n) ⊎ ((verbose ≡ false) × (n ≡ 0))

decimal-zero : decimal 0 ≡ b'0' ∷ []
unfolding decimal
decimal-zero = refl

module _ (eol size : ℕ) (b₀ : Bytes) where
  abbrev zero_mem : Bytes
  zero_mem = set (set b₀ 0 b'0') 1 0

  -- Behind the digit.
  abbrev behind_zero : Parser
  behind_zero = record {
    line_n = 1;
    buf_i = 1;
    buf_li = 0;
    at_buf = b'0' ∷ [];
    buf = some zero_mem;
  }

  zero_step :
      IsEol eol
      → 1 < size
      → size < 2 ^ 16
      → parse_byte false eol size 1 (initial (some b₀)) b'0' ≡ next behind_zero
  zero_step ee hs hw =
      let p : Parser = initial (some b₀) in
      let q : Parser = record p { buf_i = 1; buf = some zero_mem } in
      let ch : IsChar b'0' = ground arith in
      parse_byte_char false eol size 1 p b'0' ee ch
      ∙ ap (λ r. next (put_code_char 0 b'0' r))
          (put_char_fits false eol size 1 b'0' b₀ p ch.0 (omega (arith, hs)) hw)
      ∙ ap next (put_code_char_line false eol size 1 b'0' [] q (omega arith) refl)

  zero_end :
      IsEol eol
      → 1 < size
      → parse_byte false eol size 1 behind_zero eol ≡ return ok (some (set zero_mem 0 0))
  zero_end ee hs =
      let (looked, u, ne) = get_str_code-code_text false ok (inl refl) in
      parse_byte_code false eol size 1 behind_zero ok ee ne
        (line_code_first false eol size 1 behind_zero refl ∙ looked) u
      ∙ return_code_fits false eol size 1 ok 0 zero_mem (omega (arith, hs))

  feed-zero :
      (pre gap : Bytes)
      → IsEol eol
      → 1 < size
      → size < 2 ^ 16
      → Blanks pre
      → Gap eol gap
      → feed false eol size 1 (initial (some b₀)) (line_response eol pre (b'0' ∷ []) gap)
        ≡ returned ok (some (set zero_mem 0 0)) []
  feed-zero pre gap ee hs hw hp hg =
      let f = feed-append false eol size 1 in
      let p : Parser = initial (some b₀) in
      let q = behind_zero in
      f p p pre _ (feed_blanks false eol size 1 p pre (Blanks-first p eol pre refl hp))
      ∙ f p q (b'0' ∷ []) _ (
          feed_next false eol size 1 p q b'0' [] (zero_step ee hs hw) ∙ feed_nil false eol size 1 q)
      ∙ f q q gap _ (feed_blanks false eol size 1 q gap (Blanks-Gap q eol gap hg))
      ∙ feed_return false eol size 1 q eol [] ok (some (set zero_mem 0 0)) (zero_end ee hs)

module _ {Z : Type 0} ⦃line : Serial Z⦄ where
  -- A line with a 0 in the numeric format.
  get_resp_code_zero :
      (at_uart : AtUart Z) (b₀ pre gap : Bytes) (size t : ℕ) (z' : Z)
      → IsEol at_uart.eol
      → 1 < size
      → size < 2 ^ 16
      → at_uart.config.verbose ≡ false
      → Blanks pre
      → Gap at_uart.eol gap
      → Delivers t (line_response at_uart.eol pre (decimal 0) gap) at_uart.zuart z'
      → get_resp_code b₀ size t at_uart
        ≡ ((ok, some 0, set (zero_mem at_uart.eol size b₀) 0 0), record at_uart { zuart = z' })
  unfolding get_resp_code parse_resp resp_code
  get_resp_code_zero at_uart b₀ pre gap size t z' ee hs hw hv hp hg d =
      let bs = line_response at_uart.eol pre (b'0' ∷ []) gap in
      let d' : Delivers t bs at_uart.zuart z' = rw decimal-zero at d in
      let loop =
        parse_loop-feed false at_uart.eol size 1 (suc (line.pending at_uart.zuart)) t bs
          (initial (some b₀)) at_uart.zuart z' ok _
          (omega (arith, length-le-pending t bs at_uart.zuart z' d')) d'
          (feed-zero at_uart.eol size b₀ pre gap ee hs hw hp hg) in
      rw (hv, loop) refl

  pub get_resp_code_digits :
      (at_uart : AtUart Z) (b₀ pre gap : Bytes) (n size t : ℕ) (z' : Z)
      → IsEol at_uart.eol
      → size ≤ length b₀
      → 1 < size
      → size < 2 ^ 16
      → IsNumber at_uart.config.verbose size n
      → Blanks pre
      → Gap at_uart.eol gap
      → Delivers t (line_response at_uart.eol pre (decimal n) gap) at_uart.zuart z'
      → (b : Bytes) × (get_resp_code b₀ size t at_uart
          ≡ ((ok, some (n % 2 ^ 8), b), record at_uart { zuart = z' }))
        × (length b ≡ length b₀)
  get_resp_code_digits at_uart b₀ pre gap n size t z' ee hs h1 hw (inl ht) hp hg d =
      get_resp_code_number at_uart b₀ pre gap n size t z' ee hs hw ht hp hg d
  get_resp_code_digits at_uart b₀ pre gap n size t z' ee hs h1 hw (inr (hv, h0)) hp hg d =
      let d' : Delivers t (line_response at_uart.eol pre (decimal 0) gap) at_uart.zuart z' =
        rw h0 at d in
      (
        set (zero_mem at_uart.eol size b₀) 0 0,
        rw h0 (get_resp_code_zero at_uart b₀ pre gap size t z' ee h1 hw hv hp hg d'),
        omega (
          arith,
          length-set (zero_mem at_uart.eol size b₀) 0 0,
          length-set (set b₀ 0 b'0') 1 0,
          length-set b₀ 0 b'0',
        ),
      )
