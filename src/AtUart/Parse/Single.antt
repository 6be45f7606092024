-- ===== src/AtUart/Parse/Single.antt =====
-- A response of one line that is no result code.
use isbd_zephyr_module.Prelude.{
  ℕ, suc, ◌<◌, ◌≤◌, ◌≡◌, ◌≢◌, ◌^◌, ◌%◌, Bytes, Bool, true, false, [], ◌∷◌, ◌++◌, length, All, c_str,
  c_str_ended, peek, arith, refl, ap, ◌∙◌, Option, none, some,
}
use isbd_zephyr_module.Serial.{Serial}
use isbd_zephyr_module.Serial.Delivery.{Delivers, length-le-pending}
use isbd_zephyr_module.Libc.Print.{decimal}
use isbd_zephyr_module.Libc.Print.Laws.{decimal_digits, decimal-ne-nil}
use isbd_zephyr_module.Libc.Scan.{is_digit}
use isbd_zephyr_module.Libc.Scan.Laws.{atoi-decimal}
use isbd_zephyr_module.AtUart.Types.{AtErr, ok, unk, AtUart}
use isbd_zephyr_module.AtUart.Parse.{
  Parser, return, parse_byte, return_unknown, parse_resp, get_resp_code, resp_code, initial,
}
use isbd_zephyr_module.AtUart.Parse.Feed.{returned, feed, feed-append, feed_return, parse_loop-feed}
use isbd_zephyr_module.AtUart.Parse.Line.{
  IsEol, FirstLine, feed_blanks, feed-FirstLine, parse_byte_unknown,
}
use isbd_zephyr_module.AtUart.Parse.SecondLine.{line_code_first, take-ne-nil}
use isbd_zephyr_module.AtUart.Parse.Response.{
  Blanks, Gap, IsText, Blanks-first, Blanks-Gap, All-nonzero,
}

-- A line of text between blanks.
abbrev pub line_response : ℕ → Bytes → Bytes → Bytes → Bytes
line_response eol pre text gap = pre ++ (text ++ (gap ++ (eol ∷ [])))

module _ (verbose : Bool) (eol size : ℕ) where
  return_unknown_fits :
      (i : ℕ) (b : Bytes) → i < size → return_unknown size i (some b) ≡ return unk (some b)
  unfolding return_unknown
  return_unknown_fits i b h = ground arith

  single_end_step :
      (b₀ text : Bytes) (p : Parser)
      → IsEol eol
      → IsText verbose size text
      → (l : FirstLine verbose eol size 1 b₀ text p)
      → parse_byte verbose eol size 1 p eol ≡ return unk (some l.mem)
  single_end_step b₀ text p ee ht l = ground (
    arith,
    parse_byte_unknown verbose eol size 1 p ee
        (rw l.code (take-ne-nil verbose eol size 1 text ht.some_char))
        (line_code_first verbose eol size 1 p l.first ∙ rw l.code ht.no_code),
    return_unknown_fits p.buf_i l.mem (omega (arith, l.index, ht.fits)),
  )

  feed-line_response :
      (b₀ pre text gap : Bytes)
      → IsEol eol
      → size ≤ length b₀
      → size < 2 ^ 16
      → IsText verbose size text
      → Blanks pre
      → Gap eol gap
      → (b : Bytes) × (feed verbose eol size 1 (initial (some b₀)) (line_response eol pre text gap)
          ≡ returned unk (some b) [])
        × (c_str b ≡ text)
        × (length b ≡ length b₀)
  feed-line_response b₀ pre text gap ee hs hw ht hp hg =
      let p : Parser = initial (some b₀) in
      let start : FirstLine verbose eol size 1 b₀ [] p = record {
        mem = b₀;
        buf_eq = refl;
        mem_length = refl;
        first = refl;
        index = refl;
        kept = refl;
        code = refl;
        ended = λ h. absurd (omega arith);
      } in
      let (q, e, l) =
        feed-FirstLine verbose eol size 1 b₀ [] text p ee ht.chars hs hw (omega (arith, ht.fits))
          start in
      let f = feed-append verbose eol size 1 in
      (
        l.mem,
        f p p pre _ (feed_blanks verbose eol size 1 p pre (Blanks-first p eol pre refl hp))
            ∙ f p q text _ e
            ∙ f q q gap _ (feed_blanks verbose eol size 1 q gap (Blanks-Gap q eol gap hg))
            ∙ feed_return verbose eol size 1 q eol [] unk (some l.mem)
                (single_end_step b₀ text q ee ht l),
        c_str_ended l.mem (length text) (omega (arith, l.mem_length, ht.fits))
              (rw l.kept (All-nonzero text ht.chars)) (l.ended ht.some_char)
            ∙ l.kept,
        l.mem_length,
      )

module _ {Z : Type 0} ⦃line : Serial Z⦄ where
  -- Where the line delivers in time one line of text, which is no result code and fits into the array,
  -- `at_uart_parse_resp` for one line returns "unknown" and leaves exactly the text in the array.
  pub parse_resp_line :
      (at_uart : AtUart Z) (b₀ pre text gap : Bytes) (size t : ℕ) (z' : Z)
      → IsEol at_uart.eol
      → size ≤ length b₀
      → size < 2 ^ 16
      → IsText at_uart.config.verbose size text
      → Blanks pre
      → Gap at_uart.eol gap
      → Delivers t (line_response at_uart.eol pre text gap) at_uart.zuart z'
      → (b : Bytes) × (parse_resp (some b₀) size 1 t at_uart
          ≡ ((unk, some b), record at_uart { zuart = z' }))
        × (c_str b ≡ text)
        × (length b ≡ length b₀)
  unfolding parse_resp
  parse_resp_line at_uart b₀ pre text gap size t z' ee hs hw ht hp hg d =
      let verbose = at_uart.config.verbose in
      let bs = line_response at_uart.eol pre text gap in
      let (b, e, cs, lb) =
        feed-line_response verbose at_uart.eol size b₀ pre text gap ee hs hw ht hp hg in
      let loop =
        parse_loop-feed verbose at_uart.eol size 1 (suc (line.pending at_uart.zuart)) t bs
          (initial (some b₀)) at_uart.zuart z' unk (some b)
          (omega (arith, length-le-pending t bs at_uart.zuart z' d)) d e in
      (
        b,
        ap (λ (r : (AtErr × Option Bytes) × Z). (r.0, record at_uart { zuart = r.1 })) loop,
        cs,
        lb,
      )

peek-c_str : (b : Bytes) → peek b ≡ peek (c_str b)
peek-c_str [] = refl
peek-c_str (x ∷ b) = ground arith

digit_head : (n : ℕ) → is_digit (peek (decimal n)) ≡ true
digit_head n = head (decimal n) (decimal_digits n) (decimal-ne-nil n)
  where
    head : (s : Bytes) → All (λ c. is_digit c ≡ true) s → s ≢ [] → is_digit (peek s) ≡ true
    head [] a h = absurd (h refl)
    head (c ∷ s) a h = a.0

resp_code_number :
    (n : ℕ) (b : Bytes) → c_str b ≡ decimal n → resp_code unk b ≡ (ok, some (n % 2 ^ 8), b)
unfolding resp_code
resp_code_number n b h =
    let d : is_digit (peek b) ≡ true = rw (peek-c_str b, h) (digit_head n) in
    ground (arith, d, atoi-decimal n b h)

resp_code_word : (b : Bytes) → is_digit (peek (c_str b)) ≡ false → resp_code unk b ≡ (unk, none, b)
unfolding resp_code
resp_code_word b h = let d : is_digit (peek b) ≡ false = rw (peek-c_str b) h in ground (arith, d)

module _ {Z : Type 0} ⦃line : Serial Z⦄ where
  -- Where the line of text that comes spells a number, `at_uart_get_resp_code` returns OK and the low
  -- eight bits of the number.
  pub get_resp_code_number :
      (at_uart : AtUart Z) (b₀ pre gap : Bytes) (n size t : ℕ) (z' : Z)
      → IsEol at_uart.eol
      → size ≤ length b₀
      → size < 2 ^ 16
      → IsText at_uart.config.verbose size (decimal n)
      → Blanks pre
      → Gap at_uart.eol gap
      → Delivers t (line_response at_uart.eol pre (decimal n) gap) at_uart.zuart z'
      → (b : Bytes) × (get_resp_code b₀ size t at_uart
          ≡ ((ok, some (n % 2 ^ 8), b), record at_uart { zuart = z' }))
        × (length b ≡ length b₀)
  unfolding get_resp_code
  get_resp_code_number at_uart b₀ pre gap n size t z' ee hs hw ht hp hg d =
      let (b, e, c, l) =
        parse_resp_line at_uart b₀ pre (decimal n) gap size t z' ee hs hw ht hp hg d in
      (
        b,
        rw e (
            ap (λ (r : AtErr × Option ℕ × Bytes). (r, record at_uart { zuart = z' }))
              (resp_code_number n b c)),
        l,
      )

  -- Where the line of text does not begin with a digit, `at_uart_get_resp_code` returns "unknown",
  -- assigns no code and leaves the text in the array.
  pub get_resp_code_word :
      (at_uart : AtUart Z) (b₀ pre text gap : Bytes) (size t : ℕ) (z' : Z)
      → IsEol at_uart.eol
      → size ≤ length b₀
      → size < 2 ^ 16
      → IsText at_uart.config.verbose size text
      → is_digit (peek text) ≡ false
      → Blanks pre
      → Gap at_uart.eol gap
      → Delivers t (line_response at_uart.eol pre text gap) at_uart.zuart z'
      → (b : Bytes) × (get_resp_code b₀ size t at_uart
          ≡ ((unk, none, b), record at_uart { zuart = z' }))
        × (c_str b ≡ text)
        × (length b ≡ length b₀)
  unfolding get_resp_code
  get_resp_code_word at_uart b₀ pre text gap size t z' ee hs hw ht hd hp hg d =
      let (b, e, c, l) = parse_resp_line at_uart b₀ pre text gap size t z' ee hs hw ht hp hg d in
      (
        b,
        rw e (
            ap (λ (r : AtErr × Option ℕ × Bytes). (r, record at_uart { zuart = z' }))
              (resp_code_word b (rw c hd))),
        c,
        l,
      )
