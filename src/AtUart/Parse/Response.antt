-- ===== src/AtUart/Parse/Response.antt =====
-- A response that carries a text before its result code.
use isbd_zephyr_module.Prelude.{
  ℕ, suc, ◌+◌, ◌<◌, ◌≤◌, ◌≡◌, ◌≢◌, ◌^◌, Bytes, Bool, true, false, [], ◌∷◌, ◌++◌, length, take, All,
  c_str, arith, refl, ap, ◌∙◌, Option, some, ◌⊎◌, inl, inr,
}
use isbd_zephyr_module.Serial.{Serial}
use isbd_zephyr_module.Serial.Delivery.{Delivers, length-le-pending}
use isbd_zephyr_module.AtUart.Types.{AtErr, ok, err, timeout, overflow, unk, AtUart}
use isbd_zephyr_module.AtUart.Code.{get_str_code}
use isbd_zephyr_module.AtUart.Code.Laws.{code_text}
use isbd_zephyr_module.AtUart.Parse.{Parser, is_eol, parse_resp, initial}
use isbd_zephyr_module.AtUart.Parse.Feed.{
  returned, feed, feed-append, feed_next, feed_return, parse_loop-feed,
}
use isbd_zephyr_module.AtUart.Parse.Line.{IsEol, IsChar, FirstLine, feed_blanks, feed-FirstLine}
use isbd_zephyr_module.AtUart.Parse.SecondLine.{FirstLine-end, feed-SecondLine, SecondLine-end}

-- CR and LF characters in a row.
abbrev pub Blanks : Bytes → Type 0
Blanks = All (λ b. is_eol b ≡ true)

-- Such that none of them ends a line.
abbrev pub Gap : ℕ → Bytes → Type 0
Gap eol = All (λ b. (is_eol b ≡ true) × (b ≢ eol))

-- The response to a query: blanks, the text, its line end, blanks, the result code, its line end.
-- Verbose modems send CR LF at each place, so `gap` is the CR before the LF that ends a line.
abbrev pub response : Bool → ℕ → Bytes → Bytes → Bytes → Bytes → AtErr → Bytes
response verbose eol pre text gap mid code =
    pre ++ (text ++ (gap ++ (eol ∷ (mid ++ (code_text verbose code ++ (gap ++ (eol ∷ [])))))))

-- A text that can be told from the result codes and leaves the array room for its terminator.
pub record IsText (verbose : Bool) (size : ℕ) (text : Bytes) : Type 0 where
  pub chars : All IsChar text
  pub some_char : 0 < length text
  pub fits : length text < size
  pub no_code : get_str_code verbose (take 31 text) ≡ unk

pub code_text_chars :
    (verbose : Bool) (code : AtErr)
    → All IsChar (code_text verbose code) × (length (code_text verbose code) ≤ 5)
code_text_chars true ok = ground arith
code_text_chars true err = ground arith
code_text_chars false ok = ground arith
code_text_chars false err = ground arith
code_text_chars true timeout = (tt, omega arith)
code_text_chars true overflow = (tt, omega arith)
code_text_chars true unk = (tt, omega arith)
code_text_chars false timeout = (tt, omega arith)
code_text_chars false overflow = (tt, omega arith)
code_text_chars false unk = (tt, omega arith)

pub Blanks-first :
    (p : Parser) (eol : ℕ) (bs : Bytes)
    → p.at_buf ≡ []
    → Blanks bs
    → All (λ b. (is_eol b ≡ true) × ((p.at_buf ≡ []) ⊎ (b ≢ eol))) bs
Blanks-first p eol [] h a = tt
Blanks-first p eol (b ∷ bs) h (e, a) = ((e, inl h), Blanks-first p eol bs h a)

pub Blanks-Gap :
    (p : Parser) (eol : ℕ) (bs : Bytes)
    → Gap eol bs
    → All (λ b. (is_eol b ≡ true) × ((p.at_buf ≡ []) ⊎ (b ≢ eol))) bs
Blanks-Gap p eol [] a = tt
Blanks-Gap p eol (b ∷ bs) (e, a) = ((e.0, inr e.1), Blanks-Gap p eol bs a)

pub All-nonzero : (text : Bytes) → All IsChar text → All (λ c. c ≢ 0) text
All-nonzero [] a = tt
All-nonzero (c ∷ text) (e, a) = (e.0, All-nonzero text a)

module _ (verbose : Bool) (eol size lines : ℕ) where
  feed-response :
      (b₀ pre text gap mid : Bytes) (code : AtErr)
      → IsEol eol
      → size ≤ length b₀
      → size + 8 < 2 ^ 16
      → IsText verbose size text
      → Blanks pre
      → Gap eol gap
      → Blanks mid
      → (lines ≡ 0) ⊎ (lines ≡ 2)
      → (code ≡ ok) ⊎ (code ≡ err)
      → (b : Bytes) × (feed verbose eol size lines
            (initial (some b₀))
            (response verbose eol pre text gap mid code)
          ≡ returned code (some b) [])
        × (c_str b ≡ text)
        × (length b ≡ length b₀)
  feed-response b₀ pre text gap mid code ee hs hw ht hp hg hm hn hc =
      let start : FirstLine verbose eol size lines b₀ [] (initial (some b₀)) = record {
        mem = b₀;
        buf_eq = refl;
        mem_length = refl;
        first = refl;
        index = refl;
        kept = refl;
        code = refl;
        ended = λ h. absurd (omega arith);
      } in
      let (q, e1, l1) =
        feed-FirstLine verbose eol size lines b₀ [] text (initial (some b₀)) ee ht.chars hs
          (omega arith) (omega (arith, ht.fits)) start in
      let (r, e2, l2) =
        FirstLine-end verbose eol size lines b₀ text q ee (omega (arith, ht.fits)) ht.some_char hn
          ht.no_code l1 in
      let (s, e3, l3) =
        feed-SecondLine verbose eol size lines b₀ text [] (code_text verbose code) r ee
          (code_text_chars verbose code).0 (omega (arith, code_text_chars verbose code))
          (omega (arith, code_text_chars verbose code, ht.fits)) l2 in
      let (b, e4, cs, lb) =
        SecondLine-end verbose eol size lines b₀ text code s ee ht.fits hs
          (All-nonzero text ht.chars) hn hc l3 in
      let f = feed-append verbose eol size lines in
      (
        b,
        f (initial (some b₀)) (initial (some b₀)) pre _ (
              feed_blanks verbose eol size lines (initial (some b₀)) pre
                (Blanks-first (initial (some b₀)) eol pre refl hp))
            ∙ f (initial (some b₀)) q text _ e1
            ∙ f q q gap _ (feed_blanks verbose eol size lines q gap (Blanks-Gap q eol gap hg))
            ∙ feed_next verbose eol size lines q r eol _ e2
            ∙ f r r mid _
                (feed_blanks verbose eol size lines r mid (Blanks-first r eol mid l2.code hm))
            ∙ f r s (code_text verbose code) _ e3
            ∙ f s s gap _ (feed_blanks verbose eol size lines s gap (Blanks-Gap s eol gap hg))
            ∙ feed_return verbose eol size lines s eol [] code (some b) e4,
        cs,
        lb,
      )

module _ {Z : Type 0} ⦃line : Serial Z⦄ where
  -- Where the line delivers in time a text and a result code, OK or ERROR, laid out as in `response`,
  -- and the text is no result code and fits with its terminator into the array, whose size is below
  -- 2 ^ 16 - 8, so that no 16-bit index wraps around, `at_uart_parse_resp` for two lines, or for a number
  -- of lines that is not known, returns that code and leaves exactly the text in the array.
  pub parse_resp_text :
      (at_uart : AtUart Z) (b₀ pre text gap mid : Bytes) (size lines t : ℕ) (code : AtErr) (z' : Z)
      → IsEol at_uart.eol
      → size ≤ length b₀
      → size + 8 < 2 ^ 16
      → IsText at_uart.config.verbose size text
      → Blanks pre
      → Gap at_uart.eol gap
      → Blanks mid
      → (lines ≡ 0) ⊎ (lines ≡ 2)
      → (code ≡ ok) ⊎ (code ≡ err)
      → Delivers t
          (response at_uart.config.verbose at_uart.eol pre text gap mid code)
          at_uart.zuart
          z'
      → (b : Bytes) × (parse_resp (some b₀) size lines t at_uart
          ≡ ((code, some b), record at_uart { zuart = z' }))
        × (c_str b ≡ text)
        × (length b ≡ length b₀)
  unfolding parse_resp
  parse_resp_text at_uart b₀ pre text gap mid size lines t code z' ee hs hw ht hp hg hm hn hc d =
      let verbose = at_uart.config.verbose in
      let bs = response verbose at_uart.eol pre text gap mid code in
      let (b, e, cs, lb) =
        feed-response verbose at_uart.eol size lines b₀ pre text gap mid code ee hs hw ht hp hg hm
          hn hc in
      let loop =
        parse_loop-feed verbose at_uart.eol size lines (suc (line.pending at_uart.zuart)) t bs
          (initial (some b₀)) at_uart.zuart z' code (some b)
          (omega (arith, length-le-pending t bs at_uart.zuart z' d)) d e in
      (
        b,
        ap (λ (r : (AtErr × Option Bytes) × Z). (r.0, record at_uart { zuart = r.1 })) loop,
        cs,
        lb,
      )
