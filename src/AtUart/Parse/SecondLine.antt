-- ===== src/AtUart/Parse/SecondLine.antt =====
-- How the loop of `at_uart_parse_resp` goes on behind the text of a response.
use isbd_zephyr_module.Prelude.{
  ℕ, ◌+◌, ◌<◌, ◌≤◌, ◌≡◌, ◌≢◌, ◌^◌, Bytes, Bool, false, [], ◌∷◌, ◌++◌, length, take, set, All,
  length-set, take-set, append_assoc, append-nil, length-append, c_str, c_str-set, arith, refl, ap,
  sym, ◌∙◌, Option, none, some, ◌⊎◌, inl, inr, ltb, if◌then◌else◌, ◌%◌, ◌&&◌,
}
use isbd_zephyr_module.AtUart.Types.{AtErr, ok, err, unk}
use isbd_zephyr_module.AtUart.Code.{get_str_code}
use isbd_zephyr_module.AtUart.Code.Laws.{code_text, get_str_code-code_text}
use isbd_zephyr_module.AtUart.Parse.{
  Parser, next, return, parse_byte, put_char, put_code_char, line_code, return_code,
}
use isbd_zephyr_module.AtUart.Parse.Feed.{waiting, feed, feed_next, feed_nil}
use isbd_zephyr_module.AtUart.Parse.Line.{
  IsEol, IsChar, FirstLine, parse_byte_char, parse_byte_code, parse_byte_unknown,
}

module _ (verbose : Bool) (eol size lines : ℕ) where
  -- What the loop holds on the second line, of which it has read `line`, behind the `text` of the first.
  pub record SecondLine (b₀ text line : Bytes) (p : Parser) : Type 0 where
    mem : Bytes
    buf_eq : p.buf ≡ some mem
    mem_length : length mem ≡ length b₀
    second : p.line_n ≡ 2
    index : p.buf_i ≡ length text + 1 + length line
    cut : p.buf_li ≡ length text
    kept : take (length text) mem ≡ text
    pub code : p.at_buf ≡ line

  -- A character behind the text leaves the text alone, whether it fits or not.
  put_char_later :
      (c n : ℕ) (mem : Bytes) (p : Parser)
      → c ≢ 0
      → p.buf_i + 1 < 2 ^ 16
      → n ≤ p.buf_i
      → (mem' : Bytes) × (put_char size c (some mem) p
          ≡ record p { buf_i = p.buf_i + 1; buf = some mem' })
        × (length mem' ≡ length mem)
        × (take n mem' ≡ take n mem)
  unfolding put_char
  put_char_later c n mem p hc hw hn = (
    if ltb (p.buf_i + 1) size then set (set mem p.buf_i c) (p.buf_i + 1) 0 else mem,
    ground arith,
    ground (arith, length-set mem p.buf_i c, length-set (set mem p.buf_i c) (p.buf_i + 1) 0),
    ground (arith, take-set mem p.buf_i n c, take-set (set mem p.buf_i c) (p.buf_i + 1) n 0),
  )

  pub line_code_first :
      (p : Parser)
      → p.line_n ≡ 1
      → line_code verbose eol size lines p ≡ get_str_code verbose p.at_buf
  unfolding line_code
  line_code_first p h = ground arith

  pub put_code_char_line :
      (c : ℕ) (line : Bytes) (p : Parser)
      → length line < 31
      → p.at_buf ≡ line
      → put_code_char 0 c p ≡ record p { at_buf = line ++ c ∷ [] }
  unfolding put_code_char
  put_code_char_line c line p h e = ground arith

  at_buf-put_char :
      (c : ℕ) (buf : Option Bytes) (p : Parser) → (put_char size c buf p).at_buf ≡ p.at_buf
  unfolding put_char
  at_buf-put_char c none p = refl
  at_buf-put_char c (some b) p = ground arith

  pub return_code_fits :
      (code : AtErr) (li : ℕ) (b : Bytes)
      → li < size
      → return_code size code li (some b) ≡ return code (some (set b li 0))
  unfolding return_code
  return_code_fits code li b h = ground arith

  line_code_second :
      (p : Parser)
      → p.line_n ≡ 2
      → (lines ≡ 0) ⊎ (lines ≡ 2)
      → line_code verbose eol size lines p ≡ get_str_code verbose p.at_buf
  unfolding line_code
  line_code_second p h (inl e) = ground arith
  line_code_second p h (inr e) = ground arith

  pub take-ne-nil : (text : Bytes) → 0 < length text → take 31 text ≢ []
  take-ne-nil [] h = absurd (omega arith)
  take-ne-nil (c ∷ text) h = λ e. cc

  first_test :
      (n : ℕ)
      → n ≡ 1
      → (lines ≡ 0) ⊎ (lines ≡ 2)
      → (ltb 0 lines && ltb lines ((n + 1) % 2 ^ 8)) ≡ false
  first_test n h (inl e) = ground arith
  first_test n h (inr e) = ground arith

  first_end_step :
      (b₀ text : Bytes) (p q : Parser)
      → IsEol eol
      → 0 < length text
      → (lines ≡ 0) ⊎ (lines ≡ 2)
      → get_str_code verbose (take 31 text) ≡ unk
      → (l : FirstLine verbose eol size lines b₀ text p)
      → put_char size b'\n' (some l.mem) (record p { line_n = 2; buf_li = p.buf_i; at_buf = [] })
        ≡ q
      → parse_byte verbose eol size lines p eol ≡ next q
  first_end_step b₀ text p q ee h0 hn hc l e = ground (
    arith,
    parse_byte_unknown verbose eol size lines p ee (rw l.code (take-ne-nil text h0))
        (line_code_first p l.first ∙ ap (get_str_code verbose) l.code ∙ hc),
    first_test p.line_n l.first hn,
  )

  -- The end of the first line, where more lines are to come.
  pub FirstLine-end :
      (b₀ text : Bytes) (p : Parser)
      → IsEol eol
      → length text + 1 < 2 ^ 16
      → 0 < length text
      → (lines ≡ 0) ⊎ (lines ≡ 2)
      → get_str_code verbose (take 31 text) ≡ unk
      → FirstLine verbose eol size lines b₀ text p
      → (q : Parser) × (parse_byte verbose eol size lines p eol ≡ next q) × SecondLine b₀ text [] q
  FirstLine-end b₀ text p ee hw h0 hn hc l =
      let (mem, e, lm, km) =
        put_char_later b'\n' (length text) l.mem
          (record p { line_n = 2; buf_li = p.buf_i; at_buf = [] }) (omega arith)
          (omega (arith, l.index)) (omega (arith, l.index)) in
      (
        record p { line_n = 2; buf_i = p.buf_i + 1; buf_li = p.buf_i; at_buf = []; buf = some mem },
        first_end_step b₀ text p _ ee h0 hn hc l e,
        record {
          mem = mem;
          buf_eq = refl;
          mem_length = lm ∙ l.mem_length;
          second = refl;
          index = omega (arith, l.index);
          cut = l.index;
          kept = km ∙ l.kept;
          code = refl;
        },
      )

  second_char_step :
      (b₀ text line : Bytes) (c : ℕ) (p q : Parser)
      → IsEol eol
      → IsChar c
      → length line < 31
      → (l : SecondLine b₀ text line p) → put_char size c (some l.mem) p ≡ q
      → parse_byte verbose eol size lines p c ≡ next (record q { at_buf = line ++ c ∷ [] })
  second_char_step b₀ text line c p q ee ec h l e =
      let kept : q.at_buf ≡ line =
        ap (λ (r : Parser). r.at_buf) (sym e) ∙ at_buf-put_char c (some l.mem) p ∙ l.code in
      cc (parse_byte_char verbose eol size lines p c ee ec, put_code_char_line c line q h kept)

  second_end_step :
      (b₀ text : Bytes) (code : AtErr) (p : Parser)
      → IsEol eol
      → length text < size
      → (lines ≡ 0) ⊎ (lines ≡ 2)
      → (code ≡ ok) ⊎ (code ≡ err)
      → (l : SecondLine b₀ text (code_text verbose code) p)
      → parse_byte verbose eol size lines p eol ≡ return code (some (set l.mem (length text) 0))
  second_end_step b₀ text code p ee ht hn hc l =
      let (looked, u, ne) = get_str_code-code_text verbose code hc in
      parse_byte_code verbose eol size lines p code ee (rw l.code ne)
        (line_code_second p l.second hn ∙ ap (get_str_code verbose) l.code ∙ looked) u
      ∙ rw (l.cut, l.buf_eq) (return_code_fits code (length text) l.mem ht)

  char_SecondLine :
      (b₀ text line : Bytes) (c : ℕ) (p : Parser)
      → IsEol eol
      → IsChar c
      → length line < 31
      → length text + length line + 2 < 2 ^ 16
      → SecondLine b₀ text line p
      → (q : Parser) × (parse_byte verbose eol size lines p c ≡ next q)
        × SecondLine b₀ text (line ++ c ∷ []) q
  char_SecondLine b₀ text line c p ee ec h31 hw l =
      let (mem, e, lm, km) =
        put_char_later c (length text) l.mem p ec.0 (omega (arith, l.index))
          (omega (arith, l.index)) in
      (
        record p { buf_i = p.buf_i + 1; buf = some mem; at_buf = line ++ c ∷ [] },
        second_char_step b₀ text line c p _ ee ec h31 l e,
        record {
          mem = mem;
          buf_eq = refl;
          mem_length = lm ∙ l.mem_length;
          second = l.second;
          index = omega (arith, l.index, length-append line (c ∷ []));
          cut = l.cut;
          kept = km ∙ l.kept;
          code = refl;
        },
      )

  pub feed-SecondLine :
      (b₀ text line s : Bytes) (p : Parser)
      → IsEol eol
      → All IsChar s
      → length line + length s ≤ 31
      → length text + length line + length s + 2 < 2 ^ 16
      → SecondLine b₀ text line p
      → (q : Parser) × (feed verbose eol size lines p s ≡ waiting q)
        × SecondLine b₀ text (line ++ s) q
  feed-SecondLine b₀ text line [] p ee a h31 hw l =
      (p, feed_nil verbose eol size lines p, rw append-nil l)
  feed-SecondLine b₀ text line (c ∷ s) p ee (ec, a) h31 hw l =
      let (q, e, l') = char_SecondLine b₀ text line c p ee ec (omega arith) (omega arith) l in
      let (r, f, l'') =
        feed-SecondLine b₀ text (line ++ c ∷ []) s q ee a
          (omega (arith, length-append line (c ∷ []))) (omega (arith, length-append line (c ∷ [])))
          l' in
      (r, feed_next verbose eol size lines p q c s e ∙ f, rw (append_assoc line (c ∷ []) s) at l'')

  -- The end of a second line that is a result code: the array is cut behind the text.
  pub SecondLine-end :
      (b₀ text : Bytes) (code : AtErr) (p : Parser)
      → IsEol eol
      → length text < size
      → size ≤ length b₀
      → All (λ c. c ≢ 0) text
      → (lines ≡ 0) ⊎ (lines ≡ 2)
      → (code ≡ ok) ⊎ (code ≡ err)
      → SecondLine b₀ text (code_text verbose code) p
      → (b : Bytes) × (parse_byte verbose eol size lines p eol ≡ return code (some b))
        × (c_str b ≡ text)
        × (length b ≡ length b₀)
  SecondLine-end b₀ text code p ee ht hs ha hn hc l = (
    set l.mem (length text) 0,
    second_end_step b₀ text code p ee ht hn hc l,
    c_str-set l.mem (length text) (omega (arith, l.mem_length)) (rw l.kept ha) ∙ l.kept,
    length-set l.mem (length text) 0 ∙ l.mem_length,
  )
