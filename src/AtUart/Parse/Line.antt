-- ===== src/AtUart/Parse/Line.antt =====
-- How the loop of `at_uart_parse_resp` takes the bytes of one line.
use isbd_zephyr_module.Prelude.{
  ℕ, suc, ◌+◌, ◌<◌, ◌≤◌, ◌≡◌, ◌≢◌, ◌^◌, Bytes, Bool, true, false, [], ◌∷◌, ◌++◌, length, take, set,
  All, length-set, get_or, get_or-set_self, take-set, take-set_next, take_snoc, take_snoc_full,
  append_assoc, append-nil, length-append, arith, refl, ap, ◌∙◌, Option, none, some, ◌⊎◌, inl, inr,
  ltb, Bool-cases, if◌then◌else◌, ◌%◌, ◌&&◌,
}
use isbd_zephyr_module.AtUart.Types.{AtErr, unk, is_unk}
use isbd_zephyr_module.AtUart.Parse.{
  Parser, next, parse_byte, put_char, put_code_char, is_eol, next_line, line_code, return_code,
  return_unknown,
}
use isbd_zephyr_module.AtUart.Parse.Feed.{waiting, feed, feed_next, feed_nil}

-- The two characters that can end a line.
abbrev pub IsEol : ℕ → Type 0
IsEol eol = (eol ≡ b'\n') ⊎ (eol ≡ b'\r')

-- A character of a line.
abbrev pub IsChar : ℕ → Type 0
IsChar c = (c ≢ 0) × (is_eol c ≡ false)

module _ (verbose : Bool) (eol size lines : ℕ) where
  put_char-zero : (buf : Option Bytes) (p : Parser) → put_char size 0 buf p ≡ p
  unfolding put_char
  put_char-zero none p = refl
  put_char-zero (some b) p = refl

  -- A CR or LF between lines, or one that does not end a line, changes nothing.
  pub parse_byte_blank :
      (p : Parser) (byte : ℕ)
      → is_eol byte ≡ true
      → (p.at_buf ≡ []) ⊎ (byte ≢ eol)
      → parse_byte verbose eol size lines p byte ≡ next p
  unfolding parse_byte put_code_char
  parse_byte_blank p byte e h = ground (arith, put_char-zero p.buf p)

  pub parse_byte_char :
      (p : Parser) (byte : ℕ)
      → IsEol eol
      → IsChar byte
      → parse_byte verbose eol size lines p byte
        ≡ next (put_code_char 0 byte (put_char size byte p.buf p))
  unfolding parse_byte
  parse_byte_char p byte (inl e) c = ground arith
  parse_byte_char p byte (inr e) c = ground arith

  -- The end of a line that is a result code.
  pub parse_byte_code :
      (p : Parser) (code : AtErr)
      → IsEol eol
      → p.at_buf ≢ []
      → line_code verbose eol size lines p ≡ code
      → is_unk code ≡ false
      → parse_byte verbose eol size lines p eol ≡ return_code size code p.buf_li p.buf
  unfolding parse_byte
  parse_byte_code p code (inl e) h c u = ground arith
  parse_byte_code p code (inr e) h c u = ground arith

  -- The end of a line that is none.
  pub parse_byte_unknown :
      (p : Parser)
      → IsEol eol
      → p.at_buf ≢ []
      → line_code verbose eol size lines p ≡ unk
      → parse_byte verbose eol size lines p eol ≡ (
          if ltb 0 lines && ltb lines ((p.line_n + 1) % 2 ^ 8)
          then return_unknown size p.buf_i p.buf
          else next (
              put_char size b'\n' p.buf
                (record p { line_n = (p.line_n + 1) % 2 ^ 8; buf_li = p.buf_i; at_buf = [] })))
  unfolding parse_byte next_line put_code_char
  parse_byte_unknown p (inl e) h c = ground arith
  parse_byte_unknown p (inr e) h c = ground arith

  -- What the loop holds while it reads `text` on the first line, into an array as long as `b₀`.
  pub record FirstLine (b₀ text : Bytes) (p : Parser) : Type 0 where
    pub mem : Bytes
    pub buf_eq : p.buf ≡ some mem
    pub mem_length : length mem ≡ length b₀
    pub first : p.line_n ≡ 1
    pub index : p.buf_i ≡ length text
    pub kept : take (length text) mem ≡ text
    pub code : p.at_buf ≡ take 31 text
    pub ended : 0 < length text → get_or mem (length text) 1 ≡ 0

  pub put_char_fits :
      (c : ℕ) (mem : Bytes) (p : Parser)
      → c ≢ 0
      → p.buf_i + 1 < size
      → size < 2 ^ 16
      → put_char size c (some mem) p
        ≡ record p { buf_i = p.buf_i + 1; buf = some (set (set mem p.buf_i c) (p.buf_i + 1) 0) }
  unfolding put_char
  put_char_fits c mem p hc hi hw = ground arith

  put_code_char_text :
      (c : ℕ) (text : Bytes) (p : Parser)
      → p.at_buf ≡ take 31 text
      → put_code_char 0 c p ≡ record p { at_buf = take 31 (text ++ c ∷ []) }
  unfolding put_code_char
  put_code_char_text c text p h = elim (Bool-cases (ltb (length (take 31 text)) 31)) [
    | inl e ↦ ground (arith, take_snoc 31 text c)
    | inr e ↦ ground (arith, take_snoc_full 31 text c)
  ]

  kept-store :
      (c i : ℕ) (mem text : Bytes)
      → take (length text) mem ≡ text
      → i ≡ length text
      → i + 1 < length mem
      → take (length (text ++ c ∷ [])) (set (set mem i c) (i + 1) 0) ≡ text ++ c ∷ []
  kept-store c i mem text k e h =
      rw (length-append text (c ∷ []), ← e)
        (let eq : i + 1 ≡ suc i = omega arith in
          rw eq (
            rw (take-set (set mem i c) (suc i) (suc i) 0 (omega arith))
              (rw (take-set_next mem i c (omega arith), e) (ap (λ t. t ++ c ∷ []) k))))

  ended-store :
      (c i : ℕ) (mem text : Bytes)
      → i ≡ length text
      → i + 1 < length mem
      → get_or (set (set mem i c) (i + 1) 0) (length (text ++ c ∷ [])) 1 ≡ 0
  ended-store c i mem text e h =
      let eq : length (text ++ c ∷ []) ≡ i + 1 = omega (arith, length-append text (c ∷ [])) in
      rw eq (get_or-set_self (set mem i c) (i + 1) 0 1 (omega (arith, length-set mem i c)))

  char_FirstLine :
      (b₀ text : Bytes) (c : ℕ) (p : Parser)
      → IsEol eol
      → IsChar c
      → size ≤ length b₀
      → size < 2 ^ 16
      → length text + 1 < size
      → FirstLine b₀ text p
      → (q : Parser) × (parse_byte verbose eol size lines p c ≡ next q)
        × FirstLine b₀ (text ++ c ∷ []) q
  char_FirstLine b₀ text c p ee ec hs hw hl l = (
    record p {
      buf_i = p.buf_i + 1;
      buf = some (set (set l.mem p.buf_i c) (p.buf_i + 1) 0);
      at_buf = take 31 (text ++ c ∷ []);
    },
    cc (
      parse_byte_char p c ee ec,
      put_char_fits c l.mem p ec.0 (omega (arith, l.index)) hw,
      put_code_char_text c text
          (record p { buf_i = p.buf_i + 1; buf = some (set (set l.mem p.buf_i c) (p.buf_i + 1) 0) })
          l.code,
    ),
    record {
      mem = set (set l.mem p.buf_i c) (p.buf_i + 1) 0;
      buf_eq = refl;
      mem_length = length-set _ _ _ ∙ length-set l.mem p.buf_i c ∙ l.mem_length;
      first = l.first;
      index = omega (arith, l.index, length-append text (c ∷ []));
      kept = kept-store c p.buf_i l.mem text l.kept l.index (omega (arith, l.index, l.mem_length));
      code = refl;
      ended = λ _. ended-store c p.buf_i l.mem text l.index (omega (arith, l.index, l.mem_length));
    },
  )

  -- Bytes that change nothing, in a row.
  pub feed_blanks :
      (p : Parser) (bs : Bytes)
      → All (λ b. (is_eol b ≡ true) × ((p.at_buf ≡ []) ⊎ (b ≢ eol))) bs
      → feed verbose eol size lines p bs ≡ waiting p
  feed_blanks p [] a = feed_nil verbose eol size lines p
  feed_blanks p (b ∷ bs) (a, as') =
      feed_next verbose eol size lines p p b bs (parse_byte_blank p b a.0 a.1)
      ∙ feed_blanks p bs as'

  -- The characters of the first line go to the array.
  pub feed-FirstLine :
      (b₀ text s : Bytes) (p : Parser)
      → IsEol eol
      → All IsChar s
      → size ≤ length b₀
      → size < 2 ^ 16
      → length text + length s < size
      → FirstLine b₀ text p
      → (q : Parser) × (feed verbose eol size lines p s ≡ waiting q) × FirstLine b₀ (text ++ s) q
  feed-FirstLine b₀ text [] p ee a hs hw hl l =
      (p, feed_nil verbose eol size lines p, rw append-nil l)
  feed-FirstLine b₀ text (c ∷ s) p ee (ec, a) hs hw hl l =
      let (q, e, l') = char_FirstLine b₀ text c p ee ec hs hw (omega arith) l in
      let (r, f, l'') =
        feed-FirstLine b₀ (text ++ c ∷ []) s q ee a hs hw
          (omega (arith, length-append text (c ∷ []))) l' in
      (r, feed_next verbose eol size lines p q c s e ∙ f, rw (append_assoc text (c ∷ []) s) at l'')
