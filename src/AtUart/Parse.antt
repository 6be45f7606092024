-- ===== src/AtUart/Parse.antt =====
-- `at_uart_parse_resp` and its callers `at_uart_skip_resp` and `at_uart_get_resp_code` of
-- lib/at_uart/at_uart.c.
pub mod Fuel
pub mod Feed
pub mod Bounds
pub mod Progress
pub mod Line
pub mod SecondLine
pub mod Response
pub mod Skip
pub mod Single
pub mod Zero
use isbd_zephyr_module.Prelude.{
  ℕ, zero, suc, ◌+◌, ◌-◌, ◌%◌, ◌^◌, Bytes, Bool, true, false, not, ◌&&◌, ◌||◌, Option, none, some,
  [], ◌∷◌, ◌++◌, ◌==◌, ltb, leb, if◌then◌else◌, length, set, peek, Io, ◌≡◌, refl, ◌⊎◌, inl, inr,
}
use isbd_zephyr_module.Serial.{Serial}
use isbd_zephyr_module.Libc.Scan.{is_digit, atoi}
use isbd_zephyr_module.AtUart.Types.{AtErr, ok, timeout, overflow, err, unk, is_ok, is_unk, AtUart}
use isbd_zephyr_module.AtUart.Code.{get_str_code}

-- The local variables of the loop. `at_buf` holds the `at_buf_i` characters before its terminator;
-- `buf` is the caller's array, `none` for the null pointer.
pub record Parser : Type 0 where
  pub line_n : ℕ
  pub buf_i : ℕ
  pub buf_li : ℕ
  pub at_buf : Bytes
  pub buf : Option Bytes

abbrev pub initial : Option Bytes → Parser
initial buf = record { line_n = 1; buf_i = 0; buf_li = 0; at_buf = []; buf = buf }

-- What one byte leads to: the next round, or the return of a code.
pub data Step : Type 0 where
  next : Parser → Step
  return : AtErr → Option Bytes → Step

pub Step-cases :
    (s : Step)
    → ((q : Parser) × (s ≡ next q)) ⊎ ((c : AtErr) × (b : Option Bytes) × (s ≡ return c b))
Step-cases (next q) = inl (q, refl)
Step-cases (return c b) = inr (c, b, refl)

abbrev pub is_eol : ℕ → Bool
is_eol byte = byte == b'\r' || byte == b'\n'

-- `sizeof( at_buf )`, AT_MIN_BUFF_SIZE
abbrev pub at_buf_size : ℕ
at_buf_size = 32

-- Lines 164 to 172: the response is cut where its last line began.
unfoldable pub return_code : ℕ → AtErr → ℕ → Option Bytes → Step
return_code size code li none = return code none
return_code size code li (some b) =
    if leb size li then return overflow (some b) else return code (some (set b li 0))

-- Lines 179 to 187: all the lines that were asked for have come.
unfoldable pub return_unknown : ℕ → ℕ → Option Bytes → Step
return_unknown size i none = return unk none
return_unknown size i (some b) = return (if ltb size i then overflow else unk) (some b)

-- Lines 198 to 204: `buf_i` counts the characters that do not fit too.
unfoldable pub put_char : ℕ → ℕ → Option Bytes → Parser → Parser
put_char size c none p = p
put_char size c (some b) p = if c == 0 then p else record p {
  buf_i = (p.buf_i + 1) % 2 ^ 16;
  buf = some (if ltb (p.buf_i + 1) size then set (set b p.buf_i c) (p.buf_i + 1) 0 else b);
}

-- Lines 207 to 211.
unfoldable pub put_code_char : ℕ → ℕ → Parser → Parser
put_code_char trail byte p =
    if trail == 0 && ltb (length p.at_buf) (at_buf_size - 1)
    then record p { at_buf = p.at_buf ++ byte ∷ [] }
    else p

module _ (verbose : Bool) (eol size lines : ℕ) where
  -- Lines 156 to 160: is the line that has ended looked up among the result codes?
  unfoldable pub line_code : Parser → AtErr
  line_code p =
      if lines == 0 || p.line_n == lines || p.line_n == 1
      then get_str_code verbose p.at_buf
      else unk

  -- Lines 176 to 195, behind a line that is no result code.
  unfoldable pub next_line : ℕ → ℕ → Parser → Step
  next_line trail byte p =
      let n = (p.line_n + 1) % 2 ^ 8 in
      if ltb 0 lines && ltb lines n
      then return_unknown size p.buf_i p.buf
      else next (
          put_code_char trail byte
            (put_char size b'\n' p.buf (record p { line_n = n; buf_li = p.buf_i; at_buf = [] })))

  -- Lines 143 to 211, the body of the loop.
  unfoldable pub parse_byte : Parser → ℕ → Step
  parse_byte p byte =
      let add = if is_eol byte then 0 else byte in
      let trail = if is_eol byte then byte else 0 in
      if ltb 0 (length p.at_buf) && trail == eol
      then (let code = line_code p in
          if not (is_unk code)
          then return_code size code p.buf_li p.buf
          else next_line trail byte p)
      else next (put_code_char trail byte (put_char size add p.buf p))

  -- The loop over a port. Each round but the last takes a byte off the line, so a fuel above what is
  -- pending is enough.
  unfoldable pub parse_loop :
      {Z : Type 0} ⦃line : Serial Z⦄ → ℕ → ℕ → Parser → Z → (AtErr × Option Bytes) × Z
  parse_loop zero t p z = ((timeout, p.buf), z)
  parse_loop ⦃line⦄ (suc fuel) t p z =
      let (got, z') = line.read 1 t z in
      elim got [
        | [] ↦ ((timeout, p.buf), z')
        | b ∷ _ ↦ elim (parse_byte p b) [
          | next q ↦ parse_loop fuel t q z'
          | return code buf ↦ ((code, buf), z')
        ]
      ]

-- The array behind a pointer that is not null.
abbrev pub array : Option Bytes → Bytes
array none = []
array (some b) = b

-- Lines 227 to 238. The code goes through an `int8_t *` to variables that are read as `uint8_t`;
-- `none` where nothing is assigned.
unfoldable pub resp_code : AtErr → Bytes → AtErr × Option ℕ × Bytes
resp_code code buf =
    if is_unk code && is_digit (peek buf)
    then (ok, some (atoi buf % 2 ^ 8), buf)
    else if is_ok code
    then (code, some 0, buf)
    else (code, none, buf)

module _ {Z : Type 0} ⦃line : Serial Z⦄ where
  -- The result is the code and the caller's array.
  unfoldable pub parse_resp : Option Bytes → ℕ → ℕ → ℕ → Io (AtUart Z) (AtErr × Option Bytes)
  parse_resp buf size lines t at_uart =
      let (r, z) =
        parse_loop at_uart.config.verbose at_uart.eol size lines (suc (line.pending at_uart.zuart))
          t (initial buf) at_uart.zuart in
      (r, record at_uart { zuart = z })

  unfoldable pub skip_resp : ℕ → ℕ → Io (AtUart Z) AtErr
  skip_resp lines t at_uart =
      let ((code, _), at_uart') = parse_resp none 0 lines t at_uart in (code, at_uart')

  unfoldable pub get_resp_code : Bytes → ℕ → ℕ → Io (AtUart Z) (AtErr × Option ℕ × Bytes)
  get_resp_code buf size t at_uart =
      let ((code, out), at_uart') = parse_resp (some buf) size 1 t at_uart in
      (resp_code code (array out), at_uart')
