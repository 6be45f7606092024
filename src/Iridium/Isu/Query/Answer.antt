-- ===== src/Iridium/Isu/Query/Answer.antt =====
-- What the commands of lib/iridium/isu.c make of an answer that comes in time.
use isbd_zephyr_module.Prelude.{ℕ, ◌+◌, ◌<◌, ◌≤◌, ◌≡◌, ◌^◌, Bytes, length, c_str, some, ◌⊎◌, List}
use isbd_zephyr_module.Serial.{Serial}
use isbd_zephyr_module.Libc.Print.{Piece, render}
use isbd_zephyr_module.AtUart.Types.{AtErr, ok, err, at_err_value}
use isbd_zephyr_module.AtUart.Command.{max_cmd_size}
use isbd_zephyr_module.AtUart.Command.Exchange.{Exchange, sent_cmd, send_tiny_cmd_lem}
use isbd_zephyr_module.AtUart.Parse.Line.{IsEol}
use isbd_zephyr_module.AtUart.Parse.Response.{Blanks, Gap, IsText, response, parse_resp_text}
use isbd_zephyr_module.AtUart.Parse.Skip.{code_response, skip_resp_code}
use isbd_zephyr_module.Iridium.Dte.{DteErr, Dte, ok_or, dte_send_tiny_cmd}
use isbd_zephyr_module.Iridium.Isu.Query.{short_response, query, command}

module _ {Z : Type 0} ⦃line : Serial Z⦄ where
  -- The structure behind an exchange that has left the line at `z'` and recorded an error code.
  abbrev pub answered : Dte Z → ℕ → Z → Dte Z
  answered dte e z' = record dte {
    err = e;
    at_uart = record (dte.at_uart) { echoed = dte.at_uart.config.echo; zuart = z' };
  }

  pub dte_send_lem :
      (dte : Dte Z) (tmpl : List Piece) (reply : Bytes) (t : ℕ) (z' : Z)
      → length (render tmpl) < max_cmd_size
      → (x : Exchange dte.at_uart (render tmpl) reply t z')
      → dte_send_tiny_cmd tmpl dte ≡ (DteErr.ok, answered dte 0 x.middle)
  unfolding dte_send_tiny_cmd
  dte_send_lem dte tmpl reply t z' h x = rw (send_tiny_cmd_lem dte.at_uart tmpl reply t z' h x)

  -- A query for two lines, or for a number of lines that is not known, whose command fits the command
  -- buffer and whose answer comes in time and is laid out as in `response`, a text and then the result
  -- code OK or ERROR: where the text is no result code and fits with its terminator into the caller's
  -- array, whose size is below 2 ^ 16 - 8, the query returns OK for the result code OK and ISU_DTE_ERR_AT
  -- for ERROR, with the code recorded and exactly the text in the array.
  pub query_text :
      (dte : Dte Z) (tmpl : List Piece) (b₀ pre text gap mid : Bytes) (size lines t : ℕ)
      (code : AtErr) (z' : Z)
      → length (render tmpl) < max_cmd_size
      → IsEol dte.at_uart.eol
      → size ≤ length b₀
      → size + 8 < 2 ^ 16
      → IsText dte.at_uart.config.verbose size text
      → Blanks pre
      → Gap dte.at_uart.eol gap
      → Blanks mid
      → (lines ≡ 0) ⊎ (lines ≡ 2)
      → (code ≡ ok) ⊎ (code ≡ err)
      → Exchange dte.at_uart
          (render tmpl)
          (response dte.at_uart.config.verbose dte.at_uart.eol pre text gap mid code)
          t
          z'
      → (b : Bytes) × (query tmpl (some b₀) size lines t dte
          ≡ ((ok_or DteErr.err_at code, some b), answered dte (at_err_value code) z'))
        × (c_str b ≡ text)
        × (length b ≡ length b₀)
  unfolding query
  query_text dte tmpl b₀ pre text gap mid size lines t code z' hl ee hs hw ht hp hg hm hn hc x =
      let (b, e, c, l) =
        parse_resp_text (sent_cmd dte.at_uart x.middle) b₀ pre text gap mid size lines t code z' ee
          hs hw ht hp hg hm hn hc x.replies in
      (b, rw (dte_send_lem dte tmpl _ t z' hl x) (rw e), c, l)

  -- A command whose answer is a result code returns OK exactly for the code OK, and records the code.
  pub command_code :
      (dte : Dte Z) (tmpl : List Piece) (pre gap : Bytes) (lines : ℕ) (code : AtErr) (z' : Z)
      → length (render tmpl) < max_cmd_size
      → IsEol dte.at_uart.eol
      → Blanks pre
      → Gap dte.at_uart.eol gap
      → (code ≡ ok) ⊎ (code ≡ err)
      → Exchange dte.at_uart
          (render tmpl)
          (code_response dte.at_uart.config.verbose dte.at_uart.eol pre gap code)
          short_response
          z'
      → command tmpl lines dte ≡ (ok_or DteErr.err_at code, answered dte (at_err_value code) z')
  unfolding command
  command_code dte tmpl pre gap lines code z' hl ee hp hg hc x =
      rw (dte_send_lem dte tmpl _ short_response z' hl x) (
        rw (
          skip_resp_code (sent_cmd dte.at_uart x.middle) pre gap lines short_response code z' ee hp
            hg hc x.replies))
