-- ===== src/Iridium/Isu/Binary/Clear.antt =====
-- How `isu_clear_buffer` ends, by the code of the command and by the AT result code.
use isbd_zephyr_module.Prelude.{
  ℕ, ◌<◌, ◌≡◌, ◌^◌, ◌%◌, Bytes, ◌++◌, length, length-replicate, replicate, arith, refl, ◌∙◌, codes,
  ◌⊎◌, true, inl, inr, List,
}
use isbd_zephyr_module.Serial.{Serial}
use isbd_zephyr_module.Serial.Delivery.{Delivers, sent-Delivers}
use isbd_zephyr_module.Libc.Print.{Piece, render, decimal}
use isbd_zephyr_module.AtUart.Types.{AtErr, ok, err, at_err_value}
use isbd_zephyr_module.AtUart.Command.{max_cmd_size, exec_int}
use isbd_zephyr_module.AtUart.Command.Exchange.{Exchange, sent_cmd, sent-Exchange}
use isbd_zephyr_module.AtUart.Parse.Line.{IsEol}
use isbd_zephyr_module.AtUart.Parse.Response.{Blanks, Gap}
use isbd_zephyr_module.AtUart.Parse.Skip.{code_response, skip_resp_code}
use isbd_zephyr_module.AtUart.Parse.Single.{line_response}
use isbd_zephyr_module.AtUart.Parse.Zero.{get_resp_code_digits, IsNumber}
use isbd_zephyr_module.Iridium.Dte.{DteErr, Dte}
use isbd_zephyr_module.Iridium.Isu.Query.{short_response}
use isbd_zephyr_module.Iridium.Isu.Query.Answer.{answered, dte_send_lem}
use isbd_zephyr_module.Iridium.Isu.Binary.{
  ClearBuffer, mo_buff, mt_buff, mo_mt_buff, clear_buffer_value, clear_buffer, cmd_end, cmd_result,
}

abbrev pub sbdd_cmd : ClearBuffer → List Piece
sbdd_cmd buffer = exec_int (codes "+SBDD") (clear_buffer_value buffer)

length-sbdd_cmd : (buffer : ClearBuffer) → length (render (sbdd_cmd buffer)) < max_cmd_size
unfolding render decimal
length-sbdd_cmd mo_buff = omega arith
length-sbdd_cmd mt_buff = omega arith
length-sbdd_cmd mo_mt_buff = omega arith

module _ {Z : Type 0} ⦃line : Serial Z⦄ where
  -- A modem that takes a command, answers with a number on a line of its own, and then with a
  -- result code, each in time.
  pub record Coded (dte : Dte Z) (cmd : Bytes) (code : ℕ) (last : AtErr) (z' : Z) : Type 0 where
    pub pre : Bytes
    pub gap : Bytes
    pub pre_blank : Blanks pre
    pub gap_blank : Gap dte.at_uart.eol gap
    pub coded : Z
    pub code_text : IsNumber dte.at_uart.config.verbose 16 code
    pub codes_it :
        Exchange dte.at_uart cmd
          (line_response dte.at_uart.eol pre (decimal code) gap)
          short_response
          coded
    pub ends :
        Delivers short_response
          (code_response dte.at_uart.config.verbose dte.at_uart.eol pre gap last)
          coded
          z'

  pub sent-Coded :
      (dte : Dte Z) (cmd : Bytes) (code : ℕ) (last : AtErr) (z' : Z)
      → line.in_order dte.at_uart.zuart ≡ true
      → (x : Coded dte cmd code last z') → line.sent z' ≡ line.sent dte.at_uart.zuart ++ cmd
  sent-Coded dte cmd code last z' o x =
      sent-Delivers short_response _ x.coded z' x.ends
      ∙ sent-Exchange dte.at_uart cmd _ short_response x.coded o x.codes_it

  pub cmd_end_cases :
      (dte : Dte Z) (last : AtErr) (code : ℕ) (z' : Z)
      → (last ≡ ok) ⊎ (last ≡ err)
      → ((last ≡ ok)
          × (cmd_end last code (answered dte 0 z') ≡ (cmd_result code, answered dte code z')))
        ⊎ ((last ≡ err)
            × (cmd_end last code (answered dte 0 z')
                ≡ (DteErr.err_at, answered dte (at_err_value err) z')))
  unfolding cmd_end
  cmd_end_cases dte last code z' (inl e) = inl (e, rw e refl)
  cmd_end_cases dte last code z' (inr e) = inr (e, rw e refl)

  pub clear_buffer_run :
      (junk : ℕ) (dte : Dte Z) (buffer : ClearBuffer) (code : ℕ) (last : AtErr) (z' : Z)
      → IsEol dte.at_uart.eol
      → (last ≡ ok) ⊎ (last ≡ err)
      → Coded dte (render (sbdd_cmd buffer)) code last z'
      → clear_buffer junk buffer dte ≡ cmd_end last (code % 2 ^ 8) (answered dte 0 z')
  unfolding clear_buffer
  clear_buffer_run junk dte buffer code last z' ee hc x =
      let (b, e, _) =
        get_resp_code_digits (sent_cmd dte.at_uart x.codes_it.middle) (replicate 16 0) x.pre x.gap
          code 16 short_response x.coded ee (omega (arith, length-replicate {A = ℕ} 16 0))
          (omega arith) (omega arith) x.code_text x.pre_blank x.gap_blank x.codes_it.replies in
      rw
        (
          dte_send_lem dte (sbdd_cmd buffer) _ short_response x.coded (length-sbdd_cmd buffer)
              x.codes_it,
          e,
          skip_resp_code (answered dte 0 x.coded).at_uart x.pre x.gap 1 short_response last z' ee
              x.pre_blank x.gap_blank hc x.ends,
        )
        refl

  pub clear_buffer_cases :
      (junk : ℕ) (dte : Dte Z) (buffer : ClearBuffer) (code : ℕ) (last : AtErr) (z' : Z)
      → IsEol dte.at_uart.eol
      → line.in_order dte.at_uart.zuart ≡ true
      → (last ≡ ok) ⊎ (last ≡ err)
      → Coded dte (render (sbdd_cmd buffer)) code last z'
      → (line.sent z' ≡ line.sent dte.at_uart.zuart ++ render (sbdd_cmd buffer))
        × (((last ≡ ok)
              × (clear_buffer junk buffer dte
                  ≡ (cmd_result (code % 2 ^ 8), answered dte (code % 2 ^ 8) z')))
            ⊎ ((last ≡ err)
                × (clear_buffer junk buffer dte
                    ≡ (DteErr.err_at, answered dte (at_err_value err) z'))))
  clear_buffer_cases junk dte buffer code last z' ee o hc x = (
    sent-Coded dte (render (sbdd_cmd buffer)) code last z' o x,
    rw (clear_buffer_run junk dte buffer code last z' ee hc x)
        (cmd_end_cases dte last (code % 2 ^ 8) z' hc),
  )
