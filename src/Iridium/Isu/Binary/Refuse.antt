-- ===== src/Iridium/Isu/Binary/Refuse.antt =====
-- How `isu_set_mo` ends where the modem does not ask for the message.
use isbd_zephyr_module.Prelude.{
  ℕ, ◌<◌, ◌≡◌, ◌^◌, ◌%◌, Bytes, ◌++◌, length, length-replicate, replicate, arith, refl, true, ◌⊎◌,
}
use isbd_zephyr_module.Serial.{Serial}
use isbd_zephyr_module.Libc.Print.{render}
use isbd_zephyr_module.AtUart.Types.{AtErr, ok, err, at_err_value}
use isbd_zephyr_module.AtUart.Command.Exchange.{sent_cmd}
use isbd_zephyr_module.AtUart.Parse.Line.{IsEol}
use isbd_zephyr_module.AtUart.Parse.Skip.{skip_resp_code}
use isbd_zephyr_module.AtUart.Parse.Zero.{get_resp_code_digits}
use isbd_zephyr_module.Iridium.Dte.{DteErr, Dte}
use isbd_zephyr_module.Iridium.Isu.Query.{short_response}
use isbd_zephyr_module.Iridium.Isu.Query.Answer.{answered, dte_send_lem}
use isbd_zephyr_module.Iridium.Isu.Binary.{set_mo, mo_payload, cmd_end, cmd_result}
use isbd_zephyr_module.Iridium.Isu.Binary.SetMo.{sbdwb_cmd, length-sbdwb_cmd}
use isbd_zephyr_module.Iridium.Isu.Binary.Clear.{Coded, sent-Coded, cmd_end_cases}

module _ {Z : Type 0} ⦃line : Serial Z⦄ where
  set_mo_run :
      (junk : ℕ) (dte : Dte Z) (msg : Bytes) (code : ℕ) (last : AtErr) (z' : Z)
      → IsEol dte.at_uart.eol
      → length msg < 2 ^ 16
      → (last ≡ ok) ⊎ (last ≡ err)
      → Coded dte (render (sbdwb_cmd msg)) code last z'
      → set_mo junk msg dte ≡ cmd_end last (code % 2 ^ 8) (answered dte 0 z')
  unfolding set_mo mo_payload
  set_mo_run junk dte msg code last z' ee h hc x =
      let (b, e, _) =
        get_resp_code_digits (sent_cmd dte.at_uart x.codes_it.middle) (replicate 16 0) x.pre x.gap
          code 16 short_response x.coded ee (omega (arith, length-replicate {A = ℕ} 16 0))
          (omega arith) (omega arith) x.code_text x.pre_blank x.gap_blank x.codes_it.replies in
      rw
        (
          dte_send_lem dte (sbdwb_cmd msg) _ short_response x.coded (length-sbdwb_cmd msg h)
              x.codes_it,
          e,
          skip_resp_code (answered dte 0 x.coded).at_uart x.pre x.gap 1 short_response last z' ee
              x.pre_blank x.gap_blank hc x.ends,
        )
        refl

  pub set_mo_refused :
      (junk : ℕ) (dte : Dte Z) (msg : Bytes) (code : ℕ) (last : AtErr) (z' : Z)
      → IsEol dte.at_uart.eol
      → length msg < 2 ^ 16
      → line.in_order dte.at_uart.zuart ≡ true
      → (last ≡ ok) ⊎ (last ≡ err)
      → Coded dte (render (sbdwb_cmd msg)) code last z'
      → (line.sent z' ≡ line.sent dte.at_uart.zuart ++ render (sbdwb_cmd msg))
        × (((last ≡ ok)
              × (set_mo junk msg dte ≡ (cmd_result (code % 2 ^ 8), answered dte (code % 2 ^ 8) z')))
            ⊎ ((last ≡ err)
                × (set_mo junk msg dte ≡ (DteErr.err_at, answered dte (at_err_value err) z'))))
  set_mo_refused junk dte msg code last z' ee h o hc x = (
    sent-Coded dte (render (sbdwb_cmd msg)) code last z' o x,
    rw (set_mo_run junk dte msg code last z' ee h hc x)
        (cmd_end_cases dte last (code % 2 ^ 8) z' hc),
  )
