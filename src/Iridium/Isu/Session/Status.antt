-- ===== src/Iridium/Isu/Session/Status.antt =====
-- What `isu_get_sig_q`, `isu_get_ring_sts` and `isu_get_mt_alert` make of an answer that comes in time.
use isbd_zephyr_module.Prelude.{ℕ, ◌<◌, ◌≡◌, ◌^◌, Bool, [], ◌∷◌, ◌++◌, length, arith, refl, codes}
use isbd_zephyr_module.Serial.{Serial}
use isbd_zephyr_module.Libc.Print.{render}
use isbd_zephyr_module.Libc.Scan.Fields.{fields}
use isbd_zephyr_module.AtUart.Command.{max_cmd_size, exec, read_value}
use isbd_zephyr_module.AtUart.Parse.Line.{IsEol}
use isbd_zephyr_module.Iridium.Dte.{DteErr, Dte}
use isbd_zephyr_module.Iridium.Isu.Query.{short_response, long_response}
use isbd_zephyr_module.Iridium.Isu.Query.Answer.{answered}
use isbd_zephyr_module.Iridium.Isu.Session.{get_sig_q, get_mt_alert, get_ring_sts}
use isbd_zephyr_module.Iridium.Isu.Session.Answer.{Answers, query_numbers_lem}

length-csq_cmd : length (render (exec (codes "+CSQ"))) < max_cmd_size
unfolding render
length-csq_cmd = omega arith

length-cris_cmd : length (render (exec (codes "+CRIS"))) < max_cmd_size
unfolding render
length-cris_cmd = omega arith

length-sbdmta_cmd : length (render (read_value (codes "+SBDMTA"))) < max_cmd_size
unfolding render
length-sbdmta_cmd = omega arith

module _ {Z : Type 0} ⦃line : Serial Z⦄ where
  -- Where the modem answers +CSQ with a number of a byte, `isu_get_sig_q` returns OK and that number.
  pub get_sig_q_lem :
      (dte : Dte Z) (old n : ℕ) (blank : Bool) (z' : Z)
      → IsEol dte.at_uart.eol
      → n < 2 ^ 8
      → Answers dte
          (render (exec (codes "+CSQ")))
          (codes "+CSQ:" ++ fields blank (n ∷ []))
          long_response
          z'
      → get_sig_q old dte ≡ ((DteErr.ok, n), answered dte 0 z')
  unfolding get_sig_q
  get_sig_q_lem dte old n blank z' ee h x =
      rw
        (query_numbers_lem dte (exec (codes "+CSQ")) 16 long_response (codes "CSQ:") blank (8 ∷ [])
          (n ∷ []) z' length-csq_cmd ee (omega arith) (ground arith) (omega arith) (omega arith)
          (omega arith) x)
        refl

  -- Where the modem answers +CRIS with the telephony and the SBD indication, of a byte each,
  -- `isu_get_ring_sts` returns OK and the SBD indication, whatever the telephony indication is.
  pub get_ring_sts_lem :
      (dte : Dte Z) (junk old tri sri : ℕ) (blank : Bool) (z' : Z)
      → IsEol dte.at_uart.eol
      → tri < 2 ^ 8
      → sri < 2 ^ 8
      → Answers dte
          (render (exec (codes "+CRIS")))
          (codes "+CRIS:" ++ fields blank (tri ∷ sri ∷ []))
          short_response
          z'
      → get_ring_sts junk old dte ≡ ((DteErr.ok, sri), answered dte 0 z')
  unfolding get_ring_sts
  get_ring_sts_lem dte junk old tri sri blank z' ee ht hs x =
      rw
        (query_numbers_lem dte (exec (codes "+CRIS")) 32 short_response (codes "CRIS:") blank
          (8 ∷ 8 ∷ []) (tri ∷ sri ∷ []) z' length-cris_cmd ee (omega arith) (ground arith)
          (omega arith) (omega arith) (omega arith) x)
        refl

  -- Where the modem answers the query of +SBDMTA with a number of a byte, `isu_get_mt_alert` returns OK
  -- and stores that number.
  pub get_mt_alert_lem :
      (dte : Dte Z) (old n : ℕ) (blank : Bool) (z' : Z)
      → IsEol dte.at_uart.eol
      → n < 2 ^ 8
      → Answers dte
          (render (read_value (codes "+SBDMTA")))
          (codes "+SBDMTA:" ++ fields blank (n ∷ []))
          short_response
          z'
      → get_mt_alert old dte ≡ ((DteErr.ok, n), answered dte 0 z')
  unfolding get_mt_alert
  get_mt_alert_lem dte old n blank z' ee h x =
      rw
        (query_numbers_lem dte (read_value (codes "+SBDMTA")) 32 short_response (codes "SBDMTA:")
          blank (8 ∷ []) (n ∷ []) z' length-sbdmta_cmd ee (omega arith) (ground arith) (omega arith)
          (omega arith) (omega arith) x)
        refl
