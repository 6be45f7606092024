-- ===== src/Tests/Messages.antt =====
-- Messages and reports with a scripted modem.
use isbd_zephyr_module.Prelude.{
  ◌≡◌, Bytes, true, false, some, List, [], ◌∷◌, refl, codes, ◌++◌, inl, replicate, arith,
}
use isbd_zephyr_module.Serial.Scripted.{Script, scripted}
use isbd_zephyr_module.Stru.{streq}
use isbd_zephyr_module.Libc.Print.{render, decimal}
use isbd_zephyr_module.Libc.Network.{htons, ntohs}
use isbd_zephyr_module.AtUart.Types.{ok}
use isbd_zephyr_module.AtUart.Code.{get_str_code}
use isbd_zephyr_module.AtUart.Parse.Response.{IsText}
use isbd_zephyr_module.AtUart.Parse.Single.{line_response}
use isbd_zephyr_module.AtUart.Parse.Skip.{code_response}
use isbd_zephyr_module.Iridium.Checksum.{compute_checksum}
use isbd_zephyr_module.Iridium.Dte.{DteErr, Dte}
use isbd_zephyr_module.Iridium.Evt.{Evt}
use isbd_zephyr_module.Iridium.Evt.Announce.{event_text}
use isbd_zephyr_module.Iridium.Isu.Query.Answer.{answered}
use isbd_zephyr_module.Iridium.Isu.Report.{EvtReport, set_evt_report}
use isbd_zephyr_module.Iridium.Isu.Report.Events.{IsReport, cier_cmd, behind, set_evt_report_events}
use isbd_zephyr_module.Iridium.Isu.Binary.{set_mo, get_mt, overlay}
use isbd_zephyr_module.Iridium.Isu.Binary.SetMo.{sbdwb_cmd, checksum_bytes, Takes, set_mo_taken}
use isbd_zephyr_module.Iridium.Isu.Binary.GetMt.{sbdrb_cmd, Brings, get_mt_message, get_mt_overflow}
use isbd_zephyr_module.Tests.Modem.{
  dte_port, script, deliver, deliver_all, exchange, exchange_more, crlf, cr, crlf-Blanks, cr-Gap,
}

abbrev pub ok_line : Bytes
ok_line = code_response true b'\n' crlf cr ok

abbrev report : EvtReport
report = record { mode = 1; signal = 1; service = 1 }

report-IsReport : IsReport report
report-IsReport = record {
  mode_byte = omega arith;
  signal_byte = omega arith;
  service_byte = omega arith;
}

abbrev sigq_line : Bytes
sigq_line = line_response b'\n' crlf (event_text true false (Evt.sigq 3)) cr

abbrev svca_line : Bytes
svca_line = line_response b'\n' crlf (event_text true false (Evt.svca 1)) cr

abbrev events : Bytes
events = sigq_line ++ svca_line

abbrev reported : Dte Script
reported = dte_port (script [] [] ((codes "at+CIER=1,1,1" ++ b'\r' ∷ (ok_line ++ events)) ∷ []))

set_evt_report_events_example : set_evt_report report (some 0, some 0) reported ≡ (
  (DteErr.ok, some 3, some 1),
  behind
      (Evt.sigq 3 ∷ Evt.svca 1 ∷ [])
      (answered reported 0 (script (render (cier_cmd report)) events []))
      (script (render (cier_cmd report)) [] []),
)
set_evt_report_events_example =
    set_evt_report_events reported report (some 0, some 0) (Evt.sigq 3 ∷ Evt.svca 1 ∷ []) crlf cr
      (script (render (cier_cmd report)) events []) (script (render (cier_cmd report)) [] [])
      (inl refl) report-IsReport crlf-Blanks cr-Gap
      (exchange_more 1000 (render (cier_cmd report)) (codes "at+CIER=1,1,1") ok_line events []
        (ground arith))
      refl
      (
        omega arith,
        false,
        crlf,
        cr,
        crlf-Blanks,
        cr-Gap,
        script (render (cier_cmd report)) svca_line [],
        deliver 1000 sigq_line (render (cier_cmd report)) svca_line [],
        (
          omega arith,
          false,
          crlf,
          cr,
          crlf-Blanks,
          cr-Gap,
          script (render (cier_cmd report)) [] [],
          deliver_all 1000 svca_line (render (cier_cmd report)) [],
          refl,
        ),
      )

-- A message, and the modem that takes it.
abbrev pub hello : Bytes
hello = codes "hello"

abbrev pub cmd : Bytes
cmd = render (sbdwb_cmd hello)

abbrev pub ready_line : Bytes
ready_line = line_response b'\n' crlf (codes "READY") cr

abbrev pub zero_line : Bytes
zero_line = line_response b'\n' crlf (decimal 0) cr

abbrev behind_cmd : List Bytes
behind_cmd = [] ∷ (zero_line ++ ok_line) ∷ []

abbrev taker : Dte Script
taker = dte_port (script [] [] ((codes "at+SBDWB=5" ++ b'\r' ∷ ready_line) ∷ behind_cmd))

pub zero-IsText : IsText true 16 (decimal 0)
unfolding get_str_code streq decimal
zero-IsText = record {
  chars = ground arith;
  some_char = omega arith;
  fits = omega arith;
  no_code = refl;
}

abbrev pub all_sent : Bytes
all_sent = (cmd ++ hello) ++ checksum_bytes hello

takes : Takes taker hello 0 (script all_sent [] [])
unfolding htons
takes = record {
  pre = crlf;
  gap = cr;
  pre_blank = crlf-Blanks;
  gap_blank = cr-Gap;
  asked = script cmd [] behind_cmd;
  ready = exchange 1000 cmd (codes "at+SBDWB=5") ready_line behind_cmd (ground arith);
  message = refl;
  checksum = refl;
  coded = script all_sent ok_line [];
  code_text = inl zero-IsText;
  codes_it = deliver 1000 zero_line all_sent ok_line [];
  ends = deliver_all 1000 ok_line all_sent [];
}

set_mo_taken_example :
    (set_mo 9 hello taker ≡ (DteErr.ok, answered taker 0 (script all_sent [] [])))
    × (scripted.sent (script all_sent [] [])
        ≡ ((scripted.sent taker.at_uart.zuart ++ cmd) ++ hello) ++ checksum_bytes hello)
set_mo_taken_example =
    set_mo_taken 9 taker hello 0 (script all_sent [] []) (inl refl) refl (omega arith) takes

-- The modem that hands over the message.
abbrev trailer : Bytes
trailer = htons (compute_checksum hello) ++ ok_line

abbrev giver : Dte Script
giver = dte_port (script [] [] ((codes "at+SBDRB" ++ b'\r' ∷ (htons 5 ++ (hello ++ trailer))) ∷ []))

abbrev given : Bytes → Script
given rest = script (render sbdrb_cmd) rest []

brings : Brings giver 5 hello (htons (compute_checksum hello)) (given ok_line)
unfolding htons
brings = record {
  start = given (htons 5 ++ (hello ++ trailer));
  asked =
      exchange_more 1000 (render sbdrb_cmd) (codes "at+SBDRB") [] (htons 5 ++ (hello ++ trailer)) []
        (ground arith);
  sized = given (hello ++ trailer);
  size = refl;
  filled = given trailer;
  message = refl;
  two_bytes = refl;
  trailer = refl;
}

get_mt_message_example : get_mt (replicate 6 1) 6 (7 ∷ 7 ∷ []) giver ≡ (
  (DteErr.ok, overlay hello (replicate 6 1), 5, some (compute_checksum hello)),
  answered giver 0 (given []),
)
get_mt_message_example =
    get_mt_message giver (replicate 6 1) (7 ∷ 7 ∷ []) hello crlf cr 6 (given ok_line) (given [])
      (inl refl) (omega arith) (omega arith) brings crlf-Blanks cr-Gap
      (deliver_all 1000 ok_line (render sbdrb_cmd) [])

-- The same message for an array of three bytes: `lo` is taken for the checksum.
Brings-more : Brings giver 5 (codes "hel") (codes "lo") (given trailer)
unfolding htons
Brings-more = record {
  start = given (htons 5 ++ (hello ++ trailer));
  asked =
      exchange_more 1000 (render sbdrb_cmd) (codes "at+SBDRB") [] (htons 5 ++ (hello ++ trailer)) []
        (ground arith);
  sized = given (hello ++ trailer);
  size = refl;
  filled = given (codes "lo" ++ trailer);
  message = refl;
  two_bytes = refl;
  trailer = refl;
}

get_mt_overflow_example : get_mt (replicate 3 1) 3 (7 ∷ 7 ∷ []) giver ≡ (
  (DteErr.err_at, overlay (codes "hel") (replicate 3 1), 3, some (ntohs (codes "lo"))),
  answered giver 2 (given trailer),
)
get_mt_overflow_example =
    get_mt_overflow giver (replicate 3 1) (7 ∷ 7 ∷ []) (codes "hel") (codes "lo") 3 5
      (given trailer) refl (omega arith) (omega arith) Brings-more
