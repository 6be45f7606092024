-- ===== src/Tests/Isu.antt =====
-- The commands of the ISU with a scripted modem.
use isbd_zephyr_module.Prelude.{
  ℕ, ◌<◌, ◌≡◌, ◌≢◌, Bytes, true, false, some, List, [], ◌∷◌, refl, codes, ◌++◌, inl, length, arith,
  All,
}
use isbd_zephyr_module.Serial.Scripted.{scripted}
use isbd_zephyr_module.Libc.Print.{render, decimal}
use isbd_zephyr_module.Libc.Scan.Fields.{fields}
use isbd_zephyr_module.AtUart.Types.{ok}
use isbd_zephyr_module.AtUart.Command.{exec}
use isbd_zephyr_module.AtUart.Parse.Response.{response}
use isbd_zephyr_module.AtUart.Parse.Single.{line_response}
use isbd_zephyr_module.Iridium.Checksum.{compute_checksum, compute_checksum_lem}
use isbd_zephyr_module.Iridium.Dte.{DteErr}
use isbd_zephyr_module.Iridium.Evt.{Evt, evt_wait, parse_event}
use isbd_zephyr_module.Iridium.Evt.Announce.{
  event_text, announced, parse_event-event_text, evt_wait_event,
}
use isbd_zephyr_module.Iridium.Isu.Query.Answer.{answered}
use isbd_zephyr_module.Iridium.Isu.Session.{Session, init_session, net_reg}
use isbd_zephyr_module.Iridium.Isu.Session.Answer.{
  Answers, IsSession, session_numbers, sbdix_cmd, init_session_lem, net_reg_lem,
}
use isbd_zephyr_module.Iridium.Isu.Report.{EvtReport, report_text}
use isbd_zephyr_module.Iridium.Isu.Report.Events.{IsReport, length-report_text}
use isbd_zephyr_module.Tests.Modem.{
  dte_port, script, deliver_all, exchange, crlf, cr, crlf-Blanks, cr-Gap,
}

abbrev answers : Bytes → Bytes → List Bytes
answers echo text = (echo ++ b'\r' ∷ response true b'\n' crlf text cr crlf ok) ∷ []

answered_by :
    (t : ℕ) (cmd echo text : Bytes)
    → All (λ b. b ≢ b'\r') echo
    → Answers (dte_port (script [] [] (answers echo text))) cmd text t (script cmd [] [])
answered_by t cmd echo text a = record {
  pre = crlf;
  gap = cr;
  mid = crlf;
  pre_blank = crlf-Blanks;
  gap_blank = cr-Gap;
  mid_blank = crlf-Blanks;
  exchange = exchange t cmd echo (response true b'\n' crlf text cr crlf ok) [] a;
}

abbrev session : Session
session = record { mo_sts = 0; mt_sts = 1; mo_msn = 515; mt_msn = 12; mt_len = 300; mt_queued = 2 }

session-IsSession : IsSession session
session-IsSession = record {
  mo_sts_byte = omega arith;
  mo_msn_word = omega arith;
  mt_sts_byte = omega arith;
  mt_msn_word = omega arith;
  mt_len_word = omega arith;
  mt_queued_byte = omega arith;
}

abbrev pub nothing : Session
nothing = record { mo_sts = 0; mt_sts = 0; mo_msn = 0; mt_msn = 0; mt_len = 0; mt_queued = 0 }

abbrev session_answers : List Bytes
session_answers =
    answers (codes "at+SBDIXA") (codes "+SBDIX:" ++ fields true (session_numbers session))

init_session_lem_example : init_session nothing true (dte_port (script [] [] session_answers)) ≡ (
  (DteErr.ok, session),
  answered (dte_port (script [] [] session_answers)) 0 (script (render (sbdix_cmd true)) [] []),
)
init_session_lem_example =
    init_session_lem (dte_port (script [] [] session_answers)) nothing session true true
      (script (render (sbdix_cmd true)) [] []) (inl refl) session-IsSession
      (answered_by 60000 (render (sbdix_cmd true)) (codes "at+SBDIXA")
        (codes "+SBDIX:" ++ fields true (session_numbers session)) (ground arith))

abbrev reg_answers : List Bytes
reg_answers = answers (codes "at+SBDREG") (codes "+SBDREG:" ++ fields false (2 ∷ 33 ∷ []))

net_reg_lem_example : net_reg (some 0) (dte_port (script [] [] reg_answers)) ≡ (
  (DteErr.err_cmd, some 2),
  answered
      (dte_port (script [] [] reg_answers))
      33
      (script (render (exec (codes "+SBDREG"))) [] []),
)
net_reg_lem_example =
    net_reg_lem (dte_port (script [] [] reg_answers)) 0 2 33 false
      (script (render (exec (codes "+SBDREG"))) [] []) (inl refl) (omega arith) (omega arith)
      (answered_by 1000 (render (exec (codes "+SBDREG"))) (codes "at+SBDREG")
        (codes "+SBDREG:" ++ fields false (2 ∷ 33 ∷ [])) (ground arith))

compute_checksum_lem_example : compute_checksum (codes "hello") ≡ 532
compute_checksum_lem_example = compute_checksum_lem (codes "hello")

abbrev sigq_line : Bytes
sigq_line = line_response b'\n' crlf (event_text true false (Evt.sigq 3)) cr

abbrev svca_line : Bytes
svca_line = line_response b'\n' crlf (event_text true false (Evt.svca 1)) cr

parse_event-event_text_example :
    parse_event true (event_text true true (Evt.areg 2 17)) ≡ Evt.areg 2 17
unfolding decimal
parse_event-event_text_example =
    parse_event-event_text true true (Evt.areg 2 17) (event_text true true (Evt.areg 2 17))
      (omega arith, omega arith) refl

evt_wait_event_example :
    evt_wait 10 (dte_port (script [] sigq_line []))
    ≡ ((DteErr.ok, Evt.sigq 3), announced (dte_port (script [] sigq_line [])) (script [] [] []))
evt_wait_event_example =
    evt_wait_event (dte_port (script [] sigq_line [])) 10 false (Evt.sigq 3) crlf cr
      (script [] [] []) (inl refl) (omega arith) crlf-Blanks cr-Gap (deliver_all 10 sigq_line [] [])

abbrev report : EvtReport
report = record { mode = 1; signal = 1; service = 1 }

report-IsReport : IsReport report
report-IsReport = record {
  mode_byte = omega arith;
  signal_byte = omega arith;
  service_byte = omega arith;
}

length-report_text_example : length (report_text report) < 16
length-report_text_example = length-report_text report report-IsReport
