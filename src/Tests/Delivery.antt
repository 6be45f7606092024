-- ===== src/Tests/Delivery.antt =====
-- A message from its user to a modem for examples and back.
use isbd_zephyr_module.Prelude.{Bytes, true, false, List, [], ◌∷◌, ◌++◌, codes, arith, refl, inl}
use isbd_zephyr_module.Serial.Scripted.{Script, scripted}
use isbd_zephyr_module.Libc.Print.{render}
use isbd_zephyr_module.Libc.Scan.Fields.{fields}
use isbd_zephyr_module.Libc.Network.{htons}
use isbd_zephyr_module.AtUart.Types.{ok}
use isbd_zephyr_module.AtUart.Parse.Response.{response}
use isbd_zephyr_module.Iridium.Dte.{Dte}
use isbd_zephyr_module.Iridium.Evt.{evt_wait}
use isbd_zephyr_module.Iridium.Isu.Query.Answer.{answered}
use isbd_zephyr_module.Iridium.Isu.Session.{Session}
use isbd_zephyr_module.Iridium.Isu.Session.Answer.{Answers, IsSession, session_numbers, sbdix_cmd}
use isbd_zephyr_module.Iridium.Isu.Binary.SetMo.{Takes}
use isbd_zephyr_module.Isbd.Queue.{send_mo_msg}
use isbd_zephyr_module.Isbd.Service.{round}
use isbd_zephyr_module.Isbd.Events.{evt_wait_silent}
use isbd_zephyr_module.Isbd.Delivery.{Sends}
use isbd_zephyr_module.Isbd.Delivery.User.{Delivered, send_delivers}
use isbd_zephyr_module.Tests.Modem.{
  dte_port, script, deliver, deliver_all, exchange, crlf, cr, crlf-Blanks, cr-Gap,
}
use isbd_zephyr_module.Tests.Messages.{
  hello, cmd, ready_line, zero_line, ok_line, all_sent, zero-IsText,
}
use isbd_zephyr_module.Tests.Kernel.{heap_double, queue_double}
use isbd_zephyr_module.Tests.Service.{State, service}
use isbd_zephyr_module.Tests.Ownership.{junk}

abbrev success : Session
success = record { mo_sts = 0; mt_sts = 0; mo_msn = 77; mt_msn = 0; mt_len = 0; mt_queued = 0 }

success-IsSession : IsSession success
success-IsSession = record {
  mo_sts_byte = omega arith;
  mo_msn_word = omega arith;
  mt_sts_byte = omega arith;
  mt_msn_word = omega arith;
  mt_len_word = omega arith;
  mt_queued_byte = omega arith;
}

-- The modem takes the message and reports a session.
abbrev numbers : Session → Bytes
numbers session = codes "+SBDIX:" ++ fields true (session_numbers session)

abbrev ix_cmd : Bytes
ix_cmd = render (sbdix_cmd false)

abbrev ix_reply : Session → Bytes
ix_reply session = response true b'\n' crlf (numbers session) cr crlf ok

abbrev ix_line : Session → Bytes
ix_line session = codes "at+SBDIX" ++ b'\r' ∷ ix_reply session

abbrev behind : Session → List Bytes
behind session = [] ∷ (zero_line ++ ok_line) ∷ ix_line session ∷ []

abbrev pub modem : Session → Dte Script
modem session =
    dte_port (script [] [] ((codes "at+SBDWB=5" ++ b'\r' ∷ ready_line) ∷ behind session))

-- The line behind the message, and behind the session.
abbrev pub taken : Session → Script
taken session = script all_sent [] (ix_line session ∷ [])

abbrev pub over : Script
over = script (all_sent ++ ix_cmd) [] []

takes : (session : Session) → Takes (modem session) hello 0 (taken session)
unfolding htons
takes session = record {
  pre = crlf;
  gap = cr;
  pre_blank = crlf-Blanks;
  gap_blank = cr-Gap;
  asked = script cmd [] (behind session);
  ready = exchange 1000 cmd (codes "at+SBDWB=5") ready_line (behind session) (ground arith);
  message = refl;
  checksum = refl;
  coded = script all_sent ok_line (ix_line session ∷ []);
  code_text = inl zero-IsText;
  codes_it = deliver 1000 zero_line all_sent ok_line (ix_line session ∷ []);
  ends = deliver_all 1000 ok_line all_sent (ix_line session ∷ []);
}

session_answer :
    (session : Session)
    → Answers (answered (modem session) 0 (taken session)) ix_cmd (numbers session) 60000 over
session_answer session = record {
  pre = crlf;
  gap = cr;
  mid = crlf;
  pre_blank = crlf-Blanks;
  gap_blank = cr-Gap;
  mid_blank = crlf-Blanks;
  exchange = record {
    accepted = refl;
    echo = codes "at+SBDIX";
    echo_chars = ground arith;
    middle = script (all_sent ++ ix_cmd) (ix_reply session) [];
    echoes =
        deliver 1000 (codes "at+SBDIX" ++ b'\r' ∷ []) (all_sent ++ ix_cmd) (ix_reply session) [];
    replies = deliver_all 60000 (ix_reply session) (all_sent ++ ix_cmd) [];
  };
}

abbrev silent : Session → Dte Script
silent session = answered (modem session) 0 over

pub conversation :
    (session : Session) → Sends (modem session) hello false session 100 (taken session) over
conversation session =
    let q = evt_wait_silent 10 (silent session) refl in
    record {
      takes = takes session;
      blank = true;
      answers = session_answer session;
      quiet = q.0;
      quiet_after = (evt_wait_silent 100 (evt_wait 10 (silent session)).1 q.1).0;
    }

abbrev idle : State
idle = record service { mo_q = record { room = 2; held = [] }; dte = modem success }

send_delivers_example :
    Delivered false success 2 7 hello [] idle (round junk 100 (send_mo_msg 0 hello 2 idle).1).1
send_delivers_example =
    send_delivers junk success 0 2 7 100 hello (taken success) over idle refl (omega arith) refl
      (omega arith) (omega arith) (inl refl) refl (omega arith) (omega arith) (omega arith)
      success-IsSession (omega arith) refl (conversation success)
