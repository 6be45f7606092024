-- ===== src/Tests/Arrival.antt =====
-- A ring, and the message that its session brings, with a modem for examples.
use isbd_zephyr_module.Prelude.{Bytes, true, List, [], ◌∷◌, ◌++◌, codes, arith, refl, inl}
use isbd_zephyr_module.Serial.Scripted.{Script, scripted}
use isbd_zephyr_module.Libc.Print.{render}
use isbd_zephyr_module.Libc.Scan.Fields.{fields}
use isbd_zephyr_module.Libc.Network.{htons}
use isbd_zephyr_module.AtUart.Types.{ok}
use isbd_zephyr_module.AtUart.Parse.Response.{response}
use isbd_zephyr_module.AtUart.Parse.{parse_resp, parse_loop}
use isbd_zephyr_module.Iridium.Checksum.{compute_checksum}
use isbd_zephyr_module.Iridium.Dte.{Dte}
use isbd_zephyr_module.Iridium.Evt.{evt_wait, wait_result}
use isbd_zephyr_module.Iridium.Isu.Query.Answer.{answered}
use isbd_zephyr_module.Iridium.Isu.Session.{Session}
use isbd_zephyr_module.Iridium.Isu.Session.Answer.{Answers, IsSession, session_numbers, sbdix_cmd}
use isbd_zephyr_module.Iridium.Isu.Binary.{mo_buff}
use isbd_zephyr_module.Iridium.Isu.Binary.Clear.{Coded, sbdd_cmd}
use isbd_zephyr_module.Iridium.Isu.Binary.GetMt.{Brings, sbdrb_cmd}
use isbd_zephyr_module.Isbd.Message.{IsbdEvt}
use isbd_zephyr_module.Isbd.Service.{round}
use isbd_zephyr_module.Isbd.Action.{run}
use isbd_zephyr_module.Isbd.Atomic.App.{evt_handler}
use isbd_zephyr_module.Isbd.Delivery.Incoming.{waited, Receives}
use isbd_zephyr_module.Isbd.Delivery.Arrival.{Arrived, ring_incoming}
use isbd_zephyr_module.Tests.Modem.{
  dte_port, script, deliver, deliver_all, exchange_more, crlf, cr, crlf-Blanks, cr-Gap,
}
use isbd_zephyr_module.Tests.Messages.{hello, zero_line, ok_line, zero-IsText}
use isbd_zephyr_module.Tests.Kernel.{heap_double, queue_double}
use isbd_zephyr_module.Tests.Service.{State, service}
use isbd_zephyr_module.Tests.Ownership.{junk}

abbrev incoming : Session
incoming = record { mo_sts = 0; mt_sts = 1; mo_msn = 77; mt_msn = 12; mt_len = 5; mt_queued = 1 }

incoming-IsSession : IsSession incoming
incoming-IsSession = record {
  mo_sts_byte = omega arith;
  mo_msn_word = omega arith;
  mt_sts_byte = omega arith;
  mt_msn_word = omega arith;
  mt_len_word = omega arith;
  mt_queued_byte = omega arith;
}

abbrev dd_cmd : Bytes
dd_cmd = render (sbdd_cmd mo_buff)

abbrev ix_cmd : Bytes
ix_cmd = render (sbdix_cmd true)

abbrev numbers : Bytes
numbers = codes "+SBDIX:" ++ fields true (session_numbers incoming)

abbrev ix_reply : Bytes
ix_reply = response true b'\n' crlf numbers cr crlf ok

abbrev trailer : Bytes
trailer = htons (compute_checksum hello) ++ ok_line

abbrev rb_line : Bytes
rb_line = codes "at+SBDRB" ++ b'\r' ∷ (htons 5 ++ (hello ++ trailer))

abbrev behind : List Bytes
behind = (codes "at+SBDIXA" ++ b'\r' ∷ ix_reply) ∷ rb_line ∷ []

abbrev modem : Dte Script
modem = dte_port (script [] [] ((codes "at+SBDD0" ++ b'\r' ∷ (zero_line ++ ok_line)) ∷ behind))

abbrev asked : Bytes
asked = dd_cmd ++ ix_cmd

abbrev all_asked : Bytes
all_asked = asked ++ render sbdrb_cmd

clears : Coded modem dd_cmd 0 ok (script dd_cmd [] behind)
clears = record {
  pre = crlf;
  gap = cr;
  pre_blank = crlf-Blanks;
  gap_blank = cr-Gap;
  coded = script dd_cmd ok_line behind;
  code_text = inl zero-IsText;
  codes_it = exchange_more 1000 dd_cmd (codes "at+SBDD0") zero_line ok_line behind (ground arith);
  ends = deliver_all 1000 ok_line dd_cmd behind;
}

session_answer :
    Answers
      (answered modem 0 (script dd_cmd [] behind))
      ix_cmd
      numbers
      60000
      (script asked [] (rb_line ∷ []))
session_answer = record {
  pre = crlf;
  gap = cr;
  mid = crlf;
  pre_blank = crlf-Blanks;
  gap_blank = cr-Gap;
  mid_blank = crlf-Blanks;
  exchange = record {
    accepted = refl;
    echo = codes "at+SBDIXA";
    echo_chars = ground arith;
    middle = script asked ix_reply (rb_line ∷ []);
    echoes = deliver 1000 (codes "at+SBDIXA" ++ b'\r' ∷ []) asked ix_reply (rb_line ∷ []);
    replies = deliver_all 60000 ix_reply asked (rb_line ∷ []);
  };
}

-- The terminal behind the wait.
abbrev silent : Dte Script
silent = answered modem 0 (script asked [] (rb_line ∷ []))

brings :
    Brings
      (waited modem silent.at_uart.zuart)
      5
      hello
      (htons (compute_checksum hello))
      (script all_asked ok_line [])
unfolding evt_wait parse_resp parse_loop htons
brings = record {
  start = script all_asked (htons 5 ++ (hello ++ trailer)) [];
  asked = record {
    accepted = refl;
    echo = codes "at+SBDRB";
    echo_chars = ground arith;
    middle = script all_asked (htons 5 ++ (hello ++ trailer)) [];
    echoes =
        deliver 1000 (codes "at+SBDRB" ++ b'\r' ∷ []) all_asked (htons 5 ++ (hello ++ trailer)) [];
    replies = refl;
  };
  sized = script all_asked (hello ++ trailer) [];
  size = refl;
  filled = script all_asked trailer [];
  message = refl;
  two_bytes = refl;
  trailer = refl;
}

conversation :
    Receives modem hello incoming 100
      (script dd_cmd [] behind)
      silent.at_uart.zuart
      (script all_asked ok_line [])
      (script all_asked [] [])
unfolding evt_wait wait_result parse_resp parse_loop
conversation = record {
  clears = clears;
  blank = true;
  answers = session_answer;
  quiet = refl;
  brings = brings;
  pre = crlf;
  gap = cr;
  pre_blank = crlf-Blanks;
  gap_blank = cr-Gap;
  ends = deliver_all 1000 ok_line all_asked [];
  quiet_after = refl;
}

abbrev idle : State
idle = record service { mo_q = record { room = 2; held = [] }; dte = modem }

ring_incoming_example :
    Arrived junk incoming 7 hello idle
      (round junk 100 (run (evt_handler 0 0 IsbdEvt.ring) idle).1).1
ring_incoming_example =
    ring_incoming junk incoming 0 0 7 100 hello (script dd_cmd [] behind) silent.at_uart.zuart
      (script all_asked ok_line []) (script all_asked [] []) idle refl (omega arith) (omega arith)
      (omega arith) (inl refl) (omega arith) (omega arith) incoming-IsSession refl refl refl
      conversation
