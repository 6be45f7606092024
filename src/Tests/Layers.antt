-- ===== src/Tests/Layers.antt =====
-- The set-up of lib/at_uart with a scripted modem, and a command over a port of lib/zuart.
use isbd_zephyr_module.Prelude.{
  ℕ, ◌≤◌, ◌≡◌, ◌≢◌, Bytes, Bool, true, false, [], ◌∷◌, ◌++◌, List, length, take, codes, All, arith,
  refl, inl, inr,
}
use isbd_zephyr_module.Serial.Scripted.{Script, scripted}
use isbd_zephyr_module.Libc.Print.{Piece, render}
use isbd_zephyr_module.AtUart.Types.{ok, AtUart}
use isbd_zephyr_module.AtUart.Command.{exec, exec_int, send_cmd}
use isbd_zephyr_module.AtUart.Command.Exchange.{sent_cmd}
use isbd_zephyr_module.AtUart.Command.Ported.{send_cmd_ported}
use isbd_zephyr_module.AtUart.Parse.Skip.{code_response}
use isbd_zephyr_module.AtUart.Basic.{configure, setup}
use isbd_zephyr_module.AtUart.Basic.Laws.{Replies, Course, setup_lem}
use isbd_zephyr_module.ZUart.Port.{Port}
use isbd_zephyr_module.ZUart.Writes.{outgoing}
use isbd_zephyr_module.ZUart.Line.{port_line}
use isbd_zephyr_module.Tests.Modem.{
  at_config, script, deliver, deliver_all, crlf, cr, crlf-Blanks, cr-Gap,
}
use isbd_zephyr_module.Tests.Device.{Line, Ring, ring_double, sem_double, uart_double, port}

-- The modem answers OK to a command that it echoes.
abbrev ok_line : Bytes
ok_line = code_response true b'\n' crlf cr ok

abbrev answer : Bytes → Bytes
answer echo = (echo ++ b'\r' ∷ []) ++ ok_line

abbrev at_state : Bool → Script → AtUart Script
at_state echoed z = record { echoed = echoed; eol = b'\n'; zuart = z; config = at_config }

replies :
    (echoed : Bool) (w : Bytes) (tmpl : List Piece) (echo : Bytes) (rs : List Bytes)
    → All (λ b. b ≢ b'\r') echo
    → Replies
        (at_state echoed (script w [] (answer echo ∷ rs)))
        tmpl
        ok
        (script (w ++ render tmpl) [] rs)
replies echoed w tmpl echo rs a = record {
  pre = crlf;
  gap = cr;
  pre_blank = crlf-Blanks;
  gap_blank = cr-Gap;
  is_code = inl refl;
  exchange = record {
    accepted = refl;
    echo = echo;
    echo_chars = a;
    middle = script (w ++ render tmpl) ok_line rs;
    echoes = deliver 1000 (echo ++ b'\r' ∷ []) (w ++ render tmpl) ok_line rs;
    replies = deliver_all 1000 ok_line (w ++ render tmpl) rs;
  };
}

abbrev later : List Bytes
later = answer (codes "atv1") ∷ answer (codes "at&k0") ∷ answer (codes "at&d0") ∷ []

abbrev start : AtUart Script
start = at_state false (script [] [] (answer (codes "atq0") ∷ answer (codes "ate1") ∷ later))

abbrev quiet_cmd : Bytes
quiet_cmd = render (exec_int (codes "q") 0)

abbrev two_cmds : Bytes
two_cmds = quiet_cmd ++ render (exec_int (codes "e") 1)

abbrev three_cmds : Bytes
three_cmds = two_cmds ++ render (exec_int (codes "v") 1)

abbrev four_cmds : Bytes
four_cmds = three_cmds ++ render (exec_int (codes "&k") 0)

abbrev all_cmds : Bytes
all_cmds = four_cmds ++ render (exec_int (codes "&d") 0)

course : Course at_config (configure at_config start) ok (script all_cmds [] [])
unfolding configure
course = record {
  quiet_code = ok;
  echo_code = ok;
  verbose_code = ok;
  flow_code = ok;
  z₁ = script quiet_cmd [] (answer (codes "ate1") ∷ later);
  z₂ = script two_cmds [] later;
  z₃ = script three_cmds [] (answer (codes "at&k0") ∷ answer (codes "at&d0") ∷ []);
  z₄ = script four_cmds [] (answer (codes "at&d0") ∷ []);
  quiet =
      replies false [] (exec_int (codes "q") 0) (codes "atq0") (answer (codes "ate1") ∷ later)
        (ground arith);
  echo = replies true quiet_cmd (exec_int (codes "e") 1) (codes "ate1") later (ground arith);
  verbose =
      replies true two_cmds (exec_int (codes "v") 1) (codes "atv1")
        (answer (codes "at&k0") ∷ answer (codes "at&d0") ∷ []) (ground arith);
  flow =
      replies true three_cmds (exec_int (codes "&k") 0) (codes "at&k0")
        (answer (codes "at&d0") ∷ []) (ground arith);
  dtr =
      inr
        (refl, replies true four_cmds (exec_int (codes "&d") 0) (codes "at&d0") [] (ground arith));
}

setup_lem_example :
    setup at_config start ≡ (ok, sent_cmd (configure at_config start) (script all_cmds [] []))
setup_lem_example = setup_lem at_config start ok (script all_cmds [] []) course

-- A port that writes by interrupts, over a device that is slow.
abbrev slow : Line
slow = record { coming = []; taken = []; placed = []; points = []; waits = []; clock = 5 }

abbrev over_port : AtUart (Port Ring ℕ Line)
over_port = record { echoed = false; eol = b'\n'; zuart = port slow; config = at_config }

abbrev cgsn : List Piece
cgsn = exec (codes "+CGSN")

send_cmd_ported_example :
    let (r, u') = send_cmd 256 cgsn over_port in
    (n : ℕ) × (outgoing u'.zuart ≡ outgoing (port slow) ++ take n (render cgsn))
    × (n ≤ length (render cgsn))
    × (r ≡ ok → outgoing u'.zuart ≡ outgoing (port slow) ++ render cgsn)
send_cmd_ported_example = send_cmd_ported 256 cgsn over_port refl
