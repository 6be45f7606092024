-- ===== src/Tests/Commands.antt =====
-- Commands to a scripted modem.
use isbd_zephyr_module.Prelude.{
  ℕ, ◌<◌, ◌≤◌, ◌≡◌, ◌≢◌, Bytes, true, some, List, [], ◌∷◌, refl, codes, ◌++◌, inl, inr, take,
  replicate, c_str, length, arith, All,
}
use isbd_zephyr_module.Serial.Scripted.{scripted}
use isbd_zephyr_module.Stru.{streq}
use isbd_zephyr_module.Libc.Print.{Piece, render}
use isbd_zephyr_module.AtUart.Types.{ok, err, overflow}
use isbd_zephyr_module.AtUart.Code.{get_str_code}
use isbd_zephyr_module.AtUart.Command.{max_cmd_size, exec, send_cmd, send_tiny_cmd}
use isbd_zephyr_module.AtUart.Command.Exchange.{sent_cmd, send_tiny_cmd_lem}
use isbd_zephyr_module.AtUart.Command.Sent.{sent_of, send_cmd_sent}
use isbd_zephyr_module.AtUart.Parse.Response.{IsText, response}
use isbd_zephyr_module.AtUart.Parse.Skip.{code_response}
use isbd_zephyr_module.Iridium.Dte.{DteErr}
use isbd_zephyr_module.Iridium.Isu.Query.{query, command}
use isbd_zephyr_module.Iridium.Isu.Query.Answer.{answered, query_text, command_code}
use isbd_zephyr_module.Tests.Modem.{
  at_port, dte_port, script, exchange, crlf, cr, crlf-Blanks, cr-Gap,
}

abbrev imei : Bytes
imei = codes "300234010753370"

abbrev cgsn : List Piece
cgsn = exec (codes "+CGSN")

abbrev imei_answer : Bytes
imei_answer = response true b'\n' crlf imei cr crlf ok

abbrev asked : List Bytes
asked = (codes "at+CGSN" ++ b'\r' ∷ imei_answer) ∷ []

imei-IsText : IsText true 16 imei
unfolding get_str_code streq
imei-IsText = record {
  chars = ground arith;
  some_char = omega arith;
  fits = omega arith;
  no_code = refl;
}

cgsn_short : length (render cgsn) < max_cmd_size
unfolding render
cgsn_short = omega arith

no_cr : All (λ b. b ≢ b'\r') (codes "at+CGSN")
no_cr = ground arith

send_tiny_cmd_lem_example :
    send_tiny_cmd cgsn (at_port (script [] [] asked))
    ≡ (ok, sent_cmd (at_port (script [] [] asked)) (script (render cgsn) imei_answer []))
send_tiny_cmd_lem_example =
    send_tiny_cmd_lem (at_port (script [] [] asked)) cgsn imei_answer 1000
      (script (render cgsn) [] []) cgsn_short
      (exchange 1000 (render cgsn) (codes "at+CGSN") imei_answer [] no_cr)

send_cmd_sent_example :
    (n : ℕ) × (sent_of (send_cmd 4 cgsn (at_port (script [] [] asked))).1
      ≡ [] ++ take n (render cgsn))
    × (n ≤ length (render cgsn))
    × ((send_cmd 4 cgsn (at_port (script [] [] asked))).0 ≡ ok → n ≡ length (render cgsn))
    × (4 ≤ length (render cgsn)
        → ((send_cmd 4 cgsn (at_port (script [] [] asked))).0 ≡ overflow)
          × ((send_cmd 4 cgsn (at_port (script [] [] asked))).1 ≡ at_port (script [] [] asked)))
send_cmd_sent_example = send_cmd_sent 4 cgsn (at_port (script [] [] asked)) refl

query_text_example :
    (b : Bytes) × (query cgsn (some (replicate 16 0)) 16 2 1000 (dte_port (script [] [] asked)) ≡ (
      (DteErr.ok, some b),
      answered (dte_port (script [] [] asked)) 0 (script (render cgsn) [] []),
    ))
    × (c_str b ≡ imei)
    × (length b ≡ 16)
query_text_example =
    query_text (dte_port (script [] [] asked)) cgsn (replicate 16 0) crlf imei cr crlf 16 2 1000 ok
      (script (render cgsn) [] []) cgsn_short (inl refl) (omega arith) (omega arith) imei-IsText
      crlf-Blanks cr-Gap crlf-Blanks (inr refl) (inl refl)
      (exchange 1000 (render cgsn) (codes "at+CGSN") imei_answer [] no_cr)

abbrev refused : List Bytes
refused = (codes "at+CGSN" ++ b'\r' ∷ code_response true b'\n' crlf cr err) ∷ []

command_code_example :
    command cgsn 1 (dte_port (script [] [] refused))
    ≡ (DteErr.err_at, answered (dte_port (script [] [] refused)) 3 (script (render cgsn) [] []))
command_code_example =
    command_code (dte_port (script [] [] refused)) cgsn crlf cr 1 err (script (render cgsn) [] [])
      cgsn_short (inl refl) crlf-Blanks cr-Gap (inr refl)
      (exchange 1000 (render cgsn) (codes "at+CGSN") (code_response true b'\n' crlf cr err) []
        no_cr)
