-- ===== src/Tests/Buffer.antt =====
-- Clearing a buffer of a scripted modem, and a modem that refuses a message.
use isbd_zephyr_module.Prelude.{◌≡◌, ◌⊎◌, ◌++◌, ◌∷◌, [], Bytes, true, refl, codes, inl, arith}
use isbd_zephyr_module.Serial.Scripted.{Script, scripted}
use isbd_zephyr_module.Stru.{streq}
use isbd_zephyr_module.Libc.Print.{render, decimal}
use isbd_zephyr_module.AtUart.Types.{ok, err, at_err_value}
use isbd_zephyr_module.AtUart.Code.{get_str_code}
use isbd_zephyr_module.AtUart.Parse.Response.{IsText}
use isbd_zephyr_module.AtUart.Parse.Single.{line_response}
use isbd_zephyr_module.AtUart.Parse.Skip.{code_response}
use isbd_zephyr_module.Iridium.Dte.{DteErr, Dte}
use isbd_zephyr_module.Iridium.Isu.Query.Answer.{answered}
use isbd_zephyr_module.Iridium.Isu.Binary.{mo_mt_buff, clear_buffer, set_mo}
use isbd_zephyr_module.Iridium.Isu.Binary.SetMo.{sbdwb_cmd}
use isbd_zephyr_module.Iridium.Isu.Binary.Refuse.{set_mo_refused}
use isbd_zephyr_module.Iridium.Isu.Binary.Clear.{sbdd_cmd, Coded, clear_buffer_cases}
use isbd_zephyr_module.Tests.Modem.{
  dte_port, script, deliver_all, exchange_more, crlf, cr, crlf-Blanks, cr-Gap,
}

abbrev cmd : Bytes
cmd = render (sbdd_cmd mo_mt_buff)

abbrev one_line : Bytes
one_line = line_response b'\n' crlf (decimal 1) cr

abbrev ok_line : Bytes
ok_line = code_response true b'\n' crlf cr ok

-- A modem that fails to clear its buffers.
abbrev keeper : Dte Script
keeper = dte_port (script [] [] ((codes "at+SBDD2" ++ b'\r' ∷ (one_line ++ ok_line)) ∷ []))

one-IsText : IsText true 16 (decimal 1)
unfolding get_str_code streq decimal
one-IsText = record {
  chars = ground arith;
  some_char = omega arith;
  fits = omega arith;
  no_code = refl;
}

clears : Coded keeper cmd 1 ok (script cmd [] [])
clears = record {
  pre = crlf;
  gap = cr;
  pre_blank = crlf-Blanks;
  gap_blank = cr-Gap;
  coded = script cmd ok_line [];
  code_text = inl one-IsText;
  codes_it = exchange_more 1000 cmd (codes "at+SBDD2") one_line ok_line [] (ground arith);
  ends = deliver_all 1000 ok_line cmd [];
}

clear_buffer_cases_example :
    (scripted.sent (script cmd [] []) ≡ scripted.sent keeper.at_uart.zuart ++ cmd)
    × (((ok ≡ ok)
          × (clear_buffer 9 mo_mt_buff keeper
              ≡ (DteErr.err_cmd, answered keeper 1 (script cmd [] []))))
        ⊎ ((ok ≡ err)
            × (clear_buffer 9 mo_mt_buff keeper
                ≡ (DteErr.err_at, answered keeper (at_err_value err) (script cmd [] [])))))
clear_buffer_cases_example =
    clear_buffer_cases 9 keeper mo_mt_buff 1 ok (script cmd [] []) (inl refl) refl (inl refl) clears

-- A modem that does not want a message of five bytes.
abbrev length_cmd : Bytes
length_cmd = render (sbdwb_cmd (codes "hello"))

abbrev refuser : Dte Script
refuser = dte_port (script [] [] ((codes "at+SBDWB=5" ++ b'\r' ∷ (one_line ++ ok_line)) ∷ []))

refuses : Coded refuser length_cmd 1 ok (script length_cmd [] [])
refuses = record {
  pre = crlf;
  gap = cr;
  pre_blank = crlf-Blanks;
  gap_blank = cr-Gap;
  coded = script length_cmd ok_line [];
  code_text = inl one-IsText;
  codes_it = exchange_more 1000 length_cmd (codes "at+SBDWB=5") one_line ok_line [] (ground arith);
  ends = deliver_all 1000 ok_line length_cmd [];
}

set_mo_refused_example :
    (scripted.sent (script length_cmd [] []) ≡ scripted.sent refuser.at_uart.zuart ++ length_cmd)
    × (((ok ≡ ok)
          × (set_mo 9 (codes "hello") refuser
              ≡ (DteErr.err_cmd, answered refuser 1 (script length_cmd [] []))))
        ⊎ ((ok ≡ err)
            × (set_mo 9 (codes "hello") refuser
                ≡ (DteErr.err_at, answered refuser (at_err_value err) (script length_cmd [] [])))))
set_mo_refused_example =
    set_mo_refused 9 refuser (codes "hello") 1 ok (script length_cmd [] []) (inl refl) (omega arith)
      refl (inl refl) refuses
