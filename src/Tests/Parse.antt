-- ===== src/Tests/Parse.antt =====
-- Responses that a scripted modem gives.
use isbd_zephyr_module.Prelude.{
  suc, ◌≡◌, ◌⊎◌, ◌↔◌, Bytes, true, none, some, [], ◌∷◌, refl, codes, ◌++◌, inl, inr, replicate,
  c_str, length, arith,
}
use isbd_zephyr_module.Serial.Scripted.{Script, scripted, pending_script}
use isbd_zephyr_module.Stru.{streq}
use isbd_zephyr_module.Stru.Laws.{streq_iff}
use isbd_zephyr_module.Libc.Print.{decimal}
use isbd_zephyr_module.AtUart.Types.{ok, err, unk}
use isbd_zephyr_module.AtUart.Code.{get_str_code}
use isbd_zephyr_module.AtUart.Code.Laws.{get_str_code_iff}
use isbd_zephyr_module.AtUart.Parse.{parse_resp, skip_resp, parse_loop, initial}
use isbd_zephyr_module.AtUart.Parse.Fuel.{parse_loop_fuel}
use isbd_zephyr_module.AtUart.Parse.Bounds.{Within, Terminated, parse_resp_bounds}
use isbd_zephyr_module.AtUart.Parse.Response.{IsText, response, parse_resp_text}
use isbd_zephyr_module.AtUart.Parse.Skip.{code_response, skip_resp_code}
use isbd_zephyr_module.Tests.Modem.{at_port, script, deliver_all, crlf, cr, crlf-Blanks, cr-Gap}

abbrev imei : Bytes
imei = codes "300234010753370"

imei-IsText : IsText true 16 imei
unfolding get_str_code streq
imei-IsText = record {
  chars = ground arith;
  some_char = omega arith;
  fits = omega arith;
  no_code = refl;
}

ready-IsText : IsText true 16 (codes "READY")
unfolding get_str_code streq
ready-IsText = record {
  chars = ground arith;
  some_char = omega arith;
  fits = omega arith;
  no_code = refl;
}

seven-IsText : IsText true 16 (decimal 7)
unfolding get_str_code streq decimal
seven-IsText = record {
  chars = ground arith;
  some_char = omega arith;
  fits = omega arith;
  no_code = refl;
}

abbrev imei_reply : Bytes
imei_reply = response true b'\n' crlf imei cr crlf ok

abbrev silent : Script
silent = script [] [] []

parse_resp_text_example :
    (b : Bytes) × (parse_resp (some (replicate 16 0)) 16 2 1000 (at_port (script [] imei_reply []))
      ≡ ((ok, some b), at_port silent))
    × (c_str b ≡ imei)
    × (length b ≡ 16)
parse_resp_text_example =
    parse_resp_text (at_port (script [] imei_reply [])) (replicate 16 0) crlf imei cr crlf 16 2 1000
      ok silent (inl refl) (omega arith) (omega arith) imei-IsText crlf-Blanks cr-Gap crlf-Blanks
      (inr refl) (inl refl) (deliver_all 1000 imei_reply [] [])

parse_resp_bounds_example :
    let (code, buf) =
      (parse_resp (some (replicate 8 1)) 4 2 1000 (at_port (script [] imei_reply []))).0 in
    Within 4 (replicate 8 1) buf × Terminated 4 code buf
parse_resp_bounds_example =
    parse_resp_bounds (replicate 8 1) 4 2 1000 (at_port (script [] imei_reply []))

parse_loop_fuel_example :
    parse_loop true b'\n' 16 2
      (suc (pending_script (script [] imei_reply [])))
      1000
      (initial none)
      (script [] imei_reply [])
    ≡ parse_loop true b'\n' 16 2 100 1000 (initial none) (script [] imei_reply [])
parse_loop_fuel_example =
    parse_loop_fuel true b'\n' 16 2 (suc (pending_script (script [] imei_reply []))) 100 1000
      (initial none) (script [] imei_reply []) (omega arith) (omega arith)

get_str_code_iff_example :
    ((get_str_code true (codes "OK") ≡ ok) ↔ (c_str (codes "OK") ≡ codes "OK"))
    × ((get_str_code true (codes "OK") ≡ err) ↔ (c_str (codes "OK") ≡ codes "ERROR"))
    × ((get_str_code true (codes "OK") ≡ ok)
        ⊎ (get_str_code true (codes "OK") ≡ err)
        ⊎ (get_str_code true (codes "OK") ≡ unk))
get_str_code_iff_example = get_str_code_iff true (codes "OK")

streq_iff_example :
    (streq (codes "OK") (codes "OK" ++ 0 ∷ codes "x") ≡ true) ↔ (codes "OK" ≡ codes "OK")
streq_iff_example = streq_iff (codes "OK") (codes "OK" ++ 0 ∷ codes "x")

abbrev error_reply : Bytes
error_reply = code_response true b'\n' crlf cr err

skip_resp_code_example :
    skip_resp 1 1000 (at_port (script [] error_reply [])) ≡ (err, at_port silent)
skip_resp_code_example =
    skip_resp_code (at_port (script [] error_reply [])) crlf cr 1 1000 err silent (inl refl)
      crlf-Blanks cr-Gap (inr refl) (deliver_all 1000 error_reply [] [])
