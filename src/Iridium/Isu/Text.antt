-- ===== src/Iridium/Isu/Text.antt =====
-- `isu_get_mt_txt` of lib/iridium/isu.c.
use isbd_zephyr_module.Prelude.{
  ℕ, ◌+◌, ◌-◌, ◌%◌, ◌^◌, Bytes, Bool, true, false, ◌&&◌, some, ◌==◌, if◌then◌else◌, codes, length,
  get_or, set, c_str, Io, ◌>>=◌, ◌>>◌, pure, gets,
}
use isbd_zephyr_module.Serial.{Serial}
use isbd_zephyr_module.AtUart.Types.{AtErr, is_unk, at_err_value, AtUart}
use isbd_zephyr_module.AtUart.Parse.{parse_resp, skip_resp, array}
use isbd_zephyr_module.AtUart.Command.{exec}
use isbd_zephyr_module.Iridium.Dte.{DteErr, Dte, on_at, set_err, ok_or, or_ret, dte_send_tiny_cmd}
use isbd_zephyr_module.Iridium.Isu.Query.{short_response}

-- Lines 308 to 313: the index of the last character, in 16 bits, and the text without it if it is
-- the result code `0`.
unfoldable pub cut_code : AtErr → Bytes → AtErr × Bytes
cut_code code mem =
    let len = (length (c_str mem) + (2 ^ 16 - 1)) % 2 ^ 16 in
    if is_unk code && get_or mem len 0 == b'0' then (AtErr.ok, set mem len 0) else (code, mem)

module _ {Z : Type 0} ⦃line : Serial Z⦄ where
  -- Lines 286 to 315, behind the line of the text; the flag is `dte->config.at_uart.verbose`.
  unfoldable pub txt_code : Bool → AtErr → Bytes → Io (AtUart Z) (AtErr × Bytes)
  txt_code true code mem = do code' ← skip_resp 1 short_response; pure (code', mem)
  txt_code false code mem = pure (cut_code code mem)

  unfoldable pub get_mt_txt : Bytes → ℕ → Io (Dte Z) (DteErr × Bytes)
  get_mt_txt mem size = do
    sent ← dte_send_tiny_cmd (exec (codes "+SBDRT"))
    or_ret (λ e. (e, mem)) sent
        (do
          _ ← on_at (skip_resp 1 short_response)
          r ← on_at (parse_resp (some mem) (size % 2 ^ 16) 1 short_response)
          verbose ← gets (λ dte. dte.config.at_uart.verbose)
          c ← on_at (txt_code verbose r.0 (array r.1))
          set_err (at_err_value c.0)
          pure (ok_or DteErr.err_at c.0, c.1))
