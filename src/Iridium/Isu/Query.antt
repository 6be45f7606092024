-- ===== src/Iridium/Isu/Query.antt =====
-- The commands of lib/iridium/isu.c that set something or ask for a text, and their common shapes.
pub mod Answer
use isbd_zephyr_module.Prelude.{
  ℕ, ◌*◌, ◌%◌, ◌^◌, Bytes, Bool, List, Option, none, some, if◌then◌else◌, codes, Io, ◌>>=◌, ◌>>◌,
  pure,
}
use isbd_zephyr_module.Serial.{Serial}
use isbd_zephyr_module.Libc.Print.{Piece}
use isbd_zephyr_module.AtUart.Types.{AtErr, at_err_value}
use isbd_zephyr_module.AtUart.Parse.{parse_resp, skip_resp}
use isbd_zephyr_module.AtUart.Command.{exec, set_int, set_str}
use isbd_zephyr_module.Iridium.Dte.{DteErr, Dte, on_at, set_err, ok_or, or_ret, dte_send_tiny_cmd}

-- SHORT_TIMEOUT_RESPONSE and LONG_TIMEOUT_RESPONSE
abbrev pub short_response : ℕ
short_response = 1000

abbrev pub long_response : ℕ
long_response = 60 * 1000

-- `isu_mt_alert_t`
pub data MtAlert : Type 0 where
  enabled disabled : MtAlert

abbrev pub mt_alert_value : MtAlert → ℕ
mt_alert_value enabled = 1
mt_alert_value disabled = 0

module _ {Z : Type 0} ⦃line : Serial Z⦄ where
  -- A command whose response is a text for the caller's array.
  unfoldable pub query : List Piece → Option Bytes → ℕ → ℕ → ℕ → Io (Dte Z) (DteErr × Option Bytes)
  query tmpl buf size lines t = do
    sent ← dte_send_tiny_cmd tmpl
    or_ret (λ e. (e, buf)) sent
        (do
          r ← on_at (parse_resp buf size lines t)
          set_err (at_err_value r.0)
          pure (ok_or DteErr.err_at r.0, r.1))

  -- A command with no response but its result code.
  unfoldable pub command : List Piece → ℕ → Io (Dte Z) DteErr
  command tmpl lines = do
    sent ← dte_send_tiny_cmd tmpl
    or_ret (λ e. e) sent
        (do
          code ← on_at (skip_resp lines short_response)
          set_err (at_err_value code)
          pure (ok_or DteErr.err_at code))

  -- A size of type `size_t` is cut to the 16 bits of `at_uart_parse_resp`'s parameter.
  unfoldable pub get_imei : Option Bytes → ℕ → Io (Dte Z) (DteErr × Option Bytes)
  get_imei buf size = query (exec (codes "+CGSN")) buf (size % 2 ^ 16) 2 short_response

  unfoldable pub get_revision : Option Bytes → ℕ → Io (Dte Z) (DteErr × Option Bytes)
  get_revision buf size = query (exec (codes "+CGMR")) buf (size % 2 ^ 16) 0 short_response

  unfoldable pub get_rtc : Option Bytes → ℕ → Io (Dte Z) (DteErr × Option Bytes)
  get_rtc buf size = query (exec (codes "+CCLK")) buf (size % 2 ^ 16) 2 short_response

  unfoldable pub mo_to_mt : Option Bytes → ℕ → Io (Dte Z) (DteErr × Option Bytes)
  mo_to_mt out size = query (exec (codes "+SBDTC")) out size 2 short_response

  unfoldable pub set_mo_txt : Bytes → Io (Dte Z) DteErr
  set_mo_txt txt = command (set_str (codes "+SBDWT") txt) 2

  unfoldable pub set_mt_alert : MtAlert → Io (Dte Z) DteErr
  set_mt_alert alert = command (set_int (codes "+SBDMTA") (mt_alert_value alert)) 1
