-- ===== src/AtUart/Basic.antt =====
-- The basic AT commands and `at_uart_setup` of lib/at_uart/at_uart.c.
pub mod Laws
use isbd_zephyr_module.Prelude.{
  ℕ, Bool, true, false, List, if◌then◌else◌, codes, Io, ◌>>=◌, ◌>>◌, modify, gets,
}
use isbd_zephyr_module.Serial.{Serial}
use isbd_zephyr_module.Libc.Print.{Piece}
use isbd_zephyr_module.AtUart.Types.{AtErr, AtConfig, AtUart}
use isbd_zephyr_module.AtUart.Parse.{skip_resp}
use isbd_zephyr_module.AtUart.Command.{short_timeout, exec, exec_int, ret_if_err, send_tiny_cmd}

-- A C `bool` in a template.
abbrev pub flag : Bool → ℕ
flag true = 1
flag false = 0

module _ {Z : Type 0} ⦃line : Serial Z⦄ where
  -- AT_UART_SEND_TINY_CMD_OR_RET, and the one line of the response.
  unfoldable pub run_cmd : List Piece → Io (AtUart Z) AtErr
  run_cmd tmpl = do r ← send_tiny_cmd tmpl; ret_if_err r (skip_resp 1 short_timeout)

  unfoldable pub set_flow_control : ℕ → Io (AtUart Z) AtErr
  set_flow_control option = run_cmd (exec_int (codes "&k") option)

  unfoldable pub set_dtr : ℕ → Io (AtUart Z) AtErr
  set_dtr option = run_cmd (exec_int (codes "&d") option)

  unfoldable pub store_active_config : ℕ → Io (AtUart Z) AtErr
  store_active_config profile = run_cmd (exec_int (codes "&w") profile)

  unfoldable pub set_reset_profile : ℕ → Io (AtUart Z) AtErr
  set_reset_profile profile = run_cmd (exec_int (codes "&y") profile)

  unfoldable pub flush_to_eeprom : Io (AtUart Z) AtErr
  flush_to_eeprom = run_cmd (exec (codes "*f"))

  unfoldable pub set_quiet : Bool → Io (AtUart Z) AtErr
  set_quiet enable = run_cmd (exec_int (codes "q") (flag enable))

  unfoldable pub enable_echo : Bool → Io (AtUart Z) AtErr
  enable_echo enable = do
    modify (λ at_uart. record at_uart { config = record (at_uart.config) { echo = enable } })
    run_cmd (exec_int (codes "e") (flag enable))

  unfoldable pub set_verbose : Bool → Io (AtUart Z) AtErr
  set_verbose enable = do
    modify (λ at_uart. record at_uart { config = record (at_uart.config) { verbose = enable } })
    run_cmd (exec_int (codes "v") (flag enable))

  unfoldable pub three_wire_connection : Bool → Io (AtUart Z) AtErr
  three_wire_connection using = do
    let en_param : ℕ = if using then 0 else 3
    ret ← set_flow_control en_param
    ret_if_err ret (set_dtr en_param)

  -- The configuration and the end of line, before anything is sent; the result of `zuart_setup` is
  -- dropped.
  unfoldable pub configure : AtConfig → AtUart Z → AtUart Z
  configure config at_uart = record at_uart {
    config = config;
    eol = if config.verbose then b'\n' else b'\r';
    zuart = (line.setup config.zuart at_uart.zuart).1;
  }

  unfoldable pub setup : AtConfig → Io (AtUart Z) AtErr
  setup config = do
    modify (configure config)
    _ ← set_quiet false
    _ ← enable_echo config.echo
    _ ← set_verbose config.verbose
    off ← gets (λ at_uart. line.no_flow_control at_uart.zuart)
    three_wire_connection off
