-- ===== src/AtUart/Code.antt =====
-- `at_uart_get_str_code` and `at_uart_err_to_name` of lib/at_uart/at_uart.c.
pub mod Laws
use isbd_zephyr_module.Prelude.{Bytes, Bool, true, false, codes, if◌then◌else◌}
use isbd_zephyr_module.Stru.{streq}
use isbd_zephyr_module.AtUart.Types.{AtErr, ok, timeout, overflow, err, unk}

-- Of the structure it reads only `config.verbose`.
unfoldable pub get_str_code : Bool → Bytes → AtErr
get_str_code true buf =
    if streq buf (codes "OK") then ok else if streq buf (codes "ERROR") then err else unk
get_str_code false buf =
    if streq buf (codes "0") then ok else if streq buf (codes "4") then err else unk

unfoldable pub err_to_name : AtErr → Bytes
err_to_name ok = codes "AT_UART_OK"
err_to_name err = codes "AT_UART_ERROR"
err_to_name overflow = codes "AT_UART_OVERFLOW"
err_to_name timeout = codes "AT_UART_TIMEOUT"
err_to_name unk = codes "AT_UART_UNKNOWN"
