-- ===== src/AtUart/Command.antt =====
-- The exchange of a command: `at_uart_write`, `at_uart_read`, `at_uart_check_echo`,
-- `at_uart_write_cmd`, `at_uart_send_cmd` of lib/at_uart/at_uart.c, and the templates of
-- lib/at_uart/inc/at.h.
pub mod Exchange
pub mod Sent
pub mod Ported
use isbd_zephyr_module.Prelude.{
  ℕ, zero, suc, Bytes, Bool, true, false, not, ◌||◌, [], ◌∷◌, List, ◌==◌, ltb, leb, if◌then◌else◌,
  length, codes, Io, ◌>>=◌, ◌>>◌, modify,
}
use isbd_zephyr_module.Serial.{Serial}
use isbd_zephyr_module.ZUart.Types.{ZuartErr}
use isbd_zephyr_module.Libc.Print.{Piece, lit, str, num, render}
use isbd_zephyr_module.AtUart.Types.{AtErr, ok, timeout, overflow, err, unk, is_ok, AtUart}

-- AT_SHORT_TIMEOUT
abbrev pub short_timeout : ℕ
short_timeout = 1000

-- AT_MAX_CMD_SIZE
abbrev pub max_cmd_size : ℕ
max_cmd_size = 256

-- GEN_AT_CMD_TMPL and the templates over it, each with its arguments.
abbrev pub template : Bytes → List Piece → List Piece
template name args = lit (codes "at") ∷ str name ∷ args

abbrev pub end_of_line : List Piece
end_of_line = lit (codes "\r") ∷ []

abbrev pub exec : Bytes → List Piece
exec name = template name end_of_line

abbrev pub exec_int : Bytes → ℕ → List Piece
exec_int name n = template name (num n ∷ end_of_line)

abbrev pub exec_str : Bytes → Bytes → List Piece
exec_str name s = template name (str s ∷ end_of_line)

abbrev pub test : Bytes → List Piece
test name = template name (lit (codes "=?") ∷ end_of_line)

abbrev pub read_value : Bytes → List Piece
read_value name = template name (lit (codes "?") ∷ end_of_line)

abbrev pub set_int : Bytes → ℕ → List Piece
set_int name n = template name (lit (codes "=") ∷ num n ∷ end_of_line)

abbrev pub set_str : Bytes → Bytes → List Piece
set_str name s = template name (lit (codes "=") ∷ str s ∷ end_of_line)

-- AT_UART_RET_IF_ERR
abbrev pub ret_if_err : {S : Type 0} → AtErr → Io S AtErr → Io S AtErr
ret_if_err ok rest = rest
ret_if_err r rest = λ s. (r, s)

-- The error of a transfer that fell short.
abbrev pub transfer_err : ZuartErr → AtErr
transfer_err ZuartErr.timeout = timeout
transfer_err _ = err

module _ {Z : Type 0} ⦃line : Serial Z⦄ where
  -- `at_uart_write`; `n_bytes` is the length of the list.
  unfoldable pub write : Bytes → ℕ → Io (AtUart Z) AtErr
  write src t at_uart =
      let (n, z) = line.write src t at_uart.zuart in
      (
        if ltb n (length src) then transfer_err (line.get_err z) else ok,
        record at_uart { zuart = z },
      )

  -- `at_uart_read`, with the bytes that reached the caller's array.
  unfoldable pub read : ℕ → ℕ → Io (AtUart Z) (AtErr × Bytes)
  read n t at_uart =
      let (got, z) = line.read n t at_uart.zuart in
      (
        (if ltb (length got) n then transfer_err (line.get_err z) else ok, got),
        record at_uart { zuart = z },
      )

  -- The loop of `at_uart_check_echo`, with a fuel above what is pending.
  unfoldable pub echo_loop : ℕ → Z → AtErr × Z
  echo_loop zero z = (timeout, z)
  echo_loop (suc fuel) z =
      let (got, z') = line.read 1 short_timeout z in
      elim got [
        | [] ↦ (timeout, z')
        | b ∷ _ ↦ elim (b == b'\r') [ true ↦ (ok, z') | false ↦ echo_loop fuel z' ]
      ]

  unfoldable pub check_echo : Io (AtUart Z) AtErr
  check_echo at_uart =
      if not at_uart.config.echo || at_uart.echoed
      then (ok, at_uart)
      else (let (code, z) = echo_loop (suc (line.pending at_uart.zuart)) at_uart.zuart in
          (code, record at_uart { echoed = true; zuart = z }))

  unfoldable pub write_cmd : Bytes → Io (AtUart Z) AtErr
  write_cmd cmd = do
    modify (λ at_uart. record at_uart { echoed = false; zuart = (line.drain at_uart.zuart).1 })
    r ← write cmd short_timeout
    ret_if_err r check_echo

  -- `at_uart_send_vcmd` with a command buffer of the given size; `vsnprintf` does not fail here.
  unfoldable pub send_cmd : ℕ → List Piece → Io (AtUart Z) AtErr
  send_cmd size tmpl at_uart =
      let cmd = render tmpl in
      if leb size (length cmd) then (overflow, at_uart) else write_cmd cmd at_uart

  -- AT_UART_SEND_TINY_CMD
  unfoldable pub send_tiny_cmd : List Piece → Io (AtUart Z) AtErr
  send_tiny_cmd tmpl = send_cmd max_cmd_size tmpl
