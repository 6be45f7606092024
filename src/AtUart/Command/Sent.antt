-- ===== src/AtUart/Command/Sent.antt =====
-- What a command puts on the line.
use isbd_zephyr_module.Prelude.{
  ℕ, zero, suc, ◌≤◌, ◌≡◌, Bytes, Bool, true, false, ◌++◌, length, List, take, append-nil,
  List-cases, inl, inr, arith, refl, ap, ◌∙◌, leb, Bool-cases,
}
use isbd_zephyr_module.Serial.{Serial}
use isbd_zephyr_module.Libc.Print.{Piece, render}
use isbd_zephyr_module.AtUart.Types.{AtErr, ok, timeout, overflow, err, unk, AtUart}
use isbd_zephyr_module.AtUart.Parse.{Parser, parse_loop, parse_byte, Step-cases}
use isbd_zephyr_module.AtUart.Command.{
  short_timeout, echo_loop, check_echo, write, write_cmd, send_cmd, ret_if_err,
}

module _ {Z : Type 0} ⦃line : Serial Z⦄ where
  -- The bytes written so far.
  abbrev pub sent_of : AtUart Z → Bytes
  sent_of at_uart = line.sent at_uart.zuart

  sent-echo_loop : (fuel : ℕ) (z : Z) → line.sent (echo_loop fuel z).1 ≡ line.sent z
  unfolding echo_loop
  sent-echo_loop zero z = refl
  sent-echo_loop (suc fuel) z = elim (List-cases (line.read 1 short_timeout z).0) [
    | inl e ↦ ground (arith, line.sent-read 1 short_timeout z)
    | inr (b, bs, e) ↦ ground (
      arith,
      line.sent-read 1 short_timeout z,
      sent-echo_loop fuel (line.read 1 short_timeout z).1,
    )
  ]

  sent-check_echo : (at_uart : AtUart Z) → sent_of (check_echo at_uart).1 ≡ sent_of at_uart
  unfolding check_echo
  sent-check_echo at_uart =
      ground (arith, sent-echo_loop (suc (line.pending at_uart.zuart)) at_uart.zuart)

  pub sent-parse_loop :
      (verbose : Bool) (eol size lines fuel t : ℕ) (p : Parser) (z : Z)
      → line.sent (parse_loop verbose eol size lines fuel t p z).1 ≡ line.sent z
  unfolding parse_loop
  sent-parse_loop verbose eol size lines zero t p z = refl
  sent-parse_loop verbose eol size lines (suc fuel) t p z = elim (List-cases (line.read 1 t z).0) [
    | inl e ↦ ground (arith, line.sent-read 1 t z)
    | inr (b, bs, e) ↦ elim (Step-cases (parse_byte verbose eol size lines p b)) [
      | inl (q, s) ↦ ground (
        arith,
        line.sent-read 1 t z,
        sent-parse_loop verbose eol size lines fuel t q (line.read 1 t z).1,
      )
      | inr (c, a, s) ↦ ground (arith, line.sent-read 1 t z)
    ]
  ]

  -- `at_uart_write` hands over a prefix of the bytes, all of them exactly if it returns OK.
  pub write_sent :
      (src : Bytes) (t : ℕ) (at_uart : AtUart Z)
      → line.in_order at_uart.zuart ≡ true
      → let (r, at_uart') = write src t at_uart in
        (n : ℕ) × (sent_of at_uart' ≡ sent_of at_uart ++ take n src)
        × (n ≤ length src)
        × (r ≡ ok → n ≡ length src)
        × (n ≡ length src → r ≡ ok)
  unfolding write
  write_sent src t at_uart o = (
    (line.write src t at_uart.zuart).0,
    line.sent-write src t at_uart.zuart o,
    line.write_le src t at_uart.zuart,
    ground (arith, line.write_le src t at_uart.zuart),
    ground arith,
  )

  -- The echo, if it is read at all, comes behind the command.
  abbrev checked : AtErr → AtUart Z → AtErr × AtUart Z
  checked r at_uart = ret_if_err r check_echo at_uart

  checked_sent :
      (r : AtErr) (at_uart : AtUart Z)
      → (sent_of (checked r at_uart).1 ≡ sent_of at_uart) × ((checked r at_uart).0 ≡ ok → r ≡ ok)
  checked_sent ok at_uart = (sent-check_echo at_uart, λ e. refl)
  checked_sent timeout at_uart = (refl, λ e. e)
  checked_sent overflow at_uart = (refl, λ e. e)
  checked_sent err at_uart = (refl, λ e. e)
  checked_sent unk at_uart = (refl, λ e. e)

  -- What `at_uart_write_cmd` puts on the line: a prefix of the command, the whole of it if the result
  -- is OK.
  write_cmd_sent :
      (cmd : Bytes) (at_uart : AtUart Z)
      → line.in_order at_uart.zuart ≡ true
      → let (r, at_uart') = write_cmd cmd at_uart in
        (n : ℕ) × (sent_of at_uart' ≡ sent_of at_uart ++ take n cmd)
        × (n ≤ length cmd)
        × (r ≡ ok → n ≡ length cmd)
  unfolding write_cmd
  write_cmd_sent cmd at_uart h =
      let fresh : AtUart Z = record at_uart {
        echoed = false;
        zuart = (line.drain at_uart.zuart).1;
      } in
      let (n, s, le, whole, _) =
        write_sent cmd short_timeout fresh (line.in_order-drain at_uart.zuart h) in
      let w = write cmd short_timeout fresh in
      let (c, o) = checked_sent w.0 w.1 in
      (n, c ∙ s ∙ ap (λ t. t ++ take n cmd) (line.sent-drain at_uart.zuart), le, λ e. whole (o e))

  -- On a port where no write overtakes another, a command that does not fit its buffer is refused with an
  -- overflow and nothing is done; of any other a prefix goes to the line, and the whole of it where the
  -- result is OK.
  pub send_cmd_sent :
      (size : ℕ) (tmpl : List Piece) (at_uart : AtUart Z)
      → line.in_order at_uart.zuart ≡ true
      → let (r, at_uart') = send_cmd size tmpl at_uart in
        (n : ℕ) × (sent_of at_uart' ≡ sent_of at_uart ++ take n (render tmpl))
        × (n ≤ length (render tmpl))
        × (r ≡ ok → n ≡ length (render tmpl))
        × (size ≤ length (render tmpl) → (r ≡ overflow) × (at_uart' ≡ at_uart))
  unfolding send_cmd
  send_cmd_sent size tmpl at_uart o = elim (Bool-cases (leb size (length (render tmpl)))) [
    | inl e ↦ rw e (0, rw append-nil, omega arith, λ p. cc, λ _. (refl, refl))
    | inr e ↦
        let (n, s, le, whole) = write_cmd_sent (render tmpl) at_uart o in
        rw e (n, s, le, whole, λ h. absurd (ground arith))
  ]
