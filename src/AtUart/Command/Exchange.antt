-- ===== src/AtUart/Command/Exchange.antt =====
-- A command that the other end accepts, echoes and answers.
use isbd_zephyr_module.Prelude.{
  ℕ, zero, suc, ◌<◌, ◌≡◌, ◌≢◌, Bytes, true, false, ap, ◌∙◌, [], ◌∷◌, ◌++◌, length, length-append,
  All, List, if◌then◌else◌, arith, inl, inr, Bool-cases,
}
use isbd_zephyr_module.Serial.{Serial}
use isbd_zephyr_module.Serial.Delivery.{
  Delivers, length-le-pending, sent-Delivers, in_order-Delivers, sent-write_whole,
}
use isbd_zephyr_module.Libc.Print.{Piece, render}
use isbd_zephyr_module.AtUart.Types.{ok, AtUart}
use isbd_zephyr_module.AtUart.Command.{
  short_timeout, max_cmd_size, echo_loop, check_echo, write, write_cmd, send_cmd, send_tiny_cmd,
}

module _ {Z : Type 0} ⦃line : Serial Z⦄ where
  -- From `at_uart` the line takes the whole command, sends an echo if one is configured, and then
  -- delivers `reply`, each in time, and is left at `z'`.
  pub record Exchange (at_uart : AtUart Z) (cmd reply : Bytes) (t : ℕ) (z' : Z) : Type 0 where
    pub accepted : (line.write cmd short_timeout (line.drain at_uart.zuart).1).0 ≡ length cmd
    pub echo : Bytes
    pub echo_chars : All (λ b. b ≢ b'\r') echo
    pub middle : Z
    pub echoes :
        Delivers short_timeout
          (if at_uart.config.echo then echo ++ b'\r' ∷ [] else [])
          (line.write cmd short_timeout (line.drain at_uart.zuart).1).1
          middle
    pub replies : Delivers t reply middle z'

  -- An exchange puts the command on the line and nothing else, and leaves the order of writes.
  pub sent-Exchange :
      (at_uart : AtUart Z) (cmd reply : Bytes) (t : ℕ) (z' : Z)
      → line.in_order at_uart.zuart ≡ true
      → Exchange at_uart cmd reply t z'
      → line.sent z' ≡ line.sent at_uart.zuart ++ cmd
  sent-Exchange at_uart cmd reply t z' o x =
      let z₀ = (line.drain at_uart.zuart).1 in
      let z₁ = (line.write cmd short_timeout z₀).1 in
      sent-Delivers t reply x.middle z' x.replies
      ∙ sent-Delivers short_timeout _ z₁ x.middle x.echoes
      ∙ sent-write_whole cmd short_timeout z₀ (line.in_order-drain at_uart.zuart o) x.accepted
      ∙ ap (λ s. s ++ cmd) (line.sent-drain at_uart.zuart)

  pub in_order-Exchange :
      (at_uart : AtUart Z) (cmd reply : Bytes) (t : ℕ) (z' : Z)
      → line.in_order at_uart.zuart ≡ true
      → Exchange at_uart cmd reply t z'
      → line.in_order z' ≡ true
  in_order-Exchange at_uart cmd reply t z' o x =
      let z₀ = (line.drain at_uart.zuart).1 in
      let z₁ = (line.write cmd short_timeout z₀).1 in
      in_order-Delivers t reply x.middle z' x.replies (
        in_order-Delivers short_timeout _ z₁ x.middle x.echoes
          (line.in_order-write cmd short_timeout z₀ (line.in_order-drain at_uart.zuart o)))

  pub echo_loop_lem :
      (fuel : ℕ) (echo : Bytes) (z z' : Z)
      → length echo < fuel
      → All (λ b. b ≢ b'\r') echo
      → Delivers short_timeout (echo ++ b'\r' ∷ []) z z'
      → echo_loop fuel z ≡ (ok, z')
  unfolding echo_loop
  echo_loop_lem zero echo z z' h a d = elim h [ ]
  echo_loop_lem (suc fuel) [] z z' h a (m, e, d) = ground arith
  echo_loop_lem (suc fuel) (b ∷ echo) z z' h (n, a) (m, e, d) =
      ground (arith, echo_loop_lem fuel echo m z')

  -- The structure behind an exchange's command, up to the reply.
  abbrev pub sent_cmd : AtUart Z → Z → AtUart Z
  sent_cmd at_uart m = record at_uart { echoed = at_uart.config.echo; zuart = m }

  check_echo_lem :
      (at_uart : AtUart Z) (echo : Bytes) (z m : Z)
      → All (λ b. b ≢ b'\r') echo
      → Delivers short_timeout (if at_uart.config.echo then echo ++ b'\r' ∷ [] else []) z m
      → check_echo (record at_uart { echoed = false; zuart = z }) ≡ (ok, sent_cmd at_uart m)
  unfolding check_echo
  check_echo_lem at_uart echo z m a d = elim (Bool-cases at_uart.config.echo) [
    | inl e ↦
        let d' : Delivers short_timeout (echo ++ b'\r' ∷ []) z m = rw e at d in
        let loop =
          echo_loop_lem (suc (line.pending z)) echo z m
            (omega (
              arith,
              length-le-pending short_timeout (echo ++ b'\r' ∷ []) z m d',
              length-append echo (b'\r' ∷ []),
            ))
            a d' in
        ground (arith, loop)
    | inr e ↦ let d' : z ≡ m = rw e at d in ground arith
  ]

  -- Such a command is written, its echo is read, and the reply is still to come.
  pub write_cmd_lem :
      (at_uart : AtUart Z) (cmd reply : Bytes) (t : ℕ) (z' : Z)
      → (x : Exchange at_uart cmd reply t z')
      → write_cmd cmd at_uart ≡ (ok, sent_cmd at_uart x.middle)
  unfolding write_cmd write
  write_cmd_lem at_uart cmd reply t z' x =
      let z = (line.write cmd short_timeout (line.drain at_uart.zuart).1).1 in
      ground (arith, x.accepted, check_echo_lem at_uart x.echo z x.middle x.echo_chars x.echoes)

  -- Where the command is shorter than its buffer and the other end takes it whole, sends the echo that
  -- is configured and then the reply, each in time, sending the command returns OK: the command has been
  -- written, its echo has been read, and nothing of the reply.
  pub send_tiny_cmd_lem :
      (at_uart : AtUart Z) (tmpl : List Piece) (reply : Bytes) (t : ℕ) (z' : Z)
      → length (render tmpl) < max_cmd_size
      → (x : Exchange at_uart (render tmpl) reply t z')
      → send_tiny_cmd tmpl at_uart ≡ (ok, sent_cmd at_uart x.middle)
  unfolding send_tiny_cmd send_cmd
  send_tiny_cmd_lem at_uart tmpl reply t z' h x =
      ground (arith, write_cmd_lem at_uart (render tmpl) reply t z' x)
