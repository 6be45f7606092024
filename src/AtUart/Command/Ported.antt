-- ===== src/AtUart/Command/Ported.antt =====
-- A command of lib/at_uart over a port of lib/zuart.
use isbd_zephyr_module.Prelude.{ℕ, ◌≤◌, ◌≡◌, true, ◌++◌, length, List, take, take-length, ap, ◌∙◌}
use isbd_zephyr_module.Libc.Print.{Piece, render}
use isbd_zephyr_module.AtUart.Types.{ok, AtUart}
use isbd_zephyr_module.AtUart.Command.{send_cmd}
use isbd_zephyr_module.AtUart.Command.Sent.{send_cmd_sent}
use isbd_zephyr_module.ZUart.Kernel.{RingBuf, Sem, Uart}
use isbd_zephyr_module.ZUart.Port.{Port}
use isbd_zephyr_module.ZUart.Served.{port_in_order}
use isbd_zephyr_module.ZUart.Writes.{outgoing}
use isbd_zephyr_module.ZUart.Line.{port_line}

module _ {R S D : Type 0} ⦃ring : RingBuf R⦄ ⦃sem : Sem S⦄ ⦃uart : Uart D⦄ where
  -- Over a port of lib/zuart that writes by interrupts, or by polling with nothing left to be sent by
  -- interrupts, whatever interrupts come meanwhile: `at_uart_send_cmd` puts a prefix of the command, in
  -- order, behind all bytes that are on the line or wait in the transmission buffer; where it returns OK,
  -- the command goes out whole.
  pub send_cmd_ported :
      (size : ℕ) (tmpl : List Piece) (u : AtUart (Port R S D))
      → port_in_order u.zuart ≡ true
      → let (r, u') = send_cmd size tmpl u in
        (n : ℕ) × (outgoing u'.zuart ≡ outgoing u.zuart ++ take n (render tmpl))
        × (n ≤ length (render tmpl))
        × (r ≡ ok → outgoing u'.zuart ≡ outgoing u.zuart ++ render tmpl)
  send_cmd_ported size tmpl u o =
      let (n, e, l, w, _) = send_cmd_sent size tmpl u o in
      (
        n,
        e,
        l,
        λ h.
            e
            ∙ ap (λ k. outgoing u.zuart ++ take k (render tmpl)) (w h)
            ∙ ap (λ s. outgoing u.zuart ++ s) (take-length (render tmpl)),
      )
