-- ===== src/Iridium/Isu/Report.antt =====
-- `isu_set_evt_report` of lib/iridium/isu.c.
pub mod Events
use isbd_zephyr_module.Prelude.{
  ℕ, zero, suc, ◌+◌, ◌-◌, ◌*◌, ◌%◌, ◌^◌, Bytes, ◌++◌, [], ◌∷◌, List, Option, none, some, ltb,
  if◌then◌else◌, codes, Io, ◌>>=◌, ◌>>◌, pure,
}
use isbd_zephyr_module.Serial.{Serial}
use isbd_zephyr_module.Libc.Print.{Piece, lit, str, render, decimal}
use isbd_zephyr_module.AtUart.Types.{AtErr, at_err_value}
use isbd_zephyr_module.AtUart.Parse.{skip_resp}
use isbd_zephyr_module.AtUart.Command.{set_str}
use isbd_zephyr_module.Iridium.Dte.{DteErr, Dte, on_at, set_err, or_ret, dte_send_tiny_cmd}
use isbd_zephyr_module.Iridium.Evt.{Evt, evt_wait}
use isbd_zephyr_module.Iridium.Isu.Query.{short_response}

-- `isu_evt_report_t`
pub record EvtReport : Type 0 where
  pub mode : ℕ
  pub signal : ℕ
  pub service : ℕ

-- `%hhd` of a `uint8_t`: its byte read as a signed number.
unfoldable pub signed_byte : ℕ → Bytes
signed_byte n = if ltb n 128 then decimal n else codes "-" ++ decimal (256 - n)

-- It has at most 14 characters, so it fits the array of 16.
unfoldable pub report_text : EvtReport → Bytes
report_text r =
    signed_byte r.mode
    ++ (codes "," ++ (signed_byte r.signal ++ (codes "," ++ signed_byte r.service)))

-- Lines 373 to 377: what the event stores through the pointers, which may be null.
unfoldable pub store_event : Evt → Option ℕ × Option ℕ → Option ℕ × Option ℕ
store_event (Evt.sigq v) (some _, svca) = (some v, svca)
store_event (Evt.svca v) (sigq, some _) = (sigq, some v)
store_event _ out = out

module _ {Z : Type 0} ⦃line : Serial Z⦄ where
  -- The loop over the events that are still to come.
  unfoldable pub await_events : ℕ → Option ℕ × Option ℕ → Io (Dte Z) (DteErr × Option ℕ × Option ℕ)
  await_events zero (sigq, svca) dte = ((DteErr.ok, sigq, svca), dte)
  await_events (suc events) (sigq, svca) dte =
      let ((e, evt), dte') = evt_wait short_response dte in
      elim e [
        | DteErr.ok ↦ await_events events (store_event evt (sigq, svca)) dte'
        | other ↦ ((other, sigq, svca), dte')
      ]

  -- Lines 360 to 393.
  unfoldable pub report_events :
      AtErr → EvtReport → Option ℕ × Option ℕ → Io (Dte Z) (DteErr × Option ℕ × Option ℕ)
  report_events AtErr.ok report out =
      await_events (report.mode * (report.service + report.signal) % 2 ^ 8) out
  report_events e report (sigq, svca) = do
    set_err (at_err_value e)
    pure (DteErr.err_at, sigq, svca)

  unfoldable pub set_evt_report :
      EvtReport → Option ℕ × Option ℕ → Io (Dte Z) (DteErr × Option ℕ × Option ℕ)
  set_evt_report report (sigq, svca) = do
    sent ← dte_send_tiny_cmd (set_str (codes "+CIER") (report_text report))
    or_ret (λ e. (e, sigq, svca)) sent
        (do at_err ← on_at (skip_resp 1 short_response); report_events at_err report (sigq, svca))
