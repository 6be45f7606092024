-- ===== src/Iridium/Evt.antt =====
-- lib/iridium/evt.c: the events that the ISU sends by itself.
pub mod Announce
use isbd_zephyr_module.Prelude.{
  ℕ, ◌%◌, ◌^◌, Bytes, Bool, true, false, [], ◌∷◌, List, Option, none, some, ◌==◌, if◌then◌else◌,
  codes, replicate, Io, ◌>>=◌, ◌>>◌, pure,
}
use isbd_zephyr_module.Serial.{Serial}
use isbd_zephyr_module.Stru.{streq}
use isbd_zephyr_module.Libc.Scan.{Directive, char, unsigned, chars, sscanf}
use isbd_zephyr_module.AtUart.Types.{AtErr, at_err_value}
use isbd_zephyr_module.AtUart.Parse.{parse_resp, array}
use isbd_zephyr_module.Iridium.Dte.{DteErr, Dte, on_at, set_err}

-- `isu_dte_evt_t`: the identifier with the member of the union that goes with it.
pub data Evt : Type 0 where
  unk ring : Evt
  sigq svca : ℕ → Evt
  areg : ℕ → ℕ → Evt

abbrev pub is_known : Evt → Bool
is_known unk = false
is_known _ = true

-- Two numbers of a byte behind a prefix, `"+NAME:%hhu,%hhu"`.
abbrev pub two_bytes : Bytes → List Directive
two_bytes prefix = chars prefix (unsigned 8 ∷ char b',' ∷ unsigned 8 ∷ [])

ciev_event : List ℕ → Evt
ciev_event (evt ∷ val ∷ []) = if evt == 0 then sigq val else if evt == 1 then svca val else unk
ciev_event _ = unk

-- The event that `_evt_parse_ciev` leaves; it returns true if that is known.
unfoldable pub parse_ciev : Bytes → Evt
unfolding ciev_event
parse_ciev buf = ciev_event (sscanf (two_bytes (codes "+CIEV:")) buf)

areg_event : List ℕ → Evt
areg_event (evt ∷ err ∷ []) = areg evt err
areg_event _ = unk

unfoldable pub parse_areg : Bytes → Evt
unfolding areg_event
parse_areg buf = areg_event (sscanf (two_bytes (codes "+AREG:")) buf)

unfoldable pub parse_ring : Bool → Bytes → Evt
parse_ring verbose buf =
    if streq buf (if verbose then codes "SBDRING" else codes "126") then ring else unk

-- The parsers in order, until one knows the event.
unfoldable pub parse_event : Bool → Bytes → Evt
parse_event verbose buf =
    if is_known (parse_ciev buf)
    then parse_ciev buf
    else if is_known (parse_areg buf)
    then parse_areg buf
    else parse_ring verbose buf

-- The result behind the code of the response: an event is a line that is no result code.
unfoldable pub wait_result : Bool → AtErr → Bytes → DteErr × Evt
wait_result verbose AtErr.unk buf =
    let evt = parse_event verbose buf in (if is_known evt then DteErr.ok else DteErr.err_unk, evt)
wait_result verbose AtErr.ok buf = (DteErr.err_unk, unk)
wait_result verbose _ buf = (DteErr.err_at, unk)

module _ {Z : Type 0} ⦃line : Serial Z⦄ where
  -- The timeout is cut to the 16 bits of `at_uart_parse_resp`'s parameter. `buf`, which the code does not
  -- initialise, starts as zeros: the parser writes it from the start of a line on, so what it held before
  -- can be read only behind lines of null bytes.
  unfoldable pub evt_wait : ℕ → Io (Dte Z) (DteErr × Evt)
  evt_wait timeout_ms dte =
      let verbose = dte.at_uart.config.verbose in
      let ((code, buf), dte') =
        on_at (parse_resp (some (replicate 32 0)) 32 1 (timeout_ms % 2 ^ 16)) dte in
      (wait_result verbose code (array buf), record dte' { err = at_err_value code })
