-- ===== src/Iridium/Evt/Announce.antt =====
-- The lines by which the ISU announces events, and what `isu_dte_evt_wait` makes of them.
use isbd_zephyr_module.Prelude.{
  ℕ, ◌<◌, ◌≡◌, ◌^◌, ◌%◌, Bytes, Bool, true, false, [], ◌∷◌, ◌++◌, length-replicate, replicate,
  c_str, arith, refl, ap, ◌∙◌, codes, if◌then◌else◌,
}
use isbd_zephyr_module.Serial.{Serial}
use isbd_zephyr_module.Serial.Delivery.{Delivers}
use isbd_zephyr_module.Stru.{streq}
use isbd_zephyr_module.Stru.Laws.{streq_iff}
use isbd_zephyr_module.Libc.Scan.{chars, scanf, sscanf}
use isbd_zephyr_module.Libc.Scan.Fields.{fields, scanf-fields}
use isbd_zephyr_module.AtUart.Types.{AtErr}
use isbd_zephyr_module.AtUart.Code.{get_str_code}
use isbd_zephyr_module.AtUart.Parse.Line.{IsEol}
use isbd_zephyr_module.AtUart.Parse.Response.{Blanks, Gap, IsText}
use isbd_zephyr_module.AtUart.Parse.Single.{line_response, parse_resp_line}
use isbd_zephyr_module.Iridium.Numbers.{numbers-IsText}
use isbd_zephyr_module.Iridium.Dte.{DteErr, Dte}
use isbd_zephyr_module.Iridium.Evt.{
  Evt, unk, ring, sigq, svca, areg, two_bytes, parse_ciev, parse_areg, parse_ring, parse_event,
  wait_result, evt_wait,
}

-- The line that announces an event, with a blank before each number or without.
abbrev pub event_text : Bool → Bool → Evt → Bytes
event_text verbose blank unk = []
event_text verbose blank ring = if verbose then codes "SBDRING" else codes "126"
event_text verbose blank (sigq v) = codes "+CIEV:" ++ fields blank (0 ∷ v ∷ [])
event_text verbose blank (svca v) = codes "+CIEV:" ++ fields blank (1 ∷ v ∷ [])
event_text verbose blank (areg evt err) = codes "+AREG:" ++ fields blank (evt ∷ err ∷ [])

-- An event whose numbers are bytes.
abbrev pub IsEvt : Evt → Type 0
IsEvt unk = ⊥
IsEvt ring = Unit
IsEvt (sigq v) = v < 2 ^ 8
IsEvt (svca v) = v < 2 ^ 8
IsEvt (areg evt err) = (evt < 2 ^ 8) × (err < 2 ^ 8)

two_bytes_read :
    (buf prefix : Bytes) (blank : Bool) (m n : ℕ)
    → m < 2 ^ 8
    → n < 2 ^ 8
    → c_str buf ≡ prefix ++ fields blank (m ∷ n ∷ [])
    → sscanf (two_bytes prefix) buf ≡ m ∷ n ∷ []
unfolding sscanf
two_bytes_read buf prefix blank m n hm hn h =
    ap (scanf (two_bytes prefix)) h
    ∙ scanf-fields prefix blank (8 ∷ 8 ∷ []) (m ∷ n ∷ []) (omega arith)

no_ciev_areg : (buf s : Bytes) → c_str buf ≡ codes "+AREG:" ++ s → parse_ciev buf ≡ unk
unfolding parse_ciev sscanf scanf chars
no_ciev_areg buf s h = rw h refl

no_ciev_ring :
    (verbose : Bool) (buf : Bytes)
    → c_str buf ≡ (if verbose then codes "SBDRING" else codes "126")
    → parse_ciev buf ≡ unk
unfolding parse_ciev sscanf scanf chars
no_ciev_ring true buf h = rw h refl
no_ciev_ring false buf h = rw h refl

no_areg_ring :
    (verbose : Bool) (buf : Bytes)
    → c_str buf ≡ (if verbose then codes "SBDRING" else codes "126")
    → parse_areg buf ≡ unk
unfolding parse_areg sscanf scanf chars
no_areg_ring true buf h = rw h refl
no_areg_ring false buf h = rw h refl

parse_ciev_sigq :
    (buf : Bytes) (blank : Bool) (v : ℕ)
    → v < 2 ^ 8
    → c_str buf ≡ codes "+CIEV:" ++ fields blank (0 ∷ v ∷ [])
    → parse_ciev buf ≡ sigq v
unfolding parse_ciev
parse_ciev_sigq buf blank v i h =
    rw (two_bytes_read buf (codes "+CIEV:") blank 0 v (omega arith) i h) refl

parse_ciev_svca :
    (buf : Bytes) (blank : Bool) (v : ℕ)
    → v < 2 ^ 8
    → c_str buf ≡ codes "+CIEV:" ++ fields blank (1 ∷ v ∷ [])
    → parse_ciev buf ≡ svca v
unfolding parse_ciev
parse_ciev_svca buf blank v i h =
    rw (two_bytes_read buf (codes "+CIEV:") blank 1 v (omega arith) i h) refl

parse_areg_numbers :
    (buf : Bytes) (blank : Bool) (m n : ℕ)
    → m < 2 ^ 8
    → n < 2 ^ 8
    → c_str buf ≡ codes "+AREG:" ++ fields blank (m ∷ n ∷ [])
    → parse_areg buf ≡ areg m n
unfolding parse_areg
parse_areg_numbers buf blank m n hm hn h =
    rw (two_bytes_read buf (codes "+AREG:") blank m n hm hn h) refl

parse_ring_text :
    (verbose : Bool) (buf : Bytes)
    → c_str buf ≡ (if verbose then codes "SBDRING" else codes "126")
    → parse_ring verbose buf ≡ ring
unfolding parse_ring
parse_ring_text true buf h = rw ((streq_iff buf (codes "SBDRING")).1 h) refl
parse_ring_text false buf h = rw ((streq_iff buf (codes "126")).1 h) refl

-- The parsers of `evt.c` read back every event from its line, whatever follows in the buffer.
pub parse_event-event_text :
    (verbose blank : Bool) (e : Evt) (buf : Bytes)
    → IsEvt e
    → c_str buf ≡ event_text verbose blank e
    → parse_event verbose buf ≡ e
unfolding parse_event
parse_event-event_text verbose blank unk buf i h = elim i [ ]
parse_event-event_text verbose blank ring buf i h =
    rw (no_ciev_ring verbose buf h, no_areg_ring verbose buf h, parse_ring_text verbose buf h) refl
parse_event-event_text verbose blank (sigq v) buf i h = rw (parse_ciev_sigq buf blank v i h) refl
parse_event-event_text verbose blank (svca v) buf i h = rw (parse_ciev_svca buf blank v i h) refl
parse_event-event_text verbose blank (areg m n) buf (hm, hn) h =
    rw (no_ciev_areg buf (fields blank (m ∷ n ∷ [])) h, parse_areg_numbers buf blank m n hm hn h)
      refl

event_text-IsText :
    (verbose blank : Bool) (e : Evt) → IsEvt e → IsText verbose 32 (event_text verbose blank e)
unfolding get_str_code streq
event_text-IsText verbose blank unk i = elim i [ ]
event_text-IsText true blank ring i = record {
  chars = ground arith;
  some_char = omega arith;
  fits = omega arith;
  no_code = refl;
}
event_text-IsText false blank ring i = record {
  chars = ground arith;
  some_char = omega arith;
  fits = omega arith;
  no_code = refl;
}
event_text-IsText verbose blank (sigq v) i =
    numbers-IsText verbose 32 (codes "CIEV:") blank (0 ∷ v ∷ []) (ground arith) (omega arith)
      (omega arith)
event_text-IsText verbose blank (svca v) i =
    numbers-IsText verbose 32 (codes "CIEV:") blank (1 ∷ v ∷ []) (ground arith) (omega arith)
      (omega arith)
event_text-IsText verbose blank (areg m n) i =
    numbers-IsText verbose 32 (codes "AREG:") blank (m ∷ n ∷ []) (ground arith) (omega arith)
      (omega arith)

wait_result_known :
    (verbose : Bool) (buf : Bytes) (e : Evt)
    → IsEvt e
    → parse_event verbose buf ≡ e
    → wait_result verbose AtErr.unk buf ≡ (DteErr.ok, e)
unfolding wait_result
wait_result_known verbose buf unk i h = elim i [ ]
wait_result_known verbose buf ring i h = rw h refl
wait_result_known verbose buf (sigq v) i h = rw h refl
wait_result_known verbose buf (svca v) i h = rw h refl
wait_result_known verbose buf (areg m n) i h = rw h refl

-- The structure behind a line that is no result code.
abbrev pub announced : {Z : Type 0} → Dte Z → Z → Dte Z
announced dte z' = record dte { err = 4; at_uart = record (dte.at_uart) { zuart = z' } }

module _ {Z : Type 0} ⦃line : Serial Z⦄ where
  -- Where the line delivers, each byte within the timeout cut to 16 bits, the line that announces an
  -- event, `isu_dte_evt_wait` returns OK and exactly that event, and reads no further.
  pub evt_wait_event :
      (dte : Dte Z) (t : ℕ) (blank : Bool) (e : Evt) (pre gap : Bytes) (z' : Z)
      → IsEol dte.at_uart.eol
      → IsEvt e
      → Blanks pre
      → Gap dte.at_uart.eol gap
      → Delivers
          (t % 2 ^ 16)
          (line_response dte.at_uart.eol pre (event_text dte.at_uart.config.verbose blank e) gap)
          dte.at_uart.zuart
          z'
      → evt_wait t dte ≡ ((DteErr.ok, e), announced dte z')
  unfolding evt_wait
  evt_wait_event dte t blank e pre gap z' ee i hp hg d =
      let verbose = dte.at_uart.config.verbose in
      let (b, r, c, _) =
        parse_resp_line dte.at_uart (replicate 32 0) pre (event_text verbose blank e) gap 32
          (t % 2 ^ 16) z' ee (omega (arith, length-replicate {A = ℕ} 32 0)) (omega arith)
          (event_text-IsText verbose blank e i) hp hg d in
      rw (r)
        (rw (wait_result_known verbose b e i (parse_event-event_text verbose blank e b i c)) refl)
