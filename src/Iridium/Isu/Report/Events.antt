-- ===== src/Iridium/Isu/Report/Events.antt =====
-- The events that follow AT+CIER.
use isbd_zephyr_module.Prelude.{
  ℕ, zero, suc, ◌+◌, ◌-◌, ◌*◌, ◌<◌, ◌≤◌, ◌≡◌, none, some, ◌^◌, ◌%◌, Bytes, Bool, [], ◌∷◌, ◌++◌,
  List, length, length-append, arith, refl, ap, ◌∙◌, sym, codes, Option, inl,
}
use isbd_zephyr_module.Serial.{Serial}
use isbd_zephyr_module.Serial.Delivery.{Delivers}
use isbd_zephyr_module.Libc.Print.{Piece, render}
use isbd_zephyr_module.Libc.Print.Laws.{length-decimal}
use isbd_zephyr_module.AtUart.Types.{ok}
use isbd_zephyr_module.AtUart.Command.{max_cmd_size, set_str}
use isbd_zephyr_module.AtUart.Command.Exchange.{Exchange, sent_cmd}
use isbd_zephyr_module.AtUart.Parse.Line.{IsEol}
use isbd_zephyr_module.AtUart.Parse.Response.{Blanks, Gap}
use isbd_zephyr_module.AtUart.Parse.Single.{line_response}
use isbd_zephyr_module.AtUart.Parse.Skip.{code_response, skip_resp_code}
use isbd_zephyr_module.Iridium.Dte.{DteErr, Dte}
use isbd_zephyr_module.Iridium.Evt.{Evt, evt_wait}
use isbd_zephyr_module.Iridium.Evt.Announce.{IsEvt, event_text, announced, evt_wait_event}
use isbd_zephyr_module.Iridium.Isu.Query.{short_response}
use isbd_zephyr_module.Iridium.Isu.Query.Answer.{answered, dte_send_lem}
use isbd_zephyr_module.Iridium.Isu.Report.{
  EvtReport, signed_byte, report_text, store_event, await_events, report_events, set_evt_report,
}

-- What a list of events leaves behind the two pointers.
abbrev pub store_all : List Evt → Option ℕ × Option ℕ → Option ℕ × Option ℕ
store_all [] out = out
store_all (e ∷ es) out = store_all es (store_event e out)

-- What a pointer holds behind an assignment through it; it may be null.
abbrev pub assign : ℕ → Option ℕ → Option ℕ
assign v none = none
assign v (some _) = some v

-- The last signal quality that is announced, and the last service availability.
abbrev pub last_sigq : List Evt → Option ℕ → Option ℕ
last_sigq [] o = o
last_sigq (Evt.sigq v ∷ es) o = last_sigq es (assign v o)
last_sigq (_ ∷ es) o = last_sigq es o

abbrev pub last_svca : List Evt → Option ℕ → Option ℕ
last_svca [] o = o
last_svca (Evt.svca v ∷ es) o = last_svca es (assign v o)
last_svca (_ ∷ es) o = last_svca es o

store_event_lem :
    (e : Evt) (sigq svca : Option ℕ)
    → store_event e (sigq, svca) ≡ (last_sigq (e ∷ []) sigq, last_svca (e ∷ []) svca)
unfolding store_event
store_event_lem Evt.unk sigq svca = refl
store_event_lem Evt.ring sigq svca = refl
store_event_lem (Evt.sigq v) none svca = refl
store_event_lem (Evt.sigq v) (some o) svca = refl
store_event_lem (Evt.svca v) sigq none = refl
store_event_lem (Evt.svca v) sigq (some o) = refl
store_event_lem (Evt.areg m n) sigq svca = refl

last_step :
    (e : Evt) (es : List Evt) (sigq svca : Option ℕ)
    → (last_sigq es (last_sigq (e ∷ []) sigq) ≡ last_sigq (e ∷ es) sigq)
      × (last_svca es (last_svca (e ∷ []) svca) ≡ last_svca (e ∷ es) svca)
last_step Evt.unk es sigq svca = (refl, refl)
last_step Evt.ring es sigq svca = (refl, refl)
last_step (Evt.sigq v) es sigq svca = (refl, refl)
last_step (Evt.svca v) es sigq svca = (refl, refl)
last_step (Evt.areg m n) es sigq svca = (refl, refl)

store_all_lem :
    (es : List Evt) (out : Option ℕ × Option ℕ)
    → store_all es out ≡ (last_sigq es out.0, last_svca es out.1)
store_all_lem [] out = refl
store_all_lem (e ∷ es) (sigq, svca) =
    let (a, b) = last_step e es sigq svca in
    store_all_lem es (store_event e (sigq, svca))
    ∙ ap (λ (o : Option ℕ × Option ℕ). (last_sigq es o.0, last_svca es o.1))
        (store_event_lem e sigq svca)
    ∙ rw (a, b) refl

abbrev pub cier_cmd : EvtReport → List Piece
cier_cmd report = set_str (codes "+CIER") (report_text report)

-- The number of events that are announced at once.
abbrev pub event_count : EvtReport → ℕ
event_count report = report.mode * (report.service + report.signal) % 2 ^ 8

-- Each member is a byte.
pub record IsReport (r : EvtReport) : Type 0 where
  pub mode_byte : r.mode < 2 ^ 8
  pub signal_byte : r.signal < 2 ^ 8
  pub service_byte : r.service < 2 ^ 8

length-signed_byte : (n : ℕ) → n < 2 ^ 8 → length (signed_byte n) ≤ 4
unfolding signed_byte
length-signed_byte n h =
    ground (arith, length-decimal 2 n (omega arith), length-decimal 2 (256 - n) (omega arith))

-- The text of a report fits the array of 16 that `isu_set_evt_report` prints it to.
pub length-report_text : (r : EvtReport) → IsReport r → length (report_text r) < 16
unfolding report_text
length-report_text r h = omega (
  arith,
  length-append (signed_byte r.mode)
      (codes "," ++ (signed_byte r.signal ++ (codes "," ++ signed_byte r.service))),
  length-append (signed_byte r.signal) (codes "," ++ signed_byte r.service),
  length-signed_byte r.mode h.mode_byte,
  length-signed_byte r.signal h.signal_byte,
  length-signed_byte r.service h.service_byte,
)

length-cier_cmd : (r : EvtReport) → IsReport r → length (render (cier_cmd r)) < max_cmd_size
unfolding render
length-cier_cmd r h =
    omega (arith, length-append (report_text r) (codes "\r"), length-report_text r h)

abbrev last_err : List Evt → ℕ → ℕ
last_err [] e = e
last_err (_ ∷ es) e = 4

last_err_same : (es : List Evt) → last_err es 4 ≡ 4
last_err_same [] = refl
last_err_same (e ∷ es) = refl

module _ {Z : Type 0} ⦃line : Serial Z⦄ where
  -- The line announces the events one after the other, each in time.
  abbrev pub Announces : Bool → ℕ → List Evt → Z → Z → Type 0
  Announces verbose eol [] z z' = z ≡ z'
  Announces verbose eol (e ∷ es) z z' =
      IsEvt e
      × (blank : Bool) × (pre : Bytes) × (gap : Bytes) × Blanks pre
      × Gap eol gap
      × (m : Z) × Delivers short_response (line_response eol pre (event_text verbose blank e) gap) z
          m
      × Announces verbose eol es m z'

  -- The structure behind the events.
  abbrev pub behind : List Evt → Dte Z → Z → Dte Z
  behind es dte z' = record dte {
    err = last_err es dte.err;
    at_uart = record (dte.at_uart) { zuart = z' };
  }

  await_step :
      (n : ℕ) (e : Evt) (dte dte' : Dte Z) (out : Option ℕ × Option ℕ)
      → evt_wait short_response dte ≡ ((DteErr.ok, e), dte')
      → await_events (suc n) out dte ≡ await_events n (store_event e out) dte'
  unfolding await_events
  await_step n e dte dte' out h =
      rw (h, await_events)
        (ap (λ (r : (DteErr × Evt) × Dte Z). await_events n (store_event r.0.1 out) r.1) h)

  await_none :
      (dte : Dte Z) (out : Option ℕ × Option ℕ)
      → await_events zero out dte ≡ ((DteErr.ok, out.0, out.1), dte)
  unfolding await_events
  await_none dte out = refl

  -- The loop of `isu_set_evt_report` takes exactly the events that it counts.
  await_events_lem :
      (es : List Evt) (dte : Dte Z) (out : Option ℕ × Option ℕ) (z' : Z)
      → IsEol dte.at_uart.eol
      → Announces dte.at_uart.config.verbose dte.at_uart.eol es dte.at_uart.zuart z'
      → await_events (length es) out dte
        ≡ ((DteErr.ok, (store_all es out).0, (store_all es out).1), behind es dte z')
  await_events_lem [] dte out z' ee a =
      await_none dte out ∙ ap (λ z. ((DteErr.ok, out.0, out.1), behind [] dte z)) a
  await_events_lem (e ∷ es) dte out z' ee (i, blank, pre, gap, hp, hg, m, d, a) =
      await_step (length es) e dte (announced dte m) out
        (evt_wait_event dte short_response blank e pre gap m ee i hp hg d)
      ∙ await_events_lem es (announced dte m) (store_event e out) z' ee a
      ∙ ap
          (λ n. (
            (DteErr.ok, (store_all (e ∷ es) out).0, (store_all (e ∷ es) out).1),
            record (announced dte z') { err = n },
          ))
          (last_err_same es)

  -- Where the modem takes AT+CIER with a report of bytes, answers OK and announces, each in time, as many
  -- events as mode * (service + signal) has in its low eight bits, `isu_set_evt_report` returns OK, and
  -- each pointer that is not null is left with the last value announced for it; no event is left on the
  -- line.
  pub set_evt_report_events :
      (dte : Dte Z) (report : EvtReport) (out : Option ℕ × Option ℕ) (es : List Evt)
      (pre gap : Bytes) (m z' : Z)
      → IsEol dte.at_uart.eol
      → IsReport report
      → Blanks pre
      → Gap dte.at_uart.eol gap
      → Exchange dte.at_uart
          (render (cier_cmd report))
          (code_response dte.at_uart.config.verbose dte.at_uart.eol pre gap ok)
          short_response
          m
      → length es ≡ event_count report
      → Announces dte.at_uart.config.verbose dte.at_uart.eol es m z'
      → set_evt_report report out dte
        ≡ ((DteErr.ok, last_sigq es out.0, last_svca es out.1), behind es (answered dte 0 m) z')
  unfolding set_evt_report report_events
  set_evt_report_events dte report out es pre gap m z' ee hr hp hg x hn a =
      rw
        (
          dte_send_lem dte (cier_cmd report) _ short_response m (length-cier_cmd report hr) x,
          skip_resp_code (sent_cmd dte.at_uart x.middle) pre gap 1 short_response ok m ee hp hg
              (inl refl) x.replies,
          sym hn,
        )
        (await_events_lem es (answered dte 0 m) out z' ee a
          ∙ ap
              (λ (o : Option ℕ × Option ℕ).
                ((DteErr.ok, o.0, o.1), behind es (answered dte 0 m) z'))
              (store_all_lem es out))
