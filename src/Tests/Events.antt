-- ===== src/Tests/Events.antt =====
-- Events on the line of the service, with a modem for examples.
use isbd_zephyr_module.Prelude.{◌≡◌, Bytes, true, false, [], ◌∷◌, ◌++◌, arith, refl, inl}
use isbd_zephyr_module.Serial.Scripted.{Script, scripted}
use isbd_zephyr_module.AtUart.Parse.Single.{line_response}
use isbd_zephyr_module.Iridium.Dte.{Dte}
use isbd_zephyr_module.Iridium.Evt.{Evt, evt_wait}
use isbd_zephyr_module.Iridium.Evt.Announce.{event_text, announced}
use isbd_zephyr_module.Isbd.Service.{wait_for_dte_events}
use isbd_zephyr_module.Isbd.Events.{evt_wait_silent}
use isbd_zephyr_module.Isbd.Events.Arrive.{
  Announces, no_more, one_more, Reports, wait_for_dte_events_lem,
}
use isbd_zephyr_module.Tests.Modem.{
  dte_port, script, deliver, deliver_all, crlf, cr, crlf-Blanks, cr-Gap,
}
use isbd_zephyr_module.Tests.Kernel.{heap_double, queue_double}
use isbd_zephyr_module.Tests.Service.{State, service}

abbrev announces : Evt → Bytes
announces e = line_response b'\n' crlf (event_text true false e) cr

-- The signal, the service and a ring, of which the queue has room for two.
abbrev calm : Dte Script
calm =
    dte_port
      (script [] (announces (Evt.sigq 4) ++ (announces (Evt.svca 0) ++ announces Evt.ring)) [])

abbrev over : Dte Script
over = announced calm (script [] [] [])

three_events : Announces 100 calm (Evt.sigq 4 ∷ Evt.svca 0 ∷ Evt.ring ∷ []) (evt_wait 10 over).1
three_events =
    one_more false crlf cr (script [] (announces (Evt.svca 0) ++ announces Evt.ring) [])
      (omega arith) crlf-Blanks cr-Gap
      (deliver 100 (announces (Evt.sigq 4)) [] (announces (Evt.svca 0) ++ announces Evt.ring) [])
      (one_more false crlf cr (script [] (announces Evt.ring) []) (omega arith) crlf-Blanks cr-Gap
        (deliver 10 (announces (Evt.svca 0)) [] (announces Evt.ring) [])
        (one_more false crlf cr (script [] [] []) tt crlf-Blanks cr-Gap
          (deliver_all 10 (announces Evt.ring) [] [])
          (no_more (evt_wait_silent 10 over refl).0 refl)))

abbrev listening : State
listening = record service { dte = calm }

wait_for_dte_events_lem_example :
    let s' = (wait_for_dte_events 100 listening).1 in
    Reports (Evt.sigq 4 ∷ Evt.svca 0 ∷ Evt.ring ∷ []) listening s' × (s'.dte ≡ (evt_wait 10 over).1)
wait_for_dte_events_lem_example =
    wait_for_dte_events_lem 100 (Evt.sigq 4 ∷ Evt.svca 0 ∷ Evt.ring ∷ []) listening
      (evt_wait 10 over).1 (inl refl) three_events
