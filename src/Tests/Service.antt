-- ===== src/Tests/Service.antt =====
-- The service over a heap, queues and a modem for examples.
use isbd_zephyr_module.Prelude.{
  ℕ, ◌≡◌, ◌⊎◌, Bytes, true, false, none, some, Option, [], ◌∷◌, codes, take, arith,
}
use isbd_zephyr_module.Serial.Scripted.{Script, scripted}
use isbd_zephyr_module.Iridium.Evt.{Evt}
use isbd_zephyr_module.Iridium.Evt.Announce.{event_text}
use isbd_zephyr_module.AtUart.Parse.Single.{line_response}
use isbd_zephyr_module.Isbd.Message.{MoMsg, IsbdErr, IsbdEvt, Isbd}
use isbd_zephyr_module.Isbd.Queue.{send_mo_msg}
use isbd_zephyr_module.Isbd.Send.{merged, queued, new_msg, send_mo_msg_lem}
use isbd_zephyr_module.Isbd.Service.{dte_events_loop}
use isbd_zephyr_module.Isbd.Events.{dte_events_loop_fuel}
use isbd_zephyr_module.Tests.Modem.{dte_port, script, crlf, cr}
use isbd_zephyr_module.Tests.Kernel.{Blocks, Bounded, fetch, heap_double, queue_double}

abbrev pub State : Type 0
State = Isbd Blocks (Bounded MoMsg) (Bounded IsbdEvt) Script

abbrev pub request : MoMsg
request = record { alert = true; sn = 0; retries = 0; block = none; len = 0 }

abbrev pub ring_line : Bytes
ring_line = line_response b'\n' crlf (event_text true false Evt.ring) cr

-- A request for an alert waits in the queue, and the modem has announced a ring.
abbrev pub service : State
service = record {
  service = 1;
  signal = 3;
  sigq_threshold = 2;
  mo_msgq_buf = some 1;
  evt_msgq_buf = some 2;
  mo_q = record { room = 1; held = request ∷ [] };
  evt_q = record { room = 2; held = [] };
  heap = record { next = 7; allocated = []; memory = [] };
  dte = dte_port (script [] ring_line []);
}

abbrev sent : IsbdErr × State
sent = send_mo_msg 0 (codes "hi") 2 service

send_mo_msg_lem_example :
    ((◌≡◌ {A = Option ℕ} (some 7) none)
      × (sent.0 ≡ IsbdErr.err_mem)
      × (sent.1.mo_q.held ≡ request ∷ [])
      × (sent.1.heap.allocated ≡ []))
    ⊎ ((a : ℕ) × ((sent.0, sent.1.mo_q.held)
          ≡ queued 2
              (merged (request ∷ []) (new_msg 0 (codes "hi") 2 a)).0
              (merged (request ∷ []) (new_msg 0 (codes "hi") 2 a)).1)
        × (take 2 (fetch a sent.1.heap.memory) ≡ codes "hi")
        × (sent.1.heap.allocated ≡ a ∷ [])
        × (sent.1.evt_q ≡ record { room = 2; held = [] }))
send_mo_msg_lem_example = send_mo_msg_lem 0 (codes "hi") 2 service

dte_events_loop_fuel_example : dte_events_loop 40 100 service ≡ dte_events_loop 50 100 service
dte_events_loop_fuel_example = dte_events_loop_fuel 40 50 100 service (omega arith) (omega arith)
