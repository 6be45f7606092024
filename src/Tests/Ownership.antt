-- ===== src/Tests/Ownership.antt =====
-- Who has which block, with the heap, the queues and a modem for examples.
use isbd_zephyr_module.Prelude.{false, some, [], ◌∷◌, codes, arith, refl}
use isbd_zephyr_module.Serial.Scripted.{Script, scripted}
use isbd_zephyr_module.Isbd.Message.{MoMsg, IsbdEvt, IsbdConfig}
use isbd_zephyr_module.Isbd.Queue.{send_mo_msg, request_session}
use isbd_zephyr_module.Isbd.Service.{Junk, run_session}
use isbd_zephyr_module.Isbd.Setup.{init_queues, isbd_setup}
use isbd_zephyr_module.Isbd.Setup.Laws.{SetUp, isbd_setup_lem}
use isbd_zephyr_module.Isbd.Blocks.{Keeps}
use isbd_zephyr_module.Isbd.Blocks.Session.{kept_or}
use isbd_zephyr_module.Isbd.Blocks.Run.{session_forgets, run_session-Keeps}
use isbd_zephyr_module.Isbd.Blocks.World.{World, Step, Reach, IsOwned}
use isbd_zephyr_module.Isbd.Blocks.Start.{setup-IsOwned}
use isbd_zephyr_module.Tests.Modem.{dte_port, script}
use isbd_zephyr_module.Tests.Kernel.{Blocks, Bounded, heap_double, queue_double}
use isbd_zephyr_module.Tests.Service.{State, service}

abbrev pub junk : Junk
junk = record {
  code = 9;
  csum = [];
  session = record { mo_sts = 9; mt_sts = 9; mo_msn = 9; mt_msn = 9; mt_len = 9; mt_queued = 9 };
  sn = 9;
  retries = 9;
}

abbrev pub config : IsbdConfig Script
config = record {
  sigq_threshold = 2;
  mo_queue_len = 4;
  evt_queue_len = 4;
  dte = dte_port (script [] [] []);
}

isbd_setup_lem_example : SetUp config service (isbd_setup 16 16 config service)
isbd_setup_lem_example = isbd_setup_lem 16 16 config service

abbrev ready : World Blocks (Bounded MoMsg) (Bounded IsbdEvt) Script
ready = record { isbd = (isbd_setup 16 16 config service).1; taken = [] }

abbrev asked : World Blocks (Bounded MoMsg) (Bounded IsbdEvt) Script
asked = record ready { isbd = (send_mo_msg 0 (codes "hi") 2 ready.isbd).1 }

abbrev more : World Blocks (Bounded MoMsg) (Bounded IsbdEvt) Script
more = record asked { isbd = (request_session 0 0 false asked.isbd).1 }

setup-IsOwned_example : IsOwned 7 more
unfolding init_queues isbd_setup
setup-IsOwned_example = setup-IsOwned 7 16 16 config service more (omega arith) refl (
    Reach.next (Reach.next Reach.here (Step.sends 0 (codes "hi") 2 refl))
      (Step.requests 0 0 false refl))

-- A message of two bytes in the block at 7, which may be sent once more.
abbrev pub carrier : State
carrier = record service { heap = record { next = 8; allocated = 7 ∷ []; memory = [] } }

abbrev pub parcel : MoMsg
parcel = record { alert = false; sn = 0; retries = 1; block = some 7; len = 2 }

run_session-Keeps_example :
    Keeps 7 1 carrier
      (run_session junk parcel carrier).1
      (kept_or (session_forgets junk parcel carrier) 1)
run_session-Keeps_example = run_session-Keeps 7 junk parcel carrier (omega arith)
