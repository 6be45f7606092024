-- ===== src/Tests/Retries.antt =====
-- A message that the network does not take, with a modem for examples.
use isbd_zephyr_module.Prelude.{◌-◌, ◌≤◌, ◌≡◌, ℕ, ◌⊎◌, false, [], ◌∷◌, arith, refl, inl}
use isbd_zephyr_module.Serial.Scripted.{scripted}
use isbd_zephyr_module.Iridium.Isu.Session.{Session}
use isbd_zephyr_module.Iridium.Isu.Session.Answer.{IsSession}
use isbd_zephyr_module.Isbd.Service.{round}
use isbd_zephyr_module.Isbd.Send.{SameRest}
use isbd_zephyr_module.Isbd.Retry.{block_msg, GivenUp}
use isbd_zephyr_module.Isbd.Delivery.Retries.{Waiting, Failures, no_round, round_fails, retries_lem}
use isbd_zephyr_module.Tests.Messages.{hello}
use isbd_zephyr_module.Tests.Kernel.{heap_double, queue_double}
use isbd_zephyr_module.Tests.Service.{State, service}
use isbd_zephyr_module.Tests.Ownership.{junk}
use isbd_zephyr_module.Tests.Delivery.{modem, taken, over, conversation}

-- A session in which the ISU could not send the message.
abbrev failing : Session
failing = record { mo_sts = 32; mo_msn = 0; mt_sts = 0; mt_msn = 0; mt_len = 0; mt_queued = 0 }

failing-IsSession : IsSession failing
failing-IsSession = record {
  mo_sts_byte = omega arith;
  mo_msn_word = omega arith;
  mt_sts_byte = omega arith;
  mt_msn_word = omega arith;
  mt_len_word = omega arith;
  mt_queued_byte = omega arith;
}

abbrev stubborn : State
stubborn = record service {
  service = 1;
  signal = 5;
  heap = record { next = 8; allocated = 7 ∷ []; memory = (7, hello) ∷ [] };
  mo_q = record { room = 1; held = block_msg false 0 0 7 5 ∷ [] };
  dte = modem failing;
}

failed_once : Failures hello false 1 stubborn (round junk 100 stubborn).1
failed_once =
    round_fails junk failing 100 (taken failing) over failing-IsSession (omega arith) refl
      (conversation failing) no_round

stubborn-Waiting : Waiting false 0 0 7 hello stubborn
stubborn-Waiting = record {
  mo_eq = refl;
  there = omega arith;
  enough = omega arith;
  eol = inl refl;
  stored = refl;
}

retries_lem_example :
    let s' = (round junk 100 stubborn).1 in
    ((1 ≤ 0) × Waiting false 0 (0 - 1) 7 hello s' × SameRest stubborn s')
    ⊎ ((◌≡◌ {A = ℕ} 1 1) × GivenUp 7 stubborn s')
retries_lem_example =
    retries_lem false 0 1 0 7 hello stubborn (round junk 100 stubborn).1 stubborn-Waiting
      (omega arith) (omega arith) (omega arith) (omega arith) failed_once
