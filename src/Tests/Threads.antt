-- ===== src/Tests/Threads.antt =====
-- The thread and the calls of users action by action, with the heap, the queues and a modem for examples.
use isbd_zephyr_module.Prelude.{List, [], ◌∷◌, codes, arith, refl}
use isbd_zephyr_module.Serial.Scripted.{Script, scripted}
use isbd_zephyr_module.Isbd.Message.{MoMsg, IsbdEvt}
use isbd_zephyr_module.Isbd.Service.{enter}
use isbd_zephyr_module.Isbd.Setup.{init_queues, isbd_setup}
use isbd_zephyr_module.Isbd.Action.{Code, ret, act, atomically}
use isbd_zephyr_module.Isbd.Atomic.{send_code}
use isbd_zephyr_module.Isbd.Atomic.Pool.{Pool, Call, Move, Moves, call_code}
use isbd_zephyr_module.Isbd.Atomic.Pool.Held.{IsHeld, pool-IsHeld}
use isbd_zephyr_module.Tests.Kernel.{Blocks, Bounded, heap_double, queue_double}
use isbd_zephyr_module.Tests.Service.{State, service}
use isbd_zephyr_module.Tests.Ownership.{config}

abbrev Threads : Type 0
Threads = Pool Blocks (Bounded MoMsg) (Bounded IsbdEvt) Script

abbrev started : Threads
started = record {
  isbd = (isbd_setup 16 16 config service).1;
  thread = atomically enter;
  users = [];
}

-- The first action of a list of calls.
abbrev first_acted : State → List (Code State (Unit {0})) → Threads → Threads
first_acted s [] w = w
first_acted s (ret x ∷ cs) w = w
first_acted s (act g k ∷ cs) w = record w { isbd = g s; users = k s ∷ cs }

abbrev called : Threads
called = record started { users = call_code (Call.sends 0 (codes "hi") 2) ∷ [] }

-- The call has its block, and the thread goes on before the message is in it.
abbrev allocates : Threads
allocates = first_acted called.isbd called.users called

abbrev entered : Threads
entered = record allocates { isbd = (enter allocates.isbd).1; thread = ret tt }

pool-IsHeld_example : IsHeld 7 entered
unfolding init_queues isbd_setup call_code send_code
pool-IsHeld_example = pool-IsHeld 7 16 16 config service entered (omega arith) refl (
    Moves.moved
      (Moves.moved (Moves.moved Moves.at_start (Move.user_calls (Call.sends 0 (codes "hi") 2) refl))
        (Move.user_acts [] [] _ _ refl refl))
      (Move.thread_acts _ _ refl refl))
