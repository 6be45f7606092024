-- ===== src/Isbd/Atomic/App.antt =====
-- The loop of samples/isbd_app/src/main.c, a user of lib/iridium/isbd, call by call of the kernel.
use isbd_zephyr_module.Prelude.{ℕ, true, Option, none, some, arith}
use isbd_zephyr_module.Isbd.Kernel.{Heap, MsgQueue}
use isbd_zephyr_module.Isbd.Message.{MoMsg, IsbdEvt, Isbd}
use isbd_zephyr_module.Isbd.Queue.{destroy_evt, wait_evt}
use isbd_zephyr_module.Isbd.Action.{Code, ret, ◌>>=◌, atomically}
use isbd_zephyr_module.Isbd.Atomic.{request_code}
use isbd_zephyr_module.Isbd.Atomic.Safe.{Safe, Safe-act, Safe-le, Safe->>=}
use isbd_zephyr_module.Isbd.Atomic.User.{opt_evt, nothing, wait_evt-Keeps, request_code-Safe}
use isbd_zephyr_module.Isbd.Blocks.{evt_holds}
use isbd_zephyr_module.Isbd.Blocks.Calls.{destroy_evt-Keeps}

module _ {H M E Z : Type 0} ⦃heap : Heap H⦄ ⦃mos : MsgQueue MoMsg M⦄
    ⦃evts : MsgQueue IsbdEvt E⦄ where
  -- `_isbd_evt_handler` without what it logs; `sn` and `retries` are what the variable of the request
  -- happens to hold.
  unfoldable pub evt_handler : ℕ → ℕ → IsbdEvt → Code (Isbd H M E Z) (Unit {0})
  evt_handler sn retries IsbdEvt.ring = do
    _ ← request_code sn retries true
    _ ← atomically (destroy_evt IsbdEvt.ring)
    ret tt
  evt_handler sn retries e = do _ ← atomically (destroy_evt e); ret tt

  -- A round of the loop of `main`.
  unfoldable pub app_round : ℕ → ℕ → Code (Isbd H M E Z) (Unit {0})
  app_round sn retries = do
    o ← atomically wait_evt
    elim o [ none ↦ ret tt | some e ↦ evt_handler sn retries e ]

  destroyed-Safe :
      (a : ℕ) (e : IsbdEvt)
      → Safe {H = H} {M = M} {E = E} {Z = Z} a
          (nothing {A = Unit {0}})
          (evt_holds a e)
          (do _ ← atomically (destroy_evt e); ret tt)
  destroyed-Safe a e = record { next = λ s h. (0, destroy_evt-Keeps a e s h, omega arith) }

  evt_handler-Safe :
      (a sn retries : ℕ) (e : IsbdEvt)
      → Safe {H = H} {M = M} {E = E} {Z = Z} a nothing (evt_holds a e) (evt_handler sn retries e)
  unfolding evt_handler
  evt_handler-Safe a sn retries IsbdEvt.ring =
      Safe->>= a nothing nothing 0 _ _ (request_code-Safe a sn retries true)
        (λ _ n _. Safe-le a nothing 0 n _ (destroyed-Safe a IsbdEvt.ring) (omega arith))
  evt_handler-Safe a sn retries (IsbdEvt.mt m) = destroyed-Safe a (IsbdEvt.mt m)
  evt_handler-Safe a sn retries (IsbdEvt.mo m) = destroyed-Safe a (IsbdEvt.mo m)
  evt_handler-Safe a sn retries (IsbdEvt.svca v) = destroyed-Safe a (IsbdEvt.svca v)
  evt_handler-Safe a sn retries (IsbdEvt.sigq v) = destroyed-Safe a (IsbdEvt.sigq v)
  evt_handler-Safe a sn retries (IsbdEvt.failed e) = destroyed-Safe a (IsbdEvt.failed e)
  evt_handler-Safe a sn retries IsbdEvt.unk = destroyed-Safe a IsbdEvt.unk

  pub app_round-Safe :
      (a sn retries : ℕ) → Safe {H = H} {M = M} {E = E} {Z = Z} a nothing 0 (app_round sn retries)
  unfolding app_round
  app_round-Safe a sn retries =
      Safe-act a nothing 0 (λ s h. (_, wait_evt-Keeps a s, waited (wait_evt s).0))
    where
      waited :
          (o : Option IsbdEvt)
          → Safe {H = H} {M = M} {E = E} {Z = Z} a
              (nothing {A = Unit {0}})
              (opt_evt a o)
              (elim o [ none ↦ ret tt | some e ↦ evt_handler sn retries e ])
      waited none = record { next = omega arith }
      waited (some e) = evt_handler-Safe a sn retries e
