-- ===== src/Isbd/Atomic/Pool.antt =====
-- The thread of lib/iridium/isbd/isbd.c and any number of calls of its users, interleaved action by action.
pub mod Held
use isbd_zephyr_module.Prelude.{ℕ, ◌+◌, ◌≤◌, ◌≡◌, Bytes, Bool, List, [], ◌∷◌, ◌++◌, arith, refl}
use isbd_zephyr_module.Serial.{Serial}
use isbd_zephyr_module.Isbd.Kernel.{Heap, MsgQueue}
use isbd_zephyr_module.Isbd.Message.{MoMsg, IsbdErr, IsbdEvt, IsbdConfig, Isbd}
use isbd_zephyr_module.Isbd.Service.{Junk, enter}
use isbd_zephyr_module.Isbd.Setup.{isbd_setup}
use isbd_zephyr_module.Isbd.Action.{Code, ret, act, ◌>>=◌, ◌>>◌, atomically}
use isbd_zephyr_module.Isbd.Atomic.{send_code, request_code, round_code}
use isbd_zephyr_module.Isbd.Atomic.App.{app_round, app_round-Safe}
use isbd_zephyr_module.Isbd.Atomic.Safe.{Safe, Keeps-frame, Safe-act, Safe->>=}
use isbd_zephyr_module.Isbd.Atomic.User.{nothing, send_code-Safe, request_code-Safe}
use isbd_zephyr_module.Isbd.Atomic.Rounds.{round_code-Safe}
use isbd_zephyr_module.Isbd.Blocks.{allocated, owners, Keeps}
use isbd_zephyr_module.Isbd.Blocks.World.{IsOwned, enter-Keeps}
use isbd_zephyr_module.Isbd.Blocks.Start.{setup-IsOwned}

-- A call of a user: of `isbd_send_mo_msg`, of `isbd_request_session`, or a round of
-- the loop of samples/isbd_app, which takes an event, answers a ring with a request, and destroys it.
pub data Call : Type 0 where
  sends : ℕ → Bytes → ℕ → Call
  requests : ℕ → ℕ → Bool → Call
  app_rounds : ℕ → ℕ → Call

-- The state of the service, what its thread has still to do in the round, and what each call that is under
-- way has still to do.
pub record Pool (H M E Z : Type 0) : Type 0 where
  pub isbd : Isbd H M E Z
  pub thread : Code (Isbd H M E Z) (Unit {0})
  pub users : List (Code (Isbd H M E Z) (Unit {0}))

module _ {H M E Z : Type 0} ⦃heap : Heap H⦄ ⦃mos : MsgQueue MoMsg M⦄
    ⦃evts : MsgQueue IsbdEvt E⦄ where
  unfoldable pub call_code : Call → Code (Isbd H M E Z) (Unit {0})
  call_code (sends sn msg retries) = do _ ← send_code sn msg retries; ret tt
  call_code (requests sn retries alert) = do _ ← request_code sn retries alert; ret tt
  call_code (app_rounds sn retries) = app_round sn retries

module _ {H M E Z : Type 0} ⦃heap : Heap H⦄ ⦃mos : MsgQueue MoMsg M⦄ ⦃evts : MsgQueue IsbdEvt E⦄
    ⦃line : Serial Z⦄ where
  -- The kernel runs one action of the thread or of a call; the thread starts a round behind the last one,
  -- and calls start and end at any time.
  pub data Move (w : Pool H M E Z) (w' : Pool H M E Z) : Type 0 where
    thread_acts :
        (g : Isbd H M E Z → Isbd H M E Z) (k : Isbd H M E Z → Code (Isbd H M E Z) (Unit {0}))
        → w.thread ≡ act g k
        → w' ≡ record w { isbd = g w.isbd; thread = k w.isbd }
        → Move w w'
    thread_loops :
        (junk : Junk) (t : ℕ)
        → w.thread ≡ ret tt
        → w' ≡ record w { thread = round_code junk t }
        → Move w w'
    user_calls : (c : Call) → w' ≡ record w { users = call_code c ∷ w.users } → Move w w'
    user_acts :
        (before behind : List (Code (Isbd H M E Z) (Unit {0}))) (g : Isbd H M E Z → Isbd H M E Z)
        (k : Isbd H M E Z → Code (Isbd H M E Z) (Unit {0}))
        → w.users ≡ before ++ act g k ∷ behind
        → w' ≡ record w { isbd = g w.isbd; users = before ++ k w.isbd ∷ behind }
        → Move w w'
    user_ends :
        (before behind : List (Code (Isbd H M E Z) (Unit {0})))
        → w.users ≡ before ++ ret tt ∷ behind
        → w' ≡ record w { users = before ++ behind }
        → Move w w'

  pub data Moves (w : Pool H M E Z) : Pool H M E Z → Type 0 where
    at_start : Moves w w
    moved : {u v : Pool H M E Z} → Moves w u → Move u v → Moves w v
