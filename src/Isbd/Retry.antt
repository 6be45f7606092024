-- ===== src/Isbd/Retry.antt =====
-- What lib/iridium/isbd/isbd.c does at the end of a session that did not get its message through.
use isbd_zephyr_module.Prelude.{
  ℕ, suc, ◌≤◌, ◌<◌, ◌≡◌, Bool, List, some, [], ◌∷◌, ◌++◌, length, arith, refl, ◌∙◌,
}
use isbd_zephyr_module.Serial.{Serial}
use isbd_zephyr_module.Iridium.Isu.Session.{Session}
use isbd_zephyr_module.Isbd.Kernel.{Heap, MsgQueue, without}
use isbd_zephyr_module.Isbd.Message.{MoMsg, IsbdErr, IsbdEvt, Isbd}
use isbd_zephyr_module.Isbd.Queue.{destroy_mo_msg, enqueue_mo_msg, notify_err, put_evt}
use isbd_zephyr_module.Isbd.Send.{mo_items}
use isbd_zephyr_module.Isbd.Service.{handle_session_mo_msg}
use isbd_zephyr_module.Isbd.Blocks.Session.{on_block}

-- A message in the block at `b`.
abbrev pub block_msg : Bool → ℕ → ℕ → ℕ → ℕ → MoMsg
block_msg alert sn retries b len = record {
  alert = alert;
  sn = sn;
  retries = retries;
  block = some b;
  len = len;
}

module _ {H M E Z : Type 0} ⦃heap : Heap H⦄ ⦃mos : MsgQueue MoMsg M⦄ ⦃evts : MsgQueue IsbdEvt E⦄
    ⦃line : Serial Z⦄ where
  abbrev pub evt_items : Isbd H M E Z → List IsbdEvt
  evt_items s = evts.items s.evt_q

  pub handle_again :
      (session : Session) (alert : Bool) (sn r b len : ℕ) (s : Isbd H M E Z)
      → 3 ≤ session.mo_sts
      → 0 < len
      → (handle_session_mo_msg session (block_msg alert sn (suc r) b len) s).1
        ≡ (enqueue_mo_msg (block_msg alert sn r b len) s).1
  handle_again session alert sn r b len s h l =
      on_block session alert sn (suc r) b len s ∙ ground arith

  pub handle_last :
      (session : Session) (alert : Bool) (sn b len : ℕ) (s : Isbd H M E Z)
      → 3 ≤ session.mo_sts
      → 0 < len
      → (handle_session_mo_msg session (block_msg alert sn 0 b len) s).1
        ≡ (destroy_mo_msg (block_msg alert sn 0 b len) (notify_err IsbdErr.err_mo s).1).1
  handle_last session alert sn b len s h l = on_block session alert sn 0 b len s ∙ ground arith

  -- The event of a failed message, where there is room for it.
  pub err_queued :
      (s : Isbd H M E Z)
      → length (evt_items s) < evts.size s.evt_q
      → (evt_items (notify_err IsbdErr.err_mo s).1
          ≡ evt_items s ++ IsbdEvt.failed IsbdErr.err_mo ∷ [])
        × (mo_items (notify_err IsbdErr.err_mo s).1 ≡ mo_items s)
        × ((notify_err IsbdErr.err_mo s).1.heap ≡ s.heap)
  unfolding notify_err put_evt
  err_queued s h =
      let (d, i, _) = evts.put_lem (IsbdEvt.failed IsbdErr.err_mo) s.evt_q in
      (ground (arith, d, i), refl, refl)

  pub freed :
      (alert : Bool) (sn b len : ℕ) (s : Isbd H M E Z)
      → let s' = (destroy_mo_msg (block_msg alert sn 0 b len) s).1 in
        (evt_items s' ≡ evt_items s)
        × (mo_items s' ≡ mo_items s)
        × (heap.live s'.heap ≡ without b (heap.live s.heap))
  unfolding destroy_mo_msg
  freed alert sn b len s = (refl, refl, heap.live-free b s.heap)

  -- What is left of a message that is given up.
  pub record GivenUp (b : ℕ) (s s' : Isbd H M E Z) : Type 0 where
    pub mo_empty : mo_items s' ≡ []
    pub told : evt_items s' ≡ evt_items s ++ IsbdEvt.failed IsbdErr.err_mo ∷ []
    pub live_eq : heap.live s'.heap ≡ without b (heap.live s.heap)
