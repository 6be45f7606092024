-- ===== src/Isbd/Atomic/Whole.antt =====
-- The calls of lib/iridium/isbd/isbd.c for its user, action by action, beside the functions as a whole.
pub mod Rounds
use isbd_zephyr_module.Prelude.{
  ℕ, zero, suc, ◌≡◌, Bytes, Bool, true, false, not, ◌&&◌, Option, none, some, ltb, leb, ◌==◌,
  length, if◌then◌else◌, arith, refl, ap, ◌∙◌, sym, Bool-cases, Option-cases, inl, inr,
}
use isbd_zephyr_module.Serial.{Serial}
use isbd_zephyr_module.Iridium.Evt.{Evt, evt_wait}
use isbd_zephyr_module.Iridium.Isu.Session.{Session, init_session}
use isbd_zephyr_module.Iridium.Isu.Binary.{mo_buff, clear_buffer, set_mo}
use isbd_zephyr_module.Isbd.Kernel.{Heap, MsgQueue}
use isbd_zephyr_module.Isbd.Message.{MoMsg, MtMsg, IsbdErr, IsbdEvt, Isbd}
use isbd_zephyr_module.Isbd.Queue.{
  replace_request, merge_request, send_block, send_mo_msg, request_session, enqueue_mo_msg, put_evt,
  destroy_mo_msg, destroy_mt_msg, notify_err, notify_mt_msg, notify_mo_msg,
}
use isbd_zephyr_module.Isbd.Service.{
  Junk, is_ok, read_mt_msg, report_evt, handle_session_mo_msg, handle_session_mt_msg, accept_mt_msg,
  reject_mt_msg, receive_mt_msg, dte_events_loop, wait_for_dte_events, set_mo_msg, start_session,
  run_session, round,
}
use isbd_zephyr_module.Isbd.Action.{
  Code, ret, act, ◌>>=◌, ◌>>◌, atomically, run, run_bind, run_if, run_option, run_branch,
  run_option_at,
}
use isbd_zephyr_module.Isbd.Atomic.{
  replace_code, merge_code, block_code, send_code, request_code, notify_mt_code, notify_mo_code,
  mo_code, accept_code, reject_code, receive_code, mt_code, reported_evt, events_code, wait_code,
  session_code, clear_code, set_code, run_code, round_code,
}

module _ {H M E Z : Type 0} ⦃heap : Heap H⦄ ⦃mos : MsgQueue MoMsg M⦄
    ⦃evts : MsgQueue IsbdEvt E⦄ where
  replace_whole :
      (o : Option MoMsg) (m : MoMsg) (s : Isbd H M E Z)
      → run (replace_code o m) s ≡ replace_request o m s
  unfolding replace_code replace_request
  replace_whole none m s = refl
  replace_whole (some q) m s = run_option_at q.block _ _ _ _ s refl (λ b. refl)

  merge_whole : (m : MoMsg) (s : Isbd H M E Z) → run (merge_code m) s ≡ merge_request m s
  unfolding merge_code merge_request
  merge_whole m s =
      run_if (mos.num_used s.mo_q == 1) _ _ _ _ s
        (replace_whole (mos.get s.mo_q).0 m (record s { mo_q = (mos.get s.mo_q).1 })) refl

  block_whole :
      (sn : ℕ) (msg : Bytes) (retries a : ℕ) (s : Isbd H M E Z)
      → run (block_code sn msg retries a) s ≡ send_block sn msg retries a s
  unfolding block_code send_block
  block_whole sn msg retries a s =
      let m : MoMsg = record {
        alert = false;
        sn = sn;
        retries = retries;
        block = some a;
        len = length msg;
      } in
      let s₁ : Isbd H M E Z = record s { heap = heap.store a msg s.heap } in
      run_bind (merge_code m) _ s₁ _ _ (merge_whole m s₁) refl

  -- The kernel calls of `isbd_send_mo_msg`, if no other thread runs between them, make of every state the
  -- result and the state that the function as a whole makes.
  send_whole :
      (sn : ℕ) (msg : Bytes) (retries : ℕ) (s : Isbd H M E Z)
      → run (send_code sn msg retries) s ≡ send_mo_msg sn msg retries s
  unfolding send_code send_mo_msg
  send_whole sn msg retries s =
      let s₁ : Isbd H M E Z = record s { heap = (heap.malloc (length msg) s.heap).1 } in
      run_option (heap.malloc (length msg) s.heap).0 _ _ _ _ s₁ refl
        (λ a. block_whole sn msg retries a s₁)

  pub request_whole :
      (sn retries : ℕ) (alert : Bool) (s : Isbd H M E Z)
      → run (request_code sn retries alert) s ≡ request_session sn retries alert s
  unfolding request_code request_session
  request_whole sn retries alert s = run_if (mos.num_used s.mo_q == 0) _ _ _ _ s refl refl

  pub notify_mt_whole :
      (m : MtMsg) (s : Isbd H M E Z) → run (notify_mt_code m) s ≡ notify_mt_msg m s
  unfolding notify_mt_code notify_mt_msg
  notify_mt_whole m s =
      run_branch (put_evt (IsbdEvt.mt m) s).0 _ _ _ _ (put_evt (IsbdEvt.mt m) s).1 refl refl

  pub notify_mo_whole :
      (m : MoMsg) (s : Isbd H M E Z) → run (notify_mo_code m) s ≡ notify_mo_msg m s
  unfolding notify_mo_code notify_mo_msg
  notify_mo_whole m s =
      run_branch (put_evt (IsbdEvt.mo m) s).0 _ _ _ _ (put_evt (IsbdEvt.mo m) s).1 refl refl
