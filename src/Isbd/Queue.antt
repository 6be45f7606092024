-- ===== src/Isbd/Queue.antt =====
-- The calls of lib/iridium/isbd/isbd.c for its user: messages and session requests.
use isbd_zephyr_module.Prelude.{
  ℕ, Bytes, Bool, false, Option, none, some, ◌==◌, if◌then◌else◌, length, Io, ◌>>=◌, ◌>>◌, pure,
  modify,
}
use isbd_zephyr_module.Isbd.Kernel.{Heap, MsgQueue}
use isbd_zephyr_module.Isbd.Message.{MoMsg, MtMsg, IsbdErr, IsbdEvt, Isbd}

module _ {H M E Z : Type 0} ⦃heap : Heap H⦄ ⦃mos : MsgQueue MoMsg M⦄
    ⦃evts : MsgQueue IsbdEvt E⦄ where
  abbrev pub free_block : Option ℕ → Isbd H M E Z → Isbd H M E Z
  free_block none s = s
  free_block (some a) s = record s { heap = heap.free a s.heap }

  unfoldable pub destroy_mo_msg : MoMsg → Io (Isbd H M E Z) MoMsg
  destroy_mo_msg m s = (record m { len = 0; block = none }, free_block m.block s)

  -- The address stays in the message.
  unfoldable pub destroy_mt_msg : MtMsg → Io (Isbd H M E Z) MtMsg
  destroy_mt_msg m s = (record m { len = 0 }, free_block m.block s)

  unfoldable pub destroy_evt : IsbdEvt → Io (Isbd H M E Z) IsbdEvt
  destroy_evt (IsbdEvt.mo m) = do m' ← destroy_mo_msg m; pure (IsbdEvt.mo m')
  destroy_evt (IsbdEvt.mt m) = do m' ← destroy_mt_msg m; pure (IsbdEvt.mt m')
  destroy_evt e = pure e

  unfoldable pub enqueue_mo_msg : MoMsg → Io (Isbd H M E Z) IsbdErr
  enqueue_mo_msg m s =
      let (done, q) = mos.put m s.mo_q in
      (if done then IsbdErr.ok else IsbdErr.err_space, record s { mo_q = q })

  -- Lines 375 to 387: a queued request gives way to the message, which takes its alert flag; a queued
  -- message goes back.
  unfoldable pub replace_request : Option MoMsg → MoMsg → Io (Isbd H M E Z) MoMsg
  replace_request none m = pure m
  replace_request (some q) m = elim q.block [
    | none ↦ λ s. (record m { alert = q.alert }, (destroy_mo_msg q s).1)
    | some _ ↦ λ s. (m, (enqueue_mo_msg q s).1)
  ]

  -- Lines 370 to 391.
  unfoldable pub merge_request : MoMsg → Io (Isbd H M E Z) MoMsg
  merge_request m s =
      if mos.num_used s.mo_q == 1
      then (let (q, mo_q) = mos.get s.mo_q in replace_request q m (record s { mo_q = mo_q }))
      else (m, s)

  -- `msg_len` is the length of the list, and `sn` what the variable happens to hold.
  unfoldable pub send_block : ℕ → Bytes → ℕ → ℕ → Io (Isbd H M E Z) IsbdErr
  send_block sn msg retries a = do
    modify (λ s. record s { heap = heap.store a msg s.heap })
    m ←
        merge_request
          (record { alert = false; sn = sn; retries = retries; block = some a; len = length msg })
    enqueue_mo_msg m

  unfoldable pub send_mo_msg : ℕ → Bytes → ℕ → Io (Isbd H M E Z) IsbdErr
  send_mo_msg sn msg retries s =
      let (block, h) = heap.malloc (length msg) s.heap in
      elim block [
        | none ↦ (IsbdErr.err_mem, record s { heap = h })
        | some a ↦ send_block sn msg retries a (record s { heap = h })
      ]

  -- `sn` and `retries` are what the variable happens to hold.
  unfoldable pub request_session : ℕ → ℕ → Bool → Io (Isbd H M E Z) IsbdErr
  request_session sn retries alert s =
      if mos.num_used s.mo_q == 0
      then enqueue_mo_msg
          (record { alert = alert; sn = sn; retries = retries; block = none; len = 0 }) s
      else (IsbdErr.ok, s)

  -- `isbd_wait_evt` of an event that is there, or comes before the timeout.
  unfoldable pub wait_evt : Io (Isbd H M E Z) (Option IsbdEvt)
  wait_evt s = let (e, q) = evts.get s.evt_q in (e, record s { evt_q = q })

  unfoldable pub put_evt : IsbdEvt → Io (Isbd H M E Z) Bool
  put_evt e s = let (done, q) = evts.put e s.evt_q in (done, record s { evt_q = q })

  -- `_notify_err` drops an event that finds no room.
  unfoldable pub notify_err : IsbdErr → Io (Isbd H M E Z) (Unit {0})
  notify_err e = do _ ← put_evt (IsbdEvt.failed e); pure tt

  unfoldable pub notify_mt_msg : MtMsg → Io (Isbd H M E Z) (Unit {0})
  notify_mt_msg m = do
    done ← put_evt (IsbdEvt.mt m)
    if done then pure tt else (do _ ← destroy_mt_msg m; pure tt)

  unfoldable pub notify_mo_msg : MoMsg → Io (Isbd H M E Z) (Unit {0})
  notify_mo_msg m = do
    done ← put_evt (IsbdEvt.mo m)
    if done then pure tt else (do _ ← destroy_mo_msg m; pure tt)
