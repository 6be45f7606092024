-- ===== src/Isbd/Atomic.antt =====
-- lib/iridium/isbd/isbd.c call by call of the kernel: between any two of them other threads may run.
pub mod Safe
pub mod User
pub mod App
pub mod Thread
pub mod Rounds
pub mod Pool
pub mod Whole
use isbd_zephyr_module.Prelude.{
  ℕ, zero, suc, ◌-◌, Bytes, Bool, true, false, not, ◌&&◌, Option, none, some, ◌==◌, ltb, leb,
  if◌then◌else◌, length, Io,
}
use isbd_zephyr_module.Serial.{Serial}
use isbd_zephyr_module.Iridium.Dte.{DteErr, Dte}
use isbd_zephyr_module.Iridium.Evt.{Evt, evt_wait}
use isbd_zephyr_module.Iridium.Isu.Session.{Session, init_session}
use isbd_zephyr_module.Iridium.Isu.Binary.{mo_buff, clear_buffer, set_mo}
use isbd_zephyr_module.Isbd.Kernel.{Heap, MsgQueue}
use isbd_zephyr_module.Isbd.Message.{MoMsg, MtMsg, IsbdErr, IsbdEvt, Isbd}
use isbd_zephyr_module.Isbd.Queue.{
  destroy_mo_msg, destroy_mt_msg, destroy_evt, enqueue_mo_msg, wait_evt, put_evt,
}
use isbd_zephyr_module.Isbd.Service.{Junk, is_ok, on_dte, read_mt_msg, report_evt}
use isbd_zephyr_module.Isbd.Action.{Code, ret, act, ◌>>=◌, ◌>>◌, atomically}

module _ {H M E Z : Type 0} ⦃heap : Heap H⦄ ⦃mos : MsgQueue MoMsg M⦄
    ⦃evts : MsgQueue IsbdEvt E⦄ where
  -- Single calls of the kernel.
  abbrev pub alloc : ℕ → Io (Isbd H M E Z) (Option ℕ)
  alloc n s = let (b, h) = heap.malloc n s.heap in (b, record s { heap = h })

  abbrev pub copy_msg : ℕ → Bytes → Io (Isbd H M E Z) (Unit {0})
  copy_msg a msg s = (tt, record s { heap = heap.store a msg s.heap })

  abbrev pub mo_used : Io (Isbd H M E Z) ℕ
  mo_used s = (mos.num_used s.mo_q, s)

  abbrev pub take_mo : Io (Isbd H M E Z) (Option MoMsg)
  take_mo s = let (m, q) = mos.get s.mo_q in (m, record s { mo_q = q })

  unfoldable pub replace_code : Option MoMsg → MoMsg → Code (Isbd H M E Z) MoMsg
  replace_code none m = ret m
  replace_code (some q) m = elim q.block [
    | none ↦ (do _ ← atomically (destroy_mo_msg q); ret (record m { alert = q.alert }))
    | some _ ↦ (do _ ← atomically (enqueue_mo_msg q); ret m)
  ]

  unfoldable pub merge_code : MoMsg → Code (Isbd H M E Z) MoMsg
  merge_code m = do
    n ← atomically mo_used
    if n == 1 then (do q ← atomically take_mo; replace_code q m) else ret m

  unfoldable pub block_code : ℕ → Bytes → ℕ → ℕ → Code (Isbd H M E Z) IsbdErr
  block_code sn msg retries a = do
    _ ← atomically (copy_msg a msg)
    m ←
        merge_code
          (record { alert = false; sn = sn; retries = retries; block = some a; len = length msg })
    atomically (enqueue_mo_msg m)

  -- `isbd_send_mo_msg`
  unfoldable pub send_code : ℕ → Bytes → ℕ → Code (Isbd H M E Z) IsbdErr
  send_code sn msg retries = do
    b ← atomically (alloc (length msg))
    elim b [ none ↦ ret IsbdErr.err_mem | some a ↦ block_code sn msg retries a ]

  -- `isbd_request_session`
  unfoldable pub request_code : ℕ → ℕ → Bool → Code (Isbd H M E Z) IsbdErr
  request_code sn retries alert = do
    n ← atomically mo_used
    if n == 0
        then atomically (
            enqueue_mo_msg
              (record { alert = alert; sn = sn; retries = retries; block = none; len = 0 }))
        else ret IsbdErr.ok

  unfoldable pub notify_mt_code : MtMsg → Code (Isbd H M E Z) (Unit {0})
  notify_mt_code m = do
    done ← atomically (put_evt (IsbdEvt.mt m))
    if done then ret tt else (do _ ← atomically (destroy_mt_msg m); ret tt)

  unfoldable pub notify_mo_code : MoMsg → Code (Isbd H M E Z) (Unit {0})
  notify_mo_code m = do
    done ← atomically (put_evt (IsbdEvt.mo m))
    if done then ret tt else (do _ ← atomically (destroy_mo_msg m); ret tt)

module _ {H M E Z : Type 0} ⦃heap : Heap H⦄ ⦃mos : MsgQueue MoMsg M⦄ ⦃evts : MsgQueue IsbdEvt E⦄
    ⦃line : Serial Z⦄ where
  -- `_handle_session_mo_msg`
  unfoldable pub mo_code : Session → MoMsg → Code (Isbd H M E Z) (Unit {0})
  mo_code session m = elim m.block [
    | none ↦ ret tt
    | some _ ↦
        if m.len == 0
        then ret tt
        else if ltb session.mo_sts 3
        then notify_mo_code (record m { sn = session.mo_msn })
        else if ltb 0 m.retries
        then (do _ ← atomically (enqueue_mo_msg (record m { retries = m.retries - 1 })); ret tt)
        else (do
          _ ← atomically (put_evt (IsbdEvt.failed IsbdErr.err_mo))
          _ ← atomically (destroy_mo_msg m)
          ret tt)
  ]

  unfoldable pub accept_code : Junk → Session → MtMsg → Code (Isbd H M E Z) (Unit {0})
  accept_code junk session m = do
    _ ← notify_mt_code m
    if ltb 0 session.mt_queued
        then (do _ ← request_code junk.sn junk.retries false; ret tt)
        else ret tt

  unfoldable pub reject_code : MtMsg → Code (Isbd H M E Z) (Unit {0})
  reject_code m = do
    _ ← atomically (put_evt (IsbdEvt.failed IsbdErr.err_mt))
    _ ← atomically (destroy_mt_msg m)
    ret tt

  -- Only the thread uses the terminal and the block of a message that it reads.
  unfoldable pub receive_code : Junk → Session → ℕ → Code (Isbd H M E Z) (Unit {0})
  receive_code junk session a = do
    r ← atomically (read_mt_msg junk a session.mt_len)
    if r.0
        then accept_code junk session (record { sn = session.mt_msn; block = some a; len = r.1 })
        else reject_code (record { sn = session.mt_msn; block = some a; len = r.1 })

  -- `_handle_session_mt_msg`
  unfoldable pub mt_code : Junk → Session → Code (Isbd H M E Z) (Unit {0})
  mt_code junk session =
      if session.mt_sts == 1
      then (do
        b ← atomically (alloc session.mt_len)
        elim b [ none ↦ ret tt | some a ↦ receive_code junk session a ])
      else ret tt

  abbrev pub reported_evt : Evt → Io (Isbd H M E Z) IsbdEvt
  reported_evt e s = report_evt e s

  -- `_wait_for_dte_events`
  unfoldable pub events_code : ℕ → ℕ → Code (Isbd H M E Z) (Unit {0})
  events_code zero t = ret tt
  events_code (suc fuel) t = do
    r ← atomically (on_dte (evt_wait t))
    elim (is_ok r.0) [
      | false ↦ ret tt
      | true ↦ (do
        evt ← atomically (reported_evt r.1)
        _ ← atomically (put_evt evt)
        events_code fuel 10)
    ]

  abbrev pub to_come : Io (Isbd H M E Z) ℕ
  to_come s = (suc (line.pending s.dte.at_uart.zuart), s)

  unfoldable pub wait_code : ℕ → Code (Isbd H M E Z) (Unit {0})
  wait_code t = do n ← atomically to_come; events_code n t

  unfoldable pub session_code : Junk → MoMsg → Code (Isbd H M E Z) (Unit {0})
  session_code junk m = do
    r ← atomically (on_dte (init_session junk.session m.alert))
    _ ← wait_code 10
    if is_ok r.0 then (do _ ← mo_code r.1 m; mt_code junk r.1) else ret tt

  unfoldable pub clear_code : Junk → MoMsg → Code (Isbd H M E Z) (Unit {0})
  clear_code junk m = do
    r ← atomically (on_dte (clear_buffer junk.code mo_buff))
    if is_ok r then session_code junk m else ret tt

  -- The thread has the block of the message for itself.
  abbrev pub give_mo : Junk → ℕ → ℕ → Io (Isbd H M E Z) DteErr
  give_mo junk a len s = on_dte (set_mo junk.code (heap.load a len s.heap)) s

  unfoldable pub set_code : Junk → MoMsg → ℕ → Code (Isbd H M E Z) (Unit {0})
  set_code junk m a = do
    r ← atomically (give_mo junk a m.len)
    if is_ok r then session_code junk m else (do _ ← atomically (destroy_mo_msg m); ret tt)

  -- `_init_session`
  unfoldable pub run_code : Junk → MoMsg → Code (Isbd H M E Z) (Unit {0})
  run_code junk m = elim m.block [
    | none ↦ clear_code junk m
    | some a ↦ if m.len == 0 then clear_code junk m else set_code junk m a
  ]

  abbrev pub served : Io (Isbd H M E Z) Bool
  served s = (not (s.service == 0) && leb s.sigq_threshold s.signal, s)

  -- A round of `_entry_point`.
  unfoldable pub round_code : Junk → ℕ → Code (Isbd H M E Z) (Unit {0})
  round_code junk t = do
    there ← atomically served
    if there
        then (do
          o ← atomically take_mo
          elim o [ none ↦ wait_code t | some m ↦ (do _ ← run_code junk m; wait_code t) ])
        else wait_code t
