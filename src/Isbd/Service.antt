-- ===== src/Isbd/Service.antt =====
-- The thread of lib/iridium/isbd/isbd.c: sessions and the events of the terminal.
use isbd_zephyr_module.Prelude.{
  ℕ, zero, suc, ◌-◌, Bytes, Bool, true, false, ◌&&◌, not, Option, none, some, ◌==◌, ltb, leb,
  if◌then◌else◌, take, Io, ◌>>=◌, ◌>>◌, pure, modify,
}
use isbd_zephyr_module.Serial.{Serial}
use isbd_zephyr_module.Iridium.Checksum.{compute_checksum}
use isbd_zephyr_module.Iridium.Dte.{DteErr, Dte}
use isbd_zephyr_module.Iridium.Evt.{Evt, evt_wait}
use isbd_zephyr_module.Iridium.Isu.Query.{MtAlert, set_mt_alert}
use isbd_zephyr_module.Iridium.Isu.Session.{Session, init_session}
use isbd_zephyr_module.Iridium.Isu.Binary.{mo_buff, clear_buffer, set_mo, get_mt}
use isbd_zephyr_module.Iridium.Isu.Report.{set_evt_report}
use isbd_zephyr_module.Isbd.Kernel.{Heap, MsgQueue}
use isbd_zephyr_module.Isbd.Message.{MoMsg, MtMsg, IsbdErr, IsbdEvt, Isbd}
use isbd_zephyr_module.Isbd.Queue.{
  destroy_mo_msg, destroy_mt_msg, enqueue_mo_msg, request_session, put_evt, notify_err,
  notify_mt_msg, notify_mo_msg,
}

-- What variables hold that C leaves without a value.
pub record Junk : Type 0 where
  pub code : ℕ
  pub csum : Bytes
  pub session : Session
  pub sn : ℕ
  pub retries : ℕ

abbrev pub is_ok : DteErr → Bool
is_ok DteErr.ok = true
is_ok _ = false

-- Is the checksum that was received that of the message?
abbrev pub same_csum : Option ℕ → Bytes → Bool
same_csum none msg = false
same_csum (some c) msg = c == compute_checksum msg

module _ {H M E Z : Type 0} ⦃heap : Heap H⦄ ⦃mos : MsgQueue MoMsg M⦄ ⦃evts : MsgQueue IsbdEvt E⦄
    ⦃line : Serial Z⦄ where
  -- A call on `g_isbd.cnf.dte`.
  abbrev pub on_dte : {A : Type 0} → Io (Dte Z) A → Io (Isbd H M E Z) A
  on_dte m s = let (a, d) = m s.dte in (a, record s { dte = d })

  -- `_read_mt_msg` into the block at `a`: was the message read, and its length.
  unfoldable pub read_mt_msg : Junk → ℕ → ℕ → Io (Isbd H M E Z) (Bool × ℕ)
  read_mt_msg junk a len s =
      let ((r, buf, len', csum), d) = get_mt (heap.load a len s.heap) len junk.csum s.dte in
      (
        (is_ok r && same_csum csum (take len' buf), len'),
        record s { dte = d; heap = heap.store a buf s.heap },
      )

  unfoldable pub handle_session_mo_msg : Session → MoMsg → Io (Isbd H M E Z) (Unit {0})
  handle_session_mo_msg session m = elim m.block [
    | none ↦ pure tt
    | some _ ↦
        if m.len == 0
        then pure tt
        else if ltb session.mo_sts 3
        then notify_mo_msg (record m { sn = session.mo_msn })
        else if ltb 0 m.retries
        then (do _ ← enqueue_mo_msg (record m { retries = m.retries - 1 }); pure tt)
        else (do notify_err IsbdErr.err_mo; _ ← destroy_mo_msg m; pure tt)
  ]

  -- Lines 159 to 162, behind a message that was read.
  unfoldable pub accept_mt_msg : Junk → Session → MtMsg → Io (Isbd H M E Z) (Unit {0})
  accept_mt_msg junk session m = do
    notify_mt_msg m
    if ltb 0 session.mt_queued
        then (do _ ← request_session junk.sn junk.retries false; pure tt)
        else pure tt

  unfoldable pub reject_mt_msg : MtMsg → Io (Isbd H M E Z) (Unit {0})
  reject_mt_msg m = do notify_err IsbdErr.err_mt; _ ← destroy_mt_msg m; pure tt

  -- Lines 144 to 168, with a block for the message.
  unfoldable pub receive_mt_msg : Junk → Session → ℕ → Io (Isbd H M E Z) (Unit {0})
  receive_mt_msg junk session a = do
    r ← read_mt_msg junk a session.mt_len
    let m : MtMsg = record { sn = session.mt_msn; block = some a; len = r.1 }
    if r.0 then accept_mt_msg junk session m else reject_mt_msg m

  unfoldable pub handle_session_mt_msg : Junk → Session → Io (Isbd H M E Z) (Unit {0})
  handle_session_mt_msg junk session s =
      if session.mt_sts == 1
      then (let (block, h) = heap.malloc session.mt_len s.heap in
          elim block [
            | none ↦ (tt, record s { heap = h })
            | some a ↦ receive_mt_msg junk session a (record s { heap = h })
          ])
      else (tt, s)

  -- What `_wait_for_dte_events` makes of an event of the terminal.
  unfoldable pub report_evt : Evt → Isbd H M E Z → IsbdEvt × Isbd H M E Z
  report_evt (Evt.svca v) s = (IsbdEvt.svca v, record s { service = v })
  report_evt (Evt.sigq v) s = (IsbdEvt.sigq v, record s { signal = v })
  report_evt Evt.ring s = (IsbdEvt.ring, s)
  report_evt _ s = (IsbdEvt.unk, s)

  -- Its recursion. Each event takes a byte off the line, so a fuel above what is pending is enough.
  unfoldable pub dte_events_loop : ℕ → ℕ → Isbd H M E Z → Isbd H M E Z
  dte_events_loop zero t s = s
  dte_events_loop (suc fuel) t s =
      let ((r, e), s₁) = on_dte (evt_wait t) s in
      elim (is_ok r) [
        | false ↦ s₁
        | true ↦ let (evt, s₂) = report_evt e s₁ in dte_events_loop fuel 10 (put_evt evt s₂).1
      ]

  unfoldable pub wait_for_dte_events : ℕ → Io (Isbd H M E Z) (Unit {0})
  wait_for_dte_events t s = (tt, dte_events_loop (suc (line.pending s.dte.at_uart.zuart)) t s)

  -- Lines 182 to 195: the message for the ISU. A message that it does not take is destroyed.
  unfoldable pub set_mo_msg : Junk → MoMsg → Io (Isbd H M E Z) (DteErr × MoMsg)
  set_mo_msg junk m s = elim m.block [
    | none ↦ (do ret ← on_dte (clear_buffer junk.code mo_buff); pure (ret, m)) s
    | some a ↦
        if m.len == 0
        then (do ret ← on_dte (clear_buffer junk.code mo_buff); pure (ret, m)) s
        else (do
          ret ← on_dte (set_mo junk.code (heap.load a m.len s.heap))
          if is_ok ret then pure (ret, m) else (do m' ← destroy_mo_msg m; pure (ret, m')))
            s
  ]

  -- Lines 199 to 211.
  unfoldable pub start_session : Junk → MoMsg → Io (Isbd H M E Z) (Unit {0})
  start_session junk m = do
    r ← on_dte (init_session junk.session m.alert)
    wait_for_dte_events 10
    if is_ok r.0 then (do handle_session_mo_msg r.1 m; handle_session_mt_msg junk r.1) else pure tt

  -- `_init_session`
  unfoldable pub run_session : Junk → MoMsg → Io (Isbd H M E Z) (Unit {0})
  run_session junk m = do
    r ← set_mo_msg junk m
    if is_ok r.0 then start_session junk r.1 else pure tt

  -- `_entry_point` before its loop, and one round of the loop; `t` is DTE_EVT_WAIT_TIMEOUT.
  unfoldable pub enter : Io (Isbd H M E Z) (Unit {0})
  enter s =
      (do
        r ← on_dte (
            set_evt_report (record { mode = 1; signal = 1; service = 1 })
              (some s.signal, some s.service))
        modify (λ s'. record s' { signal = pointed s.signal r.1; service = pointed s.service r.2 })
        _ ← on_dte (set_mt_alert MtAlert.enabled)
        pure tt)
        s
    where
      pointed : ℕ → Option ℕ → ℕ
      pointed old none = old
      pointed old (some v) = v

  unfoldable pub round : Junk → ℕ → Io (Isbd H M E Z) (Unit {0})
  round junk t s =
      (if not (s.service == 0) && leb s.sigq_threshold s.signal
        then (let (m, q) = mos.get s.mo_q in
            elim m [
              | none ↦ wait_for_dte_events t (record s { mo_q = q })
              | some msg ↦ (do run_session junk msg; wait_for_dte_events t) (record s { mo_q = q })
            ])
        else wait_for_dte_events t s)
