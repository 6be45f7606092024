-- ===== src/Isbd/Atomic/Whole/Rounds.antt =====
-- The thread of lib/iridium/isbd/isbd.c, action by action: a round that is run without a break is a round.
use isbd_zephyr_module.Prelude.{
  ℕ, zero, suc, ◌≡◌, Bool, true, false, not, ◌&&◌, Option, none, some, ltb, leb, ◌==◌,
  if◌then◌else◌, Io, refl, Bool-cases, inl, inr,
}
use isbd_zephyr_module.Serial.{Serial}
use isbd_zephyr_module.Iridium.Dte.{DteErr}
use isbd_zephyr_module.Iridium.Evt.{Evt, evt_wait}
use isbd_zephyr_module.Iridium.Isu.Session.{Session, init_session}
use isbd_zephyr_module.Iridium.Isu.Binary.{mo_buff, clear_buffer, set_mo}
use isbd_zephyr_module.Isbd.Kernel.{Heap, MsgQueue}
use isbd_zephyr_module.Isbd.Message.{MoMsg, MtMsg, IsbdEvt, Isbd}
use isbd_zephyr_module.Isbd.Queue.{put_evt, destroy_mo_msg, notify_err, notify_mt_msg}
use isbd_zephyr_module.Isbd.Service.{
  Junk, is_ok, read_mt_msg, report_evt, handle_session_mo_msg, handle_session_mt_msg, accept_mt_msg,
  reject_mt_msg, receive_mt_msg, dte_events_loop, wait_for_dte_events, set_mo_msg, start_session,
  run_session, round,
}
use isbd_zephyr_module.Isbd.Action.{
  ret, ◌>>=◌, atomically, run, run_bind, run_if, run_option, run_branch, run_option_at,
}
use isbd_zephyr_module.Isbd.Atomic.Whole.{request_whole, notify_mt_whole, notify_mo_whole}
use isbd_zephyr_module.Isbd.Atomic.{
  request_code, notify_mt_code, mo_code, accept_code, reject_code, receive_code, mt_code,
  reported_evt, events_code, wait_code, session_code, clear_code, set_code, run_code, round_code,
}

module _ {H M E Z : Type 0} ⦃heap : Heap H⦄ ⦃mos : MsgQueue MoMsg M⦄ ⦃evts : MsgQueue IsbdEvt E⦄
    ⦃line : Serial Z⦄ where
  mo_whole :
      (session : Session) (m : MoMsg) (s : Isbd H M E Z)
      → run (mo_code session m) s ≡ handle_session_mo_msg session m s
  unfolding mo_code handle_session_mo_msg notify_err
  mo_whole session m s = run_option_at m.block _ _ _ _ s refl (λ _.
      run_branch (m.len == 0) _ _ _ _ s refl (
        run_branch (ltb session.mo_sts 3) _ _ _ _ s
          (notify_mo_whole (record m { sn = session.mo_msn }) s)
          (run_branch (ltb 0 m.retries) _ _ _ _ s refl refl)))

  accept_whole :
      (junk : Junk) (session : Session) (m : MtMsg) (s : Isbd H M E Z)
      → run (accept_code junk session m) s ≡ accept_mt_msg junk session m s
  unfolding accept_code accept_mt_msg
  accept_whole junk session m s =
      let s₁ = (notify_mt_msg m s).1 in
      run_bind (notify_mt_code m) _ s _ _ (notify_mt_whole m s) (
        run_branch (ltb 0 session.mt_queued) _ _ _ _ s₁
          (run_bind (request_code junk.sn junk.retries false) _ s₁ _ _
            (request_whole junk.sn junk.retries false s₁) refl)
          refl)

  receive_whole :
      (junk : Junk) (session : Session) (a : ℕ) (s : Isbd H M E Z)
      → run (receive_code junk session a) s ≡ receive_mt_msg junk session a s
  unfolding receive_code receive_mt_msg reject_code reject_mt_msg notify_err
  receive_whole junk session a s =
      let r = read_mt_msg junk a session.mt_len s in
      run_branch r.0.0 _ _ _ _ r.1 (accept_whole junk session _ r.1) refl

  mt_whole :
      (junk : Junk) (session : Session) (s : Isbd H M E Z)
      → run (mt_code junk session) s ≡ handle_session_mt_msg junk session s
  unfolding mt_code handle_session_mt_msg
  mt_whole junk session s =
      let s₁ : Isbd H M E Z = record s { heap = (heap.malloc session.mt_len s.heap).1 } in
      run_if (session.mt_sts == 1) _ _ _ _ s
        (run_option (heap.malloc session.mt_len s.heap).0 _ _ _ _ s₁ refl
          (λ a. receive_whole junk session a s₁))
        refl

  events_whole :
      (fuel t : ℕ) (s : Isbd H M E Z) → run (events_code fuel t) s ≡ (tt, dte_events_loop fuel t s)
  unfolding events_code dte_events_loop
  events_whole zero t s = refl
  events_whole (suc fuel) t s =
      told (is_ok (evt_wait t s.dte).0.0) (record s { dte = (evt_wait t s.dte).1 })
        (λ s'. events_whole fuel 10 s')
    where
      e : Evt
      e = (evt_wait t s.dte).0.1

      told :
          (b : Bool) (s₁ : Isbd H M E Z)
          → ((s' : Isbd H M E Z) → run (events_code fuel 10) s' ≡ (tt, dte_events_loop fuel 10 s'))
          → run
              (elim b [
                | false ↦ ret tt
                | true ↦ (do
                  evt ← atomically (reported_evt e)
                  _ ← atomically (put_evt evt)
                  events_code fuel 10)
              ])
              s₁
            ≡ (
              tt,
              elim b [
                | false ↦ s₁
                | true ↦
                    let (evt, s₂) = report_evt e s₁ in dte_events_loop fuel 10 (put_evt evt s₂).1
              ],
            )
      told false s₁ p = refl
      told true s₁ p = p (put_evt (report_evt e s₁).0 (report_evt e s₁).1).1

  wait_whole : (t : ℕ) (s : Isbd H M E Z) → run (wait_code t) s ≡ wait_for_dte_events t s
  unfolding wait_code wait_for_dte_events
  wait_whole t s = events_whole (suc (line.pending s.dte.at_uart.zuart)) t s

  session_whole :
      (junk : Junk) (m : MoMsg) (s : Isbd H M E Z)
      → run (session_code junk m) s ≡ start_session junk m s
  unfolding session_code start_session
  session_whole junk m s =
      let (r, d) = init_session junk.session m.alert s.dte in
      let s₁ : Isbd H M E Z = record s { dte = d } in
      let s₂ = (wait_for_dte_events 10 s₁).1 in
      run_bind (wait_code 10) _ s₁ _ _ (wait_whole 10 s₁) (
        run_branch (is_ok r.0) _ _ _ _ s₂
          (run_bind (mo_code r.1 m) _ s₂ _ _ (mo_whole r.1 m s₂)
            (mt_whole junk r.1 (handle_session_mo_msg r.1 m s₂).1))
          refl)

  -- `_init_session` behind the message for the ISU.
  abbrev rest : Junk → (DteErr × MoMsg) × Isbd H M E Z → Unit {0} × Isbd H M E Z
  rest junk r = (if is_ok r.0.0 then start_session junk r.0.1 else (λ s. (tt, s))) r.1

  -- The message behind the answer of the ISU to it.
  abbrev prepared : MoMsg → DteErr → Io (Isbd H M E Z) (DteErr × MoMsg)
  prepared m r =
      if is_ok r
      then (λ s. ((r, m), s))
      else (λ s. ((r, (destroy_mo_msg m s).0), (destroy_mo_msg m s).1))

  clear_whole :
      (junk : Junk) (m : MoMsg) (s : Isbd H M E Z)
      → let (r, d) = clear_buffer junk.code mo_buff s.dte in
        run (clear_code junk m) s ≡ rest junk ((r, m), record s { dte = d })
  unfolding clear_code
  clear_whole junk m s =
      let (r, d) = clear_buffer junk.code mo_buff s.dte in
      run_branch (is_ok r) _ _ _ _ (record s { dte = d }) (session_whole junk m _) refl

  set_whole :
      (junk : Junk) (m : MoMsg) (a : ℕ) (s : Isbd H M E Z)
      → let (r, d) = set_mo junk.code (heap.load a m.len s.heap) s.dte in
        let s₁ : Isbd H M E Z = record s { dte = d } in
        run (set_code junk m a) s ≡ rest junk (prepared m r s₁)
  unfolding set_code
  set_whole junk m a s =
      let (r, d) = set_mo junk.code (heap.load a m.len s.heap) s.dte in
      told r (record s { dte = d })
    where
      told :
          (r : DteErr) (s₁ : Isbd H M E Z)
          → run
              (if is_ok r
                then session_code junk m
                else (do _ ← atomically (destroy_mo_msg m); ret tt))
              s₁
            ≡ rest junk (prepared m r s₁)
      told r s₁ = elim (Bool-cases (is_ok r)) [
        | inl e ↦ rw (e, e) (session_whole junk m s₁)
        | inr e ↦ rw (e, e) refl
      ]

  run_whole :
      (junk : Junk) (m : MoMsg) (s : Isbd H M E Z) → run (run_code junk m) s ≡ run_session junk m s
  unfolding run_code run_session set_mo_msg
  run_whole junk m s = opened m.block (m.len == 0)
    where
      cleared : Io (Isbd H M E Z) (DteErr × MoMsg)
      cleared s' =
          let (r, d) = clear_buffer junk.code mo_buff s'.dte in ((r, m), record s' { dte = d })

      given : ℕ → Io (Isbd H M E Z) (DteErr × MoMsg)
      given a s' =
          let (r, d) = set_mo junk.code (heap.load a m.len s'.heap) s'.dte in
          let s₁ : Isbd H M E Z = record s' { dte = d } in prepared m r s₁

      opened :
          (b : Option ℕ) (z : Bool)
          → run
              (elim b [
                | none ↦ clear_code junk m
                | some a ↦ if z then clear_code junk m else set_code junk m a
              ])
              s
            ≡ rest junk (elim b [ none ↦ cleared s | some a ↦ if z then cleared s else given a s ])
      opened none z = clear_whole junk m s
      opened (some a) true = clear_whole junk m s
      opened (some a) false = set_whole junk m a s

  -- The kernel calls of a round of the thread, a session and its messages included, if no other thread
  -- runs between them, make of every state the state that the round as a whole makes.
  round_whole :
      (junk : Junk) (t : ℕ) (s : Isbd H M E Z) → run (round_code junk t) s ≡ round junk t s
  unfolding round_code round
  round_whole junk t s =
      let s₁ : Isbd H M E Z = record s { mo_q = (mos.get s.mo_q).1 } in
      run_if (not (s.service == 0) && leb s.sigq_threshold s.signal) _ _ _ _ s
        (run_option (mos.get s.mo_q).0 _ _ _ _ s₁ (wait_whole t s₁) (λ m.
          run_bind (run_code junk m) _ s₁ _ _ (run_whole junk m s₁)
            (wait_whole t (run_session junk m s₁).1)))
        (wait_whole t s)
