-- ===== src/Isbd/Delivery/Handover.antt =====
-- A session of lib/iridium/isbd/isbd.c that brings a message.
use isbd_zephyr_module.Prelude.{
  ℕ, ◌<◌, ◌≡◌, ◌^◌, Bytes, Bool, true, false, some, length, ltb, ◌==◌, if◌then◌else◌, arith, refl,
  ap, ◌∙◌, Io,
}
use isbd_zephyr_module.Serial.{Serial}
use isbd_zephyr_module.Serial.Delivery.{Delivers}
use isbd_zephyr_module.Libc.Network.{htons}
use isbd_zephyr_module.AtUart.Types.{ok}
use isbd_zephyr_module.AtUart.Parse.Line.{IsEol}
use isbd_zephyr_module.AtUart.Parse.Response.{Blanks, Gap}
use isbd_zephyr_module.AtUart.Parse.Skip.{code_response}
use isbd_zephyr_module.Iridium.Checksum.{compute_checksum}
use isbd_zephyr_module.Iridium.Dte.{DteErr, Dte}
use isbd_zephyr_module.Iridium.Isu.Query.{short_response}
use isbd_zephyr_module.Iridium.Isu.Query.Answer.{answered}
use isbd_zephyr_module.Iridium.Isu.Session.{Session, init_session}
use isbd_zephyr_module.Iridium.Isu.Session.Answer.{IsSession, init_session_lem}
use isbd_zephyr_module.Iridium.Isu.Binary.{mo_buff, clear_buffer}
use isbd_zephyr_module.Iridium.Isu.Binary.GetMt.{Brings}
use isbd_zephyr_module.Isbd.Kernel.{Heap, MsgQueue}
use isbd_zephyr_module.Isbd.Message.{MoMsg, IsbdEvt, Isbd}
use isbd_zephyr_module.Isbd.Queue.{request_session, put_evt}
use isbd_zephyr_module.Isbd.Service.{
  Junk, is_ok, set_mo_msg, start_session, run_session, accept_mt_msg, receive_mt_msg,
  handle_session_mo_msg, handle_session_mt_msg, wait_for_dte_events,
}
use isbd_zephyr_module.Isbd.Blocks.Calls.{notify_mt_kept}
use isbd_zephyr_module.Isbd.Blocks.Receive.{mt_some}
use isbd_zephyr_module.Isbd.Blocks.Run.{run_started, start_handled}
use isbd_zephyr_module.Isbd.Delivery.{wait_quiet}
use isbd_zephyr_module.Isbd.Delivery.Incoming.{
  request_msg, mt_msg, waited, waited_eol, Receives, cleared, read_whole_msg,
}

module _ {H M E Z : Type 0} ⦃heap : Heap H⦄ ⦃mos : MsgQueue MoMsg M⦄ ⦃evts : MsgQueue IsbdEvt E⦄
    ⦃line : Serial Z⦄ where
  -- The event of a message that came in, and a request for the next if there is one.
  abbrev pub accepted : Junk → Session → ℕ → ℕ → Isbd H M E Z → Isbd H M E Z
  accepted junk session b len s =
      let s₁ = (put_evt (IsbdEvt.mt (mt_msg session.mt_msn b len)) s).1 in
      if ltb 0 session.mt_queued then (request_session junk.sn junk.retries false s₁).1 else s₁

  accept_taken :
      (junk : Junk) (session : Session) (b len : ℕ) (s : Isbd H M E Z)
      → length (evts.items s.evt_q) < evts.size s.evt_q
      → (accept_mt_msg junk session (mt_msg session.mt_msn b len) s).1
        ≡ accepted junk session b len s
  unfolding accept_mt_msg put_evt
  accept_taken junk session b len s r =
      let m = mt_msg session.mt_msn b len in
      let (d, _, _) = evts.put_lem (IsbdEvt.mt m) s.evt_q in
      let fits : (put_evt (IsbdEvt.mt m) s).0 ≡ true = ground (arith, d) in
      branch (ltb 0 session.mt_queued) _ _ (notify_mt_kept m s fits)
    where
      branch :
          (q : Bool) (x y : Isbd H M E Z)
          → x ≡ y
          → (if◌then◌else◌ {A = Io (Isbd H M E Z) (Unit {0})} q
              (λ z. (tt, (request_session junk.sn junk.retries false z).1))
              (λ z. (tt, z))
              x).1
            ≡ (if q then (request_session junk.sn junk.retries false y).1 else y)
      branch true x y e = ap (λ z. (request_session junk.sn junk.retries false z).1) e
      branch false x y e = e

  -- The state behind the message of a session, before the event.
  abbrev pub read_into : ℕ → Bytes → Z → Isbd H M E Z → Isbd H M E Z
  read_into b msg z₃ s = record s {
    dte = answered s.dte 0 z₃;
    heap = heap.store b msg (heap.malloc (length msg) s.heap).1;
  }

  mt_received :
      (junk : Junk) (session : Session) (b : ℕ) (msg pre gap : Bytes) (m z₃ : Z) (s : Isbd H M E Z)
      → IsEol s.dte.at_uart.eol
      → length msg < 2 ^ 16
      → length (evts.items s.evt_q) < evts.size s.evt_q
      → (session.mt_sts == 1) ≡ true
      → session.mt_len ≡ length msg
      → (heap.malloc (length msg) s.heap).0 ≡ some b
      → Brings s.dte (length msg) msg (htons (compute_checksum msg)) m
      → Blanks pre
      → Gap s.dte.at_uart.eol gap
      → Delivers short_response
          (code_response s.dte.at_uart.config.verbose s.dte.at_uart.eol pre gap ok)
          m
          z₃
      → (handle_session_mt_msg junk session s).1
        ≡ accepted junk session b (length msg) (read_into b msg z₃ s)
  unfolding receive_mt_msg accept_mt_msg
  mt_received junk session b msg pre gap m z₃ s ee h r t l e x hp hg d =
      let s₁ : Isbd H M E Z = record s { heap = (heap.malloc (length msg) s.heap).1 } in
      let got : (heap.malloc session.mt_len s.heap).0 ≡ some b = rw l e in
      let read = read_whole_msg junk b msg pre gap m z₃ s₁ ee h x hp hg d in
      mt_some junk session b s t got
      ∙ rw (l, read, receive_mt_msg)
          (accept_taken junk session b (length msg) (read_into b msg z₃ s) r)

  request_cleared :
      (junk : Junk) (alert : Bool) (sn retries : ℕ) (z₁ : Z) (s : Isbd H M E Z)
      → clear_buffer junk.code mo_buff s.dte ≡ (DteErr.ok, answered s.dte 0 z₁)
      → set_mo_msg junk (request_msg alert sn retries) s
        ≡ ((DteErr.ok, request_msg alert sn retries), record s { dte = answered s.dte 0 z₁ })
  unfolding set_mo_msg
  request_cleared junk alert sn retries z₁ s e =
      ap (λ (y : DteErr × Dte Z). ((y.0, request_msg alert sn retries), record s { dte = y.1 })) e

  request_handled :
      (session : Session) (alert : Bool) (sn retries : ℕ) (s : Isbd H M E Z)
      → (handle_session_mo_msg session (request_msg alert sn retries) s).1 ≡ s
  unfolding handle_session_mo_msg
  request_handled session alert sn retries s = refl

  pub session_incoming :
      (junk : Junk) (session : Session) (sn retries b t : ℕ) (msg : Bytes) (z₁ z₂ m z₃ : Z)
      (s : Isbd H M E Z)
      → IsEol s.dte.at_uart.eol
      → length msg < 2 ^ 16
      → length (evts.items s.evt_q) < evts.size s.evt_q
      → IsSession session
      → (session.mt_sts == 1) ≡ true
      → session.mt_len ≡ length msg
      → (heap.malloc (length msg) s.heap).0 ≡ some b
      → Receives s.dte msg session t z₁ z₂ m z₃
      → (run_session junk (request_msg true sn retries) s).1
        ≡ accepted junk session b
            (length msg)
            (read_into b msg z₃ (record s { dte = waited s.dte z₂ }))
  session_incoming junk session sn retries b t msg z₁ z₂ m z₃ s ee h r i mt len g x =
      let q = request_msg true sn retries in
      let d₁ = answered s.dte 0 z₁ in
      let s₁ : Isbd H M E Z = record s { dte = d₁ } in
      let s₃ : Isbd H M E Z = record s { dte = waited s.dte z₂ } in
      let c = request_cleared junk true sn retries z₁ s (cleared junk.code s.dte z₁ ee x.clears) in
      let e : init_session junk.session true d₁ ≡ ((DteErr.ok, session), answered s.dte 0 z₂) =
        init_session_lem d₁ junk.session session true x.blank z₂ ee i x.answers in
      let started : is_ok (set_mo_msg junk q s).0.0 ≡ true =
        ap (λ (y : (DteErr × MoMsg) × Isbd H M E Z). is_ok y.0.0) c in
      let same : (set_mo_msg junk q s).0.1 ≡ q =
        ap (λ (y : (DteErr × MoMsg) × Isbd H M E Z). y.0.1) c in
      let open_it : is_ok (init_session junk.session true d₁).0.0 ≡ true =
        ap (λ (y : (DteErr × Session) × Dte Z). is_ok y.0.0) e in
      let ee₃ : IsEol s₃.dte.at_uart.eol = rw (waited_eol s.dte z₂) ee in
      run_started junk q s started same
      ∙ ap (λ (y : (DteErr × MoMsg) × Isbd H M E Z). (start_session junk q y.1).1) c
      ∙ start_handled junk q s₁ open_it
      ∙ ap
          (λ (y : (DteErr × Session) × Dte Z).
            (handle_session_mt_msg junk y.0.1
              (handle_session_mo_msg y.0.1 q
                (wait_for_dte_events 10 (record s { dte = y.1 })).1).1).1)
          e
      ∙ ap
          (λ (y : Isbd H M E Z).
            (handle_session_mt_msg junk session (handle_session_mo_msg session q y).1).1)
          (wait_quiet 10 (record s { dte = answered s.dte 0 z₂ }) x.quiet)
      ∙ ap (λ (y : Isbd H M E Z). (handle_session_mt_msg junk session y).1)
          (request_handled session true sn retries s₃)
      ∙ mt_received junk session b msg x.pre x.gap m z₃ s₃ ee₃ h r mt len g x.brings x.pre_blank
          x.gap_blank x.ends
