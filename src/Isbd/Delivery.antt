-- ===== src/Isbd/Delivery.antt =====
-- A message of the queue of lib/iridium/isbd/isbd.c goes to the gateway in a round of the thread.
pub mod User
pub mod Incoming
pub mod Handover
pub mod Arrival
pub mod Retries
use isbd_zephyr_module.Prelude.{
  ℕ, ◌<◌, ◌≤◌, ◌≡◌, ◌^◌, Bytes, Bool, true, false, not, ◌&&◌, List, some, ◌∷◌, ◌++◌, [], length,
  ltb, leb, ◌==◌, arith, refl, ap, ◌∙◌, codes,
}
use isbd_zephyr_module.Serial.{Serial}
use isbd_zephyr_module.Serial.Delivery.{in_order-Delivers}
use isbd_zephyr_module.Libc.Print.{render}
use isbd_zephyr_module.Libc.Scan.Fields.{fields}
use isbd_zephyr_module.AtUart.Parse.Line.{IsEol}
use isbd_zephyr_module.AtUart.Command.Exchange.{sent-Exchange, in_order-Exchange}
use isbd_zephyr_module.Iridium.Dte.{DteErr, Dte}
use isbd_zephyr_module.Iridium.Evt.{evt_wait}
use isbd_zephyr_module.Iridium.Isu.Query.{short_response, long_response}
use isbd_zephyr_module.Iridium.Isu.Query.Answer.{answered}
use isbd_zephyr_module.Iridium.Isu.Session.{Session, init_session}
use isbd_zephyr_module.Iridium.Isu.Session.Answer.{
  Answers, IsSession, session_numbers, sbdix_cmd, init_session_lem,
}
use isbd_zephyr_module.Iridium.Isu.Binary.{set_mo}
use isbd_zephyr_module.Iridium.Isu.Binary.SetMo.{
  Takes, sbdwb_cmd, checksum_bytes, set_mo_ready, set_mo_taken,
}
use isbd_zephyr_module.Isbd.Kernel.{Heap, MsgQueue}
use isbd_zephyr_module.Isbd.Message.{MoMsg, IsbdEvt, Isbd}
use isbd_zephyr_module.Isbd.Queue.{put_evt, notify_mo_msg}
use isbd_zephyr_module.Isbd.Service.{
  Junk, is_ok, set_mo_msg, start_session, run_session, handle_session_mo_msg, handle_session_mt_msg,
  wait_for_dte_events, round,
}
use isbd_zephyr_module.Isbd.Events.{loop_stop}
use isbd_zephyr_module.Isbd.Retry.{block_msg}
use isbd_zephyr_module.Isbd.Blocks.Calls.{notify_mo_kept}
use isbd_zephyr_module.Isbd.Blocks.Session.{on_block}
use isbd_zephyr_module.Isbd.Blocks.Receive.{mt_idle}
use isbd_zephyr_module.Isbd.Blocks.Run.{run_started, start_handled}
use isbd_zephyr_module.Isbd.Blocks.World.{round_session}

module _ {Z : Type 0} ⦃line : Serial Z⦄ where
  -- What the modem says in a session for a message: it takes the message, answers with the session, and
  -- no event comes within the 10 ms behind it nor within `t` at the end of the round.
  pub record Sends (d : Dte Z) (msg : Bytes) (alert : Bool) (session : Session) (t : ℕ) (z₁ z₂ : Z)
      : Type 0 where
    pub takes : Takes d msg 0 z₁
    pub blank : Bool
    pub answers :
        Answers
          (answered d 0 z₁)
          (render (sbdix_cmd alert))
          (codes "+SBDIX:" ++ fields blank (session_numbers session))
          long_response
          z₂
    pub quiet : is_ok (evt_wait 10 (answered d 0 z₂)).0.0 ≡ false
    pub quiet_after : is_ok (evt_wait t (evt_wait 10 (answered d 0 z₂)).1).0.0 ≡ false

  in_order-Takes :
      (d : Dte Z) (msg : Bytes) (code : ℕ) (z' : Z)
      → line.in_order d.at_uart.zuart ≡ true
      → Takes d msg code z'
      → line.in_order z' ≡ true
  in_order-Takes d msg code z' o x =
      let z₂ = (line.write msg short_response x.asked).1 in
      in_order-Delivers short_response _ x.coded z' x.ends (
        in_order-Delivers short_response _ _ x.coded x.codes_it (
          line.in_order-write (checksum_bytes msg) short_response z₂ (
            line.in_order-write msg short_response x.asked (
              in_order-Exchange d.at_uart (render (sbdwb_cmd msg)) _ short_response x.asked o
                x.ready))))

  pub sent_in_session :
      (junk : Junk) (session : Session) (alert : Bool) (t : ℕ) (msg : Bytes) (z₁ z₂ : Z) (d : Dte Z)
      → IsEol d.at_uart.eol
      → line.in_order d.at_uart.zuart ≡ true
      → length msg < 2 ^ 16
      → Sends d msg alert session t z₁ z₂
      → line.sent z₂
        ≡ (((line.sent d.at_uart.zuart ++ render (sbdwb_cmd msg)) ++ msg) ++ checksum_bytes msg)
          ++ render (sbdix_cmd alert)
  sent_in_session junk session alert t msg z₁ z₂ d ee o h x =
      sent-Exchange (answered d 0 z₁).at_uart (render (sbdix_cmd alert)) _ long_response z₂
        (in_order-Takes d msg 0 z₁ o x.takes) x.answers.exchange
      ∙ ap (λ y. y ++ render (sbdix_cmd alert)) (set_mo_taken junk.code d msg 0 z₁ ee o h x.takes).1

module _ {H M E Z : Type 0} ⦃heap : Heap H⦄ ⦃mos : MsgQueue MoMsg M⦄ ⦃evts : MsgQueue IsbdEvt E⦄
    ⦃line : Serial Z⦄ where
  -- A wait for an event that does not come.
  pub wait_quiet :
      (t : ℕ) (s : Isbd H M E Z)
      → is_ok (evt_wait t s.dte).0.0 ≡ false
      → (wait_for_dte_events t s).1 ≡ record s { dte = (evt_wait t s.dte).1 }
  unfolding wait_for_dte_events
  wait_quiet t s h = loop_stop (line.pending s.dte.at_uart.zuart) t s h

  set_mo_msg_taken :
      (junk : Junk) (alert : Bool) (sn retries a : ℕ) (msg : Bytes) (z₁ : Z) (s : Isbd H M E Z)
      → heap.load a (length msg) s.heap ≡ msg
      → (length msg == 0) ≡ false
      → set_mo junk.code msg s.dte ≡ (DteErr.ok, answered s.dte 0 z₁)
      → set_mo_msg junk (block_msg alert sn retries a (length msg)) s ≡ (
        (DteErr.ok, block_msg alert sn retries a (length msg)),
        record s { dte = answered s.dte 0 z₁ },
      )
  unfolding set_mo_msg
  set_mo_msg_taken junk alert sn retries a msg z₁ s l n e = rw (n, l, e, set_mo_msg) refl

  -- The end of a session that took the message, with room for the event.
  mo_handled :
      (session : Session) (alert : Bool) (sn retries a len : ℕ) (s : Isbd H M E Z)
      → (len == 0) ≡ false
      → session.mo_sts < 3
      → length (evts.items s.evt_q) < evts.size s.evt_q
      → (handle_session_mo_msg session (block_msg alert sn retries a len) s).1
        ≡ (put_evt (IsbdEvt.mo (block_msg alert session.mo_msn retries a len)) s).1
  unfolding put_evt
  mo_handled session alert sn retries a len s n h r =
      let m = block_msg alert session.mo_msn retries a len in
      let (d, _, _) = evts.put_lem (IsbdEvt.mo m) s.evt_q in
      let there : ltb session.mo_sts 3 ≡ true = ground arith in
      let fits : (put_evt (IsbdEvt.mo m) s).0 ≡ true = ground (arith, d) in
      rw (on_block session alert sn retries a len s, n, there) (notify_mo_kept m s fits)

  -- A session that the modem answers, with no event behind it, ends in the handling of its message.
  pub session_handled :
      (junk : Junk) (session : Session) (alert : Bool) (sn retries a t : ℕ) (msg : Bytes)
      (z₁ z₂ : Z) (s : Isbd H M E Z)
      → IsEol s.dte.at_uart.eol
      → 0 < length msg
      → length msg < 2 ^ 16
      → heap.load a (length msg) s.heap ≡ msg
      → IsSession session
      → (session.mt_sts == 1) ≡ false
      → Sends s.dte msg alert session t z₁ z₂
      → let m = block_msg alert sn retries a (length msg) in
        (run_session junk m s).1
        ≡ (handle_session_mo_msg session m
            (record s { dte = (evt_wait 10 (answered s.dte 0 z₂)).1 })).1
  session_handled junk session alert sn retries a t msg z₁ z₂ s ee n h l i mt x =
      let m = block_msg alert sn retries a (length msg) in
      let d₁ = answered s.dte 0 z₁ in
      let s₁ : Isbd H M E Z = record s { dte = d₁ } in
      let some_len : (length msg == 0) ≡ false = ground arith in
      let q =
        set_mo_msg_taken junk alert sn retries a msg z₁ s l some_len
          (set_mo_ready junk.code s.dte msg 0 z₁ ee h x.takes) in
      let e : init_session junk.session alert d₁ ≡ ((DteErr.ok, session), answered s.dte 0 z₂) =
        init_session_lem d₁ junk.session session alert x.blank z₂ ee i x.answers in
      let started : is_ok (set_mo_msg junk m s).0.0 ≡ true =
        ap (λ (y : (DteErr × MoMsg) × Isbd H M E Z). is_ok y.0.0) q in
      let same : (set_mo_msg junk m s).0.1 ≡ m =
        ap (λ (y : (DteErr × MoMsg) × Isbd H M E Z). y.0.1) q in
      let open_it : is_ok (init_session junk.session alert d₁).0.0 ≡ true =
        ap (λ (y : (DteErr × Session) × Dte Z). is_ok y.0.0) e in
      run_started junk m s started same
      ∙ ap (λ (y : (DteErr × MoMsg) × Isbd H M E Z). (start_session junk m y.1).1) q
      ∙ start_handled junk m s₁ open_it
      ∙ ap
          (λ (y : (DteErr × Session) × Dte Z).
            (handle_session_mt_msg junk y.0.1
              (handle_session_mo_msg y.0.1 m
                (wait_for_dte_events 10 (record s { dte = y.1 })).1).1).1)
          e
      ∙ ap
          (λ (y : Isbd H M E Z).
            (handle_session_mt_msg junk session (handle_session_mo_msg session m y).1).1)
          (wait_quiet 10 (record s { dte = answered s.dte 0 z₂ }) x.quiet)
      ∙ mt_idle junk session _ mt

  -- A round with the service there handles the oldest message, and waits for events.
  pub round_handled :
      (junk : Junk) (session : Session) (alert : Bool) (sn retries a t : ℕ) (msg : Bytes)
      (z₁ z₂ : Z) (ms : List MoMsg) (s : Isbd H M E Z)
      → mos.items s.mo_q ≡ block_msg alert sn retries a (length msg) ∷ ms
      → 0 < s.service
      → s.sigq_threshold ≤ s.signal
      → IsEol s.dte.at_uart.eol
      → 0 < length msg
      → length msg < 2 ^ 16
      → heap.load a (length msg) s.heap ≡ msg
      → IsSession session
      → (session.mt_sts == 1) ≡ false
      → Sends s.dte msg alert session t z₁ z₂
      → (round junk t s).1
        ≡ (wait_for_dte_events t
            (handle_session_mo_msg session (block_msg alert sn retries a (length msg)) (record s {
              mo_q = (mos.get s.mo_q).1;
              dte = (evt_wait 10 (answered s.dte 0 z₂)).1;
            })).1).1
  round_handled junk session alert sn retries a t msg z₁ z₂ ms s i v g ee n h l k mt x =
      let m = block_msg alert sn retries a (length msg) in
      let (got, _, _) = mos.get_some m ms s.mo_q i in
      let there : (not (s.service == 0) && leb s.sigq_threshold s.signal) ≡ true = ground arith in
      let s₁ : Isbd H M E Z = record s { mo_q = (mos.get s.mo_q).1 } in
      round_session junk t m s there got
      ∙ ap (λ (y : Isbd H M E Z). (wait_for_dte_events t y).1)
          (session_handled junk session alert sn retries a t msg z₁ z₂ s₁ ee n h l k mt x)

  pub round_end :
      (junk : Junk) (session : Session) (alert : Bool) (sn retries a t : ℕ) (msg : Bytes)
      (z₁ z₂ : Z) (ms : List MoMsg) (s : Isbd H M E Z)
      → mos.items s.mo_q ≡ block_msg alert sn retries a (length msg) ∷ ms
      → 0 < s.service
      → s.sigq_threshold ≤ s.signal
      → IsEol s.dte.at_uart.eol
      → line.in_order s.dte.at_uart.zuart ≡ true
      → 0 < length msg
      → length msg < 2 ^ 16
      → heap.load a (length msg) s.heap ≡ msg
      → length (evts.items s.evt_q) < evts.size s.evt_q
      → IsSession session
      → session.mo_sts < 3
      → (session.mt_sts == 1) ≡ false
      → Sends s.dte msg alert session t z₁ z₂
      → (round junk t s).1 ≡ record s {
        mo_q = (mos.get s.mo_q).1;
        evt_q =
            (evts.put
              (IsbdEvt.mo (block_msg alert session.mo_msn retries a (length msg)))
              s.evt_q).1;
        dte = (evt_wait t (evt_wait 10 (answered s.dte 0 z₂)).1).1;
      }
  unfolding put_evt
  round_end junk session alert sn retries a t msg z₁ z₂ ms s i v g ee o n h l r k mo mt x =
      let s₃ : Isbd H M E Z = record s {
        mo_q = (mos.get s.mo_q).1;
        dte = (evt_wait 10 (answered s.dte 0 z₂)).1;
      } in
      round_handled junk session alert sn retries a t msg z₁ z₂ ms s i v g ee n h l k mt x
      ∙ ap (λ (y : Isbd H M E Z). (wait_for_dte_events t y).1)
          (mo_handled session alert sn retries a (length msg) s₃ (ground arith) mo r)
      ∙ wait_quiet t _ x.quiet_after
