-- ===== src/Isbd/Delivery/Arrival.antt =====
-- The answer of lib/iridium/isbd/isbd.c to a ring: the session that is requested brings the message.
use isbd_zephyr_module.Prelude.{
  ℕ, ◌<◌, ◌≤◌, ◌≡◌, ◌^◌, Bytes, Bool, true, false, not, ◌&&◌, some, List, [], ◌∷◌, ◌++◌, length,
  ltb, leb, ◌==◌, if◌then◌else◌, arith, refl, ap, ◌∙◌,
}
use isbd_zephyr_module.Serial.{Serial}
use isbd_zephyr_module.AtUart.Parse.Line.{IsEol}
use isbd_zephyr_module.Iridium.Evt.{evt_wait}
use isbd_zephyr_module.Iridium.Isu.Session.{Session}
use isbd_zephyr_module.Iridium.Isu.Session.Answer.{IsSession}
use isbd_zephyr_module.Isbd.Kernel.{Heap, MsgQueue}
use isbd_zephyr_module.Isbd.Message.{MoMsg, IsbdEvt, Isbd}
use isbd_zephyr_module.Isbd.Queue.{request_session, enqueue_mo_msg, put_evt, destroy_evt}
use isbd_zephyr_module.Isbd.Service.{Junk, wait_for_dte_events, round}
use isbd_zephyr_module.Isbd.Action.{run, run_bind}
use isbd_zephyr_module.Isbd.Atomic.{request_code}
use isbd_zephyr_module.Isbd.Atomic.App.{evt_handler}
use isbd_zephyr_module.Isbd.Atomic.Whole.{request_whole}
use isbd_zephyr_module.Isbd.Blocks.Session.{request_made}
use isbd_zephyr_module.Isbd.Blocks.World.{round_session}
use isbd_zephyr_module.Isbd.Delivery.{wait_quiet}
use isbd_zephyr_module.Isbd.Delivery.Incoming.{request_msg, mt_msg, waited, Receives}
use isbd_zephyr_module.Isbd.Delivery.Handover.{read_into, session_incoming}

-- The queue of messages behind a session that brought a message.
abbrev pub then_asked : Junk → Session → List MoMsg
then_asked junk session =
    if ltb 0 session.mt_queued then request_msg false junk.sn junk.retries ∷ [] else []

module _ {H M E Z : Type 0} ⦃heap : Heap H⦄ ⦃mos : MsgQueue MoMsg M⦄ ⦃evts : MsgQueue IsbdEvt E⦄
    ⦃line : Serial Z⦄ where
  -- A state in which only the queue of messages is another.
  record Requested (q : List MoMsg) (s s' : Isbd H M E Z) : Type 0 where
    queue : M
    size_eq : mos.size queue ≡ mos.size s.mo_q
    same : s' ≡ record s { mo_q = queue }
    items_eq : mos.items queue ≡ q

  request_empty :
      (sn retries : ℕ) (alert : Bool) (s : Isbd H M E Z)
      → mos.items s.mo_q ≡ []
      → 0 < mos.size s.mo_q
      → Requested (request_msg alert sn retries ∷ []) s (request_session sn retries alert s).1
  unfolding enqueue_mo_msg
  request_empty sn retries alert s i z =
      let m = request_msg alert sn retries in
      let n : (mos.num_used s.mo_q == 0) ≡ true =
        ground (arith, mos.num_used_lem s.mo_q, ap length i) in
      let (d, j, l) = mos.put_lem m s.mo_q in
      let fits : ltb (length (mos.items s.mo_q)) (mos.size s.mo_q) ≡ true =
        ground (arith, ap length i) in
      record {
        queue = (mos.put m s.mo_q).1;
        size_eq = l;
        same = request_made sn retries alert s n;
        items_eq = rw (d, fits, i) at j;
      }

  asked_more :
      (junk : Junk) (more : Bool) (s : Isbd H M E Z)
      → mos.items s.mo_q ≡ []
      → 0 < mos.size s.mo_q
      → Requested
          (if more then request_msg false junk.sn junk.retries ∷ [] else [])
          s
          (if more then (request_session junk.sn junk.retries false s).1 else s)
  asked_more junk true s i z = request_empty junk.sn junk.retries false s i z
  asked_more junk false s i z = record { queue = s.mo_q; size_eq = refl; same = refl; items_eq = i }

  -- What the user finds at the end of the round.
  abbrev pub Arrived : Junk → Session → ℕ → Bytes → Isbd H M E Z → Isbd H M E Z → Type 0
  Arrived junk session b msg s s' =
      (evts.items s'.evt_q
        ≡ evts.items s.evt_q ++ IsbdEvt.mt (mt_msg session.mt_msn b (length msg)) ∷ [])
      × (heap.load b (length msg) s'.heap ≡ msg)
      × (mos.items s'.mo_q ≡ then_asked junk session)

  round_incoming :
      (junk : Junk) (session : Session) (sn retries b t : ℕ) (msg : Bytes) (z₁ z₂ m z₃ : Z)
      (s : Isbd H M E Z)
      → mos.items s.mo_q ≡ request_msg true sn retries ∷ []
      → 0 < mos.size s.mo_q
      → 0 < s.service
      → s.sigq_threshold ≤ s.signal
      → IsEol s.dte.at_uart.eol
      → length msg < 2 ^ 16
      → length (evts.items s.evt_q) < evts.size s.evt_q
      → IsSession session
      → (session.mt_sts == 1) ≡ true
      → session.mt_len ≡ length msg
      → (heap.malloc (length msg) s.heap).0 ≡ some b
      → Receives s.dte msg session t z₁ z₂ m z₃
      → Arrived junk session b msg s (round junk t s).1
  unfolding put_evt
  round_incoming junk session sn retries b t msg z₁ z₂ m z₃ s i z v g ee h r k mt len e x =
      let q = request_msg true sn retries in
      let (got, left, size_eq) = mos.get_some q [] s.mo_q i in
      let there : (not (s.service == 0) && leb s.sigq_threshold s.signal) ≡ true = ground arith in
      let s₁ : Isbd H M E Z = record s { mo_q = (mos.get s.mo_q).1 } in
      let event = IsbdEvt.mt (mt_msg session.mt_msn b (length msg)) in
      let s₂ : Isbd H M E Z =
        (put_evt event (read_into b msg z₃ (record s₁ { dte = waited s.dte z₂ }))).1 in
      let more = asked_more junk (ltb 0 session.mt_queued) s₂ left (omega (arith, z, size_eq)) in
      let (d, j, _) = evts.put_lem event s.evt_q in
      let fits : ltb (length (evts.items s.evt_q)) (evts.size s.evt_q) ≡ true = ground arith in
      let s₃ : Isbd H M E Z = record s₂ { mo_q = more.queue } in
      let ends : (round junk t s).1 ≡ record s₃ { dte = (evt_wait t s₃.dte).1 } =
        round_session junk t q s there got
        ∙ ap (λ (y : Isbd H M E Z). (wait_for_dte_events t y).1)
            (session_incoming junk session sn retries b t msg z₁ z₂ m z₃ s₁ ee h r k mt len e x
              ∙ more.same)
        ∙ wait_quiet t s₃ x.quiet_after in
      rw ends (
        rw (d, fits) at j,
        heap.load-store b msg (heap.malloc (length msg) s.heap).1,
        more.items_eq,
      )

  -- `_isbd_evt_handler` of samples/isbd_app for a ring.
  ring_handled :
      (sn retries : ℕ) (s : Isbd H M E Z)
      → (run (evt_handler sn retries IsbdEvt.ring) s).1 ≡ (request_session sn retries true s).1
  unfolding evt_handler destroy_evt
  ring_handled sn retries s =
      ap (λ (y : Unit {0} × Isbd H M E Z). y.1)
        (run_bind (request_code sn retries true) _ s _ (tt, (request_session sn retries true s).1)
          (request_whole sn retries true s) refl)

  -- Where samples/isbd_app handles a ring while no message is queued and there is room in both queues, the
  -- service is there and the signal is at the threshold or above, and the modem clears its buffer, reports
  -- a session that received a message, hands over a message of less than 2 ^ 16 bytes of the length
  -- that the session told, with its checksum, and announces no event meanwhile: with a block for the
  -- message, the next round of the thread puts one event into the queue, with the number of the session
  -- and a block that holds exactly the message, and requests another session exactly if the gateway has
  -- more messages.
  pub ring_incoming :
      (junk : Junk) (session : Session) (sn retries b t : ℕ) (msg : Bytes) (z₁ z₂ m z₃ : Z)
      (s : Isbd H M E Z)
      → mos.items s.mo_q ≡ []
      → 0 < mos.size s.mo_q
      → 0 < s.service
      → s.sigq_threshold ≤ s.signal
      → IsEol s.dte.at_uart.eol
      → length msg < 2 ^ 16
      → length (evts.items s.evt_q) < evts.size s.evt_q
      → IsSession session
      → (session.mt_sts == 1) ≡ true
      → session.mt_len ≡ length msg
      → (heap.malloc (length msg) s.heap).0 ≡ some b
      → Receives s.dte msg session t z₁ z₂ m z₃
      → Arrived junk session b msg s
          (round junk t (run (evt_handler sn retries IsbdEvt.ring) s).1).1
  ring_incoming junk session sn retries b t msg z₁ z₂ m z₃ s i z v g ee h r k mt len e x =
      let q = request_empty sn retries true s i z in
      let s₁ : Isbd H M E Z = record s { mo_q = q.queue } in
      rw (ring_handled sn retries s, q.same)
        (round_incoming junk session sn retries b t msg z₁ z₂ m z₃ s₁ q.items_eq
          (omega (arith, z, q.size_eq)) v g ee h r k mt len e x)
