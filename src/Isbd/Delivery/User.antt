-- ===== src/Isbd/Delivery/User.antt =====
-- A message that a user gives to lib/iridium/isbd/isbd.c, from the user to the line and back.
use isbd_zephyr_module.Prelude.{
  ℕ, ◌<◌, ◌≤◌, ◌≡◌, ◌^◌, Bytes, Bool, true, false, List, some, ◌∷◌, ◌++◌, [], length, ltb, ◌==◌,
  arith, refl, ap, ◌∙◌,
}
use isbd_zephyr_module.Serial.{Serial}
use isbd_zephyr_module.Libc.Print.{render}
use isbd_zephyr_module.AtUart.Parse.Line.{IsEol}
use isbd_zephyr_module.Iridium.Isu.Session.{Session}
use isbd_zephyr_module.Iridium.Isu.Session.Answer.{IsSession, sbdix_cmd}
use isbd_zephyr_module.Iridium.Isu.Binary.SetMo.{sbdwb_cmd, checksum_bytes}
use isbd_zephyr_module.Isbd.Kernel.{Heap, MsgQueue}
use isbd_zephyr_module.Isbd.Message.{MoMsg, IsbdEvt, Isbd}
use isbd_zephyr_module.Isbd.Queue.{send_mo_msg, send_block, merge_request, enqueue_mo_msg}
use isbd_zephyr_module.Isbd.Service.{Junk, round}
use isbd_zephyr_module.Isbd.Retry.{block_msg}
use isbd_zephyr_module.Iridium.Evt.{evt_wait}
use isbd_zephyr_module.Iridium.Isu.Query.Answer.{answered}
use isbd_zephyr_module.Isbd.Events.{evt_wait_sent}
use isbd_zephyr_module.Isbd.Delivery.{Sends, sent_in_session, round_end}

module _ {H M E Z : Type 0} ⦃heap : Heap H⦄ ⦃mos : MsgQueue MoMsg M⦄ ⦃evts : MsgQueue IsbdEvt E⦄
    ⦃line : Serial Z⦄ where
  -- `isbd_send_mo_msg` on an empty queue, with a block for the message.
  sent_empty :
      (sn : ℕ) (msg : Bytes) (retries a : ℕ) (s : Isbd H M E Z)
      → mos.items s.mo_q ≡ []
      → (heap.malloc (length msg) s.heap).0 ≡ some a
      → (send_mo_msg sn msg retries s).1 ≡ record s {
        heap = heap.store a msg (heap.malloc (length msg) s.heap).1;
        mo_q = (mos.put (block_msg false sn retries a (length msg)) s.mo_q).1;
      }
  unfolding send_mo_msg send_block merge_request enqueue_mo_msg
  sent_empty sn msg retries a s i e =
      let n : (mos.num_used s.mo_q == 1) ≡ false =
        ground (arith, mos.num_used_lem s.mo_q, ap length i) in
      rw (e, send_mo_msg, n, merge_request) refl

  -- What goes over the line, and where the message is, at the end of a round.
  abbrev pub Delivered :
      Bool → Session → ℕ → ℕ → Bytes → List MoMsg → Isbd H M E Z → Isbd H M E Z → Type 0
  Delivered alert session retries a msg ms s s' =
      (mos.items s'.mo_q ≡ ms)
      × (evts.items s'.evt_q
          ≡ evts.items s.evt_q
            ++ IsbdEvt.mo (block_msg alert session.mo_msn retries a (length msg)) ∷ [])
      × (heap.load a (length msg) s'.heap ≡ msg)
      × (line.sent s'.dte.at_uart.zuart
          ≡ (((line.sent s.dte.at_uart.zuart ++ render (sbdwb_cmd msg)) ++ msg)
              ++ checksum_bytes msg)
            ++ render (sbdix_cmd alert))

  -- A message of 1 to 2 ^ 16 - 1 bytes that `isbd_send_mo_msg` puts into an empty queue, with a block for
  -- it and room in both queues: where the service is there and the signal is at the threshold or above, the
  -- modem takes the message with the number 0 and reports a session that sent it and received none, and
  -- no event comes meanwhile,
  -- on a port where no write overtakes another, the message is out of the queue at the end of the next
  -- round of the thread, the port has put exactly the command of its length, the message, its checksum and
  -- the command of a session on the line since the call, and one event more is in the queue, with the
  -- number of the session and the block, which still holds the message.
  pub send_delivers :
      (junk : Junk) (session : Session) (sn retries a t : ℕ) (msg : Bytes) (z₁ z₂ : Z)
      (s : Isbd H M E Z)
      → mos.items s.mo_q ≡ []
      → 0 < mos.size s.mo_q
      → (heap.malloc (length msg) s.heap).0 ≡ some a
      → 0 < s.service
      → s.sigq_threshold ≤ s.signal
      → IsEol s.dte.at_uart.eol
      → line.in_order s.dte.at_uart.zuart ≡ true
      → 0 < length msg
      → length msg < 2 ^ 16
      → length (evts.items s.evt_q) < evts.size s.evt_q
      → IsSession session
      → session.mo_sts < 3
      → (session.mt_sts == 1) ≡ false
      → Sends s.dte msg false session t z₁ z₂
      → Delivered false session retries a msg [] s (round junk t (send_mo_msg sn msg retries s).1).1
  send_delivers junk session sn retries a t msg z₁ z₂ s i room e v g ee o n h r k mo mt x =
      let m = block_msg false sn retries a (length msg) in
      let reported = IsbdEvt.mo (block_msg false session.mo_msn retries a (length msg)) in
      let h₁ = (heap.malloc (length msg) s.heap).1 in
      let s₁ : Isbd H M E Z = record s {
        heap = heap.store a msg h₁;
        mo_q = (mos.put m s.mo_q).1;
      } in
      let (d, j, _) = mos.put_lem m s.mo_q in
      let fits : ltb (length (mos.items s.mo_q)) (mos.size s.mo_q) ≡ true =
        ground (arith, ap length i) in
      let lone : mos.items s₁.mo_q ≡ m ∷ [] = rw (d, fits, i) at j in
      let l = heap.load-store a msg h₁ in
      let (_, left, _) = mos.get_some m [] s₁.mo_q lone in
      let (d', j', _) = evts.put_lem reported s.evt_q in
      let fits' : ltb (length (evts.items s.evt_q)) (evts.size s.evt_q) ≡ true = ground arith in
      let last : evts.items (evts.put reported s.evt_q).1 ≡ evts.items s.evt_q ++ reported ∷ [] =
        rw (d', fits') at j' in
      rw
        (
          sent_empty sn msg retries a s i e,
          round_end junk session false sn retries a t msg z₁ z₂ [] s₁ lone v g ee o n h l r k mo mt
              x,
        )
        (
          left,
          last,
          l,
          evt_wait_sent t (evt_wait 10 (answered s.dte 0 z₂)).1
              ∙ evt_wait_sent 10 (answered s.dte 0 z₂)
              ∙ sent_in_session junk session false t msg z₁ z₂ s.dte ee o h x,
        )
