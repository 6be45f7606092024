-- ===== src/Isbd/Delivery/Retries.antt =====
-- How often the thread of lib/iridium/isbd/isbd.c sends a message that the network does not take.
use isbd_zephyr_module.Prelude.{
  ℕ, zero, suc, ◌-◌, ◌≤◌, ◌<◌, ◌≡◌, ◌⊎◌, ◌^◌, Bytes, Bool, true, false, [], ◌∷◌, ◌++◌, length, ltb,
  ◌==◌, arith, refl, ap, subst, ◌∙◌, inl, inr,
}
use isbd_zephyr_module.Serial.{Serial}
use isbd_zephyr_module.AtUart.Parse.{parse_resp}
use isbd_zephyr_module.AtUart.Parse.Line.{IsEol}
use isbd_zephyr_module.Iridium.Dte.{Dte}
use isbd_zephyr_module.Iridium.Evt.{evt_wait}
use isbd_zephyr_module.Iridium.Isu.Query.Answer.{answered}
use isbd_zephyr_module.Iridium.Isu.Session.{Session}
use isbd_zephyr_module.Iridium.Isu.Session.Answer.{IsSession}
use isbd_zephyr_module.Isbd.Kernel.{Heap, MsgQueue, without}
use isbd_zephyr_module.Isbd.Message.{MoMsg, IsbdErr, IsbdEvt, Isbd}
use isbd_zephyr_module.Isbd.Queue.{enqueue_mo_msg, destroy_mo_msg, notify_err, put_evt}
use isbd_zephyr_module.Isbd.Service.{Junk, wait_for_dte_events, round}
use isbd_zephyr_module.Isbd.Retry.{
  block_msg, evt_items, handle_again, handle_last, err_queued, GivenUp,
}
use isbd_zephyr_module.Isbd.Send.{SameRest, SameRest-trans}
use isbd_zephyr_module.Isbd.Delivery.{Sends, wait_quiet, round_handled}

module _ {Z : Type 0} ⦃line : Serial Z⦄ where
  evt_wait_eol : (t : ℕ) (dte : Dte Z) → (evt_wait t dte).1.at_uart.eol ≡ dte.at_uart.eol
  unfolding evt_wait parse_resp
  evt_wait_eol t dte = refl

  -- Waiting for events keeps the character that ends a line.
  waits_eol :
      (t : ℕ) (dte : Dte Z) (z : Z)
      → IsEol dte.at_uart.eol
      → IsEol (evt_wait t (evt_wait 10 (answered dte 0 z)).1).1.at_uart.eol
  waits_eol t dte z h =
      rw (evt_wait_eol t (evt_wait 10 (answered dte 0 z)).1, evt_wait_eol 10 (answered dte 0 z)) h

module _ {H M E Z : Type 0} ⦃heap : Heap H⦄ ⦃mos : MsgQueue MoMsg M⦄ ⦃evts : MsgQueue IsbdEvt E⦄
    ⦃line : Serial Z⦄ where
  -- The message waits alone in the queue, to be sent `r` times more behind a failure, its block holds
  -- it, and the service is there with enough of a signal.
  pub record Waiting (alert : Bool) (sn r a : ℕ) (msg : Bytes) (s : Isbd H M E Z) : Type 0 where
    pub mo_eq : mos.items s.mo_q ≡ block_msg alert sn r a (length msg) ∷ []
    pub there : 0 < s.service
    pub enough : s.sigq_threshold ≤ s.signal
    pub eol : IsEol s.dte.at_uart.eol
    pub stored : heap.load a (length msg) s.heap ≡ msg

  -- Rounds of the thread, in each of which the modem takes the message and reports a session that did
  -- not get it through and received none.
  pub data Failures (msg : Bytes) (alert : Bool) : ℕ → Isbd H M E Z → Isbd H M E Z → Type 0 where
    no_round : {s : Isbd H M E Z} → Failures msg alert zero s s
    round_fails :
        {s s' : Isbd H M E Z} {n : ℕ}
        → (junk : Junk) (session : Session) (t : ℕ) (z₁ z₂ : Z) → IsSession session
        → 3 ≤ session.mo_sts
        → (session.mt_sts == 1) ≡ false
        → Sends s.dte msg alert session t z₁ z₂
        → Failures msg alert n (round junk t s).1 s'
        → Failures msg alert (suc n) s s'

  round_again :
      (junk : Junk) (session : Session) (alert : Bool) (sn r a t : ℕ) (msg : Bytes) (z₁ z₂ : Z)
      (s : Isbd H M E Z)
      → Waiting alert sn (suc r) a msg s
      → 0 < length msg
      → length msg < 2 ^ 16
      → IsSession session
      → 3 ≤ session.mo_sts
      → (session.mt_sts == 1) ≡ false
      → Sends s.dte msg alert session t z₁ z₂
      → (round junk t s).1 ≡ record s {
        mo_q = (mos.put (block_msg alert sn r a (length msg)) (mos.get s.mo_q).1).1;
        dte = (evt_wait t (evt_wait 10 (answered s.dte 0 z₂)).1).1;
      }
  unfolding enqueue_mo_msg
  round_again junk session alert sn r a t msg z₁ z₂ s w n h k mo mt x =
      let s₃ : Isbd H M E Z = record s {
        mo_q = (mos.get s.mo_q).1;
        dte = (evt_wait 10 (answered s.dte 0 z₂)).1;
      } in
      round_handled junk session alert sn (suc r) a t msg z₁ z₂ [] s w.mo_eq w.there w.enough w.eol
        n h w.stored k mt x
      ∙ ap (λ (y : Isbd H M E Z). (wait_for_dte_events t y).1)
          (handle_again session alert sn r a (length msg) s₃ mo n)
      ∙ wait_quiet t _ x.quiet_after

  -- A round that fails, with a retry left.
  round_waits :
      (junk : Junk) (session : Session) (alert : Bool) (sn r a t : ℕ) (msg : Bytes) (z₁ z₂ : Z)
      (s : Isbd H M E Z)
      → Waiting alert sn (suc r) a msg s
      → 0 < length msg
      → length msg < 2 ^ 16
      → IsSession session
      → 3 ≤ session.mo_sts
      → (session.mt_sts == 1) ≡ false
      → Sends s.dte msg alert session t z₁ z₂
      → Waiting alert sn r a msg (round junk t s).1 × SameRest s (round junk t s).1
  round_waits junk session alert sn r a t msg z₁ z₂ s w n h k mo mt x =
      let m = block_msg alert sn r a (length msg) in
      let q = (mos.get s.mo_q).1 in
      let (_, left, z) = mos.get_some _ [] s.mo_q w.mo_eq in
      let (d, i, z') = mos.put_lem m q in
      let fits : ltb (length (mos.items q)) (mos.size q) ≡ true =
        ground (arith, ap length left, z, mos.items_le s.mo_q, ap length w.mo_eq) in
      let back : mos.items (mos.put m q).1 ≡ m ∷ [] = rw (d, fits, left) at i in
      rw (round_again junk session alert sn r a t msg z₁ z₂ s w n h k mo mt x) (
        record {
          mo_eq = back;
          there = w.there;
          enough = w.enough;
          eol = waits_eol t s.dte z₂ w.eol;
          stored = w.stored;
        },
        record { size_eq = z' ∙ z; heap_eq = refl; evt_q_eq = refl },
      )

  -- A round that fails, with no retry left.
  round_gives_up :
      (junk : Junk) (session : Session) (alert : Bool) (sn a t : ℕ) (msg : Bytes) (z₁ z₂ : Z)
      (s : Isbd H M E Z)
      → Waiting alert sn 0 a msg s
      → 0 < length msg
      → length msg < 2 ^ 16
      → length (evt_items s) < evts.size s.evt_q
      → IsSession session
      → 3 ≤ session.mo_sts
      → (session.mt_sts == 1) ≡ false
      → Sends s.dte msg alert session t z₁ z₂
      → GivenUp a s (round junk t s).1
  unfolding destroy_mo_msg notify_err put_evt
  round_gives_up junk session alert sn a t msg z₁ z₂ s w n h e k mo mt x =
      let s₃ : Isbd H M E Z = record s {
        mo_q = (mos.get s.mo_q).1;
        dte = (evt_wait 10 (answered s.dte 0 z₂)).1;
      } in
      let (_, left, _) = mos.get_some _ [] s.mo_q w.mo_eq in
      let (told, _, _) = err_queued s₃ e in
      let ends =
        round_handled junk session alert sn 0 a t msg z₁ z₂ [] s w.mo_eq w.there w.enough w.eol n h
          w.stored k mt x
        ∙ ap (λ (y : Isbd H M E Z). (wait_for_dte_events t y).1)
            (handle_last session alert sn a (length msg) s₃ mo n)
        ∙ wait_quiet t _ x.quiet_after in
      rw ends (record { mo_empty = left; told = told; live_eq = heap.live-free a s.heap })

  Failures-none :
      (msg : Bytes) (alert : Bool) (s s' : Isbd H M E Z) → Failures msg alert zero s s' → s ≡ s'
  Failures-none msg alert s s' no_round = refl

  Waiting-same :
      (alert : Bool) (sn r k a : ℕ) (msg : Bytes) (s : Isbd H M E Z)
      → r ≡ k
      → Waiting alert sn r a msg s
      → Waiting alert sn k a msg s
  Waiting-same alert sn r k a msg s e w = rw e at w

  GivenUp-SameRest :
      (a : ℕ) (s s₁ s' : Isbd H M E Z) → SameRest s s₁ → GivenUp a s₁ s' → GivenUp a s s'
  GivenUp-SameRest a s s₁ s' x g = record {
    mo_empty = g.mo_empty;
    told = g.told ∙ ap (λ q. evts.items q ++ IsbdEvt.failed IsbdErr.err_mo ∷ []) x.evt_q_eq;
    live_eq = g.live_eq ∙ ap (λ k. without a (heap.live k)) x.heap_eq;
  }

  -- A message alone in the queue that may be sent `r` times more, in rounds of the thread with the service
  -- and enough of a signal there, in each of which the modem takes the message, reports a session that
  -- did not get it through and received none, and no event comes: behind `n` of them, `n` at most `r`,
  -- the message waits in the queue to be sent `r - n` times more, with the heap and the events as they
  -- were; behind `r + 1` of them, if there was room for an event, the queue is empty, an event tells the
  -- user, and the block of the message is freed. The message has 1 to 2 ^ 16 - 1 bytes. (A session that the modem
  -- refuses or does not answer is not such a round.)
  pub retries_lem :
      (alert : Bool) (sn n r a : ℕ) (msg : Bytes) (s s' : Isbd H M E Z)
      → Waiting alert sn r a msg s
      → 0 < length msg
      → length msg < 2 ^ 16
      → length (evt_items s) < evts.size s.evt_q
      → n ≤ suc r
      → Failures msg alert n s s'
      → ((n ≤ r) × Waiting alert sn (r - n) a msg s' × SameRest s s')
        ⊎ ((n ≡ suc r) × GivenUp a s s')
  retries_lem alert sn zero r a msg s s' w m h e l no_round = inl (
    omega arith,
    Waiting-same alert sn r (r - 0) a msg s (omega arith) w,
    record { size_eq = refl; heap_eq = refl; evt_q_eq = refl },
  )
  retries_lem alert sn (suc zero) zero a msg s s' w m h e l
        (round_fails junk session t z₁ z₂ k mo mt x f) =
      inr (
        refl,
        subst (λ v. GivenUp a s v) (Failures-none msg alert (round junk t s).1 s' f)
            (round_gives_up junk session alert sn a t msg z₁ z₂ s w m h e k mo mt x),
      )
  retries_lem alert sn (suc (suc n)) zero a msg s s' w m h e l f = absurd (omega arith)
  retries_lem alert sn (suc n) (suc r) a msg s s' w m h e l
        (round_fails junk session t z₁ z₂ k mo mt x f) =
      let s₁ = (round junk t s).1 in
      let (w₁, y) = round_waits junk session alert sn r a t msg z₁ z₂ s w m h k mo mt x in
      let e₁ : length (evt_items s₁) < evts.size s₁.evt_q =
        omega (arith, e, ap (λ q. length (evts.items q)) y.evt_q_eq, ap evts.size y.evt_q_eq) in
      elim (retries_lem alert sn n r a msg s₁ s' w₁ m h e₁ (omega arith) f) [
        | inl (b, v, z) ↦ inl (
          omega arith,
          Waiting-same alert sn (r - n) (suc r - suc n) a msg s' (omega arith) v,
          SameRest-trans s s₁ s' y z,
        )
        | inr (b, g) ↦ inr (ap suc b, GivenUp-SameRest a s s₁ s' y g)
      ]
