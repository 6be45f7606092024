-- ===== src/Isbd/Blocks/Receive.antt =====
-- A message that comes in at the end of a session of lib/iridium/isbd/isbd.c.
use isbd_zephyr_module.Prelude.{
  ℕ, ◌+◌, ◌≤◌, ◌≡◌, Bytes, true, false, none, some, ltb, ◌==◌, arith, refl, ap, Bool-cases,
  Option-cases, inl, inr,
}
use isbd_zephyr_module.Serial.{Serial}
use isbd_zephyr_module.Iridium.Isu.Session.{Session}
use isbd_zephyr_module.Iridium.Isu.Binary.{get_mt}
use isbd_zephyr_module.Isbd.Kernel.{Heap, MsgQueue, count}
use isbd_zephyr_module.Isbd.Message.{MoMsg, MtMsg, IsbdErr, IsbdEvt, Isbd}
use isbd_zephyr_module.Isbd.Queue.{notify_err, notify_mt_msg}
use isbd_zephyr_module.Isbd.Service.{
  Junk, read_mt_msg, accept_mt_msg, reject_mt_msg, receive_mt_msg, handle_session_mt_msg,
}
use isbd_zephyr_module.Isbd.Blocks.{
  fresh_once, holds, allocated, owners, Keeps, Keeps-refl, Keeps-after, Keeps-before,
}
use isbd_zephyr_module.Isbd.Blocks.Calls.{
  destroy_mt_msg-Keeps, notify_err-Keeps, notify_mt_msg-Keeps,
}
use isbd_zephyr_module.Isbd.Blocks.Session.{request_session-Keeps}

live-stored :
    {H : Type 0} ⦃heap : Heap H⦄ (a b : ℕ) (buf : Bytes) (h : H)
    → count a (heap.live (heap.store b buf h)) ≡ count a (heap.live h)
live-stored ⦃heap⦄ a b buf h = ap (count a) (heap.live-store b buf h)

module _ {H M E Z : Type 0} ⦃heap : Heap H⦄ ⦃mos : MsgQueue MoMsg M⦄ ⦃evts : MsgQueue IsbdEvt E⦄
    ⦃line : Serial Z⦄ where
  pub read_mt_msg-Keeps :
      (a : ℕ) (junk : Junk) (b len : ℕ) (s : Isbd H M E Z)
      → Keeps a 0 s (read_mt_msg junk b len s).1 0
  unfolding read_mt_msg
  read_mt_msg-Keeps a junk b len s =
      let e = live-stored a b (get_mt (heap.load b len s.heap) len junk.csum s.dte).0.1 s.heap in
      record { balance = omega (arith, e); once = λ k. omega (arith, e) }

  accept_mt_msg-Keeps :
      (a : ℕ) (junk : Junk) (session : Session) (m : MtMsg) (s : Isbd H M E Z)
      → holds a m.block + owners a s ≤ allocated a s
      → Keeps a (holds a m.block) s (accept_mt_msg junk session m s).1 0
  unfolding accept_mt_msg
  accept_mt_msg-Keeps a junk session m s h =
      let s₁ = (notify_mt_msg m s).1 in
      let k = notify_mt_msg-Keeps a m s h in
      elim (Bool-cases (ltb 0 session.mt_queued)) [
        | inl e ↦
            rw (e, accept_mt_msg)
              (Keeps-before a (holds a m.block) 0 s s₁ _ k
                (request_session-Keeps a junk.sn junk.retries false s₁))
        | inr e ↦ rw (e, accept_mt_msg) k
      ]

  reject_mt_msg-Keeps :
      (a : ℕ) (m : MtMsg) (s : Isbd H M E Z)
      → holds a m.block + owners a s ≤ allocated a s
      → Keeps a (holds a m.block) s (reject_mt_msg m s).1 0
  unfolding reject_mt_msg
  reject_mt_msg-Keeps a m s h =
      let s₁ = (notify_err IsbdErr.err_mt s).1 in
      let n = notify_err-Keeps a IsbdErr.err_mt s in
      Keeps-after a (holds a m.block) 0 s s₁ _ n
        (destroy_mt_msg-Keeps a m s₁ (omega (arith, n.balance)))

  receive_mt_msg-Keeps :
      (a : ℕ) (junk : Junk) (session : Session) (b : ℕ) (s : Isbd H M E Z)
      → holds a (some b) + owners a s ≤ allocated a s
      → Keeps a (holds a (some b)) s (receive_mt_msg junk session b s).1 0
  unfolding receive_mt_msg
  receive_mt_msg-Keeps a junk session b s h =
      let r = read_mt_msg junk b session.mt_len s in
      let k = read_mt_msg-Keeps a junk b session.mt_len s in
      let m : MtMsg = record { sn = session.mt_msn; block = some b; len = r.0.1 } in
      let h' : holds a (some b) + owners a r.1 ≤ allocated a r.1 = omega (arith, k.balance) in
      elim (Bool-cases r.0.0) [
        | inl e ↦
            rw (e, receive_mt_msg)
              (Keeps-after a (holds a (some b)) 0 s r.1 _ k
                (accept_mt_msg-Keeps a junk session m r.1 h'))
        | inr e ↦
            rw (e, receive_mt_msg)
              (Keeps-after a (holds a (some b)) 0 s r.1 _ k (reject_mt_msg-Keeps a m r.1 h'))
      ]

  mt_none :
      (junk : Junk) (session : Session) (s : Isbd H M E Z)
      → (session.mt_sts == 1) ≡ true
      → (heap.malloc session.mt_len s.heap).0 ≡ none
      → (handle_session_mt_msg junk session s).1
        ≡ record s { heap = (heap.malloc session.mt_len s.heap).1 }
  unfolding handle_session_mt_msg
  mt_none junk session s t e = rw (t, e, handle_session_mt_msg) refl

  pub mt_some :
      (junk : Junk) (session : Session) (b : ℕ) (s : Isbd H M E Z)
      → (session.mt_sts == 1) ≡ true
      → (heap.malloc session.mt_len s.heap).0 ≡ some b
      → (handle_session_mt_msg junk session s).1
        ≡ (receive_mt_msg junk session b
            (record s { heap = (heap.malloc session.mt_len s.heap).1 })).1
  unfolding handle_session_mt_msg
  mt_some junk session b s t e = rw (t, e, handle_session_mt_msg) refl

  pub mt_idle :
      (junk : Junk) (session : Session) (s : Isbd H M E Z)
      → (session.mt_sts == 1) ≡ false
      → (handle_session_mt_msg junk session s).1 ≡ s
  unfolding handle_session_mt_msg
  mt_idle junk session s t = rw (t, handle_session_mt_msg) refl

  -- A message that comes in: its block is new, and goes to the user or is freed.
  pub handle_session_mt_msg-Keeps :
      (a : ℕ) (junk : Junk) (session : Session) (s : Isbd H M E Z)
      → owners a s ≤ allocated a s
      → Keeps a 0 s (handle_session_mt_msg junk session s).1 0
  handle_session_mt_msg-Keeps a junk session s h =
      let n = session.mt_len in
      let s₁ : Isbd H M E Z = record s { heap = (heap.malloc n s.heap).1 } in
      elim (Bool-cases (session.mt_sts == 1)) [
        | inr t ↦ rw (mt_idle junk session s t) (Keeps-refl a s)
        | inl t ↦ elim (Option-cases (heap.malloc n s.heap).0) [
          | inl e ↦
              let l = ap (count a) (heap.live-malloc_none n s.heap e) in
              rw (mt_none junk session s t e)
                (record { balance = omega (arith, l); once = λ k. omega (arith, l) })
          | inr (b, e) ↦
              let l = ap (count a) (heap.live-malloc_some n b s.heap e) in
              let f = heap.live_fresh n b s.heap e in
              let k = receive_mt_msg-Keeps a junk session b s₁ (ground (arith, l, h)) in
              rw (mt_some junk session b s t e) (record {
                balance = ground (arith, l, k.balance);
                once = λ g. k.once (fresh_once a b s s₁ l f g);
              })
        ]
      ]
