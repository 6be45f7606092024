-- ===== src/Isbd/Atomic/Thread.antt =====
-- The thread of lib/iridium/isbd/isbd.c keeps the blocks of the heap, whatever other threads do between its
-- actions.
use isbd_zephyr_module.Prelude.{ℕ, Bool, false, Option, none, some, ltb, ◌==◌, arith, refl}
use isbd_zephyr_module.Serial.{Serial}
use isbd_zephyr_module.Iridium.Isu.Session.{Session}
use isbd_zephyr_module.Isbd.Kernel.{Heap, MsgQueue}
use isbd_zephyr_module.Isbd.Message.{MoMsg, MtMsg, IsbdErr, IsbdEvt}
use isbd_zephyr_module.Isbd.Service.{Junk, read_mt_msg}
use isbd_zephyr_module.Isbd.Action.{ret}
use isbd_zephyr_module.Isbd.Atomic.{alloc, mo_code, accept_code, reject_code, receive_code, mt_code}
use isbd_zephyr_module.Isbd.Atomic.Safe.{Safe, Keeps-pass, Safe-act, Safe-le, Safe->>=, Safe-if}
use isbd_zephyr_module.Isbd.Atomic.User.{
  nothing, alloc-Keeps, request_code-Safe, notify_mt_code-Safe, notify_mo_code-Safe,
}
use isbd_zephyr_module.Isbd.Blocks.{holds}
use isbd_zephyr_module.Isbd.Blocks.Calls.{
  destroy_mo_msg-Keeps, destroy_mt_msg-Keeps, enqueue_mo_msg-Keeps, put_evt-Keeps_none,
}
use isbd_zephyr_module.Isbd.Blocks.Receive.{read_mt_msg-Keeps}

module _ {H M E Z : Type 0} ⦃heap : Heap H⦄ ⦃mos : MsgQueue MoMsg M⦄ ⦃evts : MsgQueue IsbdEvt E⦄
    ⦃line : Serial Z⦄ where
  -- The branches for a message with a block.
  block-Safe :
      (a : ℕ) (session : Session) (alert : Bool) (sn retries b len : ℕ)
      → let m : MoMsg = record {
        alert = alert;
        sn = sn;
        retries = retries;
        block = some b;
        len = len;
      } in
        Safe {H = H} {M = M} {E = E} {Z = Z} a nothing (holds a (some b)) (mo_code session m)
  unfolding mo_code
  block-Safe a session alert sn retries b len =
      let m : MoMsg = record {
        alert = alert;
        sn = sn;
        retries = retries;
        block = some b;
        len = len;
      } in
      let n = holds a (some b) in
      Safe-if a nothing n (len == 0) _ _ (record { next = omega arith })
        (Safe-if a nothing n (ltb session.mo_sts 3) _ _
          (notify_mo_code-Safe a (record m { sn = session.mo_msn }))
          (Safe-if a nothing n (ltb 0 retries) _ _
            (Safe-act a nothing n
              (λ s h. (_, enqueue_mo_msg-Keeps a _ s, record { next = omega arith })))
            (Safe-act a nothing n (λ s h. (
              n,
              Keeps-pass a n s _ (put_evt-Keeps_none a (IsbdEvt.failed IsbdErr.err_mo) s refl),
              Safe-act a nothing n (λ s₁ h₁. (
                0,
                destroy_mo_msg-Keeps a m s₁ (omega (arith, h₁)),
                record { next = omega arith },
              )),
            )))))

  mo_fields-Safe :
      (a : ℕ) (session : Session) (alert : Bool) (sn retries : ℕ) (b : Option ℕ) (len : ℕ)
      → let m : MoMsg = record {
        alert = alert;
        sn = sn;
        retries = retries;
        block = b;
        len = len;
      } in
        Safe {H = H} {M = M} {E = E} {Z = Z} a nothing (holds a b) (mo_code session m)
  unfolding mo_code
  mo_fields-Safe a session alert sn retries none len = record { next = omega arith }
  mo_fields-Safe a session alert sn retries (some b) len =
      block-Safe a session alert sn retries b len

  pub mo_code-Safe :
      (a : ℕ) (session : Session) (m : MoMsg)
      → Safe {H = H} {M = M} {E = E} {Z = Z} a nothing (holds a m.block) (mo_code session m)
  mo_code-Safe a session m = mo_fields-Safe a session m.alert m.sn m.retries m.block m.len

  -- The code of a message that came in, which has the block.
  accept_code-Safe :
      (a : ℕ) (junk : Junk) (session : Session) (m : MtMsg)
      → Safe {H = H} {M = M} {E = E} {Z = Z} a nothing
          (holds a m.block)
          (accept_code junk session m)
  unfolding accept_code
  accept_code-Safe a junk session m =
      Safe->>= a nothing nothing (holds a m.block) _ _ (notify_mt_code-Safe a m) (λ _ n _.
        Safe-if a nothing n (ltb 0 session.mt_queued) _ _
          (Safe-le a nothing 0 n _
            (Safe->>= a nothing nothing 0 _ _ (request_code-Safe a junk.sn junk.retries false)
              (λ _ n' _. record { next = omega arith }))
            (omega arith))
          (record { next = omega arith }))

  reject_code-Safe :
      (a : ℕ) (m : MtMsg)
      → Safe {H = H} {M = M} {E = E} {Z = Z} a nothing (holds a m.block) (reject_code m)
  unfolding reject_code
  reject_code-Safe a m =
      let n = holds a m.block in
      Safe-act a nothing n (λ s h. (
        n,
        Keeps-pass a n s _ (put_evt-Keeps_none a (IsbdEvt.failed IsbdErr.err_mt) s refl),
        Safe-act a nothing n (λ s₁ h₁.
            (0, destroy_mt_msg-Keeps a m s₁ (omega (arith, h₁)), record { next = omega arith })),
      ))

  receive_code-Safe :
      (a : ℕ) (junk : Junk) (session : Session) (b : ℕ)
      → Safe {H = H} {M = M} {E = E} {Z = Z} a nothing
          (holds a (some b))
          (receive_code junk session b)
  unfolding receive_code
  receive_code-Safe a junk session b =
      let n = holds a (some b) in
      Safe-act a nothing n (λ s h.
        let r = (read_mt_msg junk b session.mt_len s).0 in
        (
          n,
          Keeps-pass a n s _ (read_mt_msg-Keeps a junk b session.mt_len s),
          Safe-if a nothing n r.0 _ _ (accept_code-Safe a junk session _) (reject_code-Safe a _),
        ))

  pub mt_code-Safe :
      (a : ℕ) (junk : Junk) (session : Session)
      → Safe {H = H} {M = M} {E = E} {Z = Z} a nothing 0 (mt_code junk session)
  unfolding mt_code
  mt_code-Safe a junk session =
      Safe-if a nothing 0 (session.mt_sts == 1) _ _
        (Safe-act a nothing 0
          (λ s h. (_, alloc-Keeps a session.mt_len s, received (alloc session.mt_len s).0)))
        (record { next = omega arith })
    where
      received :
          (b : Option ℕ)
          → Safe {H = H} {M = M} {E = E} {Z = Z} a
              (nothing {A = Unit {0}})
              (holds a b)
              (elim b [ none ↦ ret tt | some x ↦ receive_code junk session x ])
      received none = record { next = omega arith }
      received (some b) = receive_code-Safe a junk session b
