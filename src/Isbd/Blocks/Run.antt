-- ===== src/Isbd/Blocks/Run.antt =====
-- `_init_session` and a round of the thread of lib/iridium/isbd/isbd.c, and the blocks of the heap.
use isbd_zephyr_module.Prelude.{
  ℕ, ◌+◌, ◌≤◌, ◌≡◌, Bool, true, false, not, Option, none, some, ltb, if◌then◌else◌, ◌==◌, arith,
  refl, ap, length, Bool-cases, inl, inr,
}
use isbd_zephyr_module.Serial.{Serial}
use isbd_zephyr_module.Iridium.Dte.{DteErr, Dte}
use isbd_zephyr_module.Iridium.Isu.Session.{init_session}
use isbd_zephyr_module.Iridium.Isu.Binary.{mo_buff, clear_buffer, set_mo}
use isbd_zephyr_module.Isbd.Kernel.{Heap, MsgQueue}
use isbd_zephyr_module.Isbd.Message.{MoMsg, IsbdEvt, Isbd}
use isbd_zephyr_module.Isbd.Queue.{destroy_mo_msg}
use isbd_zephyr_module.Isbd.Service.{
  Junk, is_ok, handle_session_mo_msg, handle_session_mt_msg, wait_for_dte_events, set_mo_msg,
  start_session, run_session,
}
use isbd_zephyr_module.Isbd.Blocks.{holds, allocated, owners, Keeps, Keeps-after, Keeps-before}
use isbd_zephyr_module.Isbd.Blocks.Calls.{destroy_mo_msg-Keeps}
use isbd_zephyr_module.Isbd.Blocks.Session.{
  forgets, kept_or, kept_or-le, handle_session_mo_msg-Keeps,
}
use isbd_zephyr_module.Isbd.Blocks.Receive.{handle_session_mt_msg-Keeps}
use isbd_zephyr_module.Isbd.Blocks.Apart.{Apart, Apart-trans, Apart-dte, wait_for_dte_events-Apart}

module _ {H M E Z : Type 0} ⦃heap : Heap H⦄ ⦃mos : MsgQueue MoMsg M⦄ ⦃evts : MsgQueue IsbdEvt E⦄
    ⦃line : Serial Z⦄ where
  -- What `set_mo_msg` has to give: the message as it is where the ISU is ready, or else its block is
  -- freed, but for that of a message of no length.
  record Prepares (a : ℕ) (m : MoMsg) (s : Isbd H M E Z) (r : (DteErr × MoMsg) × Isbd H M E Z)
      : Type 0 where
    ready : is_ok r.0.0 ≡ true → (r.0.1 ≡ m) × Apart a s r.1
    failed :
        is_ok r.0.0 ≡ false
        → Keeps a (holds a m.block) s r.1 (kept_or (m.len == 0) (holds a m.block))

  cleared-Prepares :
      (a : ℕ) (m : MoMsg) (s : Isbd H M E Z) (r : DteErr × Dte Z)
      → kept_or (m.len == 0) (holds a m.block) ≡ holds a m.block
      → Prepares a m s ((r.0, m), record s { dte = r.1 })
  cleared-Prepares a m s r e = record {
    ready = λ h. (refl, Apart-dte a s r.1);
    failed = λ h. record { balance = omega (arith, e); once = λ k. k };
  }

  refused-Prepares :
      (a : ℕ) (m : MoMsg) (s : Isbd H M E Z) (r : DteErr × Dte Z)
      → holds a m.block + owners a s ≤ allocated a s
      → is_ok r.0 ≡ false
      → (m.len == 0) ≡ false
      → Prepares a m s (let (m', s') = destroy_mo_msg m (record s { dte = r.1 }) in ((r.0, m'), s'))
  refused-Prepares a m s r h e l =
      let s₁ : Isbd H M E Z = record s { dte = r.1 } in
      let k = destroy_mo_msg-Keeps a m s₁ h in
      record {
        ready = λ t. absurd (ground (arith, e, t));
        failed = λ t. rw l (record { balance = omega (arith, k.balance); once = k.once });
      }

  set_mo_msg-cases :
      (a : ℕ) (junk : Junk) (alert : Bool) (sn retries : ℕ) (b : Option ℕ) (len : ℕ)
      (s : Isbd H M E Z)
      → let m : MoMsg = record {
        alert = alert;
        sn = sn;
        retries = retries;
        block = b;
        len = len;
      } in
        holds a b + owners a s ≤ allocated a s → Prepares a m s (set_mo_msg junk m s)
  unfolding set_mo_msg
  set_mo_msg-cases a junk alert sn retries none len s h =
      let m : MoMsg = record {
        alert = alert;
        sn = sn;
        retries = retries;
        block = none;
        len = len;
      } in
      cleared-Prepares a m s (clear_buffer junk.code mo_buff s.dte) (ground arith)
  set_mo_msg-cases a junk alert sn retries (some b) len s h =
      let m : MoMsg = record {
        alert = alert;
        sn = sn;
        retries = retries;
        block = some b;
        len = len;
      } in
      let r = set_mo junk.code (heap.load b len s.heap) s.dte in
      elim (Bool-cases (len == 0)) [
        | inl e ↦
            rw (e, set_mo_msg)
              (cleared-Prepares a m s (clear_buffer junk.code mo_buff s.dte) (rw e refl))
        | inr e ↦ elim (Bool-cases (is_ok r.0)) [
          | inl o ↦
              rw (e, o, set_mo_msg)
                (record {
                  ready = λ t. (refl, Apart-dte a s r.1);
                  failed = λ t. absurd (ground (arith, o, t));
                })
          | inr o ↦ rw (e, o, set_mo_msg) (refused-Prepares a m s r h o e)
        ]
      ]

  -- Does a session forget the block of its message? For a message of no length the buffer of the ISU is
  -- cleared and nothing is done about the block; and a session that does not start is not tried again.
  abbrev pub session_forgets : Junk → MoMsg → Isbd H M E Z → Bool
  session_forgets junk m s =
      let ((ret, m'), s₁) = set_mo_msg junk m s in
      let (r, session) = (init_session junk.session m.alert s₁.dte).0 in
      if is_ok ret
      then (if is_ok r then forgets session.mo_sts m.len m.retries s else true)
      else m.len == 0

  start_stopped :
      (junk : Junk) (m : MoMsg) (s : Isbd H M E Z)
      → is_ok (init_session junk.session m.alert s.dte).0.0 ≡ false
      → (start_session junk m s).1
        ≡ (wait_for_dte_events 10
            (record s { dte = (init_session junk.session m.alert s.dte).1 })).1
  unfolding start_session
  start_stopped junk m s e = rw (e, start_session) refl

  pub start_handled :
      (junk : Junk) (m : MoMsg) (s : Isbd H M E Z)
      → is_ok (init_session junk.session m.alert s.dte).0.0 ≡ true
      → let (r, d) = init_session junk.session m.alert s.dte in
        let s₂ = (wait_for_dte_events 10 (record s { dte = d })).1 in
        (start_session junk m s).1
        ≡ (handle_session_mt_msg junk r.1 (handle_session_mo_msg r.1 m s₂).1).1
  unfolding start_session
  start_handled junk m s e = rw (e, start_session) refl

  -- The queue of messages stays, so there is room for a retry at the end of a session exactly if there
  -- was at its start.
  forgets-Apart :
      (a mo_sts len retries : ℕ) (s s' : Isbd H M E Z)
      → Apart a s s'
      → forgets mo_sts len retries s' ≡ forgets mo_sts len retries s
  forgets-Apart a mo_sts len retries s s' x =
      ap
        (λ q.
          if len == 0
          then true
          else if ltb mo_sts 3
          then false
          else if ltb 0 retries
          then not (ltb (length (mos.items q)) (mos.size q))
          else false)
        x.mo_q_eq

  start_session-Keeps :
      (a : ℕ) (junk : Junk) (m : MoMsg) (s : Isbd H M E Z)
      → holds a m.block + owners a s ≤ allocated a s
      → let (r, session) = (init_session junk.session m.alert s.dte).0 in
        Keeps a (holds a m.block) s (start_session junk m s).1 (
          kept_or
            (if is_ok r then forgets session.mo_sts m.len m.retries s else true)
            (holds a m.block))
  start_session-Keeps a junk m s h =
      let n = holds a m.block in
      let (r, d) = init_session junk.session m.alert s.dte in
      let s₁ : Isbd H M E Z = record s { dte = d } in
      let s₂ = (wait_for_dte_events 10 s₁).1 in
      let x = Apart-trans a s s₁ s₂ (Apart-dte a s d) (wait_for_dte_events-Apart a 10 s₁) in
      let b = x.keeps.balance in
      elim (Bool-cases (is_ok r.0)) [
        | inl e ↦
            let s₃ = (handle_session_mo_msg r.1 m s₂).1 in
            let k = handle_session_mo_msg-Keeps a r.1 m s₂ (omega (arith, b)) in
            let l = kept_or-le (forgets r.1.mo_sts m.len m.retries s₂) n in
            let k' =
              Keeps-before a n _ s₂ s₃ _ k
                (handle_session_mt_msg-Keeps a junk r.1 s₃ (omega (arith, k.balance, b, l))) in
            rw (start_handled junk m s e, e, ← forgets-Apart a r.1.mo_sts m.len m.retries s s₂ x)
              (Keeps-after a n _ s s₂ _ x.keeps k')
        | inr e ↦
            rw (start_stopped junk m s e, e)
              (record { balance = omega (arith, b); once = x.keeps.once })
      ]

  run_stopped :
      (junk : Junk) (m : MoMsg) (s : Isbd H M E Z)
      → is_ok (set_mo_msg junk m s).0.0 ≡ false
      → (run_session junk m s).1 ≡ (set_mo_msg junk m s).1
  unfolding run_session
  run_stopped junk m s e = rw (e, run_session) refl

  pub run_started :
      (junk : Junk) (m : MoMsg) (s : Isbd H M E Z)
      → is_ok (set_mo_msg junk m s).0.0 ≡ true
      → (set_mo_msg junk m s).0.1 ≡ m
      → (run_session junk m s).1 ≡ (start_session junk m (set_mo_msg junk m s).1).1
  unfolding run_session
  run_started junk m s e f = rw (e, f, run_session) refl

  -- A session for a message whose block is allocated frees the block, or hands it to the queue of
  -- messages or to that of events, unless it forgets it as `session_forgets` tells; the blocks of other
  -- messages it neither frees nor loses, a block that it allocates goes to an event or is freed, and
  -- nothing is allocated twice.
  pub run_session-Keeps :
      (a : ℕ) (junk : Junk) (m : MoMsg) (s : Isbd H M E Z)
      → holds a m.block + owners a s ≤ allocated a s
      → Keeps a
          (holds a m.block)
          s
          (run_session junk m s).1
          (kept_or (session_forgets junk m s) (holds a m.block))
  run_session-Keeps a junk m s h =
      let p = set_mo_msg-cases a junk m.alert m.sn m.retries m.block m.len s h in
      let s₁ = (set_mo_msg junk m s).1 in
      elim (Bool-cases (is_ok (set_mo_msg junk m s).0.0)) [
        | inl e ↦
            let (f, x) = p.ready e in
            let session = (init_session junk.session m.alert s₁.dte).0.1 in
            let b = x.keeps.balance in
            rw
              (run_started junk m s e f, e, ← forgets-Apart a session.mo_sts m.len m.retries s s₁ x)
              (Keeps-after a (holds a m.block) _ s s₁ _ x.keeps
                (start_session-Keeps a junk m s₁ (omega (arith, b))))
        | inr e ↦ rw (run_stopped junk m s e, e) (p.failed e)
      ]
