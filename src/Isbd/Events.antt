-- ===== src/Isbd/Events.antt =====
-- The recursion of `_wait_for_dte_events` ends.
pub mod Arrive
use isbd_zephyr_module.Prelude.{
  ℕ, zero, suc, ◌<◌, ◌≤◌, ◌≡◌, ◌%◌, ◌^◌, Bytes, Bool, true, false, some, arith, refl, ap, ◌∙◌, sym,
  replicate, Bool-cases, inl, inr,
}
use isbd_zephyr_module.Serial.{Serial}
use isbd_zephyr_module.AtUart.Types.{AtErr, timeout}
use isbd_zephyr_module.AtUart.Parse.{parse_resp, initial}
use isbd_zephyr_module.AtUart.Parse.Progress.{parse_loop-Progress}
use isbd_zephyr_module.Iridium.Dte.{Dte}
use isbd_zephyr_module.Iridium.Evt.{Evt, wait_result, evt_wait}
use isbd_zephyr_module.Isbd.Kernel.{Heap, MsgQueue}
use isbd_zephyr_module.Isbd.Message.{MoMsg, IsbdEvt, Isbd}
use isbd_zephyr_module.Isbd.Queue.{put_evt}
use isbd_zephyr_module.Isbd.Service.{is_ok, on_dte, report_evt, dte_events_loop}

-- An event is never a timeout.
event_code :
    (verbose : Bool) (code : AtErr) (buf : Bytes)
    → is_ok (wait_result verbose code buf).0 ≡ true
    → code ≡ timeout
    → ⊥
unfolding wait_result
event_code verbose AtErr.timeout buf h e = ground arith
event_code verbose AtErr.ok buf h e = ground arith
event_code verbose AtErr.unk buf h e = ground arith
event_code verbose AtErr.err buf h e = ground arith
event_code verbose AtErr.overflow buf h e = ground arith

module _ {Z : Type 0} ⦃line : Serial Z⦄ where
  abbrev pub still : Dte Z → ℕ
  still dte = line.pending dte.at_uart.zuart

  -- A wait that gets an event takes something off the line.
  pub evt_wait_less :
      (t : ℕ) (dte : Dte Z)
      → is_ok (evt_wait t dte).0.0 ≡ true
      → still (evt_wait t dte).1 < still dte
  unfolding evt_wait parse_resp
  evt_wait_less t dte h =
      let u = dte.at_uart in
      let r =
        parse_loop-Progress u.config.verbose u.eol 32 1 (suc (line.pending u.zuart)) (t % 2 ^ 16)
          (initial (some (replicate 32 0))) u.zuart in
      r.less (event_code u.config.verbose _ _ h)

  still_le : (t : ℕ) (dte : Dte Z) → still (evt_wait t dte).1 ≤ still dte
  unfolding evt_wait parse_resp
  still_le t dte =
      let u = dte.at_uart in
      (parse_loop-Progress u.config.verbose u.eol 32 1 (suc (line.pending u.zuart)) (t % 2 ^ 16)
        (initial (some (replicate 32 0))) u.zuart).at_most

  -- A wait for an event sends nothing.
  pub evt_wait_sent :
      (t : ℕ) (dte : Dte Z)
      → line.sent (evt_wait t dte).1.at_uart.zuart ≡ line.sent dte.at_uart.zuart
  unfolding evt_wait parse_resp
  evt_wait_sent t dte =
      let u = dte.at_uart in
      (parse_loop-Progress u.config.verbose u.eol 32 1 (suc (line.pending u.zuart)) (t % 2 ^ 16)
        (initial (some (replicate 32 0))) u.zuart).sent_eq

  -- Where nothing is to come, there is no event, and nothing is to come behind the wait.
  pub evt_wait_silent :
      (t : ℕ) (dte : Dte Z)
      → still dte ≡ 0
      → (is_ok (evt_wait t dte).0.0 ≡ false) × (still (evt_wait t dte).1 ≡ 0)
  evt_wait_silent t dte h = (
    elim (Bool-cases (is_ok (evt_wait t dte).0.0)) [
      | inl e ↦ absurd (omega (arith, evt_wait_less t dte e, h))
      | inr e ↦ e
    ],
    omega (arith, still_le t dte, h),
  )

module _ {H M E Z : Type 0} ⦃heap : Heap H⦄ ⦃mos : MsgQueue MoMsg M⦄ ⦃evts : MsgQueue IsbdEvt E⦄
    ⦃line : Serial Z⦄ where
  -- The state behind an event.
  abbrev pub told : ℕ → Isbd H M E Z → Isbd H M E Z
  told t s =
      let ((r, e), s₁) = on_dte (evt_wait t) s in
      let (evt, s₂) = report_evt e s₁ in (put_evt evt s₂).1

  pub told_dte : (t : ℕ) (s : Isbd H M E Z) → (told t s).dte ≡ (evt_wait t s.dte).1
  unfolding report_evt put_evt
  told_dte t s = go (evt_wait t s.dte).0.1 (record s { dte = (evt_wait t s.dte).1 })
    where
      go :
          (e : Evt) (s' : Isbd H M E Z)
          → (put_evt (report_evt e s').0 (report_evt e s').1).1.dte ≡ s'.dte
      go Evt.unk s' = refl
      go Evt.ring s' = refl
      go (Evt.sigq v) s' = refl
      go (Evt.svca v) s' = refl
      go (Evt.areg m n) s' = refl

  pub loop_stop :
      (f t : ℕ) (s : Isbd H M E Z)
      → is_ok (evt_wait t s.dte).0.0 ≡ false
      → dte_events_loop (suc f) t s ≡ (on_dte (evt_wait t) s).1
  unfolding dte_events_loop
  loop_stop f t s e = rw (e, dte_events_loop) refl

  pub loop_round :
      (f t : ℕ) (s : Isbd H M E Z)
      → is_ok (evt_wait t s.dte).0.0 ≡ true
      → dte_events_loop (suc f) t s ≡ dte_events_loop f 10 (told t s)
  unfolding dte_events_loop
  loop_round f t s e = rw (e, dte_events_loop) refl

  -- With any fuel above what the line can still deliver the recursion of `_wait_for_dte_events` gives the
  -- same state: however many events come, it ends when none is left.
  pub dte_events_loop_fuel :
      (f g t : ℕ) (s : Isbd H M E Z)
      → still s.dte < f
      → still s.dte < g
      → dte_events_loop f t s ≡ dte_events_loop g t s
  dte_events_loop_fuel zero g t s hf hg = elim hf [ ]
  dte_events_loop_fuel (suc f) zero t s hf hg = elim hg [ ]
  dte_events_loop_fuel (suc f) (suc g) t s hf hg =
      elim (Bool-cases (is_ok (evt_wait t s.dte).0.0)) [
        | inl e ↦
            let less = evt_wait_less t s.dte e in
            let d = ap still (told_dte t s) in
            loop_round f t s e
            ∙ dte_events_loop_fuel f g 10 (told t s) (omega (arith, less, d))
                (omega (arith, less, d))
            ∙ sym (loop_round g t s e)
        | inr e ↦ loop_stop f t s e ∙ sym (loop_stop g t s e)
      ]
