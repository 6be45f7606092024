-- ===== src/Isbd/Blocks/Apart.antt =====
-- `_wait_for_dte_events` of lib/iridium/isbd/isbd.c leaves the messages and their blocks.
use isbd_zephyr_module.Prelude.{ℕ, zero, suc, ◌≡◌, arith, refl, ◌∙◌, Bool-cases, inl, inr}
use isbd_zephyr_module.Serial.{Serial}
use isbd_zephyr_module.Iridium.Dte.{Dte}
use isbd_zephyr_module.Iridium.Evt.{Evt, evt_wait}
use isbd_zephyr_module.Isbd.Kernel.{Heap, MsgQueue}
use isbd_zephyr_module.Isbd.Message.{MoMsg, IsbdEvt, Isbd}
use isbd_zephyr_module.Isbd.Queue.{put_evt}
use isbd_zephyr_module.Isbd.Service.{is_ok, report_evt, dte_events_loop, wait_for_dte_events}
use isbd_zephyr_module.Isbd.Events.{told, loop_stop, loop_round}
use isbd_zephyr_module.Isbd.Blocks.{allocated, owners, Keeps, Keeps-refl, Keeps-after}
use isbd_zephyr_module.Isbd.Blocks.Calls.{put_evt-Keeps_none}

module _ {H M E Z : Type 0} ⦃heap : Heap H⦄ ⦃mos : MsgQueue MoMsg M⦄ ⦃evts : MsgQueue IsbdEvt E⦄
    ⦃line : Serial Z⦄ where
  -- A step that has nothing to do with messages: the blocks and the queue of messages stay.
  pub record Apart (a : ℕ) (s s' : Isbd H M E Z) : Type 0 where
    pub keeps : Keeps a 0 s s' 0
    pub mo_q_eq : s'.mo_q ≡ s.mo_q

  pub Apart-trans : (a : ℕ) (s s₁ s₂ : Isbd H M E Z) → Apart a s s₁ → Apart a s₁ s₂ → Apart a s s₂
  Apart-trans a s s₁ s₂ x y = record {
    keeps = Keeps-after a 0 0 s s₁ s₂ x.keeps y.keeps;
    mo_q_eq = y.mo_q_eq ∙ x.mo_q_eq;
  }

  pub Apart-dte : (a : ℕ) (s : Isbd H M E Z) (d : Dte Z) → Apart a s (record s { dte = d })
  Apart-dte a s d = record {
    keeps = record { balance = omega arith; once = λ h. h };
    mo_q_eq = refl;
  }

  put_evt-mo_q : (e : IsbdEvt) (s : Isbd H M E Z) → (put_evt e s).1.mo_q ≡ s.mo_q
  unfolding put_evt
  put_evt-mo_q e s = refl

  reported :
      (a : ℕ) (e : Evt) (s : Isbd H M E Z)
      → Apart a s (put_evt (report_evt e s).0 (report_evt e s).1).1
  unfolding report_evt
  reported a e s = go e
    where
      at_event :
          (x : IsbdEvt) (s' : Isbd H M E Z)
          → Keeps a 0 s' (put_evt x s').1 0
          → allocated a s' ≡ allocated a s
          → owners a s' ≡ owners a s
          → s'.mo_q ≡ s.mo_q
          → Apart a s (put_evt x s').1
      at_event x s' k l o q = record {
        keeps = record {
          balance = omega (arith, k.balance, l, o);
          once = λ h. k.once (omega (arith, l, h));
        };
        mo_q_eq = put_evt-mo_q x s' ∙ q;
      }

      go : (e : Evt) → Apart a s (put_evt (report_evt e s).0 (report_evt e s).1).1
      go Evt.unk = at_event IsbdEvt.unk s (put_evt-Keeps_none a IsbdEvt.unk s refl) refl refl refl
      go Evt.ring =
          at_event IsbdEvt.ring s (put_evt-Keeps_none a IsbdEvt.ring s refl) refl refl refl
      go (Evt.sigq v) =
          at_event (IsbdEvt.sigq v) (record s { signal = v })
            (put_evt-Keeps_none a (IsbdEvt.sigq v) _ refl) refl refl refl
      go (Evt.svca v) =
          at_event (IsbdEvt.svca v) (record s { service = v })
            (put_evt-Keeps_none a (IsbdEvt.svca v) _ refl) refl refl refl
      go (Evt.areg m n) =
          at_event IsbdEvt.unk s (put_evt-Keeps_none a IsbdEvt.unk s refl) refl refl refl

  dte_events_loop-Apart : (a f t : ℕ) (s : Isbd H M E Z) → Apart a s (dte_events_loop f t s)
  unfolding dte_events_loop
  dte_events_loop-Apart a zero t s = record { keeps = Keeps-refl a s; mo_q_eq = refl }
  dte_events_loop-Apart a (suc f) t s =
      let s₁ : Isbd H M E Z = record s { dte = (evt_wait t s.dte).1 } in
      let x = Apart-dte a s (evt_wait t s.dte).1 in
      elim (Bool-cases (is_ok (evt_wait t s.dte).0.0)) [
        | inl e ↦ rw (loop_round f t s e) (
            Apart-trans a s (told t s) _
              (Apart-trans a s s₁ (told t s) x (reported a (evt_wait t s.dte).0.1 s₁))
              (dte_events_loop-Apart a f 10 (told t s)))
        | inr e ↦ rw (loop_stop f t s e) x
      ]

  pub wait_for_dte_events-Apart :
      (a t : ℕ) (s : Isbd H M E Z) → Apart a s (wait_for_dte_events t s).1
  unfolding wait_for_dte_events
  wait_for_dte_events-Apart a t s =
      dte_events_loop-Apart a (suc (line.pending s.dte.at_uart.zuart)) t s
