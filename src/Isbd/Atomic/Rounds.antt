-- ===== src/Isbd/Atomic/Rounds.antt =====
-- Events of the terminal, sessions and rounds of the thread of lib/iridium/isbd/isbd.c keep the blocks of
-- the heap, whatever other threads do between their actions.
use isbd_zephyr_module.Prelude.{
  ℕ, zero, suc, ◌≡◌, Bool, true, false, Option, none, some, ◌==◌, if◌then◌else◌, arith, refl,
}
use isbd_zephyr_module.Serial.{Serial}
use isbd_zephyr_module.Iridium.Dte.{Dte}
use isbd_zephyr_module.Iridium.Evt.{Evt, evt_wait}
use isbd_zephyr_module.Iridium.Isu.Session.{init_session}
use isbd_zephyr_module.Iridium.Isu.Binary.{mo_buff, clear_buffer, set_mo}
use isbd_zephyr_module.Isbd.Kernel.{Heap, MsgQueue}
use isbd_zephyr_module.Isbd.Message.{MoMsg, IsbdEvt, Isbd}
use isbd_zephyr_module.Isbd.Service.{Junk, is_ok, report_evt}
use isbd_zephyr_module.Isbd.Queue.{put_evt}
use isbd_zephyr_module.Isbd.Action.{ret, ◌>>=◌, atomically}
use isbd_zephyr_module.Isbd.Atomic.{
  take_mo, reported_evt, events_code, wait_code, session_code, clear_code, set_code, run_code,
  served, round_code,
}
use isbd_zephyr_module.Isbd.Atomic.Safe.{Safe, Keeps-pass, Safe-act, Safe-le, Safe->>=, Safe-if}
use isbd_zephyr_module.Isbd.Atomic.User.{opt_mo, nothing, take_mo-Keeps}
use isbd_zephyr_module.Isbd.Atomic.Thread.{mo_code-Safe, mt_code-Safe}
use isbd_zephyr_module.Isbd.Blocks.{holds, evt_holds, Keeps, Keeps-refl}
use isbd_zephyr_module.Isbd.Blocks.Calls.{destroy_mo_msg-Keeps, put_evt-Keeps_none}

module _ {H M E Z : Type 0} ⦃heap : Heap H⦄ ⦃mos : MsgQueue MoMsg M⦄ ⦃evts : MsgQueue IsbdEvt E⦄
    ⦃line : Serial Z⦄ where
  -- An event of the terminal is not a message.
  report_evt-Keeps : (a : ℕ) (e : Evt) (s : Isbd H M E Z) → Keeps a 0 s (report_evt e s).1 0
  unfolding report_evt
  report_evt-Keeps a (Evt.svca v) s = record { balance = omega arith; once = λ h. h }
  report_evt-Keeps a (Evt.sigq v) s = record { balance = omega arith; once = λ h. h }
  report_evt-Keeps a Evt.ring s = Keeps-refl a s
  report_evt-Keeps a Evt.unk s = Keeps-refl a s
  report_evt-Keeps a (Evt.areg m n) s = Keeps-refl a s

  report_evt_none : (a : ℕ) (e : Evt) (s : Isbd H M E Z) → evt_holds a (report_evt e s).0 ≡ 0
  unfolding report_evt
  report_evt_none a (Evt.svca v) s = refl
  report_evt_none a (Evt.sigq v) s = refl
  report_evt_none a Evt.ring s = refl
  report_evt_none a Evt.unk s = refl
  report_evt_none a (Evt.areg m n) s = refl

  -- A call on the terminal leaves the heap and the queues.
  on_dte-Keeps : (a n : ℕ) (s : Isbd H M E Z) (d : Dte Z) → Keeps a n s (record s { dte = d }) n
  on_dte-Keeps a n s d = record { balance = omega arith; once = λ h. h }

  pub events_code-Safe :
      (a n fuel t : ℕ)
      → Safe {H = H} {M = M} {E = E} {Z = Z} a (λ (x : Unit {0}). n) n (events_code fuel t)
  unfolding events_code
  events_code-Safe a n zero t = record { next = omega arith }
  events_code-Safe a n (suc fuel) t = Safe-act a _ n (λ s h.
      let r = (evt_wait t s.dte).0 in
      (n, on_dte-Keeps a n s _, told r.1 (is_ok r.0) (events_code-Safe a n fuel 10)))
    where
      told :
          (e : Evt) (b : Bool)
          → Safe {H = H} {M = M} {E = E} {Z = Z} a (λ (x : Unit {0}). n) n (events_code fuel 10)
          → Safe {H = H} {M = M} {E = E} {Z = Z} a
              (λ (x : Unit {0}). n)
              n
              (elim b [
                | false ↦ ret tt
                | true ↦ (do
                  evt ← atomically (reported_evt e)
                  _ ← atomically (put_evt evt)
                  events_code fuel 10)
              ])
      told e false p = record { next = omega arith }
      told e true p = Safe-act a _ n (λ s h. (
        n,
        Keeps-pass a n s _ (report_evt-Keeps a e s),
        Safe-act a _ n (λ s₁ h₁. (
          n,
          Keeps-pass a n s₁ _ (put_evt-Keeps_none a (report_evt e s).0 s₁ (report_evt_none a e s)),
          p,
        )),
      ))

  pub wait_code-Safe :
      (a n t : ℕ) → Safe {H = H} {M = M} {E = E} {Z = Z} a (λ (x : Unit {0}). n) n (wait_code t)
  unfolding wait_code
  wait_code-Safe a n t =
      Safe-act a _ n (λ s h. (n, Keeps-pass a n s s (Keeps-refl a s), events_code-Safe a n _ t))

  session_code-Safe :
      (a : ℕ) (junk : Junk) (m : MoMsg)
      → Safe {H = H} {M = M} {E = E} {Z = Z} a nothing (holds a m.block) (session_code junk m)
  unfolding session_code
  session_code-Safe a junk m =
      let n = holds a m.block in
      Safe-act a nothing n (λ s h.
        let r = (init_session junk.session m.alert s.dte).0 in
        (
          n,
          on_dte-Keeps a n s _,
          Safe->>= a (λ (x : Unit {0}). n) nothing n _ _ (wait_code-Safe a n 10)
              (λ _ n' g.
                Safe-if a nothing n' (is_ok r.0) _ _
                  (Safe-le a nothing n n' _
                    (Safe->>= a nothing nothing n _ _ (mo_code-Safe a r.1 m)
                      (λ _ k _. Safe-le a nothing 0 k _ (mt_code-Safe a junk r.1) (omega arith)))
                    g)
                  (record { next = omega arith })),
        ))

  clear_code-Safe :
      (a : ℕ) (junk : Junk) (m : MoMsg)
      → Safe {H = H} {M = M} {E = E} {Z = Z} a nothing (holds a m.block) (clear_code junk m)
  unfolding clear_code
  clear_code-Safe a junk m =
      let n = holds a m.block in
      Safe-act a nothing n (λ s h. (
        n,
        on_dte-Keeps a n s _,
        Safe-if a nothing n (is_ok (clear_buffer junk.code mo_buff s.dte).0) _ _
            (session_code-Safe a junk m) (record { next = omega arith }),
      ))

  set_code-Safe :
      (a : ℕ) (junk : Junk) (m : MoMsg) (b : ℕ)
      → Safe {H = H} {M = M} {E = E} {Z = Z} a nothing (holds a m.block) (set_code junk m b)
  unfolding set_code
  set_code-Safe a junk m b =
      let n = holds a m.block in
      Safe-act a nothing n (λ s h. (
        n,
        on_dte-Keeps a n s _,
        Safe-if a nothing n (is_ok (set_mo junk.code (heap.load b m.len s.heap) s.dte).0) _ _
            (session_code-Safe a junk m)
            (Safe-act a nothing n (λ s₁ h₁.
              (0, destroy_mo_msg-Keeps a m s₁ (omega (arith, h₁)), record { next = omega arith }))),
      ))

  run_code-Safe :
      (a : ℕ) (junk : Junk) (m : MoMsg)
      → Safe {H = H} {M = M} {E = E} {Z = Z} a nothing (holds a m.block) (run_code junk m)
  unfolding run_code
  run_code-Safe a junk m = go m.block
    where
      go :
          (b : Option ℕ)
          → Safe {H = H} {M = M} {E = E} {Z = Z} a nothing (holds a m.block) (elim b [
            | none ↦ clear_code junk m
            | some x ↦ if m.len == 0 then clear_code junk m else set_code junk m x
          ])
      go none = clear_code-Safe a junk m
      go (some b) =
          Safe-if a nothing _ (m.len == 0) _ _ (clear_code-Safe a junk m) (set_code-Safe a junk m b)

  pub round_code-Safe :
      (a : ℕ) (junk : Junk) (t : ℕ)
      → Safe {H = H} {M = M} {E = E} {Z = Z} a (nothing {A = Unit {0}}) 0 (round_code junk t)
  unfolding round_code
  round_code-Safe a junk t = Safe-act a nothing 0 (λ s h. (
    0,
    Keeps-refl a s,
    Safe-if a nothing 0 (served s).0 _ _
        (Safe-act a nothing 0 (λ s₁ h₁. (_, take_mo-Keeps a s₁, taken (take_mo s₁).0)))
        (wait_code-Safe a 0 t),
  ))
    where
      taken :
          (o : Option MoMsg)
          → Safe {H = H} {M = M} {E = E} {Z = Z} a
              (nothing {A = Unit {0}})
              (opt_mo a o)
              (elim o [ none ↦ wait_code t | some m ↦ (do _ ← run_code junk m; wait_code t) ])
      taken none = wait_code-Safe a 0 t
      taken (some m) =
          Safe->>= a nothing nothing (holds a m.block) _ _ (run_code-Safe a junk m)
            (λ _ n _. Safe-le a nothing 0 n _ (wait_code-Safe a 0 t) (omega arith))
