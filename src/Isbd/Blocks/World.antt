-- ===== src/Isbd/Blocks/World.antt =====
-- The service of lib/iridium/isbd/isbd.c with its user: calls of the user and rounds of the thread, in any
-- order.
use isbd_zephyr_module.Prelude.{
  ℕ, ◌+◌, ◌≤◌, ◌≡◌, Bytes, Bool, true, false, not, ◌&&◌, List, Option, none, some, sym, ◌∷◌, ◌++◌,
  leb, ◌==◌, arith, refl, ap, ◌∙◌, Bool-cases, List-cases, inl, inr,
}
use isbd_zephyr_module.Serial.{Serial}
use isbd_zephyr_module.Isbd.Kernel.{Heap, MsgQueue}
use isbd_zephyr_module.Isbd.Message.{MoMsg, IsbdEvt, Isbd}
use isbd_zephyr_module.Isbd.Queue.{send_mo_msg, request_session, wait_evt, destroy_evt}
use isbd_zephyr_module.Isbd.Service.{Junk, run_session, wait_for_dte_events, enter, round}
use isbd_zephyr_module.Isbd.Blocks.{
  holds, evt_holds, mo_hold, evts_hold, evts_hold-append, allocated, owners, Keeps, Keeps-before,
}
use isbd_zephyr_module.Isbd.Blocks.Calls.{destroy_evt-Keeps}
use isbd_zephyr_module.Isbd.Blocks.Session.{kept_or, request_session-Keeps}
use isbd_zephyr_module.Isbd.Blocks.Apart.{wait_for_dte_events-Apart}
use isbd_zephyr_module.Isbd.Blocks.Run.{session_forgets, run_session-Keeps}
use isbd_zephyr_module.Isbd.Blocks.Sent.{send_mo_msg-Keeps}

abbrev opt_holds : ℕ → Option IsbdEvt → ℕ
opt_holds a none = 0
opt_holds a (some e) = evt_holds a e

-- The service, and the events that the user has taken and not yet destroyed.
pub record World (H M E Z : Type 0) : Type 0 where
  pub isbd : Isbd H M E Z
  pub taken : List IsbdEvt

module _ {H M E Z : Type 0} ⦃heap : Heap H⦄ ⦃mos : MsgQueue MoMsg M⦄ ⦃evts : MsgQueue IsbdEvt E⦄
    ⦃line : Serial Z⦄ where
  -- One call of the user, or what the thread does before its loop or in a round of it. What variables
  -- hold that C leaves without a value can be anything.
  pub data Step (w : World H M E Z) (w' : World H M E Z) : Type 0 where
    sends :
        (sn : ℕ) (msg : Bytes) (retries : ℕ)
        → w' ≡ record w { isbd = (send_mo_msg sn msg retries w.isbd).1 }
        → Step w w'
    requests :
        (sn retries : ℕ) (alert : Bool)
        → w' ≡ record w { isbd = (request_session sn retries alert w.isbd).1 }
        → Step w w'
    waits :
        (e : IsbdEvt)
        → (wait_evt w.isbd).0 ≡ some e
        → w' ≡ record w { isbd = (wait_evt w.isbd).1; taken = e ∷ w.taken }
        → Step w w'
    waits_long :
        (wait_evt w.isbd).0 ≡ none → w' ≡ record w { isbd = (wait_evt w.isbd).1 } → Step w w'
    destroys :
        (before behind : List IsbdEvt) (e : IsbdEvt)
        → w.taken ≡ before ++ e ∷ behind
        → w' ≡ record w { isbd = (destroy_evt e w.isbd).1; taken = before ++ behind }
        → Step w w'
    enters : w' ≡ record w { isbd = (enter w.isbd).1 } → Step w w'
    rounds : (junk : Junk) (t : ℕ) → w' ≡ record w { isbd = (round junk t w.isbd).1 } → Step w w'

  pub data Reach (w : World H M E Z) : World H M E Z → Type 0 where
    here : Reach w w
    next : {u v : World H M E Z} → Reach w u → Step u v → Reach w v

  -- How many messages in a queue, and events in a queue or taken, have the block at `a`.
  abbrev pub all_owners : ℕ → World H M E Z → ℕ
  all_owners a w = owners a w.isbd + evts_hold a w.taken

  -- A block that a message or an event has is allocated, and nothing else has it.
  pub record IsOwned (a : ℕ) (w : World H M E Z) : Type 0 where
    pub alive : all_owners a w ≤ allocated a w.isbd
    pub once : allocated a w.isbd ≤ 1

  -- The service alone goes on, and loses or not.
  Keeps-IsOwned :
      (a lost : ℕ) (w : World H M E Z) (s' : Isbd H M E Z)
      → IsOwned a w
      → Keeps a 0 w.isbd s' lost
      → IsOwned a (record w { isbd = s' })
  Keeps-IsOwned a lost w s' o k = record {
    alive = omega (arith, o.alive, k.balance);
    once = k.once o.once;
  }

  round_idle :
      (junk : Junk) (t : ℕ) (s : Isbd H M E Z)
      → (not (s.service == 0) && leb s.sigq_threshold s.signal) ≡ false
      → (round junk t s).1 ≡ (wait_for_dte_events t s).1
  unfolding round
  round_idle junk t s e = rw (e, round) refl

  round_empty :
      (junk : Junk) (t : ℕ) (s : Isbd H M E Z)
      → (not (s.service == 0) && leb s.sigq_threshold s.signal) ≡ true
      → mos.get s.mo_q ≡ (none, s.mo_q)
      → (round junk t s).1 ≡ (wait_for_dte_events t s).1
  unfolding round
  round_empty junk t s e g =
      let o : (mos.get s.mo_q).0 ≡ none = ap (λ (r : Option MoMsg × M). r.0) g in
      rw (e, o, round)
        (ap (λ (r : Option MoMsg × M). (wait_for_dte_events t (record s { mo_q = r.1 })).1) g)

  pub round_session :
      (junk : Junk) (t : ℕ) (m : MoMsg) (s : Isbd H M E Z)
      → (not (s.service == 0) && leb s.sigq_threshold s.signal) ≡ true
      → (mos.get s.mo_q).0 ≡ some m
      → (round junk t s).1
        ≡ (wait_for_dte_events t (run_session junk m (record s { mo_q = (mos.get s.mo_q).1 })).1).1
  unfolding round
  round_session junk t m s e g = rw (e, g, round) refl

  -- A round of the thread: with the service there, the oldest message is taken out of the queue for a
  -- session, which forgets its block or not.
  round-Keeps :
      (a : ℕ) (junk : Junk) (t : ℕ) (s : Isbd H M E Z)
      → owners a s ≤ allocated a s
      → (lost : ℕ) × Keeps a 0 s (round junk t s).1 lost
  round-Keeps a junk t s h =
      elim (Bool-cases (not (s.service == 0) && leb s.sigq_threshold s.signal)) [
        | inr e ↦ rw (round_idle junk t s e) (0, (wait_for_dte_events-Apart a t s).keeps)
        | inl e ↦ elim (List-cases (mos.items s.mo_q)) [
          | inl i ↦
              rw (round_empty junk t s e (mos.get_none s.mo_q i))
                (0, (wait_for_dte_events-Apart a t s).keeps)
          | inr (m, ms, i) ↦
              let s₁ : Isbd H M E Z = record s { mo_q = (mos.get s.mo_q).1 } in
              let (g, j, _) = mos.get_some m ms s.mo_q i in
              let o = ap (mo_hold a) i in
              let o₁ = ap (mo_hold a) j in
              let lost = kept_or (session_forgets junk m s₁) (holds a m.block) in
              let k = run_session-Keeps a junk m s₁ (omega (arith, o, o₁, h)) in
              let s₂ = (run_session junk m s₁).1 in
              let k' =
                Keeps-before a (holds a m.block) lost s₁ s₂ _ k
                  (wait_for_dte_events-Apart a t s₂).keeps in
              rw (round_session junk t m s e g)
                (lost, record { balance = omega (arith, o, o₁, k'.balance); once = k'.once })
        ]
      ]

  pub enter-Keeps : (a : ℕ) (s : Isbd H M E Z) → Keeps a 0 s (enter s).1 0
  unfolding enter
  enter-Keeps a s = record { balance = omega arith; once = λ h. h }

  destroyed :
      (a : ℕ) (w : World H M E Z) (before behind : List IsbdEvt) (e : IsbdEvt)
      → IsOwned a w
      → w.taken ≡ before ++ e ∷ behind
      → IsOwned a (record w { isbd = (destroy_evt e w.isbd).1; taken = before ++ behind })
  destroyed a w before behind e o p =
      let t = ap (evts_hold a) p ∙ evts_hold-append a before (e ∷ behind) in
      let b = evts_hold-append a before behind in
      let k = destroy_evt-Keeps a e w.isbd (omega (arith, o.alive, t)) in
      record { alive = omega (arith, o.alive, t, b, k.balance); once = k.once o.once }

  waited :
      (a : ℕ) (e : IsbdEvt) (s : Isbd H M E Z)
      → (wait_evt s).0 ≡ some e
      → (owners a (wait_evt s).1 + evt_holds a e ≡ owners a s)
        × (allocated a (wait_evt s).1 ≡ allocated a s)
  unfolding wait_evt
  waited a e s g = elim (List-cases (evts.items s.evt_q)) [
    | inl i ↦ absurd (ground (arith, evts.get_none s.evt_q i, g))
    | inr (x, xs, i) ↦
        let (h, j, _) = evts.get_some x xs s.evt_q i in
        let same : some x ≡ some e = sym h ∙ g in
        let held = ap (opt_holds a) same in
        (omega (arith, ap (evts_hold a) i, ap (evts_hold a) j, held), refl)
  ]

  waited_long : (s : Isbd H M E Z) → (wait_evt s).0 ≡ none → (wait_evt s).1 ≡ s
  unfolding wait_evt
  waited_long s g = elim (List-cases (evts.items s.evt_q)) [
    | inl i ↦ ap (λ (r : Option IsbdEvt × E). record s { evt_q = r.1 }) (evts.get_none s.evt_q i)
    | inr (x, xs, i) ↦ let (h, j, _) = evts.get_some x xs s.evt_q i in absurd (ground (arith, h, g))
  ]

  -- Each step keeps the ownership of a block.
  Step-IsOwned : (a : ℕ) {w w' : World H M E Z} → Step w w' → IsOwned a w → IsOwned a w'
  Step-IsOwned a {w} (sends sn msg retries e) o =
      let (lost, k, _) = send_mo_msg-Keeps a sn msg retries w.isbd in
      rw e (Keeps-IsOwned a lost w _ o k)
  Step-IsOwned a {w} (requests sn retries alert e) o =
      rw e (Keeps-IsOwned a 0 w _ o (request_session-Keeps a sn retries alert w.isbd))
  Step-IsOwned a {w} (waits x g e) o =
      let (b, l) = waited a x w.isbd g in
      rw e (record { alive = omega (arith, o.alive, b, l); once = omega (arith, o.once, l) })
  Step-IsOwned a {w} (waits_long g e) o = rw (e, waited_long w.isbd g) o
  Step-IsOwned a {w} (destroys before behind x p e) o = rw e (destroyed a w before behind x o p)
  Step-IsOwned a {w} (enters e) o = rw e (Keeps-IsOwned a 0 w _ o (enter-Keeps a w.isbd))
  Step-IsOwned a {w} (rounds junk t e) o =
      let (lost, k) = round-Keeps a junk t w.isbd (omega (arith, o.alive)) in
      rw e (Keeps-IsOwned a lost w _ o k)

  -- Whatever calls of the user and rounds of the thread come, in any order: if at the start the block at
  -- `a` is allocated at most once, and no more messages and events have it than that, then so it is at the
  -- end.
  pub Reach-IsOwned : (a : ℕ) {w w' : World H M E Z} → IsOwned a w → Reach w w' → IsOwned a w'
  Reach-IsOwned a o here = o
  Reach-IsOwned a o (next r st) = Step-IsOwned a st (Reach-IsOwned a o r)
