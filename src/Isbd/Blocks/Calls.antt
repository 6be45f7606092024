-- ===== src/Isbd/Blocks/Calls.antt =====
-- The calls of lib/iridium/isbd/isbd.c on a single message keep the blocks of the heap.
use isbd_zephyr_module.Prelude.{
  ℕ, ◌+◌, ◌≤◌, ◌≡◌, Bool, true, false, Option, none, some, [], ◌∷◌, length, ltb, if◌then◌else◌,
  arith, refl, ap, ◌∙◌, Bool-cases, inl, inr,
}
use isbd_zephyr_module.Isbd.Kernel.{Heap, MsgQueue, count}
use isbd_zephyr_module.Isbd.Message.{MoMsg, MtMsg, IsbdErr, IsbdEvt, Isbd}
use isbd_zephyr_module.Isbd.Queue.{
  free_block, destroy_mo_msg, destroy_mt_msg, destroy_evt, enqueue_mo_msg, put_evt, notify_err,
  notify_mt_msg, notify_mo_msg,
}
use isbd_zephyr_module.Isbd.Blocks.{
  holds, evt_holds, mo_hold, evts_hold, mo_hold-append, evts_hold-append, count-without, allocated,
  owners, Keeps, Keeps-refl,
}

module _ {H M E Z : Type 0} ⦃heap : Heap H⦄ ⦃mos : MsgQueue MoMsg M⦄
    ⦃evts : MsgQueue IsbdEvt E⦄ where
  -- A block that is allocated is freed.
  pub free_block-Keeps :
      (a : ℕ) (b : Option ℕ) (s : Isbd H M E Z)
      → holds a b + owners a s ≤ allocated a s
      → Keeps a (holds a b) s (free_block b s) 0
  free_block-Keeps a none s h = record { balance = omega arith; once = λ k. k }
  free_block-Keeps a (some b) s h =
      let e = ap (count a) (heap.live-free b s.heap) ∙ count-without a b (heap.live s.heap) in
      record { balance = omega (arith, e); once = λ k. omega (arith, e) }

  pub destroy_mo_msg-Keeps :
      (a : ℕ) (m : MoMsg) (s : Isbd H M E Z)
      → holds a m.block + owners a s ≤ allocated a s
      → Keeps a (holds a m.block) s (destroy_mo_msg m s).1 0
  unfolding destroy_mo_msg
  destroy_mo_msg-Keeps a m s h = free_block-Keeps a m.block s h

  pub destroy_mt_msg-Keeps :
      (a : ℕ) (m : MtMsg) (s : Isbd H M E Z)
      → holds a m.block + owners a s ≤ allocated a s
      → Keeps a (holds a m.block) s (destroy_mt_msg m s).1 0
  unfolding destroy_mt_msg
  destroy_mt_msg-Keeps a m s h = free_block-Keeps a m.block s h

  pub destroy_evt-Keeps :
      (a : ℕ) (e : IsbdEvt) (s : Isbd H M E Z)
      → evt_holds a e + owners a s ≤ allocated a s
      → Keeps a (evt_holds a e) s (destroy_evt e s).1 0
  unfolding destroy_evt
  destroy_evt-Keeps a (IsbdEvt.mo m) s h = destroy_mo_msg-Keeps a m s h
  destroy_evt-Keeps a (IsbdEvt.mt m) s h = destroy_mt_msg-Keeps a m s h
  destroy_evt-Keeps a (IsbdEvt.svca v) s h = Keeps-refl a s
  destroy_evt-Keeps a (IsbdEvt.sigq v) s h = Keeps-refl a s
  destroy_evt-Keeps a (IsbdEvt.failed e) s h = Keeps-refl a s
  destroy_evt-Keeps a IsbdEvt.ring s h = Keeps-refl a s
  destroy_evt-Keeps a IsbdEvt.unk s h = Keeps-refl a s

  -- Is there room in the queue of messages?
  abbrev pub mo_room : Isbd H M E Z → Bool
  mo_room s = ltb (length (mos.items s.mo_q)) (mos.size s.mo_q)

  pub enqueue_mo_msg-Keeps :
      (a : ℕ) (m : MoMsg) (s : Isbd H M E Z)
      → Keeps a
          (holds a m.block)
          s
          (enqueue_mo_msg m s).1
          (if mo_room s then 0 else holds a m.block)
  unfolding enqueue_mo_msg
  enqueue_mo_msg-Keeps a m s =
      let (d, i, _) = mos.put_lem m s.mo_q in
      record {
        balance = ground (arith, d, ap (mo_hold a) i, mo_hold-append a (mos.items s.mo_q) (m ∷ []));
        once = λ k. k;
      }

  -- An event that finds no room is not taken.
  pub put_evt-Keeps :
      (a : ℕ) (e : IsbdEvt) (s : Isbd H M E Z)
      → Keeps a (evt_holds a e) s (put_evt e s).1 (if (put_evt e s).0 then 0 else evt_holds a e)
  unfolding put_evt
  put_evt-Keeps a e s =
      let (d, i, _) = evts.put_lem e s.evt_q in
      record {
        balance =
            ground (arith, d, ap (evts_hold a) i, evts_hold-append a (evts.items s.evt_q) (e ∷ []));
        once = λ k. k;
      }

  pub put_evt-Keeps_none :
      (a : ℕ) (e : IsbdEvt) (s : Isbd H M E Z) → evt_holds a e ≡ 0 → Keeps a 0 s (put_evt e s).1 0
  put_evt-Keeps_none a e s h =
      let k = put_evt-Keeps a e s in record { balance = ground (arith, k.balance); once = k.once }

  pub notify_err-Keeps : (a : ℕ) (e : IsbdErr) (s : Isbd H M E Z) → Keeps a 0 s (notify_err e s).1 0
  unfolding notify_err
  notify_err-Keeps a e s = put_evt-Keeps_none a (IsbdEvt.failed e) s refl

  pub notify_mt_kept :
      (m : MtMsg) (s : Isbd H M E Z)
      → (put_evt (IsbdEvt.mt m) s).0 ≡ true
      → (notify_mt_msg m s).1 ≡ (put_evt (IsbdEvt.mt m) s).1
  unfolding notify_mt_msg
  notify_mt_kept m s e = rw (e, notify_mt_msg) refl

  notify_mt_dropped :
      (m : MtMsg) (s : Isbd H M E Z)
      → (put_evt (IsbdEvt.mt m) s).0 ≡ false
      → (notify_mt_msg m s).1 ≡ (destroy_mt_msg m (put_evt (IsbdEvt.mt m) s).1).1
  unfolding notify_mt_msg
  notify_mt_dropped m s e = rw (e, notify_mt_msg) refl

  pub notify_mo_kept :
      (m : MoMsg) (s : Isbd H M E Z)
      → (put_evt (IsbdEvt.mo m) s).0 ≡ true
      → (notify_mo_msg m s).1 ≡ (put_evt (IsbdEvt.mo m) s).1
  unfolding notify_mo_msg
  notify_mo_kept m s e = rw (e, notify_mo_msg) refl

  notify_mo_dropped :
      (m : MoMsg) (s : Isbd H M E Z)
      → (put_evt (IsbdEvt.mo m) s).0 ≡ false
      → (notify_mo_msg m s).1 ≡ (destroy_mo_msg m (put_evt (IsbdEvt.mo m) s).1).1
  unfolding notify_mo_msg
  notify_mo_dropped m s e = rw (e, notify_mo_msg) refl

  -- A step that drops what it was given, and one that frees it.
  Keeps-freed :
      (a t : ℕ) (s s₁ s₂ : Isbd H M E Z) → Keeps a t s s₁ t → Keeps a t s₁ s₂ 0 → Keeps a t s s₂ 0
  Keeps-freed a t s s₁ s₂ x y = record {
    balance = omega (arith, x.balance, y.balance);
    once = λ h. y.once (x.once h);
  }

  pub notify_mt_msg-Keeps :
      (a : ℕ) (m : MtMsg) (s : Isbd H M E Z)
      → holds a m.block + owners a s ≤ allocated a s
      → Keeps a (holds a m.block) s (notify_mt_msg m s).1 0
  notify_mt_msg-Keeps a m s h =
      let s₁ = (put_evt (IsbdEvt.mt m) s).1 in
      let k = put_evt-Keeps a (IsbdEvt.mt m) s in
      elim (Bool-cases (put_evt (IsbdEvt.mt m) s).0) [
        | inl e ↦ rw (notify_mt_kept m s e) (rw e at k)
        | inr e ↦
            let k' : Keeps a (holds a m.block) s s₁ (holds a m.block) = rw e at k in
            rw (notify_mt_dropped m s e)
              (Keeps-freed a _ s s₁ _ k' (destroy_mt_msg-Keeps a m s₁ (omega (arith, k'.balance))))
      ]

  pub notify_mo_msg-Keeps :
      (a : ℕ) (m : MoMsg) (s : Isbd H M E Z)
      → holds a m.block + owners a s ≤ allocated a s
      → Keeps a (holds a m.block) s (notify_mo_msg m s).1 0
  notify_mo_msg-Keeps a m s h =
      let s₁ = (put_evt (IsbdEvt.mo m) s).1 in
      let k = put_evt-Keeps a (IsbdEvt.mo m) s in
      elim (Bool-cases (put_evt (IsbdEvt.mo m) s).0) [
        | inl e ↦ rw (notify_mo_kept m s e) (rw e at k)
        | inr e ↦
            let k' : Keeps a (holds a m.block) s s₁ (holds a m.block) = rw e at k in
            rw (notify_mo_dropped m s e)
              (Keeps-freed a _ s s₁ _ k' (destroy_mo_msg-Keeps a m s₁ (omega (arith, k'.balance))))
      ]
