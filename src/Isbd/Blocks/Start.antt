-- ===== src/Isbd/Blocks/Start.antt =====
-- The ownership of the blocks from `isbd_setup` on.
use isbd_zephyr_module.Prelude.{
  ℕ, ◌≤◌, ◌≡◌, List, [], ◌∷◌, ◌==◌, Bool-cases, arith, ap, ◌∙◌, inl, inr, sym,
}
use isbd_zephyr_module.Serial.{Serial}
use isbd_zephyr_module.Isbd.Kernel.{Heap, MsgQueue, count}
use isbd_zephyr_module.Isbd.Message.{MoMsg, IsbdErr, IsbdEvt, IsbdConfig, Isbd}
use isbd_zephyr_module.Isbd.Setup.{isbd_setup}
use isbd_zephyr_module.Isbd.Setup.Laws.{IsReady, isbd_setup_lem}
use isbd_zephyr_module.Isbd.Blocks.{mo_hold, evts_hold, allocated}
use isbd_zephyr_module.Isbd.Blocks.World.{World, Reach, IsOwned, Reach-IsOwned}

-- A new address in front of a list in which each is at most once.
count_new : (a x : ℕ) (l : List ℕ) → count x l ≡ 0 → count a l ≤ 1 → count a (x ∷ l) ≤ 1
count_new a x l hx h = elim (Bool-cases (a == x)) [
  | inl e ↦
      let same : a ≡ x = ground arith in
      let none_yet : count a l ≡ 0 = rw same hx in ground (arith, none_yet)
  | inr e ↦ ground (arith, e)
]

no_memory : IsbdErr.ok ≡ IsbdErr.err_mem → ⊥
no_memory h = ground arith

module _ {H M E Z : Type 0} ⦃heap : Heap H⦄ ⦃mos : MsgQueue MoMsg M⦄ ⦃evts : MsgQueue IsbdEvt E⦄
    ⦃line : Serial Z⦄ where
  ready-IsOwned :
      (a : ℕ) (conf : IsbdConfig Z) (s s' : Isbd H M E Z)
      → allocated a s ≤ 1
      → IsReady conf s s'
      → IsOwned a (record { isbd = s'; taken = [] })
  ready-IsOwned a conf s s' h r =
      let m = ap (mo_hold a) r.mo_empty in
      let e = ap (evts_hold a) r.evt_empty in
      record {
        alive = omega (arith, m, e);
        once = omega (
          arith,
          ap (count a) r.live_eq,
          count_new a r.evt_at (r.mo_at ∷ heap.live s.heap) r.evt_fresh
              (count_new a r.mo_at (heap.live s.heap) r.mo_fresh h),
        );
      }

  -- From an `isbd_setup` that returns OK on, over a heap in which nothing is allocated twice, whatever calls
  -- of the user and rounds of the thread come, in any order: a block that a message in a queue, an event
  -- in a queue or an event in the hands of the user has is allocated, and no other of them has it.
  pub setup-IsOwned :
      (a mo_size evt_size : ℕ) (conf : IsbdConfig Z) (s : Isbd H M E Z) (w : World H M E Z)
      → allocated a s ≤ 1
      → (isbd_setup mo_size evt_size conf s).0 ≡ IsbdErr.ok
      → Reach (record { isbd = (isbd_setup mo_size evt_size conf s).1; taken = [] }) w
      → IsOwned a w
  setup-IsOwned a mo_size evt_size conf s w h ok r = elim (isbd_setup_lem mo_size evt_size conf s) [
    | inl (_, x) ↦ Reach-IsOwned a (ready-IsOwned a conf s _ h x) r
    | inr (inl (e, _)) ↦ absurd (no_memory (sym ok ∙ e))
    | inr (inr (e, _, _)) ↦ absurd (no_memory (sym ok ∙ e))
  ]
