-- ===== src/Isbd/Blocks/Sent.antt =====
-- `isbd_send_mo_msg` and the blocks of the heap.
use isbd_zephyr_module.Prelude.{
  ℕ, ◌+◌, ◌≤◌, ◌≡◌, Bytes, List, [], ◌∷◌, ◌++◌, length, ltb, arith, refl, ap, Bool-cases,
  Option-cases, inl, inr,
}
use isbd_zephyr_module.Isbd.Kernel.{Heap, MsgQueue, count}
use isbd_zephyr_module.Isbd.Message.{MoMsg, IsbdErr, IsbdEvt, Isbd}
use isbd_zephyr_module.Isbd.Queue.{send_block, send_mo_msg}
use isbd_zephyr_module.Isbd.Send.{
  merged, queued, new_msg, mo_items, send_none, send_some, send_block_lem,
}
use isbd_zephyr_module.Isbd.Blocks.{
  fresh_once, holds, mo_hold, evts_hold, mo_hold-append, allocated, Keeps,
}

-- A request that gives way has no block.
mo_hold-merged :
    (a : ℕ) (qs : List MoMsg) (m : MoMsg)
    → mo_hold a (merged qs m).0 + holds a (merged qs m).1.block ≡ mo_hold a qs + holds a m.block
mo_hold-merged a [] m = refl
mo_hold-merged a (q ∷ []) m = elim (Option-cases q.block) [
  | inl e ↦ ground (arith, e)
  | inr (b, e) ↦ ground (arith, e)
]
mo_hold-merged a (q ∷ r ∷ qs) m = refl

-- The messages of a queue and the one that is put behind them; the result says if there was room.
mo_hold-queued :
    (a n : ℕ) (qs : List MoMsg) (m : MoMsg) (e : IsbdErr) (rs : List MoMsg)
    → ◌≡◌ {A = IsbdErr × List MoMsg} (e, rs) (queued n qs m)
    → (lost : ℕ) × (mo_hold a rs + lost ≡ mo_hold a qs + holds a m.block)
      × (e ≡ IsbdErr.ok → lost ≡ 0)
mo_hold-queued a n qs m e rs h = elim (Bool-cases (ltb (length qs) n)) [
  | inl t ↦
      let g : ◌≡◌ {A = IsbdErr × List MoMsg} (e, rs) (IsbdErr.ok, qs ++ m ∷ []) = rw t at h in
      let i = ap (λ (x : IsbdErr × List MoMsg). mo_hold a x.1) g in
      (0, omega (arith, i, mo_hold-append a qs (m ∷ [])), λ k. refl)
  | inr t ↦
      let g : ◌≡◌ {A = IsbdErr × List MoMsg} (e, rs) (IsbdErr.err_space, qs) = rw t at h in
      let i = ap (λ (x : IsbdErr × List MoMsg). mo_hold a x.1) g in
      let o = ap (λ (x : IsbdErr × List MoMsg). x.0) g in
      (holds a m.block, omega (arith, i), λ k. absurd (ground (arith, k, o)))
]

module _ {H M E Z : Type 0} ⦃heap : Heap H⦄ ⦃mos : MsgQueue MoMsg M⦄
    ⦃evts : MsgQueue IsbdEvt E⦄ where
  -- `isbd_send_mo_msg` allocates a block that is new and leaves it to the message in the queue; behind an
  -- OK nothing is lost.
  pub send_mo_msg-Keeps :
      (a sn : ℕ) (msg : Bytes) (retries : ℕ) (s : Isbd H M E Z)
      → (lost : ℕ) × Keeps a 0 s (send_mo_msg sn msg retries s).1 lost
        × ((send_mo_msg sn msg retries s).0 ≡ IsbdErr.ok → lost ≡ 0)
  send_mo_msg-Keeps a sn msg retries s =
      let n = length msg in
      let s₁ : Isbd H M E Z = record s { heap = (heap.malloc n s.heap).1 } in
      elim (Option-cases (heap.malloc n s.heap).0) [
        | inl e ↦
            let l = ap (count a) (heap.live-malloc_none n s.heap e) in
            rw (send_none sn msg retries s e)
              (0, record { balance = omega (arith, l); once = λ k. omega (arith, l) }, λ k. refl)
        | inr (b, e) ↦
            let s₂ = (send_block sn msg retries b s₁).1 in
            let l = ap (count a) (heap.live-malloc_some n b s.heap e) in
            let f = heap.live_fresh n b s.heap e in
            let (q, _, v, w) = send_block_lem sn msg retries b s₁ in
            let live = ap (count a) v in
            let held = ap (λ x. evts_hold a (evts.items x)) w in
            let m = new_msg sn msg retries b in
            let (lost, i, o) =
              mo_hold-queued a _ (merged (mo_items s₁) m).0 (merged (mo_items s₁) m).1
                (send_block sn msg retries b s₁).0 (mo_items s₂) q in
            rw (send_some sn msg retries b s e) (
              lost,
              record {
                balance = omega (arith, l, live, held, i, mo_hold-merged a (mo_items s₁) m);
                once = λ k.
                    let y : allocated a s₁ ≤ 1 = fresh_once a b s s₁ l f k in
                    omega (arith, live, y);
              },
              o,
            )
      ]
