-- ===== src/Isbd/Atomic/User.antt =====
-- The calls of lib/iridium/isbd/isbd.c for its user keep the blocks of the heap, whatever other threads do
-- between their actions.
use isbd_zephyr_module.Prelude.{
  ℕ, ◌+◌, ◌≤◌, Bytes, Bool, true, false, Option, none, some, length, ◌==◌, if◌then◌else◌, arith, ap,
  Option-cases, List-cases, inl, inr,
}
use isbd_zephyr_module.Isbd.Kernel.{Heap, MsgQueue, count}
use isbd_zephyr_module.Isbd.Message.{MoMsg, MtMsg, IsbdErr, IsbdEvt, Isbd}
use isbd_zephyr_module.Isbd.Queue.{
  destroy_mo_msg, destroy_mt_msg, enqueue_mo_msg, wait_evt, put_evt,
}
use isbd_zephyr_module.Isbd.Action.{ret, ◌>>=◌, atomically}
use isbd_zephyr_module.Isbd.Atomic.{
  alloc, take_mo, replace_code, merge_code, block_code, send_code, request_code, notify_mt_code,
  notify_mo_code,
}
use isbd_zephyr_module.Isbd.Atomic.Safe.{
  Safe, Keeps-frame, Keeps-with, Safe-act, Safe-le, Safe->>=, Safe-if,
}
use isbd_zephyr_module.Isbd.Blocks.{
  fresh_once, holds, evt_holds, mo_hold, evts_hold, Keeps, Keeps-refl,
}
use isbd_zephyr_module.Isbd.Blocks.Calls.{
  destroy_mo_msg-Keeps, destroy_mt_msg-Keeps, enqueue_mo_msg-Keeps, put_evt-Keeps,
}

abbrev pub opt_mo : ℕ → Option MoMsg → ℕ
opt_mo a none = 0
opt_mo a (some m) = holds a m.block

abbrev pub opt_evt : ℕ → Option IsbdEvt → ℕ
opt_evt a none = 0
opt_evt a (some e) = evt_holds a e

abbrev pub nothing : {A : Type 0} → A → ℕ
nothing _ = 0

module _ {H M E Z : Type 0} ⦃heap : Heap H⦄ ⦃mos : MsgQueue MoMsg M⦄
    ⦃evts : MsgQueue IsbdEvt E⦄ where
  pub alloc-Keeps : (a n : ℕ) (s : Isbd H M E Z) → Keeps a 0 s (alloc n s).1 (holds a (alloc n s).0)
  alloc-Keeps a n s = elim (Option-cases (heap.malloc n s.heap).0) [
    | inl e ↦
        let l = ap (count a) (heap.live-malloc_none n s.heap e) in
        rw e (record { balance = omega (arith, l); once = λ h. omega (arith, l, h) })
    | inr (b, e) ↦
        let l = ap (count a) (heap.live-malloc_some n b s.heap e) in
        rw e (record {
          balance = ground (arith, l);
          once = fresh_once a b s (alloc n s).1 l (heap.live_fresh n b s.heap e);
        })
  ]

  pub take_mo-Keeps :
      (a : ℕ) (s : Isbd H M E Z) → Keeps a 0 s (take_mo s).1 (opt_mo a (take_mo s).0)
  take_mo-Keeps a s = elim (List-cases (mos.items s.mo_q)) [
    | inl i ↦ rw (mos.get_none s.mo_q i) (Keeps-refl a s)
    | inr (m, ms, i) ↦
        let (g, j, _) = mos.get_some m ms s.mo_q i in
        record {
          balance = omega (arith, ap (mo_hold a) i, ap (mo_hold a) j, ap (opt_mo a) g);
          once = λ h. h;
        }
  ]

  pub wait_evt-Keeps :
      (a : ℕ) (s : Isbd H M E Z) → Keeps a 0 s (wait_evt s).1 (opt_evt a (wait_evt s).0)
  unfolding wait_evt
  wait_evt-Keeps a s = elim (List-cases (evts.items s.evt_q)) [
    | inl i ↦ rw (evts.get_none s.evt_q i) (Keeps-refl a s)
    | inr (e, es, i) ↦
        let (g, j, _) = evts.get_some e es s.evt_q i in
        record {
          balance = omega (arith, ap (evts_hold a) i, ap (evts_hold a) j, ap (opt_evt a) g);
          once = λ h. h;
        }
  ]

  replaced-Safe :
      (a : ℕ) (alert : Bool) (sn retries : ℕ) (b : Option ℕ) (len : ℕ) (m : MoMsg)
      → let q : MoMsg = record {
        alert = alert;
        sn = sn;
        retries = retries;
        block = b;
        len = len;
      } in
        Safe {H = H} {M = M} {E = E} {Z = Z} a
          (λ (x : MoMsg). holds a x.block)
          (holds a b + holds a m.block)
          (replace_code (some q) m)
  unfolding replace_code
  replaced-Safe a alert sn retries none len m =
      let q : MoMsg = record {
        alert = alert;
        sn = sn;
        retries = retries;
        block = none;
        len = len;
      } in
      let n = holds a m.block in
      Safe-act a _ (0 + n) (λ s h. (
        0 + n,
        Keeps-frame a 0 0 n s _ (destroy_mo_msg-Keeps a q s (omega (arith, h))),
        record { next = omega arith },
      ))
  replaced-Safe a alert sn retries (some b) len m =
      let q : MoMsg = record {
        alert = alert;
        sn = sn;
        retries = retries;
        block = some b;
        len = len;
      } in
      let n = holds a m.block in
      Safe-act a _ (holds a (some b) + n) (λ s h.
        (_, Keeps-frame a _ _ n s _ (enqueue_mo_msg-Keeps a q s), record { next = omega arith }))

  replace_code-Safe :
      (a : ℕ) (o : Option MoMsg) (m : MoMsg)
      → Safe {H = H} {M = M} {E = E} {Z = Z} a
          (λ (x : MoMsg). holds a x.block)
          (opt_mo a o + holds a m.block)
          (replace_code o m)
  unfolding replace_code
  replace_code-Safe a none m = record { next = omega arith }
  replace_code-Safe a (some q) m = replaced-Safe a q.alert q.sn q.retries q.block q.len m

  merge_code-Safe :
      (a : ℕ) (m : MoMsg)
      → Safe {H = H} {M = M} {E = E} {Z = Z} a
          (λ (x : MoMsg). holds a x.block)
          (holds a m.block)
          (merge_code m)
  unfolding merge_code
  merge_code-Safe a m =
      let n = holds a m.block in
      Safe-act a _ n (λ s h. (
        n,
        record { balance = omega arith; once = λ k. k },
        Safe-if a _ n (mos.num_used s.mo_q == 1) _ _
            (Safe-act a _ n (λ s₁ h₁. (
              opt_mo a (take_mo s₁).0 + n,
              Keeps-with a _ n s₁ _ (take_mo-Keeps a s₁),
              replace_code-Safe a (take_mo s₁).0 m,
            )))
            (record { next = omega arith }),
      ))

  -- The last action of a call, which owes nothing behind it.
  enqueue-Safe :
      (a n : ℕ) (m : MoMsg)
      → holds a m.block ≤ n
      → Safe {H = H} {M = M} {E = E} {Z = Z} a
          (nothing {A = IsbdErr})
          n
          (atomically (enqueue_mo_msg m))
  enqueue-Safe a n m h =
      Safe-le a nothing (holds a m.block) n _
        (record { next = λ s g. (_, enqueue_mo_msg-Keeps a m s, omega arith) }) h

  block_code-Safe :
      (a sn : ℕ) (msg : Bytes) (retries b : ℕ)
      → Safe {H = H} {M = M} {E = E} {Z = Z} a
          (nothing {A = IsbdErr})
          (holds a (some b))
          (block_code sn msg retries b)
  unfolding block_code
  block_code-Safe a sn msg retries b =
      let n = holds a (some b) in
      Safe-act a _ n (λ s h.
        let e = ap (count a) (heap.live-store b msg s.heap) in
        (
          n,
          record { balance = omega (arith, e); once = λ k. omega (arith, e, k) },
          Safe->>= a (λ (x : MoMsg). holds a x.block) nothing n _ _ (merge_code-Safe a _)
              (λ m n' g. enqueue-Safe a n' m g),
        ))

  pub send_code-Safe :
      (a sn : ℕ) (msg : Bytes) (retries : ℕ)
      → Safe {H = H} {M = M} {E = E} {Z = Z} a (nothing {A = IsbdErr}) 0 (send_code sn msg retries)
  unfolding send_code
  send_code-Safe a sn msg retries =
      Safe-act a nothing 0 (λ s h. (_, alloc-Keeps a (length msg) s, sent (alloc (length msg) s).0))
    where
      sent :
          (b : Option ℕ)
          → Safe {H = H} {M = M} {E = E} {Z = Z} a
              (nothing {A = IsbdErr})
              (holds a b)
              (elim b [ none ↦ ret IsbdErr.err_mem | some x ↦ block_code sn msg retries x ])
      sent none = record { next = omega arith }
      sent (some b) = block_code-Safe a sn msg retries b

  pub request_code-Safe :
      (a sn retries : ℕ) (alert : Bool)
      → Safe {H = H} {M = M} {E = E} {Z = Z} a
          (nothing {A = IsbdErr})
          0
          (request_code sn retries alert)
  unfolding request_code
  request_code-Safe a sn retries alert = Safe-act a nothing 0 (λ s h. (
    0,
    Keeps-refl a s,
    Safe-if a nothing 0 (mos.num_used s.mo_q == 0) _ _ (enqueue-Safe a 0 _ (omega arith))
        (record { next = omega arith }),
  ))

  pub notify_mt_code-Safe :
      (a : ℕ) (m : MtMsg)
      → Safe {H = H} {M = M} {E = E} {Z = Z} a nothing (holds a m.block) (notify_mt_code m)
  unfolding notify_mt_code
  notify_mt_code-Safe a m =
      let n = holds a m.block in
      Safe-act a nothing n
        (λ s h. (_, put_evt-Keeps a (IsbdEvt.mt m) s, notified (put_evt (IsbdEvt.mt m) s).0))
    where
      notified :
          (done : Bool)
          → Safe {H = H} {M = M} {E = E} {Z = Z} a
              (nothing {A = Unit {0}})
              (if done then 0 else holds a m.block)
              (if done then ret tt else (do _ ← atomically (destroy_mt_msg m); ret tt))
      notified true = record { next = omega arith }
      notified false = record { next = λ s h. (0, destroy_mt_msg-Keeps a m s h, omega arith) }

  pub notify_mo_code-Safe :
      (a : ℕ) (m : MoMsg)
      → Safe {H = H} {M = M} {E = E} {Z = Z} a nothing (holds a m.block) (notify_mo_code m)
  unfolding notify_mo_code
  notify_mo_code-Safe a m =
      let n = holds a m.block in
      Safe-act a nothing n
        (λ s h. (_, put_evt-Keeps a (IsbdEvt.mo m) s, notified (put_evt (IsbdEvt.mo m) s).0))
    where
      notified :
          (done : Bool)
          → Safe {H = H} {M = M} {E = E} {Z = Z} a
              (nothing {A = Unit {0}})
              (if done then 0 else holds a m.block)
              (if done then ret tt else (do _ ← atomically (destroy_mo_msg m); ret tt))
      notified true = record { next = omega arith }
      notified false = record { next = λ s h. (0, destroy_mo_msg-Keeps a m s h, omega arith) }
