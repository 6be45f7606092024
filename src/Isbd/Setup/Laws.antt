-- ===== src/Isbd/Setup/Laws.antt =====
-- What `isbd_setup` leaves behind.
use isbd_zephyr_module.Prelude.{
  ℕ, ◌*◌, ◌≡◌, ◌⊎◌, Option, none, some, List, [], ◌∷◌, ◌==◌, true, arith, refl, ap, ◌∙◌, sym, inl,
  inr,
}
use isbd_zephyr_module.Isbd.Kernel.{Heap, MsgQueue, without, count}
use isbd_zephyr_module.Isbd.Message.{MoMsg, IsbdErr, IsbdEvt, IsbdConfig, Isbd}
use isbd_zephyr_module.Isbd.Setup.{init_queues, isbd_setup}

without_first : (a : ℕ) (l : List ℕ) → without a (a ∷ l) ≡ l
without_first a l = let same : (a == a) ≡ true = ground arith in rw same refl

module _ {H M E Z : Type 0} ⦃heap : Heap H⦄ ⦃mos : MsgQueue MoMsg M⦄
    ⦃evts : MsgQueue IsbdEvt E⦄ where
  -- A service that is ready: its queues are empty and as long as it was asked for, in blocks at `mo_at` and
  -- `evt_at` that are new, and the service counts as not available.
  pub record IsReady (conf : IsbdConfig Z) (s s' : Isbd H M E Z) : Type 0 where
    pub mo_at : ℕ
    pub evt_at : ℕ
    pub mo_empty : mos.items s'.mo_q ≡ []
    pub mo_size : mos.size s'.mo_q ≡ conf.mo_queue_len
    pub evt_empty : evts.items s'.evt_q ≡ []
    pub evt_size : evts.size s'.evt_q ≡ conf.evt_queue_len
    pub mo_buf : s'.mo_msgq_buf ≡ some mo_at
    pub evt_buf : s'.evt_msgq_buf ≡ some evt_at
    pub live_eq : heap.live s'.heap ≡ evt_at ∷ mo_at ∷ heap.live s.heap
    pub mo_fresh : count mo_at (heap.live s.heap) ≡ 0
    pub evt_fresh : count evt_at (mo_at ∷ heap.live s.heap) ≡ 0
    pub service_eq : s'.service ≡ 0
    pub threshold_eq : s'.sigq_threshold ≡ conf.sigq_threshold

  -- The three ways in which the set-up ends.
  abbrev pub SetUp : IsbdConfig Z → Isbd H M E Z → IsbdErr × Isbd H M E Z → Type 0
  SetUp conf s (e, s') =
      ((e ≡ IsbdErr.ok) × IsReady conf s s')
      ⊎ ((e ≡ IsbdErr.err_mem) × (heap.live s'.heap ≡ heap.live s.heap))
      ⊎ ((e ≡ IsbdErr.err_mem)
          × (s'.mo_msgq_buf ≡ none)
          × ((b : ℕ) × (heap.live s'.heap ≡ b ∷ heap.live s.heap)))

  setup_with :
      (mo_size evt_size : ℕ) (conf : IsbdConfig Z) (x y : Option ℕ) (s : Isbd H M E Z)
      → let h₁ = heap.malloc (mo_size * conf.mo_queue_len) s.heap in
        let h₂ = heap.malloc (evt_size * conf.evt_queue_len) h₁.1 in
        h₁.0 ≡ x
        → h₂.0 ≡ y
        → SetUp conf s (
            init_queues conf x y (record s {
              sigq_threshold = conf.sigq_threshold;
              dte = conf.dte;
              service = 0;
              mo_msgq_buf = x;
              evt_msgq_buf = y;
              heap = h₂.1;
            }))
  unfolding init_queues
  setup_with mo_size evt_size conf none none s p q = inr (
      inl (
        refl,
        heap.live-malloc_none (evt_size * conf.evt_queue_len) _ q
            ∙ heap.live-malloc_none (mo_size * conf.mo_queue_len) s.heap p,
      ))
  setup_with mo_size evt_size conf none (some b) s p q = inr (
      inr (
        refl,
        refl,
        (
          b,
          heap.live-malloc_some (evt_size * conf.evt_queue_len) b _ q
              ∙ ap (λ l. b ∷ l) (heap.live-malloc_none (mo_size * conf.mo_queue_len) s.heap p),
        ),
      ))
  setup_with mo_size evt_size conf (some a) none s p q = inr (
      inl (
        refl,
        heap.live-free a _
            ∙ ap (without a) (
                heap.live-malloc_none (evt_size * conf.evt_queue_len) _ q
                ∙ heap.live-malloc_some (mo_size * conf.mo_queue_len) a s.heap p)
            ∙ without_first a (heap.live s.heap),
      ))
  setup_with mo_size evt_size conf (some a) (some b) s p q =
      let l₁ = heap.live-malloc_some (mo_size * conf.mo_queue_len) a s.heap p in
      inl (
        refl,
        record {
          mo_at = a;
          evt_at = b;
          mo_empty = mos.items-init conf.mo_queue_len;
          mo_size = mos.size-init conf.mo_queue_len;
          evt_empty = evts.items-init conf.evt_queue_len;
          evt_size = evts.size-init conf.evt_queue_len;
          mo_buf = refl;
          evt_buf = refl;
          live_eq =
              heap.live-malloc_some (evt_size * conf.evt_queue_len) b _ q ∙ ap (λ l. b ∷ l) l₁;
          mo_fresh = heap.live_fresh (mo_size * conf.mo_queue_len) a s.heap p;
          evt_fresh = ap (count b) (sym l₁) ∙ heap.live_fresh (evt_size * conf.evt_queue_len) b _ q;
          service_eq = refl;
          threshold_eq = refl;
        },
      )

  -- `isbd_setup` returns OK with the service ready, or ISBD_ERR_MEM: then it has freed what it had
  -- allocated, unless there was memory for the events but none for the messages, when the block of the
  -- events stays allocated.
  pub isbd_setup_lem :
      (mo_size evt_size : ℕ) (conf : IsbdConfig Z) (s : Isbd H M E Z)
      → SetUp conf s (isbd_setup mo_size evt_size conf s)
  unfolding isbd_setup
  isbd_setup_lem mo_size evt_size conf s = setup_with mo_size evt_size conf _ _ s refl refl
