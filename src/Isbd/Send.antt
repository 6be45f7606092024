-- ===== src/Isbd/Send.antt =====
-- What `isbd_send_mo_msg` and `isbd_request_session` do to the queue and the heap.
use isbd_zephyr_module.Prelude.{
  ℕ, ◌≤◌, ◌<◌, ◌≡◌, ◌⊎◌, Bytes, Bool, true, false, List, none, some, [], ◌∷◌, ◌++◌, length,
  length-append, ltb, if◌then◌else◌, ◌==◌, arith, refl, ap, sym, ◌∙◌, inl, inr, Option-cases,
  Bool-cases,
}
use isbd_zephyr_module.Isbd.Kernel.{Heap, MsgQueue}
use isbd_zephyr_module.Isbd.Message.{MoMsg, IsbdErr, IsbdEvt, Isbd}
use isbd_zephyr_module.Isbd.Queue.{
  destroy_mo_msg, enqueue_mo_msg, replace_request, merge_request, send_block, send_mo_msg,
  request_session,
}

-- The queue and the message once a lone request has given way to the message.
abbrev pub merged : List MoMsg → MoMsg → List MoMsg × MoMsg
merged (q ∷ []) m = elim q.block [
  | none ↦ ([], record m { alert = q.alert })
  | some _ ↦ (q ∷ [], m)
]
merged qs m = (qs, m)

-- A message behind a queue with room for `size`.
abbrev pub queued : ℕ → List MoMsg → MoMsg → IsbdErr × List MoMsg
queued size qs m =
    if ltb (length qs) size then (IsbdErr.ok, qs ++ m ∷ []) else (IsbdErr.err_space, qs)

lone-cases :
    (qs : List MoMsg)
    → ((q : MoMsg) × (qs ≡ q ∷ [])) ⊎ ((length qs ≡ 1 → ⊥) × ((m : MoMsg) → merged qs m ≡ (qs, m)))
lone-cases [] = inr (λ h. absurd (ground arith), λ m. refl)
lone-cases (q ∷ []) = inl (q, refl)
lone-cases (q ∷ r ∷ qs) = inr (λ h. absurd (omega arith), λ m. refl)

not_ok : IsbdErr.ok ≡ IsbdErr.err_space → ⊥
not_ok h = ground arith

queued_ok :
    (n : ℕ) (qs : List MoMsg) (m : MoMsg) (e : IsbdErr) (rs : List MoMsg)
    → ◌≡◌ {A = IsbdErr × List MoMsg} (e, rs) (queued n qs m)
    → (e ≡ IsbdErr.ok → 0 < length rs) × (length qs < n → e ≡ IsbdErr.ok)
queued_ok n qs m e rs h = elim (Bool-cases (ltb (length qs) n)) [
  | inl t ↦
      let g : ◌≡◌ {A = IsbdErr × List MoMsg} (e, rs) (IsbdErr.ok, qs ++ m ∷ []) = rw t at h in
      (
        λ k.
            omega
              (arith, ap (λ (x : IsbdErr × List MoMsg). length x.1) g, length-append qs (m ∷ [])),
        λ k. ap (λ (x : IsbdErr × List MoMsg). x.0) g,
      )
  | inr t ↦
      let g : ◌≡◌ {A = IsbdErr × List MoMsg} (e, rs) (IsbdErr.err_space, qs) = rw t at h in
      (
        λ k. absurd (not_ok (sym k ∙ ap (λ (x : IsbdErr × List MoMsg). x.0) g)),
        λ k. absurd (ground arith),
      )
]

paired :
    (b c : Bool) (it xs ys : List MoMsg)
    → b ≡ c
    → it ≡ (if b then xs else ys)
    → ◌≡◌ {A = IsbdErr × List MoMsg}
        (if b then IsbdErr.ok else IsbdErr.err_space, it)
        (if c then (IsbdErr.ok, xs) else (IsbdErr.err_space, ys))
paired true true it xs ys h i = ap (λ l. (IsbdErr.ok, l)) i
paired false false it xs ys h i = ap (λ l. (IsbdErr.err_space, l)) i
paired true false it xs ys h i = absurd (ground arith)
paired false true it xs ys h i = absurd (ground arith)

merged-none :
    (q m : MoMsg) → q.block ≡ none → merged (q ∷ []) m ≡ ([], record m { alert = q.alert })
merged-none q m e = rw e refl

merged-some : (q m : MoMsg) (a : ℕ) → q.block ≡ some a → merged (q ∷ []) m ≡ (q ∷ [], m)
merged-some q m a e = simp e refl

pub queued_room : (n : ℕ) (q : MoMsg) → 1 ≤ n → queued n [] q ≡ (IsbdErr.ok, q ∷ [])
queued_room n q h = ground arith

-- The message that `isbd_send_mo_msg` makes, in the block at `a`.
abbrev pub new_msg : ℕ → Bytes → ℕ → ℕ → MoMsg
new_msg sn msg retries a = record {
  alert = false;
  sn = sn;
  retries = retries;
  block = some a;
  len = length msg;
}

module _ {H M E Z : Type 0} ⦃heap : Heap H⦄ ⦃mos : MsgQueue MoMsg M⦄
    ⦃evts : MsgQueue IsbdEvt E⦄ where
  -- The queue of the service and its capacity.
  abbrev pub mo_items : Isbd H M E Z → List MoMsg
  mo_items s = mos.items s.mo_q

  -- What stays as it is when only the queue of messages changes.
  pub record SameRest (s s' : Isbd H M E Z) : Type 0 where
    pub size_eq : mos.size s'.mo_q ≡ mos.size s.mo_q
    pub heap_eq : s'.heap ≡ s.heap
    pub evt_q_eq : s'.evt_q ≡ s.evt_q

  pub enqueue_mo_msg_lem :
      (m : MoMsg) (s : Isbd H M E Z)
      → let (e, s') = enqueue_mo_msg m s in
        ((e, mo_items s') ≡ queued (mos.size s.mo_q) (mo_items s) m) × SameRest s s'
  unfolding enqueue_mo_msg
  enqueue_mo_msg_lem m s =
      let (d, i, z) = mos.put_lem m s.mo_q in
      (
        paired (mos.put m s.mo_q).0 (ltb (length (mo_items s)) (mos.size s.mo_q)) _ _ _ d i,
        record { size_eq = z; heap_eq = refl; evt_q_eq = refl },
      )

  -- Taking a message out and what is left.
  pub get_lone :
      (q : MoMsg) (s : Isbd H M E Z)
      → mo_items s ≡ q ∷ []
      → let s₁ : Isbd H M E Z = record s { mo_q = (mos.get s.mo_q).1 } in
        ((mos.get s.mo_q).0 ≡ some q) × (mo_items s₁ ≡ []) × SameRest s s₁
  get_lone q s h =
      let (g, i, z) = mos.get_some q [] s.mo_q h in
      (g, i, record { size_eq = z; heap_eq = refl; evt_q_eq = refl })

  -- What `merge_request` has to give.
  abbrev Merges : MoMsg → Isbd H M E Z → MoMsg × Isbd H M E Z → Type 0
  Merges m s (m', s') = ((mo_items s', m') ≡ merged (mo_items s) m) × SameRest s s'

  destroy_none : (q : MoMsg) (s : Isbd H M E Z) → q.block ≡ none → (destroy_mo_msg q s).1 ≡ s
  unfolding destroy_mo_msg
  destroy_none q s e = rw (e, destroy_mo_msg) refl

  replace_none :
      (q m : MoMsg) (s : Isbd H M E Z)
      → q.block ≡ none
      → replace_request (some q) m s ≡ (record m { alert = q.alert }, s)
  unfolding replace_request
  replace_none q m s e =
      rw (e, replace_request) (ap (λ r. (record m { alert = q.alert }, r)) (destroy_none q s e))

  replace_some :
      (q m : MoMsg) (a : ℕ) (s : Isbd H M E Z)
      → q.block ≡ some a
      → replace_request (some q) m s ≡ (m, (enqueue_mo_msg q s).1)
  unfolding replace_request
  replace_some q m a s e = simp (e, replace_request) refl

  pub SameRest-trans : (s t u : Isbd H M E Z) → SameRest s t → SameRest t u → SameRest s u
  SameRest-trans s t u x y = record {
    size_eq = y.size_eq ∙ x.size_eq;
    heap_eq = y.heap_eq ∙ x.heap_eq;
    evt_q_eq = y.evt_q_eq ∙ x.evt_q_eq;
  }

  replace_request_lem :
      (q m : MoMsg) (s s₁ : Isbd H M E Z)
      → mo_items s ≡ q ∷ []
      → mo_items s₁ ≡ []
      → SameRest s s₁
      → Merges m s (replace_request (some q) m s₁)
  replace_request_lem q m s s₁ h i r = elim (Option-cases q.block) [
    | inl e ↦ rw (replace_none q m s₁ e) (
      ap (λ l. (l, record m { alert = q.alert })) i
          ∙ sym (merged-none q m e)
          ∙ ap (λ l. merged l m) (sym h),
      r,
    )
    | inr (a, e) ↦
        let (p, t) = enqueue_mo_msg_lem q s₁ in
        let le : 1 ≤ mos.size s₁.mo_q =
          omega (arith, r.size_eq, mos.items_le s.mo_q, ap length h) in
        let back : mo_items (enqueue_mo_msg q s₁).1 ≡ q ∷ [] =
          ap (λ (x : IsbdErr × List MoMsg). x.1)
            (p ∙ ap (λ l. queued (mos.size s₁.mo_q) l q) i ∙ queued_room (mos.size s₁.mo_q) q le) in
        rw (replace_some q m a s₁ e) (
          ap (λ l. (l, m)) back ∙ sym (merged-some q m a e) ∙ ap (λ l. merged l m) (sym h),
          SameRest-trans s s₁ _ r t,
        )
  ]

  merge_one :
      (q m : MoMsg) (s : Isbd H M E Z)
      → mo_items s ≡ q ∷ []
      → merge_request m s ≡ replace_request (some q) m (record s { mo_q = (mos.get s.mo_q).1 })
  unfolding merge_request
  merge_one q m s h =
      let one : (mos.num_used s.mo_q == 1) ≡ true =
        ground (arith, mos.num_used_lem s.mo_q, ap length h) in
      rw (one, (get_lone q s h).0, merge_request) refl

  merge_else :
      (m : MoMsg) (s : Isbd H M E Z) → (length (mo_items s) ≡ 1 → ⊥) → merge_request m s ≡ (m, s)
  unfolding merge_request
  merge_else m s n =
      let no : (mos.num_used s.mo_q == 1) ≡ false = ground (arith, mos.num_used_lem s.mo_q, n) in
      rw (no, merge_request) refl

  merge_request_lem : (m : MoMsg) (s : Isbd H M E Z) → Merges m s (merge_request m s)
  merge_request_lem m s = elim (lone-cases (mo_items s)) [
    | inl (q, h) ↦
        let (g, i, r) = get_lone q s h in
        rw (merge_one q m s h)
          (replace_request_lem q m s (record s { mo_q = (mos.get s.mo_q).1 }) h i r)
    | inr (n, h) ↦
        rw (merge_else m s n)
          (sym (h m), record { size_eq = refl; heap_eq = refl; evt_q_eq = refl })
  ]

  pub send_none :
      (sn : ℕ) (msg : Bytes) (retries : ℕ) (s : Isbd H M E Z)
      → (heap.malloc (length msg) s.heap).0 ≡ none
      → send_mo_msg sn msg retries s
        ≡ (IsbdErr.err_mem, record s { heap = (heap.malloc (length msg) s.heap).1 })
  unfolding send_mo_msg
  send_none sn msg retries s e = rw (e, send_mo_msg) refl

  pub send_some :
      (sn : ℕ) (msg : Bytes) (retries a : ℕ) (s : Isbd H M E Z)
      → (heap.malloc (length msg) s.heap).0 ≡ some a
      → send_mo_msg sn msg retries s
        ≡ send_block sn msg retries a (record s { heap = (heap.malloc (length msg) s.heap).1 })
  unfolding send_mo_msg
  send_some sn msg retries a s e = rw (e, send_mo_msg) refl

  pub send_block_lem :
      (sn : ℕ) (msg : Bytes) (retries a : ℕ) (s : Isbd H M E Z)
      → let (e, s') = send_block sn msg retries a s in
        (let (qs, m) = merged (mo_items s) (new_msg sn msg retries a) in
          (e, mo_items s') ≡ queued (mos.size s.mo_q) qs m)
        × (heap.load a (length msg) s'.heap ≡ msg)
        × (heap.live s'.heap ≡ heap.live s.heap)
        × (s'.evt_q ≡ s.evt_q)
  unfolding send_block
  send_block_lem sn msg retries a s =
      let s₁ : Isbd H M E Z = record s { heap = heap.store a msg s.heap } in
      let r = merge_request (new_msg sn msg retries a) s₁ in
      let (p, t) = merge_request_lem (new_msg sn msg retries a) s₁ in
      let (o, u) = enqueue_mo_msg_lem r.0 r.1 in
      let h = u.heap_eq ∙ t.heap_eq in
      (
        o
            ∙ ap (λ n. queued n (mo_items r.1) r.0) t.size_eq
            ∙ ap (λ (x : List MoMsg × MoMsg). queued (mos.size s.mo_q) x.0 x.1) p,
        ap (λ g. heap.load a (length msg) g) h ∙ heap.load-store a msg s.heap,
        ap heap.live h ∙ heap.live-store a msg s.heap,
        u.evt_q_eq ∙ t.evt_q_eq,
      )

  -- Without memory `isbd_send_mo_msg` says so and leaves the queue. With a block at `a` it copies the
  -- message there; a request alone in the queue gives way to the message, which takes over its alert flag;
  -- then the message is put behind the others and the result is OK, or there is no room, the result says
  -- so, and the block stays allocated although no message in the queue has it.
  pub send_mo_msg_lem :
      (sn : ℕ) (msg : Bytes) (retries : ℕ) (s : Isbd H M E Z)
      → let (e, s') = send_mo_msg sn msg retries s in
        (((heap.malloc (length msg) s.heap).0 ≡ none)
          × (e ≡ IsbdErr.err_mem)
          × (mo_items s' ≡ mo_items s)
          × (heap.live s'.heap ≡ heap.live s.heap))
        ⊎ ((a : ℕ) × (let (qs, m) = merged (mo_items s) (new_msg sn msg retries a) in
              (e, mo_items s') ≡ queued (mos.size s.mo_q) qs m)
            × (heap.load a (length msg) s'.heap ≡ msg)
            × (heap.live s'.heap ≡ a ∷ heap.live s.heap)
            × (s'.evt_q ≡ s.evt_q))
  send_mo_msg_lem sn msg retries s = elim (Option-cases (heap.malloc (length msg) s.heap).0) [
    | inl e ↦
        rw (send_none sn msg retries s e)
          (inl (e, refl, refl, heap.live-malloc_none (length msg) s.heap e))
    | inr (a, e) ↦
        let s₁ : Isbd H M E Z = record s { heap = (heap.malloc (length msg) s.heap).1 } in
        let (q, l, v, w) = send_block_lem sn msg retries a s₁ in
        rw (send_some sn msg retries a s e)
          (inr (a, q, l, v ∙ heap.live-malloc_some (length msg) a s.heap e, w))
  ]

  -- `isbd_request_session` puts a request into an empty queue with room, and leaves a queue that is not
  -- empty, where some session is to come anyway: behind an OK the queue is not empty. Only the queue
  -- changes.
  request_session_lem :
      (sn retries : ℕ) (alert : Bool) (s : Isbd H M E Z)
      → let (e, s') = request_session sn retries alert s in
        SameRest s s'
        × (e ≡ IsbdErr.ok → 0 < length (mo_items s'))
        × (0 < length (mo_items s) → (e ≡ IsbdErr.ok) × (mo_items s' ≡ mo_items s))
        × (length (mo_items s) ≡ 0 → 0 < mos.size s.mo_q → e ≡ IsbdErr.ok)
  unfolding request_session
  request_session_lem sn retries alert s = elim (Bool-cases (mos.num_used s.mo_q == 0)) [
    | inl e ↦
        let m : MoMsg = record {
          alert = alert;
          sn = sn;
          retries = retries;
          block = none;
          len = 0;
        } in
        let (p, r) = enqueue_mo_msg_lem m s in
        let (a, b) =
          queued_ok (mos.size s.mo_q) (mo_items s) m (enqueue_mo_msg m s).0
            (mo_items (enqueue_mo_msg m s).1) p in
        let z : length (mo_items s) ≡ 0 = ground (arith, mos.num_used_lem s.mo_q) in
        rw (e, request_session) (r, a, λ h. absurd (omega arith), λ h k. b (omega arith))
    | inr e ↦
        let z : 0 < length (mo_items s) = ground (arith, mos.num_used_lem s.mo_q) in
        rw (e, request_session)
          (
            record { size_eq = refl; heap_eq = refl; evt_q_eq = refl },
            λ h. z,
            λ h. (refl, refl),
            λ h k. absurd (omega arith),
          )
  ]
