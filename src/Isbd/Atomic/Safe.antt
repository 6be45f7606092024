-- ===== src/Isbd/Atomic/Safe.antt =====
-- Code of lib/iridium/isbd/isbd.c that keeps the blocks of the heap whatever other threads do between its
-- actions.
use isbd_zephyr_module.Prelude.{ℕ, ◌+◌, ◌-◌, ◌≤◌, ◌≡◌, Bool, true, false, if◌then◌else◌, arith}
use isbd_zephyr_module.Isbd.Kernel.{Heap, MsgQueue}
use isbd_zephyr_module.Isbd.Message.{MoMsg, IsbdEvt, Isbd}
use isbd_zephyr_module.Isbd.Action.{Code, ret, act, ◌>>=◌}
use isbd_zephyr_module.Isbd.Blocks.{allocated, owners, Keeps}

module _ {H M E : Type 0} ⦃heap : Heap H⦄ ⦃mos : MsgQueue MoMsg M⦄ ⦃evts : MsgQueue IsbdEvt E⦄
    {Z : Type 0} (a : ℕ) where
  abbrev pub Safely : {A : Type 0} → (A → ℕ) → ℕ → Code (Isbd H M E Z) A → Type 0
  Safely has n (ret x) = has x ≤ n
  Safely has n (act g k) =
      (s : Isbd H M E Z)
      → n + owners a s ≤ allocated a s
      → (n' : ℕ) × Keeps a n s (g s) n' × Safely has n' (k s)

  -- Code that has `n` pointers to the block at `a`: in any state where they and the owners are allocated,
  -- its next action keeps the blocks, and hands what is then not owned to the code behind it. What the
  -- result has, by `has`, is at most what the code has at its end.
  pub record Safe {A : Type 0} (has : A → ℕ) (n : ℕ) (c : Code (Isbd H M E Z) A) : Type 0 where
    pub next : Safely has n c

  -- The pointers that other code has do not matter.
  pub Keeps-frame :
      (t l x : ℕ) (s s' : Isbd H M E Z) → Keeps a t s s' l → Keeps a (t + x) s s' (l + x)
  Keeps-frame t l x s s' k = record { balance = omega (arith, k.balance); once = k.once }

  pub Keeps-with : (l n : ℕ) (s s' : Isbd H M E Z) → Keeps a 0 s s' l → Keeps a n s s' (l + n)
  Keeps-with l n s s' k = record { balance = omega (arith, k.balance); once = k.once }

  pub Keeps-pass : (n : ℕ) (s s' : Isbd H M E Z) → Keeps a 0 s s' 0 → Keeps a n s s' n
  Keeps-pass n s s' k = record { balance = omega (arith, k.balance); once = k.once }

  Safely-more :
      {A : Type 0} (has : A → ℕ) (n x : ℕ) (c : Code (Isbd H M E Z) A)
      → Safely has n c
      → Safely has (n + x) c
  Safely-more has n x (ret y) p = omega (arith, p)
  Safely-more has n x (act g k) p = λ s h.
      let (n', q, r) = p s (omega (arith, h)) in
      (n' + x, Keeps-frame n n' x s (g s) q, Safely-more has n' x (k s) r)

  pub Safe-le :
      {A : Type 0} (has : A → ℕ) (n n' : ℕ) (c : Code (Isbd H M E Z) A)
      → Safe has n c
      → n ≤ n'
      → Safe has n' c
  Safe-le has n n' c p h =
      let e : n' ≡ n + (n' - n) = omega (arith, h) in
      rw e (record { next = Safely-more has n (n' - n) c p.next })

  Safely->>= :
      {A B : Type 0} (has : A → ℕ) (has' : B → ℕ) (n : ℕ) (c : Code (Isbd H M E Z) A)
      (f : A → Code (Isbd H M E Z) B)
      → Safely has n c
      → ((x : A) (n' : ℕ) → has x ≤ n' → Safe has' n' (f x))
      → Safely has' n (c >>= f)
  Safely->>= has has' n (ret x) f p q = (q x n p).next
  Safely->>= has has' n (act g k) f p q =
      λ s h. let (n', r, t) = p s h in (n', r, Safely->>= has has' n' (k s) f t q)

  pub Safe->>= :
      {A B : Type 0} (has : A → ℕ) (has' : B → ℕ) (n : ℕ) (c : Code (Isbd H M E Z) A)
      (f : A → Code (Isbd H M E Z) B)
      → Safe has n c
      → ((x : A) (n' : ℕ) → has x ≤ n' → Safe has' n' (f x))
      → Safe has' n (c >>= f)
  Safe->>= has has' n c f p q = record { next = Safely->>= has has' n c f p.next q }

  -- An action, and what comes behind it.
  pub Safe-act :
      {B : Type 0} (has : B → ℕ) (n : ℕ) {g : Isbd H M E Z → Isbd H M E Z}
      {k : Isbd H M E Z → Code (Isbd H M E Z) B}
      → ((s : Isbd H M E Z)
          → n + owners a s ≤ allocated a s
          → (n' : ℕ) × Keeps a n s (g s) n' × Safe has n' (k s))
      → Safe has n (act g k)
  Safe-act has n p = record { next = λ s h. let (n', x, q) = p s h in (n', x, q.next) }

  pub Safe-if :
      {A : Type 0} (has : A → ℕ) (n : ℕ) (b : Bool) (c d : Code (Isbd H M E Z) A)
      → Safe has n c
      → Safe has n d
      → Safe has n (if b then c else d)
  Safe-if has n true c d p q = p
  Safe-if has n false c d p q = q
