-- ===== src/Isbd/Kernel.antt =====
-- What lib/iridium/isbd/isbd.c uses of the Zephyr kernel: the heap and the message queues.
use isbd_zephyr_module.Prelude.{
  ℕ, ◌+◌, ◌≤◌, ◌≡◌, Bytes, Bool, List, Option, none, some, [], ◌∷◌, ◌++◌, length, ltb,
  if◌then◌else◌, ◌==◌,
}

-- The list without the first occurrence of an address.
abbrev pub without : ℕ → List ℕ → List ℕ
without a [] = []
without a (b ∷ bs) = let rest = without a bs in if a == b then bs else b ∷ rest

-- How often an address is in a list.
abbrev pub count : ℕ → List ℕ → ℕ
count a [] = 0
count a (b ∷ bs) = (if a == b then 1 else 0) + count a bs

-- `k_malloc` and `k_free`, with the memory behind an address; `live` are the blocks that were
-- handed out and not yet freed.
pub record Heap (H : Type 0) : Type 0 where
  pub malloc : ℕ → H → Option ℕ × H
  pub free : ℕ → H → H
  pub store : ℕ → Bytes → H → H
  pub load : ℕ → ℕ → H → Bytes
  pub live : H → List ℕ
  pub live-malloc_some :
      (n a : ℕ) (h : H) → (malloc n h).0 ≡ some a → live (malloc n h).1 ≡ a ∷ live h
  pub live_fresh : (n a : ℕ) (h : H) → (malloc n h).0 ≡ some a → count a (live h) ≡ 0
  pub live-malloc_none : (n : ℕ) (h : H) → (malloc n h).0 ≡ none → live (malloc n h).1 ≡ live h
  pub live-free : (a : ℕ) (h : H) → live (free a h) ≡ without a (live h)
  pub live-store : (a : ℕ) (s : Bytes) (h : H) → live (store a s h) ≡ live h
  pub load-store : (a : ℕ) (s : Bytes) (h : H) → load a (length s) (store a s h) ≡ s
  pub load_le : (a n : ℕ) (h : H) → length (load a n h) ≤ n

-- `k_msgq` without waiting: `init` makes an empty queue with room for a number of messages, `put`
-- succeeds exactly if there is room, `get` takes the oldest message.
pub record MsgQueue (A Q : Type 0) : Type 0 where
  pub init : ℕ → Q
  pub put : A → Q → Bool × Q
  pub get : Q → Option A × Q
  pub num_used : Q → ℕ
  pub items : Q → List A
  pub size : Q → ℕ
  pub items-init : (n : ℕ) → items (init n) ≡ []
  pub size-init : (n : ℕ) → size (init n) ≡ n
  pub put_lem :
      (a : A) (q : Q)
      → let (done, q') = put a q in
        (done ≡ ltb (length (items q)) (size q))
        × (items q' ≡ (if done then items q ++ a ∷ [] else items q))
        × (size q' ≡ size q)
  pub get_none : (q : Q) → items q ≡ [] → get q ≡ (none, q)
  pub get_some :
      (a : A) (as' : List A) (q : Q)
      → items q ≡ a ∷ as'
      → ((get q).0 ≡ some a) × (items (get q).1 ≡ as') × (size (get q).1 ≡ size q)
  pub items_le : (q : Q) → length (items q) ≤ size q
  pub num_used_lem : (q : Q) → num_used q ≡ length (items q)
