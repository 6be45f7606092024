-- ===== src/Tests/Kernel.antt =====
-- A heap and message queues for examples.
use isbd_zephyr_module.Prelude.{
  ℕ, zero, suc, ◌+◌, ◌≤◌, ◌≡◌, Bytes, Bool, true, false, none, some, Option, List, [], ◌∷◌, ◌++◌,
  length, length-append, length-take, take-length, take, ltb, if◌then◌else◌, ◌==◌, arith, refl,
}
use isbd_zephyr_module.Serial.Scripted.{scripted}
use isbd_zephyr_module.Isbd.Kernel.{Heap, MsgQueue, without, count}

-- A heap of blocks, with the memory as a list of what was stored last.
pub record Blocks : Type 0 where
  pub next : ℕ
  pub allocated : List ℕ
  pub memory : List (ℕ × Bytes)

abbrev pub fetch : ℕ → List (ℕ × Bytes) → Bytes
fetch a [] = []
fetch a ((b, s) ∷ m) = let rest = fetch a m in if a == b then s else rest

pub fetch_first :
    (a : ℕ) (s : Bytes) (m : List (ℕ × Bytes)) → take (length s) (fetch a ((a, s) ∷ m)) ≡ s
fetch_first a s m = let same : (a == a) ≡ true = ground arith in rw same (take-length s)

-- An address above a number and above those in a list.
abbrev pub above : ℕ → List ℕ → ℕ
above n [] = n
above n (b ∷ bs) = suc b + above n bs

below_above : (n a : ℕ) (l : List ℕ) → above n l ≤ a → count a l ≡ 0
below_above n a [] h = refl
below_above n a (b ∷ bs) h = ground (arith, below_above n a bs)

pub malloc_some : (n a : ℕ) (l : List ℕ) → some (above n l) ≡ some a → above n l ∷ l ≡ a ∷ l
malloc_some n a l e = cc

pub malloc_fresh : (n a : ℕ) (l : List ℕ) → some (above n l) ≡ some a → count a l ≡ 0
malloc_fresh n a l e = let h : above n l ≡ a = cc in below_above n a l (omega arith)

pub malloc_none : (n : ℕ) (xs ys : List ℕ) → some n ≡ none → xs ≡ ys
malloc_none n xs ys e = absurd (ground arith)

pub take_le : (n : ℕ) (s : Bytes) → length (take n s) ≤ n
take_le n s = omega (arith, length-take n s)

instance abbrev pub heap_double : Heap Blocks
heap_double = record {
  malloc = λ n h. (
    some (above h.next h.allocated),
    record h { allocated = above h.next h.allocated ∷ h.allocated },
  );
  free = λ a h. record h { allocated = without a h.allocated };
  store = λ a s h. record h { memory = (a, s) ∷ h.memory };
  load = λ a n h. take n (fetch a h.memory);
  live = λ h. h.allocated;
  live-malloc_some = λ n a h e. malloc_some h.next a h.allocated e;
  live_fresh = λ n a h e. malloc_fresh h.next a h.allocated e;
  live-malloc_none = λ n h e. malloc_none (above h.next h.allocated) _ _ e;
  live-free = λ a h. refl;
  live-store = λ a s h. refl;
  load-store = λ a s h. fetch_first a s h.memory;
  load_le = λ a n h. take_le n (fetch a h.memory);
}

-- A queue with room for `size` messages more than it was made with.
pub record Bounded (A : Type 0) : Type 0 where
  pub room : ℕ
  pub held : List A

module _ {A : Type 0} where
  abbrev pub put_bounded : A → Bounded A → Bool × Bounded A
  put_bounded a q = elim q.room [
    | zero ↦ (false, q)
    | suc n ↦ (true, record { room = n; held = q.held ++ a ∷ [] })
  ]

  abbrev pub get_bounded : Bounded A → Option A × Bounded A
  get_bounded q = elim q.held [
    | [] ↦ (none, q)
    | a ∷ as' ↦ (some a, record { room = suc q.room; held = as' })
  ]

  pub put_bounded_lem :
      (a : A) (n : ℕ) (l : List A)
      → let q : Bounded A = record { room = n; held = l } in
        let (done, q') = put_bounded a q in
        (done ≡ ltb (length l) (length l + n))
        × (q'.held ≡ (if done then l ++ a ∷ [] else l))
        × (length q'.held + q'.room ≡ length l + n)
  put_bounded_lem a zero l = (ground arith, refl, refl)
  put_bounded_lem a (suc n) l = (ground arith, refl, omega (arith, length-append l (a ∷ [])))

  pub get_bounded-none :
      (n : ℕ) (l : List A)
      → l ≡ []
      → get_bounded (record { room = n; held = l }) ≡ (none, record { room = n; held = l })
  get_bounded-none n [] e = refl
  get_bounded-none n (a ∷ l) e = absurd (ground arith)

  pub get_bounded-some :
      (a : A) (as' : List A) (n : ℕ) (l : List A)
      → l ≡ a ∷ as'
      → let (o, q) = get_bounded (record { room = n; held = l }) in
        (o ≡ some a) × (q.held ≡ as') × (length q.held + q.room ≡ length l + n)
  get_bounded-some a as' n [] e = absurd (ground arith)
  get_bounded-some a as' n (b ∷ l) e = (cc, cc, omega arith)

instance abbrev pub queue_double : {A : Type 0} → MsgQueue A (Bounded A)
queue_double = record {
  init = λ n. record { room = n; held = [] };
  put = put_bounded;
  get = get_bounded;
  num_used = λ q. length q.held;
  items = λ q. q.held;
  size = λ q. length q.held + q.room;
  items-init = λ n. refl;
  size-init = λ n. omega arith;
  put_lem = λ a q. put_bounded_lem a q.room q.held;
  get_none = λ q e. get_bounded-none q.room q.held e;
  get_some = λ a as' q e. get_bounded-some a as' q.room q.held e;
  items_le = λ q. omega arith;
  num_used_lem = λ q. refl;
}
