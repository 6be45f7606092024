-- ===== src/Isbd/Blocks.antt =====
-- Who has a block of the heap: a message in a queue of lib/iridium/isbd/isbd.c, or the code that works
-- on a message.
pub mod Calls
pub mod Session
pub mod Receive
pub mod Apart
pub mod Sent
pub mod Run
pub mod World
pub mod Start
use isbd_zephyr_module.Prelude.{
  ℕ, ◌+◌, ◌-◌, ◌≤◌, ◌≡◌, Bool, List, Option, none, some, [], ◌∷◌, ◌++◌, if◌then◌else◌, ◌==◌, arith,
  refl, true, false, Bool-cases, ◌⊎◌, inl, inr,
}
use isbd_zephyr_module.Isbd.Kernel.{Heap, MsgQueue, count, without}
use isbd_zephyr_module.Isbd.Message.{MoMsg, MtMsg, IsbdErr, IsbdEvt, Isbd}

-- Is the block at `a` the one that a pointer points at? 1 if so, or else 0.
abbrev pub holds : ℕ → Option ℕ → ℕ
holds a none = 0
holds a (some b) = if a == b then 1 else 0

abbrev pub evt_holds : ℕ → IsbdEvt → ℕ
evt_holds a (IsbdEvt.mt m) = holds a m.block
evt_holds a (IsbdEvt.mo m) = holds a m.block
evt_holds a _ = 0

-- How many messages of a list have the block at `a`, and how many events.
abbrev pub mo_hold : ℕ → List MoMsg → ℕ
mo_hold a [] = 0
mo_hold a (m ∷ ms) = holds a m.block + mo_hold a ms

abbrev pub evts_hold : ℕ → List IsbdEvt → ℕ
evts_hold a [] = 0
evts_hold a (e ∷ es) = evt_holds a e + evts_hold a es

pub mo_hold-append :
    (a : ℕ) (xs ys : List MoMsg) → mo_hold a (xs ++ ys) ≡ mo_hold a xs + mo_hold a ys
mo_hold-append a [] ys = omega arith
mo_hold-append a (x ∷ xs) ys = omega (arith, mo_hold-append a xs ys)

pub evts_hold-append :
    (a : ℕ) (xs ys : List IsbdEvt) → evts_hold a (xs ++ ys) ≡ evts_hold a xs + evts_hold a ys
evts_hold-append a [] ys = omega arith
evts_hold-append a (x ∷ xs) ys = omega (arith, evts_hold-append a xs ys)

pub count-without :
    (a b : ℕ) (l : List ℕ) → count a (without b l) ≡ count a l - (if a == b then 1 else 0)
count-without a b [] = ground arith
count-without a b (c ∷ l) = ground (arith, count-without a b l)

module _ {H M E Z : Type 0} ⦃heap : Heap H⦄ ⦃mos : MsgQueue MoMsg M⦄
    ⦃evts : MsgQueue IsbdEvt E⦄ where
  -- How often the block at `a` is allocated, and how many queued messages and events have it.
  abbrev pub allocated : ℕ → Isbd H M E Z → ℕ
  allocated a s = count a (heap.live s.heap)

  abbrev pub owners : ℕ → Isbd H M E Z → ℕ
  owners a s = mo_hold a (mos.items s.mo_q) + evts_hold a (evts.items s.evt_q)

  -- Code that is given `taken` pointers to the block at `a` goes from `s` to `s'` and drops `lost` of
  -- them: what is allocated at the end and has no owner was so before, or is lost. Nothing is allocated
  -- twice.
  pub record Keeps (a taken : ℕ) (s s' : Isbd H M E Z) (lost : ℕ) : Type 0 where
    pub balance : allocated a s' + taken + owners a s ≡ allocated a s + owners a s' + lost
    pub once : allocated a s ≤ 1 → allocated a s' ≤ 1

  pub Keeps-refl : (a : ℕ) (s : Isbd H M E Z) → Keeps a 0 s s 0
  Keeps-refl a s = record { balance = omega arith; once = λ h. h }

  -- A step that is given nothing and drops nothing, before or behind another.
  pub Keeps-after :
      (a t l : ℕ) (s s₁ s₂ : Isbd H M E Z) → Keeps a 0 s s₁ 0 → Keeps a t s₁ s₂ l → Keeps a t s s₂ l
  Keeps-after a t l s s₁ s₂ x y = record {
    balance = omega (arith, x.balance, y.balance);
    once = λ h. y.once (x.once h);
  }

  pub Keeps-before :
      (a t l : ℕ) (s s₁ s₂ : Isbd H M E Z) → Keeps a t s s₁ l → Keeps a 0 s₁ s₂ 0 → Keeps a t s s₂ l
  Keeps-before a t l s s₁ s₂ x y = record {
    balance = omega (arith, x.balance, y.balance);
    once = λ h. y.once (x.once h);
  }

  -- A block that is new.
  pub fresh_once :
      (a b : ℕ) (s s₁ : Isbd H M E Z)
      → allocated a s₁ ≡ holds a (some b) + allocated a s
      → allocated b s ≡ 0
      → allocated a s ≤ 1
      → allocated a s₁ ≤ 1
  fresh_once a b s s₁ l f g = elim (Bool-cases (a == b)) [
    | inl e ↦
        let same : a ≡ b = ground arith in
        let none_yet : allocated a s ≡ 0 = rw same f in ground (arith, none_yet, l)
    | inr e ↦ ground (arith, l)
  ]
