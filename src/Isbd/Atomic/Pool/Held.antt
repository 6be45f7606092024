-- ===== src/Isbd/Atomic/Pool/Held.antt =====
-- The blocks of the heap under any interleaving of the thread of lib/iridium/isbd/isbd.c with calls of its
-- users.
use isbd_zephyr_module.Prelude.{ℕ, ◌+◌, ◌≤◌, ◌≡◌, List, [], ◌∷◌, ◌++◌, arith, refl}
use isbd_zephyr_module.Serial.{Serial}
use isbd_zephyr_module.Isbd.Kernel.{Heap, MsgQueue}
use isbd_zephyr_module.Isbd.Message.{MoMsg, IsbdErr, IsbdEvt, IsbdConfig, Isbd}
use isbd_zephyr_module.Isbd.Service.{enter}
use isbd_zephyr_module.Isbd.Setup.{isbd_setup}
use isbd_zephyr_module.Isbd.Action.{Code, ret, act, atomically}
use isbd_zephyr_module.Isbd.Atomic.Pool.{
  Call, sends, requests, app_rounds, Pool, call_code, Move, thread_acts, thread_loops, user_calls,
  user_acts, user_ends, Moves, at_start, moved,
}
use isbd_zephyr_module.Isbd.Atomic.App.{app_round-Safe}
use isbd_zephyr_module.Isbd.Atomic.Safe.{Safe, Safe->>=}
use isbd_zephyr_module.Isbd.Atomic.User.{nothing, send_code-Safe, request_code-Safe}
use isbd_zephyr_module.Isbd.Atomic.Rounds.{round_code-Safe}
use isbd_zephyr_module.Isbd.Blocks.{allocated, owners}
use isbd_zephyr_module.Isbd.Blocks.World.{here, enter-Keeps}
use isbd_zephyr_module.Isbd.Blocks.Start.{setup-IsOwned}

module _ {H M E Z : Type 0} ⦃heap : Heap H⦄ ⦃mos : MsgQueue MoMsg M⦄ ⦃evts : MsgQueue IsbdEvt E⦄
    ⦃line : Serial Z⦄ where
  -- The calls have `t` pointers to the block at `a`.
  abbrev pub AllSafe : ℕ → List (Code (Isbd H M E Z) (Unit {0})) → ℕ → Type 0
  AllSafe a [] t = t ≡ 0
  AllSafe a (c ∷ cs) t = (n : ℕ) × (m : ℕ) × (t ≡ n + m) × Safe a nothing n c × AllSafe a cs m

  -- The pointers of one call, and the others with another code in its place or none.
  record Picked (a t : ℕ) (c : Code (Isbd H M E Z) (Unit {0}))
      (before behind : List (Code (Isbd H M E Z) (Unit {0}))) : Type 0 where
    held : ℕ
    rest : ℕ
    sum : t ≡ held + rest
    safe : Safe a nothing held c
    put :
        (n : ℕ) (d : Code (Isbd H M E Z) (Unit {0}))
        → Safe a nothing n d
        → AllSafe a (before ++ d ∷ behind) (n + rest)
    gone : AllSafe a (before ++ behind) rest

  pick :
      (a t : ℕ) (c : Code (Isbd H M E Z) (Unit {0}))
      (before behind : List (Code (Isbd H M E Z) (Unit {0})))
      → AllSafe a (before ++ c ∷ behind) t
      → Picked a t c before behind
  pick a t c [] behind (n, m, e, p, q) = record {
    held = n;
    rest = m;
    sum = e;
    safe = p;
    put = λ k d r. (k, m, refl, r, q);
    gone = q;
  }
  pick a t c (x ∷ before) behind (n, m, e, p, q) =
      let r = pick a m c before behind q in
      record {
        held = r.held;
        rest = n + r.rest;
        sum = omega (arith, e, r.sum);
        safe = r.safe;
        put = λ k d y. (n, k + r.rest, omega arith, p, r.put k d y);
        gone = (n, r.rest, refl, p, r.gone);
      }

  -- The block at `a` is allocated as often as the thread, the calls, the queued messages and the queued
  -- events have a pointer to it, or more often, and at most once.
  pub record IsHeld (a : ℕ) (w : Pool H M E Z) : Type 0 where
    pub thread_has : ℕ
    pub users_have : ℕ
    pub alive : thread_has + users_have + owners a w.isbd ≤ allocated a w.isbd
    pub once : allocated a w.isbd ≤ 1
    pub thread_safe : Safe a nothing thread_has w.thread
    pub users_safe : AllSafe a w.users users_have

  call_code-Safe :
      (a : ℕ) (c : Call) → Safe {H = H} {M = M} {E = E} {Z = Z} a nothing 0 (call_code c)
  unfolding call_code
  call_code-Safe a (sends sn msg retries) =
      Safe->>= a nothing nothing 0 _ _ (send_code-Safe a sn msg retries)
        (λ _ n _. record { next = omega arith })
  call_code-Safe a (requests sn retries alert) =
      Safe->>= a nothing nothing 0 _ _ (request_code-Safe a sn retries alert)
        (λ _ n _. record { next = omega arith })
  call_code-Safe a (app_rounds sn retries) = app_round-Safe a sn retries

  -- The next action of code that has `n` pointers.
  acted :
      (a n x : ℕ) (g : Isbd H M E Z → Isbd H M E Z)
      (k : Isbd H M E Z → Code (Isbd H M E Z) (Unit {0})) (s : Isbd H M E Z)
      → Safe a nothing n (act g k)
      → n + x + owners a s ≤ allocated a s
      → (n' : ℕ) × (n' + x + owners a (g s) ≤ allocated a (g s))
        × (allocated a s ≤ 1 → allocated a (g s) ≤ 1)
        × Safe a nothing n' (k s)
  acted a n x g k s p h =
      let (n', q, r) = p.next s (omega (arith, h)) in
      (n', omega (arith, h, q.balance), q.once, record { next = r })

  thread_acted :
      (a : ℕ) (w : Pool H M E Z) (g : Isbd H M E Z → Isbd H M E Z)
      (k : Isbd H M E Z → Code (Isbd H M E Z) (Unit {0}))
      → IsHeld a w
      → w.thread ≡ act g k
      → IsHeld a (record w { isbd = g w.isbd; thread = k w.isbd })
  thread_acted a w g k o e =
      let p : Safe a nothing o.thread_has (act g k) = rw e at o.thread_safe in
      let (n', h, u, q) = acted a o.thread_has o.users_have g k w.isbd p o.alive in
      record {
        thread_has = n';
        users_have = o.users_have;
        alive = h;
        once = u o.once;
        thread_safe = q;
        users_safe = o.users_safe;
      }

  user_acted :
      (a : ℕ) (w : Pool H M E Z) (before behind : List (Code (Isbd H M E Z) (Unit {0})))
      (g : Isbd H M E Z → Isbd H M E Z) (k : Isbd H M E Z → Code (Isbd H M E Z) (Unit {0}))
      → IsHeld a w
      → w.users ≡ before ++ act g k ∷ behind
      → IsHeld a (record w { isbd = g w.isbd; users = before ++ k w.isbd ∷ behind })
  user_acted a w before behind g k o e =
      let all : AllSafe a (before ++ act g k ∷ behind) o.users_have = rw e at o.users_safe in
      let p = pick a o.users_have (act g k) before behind all in
      let (n', h, u, q) =
        acted a p.held (o.thread_has + p.rest) g k w.isbd p.safe (omega (arith, o.alive, p.sum)) in
      record {
        thread_has = o.thread_has;
        users_have = n' + p.rest;
        alive = omega (arith, h);
        once = u o.once;
        thread_safe = o.thread_safe;
        users_safe = p.put n' (k w.isbd) q;
      }

  user_ended :
      (a : ℕ) (w : Pool H M E Z) (before behind : List (Code (Isbd H M E Z) (Unit {0})))
      → IsHeld a w
      → w.users ≡ before ++ ret tt ∷ behind
      → IsHeld a (record w { users = before ++ behind })
  user_ended a w before behind o e =
      let all : AllSafe a (before ++ ret tt ∷ behind) o.users_have = rw e at o.users_safe in
      let p = pick a o.users_have (ret tt) before behind all in
      record {
        thread_has = o.thread_has;
        users_have = p.rest;
        alive = omega (arith, o.alive, p.sum);
        once = o.once;
        thread_safe = o.thread_safe;
        users_safe = p.gone;
      }

  Move-IsHeld : (a : ℕ) {w w' : Pool H M E Z} → Move w w' → IsHeld a w → IsHeld a w'
  Move-IsHeld a {w} (thread_acts g k e i) o = rw i (thread_acted a w g k o e)
  Move-IsHeld a {w} (thread_loops junk t e i) o = rw i (record {
    thread_has = 0;
    users_have = o.users_have;
    alive = omega (arith, o.alive);
    once = o.once;
    thread_safe = round_code-Safe a junk t;
    users_safe = o.users_safe;
  })
  Move-IsHeld a {w} (user_calls c i) o = rw i (record {
    thread_has = o.thread_has;
    users_have = o.users_have;
    alive = o.alive;
    once = o.once;
    thread_safe = o.thread_safe;
    users_safe = (0, o.users_have, omega arith, call_code-Safe a c, o.users_safe);
  })
  Move-IsHeld a {w} (user_acts before behind g k e i) o =
      rw i (user_acted a w before behind g k o e)
  Move-IsHeld a {w} (user_ends before behind e i) o = rw i (user_ended a w before behind o e)

  pub Moves-IsHeld : (a : ℕ) {w w' : Pool H M E Z} → Moves w w' → IsHeld a w → IsHeld a w'
  Moves-IsHeld a at_start o = o
  Moves-IsHeld a (moved r m) o = Move-IsHeld a m (Moves-IsHeld a r o)

  enter-Safe : (a : ℕ) → Safe {H = H} {M = M} {E = E} {Z = Z} a nothing 0 (atomically enter)
  enter-Safe a = record { next = λ s h. (0, enter-Keeps a s, omega arith) }

  -- From an `isbd_setup` that returns OK on, over a heap in which the block at `a` is allocated at most
  -- once, however the kernel interleaves the actions of the thread with those of any number of calls of
  -- the users: the block is allocated at most once, and at least as often as the thread, the calls under
  -- way, the queued messages and the queued events together have a pointer to it; and what the thread and
  -- each call do next frees the block only if they have such a pointer.
  pub pool-IsHeld :
      (a mo_size evt_size : ℕ) (conf : IsbdConfig Z) (s : Isbd H M E Z) (w : Pool H M E Z)
      → allocated a s ≤ 1
      → (isbd_setup mo_size evt_size conf s).0 ≡ IsbdErr.ok
      → Moves
          (record {
            isbd = (isbd_setup mo_size evt_size conf s).1;
            thread = atomically enter;
            users = [];
          })
          w
      → IsHeld a w
  pool-IsHeld a mo_size evt_size conf s w h ok r =
      let o = setup-IsOwned a mo_size evt_size conf s _ h ok here in
      Moves-IsHeld a r (record {
        thread_has = 0;
        users_have = 0;
        alive = omega (arith, o.alive);
        once = o.once;
        thread_safe = enter-Safe a;
        users_safe = refl;
      })
