-- ===== src/Isbd/Blocks/Session.antt =====
-- The end of a session of lib/iridium/isbd/isbd.c for the message that was sent.
use isbd_zephyr_module.Prelude.{
  ℕ, ◌+◌, ◌-◌, ◌≤◌, ◌≡◌, Bool, true, false, not, Option, none, some, ltb, if◌then◌else◌, ◌==◌,
  arith, refl, Bool-cases, inl, inr,
}
use isbd_zephyr_module.Serial.{Serial}
use isbd_zephyr_module.Iridium.Isu.Session.{Session}
use isbd_zephyr_module.Isbd.Kernel.{Heap, MsgQueue}
use isbd_zephyr_module.Isbd.Message.{MoMsg, IsbdErr, IsbdEvt, Isbd}
use isbd_zephyr_module.Isbd.Queue.{
  destroy_mo_msg, enqueue_mo_msg, request_session, notify_err, notify_mo_msg,
}
use isbd_zephyr_module.Isbd.Service.{handle_session_mo_msg}
use isbd_zephyr_module.Isbd.Blocks.{holds, allocated, owners, Keeps, Keeps-refl, Keeps-after}
use isbd_zephyr_module.Isbd.Blocks.Calls.{
  destroy_mo_msg-Keeps, mo_room, enqueue_mo_msg-Keeps, notify_err-Keeps, notify_mo_msg-Keeps,
}

abbrev pub kept_or : Bool → ℕ → ℕ
kept_or lost n = if lost then n else 0

pub kept_or-le : (lost : Bool) (n : ℕ) → kept_or lost n ≤ n
kept_or-le true n = omega arith
kept_or-le false n = omega arith

module _ {H M E Z : Type 0} ⦃heap : Heap H⦄ ⦃mos : MsgQueue MoMsg M⦄ ⦃evts : MsgQueue IsbdEvt E⦄
    ⦃line : Serial Z⦄ where
  -- Does the end of a session forget the block of its message? It does for a message of no length, and
  -- where the message shall be sent again and there is no room for it.
  abbrev pub forgets : ℕ → ℕ → ℕ → Isbd H M E Z → Bool
  forgets mo_sts len retries s =
      if len == 0
      then true
      else if ltb mo_sts 3
      then false
      else if ltb 0 retries
      then not (mo_room s)
      else false

  -- The branches of the function for a message with a block.
  pub on_block :
      (session : Session) (alert : Bool) (sn retries b len : ℕ) (s : Isbd H M E Z)
      → let m : MoMsg = record {
        alert = alert;
        sn = sn;
        retries = retries;
        block = some b;
        len = len;
      } in
        (handle_session_mo_msg session m s).1 ≡ (
          if len == 0
          then s
          else if ltb session.mo_sts 3
          then (notify_mo_msg (record m { sn = session.mo_msn }) s).1
          else if ltb 0 retries
          then (enqueue_mo_msg (record m { retries = retries - 1 }) s).1
          else (destroy_mo_msg m (notify_err IsbdErr.err_mo s).1).1)
  unfolding handle_session_mo_msg
  on_block session alert sn retries b len s = ground arith

  branches-Keeps :
      (a n : ℕ) (b₁ b₂ b₃ room : Bool) (s x y z : Isbd H M E Z)
      → Keeps a n s s n
      → Keeps a n s x 0
      → Keeps a n s y (if room then 0 else n)
      → Keeps a n s z 0
      → Keeps a n s
          (if b₁ then s else if b₂ then x else if b₃ then y else z)
          (kept_or (if b₁ then true else if b₂ then false else if b₃ then not room else false) n)
  branches-Keeps a n true b₂ b₃ room s x y z hs hx hy hz = hs
  branches-Keeps a n false true b₃ room s x y z hs hx hy hz = hx
  branches-Keeps a n false false true true s x y z hs hx hy hz = hy
  branches-Keeps a n false false true false s x y z hs hx hy hz = hy
  branches-Keeps a n false false false room s x y z hs hx hy hz = hz

  on_block-Keeps :
      (a : ℕ) (session : Session) (alert : Bool) (sn retries b len : ℕ) (s : Isbd H M E Z)
      → let m : MoMsg = record {
        alert = alert;
        sn = sn;
        retries = retries;
        block = some b;
        len = len;
      } in
        holds a (some b) + owners a s ≤ allocated a s
        → Keeps a
            (holds a (some b))
            s
            (handle_session_mo_msg session m s).1
            (kept_or (forgets session.mo_sts len retries s) (holds a (some b)))
  on_block-Keeps a session alert sn retries b len s h =
      let m : MoMsg = record {
        alert = alert;
        sn = sn;
        retries = retries;
        block = some b;
        len = len;
      } in
      let n = notify_err-Keeps a IsbdErr.err_mo s in
      let s₁ = (notify_err IsbdErr.err_mo s).1 in
      rw (on_block session alert sn retries b len s) (
        branches-Keeps a (holds a (some b)) _ _ _ (mo_room s) s _ _ _
          (record { balance = omega arith; once = λ k. k })
          (notify_mo_msg-Keeps a (record m { sn = session.mo_msn }) s h)
          (enqueue_mo_msg-Keeps a (record m { retries = retries - 1 }) s)
          (Keeps-after a (holds a (some b)) 0 s s₁ _ n
            (destroy_mo_msg-Keeps a m s₁ (omega (arith, n.balance)))))

  off_block-Keeps :
      (a : ℕ) (session : Session) (alert lost : Bool) (sn retries len : ℕ) (s : Isbd H M E Z)
      → let m : MoMsg = record {
        alert = alert;
        sn = sn;
        retries = retries;
        block = none;
        len = len;
      } in
        Keeps a 0 s (handle_session_mo_msg session m s).1 (kept_or lost 0)
  unfolding handle_session_mo_msg
  off_block-Keeps a session alert true sn retries len s = Keeps-refl a s
  off_block-Keeps a session alert false sn retries len s = Keeps-refl a s

  block-Keeps :
      (a : ℕ) (session : Session) (alert : Bool) (sn retries : ℕ) (b : Option ℕ) (len : ℕ)
      (s : Isbd H M E Z)
      → let m : MoMsg = record {
        alert = alert;
        sn = sn;
        retries = retries;
        block = b;
        len = len;
      } in
        holds a b + owners a s ≤ allocated a s
        → Keeps a
            (holds a b)
            s
            (handle_session_mo_msg session m s).1
            (kept_or (forgets session.mo_sts len retries s) (holds a b))
  block-Keeps a session alert sn retries none len s h =
      off_block-Keeps a session alert (forgets session.mo_sts len retries s) sn retries len s
  block-Keeps a session alert sn retries (some b) len s h =
      on_block-Keeps a session alert sn retries b len s h

  pub handle_session_mo_msg-Keeps :
      (a : ℕ) (session : Session) (m : MoMsg) (s : Isbd H M E Z)
      → holds a m.block + owners a s ≤ allocated a s
      → Keeps a
          (holds a m.block)
          s
          (handle_session_mo_msg session m s).1
          (kept_or (forgets session.mo_sts m.len m.retries s) (holds a m.block))
  handle_session_mo_msg-Keeps a session m s h =
      block-Keeps a session m.alert m.sn m.retries m.block m.len s h

  pub request_made :
      (sn retries : ℕ) (alert : Bool) (s : Isbd H M E Z)
      → (mos.num_used s.mo_q == 0) ≡ true
      → (request_session sn retries alert s).1
        ≡ (enqueue_mo_msg
            (record { alert = alert; sn = sn; retries = retries; block = none; len = 0 })
            s).1
  unfolding request_session
  request_made sn retries alert s e = rw (e, request_session) refl

  request_left :
      (sn retries : ℕ) (alert : Bool) (s : Isbd H M E Z)
      → (mos.num_used s.mo_q == 0) ≡ false
      → (request_session sn retries alert s).1 ≡ s
  unfolding request_session
  request_left sn retries alert s e = rw (e, request_session) refl

  nothing_lost :
      (a : ℕ) (room : Bool) (s s' : Isbd H M E Z)
      → Keeps a 0 s s' (if room then 0 else 0)
      → Keeps a 0 s s' 0
  nothing_lost a true s s' k = k
  nothing_lost a false s s' k = k

  pub request_session-Keeps :
      (a sn retries : ℕ) (alert : Bool) (s : Isbd H M E Z)
      → Keeps a 0 s (request_session sn retries alert s).1 0
  request_session-Keeps a sn retries alert s = elim (Bool-cases (mos.num_used s.mo_q == 0)) [
    | inl e ↦
        rw (request_made sn retries alert s e)
          (nothing_lost a (mo_room s) s _ (enqueue_mo_msg-Keeps a _ s))
    | inr e ↦ rw (request_left sn retries alert s e) (Keeps-refl a s)
  ]
