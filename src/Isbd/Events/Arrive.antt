-- ===== src/Isbd/Events/Arrive.antt =====
-- The events that `_wait_for_dte_events` of lib/iridium/isbd/isbd.c finds on the line.
use isbd_zephyr_module.Prelude.{
  ℕ, zero, suc, ◌-◌, ◌<◌, ◌≡◌, ◌%◌, ◌^◌, Bytes, Bool, true, false, List, [], ◌∷◌, ◌++◌, length,
  length-append, take, append-nil, append_assoc, ltb, if◌then◌else◌, arith, refl, ap, sym, ◌∙◌,
  Bool-cases, inl, inr,
}
use isbd_zephyr_module.Serial.{Serial}
use isbd_zephyr_module.Serial.Delivery.{Delivers}
use isbd_zephyr_module.AtUart.Parse.Line.{IsEol}
use isbd_zephyr_module.AtUart.Parse.Response.{Blanks, Gap}
use isbd_zephyr_module.AtUart.Parse.Single.{line_response}
use isbd_zephyr_module.Iridium.Dte.{DteErr, Dte}
use isbd_zephyr_module.Iridium.Evt.{Evt, evt_wait}
use isbd_zephyr_module.Iridium.Evt.Announce.{event_text, IsEvt, announced, evt_wait_event}
use isbd_zephyr_module.Isbd.Kernel.{Heap, MsgQueue}
use isbd_zephyr_module.Isbd.Message.{MoMsg, IsbdEvt, Isbd}
use isbd_zephyr_module.Isbd.Queue.{put_evt}
use isbd_zephyr_module.Isbd.Service.{is_ok, report_evt, dte_events_loop, wait_for_dte_events}
use isbd_zephyr_module.Isbd.Events.{still, told, told_dte, evt_wait_less, loop_stop, loop_round}

-- What the user hears of an event.
abbrev pub reported : Evt → IsbdEvt
reported (Evt.svca v) = IsbdEvt.svca v
reported (Evt.sigq v) = IsbdEvt.sigq v
reported Evt.ring = IsbdEvt.ring
reported _ = IsbdEvt.unk

abbrev pub all_reported : List Evt → List IsbdEvt
all_reported [] = []
all_reported (e ∷ es) = reported e ∷ all_reported es

-- The service and the signal behind events: those of the last that tells.
abbrev pub service_after : ℕ → List Evt → ℕ
service_after v [] = v
service_after v (Evt.svca w ∷ es) = service_after w es
service_after v (_ ∷ es) = service_after v es

abbrev pub signal_after : ℕ → List Evt → ℕ
signal_after v [] = v
signal_after v (Evt.sigq w ∷ es) = signal_after w es
signal_after v (_ ∷ es) = signal_after v es

-- The items of a queue with room for `size` behind the attempts to put more of them.
abbrev pub put_all : {A : Type 0} → ℕ → List A → List A → List A
put_all size xs ys = xs ++ take (size - length xs) ys

take-zero : {A : Type 0} → (n : ℕ) (xs : List A) → n ≡ 0 → take n xs ≡ []
take-zero n xs e = rw e refl

take-more :
    {A : Type 0} → (n k : ℕ) (x : A) (xs : List A) → n ≡ suc k → take n (x ∷ xs) ≡ x ∷ take k xs
take-more n k x xs e = rw e refl

take-nil : {A : Type 0} → (n : ℕ) → ◌≡◌ {A = List A} (take n []) []
take-nil zero = refl
take-nil (suc n) = refl

put_all-nil : {A : Type 0} → (size : ℕ) (xs : List A) → put_all size xs [] ≡ xs
put_all-nil size xs = ap (λ l. xs ++ l) (take-nil (size - length xs)) ∙ append-nil xs

put_all-put :
    {A : Type 0}
    → (size : ℕ) (xs : List A) (y : A) (ys : List A)
    → put_all size (if ltb (length xs) size then xs ++ y ∷ [] else xs) ys ≡ put_all size xs (y ∷ ys)
put_all-put size xs y ys = elim (Bool-cases (ltb (length xs) size)) [
  | inl e ↦
      let k = size - length (xs ++ y ∷ []) in
      let n : size - length xs ≡ suc k = ground (arith, length-append xs (y ∷ [])) in
      rw e (
        append_assoc xs (y ∷ []) (take k ys)
        ∙ ap (λ l. xs ++ l) (sym (take-more (size - length xs) k y ys n)))
  | inr e ↦
      let n : size - length xs ≡ 0 = ground arith in
      rw e (
        ap (λ l. xs ++ l)
          (take-zero (size - length xs) ys n ∙ sym (take-zero (size - length xs) (y ∷ ys) n)))
]

module _ {Z : Type 0} ⦃line : Serial Z⦄ where
  -- The line announces events one by one, the first within `t` ms and each other within 10 ms, and then
  -- nothing that is an event.
  pub data Announces : ℕ → Dte Z → List Evt → Dte Z → Type 0 where
    no_more :
        {t : ℕ} {d d' : Dte Z}
        → is_ok (evt_wait t d).0.0 ≡ false
        → (evt_wait t d).1 ≡ d'
        → Announces t d [] d'
    one_more :
        {t : ℕ} {d d' : Dte Z} {e : Evt} {es : List Evt}
        → (blank : Bool) (pre gap : Bytes) (z : Z) → IsEvt e
        → Blanks pre
        → Gap d.at_uart.eol gap
        → Delivers
            (t % 2 ^ 16)
            (line_response d.at_uart.eol pre (event_text d.at_uart.config.verbose blank e) gap)
            d.at_uart.zuart
            z
        → Announces 10 (announced d z) es d'
        → Announces t d (e ∷ es) d'

put_first :
    {E : Type 0} ⦃evts : MsgQueue IsbdEvt E⦄
    → (i : IsbdEvt) (is : List IsbdEvt) (q : E)
    → put_all (evts.size (evts.put i q).1) (evts.items (evts.put i q).1) is
      ≡ put_all (evts.size q) (evts.items q) (i ∷ is)
put_first ⦃evts⦄ i is q =
    let (d, j, z) = evts.put_lem i q in
    ap (λ n. put_all n (evts.items (evts.put i q).1) is) z
    ∙ ap (λ l. put_all (evts.size q) l is)
        (j ∙ ap (λ b. if b then evts.items q ++ i ∷ [] else evts.items q) d)
    ∙ put_all-put (evts.size q) (evts.items q) i is

module _ {H M E Z : Type 0} ⦃heap : Heap H⦄ ⦃mos : MsgQueue MoMsg M⦄ ⦃evts : MsgQueue IsbdEvt E⦄
    ⦃line : Serial Z⦄ where
  -- The events are reported in order, as far as there is room for them, the service and the signal are up
  -- to date, and the messages and the heap are as they were.
  pub record Reports (es : List Evt) (s s' : Isbd H M E Z) : Type 0 where
    pub evts_eq :
        evts.items s'.evt_q ≡ put_all (evts.size s.evt_q) (evts.items s.evt_q) (all_reported es)
    pub size_eq : evts.size s'.evt_q ≡ evts.size s.evt_q
    pub service_eq : s'.service ≡ service_after s.service es
    pub signal_eq : s'.signal ≡ signal_after s.signal es
    pub mo_q_eq : s'.mo_q ≡ s.mo_q
    pub heap_eq : s'.heap ≡ s.heap

  -- One event.
  abbrev told_evt : Evt → Isbd H M E Z → Isbd H M E Z
  told_evt e s = (put_evt (report_evt e s).0 (report_evt e s).1).1

  -- Behind the attempt to put an event, with the service and the signal set.
  Reports-put :
      (e : Evt) (es : List Evt) (sv sg : ℕ) (s s' : Isbd H M E Z)
      → service_after sv es ≡ service_after s.service (e ∷ es)
      → signal_after sg es ≡ signal_after s.signal (e ∷ es)
      → Reports es (put_evt (reported e) (record s { service = sv; signal = sg })).1 s'
      → Reports (e ∷ es) s s'
  unfolding put_evt
  Reports-put e es sv sg s s' hv hg r =
      let (_, _, z) = evts.put_lem (reported e) s.evt_q in
      record {
        evts_eq = r.evts_eq ∙ put_first (reported e) (all_reported es) s.evt_q;
        size_eq = r.size_eq ∙ z;
        service_eq = r.service_eq ∙ hv;
        signal_eq = r.signal_eq ∙ hg;
        mo_q_eq = r.mo_q_eq;
        heap_eq = r.heap_eq;
      }

  Reports-more :
      (e : Evt) (es : List Evt) (s s' : Isbd H M E Z)
      → Reports es (told_evt e s) s'
      → Reports (e ∷ es) s s'
  unfolding report_evt
  Reports-more (Evt.svca v) es s s' r = Reports-put (Evt.svca v) es v s.signal s s' refl refl r
  Reports-more (Evt.sigq v) es s s' r = Reports-put (Evt.sigq v) es s.service v s s' refl refl r
  Reports-more Evt.ring es s s' r = Reports-put Evt.ring es s.service s.signal s s' refl refl r
  Reports-more Evt.unk es s s' r = Reports-put Evt.unk es s.service s.signal s s' refl refl r
  Reports-more (Evt.areg m n) es s s' r =
      Reports-put (Evt.areg m n) es s.service s.signal s s' refl refl r

  -- The reports say nothing of the terminal.
  Reports-dte :
      (es : List Evt) (s : Isbd H M E Z) (d : Dte Z) (s' : Isbd H M E Z)
      → Reports es (record s { dte = d }) s'
      → Reports es s s'
  Reports-dte es s d s' r = record {
    evts_eq = r.evts_eq;
    size_eq = r.size_eq;
    service_eq = r.service_eq;
    signal_eq = r.signal_eq;
    mo_q_eq = r.mo_q_eq;
    heap_eq = r.heap_eq;
  }

  dte_events_loop-Reports :
      (f t : ℕ) (es : List Evt) (s : Isbd H M E Z) (d' : Dte Z)
      → still s.dte < f
      → IsEol s.dte.at_uart.eol
      → Announces t s.dte es d'
      → Reports es s (dte_events_loop f t s) × ((dte_events_loop f t s).dte ≡ d')
  dte_events_loop-Reports zero t es s d' h ee a = elim h [ ]
  dte_events_loop-Reports (suc f) t [] s d' h ee (no_more e q) = rw (loop_stop f t s e) (
    record {
      evts_eq = sym (put_all-nil (evts.size s.evt_q) (evts.items s.evt_q));
      size_eq = refl;
      service_eq = refl;
      signal_eq = refl;
      mo_q_eq = refl;
      heap_eq = refl;
    },
    q,
  )
  dte_events_loop-Reports (suc f) t (e ∷ es) s d' h ee (one_more blank pre gap z i hp hg d a) =
      let w = evt_wait_event s.dte t blank e pre gap z ee i hp hg d in
      let known : is_ok (evt_wait t s.dte).0.0 ≡ true =
        ap (λ (y : (DteErr × Evt) × Dte Z). is_ok y.0.0) w in
      let s₁ = told_evt e (record s { dte = announced s.dte z }) in
      let here : told t s ≡ s₁ =
        ap (λ (y : (DteErr × Evt) × Dte Z). told_evt y.0.1 (record s { dte = y.1 })) w in
      let same : s₁.dte ≡ announced s.dte z =
        ap (λ (s' : Isbd H M E Z). s'.dte) (sym here)
        ∙ told_dte t s
        ∙ ap (λ (y : (DteErr × Evt) × Dte Z). y.1) w in
      let less = evt_wait_less t s.dte known in
      let fuel : still s₁.dte < f =
        omega (arith, less, h, ap still same, ap (λ (y : (DteErr × Evt) × Dte Z). still y.1) w) in
      let (r, q) = dte_events_loop-Reports f 10 es s₁ d' fuel (rw same ee) (rw same a) in
      rw (loop_round f t s known, here)
        (
          Reports-dte (e ∷ es) s (announced s.dte z) _ (
              Reports-more e es (record s { dte = announced s.dte z }) (dte_events_loop f 10 s₁) r),
          q,
        )

  -- Where the line announces any number of events, the first within the timeout and each other within 10
  -- ms, every byte in time, and then nothing that is an event, `_wait_for_dte_events` reports all of them
  -- to the user in their order, as far as the queue of events has room (the rest is dropped); the service
  -- and the signal are those of the last events that tell them; the queue of messages and the heap are as
  -- they were; and of the line it has read the events and what came behind them.
  pub wait_for_dte_events_lem :
      (t : ℕ) (es : List Evt) (s : Isbd H M E Z) (d' : Dte Z)
      → IsEol s.dte.at_uart.eol
      → Announces t s.dte es d'
      → Reports es s (wait_for_dte_events t s).1 × ((wait_for_dte_events t s).1.dte ≡ d')
  unfolding wait_for_dte_events
  wait_for_dte_events_lem t es s d' ee a =
      dte_events_loop-Reports (suc (still s.dte)) t es s d' (omega arith) ee a
