-- ===== src/Isbd/Action.antt =====
-- Code that is made of atomic actions on a state, and its run without a break.
use isbd_zephyr_module.Prelude.{
  ◌≡◌, Bool, true, false, Option, none, some, if◌then◌else◌, refl, ap, ◌∙◌, Io,
}

-- An action changes the state; what comes next depends on the state that it found.
pub data Code (S A : Type 0) : Type 0 where
  ret : A → Code S A
  act : (S → S) → (S → Code S A) → Code S A

infixl 5 ◌>>=◌ ◌>>◌
abbrev pub ◌>>=◌ : {S A B : Type 0} → Code S A → (A → Code S B) → Code S B
ret a >>= f = f a
act g k >>= f = act g (λ s. k s >>= f)

abbrev pub ◌>>◌ : {S A B : Type 0} → Code S A → Code S B → Code S B
m >> k = m >>= λ _. k

abbrev pub atomically : {S A : Type 0} → Io S A → Code S A
atomically m = act (λ s. (m s).1) (λ s. ret (m s).0)

-- The whole of the code at once.
abbrev pub run : {S A : Type 0} → Code S A → Io S A
run (ret a) s = (a, s)
run (act g k) s = run (k s) (g s)

pub run->>= :
    {S A B : Type 0} (m : Code S A) (f : A → Code S B) (s : S)
    → run (m >>= f) s ≡ run (f (run m s).0) (run m s).1
run->>= (ret a) f s = refl
run->>= (act g k) f s = run->>= (k s) f (g s)

-- Code behind code of which the result and the state are known.
pub run_bind :
    {S A B : Type 0} (m : Code S A) (f : A → Code S B) (s : S) (r : A × S) (x : B × S)
    → run m s ≡ r
    → run (f r.0) r.1 ≡ x
    → run (m >>= f) s ≡ x
run_bind {S} {A} m f s r x p q = run->>= m f s ∙ ap (λ (y : A × S). run (f y.0) y.1) p ∙ q

pub run_if :
    {S A : Type 0} (b : Bool) (c d : Code S A) (x y : A × S) (s : S)
    → run c s ≡ x
    → run d s ≡ y
    → run (if b then c else d) s ≡ (if b then x else y)
run_if true c d x y s p q = p
run_if false c d x y s p q = q

pub run_option :
    {S A B : Type 0} (o : Option B) (c : Code S A) (k : B → Code S A) (x : A × S) (y : B → A × S)
    (s : S)
    → run c s ≡ x
    → ((b : B) → run (k b) s ≡ y b)
    → run (elim o [ none ↦ c | some b ↦ k b ]) s ≡ (elim o [ none ↦ x | some b ↦ y b ])
run_option none c k x y s p q = p
run_option (some b) c k x y s p q = q b

-- Branches that are functions of the state.
pub run_branch :
    {S A : Type 0} (b : Bool) (c d : Code S A) (m n : Io S A) (s : S)
    → run c s ≡ m s
    → run d s ≡ n s
    → run (if b then c else d) s ≡ (if b then m else n) s
run_branch true c d m n s p q = p
run_branch false c d m n s p q = q

pub run_option_at :
    {S A B : Type 0} (o : Option B) (c : Code S A) (k : B → Code S A) (m : Io S A) (f : B → Io S A)
    (s : S)
    → run c s ≡ m s
    → ((b : B) → run (k b) s ≡ f b s)
    → run (elim o [ none ↦ c | some b ↦ k b ]) s
      ≡ (elim o as (λ (_ : Option B). Io S A) [ none ↦ m | some b ↦ f b ]) s
run_option_at none c k m f s p q = p
run_option_at (some b) c k m f s p q = q b
