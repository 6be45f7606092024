-- ===== src/Prelude/State.antt =====
-- Functions that work on a structure behind a pointer: each takes the state and returns its result
-- beside the new state.

abbrev pub Io : Type 0 → Type 0 → Type 0
Io S A = S → A × S

module _ {S A : Type 0} where
  abbrev pub pure : A → Io S A
  pure a s = (a, s)

  abbrev pub gets : (S → A) → Io S A
  gets f s = (f s, s)

abbrev pub modify : {S : Type 0} → (S → S) → Io S (Unit {0})
modify f s = (tt, f s)

infixl 5 ◌>>=◌ ◌>>◌
abbrev pub ◌>>=◌ : {S A B : Type 0} → Io S A → (A → Io S B) → Io S B
◌>>=◌ m f s = let (a, s') = m s in f a s'

abbrev pub ◌>>◌ : {S A B : Type 0} → Io S A → Io S B → Io S B
◌>>◌ m k s = let (a, s') = m s in k s'
