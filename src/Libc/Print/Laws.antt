-- ===== src/Libc/Print/Laws.antt =====
-- The texts of numbers: digits only, and no more of them than the bound on the number has.
use isbd_zephyr_module.Prelude.{
  ℕ, zero, suc, ◌+◌, ◌/◌, ◌%◌, ◌^◌, ◌<◌, ◌≤◌, ◌≡◌, ◌≢◌, true, [], ◌∷◌, All, All-append, arith, ltb,
  lt→ltb, Bool-cases, inl, inr, length, length-append,
}
use mathlib.Core.List.{concat-ne-nil}
use native.Mathlib.Nat.{pow-suc}
use isbd_zephyr_module.Libc.Print.{decimal_fuel, decimal}
use isbd_zephyr_module.Libc.Scan.{is_digit}

decimal_fuel_digits : (f n : ℕ) → All (λ c. is_digit c ≡ true) (decimal_fuel f n)
unfolding decimal_fuel
decimal_fuel_digits zero n = tt
decimal_fuel_digits (suc f) n = elim (Bool-cases (ltb n 10)) [
  | inl e ↦ rw e (ground arith)
  | inr e ↦ rw e (
      All-append (λ c. is_digit c ≡ true) (decimal_fuel f (n / 10)) ((48 + n % 10) ∷ [])
        (decimal_fuel_digits f (n / 10)) (ground arith))
]

pub decimal_digits : (n : ℕ) → All (λ c. is_digit c ≡ true) (decimal n)
unfolding decimal
decimal_digits n = decimal_fuel_digits (suc n) n

length-decimal_fuel : (k f n : ℕ) → n < 10 ^ suc k → length (decimal_fuel f n) ≤ suc k
unfolding decimal_fuel
length-decimal_fuel k zero n h = omega arith
length-decimal_fuel zero (suc f) n h = let e : ltb n 10 ≡ true = lt→ltb n 10 h in rw e (omega arith)
length-decimal_fuel (suc k) (suc f) n h = elim (Bool-cases (ltb n 10)) [
  | inl e ↦ rw e (omega arith)
  | inr e ↦ rw e (
      omega (
        arith,
        length-append (decimal_fuel f (n / 10)) ((48 + n % 10) ∷ []),
        length-decimal_fuel k f (n / 10) (omega (arith, pow-suc 10 (suc k))),
      ))
]

-- A number below a power of ten has no more digits than its exponent.
pub length-decimal : (k n : ℕ) → n < 10 ^ suc k → length (decimal n) ≤ suc k
unfolding decimal
length-decimal k n = length-decimal_fuel k (suc n) n

pub decimal-ne-nil : (n : ℕ) → decimal n ≢ []
unfolding decimal decimal_fuel
decimal-ne-nil n = elim (Bool-cases (ltb n 10)) [
  | inl e ↦ ground arith
  | inr e ↦ rw e (concat-ne-nil (48 + n % 10) (decimal_fuel n (n / 10)))
]
