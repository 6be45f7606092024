-- ===== src/Libc/Scan/Laws.antt =====
-- `sscanf` reads back what `printf` writes.
use isbd_zephyr_module.Prelude.{
  ℕ, zero, suc, c_str, append-nil, ◌+◌, ◌/◌, ◌%◌, ◌<◌, ◌≡◌, ◌∙◌, ◌^◌, refl, true, false, Bytes, [],
  ◌∷◌, ◌++◌, arith, ltb, Bool-cases, inl, inr, append_assoc, some, peek, List, ap,
}
use isbd_zephyr_module.Libc.Print.{decimal_fuel, decimal}
use isbd_zephyr_module.Libc.Scan.{
  atoi, is_digit, scan_digits, skip_spaces, scan_number, signed, scan_unsigned, unsigned, scanf,
  chars, Directive,
}

-- The text after a number does not go on with a digit.
abbrev pub Ends : Bytes → Type 0
Ends s = is_digit (peek s) ≡ false

scan_digits-decimal_fuel :
    (f n : ℕ) (rest : Bytes) → n < f → scan_digits 0 (decimal_fuel f n ++ rest) ≡ scan_digits n rest
unfolding scan_digits decimal_fuel
scan_digits-decimal_fuel zero n rest h = elim h [ ]
scan_digits-decimal_fuel (suc f) n rest h = elim (Bool-cases (ltb n 10)) [
  | inl e ↦ rw e (ground arith)
  | inr e ↦
      rw (e, append_assoc (decimal_fuel f (n / 10)) ((48 + n % 10) ∷ []) rest)
        (ground (arith, scan_digits-decimal_fuel f (n / 10) ((48 + n % 10) ∷ rest)))
]

decimal_fuel_head :
    (f n : ℕ) → n < f → (c : ℕ) × (s : Bytes) × (decimal_fuel f n ≡ c ∷ s) × (is_digit c ≡ true)
unfolding decimal_fuel
decimal_fuel_head zero n h = elim h [ ]
decimal_fuel_head (suc f) n h = elim (Bool-cases (ltb n 10)) [
  | inl e ↦ (48 + n, [], rw e, ground arith)
  | inr e ↦
      let (c, s, p, d) = decimal_fuel_head f (n / 10) (ground arith) in
      (c, s ++ (48 + n % 10) ∷ [], rw (e, p), d)
]

signed_digit :
    (c : ℕ) (s : Bytes)
    → is_digit c ≡ true
    → signed (skip_spaces (c ∷ s)) ≡ some (scan_digits 0 (c ∷ s))
unfolding signed skip_spaces scan_number
signed_digit c s h = ground arith

scan_digits_end : (n : ℕ) (rest : Bytes) → Ends rest → scan_digits n rest ≡ (n, rest)
unfolding scan_digits
scan_digits_end n [] e = refl
scan_digits_end n (c ∷ s) e = rw e

scan_unsigned_text :
    (t rest : Bytes) (n c : ℕ) (s : Bytes)
    → t ≡ c ∷ s
    → is_digit c ≡ true
    → scan_digits 0 (t ++ rest) ≡ (n, rest)
    → scan_unsigned (t ++ rest) ≡ some (n, rest)
unfolding scan_unsigned
scan_unsigned_text t rest n c s p d h =
    let e : scan_digits 0 (c ∷ s ++ rest) ≡ (n, rest) = rw p at h in
    rw p (signed_digit c (s ++ rest) d ∙ ap some e)

-- A number in decimal is read back, and the reading stops behind it.
scan_unsigned-decimal :
    (n : ℕ) (rest : Bytes) → Ends rest → scan_unsigned (decimal n ++ rest) ≡ some (n, rest)
scan_unsigned-decimal n rest e =
    let (c, s, p, d) = decimal_fuel_head (suc n) n (omega arith) in
    unfold decimal in
    scan_unsigned_text (decimal_fuel (suc n) n) rest n c s p d
      (scan_digits-decimal_fuel (suc n) n rest (omega arith) ∙ scan_digits_end n rest e)

scan_unsigned-blank : (s : Bytes) → scan_unsigned (32 ∷ s) ≡ scan_unsigned s
unfolding scan_unsigned skip_spaces
scan_unsigned-blank s = refl

-- A conversion reads back a number that fits it, and the template goes on behind it.
pub scanf-decimal :
    (bits n : ℕ) (ds : List Directive) (rest : Bytes)
    → n % 2 ^ bits ≡ n
    → Ends rest
    → scanf (unsigned bits ∷ ds) (decimal n ++ rest) ≡ n ∷ scanf ds rest
unfolding scanf
scanf-decimal bits n ds rest h e =
    rw (scan_unsigned-decimal n rest e, scanf) (ap (λ k. k ∷ scanf ds rest) h)

-- So it does behind a blank, which modems write after `:` and `,`.
pub scanf-blank :
    (bits : ℕ) (ds : List Directive) (s : Bytes)
    → scanf (unsigned bits ∷ ds) (32 ∷ s) ≡ scanf (unsigned bits ∷ ds) s
unfolding scanf
scanf-blank bits ds s = rw (scan_unsigned-blank s, scanf)

pub scanf-chars :
    (t : Bytes) (ds : List Directive) (rest : Bytes)
    → scanf (chars t ds) (t ++ rest) ≡ scanf ds rest
unfolding scanf chars
scanf-chars [] ds rest = refl
scanf-chars (c ∷ t) ds rest = ground (arith, scanf-chars t ds rest)

-- `atoi` reads back a number in decimal.
pub atoi-decimal : (n : ℕ) (b : Bytes) → c_str b ≡ decimal n → atoi b ≡ n
unfolding atoi decimal
atoi-decimal n b h =
    ap (λ t. (scan_digits 0 t).0) h
    ∙ ap (λ (r : ℕ × Bytes). r.0)
        (rw append-nil at (scan_digits-decimal_fuel (suc n) n [] (omega arith)))
