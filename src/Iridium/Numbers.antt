-- ===== src/Iridium/Numbers.antt =====
-- Answers of the ISU that are a name and numbers are never taken for result codes, and fit the arrays
-- of lib/iridium.
use isbd_zephyr_module.Prelude.{
  ℕ, ◌+◌, ◌*◌, ◌<◌, ◌≤◌, ◌≡◌, ◌^◌, Bytes, Bool, true, false, [], ◌∷◌, ◌++◌, List, length,
  length-append, take, All, All-append, arith, refl,
}
use isbd_zephyr_module.Libc.Print.{decimal}
use isbd_zephyr_module.Libc.Print.Laws.{decimal_digits, length-decimal}
use isbd_zephyr_module.Libc.Scan.{is_digit}
use isbd_zephyr_module.Libc.Scan.Fields.{field, fields, more_fields}
use isbd_zephyr_module.Stru.{streq}
use isbd_zephyr_module.AtUart.Types.{unk}
use isbd_zephyr_module.AtUart.Code.{get_str_code}
use isbd_zephyr_module.AtUart.Parse.Line.{IsChar}
use isbd_zephyr_module.AtUart.Parse.Response.{IsText}

plus_is_no_code : (verbose : Bool) (s : Bytes) → get_str_code verbose (b'+' ∷ s) ≡ unk
unfolding get_str_code streq
plus_is_no_code true s = refl
plus_is_no_code false s = refl

digit_char : (c : ℕ) → is_digit c ≡ true → IsChar c
digit_char c h = ground arith

digits_chars : (s : Bytes) → All (λ c. is_digit c ≡ true) s → All IsChar s
digits_chars [] a = tt
digits_chars (c ∷ s) (h, a) = (digit_char c h, digits_chars s a)

field_chars : (blank : Bool) (n : ℕ) → All IsChar (field blank n)
field_chars true n = ((omega arith, refl), digits_chars (decimal n) (decimal_digits n))
field_chars false n = digits_chars (decimal n) (decimal_digits n)

more_fields_chars : (blank : Bool) (ns : List ℕ) → All IsChar (more_fields blank ns)
more_fields_chars blank [] = tt
more_fields_chars blank (n ∷ ns) = (
  (omega arith, refl),
  All-append IsChar (field blank n) (more_fields blank ns) (field_chars blank n)
      (more_fields_chars blank ns),
)

fields_chars : (blank : Bool) (ns : List ℕ) → All IsChar (fields blank ns)
fields_chars blank [] = tt
fields_chars blank (n ∷ ns) =
    All-append IsChar (field blank n) (more_fields blank ns) (field_chars blank n)
      (more_fields_chars blank ns)

length-field : (blank : Bool) (n : ℕ) → n < 10 ^ 5 → length (field blank n) ≤ 6
length-field true n h = omega (arith, length-decimal 4 n h)
length-field false n h = omega (arith, length-decimal 4 n h)

length-more_fields :
    (blank : Bool) (ns : List ℕ)
    → All (λ n. n < 10 ^ 5) ns
    → length (more_fields blank ns) ≤ 7 * length ns
length-more_fields blank [] a = omega arith
length-more_fields blank (n ∷ ns) (h, a) = omega (
  arith,
  length-append (field blank n) (more_fields blank ns),
  length-field blank n h,
  length-more_fields blank ns a,
)

length-fields :
    (blank : Bool) (ns : List ℕ)
    → All (λ n. n < 10 ^ 5) ns
    → length (fields blank ns) ≤ 7 * length ns
length-fields blank [] a = omega arith
length-fields blank (n ∷ ns) (h, a) = omega (
  arith,
  length-append (field blank n) (more_fields blank ns),
  length-field blank n h,
  length-more_fields blank ns a,
)

-- A name that begins with `+`, and numbers of at most five digits.
pub numbers-IsText :
    (verbose : Bool) (size : ℕ) (name : Bytes) (blank : Bool) (ns : List ℕ)
    → All IsChar name
    → All (λ n. n < 10 ^ 5) ns
    → length name + 1 + 7 * length ns < size
    → IsText verbose size (b'+' ∷ name ++ fields blank ns)
numbers-IsText verbose size name blank ns a b h = record {
  chars = ((omega arith, refl), All-append IsChar name (fields blank ns) a (fields_chars blank ns));
  some_char = omega arith;
  fits = omega (arith, length-append name (fields blank ns), length-fields blank ns b);
  no_code = plus_is_no_code verbose (take 30 (name ++ fields blank ns));
}
