-- ===== src/Libc/Scan/Fields.antt =====
-- Lists of numbers as modems answer them, and the templates of `sscanf` that read them.
use isbd_zephyr_module.Prelude.{
  ℕ, ◌≡◌, ◌^◌, ◌%◌, Bytes, Bool, true, false, [], ◌∷◌, ◌++◌, List, arith, refl, ap, ◌∙◌,
  if◌then◌else◌, peek,
}
use isbd_zephyr_module.Libc.Print.{decimal}
use isbd_zephyr_module.Libc.Scan.{is_digit, Directive, char, unsigned, chars, scanf}
use isbd_zephyr_module.Libc.Scan.Laws.{scanf-decimal, scanf-blank, scanf-chars}

-- A number as modems write it, behind a blank or not.
abbrev pub field : Bool → ℕ → Bytes
field blank n = (if blank then b' ' ∷ [] else []) ++ decimal n

abbrev pub more_fields : Bool → List ℕ → Bytes
more_fields blank [] = []
more_fields blank (n ∷ ns) = b',' ∷ (field blank n ++ more_fields blank ns)

abbrev pub fields : Bool → List ℕ → Bytes
fields blank [] = []
fields blank (n ∷ ns) = field blank n ++ more_fields blank ns

-- The directives that read such numbers, of the given widths.
abbrev more_unsigned : List ℕ → List Directive
more_unsigned [] = []
more_unsigned (w ∷ ws) = char b',' ∷ unsigned w ∷ more_unsigned ws

abbrev pub all_unsigned : List ℕ → List Directive
all_unsigned [] = []
all_unsigned (w ∷ ws) = unsigned w ∷ more_unsigned ws

-- Each number fits its width.
abbrev pub Fit : List ℕ → List ℕ → Type 0
Fit [] [] = Unit
Fit (w ∷ ws) (n ∷ ns) = (n % 2 ^ w ≡ n) × Fit ws ns
Fit _ _ = ⊥

scanf-field :
    (blank : Bool) (bits n : ℕ) (ds : List Directive) (rest : Bytes)
    → n % 2 ^ bits ≡ n
    → is_digit (peek rest) ≡ false
    → scanf (unsigned bits ∷ ds) (field blank n ++ rest) ≡ n ∷ scanf ds rest
scanf-field true bits n ds rest h e =
    scanf-blank bits ds (decimal n ++ rest) ∙ scanf-decimal bits n ds rest h e
scanf-field false bits n ds rest h e = scanf-decimal bits n ds rest h e

peek-more_fields : (blank : Bool) (ns : List ℕ) → is_digit (peek (more_fields blank ns)) ≡ false
peek-more_fields blank [] = refl
peek-more_fields blank (n ∷ ns) = refl

scanf_nil : (s : Bytes) → scanf [] s ≡ []
unfolding scanf
scanf_nil s = refl

scanf_char : (c : ℕ) (ds : List Directive) (s : Bytes) → scanf (char c ∷ ds) (c ∷ s) ≡ scanf ds s
unfolding scanf
scanf_char c ds s = ground arith

scanf-more_fields :
    (blank : Bool) (ws ns : List ℕ)
    → Fit ws ns
    → scanf (more_unsigned ws) (more_fields blank ns) ≡ ns
scanf-more_fields blank [] [] f = scanf_nil _
scanf-more_fields blank [] (n ∷ ns) f = elim f [ ]
scanf-more_fields blank (w ∷ ws) [] f = elim f [ ]
scanf-more_fields blank (w ∷ ws) (n ∷ ns) (h, f) =
    scanf_char b',' (unsigned w ∷ more_unsigned ws) (field blank n ++ more_fields blank ns)
    ∙ scanf-field blank w n (more_unsigned ws) (more_fields blank ns) h (peek-more_fields blank ns)
    ∙ ap (λ t. n ∷ t) (scanf-more_fields blank ws ns f)

-- `sscanf` reads every number of a list that fits its template, behind blanks or not.
pub scanf-fields :
    (prefix : Bytes) (blank : Bool) (ws ns : List ℕ)
    → Fit ws ns
    → scanf (chars prefix (all_unsigned ws)) (prefix ++ fields blank ns) ≡ ns
scanf-fields prefix blank [] [] f = scanf-chars prefix [] [] ∙ scanf_nil _
scanf-fields prefix blank [] (n ∷ ns) f = elim f [ ]
scanf-fields prefix blank (w ∷ ws) [] f = elim f [ ]
scanf-fields prefix blank (w ∷ ws) (n ∷ ns) (h, f) =
    scanf-chars prefix (all_unsigned (w ∷ ws)) (fields blank (n ∷ ns))
    ∙ scanf-field blank w n (more_unsigned ws) (more_fields blank ns) h (peek-more_fields blank ns)
    ∙ ap (λ t. n ∷ t) (scanf-more_fields blank ws ns f)
