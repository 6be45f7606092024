-- ===== src/Libc/Scan.antt =====
-- `sscanf` and `atoi` over the templates that the program uses: literal characters, `%hhu`, `%hu`.
pub mod Laws
pub mod Fields
use isbd_zephyr_module.Prelude.{
  ℕ, ◌+◌, ◌-◌, ◌*◌, ◌%◌, ◌^◌, Bytes, Bool, ◌&&◌, ◌||◌, [], ◌∷◌, ◌==◌, leb, if◌then◌else◌, List,
  Option, none, some, c_str,
}

abbrev pub is_digit : ℕ → Bool
is_digit c = leb 48 c && leb c 57

abbrev pub is_space : ℕ → Bool
is_space c = c == 32 || leb 9 c && leb c 13

-- The number that the leading digits spell, behind the digits read so far, and the rest.
unfoldable pub scan_digits : ℕ → Bytes → ℕ × Bytes
scan_digits acc [] = (acc, [])
scan_digits acc (c ∷ s) = if is_digit c then scan_digits (acc * 10 + (c - 48)) s else (acc, c ∷ s)

unfoldable pub skip_spaces : Bytes → Bytes
skip_spaces [] = []
skip_spaces (c ∷ s) = if is_space c then skip_spaces s else c ∷ s

scan_number : Bytes → Option (ℕ × Bytes)
scan_number [] = none
scan_number (c ∷ s) = if is_digit c then some (scan_digits 0 (c ∷ s)) else none

-- `-n` is the unsigned number of 32 bits that is congruent to it.
negated : Option (ℕ × Bytes) → Option (ℕ × Bytes)
negated none = none
negated (some (n, s)) = some ((2 ^ 32 - n % 2 ^ 32) % 2 ^ 32, s)

signed : Bytes → Option (ℕ × Bytes)
signed [] = none
signed (c ∷ s) =
    if c == 43
    then scan_number s
    else if c == 45
    then negated (scan_number s)
    else scan_number (c ∷ s)

unfoldable pub scan_unsigned : Bytes → Option (ℕ × Bytes)
unfolding scan_digits skip_spaces scan_number negated signed
scan_unsigned s = signed (skip_spaces s)

-- A conversion keeps the low `bits` of the number.
pub data Directive : Type 0 where
  char : ℕ → Directive
  unsigned : ℕ → Directive

-- The literal characters of a template.
unfoldable pub chars : Bytes → List Directive → List Directive
chars [] ds = ds
chars (c ∷ s) ds = char c ∷ chars s ds

-- The values that `sscanf` stores, in order; their number is what it returns. It stops at the first
-- mismatch.
unfoldable pub scanf : List Directive → Bytes → List ℕ
scanf [] s = []
scanf (char c ∷ ds) [] = []
scanf (char c ∷ ds) (d ∷ s) = let rest = scanf ds s in if c == d then rest else []
scanf (unsigned bits ∷ ds) s = elim (scan_unsigned s) [
  | none ↦ []
  | some (n, rest) ↦ n % 2 ^ bits ∷ scanf ds rest
]

-- `sscanf` reads a string.
unfoldable pub sscanf : List Directive → Bytes → List ℕ
sscanf ds s = scanf ds (c_str s)

-- `atoi` of a string that begins with a digit.
unfoldable pub atoi : Bytes → ℕ
unfolding scan_digits
atoi s = (scan_digits 0 (c_str s)).0
