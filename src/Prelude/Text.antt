-- ===== src/Prelude/Text.antt =====
-- Bytes, and the strings of C: a string is the memory from its first byte on, it ends at its first
-- zero byte, and the end of the list reads as that byte.
use Prim.Native.Nat.{ℕ, zero, suc, ◌<◌}
use native.Mathlib.Omega.{arith}
use mathlib.Core.Path.{◌≡◌, refl}
use mathlib.Core.Logic.{◌≢◌}
use Prim.Native.Char.{code}
use Prim.Native.String.{String}
use mathlib.Core.List.{List, [], ◌∷◌}
use isbd_zephyr_module.Prelude.Tests.{◌==◌, if◌then◌else◌}
use isbd_zephyr_module.Prelude.Lists.{length, set, take, All, get_or}

abbrev pub Bytes : Type 0
Bytes = List ℕ

-- The bytes of a literal; every literal of the program is ASCII.
abbrev pub codes : String → Bytes
codes String.[] = []
codes (String.◌∷◌ c s) = code c ∷ codes s

-- The byte that a pointer to the memory points at.
abbrev pub peek : Bytes → ℕ
peek [] = 0
peek (c ∷ s) = c

-- The characters before the terminator.
abbrev pub c_str : Bytes → Bytes
c_str [] = []
c_str (c ∷ s) = if c == 0 then [] else c ∷ c_str s

-- A terminator behind characters that are none ends the string there.
pub c_str-set :
    (b : Bytes) (i : ℕ) → i < length b → All (λ c. c ≢ 0) (take i b) → c_str (set b i 0) ≡ take i b
c_str-set [] i h a = elim h [ ]
c_str-set (x ∷ b) zero h a = refl
c_str-set (x ∷ b) (suc i) h (n, a) = ground (arith, c_str-set b i)

-- A zero byte behind characters that are none ends the string there.
pub c_str_ended :
    (b : Bytes) (i : ℕ)
    → i < length b
    → All (λ c. c ≢ 0) (take i b)
    → get_or b i 1 ≡ 0
    → c_str b ≡ take i b
c_str_ended [] i h a e = elim h [ ]
c_str_ended (x ∷ b) zero h a e = ground arith
c_str_ended (x ∷ b) (suc i) h (n, a) e = ground (arith, c_str_ended b i)
