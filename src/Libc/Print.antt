-- ===== src/Libc/Print.antt =====
-- `vsnprintf` over the templates of lib/at_uart/inc/at.h: `%s`, `%u` and `%d` at numbers that are
-- not negative.
pub mod Laws
use isbd_zephyr_module.Prelude.{
  ℕ, zero, suc, ◌+◌, ◌/◌, ◌%◌, Bytes, [], ◌∷◌, ◌++◌, ltb, if◌then◌else◌, List,
}

unfoldable pub decimal_fuel : ℕ → ℕ → Bytes
decimal_fuel zero n = []
decimal_fuel (suc f) n =
    let rest = decimal_fuel f (n / 10) in
    if ltb n 10 then (48 + n) ∷ [] else rest ++ (48 + n % 10) ∷ []

-- A number in decimal; it has fewer digits than its successor has units.
unfoldable pub decimal : ℕ → Bytes
unfolding decimal_fuel
decimal n = decimal_fuel (suc n) n

-- A piece of a template with its argument.
pub data Piece : Type 0 where
  lit : Bytes → Piece
  str : Bytes → Piece
  num : ℕ → Piece

-- The text that `vsnprintf` writes if it has the room; its length is what `vsnprintf` returns.
unfoldable pub render : List Piece → Bytes
render [] = []
render (lit s ∷ ps) = s ++ render ps
render (str s ∷ ps) = s ++ render ps
render (num n ∷ ps) = decimal n ++ render ps
