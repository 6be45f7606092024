-- ===== src/Stru.antt =====
-- lib/stru/stru.c: string equality.
pub mod Laws
use isbd_zephyr_module.Prelude.{Bytes, Bool, false, not, ◌&&◌, [], ◌∷◌, ◌==◌, if◌then◌else◌, peek}

-- The loop ends where either string does, and then compares the two bytes it stands at.
unfoldable pub streq : Bytes → Bytes → Bool
streq [] ref = 0 == peek ref
streq (c ∷ src) [] = c == 0
streq (c ∷ src) (d ∷ ref) =
    if not (c == 0) && not (d == 0) then (if not (c == d) then false else streq src ref) else c == d
