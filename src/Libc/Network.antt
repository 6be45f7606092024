-- ===== src/Libc/Network.antt =====
-- The network byte order: what `htons` stores at a byte address, and what `ntohs` makes of two bytes.
use isbd_zephyr_module.Prelude.{
  ℕ, ◌+◌, ◌*◌, ◌/◌, ◌%◌, ◌<◌, ◌^◌, ◌≡◌, Bytes, [], ◌∷◌, arith, get_or, All,
}

unfoldable pub htons : ℕ → Bytes
htons n = n / 256 % 256 ∷ n % 256 ∷ []

unfoldable pub ntohs : Bytes → ℕ
ntohs s = get_or s 0 0 * 256 + get_or s 1 0

pub ntohs-htons : (n : ℕ) → n < 2 ^ 16 → ntohs (htons n) ≡ n
unfolding ntohs htons
ntohs-htons n h = omega arith

pub htons_bytes : (n : ℕ) → All (λ b. b < 256) (htons n)
unfolding htons
htons_bytes n = omega arith
