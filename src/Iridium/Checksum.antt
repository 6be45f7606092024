-- ===== src/Iridium/Checksum.antt =====
-- lib/iridium/isbd/util.c: the checksum of a message.
use isbd_zephyr_module.Prelude.{ℕ, ◌+◌, ◌%◌, ◌^◌, ◌≡◌, Bytes, [], ◌∷◌, arith}

-- The loop, on a sum of 32 bits.
unfoldable pub checksum_loop : ℕ → Bytes → ℕ
checksum_loop sum [] = sum % 2 ^ 16
checksum_loop sum (b ∷ msg) = checksum_loop ((sum + b) % 2 ^ 32) msg

unfoldable pub compute_checksum : Bytes → ℕ
unfolding checksum_loop
compute_checksum msg = checksum_loop 0 msg

-- The sum of the bytes.
abbrev pub byte_sum : Bytes → ℕ
byte_sum [] = 0
byte_sum (b ∷ msg) = b + byte_sum msg

checksum_loop_lem : (sum : ℕ) (msg : Bytes) → checksum_loop sum msg ≡ (sum + byte_sum msg) % 2 ^ 16
unfolding checksum_loop
checksum_loop_lem sum [] = omega arith
checksum_loop_lem sum (b ∷ msg) = omega (arith, checksum_loop_lem ((sum + b) % 2 ^ 32) msg)

-- The checksum is the sum of all bytes of the message modulo 2^16, however long the message is: the
-- wrapping of the 32-bit sum does not show.
pub compute_checksum_lem : (msg : Bytes) → compute_checksum msg ≡ byte_sum msg % 2 ^ 16
unfolding compute_checksum
compute_checksum_lem msg = omega (arith, checksum_loop_lem 0 msg)
