-- ===== src/Stru/Laws.antt =====
-- What `streq` of lib/stru/stru.c decides.
use isbd_zephyr_module.Prelude.{Bytes, ◌≡◌, ◌↔◌, refl, true, [], ◌∷◌, c_str, arith}
use isbd_zephyr_module.Stru.{streq}

streq_sound : (s r : Bytes) → streq s r ≡ true → c_str s ≡ c_str r
unfolding streq
streq_sound [] [] h = refl
streq_sound [] (d ∷ r) h = ground arith
streq_sound (c ∷ s) [] h = ground arith
streq_sound (c ∷ s) (d ∷ r) h = ground (arith, streq_sound s r)

streq_complete : (s r : Bytes) → c_str s ≡ c_str r → streq s r ≡ true
unfolding streq
streq_complete [] [] h = refl
streq_complete [] (d ∷ r) h = ground arith
streq_complete (c ∷ s) [] h = ground arith
streq_complete (c ∷ s) (d ∷ r) h = ground (arith, streq_complete s r)

-- `streq` is true exactly of two buffers that hold the same string, whatever follows the
-- terminators.
pub streq_iff : (s r : Bytes) → (streq s r ≡ true) ↔ (c_str s ≡ c_str r)
streq_iff s r = (streq_sound s r, streq_complete s r)
