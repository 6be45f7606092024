-- ===== src/Serial/Delivery.antt =====
-- A line that delivers given bytes, one to each `zuart_read` of one byte, in time.
use isbd_zephyr_module.Prelude.{
  ℕ, ◌≤◌, ◌≡◌, Bytes, [], ◌∷◌, ◌++◌, length, arith, subst, sym, ap, ◌∙◌, take, take-length, true,
}
use isbd_zephyr_module.Serial.{Serial}

module _ {Z : Type 0} ⦃line : Serial Z⦄ where
  abbrev pub Delivers : ℕ → Bytes → Z → Z → Type 0
  Delivers t [] z z' = z ≡ z'
  Delivers t (b ∷ bs) z z' = (m : Z) × (line.read 1 t z ≡ (b ∷ [], m)) × Delivers t bs m z'

  pub Delivers-nil : (t : ℕ) (bs : Bytes) (z z' : Z) → Delivers t bs z z' → bs ≡ [] → z ≡ z'
  Delivers-nil t [] z z' d e = d
  Delivers-nil t (b ∷ bs) z z' d e = cc

  pub length-le-pending :
      (t : ℕ) (bs : Bytes) (z z' : Z) → Delivers t bs z z' → length bs ≤ line.pending z
  length-le-pending t [] z z' d = omega arith
  length-le-pending t (b ∷ bs) z z' (m, e, d) =
      ground (arith, line.read_pending 1 t z, length-le-pending t bs m z' d)

  pub Delivers-append :
      (t : ℕ) (cs bs : Bytes) (x y z : Z)
      → Delivers t cs x y
      → Delivers t bs y z
      → Delivers t (cs ++ bs) x z
  Delivers-append t [] bs x y z d e = subst (λ u. Delivers t bs u z) (sym d) e
  Delivers-append t (a ∷ cs) bs x y z (m, p, d) e = (m, p, Delivers-append t cs bs m y z d e)

  pub sent-Delivers :
      (t : ℕ) (bs : Bytes) (z z' : Z) → Delivers t bs z z' → line.sent z' ≡ line.sent z
  sent-Delivers t [] z z' d = ap line.sent (sym d)
  sent-Delivers t (b ∷ bs) z z' (m, e, d) =
      sent-Delivers t bs m z' d
      ∙ ap (λ (r : Bytes × Z). line.sent r.1) (sym e)
      ∙ line.sent-read 1 t z

  pub in_order-Delivers :
      (t : ℕ) (bs : Bytes) (z z' : Z)
      → Delivers t bs z z'
      → line.in_order z ≡ true
      → line.in_order z' ≡ true
  in_order-Delivers t [] z z' d h = ap line.in_order (sym d) ∙ h
  in_order-Delivers t (b ∷ bs) z z' (m, e, d) h =
      in_order-Delivers t bs m z' d
        (ap (λ (r : Bytes × Z). line.in_order r.1) (sym e) ∙ line.in_order-read 1 t z h)

  -- A write that is taken whole.
  pub sent-write_whole :
      (s : Bytes) (t : ℕ) (z : Z)
      → line.in_order z ≡ true
      → (line.write s t z).0 ≡ length s
      → line.sent (line.write s t z).1 ≡ line.sent z ++ s
  sent-write_whole s t z o h =
      line.sent-write s t z o
      ∙ ap (λ n. line.sent z ++ take n s) h
      ∙ ap (λ r. line.sent z ++ r) (take-length s)
