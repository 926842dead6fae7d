-- ===== src/Number/Power/Examples.antt =====
-- Powers over the rationals, with `mpz_pow_ui` as the repeated product.
use csympy.Prelude.{ℕ, zero, suc, ◌≡◌, refl, arith, ap}
use csympy.Prelude.Int.{ℤ, pos, negsuc, neg_part, ◌*ℤ◌}
use csympy.Gmp.Fractions.Rationals.{ℚ, rationals}
use csympy.Number.{Number, integer, ok}
use csympy.Number.Power.{MpzPow, powint}
use csympy.Number.Power.Squaring.{numpow}
use csympy.Number.Power.Laws.{powint_negative}
use csympy.Number.Value.{value, times}

abbrev repeated : ℤ → ℕ → ℤ
repeated b zero = pos 1
repeated b (suc n) = b *ℤ repeated b n

instance abbrev repeated_product : MpzPow
repeated_product = record { pow_ui = repeated; pow_ui-zero = λ b. refl; pow_ui-suc = λ b n. refl }

powint_negative_example :
    (x : Number ℚ) × (powint (negsuc 2) (negsuc 3) ≡ ok x)
    × (times (value x) (value (numpow {Q = ℚ} (integer (negsuc 2)) 4))
        ≡ value {Q = ℚ} (integer (pos 1)))
powint_negative_example =
    powint_negative (negsuc 2) 3 (λ e. absurd (omega (arith, ap neg_part e))) (omega arith)
