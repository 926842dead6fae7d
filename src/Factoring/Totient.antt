-- ===== src/Factoring/Totient.antt =====
-- `totient` against the product formula of Euler's function.
use native.Mathlib.Nat.{mul-div_cancel, mul_assoc, one-mul, pow-suc, mul_right_comm}
use csympy.Prelude.{
  ℕ, zero, suc, ◌-◌, ◌*◌, ◌/◌, ◌^◌, ◌≡◌, ◌<◌, ◌≤◌, refl, sym, ap, ◌∙◌, arith, false, ◌==◌, List, [],
  ◌∷◌,
}
use csympy.Prelude.Int.{ℤ, nat_abs}
use csympy.NumberClass.{ok}
use csympy.Primality.{IsPrime}
use csympy.NumberList.{All}
use csympy.Factoring.{PrimeSource, totient_loop, totient}
use csympy.Gmp.{MpzRoot}
use csympy.Factoring.Multiplicities.{
  powers, keys, Positive, IsFactorization, prime_factor_multiplicities-IsFactorization,
}

-- The product of `p ^ (c - 1) * (p - 1)` over the prime powers.
unfoldable pub euler : List (ℕ × ℕ) → ℕ
euler [] = 1
euler ((p, c) ∷ m) = p ^ (c - 1) * (p - 1) * euler m

one_round : (a p c P : ℕ) → 0 < p → a * (p ^ suc c * P) / p * (p - 1) ≡ a * (p ^ c * (p - 1)) * P
one_round a p c P h =
    ap (λ u. u / p * (p - 1)) ordered
    ∙ ap (λ u. u * (p - 1)) (mul-div_cancel (a * (p ^ c * P)) h)
    ∙ regroup
  where
    ordered : a * (p ^ suc c * P) ≡ a * (p ^ c * P) * p
    ordered =
        ap (λ u. a * (u * P)) (pow-suc p c)
        ∙ ap (◌*◌ a) (mul_right_comm (p ^ c) p P)
        ∙ sym (mul_assoc a (p ^ c * P) p)

    regroup : a * (p ^ c * P) * (p - 1) ≡ a * (p ^ c * (p - 1)) * P
    regroup =
        mul_assoc a (p ^ c * P) (p - 1)
        ∙ ap (◌*◌ a) (mul_right_comm (p ^ c) P (p - 1))
        ∙ sym (mul_assoc a (p ^ c * (p - 1)) P)

totient_loop-euler :
    (m : List (ℕ × ℕ)) (a : ℕ)
    → All IsPrime (keys m)
    → Positive m
    → totient_loop m (a * powers m) ≡ a * euler m
unfolding totient_loop powers euler
totient_loop-euler [] a h k = refl
totient_loop-euler ((p, zero) ∷ m) a h k = absurd (omega (arith, k.0))
totient_loop-euler ((p, suc c) ∷ m) a h k =
    ap (totient_loop m) (one_round a p c (powers m) (omega (arith, h.0.0)))
    ∙ totient_loop-euler m (a * (p ^ c * (p - 1))) h.1 k.1
    ∙ mul_assoc a (p ^ c * (p - 1)) (euler m)
    ∙ ap (λ u. a * (p ^ u * (p - 1) * euler m)) (let e : c ≡ suc c - 1 = omega arith in e)

module _ ⦃s : PrimeSource⦄ ⦃r : MpzRoot⦄ where
  -- For a number other than zero whose square root is at most 2^20, `totient` returns the product of
  -- `p ^ (c - 1) * (p - 1)` over its prime powers `p ^ c`.
  pub totient-euler :
      (i : ℤ)
      → 0 < nat_abs i
      → r.sqrt (nat_abs i) ≤ 2 ^ 20
      → (m : List (ℕ × ℕ)) × IsFactorization (nat_abs i) m × (totient i ≡ ok (euler m))
  unfolding totient
  totient-euler i l h =
      let (m, e, f) = prime_factor_multiplicities-IsFactorization i l h in
      let z : (nat_abs i == 0) ≡ false = ground (arith, l) in
      (
        m,
        f,
        rw z (
            rw e (
              ap ok (
                ap (totient_loop m) (sym f.equal ∙ sym (one-mul (powers m)))
                ∙ totient_loop-euler m 1 f.primes f.exponents
                ∙ one-mul (euler m)))),
      )
