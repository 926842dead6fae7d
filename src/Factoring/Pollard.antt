-- ===== src/Factoring/Pollard.antt =====
-- A factor that Pollard's methods return is a proper divisor.
use Prim.Native.Nat.{◌∣◌}
use native.Mathlib.Nat.{
  le_of_dvd, pos_of_dvd_of_pos, le-div_iff_mul-le, div-lt_iff_lt-mul, pow-suc, pow-zero,
  mul-le-mul_left,
}
use csympy.Prelude.{
  ℕ, zero, suc, ◌+◌, ◌-◌, ◌*◌, ◌/◌, ◌%◌, ◌^◌, ◌≡◌, ◌<◌, ◌≤◌, ◌⊎◌, sym, ap, ◌∙◌, inl, inr, arith,
  false, ltb, leb, leb→le, ◌==◌, Bool-cases, Option, none, some, List, [], ◌∷◌,
}
use csympy.NumberClass.{Result, ok, err, too_small}
use csympy.Factoring.{
  MpzGcd, MpzPowm, PrimeSource, rho_loop, pollard_rho, pm1_loop, pollard_pm1, power_upto,
  factor_pollard_rho_method, factor_pollard_pm1_method, or_next,
}

abbrev pub IsProper : ℕ → ℕ → Type 0
IsProper d n = (d ∣ n) × (1 < d) × (d < n)

-- A divisor that is neither 1 nor the number.
proper : (d n : ℕ) → d ∣ n → 0 < n → (d == n) ≡ false → (d == 1) ≡ false → IsProper d n
proper d n h l a b =
    let p : 0 < d = pos_of_dvd_of_pos h l in
    let q : d ≤ n = le_of_dvd l h in (h, ground (arith, p, b), ground (arith, q, a))

some_equal : {a b : ℕ} → some a ≡ some b → a ≡ b
some_equal e = cc

ok_equal : {a b : ℕ} → ◌≡◌ {A = Result (Option ℕ)} (ok (some a)) (ok (some b)) → a ≡ b
ok_equal e = cc

ok_inside : {a b : Option ℕ} → ◌≡◌ {A = Result (Option ℕ)} (ok a) (ok b) → a ≡ b
ok_inside e = cc

-- The factor of a loop of retries comes from the first or from a later one.
first_or_later :
    (x y : Result (Option ℕ)) (d : ℕ)
    → or_next x y ≡ ok (some d)
    → (x ≡ ok (some d)) ⊎ (y ≡ ok (some d))
first_or_later (ok none) y d h = inr h
first_or_later (ok (some e)) y d h = inl h
first_or_later (err e) y d h = inl h

module _ ⦃g : MpzGcd⦄ where
  rho_loop-IsProper : (steps n a u v d : ℕ) → 0 < n → rho_loop steps n a u v ≡ some d → IsProper d n
  unfolding rho_loop
  rho_loop-IsProper zero n a u v d l h = absurd (cc h)
  rho_loop-IsProper (suc steps) n a u v d l h = elim (Bool-cases (found == n)) [
    | inl t ↦ let e : rho_loop (suc steps) n a u v ≡ none = rw t in absurd (cc (e, h))
    | inr t ↦ elim (Bool-cases (found == 1)) [
      | inl q ↦
          let e : rho_loop (suc steps) n a u v ≡ rho_loop steps n a u2 v2 = rw t (rw q) in
          rho_loop-IsProper steps n a u2 v2 d l (sym e ∙ h)
      | inr q ↦
          let e : rho_loop (suc steps) n a u v ≡ some found = rw t (rw q) in
          rw (some_equal (sym e ∙ h)) at (proper found n (g.gcd-dvd _ n).1 l t q)
    ]
  ]
    where
      u2 : ℕ
      u2 = (u * u + a) % n

      v2 : ℕ
      v2 = ((v * v + a) % n * ((v * v + a) % n) + a) % n

      found : ℕ
      found = g.gcd (u2 - v2 + (v2 - u2)) n

  pollard_rho-IsProper : (n a s steps d : ℕ) → pollard_rho n a s steps ≡ ok (some d) → IsProper d n
  unfolding pollard_rho
  pollard_rho-IsProper n a s steps d h = elim (Bool-cases (ltb n 5)) [
    | inl t ↦ let e : pollard_rho n a s steps ≡ err too_small = rw t in absurd (cc (e, h))
    | inr t ↦
        let e : pollard_rho n a s steps ≡ ok (rho_loop steps n a s s) = rw t in
        rho_loop-IsProper steps n a s s d (ground (arith, t)) (ok_inside (sym e ∙ h))
  ]

  -- A factor found by the rho method divides the number, and is neither 1 nor the number.
  pub factor_pollard_rho_method-IsProper :
      (draws : List (ℕ × ℕ)) (n d : ℕ)
      → factor_pollard_rho_method draws n ≡ ok (some d)
      → IsProper d n
  unfolding factor_pollard_rho_method
  factor_pollard_rho_method-IsProper [] n d h = absurd (cc h)
  factor_pollard_rho_method-IsProper ((a, s) ∷ draws) n d h =
      elim (first_or_later (pollard_rho n a (s + 1) 10000) _ d h) [
        | inl e ↦ pollard_rho-IsProper n a (s + 1) 10000 d e
        | inr e ↦ factor_pollard_rho_method-IsProper draws n d e
      ]

module _ ⦃g : MpzGcd⦄ ⦃w : MpzPowm⦄ ⦃s : PrimeSource⦄ where
  pollard_pm1-IsProper : (n c b d : ℕ) → pollard_pm1 n c b ≡ ok (some d) → IsProper d n
  unfolding pollard_pm1
  pollard_pm1-IsProper n c b d h = elim (Bool-cases (ltb n 4)) [
    | inl t ↦ let e : pollard_pm1 n c b ≡ err too_small = rw t in absurd (cc (e, h))
    | inr t ↦ elim (Bool-cases (ltb b 3)) [
      | inl q ↦ let e : pollard_pm1 n c b ≡ err too_small = rw t (rw q) in absurd (cc (e, h))
      | inr q ↦ elim (Bool-cases (found == 1)) [
        | inl a ↦ let e : pollard_pm1 n c b ≡ ok none = rw t (rw q (rw a)) in absurd (cc (e, h))
        | inr a ↦ elim (Bool-cases (found == n)) [
          | inl f ↦
              let e : pollard_pm1 n c b ≡ ok none = rw t (rw q (rw a (rw f))) in absurd (cc (e, h))
          | inr f ↦
              let e : pollard_pm1 n c b ≡ ok (some found) = rw t (rw q (rw a (rw f))) in
              rw (ok_equal (sym e ∙ h)) at
                (proper found n (g.gcd-dvd _ n).1 (ground (arith, t)) f a)
        ]
      ]
    ]
  ]
    where
      last : ℕ
      last = pm1_loop (s.primes_upto b) n b c

      found : ℕ
      found = g.gcd (last - 1 + (1 - last)) n

  -- A factor found by the p - 1 method divides the number, and is neither 1 nor the number.
  pub factor_pollard_pm1_method-IsProper :
      (draws : List ℕ) (n b d : ℕ)
      → factor_pollard_pm1_method draws n b ≡ ok (some d)
      → IsProper d n
  unfolding factor_pollard_pm1_method
  factor_pollard_pm1_method-IsProper [] n b d h = absurd (cc h)
  factor_pollard_pm1_method-IsProper (c ∷ draws) n b d h =
      elim (first_or_later (pollard_pm1 n (c + 2) b) _ d h) [
        | inl e ↦ pollard_pm1-IsProper n (c + 2) b d e
        | inr e ↦ factor_pollard_pm1_method-IsProper draws n b d e
      ]

power_upto-stops :
    (fuel b p m k : ℕ)
    → 1 < p
    → m ≡ p ^ k
    → m ≤ b
    → b < m + fuel
    → 0 < m
    → (j : ℕ) × (power_upto fuel b p m ≡ p ^ j) × (p ^ j ≤ b) × (b < p ^ suc j)
unfolding power_upto
power_upto-stops zero b p m k h e l f o = absurd (omega (arith, l, f))
power_upto-stops (suc fuel) b p m k h e l f o = elim (Bool-cases (leb m (b / p))) [
  | inl t ↦
      let a : m * p ≤ b = (le-div_iff_mul-le (omega (arith, h))).0 (leb→le _ _ t) in
      let c : m * 2 ≤ m * p = mul-le-mul_left m h in
      let (j, x, y, z) =
        power_upto-stops fuel b p (m * p) (suc k) h (ap (λ u. u * p) e ∙ sym (pow-suc p k)) a
          (omega (arith, c, f, o)) (omega (arith, c, o)) in
      (j, rw t x, y, z)
  | inr t ↦
      let a : b / p < m = ground (arith, t) in
      let o : 0 < p = omega (arith, h) in
      let c : b < m * p = (div-lt_iff_lt-mul o).0 a in
      (k, rw t e, omega (arith, e, l), omega (arith, c, ap (λ u. u * p) e, pow-suc p k))
]

-- The inner loop of the p - 1 method stops at the last power of the prime that is at most the bound.
pub power_upto-IsLast :
    (b p : ℕ)
    → 1 < p
    → 0 < b
    → (k : ℕ) × (power_upto b b p 1 ≡ p ^ k) × (p ^ k ≤ b) × (b < p ^ suc k)
power_upto-IsLast b p h l =
    power_upto-stops b b p 1 0 h (sym (pow-zero p)) (omega (arith, l)) (omega arith) (omega arith)
