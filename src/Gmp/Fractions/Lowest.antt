-- ===== src/Gmp/Fractions/Lowest.antt =====
-- The lowest positive multiplier that makes a fraction an integer: its denominator in lowest terms.
use Prim.Native.Nat.{◌∣◌}
use native.Mathlib.Nat.{
  dvd-mul_left, dvd_of_mul-dvd-mul_right, mul-dvd-mul_right, mod-eq-zero_of_dvd, dvd_of_mod-eq-zero,
  mul_comm,
}
use native.Mathlib.Decide.{dec_lt}
use mathlib.Core.Path.{subst₂}
use csympy.Prelude.{
  ℕ, zero, suc, ◌+◌, ◌*◌, ◌%◌, ◌≡◌, ◌≤◌, ◌<◌, refl, sym, ap, ◌∙◌, arith, Bool, true, false, ◌==◌,
  if◌then◌else◌, Bool-cases, ◌↔◌, ==_iff, inl, inr,
}

-- The least number from `k` on that passes the test, within `fuel` steps.
search_from : ℕ → ℕ → (ℕ → Bool) → ℕ
search_from zero k p = k
search_from (suc fuel) k p = let rest = search_from fuel (suc k) p in if p k then k else rest

unfoldable pub least : ℕ → (ℕ → Bool) → ℕ
unfolding search_from
least bound p = search_from bound 1 p

search_from_passes :
    (fuel k : ℕ) (p : ℕ → Bool) → p (k + fuel) ≡ true → p (search_from fuel k p) ≡ true
unfolding search_from
search_from_passes zero k p h = ap p (omega arith) ∙ h
search_from_passes (suc fuel) k p h = elim (Bool-cases (p k)) [
  | inl e ↦ rw e e
  | inr e ↦ rw e (search_from_passes fuel (suc k) p (ap p (omega arith) ∙ h))
]

search_from_below :
    (fuel k : ℕ) (p : ℕ → Bool) (j : ℕ) → k ≤ j → j < search_from fuel k p → p j ≡ false
unfolding search_from
search_from_below zero k p j h l = absurd (omega arith)
search_from_below (suc fuel) k p j h l = elim (Bool-cases (p k)) [
  | inl e ↦ absurd (omega (arith, rw e at l))
  | inr e ↦ elim (dec_lt k j) [
    | yes h' ↦ search_from_below fuel (suc k) p j h' (rw e at l)
    | no h' ↦ ap p {x = j} {y = k} (omega arith) ∙ e
  ]
]

search_from_le : (fuel k : ℕ) (p : ℕ → Bool) → k ≤ search_from fuel k p
unfolding search_from
search_from_le zero k p = omega arith
search_from_le (suc fuel) k p = ground (arith, search_from_le fuel (suc k) p)

module _ (p q : ℕ → Bool) (same : (d : ℕ) → p d ≡ q d) (m n : ℕ) (hm : p (suc m) ≡ true)
    (hn : q (suc n) ≡ true) where
  -- The bound does not matter, if it passes.
  least_unique : least m p ≡ least n q
  unfolding least
  least_unique =
      let a = search_from_passes m 1 p (ap p {x = 1 + m} {y = suc m} (omega arith) ∙ hm) in
      let b = search_from_passes n 1 q (ap q {x = 1 + n} {y = suc n} (omega arith) ∙ hn) in
      let i = search_from_le m 1 p in
      let j = search_from_le n 1 q in
      elim (dec_lt (search_from m 1 p) (search_from n 1 q)) [
        | yes h ↦ absurd (cc (search_from_below n 1 q _ i h, same (search_from m 1 p), a))
        | no h ↦ elim (dec_lt (search_from n 1 q) (search_from m 1 p)) [
          | yes k ↦ absurd (cc (search_from_below m 1 p _ j k, same (search_from n 1 q), b))
          | no k ↦ omega arith
        ]
      ]

-- Does `d` clear the denominator `suc m` of `n`?
unfoldable pub clears : ℕ → ℕ → ℕ → Bool
clears n m d = n * d % suc m == 0

clears_iff : (n m d : ℕ) → (clears n m d ≡ true) ↔ (suc m ∣ n * d)
unfolding clears
clears_iff n m d = (
  λ h. dvd_of_mod-eq-zero (suc m) ((==_iff _ _).0 h),
  λ h. (==_iff _ _).1 (mod-eq-zero_of_dvd (suc m) h),
)

clears_self : (n m : ℕ) → clears n m (suc m) ≡ true
clears_self n m = (clears_iff n m (suc m)).1 (dvd-mul_left (suc m) n)

clears_transfer : (n m n' m' d : ℕ) → n * suc m' ≡ n' * suc m → suc m ∣ n * d → suc m' ∣ n' * d
clears_transfer n m n' m' d e h =
    let both : suc m' * suc m ∣ n' * d * suc m =
      subst₂ ◌∣◌ (mul_comm (suc m) (suc m')) scaled (mul-dvd-mul_right (suc m) h (suc m')) in
    dvd_of_mul-dvd-mul_right (suc m') (omega arith) both
  where
    scaled : n * d * suc m' ≡ n' * d * suc m
    scaled = omega (arith, ap (λ (t : ℕ). t * d) e)

clears_same : (n m n' m' : ℕ) → n * suc m' ≡ n' * suc m → (d : ℕ) → clears n m d ≡ clears n' m' d
clears_same n m n' m' e d = elim (Bool-cases (clears n m d)) [
  | inl p ↦
      p ∙ sym ((clears_iff n' m' d).1 (clears_transfer n m n' m' d e ((clears_iff n m d).0 p)))
  | inr p ↦ elim (Bool-cases (clears n' m' d)) [
    | inl q ↦ absurd (
        cc (
          p,
          (clears_iff n m d).1 (clears_transfer n' m' n m d (sym e) ((clears_iff n' m' d).0 q)),
        ))
    | inr q ↦ p ∙ sym q
  ]
]

-- The denominator of n / (m + 1) in lowest terms.
unfoldable pub lowest : ℕ → ℕ → ℕ
lowest n m = least m (clears n m)

pub lowest_same : (n m n' m' : ℕ) → n * suc m' ≡ n' * suc m → lowest n m ≡ lowest n' m'
unfolding lowest
lowest_same n m n' m' e =
    least_unique (clears n m) (clears n' m') (clears_same n m n' m' e) m m' (clears_self n m)
      (clears_self n' m')

pub lowest-dvd : (n m : ℕ) → suc m ∣ n * lowest n m
unfolding lowest least
lowest-dvd n m = (clears_iff n m _).0 (
    search_from_passes m 1 (clears n m)
      (ap (clears n m) {x = 1 + m} {y = suc m} (omega arith) ∙ clears_self n m))

pub lowest_pos : (n m : ℕ) → 0 < lowest n m
unfolding lowest least
lowest_pos n m = search_from_le m 1 (clears n m)

pub lowest-zero : (n : ℕ) → lowest n 0 ≡ 1
unfolding lowest least search_from
lowest-zero n = refl
