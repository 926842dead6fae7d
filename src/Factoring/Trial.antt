-- ===== src/Factoring/Trial.antt =====
-- Trial division finds the least prime divisor, or shows that the number is prime.
use Prim.Native.Nat.{◌∣◌}
use csympy.Prelude.{
  ℕ, ◌%◌, ◌^◌, ◌≡◌, ◌<◌, ◌≤◌, ◌⊎◌, refl, ap, inl, inr, arith, lt→ltb, ◌==◌, Bool-cases, none, some,
  List, [], ◌∷◌,
}
use csympy.NumberClass.{ok}
use csympy.Primality.{IsPrime, no-IsPrime_divisor, remainder, no_remainder}
use csympy.NumberList.{In, Ascending, All-In}
use csympy.Factoring.{PrimeSource, first_divisor, factor_trial_division}
use csympy.Gmp.{MpzRoot}

first_divisor-cases :
    (ps : List ℕ) (n : ℕ)
    → Ascending ps
    → ((p : ℕ) × (first_divisor ps n ≡ some p)
        × In p ps
        × (p ∣ n)
        × ((q : ℕ) → In q ps → q ∣ n → p ≤ q))
      ⊎ ((first_divisor ps n ≡ none) × ((q : ℕ) → In q ps → ¬ (q ∣ n)))
unfolding first_divisor
first_divisor-cases [] n a = inr (refl, λ q h. absurd h)
first_divisor-cases (p ∷ ps) n a = elim (Bool-cases (n % p == 0)) [
  | inl h ↦ inl (p, rw h, inl refl, remainder p n h, least)
  | inr h ↦ elim (first_divisor-cases ps n a.1) [
    | inl (q, e, m, d, l) ↦ inl (
      q,
      rw h e,
      inr m,
      d,
      λ t i k. elim i [ inl u ↦ absurd (no_remainder p n h (rw u at k)) | inr u ↦ l t u k ],
    )
    | inr (e, f) ↦
        inr (rw h e, λ t i k. elim i [ inl u ↦ no_remainder p n h (rw u at k) | inr u ↦ f t u k ])
  ]
]
  where
    least : (q : ℕ) → In q (p ∷ ps) → q ∣ n → p ≤ q
    least q (inl e) k = omega (arith, e)
    least q (inr i) k = let l : p < q = All-In _ q ps a.0 i in omega (arith, l)

module _ ⦃s : PrimeSource⦄ ⦃r : MpzRoot⦄ where
  -- Trial division of a number above 1, whose square root is at most 2^20, returns its least prime
  -- divisor, or nothing, and then the number is prime.
  pub factor_trial_division-IsPrime :
      (n : ℕ)
      → 1 < n
      → r.sqrt n ≤ 2 ^ 20
      → ((p : ℕ) × (factor_trial_division n ≡ ok (some p))
          × IsPrime p
          × (p ∣ n)
          × ((q : ℕ) → IsPrime q → q ∣ n → p ≤ q))
        ⊎ ((factor_trial_division n ≡ ok none) × IsPrime n)
  unfolding factor_trial_division
  factor_trial_division-IsPrime n l h =
      elim (first_divisor-cases (s.primes_upto (r.sqrt n)) n
        (s.primes_upto-Ascending (r.sqrt n) h)) [
          | inl (p, e, i, d, least) ↦
              let (a, b) =
                All-In _ p (s.primes_upto (r.sqrt n)) (s.primes_upto-IsPrime (r.sqrt n) h) i in
              inl (
                p,
                rw (lt→ltb _ _ (let c : r.sqrt n < 2 ^ 32 = omega (arith, h) in c)) (ap ok e),
                a,
                d,
                λ q u k. elim (let c : (q ≤ r.sqrt n) ⊎ (r.sqrt n < q) = ground arith in c) [
                  | inl c ↦ least q (s.primes_upto-complete _ q h u c) k
                  | inr c ↦ omega (arith, b, c)
                ],
              )
          | inr (e, f) ↦ inr (
            rw (lt→ltb _ _ (let c : r.sqrt n < 2 ^ 32 = omega (arith, h) in c)) (ap ok e),
            no-IsPrime_divisor n (r.sqrt n) l (r.sqrt-lt n)
                (λ p a b. f p (s.primes_upto-complete _ p h a b)),
          )
        ]
