-- ===== src/Factoring/Examples.antt =====
-- Factoring with the interfaces filled by functions that run.
use Prim.Native.Nat.{◌∣◌}
use native.Mathlib.Nat.{dvd_refl, dvd-zero, dvd-mod_iff, mod-lt}
use csympy.Prelude.{
  ℕ, zero, suc, ◌%◌, ◌^◌, ◌≡◌, ◌<◌, ◌≤◌, ◌⊎◌, refl, inl, inr, arith, ◌==◌, ==_iff, Bool-cases, none,
  some, List, [], ◌∷◌, if◌then◌else◌,
}
use csympy.Prelude.Int.{pos, negsuc}
use csympy.NumberClass.{ok}
use csympy.Primality.{IsPrime}
use csympy.NumberList.{All}
use csympy.Factoring.{
  PrimeSource, MpzGcd, MpzPowm, factor_trial_division, prime_factors, prime_factor_multiplicities,
  totient, factor_pollard_rho_method, factor_pollard_pm1_method, power_upto, pollard_rho, rho_loop,
  pollard_pm1, pm1_loop,
}
use csympy.Gmp.Root.{root, counted_root}
use csympy.Sieve.{iterate, next_prime}
use csympy.Sieve.Source.{sieve_source, sieve_primes}
use csympy.Vector.{at}
use csympy.Factoring.Trial.{factor_trial_division-IsPrime}
use csympy.Factoring.Complete.{product, prime_factors-product}
use csympy.Factoring.Multiplicities.{IsFactorization, prime_factor_multiplicities-IsFactorization}
use csympy.Factoring.Totient.{euler, totient-euler}
use csympy.Factoring.Pollard.{
  IsProper, factor_pollard_rho_method-IsProper, factor_pollard_pm1_method-IsProper,
  power_upto-IsLast,
}

-- Euclid's algorithm, with the second number as fuel.
pub euclid : ℕ → ℕ → ℕ → ℕ
euclid zero a b = a
euclid (suc fuel) a b = let rest = euclid fuel b (a % b) in if b == 0 then a else rest

pub euclid-dvd : (fuel a b : ℕ) → b ≤ fuel → (euclid fuel a b ∣ a) × (euclid fuel a b ∣ b)
unfolding euclid
euclid-dvd zero a b h = (dvd_refl a, rw (let e : b ≡ 0 = omega (arith, h) in e) (dvd-zero a))
euclid-dvd (suc fuel) a b h = elim (Bool-cases (b == 0)) [
  | inl t ↦ rw t (dvd_refl a, rw (let e : b ≡ 0 = (==_iff _ _).0 t in e) (dvd-zero a))
  | inr t ↦
      let l : a % b < b = mod-lt a (ground (arith, t)) in
      let (x, y) = euclid-dvd fuel b (a % b) (omega (arith, l, h)) in
      rw t ((dvd-mod_iff _ x).0 y, x)
]

instance abbrev pub euclid_gcd : MpzGcd
euclid_gcd = record { gcd = λ a b. euclid b a b; gcd-dvd = λ a b. euclid-dvd b a b (omega arith) }

instance abbrev pub power_mod : MpzPowm
power_mod = record { powm = λ b e n. b ^ e % n; powm-lt = λ b e n h. mod-lt (b ^ e) h }

instance abbrev search : PrimeSource
search = sieve_source

root_of_twelve : root 12 ≡ 3
unfolding root
root_of_twelve = refl

twelve_fits : root 12 ≤ 2 ^ 20
twelve_fits = omega (arith, root_of_twelve)

factor_trial_division-IsPrime_example :
    ((p : ℕ) × (factor_trial_division 12 ≡ ok (some p))
      × IsPrime p
      × (p ∣ 12)
      × ((q : ℕ) → IsPrime q → q ∣ 12 → p ≤ q))
    ⊎ ((factor_trial_division 12 ≡ ok none) × IsPrime 12)
factor_trial_division-IsPrime_example = factor_trial_division-IsPrime 12 (omega arith) twelve_fits

prime_factors-product_example :
    (xs : List ℕ) × (prime_factors (negsuc 11) ≡ ok xs) × (product xs ≡ 12) × All IsPrime xs
prime_factors-product_example = prime_factors-product (negsuc 11) (omega arith) twelve_fits

prime_factor_multiplicities-IsFactorization_example :
    (m : List (ℕ × ℕ)) × (prime_factor_multiplicities (pos 12) ≡ ok m) × IsFactorization 12 m
prime_factor_multiplicities-IsFactorization_example =
    prime_factor_multiplicities-IsFactorization (pos 12) (omega arith) twelve_fits

totient-euler_example :
    (m : List (ℕ × ℕ)) × IsFactorization 12 m × (totient (pos 12) ≡ ok (euler m))
totient-euler_example = totient-euler (pos 12) (omega arith) twelve_fits

abbrev draws : List (ℕ × ℕ)
draws = (1, 1) ∷ []

abbrev starts : List ℕ
starts = 0 ∷ []

power_upto-IsLast_example :
    (k : ℕ) × (power_upto 10 10 2 1 ≡ 2 ^ k) × (2 ^ k ≤ 10) × (10 < 2 ^ suc k)
power_upto-IsLast_example = power_upto-IsLast 10 2 (omega arith) (omega arith)

rho_finds : factor_pollard_rho_method draws 35 ≡ ok (some 7)
unfolding factor_pollard_rho_method pollard_rho rho_loop euclid
rho_finds = refl

factor_pollard_rho_method-IsProper_example : IsProper 7 35
factor_pollard_rho_method-IsProper_example = factor_pollard_rho_method-IsProper draws 35 7 rho_finds

pm1_finds : factor_pollard_pm1_method starts 15 3 ≡ ok (some 3)
unfolding factor_pollard_pm1_method pollard_pm1 pm1_loop power_upto euclid sieve_primes iterate
    next_prime at
pm1_finds = refl

factor_pollard_pm1_method-IsProper_example : IsProper 3 15
factor_pollard_pm1_method-IsProper_example =
    factor_pollard_pm1_method-IsProper starts 15 3 3 pm1_finds
