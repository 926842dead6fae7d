-- ===== src/Factoring.antt =====
-- src/ntheory.cpp: trial division, Pollard's methods, and the prime factors of a number. An
-- argument `mpz_class` that the code takes the square root of is a natural number; the absolute
-- value of an integer is taken where the code takes it.
pub mod Trial
pub mod Complete
pub mod Multiplicities
pub mod Totient
pub mod Pollard
pub mod Examples
use Prim.Native.Nat.{◌∣◌}
use csympy.Prelude.{
  ℕ, zero, suc, ◌+◌, ◌-◌, ◌*◌, ◌/◌, ◌%◌, ◌^◌, ◌≡◌, ◌<◌, ◌≤◌, Bool, true, false, ◌⊎◌, Option, none,
  some, List, [], ◌∷◌, ◌++◌, ltb, leb, ◌==◌, if◌then◌else◌,
}
use csympy.Prelude.Int.{ℤ, pos, nat_abs}
use csympy.NumberClass.{Result, ok, err, too_large, too_small}
use csympy.Gmp.{MpzRoot}
use csympy.NumberList.{In, All, Ascending}
use csympy.Primality.{IsPrime}

-- The numbers that `Sieve::iterator(limit)` returns before the first one above `limit`: the loops
-- `while ((p = pi.next_prime()) <= limit)` go over them. Up to 2^20 the sieve of the default size
-- needs one segment for each extension; for more segments it reads past its array.
pub record PrimeSource : Type 0 where
  pub primes_upto : ℕ → List ℕ
  pub primes_upto-IsPrime :
      (limit : ℕ) → limit ≤ 2 ^ 20 → All (λ p. IsPrime p × (p ≤ limit)) (primes_upto limit)
  pub primes_upto-complete :
      (limit p : ℕ) → limit ≤ 2 ^ 20 → IsPrime p → p ≤ limit → In p (primes_upto limit)
  pub primes_upto-Ascending : (limit : ℕ) → limit ≤ 2 ^ 20 → Ascending (primes_upto limit)

-- Functions of GMP on natural numbers.
pub record MpzGcd : Type 0 where
  pub gcd : ℕ → ℕ → ℕ
  pub gcd-dvd : (a b : ℕ) → (gcd a b ∣ a) × (gcd a b ∣ b)

-- The loop of `_factor_trial_division_sieve`.
unfoldable pub first_divisor : List ℕ → ℕ → Option ℕ
first_divisor [] n = none
first_divisor (p ∷ ps) n = if n % p == 0 then some p else first_divisor ps n

-- `while (_n % p == 0) { prime_list.push_back(p); _n = _n / p; }`; `_n` itself bounds the rounds.
unfoldable pub divide_out : ℕ → ℕ → ℕ → List ℕ × ℕ
divide_out zero p n = ([], n)
divide_out (suc fuel) p n =
    let rest = divide_out fuel p (n / p) in if n % p == 0 then (p ∷ rest.0, rest.1) else ([], n)

-- The loop of `prime_factors` over the primes.
unfoldable pub factors_loop : List ℕ → ℕ → List ℕ × ℕ
factors_loop [] n = ([], n)
factors_loop (p ∷ ps) n =
    let out = divide_out n p n in
    let rest = factors_loop ps out.1 in if out.1 == 1 then out else (out.0 ++ rest.0, rest.1)

-- The same with a count: `count++`.
unfoldable pub count_out : ℕ → ℕ → ℕ → ℕ × ℕ
count_out zero p n = (0, n)
count_out (suc fuel) p n =
    let rest = count_out fuel p (n / p) in if n % p == 0 then (suc rest.0, rest.1) else (0, n)

-- The loop of `prime_factor_multiplicities`. The primes ascend, so that `insert` appends.
unfoldable pub multiplicities_loop : List ℕ → ℕ → List (ℕ × ℕ) × ℕ
multiplicities_loop [] n = ([], n)
multiplicities_loop (p ∷ ps) n =
    let out = count_out n p n in
    let rest = multiplicities_loop ps out.1 in
    if ltb 0 out.0
    then if out.1 == 1 then ((p, out.0) ∷ [], out.1) else ((p, out.0) ∷ rest.0, rest.1)
    else rest

-- The loop of `totient`, over the entries of the map.
unfoldable pub totient_loop : List (ℕ × ℕ) → ℕ → ℕ
totient_loop [] phi = phi
totient_loop ((p, c) ∷ m) phi = totient_loop m (phi / p * (p - 1))

abbrev totient_of : ℕ → Result (List (ℕ × ℕ)) → Result ℕ
totient_of phi (ok m) = ok (totient_loop m phi)
totient_of phi (err e) = err e

module _ ⦃s : PrimeSource⦄ ⦃r : MpzRoot⦄ where
  -- `none` is the return value 0.
  unfoldable pub factor_trial_division : ℕ → Result (Option ℕ)
  factor_trial_division n =
      let limit = r.sqrt n in
      if ltb limit (2 ^ 32) then ok (first_divisor (s.primes_upto limit) n) else err too_large

  unfoldable pub prime_factors : ℤ → Result (List ℕ)
  prime_factors i =
      let n = nat_abs i in
      let out = factors_loop (s.primes_upto (r.sqrt n)) n in
      if n == 0
      then ok []
      else if ltb (r.sqrt n) (2 ^ 32)
      then ok (if out.1 == 1 then out.0 else out.0 ++ out.1 ∷ [])
      else err too_large

  unfoldable pub prime_factor_multiplicities : ℤ → Result (List (ℕ × ℕ))
  prime_factor_multiplicities i =
      let n = nat_abs i in
      let out = multiplicities_loop (s.primes_upto (r.sqrt n)) n in
      if n == 0
      then ok []
      else if ltb (r.sqrt n) (2 ^ 32)
      then ok (if out.1 == 1 then out.0 else out.0 ++ (out.1, 1) ∷ [])
      else err too_large

  unfoldable pub totient : ℤ → Result ℕ
  totient n =
      if nat_abs n == 0 then ok 1 else totient_of (nat_abs n) (prime_factor_multiplicities n)

-- Pollard's methods.
-- `_factor_pollard_rho_method`: `steps` rounds; `none` is the return value 0. The absolute value of
-- `u - v` is taken, as `mpz_gcd` does.
module _ ⦃g : MpzGcd⦄ where
  unfoldable pub rho_loop : ℕ → ℕ → ℕ → ℕ → ℕ → Option ℕ
  rho_loop zero n a u v = none
  rho_loop (suc steps) n a u v =
      let u2 = (u * u + a) % n in
      let v1 = (v * v + a) % n in
      let v2 = (v1 * v1 + a) % n in
      let d = g.gcd (u2 - v2 + (v2 - u2)) n in
      let rest = rho_loop steps n a u2 v2 in
      if d == n then none else if d == 1 then rest else some d

  unfoldable pub pollard_rho : ℕ → ℕ → ℕ → ℕ → Result (Option ℕ)
  pollard_rho n a s steps = if ltb n 5 then err too_small else ok (rho_loop steps n a s s)

-- `mpz_powm`, with a result below the modulus.
pub record MpzPowm : Type 0 where
  pub powm : ℕ → ℕ → ℕ → ℕ
  pub powm-lt : (b e n : ℕ) → 0 < n → powm b e n < n

-- `while (m <= B / p) m = m * p`; the bound is above the number of rounds.
unfoldable pub power_upto : ℕ → ℕ → ℕ → ℕ → ℕ
power_upto zero b p m = m
power_upto (suc fuel) b p m =
    let rest = power_upto fuel b p (m * p) in if leb m (b / p) then rest else m

module _ ⦃g : MpzGcd⦄ ⦃w : MpzPowm⦄ ⦃s : PrimeSource⦄ where
  unfoldable pub pm1_loop : List ℕ → ℕ → ℕ → ℕ → ℕ
  pm1_loop [] n b c = c
  pm1_loop (p ∷ ps) n b c = pm1_loop ps n b (w.powm c (power_upto b b p 1) n)

  -- `_factor_pollard_pm1_method`; `_c - 1` is -1 for `_c` zero, and its absolute value is 1.
  unfoldable pub pollard_pm1 : ℕ → ℕ → ℕ → Result (Option ℕ)
  pollard_pm1 n c b =
      let last = pm1_loop (s.primes_upto b) n b c in
      let d = g.gcd (last - 1 + (1 - last)) n in
      if ltb n 4
      then err too_small
      else if ltb b 3
      then err too_small
      else if d == 1
      then ok none
      else if d == n
      then ok none
      else ok (some d)

-- The retries: `urandomm` gives the values of each retry, and the first factor ends the loop.
abbrev pub or_next : Result (Option ℕ) → Result (Option ℕ) → Result (Option ℕ)
or_next (ok none) later = later
or_next found later = found

-- `factor_pollard_rho_method`, over the draws of the random state: below n - 1 and below n - 4.
module _ ⦃g : MpzGcd⦄ where
  unfoldable pub factor_pollard_rho_method : List (ℕ × ℕ) → ℕ → Result (Option ℕ)
  factor_pollard_rho_method [] n = ok none
  factor_pollard_rho_method ((a, s) ∷ draws) n =
      or_next (pollard_rho n a (s + 1) 10000) (factor_pollard_rho_method draws n)

module _ ⦃g : MpzGcd⦄ ⦃w : MpzPowm⦄ ⦃s : PrimeSource⦄ where
  unfoldable pub factor_pollard_pm1_method : List ℕ → ℕ → ℕ → Result (Option ℕ)
  factor_pollard_pm1_method [] n b = ok none
  factor_pollard_pm1_method (c ∷ draws) n b =
      or_next (pollard_pm1 n (c + 2) b) (factor_pollard_pm1_method draws n b)
