-- ===== src/Sieve/Source.antt =====
-- The iterator of the class Sieve, with the table that the program starts with and the default
-- size, returns the primes that the number theory goes over.
use csympy.Prelude.{ℕ, ◌+◌, ◌*◌, ◌^◌, ◌≤◌, ◌≡◌, List, arith}
use csympy.Factoring.{PrimeSource}
use csympy.Gmp.{MpzRoot}
use csympy.Primality.Search.{searched, searched-IsPrime, searched_complete, searched-Ascending}
use csympy.Sieve.{first_primes, iterate}
use csympy.Sieve.Iterator.{iterate-searched}
use csympy.Sieve.Table.{first_primes-IsTable}

-- `_sieve_size` at the start, in bits.
abbrev pub sieve_size : ℕ
sieve_size = 32 * 1024 * 8

unfoldable pub sieve_primes : ⦃r : MpzRoot⦄ → ℕ → List ℕ
sieve_primes limit = iterate (limit + 2) sieve_size limit first_primes 0

pub sieve_primes-searched :
    ⦃r : MpzRoot⦄ → (limit : ℕ) → limit ≤ 2 ^ 20 → sieve_primes limit ≡ searched limit
unfolding sieve_primes
sieve_primes-searched limit h =
    iterate-searched sieve_size limit h (omega (arith, h)) (omega arith) first_primes
      first_primes-IsTable

abbrev pub sieve_source : ⦃r : MpzRoot⦄ → PrimeSource
sieve_source = record {
  primes_upto = λ limit. sieve_primes limit;
  primes_upto-IsPrime = λ limit h. rw (sieve_primes-searched limit h) (searched-IsPrime limit);
  primes_upto-complete =
      λ limit p h. rw (sieve_primes-searched limit h) (searched_complete limit p);
  primes_upto-Ascending = λ limit h. rw (sieve_primes-searched limit h) (searched-Ascending limit);
}
