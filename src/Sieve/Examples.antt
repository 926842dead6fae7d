-- ===== src/Sieve/Examples.antt =====
-- The sieve on concrete limits.
use csympy.Prelude.{◌+◌, ◌≡◌, refl, arith, true, false, [], ◌∷◌, ◌++◌}
use csympy.Gmp.Root.{counted_root, root}
use csympy.Primality.Search.{searched}
use csympy.Sieve.{
  set_clear, set_sieve_size, first_primes, clear_if, mark, first_multiple, mark_multiples, mark_all,
  pushed, odd_primes, sieve_segment, segments, up_to, extend, generate_primes, extend_to,
  next_prime, iterate,
}
use csympy.Sieve.Extend.{extend-IsExtended}
use csympy.Sieve.Generate.{generate_primes-searched}
use csympy.Sieve.Iterator.{iterate-searched}
use csympy.Sieve.Source.{sieve_size}
use csympy.Sieve.Table.{IsTable, IsExtended, first_primes-IsTable}
use csympy.Vector.{at, assign, for_each, repeat}

-- A segment of 16 flags from 30 on.
up_to_sixty : generate_primes (set_clear true false) 16 60 first_primes ≡ (
  first_primes ++ 31 ∷ 37 ∷ 41 ∷ 43 ∷ 47 ∷ 53 ∷ 59 ∷ [],
  first_primes ++ 31 ∷ 37 ∷ 41 ∷ 43 ∷ 47 ∷ 53 ∷ 59 ∷ [],
)
unfolding generate_primes set_clear clear_if extend segments sieve_segment mark_all mark_multiples
    first_multiple mark pushed odd_primes up_to at assign for_each repeat root
up_to_sixty = refl

-- The default size is that of 32 kilobytes.
default_size : set_sieve_size 32 ≡ sieve_size
unfolding set_sieve_size
default_size = refl

-- The iterator stops at its limit and extends the table on its way.
iterate_to_forty : iterate 42 16 40 first_primes 0 ≡ first_primes ++ 31 ∷ 37 ∷ []
unfolding iterate next_prime extend_to extend segments sieve_segment mark_all mark_multiples
    first_multiple mark pushed odd_primes at assign for_each repeat root
iterate_to_forty = refl

extend-IsExtended_example : IsExtended first_primes 60 (extend 60 16 60 first_primes)
unfolding at
extend-IsExtended_example =
    extend-IsExtended 60 16 60 first_primes first_primes-IsTable (omega arith) (omega arith)
      (omega arith) (omega arith) (omega arith)

generate_primes-searched_example :
    ((generate_primes true 16 60 first_primes).0 ≡ searched 60)
    × IsTable (generate_primes true 16 60 first_primes).1
    × (true ≡ true → (generate_primes true 16 60 first_primes).1 ≡ first_primes)
unfolding at
generate_primes-searched_example =
    generate_primes-searched true 16 60 first_primes first_primes-IsTable (omega arith)
      (omega arith) (omega arith) (omega arith)

iterate-searched_example : iterate (60 + 2) 16 60 first_primes 0 ≡ searched 60
iterate-searched_example =
    iterate-searched 16 60 (omega arith) (omega arith) (omega arith) first_primes
      first_primes-IsTable
