-- ===== src/Sieve.antt =====
-- src/ntheory.cpp: the class Sieve, without the library primesieve. The table of primes is the state
-- that all calls share; the sieve size, in bits, is an argument. `unsigned` has 32 bits, and
-- `std::sqrt` is the function `sqrt` of MpzRoot.
pub mod Multiples
pub mod Marks
pub mod Segment
pub mod Table
pub mod Flags
pub mod Extend
pub mod Generate
pub mod Next
pub mod Iterator
pub mod Source
pub mod Examples
use csympy.Prelude.{
  ℕ, zero, suc, ◌+◌, ◌-◌, ◌*◌, ◌/◌, ◌%◌, ◌^◌, Bool, true, false, ◌&&◌, List, [], ◌∷◌, ◌++◌, length,
  ltb, leb, ◌==◌, if◌then◌else◌,
}
use csympy.Gmp.{MpzRoot}
use csympy.Vector.{at, assign, for_each, repeat}

-- The numbers that `_primes` has at the start.
abbrev pub first_primes : List ℕ
first_primes = 2 ∷ 3 ∷ 5 ∷ 7 ∷ 11 ∷ 13 ∷ 17 ∷ 19 ∷ 23 ∷ 29 ∷ []

-- `_primes.erase(_primes.begin() + 10, _primes.end())`
unfoldable pub first_of : ℕ → List ℕ → List ℕ
first_of zero v = []
first_of (suc n) [] = []
first_of (suc n) (p ∷ v) = p ∷ first_of n v

unfoldable pub clear : List ℕ → List ℕ
clear primes = first_of 10 primes

-- `_clear = clear`
unfoldable pub set_clear : Bool → Bool → Bool
set_clear before clears = clears

-- `set_sieve_size` takes the size in kilobytes.
unfoldable pub set_sieve_size : ℕ → ℕ
set_sieve_size size = size * 1024 * 8 % 2 ^ 32

-- The end of `generate_primes` and of an iterator's life.
unfoldable pub clear_if : Bool → List ℕ → List ℕ
clear_if clears primes = if clears then clear primes else primes

-- `_primes.back()`
abbrev pub back : List ℕ → ℕ
back primes = at 0 primes (length primes - 1)

-- `is_prime[std::slice(first, count, stride)] = false`
unfoldable pub mark : ℕ → ℕ → ℕ → List Bool → List Bool
mark first count stride flags = for_each count (λ k v. assign v (first + k * stride) false) flags

-- The first odd multiple of `n` that is above `start`.
unfoldable pub first_multiple : ℕ → ℕ → ℕ
first_multiple start n =
    let multiple = (start / n + 1) * n % 2 ^ 32 in
    if multiple % 2 == 0 then (multiple + n) % 2 ^ 32 else multiple

-- The body of the loop over the primes: the odd multiples up to `finish` are not prime.
unfoldable pub mark_multiples : ℕ → ℕ → ℕ → List Bool → List Bool
mark_multiples start finish n flags =
    let multiple = first_multiple start n in
    if ltb finish multiple
    then flags
    else mark ((multiple + 2 ^ 32 - start) % 2 ^ 32 / 2)
        (1 + (finish - multiple) / (2 * n % 2 ^ 32)) n flags

-- The loop over the primes from the second on, while the square of the prime is in the segment.
unfoldable pub mark_all : ℕ → ℕ → List ℕ → List Bool → List Bool
mark_all start finish [] flags = flags
mark_all start finish (n ∷ primes) flags =
    let rest = mark_all start finish primes (mark_multiples start finish n flags) in
    if leb (n * n % 2 ^ 32) finish then rest else flags

-- `for (n = ...; n <= finish; n += 2) if (is_prime[(n - start) / 2]) _primes.push_back(n)`: the
-- numbers that are pushed, over the rounds that the loop makes.
unfoldable pub pushed : ℕ → ℕ → ℕ → List Bool → List ℕ
pushed zero n start flags = []
pushed (suc rounds) n start flags =
    let rest = pushed rounds (n + 2) start flags in
    if at false flags ((n - start) / 2) then n ∷ rest else rest

-- The primes from the second on.
unfoldable pub odd_primes : List ℕ → List ℕ
odd_primes [] = []
odd_primes (p ∷ primes) = primes

-- One segment.
unfoldable pub sieve_segment : ℕ → ℕ → ℕ → List ℕ → List ℕ
sieve_segment segment start limit primes =
    let past = (start + segment * 2 + 1) % 2 ^ 32 in
    let finish = if ltb limit past then limit else past in
    let flags = mark_all start finish (odd_primes primes) (repeat segment true) in
    primes ++ pushed ((finish - start + 1) / 2) (start + 1) start flags

-- `for (; start <= limit; start += 2 * segment)`, on fuel.
unfoldable pub segments : ℕ → ℕ → ℕ → ℕ → List ℕ → List ℕ
segments zero segment start limit primes = primes
segments (suc fuel) segment start limit primes = elim (leb start limit) [
  | true ↦
      segments fuel segment ((start + 2 * segment) % 2 ^ 32) limit
        (sieve_segment segment start limit primes)
  | false ↦ primes
]

-- `std::upper_bound` and `std::copy`: the numbers up to the limit.
unfoldable pub up_to : ℕ → List ℕ → List ℕ
up_to limit [] = []
up_to limit (p ∷ primes) = let rest = up_to limit primes in if leb p limit then p ∷ rest else []

module _ ⦃r : MpzRoot⦄ where
  -- `_extend`, on fuel: it calls itself for the square root.
  unfoldable pub extend : ℕ → ℕ → ℕ → List ℕ → List ℕ
  extend zero segment limit primes = primes
  extend (suc fuel) segment limit primes =
      let start = (back primes + 1) % 2 ^ 32 in
      let sqrt_limit = r.sqrt limit in
      elim (leb limit start) [
        | true ↦ primes
        | false ↦ elim (leb start sqrt_limit) [
          | true ↦
              let longer = extend fuel segment sqrt_limit primes in
              segments (suc limit) segment ((back longer + 1) % 2 ^ 32) limit longer
          | false ↦ segments (suc limit) segment start limit primes
        ]
      ]

  -- `generate_primes`: its result and the table, which is cleared if `_clear` is set.
  unfoldable pub generate_primes : Bool → ℕ → ℕ → List ℕ → List ℕ × List ℕ
  generate_primes clears segment limit primes =
      let longer = extend limit segment limit primes in (up_to limit longer, clear_if clears longer)

  -- What `next_prime` extends the table to.
  unfoldable pub extend_to : ℕ → List ℕ → ℕ → ℕ
  extend_to limit primes index =
      let twice = at 0 primes (index - 1) * 2 % 2 ^ 32 in
      if ltb 0 limit && ltb limit twice then limit else twice

  -- `next_prime`, with its result, the table and `_index`.
  unfoldable pub next_prime : ℕ → ℕ → List ℕ → ℕ → ℕ × (List ℕ × ℕ)
  next_prime segment limit primes index = elim (leb (length primes) index) [
    | true ↦
        let bound = extend_to limit primes index in
        let longer = extend bound segment bound primes in
        elim (leb (length longer) index) [
          | true ↦ ((limit + 1) % 2 ^ 32, (longer, index))
          | false ↦ (at 0 longer index, (longer, index + 1))
        ]
    | false ↦ (at 0 primes index, (primes, index + 1))
  ]

  -- `while ((p = pi.next_prime()) <= limit)`: the numbers that the loop goes over, on fuel.
  unfoldable pub iterate : ℕ → ℕ → ℕ → List ℕ → ℕ → List ℕ
  iterate zero segment limit primes index = []
  iterate (suc fuel) segment limit primes index =
      let (p, (longer, next)) = next_prime segment limit primes index in
      elim (leb p limit) [ true ↦ p ∷ iterate fuel segment limit longer next | false ↦ [] ]
