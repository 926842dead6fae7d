-- ===== src/Sieve/Next.antt =====
-- One call of `next_prime`, and one round of a loop over the iterator.
use csympy.Prelude.{
  ℕ, suc, ◌+◌, ◌*◌, ◌%◌, ◌^◌, ◌≡◌, ◌<◌, ◌≤◌, ◌⊎◌, refl, ap, inl, inr, arith, true, false,
  Bool-cases, List, [], ◌∷◌, ◌++◌, length, ltb, leb,
}
use csympy.Gmp.{MpzRoot}
use csympy.Vector.{at}
use csympy.Sieve.{back, extend, extend_to, next_prime, iterate}

-- The numbers that were returned stand before the index, the others from it on.
at-length : (front rest : List ℕ) (p : ℕ) → at 0 (front ++ p ∷ rest) (length front) ≡ p
unfolding at
at-length [] rest p = refl
at-length (x ∷ front) rest p = at-length front rest p

length-more : (front rest : List ℕ) (p : ℕ) → length front < length (front ++ p ∷ rest)
length-more [] rest p = omega arith
length-more (x ∷ front) rest p = let h = length-more front rest p in omega (arith, h)

pub length-last : (front : List ℕ) (p : ℕ) → length (front ++ p ∷ []) ≡ length front + 1
length-last [] p = refl
length-last (x ∷ front) p = let h = length-last front p in omega (arith, h)

module _ ⦃r : MpzRoot⦄ (segment limit : ℕ) where
  pub next_prime_inside :
      (front rest : List ℕ) (p : ℕ)
      → next_prime segment limit (front ++ p ∷ rest) (length front)
        ≡ (p, (front ++ p ∷ rest, length front + 1))
  unfolding next_prime
  next_prime_inside front rest p =
      let e : leb (length (front ++ p ∷ rest)) (length front) ≡ false =
        (let h = length-more front rest p in ground (arith, h)) in
      rw (e, next_prime) (rw (at-length front rest p) refl)

  -- At the end of the table it is extended.
  pub next_prime_more :
      (front added : List ℕ) (p : ℕ)
      → extend
          (extend_to limit front (length front))
          segment
          (extend_to limit front (length front))
          front
        ≡ front ++ p ∷ added
      → next_prime segment limit front (length front) ≡ (p, (front ++ p ∷ added, length front + 1))
  unfolding next_prime
  next_prime_more front added p g =
      let e : leb (length front) (length front) ≡ true = ground arith in
      let bound = extend_to limit front (length front) in
      let f : leb (length (extend bound segment bound front)) (length front) ≡ false = rw g (
        let h = length-more front added p in
        let u : leb (length (front ++ p ∷ added)) (length front) ≡ false = ground (arith, h) in
        u) in
      rw (e, next_prime) (rw (f, next_prime) (rw g (rw (at-length front added p) refl)))

  pub next_prime_end :
      (front : List ℕ)
      → extend
          (extend_to limit front (length front))
          segment
          (extend_to limit front (length front))
          front
        ≡ front
      → next_prime segment limit front (length front)
        ≡ ((limit + 1) % 2 ^ 32, (front, length front))
  unfolding next_prime
  next_prime_end front g =
      let e : leb (length front) (length front) ≡ true = ground arith in
      let bound = extend_to limit front (length front) in
      let f : leb (length (extend bound segment bound front)) (length front) ≡ true = rw g e in
      rw (e, next_prime) (rw (f, next_prime) (rw g refl))

  pub iterate_next :
      (fuel : ℕ) (primes : List ℕ) (index p : ℕ) (longer : List ℕ) (next : ℕ)
      → next_prime segment limit primes index ≡ (p, (longer, next))
      → p ≤ limit
      → iterate (suc fuel) segment limit primes index ≡ p ∷ iterate fuel segment limit longer next
  unfolding iterate
  iterate_next fuel primes index p longer next e l =
      let t : leb (next_prime segment limit primes index).0 limit ≡ true =
        rw e (let u : leb p limit ≡ true = ground (arith, l) in u) in
      rw (t, iterate) (ap (λ z. z.0 ∷ iterate fuel segment limit z.1.0 z.1.1) e)

  pub iterate_stop :
      (fuel : ℕ) (primes : List ℕ) (index p : ℕ) (longer : List ℕ) (next : ℕ)
      → next_prime segment limit primes index ≡ (p, (longer, next))
      → limit < p
      → iterate (suc fuel) segment limit primes index ≡ []
  unfolding iterate
  iterate_stop fuel primes index p longer next e l =
      let t : leb (next_prime segment limit primes index).0 limit ≡ false =
        rw e (let u : leb p limit ≡ false = ground (arith, l) in u) in
      rw (t, iterate) refl

  pub extend_to_fits :
      (primes : List ℕ)
      → back primes ≤ limit
      → 0 < back primes
      → limit ≤ 2 ^ 20
      → (extend_to limit primes (length primes) ≤ limit)
        × (extend_to limit primes (length primes) ≤ 2 * back primes)
        × ((extend_to limit primes (length primes) ≡ limit)
            ⊎ (extend_to limit primes (length primes) ≡ 2 * back primes))
  unfolding extend_to
  extend_to_fits primes a b c =
      let twice : back primes * 2 % 2 ^ 32 ≡ 2 * back primes = omega (arith, a, c) in
      let positive : ltb 0 limit ≡ true = ground (arith, a, b) in
      rw twice (
        rw positive (elim (Bool-cases (ltb limit (2 * back primes))) [
          | inl t ↦ rw t (omega arith, ground (arith, t), inl refl)
          | inr t ↦ rw t (ground (arith, t), omega arith, inr refl)
        ]))
