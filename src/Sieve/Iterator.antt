-- ===== src/Sieve/Iterator.antt =====
-- The iterator goes over the primes up to its limit, whatever the table has before.
use csympy.Prelude.{
  ℕ, zero, suc, ◌+◌, ◌*◌, ◌%◌, ◌^◌, ◌≡◌, ◌<◌, ◌≤◌, ◌⊎◌, refl, ◌∙◌, inl, inr, arith, List, [], ◌∷◌,
  ◌++◌, length,
}
use csympy.Gmp.{MpzRoot}
use csympy.NumberList.{
  In, All, All-In, All-append, All-of_In, All-weaken, In-append_left, In-append_right,
  In-append_cases, append_assoc, append_nil, Ascending-left, Ascending-right, length-Ascending,
}
use csympy.Primality.{IsPrime}
use csympy.Primality.Chain.{IsPrime-above}
use csympy.Primality.Listing.{IsListing, IsListing-searched}
use csympy.Primality.Search.{searched}
use csympy.Sieve.{back, extend, extend_to, iterate}
use csympy.Sieve.Table.{IsTable, IsTable-back, IsTable-most, IsTable-large, IsExtended}
use csympy.Sieve.Extend.{extend-IsExtended}
use csympy.Sieve.Next.{
  length-last, next_prime_inside, next_prime_more, next_prime_end, iterate_next, iterate_stop,
  extend_to_fits,
}

-- A front part of the table that has all primes up to the limit is the listing.
front-IsListing :
    (limit : ℕ) (front rest : List ℕ)
    → IsTable (front ++ rest)
    → All (λ p. p ≤ limit) front
    → ((p : ℕ) → IsPrime p → p ≤ limit → In p front)
    → IsListing limit front
front-IsListing limit front rest t a c = record {
  sound =
      All-of_In (λ p. IsPrime p × (p ≤ limit)) front
        (λ p i. (
          All-In IsPrime p (front ++ rest) t.sound (In-append_left p front rest i),
          All-In (λ p. p ≤ limit) p front a i,
        ));
  complete = c;
  ascending = Ascending-left front rest t.ascending;
}

-- If the number after the front part is above the limit, the front part is the listing.
front_enough :
    (limit : ℕ) (front rest : List ℕ) (p : ℕ)
    → IsTable (front ++ p ∷ rest)
    → All (λ q. q ≤ limit) front
    → limit < p
    → IsListing limit front
front_enough limit front rest p t a l = front-IsListing limit front (p ∷ rest) t a (λ q h m.
    let i = t.complete q h (
      omega (
        arith,
        m,
        l,
        IsTable-most (front ++ p ∷ rest) p t (In-append_right p front (p ∷ rest) (inl refl)),
      )) in
    elim (In-append_cases q front (p ∷ rest) i) [
      | inl j ↦ j
      | inr (inl e) ↦ absurd (omega (arith, e, m, l))
      | inr (inr j) ↦
          let o : p < q =
            All-In (λ y. p < y) q rest (Ascending-right front (p ∷ rest) t.ascending).0 j in
          absurd (omega (arith, o, m, l))
    ])

module _ ⦃r : MpzRoot⦄ (segment limit : ℕ) (few : limit ≤ 2 ^ 20) (reach : limit ≤ 4 * segment)
    (size : segment ≤ 2 ^ 28) where
  -- With this fuel, the numbers returned before and those still to come are the listing.
  abbrev Lists : ℕ → Type 0
  Lists fuel =
      (front rest : List ℕ)
      → IsTable (front ++ rest)
      → All (λ p. p ≤ limit) front
      → limit + 2 ≤ fuel + length front
      → IsListing limit (front ++ iterate fuel segment limit (front ++ rest) (length front))

  advance :
      (fuel : ℕ)
      → Lists fuel
      → (front rest : List ℕ) → (p : ℕ) → IsTable (front ++ p ∷ rest)
      → All (λ q. q ≤ limit) front
      → limit + 2 ≤ suc fuel + length front
      → p ≤ limit
      → IsListing limit
          (front ++ p ∷ iterate fuel segment limit (front ++ p ∷ rest) (length front + 1))
  advance fuel again front rest p t a f l =
      let one = p ∷ [] in
      let h =
        again (front ++ one) rest (rw (append_assoc front one rest) t)
          (All-append (λ q. q ≤ limit) front one a (l, tt))
          (rw (length-last front p) (omega (arith, f))) in
      let h1 = rw (append_assoc front one rest) at h in
      let h2 = rw (length-last front p) at h1 in
      rw
        (append_assoc front one (iterate fuel segment limit (front ++ p ∷ rest) (length front + 1)))
        at h2

  abbrev bound : List ℕ → ℕ
  bound front = extend_to limit front (length front)

  at_end :
      (fuel : ℕ)
      → Lists fuel
      → (front added : List ℕ) → IsTable front
      → All (λ q. q ≤ limit) front
      → limit + 2 ≤ suc fuel + length front
      → IsExtended front (bound front) (front ++ added)
      → extend (bound front) segment (bound front) front ≡ front ++ added
      → All (λ q. q ≤ limit) added
      → IsListing limit (front ++ iterate (suc fuel) segment limit front (length front))
  at_end fuel again front [] t a f x g b =
      rw
        (iterate_stop segment limit fuel front (length front) ((limit + 1) % 2 ^ 32) front
          (length front) (next_prime_end segment limit front (g ∙ append_nil front))
          (omega (arith, few)))
        (rw (append_nil front) (
          front-IsListing limit front [] (rw (append_nil front) t) a (λ q h l. elim both.2 [
            | inl e ↦ rw (append_nil front) at (x.covers q h (rw e l))
            | inr e ↦
                let (p, i, u, v) = IsPrime-above (back front) (IsTable-large front t) last in
                let j = rw (append_nil front) at (x.covers p i (rw e v)) in
                absurd (omega (arith, u, IsTable-most front p t j))
          ])))
    where
      last : back front ≤ 2 ^ 20
      last =
          let m = All-In (λ q. q ≤ limit) (back front) front a (IsTable-back front t) in
          omega (arith, m, few)

      both :
          (bound front ≤ limit)
          × (bound front ≤ 2 * back front)
          × ((bound front ≡ limit) ⊎ (bound front ≡ 2 * back front))
      both =
          extend_to_fits segment limit front
            (All-In (λ q. q ≤ limit) (back front) front a (IsTable-back front t))
            (omega (arith, IsTable-large front t)) few
  at_end fuel again front (p ∷ added) t a f x g b =
      rw
        (iterate_next segment limit fuel front (length front) p (front ++ p ∷ added)
          (length front + 1) (next_prime_more segment limit front added p g) b.0)
        (advance fuel again front added p x.table a f b.0)

  pub iterate-IsListing : (fuel : ℕ) → Lists fuel
  iterate-IsListing zero front rest t a f =
      let positive =
        All-of_In (λ p. 0 < p) front
          (λ p i.
            let h = All-In IsPrime p (front ++ rest) t.sound (In-append_left p front rest i) in
            omega (arith, h.0)) in
      let l =
        length-Ascending 0 limit front (Ascending-left front rest t.ascending) positive a
          (omega arith) in
      absurd (omega (arith, l, f))
  iterate-IsListing (suc fuel) front [] t a f =
      let t' = rw (append_nil front) at t in
      let m = All-In (λ q. q ≤ limit) (back front) front a (IsTable-back front t') in
      let (b, c, _) =
        extend_to_fits segment limit front m (omega (arith, IsTable-large front t')) few in
      let x =
        extend-IsExtended (bound front) segment (bound front) front t' (omega (arith, b, c, reach))
          size (omega (arith, b, few)) (omega arith) (omega (arith, m, few)) in
      rw (append_nil front) (
        at_end fuel (iterate-IsListing fuel) front x.added t' a f (rw x.grown at x) x.grown (
          All-weaken (λ q. q ≤ bound front) (λ q. q ≤ limit) x.added (λ q h. omega (arith, h, b))
            x.within))
  iterate-IsListing (suc fuel) front (p ∷ rest) t a f =
      elim (let o : (p ≤ limit) ⊎ (limit < p) = ground arith in o) [
        | inl l ↦
            rw
              (iterate_next segment limit fuel (front ++ p ∷ rest) (length front) p
                (front ++ p ∷ rest) (length front + 1)
                (next_prime_inside segment limit front rest p) l)
              (advance fuel (iterate-IsListing fuel) front rest p t a f l)
        | inr l ↦
            rw
              (iterate_stop segment limit fuel (front ++ p ∷ rest) (length front) p
                (front ++ p ∷ rest) (length front + 1)
                (next_prime_inside segment limit front rest p) l)
              (rw (append_nil front) (front_enough limit front rest p t a l))
      ]

  -- In whatever state the table is, the iterator with this limit returns the primes up to the limit
  -- in ascending order, and its loop ends after at most limit + 2 rounds: if the limit is at most
  -- 2^20 and four times the sieve size, and the sieve size is at most 2^28.
  pub iterate-searched :
      (primes : List ℕ)
      → IsTable primes
      → iterate (limit + 2) segment limit primes 0 ≡ searched limit
  iterate-searched primes t =
      IsListing-searched limit _ (iterate-IsListing (limit + 2) [] primes t tt (omega arith))
