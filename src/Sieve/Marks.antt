-- ===== src/Sieve/Marks.antt =====
-- Which flags of a segment are marked: those of the odd multiples of the primes.
use Prim.Native.Nat.{◌∣◌}
use native.Mathlib.Nat.{
  div-mul_cancel, le-div_iff_mul-le, dvd-mul_left, mul-le-mul_right, mul-le-mul_left,
}
use csympy.Prelude.{
  ℕ, ◌+◌, ◌-◌, ◌*◌, ◌/◌, ◌%◌, ◌^◌, ◌≡◌, ◌<◌, ◌≤◌, refl, ◌∙◌, inl, inr, arith, true, false, Bool,
  Bool-cases, List, [], ◌∷◌, ltb, leb,
}
use csympy.NumberList.{In, All, Ascending, All-In}
use csympy.Vector.{at}
use csympy.Sieve.{first_multiple, mark_multiples, mark_all}
use csympy.Sieve.Multiples.{mark_stays, mark_hit, mark_miss, first_multiple-IsFirst}

-- The flag `i` stands for the number `start + 1 + 2 * i`.
module _ (start finish h : ℕ) (e : start % 2 ≡ 0) (l : start + 2 * (2 * h + 1) < 2 ^ 32) where
  abbrev odd_prime : ℕ
  odd_prime = 2 * h + 1

  mark_multiples_stays :
      (v : List Bool) (i : ℕ)
      → at false v i ≡ false
      → at false (mark_multiples start finish odd_prime v) i ≡ false
  unfolding mark_multiples
  mark_multiples_stays v i z = elim (Bool-cases (ltb finish (first_multiple start odd_prime))) [
    | inl t ↦ rw t z
    | inr t ↦ rw t (mark_stays _ _ odd_prime v i z)
  ]

  mark_multiples_hit :
      (v : List Bool) (i : ℕ)
      → odd_prime ∣ start + 1 + 2 * i
      → start + 1 + 2 * i ≤ finish
      → at false (mark_multiples start finish odd_prime v) i ≡ false
  unfolding mark_multiples
  mark_multiples_hit v i z o =
      let m = first_multiple-IsFirst start h e l in
      let first = first_multiple start odd_prime in
      let n = start + 1 + 2 * i in
      let c : n / odd_prime * odd_prime ≡ n = div-mul_cancel odd_prime z in
      let (k, u) = m.reached (n / odd_prime) (omega (arith, c)) (omega (arith, c, e)) in
      let t : ltb finish first ≡ false = ground (arith, u, c, o) in
      let reach : k ≤ (finish - first) / (2 * odd_prime) =
        (le-div_iff_mul-le (let y : 0 < 2 * odd_prime = omega arith in y)).1
          (let y : k * (2 * odd_prime) ≤ finish - first = omega (arith, u, c, o) in y) in
      let position : (first + 2 ^ 32 - start) % 2 ^ 32 ≡ first - start =
        omega (arith, m.above, m.near, l) in
      let stride : 2 * odd_prime % 2 ^ 32 ≡ 2 * odd_prime = omega (arith, l) in
      rw t (
        rw position (
          rw stride (
            mark_hit ((first - start) / 2) (1 + (finish - first) / (2 * odd_prime)) odd_prime v i k
              (omega (arith, reach)) (omega (arith, u, c, m.odd, m.above, e)))))

  mark_multiples_miss :
      (v : List Bool) (i : ℕ)
      → ¬ (odd_prime ∣ start + 1 + 2 * i)
      → at false (mark_multiples start finish odd_prime v) i ≡ at false v i
  unfolding mark_multiples
  mark_multiples_miss v i z =
      let m = first_multiple-IsFirst start h e l in
      let first = first_multiple start odd_prime in
      let position : (first + 2 ^ 32 - start) % 2 ^ 32 ≡ first - start =
        omega (arith, m.above, m.near, l) in
      let stride : 2 * odd_prime % 2 ^ 32 ≡ 2 * odd_prime = omega (arith, l) in
      elim (Bool-cases (ltb finish first)) [
        | inl t ↦ rw t refl
        | inr t ↦ rw t (
            rw position (
              rw stride (
                mark_miss ((first - start) / 2) (1 + (finish - first) / (2 * odd_prime)) odd_prime v
                  i
                  (λ k k_lt y.
                    let w : (m.factor + 2 * k) * odd_prime ≡ start + 1 + 2 * i =
                      omega (arith, y, m.equal, m.odd, m.above, e) in
                    z (rw w at (dvd-mul_left odd_prime (m.factor + 2 * k)))))))
      ]

-- An odd number whose multiples next to `start` are in `unsigned`.
abbrev pub Usable : ℕ → ℕ → Type 0
Usable start q = (h : ℕ) × (q ≡ 2 * h + 1) × (start + 2 * q < 2 ^ 32)

module _ (start finish : ℕ) (e : start % 2 ≡ 0) where
  mark_all_stays :
      (ps : List ℕ) (v : List Bool) (i : ℕ)
      → All (Usable start) ps
      → at false v i ≡ false
      → at false (mark_all start finish ps v) i ≡ false
  unfolding mark_all
  mark_all_stays [] v i a z = z
  mark_all_stays (q ∷ ps) v i a z = elim (Bool-cases (leb (q * q % 2 ^ 32) finish)) [
    | inl t ↦
        let (h, u, b) = a.0 in
        rw t (
          mark_all_stays ps (mark_multiples start finish q v) i a.1
            (rw u (mark_multiples_stays start finish h e (rw u at b) v i z)))
    | inr t ↦ rw t z
  ]

  pub mark_all_hit :
      (ps : List ℕ) (v : List Bool) (i q : ℕ)
      → All (Usable start) ps
      → Ascending ps
      → finish < 2 ^ 32
      → In q ps
      → q * q ≤ finish
      → q ∣ start + 1 + 2 * i
      → start + 1 + 2 * i ≤ finish
      → at false (mark_all start finish ps v) i ≡ false
  unfolding mark_all
  mark_all_hit [] v i q a s f m b d o = absurd m
  mark_all_hit (p ∷ ps) v i q a s f m b d o =
      let t : leb (p * p % 2 ^ 32) finish ≡ true = square_fits in
      let (h, u, c) = a.0 in
      rw t (elim m [
        | inl x ↦
            mark_all_stays ps (mark_multiples start finish p v) i a.1
              (rw u (mark_multiples_hit start finish h e (rw u at c) v i (rw (x ∙ u) at d) o))
        | inr y ↦ mark_all_hit ps (mark_multiples start finish p v) i q a.1 s.1 f y b d o
      ])
    where
      square_fits : leb (p * p % 2 ^ 32) finish ≡ true
      square_fits =
          let under : p ≤ q = elim m [
            | inl x ↦ (let z : p ≤ q = omega (arith, x) in z)
            | inr y ↦
                (let z : p < q = All-In (λ y. p < y) q ps s.0 y in
                  let w : p ≤ q = omega (arith, z) in w)
          ] in
          let z : p * p ≤ q * q =
            omega (arith, mul-le-mul_left p under, mul-le-mul_right q under) in
          ground (arith, z, b, f)

  pub mark_all_miss :
      (ps : List ℕ) (v : List Bool) (i : ℕ)
      → All (Usable start) ps
      → ((q : ℕ) → In q ps → ¬ (q ∣ start + 1 + 2 * i))
      → at false (mark_all start finish ps v) i ≡ at false v i
  unfolding mark_all
  mark_all_miss [] v i a z = refl
  mark_all_miss (q ∷ ps) v i a z = elim (Bool-cases (leb (q * q % 2 ^ 32) finish)) [
    | inl t ↦
        let (h, u, b) = a.0 in
        let n : ¬ (q ∣ start + 1 + 2 * i) = z q (inl refl) in
        rw t (
          mark_all_miss ps (mark_multiples start finish q v) i a.1 (λ p m. z p (inr m))
          ∙ rw u (mark_multiples_miss start finish h e (rw u at b) v i (rw u at n)))
    | inr t ↦ rw t refl
  ]
