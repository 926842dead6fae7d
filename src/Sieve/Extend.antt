-- ===== src/Sieve/Extend.antt =====
-- The extension of the table up to a limit that one segment reaches.
use native.Mathlib.Nat.{mul-le-mul_right, mul-le-mul_left}
use csympy.Prelude.{
  ℕ, zero, suc, ◌+◌, ◌*◌, ◌%◌, ◌^◌, ◌≡◌, ◌<◌, ◌≤◌, ◌⊎◌, refl, sym, ap, ◌∙◌, inl, inr, arith, true,
  false, Bool-cases, List, [], ◌++◌, leb,
}
use csympy.Gmp.{MpzRoot}
use csympy.NumberList.{
  In, All-In, All-append, All-weaken, In-append_left, In-append_cases, append_assoc, append_nil,
}
use csympy.Primality.{IsPrime}
use csympy.Sieve.{back, sieve_segment, segments, extend}
use csympy.Sieve.Table.{
  IsTable, IsTable-back, IsTable-most, IsTable-large, IsTable-odd, IsPrime-odd, IsExtended,
}
use csympy.Sieve.Flags.{sieve_segment-IsExtended}

-- The loop over the segments stops after the first one, if that reaches the limit.
segments_once :
    (fuel segment start limit : ℕ) (primes : List ℕ)
    → 0 < fuel
    → start ≤ limit
    → limit < start + 2 * segment
    → start + 2 * segment < 2 ^ 32
    → segments (suc fuel) segment start limit primes ≡ sieve_segment segment start limit primes
unfolding segments
segments_once zero segment start limit primes z a b c = absurd (omega (arith, z))
segments_once (suc fuel) segment start limit primes z a b c =
    let first : leb start limit ≡ true = ground (arith, a) in
    let second : leb ((start + 2 * segment) % 2 ^ 32) limit ≡ false = ground (arith, b, c) in
    rw (first, segments) (rw (second, segments) refl)

below_root : ⦃r : MpzRoot⦄ → (q limit : ℕ) → q * q ≤ limit → q ≤ r.sqrt limit
below_root ⦃r⦄ q limit h =
    elim (let o : (q ≤ r.sqrt limit) ⊎ (r.sqrt limit + 1 ≤ q) = ground arith in o) [
      | inl o ↦ o
      | inr o ↦
          omega
            (arith, h, r.sqrt-lt limit, mul-le-mul_left (r.sqrt limit + 1) o, mul-le-mul_right q o)
    ]

root_below : ⦃r : MpzRoot⦄ → (limit : ℕ) → 2 ≤ limit → r.sqrt limit < limit
root_below ⦃r⦄ limit h =
    elim (let o : (r.sqrt limit < limit) ⊎ (limit ≤ r.sqrt limit) = ground arith in o) [
      | inl o ↦ o
      | inr o ↦
          let twice : limit * 2 ≤ limit * limit = mul-le-mul_left limit h in
          omega (
            arith,
            h,
            r.sqrt-le limit,
            twice,
            mul-le-mul_left limit o,
            mul-le-mul_right (r.sqrt limit) o,
          )
    ]

-- The number after the last one of the table is not prime, so that nothing is missing.
same-IsExtended :
    (primes : List ℕ) (limit : ℕ)
    → IsTable primes
    → limit ≤ back primes + 1
    → IsExtended primes limit primes
same-IsExtended primes limit t l = record {
  table = t;
  added = [];
  grown = sym (append_nil primes);
  within = tt;
  covers = λ p h m.
      elim (let o : (p ≤ back primes) ⊎ (p ≡ back primes + 1) = ground (arith, l, m) in o) [
        | inl o ↦ t.complete p h o
        | inr o ↦
            let a = IsTable-large primes t in
            let b = IsTable-odd primes t in
            let c = IsPrime-odd p h (omega (arith, o, a)) in absurd (omega (arith, b, c, o))
      ];
}

IsExtended-trans :
    (primes middle longer : List ℕ) (low limit : ℕ)
    → low ≤ limit
    → IsExtended primes low middle
    → IsExtended middle limit longer
    → IsExtended primes limit longer
IsExtended-trans primes middle longer low limit l a b = record {
  table = b.table;
  added = a.added ++ b.added;
  grown = b.grown ∙ ap (λ v. v ++ b.added) a.grown ∙ append_assoc primes a.added b.added;
  within =
      All-append (λ p. p ≤ limit) a.added b.added
        (All-weaken (λ p. p ≤ low) (λ p. p ≤ limit) a.added (λ p h. omega (arith, h, l)) a.within)
        b.within;
  covers = b.covers;
}

In-same : (p : ℕ) (xs ys : List ℕ) → xs ≡ ys → In p xs → In p ys
In-same p xs ys e i = rw (sym e) i

-- The last number of the longer table is the last one of the table or it is up to the limit.
pub IsExtended-back :
    (primes longer : List ℕ) (limit : ℕ)
    → IsTable primes
    → IsExtended primes limit longer
    → (back primes ≤ back longer) × ((back longer ≤ back primes) ⊎ (back longer ≤ limit))
IsExtended-back primes longer limit t x = (
  IsTable-most longer (back primes) x.table
      (rw x.grown (In-append_left (back primes) primes x.added (IsTable-back primes t))),
  elim (In-append_cases (back longer) primes x.added
      (In-same (back longer) longer (primes ++ x.added) x.grown (IsTable-back longer x.table))) [
        | inl i ↦ inl (IsTable-most primes (back longer) t i)
        | inr i ↦ inr (All-In (λ p. p ≤ limit) (back longer) x.added x.within i)
      ],
)

-- The last part of `_extend`, on a table with all primes up to the square root of the limit.
segments-IsExtended :
    ⦃r : MpzRoot⦄
    → (segment limit : ℕ) → (primes : List ℕ) → IsTable primes
    → back primes + 1 ≤ limit
    → limit < back primes + 1 + 2 * segment
    → segment ≤ 2 ^ 28
    → limit ≤ 2 ^ 28
    → ((q : ℕ) → IsPrime q → q ≤ r.sqrt limit → q ≤ back primes)
    → IsExtended primes limit
        (segments (suc limit) segment ((back primes + 1) % 2 ^ 32) limit primes)
segments-IsExtended segment limit primes t a b f g c =
    let start : (back primes + 1) % 2 ^ 32 ≡ back primes + 1 = omega (arith, a, g) in
    rw start (
      rw
        (segments_once limit segment (back primes + 1) limit primes (omega (arith, a)) a b
          (omega (arith, a, f, g)))
        (sieve_segment-IsExtended primes t (omega (arith, a, g)) segment limit a b f g
          (λ q h s. c q h (below_root q limit s))))

-- `_extend` keeps the invariant of the table, and it leaves a table with all primes up to the
-- limit: if one segment reaches the limit, with fuel from the limit on.
pub extend-IsExtended :
    ⦃r : MpzRoot⦄
    → (fuel segment limit : ℕ) → (primes : List ℕ) → IsTable primes
    → limit < back primes + 1 + 2 * segment
    → segment ≤ 2 ^ 28
    → limit ≤ 2 ^ 28
    → limit ≤ fuel
    → back primes < 2 ^ 28
    → IsExtended primes limit (extend fuel segment limit primes)
unfolding extend
extend-IsExtended zero segment limit primes t b f g z y =
    same-IsExtended primes limit t (omega (arith, z))
extend-IsExtended ⦃r⦄ (suc fuel) segment limit primes t b f g z y =
    let start : (back primes + 1) % 2 ^ 32 ≡ back primes + 1 = omega (arith, y) in
    elim (Bool-cases (leb limit ((back primes + 1) % 2 ^ 32))) [
      | inl s ↦
          rw (s, extend)
            (same-IsExtended primes limit t
              (let l : limit ≤ back primes + 1 = ground (arith, s, start) in l))
      | inr s ↦
          let l : back primes + 1 < limit = ground (arith, s, start) in
          let root = root_below limit (omega (arith, l, IsTable-large primes t)) in
          elim (Bool-cases (leb ((back primes + 1) % 2 ^ 32) (r.sqrt limit))) [
            | inl u ↦
                let before =
                  extend-IsExtended fuel segment (r.sqrt limit) primes t (omega (arith, b, root)) f
                    (omega (arith, g, root)) (omega (arith, z, root)) y in
                let longer = extend fuel segment (r.sqrt limit) primes in
                let (grows, ends) = IsExtended-back primes longer (r.sqrt limit) t before in
                let last : back longer + 1 ≤ limit = ground (arith, l, root, ends) in
                rw (s, extend)
                  (rw (u, extend)
                    (IsExtended-trans primes longer _ (r.sqrt limit) limit (omega (arith, root))
                      before
                      (segments-IsExtended segment limit longer before.table last
                        (omega (arith, grows, b)) f g
                        (λ q h m. IsTable-most longer q before.table (before.covers q h m)))))
            | inr u ↦
                rw (s, extend)
                  (rw (u, extend)
                    (segments-IsExtended segment limit primes t (omega (arith, l)) b f g (λ q h m.
                      let v : r.sqrt limit ≤ back primes = ground (arith, u, start) in
                      omega (arith, m, v))))
          ]
    ]
