-- ===== src/Sieve/Flags.antt =====
-- One segment of the sieve, up to the limit.
use Prim.Native.Nat.{◌∣◌}
use native.Mathlib.Nat.{mod-eq-zero_of_dvd, mul-le-mul_right, mul-le-mul_left}
use csympy.Prelude.{
  ℕ, ◌+◌, ◌-◌, ◌*◌, ◌/◌, ◌%◌, ◌^◌, ◌≡◌, ◌<◌, ◌≤◌, ◌⊎◌, refl, sym, ap, ◌∙◌, inl, inr, arith, true,
  false, Bool, List, ◌++◌, ltb,
}
use csympy.Gmp.{MpzRoot}
use csympy.NumberList.{
  In, All, Ascending, All-In, All-append, All-of_In, All-weaken, In-append_left, In-append_right,
  In-append_cases, Ascending-append, append_assoc,
}
use csympy.Primality.{IsPrime, no-IsPrime_divisor}
use csympy.Vector.{repeat}
use csympy.Vector.Laws.{at-repeat}
use csympy.Sieve.{first_primes, back, mark_all, pushed, odd_primes, sieve_segment}
use csympy.Sieve.Marks.{Usable, mark_all_hit, mark_all_miss}
use csympy.Sieve.Segment.{flag, pushed-All, pushed_complete, pushed-Ascending}
use csympy.Sieve.Table.{
  IsTable, IsTable-most, IsTable-large, IsTable-odd, IsPrime-odd, odd_primes-All, odd_primes-In,
  In-odd_primes, odd_primes-Ascending, starts-back, IsExtended,
}

-- A table that is longer by primes up to the limit, all those that it did not have, is extended.
append-IsExtended :
    (primes added : List ℕ) (limit : ℕ)
    → IsTable primes
    → back primes ≤ limit
    → Ascending added
    → All (λ p. (IsPrime p × (back primes < p)) × (p ≤ limit)) added
    → ((p : ℕ) → IsPrime p → back primes < p → p ≤ limit → In p added)
    → IsExtended primes limit (primes ++ added)
append-IsExtended primes added limit t b a s c = record {
  table = record {
    rest = t.rest ++ added;
    starts = starts;
    sound = All-append IsPrime primes added t.sound (All-weaken _ IsPrime added (λ p h. h.0.0) s);
    ascending = Ascending-append primes added t.ascending a (λ p q i j.
        let x = All-In _ q added s j in
        let y : back primes < q = x.0.1 in omega (arith, IsTable-most primes p t i, y));
    complete = λ p h l. covers p h (omega (arith, l, last));
  };
  added = added;
  grown = refl;
  within = All-weaken _ (λ p. p ≤ limit) added (λ p h. h.1) s;
  covers = covers;
}
  where
    starts : primes ++ added ≡ first_primes ++ (t.rest ++ added)
    starts = ap (λ v. v ++ added) t.starts ∙ append_assoc first_primes t.rest added

    covers : (p : ℕ) → IsPrime p → p ≤ limit → In p (primes ++ added)
    covers p h l = elim (let o : (p ≤ back primes) ⊎ (back primes < p) = ground arith in o) [
      | inl o ↦ In-append_left p primes added (t.complete p h o)
      | inr o ↦ In-append_right p primes added (c p h o l)
    ]

    last : back (primes ++ added) ≤ limit
    last =
        elim (In-append_cases _ primes added
          (starts-back (primes ++ added) (t.rest ++ added) starts)) [
            | inl i ↦ omega (arith, IsTable-most primes _ t i, b)
            | inr i ↦ (All-In (λ p. (IsPrime p × (back primes < p)) × (p ≤ limit)) _ added s i).1
          ]

module _ (primes : List ℕ) (t : IsTable primes) (large : back primes < 2 ^ 28) where
  abbrev start : ℕ
  start = back primes + 1

  start_even : start % 2 ≡ 0
  start_even = let o = IsTable-odd primes t in omega (arith, o)

  odd_primes-Usable : All (Usable start) (odd_primes primes)
  odd_primes-Usable = All-of_In (Usable start) (odd_primes primes) (λ q i.
      let (h, l) =
        All-In (λ q. IsPrime q × (2 < q)) q (odd_primes primes) (odd_primes-All primes t) i in
      let o = IsPrime-odd q h l in
      let m = IsTable-most primes q t (odd_primes-In primes q t i) in
      ((q - 1) / 2, omega (arith, o), omega (arith, m, large)))

  -- The number of a flag.
  flag_number : (p : ℕ) → start < p → p % 2 ≡ 1 → start + 1 + 2 * ((p - start) / 2) ≡ p
  flag_number p l o = omega (arith, l, o, start_even)

  -- The flags after a segment's loop over the primes.
  module _ (segment limit : ℕ) where
    abbrev marked : List Bool
    marked = mark_all start limit (odd_primes primes) (repeat segment true)

    flag_of_IsPrime :
        (p : ℕ) → start < p → p < start + 2 * segment → IsPrime p → flag marked start p ≡ true
    flag_of_IsPrime p l s h =
        let o = IsPrime-odd p h (omega (arith, l, IsTable-large primes t)) in
        let e = flag_number p l o in
        mark_all_miss start limit start_even (odd_primes primes) (repeat segment true)
          ((p - start) / 2) odd_primes-Usable
          (λ q i d.
            let (_, a) =
              All-In (λ q. IsPrime q × (2 < q)) q (odd_primes primes) (odd_primes-All primes t) i in
            let m = IsTable-most primes q t (odd_primes-In primes q t i) in
            elim (h.1 q (rw e at d)) [
              | inl x ↦ omega (arith, x, a)
              | inr x ↦ omega (arith, x, m, l)
            ])
        ∙ at-repeat false true segment ((p - start) / 2) (omega (arith, e, s))

    flag-IsPrime :
        ⦃r : MpzRoot⦄
        → (p : ℕ) → start < p
        → p % 2 ≡ 1
        → p ≤ limit
        → limit < 2 ^ 32
        → ((q : ℕ) → IsPrime q → q * q ≤ limit → q ≤ back primes)
        → flag marked start p ≡ true
        → IsPrime p
    flag-IsPrime ⦃r⦄ p l o b f c g =
        no-IsPrime_divisor p (r.sqrt p) (omega (arith, l)) (r.sqrt-lt p) no_divisor
      where
        no_divisor : (q : ℕ) → IsPrime q → q ≤ r.sqrt p → ¬ (q ∣ p)
        no_divisor q h m d =
            let square : q * q ≤ limit =
              omega (arith, mul-le-mul_left q m, mul-le-mul_right (r.sqrt p) m, r.sqrt-le p, b) in
            let e = flag_number p l o in
            elim (let w : (q ≡ 2) ⊎ (2 < q) = ground (arith, h.0) in w) [
              | inl w ↦
                  let z : p % 2 ≡ 0 = mod-eq-zero_of_dvd 2 (rw w at d) in
                  absurd (omega (arith, z, o))
              | inr w ↦
                  let i = In-odd_primes primes q t (t.complete q h (c q h square)) w in
                  let z : flag marked start p ≡ false =
                    mark_all_hit start limit start_even (odd_primes primes) (repeat segment true)
                      ((p - start) / 2) q odd_primes-Usable (odd_primes-Ascending primes t) f i
                      square (rw (sym e) at d) (omega (arith, e, b)) in
                  cc (z, g)
            ]

    -- One segment that reaches the limit.
    pub sieve_segment-IsExtended :
        ⦃r : MpzRoot⦄
        → start ≤ limit
        → limit < start + 2 * segment
        → segment ≤ 2 ^ 28
        → limit ≤ 2 ^ 28
        → ((q : ℕ) → IsPrime q → q * q ≤ limit → q ≤ back primes)
        → IsExtended primes limit (sieve_segment segment start limit primes)
    unfolding sieve_segment
    sieve_segment-IsExtended ⦃r⦄ a b f g c =
        let reached : ltb limit ((start + segment * 2 + 1) % 2 ^ 32) ≡ true =
          ground (arith, b, f, large) in
        let rounds = (limit - start + 1) / 2 in
        rw reached (
          append-IsExtended primes (pushed rounds (start + 1) start marked) limit t
            (omega (arith, a)) (pushed-Ascending rounds (start + 1) start marked)
            (All-weaken _ (λ p. (IsPrime p × (back primes < p)) × (p ≤ limit))
              (pushed rounds (start + 1) start marked)
              (λ p h.
                let above : start < p = omega (arith, h.0) in
                let under : p ≤ limit = omega (arith, h.1, a) in
                let odd : p % 2 ≡ 1 = omega (arith, h.2, start_even) in
                (
                  (flag-IsPrime p above odd under (omega (arith, g)) c h.3, omega (arith, above)),
                  under,
                ))
              (pushed-All rounds (start + 1) start marked))
            (λ p h l m.
              let odd = IsPrime-odd p h (omega (arith, l, IsTable-large primes t)) in
              let above : start < p = omega (arith, l, odd, start_even) in
              pushed_complete rounds (start + 1) start marked p (omega (arith, above))
                (omega (arith, above, odd, m, start_even)) (omega (arith, odd, start_even))
                (flag_of_IsPrime p above (omega (arith, m, b)) h)))
