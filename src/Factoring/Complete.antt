-- ===== src/Factoring/Complete.antt =====
-- `prime_factors` returns the prime factors: primes whose product is the number.
use Prim.Native.Nat.{◌∣◌}
use native.Mathlib.Nat.{
  dvd_trans, dvd-mul_left, div-mul_cancel, mul-le-mul_right, mul-le-mul_left, mul_assoc, mul_comm,
  one-mul, mul-one, le_of_dvd,
}
use csympy.Prelude.{
  ℕ, zero, suc, ◌*◌, ◌/◌, ◌%◌, ◌^◌, ◌≡◌, ◌<◌, ◌≤◌, ◌⊎◌, refl, sym, ap, ◌∙◌, inl, inr, arith, false,
  lt→ltb, ◌==◌, ==_iff, Bool-cases, List, [], ◌∷◌, ◌++◌, if◌then◌else◌,
}
use csympy.Prelude.Int.{ℤ, nat_abs}
use csympy.NumberClass.{ok}
use csympy.Primality.{IsPrime, no-IsPrime_divisor, remainder, no_remainder}
use csympy.NumberList.{In, All, All-append}
use csympy.Factoring.{PrimeSource, divide_out, factors_loop, prime_factors}
use csympy.Gmp.{MpzRoot}

unfoldable pub product : List ℕ → ℕ
product [] = 1
product (x ∷ xs) = x * product xs

pub product-append : (xs ys : List ℕ) → product (xs ++ ys) ≡ product xs * product ys
unfolding product
product-append [] ys = sym (one-mul (product ys))
product-append (x ∷ xs) ys =
    ap (◌*◌ x) (product-append xs ys) ∙ sym (mul_assoc x (product xs) (product ys))

-- The quotient by a divisor above 1.
pub quotient_less : (p n : ℕ) → 1 < p → 0 < n → p ∣ n → (n / p * p ≡ n) × (0 < n / p) × (n / p < n)
quotient_less p n h l d =
    let e : n / p * p ≡ n = div-mul_cancel p d in (e, positive e, smaller e (positive e))
  where
    positive : n / p * p ≡ n → 0 < n / p
    positive e = elim (let c : (n / p ≤ 0) ⊎ (0 < n / p) = ground arith in c) [
      | inl a ↦ absurd (omega (arith, e, l, mul-le-mul_right p a))
      | inr a ↦ a
    ]

    smaller : n / p * p ≡ n → 0 < n / p → n / p < n
    smaller e a =
        omega (arith, e, a, mul-le-mul_left (n / p) (let t : 2 ≤ p = omega (arith, h) in t))

-- What dividing out one prime leaves.
pub record IsDivided (p n : ℕ) (out : List ℕ × ℕ) : Type 0 where
  pub equal : product out.0 * out.1 ≡ n
  pub only : All (λ x. x ≡ p) out.0
  pub positive : 0 < out.1
  pub done : ¬ (p ∣ out.1)

divide_out-IsDivided :
    (fuel p n : ℕ) → 1 < p → 0 < n → n ≤ fuel → IsDivided p n (divide_out fuel p n)
unfolding divide_out product
divide_out-IsDivided zero p n h l m = absurd (omega (arith, l, m))
divide_out-IsDivided (suc fuel) p n h l m = elim (Bool-cases (n % p == 0)) [
  | inl t ↦
      let (e, a, b) = quotient_less p n h l (remainder p n t) in
      let v = divide_out-IsDivided fuel p (n / p) h a (omega (arith, b, m)) in
      rw t (record {
        equal = mul_assoc p _ _ ∙ ap (◌*◌ p) v.equal ∙ mul_comm p (n / p) ∙ e;
        only = (refl, v.only);
        positive = v.positive;
        done = v.done;
      })
  | inr t ↦ rw t (record { equal = one-mul n; only = tt; positive = l; done = no_remainder p n t })
]

product_nothing : (n : ℕ) → product [] * n ≡ n
unfolding product
product_nothing n = one-mul n

-- What the loop over the primes leaves: the factors, and a number that none of them divides.
record IsFactored (ps : List ℕ) (n : ℕ) (out : List ℕ × ℕ) : Type 0 where
  equal : product out.0 * out.1 ≡ n
  only : All IsPrime out.0
  positive : 0 < out.1
  done : (out.1 ≡ 1) ⊎ ((q : ℕ) → In q ps → ¬ (q ∣ out.1))

factors_loop-IsFactored :
    (ps : List ℕ) (n : ℕ) → All IsPrime ps → 0 < n → IsFactored ps n (factors_loop ps n)
unfolding factors_loop
factors_loop-IsFactored [] n a l = record {
  equal = product_nothing n;
  only = tt;
  positive = l;
  done = inr (λ q h. absurd h);
}
factors_loop-IsFactored (p ∷ ps) n a l = elim (Bool-cases ((divide_out n p n).1 == 1)) [
  | inl t ↦ rw t (record {
    equal = v.equal;
    only = primes (divide_out n p n).0 v.only;
    positive = v.positive;
    done = inl ((==_iff _ _).0 t);
  })
  | inr t ↦
      let w = factors_loop-IsFactored ps (divide_out n p n).1 a.1 v.positive in
      let w_divides : (factors_loop ps (divide_out n p n).1).1 ∣ (divide_out n p n).1 =
        rw w.equal at (
          dvd-mul_left (factors_loop ps (divide_out n p n).1).1
            (product (factors_loop ps (divide_out n p n).1).0)) in
      rw t (record {
        equal =
            ap (λ u. u * (factors_loop ps (divide_out n p n).1).1)
              (product-append (divide_out n p n).0 _)
            ∙ mul_assoc (product (divide_out n p n).0) _ _
            ∙ ap (◌*◌ (product (divide_out n p n).0)) w.equal
            ∙ v.equal;
        only =
            All-append IsPrime (divide_out n p n).0 _ (primes (divide_out n p n).0 v.only) w.only;
        positive = w.positive;
        done = elim w.done [
          | inl e ↦ inl e
          | inr f ↦ inr (λ q i. elim i [
            | inl e ↦ λ k. v.done (dvd_trans p (rw e at k) w_divides)
            | inr j ↦ f q j
          ])
        ];
      })
]
  where
    v : IsDivided p n (divide_out n p n)
    v = divide_out-IsDivided n p n a.0.0 l (omega arith)

    primes : (xs : List ℕ) → All (λ x. x ≡ p) xs → All IsPrime xs
    primes [] h = tt
    primes (x ∷ xs) h = (rw h.0 a.0, primes xs h.1)

IsPrime-only : (limit : ℕ) (ps : List ℕ) → All (λ p. IsPrime p × (p ≤ limit)) ps → All IsPrime ps
IsPrime-only limit [] h = tt
IsPrime-only limit (p ∷ ps) h = (h.0.0, IsPrime-only limit ps h.1)

module _ ⦃s : PrimeSource⦄ ⦃r : MpzRoot⦄ where
  -- The factors of the loop, and what is left if it is not 1.
  abbrev all_factors : List ℕ × ℕ → List ℕ
  all_factors out = if out.1 == 1 then out.0 else out.0 ++ out.1 ∷ []

  all_factors-product :
      (n : ℕ)
      → 0 < n
      → r.sqrt n ≤ 2 ^ 20
      → (product (all_factors (factors_loop (s.primes_upto (r.sqrt n)) n)) ≡ n)
        × All IsPrime (all_factors (factors_loop (s.primes_upto (r.sqrt n)) n))
  unfolding product
  all_factors-product n l fits = elim (Bool-cases (out.1 == 1)) [
    | inl t ↦
        rw t (sym (mul-one _) ∙ ap (◌*◌ (product out.0)) (sym ((==_iff _ _).0 t)) ∙ w.equal, w.only)
    | inr t ↦ rw t (
      product-append out.0 (out.1 ∷ []) ∙ ap (◌*◌ (product out.0)) (mul-one out.1) ∙ w.equal,
      All-append IsPrime out.0 (out.1 ∷ []) w.only (last t, tt),
    )
  ]
    where
      out : List ℕ × ℕ
      out = factors_loop (s.primes_upto (r.sqrt n)) n

      w : IsFactored (s.primes_upto (r.sqrt n)) n out
      w =
          factors_loop-IsFactored (s.primes_upto (r.sqrt n)) n
            (IsPrime-only _ _ (s.primes_upto-IsPrime (r.sqrt n) fits)) l

      below : out.1 ≤ n
      below = le_of_dvd l (rw w.equal at (dvd-mul_left out.1 (product out.0)))

      last : (out.1 == 1) ≡ false → IsPrime out.1
      last t = elim w.done [
        | inl e ↦ absurd (cc (t, (==_iff _ _).1 e))
        | inr f ↦
            no-IsPrime_divisor out.1 (r.sqrt n)
              (let c : 0 < out.1 = w.positive in ground (arith, c, t))
              (omega (arith, below, r.sqrt-lt n))
              (λ p a b. f p (s.primes_upto-complete _ p fits a b))
      ]

  -- For a number other than zero whose square root is at most 2^20, `prime_factors` returns primes whose
  -- product is its absolute value.
  pub prime_factors-product :
      (i : ℤ)
      → 0 < nat_abs i
      → r.sqrt (nat_abs i) ≤ 2 ^ 20
      → (xs : List ℕ) × (prime_factors i ≡ ok xs) × (product xs ≡ nat_abs i) × All IsPrime xs
  unfolding prime_factors
  prime_factors-product i l h =
      let (e, a) = all_factors-product (nat_abs i) l h in
      let z : (nat_abs i == 0) ≡ false = ground (arith, l) in
      (
        all_factors (factors_loop (s.primes_upto (r.sqrt (nat_abs i))) (nat_abs i)),
        rw z (rw (lt→ltb _ _ (let c : r.sqrt (nat_abs i) < 2 ^ 32 = omega (arith, h) in c))),
        e,
        a,
      )
