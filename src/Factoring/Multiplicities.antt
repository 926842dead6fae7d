-- ===== src/Factoring/Multiplicities.antt =====
-- `prime_factor_multiplicities` returns the prime powers of a number, and `totient` is computed
-- from them.
use Prim.Native.Nat.{◌∣◌}
use native.Mathlib.Nat.{
  dvd_trans, dvd_refl, dvd-mul_left, mul_assoc, mul_comm, one-mul, mul-one, le_of_dvd, pow-suc,
  pow-zero,
}
use csympy.Prelude.{
  ℕ, zero, suc, ◌*◌, ◌/◌, ◌%◌, ◌^◌, ◌≡◌, ◌<◌, ◌≤◌, ◌⊎◌, sym, ap, ◌∙◌, inl, inr, arith, false, ltb,
  lt→ltb, ◌==◌, ==_iff, Bool-cases, List, [], ◌∷◌, ◌++◌, if◌then◌else◌,
}
use csympy.Prelude.Int.{ℤ, nat_abs}
use csympy.NumberClass.{ok}
use csympy.Primality.{IsPrime, no-IsPrime_divisor, remainder, no_remainder}
use csympy.NumberList.{In, All, Ascending, All-In, All-of_In}
use csympy.Factoring.{PrimeSource, count_out, multiplicities_loop, prime_factor_multiplicities}
use csympy.Gmp.{MpzRoot}
use csympy.Factoring.Complete.{quotient_less}

-- The product of the powers of a map from primes to exponents.
unfoldable pub powers : List (ℕ × ℕ) → ℕ
powers [] = 1
powers ((p, c) ∷ m) = p ^ c * powers m

abbrev pub keys : List (ℕ × ℕ) → List ℕ
keys [] = []
keys ((p, c) ∷ m) = p ∷ keys m

-- Every exponent is positive.
abbrev pub Positive : List (ℕ × ℕ) → Type 0
Positive [] = Unit
Positive ((p, c) ∷ m) = (0 < c) × Positive m

record IsCounted (p n : ℕ) (out : ℕ × ℕ) : Type 0 where
  equal : p ^ out.0 * out.1 ≡ n
  positive : 0 < out.1
  done : ¬ (p ∣ out.1)

count_out-IsCounted : (fuel p n : ℕ) → 1 < p → 0 < n → n ≤ fuel → IsCounted p n (count_out fuel p n)
unfolding count_out
count_out-IsCounted zero p n h l m = absurd (omega (arith, l, m))
count_out-IsCounted (suc fuel) p n h l m = elim (Bool-cases (n % p == 0)) [
  | inl t ↦
      let (e, a, b) = quotient_less p n h l (remainder p n t) in
      let v = count_out-IsCounted fuel p (n / p) h a (omega (arith, b, m)) in
      rw t (record {
        equal =
            ap (λ u. u * (count_out fuel p (n / p)).1)
              (pow-suc p (count_out fuel p (n / p)).0 ∙ mul_comm _ p)
            ∙ mul_assoc p _ _
            ∙ ap (◌*◌ p) v.equal
            ∙ mul_comm p (n / p)
            ∙ e;
        positive = v.positive;
        done = v.done;
      })
  | inr t ↦ rw t (record {
    equal = ap (λ u. u * n) (pow-zero p) ∙ one-mul n;
    positive = l;
    done = no_remainder p n t;
  })
]

record IsListed (ps : List ℕ) (n : ℕ) (out : List (ℕ × ℕ) × ℕ) : Type 0 where
  equal : powers out.0 * out.1 ≡ n
  exponents : Positive out.0
  within : (q : ℕ) → In q (keys out.0) → In q ps
  ascending : Ascending ps → Ascending (keys out.0)
  positive : 0 < out.1
  done : (out.1 ≡ 1) ⊎ ((q : ℕ) → In q ps → ¬ (q ∣ out.1))

powers_nothing : (n : ℕ) → powers [] * n ≡ n
unfolding powers
powers_nothing n = one-mul n

powers_first :
    (p c : ℕ) (m : List (ℕ × ℕ)) (n : ℕ) → powers ((p, c) ∷ m) * n ≡ p ^ c * (powers m * n)
unfolding powers
powers_first p c m n = mul_assoc (p ^ c) (powers m) n

-- One round of the loop, from what the count and the later rounds leave.
abbrev round : ℕ → ℕ × ℕ → List (ℕ × ℕ) × ℕ → List (ℕ × ℕ) × ℕ
round p out rest =
    if ltb 0 out.0
    then if out.1 == 1 then ((p, out.0) ∷ [], out.1) else ((p, out.0) ∷ rest.0, rest.1)
    else rest

round-IsListed :
    (p n : ℕ) (ps : List ℕ) (out : ℕ × ℕ) (rest : List (ℕ × ℕ) × ℕ)
    → IsCounted p n out
    → IsListed ps out.1 rest
    → IsListed (p ∷ ps) n (round p out rest)
round-IsListed p n ps out rest v w = elim (Bool-cases (ltb 0 out.0)) [
  | inl h ↦ elim (Bool-cases (out.1 == 1)) [
    | inl t ↦ rw h (
        rw t (record {
          equal =
              powers_first p out.0 [] out.1 ∙ ap (◌*◌ (p ^ out.0)) (powers_nothing out.1) ∙ v.equal;
          exponents = (ground (arith, h), tt);
          within = λ q i. elim i [ inl e ↦ inl e | inr j ↦ absurd j ];
          ascending = λ b. (tt, tt);
          positive = v.positive;
          done = inl ((==_iff _ _).0 t);
        }))
    | inr t ↦ rw h (
        rw t (record {
          equal = powers_first p out.0 rest.0 rest.1 ∙ ap (◌*◌ (p ^ out.0)) w.equal ∙ v.equal;
          exponents = (ground (arith, h), w.exponents);
          within = λ q i. elim i [ inl e ↦ inl e | inr j ↦ inr (w.within q j) ];
          ascending = λ b. (
            All-of_In _ (keys rest.0) (λ q i. All-In _ q ps b.0 (w.within q i)),
            w.ascending b.1,
          );
          positive = w.positive;
          done = rest_done;
        }))
  ]
  | inr h ↦ rw h (record {
    equal =
        w.equal
        ∙ sym (one-mul out.1)
        ∙ ap (λ u. u * out.1) (sym (pow-zero p))
        ∙ ap (λ k. p ^ k * out.1) (none_out h)
        ∙ v.equal;
    exponents = w.exponents;
    within = λ q i. inr (w.within q i);
    ascending = λ b. w.ascending b.1;
    positive = w.positive;
    done = rest_done;
  })
]
  where
    none_out : ltb 0 out.0 ≡ false → 0 ≡ out.0
    none_out h = ground (arith, h)

    divides_rest : rest.1 ∣ out.1
    divides_rest = rw w.equal at (dvd-mul_left rest.1 (powers rest.0))

    rest_done : (rest.1 ≡ 1) ⊎ ((q : ℕ) → In q (p ∷ ps) → ¬ (q ∣ rest.1))
    rest_done = elim w.done [
      | inl e ↦ inl e
      | inr f ↦ inr (λ q i. elim i [
        | inl e ↦ λ k. v.done (dvd_trans p (rw e at k) divides_rest)
        | inr j ↦ f q j
      ])
    ]

multiplicities_loop-IsListed :
    (ps : List ℕ) (n : ℕ) → All IsPrime ps → 0 < n → IsListed ps n (multiplicities_loop ps n)
unfolding multiplicities_loop
multiplicities_loop-IsListed [] n a l = record {
  equal = powers_nothing n;
  exponents = tt;
  within = λ q h. h;
  ascending = λ h. tt;
  positive = l;
  done = inr (λ q h. absurd h);
}
multiplicities_loop-IsListed (p ∷ ps) n a l =
    let v = count_out-IsCounted n p n a.0.0 l (omega arith) in
    round-IsListed p n ps (count_out n p n) _ v
      (multiplicities_loop-IsListed ps (count_out n p n).1 a.1 v.positive)

-- The prime powers of a number.
pub record IsFactorization (n : ℕ) (m : List (ℕ × ℕ)) : Type 0 where
  pub equal : powers m ≡ n
  pub primes : All IsPrime (keys m)
  pub exponents : Positive m
  pub ascending : Ascending (keys m)

powers-append : (m w : List (ℕ × ℕ)) → powers (m ++ w) ≡ powers m * powers w
unfolding powers
powers-append [] w = sym (one-mul (powers w))
powers-append ((p, c) ∷ m) w =
    ap (◌*◌ (p ^ c)) (powers-append m w) ∙ sym (mul_assoc (p ^ c) (powers m) (powers w))

keys-append :
    (P : ℕ → Type 0) (m : List (ℕ × ℕ)) (q : ℕ)
    → All P (keys m)
    → P q
    → All P (keys (m ++ (q, 1) ∷ []))
keys-append P [] q a h = (h, tt)
keys-append P ((p, c) ∷ m) q a h = (a.0, keys-append P m q a.1 h)

Positive-append : (m : List (ℕ × ℕ)) (q : ℕ) → Positive m → Positive (m ++ (q, 1) ∷ [])
Positive-append [] q a = (omega arith, tt)
Positive-append ((p, c) ∷ m) q a = (a.0, Positive-append m q a.1)

Ascending-append :
    (m : List (ℕ × ℕ)) (q : ℕ)
    → Ascending (keys m)
    → All (λ x. x < q) (keys m)
    → Ascending (keys (m ++ (q, 1) ∷ []))
Ascending-append [] q a h = (tt, tt)
Ascending-append ((p, c) ∷ m) q a h =
    (keys-append (λ y. p < y) m q a.0 h.0, Ascending-append m q a.1 h.1)

module _ ⦃s : PrimeSource⦄ ⦃r : MpzRoot⦄ where
  abbrev all_powers : List (ℕ × ℕ) × ℕ → List (ℕ × ℕ)
  all_powers out = if out.1 == 1 then out.0 else out.0 ++ (out.1, 1) ∷ []

  all_powers-IsFactorization :
      (n : ℕ)
      → 0 < n
      → r.sqrt n ≤ 2 ^ 20
      → IsFactorization n (all_powers (multiplicities_loop (s.primes_upto (r.sqrt n)) n))
  unfolding powers
  all_powers-IsFactorization n l fits = elim (Bool-cases (out.1 == 1)) [
    | inl t ↦ rw t (record {
      equal = sym (mul-one _) ∙ ap (◌*◌ (powers out.0)) (sym ((==_iff _ _).0 t)) ∙ w.equal;
      primes = old_primes;
      exponents = w.exponents;
      ascending = w.ascending (s.primes_upto-Ascending (r.sqrt n) fits);
    })
    | inr t ↦ rw t (record {
      equal =
          powers-append out.0 ((out.1, 1) ∷ [])
          ∙ ap (◌*◌ (powers out.0)) (mul-one (out.1 ^ 1) ∙ first_power out.1)
          ∙ w.equal;
      primes = keys-append IsPrime out.0 out.1 old_primes (last t);
      exponents = Positive-append out.0 out.1 w.exponents;
      ascending =
          Ascending-append out.0 out.1 (w.ascending (s.primes_upto-Ascending (r.sqrt n) fits))
            (All-of_In _ (keys out.0) (above t));
    })
  ]
    where
      limits : All (λ p. IsPrime p × (p ≤ r.sqrt n)) (s.primes_upto (r.sqrt n))
      limits = s.primes_upto-IsPrime (r.sqrt n) fits

      out : List (ℕ × ℕ) × ℕ
      out = multiplicities_loop (s.primes_upto (r.sqrt n)) n

      w : IsListed (s.primes_upto (r.sqrt n)) n out
      w =
          multiplicities_loop-IsListed (s.primes_upto (r.sqrt n)) n
            (All-of_In _ _ (λ q i. (All-In _ q _ limits i).0)) l

      first_power : (q : ℕ) → q ^ 1 ≡ q
      first_power q = pow-suc q 0 ∙ ap (λ u. u * q) (pow-zero q) ∙ one-mul q

      old_primes : All IsPrime (keys out.0)
      old_primes = All-of_In _ (keys out.0) (λ q i. (All-In _ q _ limits (w.within q i)).0)

      below : out.1 ≤ n
      below = le_of_dvd l (rw w.equal at (dvd-mul_left out.1 (powers out.0)))

      left : (out.1 == 1) ≡ false → (q : ℕ) → In q (s.primes_upto (r.sqrt n)) → ¬ (q ∣ out.1)
      left t = elim w.done [ inl e ↦ absurd (cc (t, (==_iff _ _).1 e)) | inr f ↦ f ]

      last : (out.1 == 1) ≡ false → IsPrime out.1
      last t =
          no-IsPrime_divisor out.1 (r.sqrt n)
            (let c : 0 < out.1 = w.positive in ground (arith, c, t))
            (omega (arith, below, r.sqrt-lt n))
            (λ p a b. left t p (s.primes_upto-complete _ p fits a b))

      above : (out.1 == 1) ≡ false → (q : ℕ) → In q (keys out.0) → q < out.1
      above t q i = elim (let c : (out.1 ≤ r.sqrt n) ⊎ (r.sqrt n < out.1) = ground arith in c) [
        | inl c ↦
            absurd (left t out.1 (s.primes_upto-complete _ out.1 fits (last t) c) (dvd_refl out.1))
        | inr c ↦ omega (arith, c, (All-In _ q _ limits (w.within q i)).1)
      ]

  -- For a number other than zero whose square root is at most 2^20, the map has its prime powers: the
  -- keys are primes in ascending order, the exponents are positive, and the product of the powers is
  -- the absolute value.
  pub prime_factor_multiplicities-IsFactorization :
      (i : ℤ)
      → 0 < nat_abs i
      → r.sqrt (nat_abs i) ≤ 2 ^ 20
      → (m : List (ℕ × ℕ)) × (prime_factor_multiplicities i ≡ ok m) × IsFactorization (nat_abs i) m
  unfolding prime_factor_multiplicities
  prime_factor_multiplicities-IsFactorization i l h =
      let z : (nat_abs i == 0) ≡ false = ground (arith, l) in
      (
        all_powers (multiplicities_loop (s.primes_upto (r.sqrt (nat_abs i))) (nat_abs i)),
        rw z (rw (lt→ltb _ _ (let c : r.sqrt (nat_abs i) < 2 ^ 32 = omega (arith, h) in c))),
        all_powers-IsFactorization (nat_abs i) l h,
      )
