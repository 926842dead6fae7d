-- ===== src/Primality.antt =====
-- Prime numbers, for the number theory of src/ntheory.cpp.
pub mod Search
pub mod Chain
pub mod Listing
use Prim.Native.Nat.{◌∣◌}
use native.Mathlib.Nat.{
  dvd_trans, dvd_refl, le_of_dvd, pos_of_dvd_of_pos, dvd-mul_right, div-mul_cancel, mul-le-mul_left,
  mul-le-mul_right, dvd_of_mod-eq-zero, mod-eq-zero_of_dvd,
}
use csympy.Prelude.{
  ℕ, zero, suc, ◌+◌, ◌*◌, ◌/◌, ◌%◌, ◌≡◌, ◌<◌, ◌≤◌, ◌⊎◌, inl, inr, arith, ◌==◌, ==_iff, true, false,
  Bool-cases,
}

abbrev pub IsPrime : ℕ → Type 0
IsPrime n = (1 < n) × ((d : ℕ) → d ∣ n → (d ≡ 1) ⊎ (d ≡ n))

-- A test of divisibility by the remainder.
pub divides_or_not : (d n : ℕ) → (d ∣ n) ⊎ ¬ (d ∣ n)
divides_or_not d n = elim (Bool-cases (n % d == 0)) [
  | inl h ↦ inl (dvd_of_mod-eq-zero d ((==_iff _ _).0 h))
  | inr h ↦ inr (λ k. cc (h, (==_iff _ _).1 (mod-eq-zero_of_dvd d k)))
]

-- No number from 2 up to and without `k` divides `n`.
abbrev pub Rough : ℕ → ℕ → Type 0
Rough k n = (d : ℕ) → 1 < d → d < k → ¬ (d ∣ n)

one_or_more : (d n : ℕ) → d ∣ n → 0 < n → (d ≡ 1) ⊎ (1 < d)
one_or_more d n h l = let p : 0 < d = pos_of_dvd_of_pos h l in ground (arith, p)

pub Rough-IsPrime : (n : ℕ) → 1 < n → Rough n n → IsPrime n
Rough-IsPrime n l r = (
  l,
  λ d h. elim (one_or_more d n h (omega (arith, l))) [
    | inl e ↦ inl e
    | inr m ↦
        let p : d ≤ n = le_of_dvd (omega (arith, l)) h in
        elim (let s : (d ≡ n) ⊎ (d < n) = ground (arith, p) in s) [
          | inl e ↦ inr e
          | inr q ↦ absurd (r d m q h)
        ]
  ],
)

-- The search for the least divisor, from `d` on.
least_from :
    (fuel d n : ℕ)
    → 1 < d
    → d ≤ n
    → n < d + fuel
    → Rough d n
    → (p : ℕ) × (1 < p) × (p ∣ n) × Rough p n
least_from zero d n m l h r = absurd (omega (arith, l, h))
least_from (suc fuel) d n m l h r = elim (divides_or_not d n) [
  | inl q ↦ (d, m, q, r)
  | inr q ↦ elim (let s : (d ≡ n) ⊎ (d < n) = ground (arith, l) in s) [
    | inl e ↦ (n, omega (arith, m, e), dvd_refl n, λ k a b c. r k a (omega (arith, b, e)) c)
    | inr t ↦
        least_from fuel (d + 1) n (omega (arith, m)) (omega (arith, t)) (omega (arith, h))
          (λ k a b c. elim (let s : (k ≡ d) ⊎ (k < d) = ground (arith, b) in s) [
            | inl e ↦ q (rw e at c)
            | inr u ↦ r k a u c
          ])
  ]
]

-- Every number above 1 has a prime divisor.
pub IsPrime-divisor : (n : ℕ) → 1 < n → (p : ℕ) × IsPrime p × (p ∣ n)
IsPrime-divisor n l =
    let (p, m, h, r) =
      least_from n 2 n (omega arith) (omega (arith, l)) (omega arith)
        (λ d a b c. absurd (omega (arith, a, b))) in
    (p, Rough-IsPrime p m (λ d a b c. r d a b (dvd_trans d c h)), h)

prime_below : (n k d : ℕ) → ((p : ℕ) → IsPrime p → p ≤ k → ¬ (p ∣ n)) → 1 < d → d ≤ k → ¬ (d ∣ n)
prime_below n k d f a b h =
    let (p, q, u) = IsPrime-divisor d a in
    f p q (omega (arith, b, le_of_dvd (omega (arith, a)) u)) (dvd_trans p u h)

-- A number with no prime divisor up to its square root is prime.
pub no-IsPrime_divisor :
    (n k : ℕ)
    → 1 < n
    → n < (k + 1) * (k + 1)
    → ((p : ℕ) → IsPrime p → p ≤ k → ¬ (p ∣ n))
    → IsPrime n
no-IsPrime_divisor n k l m f = Rough-IsPrime n l (λ d a b h.
    elim (let s : (d ≤ k) ⊎ (k < d) = ground arith in s) [
      | inl c ↦ prime_below n k d f a c h
      | inr c ↦
          let e : n / d * d ≡ n = div-mul_cancel d h in
          prime_below n k (n / d) f (big d e a b) (small d e c) (rw e at (dvd-mul_right (n / d) d))
    ])
  where
    big : (d : ℕ) → n / d * d ≡ n → 1 < d → d < n → 1 < n / d
    big d e a b = elim (let s : (n / d ≤ 1) ⊎ (1 < n / d) = ground arith in s) [
      | inl c ↦ absurd (omega (arith, e, mul-le-mul_right d c, b))
      | inr c ↦ c
    ]

    small : (d : ℕ) → n / d * d ≡ n → k < d → n / d ≤ k
    small d e c = elim (let s : (n / d ≤ k) ⊎ (k + 1 ≤ n / d) = ground arith in s) [
      | inl a ↦ a
      | inr a ↦ absurd (
          omega (
            arith,
            e,
            m,
            mul-le-mul_right (k + 1) a,
            mul-le-mul_left (n / d) (let t : k + 1 ≤ d = omega (arith, c) in t),
          ))
    ]

pub remainder : (p n : ℕ) → (n % p == 0) ≡ true → p ∣ n
remainder p n h = dvd_of_mod-eq-zero p ((==_iff _ _).0 h)

pub no_remainder : (p n : ℕ) → (n % p == 0) ≡ false → ¬ (p ∣ n)
no_remainder p n h k = cc (h, (==_iff _ _).1 (mod-eq-zero_of_dvd p k))
