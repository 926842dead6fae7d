-- ===== src/Sieve/Multiples.antt =====
-- The flags that `mark` clears, and the first odd multiple of a number.
use native.Mathlib.Nat.{div-lt_iff_lt-mul, le-div_iff_mul-le}
use csympy.Prelude.{
  ℕ, zero, suc, ◌+◌, ◌-◌, ◌*◌, ◌/◌, ◌%◌, ◌^◌, ◌≡◌, ◌≢◌, ◌<◌, ◌≤◌, ◌⊎◌, refl, ap, ◌∙◌, inl, inr,
  arith, false, Bool, Bool-cases, List, [], ◌∷◌, ◌==◌, ==_iff,
}
use csympy.Vector.{at, assign, for_each}
use csympy.Vector.Laws.{at-assign_other}
use csympy.Sieve.{mark, first_multiple}

same_or_not : (i k : ℕ) → (i ≡ k) ⊎ ((i == k) ≡ false)
same_or_not i k = ground arith

at-assign-false : (v : List Bool) (i : ℕ) → at false (assign v i false) i ≡ false
unfolding at assign
at-assign-false [] i = refl
at-assign-false (a ∷ v) zero = refl
at-assign-false (a ∷ v) (suc i) = at-assign-false v i

assign_stays :
    (v : List Bool) (k i : ℕ) → at false v i ≡ false → at false (assign v k false) i ≡ false
assign_stays v k i h = elim (same_or_not i k) [
  | inl e ↦ rw e (at-assign-false v k)
  | inr n ↦ at-assign_other false false v k i n ∙ h
]

pub mark_stays :
    (f c s : ℕ) (v : List Bool) (i : ℕ) → at false v i ≡ false → at false (mark f c s v) i ≡ false
unfolding mark for_each
mark_stays f zero s v i h = h
mark_stays f (suc c) s v i h =
    assign_stays (for_each c (λ k u. assign u (f + k * s) false) v) (f + c * s) i
      (mark_stays f c s v i h)

pub mark_hit :
    (f c s : ℕ) (v : List Bool) (i k : ℕ)
    → k < c
    → i ≡ f + k * s
    → at false (mark f c s v) i ≡ false
unfolding mark for_each
mark_hit f zero s v i k h e = absurd (omega (arith, h))
mark_hit f (suc c) s v i k h e =
    let w = for_each c (λ k u. assign u (f + k * s) false) v in
    elim (let o : (k ≡ c) ⊎ (k < c) = ground (arith, h) in o) [
      | inl o ↦ rw e (rw o (at-assign-false w (f + c * s)))
      | inr o ↦ assign_stays w (f + c * s) i (mark_hit f c s v i k o e)
    ]

pub mark_miss :
    (f c s : ℕ) (v : List Bool) (i : ℕ)
    → ((k : ℕ) → k < c → i ≢ f + k * s)
    → at false (mark f c s v) i ≡ at false v i
unfolding mark for_each
mark_miss f zero s v i h = refl
mark_miss f (suc c) s v i h = elim (same_or_not i (f + c * s)) [
  | inl e ↦ absurd (h c (omega arith) e)
  | inr n ↦
      at-assign_other false false (for_each c (λ k u. assign u (f + k * s) false) v) (f + c * s) i n
      ∙ mark_miss f c s v i (λ k l. h k (omega (arith, l)))
]

-- The least odd multiple `m * q` of the odd number `q` above an even number.
pub record IsFirst (start q first : ℕ) : Type 0 where
  pub factor : ℕ
  pub equal : first ≡ factor * q
  pub odd : first % 2 ≡ 1
  pub above : start < first
  pub near : first ≤ start + 2 * q
  pub reached : (c : ℕ) → start < c * q → (c * q) % 2 ≡ 1 → (k : ℕ) × (c * q ≡ first + 2 * (k * q))

parity : (h a : ℕ) → a * (2 * h + 1) ≡ 2 * (a * h) + a
parity h a = omega arith

steps : (q m c : ℕ) → m ≤ c → m % 2 ≡ c % 2 → (k : ℕ) × (c * q ≡ m * q + 2 * (k * q))
steps q m c h e =
    let k = (c - m) / 2 in
    let s : c ≡ m + 2 * k = omega (arith, h, e) in
    (k, ap (λ t. t * q) s ∙ (let t : (m + 2 * k) * q ≡ m * q + 2 * (k * q) = omega arith in t))

pub first_multiple-IsFirst :
    (start h : ℕ)
    → start % 2 ≡ 0
    → start + 2 * (2 * h + 1) < 2 ^ 32
    → IsFirst start (2 * h + 1) (first_multiple start (2 * h + 1))
unfolding first_multiple
first_multiple-IsFirst start h e l =
    let q = 2 * h + 1 in
    let a = start / q + 1 in
    let positive : 0 < q = omega arith in
    let low : start < a * q =
      (div-lt_iff_lt-mul positive).0 (let o : start / q < a = omega arith in o) in
    let lower : start / q * q ≤ start =
      (le-div_iff_mul-le positive).0 (let o : start / q ≤ start / q = omega arith in o) in
    let split : a * q ≡ start / q * q + q = omega arith in
    let kept : a * q % 2 ^ 32 ≡ a * q = omega (arith, l, lower, split) in
    let moved : (a * q + q) % 2 ^ 32 ≡ a * q + q = omega (arith, l, lower, split) in
    let least = λ (c : ℕ) (o : start < c * q).
      let z : start / q < c = (div-lt_iff_lt-mul positive).1 o in z in
    elim (Bool-cases (a * q % 2 == 0)) [
      | inl t ↦
          let even : a * q % 2 ≡ 0 = (==_iff _ _).0 t in
          rw kept (
            rw t (
              rw moved (record {
                factor = a + 1;
                equal = let z : a * q + q ≡ (a + 1) * q = omega arith in z;
                odd = omega (arith, even);
                above = omega (arith, low);
                near = omega (arith, lower, split);
                reached = λ c o p.
                    let (k, u) =
                      steps q (a + 1) c (omega (arith, least c o, even, p, parity h a, parity h c))
                        (omega (arith, even, p, parity h a, parity h c)) in
                    (k, omega (arith, u));
              })))
      | inr t ↦
          let odd : a * q % 2 ≡ 1 = ground (arith, t) in
          rw kept (
            rw t (record {
              factor = a;
              equal = refl;
              odd = odd;
              above = low;
              near = omega (arith, lower, split);
              reached = λ c o p.
                  steps q a c (omega (arith, least c o))
                    (omega (arith, odd, p, parity h a, parity h c));
            }))
    ]
