-- ===== src/Primality/Search.antt =====
-- A test for primes that runs, and the primes up to a limit, by the least divisor of each number.
use csympy.Prelude.{
  ℕ, zero, suc, ◌+◌, ◌-◌, ◌%◌, ◌≡◌, ◌<◌, ◌≤◌, ◌⊎◌, refl, sym, ◌∙◌, inl, inr, arith, true, false,
  ltb, ◌==◌, ltb→lt, lt→ltb, and-true_iff, Bool, ◌&&◌, Bool-cases, List, [], ◌∷◌, ◌++◌,
  if◌then◌else◌,
}
use csympy.NumberList.{
  In, All, Ascending, All-append, All-weaken, In-append_left, In-append_right, All-In,
  Ascending-append,
}
use csympy.Primality.{IsPrime, Rough, Rough-IsPrime, remainder, no_remainder}

unfoldable pub rough_to : ℕ → ℕ → Bool
rough_to zero n = true
rough_to (suc k) n = if n % (k + 2) == 0 then false else rough_to k n

pub rough_to-Rough : (k n : ℕ) → rough_to k n ≡ true → Rough (k + 2) n
unfolding rough_to
rough_to-Rough zero n h d a b c = absurd (omega (arith, a, b))
rough_to-Rough (suc k) n h d a b c = elim (Bool-cases (n % (k + 2) == 0)) [
  | inl t ↦ let e : rough_to (suc k) n ≡ false = rw t in cc (e, h)
  | inr t ↦
      let e : rough_to (suc k) n ≡ rough_to k n = rw t in
      elim (let o : (d ≡ k + 2) ⊎ (d < k + 2) = ground (arith, b) in o) [
        | inl o ↦ no_remainder (k + 2) n t (rw o at c)
        | inr o ↦ rough_to-Rough k n (sym e ∙ h) d a o c
      ]
]

Rough-rough_to : (k n : ℕ) → Rough (k + 2) n → rough_to k n ≡ true
unfolding rough_to
Rough-rough_to zero n r = refl
Rough-rough_to (suc k) n r = elim (Bool-cases (n % (k + 2) == 0)) [
  | inl t ↦ absurd (r (k + 2) (omega arith) (omega arith) (remainder (k + 2) n t))
  | inr t ↦ rw t (Rough-rough_to k n (λ d a b. r d a (omega (arith, b))))
]

unfoldable pub is_prime : ℕ → Bool
is_prime n = ltb 1 n && rough_to (n - 2) n

pub is_prime-IsPrime : (n : ℕ) → is_prime n ≡ true → IsPrime n
unfolding is_prime
is_prime-IsPrime n h =
    let (a, b) = (and-true_iff _ _).0 h in
    let l : 1 < n = ltb→lt _ _ a in
    Rough-IsPrime n l (λ d x y. rough_to-Rough (n - 2) n b d x (omega (arith, y, l)))

pub IsPrime-is_prime : (n : ℕ) → IsPrime n → is_prime n ≡ true
unfolding is_prime
IsPrime-is_prime n h = (and-true_iff _ _).1 (
  lt→ltb _ _ h.0,
  Rough-rough_to (n - 2) n (λ d x y k. elim (h.1 d k) [
    | inl e ↦ omega (arith, x, e)
    | inr e ↦ omega (arith, y, e, h.0)
  ]),
)

unfoldable pub searched : ℕ → List ℕ
searched zero = []
searched (suc n) =
    let before = searched n in if is_prime (suc n) then before ++ suc n ∷ [] else before

searched_next :
    (n : ℕ)
    → All (λ p. IsPrime p × (p ≤ n)) (searched n)
    → All (λ p. IsPrime p × (p ≤ suc n)) (searched n)
searched_next n = All-weaken _ _ (searched n) (λ x h. (h.0, omega (arith, h.1)))

pub searched-IsPrime : (l : ℕ) → All (λ p. IsPrime p × (p ≤ l)) (searched l)
unfolding searched
searched-IsPrime zero = tt
searched-IsPrime (suc n) = elim (Bool-cases (is_prime (suc n))) [
  | inl p ↦ rw p (
      All-append _ (searched n) _ (searched_next n (searched-IsPrime n))
        ((is_prime-IsPrime (suc n) p, omega arith), tt))
  | inr p ↦ rw p (searched_next n (searched-IsPrime n))
]

pub searched_complete : (l p : ℕ) → IsPrime p → p ≤ l → In p (searched l)
unfolding searched
searched_complete zero p h l = absurd (omega (arith, h.0, l))
searched_complete (suc n) p h l = elim (Bool-cases (is_prime (suc n))) [
  | inl q ↦ rw q (elim (let c : (p ≡ suc n) ⊎ (p ≤ n) = ground (arith, l) in c) [
    | inl e ↦ rw e (In-append_right (suc n) (searched n) (suc n ∷ []) (inl refl))
    | inr c ↦ In-append_left p (searched n) (suc n ∷ []) (searched_complete n p h c)
  ])
  | inr q ↦ rw q (elim (let c : (p ≡ suc n) ⊎ (p ≤ n) = ground (arith, l) in c) [
    | inl e ↦ absurd (cc (q, IsPrime-is_prime (suc n) (rw e at h)))
    | inr c ↦ searched_complete n p h c
  ])
]

pub searched-Ascending : (l : ℕ) → Ascending (searched l)
unfolding searched
searched-Ascending zero = tt
searched-Ascending (suc n) = elim (Bool-cases (is_prime (suc n))) [
  | inl q ↦ rw q (
      Ascending-append (searched n) (suc n ∷ []) (searched-Ascending n) (tt, tt)
        (λ x q i j. elim j [
          | inl e ↦
              let h : IsPrime x × (x ≤ n) = All-In _ x (searched n) (searched-IsPrime n) i in
              omega (arith, e, h.1)
          | inr j ↦ absurd j
        ]))
  | inr q ↦ rw q (searched-Ascending n)
]
