-- ===== src/Primality/Chain.antt =====
-- For a number from 29 up to 2^20 there is a prime above it that is at most its double: a chain of
-- primes, each below the double of the one before.
use csympy.Prelude.{
  ℕ, ◌+◌, ◌*◌, ◌^◌, ◌≡◌, ◌<◌, ◌≤◌, ◌⊎◌, refl, inl, inr, arith, true, ltb, leb, ltb→lt, leb→le,
  and-true_iff, Bool, ◌&&◌, List, [], ◌∷◌,
}
use csympy.Primality.{IsPrime, no-IsPrime_divisor}
use csympy.Primality.Search.{rough_to, rough_to-Rough}

-- Each number `n` of the chain is prime, as no number up to `k` divides it and `n` is below the
-- square of `k + 2`, and it is at most the double of the one before.
links : ℕ → List (ℕ × ℕ) → Bool
links before [] = true
links before ((n, k) ∷ chain) =
    leb n (2 * before)
    && (ltb 1 n && (ltb n ((k + 2) * (k + 2)) && (rough_to k n && links n chain)))

last_link : ℕ → List (ℕ × ℕ) → ℕ
last_link before [] = before
last_link before ((n, k) ∷ chain) = last_link n chain

link-IsPrime :
    (n k : ℕ) → ltb 1 n ≡ true → ltb n ((k + 2) * (k + 2)) ≡ true → rough_to k n ≡ true → IsPrime n
link-IsPrime n k a b c =
    no-IsPrime_divisor n (k + 1) (ltb→lt _ _ a)
      (let s : n < (k + 1 + 1) * (k + 1 + 1) = omega (arith, ltb→lt _ _ b) in s)
      (λ p q l. rough_to-Rough k n c p q.0 (omega (arith, l)))

below_or_from : (x n : ℕ) → (x < n) ⊎ (n ≤ x)
below_or_from x n = ground arith

double_of_next : (n before x : ℕ) → leb n (2 * before) ≡ true → before ≤ x → n ≤ 2 * x
double_of_next n before x a l = omega (arith, leb→le n (2 * before) a, l)

next_link :
    (before : ℕ) (chain : List (ℕ × ℕ)) (x : ℕ)
    → links before chain ≡ true
    → before ≤ x
    → x < last_link before chain
    → (q : ℕ) × IsPrime q × (x < q) × (q ≤ 2 * x)
unfolding links last_link
next_link before [] x h l m = absurd (omega (arith, l, m))
next_link before ((n, k) ∷ chain) x h l m =
    let (a, b) = (and-true_iff _ _).0 h in
    let (c, e) = (and-true_iff _ _).0 b in
    let (f, g) = (and-true_iff _ _).0 e in
    let (s, t) = (and-true_iff _ _).0 g in
    elim (below_or_from x n) [
      | inl o ↦ (n, link-IsPrime n k c f s, o, double_of_next n before x a l)
      | inr o ↦ next_link n chain x t o m
    ]

abbrev chain : List (ℕ × ℕ)
chain =
    (53, 7)
    ∷ (103, 10)
    ∷ (199, 14)
    ∷ (397, 19)
    ∷ (787, 28)
    ∷ (1571, 39)
    ∷ (3137, 56)
    ∷ (6271, 79)
    ∷ (12541, 111)
    ∷ (25073, 158)
    ∷ (50131, 223)
    ∷ (100237, 316)
    ∷ (200467, 447)
    ∷ (400931, 633)
    ∷ (801859, 895)
    ∷ (1603711, 1266)
    ∷ []

links-chain : links 29 chain ≡ true
unfolding links rough_to
links-chain = refl

chain_end : last_link 29 chain ≡ 1603711
unfolding last_link
chain_end = refl

pub IsPrime-above : (x : ℕ) → 29 ≤ x → x ≤ 2 ^ 20 → (q : ℕ) × IsPrime q × (x < q) × (q ≤ 2 * x)
IsPrime-above x l m = next_link 29 chain x links-chain l (omega (arith, m, chain_end))
