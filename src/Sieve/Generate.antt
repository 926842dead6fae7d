-- ===== src/Sieve/Generate.antt =====
-- generate_primes: the primes up to a limit, and what the table is afterwards.
use csympy.Prelude.{
  ℕ, ◌+◌, ◌*◌, ◌^◌, ◌≡◌, ◌<◌, ◌≤◌, inl, inr, arith, true, Bool, Bool-cases, List, [], ◌∷◌, leb,
  leb→le,
}
use csympy.Gmp.{MpzRoot}
use csympy.NumberList.{In, All, Ascending, All-In, All-weaken}
use csympy.Primality.{IsPrime}
use csympy.Primality.Listing.{IsListing-searched}
use csympy.Primality.Search.{searched}
use csympy.Sieve.{first_primes, back, clear_if, extend, up_to, generate_primes}
use csympy.Sieve.Table.{IsTable, clear-first_primes, first_primes-IsTable}
use csympy.Sieve.Extend.{extend-IsExtended}

up_to-All :
    (P : ℕ → Type 0) (limit : ℕ) (v : List ℕ)
    → All P v
    → All (λ p. P p × (p ≤ limit)) (up_to limit v)
unfolding up_to
up_to-All P limit [] a = tt
up_to-All P limit (p ∷ v) a = elim (Bool-cases (leb p limit)) [
  | inl t ↦ rw t ((a.0, leb→le _ _ t), up_to-All P limit v a.1)
  | inr t ↦ rw t tt
]

In-up_to :
    (limit : ℕ) (v : List ℕ) (q : ℕ) → Ascending v → In q v → q ≤ limit → In q (up_to limit v)
unfolding up_to
In-up_to limit [] q a i l = absurd i
In-up_to limit (p ∷ v) q a i l =
    let below : p ≤ q = elim i [
      | inl e ↦ (let z : p ≤ q = omega (arith, e) in z)
      | inr j ↦
          (let z : p < q = All-In (λ y. p < y) q v a.0 j in let w : p ≤ q = omega (arith, z) in w)
    ] in
    let t : leb p limit ≡ true = ground (arith, below, l) in
    rw t (elim i [ inl e ↦ inl e | inr j ↦ inr (In-up_to limit v q a.1 j l) ])

up_to-Ascending : (limit : ℕ) (v : List ℕ) → Ascending v → Ascending (up_to limit v)
unfolding up_to
up_to-Ascending limit [] a = tt
up_to-Ascending limit (p ∷ v) a = elim (Bool-cases (leb p limit)) [
  | inl t ↦ rw t (
    All-weaken (λ y. (p < y) × (y ≤ limit)) (λ y. p < y) (up_to limit v) (λ y h. h.0)
        (up_to-All (λ y. p < y) limit v a.0),
    up_to-Ascending limit v a.1,
  )
  | inr t ↦ rw t tt
]

-- generate_primes returns the primes up to the limit in ascending order, whatever the table has
-- before, and it leaves a table with its invariant, the first ten primes if the table is to be
-- cleared: if one segment reaches from the end of the table to the limit, and the limit, the sieve
-- size and the numbers of the table are at most 2^28.
pub generate_primes-searched :
    ⦃r : MpzRoot⦄
    → (clears : Bool) → (segment limit : ℕ) → (primes : List ℕ) → IsTable primes
    → limit < back primes + 1 + 2 * segment
    → segment ≤ 2 ^ 28
    → limit ≤ 2 ^ 28
    → back primes < 2 ^ 28
    → ((generate_primes clears segment limit primes).0 ≡ searched limit)
      × IsTable (generate_primes clears segment limit primes).1
      × (clears ≡ true → (generate_primes clears segment limit primes).1 ≡ first_primes)
unfolding generate_primes clear_if
generate_primes-searched clears segment limit primes t b f g y =
    let longer = extend limit segment limit primes in
    let x = extend-IsExtended limit segment limit primes t b f g (omega arith) y in
    let same = IsListing-searched limit (up_to limit longer) (record {
      sound = up_to-All IsPrime limit longer x.table.sound;
      complete = λ p h l. In-up_to limit longer p x.table.ascending (x.covers p h l) l;
      ascending = up_to-Ascending limit longer x.table.ascending;
    }) in
    let cleared = clear-first_primes longer x.table in
    elim (Bool-cases clears) [
      | inl c ↦ rw c (same, rw cleared first_primes-IsTable, λ e. cleared)
      | inr c ↦ rw c (same, x.table, λ e. cc e)
    ]
