-- ===== src/Sieve/Segment.antt =====
-- The numbers that a segment adds to the table.
use csympy.Prelude.{
  ℕ, zero, suc, ◌+◌, ◌-◌, ◌*◌, ◌/◌, ◌%◌, ◌≡◌, ◌<◌, ◌≤◌, ◌⊎◌, refl, inl, inr, arith, true, false,
  Bool, Bool-cases, List,
}
use csympy.NumberList.{In, All, Ascending, All-weaken}
use csympy.Vector.{at}
use csympy.Sieve.{pushed}

-- The flag of a number of the segment.
abbrev pub flag : List Bool → ℕ → ℕ → Bool
flag flags start n = at false flags ((n - start) / 2)

-- `pushed` has the numbers with a flag, in ascending order.
pub pushed-All :
    (rounds n start : ℕ) (flags : List Bool)
    → All
        (λ p. (n ≤ p) × (p < n + 2 * rounds) × (p % 2 ≡ n % 2) × (flag flags start p ≡ true))
        (pushed rounds n start flags)
unfolding pushed
pushed-All zero n start flags = tt
pushed-All (suc rounds) n start flags =
    let later =
      All-weaken _
        (λ p. (n ≤ p) × (p < n + 2 * suc rounds) × (p % 2 ≡ n % 2) × (flag flags start p ≡ true))
        (pushed rounds (n + 2) start flags)
        (λ p h. (omega (arith, h.0), omega (arith, h.1), omega (arith, h.2), h.3))
        (pushed-All rounds (n + 2) start flags) in
    elim (Bool-cases (flag flags start n)) [
      | inl t ↦ rw t ((omega arith, omega arith, refl, t), later)
      | inr t ↦ rw t later
    ]

pub pushed_complete :
    (rounds n start : ℕ) (flags : List Bool) (p : ℕ)
    → n ≤ p
    → p < n + 2 * rounds
    → p % 2 ≡ n % 2
    → flag flags start p ≡ true
    → In p (pushed rounds n start flags)
unfolding pushed
pushed_complete zero n start flags p a b c f = absurd (omega (arith, a, b))
pushed_complete (suc rounds) n start flags p a b c f =
    elim (let o : (p ≡ n) ⊎ (n + 2 ≤ p) = ground (arith, a, c) in o) [
      | inl o ↦ rw (rw o at f) (inl o)
      | inr o ↦
          let later =
            pushed_complete rounds (n + 2) start flags p o (omega (arith, b)) (omega (arith, c))
              f in
          elim (Bool-cases (flag flags start n)) [ inl t ↦ rw t (inr later) | inr t ↦ rw t later ]
    ]

pub pushed-Ascending :
    (rounds n start : ℕ) (flags : List Bool) → Ascending (pushed rounds n start flags)
unfolding pushed
pushed-Ascending zero n start flags = tt
pushed-Ascending (suc rounds) n start flags =
    let later = pushed-Ascending rounds (n + 2) start flags in
    let above =
      All-weaken _ (λ p. n < p) (pushed rounds (n + 2) start flags) (λ p h. omega (arith, h.0))
        (pushed-All rounds (n + 2) start flags) in
    elim (Bool-cases (flag flags start n)) [ inl t ↦ rw t (above, later) | inr t ↦ rw t later ]
