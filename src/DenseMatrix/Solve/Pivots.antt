-- ===== src/DenseMatrix/Solve/Pivots.antt =====
-- `pivot` finds the first row from the given one on whose entry in the column is not zero.
use csympy.Prelude.{
  ℕ, zero, suc, ◌+◌, ◌-◌, ◌≡◌, ◌<◌, ◌≤◌, arith, true, false, inl, inr, ◌⊎◌, Bool-cases,
}
use csympy.DenseMatrix.{DenseMatrix, Entries, entry}
use csympy.DenseMatrix.Solve.{Division, first_nonzero, pivot}

module _ {ℓ} {A : Type ℓ} ⦃e : Entries A⦄ ⦃d : Division A⦄ where
  -- Row `k` is the first one from `r` on with an entry that is not zero, or the number of rows.
  pub record IsPivot (b : DenseMatrix A) (r c k : ℕ) : Type 0 where
    pub from : r ≤ k
    pub upto : k ≤ b.row
    pub zeros : (p : ℕ) → r ≤ p → p < k → d.eq (entry b p c) e.zero_entry ≡ true
    pub nonzero : k < b.row → d.eq (entry b k c) e.zero_entry ≡ false

  first_nonzero-IsPivot :
      (b : DenseMatrix A) (c n k : ℕ) → k + n ≡ b.row → IsPivot b k c (first_nonzero b c n k)
  unfolding first_nonzero
  first_nonzero-IsPivot b c zero k h = record {
    from = omega arith;
    upto = omega (arith, h);
    zeros = λ p q r. absurd (omega (arith, q, r));
    nonzero = λ q. absurd (omega (arith, q, h));
  }
  first_nonzero-IsPivot b c (suc n) k h = elim (Bool-cases (d.eq (entry b k c) e.zero_entry)) [
    | inl t ↦
        let r = first_nonzero-IsPivot b c n (k + 1) (omega (arith, h)) in
        rw t (record {
          from = omega (arith, r.from);
          upto = r.upto;
          zeros = λ p q s. elim (let o : (p ≡ k) ⊎ (k + 1 ≤ p) = ground (arith, q) in o) [
            | inl o ↦ rw o t
            | inr o ↦ r.zeros p o s
          ];
          nonzero = r.nonzero;
        })
    | inr t ↦ rw t (record {
      from = omega arith;
      upto = omega (arith, h);
      zeros = λ p q s. absurd (omega (arith, q, s));
      nonzero = λ q. t;
    })
  ]

  -- From a row of the matrix, `pivot` returns the first row from there on whose entry in the column
  -- is not zero, and the number of rows if there is none.
  pivot-IsPivot : (b : DenseMatrix A) (r c : ℕ) → r < b.row → IsPivot b r c (pivot b r c)
  unfolding pivot
  pivot-IsPivot b r c h = elim (Bool-cases (d.eq (entry b r c) e.zero_entry)) [
    | inl t ↦ rw t (first_nonzero-IsPivot b c (b.row - r) r (omega (arith, h)))
    | inr t ↦ rw t (record {
      from = omega arith;
      upto = omega (arith, h);
      zeros = λ p q s. absurd (omega (arith, q, s));
      nonzero = λ q. t;
    })
  ]
