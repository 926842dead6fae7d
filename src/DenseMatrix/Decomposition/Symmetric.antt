-- ===== src/DenseMatrix/Decomposition/Symmetric.antt =====
-- `is_symmetric_dense` compares each entry with its mirror image.
use csympy.Prelude.{
  ℕ, zero, suc, ◌+◌, ◌-◌, ◌==◌, ◌≡◌, ◌<◌, ◌↔◌, refl, sym, arith, Bool, true, false, inl, inr, ◌⊎◌,
  Bool-cases, if◌then◌else◌, ==_iff,
}
use csympy.Vector.{for_each, for_range}
use csympy.DenseMatrix.{DenseMatrix, Entries, entry}
use csympy.DenseMatrix.Solve.{Division}
use csympy.DenseMatrix.Decomposition.{symmetric_row, is_symmetric_dense}

-- A loop that starts with `true` and becomes `false` at a test that fails.
module _ (test : ℕ → Bool) where
  abbrev check : ℕ → Bool → Bool
  check n s = for_each n (λ k t. if test k then t else false) s

  pub check_iff :
      (n : ℕ) (s : Bool) → (check n s ≡ true) ↔ ((s ≡ true) × ((k : ℕ) → k < n → test k ≡ true))
  unfolding for_each
  check_iff zero s = (λ h. (h, λ k l. absurd (omega (arith, l))), λ h. h.0)
  check_iff (suc n) s = elim (Bool-cases (test n)) [
    | inl t ↦ rw t (
      λ h.
          let (a, b) = (check_iff n s).0 h in
          (
            a,
            λ k l. elim (let c : (k ≡ n) ⊎ (k < n) = ground (arith, l) in c) [
              | inl c ↦ rw c t
              | inr c ↦ b k c
            ],
          ),
      λ h. (check_iff n s).1 (h.0, λ k l. h.1 k (omega (arith, l))),
    )
    | inr t ↦ rw t (λ h. absurd (cc h), λ h. absurd (cc (t, h.1 n (omega arith))))
  ]

module _ {ℓ} {A : Type ℓ} ⦃e : Entries A⦄ ⦃d : Division A⦄ where
  symmetric_row_iff :
      (a : DenseMatrix A) (i : ℕ) (s : Bool)
      → (symmetric_row a i s ≡ true)
        ↔ ((s ≡ true) × ((j : ℕ) → i < j → j < a.col → d.eq (entry a j i) (entry a i j) ≡ true))
  unfolding symmetric_row for_range
  symmetric_row_iff a i s =
      let test = λ (k : ℕ). d.eq (entry a (i + 1 + k) i) (entry a i (i + 1 + k)) in
      let c = check_iff test (a.col - (i + 1)) s in
      (
        λ h. (
          (c.0 h).0,
          λ j l m.
              let p : i + 1 + (j - (i + 1)) ≡ j = omega (arith, l) in
              rw (sym p) ((c.0 h).1 (j - (i + 1)) (omega (arith, l, m))),
        ),
        λ h. c.1 (h.0, λ k l. h.1 (i + 1 + k) (omega arith) (omega (arith, l))),
      )

  symmetric_rows_iff :
      (a : DenseMatrix A) (n : ℕ)
      → (for_each n (symmetric_row a) true ≡ true)
        ↔ ((i j : ℕ) → i < n → i < j → j < a.col → d.eq (entry a j i) (entry a i j) ≡ true)
  unfolding for_each
  symmetric_rows_iff a zero = (λ h i j l. absurd (omega (arith, l)), λ h. refl)
  symmetric_rows_iff a (suc n) =
      let s = symmetric_row_iff a n (for_each n (symmetric_row a) true) in
      let r = symmetric_rows_iff a n in
      (
        λ h i j l m o. elim (let c : (i ≡ n) ⊎ (i < n) = ground (arith, l) in c) [
          | inl c ↦ rw c ((s.0 h).1 j (omega (arith, m, c)) o)
          | inr c ↦ r.0 (s.0 h).0 i j c m o
        ],
        λ h. s.1 (r.1 (λ i j l. h i j (omega (arith, l))), λ j l m. h n j (omega arith) l m),
      )

  -- A matrix passes exactly if it is square and each entry above the diagonal equals, by `eq`, the
  -- one at the mirrored place.
  pub is_symmetric_dense_iff :
      (a : DenseMatrix A)
      → (is_symmetric_dense a ≡ true) ↔ (
          (a.col ≡ a.row)
          × ((i j : ℕ) → i < j → j < a.col → d.eq (entry a j i) (entry a i j) ≡ true))
  unfolding is_symmetric_dense
  is_symmetric_dense_iff a =
      let r = symmetric_rows_iff a a.col in
      elim (Bool-cases (a.col == a.row)) [
        | inl t ↦ rw t (
          λ h. ((==_iff _ _).0 t, λ i j l m. r.0 h i j (omega (arith, l, m)) l m),
          λ h. r.1 (λ i j o l m. h.1 i j l m),
        )
        | inr t ↦ rw t (λ h. absurd (cc h), λ h. absurd (cc (t, (==_iff _ _).1 h.0)))
      ]
