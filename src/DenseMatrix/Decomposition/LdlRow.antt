-- ===== src/DenseMatrix/Decomposition/LdlRow.antt =====
-- The multipliers of one row in `LDL`.
use csympy.Prelude.{
  ℕ, zero, suc, ◌≡◌, ◌≢◌, ◌<◌, ◌≤◌, refl, sym, ap, ap₂, ◌∙◌, List, arith, inl, inr, ◌⊎◌,
}
use csympy.Vector.{assign, for_each}
use csympy.DenseMatrix.{DenseMatrix, Entries, index, entry}
use csympy.DenseMatrix.Laws.{sum_of, sum_of_congr, accumulated}
use csympy.DenseMatrix.Solve.{Division, IsField, cell}
use csympy.DenseMatrix.Decomposition.{Powers, ldl_sum}
use csympy.DenseMatrix.Decomposition.Cells.{
  IsSquare, cell-assign_same, cell-assign_other, assign-IsSquare,
}

module _ {ℓ} {A : Type ℓ} ⦃e : Entries A⦄ ⦃d : Division A⦄ ⦃f : IsField A⦄ ⦃p : Powers A⦄ where
  -- The terms of the sum for the rows `i` and `j`.
  abbrev pub weighted : ℕ → List A → List A → ℕ → ℕ → ℕ → A
  weighted n l diagonal i j k = e.mul (e.mul (cell l n i k) (cell l n j k)) (cell diagonal n k k)

  abbrev pub row_step : DenseMatrix A → ℕ → List A → ℕ → List A → List A
  row_step a i diagonal j v = assign v (index a.col i j) (
      e.mul (d.div d.one (cell diagonal a.col j j))
        (d.sub (entry a i j) (ldl_sum a.col v diagonal i j j)))

  -- The first `m` multipliers of the row `i` are computed.
  pub record Row (a : DenseMatrix A) (i m : ℕ) (diagonal v w : List A) : Type ℓ where
    pub square : IsSquare a.col w
    pub there :
        (x y : ℕ) → x < a.col → y < a.col → (x ≢ i) ⊎ (m ≤ y) → cell w a.col x y ≡ cell v a.col x y
    pub here :
        (y : ℕ)
        → y < m
        → cell diagonal a.col y y ≢ e.zero_entry
        → e.add
            (e.mul (cell w a.col i y) (cell diagonal a.col y y))
            (sum_of y (weighted a.col w diagonal i y))
          ≡ entry a i y

  divided :
      (x s y : A) → y ≢ e.zero_entry → e.add (e.mul (e.mul (d.div d.one y) (d.sub x s)) y) s ≡ x
  divided x s y h =
      ap (λ t. e.add t s)
        (ap (λ t. e.mul t y) (f.mul_comm (d.div d.one y) (d.sub x s))
          ∙ f.mul_assoc (d.sub x s) (d.div d.one y) y
          ∙ ap (e.mul (d.sub x s)) (f.mul_comm (d.div d.one y) y ∙ f.mul-div d.one y h)
          ∙ f.mul_comm (d.sub x s) d.one
          ∙ f.one-mul (d.sub x s))
      ∙ f.add-sub x s

  pub loop-Row :
      (a : DenseMatrix A) (i m : ℕ) (diagonal v : List A)
      → IsSquare a.col v
      → i < a.col
      → m ≤ i
      → Row a i m diagonal v (for_each m (row_step a i diagonal) v)
  unfolding for_each ldl_sum
  loop-Row a i zero diagonal v s h l = record {
    square = s;
    there = λ x y z t o. refl;
    here = λ y z. absurd (omega (arith, z));
  }
  loop-Row a i (suc m) diagonal v s h l =
      let n = a.col in
      let w = for_each m (row_step a i diagonal) v in
      let u = row_step a i diagonal m w in
      let r = loop-Row a i m diagonal v s h (omega (arith, l)) in
      let m_n : m < n = omega (arith, l, h) in
      let same = λ (x y : ℕ) (x_n : x < n) (y_n : y < n) (o : (x ≢ i) ⊎ (y ≢ m)).
        cell-assign_other n w x y i m
          (e.mul (d.div d.one (cell diagonal n m m))
            (d.sub (entry a i m) (ldl_sum n w diagonal i m m)))
          s.bounded x_n y_n h m_n o in
      let sums = λ (y : ℕ) (o : y ≤ m).
        sum_of_congr y (weighted n u diagonal i y) (weighted n w diagonal i y) (λ k c.
          ap (λ t. e.mul t (cell diagonal n k k))
            (ap₂ e.mul (same i k h (omega (arith, c, o, m_n)) (inr (λ z. omega (arith, z, c, o)))) (
              same y k (omega (arith, o, m_n)) (omega (arith, c, o, m_n))
                (inr (λ z. omega (arith, z, c, o)))))) in
      record {
        square = assign-IsSquare n w (index n i m) _ r.square;
        there = λ x y z t o.
            same x y z t (elim o [ inl q ↦ inl q | inr q ↦ inr (λ z. omega (arith, z, q)) ])
            ∙ r.there x y z t (elim o [ inl q ↦ inl q | inr q ↦ inr (omega (arith, q)) ]);
        here = λ y z t. elim (let c : (y ≡ m) ⊎ (y < m) = ground (arith, z) in c) [
          | inl c ↦
              let total = ldl_sum n w diagonal i m m in
              rw c (
                ap₂ e.add
                  (ap (λ x. e.mul x (cell diagonal n m m))
                    (cell-assign_same n w i m _ r.square h m_n))
                  (sums m (omega arith) ∙ sym (accumulated m (weighted n w diagonal i m)))
                ∙ divided (entry a i m) total (cell diagonal n m m) (rw c at t))
          | inr c ↦
              ap₂ e.add
                (ap (λ x. e.mul x (cell diagonal n y y))
                  (same i y h (omega (arith, c, m_n)) (inr (λ z. omega (arith, z, c)))))
                (sums y (omega (arith, c)))
              ∙ r.here y c t
        ];
      }
