-- ===== src/DenseMatrix/Decomposition/LuColumn.antt =====
-- One column of the loop of `LU`: what the column holds afterwards in terms of what it held before.
use csympy.Prelude.{
  ℕ, zero, suc, ◌+◌, ◌-◌, ◌≡◌, ◌≢◌, ◌<◌, ◌≤◌, refl, sym, ap, ap₂, ◌∙◌, List, arith, inl, inr, ◌⊎◌,
}
use csympy.Vector.{assign, for_each, for_range}
use csympy.DenseMatrix.{Entries, index}
use csympy.DenseMatrix.Loops.{assign-IsStep, for_each-here, for_each-there, for_each-size}
use csympy.DenseMatrix.Laws.{sum_of, sum_of_congr}
use csympy.DenseMatrix.Solve.{Division, IsField, cell}
use csympy.DenseMatrix.Decomposition.{subtract_products, lu_column}
use csympy.DenseMatrix.Decomposition.Cells.{
  IsSquare, index-apart, index-inside, products, subtract_products-Reduced,
}

-- The smaller one.
abbrev pub least : ℕ → ℕ → ℕ
least i j = i - (i - j)

module _ {ℓ} {A : Type ℓ} ⦃e : Entries A⦄ ⦃d : Division A⦄ ⦃l : IsField A⦄ where
  -- The rows below `r` of the column `j` have lost their products.
  record Eliminating (n j r : ℕ) (v w : List A) : Type ℓ where
    square : IsSquare n w
    others : (p q : ℕ) → p < n → q < n → q ≢ j → cell w n p q ≡ cell v n p q
    todo : (p : ℕ) → p < n → r ≤ p → cell w n p j ≡ cell v n p j
    done :
        (p : ℕ)
        → p < n
        → p < r
        → e.add (cell w n p j) (sum_of (least p j) (products n w p j)) ≡ cell v n p j

  step-Eliminating :
      (n j r m : ℕ) (v w : List A)
      → r < n
      → j < n
      → m ≡ least r j
      → Eliminating n j r v w
      → Eliminating n j (suc r) v (subtract_products n j m r w)
  step-Eliminating n j r m v w p q x s =
      let u = subtract_products n j m r w in
      let t =
        subtract_products-Reduced n j m r w s.square p q (omega (arith, x)) (omega (arith, x)) in
      let same = λ (i : ℕ) (i_n : i < n) (i_r : i ≤ r).
        sum_of_congr (least i j) (products n u i j) (products n w i j) (λ k c.
          ap₂ e.mul (t.there i k i_n (omega (arith, c, q)) (inr (λ z. omega (arith, z, c))))
            (t.there k j (omega (arith, c, i_n)) q (inl (λ z. omega (arith, z, c, i_r))))) in
      record {
        square = t.square;
        others = λ a b c o h. t.there a b c o (inr h) ∙ s.others a b c o h;
        todo = λ a c o.
            t.there a j c q (inl (λ z. omega (arith, z, o))) ∙ s.todo a c (omega (arith, o));
        done = λ a c o. elim (let y : (a ≡ r) ⊎ (a < r) = ground (arith, o) in y) [
          | inl y ↦
              ap (λ i. e.add (cell u n i j) (sum_of (least i j) (products n u i j))) y
              ∙ ap (e.add (cell u n r j)) (same r p (omega arith))
              ∙ ap (λ i. e.add (cell u n r j) (sum_of i (products n w r j))) (sym x)
              ∙ t.here
              ∙ s.todo r p (omega arith)
              ∙ ap (λ i. cell v n i j) (sym y)
          | inr y ↦
              ap₂ e.add (t.there a j c q (inl (λ z. omega (arith, z, y))))
                (same a c (omega (arith, y)))
              ∙ s.done a c y
        ];
      }

  first_rows :
      (n j r : ℕ) (v : List A)
      → IsSquare n v
      → j < n
      → r ≤ j
      → Eliminating n j r v (for_each r (λ i u. subtract_products n j i i u) v)
  unfolding for_each
  first_rows n j zero v s q h = record {
    square = s;
    others = λ a b c o x. refl;
    todo = λ a c o. refl;
    done = λ a c o. absurd (omega (arith, o));
  }
  first_rows n j (suc r) v s q h =
      step-Eliminating n j r r v _ (omega (arith, q, h)) q (omega (arith, h))
        (first_rows n j r v s q (omega (arith, h)))

  later_rows :
      (n j r : ℕ) (v w : List A)
      → j < n
      → j + r ≤ n
      → Eliminating n j j v w
      → Eliminating n j (j + r) v (for_each r (λ k u. subtract_products n j j (j + k) u) w)
  unfolding for_each
  later_rows n j zero v w q h s = let x : j + 0 ≡ j = omega arith in rw x s
  later_rows n j (suc r) v w q h s =
      let x : j + suc r ≡ suc (j + r) = omega arith in
      rw x (
        step-Eliminating n j (j + r) j v _ (omega (arith, h)) q (omega arith)
          (later_rows n j r v w q (omega (arith, h)) s))

  -- The column `j` of the combined factors: the rows up to `j` are of `U`, and the later of `L`.
  pub record ColumnDone (n j : ℕ) (v w : List A) : Type ℓ where
    pub square : IsSquare n w
    pub others : (p q : ℕ) → p < n → q < n → q ≢ j → cell w n p q ≡ cell v n p q
    pub upper : (p : ℕ) → p ≤ j → e.add (cell w n p j) (sum_of p (products n w p j)) ≡ cell v n p j
    pub lower :
        (p : ℕ)
        → j < p
        → p < n
        → cell w n j j ≢ e.zero_entry
        → e.add (e.mul (cell w n p j) (cell w n j j)) (sum_of j (products n w p j)) ≡ cell v n p j

  -- The rows after `j` of the column `j` are multiplied by a factor.
  record Scaled (n j : ℕ) (x : A) (v w : List A) : Type ℓ where
    square : IsSquare n w
    there : (p q : ℕ) → p < n → q < n → (p ≤ j) ⊎ (q ≢ j) → cell w n p q ≡ cell v n p q
    here : (p : ℕ) → j < p → p < n → cell w n p j ≡ e.mul (cell v n p j) x

  abbrev scaling : ℕ → ℕ → A → ℕ → List A → List A
  scaling n j x k u = assign u (index n (j + 1 + k) j) (e.mul (cell u n (j + 1 + k) j) x)

  loop-Scaled :
      (n j : ℕ) (x : A) (v : List A)
      → IsSquare n v
      → j < n
      → Scaled n j x v (for_each (n - (j + 1)) (scaling n j x) v)
  loop-Scaled n j x v s q =
      let g = λ (k : ℕ). index n (j + 1 + k) j in
      let step = λ (k : ℕ). assign-IsStep e.zero_entry (g k) (λ y. e.mul y x) in
      let m = n - (j + 1) in
      record {
        square = record {
          size = for_each-size e.zero_entry m (scaling n j x) g (λ k y. e.mul y x) v step ∙ s.size;
          bounded = s.bounded;
        };
        there = λ a b c o h.
            for_each-there e.zero_entry m (scaling n j x) g (λ k y. e.mul y x) v (index n a b) step
              (λ k t.
                index-apart n a b (j + 1 + k) j s.bounded c o (omega (arith, t)) q
                  (elim h [ inl y ↦ inl (λ z. omega (arith, z, y)) | inr y ↦ inr y ]));
        here = λ a c o.
            let y : j + 1 + (a - (j + 1)) ≡ a = omega (arith, c) in
            ap (λ t. cell (for_each m (scaling n j x) v) n t j) (sym y)
            ∙ for_each-here e.zero_entry m (scaling n j x) g (λ k y. e.mul y x) v (a - (j + 1)) step
                (λ b t f h.
                  index-apart n (j + 1 + b) j (j + 1 + t) j s.bounded (omega (arith, f, h)) q
                    (omega (arith, h)) q (inl (λ z. omega (arith, z, f))))
                (omega (arith, c, o))
                (index-inside n v (j + 1 + (a - (j + 1))) j s (omega (arith, y, o)) q)
            ∙ ap (λ t. e.mul (cell v n t j) x) y;
      }

  undo_scaling : (x y : A) → y ≢ e.zero_entry → e.mul (e.mul x (d.div d.one y)) y ≡ x
  undo_scaling x y h =
      l.mul_assoc x (d.div d.one y) y
      ∙ ap (e.mul x) (l.mul_comm (d.div d.one y) y ∙ l.mul-div d.one y h)
      ∙ l.mul_comm x d.one
      ∙ l.one-mul x

  pub lu_column-ColumnDone :
      (n j : ℕ) (v : List A) → IsSquare n v → j < n → ColumnDone n j v (lu_column n j v)
  unfolding lu_column for_range
  lu_column-ColumnDone n j v s q =
      let first = for_each j (λ i u. subtract_products n j i i u) v in
      let w = for_each (n - j) (λ k u. subtract_products n j j (j + k) u) first in
      let scale = d.div d.one (cell w n j j) in
      let u = for_each (n - (j + 1)) (scaling n j scale) w in
      let r : Eliminating n j (j + (n - j)) v w =
        later_rows n j (n - j) v first q (omega (arith, q))
          (first_rows n j j v s q (omega arith)) in
      let t : Scaled n j scale w u = loop-Scaled n j scale w r.square q in
      let same = λ (m p : ℕ) (p_n : p < n) (m_p : m ≤ p) (m_j : m ≤ j).
        sum_of_congr m (products n u p j) (products n w p j) (λ k c.
          ap₂ e.mul
            (t.there p k p_n (omega (arith, c, m_p, p_n)) (inr (λ z. omega (arith, z, c, m_j))))
            (t.there k j (omega (arith, c, m_p, p_n)) q (inl (omega (arith, c, m_j))))) in
      record {
        square = t.square;
        others = λ a b c o h. t.there a b c o (inr h) ∙ r.others a b c o h;
        upper = λ p h.
            let p_n : p < n = omega (arith, h, q) in
            let x : least p j ≡ p = omega (arith, h) in
            ap₂ e.add (t.there p j p_n q (inl h)) (same p p p_n (omega arith) h)
            ∙ ap (λ m. e.add (cell w n p j) (sum_of m (products n w p j))) (sym x)
            ∙ r.done p p_n (omega (arith, h, q));
        lower = λ p h p_n z.
            let x : least p j ≡ j = omega (arith, h) in
            let same_pivot : cell u n j j ≡ cell w n j j = t.there j j q q (inl (omega arith)) in
            ap₂ e.add
              (ap₂ e.mul (t.here p h p_n) same_pivot
                ∙ undo_scaling (cell w n p j) (cell w n j j) (λ y. z (same_pivot ∙ y)))
              (same j p p_n (omega (arith, h)) (omega arith))
            ∙ ap (λ m. e.add (cell w n p j) (sum_of m (products n w p j))) (sym x)
            ∙ r.done p p_n (omega (arith, p_n, q));
      }
