-- ===== src/DenseMatrix/Solve/Triangular.antt =====
-- `diagonal_solve` and `back_substitution` solve their systems.
use csympy.Prelude.{
  ℕ, zero, suc, ◌+◌, ◌-◌, ◌≡◌, ◌≢◌, ◌<◌, ◌≤◌, refl, sym, ap, ◌∙◌, List, length, arith, inl, inr,
  ◌⊎◌, ◌==◌, false,
}
use csympy.Vector.{at, assign, for_each, for_range, for_down}
use csympy.Vector.Laws.{at-assign_same, at-assign_other, length-assign}
use csympy.DenseMatrix.{DenseMatrix, Entries, entry}
use csympy.DenseMatrix.Loops.{assign-IsStep, for_each-here, for_each-size}
use csympy.DenseMatrix.Laws.{sum_of, sum_of_congr}
use csympy.DenseMatrix.Solve.{Division, IsField, diagonal_solve, back_row, back_substitution}
use csympy.DenseMatrix.Solve.Sums.{row_product, IsUpper, sum_of_from, zero-mul}

pub differs : (p k : ℕ) → p ≢ k → (p == k) ≡ false
differs p k n = ground (arith, n)

module _ {ℓ} {A : Type ℓ} ⦃e : Entries A⦄ ⦃d : Division A⦄ ⦃l : IsField A⦄ where
  -- A loop that subtracts terms from the place `i`, computed from other places.
  abbrev pub subtract : ℕ → (ℕ → List A → A) → ℕ → List A → List A
  subtract i h k v = assign v i (d.sub (at e.zero_entry v i) (h k v))

  pub subtract-size :
      (i n : ℕ) (h : ℕ → List A → A) (v : List A) → length (for_each n (subtract i h) v) ≡ length v
  unfolding for_each
  subtract-size i zero h v = refl
  subtract-size i (suc n) h v =
      length-assign (for_each n (subtract i h) v) i _ ∙ subtract-size i n h v

  pub subtract-there :
      (i n : ℕ) (h : ℕ → List A → A) (v : List A) (p : ℕ)
      → p ≢ i
      → at e.zero_entry (for_each n (subtract i h) v) p ≡ at e.zero_entry v p
  unfolding for_each
  subtract-there i zero h v p n = refl
  subtract-there i (suc m) h v p n =
      at-assign_other e.zero_entry _ (for_each m (subtract i h) v) i p (differs p i n)
      ∙ subtract-there i m h v p n

  pub put_back : (x t s : A) → e.add (d.sub x t) (e.add s t) ≡ e.add x s
  put_back x t s =
      ap (e.add (d.sub x t)) (l.add_comm s t)
      ∙ sym (l.add_assoc (d.sub x t) t s)
      ∙ ap (λ u. e.add u s) (l.add-sub x t)

  pub subtract-here :
      (i n : ℕ) (h : ℕ → List A → A) (t : ℕ → A) (v : List A)
      → ((k : ℕ) → k < n → h k (for_each k (subtract i h) v) ≡ t k)
      → i < length v
      → e.add (at e.zero_entry (for_each n (subtract i h) v) i) (sum_of n t) ≡ at e.zero_entry v i
  unfolding for_each sum_of
  subtract-here i zero h t v s b = l.add_comm _ _ ∙ l.zero-add _
  subtract-here i (suc n) h t v s b =
      let w = for_each n (subtract i h) v in
      ap (λ x. e.add x (sum_of (suc n) t))
        (at-assign_same e.zero_entry _ w i (omega (arith, b, subtract-size i n h v))
          ∙ ap (d.sub (at e.zero_entry w i)) (s n (omega arith)))
      ∙ put_back (at e.zero_entry w i) (t n) (sum_of n t)
      ∙ subtract-here i n h t v (λ k q. s k (omega (arith, q))) b

  -- What a round of `back_substitution` does to the other places, and to the place of its row.
  back_row-there :
      (u : DenseMatrix A) (i : ℕ) (v : List A) (p : ℕ)
      → p ≢ i
      → at e.zero_entry (back_row u i v) p ≡ at e.zero_entry v p
  unfolding back_row for_range
  back_row-there u i v p n =
      at-assign_other e.zero_entry _ _ i p (differs p i n)
      ∙ subtract-there i (u.col - (i + 1))
          (λ k t. e.mul (entry u i (i + 1 + k)) (at e.zero_entry t (i + 1 + k))) v p n

  back_row-size : (u : DenseMatrix A) (i : ℕ) (v : List A) → length (back_row u i v) ≡ length v
  unfolding back_row for_range
  back_row-size u i v =
      length-assign (for_each (u.col - (i + 1)) (subtract i _) v) i _
      ∙ subtract-size i (u.col - (i + 1))
          (λ k t. e.mul (entry u i (i + 1 + k)) (at e.zero_entry t (i + 1 + k))) v

  abbrev later : DenseMatrix A → ℕ → List A → ℕ → A
  later u i x k = e.mul (entry u i (i + 1 + k)) (at e.zero_entry x (i + 1 + k))

  back_row-here :
      (u : DenseMatrix A) (i : ℕ) (v : List A)
      → entry u i i ≢ e.zero_entry
      → i < length v
      → e.add
          (e.mul (entry u i i) (at e.zero_entry (back_row u i v) i))
          (sum_of (u.col - (i + 1)) (later u i v))
        ≡ at e.zero_entry v i
  unfolding back_row for_range
  back_row-here u i v n b =
      let h =
        λ (k : ℕ) (t : List A). e.mul (entry u i (i + 1 + k)) (at e.zero_entry t (i + 1 + k)) in
      let w = for_each (u.col - (i + 1)) (subtract i h) v in
      ap (λ x. e.add (e.mul (entry u i i) x) (sum_of (u.col - (i + 1)) (later u i v)))
        (at-assign_same e.zero_entry _ w i
          (omega (arith, b, subtract-size i (u.col - (i + 1)) h v)))
      ∙ ap (λ x. e.add x (sum_of (u.col - (i + 1)) (later u i v)))
          (l.mul-div (at e.zero_entry w i) (entry u i i) n)
      ∙ subtract-here i (u.col - (i + 1)) h (later u i v) v
          (λ k q.
            ap (e.mul (entry u i (i + 1 + k)))
              (subtract-there i k h v (i + 1 + k) (λ c. omega (arith, c))))
          b

  -- The row `i` of the product with a vector that differs from `v` at the place `i` only.
  row_product-later :
      (u : DenseMatrix A) (i : ℕ) (v x : List A)
      → IsUpper u
      → i < u.col
      → ((p : ℕ) → i < p → at e.zero_entry x p ≡ at e.zero_entry v p)
      → row_product u x i
        ≡ e.add (e.mul (entry u i i) (at e.zero_entry x i)) (sum_of (u.col - (i + 1)) (later u i v))
  unfolding row_product
  row_product-later u i v x t h s =
      sum_of_from u.col i _ h
        (λ k q. ap (λ y. e.mul y (at e.zero_entry x k)) (t.below i k q h) ∙ zero-mul _)
      ∙ ap (e.add (e.mul (entry u i i) (at e.zero_entry x i))) (
          sum_of_congr (u.col - (i + 1)) _ _
            (λ k q. ap (e.mul (entry u i (i + 1 + k))) (s (i + 1 + k) (omega arith))))

  -- The rounds that are left solve the rows that are left, and the rows below stay solved.
  back_rounds :
      (u : DenseMatrix A) (b v : List A) (n : ℕ)
      → IsUpper u
      → n ≤ u.col
      → length v ≡ u.col
      → ((p : ℕ) → p < n → at e.zero_entry v p ≡ at e.zero_entry b p)
      → ((p : ℕ) → n ≤ p → p < u.col → row_product u v p ≡ at e.zero_entry b p)
      → (p : ℕ) → p < u.col
      → row_product u (for_down n (back_row u) v) p ≡ at e.zero_entry b p
  unfolding for_down
  back_rounds u b v zero t h s k q p c = q p (omega arith) c
  back_rounds u b v (suc n) t h s k q p c =
      let w = back_row u n v in
      back_rounds u b w n t (omega (arith, h)) (back_row-size u n v ∙ s)
        (λ m r. back_row-there u n v m (λ o. omega (arith, o, r)) ∙ k m (omega (arith, r)))
        (λ m r o. elim (let c : (m ≡ n) ⊎ (n < m) = ground (arith, r) in c) [
          | inl x ↦
              ap (row_product u w) x
              ∙ row_product-later u n v w t (omega (arith, h))
                  (λ a y. back_row-there u n v a (λ z. omega (arith, z, y)))
              ∙ back_row-here u n v (t.diagonal n (omega (arith, h))) (omega (arith, h, s))
              ∙ k n (omega arith)
              ∙ ap (at e.zero_entry b) (sym x)
          | inr x ↦
              row_product-later u m v w t o
                (λ a y. back_row-there u n v a (λ z. omega (arith, z, y, x)))
              ∙ ap (λ y. e.add (e.mul (entry u m m) y) (sum_of (u.col - (m + 1)) (later u m v)))
                  (back_row-there u n v m (λ z. omega (arith, z, x)))
              ∙ sym (row_product-later u m v v t o (λ a y. refl))
              ∙ q m (omega (arith, x)) o
        ])
        p c

  -- Over a field, for an upper triangular matrix without zeros on its diagonal and a column of the
  -- right length, `back_substitution` gives the solution: each row of the product is the entry of
  -- the right side.
  pub back_substitution-solves :
      (u b x : DenseMatrix A) (i : ℕ)
      → IsUpper u
      → length b.m ≡ u.col
      → i < u.col
      → row_product u (back_substitution u b x).m i ≡ at e.zero_entry b.m i
  unfolding back_substitution
  back_substitution-solves u b x i t s h =
      back_rounds u b.m b.m u.col t (omega arith) s (λ p q. refl)
        (λ p q r. absurd (omega (arith, q, r))) i h

  -- Over a field, for a diagonal without zeros, `diagonal_solve` divides each entry of the right side
  -- so that its product with the entry of the diagonal is the entry of the right side.
  pub diagonal_solve-solves :
      (a b x : DenseMatrix A) (i : ℕ)
      → entry a i i ≢ e.zero_entry
      → i < a.col
      → a.col ≤ length x.m
      → e.mul (entry a i i) (at e.zero_entry (diagonal_solve a b x).m i) ≡ at e.zero_entry b.m i
  unfolding diagonal_solve
  diagonal_solve-solves a b x i n h s =
      ap (e.mul (entry a i i)) (
        for_each-here e.zero_entry a.col
          (λ k v. assign v k (d.div (at e.zero_entry b.m k) (entry a k k))) (λ k. k)
          (λ k y. d.div (at e.zero_entry b.m k) (entry a k k)) x.m i
          (λ k. assign-IsStep e.zero_entry k (λ y. d.div (at e.zero_entry b.m k) (entry a k k)))
          (λ p q r t c. omega (arith, r, c)) h (omega (arith, h, s)))
      ∙ l.mul-div (at e.zero_entry b.m i) (entry a i i) n

  pub diagonal_solve-size : (a b x : DenseMatrix A) → length (diagonal_solve a b x).m ≡ length x.m
  unfolding diagonal_solve
  diagonal_solve-size a b x =
      for_each-size e.zero_entry a.col
        (λ k v. assign v k (d.div (at e.zero_entry b.m k) (entry a k k))) (λ k. k)
        (λ k y. d.div (at e.zero_entry b.m k) (entry a k k)) x.m
        (λ k. assign-IsStep e.zero_entry k (λ y. d.div (at e.zero_entry b.m k) (entry a k k)))
