-- ===== src/DenseMatrix/Solve/Forward.antt =====
-- `forward_substitution` solves the system of a lower triangular matrix with ones on its diagonal.
use csympy.Prelude.{
  ℕ, zero, suc, ◌+◌, ◌-◌, ◌*◌, ◌^◌, ◌%◌, ◌≡◌, ◌<◌, ◌≤◌, refl, sym, ap, ap₂, ◌∙◌, List, [], ◌∷◌,
  lt→ltb, length, arith, inl, inr, ◌⊎◌, if◌then◌else◌,
}
use csympy.Vector.{at, assign, for_each, for_range}
use csympy.Vector.Laws.{at-assign_same, at-assign_other, length-assign}
use csympy.DenseMatrix.{DenseMatrix, Entries, index, entry}
use csympy.DenseMatrix.Laws.{sum_of, sum_of_congr}
use csympy.DenseMatrix.Solve.{
  Division, IsField, before, diagonal_before, forward_entry, forward_substitution,
}
use csympy.DenseMatrix.Solve.Sums.{row_product, IsUnitLower, sum_of_to, zero-mul, add-zero, div-one}
use csympy.DenseMatrix.Solve.Triangular.{differs, put_back}

module _ {ℓ} {A : Type ℓ} ⦃e : Entries A⦄ ⦃d : Division A⦄ ⦃l : IsField A⦄ where
  -- One step subtracts a multiple of the place `i` from the place `j`.
  eliminated : DenseMatrix A → ℕ → ℕ → List A → List A
  eliminated a i j v =
      assign v j (d.sub (at e.zero_entry v j) (e.mul (entry a j i) (at e.zero_entry v i)))

  pub diagonal_before-entry :
      (a : DenseMatrix A) (k : ℕ)
      → at e.zero_entry a.m (diagonal_before a.col (suc k)) ≡ entry a k k
  unfolding diagonal_before entry index
  diagonal_before-entry a k =
      ap (λ t. at e.zero_entry a.m (t % 2 ^ 32))
        (let c : suc k * a.col - a.col + suc k - 1 ≡ k * a.col + k = omega arith in c)

  assign_again : (v : List A) (j : ℕ) (x y : A) → assign (assign v j x) j y ≡ assign v j y
  unfolding assign
  assign_again [] j x y = refl
  assign_again (c ∷ v) zero x y = refl
  assign_again (c ∷ v) (suc j) x y = ap (λ w. c ∷ w) (assign_again v j x y)

  abbrev forward_first : DenseMatrix A → ℕ → ℕ → List A → List A
  forward_first a i j v = assign v j (
      d.sub (e.mul (entry a i i) (at e.zero_entry v j)) (e.mul (entry a j i) (at e.zero_entry v i)))

  forward_entry-eliminated :
      (a : DenseMatrix A) (i j : ℕ) (v : List A)
      → IsUnitLower a
      → i < a.col
      → j < length v
      → forward_entry a i j v ≡ eliminated a i j v
  unfolding forward_entry eliminated
  forward_entry-eliminated a zero j v u h s = ap (assign v j) (
      ap (λ x. d.sub x (e.mul (entry a j 0) (at e.zero_entry v 0)))
        (ap (λ x. e.mul x (at e.zero_entry v j)) (u.unit 0 h) ∙ l.one-mul _))
  forward_entry-eliminated a (suc i) j v u h s =
      ap
        (λ t.
          if t
          then assign (forward_first a (suc i) j v) j (
              d.div (at e.zero_entry (forward_first a (suc i) j v) j)
                (at e.zero_entry a.m (diagonal_before a.col (suc i))))
          else forward_first a (suc i) j v)
        (lt→ltb 0 (suc i) (omega arith))
      ∙ assign_again v j _ _
      ∙ ap (assign v j) (
          ap₂ d.div (at-assign_same e.zero_entry _ v j s)
            (diagonal_before-entry a i ∙ u.unit i (omega (arith, h)))
          ∙ div-one _
          ∙ ap (λ x. d.sub x (e.mul (entry a j (suc i)) (at e.zero_entry v (suc i))))
              (ap (λ x. e.mul x (at e.zero_entry v j)) (u.unit (suc i) h) ∙ l.one-mul _))

  -- The inner loop, `m` steps of it.
  abbrev inner : DenseMatrix A → ℕ → ℕ → List A → List A
  inner a i m v = for_each m (λ k t. forward_entry a i (i + 1 + k) t) v

  record Eliminated (a : DenseMatrix A) (i m : ℕ) (v w : List A) : Type ℓ where
    size : length w ≡ length v
    head : (p : ℕ) → p ≤ i → at e.zero_entry w p ≡ at e.zero_entry v p
    rest : (p : ℕ) → i + m < p → at e.zero_entry w p ≡ at e.zero_entry v p
    middle :
        (p : ℕ)
        → i < p
        → p ≤ i + m
        → at e.zero_entry w p
          ≡ d.sub (at e.zero_entry v p) (e.mul (entry a p i) (at e.zero_entry v i))

  inner-Eliminated :
      (a : DenseMatrix A) (i m : ℕ) (v : List A)
      → IsUnitLower a
      → i < a.col
      → i + m < length v
      → Eliminated a i m v (inner a i m v)
  unfolding for_each eliminated
  inner-Eliminated a i zero v u h s = record {
    size = refl;
    head = λ p q. refl;
    rest = λ p q. refl;
    middle = λ p q r. absurd (omega (arith, q, r));
  }
  inner-Eliminated a i (suc m) v u h s =
      let w = inner a i m v in
      let r = inner-Eliminated a i m v u h (omega (arith, s)) in
      let q = forward_entry-eliminated a i (i + 1 + m) w u h (omega (arith, s, r.size)) in
      record {
        size = ap length q ∙ length-assign w (i + 1 + m) _ ∙ r.size;
        head = λ p c.
            ap (λ t. at e.zero_entry t p) q
            ∙ at-assign_other e.zero_entry _ w (i + 1 + m) p
                (differs p _ (λ z. omega (arith, z, c)))
            ∙ r.head p c;
        rest = λ p c.
            ap (λ t. at e.zero_entry t p) q
            ∙ at-assign_other e.zero_entry _ w (i + 1 + m) p
                (differs p _ (λ z. omega (arith, z, c)))
            ∙ r.rest p (omega (arith, c));
        middle = λ p b c. elim (let o : (p ≡ i + 1 + m) ⊎ (p ≤ i + m) = ground (arith, c) in o) [
          | inl x ↦
              ap (λ t. at e.zero_entry t p) q
              ∙ ap (at e.zero_entry (eliminated a i (i + 1 + m) w)) x
              ∙ at-assign_same e.zero_entry _ w (i + 1 + m) (omega (arith, s, r.size))
              ∙ ap₂ (λ y z. d.sub y (e.mul (entry a (i + 1 + m) i) z))
                  (r.rest (i + 1 + m) (omega arith)) (r.head i (omega arith))
              ∙ ap (λ t. d.sub (at e.zero_entry v t) (e.mul (entry a t i) (at e.zero_entry v i)))
                  (sym x)
          | inr o ↦
              ap (λ t. at e.zero_entry t p) q
              ∙ at-assign_other e.zero_entry _ w (i + 1 + m) p
                  (differs p _ (λ z. omega (arith, z, o)))
              ∙ r.middle p b o
        ];
      }

  abbrev earlier : DenseMatrix A → ℕ → List A → ℕ → A
  earlier a p x k = e.mul (entry a p k) (at e.zero_entry x k)

  -- After the rounds below `i`, the rows up to `i` are solved, and the later ones up to column `i`.
  record PartlySolved (a : DenseMatrix A) (b x : List A) (i : ℕ) : Type ℓ where
    size : length x ≡ a.col
    upto :
        (p : ℕ)
        → p ≤ i
        → p < a.col
        → e.add (at e.zero_entry x p) (sum_of p (earlier a p x)) ≡ at e.zero_entry b p
    after :
        (p : ℕ)
        → i < p
        → p < a.col
        → e.add (at e.zero_entry x p) (sum_of i (earlier a p x)) ≡ at e.zero_entry b p

  -- A row after `i`, in the round `i`.
  next_row :
      (a : DenseMatrix A) (b x w : List A) (i m p : ℕ)
      → Eliminated a i m x w
      → PartlySolved a b x i
      → i < p
      → p ≤ i + m
      → p < a.col
      → e.add (at e.zero_entry w p) (sum_of (suc i) (earlier a p w)) ≡ at e.zero_entry b p
  unfolding sum_of
  next_row a b x w i m p r s h c t =
      ap₂ e.add (r.middle p h c) (
        ap₂ e.add
          (sum_of_congr i (earlier a p w) (earlier a p x)
            (λ k q. ap (e.mul (entry a p k)) (r.head k (omega (arith, q)))))
          (ap (e.mul (entry a p i)) (r.head i (omega arith))))
      ∙ put_back (at e.zero_entry x p) (e.mul (entry a p i) (at e.zero_entry x i))
          (sum_of i (earlier a p x))
      ∙ s.after p h t

  round-PartlySolved :
      (a : DenseMatrix A) (b x : List A) (i : ℕ)
      → IsUnitLower a
      → suc i < a.col
      → PartlySolved a b x i
      → PartlySolved a b (for_range (i + 1) a.col (forward_entry a i) x) (suc i)
  unfolding for_range
  round-PartlySolved a b x i u h s =
      let m = a.col - (i + 1) in
      let w = inner a i m x in
      let r = inner-Eliminated a i m x u (omega (arith, h)) (omega (arith, h, s.size)) in
      record {
        size = r.size ∙ s.size;
        upto = λ p q t. elim (let c : (p ≡ suc i) ⊎ (p ≤ i) = ground (arith, q) in c) [
          | inl c ↦
              ap (λ y. e.add (at e.zero_entry w p) (sum_of y (earlier a p w))) c
              ∙ next_row a b x w i m p r s (omega (arith, c)) (omega (arith, t)) t
          | inr c ↦
              ap₂ e.add (r.head p c) (
                sum_of_congr p (earlier a p w) (earlier a p x)
                  (λ k o. ap (e.mul (entry a p k)) (r.head k (omega (arith, o, c)))))
              ∙ s.upto p c t
        ];
        after = λ p q t. next_row a b x w i m p r s (omega (arith, q)) (omega (arith, t)) t;
      }

  rounds-PartlySolved :
      (a : DenseMatrix A) (b : List A) (i : ℕ)
      → IsUnitLower a
      → i < a.col
      → length b ≡ a.col
      → PartlySolved a b (for_each i (λ k v. for_range (k + 1) a.col (forward_entry a k) v) b) i
  unfolding for_each sum_of
  rounds-PartlySolved a b zero u h s = record {
    size = s;
    upto = λ p q t. let z : p ≡ 0 = omega (arith, q) in rw z (add-zero (at e.zero_entry b 0));
    after = λ p q t. add-zero (at e.zero_entry b p);
  }
  rounds-PartlySolved a b (suc i) u h s =
      round-PartlySolved a b _ i u h (rounds-PartlySolved a b i u (omega (arith, h)) s)

  -- Over a field, for a lower triangular matrix with ones on its diagonal and a column of the right
  -- length, `forward_substitution` gives the solution: each row of the product is the entry of the
  -- right side.
  pub forward_substitution-solves :
      (a b x : DenseMatrix A) (i : ℕ)
      → IsUnitLower a
      → length b.m ≡ a.col
      → a.col ≤ 2 ^ 32
      → i < a.col
      → row_product a (forward_substitution a b x).m i ≡ at e.zero_entry b.m i
  unfolding forward_substitution row_product before
  forward_substitution-solves a b x i u s c h =
      let n = (a.col + (2 ^ 32 - 1)) % 2 ^ 32 in
      let r = rounds-PartlySolved a b.m n u (omega (arith, c, h)) s in
      let w = for_each n (λ k v. for_range (k + 1) a.col (forward_entry a k) v) b.m in
      sum_of_to a.col i (earlier a i w) h
        (λ k q t. ap (λ y. e.mul y (at e.zero_entry w k)) (u.above i k q t) ∙ zero-mul _)
      ∙ l.add_comm _ _
      ∙ ap (λ y. e.add y (sum_of i (earlier a i w)))
          (ap (λ y. e.mul y (at e.zero_entry w i)) (u.unit i h) ∙ l.one-mul _)
      ∙ r.upto i (omega (arith, h, c)) h

  pub forward_substitution-size :
      (a b x : DenseMatrix A)
      → IsUnitLower a
      → length b.m ≡ a.col
      → 0 < a.col
      → a.col ≤ 2 ^ 32
      → length (forward_substitution a b x).m ≡ a.col
  unfolding forward_substitution before
  forward_substitution-size a b x u s h c =
      let n = (a.col + (2 ^ 32 - 1)) % 2 ^ 32 in
      (rounds-PartlySolved a b.m n u (omega (arith, c, h)) s).size
