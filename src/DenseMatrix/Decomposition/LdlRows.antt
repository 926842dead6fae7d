-- ===== src/DenseMatrix/Decomposition/LdlRows.antt =====
-- The loop of `LDL` over the rows.
use csympy.Prelude.{
  ℕ, zero, suc, ◌≡◌, ◌≢◌, ◌<◌, ◌≤◌, sym, ap, ap₂, ◌∙◌, List, arith, inl, inr, ◌⊎◌, ◌==◌,
  if◌then◌else◌, true, false,
}
use csympy.Vector.{assign, for_each}
use csympy.DenseMatrix.{DenseMatrix, Entries, index, entry, for_entries}
use csympy.DenseMatrix.Loops.{assign-IsStep, for_entries-size}
use csympy.DenseMatrix.Laws.{IsDense, filled, sum_of, sum_of_congr, accumulated}
use csympy.DenseMatrix.Solve.{Division, IsField, cell}
use csympy.DenseMatrix.Decomposition.{Powers, ldl_row}
use csympy.DenseMatrix.Decomposition.Cells.{
  IsSquare, cell-assign_same, cell-assign_other, assign-IsSquare,
}
use csympy.DenseMatrix.Decomposition.LdlRow.{loop-Row, weighted, row_step}

module _ {ℓ} {A : Type ℓ} ⦃e : Entries A⦄ ⦃d : Division A⦄ ⦃f : IsField A⦄ ⦃p : Powers A⦄ where
  -- The rows before `c` are factored; the matrices keep the form that they are given at the start.
  pub record LdlRows (a : DenseMatrix A) (c : ℕ) (s : List A × List A) : Type ℓ where
    pub left : IsSquare a.col s.0
    pub right : IsSquare a.col s.1
    pub unit : (x : ℕ) → x < a.col → cell s.0 a.col x x ≡ d.one
    pub above : (x y : ℕ) → x < y → y < a.col → cell s.0 a.col x y ≡ e.zero_entry
    pub off : (x y : ℕ) → x < a.col → y < a.col → x ≢ y → cell s.1 a.col x y ≡ e.zero_entry
    pub product :
        (x y : ℕ)
        → y ≤ x
        → x < c
        → ((k : ℕ) → k < x → cell s.1 a.col k k ≢ e.zero_entry)
        → e.add
            (e.mul (cell s.0 a.col x y) (cell s.1 a.col y y))
            (sum_of y (weighted a.col s.0 s.1 x y))
          ≡ entry a x y

  ldl_row-LdlRows :
      (a : DenseMatrix A) (c : ℕ) (s : List A × List A)
      → ((x : A) → p.square x ≡ e.mul x x)
      → c < a.col
      → LdlRows a c s
      → LdlRows a (suc c) (ldl_row a c s)
  unfolding ldl_row
  ldl_row-LdlRows a c s sq h r =
      let n = a.col in
      let l = for_each c (row_step a c s.1) s.0 in
      let row = loop-Row a c c s.1 s.0 r.left h (omega arith) in
      let sum =
        for_each c (λ k t. e.add t (e.mul (p.square (cell l n c k)) (cell s.1 n k k)))
          e.zero_entry in
      let corner = d.sub (entry a c c) sum in
      let t = assign s.1 (index n c c) corner in
      let other = λ (x y : ℕ) (x_n : x < n) (y_n : y < n) (o : (x ≢ c) ⊎ (y ≢ c)).
        cell-assign_other n s.1 x y c c corner r.right.bounded x_n y_n h h o in
      let before = λ (k : ℕ) (k_c : k < c).
        let k_n : k < n = omega (arith, k_c, h) in
        other k k k_n k_n (inl (λ z. omega (arith, z, k_c))) in
      let same_sum = λ (x y : ℕ) (y_c : y ≤ c).
        sum_of_congr y (weighted n l t x y) (weighted n l s.1 x y) (λ k o.
          ap (e.mul (e.mul (cell l n x k) (cell l n y k))) (before k (omega (arith, o, y_c)))) in
      record {
        left = row.square;
        right = assign-IsSquare n s.1 (index n c c) corner r.right;
        unit = λ x x_n.
            row.there x x x_n x_n (
              let o : (x ≢ c) ⊎ (c ≤ x) = elim (let z : (x ≡ c) ⊎ (x ≢ c) = ground arith in z) [
                | inl z ↦ inr (omega (arith, z))
                | inr z ↦ inl z
              ] in
              o)
            ∙ r.unit x x_n;
        above = λ x y o y_n.
            row.there x y (omega (arith, o, y_n)) y_n (
              let q : (x ≢ c) ⊎ (c ≤ y) = elim (let z : (x ≡ c) ⊎ (x ≢ c) = ground arith in z) [
                | inl z ↦ inr (omega (arith, z, o))
                | inr z ↦ inl z
              ] in
              q)
            ∙ r.above x y o y_n;
        off = λ x y x_n y_n o.
            other x y x_n y_n
              (elim (let z : (x ≡ c) ⊎ (x ≢ c) = ground arith in z) as (λ _. (x ≢ c) ⊎ (y ≢ c)) [
                | inl z ↦ inr (λ w. o (z ∙ sym w))
                | inr z ↦ inl z
              ])
            ∙ r.off x y x_n y_n o;
        product = λ x y o q z. elim (let b : (x ≡ c) ⊎ (x < c) = ground (arith, q) in b) [
          | inl b ↦ elim (let g : (y ≡ c) ⊎ (y < c) = ground (arith, o, b) in g) [
            | inl g ↦ rw b (
                rw g (
                  ap₂ e.add
                    (ap₂ e.mul (row.there c c h h (inr (omega arith)) ∙ r.unit c h)
                        (cell-assign_same n s.1 c c corner r.right h h)
                      ∙ f.one-mul corner)
                    (same_sum c c (omega arith)
                      ∙ sum_of_congr c _ (λ k. e.mul (p.square (cell l n c k)) (cell s.1 n k k))
                          (λ k w. ap (λ u. e.mul u (cell s.1 n k k)) (sym (sq (cell l n c k))))
                      ∙ sym (accumulated c (λ k. e.mul (p.square (cell l n c k)) (cell s.1 n k k))))
                  ∙ f.add-sub (entry a c c) sum))
            | inr g ↦ rw b (
                ap₂ e.add (ap (e.mul (cell l n c y)) (before y g)) (same_sum c y (omega (arith, g)))
                ∙ row.here y g (λ w. z y (omega (arith, g, b)) (before y g ∙ w)))
          ]
          | inr b ↦
              let x_n : x < n = omega (arith, b, h) in
              let kept = λ (i k : ℕ) (i_c : i < c) (k_n : k < n).
                row.there i k (omega (arith, i_c, h)) k_n (inl (λ w. omega (arith, w, i_c))) in
              let y_c : y < c = omega (arith, o, b) in
              ap₂ e.add (ap₂ e.mul (kept x y b (omega (arith, y_c, h))) (before y y_c)) (
                same_sum x y (omega (arith, y_c))
                ∙ sum_of_congr y (weighted n l s.1 x y) (weighted n s.0 s.1 x y) (λ k w.
                  ap (λ u. e.mul u (cell s.1 n k k))
                    (ap₂ e.mul (kept x k b (omega (arith, w, y_c, h)))
                      (kept y k y_c (omega (arith, w, y_c, h))))))
              ∙ r.product x y o b (λ k w v. z k w (before k (omega (arith, w, b)) ∙ v))
        ];
      }

  pub loop-LdlRows :
      (a : DenseMatrix A) (c : ℕ) (s : List A × List A)
      → ((x : A) → p.square x ≡ e.mul x x)
      → c ≤ a.col
      → LdlRows a 0 s
      → LdlRows a c (for_each c (ldl_row a) s)
  unfolding for_each
  loop-LdlRows a zero s sq h r = r
  loop-LdlRows a (suc c) s sq h r =
      ldl_row-LdlRows a c (for_each c (ldl_row a) s) sq (omega (arith, h))
        (loop-LdlRows a c s sq (omega (arith, h)) r)

  pub start-LdlRows :
      (a : DenseMatrix A) (l diagonal : List A)
      → IsSquare a.col l
      → IsSquare a.col diagonal
      → LdlRows a 0 (
        for_entries a.col a.col
            (λ i j v. assign v (index a.col i j) (if i == j then d.one else e.zero_entry))
            l,
        for_entries a.col a.col (λ i j v. assign v (index a.col i j) e.zero_entry) diagonal,
      )
  start-LdlRows a l diagonal s t =
      let n = a.col in
      let b : DenseMatrix A = record { row = n; col = n; m = l } in
      let c : DenseMatrix A = record { row = n; col = n; m = diagonal } in
      let φ = λ (i j : ℕ) (x : A). if i == j then d.one else e.zero_entry in
      let ψ = λ (i j : ℕ) (x : A). e.zero_entry in
      let f_step = λ (i j : ℕ). assign-IsStep e.zero_entry (index n i j) (φ i j) in
      let g_step = λ (i j : ℕ). assign-IsStep e.zero_entry (index n i j) (ψ i j) in
      let b_dense : IsDense b = record { size = s.size; bounded = s.bounded } in
      let c_dense : IsDense c = record { size = t.size; bounded = t.bounded } in
      record {
        left = record {
          size =
              for_entries-size e.zero_entry n (λ i j v. assign v (index n i j) (φ i j e.zero_entry))
                (index n) φ f_step n l
              ∙ s.size;
          bounded = s.bounded;
        };
        right = record {
          size =
              for_entries-size e.zero_entry n (λ i j v. assign v (index n i j) e.zero_entry)
                (index n) ψ g_step n diagonal
              ∙ t.size;
          bounded = t.bounded;
        };
        unit = λ x x_n.
            filled e.zero_entry b _ φ x x b_dense f_step x_n x_n
            ∙ ap (λ u. if u then d.one else e.zero_entry)
                (let o : (x == x) ≡ true = ground arith in o);
        above = λ x y o y_n.
            filled e.zero_entry b _ φ x y b_dense f_step (omega (arith, o, y_n)) y_n
            ∙ ap (λ u. if u then d.one else e.zero_entry)
                (let q : (x == y) ≡ false = ground (arith, o) in q);
        off = λ x y x_n y_n o. filled e.zero_entry c _ ψ x y c_dense g_step x_n y_n;
        product = λ x y o q. absurd (omega (arith, q));
      }
