-- ===== src/DenseMatrix/RowAdd.antt =====
-- A multiple of one row added to another.
use csympy.Prelude.{
  ℕ, zero, suc, ◌≡◌, ◌≢◌, ◌<◌, ◌≤◌, refl, sym, ap, ap₂, ◌∙◌, List, length, arith, inl, inr, ◌==◌,
  ==_iff, Bool-cases, if◌then◌else◌, false,
}
use csympy.Vector.{at, assign, for_each}
use csympy.Vector.Laws.{at-assign_same, at-assign_other, length-assign}
use csympy.DenseMatrix.{DenseMatrix, Entries, index, entry, row_add_row_dense}
use csympy.DenseMatrix.Loops.{row_below, index-eq}
use csympy.DenseMatrix.Laws.{IsDense, three_way}
use csympy.DenseMatrix.Rows.{other_row, other_column}

module _ {ℓ} {A : Type ℓ} ⦃e : Entries A⦄ (a : DenseMatrix A) (d : IsDense a) (i j : ℕ) (c : A)
    (apart : i ≢ j) (p : i < a.row) (q : j < a.row) where
  step : ℕ → List A → List A
  step k v =
      assign v (index a.col i k) (
        e.add (at e.zero_entry v (index a.col i k)) (e.mul c (at e.zero_entry v (index a.col j k))))

  after : ℕ → List A
  after n = for_each n step a.m

  size-after : (n : ℕ) → length (after n) ≡ length a.m
  unfolding after for_each step
  size-after zero = refl
  size-after (suc n) = length-assign (after n) _ _ ∙ size-after n

  inside : (n u v : ℕ) → u < a.row → v < a.col → index a.col u v < length (after n)
  inside n u v h l = omega (
    arith,
    size-after n,
    d.size,
    index-eq a.row a.col u v h l d.bounded,
    row_below a.col u a.row v h l,
  )

  elsewhere :
      (n p : ℕ)
      → p ≢ index a.col i n
      → at e.zero_entry (after (suc n)) p ≡ at e.zero_entry (after n) p
  unfolding after for_each step
  elsewhere n p h = at-assign_other e.zero_entry _ (after n) _ p (differs p (index a.col i n) h)
    where
      differs : (s t : ℕ) → s ≢ t → (s == t) ≡ false
      differs s t h = ground (arith, h)

  -- The other rows stay.
  other_kept :
      (n u v : ℕ)
      → u ≢ i
      → u < a.row
      → v < a.col
      → n ≤ a.col
      → at e.zero_entry (after n) (index a.col u v) ≡ entry a u v
  unfolding after for_each entry
  other_kept zero u v f h l m = refl
  other_kept (suc n) u v f h l m =
      elsewhere n _ (other_row a u i v n d f h p l (omega (arith, m)))
      ∙ other_kept n u v f h l (omega (arith, m))

  -- The columns that the loop has not reached stay.
  not_reached :
      (n v : ℕ) → v < a.col → n ≤ v → at e.zero_entry (after n) (index a.col i v) ≡ entry a i v
  unfolding after for_each entry
  not_reached zero v l m = refl
  not_reached (suc n) v l m =
      elsewhere n _
        (other_column a d i v i n p p l (omega (arith, l, m)) (λ f. absurd (omega (arith, f, m))))
      ∙ not_reached n v l (omega (arith, m))

  at_column :
      (n : ℕ)
      → n < a.col
      → at e.zero_entry (after (suc n)) (index a.col i n)
        ≡ e.add (entry a i n) (e.mul c (entry a j n))
  unfolding after for_each step
  at_column n l =
      at-assign_same e.zero_entry _ (after n) (index a.col i n) (inside n i n p l)
      ∙ ap₂ (λ x y. e.add x (e.mul c y)) (not_reached n n l (omega arith))
          (other_kept n j n (λ f. apart (sym f)) q l (omega (arith, l)))

  reached :
      (n v : ℕ)
      → v < n
      → n ≤ a.col
      → at e.zero_entry (after n) (index a.col i v) ≡ e.add (entry a i v) (e.mul c (entry a j v))
  reached zero v l m = absurd (omega (arith, l))
  reached (suc n) v l m = elim (three_way v n) [
    | inl o ↦
        elsewhere n _ (
          other_column a d i v i n p p (omega (arith, o, m)) (omega (arith, m))
            (λ f. absurd (omega (arith, f, o))))
        ∙ reached n v o (omega (arith, m))
    | inr (inl o) ↦
        ap (λ w. at e.zero_entry (after (suc n)) (index a.col i w)) o
        ∙ at_column n (omega (arith, m))
        ∙ ap (λ w. e.add (entry a i w) (e.mul c (entry a j w))) (sym o)
    | inr (inr o) ↦ absurd (omega (arith, o, l))
  ]

  -- The multiple of the other row is added in every column, and the other rows stay.
  entry-row_add_row_dense :
      (u v : ℕ)
      → u < a.row
      → v < a.col
      → entry (row_add_row_dense a i j c) u v
        ≡ (if u == i then e.add (entry a i v) (e.mul c (entry a j v)) else entry a u v)
  unfolding row_add_row_dense entry after step
  entry-row_add_row_dense u v h l = elim (Bool-cases (u == i)) [
    | inl t ↦
        ap (λ w. at e.zero_entry (after a.col) (index a.col w v)) ((==_iff _ _).0 t)
        ∙ reached a.col v l (omega arith)
        ∙ rw t
    | inr t ↦ other_kept a.col u v (λ f. cc (t, (==_iff _ _).1 f)) h l (omega arith) ∙ rw t
  ]
