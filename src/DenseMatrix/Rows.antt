-- ===== src/DenseMatrix/Rows.antt =====
-- Operations on the rows of a dense matrix.
use csympy.Prelude.{
  ℕ, zero, suc, ◌≡◌, ◌≢◌, ◌<◌, ◌≤◌, refl, sym, ap, ◌∙◌, List, length, arith, inl, inr, ◌==◌, ==_iff,
  Bool-cases, if◌then◌else◌, false,
}
use csympy.Vector.{at, assign, for_each}
use csympy.Vector.Laws.{at-assign_same, at-assign_other, length-assign}
use csympy.DenseMatrix.{
  DenseMatrix, Entries, index, entry, row_mul_scalar_dense, row_exchange_dense, swap_places,
}
use csympy.DenseMatrix.Loops.{
  IsStep, assign-IsStep, for_each-here, for_each-there, row_below, index-eq, index-row, index-order,
}
use csympy.DenseMatrix.Laws.{IsDense, three_way}

module _ {ℓ} {A : Type ℓ} ⦃e : Entries A⦄ where
  -- Another row stands at other places.
  pub other_row :
      (a : DenseMatrix A) (u i v k : ℕ)
      → IsDense a
      → u ≢ i
      → u < a.row
      → i < a.row
      → v < a.col
      → k < a.col
      → index a.col u v ≢ index a.col i k
  other_row a u i v k d n p q s t h = elim (three_way u i) [
    | inl w ↦ index-order a.row a.col u i v k d.bounded w q s t h
    | inr (inl w) ↦ n w
    | inr (inr w) ↦ index-order a.row a.col i u k v d.bounded w p t s (sym h)
  ]

  pub other_column :
      (a : DenseMatrix A) (d : IsDense a) (u v w k : ℕ)
      → u < a.row
      → w < a.row
      → v < a.col
      → k < a.col
      → v ≢ k
      → index a.col u v ≢ index a.col w k
  other_column a d u v w k h l s t n f = elim (three_way u w) [
    | inl o ↦ index-order a.row a.col u w v k d.bounded o l s t f
    | inr (inl o) ↦ elim (three_way v k) [
      | inl b ↦ index-row a.row a.col u v k d.bounded h b t (f ∙ ap (λ x. index a.col x k) (sym o))
      | inr (inl b) ↦ n b
      | inr (inr b) ↦
          index-row a.row a.col u k v d.bounded h b s (ap (λ x. index a.col x k) o ∙ sym f)
    ]
    | inr (inr o) ↦ index-order a.row a.col w u k v d.bounded o h t s (sym f)
  ]

  -- The entries of one row are multiplied by the factor from the left, the others stay.
  entry-row_mul_scalar_dense :
      (a : DenseMatrix A) (i : ℕ) (c : A) (u v : ℕ)
      → IsDense a
      → i < a.row
      → u < a.row
      → v < a.col
      → entry (row_mul_scalar_dense a i c) u v
        ≡ (if u == i then e.mul c (entry a u v) else entry a u v)
  unfolding entry row_mul_scalar_dense
  entry-row_mul_scalar_dense a i c u v d p q s = elim (Bool-cases (u == i)) [
    | inl h ↦
        let r : u ≡ i = (==_iff _ _).0 h in
        ap (λ t. at z (for_each a.col scale a.m) (index a.col t v)) r
        ∙ for_each-here z a.col scale (index a.col i) (λ j x. e.mul c x) a.m v step
            (λ j k. index-row a.row a.col i j k d.bounded p) s
            (omega (
              arith,
              d.size,
              index-eq a.row a.col i v p s d.bounded,
              row_below a.col i a.row v p s,
            ))
        ∙ ap (λ t. e.mul c (entry a t v)) (sym r)
        ∙ rw h
    | inr h ↦
        for_each-there z a.col scale (index a.col i) (λ j x. e.mul c x) a.m (index a.col u v) step
          (λ k l. other_row a u i v k d (λ r. cc (h, (==_iff _ _).1 r)) q p s l)
        ∙ rw h
  ]
    where
      z : A
      z = e.zero_entry

      scale : ℕ → List A → List A
      scale j w = assign w (index a.col i j) (e.mul c (at z w (index a.col i j)))

      step : (j : ℕ) → IsStep z (scale j) (index a.col i j) (λ x. e.mul c x)
      step j = assign-IsStep z (index a.col i j) (e.mul c)

module _ {ℓ} {A : Type ℓ} (z : A) where
  differs : (p k : ℕ) → p ≢ k → (p == k) ≡ false
  differs p k n = ground (arith, n)

  size-swap_places : (v : List A) (g h : ℕ) → length (swap_places z v g h) ≡ length v
  unfolding swap_places
  size-swap_places v g h = length-assign _ h _ ∙ length-assign v g _

  swap_places-first :
      (v : List A) (g h : ℕ) → g ≢ h → g < length v → at z (swap_places z v g h) g ≡ at z v h
  unfolding swap_places
  swap_places-first v g h n l =
      at-assign_other z _ (assign v g (at z v h)) h g (differs g h n) ∙ at-assign_same z _ v g l

  swap_places-second :
      (v : List A) (g h : ℕ) → h < length v → at z (swap_places z v g h) h ≡ at z v g
  unfolding swap_places
  swap_places-second v g h l =
      at-assign_same z _ (assign v g (at z v h)) h (omega (arith, l, length-assign v g (at z v h)))

  swap_places-other :
      (v : List A) (g h p : ℕ) → p ≢ g → p ≢ h → at z (swap_places z v g h) p ≡ at z v p
  unfolding swap_places
  swap_places-other v g h p n o =
      at-assign_other z _ (assign v g (at z v h)) h p (differs p h o)
      ∙ at-assign_other z _ v g p (differs p g n)

-- The row that stands at `u` after rows `i` and `j` have been exchanged.
abbrev exchanged : ℕ → ℕ → ℕ → ℕ
exchanged i j u = if u == i then j else if u == j then i else u

module _ {ℓ} {A : Type ℓ} ⦃e : Entries A⦄ (a : DenseMatrix A) (d : IsDense a) (i j : ℕ)
    (apart : i ≢ j) (p : i < a.row) (q : j < a.row) where
  z : A
  z = e.zero_entry

  after : ℕ → List A
  after n = for_each n (λ k v. swap_places e.zero_entry v (index a.col i k) (index a.col j k)) a.m

  size-after : (n : ℕ) → length (after n) ≡ length a.m
  unfolding after for_each
  size-after zero = refl
  size-after (suc n) = size-swap_places e.zero_entry (after n) _ _ ∙ size-after n

  inside : (n u v : ℕ) → u < a.row → v < a.col → index a.col u v < length (after n)
  inside n u v h l = omega (
    arith,
    size-after n,
    d.size,
    index-eq a.row a.col u v h l d.bounded,
    row_below a.col u a.row v h l,
  )

  -- The columns that the loop has not reached are as they were.
  untouched :
      (n u v : ℕ)
      → u < a.row
      → v < a.col
      → n ≤ v
      → at e.zero_entry (after n) (index a.col u v) ≡ entry a u v
  unfolding after for_each entry
  untouched zero u v h l m = refl
  untouched (suc n) u v h l m =
      swap_places-other e.zero_entry (after n) _ _ _
        (other_column a d u v i n h p l (omega (arith, l, m)) (λ f. absurd (omega (arith, f, m))))
        (other_column a d u v j n h q l (omega (arith, l, m)) (λ f. absurd (omega (arith, f, m))))
      ∙ untouched n u v h l (omega (arith, m))

  last_column :
      (n u : ℕ)
      → u < a.row
      → n < a.col
      → at e.zero_entry
          (swap_places e.zero_entry (after n) (index a.col i n) (index a.col j n))
          (index a.col u n)
        ≡ entry a (exchanged i j u) n
  last_column n u h l = elim (Bool-cases (u == i)) [
    | inl t ↦
        ap
          (λ w.
            at e.zero_entry (swap_places e.zero_entry (after n) (index a.col i n) (index a.col j n))
              (index a.col w n))
          ((==_iff _ _).0 t)
        ∙ swap_places-first e.zero_entry (after n) _ _ (other_row a i j n n d apart p q l l)
            (inside n i n p l)
        ∙ untouched n j n q l (omega arith)
        ∙ rw t
    | inr t ↦ elim (Bool-cases (u == j)) [
      | inl o ↦
          ap
            (λ w.
              at e.zero_entry
                (swap_places e.zero_entry (after n) (index a.col i n) (index a.col j n))
                (index a.col w n))
            ((==_iff _ _).0 o)
          ∙ swap_places-second e.zero_entry (after n) _ _ (inside n j n q l)
          ∙ untouched n i n p l (omega arith)
          ∙ rw t (rw o)
      | inr o ↦
          swap_places-other e.zero_entry (after n) _ _ _
            (other_row a u i n n d (λ f. cc (t, (==_iff _ _).1 f)) h p l l)
            (other_row a u j n n d (λ f. cc (o, (==_iff _ _).1 f)) h q l l)
          ∙ untouched n u n h l (omega arith)
          ∙ rw t (rw o)
    ]
  ]

  touched :
      (n u v : ℕ)
      → u < a.row
      → v < n
      → n ≤ a.col
      → at e.zero_entry (after n) (index a.col u v) ≡ entry a (exchanged i j u) v
  unfolding after for_each
  touched zero u v h l m = absurd (omega (arith, l))
  touched (suc n) u v h l m = elim (three_way v n) [
    | inl o ↦
        swap_places-other e.zero_entry (after n) _ _ _
          (other_column a d u v i n h p (omega (arith, o, m)) (omega (arith, m))
            (λ f. absurd (omega (arith, f, o))))
          (other_column a d u v j n h q (omega (arith, o, m)) (omega (arith, m))
            (λ f. absurd (omega (arith, f, o))))
        ∙ touched n u v h o (omega (arith, m))
    | inr (inl o) ↦
        ap (λ w. at e.zero_entry (after (suc n)) (index a.col u w)) o
        ∙ last_column n u h (omega (arith, m))
        ∙ ap (entry a (exchanged i j u)) (sym o)
    | inr (inr o) ↦ absurd (omega (arith, o, l))
  ]

  -- Exchanging two different rows of a matrix exchanges their entries and keeps every other one.
  entry-row_exchange_dense :
      (u v : ℕ)
      → u < a.row
      → v < a.col
      → entry (row_exchange_dense a i j) u v
        ≡ entry a (if u == i then j else if u == j then i else u) v
  unfolding row_exchange_dense entry after
  entry-row_exchange_dense u v h l = touched a.col u v h l (omega arith)
