-- ===== src/DenseMatrix/Create/Laws.antt =====
-- The entries and the shapes of the matrices that are created.
use csympy.Prelude.{
  ℕ, zero, suc, ◌+◌, ◌*◌, ◌^◌, ◌%◌, ◌==◌, ◌≡◌, ◌<◌, refl, ap, ◌∙◌, arith, List, length,
  if◌then◌else◌, false, Bool-cases, inl, inr,
}
use csympy.Prelude.Int.{ℤ, pos, negsuc, nat_abs}
use csympy.Vector.{at, repeat}
use csympy.Vector.Laws.{length-repeat, at-repeat}
use csympy.DenseMatrix.{Entries, index, entry}
use csympy.DenseMatrix.Loops.{assign-IsStep}
use csympy.DenseMatrix.Laws.{IsDense, filled, filled_by_columns}
use csympy.DenseMatrix.Solve.{Division, new_matrix}
use csympy.DenseMatrix.Create.{diag, eye, eye_size}

-- The number of rows and columns of `eye`.
abbrev pub eye_order : ℕ → ℕ → ℤ → ℕ
eye_order n m (pos (suc k)) = m
eye_order n m k = n

eye_length :
    (n m : ℕ) (k : ℤ)
    → nat_abs k < eye_order n m k
    → eye_order n m k < 2 ^ 32
    → eye_size n m k + nat_abs k ≡ eye_order n m k
unfolding eye_size
eye_length n m (pos zero) h l = omega arith
eye_length n m (pos (suc k)) h l = omega (arith, h, l)
eye_length n m (negsuc k) h l = omega (arith, h, l)

module _ {ℓ} {A : Type ℓ} ⦃e : Entries A⦄ ⦃d : Division A⦄ where
  new_matrix-IsDense : (r c : ℕ) → r * c < 2 ^ 32 → IsDense {A = A} (new_matrix r c)
  unfolding new_matrix
  new_matrix-IsDense r c h = record {
    size = length-repeat _ _ ∙ (let p : r * c % 2 ^ 32 ≡ r * c = omega (arith, h) in p);
    bounded = omega (arith, h);
  }

  -- The entry of a matrix that is zero but for one diagonal, in terms of the distance of the
  -- diagonal from the main one.
  pub on_diagonal : List A → ℤ → ℕ → ℕ → A
  on_diagonal v (pos k) i j = if j == k + i then at e.zero_entry v i else e.zero_entry
  on_diagonal v (negsuc k) i j = if i == suc k + j then at e.zero_entry v j else e.zero_entry

  -- A matrix of `diag` with fewer than 2^32 entries is a square, with the vector on the diagonal and
  -- zero everywhere else.
  pub entry-diag :
      (v : List A) (k : ℤ) (n i j : ℕ)
      → length v + nat_abs k ≡ n
      → n < 2 ^ 32
      → n * n < 2 ^ 32
      → i < n
      → j < n
      → ((diag v k).row ≡ n) × ((diag v k).col ≡ n) × (entry (diag v k) i j ≡ on_diagonal v k i j)
  unfolding diag entry on_diagonal new_matrix
  entry-diag v (pos k) n i j h l b p q =
      let s : (length v + k) % 2 ^ 32 ≡ n = omega (arith, h, l) in
      rw s (
        refl,
        refl,
        filled e.zero_entry (new_matrix n n) _
            (λ i j x. if j == k + i then at e.zero_entry v i else e.zero_entry) i j
            (new_matrix-IsDense n n b)
            (λ i j.
              assign-IsStep e.zero_entry (index n i j)
                (λ x. if j == k + i then at e.zero_entry v i else e.zero_entry))
            p q,
      )
  entry-diag v (negsuc k) n i j h l b p q =
      let s : (length v + suc k) % 2 ^ 32 ≡ n = omega (arith, h, l) in
      rw s (
        refl,
        refl,
        filled_by_columns e.zero_entry (new_matrix n n) _
            (λ j i x. if i == suc k + j then at e.zero_entry v j else e.zero_entry) j i
            (new_matrix-IsDense n n b)
            (λ j i.
              assign-IsStep e.zero_entry (index n i j)
                (λ x. if i == suc k + j then at e.zero_entry v j else e.zero_entry))
            q p,
      )

  pub ones_on_diagonal : ℤ → ℕ → ℕ → A
  ones_on_diagonal (pos k) i j = if j == k + i then d.one else e.zero_entry
  ones_on_diagonal (negsuc k) i j = if i == suc k + j then d.one else e.zero_entry

  on_diagonal-repeat :
      (s n : ℕ) (k : ℤ) (i j : ℕ)
      → s + nat_abs k ≡ n
      → i < n
      → j < n
      → on_diagonal (repeat s d.one) k i j ≡ ones_on_diagonal k i j
  unfolding on_diagonal ones_on_diagonal
  on_diagonal-repeat s n (pos k) i j h p q = elim (Bool-cases (j == k + i)) [
    | inl t ↦ let r : i < s = ground (arith, t, h, q) in rw t (at-repeat e.zero_entry d.one s i r)
    | inr t ↦ rw t refl
  ]
  on_diagonal-repeat s n (negsuc k) i j h p q = elim (Bool-cases (i == suc k + j)) [
    | inl t ↦ let r : j < s = ground (arith, t, h, p) in rw t (at-repeat e.zero_entry d.one s j r)
    | inr t ↦ rw t refl
  ]

  -- `eye` with `n` rows and `m` columns, and the diagonal of number `k` above the main one, is a
  -- square whose order is `m` for a positive `k` and `n` for the others; each of its entries on that
  -- diagonal is one and every other is zero.
  pub entry-eye :
      (n m : ℕ) (k : ℤ) (i j : ℕ)
      → 0 < m
      → nat_abs k < eye_order n m k
      → eye_order n m k < 2 ^ 32
      → eye_order n m k * eye_order n m k < 2 ^ 32
      → i < eye_order n m k
      → j < eye_order n m k
      → ((eye {A = A} n m k).row ≡ eye_order n m k)
        × ((eye {A = A} n m k).col ≡ eye_order n m k)
        × (entry (eye n m k) i j ≡ ones_on_diagonal k i j)
  unfolding eye
  entry-eye n m k i j o h l b p q =
      let t : (m == 0) ≡ false = ground (arith, o) in
      let c = eye_length n m k h l in
      let (r, s, u) =
        entry-diag (repeat (eye_size n m k) d.one) k (eye_order n m k) i j
          (ap (λ s. s + nat_abs k) (length-repeat (eye_size n m k) d.one) ∙ c) l b p q in
      rw t (r, s, u ∙ on_diagonal-repeat (eye_size n m k) (eye_order n m k) k i j c p q)
