-- ===== src/Diophantine/Matrices.antt =====
-- Matrices of integers: their sizes, `MatrixBase::eq` and the matrices of zeros.
use csympy.Prelude.{
  ℕ, zero, suc, ◌+◌, ◌*◌, ◌%◌, ◌^◌, ◌≡◌, ◌<◌, ◌≤◌, ◌⊎◌, sym, ◌∙◌, inl, inr, arith, Bool, Bool-cases,
  true, false, List, [], ◌∷◌, ◌++◌, length,
}
use csympy.Prelude.Int.{ℤ, pos}
use csympy.DenseMatrix.{
  DenseMatrix, entry, index, transpose_dense, mul_dense_dense, mul_entry, for_entries,
}
use csympy.DenseMatrix.Create.{zeros}
use csympy.DenseMatrix.Laws.{IsDense, filled}
use csympy.DenseMatrix.Loops.{assign-IsStep}
use csympy.DenseMatrix.Solve.{new_matrix}
use csympy.Diophantine.{integer_entries, all_from, no_matrix}
use csympy.Vector.{at, assign, erase_at, for_each}
use csympy.Vector.Laws.{length-assign, length-repeat}

abbrev pub Matrix : Type 0
Matrix = DenseMatrix ℤ

abbrev pub Each : (Matrix → Type 0) → List Matrix → Type 0
Each P [] = Unit
Each P (t ∷ v) = P t × Each P v

pub Each-at :
    (P : Matrix → Type 0) (v : List Matrix) (i : ℕ) → Each P v → i < length v → P (at no_matrix v i)
unfolding at
Each-at P [] i a h = absurd (omega (arith, h))
Each-at P (t ∷ v) zero a h = a.0
Each-at P (t ∷ v) (suc i) a h = Each-at P v i a.1 (omega (arith, h))

pub Each-erase_at :
    (P : Matrix → Type 0) (v : List Matrix) (i : ℕ) → Each P v → Each P (erase_at i v)
unfolding erase_at
Each-erase_at P [] i a = tt
Each-erase_at P (t ∷ v) zero a = a.1
Each-erase_at P (t ∷ v) (suc i) a = (a.0, Each-erase_at P v i a.1)

pub Each-append : (P : Matrix → Type 0) (u v : List Matrix) → Each P u → Each P v → Each P (u ++ v)
Each-append P [] v a b = b
Each-append P (t ∷ u) v a b = (a.0, Each-append P u v a.1 b)

module _ {ℓ} {S : Type ℓ} where
  pub for_each-keeps :
      (P : S → Type 0) (n : ℕ) (f : ℕ → S → S) (s : S)
      → ((i : ℕ) (s : S) → P s → P (f i s))
      → P s
      → P (for_each n f s)
  unfolding for_each
  for_each-keeps P zero f s h p = p
  for_each-keeps P (suc n) f s h p = h n _ (for_each-keeps P n f s h p)

-- The loops over the entries keep the size of the vector.
length-for_entries :
    (row col size : ℕ) (f : ℕ → ℕ → List ℤ → List ℤ) (v : List ℤ)
    → ((i j : ℕ) (w : List ℤ) → length (f i j w) ≡ length w)
    → length v ≡ size
    → length (for_entries row col f v) ≡ size
unfolding for_entries
length-for_entries row col size f v h =
    for_each-keeps (λ w. length w ≡ size) row _ v
      (λ i w p.
        for_each-keeps (λ w. length w ≡ size) col (λ j u. f i j u) w (λ j u q. h i j u ∙ q) p)

pub transpose_dense-IsDense : (a b : Matrix) → IsDense b → IsDense (transpose_dense a b)
unfolding transpose_dense
transpose_dense-IsDense a b d = record {
  size =
      length-for_entries a.row a.col _ _ b.m (λ i j w. length-assign w (index b.col j i) _) d.size;
  bounded = d.bounded;
}

length-mul_entry : (a b : Matrix) (i j : ℕ) (w : List ℤ) → length (mul_entry a b i j w) ≡ length w
unfolding mul_entry
length-mul_entry a b i j w =
    for_each-keeps (λ u. length u ≡ length w) a.col _ (assign w (index b.col i j) (pos 0))
      (λ k u p. length-assign u (index b.col i j) _ ∙ p) (length-assign w (index b.col i j) (pos 0))

pub mul_dense_dense-IsDense : (a b c : Matrix) → IsDense c → IsDense (mul_dense_dense a b c)
unfolding mul_dense_dense
mul_dense_dense-IsDense a b c d = record {
  size = length-for_entries a.row b.col _ _ c.m (length-mul_entry a b) d.size;
  bounded = d.bounded;
}

pub all_from-all :
    (n k : ℕ) (f : ℕ → Bool) → all_from n k f ≡ true → (i : ℕ) → k ≤ i → i < k + n → f i ≡ true
unfolding all_from
all_from-all zero k f h i a b = absurd (omega (arith, a, b))
all_from-all (suc n) k f h i a b = elim (Bool-cases (f k)) [
  | inl t ↦
      let later : all_from n (k + 1) f ≡ true =
        (let e : all_from (suc n) k f ≡ all_from n (k + 1) f = rw t in sym e) ∙ h in
      elim (let o : (i ≡ k) ⊎ (k + 1 ≤ i) = ground (arith, a) in o) [
        | inl o ↦ rw o t
        | inr o ↦ all_from-all n (k + 1) f later i o (omega (arith, b))
      ]
  | inr t ↦ absurd (let e : all_from (suc n) k f ≡ false = rw t in cc (e, h))
]

pub new_matrix-IsDense : (r c : ℕ) → r * c < 2 ^ 32 → IsDense {A = ℤ} (new_matrix r c)
unfolding new_matrix
new_matrix-IsDense r c h = record {
  size =
      length-repeat (r * c % 2 ^ 32) (pos 0)
      ∙ (let e : r * c % 2 ^ 32 ≡ r * c = omega (arith, h) in e);
  bounded = omega (arith, h);
}

pub entry-zeros :
    (r c i j : ℕ) → r * c < 2 ^ 32 → i < r → j < c → entry {A = ℤ} (zeros r c) i j ≡ pos 0
unfolding zeros entry new_matrix
entry-zeros r c i j h p q =
    filled (pos 0) (new_matrix r c) (λ i j v. assign v (index c i j) (pos 0)) (λ m n x. pos 0) i j
      (new_matrix-IsDense r c h) (λ m n. assign-IsStep (pos 0) (index c m n) (λ x. pos 0)) p q
