-- ===== src/SparseMatrix/Operations/Slices.antt =====
-- A row of a sparse matrix as the list of its columns and entries.
use csympy.Prelude.{
  ℕ, zero, suc, ◌+◌, ◌-◌, ◌≡◌, ◌<◌, ◌≤◌, refl, sym, inl, inr, arith, false, Bool-cases, List, [],
  ◌∷◌, ltb, ◌==◌, ltb→lt, if◌then◌else◌,
}
use csympy.SparseMatrix.{CsrMatrix, scan, get}
use csympy.SparseMatrix.Search.{Growing}
use csympy.SparseMatrix.Rows.{IsCsr}
use csympy.Vector.{at}

module _ {ℓ} {A : Type ℓ} where
  -- All columns are above one.
  abbrev pub Above : ℕ → List (ℕ × A) → Type 0
  Above c [] = Unit
  Above c ((j, x) ∷ l) = (c < j) × Above c l

  -- The columns ascend.
  abbrev pub Sorted : List (ℕ × A) → Type 0
  Sorted [] = Unit
  Sorted ((j, x) ∷ l) = Above j l × Sorted l

  pub Above-weaken : (c d : ℕ) (l : List (ℕ × A)) → c ≤ d → Above d l → Above c l
  Above-weaken c d [] h a = tt
  Above-weaken c d ((j, x) ∷ l) h a = (let b = a.0 in omega (arith, h, b), Above-weaken c d l h a.1)

  module _ (z : A) where
    unfoldable pub slice : List ℕ → List A → ℕ → ℕ → List (ℕ × A)
    slice js xs zero k = []
    slice js xs (suc n) k = (at 0 js k, at z xs k) ∷ slice js xs n (k + 1)

    unfoldable pub lookup : List (ℕ × A) → ℕ → A
    lookup [] c = z
    lookup ((j, x) ∷ l) c = let rest = lookup l c in if j == c then x else rest

    pub lookup-Above : (l : List (ℕ × A)) (c : ℕ) → Above c l → lookup l c ≡ z
    unfolding lookup
    lookup-Above [] c a = refl
    lookup-Above ((j, x) ∷ l) c a =
        let t : (j == c) ≡ false = (let b = a.0 in ground (arith, b)) in rw t (lookup-Above l c a.1)

    -- The loop of `get` finds the entry of the column in the row.
    pub scan-lookup :
        (js : List ℕ) (xs : List A) (n k c : ℕ)
        → Sorted (slice js xs n k)
        → scan z js xs n k c ≡ lookup (slice js xs n k) c
    unfolding scan slice lookup
    scan-lookup js xs zero k c s = refl
    scan-lookup js xs (suc n) k c s = elim (Bool-cases (at 0 js k == c)) [
      | inl t ↦ rw t refl
      | inr t ↦ elim (Bool-cases (ltb c (at 0 js k))) [
        | inl u ↦
            let l : c < at 0 js k = ltb→lt _ _ u in
            rw t (
              rw u (
                sym (
                  lookup-Above (slice js xs n (k + 1)) c
                    (Above-weaken c (at 0 js k) _ (omega (arith, l)) s.0))))
        | inr u ↦ rw t (rw u (scan-lookup js xs n (k + 1) c s.1))
      ]
    ]

    slice-Above :
        (js : List ℕ) (xs : List A) (a b n k c : ℕ)
        → ((i : ℕ) → k ≤ i → i < k + n → c < at 0 js i)
        → Above c (slice js xs n k)
    unfolding slice
    slice-Above js xs a b zero k c f = tt
    slice-Above js xs a b (suc n) k c f = (
      f k (omega arith) (omega arith),
      slice-Above js xs a b n (k + 1) c (λ i h l. f i (omega (arith, h)) (omega (arith, l))),
    )

    pub slice-Sorted :
        (js : List ℕ) (xs : List A) (a b n k : ℕ)
        → Growing js a b
        → a ≤ k
        → k + n ≤ b
        → Sorted (slice js xs n k)
    unfolding slice
    slice-Sorted js xs a b zero k g h l = tt
    slice-Sorted js xs a b (suc n) k g h l = (
      slice-Above js xs a b n (k + 1) (at 0 js k)
          (λ i u v. g k i h (omega (arith, u)) (omega (arith, v, l))),
      slice-Sorted js xs a b n (k + 1) g (omega (arith, h)) (omega (arith, l)),
    )

    -- The row `i` of a matrix.
    abbrev pub row_of : CsrMatrix A → ℕ → List (ℕ × A)
    row_of m i = slice m.j m.x (at 0 m.p (i + 1) - at 0 m.p i) (at 0 m.p i)

    pub row_of-Sorted : (m : CsrMatrix A) (i : ℕ) → IsCsr m → i < m.row → Sorted (row_of m i)
    row_of-Sorted m i ok h =
        slice-Sorted m.j m.x (at 0 m.p i) (at 0 m.p (i + 1)) (at 0 m.p (i + 1) - at 0 m.p i)
          (at 0 m.p i) (ok.growing i h) (omega arith) (let o = ok.ordered i h in omega (arith, o))

    pub get-lookup :
        (m : CsrMatrix A) (i c : ℕ) → IsCsr m → i < m.row → get z m i c ≡ lookup (row_of m i) c
    unfolding get
    get-lookup m i c ok h = scan-lookup m.j m.x _ _ c (row_of-Sorted m i ok h)
