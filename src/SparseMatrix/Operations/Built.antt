-- ===== src/SparseMatrix/Operations/Built.antt =====
-- A matrix that is built row by row: its rows are the lists that are pushed.
use csympy.Prelude.{
  length-append, ℕ, zero, suc, ◌+◌, ◌≡◌, ◌<◌, ◌≤◌, ◌⊎◌, refl, sym, ap, ap₂, ◌∙◌, inl, inr, arith,
  List, [], ◌∷◌, ◌++◌, length,
}
use csympy.SparseMatrix.Operations.{columns_of, entries_of}
use csympy.SparseMatrix.Operations.Slices.{slice}
use csympy.Vector.{at}

module _ {ℓ} {B : Type ℓ} where
  pub at-append_right : (d : B) (u v : List B) (k : ℕ) → at d (u ++ v) (length u + k) ≡ at d v k
  unfolding at
  at-append_right d [] v k = ap (at d v) (let e : 0 + k ≡ k = omega arith in e)
  at-append_right d (x ∷ u) v k =
      ap (at d (x ∷ (u ++ v))) (let e : suc (length u) + k ≡ suc (length u + k) = omega arith in e)
      ∙ at-append_right d u v k

  at-append_left : (d : B) (u v : List B) (k : ℕ) → k < length u → at d (u ++ v) k ≡ at d u k
  unfolding at
  at-append_left d [] v k h = absurd (omega (arith, h))
  at-append_left d (x ∷ u) v zero h = refl
  at-append_left d (x ∷ u) v (suc k) h = at-append_left d u v k (omega (arith, h))

module _ {ℓ} {A : Type ℓ} where
  pub length-columns_of : (l : List (ℕ × A)) → length (columns_of l) ≡ length l
  unfolding columns_of
  length-columns_of [] = refl
  length-columns_of ((j, x) ∷ l) = ap suc (length-columns_of l)

  length-entries_of : (l : List (ℕ × A)) → length (entries_of l) ≡ length l
  unfolding entries_of
  length-entries_of [] = refl
  length-entries_of ((j, x) ∷ l) = ap suc (length-entries_of l)

  module _ (z : A) (rows : ℕ → List (ℕ × A)) where
    -- The vectors after the first `n` rows.
    unfoldable pub all_columns : ℕ → List ℕ
    all_columns zero = []
    all_columns (suc n) = all_columns n ++ columns_of (rows n)

    unfoldable pub all_entries : ℕ → List A
    all_entries zero = []
    all_entries (suc n) = all_entries n ++ entries_of (rows n)

    unfoldable pub total : ℕ → ℕ
    total zero = 0
    total (suc n) = total n + length (rows n)

    pub length-all_columns : (n : ℕ) → length (all_columns n) ≡ total n
    unfolding all_columns total
    length-all_columns zero = refl
    length-all_columns (suc n) =
        length-append (all_columns n) (columns_of (rows n))
        ∙ ap₂ ◌+◌ (length-all_columns n) (length-columns_of (rows n))

    pub length-all_entries : (n : ℕ) → length (all_entries n) ≡ total n
    unfolding all_entries total
    length-all_entries zero = refl
    length-all_entries (suc n) =
        length-append (all_entries n) (entries_of (rows n))
        ∙ ap₂ ◌+◌ (length-all_entries n) (length-entries_of (rows n))

    pub total_le : (k n : ℕ) → k ≤ n → total k ≤ total n
    unfolding total
    total_le k zero h = omega (arith, ap total (let e : k ≡ 0 = omega (arith, h) in e))
    total_le k (suc n) h = elim (let o : (k ≡ suc n) ⊎ (k ≤ n) = ground (arith, h) in o) [
      | inl o ↦ omega (arith, ap total o)
      | inr o ↦ let l = total_le k n o in omega (arith, l)
    ]

    -- A position of a row that is there stays the same when rows are added.
    pub at-all_columns :
        (k n i : ℕ) → k ≤ n → i < total k → at 0 (all_columns n) i ≡ at 0 (all_columns k) i
    unfolding all_columns
    at-all_columns k zero i h l =
        ap (λ t. at 0 (all_columns t) i) (let e : 0 ≡ k = omega (arith, h) in e)
    at-all_columns k (suc n) i h l = elim (let o : (k ≡ suc n) ⊎ (k ≤ n) = ground (arith, h) in o) [
      | inl o ↦ ap (λ t. at 0 (all_columns t) i) (sym o)
      | inr o ↦
          at-append_left 0 (all_columns n) (columns_of (rows n)) i
            (omega (arith, l, total_le k n o, length-all_columns n))
          ∙ at-all_columns k n i o l
    ]

    at-all_entries :
        (k n i : ℕ) → k ≤ n → i < total k → at z (all_entries n) i ≡ at z (all_entries k) i
    unfolding all_entries
    at-all_entries k zero i h l =
        ap (λ t. at z (all_entries t) i) (let e : 0 ≡ k = omega (arith, h) in e)
    at-all_entries k (suc n) i h l = elim (let o : (k ≡ suc n) ⊎ (k ≤ n) = ground (arith, h) in o) [
      | inl o ↦ ap (λ t. at z (all_entries t) i) (sym o)
      | inr o ↦
          at-append_left z (all_entries n) (entries_of (rows n)) i
            (omega (arith, l, total_le k n o, length-all_entries n))
          ∙ at-all_entries k n i o l
    ]

    -- The list at a position of the vectors.
    slice_of :
        (js : List ℕ) (xs : List A) (l : List (ℕ × A)) (k : ℕ)
        → ((i : ℕ) → i < length l → at 0 js (k + i) ≡ at 0 (columns_of l) i)
        → ((i : ℕ) → i < length l → at z xs (k + i) ≡ at z (entries_of l) i)
        → slice z js xs (length l) k ≡ l
    unfolding slice columns_of entries_of at
    slice_of js xs [] k f g = refl
    slice_of js xs ((j, x) ∷ l) k f g =
        let here : k + 0 ≡ k = omega arith in
        let a : at 0 js k ≡ j = ap (at 0 js) (sym here) ∙ f 0 (omega arith) in
        let b : at z xs k ≡ x = ap (at z xs) (sym here) ∙ g 0 (omega arith) in
        let c =
          slice_of js xs l (k + 1)
            (λ i h.
              ap (at 0 js) (let e : k + 1 + i ≡ k + suc i = omega arith in e)
              ∙ f (suc i) (omega (arith, h)))
            (λ i h.
              ap (at z xs) (let e : k + 1 + i ≡ k + suc i = omega arith in e)
              ∙ g (suc i) (omega (arith, h))) in
        cc (a, b, c)

    pub slice-rows :
        (n k : ℕ)
        → k < n
        → slice z (all_columns n) (all_entries n) (length (rows k)) (total k) ≡ rows k
    unfolding all_columns all_entries total
    slice-rows n k h =
        slice_of (all_columns n) (all_entries n) (rows k) (total k)
          (λ i l.
            at-all_columns (suc k) n (total k + i) (omega (arith, h)) (omega (arith, l))
            ∙ ap (λ t. at 0 (all_columns k ++ columns_of (rows k)) (t + i))
                (sym (length-all_columns k))
            ∙ at-append_right 0 (all_columns k) (columns_of (rows k)) i)
          (λ i l.
            at-all_entries (suc k) n (total k + i) (omega (arith, h)) (omega (arith, l))
            ∙ ap (λ t. at z (all_entries k ++ entries_of (rows k)) (t + i))
                (sym (length-all_entries k))
            ∙ at-append_right z (all_entries k) (entries_of (rows k)) i)
