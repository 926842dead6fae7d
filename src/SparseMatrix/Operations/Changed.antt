-- ===== src/SparseMatrix/Operations/Changed.antt =====
-- A loop that changes some of the entries, and a matrix with changed entries.
use csympy.Prelude.{
  ℕ, zero, suc, ◌+◌, ◌≡◌, ◌<◌, ◌≤◌, ◌⊎◌, refl, sym, ap, ◌∙◌, inl, inr, arith, Bool-cases, false,
  List, length, ◌==◌, ==_iff,
}
use csympy.SparseMatrix.{CsrMatrix, get}
use csympy.SparseMatrix.Operations.{with_x}
use csympy.SparseMatrix.Operations.Slices.{slice, lookup, get-lookup}
use csympy.SparseMatrix.Rows.{IsCsr}
use csympy.Vector.{at, assign, for_each}
use csympy.Vector.Laws.{at-assign_same, at-assign_other, length-assign}

-- A loop that changes the entries from `a` on, each by itself.
module _ {ℓ} {A : Type ℓ} (z : A) (g : ℕ → A → A) (a : ℕ) (q : ℕ → ℕ)
    (q_is : (i : ℕ) → q i ≡ a + i) where
  abbrev pub changed : ℕ → List A → List A
  changed n v = for_each n (λ i w. assign w (q i) (g (q i) (at z w (q i)))) v

  pub length-changed : (n : ℕ) (v : List A) → length (changed n v) ≡ length v
  unfolding for_each
  length-changed zero v = refl
  length-changed (suc n) v = length-assign (changed n v) (q n) _ ∙ length-changed n v

  pub at-changed_outside :
      (n j : ℕ) (v : List A) → (j < a) ⊎ (a + n ≤ j) → at z (changed n v) j ≡ at z v j
  unfolding for_each
  at-changed_outside zero j v o = refl
  at-changed_outside (suc n) j v o =
      let apart : (j == q n) ≡ false = (let s = q_is n in ground (arith, o, s)) in
      let before : (j < a) ⊎ (a + n ≤ j) = ground (arith, o) in
      at-assign_other z _ (changed n v) (q n) j apart ∙ at-changed_outside n j v before

  pub at-changed_inside :
      (n j : ℕ) (v : List A)
      → a ≤ j
      → j < a + n
      → j < length v
      → at z (changed n v) j ≡ g j (at z v j)
  unfolding for_each
  at-changed_inside zero j v h l f = absurd (omega (arith, h, l))
  at-changed_inside (suc n) j v h l f =
      elim (let o : (j ≡ q n) ⊎ (((j == q n) ≡ false) × (j < a + n)) =
          (let s = q_is n in ground (arith, h, l, s)) in
        o) [
          | inl o ↦ rw o (
              at-assign_same z _ (changed n v) (q n) (omega (arith, length-changed n v, f, o))
              ∙ ap (g (q n))
                  (at-changed_outside n (q n) v (inr (let s = q_is n in omega (arith, s)))))
          | inr (o, m) ↦ at-assign_other z _ (changed n v) (q n) j o ∙ at-changed_inside n j v h m f
        ]

module _ {ℓ} {A : Type ℓ} (z : A) where
  -- A row whose entries in a column are changed by a function.
  lookup-changed :
      (js : List ℕ) (xs ys : List A) (n k c : ℕ) (h : A → A)
      → h z ≡ z
      → ((i : ℕ) → k ≤ i → i < k + n → at 0 js i ≡ c → at z ys i ≡ h (at z xs i))
      → lookup z (slice z js ys n k) c ≡ h (lookup z (slice z js xs n k) c)
  unfolding lookup slice
  lookup-changed js xs ys zero k c h none f = sym none
  lookup-changed js xs ys (suc n) k c h none f = elim (Bool-cases (at 0 js k == c)) [
    | inl t ↦ rw t (f k (omega arith) (omega arith) ((==_iff _ _).0 t))
    | inr t ↦ rw t (
        lookup-changed js xs ys n (k + 1) c h none
          (λ i u v. f i (omega (arith, u)) (omega (arith, v))))
  ]

  pub with_x-IsCsr :
      (m : CsrMatrix A) (x : List A) → IsCsr m → length x ≡ length m.x → IsCsr (with_x m x)
  with_x-IsCsr m x ok h = record {
    starts = ok.starts;
    columns = ok.columns;
    entries = h ∙ ok.entries;
    ordered = ok.ordered;
    growing = ok.growing;
  }

  pub get-with_x :
      (m : CsrMatrix A) (x : List A) (i c : ℕ) (h : A → A)
      → IsCsr m
      → length x ≡ length m.x
      → i < m.row
      → h z ≡ z
      → ((n : ℕ)
          → at 0 m.p i ≤ n
          → n < at 0 m.p (i + 1)
          → at 0 m.j n ≡ c
          → at z x n ≡ h (at z m.x n))
      → get z (with_x m x) i c ≡ h (get z m i c)
  get-with_x m x i c h ok l r none f =
      get-lookup z (with_x m x) i c (with_x-IsCsr m x ok l) r
      ∙ lookup-changed m.j m.x x _ (at 0 m.p i) c h none
          (λ n u v. f n u (let o = ok.ordered i r in omega (arith, v, o)))
      ∙ ap h (sym (get-lookup z m i c ok r))
