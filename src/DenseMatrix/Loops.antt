-- ===== src/DenseMatrix/Loops.antt =====
-- What a loop over entries leaves in the vector, where each step changes one place.
use native.Mathlib.Nat.{mul-le-mul_right}
use csympy.Prelude.{
  ℕ, zero, suc, ◌+◌, ◌*◌, ◌^◌, ◌≡◌, ◌≢◌, ◌<◌, ◌≤◌, refl, sym, ap, ◌∙◌, List, length, arith, inl,
  inr, ◌⊎◌, ◌==◌, false,
}
use csympy.Vector.{at, assign, for_each}
use csympy.Vector.Laws.{at-assign_same, at-assign_other, length-assign}
use csympy.DenseMatrix.{index, for_entries}

last_or_before : (k n : ℕ) → k < suc n → (k ≡ n) ⊎ (k < n)
last_or_before k n h = ground arith

module _ {ℓ} {A : Type ℓ} (z : A) where
  -- The step `f` puts `φ` of the old entry at the place `g`, and leaves every other place.
  pub record IsStep (f : List A → List A) (g : ℕ) (φ : A → A) : Type ℓ where
    pub here : (v : List A) → g < length v → at z (f v) g ≡ φ (at z v g)
    pub there : (v : List A) (p : ℕ) → p ≢ g → at z (f v) p ≡ at z v p
    pub size : (v : List A) → length (f v) ≡ length v

  pub assign-IsStep : (g : ℕ) (φ : A → A) → IsStep (λ v. assign v g (φ (at z v g))) g φ
  assign-IsStep g φ = record {
    here = λ v h. at-assign_same z _ v g h;
    there = λ v p n. at-assign_other z _ v g p (differs p g n);
    size = λ v. length-assign v g _;
  }
    where
      differs : (p k : ℕ) → p ≢ k → (p == k) ≡ false
      differs p k n = ground (arith, n)

  pub for_each-size :
      (n : ℕ) (f : ℕ → List A → List A) (g : ℕ → ℕ) (φ : ℕ → A → A) (v : List A)
      → ((k : ℕ) → IsStep (f k) (g k) (φ k))
      → length (for_each n f v) ≡ length v
  unfolding for_each
  for_each-size zero f g φ v s = refl
  for_each-size (suc n) f g φ v s = (s n).size (for_each n f v) ∙ for_each-size n f g φ v s

  pub for_each-there :
      (n : ℕ) (f : ℕ → List A → List A) (g : ℕ → ℕ) (φ : ℕ → A → A) (v : List A) (p : ℕ)
      → ((k : ℕ) → IsStep (f k) (g k) (φ k))
      → ((k : ℕ) → k < n → p ≢ g k)
      → at z (for_each n f v) p ≡ at z v p
  unfolding for_each
  for_each-there zero f g φ v p s h = refl
  for_each-there (suc n) f g φ v p s h =
      (s n).there (for_each n f v) p (h n (omega arith))
      ∙ for_each-there n f g φ v p s (λ k l. h k (omega (arith, l)))

  -- Each of the steps changes its place, if no two have one.
  pub for_each-here :
      (n : ℕ) (f : ℕ → List A → List A) (g : ℕ → ℕ) (φ : ℕ → A → A) (v : List A) (k : ℕ)
      → ((l : ℕ) → IsStep (f l) (g l) (φ l))
      → ((a b : ℕ) → a < b → b < n → g a ≢ g b)
      → k < n
      → g k < length v
      → at z (for_each n f v) (g k) ≡ φ k (at z v (g k))
  unfolding for_each
  for_each-here zero f g φ v k s d h l = absurd (omega (arith, h))
  for_each-here (suc n) f g φ v k s d h l = elim (last_or_before k n h) [
    | inl e ↦
        ap (λ t. at z (for_each (suc n) f v) (g t)) e
        ∙ (s n).here (for_each n f v) (omega (arith, l, ap g e, for_each-size n f g φ v s))
        ∙ ap (φ n) (for_each-there n f g φ v (g n) s (λ a b t. d a n b (omega arith) (sym t)))
        ∙ ap (λ t. φ t (at z v (g t))) (sym e)
    | inr e ↦
        (s n).there (for_each n f v) (g k) (d k n e (omega arith))
        ∙ for_each-here n f g φ v k s (λ a b p q. d a b p (omega (arith, q))) e l
  ]

  -- The loop over rows and columns.
  module _ (c : ℕ) (f : ℕ → ℕ → List A → List A) (g : ℕ → ℕ → ℕ) (φ : ℕ → ℕ → A → A)
      (s : (i j : ℕ) → IsStep (f i j) (g i j) (φ i j)) where
    pub for_entries-size : (r : ℕ) (v : List A) → length (for_entries r c f v) ≡ length v
    unfolding for_entries for_each
    for_entries-size zero v = refl
    for_entries-size (suc r) v =
        for_each-size c (f r) (g r) (φ r) (for_entries r c f v) (s r) ∙ for_entries-size r v

    for_entries-there :
        (r : ℕ) (v : List A) (p : ℕ)
        → ((i j : ℕ) → i < r → j < c → p ≢ g i j)
        → at z (for_entries r c f v) p ≡ at z v p
    unfolding for_entries for_each
    for_entries-there zero v p h = refl
    for_entries-there (suc r) v p h =
        for_each-there c (f r) (g r) (φ r) (for_entries r c f v) p (s r)
          (λ k l. h r k (omega arith) l)
        ∙ for_entries-there r v p (λ i j l. h i j (omega (arith, l)))

    pub for_entries-here :
        (r : ℕ) (v : List A) (i j : ℕ)
        → ((k a b : ℕ) → k < r → a < b → b < c → g k a ≢ g k b)
        → ((k l a b : ℕ) → k < l → l < r → a < c → b < c → g k a ≢ g l b)
        → i < r
        → j < c
        → g i j < length v
        → at z (for_entries r c f v) (g i j) ≡ φ i j (at z v (g i j))
    unfolding for_entries for_each
    for_entries-here zero v i j d o h l m = absurd (omega (arith, h))
    for_entries-here (suc r) v i j d o h l m = elim (last_or_before i r h) [
      | inl e ↦
          ap (λ t. at z (for_entries (suc r) c f v) (g t j)) e
          ∙ for_each-here c (f r) (g r) (φ r) (for_entries r c f v) j (s r)
              (λ a b. d r a b (omega arith)) l
              (omega (arith, m, ap (λ t. g t j) e, for_entries-size r v))
          ∙ ap (φ r j)
              (for_entries-there r v (g r j) (λ k a p q t. o k r a j p (omega arith) q l (sym t)))
          ∙ ap (λ t. φ t j (at z v (g t j))) (sym e)
      | inr e ↦
          for_each-there c (f r) (g r) (φ r) (for_entries r c f v) (g i j) (s r)
            (λ k q. o i r j k e (omega arith) l q)
          ∙ for_entries-here r v i j (λ k a b p. d k a b (omega (arith, p)))
              (λ k t a b p q. o k t a b p (omega (arith, q))) e l m
    ]

pub row_below : (c i k j : ℕ) → i < k → j < c → i * c + j < k * c
row_below c i k j h l = omega (arith, mul-le-mul_right c h, l)

pub index-eq : (r c i j : ℕ) → i < r → j < c → r * c ≤ 2 ^ 32 → index c i j ≡ i * c + j
unfolding index
index-eq r c i j h l b = omega (arith, row_below c i r j h l, b)

-- Two entries stand at two places.
pub index-row : (r c k a b : ℕ) → r * c ≤ 2 ^ 32 → k < r → a < b → b < c → index c k a ≢ index c k b
index-row r c k a b h l p q e =
    omega (arith, e, index-eq r c k a l (omega (arith, p, q)) h, index-eq r c k b l q h, p)

pub index-order :
    (r c k l a b : ℕ) → r * c ≤ 2 ^ 32 → k < l → l < r → a < c → b < c → index c k a ≢ index c l b
index-order r c k l a b h p q s t e = omega (
  arith,
  e,
  index-eq r c k a (omega (arith, p, q)) s h,
  index-eq r c l b q t h,
  row_below c k l a p s,
)
