-- ===== src/Vector.antt =====
-- `std::vector`, as src/sparse_matrix.cpp and src/dense_matrix.cpp use it. A read past the end is
-- undefined in C++ and gives a default here, and a write past the end changes nothing.
pub mod Laws
use csympy.Prelude.{ℕ, zero, suc, ◌+◌, ◌-◌, List, [], ◌∷◌}

module _ {ℓ} {A : Type ℓ} where
  -- `v[n]`
  unfoldable pub at : A → List A → ℕ → A
  at d [] n = d
  at d (a ∷ v) zero = a
  at d (a ∷ v) (suc n) = at d v n

  -- `v[n] = b`
  unfoldable pub assign : List A → ℕ → A → List A
  assign [] n b = []
  assign (a ∷ v) zero b = b ∷ v
  assign (a ∷ v) (suc n) b = a ∷ assign v n b

  -- `v.insert(v.begin() + k, b)`
  unfoldable pub insert_at : ℕ → A → List A → List A
  insert_at zero b v = b ∷ v
  insert_at (suc k) b [] = b ∷ []
  insert_at (suc k) b (a ∷ v) = a ∷ insert_at k b v

  -- `v.erase(v.begin() + k)`
  unfoldable pub erase_at : ℕ → List A → List A
  erase_at k [] = []
  erase_at zero (a ∷ v) = v
  erase_at (suc k) (a ∷ v) = a ∷ erase_at k v

  -- `for (l = from; count--; l++) v[l] = f(v[l])`
  unfoldable pub change_from : (A → A) → ℕ → ℕ → List A → List A
  change_from f start count [] = []
  change_from f (suc start) count (a ∷ v) = a ∷ change_from f start count v
  change_from f zero zero (a ∷ v) = a ∷ v
  change_from f zero (suc count) (a ∷ v) = f a ∷ change_from f zero count v

  -- `std::vector(n, b)`
  unfoldable pub repeat : ℕ → A → List A
  repeat zero b = []
  repeat (suc n) b = b ∷ repeat n b

module _ {ℓ} {S : Type ℓ} where
  -- `for (k = 0; k < n; k++)`, on a state.
  unfoldable pub for_each : ℕ → (ℕ → S → S) → S → S
  for_each zero f s = s
  for_each (suc n) f s = f n (for_each n f s)

  -- `for (k = m; k < n; k++)`
  unfoldable pub for_range : ℕ → ℕ → (ℕ → S → S) → S → S
  for_range m n f s = for_each (n - m) (λ k t. f (m + k) t) s

  -- `for (k = n - 1; k >= 0; k--)`
  unfoldable pub for_down : ℕ → (ℕ → S → S) → S → S
  for_down zero f s = s
  for_down (suc n) f s = for_down n f (f n s)
