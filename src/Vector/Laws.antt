-- ===== src/Vector/Laws.antt =====
-- Reading a vector after each change of it.
use csympy.Prelude.{
  ℕ, zero, suc, ◌+◌, ◌≡◌, ◌<◌, ◌≤◌, refl, ap, false, List, [], ◌∷◌, length, ◌==◌, arith,
}
use csympy.Vector.{at, assign, repeat, insert_at, erase_at, change_from}

module _ {ℓ} {A : Type ℓ} where
  pub at-assign_same : (d b : A) (v : List A) (n : ℕ) → n < length v → at d (assign v n b) n ≡ b
  unfolding at assign
  at-assign_same d b [] n h = absurd (ground arith)
  at-assign_same d b (a ∷ v) zero h = refl
  at-assign_same d b (a ∷ v) (suc n) h = at-assign_same d b v n (omega (arith, h))

  pub at-assign_other :
      (d b : A) (v : List A) (k n : ℕ) → (n == k) ≡ false → at d (assign v k b) n ≡ at d v n
  unfolding at assign
  at-assign_other d b [] k n h = refl
  at-assign_other d b (a ∷ v) zero zero h = absurd (ground arith)
  at-assign_other d b (a ∷ v) zero (suc n) h = refl
  at-assign_other d b (a ∷ v) (suc k) zero h = refl
  at-assign_other d b (a ∷ v) (suc k) (suc n) h = at-assign_other d b v k n (ground arith)

  pub length-assign : (v : List A) (k : ℕ) (b : A) → length (assign v k b) ≡ length v
  unfolding assign
  length-assign [] k b = refl
  length-assign (a ∷ v) zero b = refl
  length-assign (a ∷ v) (suc k) b = ap suc (length-assign v k b)

  pub at-insert_at_before :
      (d b : A) (v : List A) (k n : ℕ) → n < k → k ≤ length v → at d (insert_at k b v) n ≡ at d v n
  unfolding at insert_at
  at-insert_at_before d b v zero n h l = absurd (ground arith)
  at-insert_at_before d b [] (suc k) n h l = absurd (ground arith)
  at-insert_at_before d b (a ∷ v) (suc k) zero h l = refl
  at-insert_at_before d b (a ∷ v) (suc k) (suc n) h l =
      at-insert_at_before d b v k n (omega (arith, h)) (omega (arith, l))

  pub at-insert_at_same :
      (d b : A) (v : List A) (k : ℕ) → k ≤ length v → at d (insert_at k b v) k ≡ b
  unfolding at insert_at
  at-insert_at_same d b v zero l = refl
  at-insert_at_same d b [] (suc k) l = absurd (ground arith)
  at-insert_at_same d b (a ∷ v) (suc k) l = at-insert_at_same d b v k (omega (arith, l))

  pub at-insert_at_after :
      (d b : A) (v : List A) (k n : ℕ)
      → k ≤ n
      → k ≤ length v
      → at d (insert_at k b v) (suc n) ≡ at d v n
  unfolding at insert_at
  at-insert_at_after d b v zero n h l = refl
  at-insert_at_after d b [] (suc k) n h l = absurd (ground arith)
  at-insert_at_after d b (a ∷ v) (suc k) zero h l = absurd (ground arith)
  at-insert_at_after d b (a ∷ v) (suc k) (suc n) h l =
      at-insert_at_after d b v k n (omega (arith, h)) (omega (arith, l))

  pub length-insert_at :
      (k : ℕ) (b : A) (v : List A) → k ≤ length v → length (insert_at k b v) ≡ suc (length v)
  unfolding insert_at
  length-insert_at zero b v l = refl
  length-insert_at (suc k) b [] l = absurd (ground arith)
  length-insert_at (suc k) b (a ∷ v) l = ap suc (length-insert_at k b v (omega (arith, l)))

  pub at-erase_at_before : (d : A) (v : List A) (k n : ℕ) → n < k → at d (erase_at k v) n ≡ at d v n
  unfolding at erase_at
  at-erase_at_before d [] k n h = refl
  at-erase_at_before d (a ∷ v) zero n h = absurd (ground arith)
  at-erase_at_before d (a ∷ v) (suc k) zero h = refl
  at-erase_at_before d (a ∷ v) (suc k) (suc n) h = at-erase_at_before d v k n (omega (arith, h))

  pub at-erase_at_after :
      (d : A) (v : List A) (k n : ℕ) → k ≤ n → at d (erase_at k v) n ≡ at d v (suc n)
  unfolding at erase_at
  at-erase_at_after d [] k n h = refl
  at-erase_at_after d (a ∷ v) zero n h = refl
  at-erase_at_after d (a ∷ v) (suc k) zero h = absurd (ground arith)
  at-erase_at_after d (a ∷ v) (suc k) (suc n) h = at-erase_at_after d v k n (omega (arith, h))

  pub length-erase_at : (k : ℕ) (v : List A) → k < length v → suc (length (erase_at k v)) ≡ length v
  unfolding erase_at
  length-erase_at k [] l = absurd (ground arith)
  length-erase_at zero (a ∷ v) l = refl
  length-erase_at (suc k) (a ∷ v) l = ap suc (length-erase_at k v (omega (arith, l)))

  pub length-change_from :
      (f : A → A) (s c : ℕ) (v : List A) → length (change_from f s c v) ≡ length v
  unfolding change_from
  length-change_from f s c [] = refl
  length-change_from f (suc s) c (a ∷ v) = ap suc (length-change_from f s c v)
  length-change_from f zero zero (a ∷ v) = refl
  length-change_from f zero (suc c) (a ∷ v) = ap suc (length-change_from f zero c v)

  pub at-change_from_before :
      (d : A) (f : A → A) (s c : ℕ) (v : List A) (n : ℕ)
      → n < s
      → at d (change_from f s c v) n ≡ at d v n
  unfolding at change_from
  at-change_from_before d f s c [] n h = refl
  at-change_from_before d f zero c (a ∷ v) n h = absurd (ground arith)
  at-change_from_before d f (suc s) c (a ∷ v) zero h = refl
  at-change_from_before d f (suc s) c (a ∷ v) (suc n) h =
      at-change_from_before d f s c v n (omega (arith, h))

  pub at-change_from_inside :
      (d : A) (f : A → A) (s c : ℕ) (v : List A) (n : ℕ)
      → s ≤ n
      → n < s + c
      → n < length v
      → at d (change_from f s c v) n ≡ f (at d v n)
  unfolding at change_from
  at-change_from_inside d f s c [] n h k l = absurd (ground arith)
  at-change_from_inside d f (suc s) c (a ∷ v) zero h k l = absurd (ground arith)
  at-change_from_inside d f (suc s) c (a ∷ v) (suc n) h k l =
      at-change_from_inside d f s c v n (omega (arith, h)) (omega (arith, k)) (omega (arith, l))
  at-change_from_inside d f zero zero (a ∷ v) n h k l = absurd (ground arith)
  at-change_from_inside d f zero (suc c) (a ∷ v) zero h k l = refl
  at-change_from_inside d f zero (suc c) (a ∷ v) (suc n) h k l =
      at-change_from_inside d f zero c v n (omega arith) (omega (arith, k)) (omega (arith, l))

  pub length-repeat : (n : ℕ) (b : A) → length (repeat n b) ≡ n
  unfolding repeat
  length-repeat zero b = refl
  length-repeat (suc n) b = ap suc (length-repeat n b)

  pub at-repeat : (d b : A) (n k : ℕ) → k < n → at d (repeat n b) k ≡ b
  unfolding repeat at
  at-repeat d b zero k h = absurd (omega (arith, h))
  at-repeat d b (suc n) zero h = refl
  at-repeat d b (suc n) (suc k) h = at-repeat d b n k (omega (arith, h))
