-- ===== src/Diophantine/Order.antt =====
-- `order` compares two vectors entry by entry, and `is_minimum` asks for a vector that is above none
-- of the basis.
use csympy.Prelude.{
  ℕ, zero, suc, ◌+◌, ◌≡◌, ◌<◌, ◌≤◌, ◌⊎◌, ◌↔◌, refl, sym, ◌∙◌, inl, inr, arith, Bool, Bool-cases,
  true, false, not, and-true_iff, List, if◌then◌else◌,
}
use csympy.Prelude.Int.{ℤ, ltb_ℤ, ◌≤ℤ◌, ◌<ℤ◌}
use csympy.DenseMatrix.{DenseMatrix, entry}
use csympy.Diophantine.{integer_entries, order_loop, order, is_minimum, no_matrix}
use csympy.Vector.{at}

ltb_or_le : (x y : ℤ) → ((ltb_ℤ x y ≡ true) × (x <ℤ y)) ⊎ ((ltb_ℤ x y ≡ false) × (y ≤ℤ x))
ltb_or_le x y = ground arith

-- `b` is nowhere above `t`, and somewhere below it.
abbrev pub IsBelow : DenseMatrix ℤ → DenseMatrix ℤ → Type 0
IsBelow b t =
    ((k : ℕ) → k < t.col → entry b 0 k ≤ℤ entry t 0 k)
    × ((k : ℕ) × (k < t.col) × (entry b 0 k <ℤ entry t 0 k))

module _ (t b : DenseMatrix ℤ) where
  abbrev Found : ℕ → ℕ → Bool → Type 0
  Found n j same =
      ((k : ℕ) → j ≤ k → k < j + n → entry b 0 k ≤ℤ entry t 0 k)
      × ((same ≡ false) ⊎ ((k : ℕ) × (j ≤ k) × (k < j + n) × (entry b 0 k <ℤ entry t 0 k)))

  abbrev still : ℕ → Bool → Bool
  still j same = if ltb_ℤ (entry b 0 j) (entry t 0 j) then false else same

  order_loop-Found : (n j : ℕ) (same : Bool) → order_loop n j t b same ≡ true → Found n j same
  unfolding order_loop
  order_loop-Found zero j same h = (λ k p q. absurd (omega (arith, p, q)), inl (ground (arith, h)))
  order_loop-Found (suc n) j same h = elim (ltb_or_le (entry t 0 j) (entry b 0 j)) [
    | inl (l, _) ↦ absurd (let e : order_loop (suc n) j t b same ≡ false = rw l in cc (e, h))
    | inr (l, m) ↦
        let next : order_loop n (j + 1) t b (still j same) ≡ true =
          (let e : order_loop (suc n) j t b same ≡ order_loop n (j + 1) t b (still j same) = rw l in
            sym e)
          ∙ h in
        let (f, g) = order_loop-Found n (j + 1) (still j same) next in
        (
          λ k p q. elim (let o : (k ≡ j) ⊎ (j + 1 ≤ k) = ground (arith, p) in o) [
            | inl o ↦ rw o m
            | inr o ↦ f k o (omega (arith, q))
          ],
          elim g [
            | inl s ↦ elim (ltb_or_le (entry b 0 j) (entry t 0 j)) [
              | inl (u, v) ↦ inr (j, omega arith, omega arith, v)
              | inr (u, v) ↦ inl (rw u at s)
            ]
            | inr (k, p, q, r) ↦ inr (k, omega (arith, p), omega (arith, q), r)
          ],
        )
  ]

  Found-order_loop : (n j : ℕ) (same : Bool) → Found n j same → order_loop n j t b same ≡ true
  unfolding order_loop
  Found-order_loop zero j same (f, g) = elim g [
    | inl s ↦ rw s refl
    | inr (k, p, q, r) ↦ absurd (omega (arith, p, q))
  ]
  Found-order_loop (suc n) j same (f, g) = elim (ltb_or_le (entry t 0 j) (entry b 0 j)) [
    | inl (l, m) ↦ absurd (let u = f j (omega arith) (omega arith) in omega (arith, m, u))
    | inr (l, m) ↦ rw l (
        Found-order_loop n (j + 1) (still j same) (
          λ k p q. f k (omega (arith, p)) (omega (arith, q)),
          elim (ltb_or_le (entry b 0 j) (entry t 0 j)) [
            | inl (u, v) ↦ inl (rw u refl)
            | inr (u, v) ↦ elim g [
              | inl s ↦ inl (rw u s)
              | inr (k, p, q, r) ↦ elim (let o : (k ≡ j) ⊎ (j + 1 ≤ k) = ground (arith, p) in o) [
                | inl o ↦ absurd (let w = rw o at r in omega (arith, w, v))
                | inr o ↦ inr (k, o, omega (arith, q), r)
              ]
            ]
          ],
        ))
  ]

last_or_before : (k n : ℕ) → k < suc n → (k ≡ n) ⊎ (k < n)
last_or_before k n h = ground (arith, h)

order_iff : (t b : DenseMatrix ℤ) → (order t b ≡ true) ↔ IsBelow b t
unfolding order
order_iff t b = (
  λ h.
      let (f, g) = order_loop-Found t b t.col 0 true h in
      (
        λ k l. f k (omega arith) (omega (arith, l)),
        elim g [ inl s ↦ absurd (cc s) | inr (k, p, q, r) ↦ (k, omega (arith, q), r) ],
      ),
  λ h.
      let (k, l, m) = h.1 in
      Found-order_loop t b t.col 0 true
        (λ k p q. h.0 k (omega (arith, q)), inr (k, omega arith, omega (arith, l), m)),
)

-- `is_minimum` holds exactly if none of the first `n` vectors of the basis is below the vector, that
-- is, nowhere above it and somewhere smaller.
pub is_minimum_iff :
    (t : DenseMatrix ℤ) (basis : List (DenseMatrix ℤ)) (n : ℕ)
    → (is_minimum t basis n ≡ true) ↔ ((k : ℕ) → k < n → ¬ IsBelow (at no_matrix basis k) t)
unfolding is_minimum
is_minimum_iff t basis zero = (λ h k l. absurd (omega (arith, l)), λ h. refl)
is_minimum_iff t basis (suc n) = (
  λ h k l below.
      let (p, q) =
        (and-true_iff (not (order t (at no_matrix basis n))) (is_minimum t basis n)).0 h in
      elim (last_or_before k n l) [
        | inl o ↦
            let u : order t (at no_matrix basis n) ≡ true =
              (order_iff t (at no_matrix basis n)).1 (rw o at below) in
            absurd (let v : not (order t (at no_matrix basis n)) ≡ false = rw u refl in cc (v, p))
        | inr o ↦ (is_minimum_iff t basis n).0 q k o below
      ],
  λ f. (and-true_iff _ _).1 (
    elim (Bool-cases (order t (at no_matrix basis n))) [
      | inl u ↦ absurd (f n (omega arith) ((order_iff t (at no_matrix basis n)).0 u))
      | inr u ↦ rw u refl
    ],
    (is_minimum_iff t basis n).1 (λ k l. f k (omega (arith, l))),
  ),
)
