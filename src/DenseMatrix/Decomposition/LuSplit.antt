-- ===== src/DenseMatrix/Decomposition/LuSplit.antt =====
-- The last loop of `LU`, which takes the combined factors apart.
use csympy.Prelude.{
  ℕ, zero, suc, ◌+◌, ◌-◌, ◌≡◌, ◌≢◌, ◌<◌, ◌≤◌, refl, sym, ap, ◌∙◌, List, arith, inl, inr, ◌⊎◌,
}
use csympy.Vector.{assign, for_each, for_range}
use csympy.DenseMatrix.{Entries, index}
use csympy.DenseMatrix.Loops.{assign-IsStep, for_each-here, for_each-there, for_each-size}
use csympy.DenseMatrix.Solve.{Division, cell}
use csympy.DenseMatrix.Decomposition.{lu_split}
use csympy.DenseMatrix.Decomposition.Cells.{
  IsSquare, index-apart, index-inside, cell-assign_same, cell-assign_other, assign-IsSquare,
}

before_or_at : (n c p q : ℕ) → (p ≤ q) ⊎ (suc c ≤ p) → ((p ≢ c) ⊎ (c ≤ q)) × ((p ≤ q) ⊎ (c ≤ p))
before_or_at n c p q (inl h) = elim (let o : (c ≤ q) ⊎ (q < c) = ground arith in o) [
  | inl o ↦ (inr o, inl h)
  | inr o ↦ (inl (λ z. omega (arith, z, o, h)), inl h)
]
before_or_at n c p q (inr h) = (inl (λ z. omega (arith, z, h)), inr (omega (arith, h)))

module _ {ℓ} {A : Type ℓ} ⦃e : Entries A⦄ ⦃d : Division A⦄ where
  abbrev move : ℕ → ℕ → ℕ → List A × List A → List A × List A
  move n i j r = (assign r.0 (index n i j) (cell r.1 n i j), assign r.1 (index n i j) e.zero_entry)

  -- The first `m` cells of the row `i` have moved from the second matrix to the first.
  record Moved (n i m : ℕ) (s t : List A × List A) : Type ℓ where
    left : IsSquare n t.0
    right : IsSquare n t.1
    left_there : (p q : ℕ) → p < n → q < n → (p ≢ i) ⊎ (m ≤ q) → cell t.0 n p q ≡ cell s.0 n p q
    left_here : (q : ℕ) → q < m → cell t.0 n i q ≡ cell s.1 n i q
    right_there : (p q : ℕ) → p < n → q < n → (p ≢ i) ⊎ (m ≤ q) → cell t.1 n p q ≡ cell s.1 n p q
    right_here : (q : ℕ) → q < m → cell t.1 n i q ≡ e.zero_entry

  loop-Moved :
      (n i m : ℕ) (s : List A × List A)
      → IsSquare n s.0
      → IsSquare n s.1
      → i < n
      → m ≤ n
      → Moved n i m s (for_each m (move n i) s)
  unfolding for_each
  loop-Moved n i zero s a b h l = record {
    left = a;
    right = b;
    left_there = λ p q x y z. refl;
    left_here = λ q x. absurd (omega (arith, x));
    right_there = λ p q x y z. refl;
    right_here = λ q x. absurd (omega (arith, x));
  }
  loop-Moved n i (suc m) s a b h l =
      let t = for_each m (move n i) s in
      let r = loop-Moved n i m s a b h (omega (arith, l)) in
      let m_n : m < n = omega (arith, l) in
      let other = λ (p q : ℕ) (z : (p ≢ i) ⊎ (suc m ≤ q)). elim z as (λ _. (p ≢ i) ⊎ (q ≢ m)) [
        | inl x ↦ inl x
        | inr x ↦ inr (λ y. omega (arith, y, x))
      ] in
      let weak = λ (p q : ℕ) (z : (p ≢ i) ⊎ (suc m ≤ q)). elim z as (λ _. (p ≢ i) ⊎ (m ≤ q)) [
        | inl x ↦ inl x
        | inr x ↦ inr (omega (arith, x))
      ] in
      record {
        left = assign-IsSquare n t.0 (index n i m) (cell t.1 n i m) r.left;
        right = assign-IsSquare n t.1 (index n i m) e.zero_entry r.right;
        left_there = λ p q x y z.
            cell-assign_other n t.0 p q i m (cell t.1 n i m) a.bounded x y h m_n (other p q z)
            ∙ r.left_there p q x y (weak p q z);
        left_here = λ q x. elim (let o : (q ≡ m) ⊎ (q < m) = ground (arith, x) in o) [
          | inl o ↦ rw o (
              cell-assign_same n t.0 i m (cell t.1 n i m) r.left h m_n
              ∙ r.right_there i m h m_n (inr (omega arith)))
          | inr o ↦
              cell-assign_other n t.0 i q i m (cell t.1 n i m) a.bounded h (omega (arith, o, m_n)) h
                m_n (inr (λ z. omega (arith, z, o)))
              ∙ r.left_here q o
        ];
        right_there = λ p q x y z.
            cell-assign_other n t.1 p q i m e.zero_entry a.bounded x y h m_n (other p q z)
            ∙ r.right_there p q x y (weak p q z);
        right_here = λ q x. elim (let o : (q ≡ m) ⊎ (q < m) = ground (arith, x) in o) [
          | inl o ↦ rw o (cell-assign_same n t.1 i m e.zero_entry r.right h m_n)
          | inr o ↦
              cell-assign_other n t.1 i q i m e.zero_entry a.bounded h (omega (arith, o, m_n)) h m_n
                (inr (λ z. omega (arith, z, o)))
              ∙ r.right_here q o
        ];
      }

  -- A loop that clears the cells after the place `i` of the row `i`.
  record Cleared (n i : ℕ) (v w : List A) : Type ℓ where
    square : IsSquare n w
    there : (p q : ℕ) → p < n → q < n → (p ≢ i) ⊎ (q ≤ i) → cell w n p q ≡ cell v n p q
    here : (q : ℕ) → i < q → q < n → cell w n i q ≡ e.zero_entry

  abbrev clear : ℕ → ℕ → ℕ → List A → List A
  clear n i k v = assign v (index n i (i + 1 + k)) e.zero_entry

  loop-Cleared :
      (n i : ℕ) (v : List A)
      → IsSquare n v
      → i < n
      → Cleared n i v (for_each (n - (i + 1)) (clear n i) v)
  loop-Cleared n i v s h =
      let g = λ (k : ℕ). index n i (i + 1 + k) in
      let φ = λ (k : ℕ) (x : A). e.zero_entry in
      let step = λ (k : ℕ). assign-IsStep e.zero_entry (g k) (φ k) in
      let m = n - (i + 1) in
      record {
        square = record {
          size = for_each-size e.zero_entry m (clear n i) g φ v step ∙ s.size;
          bounded = s.bounded;
        };
        there = λ p q x y z.
            for_each-there e.zero_entry m (clear n i) g φ v (index n p q) step (λ k t.
              index-apart n p q i (i + 1 + k) s.bounded x y h (omega (arith, t))
                (elim z [ inl o ↦ inl o | inr o ↦ inr (λ f. omega (arith, f, o)) ]));
        here = λ q x y.
            let o : i + 1 + (q - (i + 1)) ≡ q = omega (arith, x) in
            ap (λ t. cell (for_each m (clear n i) v) n i t) (sym o)
            ∙ for_each-here e.zero_entry m (clear n i) g φ v (q - (i + 1)) step
                (λ a b f t.
                  index-apart n i (i + 1 + a) i (i + 1 + b) s.bounded h (omega (arith, f, t)) h
                    (omega (arith, t)) (inr (λ z. omega (arith, z, f))))
                (omega (arith, x, y))
                (index-inside n v i (i + 1 + (q - (i + 1))) s h (omega (arith, o, y)));
      }

  -- The rows before `c` are split: `L` has the cells before the diagonal, `U` the others.
  pub record Split (n c : ℕ) (s t : List A × List A) : Type ℓ where
    pub left : IsSquare n t.0
    pub right : IsSquare n t.1
    pub multiplier : (p q : ℕ) → p < c → q < p → cell t.0 n p q ≡ cell s.1 n p q
    pub unit : (p : ℕ) → p < c → cell t.0 n p p ≡ d.one
    pub above : (p q : ℕ) → p < c → p < q → q < n → cell t.0 n p q ≡ e.zero_entry
    pub below : (p q : ℕ) → p < c → q < p → cell t.1 n p q ≡ e.zero_entry
    pub kept : (p q : ℕ) → p < n → q < n → (p ≤ q) ⊎ (c ≤ p) → cell t.1 n p q ≡ cell s.1 n p q

  -- One more row.
  lu_split-Split :
      (n c : ℕ) (s r : List A × List A)
      → suc c ≤ n
      → Split n c s r
      → Split n (suc c) s (lu_split n c r)
  unfolding lu_split for_range
  lu_split-Split n c s r h x =
      let c_n : c < n = omega (arith, h) in
      let t = for_each c (move n c) r in
      let m = loop-Moved n c c r x.left x.right c_n (omega (arith, h)) in
      let v = assign t.0 (index n c c) d.one in
      let w = for_each (n - (c + 1)) (clear n c) v in
      let k = loop-Cleared n c v (assign-IsSquare n t.0 (index n c c) d.one m.left) c_n in
      let old = λ (p q : ℕ) (p_c : p < c) (q_n : q < n).
        let o : p ≢ c = λ z. omega (arith, z, p_c) in
        let p_n : p < n = omega (arith, p_c, c_n) in
        k.there p q p_n q_n (inl o)
        ∙ cell-assign_other n t.0 p q c c d.one m.left.bounded p_n q_n c_n c_n (inl o)
        ∙ m.left_there p q p_n q_n (inl o) in
      let choose = λ (p : ℕ) (o : p < suc c). let z : (p ≡ c) ⊎ (p < c) = ground (arith, o) in z in
      record {
        left = k.square;
        right = m.right;
        multiplier = λ p q y z. elim (choose p y) [
          | inl o ↦
              let q_c : q < c = omega (arith, o, z) in
              let q_n : q < n = omega (arith, q_c, c_n) in
              rw o (
                k.there c q c_n q_n (inr (omega (arith, q_c)))
                ∙ cell-assign_other n t.0 c q c c d.one m.left.bounded c_n q_n c_n c_n
                    (inr (λ z. omega (arith, z, q_c)))
                ∙ m.left_here q q_c
                ∙ x.kept c q c_n q_n (inr (omega arith)))
          | inr o ↦ old p q o (omega (arith, z, o, c_n)) ∙ x.multiplier p q o z
        ];
        unit = λ p y. elim (choose p y) [
          | inl o ↦ rw o (
              k.there c c c_n c_n (inr (omega arith))
              ∙ cell-assign_same n t.0 c c d.one m.left c_n c_n)
          | inr o ↦ old p p o (omega (arith, o, c_n)) ∙ x.unit p o
        ];
        above = λ p q y z q_n. elim (choose p y) [
          | inl o ↦ rw o (k.here q (omega (arith, o, z)) q_n)
          | inr o ↦ old p q o q_n ∙ x.above p q o z q_n
        ];
        below = λ p q y z. elim (choose p y) [
          | inl o ↦ rw o (m.right_here q (omega (arith, o, z)))
          | inr o ↦
              m.right_there p q (omega (arith, o, c_n)) (omega (arith, z, o, c_n))
                (inl (λ z. omega (arith, z, o)))
              ∙ x.below p q o z
        ];
        kept = λ p q p_n q_n o.
            let (a, b) = before_or_at n c p q o in
            m.right_there p q p_n q_n a ∙ x.kept p q p_n q_n b;
      }

  pub rows-Split :
      (n c : ℕ) (s : List A × List A)
      → IsSquare n s.0
      → IsSquare n s.1
      → c ≤ n
      → Split n c s (for_each c (lu_split n) s)
  unfolding for_each
  rows-Split n zero s a b h = record {
    left = a;
    right = b;
    multiplier = λ p q x. absurd (omega (arith, x));
    unit = λ p x. absurd (omega (arith, x));
    above = λ p q x. absurd (omega (arith, x));
    below = λ p q x. absurd (omega (arith, x));
    kept = λ p q x y z. refl;
  }
  rows-Split n (suc c) s a b h =
      lu_split-Split n c s (for_each c (lu_split n) s) h (rows-Split n c s a b (omega (arith, h)))
