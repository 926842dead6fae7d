-- ===== src/SparseMatrix/Rows.antt =====
-- The rows of a matrix in canonical form, and where a column stands in a row.
use csympy.Prelude.{
  ℕ, zero, suc, ◌+◌, ◌-◌, ◌≡◌, ◌≢◌, ◌<◌, ◌≤◌, ap, ◌∙◌, List, length, ◌==◌, arith, Bool-cases, inl,
  inr, ◌⊎◌, ==_iff,
}
use csympy.Vector.{at}
use csympy.SparseMatrix.{CsrMatrix, seek, scan, get}
use csympy.SparseMatrix.Search.{
  Growing, first_or_later, scan_congr, scan_found, scan_missing, seek_bounds, seek_below, seek_stop,
}

-- What `is_canonical` asks for: the lengths, the order of the row starts and the order of the
-- columns of each row, without repetition.
pub record IsCsr {ℓ} {A : Type ℓ} (m : CsrMatrix A) : Type 0 where
  pub starts : length m.p ≡ m.row + 1
  pub columns : length m.j ≡ at 0 m.p m.row
  pub entries : length m.x ≡ at 0 m.p m.row
  pub ordered : (i : ℕ) → i < m.row → at 0 m.p i ≤ at 0 m.p (i + 1)
  pub growing : (i : ℕ) → i < m.row → Growing m.j (at 0 m.p i) (at 0 m.p (i + 1))

-- The position of the column `c` in a row that stands from `a` to `b`.
pub record IsPlace (js : List ℕ) (a b c k : ℕ) : Type 0 where
  pub from : a ≤ k
  pub upto : k ≤ b
  pub below : (n : ℕ) → a ≤ n → n < k → at 0 js n < c
  pub above : k < b → c ≤ at 0 js k

pub seek-IsPlace : (js : List ℕ) (a b c : ℕ) → a ≤ b → IsPlace js a b c (seek js (b - a) a c)
seek-IsPlace js a b c h =
    let (u, v) = seek_bounds js (b - a) a c in
    record {
      from = u;
      upto = omega (arith, v, h);
      below = seek_below js (b - a) a c;
      above = λ l. seek_stop js (b - a) a c (omega (arith, l, h));
    }

-- A column stands in a range, or it does not.
pub stands :
    (js : List ℕ) (fuel k c : ℕ)
    → ((n : ℕ) × (k ≤ n) × (n < k + fuel) × (at 0 js n ≡ c))
      ⊎ ((n : ℕ) → k ≤ n → n < k + fuel → at 0 js n ≢ c)
stands js zero k c = inr (λ n p q. absurd (omega (arith, p, q)))
stands js (suc fuel) k c = elim (Bool-cases (at 0 js k == c)) [
  | inl h ↦ inl (k, omega arith, omega arith, (==_iff _ _).0 h)
  | inr h ↦ elim (stands js fuel (k + 1) c) [
    | inl (n, p, q, e) ↦ inl (n, omega (arith, p), omega (arith, q), e)
    | inr f ↦ inr (λ n p q e. elim (first_or_later k n p) [
      | inl t ↦ absurd (cc (h, (==_iff _ _).1 (ap (at 0 js) t ∙ e)))
      | inr u ↦ f n u (omega (arith, q)) e
    ])
  ]
]

module _ {ℓ} {A : Type ℓ} {m : CsrMatrix A} (ok : IsCsr m) where
  le_to : (i d : ℕ) → i + d ≤ m.row → at 0 m.p i ≤ at 0 m.p (i + d)
  le_to i zero h = omega (arith, ap (at 0 m.p) (let e : i + 0 ≡ i = omega arith in e))
  le_to i (suc d) h =
      let e : i + d + 1 ≡ i + suc d = omega arith in
      omega (
        arith,
        le_to i d (omega (arith, h)),
        ok.ordered (i + d) (omega (arith, h)),
        ap (at 0 m.p) e,
      )

  -- The rows start one after the other.
  pub start_le : (i k : ℕ) → i ≤ k → k ≤ m.row → at 0 m.p i ≤ at 0 m.p k
  start_le i k h l =
      let e : i + (k - i) ≡ k = omega (arith, h) in
      omega (arith, le_to i (k - i) (omega (arith, h, l)), ap (at 0 m.p) e)

  pub get_found :
      (z : A) (i c n : ℕ)
      → i < m.row
      → at 0 m.p i ≤ n
      → n < at 0 m.p (i + 1)
      → at 0 m.j n ≡ c
      → get z m i c ≡ at z m.x n
  unfolding get
  get_found z i c n r h l e =
      scan_found z m.j m.x (b - a) a c n
        (λ u v s t w. ok.growing i r u v s t (omega (arith, w, ok.ordered i r))) h
        (omega (arith, h, l)) e
    where
      a : ℕ
      a = at 0 m.p i

      b : ℕ
      b = at 0 m.p (i + 1)

module _ {ℓ} {A : Type ℓ} where
  pub get_missing :
      (z : A) (m : CsrMatrix A) (i c : ℕ)
      → at 0 m.p i ≤ at 0 m.p (i + 1)
      → ((n : ℕ) → at 0 m.p i ≤ n → n < at 0 m.p (i + 1) → at 0 m.j n ≢ c)
      → get z m i c ≡ z
  unfolding get
  get_missing z m i c o f = scan_missing z m.j m.x _ _ c (λ n p q. f n p (omega (arith, p, q, o)))

  -- A row that is the same but for its position gives the same entries.
  pub get_moved :
      (z : A) (m w : CsrMatrix A) (i c : ℕ)
      → at 0 m.p (i + 1) - at 0 m.p i ≡ at 0 w.p (i + 1) - at 0 w.p i
      → ((n : ℕ)
          → n < at 0 w.p (i + 1) - at 0 w.p i
          → (at 0 m.j (at 0 m.p i + n) ≡ at 0 w.j (at 0 w.p i + n))
            × (at z m.x (at 0 m.p i + n) ≡ at z w.x (at 0 w.p i + n)))
      → get z m i c ≡ get z w i c
  unfolding get
  get_moved z m w i c e f =
      ap (λ t. scan z m.j m.x t (at 0 m.p i) c) e
      ∙ scan_congr z m.j w.j m.x w.x _ _ _ c (λ n h. (f n h).0) (λ n h. (f n h).1)
