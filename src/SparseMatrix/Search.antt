-- ===== src/SparseMatrix/Search.antt =====
-- What the two loops over a row find.
use csympy.Prelude.{
  ℕ, zero, suc, ◌+◌, ◌≡◌, ◌≢◌, ◌<◌, ◌≤◌, refl, sym, ap, ap₂, ◌∙◌, true, false, List, if◌then◌else◌,
  ltb, ◌==◌, arith, Bool-cases, inl, inr, ◌⊎◌, ltb→lt, ==_iff,
}
use csympy.Vector.{at}
use csympy.SparseMatrix.{seek, scan}

-- The columns of the positions from `a` to `b` grow.
abbrev pub Growing : List ℕ → ℕ → ℕ → Type 0
Growing js a b = (m n : ℕ) → a ≤ m → m < n → n < b → at 0 js m < at 0 js n

pub first_or_later : (k n : ℕ) → k ≤ n → (k ≡ n) ⊎ (k + 1 ≤ n)
first_or_later k n h = ground arith

not_less : (a b : ℕ) → ltb a b ≡ false → b ≤ a
not_less a b h = ground arith

plus_zero : (k : ℕ) → k ≡ k + 0
plus_zero k = omega arith

carry : (k n : ℕ) → k + 1 + n ≡ k + suc n
carry k n = omega arith

seek-less :
    (js : List ℕ) (fuel k c : ℕ)
    → ltb (at 0 js k) c ≡ true
    → seek js (suc fuel) k c ≡ seek js fuel (k + 1) c
unfolding seek
seek-less js fuel k c h = rw h

seek-stop : (js : List ℕ) (fuel k c : ℕ) → ltb (at 0 js k) c ≡ false → seek js (suc fuel) k c ≡ k
unfolding seek
seek-stop js fuel k c h = rw h

pub seek_bounds :
    (js : List ℕ) (fuel k c : ℕ) → (k ≤ seek js fuel k c) × (seek js fuel k c ≤ k + fuel)
unfolding seek
seek_bounds js zero k c = (omega arith, omega arith)
seek_bounds js (suc fuel) k c =
    let (u, v) = seek_bounds js fuel (k + 1) c in
    elim (Bool-cases (ltb (at 0 js k) c)) [
      | inl h ↦ let e = seek-less js fuel k c h in (omega (arith, u, e), omega (arith, v, e))
      | inr h ↦ let e = seek-stop js fuel k c h in (omega (arith, e), omega (arith, e))
    ]

pub seek_below : (js : List ℕ) (fuel k c n : ℕ) → k ≤ n → n < seek js fuel k c → at 0 js n < c
seek_below js zero k c n h l = absurd (omega (arith, h, l, (seek_bounds js 0 k c).1))
seek_below js (suc fuel) k c n h l = elim (Bool-cases (ltb (at 0 js k) c)) [
  | inl t ↦ elim (first_or_later k n h) [
    | inl e ↦ omega (arith, ap (at 0 js) e, ltb→lt _ _ t)
    | inr u ↦ seek_below js fuel (k + 1) c n u (omega (arith, l, seek-less js fuel k c t))
  ]
  | inr t ↦ absurd (omega (arith, h, l, seek-stop js fuel k c t))
]

pub seek_stop :
    (js : List ℕ) (fuel k c : ℕ) → seek js fuel k c < k + fuel → c ≤ at 0 js (seek js fuel k c)
seek_stop js zero k c l = absurd (omega (arith, l, (seek_bounds js 0 k c).0))
seek_stop js (suc fuel) k c l = elim (Bool-cases (ltb (at 0 js k) c)) [
  | inl t ↦
      let e = seek-less js fuel k c t in
      omega (arith, ap (at 0 js) e, seek_stop js fuel (k + 1) c (omega (arith, l, e)))
  | inr t ↦ omega (arith, ap (at 0 js) (seek-stop js fuel k c t), not_less _ _ t)
]

module _ {ℓ} {A : Type ℓ} where
  first : (f g : ℕ → A) (k l : ℕ) → f (k + 0) ≡ g (l + 0) → f k ≡ g l
  first f g k l e = ap f (plus_zero k) ∙ e ∙ ap g (sym (plus_zero l))

  later : (f g : ℕ → A) (k l n : ℕ) → f (k + suc n) ≡ g (l + suc n) → f (k + 1 + n) ≡ g (l + 1 + n)
  later f g k l n e = ap f (carry k n) ∙ e ∙ ap g (sym (carry l n))

module _ {ℓ} {A : Type ℓ} (z : A) where
  abbrev body : ℕ → ℕ → A → A → A
  body c a v rest = if a == c then v else if ltb c a then z else rest

  -- Two ranges with the same columns and entries are scanned alike.
  pub scan_congr :
      (js ks : List ℕ) (xs ys : List A) (fuel k l c : ℕ)
      → ((n : ℕ) → n < fuel → at 0 js (k + n) ≡ at 0 ks (l + n))
      → ((n : ℕ) → n < fuel → at z xs (k + n) ≡ at z ys (l + n))
      → scan z js xs fuel k c ≡ scan z ks ys fuel l c
  unfolding scan
  scan_congr js ks xs ys zero k l c f g = refl
  scan_congr js ks xs ys (suc fuel) k l c f g =
      ap₂ (λ a v. body c a v (scan z js xs fuel (k + 1) c))
        (first (at 0 js) (at 0 ks) k l (f 0 (omega arith)))
        (first (at z xs) (at z ys) k l (g 0 (omega arith)))
      ∙ ap (body c (at 0 ks l) (at z ys l)) (
          scan_congr js ks xs ys fuel (k + 1) (l + 1) c
            (λ n h. later (at 0 js) (at 0 ks) k l n (f (suc n) (omega (arith, h))))
            (λ n h. later (at z xs) (at z ys) k l n (g (suc n) (omega (arith, h)))))

  scan-hit :
      (js : List ℕ) (xs : List A) (fuel k c : ℕ)
      → (at 0 js k == c) ≡ true
      → scan z js xs (suc fuel) k c ≡ at z xs k
  unfolding scan
  scan-hit js xs fuel k c h = rw h

  scan-past :
      (js : List ℕ) (xs : List A) (fuel k c : ℕ)
      → (at 0 js k == c) ≡ false
      → ltb c (at 0 js k) ≡ true
      → scan z js xs (suc fuel) k c ≡ z
  unfolding scan
  scan-past js xs fuel k c h l = rw h (rw l)

  scan-next :
      (js : List ℕ) (xs : List A) (fuel k c : ℕ)
      → (at 0 js k == c) ≡ false
      → ltb c (at 0 js k) ≡ false
      → scan z js xs (suc fuel) k c ≡ scan z js xs fuel (k + 1) c
  unfolding scan
  scan-next js xs fuel k c h l = rw h (rw l)

  -- A column that is there is found.
  pub scan_found :
      (js : List ℕ) (xs : List A) (fuel k c n : ℕ)
      → Growing js k (k + fuel)
      → k ≤ n
      → n < k + fuel
      → at 0 js n ≡ c
      → scan z js xs fuel k c ≡ at z xs n
  scan_found js xs zero k c n s h l e = absurd (omega (arith, h, l))
  scan_found js xs (suc fuel) k c n s h l e = elim (first_or_later k n h) [
    | inl t ↦ scan-hit js xs fuel k c ((==_iff _ _).1 (ap (at 0 js) t ∙ e)) ∙ ap (at z xs) t
    | inr t ↦
        let u : at 0 js k < c = omega (arith, e, s k n (omega arith) (omega (arith, t)) l) in
        scan-next js xs fuel k c (ground (arith, u)) (ground (arith, u))
        ∙ scan_found js xs fuel (k + 1) c n
            (λ a b p q r. s a b (omega (arith, p)) q (omega (arith, r))) t (omega (arith, l)) e
  ]

  -- A column that is not there gives zero.
  pub scan_missing :
      (js : List ℕ) (xs : List A) (fuel k c : ℕ)
      → ((n : ℕ) → k ≤ n → n < k + fuel → at 0 js n ≢ c)
      → scan z js xs fuel k c ≡ z
  unfolding scan
  scan_missing js xs zero k c h = refl
  scan_missing js xs (suc fuel) k c h = elim (Bool-cases (at 0 js k == c)) [
    | inl t ↦ absurd (h k (omega arith) (omega arith) ((==_iff _ _).0 t))
    | inr t ↦ elim (Bool-cases (ltb c (at 0 js k))) [
      | inl u ↦ scan-past js xs fuel k c t u
      | inr u ↦
          scan-next js xs fuel k c t u
          ∙ scan_missing js xs fuel (k + 1) c (λ n p q. h n (omega (arith, p)) (omega (arith, q)))
    ]
  ]
