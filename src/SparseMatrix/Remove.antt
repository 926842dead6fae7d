-- ===== src/SparseMatrix/Remove.antt =====
-- An entry taken out of a row: what `get` reads afterwards.
use csympy.Prelude.{
  ℕ, suc, ◌+◌, ◌-◌, ◌^◌, ◌≡◌, ◌≢◌, ◌<◌, ◌≤◌, refl, sym, ap, ap₂, ◌∙◌, true, false, length, ◌==◌,
  ◌&&◌, if◌then◌else◌, arith, Bool-cases, inl, inr, ◌⊎◌, ==_iff,
}
use csympy.Vector.{at}
use csympy.SparseMatrix.{CsrMatrix, get, remove_entry, decr}
use csympy.Vector.Laws.{
  at-erase_at_before, at-erase_at_after, length-erase_at, at-change_from_before,
  at-change_from_inside, length-change_from,
}
use csympy.SparseMatrix.Search.{Growing}
use csympy.SparseMatrix.Rows.{IsCsr, stands, start_le, get_found, get_missing, get_moved}
use csympy.SparseMatrix.Insert.{split_at}

decr-suc : (n k : ℕ) → n ≡ suc k → n < 2 ^ 32 → decr n ≡ k
decr-suc n k e h = omega (arith, e, h)

module _ {ℓ} {A : Type ℓ} (z : A) (m : CsrMatrix A) (ok : IsCsr m) (i k c : ℕ) (inside : i < m.row)
    (room : at 0 m.p m.row < 2 ^ 32) (from : at 0 m.p i ≤ k) (upto : k < at 0 m.p (i + 1))
    (here : at 0 m.j k ≡ c) where
  abbrev w : CsrMatrix A
  w = remove_entry m k i

  start_before : (n : ℕ) → n ≤ i → at 0 w.p n ≡ at 0 m.p n
  unfolding remove_entry
  start_before n h = at-change_from_before 0 decr (i + 1) (m.row - i) m.p n (omega (arith, h))

  start_after : (n : ℕ) → i < n → n ≤ m.row → at 0 w.p n + 1 ≡ at 0 m.p n
  unfolding remove_entry
  start_after n h l =
      let u = start_le ok (i + 1) n (omega (arith, h)) l in
      let e : at 0 w.p n ≡ decr (at 0 m.p n) =
        at-change_from_inside 0 decr (i + 1) (m.row - i) m.p n (omega (arith, h)) (omega (arith, l))
          (omega (arith, l, ok.starts)) in
      let d : decr (at 0 m.p n) ≡ at 0 m.p n - 1 =
        decr-suc (at 0 m.p n) _ (omega (arith, u, upto))
          (omega (arith, room, start_le ok n m.row l (omega arith))) in
      omega (arith, e, d, u, upto)

  fits : k < length m.j
  fits =
      omega
        (arith, upto, ok.columns, start_le ok (i + 1) m.row (omega (arith, inside)) (omega arith))

  fits_entries : k < length m.x
  fits_entries = omega (arith, fits, ok.columns, ok.entries)

  column_before : (n : ℕ) → n < k → at 0 w.j n ≡ at 0 m.j n
  unfolding remove_entry
  column_before n h = at-erase_at_before 0 m.j k n h

  column_after : (n : ℕ) → k ≤ n → at 0 w.j n ≡ at 0 m.j (suc n)
  unfolding remove_entry
  column_after n h = at-erase_at_after 0 m.j k n h

  entry_before : (n : ℕ) → n < k → at z w.x n ≡ at z m.x n
  unfolding remove_entry
  entry_before n h = at-erase_at_before z m.x k n h

  entry_after : (n : ℕ) → k ≤ n → at z w.x n ≡ at z m.x (suc n)
  unfolding remove_entry
  entry_after n h = at-erase_at_after z m.x k n h

  below_or_not : (n : ℕ) → (n < k) ⊎ (k ≤ n)
  below_or_not n = ground arith

  -- The rows above stay.
  get_above : (u v : ℕ) → u < i → get z w u v ≡ get z m u v
  get_above u v h = get_moved z w m u v (ap₂ ◌-◌ last first) (λ n l.
      let q : at 0 m.p u + n < k =
        omega (arith, l, from, start_le ok (u + 1) i (omega (arith, h)) (omega (arith, inside))) in
      (
        ap (λ t. at 0 w.j (t + n)) first ∙ column_before _ q,
        ap (λ t. at z w.x (t + n)) first ∙ entry_before _ q,
      ))
    where
      first : at 0 w.p u ≡ at 0 m.p u
      first = start_before u (omega (arith, h))

      last : at 0 w.p (u + 1) ≡ at 0 m.p (u + 1)
      last = start_before (u + 1) (omega (arith, h))

  get_below : (u v : ℕ) → i < u → u < m.row → get z w u v ≡ get z m u v
  get_below u v h r = get_moved z w m u v (omega (arith, first, last)) (λ n l.
      let q : k ≤ at 0 w.p u + n =
        omega (arith, upto, first, start_le ok (i + 1) u (omega (arith, h)) (omega (arith, r))) in
      let t : suc (at 0 w.p u + n) ≡ at 0 m.p u + n = omega (arith, first) in
      (column_after _ q ∙ ap (at 0 m.j) t, entry_after _ q ∙ ap (at z m.x) t))
    where
      first : at 0 w.p u + 1 ≡ at 0 m.p u
      first = start_after u h (omega (arith, r))

      last : at 0 w.p (u + 1) + 1 ≡ at 0 m.p (u + 1)
      last = start_after (u + 1) (omega (arith, h)) (omega (arith, r))

  start_here : at 0 w.p i ≡ at 0 m.p i
  start_here = start_before i (omega arith)

  end_here : at 0 w.p (i + 1) + 1 ≡ at 0 m.p (i + 1)
  end_here = start_after (i + 1) (omega arith) (omega (arith, inside))

  old : Growing m.j (at 0 m.p i) (at 0 m.p (i + 1))
  old = ok.growing i inside

  row_here-Growing : Growing w.j (at 0 w.p i) (at 0 w.p (i + 1))
  row_here-Growing u v h l r =
      let a : at 0 m.p i ≤ u = omega (arith, start_here, h) in
      let b : suc v < at 0 m.p (i + 1) = omega (arith, end_here, r) in
      elim (below_or_not u) [
        | inl p ↦ elim (below_or_not v) [
          | inl q ↦
              omega (arith, column_before u p, column_before v q, old u v a l (omega (arith, b)))
          | inr q ↦
              omega
                (arith, column_before u p, column_after v q, old u (suc v) a (omega (arith, l)) b)
        ]
        | inr p ↦
            let q : k ≤ v = omega (arith, p, l) in
            omega (
              arith,
              column_after u p,
              column_after v q,
              old (suc u) (suc v) (omega (arith, a)) (omega (arith, l)) b,
            )
      ]

  row_above-Growing : (u : ℕ) → u < i → Growing w.j (at 0 w.p u) (at 0 w.p (u + 1))
  row_above-Growing u h a b r l t =
      let e0 = start_before u (omega (arith, h)) in
      let e1 = start_before (u + 1) (omega (arith, h)) in
      let q : b < k =
        omega
          (arith, e1, t, from, start_le ok (u + 1) i (omega (arith, h)) (omega (arith, inside))) in
      omega (
        arith,
        column_before a (omega (arith, q, l)),
        column_before b q,
        ok.growing u (omega (arith, h, inside)) a b (omega (arith, e0, r)) l (omega (arith, e1, t)),
      )

  row_below-Growing : (u : ℕ) → i < u → u < m.row → Growing w.j (at 0 w.p u) (at 0 w.p (u + 1))
  row_below-Growing u h o a b r l t =
      let e0 = start_after u h (omega (arith, o)) in
      let e1 = start_after (u + 1) (omega (arith, h)) (omega (arith, o)) in
      let q : k ≤ a =
        omega (arith, e0, r, upto, start_le ok (i + 1) u (omega (arith, h)) (omega (arith, o))) in
      omega (
        arith,
        column_after a q,
        column_after b (omega (arith, q, l)),
        ok.growing u o (suc a) (suc b) (omega (arith, e0, r)) (omega (arith, l))
            (omega (arith, e1, t)),
      )

  row_after-Growing : (u : ℕ) → u < m.row → Growing w.j (at 0 w.p u) (at 0 w.p (u + 1))
  row_after-Growing u h = elim (split_at i u) [
    | inl p ↦ row_above-Growing u p
    | inr (inl p) ↦ λ a b r l t.
        row_here-Growing a b (omega (arith, ap (at 0 w.p) p, r)) l
          (omega (arith, ap (λ v. at 0 w.p (v + 1)) p, t))
    | inr (inr (o, p, t)) ↦ row_below-Growing u (omega (arith, p, t)) h
  ]

  ordered_after : (u : ℕ) → u < m.row → at 0 w.p u ≤ at 0 w.p (u + 1)
  ordered_after u h = elim (split_at i u) [
    | inl p ↦ omega (
      arith,
      start_before u (omega (arith, p)),
      start_before (u + 1) (omega (arith, p)),
      ok.ordered u h,
    )
    | inr (inl p) ↦
        omega
          (arith, start_here, end_here, ap (at 0 w.p) p, ap (λ v. at 0 w.p (v + 1)) p, from, upto)
    | inr (inr (o, p, t)) ↦ omega (
      arith,
      start_after u (omega (arith, p, t)) (omega (arith, h)),
      start_after (u + 1) (omega (arith, p, t)) (omega (arith, h)),
      ok.ordered u h,
    )
  ]

  pub remove_entry-IsCsr : IsCsr w
  unfolding remove_entry
  remove_entry-IsCsr = record {
    starts = length-change_from decr (i + 1) (m.row - i) m.p ∙ ok.starts;
    columns =
        omega
          (arith, length-erase_at k m.j fits, ok.columns, start_after m.row inside (omega arith));
    entries = omega (
      arith,
      length-erase_at k m.x fits_entries,
      ok.entries,
      start_after m.row inside (omega arith),
    );
    ordered = ordered_after;
    growing = row_after-Growing;
  }

  same_rows : w.row ≡ m.row
  unfolding remove_entry
  same_rows = refl

  -- Every other column of the row stands where it stood, or one before.
  get_kept_found :
      (v n : ℕ)
      → v ≢ c
      → at 0 m.p i ≤ n
      → n < at 0 m.p (i + 1)
      → at 0 m.j n ≡ v
      → get z w i v ≡ at z m.x n
  get_kept_found v n f p q h = elim (split_at k n) [
    | inl t ↦
        get_found remove_entry-IsCsr z i v n (omega (arith, same_rows, inside))
          (omega (arith, start_here, p)) (omega (arith, end_here, t, upto)) (column_before n t ∙ h)
        ∙ entry_before n t
    | inr (inl t) ↦ absurd (f (sym h ∙ ap (at 0 m.j) t ∙ here))
    | inr (inr (o, t, l)) ↦
        get_found remove_entry-IsCsr z i v o (omega (arith, same_rows, inside))
          (omega (arith, start_here, from, l)) (omega (arith, end_here, q, t))
          (column_after o l ∙ ap (at 0 m.j) (sym t) ∙ h)
        ∙ entry_after o l
        ∙ ap (at z m.x) (sym t)
  ]

  get_removed : get z w i c ≡ z
  get_removed = get_missing z w i c (ordered_after i inside) (λ n p q t. elim (below_or_not n) [
    | inl a ↦
        absurd
          (omega (arith, t, column_before n a, here, old n k (omega (arith, p, start_here)) a upto))
    | inr a ↦ absurd (
        omega (
          arith,
          t,
          column_after n a,
          here,
          old k (suc n) from (omega (arith, a)) (omega (arith, q, end_here)),
        ))
  ])

  get_kept : (v : ℕ) → v ≢ c → get z w i v ≡ get z m i v
  get_kept v h = elim (stands m.j (at 0 m.p (i + 1) - at 0 m.p i) (at 0 m.p i) v) [
    | inl (n, p, q, t) ↦
        let l : n < at 0 m.p (i + 1) = omega (arith, q, ok.ordered i inside) in
        get_kept_found v n h p l t ∙ sym (get_found ok z i v n inside p l t)
    | inr f ↦
        get_missing z w i v (ordered_after i inside) (λ n p q t. elim (below_or_not n) [
          | inl a ↦
              f n (omega (arith, p, start_here)) (omega (arith, a, upto))
                (sym (column_before n a) ∙ t)
          | inr a ↦
              f (suc n) (omega (arith, p, start_here)) (omega (arith, q, end_here))
                (sym (column_after n a) ∙ t)
        ])
        ∙ sym (get_missing z m i v (ok.ordered i inside) (λ n p q. f n p (omega (arith, p, q))))
  ]

  -- What `get` reads after the removal.
  pub get-remove_entry :
      (u v : ℕ) → u < m.row → get z w u v ≡ (if u == i && v == c then z else get z m u v)
  get-remove_entry u v h = elim (split_at i u) [
    | inl p ↦ get_above u v p ∙ rw (let t : (u == i) ≡ false = ground (arith, p) in t)
    | inr (inl p) ↦ elim (Bool-cases (v == c)) [
      | inl q ↦
          ap₂ (get z w) p ((==_iff _ _).0 q)
          ∙ get_removed
          ∙ rw (let t : (u == i) ≡ true = (==_iff _ _).1 p in t) (rw q)
      | inr q ↦
          ap (λ t. get z w t v) p
          ∙ get_kept v (λ t. cc (q, (==_iff _ _).1 t))
          ∙ ap (λ t. get z m t v) (sym p)
          ∙ rw (let t : (u == i) ≡ true = (==_iff _ _).1 p in t) (rw q)
    ]
    | inr (inr (o, p, t)) ↦
        get_below u v (omega (arith, p, t)) h
        ∙ rw (let f : (u == i) ≡ false = ground (arith, p, t) in f)
  ]
