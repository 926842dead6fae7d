-- ===== src/SparseMatrix/Insert.antt =====
-- A new entry in a row: what `get` reads afterwards.
use csympy.Prelude.{
  ℕ, zero, suc, ◌+◌, ◌-◌, ◌^◌, ◌≡◌, ◌≢◌, ◌<◌, ◌≤◌, refl, sym, ap, ap₂, ◌∙◌, true, false, length,
  ltb, ◌==◌, ◌&&◌, if◌then◌else◌, arith, Bool-cases, inl, inr, ◌⊎◌, ==_iff, ltb→lt,
}
use csympy.Vector.{at}
use csympy.SparseMatrix.{CsrMatrix, get, insert_entry, incr}
use csympy.Vector.Laws.{
  at-insert_at_before, at-insert_at_same, at-insert_at_after, length-insert_at,
  at-change_from_before, at-change_from_inside, length-change_from,
}
use csympy.SparseMatrix.Search.{Growing}
use csympy.SparseMatrix.Rows.{IsCsr, IsPlace, stands, start_le, get_found, get_missing, get_moved}

pub split_at : (k n : ℕ) → (n < k) ⊎ ((n ≡ k) ⊎ ((o : ℕ) × (n ≡ suc o) × (k ≤ o)))
split_at k zero = ground arith
split_at k (suc n) = elim (Bool-cases (ltb n k)) [
  | inl h ↦ ground (arith, h)
  | inr h ↦ inr (inr (n, refl, ground (arith, h)))
]

incr-lt : (n : ℕ) → n + 1 < 2 ^ 32 → incr n ≡ n + 1
incr-lt n h = omega (arith, h)

module _ {ℓ} {A : Type ℓ} (z : A) (m : CsrMatrix A) (ok : IsCsr m) (i k c : ℕ) (e : A)
    (inside : i < m.row) (room : at 0 m.p m.row + 1 < 2 ^ 32)
    (place : IsPlace m.j (at 0 m.p i) (at 0 m.p (i + 1)) c k)
    (new : (n : ℕ) → k ≤ n → n < at 0 m.p (i + 1) → c < at 0 m.j n) where
  abbrev w : CsrMatrix A
  w = insert_entry m k i c e

  start_before : (n : ℕ) → n ≤ i → at 0 w.p n ≡ at 0 m.p n
  unfolding insert_entry
  start_before n h = at-change_from_before 0 incr (i + 1) (m.row - i) m.p n (omega (arith, h))

  start_after : (n : ℕ) → i < n → n ≤ m.row → at 0 w.p n ≡ at 0 m.p n + 1
  unfolding insert_entry
  start_after n h l =
      at-change_from_inside 0 incr (i + 1) (m.row - i) m.p n (omega (arith, h)) (omega (arith, l))
        (omega (arith, l, ok.starts))
      ∙ incr-lt (at 0 m.p n) (omega (arith, room, start_le ok n m.row l (omega arith)))

  fits : k ≤ length m.j
  fits = omega (
    arith,
    place.upto,
    ok.columns,
    start_le ok (i + 1) m.row (omega (arith, inside)) (omega arith),
  )

  fits_entries : k ≤ length m.x
  fits_entries = omega (arith, fits, ok.columns, ok.entries)

  column_before : (n : ℕ) → n < k → at 0 w.j n ≡ at 0 m.j n
  unfolding insert_entry
  column_before n h = at-insert_at_before 0 c m.j k n h fits

  column_here : at 0 w.j k ≡ c
  unfolding insert_entry
  column_here = at-insert_at_same 0 c m.j k fits

  column_after : (n : ℕ) → k ≤ n → at 0 w.j (suc n) ≡ at 0 m.j n
  unfolding insert_entry
  column_after n h = at-insert_at_after 0 c m.j k n h fits

  entry_before : (n : ℕ) → n < k → at z w.x n ≡ at z m.x n
  unfolding insert_entry
  entry_before n h = at-insert_at_before z e m.x k n h fits_entries

  entry_here : at z w.x k ≡ e
  unfolding insert_entry
  entry_here = at-insert_at_same z e m.x k fits_entries

  entry_after : (n : ℕ) → k ≤ n → at z w.x (suc n) ≡ at z m.x n
  unfolding insert_entry
  entry_after n h = at-insert_at_after z e m.x k n h fits_entries

  -- The rows above stay.
  get_above : (u v : ℕ) → u < i → get z w u v ≡ get z m u v
  get_above u v h = get_moved z w m u v (ap₂ ◌-◌ last first) (λ n l.
      let q : at 0 m.p u + n < k =
        omega (
          arith,
          l,
          place.from,
          start_le ok (u + 1) i (omega (arith, h)) (omega (arith, inside)),
        ) in
      (
        ap (λ t. at 0 w.j (t + n)) first ∙ column_before _ q,
        ap (λ t. at z w.x (t + n)) first ∙ entry_before _ q,
      ))
    where
      first : at 0 w.p u ≡ at 0 m.p u
      first = start_before u (omega (arith, h))

      last : at 0 w.p (u + 1) ≡ at 0 m.p (u + 1)
      last = start_before (u + 1) (omega (arith, h))

  get_below : (u v : ℕ) → i < u → u < m.row → get z w u v ≡ get z m u v
  get_below u v h r = get_moved z w m u v (omega (arith, first, last)) (λ n l.
      let q : k ≤ at 0 m.p u + n =
        omega (arith, place.upto, start_le ok (i + 1) u (omega (arith, h)) (omega (arith, r))) in
      let t : at 0 w.p u + n ≡ suc (at 0 m.p u + n) = omega (arith, first) in
      (ap (at 0 w.j) t ∙ column_after _ q, ap (at z w.x) t ∙ entry_after _ q))
    where
      first : at 0 w.p u ≡ at 0 m.p u + 1
      first = start_after u h (omega (arith, r))

      last : at 0 w.p (u + 1) ≡ at 0 m.p (u + 1) + 1
      last = start_after (u + 1) (omega (arith, h)) (omega (arith, r))

  start_here : at 0 w.p i ≡ at 0 m.p i
  start_here = start_before i (omega arith)

  end_here : at 0 w.p (i + 1) ≡ at 0 m.p (i + 1) + 1
  end_here = start_after (i + 1) (omega arith) (omega (arith, inside))

  row_here-Growing : Growing w.j (at 0 m.p i) (at 0 m.p (i + 1) + 1)
  row_here-Growing u v h l r = elim (split_at k u) [
    | inl p ↦ elim (split_at k v) [
      | inl q ↦
          omega (
            arith,
            column_before u p,
            column_before v q,
            old u v h l (omega (arith, q, place.upto)),
          )
      | inr (inl q) ↦
          omega (arith, column_before u p, ap (at 0 w.j) q, column_here, place.below u h p)
      | inr (inr (o, q, t)) ↦ omega (
        arith,
        column_before u p,
        ap (at 0 w.j) q,
        column_after o t,
        old u o h (omega (arith, p, t)) (omega (arith, q, r)),
      )
    ]
    | inr (inl p) ↦ elim (split_at k v) [
      | inl q ↦ absurd (omega (arith, p, q, l))
      | inr (inl q) ↦ absurd (omega (arith, p, q, l))
      | inr (inr (o, q, t)) ↦ omega (
        arith,
        ap (at 0 w.j) p,
        column_here,
        ap (at 0 w.j) q,
        column_after o t,
        new o t (omega (arith, q, r)),
      )
    ]
    | inr (inr (n, p, s)) ↦ elim (split_at k v) [
      | inl q ↦ absurd (omega (arith, p, q, l, s))
      | inr (inl q) ↦ absurd (omega (arith, p, q, l, s))
      | inr (inr (o, q, t)) ↦ omega (
        arith,
        ap (at 0 w.j) p,
        column_after n s,
        ap (at 0 w.j) q,
        column_after o t,
        old n o (omega (arith, s, place.from)) (omega (arith, p, q, l)) (omega (arith, q, r)),
      )
    ]
  ]
    where
      old : Growing m.j (at 0 m.p i) (at 0 m.p (i + 1))
      old = ok.growing i inside

  ordered_after : (u : ℕ) → u < m.row → at 0 w.p u ≤ at 0 w.p (u + 1)
  ordered_after u h = elim (split_at i u) [
    | inl p ↦ omega (
      arith,
      start_before u (omega (arith, p)),
      start_before (u + 1) (omega (arith, p)),
      ok.ordered u h,
    )
    | inr (inl p) ↦ omega (
      arith,
      start_before u (omega (arith, p)),
      start_after (u + 1) (omega (arith, p)) (omega (arith, h)),
      ok.ordered u h,
    )
    | inr (inr (o, p, t)) ↦ omega (
      arith,
      start_after u (omega (arith, p, t)) (omega (arith, h)),
      start_after (u + 1) (omega (arith, p, t)) (omega (arith, h)),
      ok.ordered u h,
    )
  ]

  row_above-Growing : (u : ℕ) → u < i → Growing w.j (at 0 w.p u) (at 0 w.p (u + 1))
  row_above-Growing u h a b r l t =
      let e0 = start_before u (omega (arith, h)) in
      let e1 = start_before (u + 1) (omega (arith, h)) in
      let q : b < k = omega (
        arith,
        e1,
        t,
        place.from,
        start_le ok (u + 1) i (omega (arith, h)) (omega (arith, inside)),
      ) in
      omega (
        arith,
        column_before a (omega (arith, q, l)),
        column_before b q,
        ok.growing u (omega (arith, h, inside)) a b (omega (arith, e0, r)) l (omega (arith, e1, t)),
      )

  row_below-Growing : (u : ℕ) → i < u → u < m.row → Growing w.j (at 0 w.p u) (at 0 w.p (u + 1))
  row_below-Growing u h o zero b r l t =
      absurd (omega (arith, r, start_after u h (omega (arith, o))))
  row_below-Growing u h o (suc a) zero r l t = absurd (omega (arith, l))
  row_below-Growing u h o (suc a) (suc b) r l t =
      let e0 = start_after u h (omega (arith, o)) in
      let e1 = start_after (u + 1) (omega (arith, h)) (omega (arith, o)) in
      let q : k ≤ a =
        omega
          (arith, e0, r, place.upto, start_le ok (i + 1) u (omega (arith, h)) (omega (arith, o))) in
      omega (
        arith,
        column_after a q,
        column_after b (omega (arith, q, l)),
        ok.growing u o a b (omega (arith, e0, r)) (omega (arith, l)) (omega (arith, e1, t)),
      )

  row_after-Growing : (u : ℕ) → u < m.row → Growing w.j (at 0 w.p u) (at 0 w.p (u + 1))
  row_after-Growing u h = elim (split_at i u) [
    | inl p ↦ row_above-Growing u p
    | inr (inl p) ↦ λ a b r l t.
        let e0 : at 0 w.p u ≡ at 0 m.p i = ap (at 0 w.p) p ∙ start_here in
        let e1 : at 0 w.p (u + 1) ≡ at 0 m.p (i + 1) + 1 =
          ap (λ v. at 0 w.p (v + 1)) p ∙ end_here in
        row_here-Growing a b (omega (arith, e0, r)) l (omega (arith, e1, t))
    | inr (inr (o, p, t)) ↦ row_below-Growing u (omega (arith, p, t)) h
  ]

  pub insert_entry-IsCsr : IsCsr w
  unfolding insert_entry
  insert_entry-IsCsr = record {
    starts = length-change_from incr (i + 1) (m.row - i) m.p ∙ ok.starts;
    columns =
        length-insert_at k c m.j fits
        ∙ omega (arith, ok.columns, start_after m.row inside (omega arith));
    entries =
        length-insert_at k e m.x fits_entries
        ∙ omega (arith, ok.entries, start_after m.row inside (omega arith));
    ordered = ordered_after;
    growing = row_after-Growing;
  }

  same_rows : w.row ≡ m.row
  unfolding insert_entry
  same_rows = refl

  get_inserted : get z w i c ≡ e
  get_inserted =
      get_found insert_entry-IsCsr z i c k (omega (arith, same_rows, inside))
        (omega (arith, start_here, place.from)) (omega (arith, end_here, place.upto)) column_here
      ∙ entry_here

  get_kept_found :
      (v n : ℕ) → at 0 m.p i ≤ n → n < at 0 m.p (i + 1) → at 0 m.j n ≡ v → get z w i v ≡ at z m.x n
  get_kept_found v n p q h = elim (Bool-cases (ltb n k)) [
    | inl t ↦
        get_found insert_entry-IsCsr z i v n (omega (arith, same_rows, inside))
          (omega (arith, start_here, p)) (omega (arith, end_here, q))
          (column_before n (ltb→lt _ _ t) ∙ h)
        ∙ entry_before n (ltb→lt _ _ t)
    | inr t ↦
        let l : k ≤ n = ground (arith, t) in
        get_found insert_entry-IsCsr z i v (suc n) (omega (arith, same_rows, inside))
          (omega (arith, start_here, p)) (omega (arith, end_here, q)) (column_after n l ∙ h)
        ∙ entry_after n l
  ]

  get_kept : (v : ℕ) → v ≢ c → get z w i v ≡ get z m i v
  get_kept v h = elim (stands m.j (at 0 m.p (i + 1) - at 0 m.p i) (at 0 m.p i) v) [
    | inl (n, p, q, t) ↦
        let l : n < at 0 m.p (i + 1) = omega (arith, q, order) in
        get_kept_found v n p l t ∙ sym (get_found ok z i v n inside p l t)
    | inr f ↦
        get_missing z w i v (omega (arith, start_here, end_here, order)) (λ n p q. absent f n p q)
        ∙ sym (get_missing z m i v order (λ n p q. f n p (omega (arith, p, q))))
  ]
    where
      order : at 0 m.p i ≤ at 0 m.p (i + 1)
      order = ok.ordered i inside

      absent :
          ((n : ℕ)
            → at 0 m.p i ≤ n
            → n < at 0 m.p i + (at 0 m.p (i + 1) - at 0 m.p i)
            → at 0 m.j n ≢ v)
          → (n : ℕ) → at 0 w.p i ≤ n
          → n < at 0 w.p (i + 1)
          → at 0 w.j n ≢ v
      absent f n p q t = elim (split_at k n) [
        | inl a ↦
            f n (omega (arith, p, start_here)) (omega (arith, a, place.upto))
              (sym (column_before n a) ∙ t)
        | inr (inl a) ↦ h (sym t ∙ ap (at 0 w.j) a ∙ column_here)
        | inr (inr (o, a, b)) ↦
            f o (omega (arith, b, place.from)) (omega (arith, a, q, end_here))
              (sym (column_after o b) ∙ ap (at 0 w.j) (sym a) ∙ t)
      ]

  -- What `get` reads after the insertion.
  pub get-insert_entry :
      (u v : ℕ) → u < m.row → get z w u v ≡ (if u == i && v == c then e else get z m u v)
  get-insert_entry u v h = elim (split_at i u) [
    | inl p ↦ get_above u v p ∙ rw (let t : (u == i) ≡ false = ground (arith, p) in t)
    | inr (inl p) ↦ elim (Bool-cases (v == c)) [
      | inl q ↦
          ap₂ (get z w) p ((==_iff _ _).0 q)
          ∙ get_inserted
          ∙ rw (let t : (u == i) ≡ true = (==_iff _ _).1 p in t) (rw q)
      | inr q ↦
          ap (λ t. get z w t v) p
          ∙ get_kept v (λ t. cc (q, (==_iff _ _).1 t))
          ∙ ap (λ t. get z m t v) (sym p)
          ∙ rw (let t : (u == i) ≡ true = (==_iff _ _).1 p in t) (rw q)
    ]
    | inr (inr (o, p, t)) ↦
        get_below u v (omega (arith, p, t)) h
        ∙ rw (let f : (u == i) ≡ false = ground (arith, p, t) in f)
  ]
