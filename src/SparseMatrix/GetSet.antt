-- ===== src/SparseMatrix/GetSet.antt =====
-- `set` against `get`: an entry that is written is read back, every other one is kept, and the
-- matrix stays in canonical form.
use csympy.Prelude.{
  ℕ, ◌+◌, ◌-◌, ◌^◌, ◌≡◌, ◌≢◌, ◌<◌, ◌≤◌, sym, ap, ap₂, ◌∙◌, Bool, true, false, length, ltb, ◌==◌,
  ◌&&◌, if◌then◌else◌, arith, Bool-cases, inl, inr, ◌⊎◌, ==_iff, ltb→lt, lt→ltb, and-true_iff,
}
use csympy.Dict.{Key}
use csympy.Vector.{at}
use csympy.SparseMatrix.{CsrMatrix, get, set, seek, replace_entry, insert_entry, remove_entry}
use csympy.Vector.Laws.{at-assign_same, at-assign_other, length-assign}
use csympy.SparseMatrix.Rows.{
  IsCsr, IsPlace, seek-IsPlace, stands, start_le, get_found, get_missing,
}
use csympy.SparseMatrix.Insert.{split_at, insert_entry-IsCsr, get-insert_entry}
use csympy.SparseMatrix.Remove.{remove_entry-IsCsr, get-remove_entry}

module _ {ℓ} {A : Type ℓ} (z : A) (m : CsrMatrix A) (ok : IsCsr m) (i k c : ℕ) (e : A)
    (inside : i < m.row) (from : at 0 m.p i ≤ k) (upto : k < at 0 m.p (i + 1))
    (here : at 0 m.j k ≡ c) where
  abbrev w : CsrMatrix A
  w = replace_entry m k e

  replace_entry-IsCsr : IsCsr w
  unfolding replace_entry
  replace_entry-IsCsr = record {
    starts = ok.starts;
    columns = ok.columns;
    entries = length-assign m.x k e ∙ ok.entries;
    ordered = ok.ordered;
    growing = ok.growing;
  }

  fits : k < length m.x
  fits =
      omega
        (arith, upto, ok.entries, start_le ok (i + 1) m.row (omega (arith, inside)) (omega arith))

  get_replaced : get z w i c ≡ e
  unfolding replace_entry
  get_replaced =
      get_found replace_entry-IsCsr z i c k inside from upto here ∙ at-assign_same z e m.x k fits

  -- Another row, or another column of the row, does not stand at `k`.
  elsewhere :
      (u v n : ℕ)
      → u < m.row
      → at 0 m.p u ≤ n
      → n < at 0 m.p (u + 1)
      → at 0 m.j n ≡ v
      → n ≡ k
      → (u == i && v == c) ≡ true
  elsewhere u v n r p q h t = elim (split_at i u) [
    | inl a ↦ absurd (
        omega
          (arith, p, q, t, from, start_le ok (u + 1) i (omega (arith, a)) (omega (arith, inside))))
    | inr (inl a) ↦
        (and-true_iff _ _).1 ((==_iff _ _).1 a, (==_iff _ _).1 (sym h ∙ ap (at 0 m.j) t ∙ here))
    | inr (inr (o, a, b)) ↦ absurd (
        omega
          (arith, p, q, t, upto, start_le ok (i + 1) u (omega (arith, a, b)) (omega (arith, r))))
  ]

  get_other : (u v : ℕ) → u < m.row → (u == i && v == c) ≡ false → get z w u v ≡ get z m u v
  unfolding replace_entry
  get_other u v r h = elim (stands m.j (at 0 m.p (u + 1) - at 0 m.p u) (at 0 m.p u) v) [
    | inl (n, p, q, t) ↦
        let l : n < at 0 m.p (u + 1) = omega (arith, q, ok.ordered u r) in
        get_found replace_entry-IsCsr z u v n r p l t
        ∙ at-assign_other z e m.x k n (apart n (λ s. cc (h, elsewhere u v n r p l t s)))
        ∙ sym (get_found ok z u v n r p l t)
    | inr f ↦
        get_missing z w u v (ok.ordered u r) (λ n p q. f n p (omega (arith, p, q)))
        ∙ sym (get_missing z m u v (ok.ordered u r) (λ n p q. f n p (omega (arith, p, q))))
  ]
    where
      apart : (n : ℕ) → n ≢ k → (n == k) ≡ false
      apart n f = ground (arith, f)

  get-replace_entry :
      (u v : ℕ) → u < m.row → get z w u v ≡ (if u == i && v == c then e else get z m u v)
  get-replace_entry u v r = elim (Bool-cases (u == i && v == c)) [
    | inl h ↦
        let (a, b) = (and-true_iff _ _).0 h in
        ap₂ (get z w) ((==_iff _ _).0 a) ((==_iff _ _).0 b) ∙ get_replaced ∙ rw h
    | inr h ↦ get_other u v r h ∙ rw h
  ]

module _ {ℓ} {A : Type ℓ} ⦃key : Key A⦄ where
  abbrev place : CsrMatrix A → ℕ → ℕ → ℕ
  place m i c = seek m.j (at 0 m.p (i + 1) - at 0 m.p i) (at 0 m.p i) c

  Absent : CsrMatrix A → ℕ → ℕ → Type 0
  Absent m i c = (n : ℕ) → place m i c ≤ n → n < at 0 m.p (i + 1) → c < at 0 m.j n

  module _ (m : CsrMatrix A) (ok : IsCsr m) (i c : ℕ) (inside : i < m.row) where
    abbrev present : Bool
    present = ltb (place m i c) (at 0 m.p (i + 1)) && at 0 m.j (place m i c) == c

    stand : IsPlace m.j (at 0 m.p i) (at 0 m.p (i + 1)) c (place m i c)
    stand = seek-IsPlace m.j (at 0 m.p i) (at 0 m.p (i + 1)) c (ok.ordered i inside)

    place-Absent : present ≡ false → Absent m i c
    unfolding Absent
    place-Absent h n p q = elim (split_at (place m i c) n) [
      | inl a ↦ absurd (omega (arith, p, a))
      | inr (inl a) ↦
          let l : place m i c < at 0 m.p (i + 1) = omega (arith, q, a) in
          omega (arith, ap (at 0 m.j) a, stand.above l, differs l)
      | inr (inr (o, a, b)) ↦
          let l : place m i c < at 0 m.p (i + 1) = omega (arith, q, a, b) in
          omega (
            arith,
            ok.growing i inside (place m i c) n stand.from (omega (arith, a, b)) q,
            stand.above l,
          )
    ]
      where
        differs : place m i c < at 0 m.p (i + 1) → at 0 m.j (place m i c) ≢ c
        differs l e = cc (h, (and-true_iff _ _).1 (lt→ltb _ _ l, (==_iff _ _).1 e))

    -- The four outcomes of `set`.
    set_cases {κ} :
        (z e : A) (P : CsrMatrix A → Type κ)
        → (key.eq e z ≡ false
            → place m i c < at 0 m.p (i + 1)
            → at 0 m.j (place m i c) ≡ c
            → P (replace_entry m (place m i c) e))
        → (key.eq e z ≡ false → Absent m i c → P (insert_entry m (place m i c) i c e))
        → (key.eq e z ≡ true
            → place m i c < at 0 m.p (i + 1)
            → at 0 m.j (place m i c) ≡ c
            → P (remove_entry m (place m i c) i))
        → (key.eq e z ≡ true → Absent m i c → P m)
        → P (set z m i c e)
    unfolding set
    set_cases z e P f g h k = elim (Bool-cases (key.eq e z)) [
      | inl t ↦ elim (Bool-cases present) [
        | inl q ↦
            let (a, b) = (and-true_iff _ _).0 q in
            rw t (rw q (h t (ltb→lt _ _ a) ((==_iff _ _).0 b)))
        | inr q ↦ rw t (rw q (k t (place-Absent q)))
      ]
      | inr t ↦ elim (Bool-cases present) [
        | inl q ↦
            let (a, b) = (and-true_iff _ _).0 q in
            rw t (rw q (f t (ltb→lt _ _ a) ((==_iff _ _).0 b)))
        | inr q ↦ rw t (rw q (g t (place-Absent q)))
      ]
    ]

    get-Absent : (z : A) → Absent m i c → get z m i c ≡ z
    unfolding Absent
    get-Absent z f = get_missing z m i c (ok.ordered i inside) (λ n p q t.
        elim (first_or_later_of n) [
          | inl a ↦ absurd (omega (arith, t, stand.below n p a))
          | inr a ↦ absurd (omega (arith, t, f n a q))
        ])
      where
        first_or_later_of : (n : ℕ) → (n < place m i c) ⊎ (place m i c ≤ n)
        first_or_later_of n = ground arith

    -- A matrix in canonical form stays so.
    pub set-IsCsr : (z e : A) → at 0 m.p m.row + 1 < 2 ^ 32 → IsCsr (set z m i c e)
    unfolding Absent
    set-IsCsr z e room =
        set_cases z e IsCsr
          (λ t l h. replace_entry-IsCsr z m ok i (place m i c) c e inside stand.from l h)
          (λ t a. insert_entry-IsCsr z m ok i (place m i c) c e inside room stand a)
          (λ t l h.
            remove_entry-IsCsr z m ok i (place m i c) c inside (omega (arith, room)) stand.from l h)
          (λ t a. ok)

    -- After `set`, `get` reads the new entry at its place, or zero for one that is equal to zero,
    -- and everywhere else what it read before.
    pub get-set :
        (z e : A) (u v : ℕ)
        → at 0 m.p m.row + 1 < 2 ^ 32
        → u < m.row
        → get z (set z m i c e) u v
          ≡ (if u == i && v == c then (if key.eq e z then z else e) else get z m u v)
    unfolding Absent
    get-set z e u v room r =
        set_cases z e
          (λ w.
            get z w u v ≡ (if u == i && v == c then (if key.eq e z then z else e) else get z m u v))
          (λ t l h. get-replace_entry z m ok i (place m i c) c e inside stand.from l h u v r ∙ rw t)
          (λ t a. get-insert_entry z m ok i (place m i c) c e inside room stand a u v r ∙ rw t)
          (λ t l h.
            get-remove_entry z m ok i (place m i c) c inside (omega (arith, room)) stand.from l h u
              v r
            ∙ rw t)
          (λ t a. elim (Bool-cases (u == i && v == c)) [
            | inl q ↦
                let (s, o) = (and-true_iff _ _).0 q in
                ap₂ (get z m) ((==_iff _ _).0 s) ((==_iff _ _).0 o) ∙ get-Absent z a ∙ rw q (rw t)
            | inr q ↦ rw q
          ])
