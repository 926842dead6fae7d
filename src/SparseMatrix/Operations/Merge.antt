-- ===== src/SparseMatrix/Operations/Merge.antt =====
-- The merge of two rows: each entry of the result is the operation on the entries of both rows.
use csympy.Prelude.{
  ℕ, zero, suc, ◌+◌, ◌≡◌, ◌<◌, ◌≤◌, refl, sym, ap, ◌∙◌, inl, inr, arith, true, Bool-cases, List, [],
  ◌∷◌, length, ltb, ◌==◌, ==_iff, ltb→lt, if◌then◌else◌,
}
use csympy.DenseMatrix.{Entries}
use csympy.Dict.{Key}
use csympy.SparseMatrix.{CsrMatrix}
use csympy.SparseMatrix.Operations.{push_entry, tail_a, tail_b, merge_row, merged_row}
use csympy.SparseMatrix.Operations.Slices.{
  Above, Sorted, Above-weaken, slice, lookup, lookup-Above, row_of,
}
use csympy.Vector.{at}

module _ {ℓ} {A : Type ℓ} ⦃key : Key A⦄ ⦃e : Entries A⦄ where
  push-Above : (d j : ℕ) (x : A) (l : List (ℕ × A)) → d < j → Above d l → Above d (push_entry j x l)
  push-Above d j x l h a = elim (Bool-cases (key.eq x e.zero_entry)) [
    | inl t ↦ rw t a
    | inr t ↦ rw t (h, a)
  ]

  push-Sorted :
      (j : ℕ) (x : A) (l : List (ℕ × A)) → Above j l → Sorted l → Sorted (push_entry j x l)
  push-Sorted j x l a s = elim (Bool-cases (key.eq x e.zero_entry)) [
    | inl t ↦ rw t s
    | inr t ↦ rw t (a, s)
  ]

  push-length : (j : ℕ) (x : A) (l : List (ℕ × A)) → length (push_entry j x l) ≤ suc (length l)
  push-length j x l = elim (Bool-cases (key.eq x e.zero_entry)) [
    | inl t ↦ rw t (omega arith)
    | inr t ↦ rw t (omega arith)
  ]

  module _ (sound : (x : A) → key.eq x e.zero_entry ≡ true → x ≡ e.zero_entry) where
    lookup-push :
        (j c : ℕ) (x : A) (l : List (ℕ × A))
        → Above j l
        → lookup e.zero_entry (push_entry j x l) c ≡ (if j == c then x else lookup e.zero_entry l c)
    unfolding lookup
    lookup-push j c x l a = elim (Bool-cases (key.eq x e.zero_entry)) [
      | inl t ↦ elim (Bool-cases (j == c)) [
        | inl u ↦
            let s : j ≡ c = (==_iff _ _).0 u in
            rw t (rw u (lookup-Above e.zero_entry l c (rw s at a) ∙ sym (sound x t)))
        | inr u ↦ rw t (rw u refl)
      ]
      | inr t ↦ rw t refl
    ]

    module _ (op : A → A → A) (none_op : op e.zero_entry e.zero_entry ≡ e.zero_entry) where
      abbrev row_a : CsrMatrix A → ℕ → ℕ → List (ℕ × A)
      row_a a m i = slice e.zero_entry a.j a.x m i

      tail_a-Above :
          (d m i : ℕ) (a : CsrMatrix A) → Above d (row_a a m i) → Above d (tail_a op m a i)
      unfolding tail_a slice
      tail_a-Above d zero i a h = tt
      tail_a-Above d (suc m) i a h =
          push-Above d (at 0 a.j i) _ (tail_a op m a (i + 1)) h.0 (tail_a-Above d m (i + 1) a h.1)

      tail_b-Above :
          (d m i : ℕ) (a : CsrMatrix A) → Above d (row_a a m i) → Above d (tail_b op m a i)
      unfolding tail_b slice
      tail_b-Above d zero i a h = tt
      tail_b-Above d (suc m) i a h =
          push-Above d (at 0 a.j i) _ (tail_b op m a (i + 1)) h.0 (tail_b-Above d m (i + 1) a h.1)

      -- What is to be shown of a list that is pushed for two rows.
      pub record IsMerge (u v l : List (ℕ × A)) : Type ℓ where
        pub above : (d : ℕ) → Above d u → Above d v → Above d l
        pub sorted : Sorted l
        pub few : length l ≤ length u + length v
        pub found :
            (c : ℕ)
            → lookup e.zero_entry l c ≡ op (lookup e.zero_entry u c) (lookup e.zero_entry v c)

      push_both :
          (j : ℕ) (x y : A) (u v l : List (ℕ × A))
          → Sorted ((j, x) ∷ u)
          → Sorted ((j, y) ∷ v)
          → IsMerge u v l
          → IsMerge ((j, x) ∷ u) ((j, y) ∷ v) (push_entry j (op x y) l)
      unfolding lookup
      push_both j x y u v l s t m =
          let later = m.above j s.0 t.0 in
          record {
            above = λ d a b. push-Above d j (op x y) l a.0 (m.above d a.1 b.1);
            sorted = push-Sorted j (op x y) l later m.sorted;
            few = omega (arith, m.few, push-length j (op x y) l);
            found = λ c.
                lookup-push j c (op x y) l later
                ∙ elim (Bool-cases (j == c)) [ inl h ↦ rw h refl | inr h ↦ rw h (m.found c) ];
          }

      push_same :
          (j k : ℕ) (x y : A) (u v l : List (ℕ × A))
          → j ≡ k
          → Sorted ((j, x) ∷ u)
          → Sorted ((k, y) ∷ v)
          → IsMerge u v l
          → IsMerge ((j, x) ∷ u) ((k, y) ∷ v) (push_entry j (op x y) l)
      push_same j k x y u v l q s t m = let s' = rw q at s in rw q (push_both k x y u v l s' t m)

      push_a :
          (j : ℕ) (x : A) (u v l : List (ℕ × A))
          → Sorted ((j, x) ∷ u)
          → Above j v
          → IsMerge u v l
          → IsMerge ((j, x) ∷ u) v (push_entry j (op x e.zero_entry) l)
      unfolding lookup
      push_a j x u v l s t m =
          let later = m.above j s.0 t in
          let r = op x e.zero_entry in
          record {
            above = λ d a b. push-Above d j r l a.0 (m.above d a.1 b);
            sorted = push-Sorted j r l later m.sorted;
            few = omega (arith, m.few, push-length j r l);
            found = λ c. lookup-push j c r l later ∙ elim (Bool-cases (j == c)) [
              | inl h ↦
                  let q : j ≡ c = (==_iff _ _).0 h in
                  rw h (ap (op x) (sym (lookup-Above e.zero_entry v c (rw q at t))))
              | inr h ↦ rw h (m.found c)
            ];
          }

      push_b :
          (j : ℕ) (y : A) (u v l : List (ℕ × A))
          → Above j u
          → Sorted ((j, y) ∷ v)
          → IsMerge u v l
          → IsMerge u ((j, y) ∷ v) (push_entry j (op e.zero_entry y) l)
      unfolding lookup
      push_b j y u v l s t m =
          let later = m.above j s t.0 in
          let r = op e.zero_entry y in
          record {
            above = λ d a b. push-Above d j r l b.0 (m.above d a b.1);
            sorted = push-Sorted j r l later m.sorted;
            few = omega (arith, m.few, push-length j r l);
            found = λ c. lookup-push j c r l later ∙ elim (Bool-cases (j == c)) [
              | inl h ↦
                  let q : j ≡ c = (==_iff _ _).0 h in
                  rw h (ap (λ w. op w y) (sym (lookup-Above e.zero_entry u c (rw q at s))))
              | inr h ↦ rw h (m.found c)
            ];
          }

      none_merged : IsMerge [] [] []
      unfolding lookup
      none_merged = record {
        above = λ d a b. tt;
        sorted = tt;
        few = omega arith;
        found = λ c. sym none_op;
      }

      tail_a-IsMerge :
          (m i : ℕ) (a : CsrMatrix A)
          → Sorted (row_a a m i)
          → IsMerge (row_a a m i) [] (tail_a op m a i)
      unfolding tail_a slice
      tail_a-IsMerge zero i a s = none_merged
      tail_a-IsMerge (suc m) i a s =
          push_a (at 0 a.j i) _ (row_a a m (i + 1)) [] (tail_a op m a (i + 1)) s tt
            (tail_a-IsMerge m (i + 1) a s.1)

      tail_b-IsMerge :
          (m i : ℕ) (a : CsrMatrix A)
          → Sorted (row_a a m i)
          → IsMerge [] (row_a a m i) (tail_b op m a i)
      unfolding tail_b slice
      tail_b-IsMerge zero i a s = none_merged
      tail_b-IsMerge (suc m) i a s =
          push_b (at 0 a.j i) _ [] (row_a a m (i + 1)) (tail_b op m a (i + 1)) tt s
            (tail_b-IsMerge m (i + 1) a s.1)

      merge_row-IsMerge :
          (fuel : ℕ) (a : CsrMatrix A) (m i : ℕ) (b : CsrMatrix A) (n k : ℕ)
          → m + n < fuel
          → Sorted (row_a a m i)
          → Sorted (row_a b n k)
          → IsMerge (row_a a m i) (row_a b n k) (merge_row op fuel a m i b n k)
      unfolding merge_row slice
      merge_row-IsMerge zero a m i b n k f s t = absurd (omega (arith, f))
      merge_row-IsMerge (suc fuel) a zero i b n k f s t = tail_b-IsMerge n k b t
      merge_row-IsMerge (suc fuel) a (suc m) i b zero k f s t = tail_a-IsMerge (suc m) i a s
      merge_row-IsMerge (suc fuel) a (suc m) i b (suc n) k f s t =
          elim (Bool-cases (at 0 a.j i == at 0 b.j k)) [
            | inl h ↦ rw h (
                push_same (at 0 a.j i) (at 0 b.j k) _ _ (row_a a m (i + 1)) (row_a b n (k + 1)) _
                  ((==_iff _ _).0 h) s t
                  (merge_row-IsMerge fuel a m (i + 1) b n (k + 1) (omega (arith, f)) s.1 t.1))
            | inr h ↦ elim (Bool-cases (ltb (at 0 a.j i) (at 0 b.j k))) [
              | inl g ↦
                  let l : at 0 a.j i < at 0 b.j k = ltb→lt _ _ g in
                  rw h (
                    rw g (
                      push_a (at 0 a.j i) _ (row_a a m (i + 1)) (row_a b (suc n) k) _ s
                        (l, Above-weaken (at 0 a.j i) (at 0 b.j k) _ (omega (arith, l)) t.0)
                        (merge_row-IsMerge fuel a m (i + 1) b (suc n) k (omega (arith, f)) s.1 t)))
              | inr g ↦
                  let l : at 0 b.j k < at 0 a.j i = ground (arith, g, h) in
                  rw h (
                    rw g (
                      push_b (at 0 b.j k) _ (row_a a (suc m) i) (row_a b n (k + 1)) _
                        (l, Above-weaken (at 0 b.j k) (at 0 a.j i) _ (omega (arith, l)) s.0) t
                        (merge_row-IsMerge fuel a (suc m) i b n (k + 1) (omega (arith, f)) s t.1)))
            ]
          ]

      pub merged_row-IsMerge :
          (a b : CsrMatrix A) (i : ℕ)
          → Sorted (row_of e.zero_entry a i)
          → Sorted (row_of e.zero_entry b i)
          → IsMerge (row_of e.zero_entry a i) (row_of e.zero_entry b i) (merged_row op a b i)
      unfolding merged_row
      merged_row-IsMerge a b i s t =
          merge_row-IsMerge _ a _ (at 0 a.p i) b _ (at 0 b.p i) (omega arith) s t
