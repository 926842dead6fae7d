-- ===== src/Gmp/Root.antt =====
-- A square root that runs, for the interface that stands for the library's.
use csympy.Prelude.{
  ℕ, zero, suc, ◌+◌, ◌*◌, ◌<◌, ◌≤◌, arith, leb, Bool-cases, if◌then◌else◌, inl, inr,
}
use csympy.Gmp.{MpzRoot}

-- The square root, by counting up.
unfoldable pub root : ℕ → ℕ
root zero = 0
root (suc n) = if leb ((root n + 1) * (root n + 1)) (suc n) then root n + 1 else root n

pub root-bounds : (n : ℕ) → (root n * root n ≤ n) × (n < (root n + 1) * (root n + 1))
unfolding root
root-bounds zero = (omega arith, omega arith)
root-bounds (suc n) =
    let (a, b) = root-bounds n in
    elim (Bool-cases (leb ((root n + 1) * (root n + 1)) (suc n))) [
      | inl h ↦ rw h (ground (arith, h), omega (arith, b))
      | inr h ↦ rw h (omega (arith, a), ground (arith, h))
    ]

instance abbrev pub counted_root : MpzRoot
counted_root = record {
  sqrt = root;
  sqrt-le = λ n. (root-bounds n).0;
  sqrt-lt = λ n. (root-bounds n).1;
}
