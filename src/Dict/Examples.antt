-- ===== src/Dict/Examples.antt =====
-- The dictionaries at keys that are numbers.
use csympy.Prelude.{ℕ, ◌≡◌, ◌↔◌, refl, true, List, [], ◌∷◌, arith, ◌==◌, some}
use csympy.Dict.{Key, find, insert, umap_eq, vec_basic_eq_perm}
use csympy.Dict.Equality.{umap_eq_iff, SameMap, occurrences, vec_basic_eq_perm_repeats}

pub nat_eq_trans : (a b c : ℕ) → (a == b) ≡ true → (b == c) ≡ true → (a == c) ≡ true
nat_eq_trans a b c h k = ground arith

pub nat_eq_symm : (a b : ℕ) → (a == b) ≡ true → (b == a) ≡ true
nat_eq_symm a b h = ground arith

pub nat_eq_refl : (a : ℕ) → (a == a) ≡ true
nat_eq_refl a = ground arith

instance abbrev pub nat_key : Key ℕ
nat_key = record {
  eq = ◌==◌;
  eq_refl = nat_eq_refl;
  eq_symm = nat_eq_symm;
  eq_trans = nat_eq_trans;
}

abbrev one_way : List (ℕ × ℕ)
one_way = (1, 5) ∷ (2, 7) ∷ []

abbrev other_way : List (ℕ × ℕ)
other_way = (2, 7) ∷ (1, 5) ∷ []

insert_keeps : find 1 (insert one_way 1 9) ≡ some 5
unfolding find insert
insert_keeps = refl

umap_eq_iff_example : (umap_eq one_way other_way ≡ true) ↔ SameMap one_way other_way
unfolding find
umap_eq_iff_example = umap_eq_iff one_way other_way (refl, (refl, tt)) (refl, (refl, tt))

abbrev v334 : List ℕ
v334 = 3 ∷ 3 ∷ 4 ∷ []

abbrev v344 : List ℕ
v344 = 3 ∷ 4 ∷ 4 ∷ []

vec_basic_eq_perm_repeats_example :
    (vec_basic_eq_perm v334 v344 ≡ true) × (occurrences 3 v334 ≡ 2) × (occurrences 3 v344 ≡ 1)
vec_basic_eq_perm_repeats_example = vec_basic_eq_perm_repeats 3 4 refl
