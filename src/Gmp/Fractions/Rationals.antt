-- ===== src/Gmp/Fractions/Rationals.antt =====
-- The quotient of the fractions, and its `Mpq`.
use Prim.Native.Nat.{◌∣◌}
use mathlib.Core.Quot.{Setoid, Quotient, Quotient-set}
use mathlib.Core.Quot.Quotient
use mathlib.Core.HLevel.{Π_prop}
use native.Mathlib.Bridge.{le_prop}
use mathlib.Core.Path.{subst}
use native.Mathlib.Nat.{div-mul_cancel}
use csympy.Prelude.{
  ℕ, suc, ◌-◌, ◌*◌, ◌/◌, ◌≡◌, ◌≢◌, ◌<◌, refl, sym, ap, ap₂, ◌∙◌, arith, ◌↔◌, Bool, true, ◌&&◌,
  and-true_iff,
}
use csympy.Prelude.Int.{
  ℤ, pos, negsuc, pos_part, nat_abs, neg_ℤ, ◌+ℤ◌, ◌*ℤ◌, ◌<ℤ◌, *ℤ_comm, *ℤ_assoc, +ℤ-*ℤ, +ℤ_comm,
  +ℤ_assoc, +ℤ-neg, zero-+ℤ, zero-*ℤ, *ℤ-one, one-*ℤ, ℤ_set, eqb_ℤ, eqb_ℤ_iff,
}
use csympy.Gmp.{Mpq}
use csympy.Gmp.Fractions.Raw.{
  Fraction, ◌∼◌, ∼_trans, sum, product, negation, whole, inverse, product_congr, sum_congr,
  negation_congr, inverse_congr, product-inverse, cancel, right_comm, neg-*ℤ,
}
use csympy.Gmp.Fractions.Lowest.{lowest, lowest_same, lowest-dvd, lowest_pos, lowest-zero}

abbrev cross : Setoid {0, 0} Fraction
cross = record { r = ◌∼◌; iseqv = record { refl = λ x. refl; symm = λ x y. sym; trans = ∼_trans } }

abbrev pub ℚ : Type 0
ℚ = Quotient cross

abbrev pub ⟦◌⟧ : Fraction → ℚ
⟦ x ⟧ = Quotient.mk cross x

ℚ_set : IsSet ℚ
ℚ_set = Quotient-set cross

sound : (x y : Fraction) → x ∼ y → ⟦ x ⟧ ≡ ⟦ y ⟧
sound x y = Quotient.sound cross

exact : (x y : Fraction) → ⟦ x ⟧ ≡ ⟦ y ⟧ → x ∼ y
exact x y = Quotient.exact cross (λ a b. hlevel ℤ_set)

add : ℚ → ℚ → ℚ
add =
    Quotient.lift₂ cross cross ℚ_set (λ x y. ⟦ sum x y ⟧)
      λ x y x' y' p q. sound _ _ (sum_congr x y x' y' p q)

mul : ℚ → ℚ → ℚ
mul =
    Quotient.lift₂ cross cross ℚ_set (λ x y. ⟦ product x y ⟧)
      λ x y x' y' p q. sound _ _ (product_congr x y x' y' p q)

neg : ℚ → ℚ
neg = Quotient.lift cross ℚ_set (λ x. ⟦ negation x ⟧) λ x y p. sound _ _ (negation_congr x y p)

invert : ℚ → ℚ
invert = Quotient.lift cross ℚ_set (λ x. ⟦ inverse x ⟧) λ x y p. sound _ _ (inverse_congr x y p)

-- The denominator in lowest terms, of a fraction.
frac_den : Fraction → ℤ
frac_den x = pos (lowest (nat_abs x.num) (nat_abs x.den - 1))

scaled_div : ℤ → ℕ → ℕ → ℤ
scaled_div (pos n) d m = pos (n * d / suc m)
scaled_div (negsuc n) d m = neg_ℤ (pos (suc n * d / suc m))

-- The numerator in lowest terms.
frac_num : Fraction → ℤ
unfolding scaled_div
frac_num x = scaled_div x.num (lowest (nat_abs x.num) (nat_abs x.den - 1)) (nat_abs x.den - 1)

nat_abs-*ℤ : (a b : ℤ) → nat_abs (a *ℤ b) ≡ nat_abs a * nat_abs b
unfolding ◌*ℤ◌
nat_abs-*ℤ a b = ground arith

suc-pred_den : (d : ℤ) → pos 0 <ℤ d → suc (nat_abs d - 1) ≡ nat_abs d
suc-pred_den d h = ground arith

den-eq : (d : ℤ) → pos 0 <ℤ d → d ≡ pos (suc (nat_abs d - 1))
den-eq d h = ground arith

frac_den_same : (x y : Fraction) → x ∼ y → frac_den x ≡ frac_den y
unfolding frac_den
frac_den_same x y p = ap pos (
    lowest_same _ _ _ _ (
      ap (◌*◌ (nat_abs x.num)) (suc-pred_den y.den y.den_pos)
      ∙ sym (nat_abs-*ℤ x.num y.den)
      ∙ ap nat_abs p
      ∙ nat_abs-*ℤ y.num x.den
      ∙ ap (◌*◌ (nat_abs y.num)) (sym (suc-pred_den x.den x.den_pos))))

scaled_div-mul :
    (n : ℤ) (d m : ℕ) → suc m ∣ nat_abs n * d → scaled_div n d m *ℤ pos (suc m) ≡ n *ℤ pos d
unfolding scaled_div ◌*ℤ◌ neg_ℤ
scaled_div-mul (pos n) d m h = ap pos (div-mul_cancel (suc m) h)
scaled_div-mul (negsuc n) d m h =
    neg-*ℤ (pos (suc n * d / suc m)) (pos (suc m))
    ∙ ap (λ t. neg_ℤ (pos t)) (div-mul_cancel (suc m) h)

frac_num-lem : (x : Fraction) → frac_num x *ℤ x.den ≡ x.num *ℤ frac_den x
unfolding frac_num frac_den
frac_num-lem x =
    ap (◌*ℤ◌ (frac_num x)) (den-eq x.den x.den_pos)
    ∙ scaled_div-mul x.num _ _ (lowest-dvd (nat_abs x.num) (nat_abs x.den - 1))

frac_num_same : (x y : Fraction) → x ∼ y → frac_num x ≡ frac_num y
frac_num_same x y p = cancel _ _ x.den x.den_pos (
    cancel _ _ y.den y.den_pos (
      ap (λ t. t *ℤ y.den) (frac_num-lem x)
      ∙ right_comm x.num (frac_den x) y.den
      ∙ ap₂ ◌*ℤ◌ p (frac_den_same x y p)
      ∙ right_comm y.num x.den (frac_den y)
      ∙ ap (λ t. t *ℤ x.den) (sym (frac_num-lem y))
      ∙ right_comm (frac_num y) y.den x.den))

get_den : ℚ → ℤ
get_den = Quotient.lift cross ℤ_set frac_den frac_den_same

get_num : ℚ → ℤ
get_num = Quotient.lift cross ℤ_set frac_num frac_num_same

of_int : ℤ → ℚ
of_int n = ⟦ whole n ⟧

div : ℚ → ℚ → ℚ
div x y = mul x (invert y)

mk-sum : (x y : Fraction) → add ⟦ x ⟧ ⟦ y ⟧ ≡ ⟦ sum x y ⟧
unfolding add
mk-sum x y = Quotient.lift₂-mk cross cross ℚ_set _ _ x y

mk-product : (x y : Fraction) → mul ⟦ x ⟧ ⟦ y ⟧ ≡ ⟦ product x y ⟧
unfolding mul
mk-product x y = Quotient.lift₂-mk cross cross ℚ_set _ _ x y

mk-negation : (x : Fraction) → neg ⟦ x ⟧ ≡ ⟦ negation x ⟧
unfolding neg Quotient.lift
mk-negation x = refl

mk-inverse : (x : Fraction) → invert ⟦ x ⟧ ≡ ⟦ inverse x ⟧
unfolding invert Quotient.lift
mk-inverse x = refl

mk-den : (x : Fraction) → get_den ⟦ x ⟧ ≡ frac_den x
unfolding get_den Quotient.lift
mk-den x = refl

mk-num : (x : Fraction) → get_num ⟦ x ⟧ ≡ frac_num x
unfolding get_num Quotient.lift
mk-num x = refl

induct : {P : ℚ → Type 0} → ((q : ℚ) → IsProp (P q)) → ((x : Fraction) → P ⟦ x ⟧) → (q : ℚ) → P q
induct h f q = Quotient.ind cross h f q

add_comm : (x y : ℚ) → add x y ≡ add y x
add_comm =
    induct (λ x. Π_prop λ y. ℚ_set _ _)
      λ x. induct (λ y. ℚ_set _ _) λ y. mk-sum x y ∙ sound _ _ (swap x y) ∙ sym (mk-sum y x)
  where
    swap : (x y : Fraction) → sum x y ∼ sum y x
    swap x y = ap₂ ◌*ℤ◌ (+ℤ_comm (x.num *ℤ y.den) (y.num *ℤ x.den)) (*ℤ_comm y.den x.den)

mul_comm : (x y : ℚ) → mul x y ≡ mul y x
mul_comm =
    induct (λ x. Π_prop λ y. ℚ_set _ _)
      λ x. induct (λ y. ℚ_set _ _) λ y. mk-product x y ∙ sound _ _ (swap x y) ∙ sym (mk-product y x)
  where
    swap : (x y : Fraction) → product x y ∼ product y x
    swap x y = ap₂ ◌*ℤ◌ (*ℤ_comm x.num y.num) (*ℤ_comm y.den x.den)

-- One numerator and one denominator.
same_parts : (x y : Fraction) → x.num ≡ y.num → x.den ≡ y.den → x ∼ y
same_parts x y p q = ap₂ ◌*ℤ◌ p (sym q)

mul_assoc : (x y z : ℚ) → mul (mul x y) z ≡ mul x (mul y z)
mul_assoc =
    induct (λ x. Π_prop λ y. Π_prop λ z. ℚ_set _ _)
      λ x.
        induct (λ y. Π_prop λ z. ℚ_set _ _)
          λ y.
            induct (λ z. ℚ_set _ _)
              λ z.
                ap (λ t. mul t ⟦ z ⟧) (mk-product x y)
                ∙ mk-product (product x y) z
                ∙ sound _ _ (
                    same_parts (product (product x y) z) (product x (product y z))
                      (*ℤ_assoc x.num y.num z.num) (*ℤ_assoc x.den y.den z.den))
                ∙ sym (mk-product x (product y z))
                ∙ ap (mul ⟦ x ⟧) (sym (mk-product y z))

add_assoc : (x y z : ℚ) → add (add x y) z ≡ add x (add y z)
add_assoc =
    induct (λ x. Π_prop λ y. Π_prop λ z. ℚ_set _ _)
      λ x.
        induct (λ y. Π_prop λ z. ℚ_set _ _)
          λ y.
            induct (λ z. ℚ_set _ _)
              λ z.
                ap (λ t. add t ⟦ z ⟧) (mk-sum x y)
                ∙ mk-sum (sum x y) z
                ∙ sound _ _ (
                    same_parts (sum (sum x y) z) (sum x (sum y z)) (nums x y z)
                      (*ℤ_assoc x.den y.den z.den))
                ∙ sym (mk-sum x (sum y z))
                ∙ ap (add ⟦ x ⟧) (sym (mk-sum y z))
  where
    nums : (x y z : Fraction) → (sum (sum x y) z).num ≡ (sum x (sum y z)).num
    nums x y z = simp (+ℤ-*ℤ, *ℤ_assoc, +ℤ_assoc) (rw (*ℤ_comm z.den x.den, *ℤ_comm y.den x.den))

left_comm : (a b c : ℤ) → a *ℤ (b *ℤ c) ≡ b *ℤ (a *ℤ c)
left_comm a b c = sym (*ℤ_assoc a b c) ∙ ap (λ t. t *ℤ c) (*ℤ_comm a b) ∙ *ℤ_assoc b a c

left : (n a b m c : ℤ) → n *ℤ b *ℤ m *ℤ (a *ℤ c *ℤ (b *ℤ c)) ≡ n *ℤ m *ℤ (b *ℤ c) *ℤ (a *ℤ b *ℤ c)
left n a b m c =
    ap (λ t. t *ℤ (a *ℤ c *ℤ (b *ℤ c))) (right_comm n b m)
    ∙ *ℤ_assoc (n *ℤ m) b _
    ∙ ap (◌*ℤ◌ (n *ℤ m)) (
        ap (◌*ℤ◌ b) (*ℤ_comm (a *ℤ c) (b *ℤ c))
        ∙ left_comm b (b *ℤ c) (a *ℤ c)
        ∙ ap (◌*ℤ◌ (b *ℤ c)) (sym (*ℤ_assoc b a c) ∙ ap (λ t. t *ℤ c) (*ℤ_comm b a)))
    ∙ sym (*ℤ_assoc (n *ℤ m) (b *ℤ c) _)

right : (n a b m c : ℤ) → n *ℤ a *ℤ m *ℤ (a *ℤ c *ℤ (b *ℤ c)) ≡ n *ℤ m *ℤ (a *ℤ c) *ℤ (a *ℤ b *ℤ c)
right n a b m c =
    ap (λ t. t *ℤ (a *ℤ c *ℤ (b *ℤ c))) (right_comm n a m)
    ∙ *ℤ_assoc (n *ℤ m) a _
    ∙ ap (◌*ℤ◌ (n *ℤ m)) (left_comm a (a *ℤ c) (b *ℤ c) ∙ ap (◌*ℤ◌ (a *ℤ c)) (sym (*ℤ_assoc a b c)))
    ∙ sym (*ℤ_assoc (n *ℤ m) (a *ℤ c) _)

add-mul : (x y z : ℚ) → mul (add x y) z ≡ add (mul x z) (mul y z)
add-mul =
    induct (λ x. Π_prop λ y. Π_prop λ z. ℚ_set _ _)
      λ x.
        induct (λ y. Π_prop λ z. ℚ_set _ _)
          λ y.
            induct (λ z. ℚ_set _ _)
              λ z.
                ap (λ t. mul t ⟦ z ⟧) (mk-sum x y)
                ∙ mk-product (sum x y) z
                ∙ sound _ _ (spread x y z)
                ∙ sym
                    (ap₂ add (mk-product x z) (mk-product y z) ∙ mk-sum (product x z) (product y z))
  where
    spread : (x y z : Fraction) → product (sum x y) z ∼ sum (product x z) (product y z)
    spread x y z =
        ap (λ t. t *ℤ (x.den *ℤ z.den *ℤ (y.den *ℤ z.den)))
          (+ℤ-*ℤ (x.num *ℤ y.den) (y.num *ℤ x.den) z.num)
        ∙ +ℤ-*ℤ (x.num *ℤ y.den *ℤ z.num) (y.num *ℤ x.den *ℤ z.num) _
        ∙ ap₂ ◌+ℤ◌ (left x.num x.den y.den z.num z.den) (right y.num x.den y.den z.num z.den)
        ∙ sym (+ℤ-*ℤ (x.num *ℤ z.num *ℤ (y.den *ℤ z.den)) (y.num *ℤ z.num *ℤ (x.den *ℤ z.den)) _)

zero-add : (x : ℚ) → add (of_int (pos 0)) x ≡ x
unfolding of_int
zero-add =
    induct (λ x. ℚ_set _ _)
      λ x.
        mk-sum (whole (pos 0)) x
        ∙ sound _ _ (
            same_parts (sum (whole (pos 0)) x) x
              (ap₂ ◌+ℤ◌ (zero-*ℤ x.den) (*ℤ-one x.num) ∙ zero-+ℤ x.num) (one-*ℤ x.den))

one-mul : (x : ℚ) → mul (of_int (pos 1)) x ≡ x
unfolding of_int
one-mul =
    induct (λ x. ℚ_set _ _)
      λ x.
        mk-product (whole (pos 1)) x
        ∙ sound _ _ (same_parts (product (whole (pos 1)) x) x (one-*ℤ x.num) (one-*ℤ x.den))

-- A zero numerator.
zero_num : (x : Fraction) → x.num ≡ pos 0 → x ∼ whole (pos 0)
zero_num x h = ap (λ t. t *ℤ pos 1) h ∙ zero-*ℤ (pos 1) ∙ sym (zero-*ℤ x.den)

add-neg : (x : ℚ) → add x (neg x) ≡ of_int (pos 0)
unfolding of_int
add-neg =
    induct (λ x. ℚ_set _ _)
      λ x.
        ap (add ⟦ x ⟧) (mk-negation x)
        ∙ mk-sum x (negation x)
        ∙ sound _ _ (
            zero_num (sum x (negation x))
              (ap (◌+ℤ◌ (x.num *ℤ x.den)) (neg-*ℤ x.num x.den) ∙ +ℤ-neg (x.num *ℤ x.den)))

mul-invert : (x : ℚ) → x ≢ of_int (pos 0) → mul x (invert x) ≡ of_int (pos 1)
unfolding of_int
mul-invert =
    induct (λ x. Π_prop λ _. ℚ_set _ _)
      λ x h.
        ap (mul ⟦ x ⟧) (mk-inverse x)
        ∙ mk-product x (inverse x)
        ∙ sound _ _ (product-inverse x (λ e. h (sound _ _ (zero_num x e))))

div-mul : (x y : ℚ) → y ≢ of_int (pos 0) → mul (div x y) y ≡ x
unfolding div
div-mul x y h =
    mul_assoc x (invert y) y
    ∙ ap (mul x) (mul_comm (invert y) y ∙ mul-invert y h)
    ∙ mul_comm x (of_int (pos 1))
    ∙ one-mul x

of_int-+ : (m n : ℤ) → of_int (m +ℤ n) ≡ add (of_int m) (of_int n)
unfolding of_int
of_int-+ m n =
    sound _ _ (
      same_parts (whole (m +ℤ n)) (sum (whole m) (whole n)) (sym (ap₂ ◌+ℤ◌ (*ℤ-one m) (*ℤ-one n)))
        (sym (one-*ℤ (pos 1))))
    ∙ sym (mk-sum (whole m) (whole n))

of_int-* : (m n : ℤ) → of_int (m *ℤ n) ≡ mul (of_int m) (of_int n)
unfolding of_int
of_int-* m n =
    sound _ _
      (same_parts (whole (m *ℤ n)) (product (whole m) (whole n)) refl (sym (one-*ℤ (pos 1))))
    ∙ sym (mk-product (whole m) (whole n))

den-of_int : (n : ℤ) → get_den (of_int n) ≡ pos 1
unfolding of_int frac_den
den-of_int n = mk-den (whole n) ∙ ap pos (lowest-zero (nat_abs n))

num-of_int : (n : ℤ) → get_num (of_int n) ≡ n
unfolding of_int
num-of_int n =
    mk-num (whole n)
    ∙ sym (*ℤ-one (frac_num (whole n)))
    ∙ frac_num-lem (whole n)
    ∙ ap (◌*ℤ◌ n) (sym (mk-den (whole n)) ∙ den-of_int n)
    ∙ *ℤ-one n

mul-den : (x : ℚ) → mul x (of_int (get_den x)) ≡ of_int (get_num x)
unfolding of_int
mul-den =
    induct (λ x. ℚ_set _ _)
      λ x.
        ap (λ d. mul ⟦ x ⟧ ⟦ whole d ⟧) (mk-den x)
        ∙ mk-product x (whole (frac_den x))
        ∙ sound _ _ (cleared x)
        ∙ ap of_int (sym (mk-num x))
  where
    cleared : (x : Fraction) → product x (whole (frac_den x)) ∼ whole (frac_num x)
    cleared x =
        *ℤ-one (x.num *ℤ frac_den x)
        ∙ sym (frac_num-lem x)
        ∙ ap (◌*ℤ◌ (frac_num x)) (sym (*ℤ-one x.den))

den_pos : (x : ℚ) → pos 0 <ℤ get_den x
unfolding frac_den
den_pos =
    induct (λ x. le_prop)
      λ x.
        subst (λ d. pos 0 <ℤ d) (sym (mk-den x))
          (positive (lowest_pos (nat_abs x.num) (nat_abs x.den - 1)))
  where
    positive : {n : ℕ} → 0 < n → pos 0 <ℤ pos n
    positive h = omega arith

of_int_injective : (m n : ℤ) → of_int m ≡ of_int n → m ≡ n
of_int_injective m n h = sym (num-of_int m) ∙ ap get_num h ∙ num-of_int n

of_int_nonzero : (d : ℤ) → d ≢ pos 0 → of_int d ≢ of_int (pos 0)
of_int_nonzero d h e = h (of_int_injective d (pos 0) e)

quot : ℤ → ℤ → ℚ
quot n d = div (of_int n) (of_int d)

quot-mul : (n d : ℤ) → d ≢ pos 0 → mul (quot n d) (of_int d) ≡ of_int n
unfolding quot
quot-mul n d h = div-mul (of_int n) (of_int d) (of_int_nonzero d h)

eqb : ℚ → ℚ → Bool
eqb x y = eqb_ℤ (get_num x) (get_num y) && eqb_ℤ (get_den x) (get_den y)

-- Numerator and denominator determine the value.
recover : (x : ℚ) → quot (get_num x) (get_den x) ≡ x
unfolding quot div
recover x =
    ap (λ t. mul t inverse_den) (sym (mul-den x))
    ∙ mul_assoc x (of_int (get_den x)) inverse_den
    ∙ ap (mul x) (mul-invert (of_int (get_den x)) (of_int_nonzero (get_den x) nonzero))
    ∙ mul_comm x (of_int (pos 1))
    ∙ one-mul x
  where
    inverse_den : ℚ
    inverse_den = invert (of_int (get_den x))

    nonzero : get_den x ≢ pos 0
    nonzero e = absurd (omega (arith, den_pos x, ap pos_part e))

eqb_iff : (x y : ℚ) → (eqb x y ≡ true) ↔ (x ≡ y)
unfolding eqb
eqb_iff x y = (
  λ h.
      let (p, q) = (and-true_iff _ _).0 h in
      sym (recover x) ∙ ap₂ quot ((eqb_ℤ_iff _ _).0 p) ((eqb_ℤ_iff _ _).0 q) ∙ recover y,
  λ e. (and-true_iff _ _).1 ((eqb_ℤ_iff _ _).1 (ap get_num e), (eqb_ℤ_iff _ _).1 (ap get_den e)),
)

sub : ℚ → ℚ → ℚ
sub x y = add x (neg y)

sub-eq-add-neg : (x y : ℚ) → sub x y ≡ add x (neg y)
unfolding sub
sub-eq-add-neg x y = refl

instance pub rationals : Mpq ℚ
rationals = record {
  of_int = of_int;
  get_num = get_num;
  get_den = get_den;
  quot = quot;
  add = add;
  sub = sub;
  neg = neg;
  mul = mul;
  div = div;
  eqb = eqb;
  add_comm = add_comm;
  add_assoc = add_assoc;
  zero-add = zero-add;
  add-neg = add-neg;
  sub-eq-add-neg = sub-eq-add-neg;
  mul_comm = mul_comm;
  mul_assoc = mul_assoc;
  one-mul = one-mul;
  add-mul = add-mul;
  div-mul = div-mul;
  quot-mul = quot-mul;
  of_int-+ = of_int-+;
  of_int-* = of_int-*;
  num-of_int = num-of_int;
  den-of_int = den-of_int;
  mul-den = mul-den;
  den_pos = den_pos;
  eqb_iff = eqb_iff;
}
