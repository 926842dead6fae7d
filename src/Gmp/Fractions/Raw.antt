-- ===== src/Gmp/Fractions/Raw.antt =====
-- Fractions with a positive denominator, and their operations, which respect cross multiplication.
use csympy.Prelude.{ℕ, zero, suc, ◌+◌, ◌*◌, ◌≡◌, ◌≢◌, refl, sym, ap, ap₂, ◌∙◌, arith}
use native.Mathlib.Nat.{eq_of_mul-eq-mul_right}
use csympy.Prelude.Int.{
  ℤ, pos, negsuc, pos_part, neg_part, neg_ℤ, ◌+ℤ◌, ◌*ℤ◌, ◌<ℤ◌, *ℤ_comm, +ℤ-*ℤ, eq_of_parts,
  product_parts,
}

pub record Fraction : Type 0 where
  pub num : ℤ
  pub den : ℤ
  pub den_pos : pos 0 <ℤ den

infix 4 ◌∼◌
abbrev pub ◌∼◌ : Fraction → Fraction → Type 0
x ∼ y = x.num *ℤ y.den ≡ y.num *ℤ x.den

pub interchange : (a b c d : ℤ) → (a *ℤ b) *ℤ (c *ℤ d) ≡ (a *ℤ c) *ℤ (b *ℤ d)
interchange a b c d = eq_of_parts _ _ (simp product_parts (omega arith))

pub right_comm : (a b c : ℤ) → a *ℤ b *ℤ c ≡ a *ℤ c *ℤ b
right_comm a b c = eq_of_parts _ _ (simp product_parts (omega arith))

pub mul-pos : (a b : ℤ) → pos 0 <ℤ a → pos 0 <ℤ b → pos 0 <ℤ a *ℤ b
unfolding ◌*ℤ◌
mul-pos (pos a) (pos b) h k = grind arith
mul-pos (pos a) (negsuc b) h k = absurd (omega arith)
mul-pos (negsuc a) b h k = absurd (omega arith)

-- A positive factor cancels.
cancel_pos : (a b : ℤ) (n : ℕ) → a *ℤ pos (suc n) ≡ b *ℤ pos (suc n) → a ≡ b
cancel_pos a b n e = eq_of_parts a b (eq_of_mul-eq-mul_right (suc n) (omega arith) _ _ scaled)
  where
    scaled : (pos_part a + neg_part b) * suc n ≡ (pos_part b + neg_part a) * suc n
    scaled = omega (arith, product_parts, ap pos_part e, ap neg_part e)

pub cancel : (a b n : ℤ) → pos 0 <ℤ n → a *ℤ n ≡ b *ℤ n → a ≡ b
cancel a b (pos zero) h e = absurd (omega arith)
cancel a b (pos (suc n)) h e = cancel_pos a b n e
cancel a b (negsuc n) h e = absurd (omega arith)

pub ∼_trans : (x y z : Fraction) → x ∼ y → y ∼ z → x ∼ z
∼_trans x y z p q = cancel _ _ y.den y.den_pos (
    right_comm x.num z.den y.den
    ∙ ap (λ t. t *ℤ z.den) p
    ∙ right_comm y.num x.den z.den
    ∙ ap (λ t. t *ℤ x.den) q
    ∙ right_comm z.num y.den x.den)

abbrev pub sum : Fraction → Fraction → Fraction
sum x y = record {
  num = x.num *ℤ y.den +ℤ y.num *ℤ x.den;
  den = x.den *ℤ y.den;
  den_pos = mul-pos x.den y.den x.den_pos y.den_pos;
}

abbrev pub product : Fraction → Fraction → Fraction
product x y = record {
  num = x.num *ℤ y.num;
  den = x.den *ℤ y.den;
  den_pos = mul-pos x.den y.den x.den_pos y.den_pos;
}

abbrev pub negation : Fraction → Fraction
negation x = record { num = neg_ℤ x.num; den = x.den; den_pos = x.den_pos }

abbrev pub whole : ℤ → Fraction
whole n = record { num = n; den = pos 1; den_pos = omega arith }

-- The inverse by the sign of the numerator; the inverse of 0 is 0.
inverse_parts : (n d : ℤ) → pos 0 <ℤ d → Fraction
inverse_parts (pos zero) d h = whole (pos 0)
inverse_parts (pos (suc n)) d h = record { num = d; den = pos (suc n); den_pos = omega arith }
inverse_parts (negsuc n) d h = record { num = neg_ℤ d; den = pos (suc n); den_pos = omega arith }

unfoldable pub inverse : Fraction → Fraction
unfolding inverse_parts
inverse x = inverse_parts x.num x.den x.den_pos

pub product_congr : (x y x' y' : Fraction) → x ∼ x' → y ∼ y' → product x y ∼ product x' y'
product_congr x y x' y' p q =
    interchange x.num y.num x'.den y'.den ∙ ap₂ ◌*ℤ◌ p q ∙ interchange x'.num x.den y'.num y.den

pub sum_congr : (x y x' y' : Fraction) → x ∼ x' → y ∼ y' → sum x y ∼ sum x' y'
sum_congr x y x' y' p q =
    +ℤ-*ℤ (x.num *ℤ y.den) (y.num *ℤ x.den) (x'.den *ℤ y'.den)
    ∙ ap₂ ◌+ℤ◌ left right
    ∙ sym (+ℤ-*ℤ (x'.num *ℤ y'.den) (y'.num *ℤ x'.den) (x.den *ℤ y.den))
  where
    left : x.num *ℤ y.den *ℤ (x'.den *ℤ y'.den) ≡ x'.num *ℤ y'.den *ℤ (x.den *ℤ y.den)
    left =
        interchange x.num y.den x'.den y'.den
        ∙ ap₂ ◌*ℤ◌ p (*ℤ_comm y.den y'.den)
        ∙ interchange x'.num x.den y'.den y.den

    right : y.num *ℤ x.den *ℤ (x'.den *ℤ y'.den) ≡ y'.num *ℤ x'.den *ℤ (x.den *ℤ y.den)
    right =
        ap (◌*ℤ◌ (y.num *ℤ x.den)) (*ℤ_comm x'.den y'.den)
        ∙ interchange y.num x.den y'.den x'.den
        ∙ ap₂ ◌*ℤ◌ q (*ℤ_comm x.den x'.den)
        ∙ interchange y'.num y.den x'.den x.den
        ∙ ap (◌*ℤ◌ (y'.num *ℤ x'.den)) (*ℤ_comm y.den x.den)

pub neg-*ℤ : (a b : ℤ) → neg_ℤ a *ℤ b ≡ neg_ℤ (a *ℤ b)
unfolding neg_ℤ ◌*ℤ◌
neg-*ℤ a b = ground arith

pub negation_congr : (x x' : Fraction) → x ∼ x' → negation x ∼ negation x'
negation_congr x x' p = neg-*ℤ x.num x'.den ∙ ap neg_ℤ p ∙ sym (neg-*ℤ x'.num x.den)

negsuc_scaled : (m n d e : ℕ) → negsuc m *ℤ pos e ≡ negsuc n *ℤ pos d → suc m * e ≡ suc n * d
negsuc_scaled m n d e q = omega (arith, product_parts, ap neg_part q)

negsuc-*ℤ-neg : (n : ℕ) (d : ℤ) → negsuc n *ℤ neg_ℤ d ≡ pos (suc n) *ℤ d
unfolding neg_ℤ ◌*ℤ◌
negsuc-*ℤ-neg n d = ground arith

cross_one : (a b : ℤ) → a *ℤ b *ℤ pos 1 ≡ pos 1 *ℤ (b *ℤ a)
cross_one a b = eq_of_parts _ _ (simp product_parts (omega arith))

inverse_parts_congr :
    (m n : ℤ) (d e : ℕ) (h : pos 0 <ℤ pos d) (k : pos 0 <ℤ pos e)
    → m *ℤ pos e ≡ n *ℤ pos d
    → inverse_parts m (pos d) h ∼ inverse_parts n (pos e) k
unfolding inverse_parts ◌*ℤ◌ neg_ℤ
inverse_parts_congr (pos zero) (pos zero) d e h k q = refl
inverse_parts_congr (pos zero) (pos (suc n)) d e h k q = absurd (omega (arith, ap pos_part q))
inverse_parts_congr (pos zero) (negsuc n) d e h k q = absurd (ground arith)
inverse_parts_congr (pos (suc m)) (pos zero) d e h k q = absurd (omega (arith, ap pos_part q))
inverse_parts_congr (pos (suc m)) (pos (suc n)) d e h k q = ap pos (omega (arith, ap pos_part q))
inverse_parts_congr (pos (suc m)) (negsuc n) d e h k q = absurd (ground arith)
inverse_parts_congr (negsuc m) (pos zero) d e h k q = absurd (ground arith)
inverse_parts_congr (negsuc m) (pos (suc n)) d e h k q = absurd (ground arith)
inverse_parts_congr (negsuc m) (negsuc n) d e h k q =
    neg-*ℤ (pos d) (pos (suc n))
    ∙ ap (λ (t : ℕ). neg_ℤ (pos t)) (let s = negsuc_scaled m n d e q in omega arith)
    ∙ sym (neg-*ℤ (pos e) (pos (suc m)))

pub inverse_congr : (x x' : Fraction) → x ∼ x' → inverse x ∼ inverse x'
unfolding inverse
inverse_congr x x' p = go x.num x'.num x.den x'.den x.den_pos x'.den_pos p
  where
    go :
        (m n d e : ℤ) (h : pos 0 <ℤ d) (k : pos 0 <ℤ e)
        → m *ℤ e ≡ n *ℤ d
        → inverse_parts m d h ∼ inverse_parts n e k
    go m n (pos d) (pos e) h k q = inverse_parts_congr m n d e h k q
    go m n (pos d) (negsuc e) h k q = absurd (omega arith)
    go m n (negsuc d) e h k q = absurd (omega arith)

-- A fraction times its inverse is 1.
pub product-inverse : (x : Fraction) → x.num ≢ pos 0 → product x (inverse x) ∼ whole (pos 1)
unfolding inverse
product-inverse x h = go x.num x.den x.den_pos h
  where
    go :
        (n d : ℤ) (k : pos 0 <ℤ d)
        → n ≢ pos 0
        → product (record { num = n; den = d; den_pos = k }) (inverse_parts n d k) ∼ whole (pos 1)
    go (pos zero) d k e = absurd (e refl)
    go (pos (suc n)) d k e = cross_one (pos (suc n)) d
    go (negsuc n) d k e = ap (λ t. t *ℤ pos 1) (negsuc-*ℤ-neg n d) ∙ cross_one (pos (suc n)) d
