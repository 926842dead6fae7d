-- ===== src/Gmp.antt =====
-- What the program relies on of GMP, which is not part of the repository: exact rationals,
-- `mpq_class`, over a type that stays abstract. The values of `mpz_class` are `ℤ`.
pub mod Lemmas
pub mod Fractions
pub mod Root
use csympy.Prelude.{ℕ, ◌+◌, ◌*◌, ◌≤◌, ◌<◌, ◌≡◌, ◌≢◌, ◌↔◌, Bool, true}
use csympy.Prelude.Int.{ℤ, pos, neg_ℤ, ◌+ℤ◌, ◌*ℤ◌, ◌<ℤ◌}

-- Every value stands in canonical form, as GMP keeps it from one operation to the next.
pub record Mpq (Q : Type 0) : Type 0 where
  -- The implicit conversion from `mpz_class`.
  pub of_int : ℤ → Q
  pub get_num : Q → ℤ
  pub get_den : Q → ℤ
  -- `mpq_class q(n, d)`, canonicalised.
  pub quot : ℤ → ℤ → Q
  pub add : Q → Q → Q
  pub sub : Q → Q → Q
  pub neg : Q → Q
  pub mul : Q → Q → Q
  pub div : Q → Q → Q
  -- The operator `==`.
  pub eqb : Q → Q → Bool
  pub add_comm : (x y : Q) → add x y ≡ add y x
  pub add_assoc : (x y z : Q) → add (add x y) z ≡ add x (add y z)
  pub zero-add : (x : Q) → add (of_int (pos 0)) x ≡ x
  pub add-neg : (x : Q) → add x (neg x) ≡ of_int (pos 0)
  pub sub-eq-add-neg : (x y : Q) → sub x y ≡ add x (neg y)
  pub mul_comm : (x y : Q) → mul x y ≡ mul y x
  pub mul_assoc : (x y z : Q) → mul (mul x y) z ≡ mul x (mul y z)
  pub one-mul : (x : Q) → mul (of_int (pos 1)) x ≡ x
  pub add-mul : (x y z : Q) → mul (add x y) z ≡ add (mul x z) (mul y z)
  pub div-mul : (x y : Q) → y ≢ of_int (pos 0) → mul (div x y) y ≡ x
  pub quot-mul : (n d : ℤ) → d ≢ pos 0 → mul (quot n d) (of_int d) ≡ of_int n
  pub of_int-+ : (m n : ℤ) → of_int (m +ℤ n) ≡ add (of_int m) (of_int n)
  pub of_int-* : (m n : ℤ) → of_int (m *ℤ n) ≡ mul (of_int m) (of_int n)
  pub num-of_int : (n : ℤ) → get_num (of_int n) ≡ n
  pub den-of_int : (n : ℤ) → get_den (of_int n) ≡ pos 1
  pub mul-den : (x : Q) → mul x (of_int (get_den x)) ≡ of_int (get_num x)
  pub den_pos : (x : Q) → pos 0 <ℤ get_den x
  pub eqb_iff : (x y : Q) → (eqb x y ≡ true) ↔ (x ≡ y)

-- The square root of a natural number. `std::sqrt` of an `unsigned`, cast back, is the same.
pub record MpzRoot : Type 0 where
  pub sqrt : ℕ → ℕ
  pub sqrt-le : (n : ℕ) → sqrt n * sqrt n ≤ n
  pub sqrt-lt : (n : ℕ) → n < (sqrt n + 1) * (sqrt n + 1)
