-- ===== src/NumberList.antt =====
-- Lists of natural numbers: members, properties of all of them, and ascending order.
use csympy.Prelude.{
  ℕ, ◌+◌, ◌<◌, ◌≤◌, ◌≡◌, arith, length, ◌⊎◌, refl, ap, inl, inr, List, [], ◌∷◌, ◌++◌,
}

-- Members of a list.
abbrev pub In : ℕ → List ℕ → Type 0
In p [] = ⊥
In p (q ∷ qs) = (p ≡ q) ⊎ In p qs

abbrev pub All : (ℕ → Type 0) → List ℕ → Type 0
All P [] = Unit
All P (x ∷ xs) = P x × All P xs

abbrev pub Ascending : List ℕ → Type 0
Ascending [] = Unit
Ascending (x ∷ xs) = All (λ y. x < y) xs × Ascending xs

pub All-In : (P : ℕ → Type 0) (q : ℕ) (xs : List ℕ) → All P xs → In q xs → P q
All-In P q [] a h = absurd h
All-In P q (x ∷ xs) a (inl e) = rw e a.0
All-In P q (x ∷ xs) a (inr h) = All-In P q xs a.1 h

pub All-append : (P : ℕ → Type 0) (xs ys : List ℕ) → All P xs → All P ys → All P (xs ++ ys)
All-append P [] ys a b = b
All-append P (x ∷ xs) ys a b = (a.0, All-append P xs ys a.1 b)

pub All-of_In : (P : ℕ → Type 0) (xs : List ℕ) → ((q : ℕ) → In q xs → P q) → All P xs
All-of_In P [] h = tt
All-of_In P (x ∷ xs) h = (h x (inl refl), All-of_In P xs (λ q i. h q (inr i)))

pub All-weaken : (P R : ℕ → Type 0) (xs : List ℕ) → ((x : ℕ) → P x → R x) → All P xs → All R xs
All-weaken P R [] f a = tt
All-weaken P R (x ∷ xs) f a = (f x a.0, All-weaken P R xs f a.1)

pub In-append_left : (p : ℕ) (xs ys : List ℕ) → In p xs → In p (xs ++ ys)
In-append_left p [] ys i = absurd i
In-append_left p (x ∷ xs) ys (inl e) = inl e
In-append_left p (x ∷ xs) ys (inr i) = inr (In-append_left p xs ys i)

pub In-append_right : (p : ℕ) (xs ys : List ℕ) → In p ys → In p (xs ++ ys)
In-append_right p [] ys i = i
In-append_right p (x ∷ xs) ys i = inr (In-append_right p xs ys i)

pub In-append_cases : (p : ℕ) (xs ys : List ℕ) → In p (xs ++ ys) → In p xs ⊎ In p ys
In-append_cases p [] ys i = inr i
In-append_cases p (x ∷ xs) ys (inl e) = inl (inl e)
In-append_cases p (x ∷ xs) ys (inr i) = elim (In-append_cases p xs ys i) [
  | inl a ↦ inl (inr a)
  | inr b ↦ inr b
]

pub Ascending-append :
    (xs ys : List ℕ)
    → Ascending xs
    → Ascending ys
    → ((p q : ℕ) → In p xs → In q ys → p < q)
    → Ascending (xs ++ ys)
Ascending-append [] ys a b h = b
Ascending-append (x ∷ xs) ys a b h = (
  All-append (λ y. x < y) xs ys a.0 (All-of_In _ ys (λ q i. h x q (inl refl) i)),
  Ascending-append xs ys a.1 b (λ p q i j. h p q (inr i) j),
)

pub append_assoc : (xs ys zs : List ℕ) → (xs ++ ys) ++ zs ≡ xs ++ (ys ++ zs)
append_assoc [] ys zs = refl
append_assoc (x ∷ xs) ys zs = ap (λ v. x ∷ v) (append_assoc xs ys zs)

pub append_nil : (xs : List ℕ) → xs ++ [] ≡ xs
append_nil [] = refl
append_nil (x ∷ xs) = ap (λ v. x ∷ v) (append_nil xs)

pub All-left : (P : ℕ → Type 0) (xs ys : List ℕ) → All P (xs ++ ys) → All P xs
All-left P [] ys a = tt
All-left P (x ∷ xs) ys a = (a.0, All-left P xs ys a.1)

pub Ascending-left : (xs ys : List ℕ) → Ascending (xs ++ ys) → Ascending xs
Ascending-left [] ys a = tt
Ascending-left (x ∷ xs) ys a = (All-left (λ y. x < y) xs ys a.0, Ascending-left xs ys a.1)

pub Ascending-right : (xs ys : List ℕ) → Ascending (xs ++ ys) → Ascending ys
Ascending-right [] ys a = a
Ascending-right (x ∷ xs) ys a = Ascending-right xs ys a.1

-- There are at most as many numbers in an ascending list as between its bounds.
pub length-Ascending :
    (low limit : ℕ) (xs : List ℕ)
    → Ascending xs
    → All (λ p. low < p) xs
    → All (λ p. p ≤ limit) xs
    → low ≤ limit
    → length xs + low ≤ limit
length-Ascending low limit [] a b c l = omega (arith, l)
length-Ascending low limit (x ∷ xs) a b c l =
    let h = length-Ascending x limit xs a.1 a.0 c.1 c.0 in let m = b.0 in omega (arith, h, m)
