-- ===== src/Primality/Listing.antt =====
-- A list of the primes up to a limit in ascending order is determined by that.
use csympy.Prelude.{ℕ, ◌<◌, ◌≤◌, ◌≡◌, refl, sym, inl, inr, arith, List, [], ◌∷◌}
use csympy.NumberList.{In, All, Ascending, All-In}
use csympy.Primality.{IsPrime}
use csympy.Primality.Search.{searched, searched-IsPrime, searched_complete, searched-Ascending}

pub record IsListing (limit : ℕ) (primes : List ℕ) : Type 0 where
  pub sound : All (λ p. IsPrime p × (p ≤ limit)) primes
  pub complete : (p : ℕ) → IsPrime p → p ≤ limit → In p primes
  pub ascending : Ascending primes

-- The member of a list that is above its first one is in the tail.
In-tail :
    (x : ℕ) (xs ys : List ℕ)
    → Ascending (x ∷ xs)
    → ((p : ℕ) → In p (x ∷ xs) → In p (x ∷ ys))
    → (p : ℕ) → In p xs
    → In p ys
In-tail x xs ys a f p i = elim (f p (inr i)) [
  | inl e ↦ let l : x < p = All-In (λ y. x < y) p xs a.0 i in absurd (omega (arith, e, l))
  | inr j ↦ j
]

first_least : (x y : ℕ) (xs : List ℕ) → Ascending (x ∷ xs) → In y (x ∷ xs) → x ≤ y
first_least x y xs a (inl e) = omega (arith, e)
first_least x y xs a (inr i) = let l : x < y = All-In (λ y. x < y) y xs a.0 i in omega (arith, l)

Ascending-unique :
    (xs ys : List ℕ)
    → Ascending xs
    → Ascending ys
    → ((p : ℕ) → In p xs → In p ys)
    → ((p : ℕ) → In p ys → In p xs)
    → xs ≡ ys
Ascending-unique [] [] a b f g = refl
Ascending-unique [] (y ∷ ys) a b f g = absurd (g y (inl refl))
Ascending-unique (x ∷ xs) [] a b f g = absurd (f x (inl refl))
Ascending-unique (x ∷ xs) (y ∷ ys) a b f g =
    let e : x ≡ y =
      omega (arith, first_least x y xs a (g y (inl refl)), first_least y x ys b (f x (inl refl))) in
    let b' : Ascending (x ∷ ys) = rw (sym e) at b in
    let f' : (p : ℕ) → In p (x ∷ xs) → In p (x ∷ ys) = rw (sym e) at f in
    let g' : (p : ℕ) → In p (x ∷ ys) → In p (x ∷ xs) = rw (sym e) at g in
    let h = Ascending-unique xs ys a.1 b.1 (In-tail x xs ys a f') (In-tail x ys xs b' g') in
    cc (e, h)

pub IsListing-searched :
    (limit : ℕ) (primes : List ℕ) → IsListing limit primes → primes ≡ searched limit
IsListing-searched limit primes h =
    Ascending-unique primes (searched limit) h.ascending (searched-Ascending limit)
      (λ p i.
        let s = All-In (λ p. IsPrime p × (p ≤ limit)) p primes h.sound i in
        searched_complete limit p s.0 s.1)
      (λ p i.
        let s =
          All-In (λ p. IsPrime p × (p ≤ limit)) p (searched limit) (searched-IsPrime limit) i in
        h.complete p s.0 s.1)
