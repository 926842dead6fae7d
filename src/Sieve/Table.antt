-- ===== src/Sieve/Table.antt =====
-- The invariant of the table: all primes up to its last one, in ascending order.
use native.Mathlib.Nat.{dvd_of_mod-eq-zero}
use csympy.Prelude.{
  ℕ, suc, ◌-◌, ◌%◌, ◌≡◌, ◌<◌, ◌≤◌, ◌⊎◌, refl, ap, inl, inr, arith, List, [], ◌∷◌, ◌++◌, length,
}
use csympy.NumberList.{In, All, Ascending, All-In, All-of_In, All-weaken, In-append_left}
use csympy.Primality.{IsPrime}
use csympy.Primality.Search.{
  rough_to, is_prime, searched, searched-IsPrime, searched_complete, searched-Ascending,
}
use csympy.Vector.{at}
use csympy.Sieve.{first_primes, first_of, clear, back, odd_primes}

pub record IsTable (primes : List ℕ) : Type 0 where
  pub rest : List ℕ
  pub starts : primes ≡ first_primes ++ rest
  pub sound : All IsPrime primes
  pub ascending : Ascending primes
  pub complete : (p : ℕ) → IsPrime p → p ≤ back primes → In p primes

back_step : (x y : ℕ) (v : List ℕ) → back (x ∷ y ∷ v) ≡ back (y ∷ v)
unfolding at
back_step x y v =
    ap (at 0 (x ∷ y ∷ v))
      (let e : suc (suc (length v)) - 1 ≡ suc (suc (length v) - 1) = omega arith in e)

back_single : (x : ℕ) → back (x ∷ []) ≡ x
unfolding at
back_single x = refl

In-same : (p q : ℕ) (xs : List ℕ) → p ≡ q → In q xs → In p xs
In-same p q xs e i = rw e i

back-In : (x : ℕ) (v : List ℕ) → In (back (x ∷ v)) (x ∷ v)
back-In x [] = inl (back_single x)
back-In x (y ∷ v) =
    In-same (back (x ∷ y ∷ v)) (back (y ∷ v)) (x ∷ y ∷ v) (back_step x y v) (inr (back-In y v))

back_most : (x p : ℕ) (v : List ℕ) → Ascending (x ∷ v) → In p (x ∷ v) → p ≤ back (x ∷ v)
back_most x p [] a (inl e) = omega (arith, e, back_single x)
back_most x p [] a (inr i) = absurd i
back_most x p (y ∷ v) a (inl e) =
    let h = back_most y y v a.1 (inl refl) in
    let l : x < y = a.0.0 in omega (arith, e, h, l, back_step x y v)
back_most x p (y ∷ v) a (inr i) = let h = back_most y p v a.1 i in omega (arith, h, back_step x y v)

pub starts-back : (primes rest : List ℕ) → primes ≡ first_primes ++ rest → In (back primes) primes
starts-back primes rest e = rw e (back-In 2 _)

pub IsTable-back : (primes : List ℕ) → IsTable primes → In (back primes) primes
IsTable-back primes t = starts-back primes t.rest t.starts

pub IsTable-most : (primes : List ℕ) (p : ℕ) → IsTable primes → In p primes → p ≤ back primes
IsTable-most primes p t i =
    let a = rw t.starts at t.ascending in
    let j = rw t.starts at i in rw t.starts (back_most 2 p _ a j)

pub IsTable-large : (primes : List ℕ) → IsTable primes → 29 ≤ back primes
IsTable-large primes t = IsTable-most primes 29 t (
    rw t.starts (
      In-append_left 29 first_primes t.rest
        (inr (inr (inr (inr (inr (inr (inr (inr (inr (inl refl))))))))))))

pub IsPrime-odd : (p : ℕ) → IsPrime p → 2 < p → p % 2 ≡ 1
IsPrime-odd p h l = elim (let o : (p % 2 ≡ 0) ⊎ (p % 2 ≡ 1) = ground arith in o) [
  | inl e ↦ elim (h.1 2 (dvd_of_mod-eq-zero 2 e)) [
    | inl x ↦ absurd (omega (arith, x))
    | inr x ↦ absurd (omega (arith, x, l))
  ]
  | inr e ↦ e
]

pub IsTable-odd : (primes : List ℕ) → IsTable primes → back primes % 2 ≡ 1
IsTable-odd primes t =
    IsPrime-odd (back primes) (All-In IsPrime _ primes t.sound (IsTable-back primes t))
      (omega (arith, IsTable-large primes t))

-- The primes from the second on are odd.
pub odd_primes-All :
    (primes : List ℕ) → IsTable primes → All (λ q. IsPrime q × (2 < q)) (odd_primes primes)
unfolding odd_primes
odd_primes-All primes t =
    let a = rw t.starts at t.ascending in
    let s = rw t.starts at t.sound in
    let odds = 3 ∷ 5 ∷ 7 ∷ 11 ∷ 13 ∷ 17 ∷ 19 ∷ 23 ∷ 29 ∷ t.rest in
    rw t.starts (
      All-of_In (λ q. IsPrime q × (2 < q)) odds
        (λ q i. (All-In IsPrime q odds s.1 i, All-In (λ y. 2 < y) q odds a.0 i)))

pub odd_primes-In :
    (primes : List ℕ) (q : ℕ) → IsTable primes → In q (odd_primes primes) → In q primes
unfolding odd_primes
odd_primes-In primes q t i = let j = rw t.starts at i in rw t.starts (inr j)

pub In-odd_primes :
    (primes : List ℕ) (q : ℕ) → IsTable primes → In q primes → 2 < q → In q (odd_primes primes)
unfolding odd_primes
In-odd_primes primes q t i l =
    elim (let j : (q ≡ 2) ⊎ In q (3 ∷ 5 ∷ 7 ∷ 11 ∷ 13 ∷ 17 ∷ 19 ∷ 23 ∷ 29 ∷ t.rest) =
        rw t.starts at i in
      j) [ inl e ↦ absurd (omega (arith, e, l)) | inr j ↦ rw t.starts j ]

pub odd_primes-Ascending : (primes : List ℕ) → IsTable primes → Ascending (odd_primes primes)
unfolding odd_primes
odd_primes-Ascending primes t = let a = rw t.starts at t.ascending in rw t.starts a.1

searched_first : searched 29 ≡ first_primes
unfolding searched is_prime rough_to
searched_first = refl

pub first_primes-IsTable : IsTable first_primes
unfolding at
first_primes-IsTable = record {
  rest = [];
  starts = refl;
  sound =
      All-weaken (λ p. IsPrime p × (p ≤ 29)) IsPrime first_primes (λ p h. h.0)
        (rw searched_first at (searched-IsPrime 29));
  ascending = rw searched_first at (searched-Ascending 29);
  complete = λ p h l. rw searched_first at (searched_complete 29 p h l);
}

-- `clear` goes back to the first ten primes.
pub clear-first_primes : (primes : List ℕ) → IsTable primes → clear primes ≡ first_primes
unfolding clear first_of
clear-first_primes primes t = rw t.starts refl

-- What an extension of the table up to a limit does.
pub record IsExtended (primes : List ℕ) (limit : ℕ) (longer : List ℕ) : Type 0 where
  pub table : IsTable longer
  pub added : List ℕ
  pub grown : longer ≡ primes ++ added
  pub within : All (λ p. p ≤ limit) added
  pub covers : (p : ℕ) → IsPrime p → p ≤ limit → In p longer
