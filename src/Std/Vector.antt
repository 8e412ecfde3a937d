-- ===== src/Std/Vector.antt =====
-- `std::vector`, as a list. An index beyond the end, and `back` of an empty vector, are undefined.
use stateline.Prelude.{
  ℕ, zero, suc, ◌<◌, ◌≡◌, refl, ap, List, [], ◌∷◌, ◌++◌, arith, length, get_elem?, set, ltb,
  if◌then◌else◌, Result, ok, err, or_fault, undefined_behaviour, get_elem?-set, get_elem?-some,
  ◌==◌, ltb→lt, Bool-cases, inl, inr, length-set, Returns, replicate, length-replicate,
}

module _ {ℓ} {A : Type ℓ} where
  -- `v[i]`.
  unfoldable pub at : List A → ℕ → Result A
  at xs i = or_fault (get_elem? xs i) undefined_behaviour

  -- `v[i] = a`.
  unfoldable pub put : List A → ℕ → A → Result (List A)
  put xs i a = if ltb i (length xs) then ok (set xs i a) else err undefined_behaviour

  -- `v.back()`.
  unfoldable pub back : List A → Result A
  back [] = err undefined_behaviour
  back (x ∷ []) = ok x
  back (x ∷ y ∷ xs) = back (y ∷ xs)

  -- The entries from `begin()` to `end() - 1`.
  unfoldable pub all_but_last : List A → List A
  all_but_last [] = []
  all_but_last (x ∷ []) = []
  all_but_last (x ∷ y ∷ xs) = x ∷ all_but_last (y ∷ xs)

  -- `v.back() = a`.
  unfoldable pub set_back : List A → A → Result (List A)
  unfolding all_but_last
  set_back [] a = err undefined_behaviour
  set_back (x ∷ xs) a = ok (all_but_last (x ∷ xs) ++ a ∷ [])

  pub back-append : (xs : List A) (a : A) → back (xs ++ a ∷ []) ≡ ok a
  unfolding back
  back-append [] a = refl
  back-append (x ∷ []) a = refl
  back-append (x ∷ y ∷ xs) a = back-append (y ∷ xs) a

  -- A vector that has a last entry is the rest with that entry.
  pub all_but_last-back : (xs : List A) (a : A) → back xs ≡ ok a → all_but_last xs ++ a ∷ [] ≡ xs
  unfolding back all_but_last
  all_but_last-back [] a e = cc
  all_but_last-back (x ∷ []) a e = ground (arith, e)
  all_but_last-back (x ∷ y ∷ xs) a e = ap (◌∷◌ x) (all_but_last-back (y ∷ xs) a e)

  pub all_but_last-append : (xs : List A) (a : A) → all_but_last (xs ++ a ∷ []) ≡ xs
  unfolding all_but_last
  all_but_last-append [] a = refl
  all_but_last-append (x ∷ []) a = refl
  all_but_last-append (x ∷ y ∷ xs) a = ap (◌∷◌ x) (all_but_last-append (y ∷ xs) a)

  pub set_back_some :
      (xs : List A) (a b : A) → back xs ≡ ok a → set_back xs b ≡ ok (all_but_last xs ++ b ∷ [])
  unfolding back set_back
  set_back_some [] a b e = cc
  set_back_some (x ∷ xs) a b e = refl

  pub back_some : (xs : List A) → 0 < length xs → (a : A) × (back xs ≡ ok a)
  unfolding back
  back_some [] h = absurd (omega arith)
  back_some (x ∷ []) h = (x, refl)
  back_some (x ∷ y ∷ xs) h = back_some (y ∷ xs) (omega arith)

module _ {ℓ} {A : Type ℓ} where
  put_eq :
      (xs ys : List A) (i : ℕ) (a : A) → put xs i a ≡ ok ys → (i < length xs) × (set xs i a ≡ ys)
  unfolding put
  put_eq xs ys i a e = elim (Bool-cases (ltb i (length xs))) [
    | inl inside ↦ (ltb→lt i (length xs) inside, cc (rw inside at e))
    | inr outside ↦ cc (rw outside at e)
  ]

  pub at-put :
      (xs ys : List A) (i j : ℕ) (a : A)
      → put xs i a ≡ ok ys
      → at ys j ≡ (if i == j then ok a else at xs j)
  unfolding at
  at-put xs ys i j a e =
      let (inside, same) = put_eq xs ys i a e in
      rw (← same) (
        rw (get_elem?-set xs i j a inside)
          (elim (Bool-cases (i == j)) [ inl hit ↦ rw hit | inr miss ↦ rw miss ]))

  pub length-put : (xs ys : List A) (i : ℕ) (a : A) → put xs i a ≡ ok ys → length ys ≡ length xs
  length-put xs ys i a e = rw (← (put_eq xs ys i a e).1) (length-set xs i a)

  pub put_ok : (xs : List A) (i : ℕ) (a : A) → i < length xs → put xs i a ≡ ok (set xs i a)
  unfolding put
  put_ok xs i a h = ground arith

  pub at_ok : (xs : List A) (i : ℕ) → i < length xs → (a : A) × (at xs i ≡ ok a)
  unfolding at
  at_ok xs i h = let (a, e) = get_elem?-some xs i h in (a, rw e)

  pub at-lt : (xs : List A) (i : ℕ) (a : A) → at xs i ≡ ok a → i < length xs
  unfolding at
  at-lt [] i a e = cc
  at-lt (x ∷ xs) zero a e = omega arith
  at-lt (x ∷ xs) (suc i) a e = omega (arith, at-lt xs i a e)

module _ {ℓ} {A : Type ℓ} where
  pub at-replicate : (n i : ℕ) (a : A) → i < n → at (replicate n a) i ≡ ok a
  unfolding at
  at-replicate zero i a h = absurd (omega arith)
  at-replicate (suc n) zero a h = refl
  at-replicate (suc n) (suc i) a h = at-replicate n i a (omega arith)

  -- The only value in a vector of copies.
  pub replicate-at : (n i : ℕ) (a b : A) → at (replicate n a) i ≡ ok b → b ≡ a
  replicate-at n i a b e =
      let inside = at-lt (replicate n a) i b e in
      cc (e, at-replicate n i a (rw (← length-replicate n a) inside))

  pub Returns-at : (xs : List A) (i : ℕ) → i < length xs → Returns (λ a. at xs i ≡ ok a) (at xs i)
  Returns-at xs i h = let (a, e) = at_ok xs i h in record { value = a; run = e; holds = e }

  pub Returns-put :
      (xs : List A) (i : ℕ) (a : A)
      → i < length xs
      → Returns (λ ys. put xs i a ≡ ok ys) (put xs i a)
  Returns-put xs i a h =
      let e = put_ok xs i a h in record { value = set xs i a; run = e; holds = e }
