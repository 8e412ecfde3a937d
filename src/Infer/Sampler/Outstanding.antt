-- ===== src/Infer/Sampler/Outstanding.antt =====
-- The batches that the sampler has submitted: how often each id stands in the list of them.
use stateline.Prelude.{
  ℕ, suc, ◌+◌, ◌-◌, ◌<◌, ◌≡◌, true, List, [], ◌∷◌, ◌++◌, arith, length, ◌==◌, if◌then◌else◌, zero,
  ◌≤◌, Bool-cases, inl, inr, ==_iff, sym,
}
use mathlib.Core.Path.{subst}
use stateline.Infer.Sampler.{remove_one, is_member}

abbrev pub occurrences : ℕ → List ℕ → ℕ
occurrences j [] = 0
occurrences j (i ∷ is) = if i == j then suc (occurrences j is) else occurrences j is

pub occurrences-append :
    (is : List ℕ) (i j : ℕ)
    → occurrences j (is ++ i ∷ []) ≡ (if i == j then occurrences j is + 1 else occurrences j is)
occurrences-append [] i j = ground arith
occurrences-append (k ∷ is) i j = ground (arith, occurrences-append is i j)

pub is_member-occurrences : (i : ℕ) (is : List ℕ) → 0 < occurrences i is → is_member i is ≡ true
unfolding is_member
is_member-occurrences i [] h = absurd (omega arith)
is_member-occurrences i (k ∷ is) h = ground (arith, is_member-occurrences i is)

pub occurrences-is_member : (i : ℕ) (is : List ℕ) → is_member i is ≡ true → 0 < occurrences i is
unfolding is_member
occurrences-is_member i [] h = cc
occurrences-is_member i (k ∷ is) h = ground (arith, occurrences-is_member i is)

pub occurrences-remove_one :
    (i j : ℕ) (is : List ℕ)
    → is_member i is ≡ true
    → occurrences j (remove_one i is) ≡ (if i == j then occurrences j is - 1 else occurrences j is)
unfolding is_member remove_one
occurrences-remove_one i j [] h = cc
occurrences-remove_one i j (k ∷ is) h =
    ground (arith, occurrences-remove_one i j is, occurrences-is_member i is, h)

pub length-remove_one :
    (i : ℕ) (is : List ℕ) → is_member i is ≡ true → length (remove_one i is) + 1 ≡ length is
unfolding is_member remove_one
length-remove_one i [] h = cc
length-remove_one i (k ∷ is) h = ground (arith, length-remove_one i is, h)

-- Numbers below `n` that stand once in a list are at most `n`.
pub length-of_once :
    (n : ℕ) (is : List ℕ)
    → ((j : ℕ) → occurrences j is ≤ 1)
    → ((j : ℕ) → 0 < occurrences j is → j < n)
    → length is ≤ n
length-of_once n [] once below = omega arith
length-of_once zero (i ∷ is) once below = absurd (ground (arith, below i))
length-of_once (suc n) (i ∷ is) once below = elim (Bool-cases (is_member n (i ∷ is))) [
  | inl here ↦
      let fewer : length (remove_one n (i ∷ is)) ≤ n =
        length-of_once n (remove_one n (i ∷ is))
          (λ j. ground (arith, occurrences-remove_one n j (i ∷ is) here, once j))
          (λ j p. ground (arith, occurrences-remove_one n j (i ∷ is) here, once j, below j, p)) in
      omega (arith, fewer, length-remove_one n (i ∷ is) here)
  | inr absent ↦
      let fewer : length (i ∷ is) ≤ n = length-of_once n (i ∷ is) once (λ j p.
        elim (Bool-cases (n == j)) [
          | inl same ↦
              let there : 0 < occurrences n (i ∷ is) =
                subst (λ m. 0 < occurrences m (i ∷ is)) (sym ((==_iff n j).0 same)) p in
              absurd (cc (absent, is_member-occurrences n (i ∷ is) there))
          | inr other ↦ ground (arith, below j p, other)
        ]) in
      omega (arith, fewer)
]
