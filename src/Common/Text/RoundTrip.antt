-- ===== src/Common/Text/RoundTrip.antt =====
-- `splitStr` undoes `joinStr`, into any container.
use stateline.Prelude.{
  ℕ, ◌≡◌, refl, ap, sym, ◌∙◌, false, List, [], ◌∷◌, ◌++◌, append_assoc, append-nil, arith, All,
  ◌==◌, ok, foldl, ◌≢◌, ◌>>=◌,
}
use stateline.Std.Key.{Str}
use stateline.Common.Text.{append_all, drop_last, pop_back, join_str, split_from, split_str}

-- No byte of the text is the delimiter.
abbrev pub Without : ℕ → Str → Type 0
Without d = All (λ c. (c == d) ≡ false)

-- The last segment is not empty.
abbrev pub EndsFull : Str → List Str → Type 0
EndsFull v [] = v ≢ []
EndsFull v (w ∷ ws) = EndsFull w ws

-- The segments with the delimiter between them.
abbrev pub between : ℕ → Str → List Str → Str
between d v [] = v
between d v (w ∷ ws) = v ++ d ∷ between d w ws

-- The segments, each with the delimiter behind it.
abbrev pub ended : ℕ → List Str → Str
ended d [] = []
ended d (v ∷ vs) = v ++ d ∷ ended d vs

append_all-between :
    (d : ℕ) (v : Str) (vs : List Str) → append_all (d ∷ []) (v ∷ vs) ≡ between d v vs ++ d ∷ []
unfolding append_all
append_all-between d v [] = append-nil (v ++ d ∷ [])
append_all-between d v (w ∷ ws) = simp (append_all-between d w ws, append_assoc)

drop_last-append : (c : ℕ) (s : Str) (d : ℕ) → drop_last c (s ++ d ∷ []) ≡ c ∷ s
unfolding drop_last
drop_last-append c [] d = refl
drop_last-append c (e ∷ s) d = ap (◌∷◌ c) (drop_last-append e s d)

pop_back-append : (s : Str) (d : ℕ) → pop_back (s ++ d ∷ []) ≡ ok s
unfolding pop_back
pop_back-append [] d = refl
pop_back-append (c ∷ s) d = ap ok (drop_last-append c s d)

pub join_str-between :
    (d : ℕ) (v : Str) (vs : List Str) → join_str (v ∷ vs) (d ∷ []) ≡ ok (between d v vs)
unfolding join_str
join_str-between d v vs = rw (append_all-between d v vs) (pop_back-append (between d v vs) d)

module _ {C : Type 0} (ins : C → Str → C) where
  -- A segment is gathered byte by byte.
  split_segment :
      (out : C) (v segment t : Str) (d : ℕ)
      → Without d v
      → split_from ins out (v ++ t) segment d ≡ split_from ins out t (segment ++ v) d
  unfolding split_from
  split_segment out [] segment t d h = rw append-nil
  split_segment out (c ∷ v) segment t d h =
      rw (h.0, split_from)
        (split_segment out v (segment ++ c ∷ []) t d h.1
          ∙ ap (λ x. split_from ins out t x d) (append_assoc segment (c ∷ []) v))

  split_last : (out : C) (v : Str) (d : ℕ) → v ≢ [] → split_from ins out [] v d ≡ ins out v
  unfolding split_from
  split_last out [] d h = absurd (h refl)
  split_last out (c ∷ v) d h = refl

  split_from-between :
      (out : C) (d : ℕ) (v : Str) (vs : List Str)
      → All (Without d) (v ∷ vs)
      → EndsFull v vs
      → split_from ins out (between d v vs) [] d ≡ foldl ins out (v ∷ vs)
  unfolding split_from
  split_from-between out d v [] h full =
      ap (λ x. split_from ins out x [] d) (sym (append-nil v))
      ∙ split_segment out v [] [] d h.0
      ∙ split_last out v d full
  split_from-between out d v (w ∷ ws) h full =
      split_segment out v [] (d ∷ between d w ws) d h.0
      ∙ ground (arith, split_from-between (ins out v) d w ws h.1 full)

  split_from-ended :
      (out : C) (d : ℕ) (vs : List Str)
      → All (Without d) vs
      → split_from ins out (ended d vs) [] d ≡ foldl ins out vs
  unfolding split_from
  split_from-ended out d [] h = refl
  split_from-ended out d (v ∷ vs) h =
      split_segment out v [] (d ∷ ended d vs) d h.0
      ∙ ground (arith, split_from-ended (ins out v) d vs h.1)

  pub split_str-ended :
      (out : C) (d : ℕ) (vs : List Str)
      → All (Without d) vs
      → split_str ins out (ended d vs) d ≡ foldl ins out vs
  unfolding split_str
  split_str-ended out d vs h = split_from-ended out d vs h

  pub split_str-between :
      (out : C) (d : ℕ) (v : Str) (vs : List Str)
      → All (Without d) (v ∷ vs)
      → EndsFull v vs
      → split_str ins out (between d v vs) d ≡ foldl ins out (v ∷ vs)
  unfolding split_str
  split_str-between out d v vs h full = split_from-between out d v vs h full

  -- Joining texts that do not hold the delimiter, the last of them not empty, and splitting the
  -- result inserts each of the texts, in order.
  pub split_str-join_str :
      (out : C) (d : ℕ) (v : Str) (vs : List Str)
      → All (Without d) (v ∷ vs)
      → EndsFull v vs
      → (join_str (v ∷ vs) (d ∷ []) >>= λ s. ok (split_str ins out s d))
        ≡ ok (foldl ins out (v ∷ vs))
  unfolding split_str
  split_str-join_str out d v vs h full =
      rw (join_str-between d v vs) (ap ok (split_str-between out d v vs h full))

pub foldl-snoc : (out xs : List Str) → foldl (λ out s. out ++ s ∷ []) out xs ≡ out ++ xs
foldl-snoc out [] = sym (append-nil out)
foldl-snoc out (x ∷ xs) = foldl-snoc (out ++ x ∷ []) xs ∙ append_assoc out (x ∷ []) xs
