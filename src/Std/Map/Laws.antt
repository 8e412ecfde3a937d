-- ===== src/Std/Map/Laws.antt =====
-- Look-up after each operation of a map, and sums and predicates over its values.
use stateline.Prelude.{
  ℕ, suc, ◌+◌, ◌≡◌, refl, true, false, none, some, [], ◌∷◌, arith, All, length, if◌then◌else◌,
}
use stateline.Std.Key.{Key}
use stateline.Std.Map.{Map, find, contains, insert, update, erase, at_or_insert}

module _ {K V : Type 0} ⦃o : Key K⦄ where
  pub find-insert :
      (j k : K) (v : V) (m : Map K V)
      → find k m ≡ none
      → find j (insert k v m) ≡ (if o.eq j k then some v else find j m)
  unfolding find insert
  find-insert j k v [] h = refl
  find-insert j k v ((i, w) ∷ m) h =
      ground (arith, find-insert j k v m, o.eq_iff j k, o.eq_iff k i, o.eq_iff j i)

  pub find-update :
      (j k : K) (v w : V) (m : Map K V)
      → find k m ≡ some w
      → find j (update k v m) ≡ (if o.eq j k then some v else find j m)
  unfolding find update
  find-update j k v w [] h = cc
  find-update j k v w ((i, u) ∷ m) h =
      ground (arith, find-update j k v w m, o.eq_iff j k, o.eq_iff k i, o.eq_iff j i)

  pub find-erase_ne : (j k : K) (m : Map K V) → o.eq j k ≡ false → find j (erase k m) ≡ find j m
  unfolding find erase
  find-erase_ne j k [] h = refl
  find-erase_ne j k ((i, u) ∷ m) h =
      ground (arith, find-erase_ne j k m h, o.eq_iff j k, o.eq_iff k i, o.eq_iff j i)

  pub contains-false : (k : K) (m : Map K V) → contains k m ≡ false → find k m ≡ none
  unfolding contains
  contains-false k m h = ground arith

  pub contains-true : (k : K) (m : Map K V) → contains k m ≡ true → (v : V) × (find k m ≡ some v)
  unfolding contains
  contains-true k m h = ground arith

  pub at_or_insert_found :
      (k : K) (d v : V) (m : Map K V) → find k m ≡ some v → at_or_insert k d m ≡ (v, m)
  unfolding at_or_insert
  at_or_insert_found k d v m h = ground arith

  pub at_or_insert_missing :
      (k : K) (d : V) (m : Map K V) → find k m ≡ none → at_or_insert k d m ≡ (d, insert k d m)
  unfolding at_or_insert
  at_or_insert_missing k d m h = ground arith

  -- The sum of a number over the values.
  abbrev pub sum_values : (V → ℕ) → Map K V → ℕ
  sum_values f [] = 0
  sum_values f ((k, v) ∷ m) = f v + sum_values f m

  pub sum_values-insert :
      (f : V → ℕ) (k : K) (v : V) (m : Map K V)
      → find k m ≡ none
      → sum_values f (insert k v m) ≡ f v + sum_values f m
  unfolding find insert
  sum_values-insert f k v [] h = refl
  sum_values-insert f k v ((j, w) ∷ m) h = ground (arith, sum_values-insert f k v m)

  pub sum_values-erase :
      (f : V → ℕ) (k : K) (v : V) (m : Map K V)
      → find k m ≡ some v
      → f v + sum_values f (erase k m) ≡ sum_values f m
  unfolding find erase
  sum_values-erase f k v [] h = cc
  sum_values-erase f k v ((j, w) ∷ m) h = ground (arith, sum_values-erase f k v m)

  pub sum_values-update :
      (f : V → ℕ) (k : K) (v w : V) (m : Map K V)
      → find k m ≡ some w
      → f w + sum_values f (update k v m) ≡ f v + sum_values f m
  unfolding find update
  sum_values-update f k v w [] h = cc
  sum_values-update f k v w ((j, u) ∷ m) h = ground (arith, sum_values-update f k v w m)

  -- A predicate of every entry.
  abbrev pub Entries : (K → V → Type 0) → Map K V → Type 0
  Entries P = All (λ e. P e.0 e.1)

  pub find-Entries :
      (P : K → V → Type 0) (k : K) (v : V) (m : Map K V) → Entries P m → find k m ≡ some v → P k v
  unfolding find
  find-Entries P k v [] h e = cc
  find-Entries P k v ((j, w) ∷ m) h e = ground (arith, find-Entries P k v m h.1, o.eq_iff k j)

  pub insert-Entries :
      (P : K → V → Type 0) (k : K) (v : V) (m : Map K V)
      → P k v
      → Entries P m
      → Entries P (insert k v m)
  unfolding insert
  insert-Entries P k v [] p h = (p, tt)
  insert-Entries P k v ((j, w) ∷ m) p h = ground (arith, insert-Entries P k v m p h.1)

  pub update-Entries :
      (P : K → V → Type 0) (k : K) (v : V) (m : Map K V)
      → P k v
      → Entries P m
      → Entries P (update k v m)
  unfolding update
  update-Entries P k v [] p h = tt
  update-Entries P k v ((j, w) ∷ m) p h = ground (arith, update-Entries P k v m p h.1, o.eq_iff k j)

  pub erase-Entries :
      (P : K → V → Type 0) (k : K) (m : Map K V) → Entries P m → Entries P (erase k m)
  unfolding erase
  erase-Entries P k [] h = tt
  erase-Entries P k ((j, w) ∷ m) h = ground (arith, erase-Entries P k m h.1)

  pub length-insert :
      (k : K) (v : V) (m : Map K V) → find k m ≡ none → length (insert k v m) ≡ suc (length m)
  unfolding find insert
  length-insert k v [] h = refl
  length-insert k v ((j, w) ∷ m) h = ground (arith, length-insert k v m)

  pub length-erase :
      (k : K) (v : V) (m : Map K V) → find k m ≡ some v → suc (length (erase k m)) ≡ length m
  unfolding find erase
  length-erase k v [] h = cc
  length-erase k v ((j, w) ∷ m) h = ground (arith, length-erase k v m)

  pub length-update : (k : K) (v : V) (m : Map K V) → length (update k v m) ≡ length m
  unfolding update
  length-update k v [] = refl
  length-update k v ((j, w) ∷ m) = ground (arith, length-update k v m)
