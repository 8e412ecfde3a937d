-- ===== src/Std/Map/Order.antt =====
-- The entries of a map stay in strict key order, so that no key stands twice.
use stateline.Prelude.{◌≡◌, refl, true, none, [], ◌∷◌, arith, All, All-mono}
use stateline.Std.Key.{Key}
use stateline.Std.Map.{Map, find, insert, update, erase}

module _ {K V : Type 0} ⦃o : Key K⦄ where
  -- Every key of the map is above `k`.
  abbrev pub Above : K → Map K V → Type 0
  Above k = All (λ e. o.lt k e.0 ≡ true)

  abbrev pub IsSorted : Map K V → Type 0
  IsSorted [] = Unit
  IsSorted ((k, v) ∷ m) = Above k m × IsSorted m

  Above-trans : (j k : K) (m : Map K V) → o.lt j k ≡ true → Above k m → Above j m
  Above-trans j k m h =
      All-mono (λ e. o.lt k e.0 ≡ true) (λ e. o.lt j e.0 ≡ true) (λ e. o.lt_trans j k e.0 h) m

  Above-insert :
      (j k : K) (v : V) (m : Map K V) → o.lt j k ≡ true → Above j m → Above j (insert k v m)
  unfolding insert
  Above-insert j k v [] h a = (h, tt)
  Above-insert j k v ((i, w) ∷ m) h a = ground (arith, Above-insert j k v m h a.1)

  pub insert-IsSorted : (k : K) (v : V) (m : Map K V) → IsSorted m → IsSorted (insert k v m)
  unfolding insert
  insert-IsSorted k v [] s = (tt, tt)
  insert-IsSorted k v ((j, w) ∷ m) s =
      ground
        (arith, insert-IsSorted k v m s.1, Above-insert j k v m, Above-trans k j m, o.lt_total k j)

  Above-update : (j k : K) (v : V) (m : Map K V) → Above j m → Above j (update k v m)
  unfolding update
  Above-update j k v [] a = tt
  Above-update j k v ((i, w) ∷ m) a = ground (arith, Above-update j k v m a.1)

  pub update-IsSorted : (k : K) (v : V) (m : Map K V) → IsSorted m → IsSorted (update k v m)
  unfolding update
  update-IsSorted k v [] s = tt
  update-IsSorted k v ((j, w) ∷ m) s =
      ground (arith, update-IsSorted k v m s.1, Above-update j k v m s.0)

  Above-erase : (j k : K) (m : Map K V) → Above j m → Above j (erase k m)
  unfolding erase
  Above-erase j k [] a = tt
  Above-erase j k ((i, w) ∷ m) a = ground (arith, Above-erase j k m a.1)

  pub erase-IsSorted : (k : K) (m : Map K V) → IsSorted m → IsSorted (erase k m)
  unfolding erase
  erase-IsSorted k [] s = tt
  erase-IsSorted k ((j, w) ∷ m) s = ground (arith, erase-IsSorted k m s.1, Above-erase j k m s.0)

  pub find-Above : (k : K) (m : Map K V) → Above k m → find k m ≡ none
  unfolding find
  find-Above k [] a = refl
  find-Above k ((j, w) ∷ m) a = ground (arith, find-Above k m a.1, o.eq_iff k j, o.lt_irrefl k)

  pub find-erase_self : (k : K) (m : Map K V) → IsSorted m → find k (erase k m) ≡ none
  unfolding find erase
  find-erase_self k [] s = refl
  find-erase_self k ((j, w) ∷ m) s =
      ground (arith, find-erase_self k m s.1, find-Above j m s.0, o.eq_iff k j)
