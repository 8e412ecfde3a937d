-- ===== src/Std/Map.antt =====
-- `std::map`, as the list of its entries in key order. `insert` leaves an entry that is there
-- as it is; `update` writes through a reference to an entry. A `std::set` is a list of keys.
pub mod Order
pub mod Laws
use stateline.Prelude.{ℕ, ◌+◌, Bool, true, false, Option, none, some, List, [], ◌∷◌, if◌then◌else◌}
use stateline.Std.Key.{Key}

abbrev pub Map : Type 0 → Type 0 → Type 0
Map K V = List (K × V)

module _ {K V : Type 0} ⦃o : Key K⦄ where
  unfoldable pub find : K → Map K V → Option V
  find k [] = none
  find k ((j, v) ∷ m) = if o.eq k j then some v else find k m

  -- `m.count(k)`.
  unfoldable pub contains : K → Map K V → Bool
  unfolding find
  contains k m = elim (find k m) [ none ↦ false | some _ ↦ true ]

  unfoldable pub insert : K → V → Map K V → Map K V
  insert k v [] = (k, v) ∷ []
  insert k v ((j, w) ∷ m) =
      if o.eq k j
      then (j, w) ∷ m
      else if o.lt k j
      then (k, v) ∷ (j, w) ∷ m
      else (j, w) ∷ insert k v m

  unfoldable pub update : K → V → Map K V → Map K V
  update k v [] = []
  update k v ((j, w) ∷ m) = if o.eq k j then (j, v) ∷ m else (j, w) ∷ update k v m

  unfoldable pub erase : K → Map K V → Map K V
  erase k [] = []
  erase k ((j, w) ∷ m) = if o.eq k j then m else (j, w) ∷ erase k m

  -- `m[k]`, which inserts the default value `d` where `k` is missing: the value, and the map.
  unfoldable pub at_or_insert : K → V → Map K V → V × Map K V
  unfolding find insert
  at_or_insert k d m = elim (find k m) [ none ↦ (d, insert k d m) | some v ↦ (v, m) ]

-- `std::set::insert`.
unfoldable pub set_insert : {K : Type 0} ⦃o : Key K⦄ → K → List K → List K
set_insert k [] = k ∷ []
set_insert ⦃o⦄ k (j ∷ s) =
    if o.eq k j then j ∷ s else if o.lt k j then k ∷ j ∷ s else j ∷ set_insert k s
