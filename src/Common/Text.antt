-- ===== src/Common/Text.antt =====
-- common/string.hpp. `splitStr` inserts at the end of any container: it takes the container's
-- operation as an argument, and `split_vector` and `split_set` are its two uses.
pub mod RoundTrip
use stateline.Prelude.{
  ℕ, ◌≡◌, Bool, true, false, List, [], ◌∷◌, ◌++◌, ◌==◌, if◌then◌else◌, Result, ok, err,
  undefined_behaviour,
}
use stateline.Std.Key.{Str, str_key}
use stateline.Std.Map.{set_insert}

-- `result += v + delim` for each entry.
append_all : Str → List Str → Str
append_all delim [] = []
append_all delim (v ∷ vs) = (v ++ delim) ++ append_all delim vs

drop_last : ℕ → Str → Str
drop_last c [] = []
drop_last c (d ∷ t) = c ∷ drop_last d t

-- `pop_back` of a text, undefined on the empty one.
pop_back : Str → Result Str
unfolding drop_last
pop_back [] = err undefined_behaviour
pop_back (c ∷ s) = ok (drop_last c s)

unfoldable pub join_str : List Str → Str → Result Str
unfolding append_all pop_back
join_str container delim = pop_back (append_all delim container)

module _ {C : Type 0} (insert_end : C → Str → C) where
  -- The loop of `splitStr`, and the insertion of the last segment.
  split_from : C → Str → Str → ℕ → C
  split_from out [] [] delim = out
  split_from out [] (c ∷ segment) delim = insert_end out (c ∷ segment)
  split_from out (c ∷ str) segment delim =
      split_from (if c == delim then insert_end out segment else out) str
        (if c == delim then [] else segment ++ c ∷ []) delim

  unfoldable pub split_str : C → Str → ℕ → C
  unfolding split_from
  split_str out str delim = split_from out str [] delim

-- `splitStr` into a `std::vector` and into a `std::set`.
unfoldable pub split_vector : Str → ℕ → List Str
unfolding split_str
split_vector = split_str (λ out s. out ++ s ∷ []) []

unfoldable pub split_set : Str → ℕ → List Str
unfolding split_str set_insert
split_set = split_str (λ out s. set_insert s out) []
