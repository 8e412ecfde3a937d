-- ===== src/App/Api.antt =====
-- app/api.hpp and app/api.cpp: the resources that the server's API would show. `json::dump` is a
-- parameter; the mutex that each operation holds is left out.
pub mod Resources
use stateline.Prelude.{ℕ, List, [], ◌∷◌, ◌++◌}
use stateline.Std.Key.{Str, str_key}
use stateline.Std.Map.{Map, at_or_insert, update}

pub record ApiResources : Type 0 where
  pub resources : Map Str Str

module _ {Json : Type 0} (dump : Json → Str) where
  -- `resources_[name] = data.dump()`.
  unfoldable pub set : Str → Json → ApiResources → ApiResources
  set name value r = record {
    resources = update name (dump value) (at_or_insert name [] r.resources).1;
  }

-- `resources_[name]`, which makes an empty entry for a name that is not there.
unfoldable pub get : Str → ApiResources → Str × ApiResources
get name r =
    let (result, resources) = at_or_insert name [] r.resources in
    (result, record { resources = resources })

-- `"name": value`.
unfoldable pub entry_text : Str × Str → Str
entry_text (name, value) = (34 ∷ []) ++ name ++ (34 ∷ 58 ∷ 32 ∷ []) ++ value

-- The loop of `getAll` after its first entry.
unfoldable pub more_entries : Map Str Str → Str
unfolding entry_text
more_entries [] = []
more_entries (e ∷ m) = (44 ∷ []) ++ entry_text e ++ more_entries m

unfoldable pub entries_text : Map Str Str → Str
unfolding entry_text more_entries
entries_text [] = []
entries_text (e ∷ m) = entry_text e ++ more_entries m

unfoldable pub get_all : ApiResources → Str
unfolding entries_text
get_all r = (123 ∷ []) ++ entries_text r.resources ++ (125 ∷ [])
