-- ===== src/App/Api/Resources.antt =====
-- What `get` finds after `set`.
use stateline.Prelude.{
  ◌≡◌, refl, sym, ap, ◌∙◌, false, Option, none, some, [], if◌then◌else◌, inl, inr, Option-cases,
  Bool-cases,
}
use stateline.Std.Key.{Str, str_key, str_eq, str_eq_iff}
use stateline.Std.Map.{Map, find, update, at_or_insert}
use stateline.Std.Map.Laws.{find-insert, find-update, at_or_insert_found, at_or_insert_missing}
use stateline.App.Api.{ApiResources, set, get}

-- What is found, or the empty text.
abbrev found : Option Str → Str
found none = []
found (some v) = v

at_or_insert-found :
    (k : Str) (m : Map Str Str)
    → ((at_or_insert k [] m).0 ≡ found (find k m))
      × (find k ((at_or_insert k [] m).1) ≡ some (found (find k m)))
      × ((j : Str) → str_eq j k ≡ false → find j ((at_or_insert k [] m).1) ≡ find j m)
at_or_insert-found k m = elim (Option-cases (find k m)) [
  | inl absent ↦ rw (at_or_insert_missing k [] m absent) (
      rw absent (
        refl,
        find-insert k k [] m absent ∙ rw ((str_eq_iff k k).1 refl),
        λ j other. find-insert j k [] m absent ∙ rw other,
      ))
  | inr (v, here) ↦ rw (at_or_insert_found k [] v m here) (rw here (refl, refl, λ j other. refl))
]

-- After `set`, `get` of the name gives the text of the value, and `get` of another name gives what it
-- gave before.
pub get-set :
    {Json : Type 0} (dump : Json → Str) (name other : Str) (value : Json) (r : ApiResources)
    → (get other (set dump name value r)).0
      ≡ (if str_eq other name then dump value else (get other r).0)
unfolding get set
get-set dump name other value r =
    let m = r.resources in
    let (_, there, others) = at_or_insert-found name m in
    let kept = (at_or_insert name [] m).1 in
    let after = find-update other name (dump value) _ kept there in
    let first = (at_or_insert-found other (update name (dump value) kept)).0 in
    elim (Bool-cases (str_eq other name)) [
      | inl same ↦
          let written : find other (update name (dump value) kept) ≡ some (dump value) =
            after ∙ rw same in
          first ∙ ap found written ∙ rw same
      | inr differs ↦
          let left : find other (update name (dump value) kept) ≡ find other m =
            after ∙ rw differs (others other differs) in
          first ∙ ap found left ∙ sym ((at_or_insert-found other m).0) ∙ rw differs
    ]
