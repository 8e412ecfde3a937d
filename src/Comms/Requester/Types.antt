-- ===== src/Comms/Requester/Types.antt =====
-- The job types of a request, from the list that the requester joins to the set that the delegator
-- reads.
use stateline.Prelude.{
  ℕ, suc, ◌+◌, ◌≤◌, ◌<◌, ◌≡◌, refl, sym, ap, ◌∙◌, true, false, ◌||◌, List, [], ◌∷◌, arith, length,
  foldl, All, int_max, wrap, ok,
}
use stateline.Std.Key.{Str, str_key, nat_key}
use stateline.Std.Map.{set_insert}
use stateline.Std.Decimal.{to_string}
use stateline.Std.Decimal.RoundTrip.{stoi-to_string, to_string_no_colon, to_string-ne-nil}
use stateline.Common.Text.{join_str, split_set}
use stateline.Common.Text.RoundTrip.{
  Without, EndsFull, between, join_str-between, split_str-between,
}
use stateline.Comms.Delegator.Handlers.{transform_types}
use stateline.Comms.Requester.TypeSets.{
  has, IsRising, IsRising-unique, has-set_insert, set_insert-IsRising, insert_text, texts,
  set_insert-texts, has-insert_text, length-insert_text,
}

-- The texts of more types, inserted one after the other.
gather : List ℕ → List ℕ → List ℕ
gather s [] = s
gather s (t ∷ ts) = gather (insert_text t s) ts

foldl-texts :
    (s ts : List ℕ) → foldl (λ out x. set_insert x out) (texts s) (texts ts) ≡ texts (gather s ts)
unfolding gather
foldl-texts s [] = refl
foldl-texts s (t ∷ ts) =
    ap (λ out. foldl (λ out x. set_insert x out) out (texts ts)) (set_insert-texts t s)
    ∙ foldl-texts (insert_text t s) ts

has-gather : (n : ℕ) (s ts : List ℕ) → has n (gather s ts) ≡ has n s || has n ts
unfolding gather
has-gather n s [] = ground arith
has-gather n s (t ∷ ts) = ground (arith, has-gather n (insert_text t s) ts, has-insert_text n t s)

-- A list that rises has no type twice.
above_head : (n t : ℕ) (ts : List ℕ) → All (λ y. t < y) ts → has n ts ≡ true → t < n
above_head n t [] h e = cc
above_head n t (u ∷ ts) h e = ground (arith, above_head n t ts h.1)

length-gather :
    (s ts : List ℕ)
    → IsRising ts
    → ((n : ℕ) → has n ts ≡ true → has n s ≡ false)
    → length (gather s ts) ≡ length s + length ts
unfolding gather
length-gather s [] r h = omega arith
length-gather s (t ∷ ts) r h =
    let apart : (n : ℕ) → has n ts ≡ true → has n (insert_text t s) ≡ false =
      λ n e. ground (arith, h n, has-insert_text n t s, above_head n t ts r.0 e) in
    omega (
      arith,
      length-gather (insert_text t s) ts r.1 apart,
      length-insert_text t s (ground (arith, h t)),
    )

-- The loop over the texts gives the set of their numbers.
transform_types-texts :
    (ts acc : List ℕ)
    → ((n : ℕ) → has n ts ≡ true → n ≤ int_max)
    → IsRising acc
    → (r : List ℕ) × (transform_types (texts ts) acc ≡ ok r)
      × IsRising r
      × ((n : ℕ) → has n r ≡ has n acc || has n ts)
unfolding transform_types
transform_types-texts [] acc small rising = (acc, refl, rising, λ n. ground arith)
transform_types-texts (t ∷ ts) acc small rising =
    let small_t : t ≤ int_max = ground (arith, small t) in
    let fits : wrap t ≡ t = omega (arith, small_t) in
    let (r, e, up, same) =
      transform_types-texts ts (set_insert t acc) (λ n h. ground (arith, small n))
        (set_insert-IsRising t acc rising) in
    (
      r,
      rw (stoi-to_string t small_t) (rw fits e),
      up,
      λ n. ground (arith, same n, has-set_insert n t acc),
    )

texts-Without : (ts : List ℕ) → All (Without b':') (texts ts)
texts-Without [] = tt
texts-Without (t ∷ ts) = (to_string_no_colon t, texts-Without ts)

texts-EndsFull : (t : ℕ) (ts : List ℕ) → EndsFull (to_string t) (texts ts)
texts-EndsFull t [] = to_string-ne-nil t
texts-EndsFull t (u ∷ ts) = texts-EndsFull u ts

split_set-texts :
    (t : ℕ) (ts : List ℕ)
    → split_set (between b':' (to_string t) (texts ts)) b':' ≡ texts (gather [] (t ∷ ts))
unfolding split_set
split_set-texts t ts =
    split_str-between (λ out x. set_insert x out) [] b':' (to_string t) (texts ts)
      (texts-Without (t ∷ ts)) (texts-EndsFull t ts)
    ∙ foldl-texts [] (t ∷ ts)

length-texts : (ts : List ℕ) → length (texts ts) ≡ length ts
length-texts [] = refl
length-texts (t ∷ ts) = ap suc (length-texts ts)

-- The types of a request that rise and fit an `int` come out of the delegator's sets as they were
-- joined by the requester, with one slot for each.
pub transform_types-join_str :
    (t : ℕ) (ts : List ℕ)
    → IsRising (t ∷ ts)
    → ((n : ℕ) → has n (t ∷ ts) ≡ true → n ≤ int_max)
    → (text : Str) × (join_str (texts (t ∷ ts)) (b':' ∷ []) ≡ ok text)
      × (transform_types (split_set text b':') [] ≡ ok (t ∷ ts))
      × (length (split_set text b':') ≡ length (t ∷ ts))
transform_types-join_str t ts rising small =
    let types = t ∷ ts in
    let met : (n : ℕ) → has n (gather [] types) ≡ has n types = λ n. has-gather n [] types in
    let (r, e, up, same) =
      transform_types-texts (gather [] types) [] (λ n h. small n (sym (met n) ∙ h)) tt in
    let all : r ≡ types = IsRising-unique r types up rising (λ n. same n ∙ met n) in
    let split = split_set-texts t ts in
    (
      between b':' (to_string t) (texts ts),
      join_str-between b':' (to_string t) (texts ts),
      rw split (e ∙ ap ok all),
      rw split (
          omega
            (arith, length-texts (gather [] types), length-gather [] types rising (λ n h. refl))),
    )
