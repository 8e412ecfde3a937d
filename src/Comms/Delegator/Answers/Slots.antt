-- ===== src/Comms/Delegator/Answers/Slots.antt =====
-- The jobs of a request by their types and slots.
use stateline.Comms.Delegator.Answers.{holds_type, mistyped, at_slot}
use stateline.Prelude.{
  ℕ, zero, suc, ◌+◌, ◌≤◌, ◌<◌, ◌≡◌, refl, ap, ◌∙◌, inl, inr, Bool-cases, Option, true, List, [],
  ◌∷◌, none, some, arith, length, get_elem?, ◌==◌,
}
use stateline.Std.Key.{Str, str_key}
use stateline.Comms.Delegator.State.{Job}
use stateline.Comms.Delegator.Count.{owned, sum_list, str_eq_refl}
use stateline.Comms.Delegator.Requesting.{new_jobs}

pub mistyped-le-owned : (id : Str) (types : List ℕ) (j : Job) → mistyped id types j ≤ owned id j
mistyped-le-owned id types j = ground arith

pub at_slot-le-owned : (id : Str) (i : ℕ) (j : Job) → at_slot id i j ≤ owned id j
at_slot-le-owned id i j = ground arith

-- The types of new jobs are those of the request.
pub sum_mistyped :
    (id : Str) (idx next : ℕ) (types ts : List ℕ)
    → ((i : ℕ) → get_elem? types (idx + i) ≡ get_elem? ts i)
    → sum_list (mistyped id types) (new_jobs id idx next ts) ≡ 0
sum_mistyped id idx next types [] h = refl
sum_mistyped id idx next types (t ∷ ts) h =
    let here : get_elem? types idx ≡ some t = ap (get_elem? types) (omega arith) ∙ h 0 in
    let rest =
      sum_mistyped id (idx + 1) (next + 1) types ts
        (λ i. ap (get_elem? types) (omega arith) ∙ h (suc i)) in
    rw here (ground (arith, rest))

-- Every slot of a new request has a job.
pub sum_at_slot :
    (id : Str) (idx next i : ℕ) (ts : List ℕ)
    → idx ≤ i
    → i < idx + length ts
    → 1 ≤ sum_list (at_slot id i) (new_jobs id idx next ts)
sum_at_slot id idx next i [] low high = absurd (omega arith)
sum_at_slot id idx next i (t ∷ ts) low high = elim (Bool-cases (idx == i)) [
  | inl here ↦ ground (arith, str_eq_refl id)
  | inr later ↦
      let rest = sum_at_slot id (idx + 1) (next + 1) i ts (ground arith) (omega arith) in
      omega (arith, rest)
]

pub get_elem?-lt : (types : List ℕ) (i t : ℕ) → get_elem? types i ≡ some t → i < length types
get_elem?-lt [] i t e = ground arith
get_elem?-lt (u ∷ types) zero t e = omega arith
get_elem?-lt (u ∷ types) (suc i) t e = omega (arith, get_elem?-lt types i t e)

holds_type-some : (t : ℕ) (o : Option ℕ) → holds_type t o ≡ true → o ≡ some t
holds_type-some t none h = cc
holds_type-some t (some u) h = ground arith

-- A job that is not mistyped has the type of its slot.
pub get_elem?-of_typed :
    (types : List ℕ) (j : Job)
    → mistyped j.requester_id types j ≡ 0
    → get_elem? types j.requester_index ≡ some j.type
get_elem?-of_typed types j h =
    holds_type-some j.type (get_elem? types j.requester_index)
      (ground (arith, str_eq_refl j.requester_id))
