-- ===== src/Comms/Delegator/Requesting.antt =====
-- `receiveRequest` for a request whose id is not pending: it queues one job for each job type.
use stateline.Prelude.{
  ℕ, suc, ◌+◌, ◌≤◌, ◌<◌, ◌≡◌, refl, sym, ◌∙◌, ◌⊎◌, inl, inr, false, List, [], ◌∷◌, ◌++◌,
  append_assoc, append-nil, arith, length, uint_mod, wrap, to_uint, ok, >>=-eq-ok, Bool-cases,
}
use stateline.Std.Key.{Str, str_eq, str_key, nat_key}
use stateline.Std.Map.{set_insert}
use stateline.Std.Decimal.{to_string, stoi}
use stateline.Std.Decimal.RoundTrip.{to_string_injective}
use stateline.Comms.Delegator.State.{Job, Delegator}
use stateline.Comms.Delegator.Handlers.{transform_types, enqueue_jobs}
use stateline.Comms.Delegator.Count.{sum_list, owned, named, beyond, str_eq_refl}

abbrev pub new_job : Str → ℕ → ℕ → ℕ → Job
new_job id idx next t = record {
  type = t;
  id = to_string next;
  requester_id = id;
  requester_index = idx;
  start_time = 0;
}

-- The jobs of a request: one for each type, with indices and ids that count up.
abbrev pub new_jobs : Str → ℕ → ℕ → List ℕ → List Job
new_jobs id idx next [] = []
new_jobs id idx next (t ∷ types) = new_job id idx next t ∷ new_jobs id (idx + 1) (next + 1) types

pub enqueue_jobs-new_jobs :
    (id : Str) (idx next : ℕ) (types : List ℕ) (s : Delegator)
    → s.next_job_id ≡ next
    → idx + length types < uint_mod
    → next + length types < uint_mod
    → enqueue_jobs id idx types s ≡ record s {
      job_queue = s.job_queue ++ new_jobs id idx next types;
      next_job_id = next + length types;
    }
unfolding enqueue_jobs
enqueue_jobs-new_jobs id idx next [] s e h k =
    let end : next + 0 ≡ s.next_job_id = omega arith in rw (end, append-nil s.job_queue)
enqueue_jobs-new_jobs id idx next (t ∷ types) s e h k =
    let small_idx : wrap (idx + 1) ≡ idx + 1 = omega arith in
    let small_next : wrap (s.next_job_id + 1) ≡ next + 1 = omega arith in
    let total : next + 1 + length types ≡ next + suc (length types) = omega arith in
    rw (small_idx, small_next)
      (enqueue_jobs-new_jobs id (idx + 1) (next + 1) types _ refl (omega arith) (omega arith)
        ∙ rw (
          e,
          append_assoc s.job_queue (new_job id idx next t ∷ [])
              (new_jobs id (idx + 1) (next + 1) types),
          total,
        ))

pub sum_owned :
    (id : Str) (idx next : ℕ) (types : List ℕ)
    → sum_list (owned id) (new_jobs id idx next types) ≡ length types
sum_owned id idx next [] = refl
sum_owned id idx next (t ∷ types) =
    ground (arith, sum_owned id (idx + 1) (next + 1) types, str_eq_refl id)

pub sum_owned_other :
    (id other : Str) (idx next : ℕ) (types : List ℕ)
    → str_eq id other ≡ false
    → sum_list (owned other) (new_jobs id idx next types) ≡ 0
sum_owned_other id other idx next [] h = refl
sum_owned_other id other idx next (t ∷ types) h =
    ground (arith, sum_owned_other id other (idx + 1) (next + 1) types h)

pub sum_beyond :
    (id other : Str) (idx next n : ℕ) (types : List ℕ)
    → idx + length types ≤ n
    → sum_list (beyond other n) (new_jobs id idx next types) ≡ 0
sum_beyond id other idx next n [] h = refl
sum_beyond id other idx next n (t ∷ types) h =
    ground (arith, sum_beyond id other (idx + 1) (next + 1) n types)

pub sum_beyond_other :
    (id other : Str) (idx next n : ℕ) (types : List ℕ)
    → str_eq id other ≡ false
    → sum_list (beyond other n) (new_jobs id idx next types) ≡ 0
sum_beyond_other id other idx next n [] h = refl
sum_beyond_other id other idx next n (t ∷ types) h =
    ground (arith, sum_beyond_other id other (idx + 1) (next + 1) n types h)

-- No new job has the id, or exactly one has.
abbrev pub NamedOnce : Str → ℕ → ℕ → List Job → Type 0
NamedOnce i low high jobs =
    (sum_list (named i) jobs ≡ 0)
    ⊎ ((m : ℕ) × (i ≡ to_string m) × (low ≤ m) × (m < high) × (sum_list (named i) jobs ≡ 1))

pub sum_named :
    (i id : Str) (idx next : ℕ) (types : List ℕ)
    → NamedOnce i next (next + length types) (new_jobs id idx next types)
sum_named i id idx next [] = inl refl
sum_named i id idx next (t ∷ types) = elim (Bool-cases (str_eq (to_string next) i)) [
  | inl hit ↦ elim (sum_named i id (idx + 1) (next + 1) types) [
    | inl none_more ↦
        inr (next, sym ((str_key.eq_iff _ _).0 hit), omega arith, omega arith, rw hit (omega arith))
    | inr (m, e, low, high, once) ↦
        absurd (omega (arith, to_string_injective next m ((str_key.eq_iff _ _).0 hit ∙ e)))
  ]
  | inr miss ↦ elim (sum_named i id (idx + 1) (next + 1) types) [
    | inl none_more ↦ inl (rw miss (omega arith))
    | inr (m, e, low, high, once) ↦ inr (m, e, omega arith, omega arith, rw miss (omega arith))
  ]
]

length-set_insert : (k : ℕ) (s : List ℕ) → length (set_insert k s) ≤ suc (length s)
unfolding set_insert
length-set_insert k [] = omega arith
length-set_insert k (j ∷ s) = ground (arith, length-set_insert k s)

-- There are no more job types than texts that name them.
pub length-transform_types :
    (ts : List Str) (acc types : List ℕ)
    → transform_types ts acc ≡ ok types
    → length types ≤ length ts + length acc
unfolding transform_types
length-transform_types [] acc types e = ground arith
length-transform_types (t ∷ ts) acc types e =
    let (n, e₁, e₂) = >>=-eq-ok (stoi t) _ e in
    omega (
      arith,
      length-transform_types ts (set_insert (to_uint n) acc) types e₂,
      length-set_insert (to_uint n) acc,
    )
