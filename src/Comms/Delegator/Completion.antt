-- ===== src/Comms/Delegator/Completion.antt =====
-- The answer to each message of a run in which no job is outstanding.
use stateline.Prelude.{
  ℕ, ◌≤◌, ◌≡◌, ◌↔◌, refl, inl, inr, Bool, Bool-cases, true, false, ◌&&◌, List, [], ◌∷◌, arith,
  if◌then◌else◌,
}
use mathlib.Core.List.{Memᴰ}
use stateline.Std.Key.{Str, str_eq, str_key}
use stateline.Comms.Messages.{Address, Message}
use stateline.Comms.Delegator.State.{Delegator, Zmq}
use stateline.Comms.Delegator.Count.{count}
use stateline.Comms.Delegator.Keeping.{replies}
use stateline.Comms.Delegator.Events.{AcceptsAll}
use stateline.Comms.Delegator.Answers.{sum_messages}
use stateline.Comms.Delegator.Runs.{Run, each, all_answered}

same_address : Address → Address → Bool
same_address [] [] = true
same_address [] (y ∷ ys) = false
same_address (x ∷ xs) [] = false
same_address (x ∷ xs) (y ∷ ys) = str_eq x y && same_address xs ys

same_address_iff : (xs ys : Address) → (same_address xs ys ≡ true) ↔ (xs ≡ ys)
unfolding same_address
same_address_iff [] [] = (λ _. refl, λ _. refl)
same_address_iff [] (y ∷ ys) = (λ e. cc, λ e. cc)
same_address_iff (x ∷ xs) [] = (λ e. cc, λ e. cc)
same_address_iff (x ∷ xs) (y ∷ ys) = ground (arith, same_address_iff xs ys, str_key.eq_iff x y)

at_address : Address → Address → ℕ
at_address a b = if same_address b a then 1 else 0

sum_messages-pos :
    (q : Message) (ms : List Message) → Memᴰ q ms → 1 ≤ sum_messages (at_address q.address) ms
unfolding at_address
sum_messages-pos q [] d = elim d [ ]
sum_messages-pos q (m ∷ ms) (Memᴰ.head e) =
    let self : same_address m.address q.address ≡ true =
      (same_address_iff m.address q.address).1 (ground (arith, e)) in
    rw self (omega arith)
sum_messages-pos q (m ∷ ms) (Memᴰ.tail d) = omega (arith, sum_messages-pos q ms d)

-- A message that is counted at an address.
find_message :
    (a : Address) (ms : List Message)
    → 1 ≤ sum_messages (at_address a) ms
    → (m : Message) × Memᴰ m ms × (m.address ≡ a)
unfolding at_address
find_message a [] h = absurd (omega arith)
find_message a (m ∷ ms) h = elim (Bool-cases (same_address m.address a)) [
  | inl same ↦ (m, Memᴰ.head refl, (same_address_iff m.address a).0 same)
  | inr other ↦
      let (m', d, e) = find_message a ms (omega (arith, rw other at h)) in (m', Memᴰ.tail d, e)
]

-- When no job is queued or in progress, each REQUEST message of the run has an answer at its
-- address.
pub answer_sent :
    (IsValue : ℕ → Str → Str → Type 0) {zmq : Zmq} {n_job_types c : ℕ} {asked : List Message}
    {s : Delegator} (q : Message)
    → AcceptsAll zmq
    → Run IsValue zmq n_job_types c asked s
    → count each s ≡ 0
    → Memᴰ q asked
    → (m : Message) × Memᴰ m (replies s.sent) × (m.address ≡ q.address)
answer_sent IsValue {asked} {s} q z run idle listed = find_message q.address (replies s.sent) (
    omega (
      arith,
      (all_answered IsValue z run idle).1 (at_address q.address),
      sum_messages-pos q asked listed,
    ))
