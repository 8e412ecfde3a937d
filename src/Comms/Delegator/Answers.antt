-- ===== src/Comms/Delegator/Answers.antt =====
-- comms/delegator.cpp: what the answers to requests should be. `IsValue` says which texts a job
-- of a type may give on a content.
pub mod Slots
pub mod Opening
pub mod Filling
use stateline.Prelude.{
  ℕ, Bool, ◌+◌, ◌≡◌, true, false, not, ◌&&◌, List, [], ◌∷◌, Option, none, some, length, get_elem?,
  All, ◌==◌, if◌then◌else◌, ok,
}
use mathlib.Core.List.{Memᴰ}
use stateline.Std.Key.{Str, str_eq, str_key}
use stateline.Std.Map.{find}
use stateline.Std.Map.Laws.{sum_values}
use stateline.Common.Text.{split_set}
use stateline.Comms.Messages.{Address, Message}
use stateline.Comms.Delegator.State.{Job, Request, Delegator, frame}
use stateline.Comms.Delegator.Handlers.{transform_types}
use stateline.Comms.Delegator.Count.{Weight, count}
use stateline.Comms.Delegator.Keeping.{replies}

-- One of the REQUEST messages comes from the address and asks for the types on the content, with
-- so many texts that name a type.
pub record IsAsked (asked : List Message) (address : Address) (types : List ℕ) (content : Str)
    (slots : ℕ) : Type 0 where
  pub question : Message
  pub listed : Memᴰ question asked
  pub same_address : address ≡ question.address
  pub text : Str
  pub first : frame question.frames 0 ≡ ok text
  pub types_read : transform_types (split_set text b':') [] ≡ ok types
  pub second : frame question.frames 1 ≡ ok content
  pub same_slots : slots ≡ length (split_set text b':')

abbrev pub holds_type : ℕ → Option ℕ → Bool
holds_type t none = false
holds_type t (some u) = t == u

-- The jobs of a request whose type is not the one that the request has at their index.
abbrev pub mistyped : Str → List ℕ → Weight
mistyped id types j =
    if str_eq j.requester_id id && not (holds_type j.type (get_elem? types j.requester_index))
    then 1
    else 0

-- The jobs of a request with one index.
abbrev pub at_slot : Str → ℕ → Weight
at_slot id i j = if str_eq j.requester_id id && j.requester_index == i then 1 else 0

abbrev pub sum_messages : (Address → ℕ) → List Message → ℕ
sum_messages p [] = 0
sum_messages p (m ∷ ms) = p m.address + sum_messages p ms

module _ (IsValue : ℕ → Str → Str → Type 0) (asked : List Message) where
  -- A pending request: a slot whose job is no longer held has a value of its type.
  pub record RightRequest (s : Delegator) (id : Str) (r : Request) : Type 0 where
    pub source : IsAsked asked r.address r.job_types r.content (length r.results)
    pub typed : count (mistyped id r.job_types) s ≡ 0
    pub right :
        (i t : ℕ)
        → get_elem? r.job_types i ≡ some t
        → count (at_slot id i) s ≡ 0
        → (text : Str) × (get_elem? r.results i ≡ some text) × IsValue t r.content text

  -- An answer: the frame of each type that was asked for has a value of the type.
  pub record RightAnswer (m : Message) : Type 0 where
    pub types : List ℕ
    pub content : Str
    pub source : IsAsked asked m.address types content (length m.frames)
    pub right :
        (i t : ℕ)
        → get_elem? types i ≡ some t
        → (text : Str) × (get_elem? m.frames i ≡ some text) × IsValue t content text

  -- The messages `asked` came in, and every answer that went out is right; each address has as
  -- many answers and pending requests as it sent requests.
  pub record IsRight (s : Delegator) : Type 0 where
    pub requests_right :
        (id : Str) (r : Request) → find id s.requests ≡ some r → RightRequest s id r
    pub answers_right : All RightAnswer (replies s.sent)
    pub conserved :
        (p : Address → ℕ)
        → sum_messages p (replies s.sent) + sum_values (λ (r : Request). p r.address) s.requests
          ≡ sum_messages p asked
