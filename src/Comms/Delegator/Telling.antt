-- ===== src/Comms/Delegator/Telling.antt =====
-- The jobs in progress and the JOB messages that were sent for them.
use stateline.Prelude.{
  ◌≡◌, refl, sym, ap, ◌∙◌, inl, inr, Bool-cases, List, [], ◌++◌, none, some, arith,
}
use mathlib.Core.List.Memᴰ
use stateline.Std.Key.{Str, str_eq, str_key}
use stateline.Std.Map.{Map, find, insert, update, erase}
use stateline.Std.Map.Order.{IsSorted, find-erase_self}
use stateline.Std.Map.Laws.{find-insert, find-update, find-erase_ne}
use stateline.Comms.Delegator.State.{Job, Request, Worker, Delegator, Sent, to_network}
use stateline.Comms.Delegator.Polling.{job_message}
use stateline.Comms.Delegator.Count.{AllTold}

-- No worker has a job in progress that it did not have before.
abbrev pub NoNewWork : Map Str Worker → Map Str Worker → Type 0
NoNewWork ws ws' =
    (k job_id : Str) (w' : Worker) (j : Job)
    → find k ws' ≡ some w'
    → find job_id w'.work_in_progress ≡ some j
    → (w : Worker) × (find k ws ≡ some w)
      × (find job_id w.work_in_progress ≡ some j)
      × (w'.address ≡ w.address)

pub NoNewWork-same : (ws : Map Str Worker) → NoNewWork ws ws
NoNewWork-same ws k job_id w j e f = (w, e, f, refl)

-- What is left after an erasure was there before.
pub find-of_erase :
    {V : Type 0} (i k : Str) (v : V) (m : Map Str V)
    → IsSorted m
    → find i (erase k m) ≡ some v
    → find i m ≡ some v
find-of_erase i k v m sorted e = elim (Bool-cases (str_eq i k)) [
  | inl same ↦
      let i_k = (str_key.eq_iff i k).0 same in
      let gone = find-erase_self k m sorted in absurd (cc (rw i_k at e, gone))
  | inr other ↦ sym (find-erase_ne i k m other) ∙ e
]

pub NoNewWork-insert :
    (k : Str) (u : Worker) (ws : Map Str Worker)
    → find k ws ≡ none
    → u.work_in_progress ≡ []
    → NoNewWork ws (insert k u ws)
unfolding find
NoNewWork-insert k u ws q idle i job_id w j e f =
    let found = rw (find-insert i k u ws q) at e in
    elim (Bool-cases (str_eq i k)) [
      | inl same ↦
          let same_w : u ≡ w = ground (arith, rw same at found) in
          let nothing : find job_id u.work_in_progress ≡ none = ap (find job_id) idle in
          absurd (cc (nothing, rw (← same_w) at f))
      | inr other ↦ (w, rw other at found, f, refl)
    ]

pub NoNewWork-erase : (k : Str) (ws : Map Str Worker) → IsSorted ws → NoNewWork ws (erase k ws)
NoNewWork-erase k ws sorted i job_id w j e f = (w, find-of_erase i k w ws sorted e, f, refl)

pub NoNewWork-update :
    (k job_id : Str) (u w : Worker) (ws : Map Str Worker)
    → find k ws ≡ some w
    → u.address ≡ w.address
    → u.work_in_progress ≡ erase job_id w.work_in_progress
    → IsSorted w.work_in_progress
    → NoNewWork ws (update k u ws)
NoNewWork-update k job_id u w ws q same_address less sorted i n w' j e f =
    let found = rw (find-update i k u w ws q) at e in
    elim (Bool-cases (str_eq i k)) [
      | inl same ↦
          let same_w : u ≡ w' = ground (arith, rw same at found) in
          let i_k = (str_key.eq_iff i k).0 same in
          let f' : find n u.work_in_progress ≡ some j = rw (← same_w) at f in
          let kept : find n (erase job_id w.work_in_progress) ≡ some j =
            sym (ap (find n) less) ∙ f' in
          (
            w,
            rw i_k q,
            find-of_erase n job_id j w.work_in_progress sorted kept,
            rw (← same_w) same_address,
          )
      | inr other ↦ (w', rw other at found, f, refl)
    ]

pub AllTold-of_NoNewWork :
    (s s' : Delegator) (more : List Sent)
    → AllTold s
    → NoNewWork s.workers s'.workers
    → s'.sent ≡ s.sent ++ more
    → ((k job_id : Str) (w : Worker) (j : Job) (r' : Request)
        → find k s.workers ≡ some w
        → find job_id w.work_in_progress ≡ some j
        → find j.requester_id s'.requests ≡ some r'
        → (r : Request) × (find j.requester_id s.requests ≡ some r) × (r'.content ≡ r.content))
    → AllTold s'
AllTold-of_NoNewWork s s' more told before sent known k job_id w' j r' e f q =
    let (w, e', f', same_address) = before k job_id w' j e f in
    let (r, q', same_content) = known k job_id w j r' e' f' q in
    let same_message : to_network (job_message w' j r'.content)
        ≡ to_network (job_message w j r.content) =
      cc in
    rw sent (Memᴰ.cast same_message (Memᴰ.append_left more (told k job_id w j r e' f' q')))

-- The same requests.
pub known_of_same :
    (s s' : Delegator)
    → s'.requests ≡ s.requests
    → (k job_id : Str) (w : Worker) (j : Job) (r' : Request) → find k s.workers ≡ some w
    → find job_id w.work_in_progress ≡ some j
    → find j.requester_id s'.requests ≡ some r'
    → (r : Request) × (find j.requester_id s.requests ≡ some r) × (r'.content ≡ r.content)
known_of_same s s' e k job_id w j r' f g q = (r', rw e at q, refl)
