-- ===== src/Infer/Sampler/Draining.antt =====
-- The loop of a sampler's `flush`: the results that are still to come.
use stateline.Prelude.{
  ℕ, zero, suc, ◌+◌, ◌*◌, ◌<◌, ◌≡◌, refl, ◌∙◌, sym, true, Option, some, List, [], ◌∷◌, arith,
  length, ◌==◌, uint_mod, wrap, ok, Returns, Returns-ok, Returns-bind, Returns-guard, ap,
  Bool-cases, inl, inr, ==_iff,
}
use mathlib.Core.Path.{subst}
use stateline.Std.Vector.{Returns-at}
use stateline.Infer.Doubles.{Doubles}
use stateline.Infer.ChainArray.State.{ChainArray, State, chain_length}
use stateline.Infer.ChainArray.Moves.{append}
use stateline.Infer.ChainArray.Appending.{Appended, append_ok}
use stateline.Infer.Sampler.{
  Sampler, retrieve, drain, is_member, total_energy, remove_one, drain_one,
}
use stateline.Infer.Sampler.Outstanding.{
  occurrences, is_member-occurrences, occurrences-is_member, occurrences-remove_one,
  length-remove_one,
}
use stateline.Infer.Sampler.Shows.{IsReady, inside_chains}
use stateline.Infer.Sampler.Refinement.{Appended-IsReady}

-- The lengths of the chains grow by the numbers of their batches, as long as they do not wrap around.
abbrev pub Grows : {F : Doubles} → (batches : List ℕ) (c c' : ChainArray F) → Type 0
Grows batches c c' =
    (j k : ℕ)
    → chain_length j c ≡ ok k
    → k + occurrences j batches < uint_mod
    → chain_length j c' ≡ ok (k + occurrences j batches)

-- Results whose texts are numbers, each with a draw and the time at which it is appended.
abbrev pub Results : Doubles → Type 0
Results F = List ((ℕ × List F.Real) × (F.Real × ℕ))

abbrev pub ids : (F : Doubles) → Results F → List ℕ
ids F [] = []
ids F (((id, factors), (u, now)) ∷ rest) = id ∷ ids F rest

abbrev pub as_read : (F : Doubles) → Results F → List ((ℕ × Option (List F.Real)) × (F.Real × ℕ))
as_read F [] = []
as_read F (((id, factors), (u, now)) ∷ rest) = ((id, some factors), (u, now)) ∷ as_read F rest

none_outstanding : (is : List ℕ) → ((j : ℕ) → 0 ≡ occurrences j is) → is ≡ []
none_outstanding [] h = refl
none_outstanding (i ∷ is) h = absurd (ground (arith, h i))

occurrences-first :
    (id j : ℕ) (is is' : List ℕ)
    → is_member id is ≡ true
    → is' ≡ remove_one id is
    → occurrences j is ≡ occurrences j (id ∷ []) + occurrences j is'
occurrences-first id j is is' here e = rw e (
    ground (
      arith,
      occurrences-remove_one id j is here,
      occurrences-is_member id is here,
      Bool-cases (id == j),
      ==_iff id j,
    ))

module _ {F : Doubles} (nstacks ntemps : ℕ) where
  -- What `flush` needs of a sampler.
  pub record IsDrainable (s : Sampler F) : Type 0 where
    pub ready : IsReady nstacks ntemps s.chains
    pub prop_length : length s.prop_states ≡ nstacks * ntemps
    pub below : (j : ℕ) → 0 < occurrences j s.outstanding → j < nstacks * ntemps

  -- After the append for the batch `id`.
  record Took (id : ℕ) (s s' : Sampler F) : Type 0 where
    drainable : IsDrainable s'
    outstanding_eq : s'.outstanding ≡ remove_one id s.outstanding
    mark_same : s'.have_flushed ≡ s.have_flushed
    grows : Grows (id ∷ []) s.chains s'.chains

  pub record Drained (s s' : Sampler F) : Type 0 where
    pub ready : IsReady nstacks ntemps s'.chains
    pub none_left : s'.outstanding ≡ []
    pub mark_same : s'.have_flushed ≡ s.have_flushed
    pub grows : Grows s.outstanding s.chains s'.chains

module _ {F : Doubles} (nstacks ntemps : ℕ) where
  Appended-Grows :
      (id : ℕ) (state : State F) (c c' : ChainArray F)
      → Appended id state c c'
      → Grows (id ∷ []) c c'
  Appended-Grows id state c c' a j k e small = elim (Bool-cases (id == j)) [
    | inl same ↦
        let fits : wrap (k + 1) ≡ k + 1 = ground (arith, same, small) in
        a.length_at j ∙ rw same (rw e (ap ok fits))
    | inr other ↦ a.length_at j ∙ rw other (e ∙ ap ok (omega arith))
  ]

  Returns-retrieve :
      (id : ℕ) (s : Sampler F)
      → is_member id s.outstanding ≡ true
      → Returns (λ s₁. s₁ ≡ record s { outstanding = remove_one id s.outstanding }) (retrieve id s)
  unfolding retrieve
  Returns-retrieve id s here = Returns-guard _ _ _ here (Returns-ok _ refl)

  Returns-appended :
      (u : F.Real) (now id : ℕ) (x : F.Vector) (energy : F.Real) (c : ChainArray F)
      → id < nstacks * ntemps
      → IsReady nstacks ntemps c
      → Returns
          (λ r. IsReady nstacks ntemps r.1 × Grows (id ∷ []) c r.1)
          (append u now id x energy c)
  Returns-appended u now id x energy c inside h =
      let (last, e) = h.has_state id inside in
      let (sigma, beta, c', es, eb, done) =
        append_ok u now id x energy last c h.shaped (inside_chains nstacks ntemps id c h inside)
          e in
      record {
        value = (_, c');
        run = done.0;
        holds =
            (Appended-IsReady nstacks ntemps id _ c c' h done.1, Appended-Grows id _ c c' done.1);
      }

  Returns-drain_one :
      (id : ℕ) (factors : List F.Real) (u : F.Real) (now : ℕ) (s : Sampler F)
      → IsDrainable nstacks ntemps s
      → is_member id s.outstanding ≡ true
      → Returns (Took nstacks ntemps id s) (drain_one ((id, some factors), (u, now)) s)
  unfolding drain_one
  Returns-drain_one id factors u now s h here =
      let inside = h.below id (occurrences-is_member id s.outstanding here) in
      let taken : Sampler F = record s { outstanding = remove_one id s.outstanding } in
      Returns-bind _ _ (Returns-retrieve id s here) (λ s₁ e. rw e (
        Returns-bind _ _ (Returns-at s.prop_states id (rw h.prop_length inside)) (λ x _.
          Returns-bind _ _
            (Returns-appended u now id x (total_energy F factors) s.chains inside h.ready)
            (λ appended p.
              Returns-ok (record taken { chains = appended.1 })
                (record {
                  drainable = record {
                    ready = p.0;
                    prop_length = h.prop_length;
                    below = λ j q.
                        h.below j
                          (ground (arith, occurrences-remove_one id j s.outstanding here, q));
                  };
                  outstanding_eq = refl;
                  mark_same = refl;
                  grows = p.1;
                })))))

  -- The loop, when the results are those of the outstanding batches.
  pub Returns-drain :
      (results : Results F) (n : ℕ) (s : Sampler F)
      → IsDrainable nstacks ntemps s
      → n ≡ length s.outstanding
      → ((j : ℕ) → occurrences j (ids F results) ≡ occurrences j s.outstanding)
      → Returns (Drained nstacks ntemps s) (drain n (as_read F results) s)
  unfolding drain
  Returns-drain [] n s h e same =
      let none = none_outstanding s.outstanding same in
      let zero_left : zero ≡ n = sym (e ∙ ap length none) in
      subst (λ m. Returns (Drained nstacks ntemps s) (drain m [] s)) zero_left
        (Returns-ok s (record {
          ready = h.ready;
          none_left = none;
          mark_same = refl;
          grows = λ j k l small. l ∙ ap ok (omega (arith, same j));
        }))
  Returns-drain (((id, factors), (u, now)) ∷ rest) n s h e same =
      let here : is_member id s.outstanding ≡ true =
        is_member-occurrences id s.outstanding (ground (arith, same id)) in
      let left = length (remove_one id s.outstanding) in
      let one_more : suc left ≡ n = omega (arith, e, length-remove_one id s.outstanding here) in
      subst
        (λ m.
          Returns (Drained nstacks ntemps s)
            (drain m (((id, some factors), (u, now)) ∷ as_read F rest) s))
        one_more
        (Returns-bind _ _ (Returns-drain_one id factors u now s h here) (λ s₁ took.
          let done =
            Returns-drain rest left s₁ took.drainable (sym (ap length took.outstanding_eq)) (λ j.
              let gone = ap (occurrences j) took.outstanding_eq in
              ground (arith, same j, gone, occurrences-remove_one id j s.outstanding here)) in
          record {
            value = done.value;
            run = done.run;
            holds = record {
              ready = done.holds.ready;
              none_left = done.holds.none_left;
              mark_same = done.holds.mark_same ∙ took.mark_same;
              grows = λ j k l small.
                  let total =
                    occurrences-first id j s.outstanding s₁.outstanding here took.outstanding_eq in
                  let once = took.grows j k l (omega (arith, small, total)) in
                  done.holds.grows j (k + occurrences j (id ∷ [])) once
                    (omega (arith, small, total))
                  ∙ ap ok (omega (arith, total));
            };
          }))
