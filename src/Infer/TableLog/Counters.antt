-- ===== src/Infer/TableLog/Counters.antt =====
-- The counters of the table log: the sizes of its vectors, and the rates that it prints.
use stateline.Prelude.{
  ℕ, ◌+◌, ◌*◌, ◌≤◌, ◌<◌, ◌≡◌, refl, ◌∙◌, ap, ◌==◌, Bool, true, false, List, arith, length,
  if◌then◌else◌, length-replicate, uint_mod, wrap, ok, Returns, Returns-ok, Returns-bind,
}
use mathlib.Core.Path.{subst}
use stateline.Std.Vector.{at, at-put, length-put, Returns-at, Returns-put}
use stateline.Infer.Doubles.{Doubles}
use stateline.Infer.ChainArray.State.{State, SwapType, no_attempt, accept, reject}
use stateline.Infer.Sampler.{is_accept}
use stateline.Infer.Diagnostics.Counts.{
  HasColumns, create-HasColumns, update-Counted, Counted, HasRoom,
}
use stateline.Infer.Diagnostics
use stateline.Infer.TableLog.{TableLogger, add_at, as_uint, is_attempt, update}
use stateline.Infer.TableLog

-- A vector of `uint` to whose entry `id` the number `n` was added, and whose other entries stayed.
pub record Added (v : List ℕ) (id n : ℕ) (v' : List ℕ) : Type 0 where
  pub length_same : length v' ≡ length v
  pub at_each :
      (j old : ℕ) → at v j ≡ ok old → at v' j ≡ ok (if id == j then wrap (old + n) else old)

Returns-add_at : (v : List ℕ) (id n : ℕ) → id < length v → Returns (Added v id n) (add_at v id n)
unfolding add_at
Returns-add_at v id n inside = Returns-bind _ _ (Returns-at v id inside) (λ old e.
    let p = Returns-put v id (wrap (old + n)) inside in
    record {
      value = p.value;
      run = p.run;
      holds = record {
        length_same = length-put v p.value id _ p.run;
        at_each = λ j old' e'. ground (arith, at-put v p.value id j (wrap (old + n)) p.run, e, e');
      };
    })

-- The rates that are printed for a chain are fractions: at most as many states were accepted as there
-- are, and fewer swaps than attempts, which start at one.
pub record HasFractions (id : ℕ) (lengths n_accepts n_swaps n_swap_attempts : List ℕ) : Type 0 where
  pub len : ℕ
  pub accepts : ℕ
  pub swaps : ℕ
  pub attempts : ℕ
  pub length_at : at lengths id ≡ ok len
  pub accepts_at : at n_accepts id ≡ ok accepts
  pub swaps_at : at n_swaps id ≡ ok swaps
  pub attempts_at : at n_swap_attempts id ≡ ok attempts
  pub accepts_le : accepts ≤ len
  pub swaps_lt : swaps < attempts
  pub attempts_le : attempts ≤ len

abbrev after : (id j old n : ℕ) → ℕ
after id j old n = if id == j then old + n else old

Added-at :
    (v v' : List ℕ) (id j n old : ℕ)
    → Added v id n v'
    → at v j ≡ ok old
    → old + n < uint_mod
    → at v' j ≡ ok (after id j old n)
Added-at v v' id j n old a e small =
    a.at_each j old e ∙ ap (λ x. ok (if id == j then x else old)) (omega (arith, small))

-- A state adds one to a length, and at most one to the other counts; a swap comes with an attempt.
fractions_lem :
    (id j accepted swapped attempted : ℕ)
    (lengths n_accepts n_swaps n_swap_attempts lengths' n_accepts' n_swaps' n_swap_attempts' : List
      ℕ)
    → accepted ≤ 1
    → swapped ≤ attempted
    → attempted ≤ 1
    → Added lengths id 1 lengths'
    → Added n_accepts id accepted n_accepts'
    → Added n_swaps id swapped n_swaps'
    → Added n_swap_attempts id attempted n_swap_attempts'
    → (h : HasFractions j lengths n_accepts n_swaps n_swap_attempts) → h.len + 1 < uint_mod
    → HasFractions j lengths' n_accepts' n_swaps' n_swap_attempts'
fractions_lem id j accepted swapped attempted lengths n_accepts n_swaps n_swap_attempts lengths'
      n_accepts' n_swaps' n_swap_attempts' one le one' a₁ a₂ a₃ a₄ h small =
    record {
      len = after id j h.len 1;
      accepts = after id j h.accepts accepted;
      swaps = after id j h.swaps swapped;
      attempts = after id j h.attempts attempted;
      length_at = Added-at lengths lengths' id j 1 h.len a₁ h.length_at small;
      accepts_at =
          Added-at n_accepts n_accepts' id j accepted h.accepts a₂ h.accepts_at
            (omega (arith, h.accepts_le, one, small));
      swaps_at =
          Added-at n_swaps n_swaps' id j swapped h.swaps a₃ h.swaps_at
            (omega (arith, h.swaps_lt, h.attempts_le, le, one', small));
      attempts_at =
          Added-at n_swap_attempts n_swap_attempts' id j attempted h.attempts a₄ h.attempts_at
            (omega (arith, h.attempts_le, one', small));
      accepts_le = ground (arith, h.accepts_le, one);
      swaps_lt = ground (arith, h.swaps_lt, le);
      attempts_le = ground (arith, h.attempts_le, one');
    }

-- How many swaps and attempts the note of a state stands for.
abbrev pub swaps_noted : SwapType → ℕ
swaps_noted no_attempt = 0
swaps_noted accept = 1
swaps_noted reject = 0

abbrev pub attempts_noted : SwapType → ℕ
attempts_noted no_attempt = 0
attempts_noted accept = 1
attempts_noted reject = 1

as_uint-if : (b : Bool) → as_uint b ≡ (if b then 1 else 0)
as_uint-if true = refl
as_uint-if false = refl

as_uint-is_accept : (t : SwapType) → as_uint (is_accept t) ≡ swaps_noted t
as_uint-is_accept no_attempt = refl
as_uint-is_accept accept = refl
as_uint-is_accept reject = refl

as_uint-is_attempt : (t : SwapType) → as_uint (is_attempt t) ≡ attempts_noted t
as_uint-is_attempt no_attempt = refl
as_uint-is_attempt accept = refl
as_uint-is_attempt reject = refl

as_uint_le : (b : Bool) → as_uint b ≤ 1
as_uint_le true = omega arith
as_uint_le false = omega arith

swap_counts : (b : SwapType) → as_uint (is_accept b) ≤ as_uint (is_attempt b)
swap_counts no_attempt = omega arith
swap_counts accept = omega arith
swap_counts reject = omega arith

module _ {F : Doubles} where
  -- An entry for each chain, and a column for each stack.
  pub record HasRows (nstacks ntemps : ℕ) (t : TableLogger F) : Type 0 where
    pub lengths_length : length t.lengths ≡ nstacks * ntemps
    pub min_length : length t.min_energies ≡ nstacks * ntemps
    pub energies_length : length t.energies ≡ nstacks * ntemps
    pub accepts_length : length t.n_accepts ≡ nstacks * ntemps
    pub swaps_length : length t.n_swaps ≡ nstacks * ntemps
    pub attempts_length : length t.n_swap_attempts ≡ nstacks * ntemps
    pub nchains_eq : t.diagnostic.nchains ≡ ntemps
    pub columns : HasColumns nstacks t.diagnostic

  pub create-HasRows :
      (nstacks ntemps ndims ms_refresh : ℕ)
      → nstacks * ntemps < uint_mod
      → HasRows nstacks ntemps (TableLog.create {F = F} nstacks ntemps ndims ms_refresh)
  unfolding TableLog.create Diagnostics.create
  create-HasRows nstacks ntemps ndims ms_refresh small =
      let n : wrap (nstacks * ntemps) ≡ nstacks * ntemps = omega (arith, small) in
      record {
        lengths_length = length-replicate _ _ ∙ n;
        min_length = length-replicate _ _ ∙ n;
        energies_length = length-replicate _ _ ∙ n;
        accepts_length = length-replicate _ _ ∙ n;
        swaps_length = length-replicate _ _ ∙ n;
        attempts_length = length-replicate _ _ ∙ n;
        nchains_eq = refl;
        columns = create-HasColumns nstacks ntemps ndims _;
      }

  -- What an update for the chain `id` leaves and changes. `accepted`, `swapped` and `attempted` are
  -- what it adds to the counts of accepted states, swaps and attempts.
  pub record Logged (nstacks ntemps id accepted swapped attempted : ℕ) (t t' : TableLogger F)
      : Type 0 where
    pub rows : HasRows nstacks ntemps t'
    pub lengths_added : Added t.lengths id 1 t'.lengths
    pub accepts_added : Added t.n_accepts id accepted t'.n_accepts
    pub swaps_added : Added t.n_swaps id swapped t'.n_swaps
    pub attempts_added : Added t.n_swap_attempts id attempted t'.n_swap_attempts
    pub counted : Counted nstacks id t.diagnostic t'.diagnostic
    pub fractions :
        (j : ℕ)
        → (h : HasFractions j t.lengths t.n_accepts t.n_swaps t.n_swap_attempts)
        → h.len + 1 < uint_mod
        → HasFractions j t'.lengths t'.n_accepts t'.n_swaps t'.n_swap_attempts

  -- `update` returns for every chain of a stack that has counted fewer than 2 ^ 31 - 1 samples, if
  -- the log has its sizes and stacks of at least one chain, and keeps the sizes of the vectors. It adds one to the chain's length, one to its accepted states if
  -- the state was accepted, one to its swaps if the state notes an accepted swap, and one to its
  -- attempts if it notes an accepted or a rejected swap, each modulo 2 ^ 32; the other chains' entries
  -- stay. The coldest chain's sample is counted. Counters that give fractions still do, for a chain
  -- whose length does not wrap around.
  pub update-Logged :
      (nstacks ntemps now id : ℕ) (s : State F) (t : TableLogger F)
      → 0 < ntemps
      → id < nstacks * ntemps
      → HasRows nstacks ntemps t
      → HasRoom id t.diagnostic
      → Returns
          (Logged nstacks ntemps id
            (if s.accepted then 1 else 0)
            (swaps_noted s.swap_type)
            (attempts_noted s.swap_type)
            t)
          (update now id s t)
  unfolding update
  update-Logged nstacks ntemps now id s t pos inside h room =
      let total : id < nstacks * t.diagnostic.nchains = rw h.nchains_eq inside in
      Returns-bind _ _ (Returns-add_at t.lengths id 1 (rw h.lengths_length inside)) (λ lengths a₁.
        Returns-bind _ _ (Returns-at t.min_energies id (rw h.min_length inside)) (λ least _.
          Returns-bind _ _ (Returns-put t.min_energies id _ (rw h.min_length inside))
            (λ min_energies p₁.
              Returns-bind _ _ (Returns-put t.energies id _ (rw h.energies_length inside))
                (λ energies p₂.
                  Returns-bind _ _
                    (Returns-add_at t.n_accepts id (as_uint s.accepted)
                      (rw h.accepts_length inside))
                    (λ n_accepts a₂.
                      Returns-bind _ _
                        (Returns-add_at t.n_swaps id (as_uint (is_accept s.swap_type))
                          (rw h.swaps_length inside))
                        (λ n_swaps a₃.
                          Returns-bind _ _
                            (Returns-add_at t.n_swap_attempts id (as_uint (is_attempt s.swap_type))
                              (rw h.attempts_length inside))
                            (λ n_swap_attempts a₄.
                              Returns-bind _ _
                                (update-Counted nstacks id s t.diagnostic (rw h.nchains_eq pos)
                                  total h.columns room)
                                (λ diagnostic c. Returns-ok _ (record {
                                  rows = record {
                                    lengths_length = a₁.length_same ∙ h.lengths_length;
                                    min_length =
                                        length-put t.min_energies min_energies _ _ p₁
                                        ∙ h.min_length;
                                    energies_length =
                                        length-put t.energies energies _ _ p₂ ∙ h.energies_length;
                                    accepts_length = a₂.length_same ∙ h.accepts_length;
                                    swaps_length = a₃.length_same ∙ h.swaps_length;
                                    attempts_length = a₄.length_same ∙ h.attempts_length;
                                    nchains_eq = c.nchains_same ∙ h.nchains_eq;
                                    columns = c.columns;
                                  };
                                  lengths_added = a₁;
                                  accepts_added =
                                      subst (λ n. Added t.n_accepts id n n_accepts)
                                        (as_uint-if s.accepted) a₂;
                                  swaps_added =
                                      subst (λ n. Added t.n_swaps id n n_swaps)
                                        (as_uint-is_accept s.swap_type) a₃;
                                  attempts_added =
                                      subst (λ n. Added t.n_swap_attempts id n n_swap_attempts)
                                        (as_uint-is_attempt s.swap_type) a₄;
                                  counted = c;
                                  fractions = λ j f small.
                                      fractions_lem id j _ _ _ t.lengths t.n_accepts t.n_swaps
                                        t.n_swap_attempts lengths n_accepts n_swaps n_swap_attempts
                                        (as_uint_le s.accepted) (swap_counts s.swap_type)
                                        (as_uint_le (is_attempt s.swap_type)) a₁ a₂ a₃ a₄ f small;
                                })))))))))
