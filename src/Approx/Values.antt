-- ===== src/Approx/Values.antt =====
-- The walk over an ordering (src/approx.rs, src/approx_large.rs) with no cache in sight, and that the
-- estimators' ways to get values do the same.
use causasv.Prelude.{ℕ, ◌<◌, ◌≡◌, refl, List, [], ◌∷◌, count}
use causasv.Error.{Result, ok}
use causasv.Numerics.{Float}
use causasv.Approx.{SampledOrdering, Evaluator, walk, add_sample, each}

-- An ordering of nodes below `n`.
abbrev pub IsBelow : ℕ → List ℕ → Type 0
IsBelow n ordering = (i : ℕ) → 0 < count i ordering → i < n

module _ {S : Type 0} (grow : S → ℕ → S) where
  -- Every coalition on the way has the property.
  abbrev pub Along : (S → Type 0) → S → List ℕ → Type 0
  Along Q coalition [] = Q coalition
  Along Q coalition (node ∷ rest) = Q coalition × Along Q (grow coalition node) rest

  pub Along-first :
      (Q : S → Type 0) (coalition : S) (ordering : List ℕ)
      → Along Q coalition ordering
      → Q coalition
  Along-first Q coalition [] h = h
  Along-first Q coalition (node ∷ rest) h = h.0

  pub all_Along :
      (Q : S → Type 0)
      → ((coalition : S) → Q coalition)
      → (coalition : S) (ordering : List ℕ) → Along Q coalition ordering
  all_Along Q all coalition [] = all coalition
  all_Along Q all coalition (node ∷ rest) =
      (all coalition, all_Along Q all (grow coalition node) rest)

module _ (fl : Float) where
  open fl use {F, sub, exp, neg}

  abbrev pub Below : ℕ → List (SampledOrdering fl) → Type 0
  Below n [] = Unit
  Below n (s ∷ samples) = IsBelow n s.ordering × Below n samples

  module _ {S E : Type 0} (grow : S → ℕ → S) (value : S → F) where
    abbrev pub visit : (ℕ → F → E → E) → S → List ℕ → E → E
    visit tally coalition [] e = e
    visit tally coalition (node ∷ rest) e =
        let with_node = grow coalition node in
        visit tally with_node rest (tally node (sub (value with_node) (value coalition)) e)

    -- What one sample adds to the sums.
    abbrev pub sample_sums : S → (F → E → E) → (F → ℕ → F → E → E) → F → List ℕ → E → E
    sample_sums start weigh tally w ordering e = visit (tally w) start ordering (weigh w e)

    -- If `ask` answers with the values, the walk is a visit, and keeps what holds of the cache.
    module _ {C : Type 0} (ask : S → C → Result (F × C)) (P : C → Type 0) (Q : S → Type 0)
        (sound : (coalition : S) (cache : C)
          → Q coalition
          → P cache
          → (cache' : C) × (ask coalition cache ≡ ok (value coalition, cache')) × P cache') where
      walk-visit :
          (tally : ℕ → F → E → E) (coalition : S) (ordering : List ℕ) (e : E) (cache : C)
          → Along grow Q coalition ordering
          → P cache
          → (cache' : C) × (walk fl grow ask tally coalition (value coalition) ordering e cache
              ≡ ok (visit tally coalition ordering e, cache'))
            × P cache'
      unfolding walk
      walk-visit tally coalition [] e cache along good = (cache, refl, good)
      walk-visit tally coalition (node ∷ rest) e cache along good =
          let with_node = grow coalition node in
          let (cache₁, run₁, good₁) =
            sound with_node cache (Along-first grow Q with_node rest along.1) good in
          let (cache₂, run₂, good₂) =
            walk-visit tally with_node rest (tally node (sub (value with_node) (value coalition)) e)
              cache₁ along.1 good₁ in
          (cache₂, rw run₁ run₂, good₂)

      pub add_sample-sums :
          (start : S) (weigh : F → E → E) (tally : F → ℕ → F → E → E) (w : F) (ordering : List ℕ)
          (e : E) (cache : C)
          → Along grow Q start ordering
          → P cache
          → (cache' : C) × (add_sample fl grow ask start weigh tally w ordering e cache
              ≡ ok (sample_sums start weigh tally w ordering e, cache'))
            × P cache'
      unfolding add_sample
      add_sample-sums start weigh tally w ordering e cache along good =
          let (cache₁, run₁, good₁) =
            sound start cache (Along-first grow Q start ordering along) good in
          let (cache₂, run₂, good₂) =
            walk-visit (tally w) start ordering (weigh w e) cache₁ along good₁ in
          (cache₂, rw run₁ run₂, good₂)

  module _ {E : Type 0} (one : F → List ℕ → E → E) where
    -- The sums after a list of samples.
    abbrev pub add_each : F → List (SampledOrdering fl) → E → E
    add_each top [] e = e
    add_each top (s ∷ samples) e =
        add_each top samples (one (exp (sub (neg s.log_q) top)) s.ordering e)

    module _ {C : Type 0} (P : C → Type 0) where
      -- An evaluator that adds what `one` adds, on orderings of nodes below `n`.
      abbrev pub Adds : ℕ → Evaluator fl E C → Type 0
      Adds n add_one =
          (w : F) (ordering : List ℕ) (e : E) (cache : C)
          → IsBelow n ordering
          → P cache
          → (cache' : C) × (add_one w ordering e cache ≡ ok (one w ordering e, cache')) × P cache'

      -- The same for a batch of samples.
      abbrev pub Evaluates : ℕ → (F → List (SampledOrdering fl) → E → C → Result (E × C)) → Type 0
      Evaluates n evaluate =
          (top : F) (samples : List (SampledOrdering fl)) (e : E) (cache : C)
          → Below n samples
          → P cache
          → (cache' : C) × (evaluate top samples e cache ≡ ok (add_each top samples e, cache'))
            × P cache'

      pub each-Evaluates :
          (n : ℕ) (add_one : Evaluator fl E C) → Adds n add_one → Evaluates n (each fl add_one)
      unfolding each
      each-Evaluates n add_one adds top [] e cache below good = (cache, refl, good)
      each-Evaluates n add_one adds top (s ∷ samples) e cache below good =
          let w = exp (sub (neg s.log_q) top) in
          let (cache₁, run₁, good₁) = adds w s.ordering e cache below.0 good in
          let (cache₂, run₂, good₂) =
            each-Evaluates n add_one adds top samples (one w s.ordering e) cache₁ below.1 good₁ in
          (cache₂, rw run₁ run₂, good₂)
