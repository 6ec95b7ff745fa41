-- ===== src/Selection/Boundary.antt =====
-- nla-model-selection.mjs: what holds of every model that `rankModelCandidates` returns.
use next_level_agent.Base.{
  ℕ, ◌+◌, ◌≡◌, ◌≢◌, ◌⊎◌, refl, sym, ap, ◌∙◌, eq_iff, ◌==◌, Option, none, some, subst, String, true,
  false, ◌&&◌, List, [], ◌∷◌, select, All, All-append, inl, inr, Bool-cases, arith,
}
use next_level_agent.Base.Result.{ok, >>=-eq-ok, ok_injective}
use next_level_agent.Base.Sorting.{All-select, All-map, sort_by-All}
use next_level_agent.Base.Texts.{includes}
use next_level_agent.Selection.Policy.{
  Policy, quality, balanced, cost, local, free, is_free, is_local_model_binding, Preferences, Input,
  given, bounded_number, bad_minimum_score, selection_policy, is_boundary, filled, parse_policy,
  selection_preferences,
}
use next_level_agent.Selection.Pool.{
  Facts, is_auto, selection_mode, facts_in, static_availability, status_enabled, provider_disabled,
  listed_models,
}
use next_level_agent.Selection.Rank.{
  Candidate, is_none, health_for, rank_under, rank_balanced, quality_le, cost_le,
}
use next_level_agent.Selection.Candidates.{
  Task, Ranking, reasons_for, wants_local, wants_free, insufficient_context, candidate_at,
  candidates_from, is_eligible_candidate, ranking_of, rank_model_candidates,
}

-- A model that a task may try under a policy.
pub record IsAllowed (t : Task) (policy : Policy) (binding : String) : Type 0 where
  pub not_attempted : includes t.attempted binding ≡ false
  pub healthy : (health_for t.health binding t.endpoint t.now).eligible ≡ true
  pub enabled : status_enabled (facts_in t.pool binding).status ≡ true
  pub provider_on :
      (is_auto (selection_mode t.pool)
        && provider_disabled (facts_in t.pool binding).provider_status)
      ≡ false
  pub local_only :
      wants_local policy t.profile.policy ≡ true → is_local_model_binding binding ≡ true
  pub free_only :
      wants_free policy t.profile.policy ≡ true
      → is_free (facts_in t.pool binding).input_cost (facts_in t.pool binding).output_cost ≡ true
  pub on_schedule : static_availability (facts_in t.pool binding).availability t.now ≡ true
  pub fits :
      insufficient_context t.profile.context_window (facts_in t.pool binding).context_window ≡ false

module _ (t : Task) (policy : Policy) where
  reasons_for-IsAllowed :
      (b : String)
      → is_none
          (reasons_for t policy b (facts_in t.pool b) (health_for t.health b t.endpoint t.now))
        ≡ true
      → IsAllowed t policy b
  unfolding reasons_for is_none
  reasons_for-IsAllowed b h = record {
    not_attempted = ground arith;
    healthy = ground arith;
    enabled = ground arith;
    provider_on = ground arith;
    local_only = λ w. ground arith;
    free_only = λ w. ground arith;
    on_schedule = ground arith;
    fits = ground arith;
  }

  CandidateAllowed : Candidate → Type 0
  CandidateAllowed c = is_none c.reasons ≡ true → IsAllowed t policy c.binding

  candidates_from-CandidateAllowed :
      (i : ℕ) (bs : List String) → All CandidateAllowed (candidates_from t policy i bs)
  unfolding candidates_from CandidateAllowed candidate_at
  candidates_from-CandidateAllowed i [] = tt
  candidates_from-CandidateAllowed i (b ∷ bs) =
      (reasons_for-IsAllowed b, candidates_from-CandidateAllowed (i + 1) bs)

  eligible-CandidateAllowed :
      (cs : List Candidate)
      → All CandidateAllowed cs
      → All (λ c. IsAllowed t policy c.binding) (select is_eligible_candidate cs)
  unfolding CandidateAllowed
  eligible-CandidateAllowed [] h = tt
  eligible-CandidateAllowed (x ∷ xs) (p, h) = elim (Bool-cases (is_none x.reasons)) [
    | inl e ↦ rw e (p e, eligible-CandidateAllowed xs h)
    | inr e ↦ rw e (eligible-CandidateAllowed xs h)
  ]

rank_under-All :
    (P : Candidate → Type 0) (p : Policy) (minimum : ℕ) (cs : List Candidate)
    → All P cs
    → All P (rank_under p minimum cs)
unfolding rank_under rank_balanced
rank_under-All P quality minimum cs h = sort_by-All quality_le P cs h
rank_under-All P local minimum cs h = sort_by-All quality_le P cs h
rank_under-All P free minimum cs h = sort_by-All quality_le P cs h
rank_under-All P cost minimum cs h = sort_by-All cost_le P _ (All-select P _ cs h)
rank_under-All P balanced minimum cs h =
    All-append P _ _ (sort_by-All cost_le P _ (All-select P _ cs h))
      (sort_by-All quality_le P _ (All-select P _ cs h))

All-under {ℓ} :
    {A : Type 0} (P Q : A → Type ℓ) → ((a : A) → P a → Q a) → (xs : List A) → All P xs → All Q xs
All-under P Q f [] h = tt
All-under P Q f (x ∷ xs) (p, h) = (f x p, All-under P Q f xs h)

-- A policy that is a boundary holds of the model: `local`, or `free`.
abbrev pub InBoundary : Option String → String → Facts → Type 0
InBoundary policy b facts =
    ((policy ≢ some "local") ⊎ (is_local_model_binding b ≡ true))
    × ((policy ≢ some "free") ⊎ (is_free facts.input_cost facts.output_cost ≡ true))

pub other_text : (s w : String) → (s == w) ≡ false → some s ≢ some w
other_text s w h e = ground (arith, eq_iff s w)

pub boundary_of {ℓ} :
    {A : Type ℓ} (policy : Option String) (w : String)
    → (policy ≡ some w → A)
    → (policy ≢ some w) ⊎ A
boundary_of none w f = inl λ e. cc
boundary_of (some s) w f = elim (Bool-cases (s == w)) [
  | inl e ↦ inr (f (ap some ((eq_iff s w).0 e)))
  | inr e ↦ inl (other_text s w e)
]

task_wants_local :
    (p : Policy) (task : Option String) → task ≡ some "local" → wants_local p task ≡ true
unfolding wants_local
task_wants_local quality task e = rw e refl
task_wants_local balanced task e = rw e refl
task_wants_local cost task e = rw e refl
task_wants_local local task e = refl
task_wants_local free task e = rw e refl

task_wants_free :
    (p : Policy) (task : Option String) → task ≡ some "free" → wants_free p task ≡ true
unfolding wants_free
task_wants_free quality task e = rw e refl
task_wants_free balanced task e = rw e refl
task_wants_free cost task e = rw e refl
task_wants_free local task e = rw e refl
task_wants_free free task e = refl

selection_policy_local : (task : Option String) → selection_policy (some "local") task ≡ ok local
unfolding selection_policy is_boundary filled parse_policy
selection_policy_local task = refl

selection_policy_free : (task : Option String) → selection_policy (some "free") task ≡ ok free
unfolding selection_policy is_boundary filled parse_policy
selection_policy_free task = refl

-- The pool's boundary is the policy, whatever the task names.
preferences_policy :
    (pool task : Option String) (m n : Input) (w : String) (q : Policy) {p : Preferences}
    → selection_policy (some w) task ≡ ok q
    → selection_preferences pool task m n ≡ ok p
    → pool ≡ some w
    → p.policy ≡ q
unfolding selection_preferences
preferences_policy pool task m n w q k h e =
    let (_, a, h1) = >>=-eq-ok (selection_policy pool task) _ h in
    let (_, _, h2) = >>=-eq-ok (bounded_number (given n m) 750 0 1000 bad_minimum_score) _ h1 in
    sym (ap (λ r. r.policy) (ok_injective h2))
    ∙ ok_injective (sym a ∙ ap (λ o. selection_policy o task) e ∙ k)

-- What a ranking says of a model: it may be tried, and is inside the pool's and the task's boundary.
abbrev pub IsInside : Task → Policy → String → Type 0
IsInside t policy b =
    IsAllowed t policy b
    × InBoundary t.pool.selection_policy b (facts_in t.pool b)
    × InBoundary t.profile.policy b (facts_in t.pool b)

IsAllowed-IsInside :
    (t : Task) (p : Preferences) (b : String)
    → selection_preferences t.pool.selection_policy t.profile.policy t.pool.minimum_score
        t.profile.minimum_score
      ≡ ok p
    → IsAllowed t p.policy b
    → IsInside t p.policy b
unfolding wants_local wants_free
IsAllowed-IsInside t p b h a =
    let resolved : (w : String) (q : Policy)
        → selection_policy (some w) t.profile.policy ≡ ok q
        → t.pool.selection_policy ≡ some w
        → p.policy ≡ q =
      λ w q k. preferences_policy t.pool.selection_policy t.profile.policy _ _ w q k h in
    (
      a,
      (
        boundary_of t.pool.selection_policy "local"
            (λ e. a.local_only (rw (resolved "local" local (selection_policy_local _) e) refl)),
        boundary_of t.pool.selection_policy "free"
            (λ e. a.free_only (rw (resolved "free" free (selection_policy_free _) e) refl)),
      ),
      (
        boundary_of t.profile.policy "local"
            (λ e. a.local_only (task_wants_local p.policy t.profile.policy e)),
        boundary_of t.profile.policy "free"
            (λ e. a.free_only (task_wants_free p.policy t.profile.policy e)),
      ),
    )

-- Each model that a ranking returns may be tried: it was not attempted, is healthy and enabled, is on
-- schedule, has the context window, and is local (free) where the pool's policy or the task's policy is
-- that, also where the two differ.
pub rank_model_candidates-IsAllowed :
    (t : Task) {r : Ranking}
    → rank_model_candidates t ≡ ok r
    → All (IsInside t r.preferences.policy) r.models
unfolding rank_model_candidates ranking_of
rank_model_candidates-IsAllowed t {r} h =
    let (p, k, e) =
      >>=-eq-ok
        (selection_preferences t.pool.selection_policy t.profile.policy t.pool.minimum_score
          t.profile.minimum_score)
        (λ q. ok (ranking_of t q)) h in
    subst (λ (q : Ranking). All (IsInside t q.preferences.policy) q.models) (ok_injective e)
      (All-map (IsInside t p.policy) (λ (c : Candidate). c.binding) _
        (All-under (λ (c : Candidate). IsAllowed t p.policy c.binding)
          (λ (c : Candidate). IsInside t p.policy c.binding)
          (λ c. IsAllowed-IsInside t p c.binding k) _
          (rank_under-All (λ c. IsAllowed t p.policy c.binding) p.policy p.minimum_score _
            (eligible-CandidateAllowed t p.policy _
              (candidates_from-CandidateAllowed t p.policy 0 (listed_models t.pool.models))))))
