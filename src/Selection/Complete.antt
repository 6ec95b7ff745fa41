-- ===== src/Selection/Complete.antt =====
-- nla-model-selection.mjs: which models `rankModelCandidates` cannot leave out.
use next_level_agent.Base.{
  ℕ, ◌+◌, ◌≡◌, ◌≢◌, refl, sym, ap₂, subst, ◌∙◌, String, Bool, ◌&&◌, true, false, not, ◌||◌, List,
  [], ◌∷◌, map, select, inl, inr, Bool-cases, eq_iff, ◌==◌, arith,
}
use next_level_agent.Base.Order.{sort_by}
use next_level_agent.Base.Result.{ok, >>=-eq-ok, ok_injective}
use next_level_agent.Base.Sorting.{includes-map-append, includes-map-select, includes-map-sort_by}
use next_level_agent.Base.Texts.{includes}
use next_level_agent.Selection.Policy.{
  Policy, quality, balanced, cost, local, free, selection_preferences,
}
use next_level_agent.Selection.Pool.{facts_in, listed_models}
use next_level_agent.Selection.Rank.{
  Candidate, is_none, health_for, best_score, is_viable, rank_under, rank_balanced, quality_le,
  cost_le,
}
use next_level_agent.Selection.Candidates.{
  Task, Ranking, reasons_for, candidate_at, candidates_from, is_eligible_candidate, ranking_of,
  rank_model_candidates,
}
use next_level_agent.Selection.Boundary.{IsAllowed}

abbrev names : List Candidate → List String
names = map (λ (c : Candidate). c.binding)

if_wanted : (a b : Bool) → (a ≡ true → b ≡ true) → (a && not b) ≡ false
if_wanted a b h = ground arith

module _ (t : Task) (policy : Policy) where
  IsAllowed-reasons_for :
      (b : String)
      → IsAllowed t policy b
      → is_none
          (reasons_for t policy b (facts_in t.pool b) (health_for t.health b t.endpoint t.now))
        ≡ true
  unfolding reasons_for is_none
  IsAllowed-reasons_for b h =
      rw
        (
          h.not_attempted,
          h.healthy,
          h.enabled,
          h.provider_on,
          if_wanted _ _ h.local_only,
          if_wanted _ _ h.free_only,
          h.on_schedule,
          h.fits,
        )
        refl

  eligible_complete :
      (i : ℕ) (bs : List String) (b : String)
      → includes bs b ≡ true
      → IsAllowed t policy b
      → includes (names (select is_eligible_candidate (candidates_from t policy i bs))) b ≡ true
  unfolding candidates_from candidate_at includes
  eligible_complete i [] b h a = h
  eligible_complete i (c ∷ cs) b h a = elim (Bool-cases (c == b)) [
    | inl e ↦
        rw (IsAllowed-reasons_for c (subst (IsAllowed t policy) (sym ((eq_iff c b).0 e)) a)) (rw e)
    | inr e ↦
        let rest = eligible_complete (i + 1) cs b (rw e at h) a in
        elim (Bool-cases (is_eligible_candidate (candidate_at t policy c i))) [
          | inl k ↦ rw k (rw (e, rest) refl)
          | inr k ↦ rw k rest
        ]
  ]

rank_under_complete :
    (p : Policy) (minimum : ℕ) (cs : List Candidate) (b : String)
    → p ≢ cost
    → includes (names cs) b ≡ true
    → includes (names (rank_under p minimum cs)) b ≡ true
unfolding rank_under rank_balanced
rank_under_complete quality minimum cs b n h = includes-map-sort_by _ quality_le cs b ∙ h
rank_under_complete local minimum cs b n h = includes-map-sort_by _ quality_le cs b ∙ h
rank_under_complete free minimum cs b n h = includes-map-sort_by _ quality_le cs b ∙ h
rank_under_complete cost minimum cs b n h = absurd (n refl)
rank_under_complete balanced minimum cs b n h =
    let viable = is_viable (best_score cs) in
    includes-map-append (λ (c : Candidate). c.binding) (sort_by cost_le (select viable cs)) _ b
    ∙ ap₂ ◌||◌ (includes-map-sort_by _ cost_le (select viable cs) b)
        (includes-map-sort_by _ quality_le (select (λ c. not (viable c)) cs) b)
    ∙ sym (includes-map-select _ viable cs b)
    ∙ h

-- Under every policy but cost, a model of the pool that the task may try is among the models that the
-- ranking returns.
pub rank_model_candidates_complete :
    (t : Task) {r : Ranking} (b : String)
    → rank_model_candidates t ≡ ok r
    → r.preferences.policy ≢ cost
    → includes (listed_models t.pool.models) b ≡ true
    → IsAllowed t r.preferences.policy b
    → includes r.models b ≡ true
unfolding rank_model_candidates ranking_of
rank_model_candidates_complete t {r} b h =
    let (p, _, e) =
      >>=-eq-ok
        (selection_preferences t.pool.selection_policy t.profile.policy t.pool.minimum_score
          t.profile.minimum_score)
        (λ q. ok (ranking_of t q)) h in
    subst
      (λ (q : Ranking).
        q.preferences.policy ≢ cost
        → includes (listed_models t.pool.models) b ≡ true
        → IsAllowed t q.preferences.policy b
        → includes q.models b ≡ true)
      (ok_injective e)
      (λ n m a.
        rank_under_complete p.policy p.minimum_score _ b n
          (eligible_complete t p.policy 0 (listed_models t.pool.models) b m a))
