-- ===== src/Health/Candidates.antt =====
-- nla-model-health.mjs: `candidates`, the models that a caller may try now.
use next_level_agent.Base.{
  ℕ, ◌≤◌, ◌≡◌, ◌∙◌, String, true, List, [], ◌∷◌, map, length, select, All, All-take, length-take-le,
  inl, inr, Bool-cases,
}
use next_level_agent.Health.Manager.{Manager, State, state, candidates, claim}
use next_level_agent.Health.Claims.{claim_result}

module _ (m : Manager) (now : ℕ) (e : String) where
  abbrev row : String → String × State
  row b = (b, state m now b e)

  eligible_rows-claimable :
      (models : List String)
      → All
          (λ b. (claim m now b e).1 ≡ true)
          (map (λ r. r.0) (select (λ (r : String × State). r.1.eligible) (map row models)))
  eligible_rows-claimable [] = tt
  eligible_rows-claimable (b ∷ rest) = elim (Bool-cases (state m now b e).eligible) [
    | inl p ↦ rw p (claim_result m now b e ∙ p, eligible_rows-claimable rest)
    | inr p ↦ rw p (eligible_rows-claimable rest)
  ]

  -- There are at most `limit` candidates, and each of them can be claimed at that time.
  pub candidates-claimable :
      (models : List String) (limit : ℕ)
      → (length (candidates m now models limit e).models ≤ limit)
        × All (λ b. (claim m now b e).1 ≡ true) (candidates m now models limit e).models
  unfolding candidates
  candidates-claimable models limit =
      (length-take-le limit _, All-take _ limit _ (eligible_rows-claimable models))
