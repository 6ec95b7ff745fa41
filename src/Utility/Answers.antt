-- ===== src/Utility/Answers.antt =====
-- nla-utility-runtime.mjs: what a reply and a cancellation mean.
use next_level_agent.Base.{
  subst, ℕ, ◌+◌, ◌≡◌, refl, sym, ap, ◌∙◌, String, true, false, Option, none, some, List, [], ◌∷◌,
  lookup, lookup-erase_self, arith, leb, length, In, inl, inr, if_either, if_cases,
}
use next_level_agent.Health.Classify.{non_provider, Regexes, ProviderError, classify}
use next_level_agent.Health.Manager.{Manager, Selection, claim, release, success, failure, key}
use next_level_agent.Health.Claims.{release-claim, release-eligible, claim_result}
use next_level_agent.Utility.Runtime.{
  Turn, Outcome, replied, cancelled, unavailable, exhausted, settle, finish, try_models,
  run_utility_model, outcome_unless_empty, error_of, answered, give_up, cancelled_error, output_of,
}

-- What a reply tells: its model took an attempt that was answered and not aborted, and the model has
-- no failure on record when the run is over. Any other outcome tells nothing here.
abbrev pub Replies : String → List (String × Turn) → Manager → Outcome → Type 0
Replies endpoint turns m (replied model output) =
    ((t : Turn) × In (model, t) turns
      × (t.answer ≡ answered output)
      × (t.aborted_after ≡ false)
      × (t.aborted_before ≡ false))
    × (lookup (key model endpoint) m.entries ≡ none)
Replies endpoint turns m _ = Unit

record Told (endpoint : String) (turns : List (String × Turn)) (r : Manager × Outcome)
    : Type 0 where
  tells : Replies endpoint turns r.0 r.1

Replies-later :
    (endpoint : String) (x : String × Turn) (turns : List (String × Turn)) (m : Manager)
    (o : Outcome)
    → Replies endpoint turns m o
    → Replies endpoint (x ∷ turns) m o
Replies-later endpoint x turns m (replied model output) ((t, i, a, b, c), h) =
    ((t, inr i, a, b, c), h)
Replies-later endpoint x turns m cancelled r = tt
Replies-later endpoint x turns m (unavailable s) r = tt
Replies-later endpoint x turns m (exhausted r n) h = tt

Told-later :
    {endpoint : String} (x : String × Turn) (turns : List (String × Turn)) (r : Manager × Outcome)
    → Told endpoint turns r
    → Told endpoint (x ∷ turns) r
Told-later {endpoint} x turns r h = record {
  tells = Replies-later endpoint x turns r.0 r.1 h.tells;
}

success-none :
    (m : Manager) (b e : String) → lookup (key b e) (release (success m b e) b e).entries ≡ none
unfolding release success
success-none m b e = rw lookup-erase_self (lookup-erase_self (key b e) m.entries)

error_of-none :
    (timeout_text : String) (t : Turn)
    → error_of timeout_text t ≡ none
    → (t.answer ≡ answered (output_of t.answer)) × (t.aborted_after ≡ false)
error_of-none timeout_text t h = ground arith

module _ (rx : Regexes) (endpoint timeout_text : String) (cooldown max_attempts : ℕ) where
  finish-Replies :
      (m : Manager) (b : String) (t : Turn) (n : ℕ) (rest : List (String × Turn))
      (o : Option ProviderError)
      → error_of timeout_text t ≡ o
      → t.aborted_before ≡ false
      → Replies endpoint ((b, t) ∷ rest) (settle rx endpoint cooldown m b t o).0 (finish rx b t n o)
  unfolding settle
  finish-Replies m b t n rest none e h =
      let (answer, aborted) = error_of-none timeout_text t e in
      ((t, inl refl, answer, aborted, h), success-none m b endpoint)
  finish-Replies m b t n rest (some x) e h = tt

  try_models-Replies :
      (m : Manager) (n : ℕ) (last : Option ProviderError) (turns : List (String × Turn))
      → Told endpoint turns
          (try_models rx endpoint timeout_text cooldown max_attempts m n last turns)
  unfolding try_models
  try_models-Replies m n last [] = record { tells = tt }
  try_models-Replies m n last ((b, t) ∷ rest) =
      let turns : List (String × Turn) = (b, t) ∷ rest in
      let claimed = claim m t.claimed_at b endpoint in
      let error = error_of timeout_text t in
      let after = settle rx endpoint cooldown claimed.0 b t error in
      let next = Told-later (b, t) rest _ (try_models-Replies after.0 (n + 1) error rest) in
      let skipped = Told-later (b, t) rest _ (try_models-Replies m n last rest) in
      if_cases (Told endpoint turns) t.aborted_before (m, cancelled) _ (λ _. record { tells = tt })
        (λ started.
          if_either (Told endpoint turns) (leb max_attempts n) (m, give_up rx last n) _
            (record { tells = tt })
            (if_either (Told endpoint turns) claimed.1 _ _
              (if_either (Told endpoint turns) after.1 _ (after.0, finish rx b t (n + 1) error) next
                (record { tells = finish-Replies claimed.0 b t (n + 1) rest error refl started }))
              skipped))

outcome-Told :
    (models : List String) (selection : Selection) (m : Manager) (endpoint : String)
    (turns : List (String × Turn)) (r : Manager × Outcome)
    → Told endpoint turns r
    → Told endpoint turns (outcome_unless_empty models selection m r)
outcome-Told [] selection m endpoint turns r h = record { tells = tt }
outcome-Told (b ∷ bs) selection m endpoint turns r h = h

Told-reply :
    (endpoint : String) (turns : List (String × Turn)) (r : Manager × Outcome) (o : Outcome)
    → r.1 ≡ o
    → Told endpoint turns r
    → Replies endpoint turns r.0 o
Told-reply endpoint turns r o e h = subst (Replies endpoint turns r.0) e h.tells

-- A reply of the utility runtime comes from a listed model whose attempt was answered with that output
-- and not aborted, and the model has no failure on record when the run is over.
pub run_utility_model-Replies :
    (rx : Regexes) (m : Manager) (now : ℕ) (endpoint timeout_text : String) (cooldown : ℕ)
    (turns : List (String × Turn)) (model output : String)
    → (run_utility_model rx m now endpoint timeout_text cooldown turns).1 ≡ replied model output
    → Replies endpoint turns
        (run_utility_model rx m now endpoint timeout_text cooldown turns).0
        (replied model output)
unfolding run_utility_model
run_utility_model-Replies rx m now endpoint timeout_text cooldown turns model output h =
    Told-reply endpoint turns _ (replied model output) h (
      outcome-Told _ _ m endpoint turns _
        (try_models-Replies rx endpoint timeout_text cooldown (length turns) m 0 none turns))

-- An attempt that the caller aborts costs its model nothing: whatever the provider answered, the
-- manager is as before the claim, if the cancellation is classified as no fault of the provider.
pub settle_aborted :
    (rx : Regexes) (m : Manager) (endpoint timeout_text b : String) (cooldown : ℕ) (t : Turn)
    → (claim m t.claimed_at b endpoint).1 ≡ true
    → t.aborted_after ≡ true
    → (classify rx cancelled_error t.settled_at).category ≡ non_provider
    → settle rx endpoint cooldown (claim m t.claimed_at b endpoint).0 b t (error_of timeout_text t)
      ≡ (m, false)
unfolding settle failure
settle_aborted rx m endpoint timeout_text b cooldown t claimed aborted fault =
    let eligible = sym (claim_result m t.claimed_at b endpoint) ∙ claimed in
    rw (aborted, error_of, fault, release-claim m t.claimed_at b endpoint claimed)
      (ap (λ x. (x, false)) (release-eligible m t.claimed_at b endpoint eligible))
