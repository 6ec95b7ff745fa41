-- ===== src/Utility/Flights.antt =====
-- nla-utility-runtime.mjs: what the loop leaves of its claims on models.
use next_level_agent.Base.{
  sym, ℕ, ◌+◌, ◌≡◌, refl, subst, ◌∙◌, String, true, false, Option, none, some, List, [], ◌∷◌, Dict,
  lookup, insert, erase, lookup-insert, lookup-erase, lookup-erase_self, lookup-insert_self, arith,
  eq_iff, ◌==◌, leb, length, inl, inr, ◌⊎◌, if_either, Bool-cases,
}
use next_level_agent.Health.Classify.{
  Category, incomplete, non_provider, transient, defective, configuration, unknown, Regexes,
  ProviderError, Classification, classify,
}
use next_level_agent.Health.Manager.{
  Manager, Entry, Failure, failed, probe, probe_after, Selection, claim, release, released, success,
  failure, failed_manager, key, state,
}
use next_level_agent.Utility.Runtime.{
  Turn, Outcome, cancelled, settle, try_models, run_utility_model, outcome_unless_empty, error_of,
  finish, give_up,
}

abbrev pub InFlight : Entry → Type 0
InFlight (failed f) = ⊥
InFlight _ = Unit

-- No claim is in flight but, it may be, one under the key `k`.
pub record OnlyAt (k : String) (es : Dict Entry) : Type 0 where
  pub elsewhere : (j : String) (x : Entry) → (k == j) ≡ false → lookup j es ≡ some x → ¬ InFlight x

pub record NoFlights (es : Dict Entry) : Type 0 where
  pub nowhere : (j : String) (x : Entry) → lookup j es ≡ some x → ¬ InFlight x

insert-OnlyAt : (k : String) (x : Entry) (es : Dict Entry) → OnlyAt k es → OnlyAt k (insert k x es)
insert-OnlyAt k x es s = record {
  elsewhere = λ j y p h. s.elsewhere j y p (ground (arith, lookup-insert k j x es));
}

erase-OnlyAt : (k : String) (es : Dict Entry) → OnlyAt k es → OnlyAt k (erase k es)
erase-OnlyAt k es s = record {
  elsewhere = λ j y p h. s.elsewhere j y p (ground (arith, lookup-erase k j es));
}

NoFlights-OnlyAt : (k : String) (es : Dict Entry) → NoFlights es → OnlyAt k es
NoFlights-OnlyAt k es s = record { elsewhere = λ j y p h. s.nowhere j y h }

claim-OnlyAt :
    (m : Manager) (now : ℕ) (b e : String)
    → NoFlights m.entries
    → OnlyAt (key b e) (claim m now b e).0.entries
unfolding claim
claim-OnlyAt m now b e s = elim (Bool-cases (state m now b e).eligible) [
  | inl p ↦ rw p (insert-OnlyAt (key b e) _ m.entries (NoFlights-OnlyAt (key b e) m.entries s))
  | inr p ↦ rw p (NoFlights-OnlyAt (key b e) m.entries s)
]

-- `release` ends the one claim that is left.
closed :
    (k : String) (es : Dict Entry)
    → OnlyAt k es
    → ((x : Entry) → lookup k es ≡ some x → ¬ InFlight x)
    → NoFlights es
closed k es s here = record { nowhere = λ j y h. at j y h (Bool-cases (k == j)) }
  where
    at :
        (j : String) (y : Entry)
        → lookup j es ≡ some y
        → ((k == j) ≡ true) ⊎ ((k == j) ≡ false)
        → ¬ InFlight y
    at j y h (inl e) = here y (subst (λ i. lookup i es ≡ some y) (sym ((eq_iff k j).0 e)) h)
    at j y h (inr e) = s.elsewhere j y e h

not-InFlight-failed : (f : Failure) (x : Entry) → some (failed f) ≡ some x → ¬ InFlight x
not-InFlight-failed f (failed g) h i = i
not-InFlight-failed f (probe t) h i = cc
not-InFlight-failed f (probe_after t g) h i = cc

released-NoFlights :
    (k : String) (o : Option Entry) (es : Dict Entry)
    → lookup k es ≡ o
    → OnlyAt k es
    → NoFlights (released k o es)
released-NoFlights k none es p s = closed k es s (λ x h. cc)
released-NoFlights k (some (failed f)) es p s =
    closed k es s (λ x h. not-InFlight-failed f x (sym p ∙ h))
released-NoFlights k (some (probe t)) es p s =
    closed k (erase k es) (erase-OnlyAt k es s) (λ x h. cc (lookup-erase_self k es))
released-NoFlights k (some (probe_after t f)) es p s =
    closed k (insert k (failed f) es) (insert-OnlyAt k (failed f) es s)
      (λ x h. not-InFlight-failed f x (sym (lookup-insert_self k (failed f) es) ∙ h))

release-NoFlights :
    (m : Manager) (b e : String) → OnlyAt (key b e) m.entries → NoFlights (release m b e).entries
unfolding release
release-NoFlights m b e s =
    released-NoFlights (key b e) (lookup (key b e) m.entries) m.entries refl s

NoFlights-release-OnlyAt :
    (m : Manager) (b e : String)
    → OnlyAt (key b e) m.entries
    → OnlyAt (key b e) (release m b e).entries
NoFlights-release-OnlyAt m b e s = NoFlights-OnlyAt (key b e) _ (release-NoFlights m b e s)

failed-OnlyAt :
    (category : Category) (m : Manager) (now : ℕ) (c : Classification) (b e : String) (cooldown : ℕ)
    → OnlyAt (key b e) m.entries
    → OnlyAt (key b e) (failed_manager category m now c b e cooldown).entries
failed-OnlyAt transient m now c b e cooldown s = insert-OnlyAt (key b e) _ m.entries s
failed-OnlyAt defective m now c b e cooldown s = insert-OnlyAt (key b e) _ m.entries s
failed-OnlyAt configuration m now c b e cooldown s = insert-OnlyAt (key b e) _ m.entries s
failed-OnlyAt incomplete m now c b e cooldown s = NoFlights-release-OnlyAt m b e s
failed-OnlyAt non_provider m now c b e cooldown s = NoFlights-release-OnlyAt m b e s
failed-OnlyAt unknown m now c b e cooldown s = NoFlights-release-OnlyAt m b e s

settle-NoFlights :
    (rx : Regexes) (e : String) (cooldown : ℕ) (m : Manager) (b : String) (t : Turn)
    (o : Option ProviderError)
    → OnlyAt (key b e) m.entries
    → NoFlights (settle rx e cooldown m b t o).0.entries
unfolding settle success failure
settle-NoFlights rx e cooldown m b t none s =
    release-NoFlights (success m b e) b e (erase-OnlyAt (key b e) m.entries s)
settle-NoFlights rx e cooldown m b t (some x) s =
    let c = classify rx x t.settled_at in
    release-NoFlights (failed_manager c.category m t.settled_at c b e cooldown) b e
      (failed-OnlyAt c.category m t.settled_at c b e cooldown s)

record Quiet (r : Manager × Outcome) : Type 0 where
  quiet : NoFlights r.0.entries

module _ (rx : Regexes) (endpoint timeout_text : String) (cooldown max_attempts : ℕ) where
  try_models-NoFlights :
      (m : Manager) (n : ℕ) (last : Option ProviderError) (turns : List (String × Turn))
      → NoFlights m.entries
      → Quiet (try_models rx endpoint timeout_text cooldown max_attempts m n last turns)
  unfolding try_models
  try_models-NoFlights m n last [] s = record { quiet = s }
  try_models-NoFlights m n last ((b, t) ∷ rest) s =
      let claimed = claim m t.claimed_at b endpoint in
      let error = error_of timeout_text t in
      let after = settle rx endpoint cooldown claimed.0 b t error in
      let settled =
        settle-NoFlights rx endpoint cooldown claimed.0 b t error
          (claim-OnlyAt m t.claimed_at b endpoint s) in
      let next = try_models-NoFlights after.0 (n + 1) error rest settled in
      if_either Quiet t.aborted_before (m, cancelled) _ (record { quiet = s })
        (if_either Quiet (leb max_attempts n) (m, give_up rx last n) _ (record { quiet = s })
          (if_either Quiet claimed.1 _ _
            (if_either Quiet after.1 _ (after.0, finish rx b t (n + 1) error) next
              (record { quiet = settled }))
            (try_models-NoFlights m n last rest s)))

outcome-NoFlights :
    (models : List String) (selection : Selection) (m : Manager) (r : Manager × Outcome)
    → NoFlights m.entries
    → Quiet r
    → Quiet (outcome_unless_empty models selection m r)
outcome-NoFlights [] selection m r s q = record { quiet = s }
outcome-NoFlights (b ∷ bs) selection m r s q = q

-- From a manager with no claim in flight, a run of the utility runtime ends with none in flight,
-- whichever way it ends: answer, cancellation, application error, or no model left.
pub run_utility_model-NoFlights :
    (rx : Regexes) (m : Manager) (now : ℕ) (endpoint timeout_text : String) (cooldown : ℕ)
    (turns : List (String × Turn))
    → NoFlights m.entries
    → NoFlights (run_utility_model rx m now endpoint timeout_text cooldown turns).0.entries
unfolding run_utility_model
run_utility_model-NoFlights rx m now endpoint timeout_text cooldown turns s =
    (outcome-NoFlights _ _ m _ s (
      try_models-NoFlights rx endpoint timeout_text cooldown (length turns) m 0 none turns s)).quiet
