-- ===== src/Selection/Floors.antt =====
-- nla-task-assessor.mjs: what a refinement by a model cannot change.
use next_level_agent.Base.{
  ℕ, ◌≤◌, ◌≡◌, refl, ap, sym, subst, String, Bool, true, false, Option, none, some, ◌⊎◌, inl, inr,
  Bool-cases, Dict, eq_iff, ◌==◌, arith,
}
use next_level_agent.Base.Result.{Result, ok, err, >>=-eq-ok, ok_injective}
use next_level_agent.Selection.Policy.{Scores, SelectionError, is_boundary, filled, Preferences}
use next_level_agent.Selection.Assess.{
  Patterns, Level, at_least_high, is_high, Assessment, for_risk, for_complexity, for_tools,
  for_latency, policy_for, deterministic_assessment,
}
use next_level_agent.Selection.Refine.{
  Assessed, Refinement, refine_weights, refined_policy, refined, has_refinement, preferences_of,
  refine, assessed, assess_task, parse_selection_weights, parse_context_window,
}

-- The floors of a high-risk task's weights.
pub record IsCareful (w : Scores) : Type 0 where
  pub reliable : w.reliability ≡ 1000
  pub reasoned : 900 ≤ w.reasoning
  pub unhurried : w.latency ≤ 500

for_risk-IsCareful :
    (risk : Level) (w : Scores) → at_least_high risk ≡ true → IsCareful (for_risk risk w)
unfolding for_risk
for_risk-IsCareful risk w h =
    rw h record { reliable = refl; reasoned = omega arith; unhurried = omega arith }

for_complexity-IsCareful : (c : Level) (w : Scores) → IsCareful w → IsCareful (for_complexity c w)
unfolding for_complexity
for_complexity-IsCareful c w h = elim (Bool-cases (is_high c)) [
  | inl e ↦ rw e record {
    reliable = h.reliable;
    reasoned = omega (arith, h.reasoned);
    unhurried = h.unhurried;
  }
  | inr e ↦ rw e h
]

for_tools-IsCareful : (b : Bool) (w : Scores) → IsCareful w → IsCareful (for_tools b w)
unfolding for_tools
for_tools-IsCareful true w h = record {
  reliable = h.reliable;
  reasoned = h.reasoned;
  unhurried = h.unhurried;
}
for_tools-IsCareful false w h = h

for_latency-IsCareful :
    (b : Bool) (w : Scores) → b ≡ false → IsCareful w → IsCareful (for_latency b w)
unfolding for_latency
for_latency-IsCareful b w e h = rw e h

deterministic-IsCareful :
    (p : Patterns) (role description prompt : String)
    → at_least_high (deterministic_assessment p role description prompt).risk ≡ true
    → IsCareful (deterministic_assessment p role description prompt).weights
unfolding deterministic_assessment
deterministic-IsCareful p role description prompt h =
    for_latency-IsCareful _ _ (ground arith)
      (for_tools-IsCareful _ _ (for_complexity-IsCareful _ _ (for_risk-IsCareful _ _ h)))

deterministic-quality :
    (p : Patterns) (role description prompt : String)
    → at_least_high (deterministic_assessment p role description prompt).risk ≡ true
    → (deterministic_assessment p role description prompt).policy ≡ some "quality"
unfolding deterministic_assessment policy_for
deterministic-quality p role description prompt h = rw h refl

refine_weights-IsCareful :
    (w : Scores) (d : Option (Dict ℕ)) (risk : Level)
    → at_least_high risk ≡ true
    → IsCareful w
    → IsCareful (refine_weights w d risk)
unfolding refine_weights
refine_weights-IsCareful w none risk h k = k
refine_weights-IsCareful w (some d) risk h k =
    rw h record { reliable = refl; reasoned = omega arith; unhurried = omega arith }

-- The policy of a high-risk task: quality, or the boundary that the refinement asks for.
abbrev pub IsSafePolicy : Option String → Option String → Type 0
IsSafePolicy asked policy =
    (policy ≡ some "quality") ⊎ ((policy ≡ asked) × (is_boundary asked ≡ true))

boundary_filled : (s : String) → is_boundary (some s) ≡ true → filled (some s) ≡ some s
unfolding is_boundary filled
boundary_filled s h = elim (Bool-cases (s == "")) [
  | inl e ↦
      let k : is_boundary (some "") ≡ true =
        subst (λ t. is_boundary (some t) ≡ true) ((eq_iff s "").0 e) h in
      absurd (ground arith)
  | inr e ↦ rw e refl
]

refined_policy-IsSafePolicy :
    (risk : Level) (asked baseline : Option String)
    → at_least_high risk ≡ true
    → baseline ≡ some "quality"
    → IsSafePolicy asked (refined_policy risk asked baseline)
unfolding refined_policy
refined_policy-IsSafePolicy risk none baseline h e =
    unfold filled is_boundary in rw (h, e) (inl refl)
refined_policy-IsSafePolicy risk (some s) baseline h e = elim (Bool-cases (is_boundary (some s))) [
  | inl k ↦ rw (h, boundary_filled s k, k) (inr (refl, refl))
  | inr k ↦ elim (Bool-cases (s == "")) [
    | inl q ↦ unfold filled is_boundary in rw (h, q, e) (inl refl)
    | inr q ↦ unfold filled in rw (h, q, k) (inl refl)
  ]
]

-- The weights and the policy of an assessment suit high-risk work.
pub record IsGuarded (asked : Option String) (a : Assessment) : Type 0 where
  pub careful : IsCareful a.weights
  pub safe : IsSafePolicy asked a.policy

assessed-IsGuarded :
    (b : Assessment) (r : Refinement) (o : Result SelectionError Assessed)
    → IsCareful b.weights
    → b.policy ≡ some "quality"
    → ((a : Assessed) → o ≡ ok a → IsGuarded r.selection_policy a.assessment)
    → IsGuarded r.selection_policy (assessed b r o).assessment
unfolding assessed
assessed-IsGuarded b r (ok a) h q k = k a refl
assessed-IsGuarded b r (err e) h q k = record {
  careful = h;
  safe = elim (Bool-cases (is_boundary r.selection_policy)) [
    | inl e ↦ rw e (inr (refl, refl))
    | inr e ↦ rw e (inl q)
  ];
}

assessed-kept :
    (b : Assessment) (r : Refinement) (o : Result SelectionError Assessed)
    → ((a : Assessed)
        → o ≡ ok a
        → (a.assessment.risk ≡ b.risk) × (a.assessment.complexity ≡ b.complexity))
    → ((assessed b r o).assessment.risk ≡ b.risk)
      × ((assessed b r o).assessment.complexity ≡ b.complexity)
unfolding assessed
assessed-kept b r (ok a) k = k a refl
assessed-kept b r (err e) k = (refl, refl)

refined-IsGuarded :
    (b : Assessment) (r : Refinement) (w : Option (Dict ℕ)) (n : Option ℕ) (has : Bool)
    (q : Option Preferences)
    → at_least_high b.risk ≡ true
    → IsCareful b.weights
    → b.policy ≡ some "quality"
    → IsGuarded r.selection_policy (refined b r w n has q).assessment
unfolding refined
refined-IsGuarded b r w n has q h careful e = record {
  careful = refine_weights-IsCareful b.weights w b.risk h careful;
  safe = refined_policy-IsSafePolicy b.risk r.selection_policy b.policy h e;
}

-- What `refine` returns, where it does.
refine-eq-ok :
    (b : Assessment) (r : Refinement) {a : Assessed}
    → refine b r ≡ ok a
    → (w : Option (Dict ℕ)) × (n : Option ℕ) × (q : Option Preferences) × (refined b r w n
          (has_refinement r w n)
          q
        ≡ a)
unfolding refine
refine-eq-ok b r h =
    let (w, _, h1) = >>=-eq-ok (parse_selection_weights r.selection_weights) _ h in
    let (n, _, h2) = >>=-eq-ok (parse_context_window r.context_window) _ h1 in
    let (q, _, h3) = >>=-eq-ok (preferences_of (has_refinement r w n) r) _ h2 in
    (w, n, q, ok_injective h3)

-- Whatever a model proposes, valid or not: the risk and the complexity are those of the rules, and
-- high-risk work keeps full reliability, reasoning of 9 at least, latency of 5 at most, and the
-- quality policy, unless the local or the free boundary is asked for.
pub assess_task-IsGuarded :
    (p : Patterns) (role description prompt : String) (r : Refinement)
    → let b = deterministic_assessment p role description prompt in
      let a = (assess_task p role description prompt r).assessment in
      (a.risk ≡ b.risk)
      × (a.complexity ≡ b.complexity)
      × (at_least_high b.risk ≡ true → IsGuarded r.selection_policy a)
unfolding assess_task
assess_task-IsGuarded p role description prompt r =
    let b = deterministic_assessment p role description prompt in
    let (same_risk, same_complexity) = assessed-kept b r (refine b r) (λ a e.
      let (w, n, q, made) = refine-eq-ok b r e in
      (
        unfold refined in ap (λ (x : Assessed). x.assessment.risk) (sym made),
        unfold refined in ap (λ (x : Assessed). x.assessment.complexity) (sym made),
      )) in
    (
      same_risk,
      same_complexity,
      λ h.
          let careful = deterministic-IsCareful p role description prompt h in
          let quality = deterministic-quality p role description prompt h in
          assessed-IsGuarded b r (refine b r) careful quality (λ a e.
            let (w, n, q, made) = refine-eq-ok b r e in
            subst (λ (x : Assessed). IsGuarded r.selection_policy x.assessment) made
              (refined-IsGuarded b r w n (has_refinement r w n) q h careful quality)),
    )
