-- ===== src/Evaluations/Recorded.antt =====
-- What a record of an evaluation does to the file.
use next_level_agent.Base.{
  ◌≤◌, ◌*◌, ◌||◌, not, eqb, ◌≡◌, refl, subst, String, Bool, true, false, ◌&&◌, Option, none, some,
  List, [], ◌∷◌, lookup, insert, lookup-insert, lookup-insert_self, Bool-cases, inl, inr, arith,
  ◌==◌, eq_iff,
}
use next_level_agent.Base.Result.{ok, >>=-eq-ok, ok_injective}
use next_level_agent.Evaluations.Scores.{
  Fraction, mean, average_score, Scores, Measured, in_range, updated, update_evaluation_scores,
}
use next_level_agent.Evaluations.Records.{
  Store, File, damaged, holding, valid_binding, valid_scores, valid_store,
  validate_evaluation_store, read_valid, or_no_scores, scores_in, write_store, with_record,
  record_evaluation,
}
use next_level_agent.Evaluations.Ranges.{updated-in_range}

five :
    (a b c d e : Bool)
    → (a && b && c && d && e) ≡ true
    → (a ≡ true) × (b ≡ true) × (c ≡ true) × (d ≡ true) × (e ≡ true)
five a b c d e h = ground arith

five_true :
    {a b c d e : Bool}
    → a ≡ true
    → b ≡ true
    → c ≡ true
    → d ≡ true
    → e ≡ true
    → (a && b && c && d && e) ≡ true
five_true p q r s t = ground arith

both : (a b : Bool) → (a && b) ≡ true → (a ≡ true) × (b ≡ true)
both a b h = ground arith

some_injective : {r s : Scores} → some r ≡ some s → r ≡ s
some_injective h = cc

-- A number from 1 to 10, as a fraction, if it was measured.
abbrev pub IsScore : Option Fraction → Type 0
IsScore none = Unit
IsScore (some f) = (1 ≤ f.den) × (f.den ≤ f.num) × (f.num ≤ 10 * f.den)

pub record IsMeasured (m : Measured) : Type 0 where
  pub coding : IsScore m.coding
  pub reasoning : IsScore m.reasoning
  pub tool_use : IsScore m.tool_use
  pub reliability : IsScore m.reliability
  pub latency : IsScore m.latency

IsScore-in_range : (f : Fraction) → IsScore (some f) → in_range 1 f ≡ true
unfolding in_range
IsScore-in_range f (d, low, high) = ground arith

average_score_total :
    (old current : Fraction)
    → in_range 1 current ≡ true
    → (f : Fraction) × (average_score old current ≡ ok f)
unfolding average_score
average_score_total old current h = elim (Bool-cases (not (in_range 0 old) || eqb old.num 0)) [
  | inl e ↦ (current, rw (h, e) refl)
  | inr e ↦ (mean old current, rw (h, e) refl)
]

updated_total :
    (old : Fraction) (m : Option Fraction) → IsScore m → (f : Fraction) × (updated old m ≡ ok f)
unfolding updated
updated_total old none h = (old, refl)
updated_total old (some c) h = average_score_total old c (IsScore-in_range c h)

update_evaluation_scores_total :
    (old : Scores) (m : Measured)
    → IsMeasured m
    → (new : Scores) × (update_evaluation_scores old m ≡ ok new)
unfolding update_evaluation_scores
update_evaluation_scores_total old m h =
    let (a, ea) = updated_total old.coding m.coding h.coding in
    let (b, eb) = updated_total old.reasoning m.reasoning h.reasoning in
    let (c, ec) = updated_total old.tool_use m.tool_use h.tool_use in
    let (d, ed) = updated_total old.reliability m.reliability h.reliability in
    let (e, ee) = updated_total old.latency m.latency h.latency in
    (
      record { coding = a; reasoning = b; tool_use = c; reliability = d; latency = e },
      rw (ea, eb, ec, ed, ee) refl,
    )

update-valid_scores :
    (old : Scores) (m : Measured) {new : Scores}
    → valid_scores old ≡ true
    → update_evaluation_scores old m ≡ ok new
    → valid_scores new ≡ true
unfolding update_evaluation_scores valid_scores
update-valid_scores old m h k =
    let (a, b, c, d, e) = five _ _ _ _ _ h in
    let (x1, e1, k1) = >>=-eq-ok (updated old.coding m.coding) _ k in
    let (x2, e2, k2) = >>=-eq-ok (updated old.reasoning m.reasoning) _ k1 in
    let (x3, e3, k3) = >>=-eq-ok (updated old.tool_use m.tool_use) _ k2 in
    let (x4, e4, k4) = >>=-eq-ok (updated old.reliability m.reliability) _ k3 in
    let (x5, e5, k5) = >>=-eq-ok (updated old.latency m.latency) _ k4 in
    subst
      (λ (s : Scores).
        (in_range 0 s.coding
          && in_range 0 s.reasoning
          && in_range 0 s.tool_use
          && in_range 0 s.reliability
          && in_range 0 s.latency)
        ≡ true)
      (ok_injective k5)
      (five_true (updated-in_range old.coding m.coding a e1)
        (updated-in_range old.reasoning m.reasoning b e2)
        (updated-in_range old.tool_use m.tool_use c e3)
        (updated-in_range old.reliability m.reliability d e4)
        (updated-in_range old.latency m.latency e e5))

module _ (trim : String → String) where
  lookup-valid_scores :
      (b : String) (s : Store) {r : Scores}
      → valid_store trim s ≡ true
      → lookup b s ≡ some r
      → valid_scores r ≡ true
  unfolding valid_store lookup
  lookup-valid_scores b [] h k = cc
  lookup-valid_scores b ((c, q) ∷ rest) {r} h k =
      let (here, there) = both (valid_binding trim c && valid_scores q) (valid_store trim rest) h in
      elim (Bool-cases (c == b)) [
        | inl e ↦
            let found = rw e at k in
            subst (λ (s : Scores). valid_scores s ≡ true) (some_injective found)
              (both (valid_binding trim c) (valid_scores q) here).1
        | inr e ↦ lookup-valid_scores b rest there (rw e at k)
      ]

  or_no_scores-valid_scores :
      (o : Option Scores)
      → ((r : Scores) → o ≡ some r → valid_scores r ≡ true)
      → valid_scores (or_no_scores o) ≡ true
  unfolding or_no_scores valid_scores in_range
  or_no_scores-valid_scores none h = refl
  or_no_scores-valid_scores (some r) h = h r refl

  scores_in-valid_scores :
      (b : String) (s : Store) → valid_store trim s ≡ true → valid_scores (scores_in b s) ≡ true
  scores_in-valid_scores b s h =
      or_no_scores-valid_scores (lookup b s) (λ r e. lookup-valid_scores b s h e)

  insert-valid_store :
      (b : String) (r : Scores) (s : Store)
      → valid_binding trim b ≡ true
      → valid_scores r ≡ true
      → valid_store trim s ≡ true
      → valid_store trim (insert b r s) ≡ true
  unfolding valid_store insert
  insert-valid_store b r [] p q h = ground arith
  insert-valid_store b r ((c, q) ∷ rest) p q' h =
      ground (arith, eq_iff c b, insert-valid_store b r rest)

  -- An evaluation whose scores are each unmeasured or from 1 to 10, of a valid binding, is always
  -- written to a valid store: the scores of the model are updated, all else stays, and the new store is
  -- valid.
  pub record_evaluation-holding :
      (s : Store) (b : String) (m : Measured)
      → valid_store trim s ≡ true
      → valid_binding trim b ≡ true
      → IsMeasured m
      → (new : Scores) × (update_evaluation_scores (scores_in b s) m ≡ ok new)
        × (record_evaluation trim (holding s) b m ≡ (holding (insert b new s), ok (insert b new s)))
        × (valid_store trim (insert b new s) ≡ true)
        × (lookup b (insert b new s) ≡ some new)
        × ((other : String) → (b == other) ≡ false → lookup other (insert b new s) ≡ lookup other s)
  unfolding record_evaluation with_record read_valid validate_evaluation_store write_store
  record_evaluation-holding s b m h p measured =
      let (new, k) = update_evaluation_scores_total (scores_in b s) m measured in
      let valid =
        insert-valid_store b new s p
          (update-valid_scores (scores_in b s) m (scores_in-valid_scores b s h) k) h in
      (
        new,
        k,
        rw (p, h, k, valid) refl,
        valid,
        lookup-insert_self b new s,
        λ other e. rw (lookup-insert b other new s, e) refl,
      )

  -- The file after a sequence of evaluations.
  unfoldable pub record_all : File → List (String × Measured) → File
  unfolding record_evaluation
  record_all file [] = file
  record_all file ((b, m) ∷ rest) = record_all (record_evaluation trim file b m).0 rest

  record_evaluation-damaged :
      (b : String) (m : Measured) → (record_evaluation trim damaged b m).0 ≡ damaged
  unfolding record_evaluation with_record read_valid write_store
  record_evaluation-damaged b m = elim (Bool-cases (valid_binding trim b)) [
    | inl e ↦ rw e refl
    | inr e ↦ rw e refl
  ]

  -- A file that holds no valid store is never replaced, whatever evaluations are recorded.
  pub record_all-damaged : (calls : List (String × Measured)) → record_all damaged calls ≡ damaged
  unfolding record_all
  record_all-damaged [] = refl
  record_all-damaged ((b, m) ∷ rest) = rw (record_evaluation-damaged b m) (record_all-damaged rest)
