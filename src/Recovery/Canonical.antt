-- ===== src/Recovery/Canonical.antt =====
-- nla-browser-recovery.mjs: a canonical contract is its own canonical contract.
use next_level_agent.Base.{
  ◌≡◌, refl, subst, ap, String, Bool, true, false, ◌||◌, not, Option, none, some, List, [], ◌∷◌,
  map, any, eqb, length, Dict, ◌==◌, arith,
}
use next_level_agent.Base.Order.{insert_sorted, sort_by}
use next_level_agent.Base.Sorting.{sort_by-IsChain}
use next_level_agent.Base.Distinct.{sort_by-unique_again}
use next_level_agent.Base.TextOrder.{text_le, text_connex}
use next_level_agent.Base.Result.{ok, throw_if-eq-ok, ok_injective}
use next_level_agent.Base.Texts.{unique, dedupe, includes}
use next_level_agent.Recovery.Contract.{
  invalid_contract, duplicate_criterion, Criterion, BrowserTask, Contract, canonical_criterion,
  raw_of, ids_of, is_true, granted, or_no_files, is_empty, sorted_texts, canonical_contract,
  as_task,
}

sorted_texts_again : (xs : List String) → sorted_texts (sorted_texts xs) ≡ sorted_texts xs
sorted_texts_again xs = sort_by-unique_again text_le xs (sort_by-IsChain text_le text_connex _)

insert_sorted-is_empty :
    (x : String) (xs : List String) → is_empty (insert_sorted text_le x xs) ≡ false
unfolding insert_sorted is_empty
insert_sorted-is_empty x [] = refl
insert_sorted-is_empty x (y ∷ ys) = ground arith

sorted_texts-is_empty : (xs : List String) → is_empty (sorted_texts xs) ≡ is_empty xs
unfolding is_empty sort_by dedupe includes
sorted_texts-is_empty [] = refl
sorted_texts-is_empty (x ∷ xs) =
    unfold is_empty in insert_sorted-is_empty x (sort_by text_le (dedupe (x ∷ []) xs))

is_true_again : (o : Option Bool) → is_true (some (is_true o)) ≡ is_true o
unfolding is_true
is_true_again none = refl
is_true_again (some true) = refl
is_true_again (some false) = refl

granted_again : (permissions : Dict Bool) → granted (granted permissions) ≡ granted permissions
unfolding granted
granted_again permissions = simp is_true_again

criteria_again : (cs : List Criterion) → map canonical_criterion (map raw_of cs) ≡ cs
unfolding canonical_criterion
criteria_again [] = refl
criteria_again (c ∷ cs) = ap (◌∷◌ c) (criteria_again cs)

-- The canonical contract of a task is itself canonical: as a task it gives the same contract again.
pub canonical_contract-as_task :
    (task : BrowserTask) {c : Contract}
    → canonical_contract task ≡ ok c
    → canonical_contract (as_task c) ≡ ok c
unfolding canonical_contract as_task or_no_files
canonical_contract-as_task task h =
    let cs : List Criterion = map canonical_criterion task.success_criteria in
    let (t1, k1) =
      throw_if-eq-ok (task.goal == "" || is_empty task.origins || is_empty cs) invalid_contract _
        h in
    let (t2, k2) = throw_if-eq-ok (any (λ (c : Criterion). c.id == "") cs) invalid_contract _ k1 in
    let (t3, k3) =
      throw_if-eq-ok (not (eqb (length (unique (ids_of cs))) (length cs))) duplicate_criterion _
        k2 in
    subst (λ (c : Contract). canonical_contract (as_task c) ≡ ok c) (ok_injective k3)
      (rw (criteria_again cs, sorted_texts-is_empty task.origins, t1, t2, t3)
        (rw (
          sorted_texts_again task.origins,
          granted_again task.permissions,
          sorted_texts_again (or_no_files task.upload_files),
        )))
