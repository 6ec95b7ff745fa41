-- ===== src/Recovery/Starts.antt =====
-- nla-browser-recovery.mjs: a new task on a machine that has no store yet.
use next_level_agent.Base.{
  ◌≡◌, refl, sym, ap, ◌∙◌, String, true, false, ◌||◌, not, Option, none, some, List, [], ◌∷◌, map,
  any, eqb, length, ◌==◌, eq_refl, Bool-cases, inl, inr, arith,
}
use next_level_agent.Base.Result.{ok, throw_if-eq-ok, ok_injective}
use next_level_agent.Base.Texts.{unique, dedupe, includes, same_texts_refl}
use next_level_agent.Recovery.Ids.{valid_id, safe_session, is_token}
use next_level_agent.Recovery.Contract.{
  invalid_contract, duplicate_criterion, canonical_criterion, ids_of, is_empty, Criterion,
  BrowserTask, Contract, Digests, definition_hash, requirement_hash, canonical_contract,
  browser_requirement_hash, as_task, policy_for,
}
use next_level_agent.Recovery.Store.{
  expose, refresh, pending_for, pending_ids, next_of, tracked_for, record_for, new_record,
  select_required, select_record, the_one, is_task, replace,
}
use next_level_agent.Recovery.Validate.{
  World, same_next, valid_criteria, has_provenance, claim_is_valid, valid_contract, valid_record,
  valid_store,
}
use next_level_agent.Recovery.Tasks.{
  fresh, holding, open_store, transaction, check_result, commit, begin_or_resume, begin_new,
  begin_with, begin_browser_recovery, with_claim, has_none, claim_action, claim_task,
}
use next_level_agent.Recovery.Release.{transaction-ok}
use next_level_agent.Recovery.Canonical.{canonical_contract-as_task}

same_next_refl : (n : Option (String × List String)) → same_next n n ≡ true
unfolding same_next
same_next_refl none = refl
same_next_refl (some (id, ids)) = rw (eq_refl id, same_texts_refl ids) refl

valid_criteria-tracked_for :
    (d : Digests) (ks : List Criterion) → valid_criteria d [] (map (tracked_for d) ks) ks ≡ true
unfolding valid_criteria tracked_for has_provenance
valid_criteria-tracked_for d [] = refl
valid_criteria-tracked_for d (k ∷ ks) = elim (Bool-cases k.mandatory) [
  | inl e ↦
      rw (eq_refl k.id, eq_refl (definition_hash d k), e, valid_criteria-tracked_for d ks) refl
  | inr e ↦
      rw (eq_refl k.id, eq_refl (definition_hash d k), e, valid_criteria-tracked_for d ks) refl
]

module _ (w : World) (owner uuid : String) (task : BrowserTask) {c : Contract} where
  module _ (canonical : canonical_contract task ≡ ok c) where
    requirement_hash-as_task :
        browser_requirement_hash w.digests (as_task c) ≡ ok (requirement_hash w.digests c)
    unfolding browser_requirement_hash
    requirement_hash-as_task = rw (canonical_contract-as_task task canonical) refl

    valid_contract-record_for : valid_contract w.digests (record_for w.digests owner uuid c) ≡ true
    unfolding valid_contract record_for refresh
    valid_contract-record_for =
        rw
          (
            canonical_contract-as_task task canonical,
            eq_refl (w.digests.contract_json c),
            requirement_hash-as_task,
            eq_refl (requirement_hash w.digests c),
            eq_refl (w.digests.policy_json (policy_for c)),
          )
          (valid_criteria-tracked_for w.digests c.success_criteria)

    module _ (claim : Option String) (sound : claim_is_valid claim ≡ true)
        (session : safe_session owner ≡ true) (id : valid_id uuid ≡ true) where
      valid_record-record_for :
          valid_record w (with_claim claim (record_for w.digests owner uuid c)) ≡ true
      unfolding valid_record valid_contract record_for refresh
      valid_record-record_for =
          rw (session, id, sound)
            (rw valid_contract-record_for (
              rw
                (same_next_refl
                  (next_of (pending_ids (map (tracked_for w.digests) c.success_criteria))))
                (eq_refl (w.attempts_json []))))

      valid_store-record_for :
          valid_store w (with_claim claim (record_for w.digests owner uuid c) ∷ []) ≡ true
      unfolding valid_store dedupe includes record_for refresh
      valid_store-record_for = rw valid_record-record_for refl

some_criteria :
    (task : BrowserTask) {c : Contract}
    → canonical_contract task ≡ ok c
    → is_empty c.success_criteria ≡ false
unfolding canonical_contract
some_criteria task h =
    let cs : List Criterion = map canonical_criterion task.success_criteria in
    let (t1, k1) =
      throw_if-eq-ok (task.goal == "" || is_empty task.origins || is_empty cs) invalid_contract _
        h in
    let (t2, k2) = throw_if-eq-ok (any (λ (c : Criterion). c.id == "") cs) invalid_contract _ k1 in
    let (t3, k3) =
      throw_if-eq-ok (not (eqb (length (unique (ids_of cs))) (length cs))) duplicate_criterion _
        k2 in
    ap (λ (c : Contract). is_empty c.success_criteria) (sym (ok_injective k3)) ∙ ground arith

pending_ids-tracked_for :
    (d : Digests) (ks : List Criterion)
    → has_none (pending_ids (map (tracked_for d) ks)) ≡ is_empty ks
unfolding is_empty tracked_for
pending_ids-tracked_for d [] = refl
pending_ids-tracked_for d (k ∷ ks) = refl

module _ (w : World) (owner uuid token : String) (task : BrowserTask) {c : Contract}
    (canonical : canonical_contract task ≡ ok c) (session : safe_session owner ≡ true)
    (id : valid_id uuid ≡ true) where
  begin-fresh : begin_browser_recovery w fresh owner task none uuid ≡ (
    holding (record_for w.digests owner uuid c ∷ []),
    ok (expose (record_for w.digests owner uuid c)),
  )
  unfolding begin_browser_recovery begin_with transaction open_store begin_or_resume begin_new
      new_record check_result commit claim_is_valid valid_store record_for expose valid_record
      refresh
  begin-fresh =
      rw
        (
          canonical,
          session,
          canonical_contract-as_task task canonical,
          valid_store-record_for w owner uuid task canonical none refl session id,
        )
        refl

  claim_action-new :
      claim_action w.digests owner uuid token (some (record_for w.digests owner uuid c ∷ [])) ≡ (
        let r = with_claim (some (w.digests.digest token)) (record_for w.digests owner uuid c) in
        ok (r ∷ [], expose r))
  unfolding claim_action select_required select_record the_one is_task replace record_for refresh
  claim_action-new =
      rw (session, id, eq_refl owner, eq_refl uuid)
        (rw (pending_ids-tracked_for w.digests c.success_criteria, some_criteria task canonical))

pending_ids-names :
    (d : Digests) (ks : List Criterion)
    → pending_ids (map (tracked_for d) ks) ≡ map (λ (k : Criterion). k.id) ks
unfolding tracked_for
pending_ids-names d [] = refl
pending_ids-names d (k ∷ ks) = ap (◌∷◌ k.id) (pending_ids-names d ks)

-- The start of the first task, in a valid session, succeeds, with every criterion pending, and the
-- task can be claimed at once.
pub begin-claim_fresh :
    (w : World) (owner uuid token : String) (task : BrowserTask) {c : Contract}
    → canonical_contract task ≡ ok c
    → safe_session owner ≡ true
    → valid_id uuid ≡ true
    → is_token (w.digests.digest token) ≡ true
    → let r = record_for w.digests owner uuid c in
      let claimed = with_claim (some (w.digests.digest token)) r in
      (begin_browser_recovery w fresh owner task none uuid ≡ (holding (r ∷ []), ok (expose r)))
      × (pending_for r ≡ map (λ (k : Criterion). k.id) c.success_criteria)
      × (claim_task w (holding (r ∷ [])) owner uuid token
          ≡ (holding (claimed ∷ []), ok (expose claimed)))
unfolding claim_task
begin-claim_fresh w owner uuid token task {c} canonical session id hashed =
    let r = record_for w.digests owner uuid c in
    let claimed = with_claim (some (w.digests.digest token)) r in
    (
      begin-fresh w owner uuid token task canonical session id,
      (unfold record_for refresh in pending_ids-names w.digests c.success_criteria),
      rw id (
          transaction-ok w (r ∷ []) (claimed ∷ []) (expose claimed) true
            (claim_action w.digests owner uuid token)
            (unfold claim_is_valid record_for refresh in
              valid_store-record_for w owner uuid task canonical none refl session id)
            (claim_action-new w owner uuid token task canonical session id)
            (valid_store-record_for w owner uuid task canonical (some (w.digests.digest token))
              (unfold claim_is_valid in hashed) session id)),
    )
