-- ===== src/Recovery/Effects.antt =====
-- nla-browser-recovery.mjs: what a call that succeeds did to the store.
use next_level_agent.Base.{
  ◌≡◌, String, Bool, true, false, ◌||◌, not, Option, none, some, [], ◌∷◌, ◌++◌, any, ◌⊎◌, inl, inr,
  ◌==◌, arith,
}
use next_level_agent.Base.Result.{ok, >>=-eq-ok, throw_if-eq-ok}
use next_level_agent.Recovery.Contract.{
  Contract, Digests, as_task, mismatched_contract, unresolved_claim, nothing_pending,
  token_mismatch, browser_requirement_hash,
}
use next_level_agent.Recovery.Store.{
  Recovery, Store, Exposed, expose, is_claimed, pending_for, unclaimed, select_record,
  select_required, replace, new_record,
}
use next_level_agent.Recovery.Validate.{World}
use next_level_agent.Recovery.Tasks.{
  begin_new, resume, begin_or_resume, claim_action, release_action, token_matches, with_claim,
  is_running, has_none, is_given,
}
use next_level_agent.Recovery.Finalize.{Report, record_of, or_new, finalize_record, create_action}

module _ (s : Store) {t : Store} {v : Exposed} where
  -- A start adds a record or changes nothing.
  pub begins-eq :
      (d : Digests) (owner uuid : String) (contract : Contract) (id : Option String)
      → begin_or_resume d owner uuid contract id s ≡ ok (t, v)
      → (t ≡ s) ⊎ ((r : Recovery) × (t ≡ s ++ (r ∷ [])))
  unfolding begin_or_resume
  begins-eq d owner uuid contract none h =
      let (r, _, e) =
        >>=-eq-ok (new_record d owner uuid (as_task contract)) _ (unfold begin_new in h) in
      inr (r, cc)
  begins-eq d owner uuid contract (some id) h =
      let (r, _, e) = >>=-eq-ok (select_required s owner id) _ (unfold resume in h) in
      let (hash, _, k) = >>=-eq-ok (browser_requirement_hash d (as_task contract)) _ e in
      let (_, l) = throw_if-eq-ok (not (r.requirement_hash == hash)) mismatched_contract _ k in
      let (_, m) = throw_if-eq-ok (is_claimed r.execution_claim) unresolved_claim _ l in inl (cc)

  pub claims-eq :
      (d : Digests) (owner id token : String)
      → claim_action d owner id token (some s) ≡ ok (t, v)
      → (r : Recovery) × (select_required s owner id ≡ ok r)
        × (is_claimed r.execution_claim ≡ false)
        × ((has_none (pending_for r) || any is_running r.attempts) ≡ false)
        × (t ≡ replace owner (some id) (with_claim (some (d.digest token)) r) s)
        × (v ≡ expose (with_claim (some (d.digest token)) r))
  unfolding claim_action
  claims-eq d owner id token h =
      let (r, found, e) = >>=-eq-ok (select_required s owner id) _ h in
      let (free, k) = throw_if-eq-ok (is_claimed r.execution_claim) unresolved_claim _ e in
      let (open_work, l) =
        throw_if-eq-ok (has_none (pending_for r) || any is_running r.attempts) nothing_pending _
          k in
      (r, found, free, open_work, cc, cc)

  pub creates-eq :
      (w : World) (p : Report)
      → create_action w p (some s) ≡ ok (t, v)
      → (u : Store) × (r : Recovery) × (done : Recovery) × (record_of w.digests p s ≡ ok (u, r))
        × (finalize_record w p r ≡ ok done)
        × (t ≡ replace p.owner p.task_id done u)
  unfolding create_action
  creates-eq w p h =
      let ((u, r), e, k) = >>=-eq-ok (record_of w.digests p s) _ h in
      let (done, f, l) = >>=-eq-ok (finalize_record w p r) _ k in (u, r, done, e, f, cc)

pub releases-eq :
    (s : Store) {t : Store} {v : Bool} (d : Digests) (owner id token : String)
    → release_action d owner id token (some s) ≡ ok (t, v)
    → (r : Recovery) × (select_required s owner id ≡ ok r)
      × (token_matches d r token ≡ true)
      × (t ≡ replace owner (some id) (unclaimed r) s)
unfolding release_action
releases-eq s d owner id token h =
    let (r, found, e) = >>=-eq-ok (select_required s owner id) _ h in
    let (good, k) = throw_if-eq-ok (not (token_matches d r token)) token_mismatch _ e in
    (r, found, ground arith, cc)

or_new-eq :
    (d : Digests) (p : Report) (s : Store) (o : Option Recovery) {u : Store} {r : Recovery}
    → select_record s p.owner p.task_id (is_given p.task_id) ≡ ok o
    → or_new d p s o ≡ ok (u, r)
    → ((u ≡ s) × (select_record s p.owner p.task_id (is_given p.task_id) ≡ ok (some r)))
      ⊎ ((select_record s p.owner p.task_id (is_given p.task_id) ≡ ok none)
          × (new_record d p.owner p.uuid p.original ≡ ok r)
          × (u ≡ s ++ (r ∷ [])))
unfolding or_new
or_new-eq d p s (some r) e h = inl (cc, cc)
or_new-eq d p s none e h =
    let (r, made, k) = >>=-eq-ok (new_record d p.owner p.uuid p.original) _ h in inr (e, cc, cc)

-- The record of a run is the one that is found, or a new one behind the others.
pub record_of-eq :
    (d : Digests) (p : Report) (s : Store) {u : Store} {r : Recovery}
    → record_of d p s ≡ ok (u, r)
    → ((u ≡ s) × (select_record s p.owner p.task_id (is_given p.task_id) ≡ ok (some r)))
      ⊎ ((select_record s p.owner p.task_id (is_given p.task_id) ≡ ok none)
          × (new_record d p.owner p.uuid p.original ≡ ok r)
          × (u ≡ s ++ (r ∷ [])))
unfolding record_of
record_of-eq d p s h =
    let (o, e, k) =
      >>=-eq-ok (select_record s p.owner p.task_id (is_given p.task_id)) (or_new d p s) h in
    or_new-eq d p s o e k
