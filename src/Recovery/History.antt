-- ===== src/Recovery/History.antt =====
-- nla-browser-recovery.mjs: what no call takes back.
use next_level_agent.Base.{
  ◌≡◌, sym, subst, String, Bool, true, not, Option, none, some, List, [], ◌∷◌, ◌++◌, ◌⊎◌, inl, inr,
  if_either,
}
use next_level_agent.Base.Result.{Result, ok, err}
use next_level_agent.Recovery.Contract.{Blocked, Contract, canonical_contract}
use next_level_agent.Recovery.Ids.{valid_id, is_token}
use next_level_agent.Recovery.Store.{Recovery, Store, Exposed, select_record, replace, new_record}
use next_level_agent.Recovery.Validate.{World}
use next_level_agent.Recovery.Selected.{
  In-replace, In-append_left, select_record-none, select_required-eq,
}
use next_level_agent.Recovery.Tasks.{
  Disk, fresh, damaged, holding, transaction, begin_with, begin_browser_recovery, claim_task,
  release_task, is_given,
}
use next_level_agent.Recovery.Finalize.{Report, finalize_record, create_browser_recovery}
use next_level_agent.Recovery.Calls.{
  Call, begins, claims, releases, creates, apply, run, Holds, transaction-Holds,
}
use next_level_agent.Recovery.Effects.{begins-eq, claims-eq, releases-eq, creates-eq, record_of-eq}
use next_level_agent.Recovery.Extends.{
  Extends-refl, finalize_record-Extends, Keeps, Keeps-refl, Keeps-trans, Keeps-append, Keeps-found,
  with_claim-Extends,
}

module _ (w : World) (s : Store) where
  -- A store after `s` is one after the store that a call finds.
  later :
      {A : Type 0} (found : Store) (required : Bool)
      (action : Option Store → Result Blocked (Store × A))
      → Keeps s found
      → ((t : Store) (v : A) → action (some found) ≡ ok (t, v) → Keeps found t)
      → Holds (Keeps s) (transaction w (holding found) required action).0
  later found required action h k =
      transaction-Holds w (Keeps s) found required action h
        (λ t v e. Keeps-trans s found t h (k t v e))

  begin_with-Keeps :
      (found : Store) (by : String) (task : Option String) (uuid : String)
      (c : Result Blocked Contract)
      → Keeps s found
      → Holds (Keeps s) (begin_with w (holding found) by task uuid c).0
  unfolding begin_with
  begin_with-Keeps found by task uuid (err e) h = h
  begin_with-Keeps found by task uuid (ok c) h =
      later found _ _ h (λ t v e. started t (begins-eq found w.digests by uuid c task e))
    where
      started :
          (t : Store) → (t ≡ found) ⊎ ((r : Recovery) × (t ≡ found ++ (r ∷ []))) → Keeps found t
      started t (inl e) = subst (Keeps found) (sym e) (Keeps-refl found)
      started t (inr (r, e)) = subst (Keeps found) (sym e) (Keeps-append found r)

  claim_task-Keeps :
      (found : Store) (by task token : String)
      → Keeps s found
      → Holds (Keeps s) (claim_task w (holding found) by task token).0
  unfolding claim_task
  claim_task-Keeps found by task token h =
      if_either (λ (r : Disk × Result Blocked Exposed). Holds (Keeps s) r.0) (valid_id task) _ _
        (later found true _ h (λ t v e.
          let (r, here, _, _, made, _) = claims-eq found w.digests by task token e in
          subst (Keeps found) (sym made) (
            Keeps-found found by (some task) true r _ (select_required-eq found by task here)
              (with_claim-Extends _ r))))
        h

  release_task-Keeps :
      (found : Store) (by task token : String)
      → Keeps s found
      → Holds (Keeps s) (release_task w (holding found) by task token).0
  unfolding release_task
  release_task-Keeps found by task token h =
      let Kept = λ (r : Disk × Result Blocked Bool). Holds (Keeps s) r.0 in
      if_either Kept (not (valid_id task)) _ _ h (
        if_either Kept (is_token token) _ _
          (later found true _ h (λ t v e.
            let (r, here, _, made) = releases-eq found w.digests by task token e in
            subst (Keeps found) (sym made) (
              Keeps-found found by (some task) true r _ (select_required-eq found by task here)
                (with_claim-Extends none r))))
          h)

  create-Keeps :
      (found : Store) (p : Report)
      → Keeps s found
      → Holds (Keeps s) (create_browser_recovery w (holding found) p).0
  unfolding create_browser_recovery
  create-Keeps found p h = later found _ _ h (λ t v e.
      let (u, r, done, place, finished, made) = creates-eq found w p e in
      subst (Keeps found) (sym made)
        (recorded u r done finished (record_of-eq w.digests p found place)))
    where
      recorded :
          (u : Store) (r done : Recovery)
          → finalize_record w p r ≡ ok done
          → ((u ≡ found)
              × (select_record found p.owner p.task_id (is_given p.task_id) ≡ ok (some r)))
            ⊎ ((select_record found p.owner p.task_id (is_given p.task_id) ≡ ok none)
                × (new_record w.digests p.owner p.uuid p.original ≡ ok r)
                × (u ≡ found ++ (r ∷ [])))
          → Keeps found (replace p.owner p.task_id done u)
      recorded u r done f (inl (same, here)) =
          subst (λ (v : Store). Keeps found (replace p.owner p.task_id done v)) (sym same)
            (Keeps-found found p.owner p.task_id _ r done here (finalize_record-Extends w p r f))
      recorded u r done f (inr (absent, made, added)) =
          subst (λ (v : Store). Keeps found (replace p.owner p.task_id done v)) (sym added)
            (λ q m. (
              q,
              In-replace p.owner p.task_id done q _ (In-append_left q found (r ∷ []) m)
                  (select_record-none found p.owner p.task_id _ q absent m),
              Extends-refl q,
            ))

  apply-Keeps : (disk : Disk) (c : Call) → Holds (Keeps s) disk → Holds (Keeps s) (apply w disk c)
  apply-Keeps fresh c h = absurd h
  apply-Keeps damaged c h = absurd h
  apply-Keeps (holding t) (begins by task known uuid) h =
      unfold apply begin_browser_recovery in
      begin_with-Keeps t by known uuid (canonical_contract task) h
  apply-Keeps (holding t) (claims by task token) h =
      unfold apply in claim_task-Keeps t by task token h
  apply-Keeps (holding t) (releases by task token) h =
      unfold apply in release_task-Keeps t by task token h
  apply-Keeps (holding t) (creates p) h = unfold apply in create-Keeps t p h

  run-Keeps :
      (disk : Disk) (cs : List Call) → Holds (Keeps s) disk → Holds (Keeps s) (run w disk cs)
  unfolding run
  run-Keeps disk [] h = h
  run-Keeps disk (c ∷ cs) h = run-Keeps (apply w disk c) cs (apply-Keeps disk c h)

-- No call loses a task: its owner, id, contract and policy stay, its evidence only grows, and what is
-- completed stays completed, over all sequences of calls.
pub run-history : (w : World) (s : Store) (cs : List Call) → Holds (Keeps s) (run w (holding s) cs)
run-history w s cs = run-Keeps w s (holding s) cs (Keeps-refl s)
