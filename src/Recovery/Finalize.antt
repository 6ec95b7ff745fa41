-- ===== src/Recovery/Finalize.antt =====
-- nla-browser-recovery.mjs: `createBrowserRecovery`, which records the end of a run.
use next_level_agent.Base.{
  String, Bool, false, ◌&&◌, ◌||◌, not, Option, none, some, List, [], ◌∷◌, ◌++◌, map, any, all, eqb,
  length, ◌==◌, if◌then◌else◌,
}
use next_level_agent.Base.Order.{◌or_else◌}
use next_level_agent.Base.Result.{Result, ok, err, ◌>>=◌, ◌>>◌, throw_if}
use next_level_agent.Base.Texts.{includes}
use next_level_agent.Recovery.Contract.{
  Blocked, unreadable_evidence, mismatched_contract, token_mismatch, executed_mismatch,
  checks_mismatch, already_finalized, unfinished_attempt, replayed, identity_changed, Criterion,
  Contract, BrowserTask, Digests, canonical_contract, browser_requirement_hash,
}
use next_level_agent.Recovery.Store.{
  Verdict, completed, Tracked, Check, Attempt, Recovery, Store, Exposed, expose, refresh,
  is_claimed, pending_for, unclaimed, select_record, replace, new_record,
}
use next_level_agent.Recovery.Validate.{
  World, Manifest, check_summary, ids_of_checks, passes, is_finished, same_text,
}
use next_level_agent.Recovery.Tasks.{
  Disk, transaction, or_none_yet, is_given, is_running, token_matches,
}

-- The session and the result of a run; a missing or empty child or head is `none`.
pub record Run : Type 0 where
  pub run_id : String
  pub session_id : String
  pub child : Option String
  pub head : Option String
  pub evidence : String
  pub result : Verdict

-- The arguments of one call, beside the store.
pub record Report : Type 0 where
  pub owner : String
  pub task_id : Option String
  pub token : Option String
  pub uuid : String
  pub task : BrowserTask
  pub original : BrowserTask
  pub run : Run
  pub checks : List Check

unfoldable pub or_new :
    Digests → Report → Store → Option Recovery → Result Blocked (Store × Recovery)
or_new d p s (some r) = ok (s, r)
or_new d p s none = new_record d p.owner p.uuid p.original >>= λ r. ok (s ++ (r ∷ []), r)

-- The record that the run belongs to; without a task id and a record a new one is added.
unfoldable pub record_of : Digests → Report → Store → Result Blocked (Store × Recovery)
unfolding or_new
record_of d p s = select_record s p.owner p.task_id (is_given p.task_id) >>= or_new d p s

unfoldable pub token_is_bad : Digests → Recovery → Option String → Bool
token_is_bad d r none = is_claimed r.execution_claim
token_is_bad d r (some token) = not (token_matches d r token)

same_criterion : Digests → Criterion → Criterion → Bool
same_criterion d a b = d.criterion_json a == d.criterion_json b

-- The run executed the contract of the record, with some of its criteria.
unfoldable pub executes : Digests → Contract → Contract → Bool
unfolding same_criterion
executes d contract executed =
    d.contract_json executed
      == d.contract_json (record contract { success_criteria = executed.success_criteria })
    && all (λ (c : Criterion). any (same_criterion d c) contract.success_criteria)
        executed.success_criteria

-- The checks are of the executed criteria, as many as these.
unfoldable pub checks_fit : List Check → List Criterion → Bool
checks_fit cs ks =
    eqb (length cs) (length ks)
    && all (includes (map (λ (k : Criterion). k.id) ks)) (ids_of_checks cs)

unfoldable pub find_run : String → List Attempt → Option Attempt
find_run run [] = none
find_run run (a ∷ more) = if a.run_id == run then some a else find_run run more

unfoldable pub is_done : Option Attempt → Bool
is_done none = false
is_done (some a) = is_finished a.result

unfoldable pub another_runs : String → List Attempt → Bool
another_runs run = any (λ (a : Attempt). is_running a && not (a.run_id == run))

pending_before : Option Attempt → Recovery → List String
pending_before none r = pending_for r
pending_before (some a) r = a.pending_criteria

unfoldable pub attempt_for :
    World → Report → Recovery → Option Attempt → String → Manifest → Attempt
unfolding pending_before
attempt_for w p r previous bytes m = record {
  task_id = r.task_id;
  owner = p.owner;
  run_id = p.run.run_id;
  browser_session_id = p.run.session_id;
  child_id = p.run.child or_else m.task_id;
  head = p.run.head;
  result = some p.run.result;
  reason = m.reason;
  checks = p.checks;
  pending_criteria = pending_before previous r;
  evidence = some (p.run.evidence, w.digests.digest bytes);
}

child_changed : Option String → Option String → Bool
child_changed none new = false
child_changed (some old) new = not (same_text (some old) new)

unfoldable pub changes_identity : Option Attempt → Attempt → Bool
unfolding child_changed
changes_identity none new = false
changes_identity (some a) new =
    not (a.browser_session_id == new.browser_session_id)
    || not (same_text a.head new.head)
    || child_changed a.child_id new.child_id

-- In place of the attempt that ran, or at the end.
unfoldable pub put_attempt : Attempt → List Attempt → List Attempt
put_attempt new [] = new ∷ []
put_attempt new (a ∷ more) =
    let rest = put_attempt new more in if a.run_id == new.run_id then new ∷ more else a ∷ rest

unfoldable pub complete : String → List Check → Tracked → Tracked
complete run checks c = if passes c.id checks then record c { progress = completed run } else c

unfoldable pub finish : Attempt → Recovery → Recovery
finish a r = unclaimed (
    refresh (record r {
      attempts = put_attempt a r.attempts;
      evidence = r.evidence ++ (a ∷ []);
      criteria = map (complete a.run_id a.checks) r.criteria;
    }))

unfoldable pub read_evidence : World → String → Result Blocked (String × Manifest)
read_evidence w path = elim (w.content path) [
  | none ↦ err unreadable_evidence
  | some bytes ↦ elim (w.parse_manifest bytes) [
    | none ↦ err unreadable_evidence
    | some m ↦ ok (bytes, m)
  ]
]

-- The tests before the evidence is read.
unfoldable pub admit : Digests → Report → Recovery → Result Blocked (Unit {0})
unfolding token_is_bad is_done another_runs
admit d p r =
    throw_if (token_is_bad d r p.token) token_mismatch
    >> browser_requirement_hash d p.original
    >>= λ hash.
        throw_if (not (r.requirement_hash == hash)) mismatched_contract
        >> canonical_contract p.task
        >>= λ executed.
            throw_if (not (executes d r.contract executed)) executed_mismatch
            >> check_summary p.checks
            >>= λ summary.
                throw_if (not (checks_fit summary executed.success_criteria)) checks_mismatch
                >> throw_if (is_done (find_run p.run.run_id r.attempts)) already_finalized
                >> throw_if (another_runs p.run.run_id r.attempts) unfinished_attempt
                >> throw_if (not (all (includes (pending_for r)) (ids_of_checks summary))) replayed

unfoldable pub finalize_record : World → Report → Recovery → Result Blocked Recovery
unfolding read_evidence changes_identity
finalize_record w p r = admit w.digests p r >> read_evidence w p.run.evidence >>= λ (bytes, m).
    (let previous = find_run p.run.run_id r.attempts in
      let a = attempt_for w p r previous bytes m in
      throw_if (changes_identity previous a) identity_changed >> ok (finish a r))

unfoldable pub create_action : World → Report → Option Store → Result Blocked (Store × Exposed)
create_action w p current = record_of w.digests p (or_none_yet current) >>= λ (s, r).
    finalize_record w p r >>= λ done. ok (replace p.owner p.task_id done s, expose done)

unfoldable pub create_browser_recovery : World → Disk → Report → Disk × Result Blocked Exposed
create_browser_recovery w disk p = transaction w disk (is_given p.task_id) (create_action w p)
