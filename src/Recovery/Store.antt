-- ===== src/Recovery/Store.antt =====
-- nla-browser-recovery.mjs: the recovery records of the store, and how one is found and replaced.
use next_level_agent.Base.{
  String, Bool, true, false, ◌&&◌, ◌||◌, not, Option, none, some, List, [], ◌∷◌, map, select, ◌==◌,
  if◌then◌else◌,
}
use next_level_agent.Base.Result.{Result, ok, err, ◌>>=◌, ◌>>◌, throw_if}
use next_level_agent.Recovery.Ids.{valid_id, safe_session}
use next_level_agent.Recovery.Contract.{
  Blocked, bad_id, ambiguous_task, Contract, Criterion, Digests, Policy, requirement_hash,
  canonical_contract, BrowserTask, definition_hash, policy_for,
}

pub data Verdict : Type 0 where
  pass fail blocked not_run : Verdict

-- A criterion of a record: pending, or completed by a run.
pub data Progress : Type 0 where
  pending : Progress
  completed : String → Progress

pub record Tracked : Type 0 where
  pub id : String
  pub mandatory : Bool
  pub definition_hash : String
  pub progress : Progress

pub record Check : Type 0 where
  pub id : String
  pub verdict : Verdict

-- An attempt: `result` and `evidence` (a path and its hash) are `none` while it runs.
pub record Attempt : Type 0 where
  pub task_id : String
  pub owner : String
  pub run_id : String
  pub browser_session_id : String
  pub child_id : Option String
  pub head : Option String
  pub result : Option Verdict
  pub reason : Option String
  pub checks : List Check
  pub pending_criteria : List String
  pub evidence : Option (String × String)

pub record Recovery : Type 0 where
  pub owner : String
  pub task_id : String
  pub requirement_hash : String
  pub contract : Contract
  pub policy : Policy
  pub criteria : List Tracked
  pub attempts : List Attempt
  pub evidence : List Attempt
  pub next_pending : Option (String × List String)
  pub execution_claim : Option String

abbrev pub Store : Type 0
Store = List Recovery

abbrev pub is_pending : Progress → Bool
is_pending pending = true
is_pending (completed run) = false

abbrev pub pending_ids : List Tracked → List String
pending_ids cs = map (λ (c : Tracked). c.id) (select (λ (c : Tracked). is_pending c.progress) cs)

abbrev pub pending_for : Recovery → List String
pending_for r = pending_ids r.criteria

abbrev pub next_of : List String → Option (String × List String)
next_of [] = none
next_of (id ∷ ids) = some (id, id ∷ ids)

unfoldable pub refresh : Recovery → Recovery
refresh r = record r { next_pending = next_of (pending_for r) }

-- The view of a record that callers get: without the claim.
pub record Exposed : Type 0 where
  pub recovery : Recovery
  pub pending_criteria : List String
  pub is_unknown : Bool

abbrev pub is_claimed : Option String → Bool
is_claimed none = false
is_claimed (some c) = true

abbrev pub unclaimed : Recovery → Recovery
unclaimed r = record r { execution_claim = none }

unfoldable pub expose : Recovery → Exposed
expose r = record {
  recovery = unclaimed r;
  pending_criteria = pending_for r;
  is_unknown = is_claimed r.execution_claim;
}

-- owner_session_id === owner && (taskID === undefined || task_id === taskID)
unfoldable pub is_task : String → Option String → Recovery → Bool
is_task owner none r = r.owner == owner
is_task owner (some id) r = r.owner == owner && r.task_id == id

unfoldable pub the_one : Bool → List Recovery → Result Blocked (Option Recovery)
the_one required [] = if required then err ambiguous_task else ok none
the_one required (r ∷ []) = ok (some r)
the_one required (r ∷ (s ∷ rs)) = err ambiguous_task

abbrev pub id_is_bad : Option String → Bool
id_is_bad none = false
id_is_bad (some id) = not (valid_id id)

unfoldable pub select_record :
    Store → String → Option String → Bool → Result Blocked (Option Recovery)
select_record store owner task_id required =
    throw_if (not (safe_session owner) || id_is_bad task_id) bad_id
    >> the_one required (select (is_task owner task_id) store)

abbrev pub must_be : Option Recovery → Result Blocked Recovery
must_be none = err ambiguous_task
must_be (some r) = ok r

unfoldable pub select_required : Store → String → String → Result Blocked Recovery
select_required store owner id = select_record store owner (some id) true >>= must_be

-- The assignments to the record that was selected.
unfoldable pub replace : String → Option String → Recovery → Store → Store
replace owner task_id new [] = []
replace owner task_id new (r ∷ rs) =
    let rest = replace owner task_id new rs in
    if is_task owner task_id r then new ∷ rest else r ∷ rest

unfoldable pub tracked_for : Digests → Criterion → Tracked
tracked_for d c = record {
  id = c.id;
  mandatory = c.mandatory;
  definition_hash = definition_hash d c;
  progress = pending;
}

unfoldable pub record_for : Digests → String → String → Contract → Recovery
record_for d owner task_id contract = refresh (record {
  owner = owner;
  task_id = task_id;
  requirement_hash = requirement_hash d contract;
  contract = contract;
  policy = policy_for contract;
  criteria = map (tracked_for d) contract.success_criteria;
  attempts = [];
  evidence = [];
  next_pending = none;
  execution_claim = none;
})

-- `task_id` is the UUID that `randomUUID` gave.
unfoldable pub new_record : Digests → String → String → BrowserTask → Result Blocked Recovery
new_record d owner task_id task =
    throw_if (not (safe_session owner)) bad_id >> canonical_contract task >>= λ contract.
    ok (record_for d owner task_id contract)
