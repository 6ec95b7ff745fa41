-- ===== src/Memory/Ledger.antt =====
-- nla-memory.mjs: `normalizeLedger`, which makes a ledger of any object that was parsed.
-- A nested JSON value is its JSON text, as the code compares nested values by their texts only.
use next_level_agent.Base.{
  ℕ, suc, zero, ◌+◌, String, Bool, not, Option, none, some, List, [], ◌∷◌, Dict, lookup, leb, ltb,
  take, if◌then◌else◌,
}
use next_level_agent.Base.Result.{Result, ok, ◌>>◌, throw_if}
use next_level_agent.Recovery.Ids.{safe_session}

-- A value of the top level. `other` is a Boolean or a number that is not a natural number.
pub data Value : Type 0 where
  null : Value
  integer : ℕ → Value
  text : String → Value
  array : List String → Value
  object : String → Value
  other : String → Value

pub data LedgerError : Type 0 where
  invalid_session too_long holds_secret no_text invalid_json not_an_object : LedgerError
  omitted altered lost lost_provenance : String → LedgerError
  runner_failed : String → LedgerError

abbrev pub ledger_keys : List String
ledger_keys =
    "goal" ∷ "tier" ∷ "workflow_stage" ∷ "acceptance_criteria" ∷ "approved_decisions"
    ∷ "completed_tasks" ∷ "active_task" ∷ "changed_files" ∷ "verification" ∷ "blockers"
    ∷ "pending_gate" ∷ "next_step" ∷ []

-- A ledger; a missing or null field is `none`. `reconciliation` and `verification_status` are what
-- `reconcileWorkState` adds, so a normalized ledger has neither.
pub record Ledger : Type 0 where
  pub session_id : String
  pub directory : String
  pub updated_at : String
  pub tier : Option ℕ
  pub goal : Option String
  pub workflow_stage : Option String
  pub pending_gate : Option String
  pub next_step : Option String
  pub acceptance_criteria : List String
  pub approved_decisions : List String
  pub completed_tasks : List String
  pub changed_files : List String
  pub verification : List String
  pub blockers : List String
  pub active_task : Option String
  pub repository_state : Option String
  pub verification_evidence : List String
  pub reconciliation : Option String
  pub verification_status : Option String

-- The path module, the clock, the length of a JSON text, the pattern of secrets, and whether an entry
-- is an object whose type is "browser" in some case.
pub record Platform : Type 0 where
  pub resolve : String → String
  pub now : String
  pub json_length : Ledger → ℕ
  pub has_secret : Ledger → Bool
  pub is_browser : String → Bool

-- s.slice(0, n), in characters
unfoldable pub first_characters : ℕ → String → String
first_characters zero s = String.[]
first_characters (suc n) String.[] = String.[]
first_characters (suc n) (String.◌∷◌ c s) = String.◌∷◌ c (first_characters n s)

unfoldable pub tier_of : Option Value → Option ℕ
tier_of (some (integer n)) = if leb n 3 then some n else none
tier_of v = none

unfoldable pub items_of : Option Value → List String
items_of (some (array xs)) = xs
items_of v = []

unfoldable pub text_of : Option Value → Option String
text_of (some (text s)) = some (first_characters 8000 s)
text_of v = none

unfoldable pub object_of : Option Value → Option String
object_of (some (object o)) = some o
object_of v = none

-- The filter over the evidence, from a number of ordinary entries on.
unfoldable pub bounded_evidence : (String → Bool) → ℕ → List String → List String
bounded_evidence is_browser n [] = []
bounded_evidence is_browser n (e ∷ es) =
    let same = bounded_evidence is_browser n es in
    let next = bounded_evidence is_browser (n + 1) es in
    if is_browser e then e ∷ same else if leb (n + 1) 100 then e ∷ next else next

unfoldable pub ledger_of : Platform → Dict Value → String → String → Ledger
unfolding lookup tier_of items_of text_of object_of
ledger_of p source session directory = record {
  session_id = session;
  directory = p.resolve directory;
  updated_at = p.now;
  tier = tier_of (lookup "tier" source);
  goal = text_of (lookup "goal" source);
  workflow_stage = text_of (lookup "workflow_stage" source);
  pending_gate = text_of (lookup "pending_gate" source);
  next_step = text_of (lookup "next_step" source);
  acceptance_criteria = take 100 (items_of (lookup "acceptance_criteria" source));
  approved_decisions = take 100 (items_of (lookup "approved_decisions" source));
  completed_tasks = take 100 (items_of (lookup "completed_tasks" source));
  changed_files = take 100 (items_of (lookup "changed_files" source));
  verification = take 100 (items_of (lookup "verification" source));
  blockers = take 100 (items_of (lookup "blockers" source));
  active_task = object_of (lookup "active_task" source);
  repository_state = object_of (lookup "repository_state" source);
  verification_evidence =
      bounded_evidence p.is_browser 0 (items_of (lookup "verification_evidence" source));
  reconciliation = none;
  verification_status = none;
}

unfoldable pub normalize_ledger :
    Platform → Dict Value → String → String → Result LedgerError Ledger
unfolding ledger_of
normalize_ledger p source session directory =
    let state = ledger_of p source session directory in
    throw_if (not (safe_session session)) invalid_session
    >> throw_if (ltb 128000 (p.json_length state)) too_long
    >> throw_if (p.has_secret state) holds_secret
    >> ok state

unfoldable pub text_value : Option String → Value
text_value none = null
text_value (some s) = text s

unfoldable pub object_value : Option String → Value
object_value none = null
object_value (some o) = object o

unfoldable pub tier_value : Option ℕ → Value
tier_value none = null
tier_value (some n) = integer n

-- A normalized ledger as the object that its JSON text is parsed to.
unfoldable pub saved : Ledger → Dict Value
saved l =
    ("session_id", text l.session_id)
    ∷ ("directory", text l.directory)
    ∷ ("updated_at", text l.updated_at)
    ∷ ("goal", text_value l.goal)
    ∷ ("tier", tier_value l.tier)
    ∷ ("workflow_stage", text_value l.workflow_stage)
    ∷ ("acceptance_criteria", array l.acceptance_criteria)
    ∷ ("approved_decisions", array l.approved_decisions)
    ∷ ("completed_tasks", array l.completed_tasks)
    ∷ ("active_task", object_value l.active_task)
    ∷ ("changed_files", array l.changed_files)
    ∷ ("verification", array l.verification)
    ∷ ("blockers", array l.blockers)
    ∷ ("pending_gate", text_value l.pending_gate)
    ∷ ("next_step", text_value l.next_step)
    ∷ ("repository_state", object_value l.repository_state)
    ∷ ("verification_evidence", array l.verification_evidence)
    ∷ []
