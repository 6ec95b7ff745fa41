-- ===== src/Recovery/Contract.antt =====
-- nla-browser-recovery.mjs: the canonical contract of a Browser task.
-- Canonical JSON texts and SHA-256 digests are parameters. A failure names its check; in the source
-- all carry the code NLA_BROWSER_RECOVERY_BLOCKED.
use next_level_agent.Base.{
  ℕ, String, Bool, true, false, ◌||◌, not, Option, none, some, List, [], ◌∷◌, map, Dict, lookup,
  length, eqb, select, any, ◌==◌,
}
use next_level_agent.Base.Order.{sort_by}
use next_level_agent.Base.Result.{Result, ok, ◌>>=◌, ◌>>◌, throw_if}
use next_level_agent.Base.Texts.{unique}
use next_level_agent.Base.TextOrder.{text_le}

pub data Blocked : Type 0 where
  invalid_contract duplicate_criterion invalid_checks bad_id ambiguous_task no_storage : Blocked
  damaged_storage invalid_store unreadable_evidence mismatched_contract unresolved_claim : Blocked
  nothing_pending token_mismatch executed_mismatch checks_mismatch already_finalized : Blocked
  unfinished_attempt replayed identity_changed missing_task : Blocked

abbrev pub rights : List String
rights =
    "navigation" ∷ "interaction" ∷ "authentication" ∷ "uploads" ∷ "downloads" ∷ "external_mutation"
    ∷ []

-- A success criterion of a task; `rest` is what it holds beside these fields.
pub record RawCriterion : Type 0 where
  pub id : String
  pub check : String
  pub mandatory : Option Bool
  pub wait_ms : Option ℕ
  pub rest : Dict String

pub record Criterion : Type 0 where
  pub id : String
  pub check : String
  pub mandatory : Bool
  pub wait_ms : ℕ
  pub rest : Dict String

pub record BrowserTask : Type 0 where
  pub goal : String
  pub origins : List String
  pub permissions : Dict Bool
  pub upload_files : Option (List String)
  pub success_criteria : List RawCriterion

pub record Contract : Type 0 where
  pub goal : String
  pub origins : List String
  pub permissions : Dict Bool
  pub upload_files : List String
  pub success_criteria : List Criterion

-- mandatory !== false
unfoldable pub is_mandatory : Option Bool → Bool
is_mandatory none = true
is_mandatory (some b) = b

unfoldable pub or_second : Option ℕ → ℕ
or_second none = 1000
or_second (some n) = n

unfoldable pub canonical_criterion : RawCriterion → Criterion
unfolding is_mandatory or_second
canonical_criterion c = record {
  id = c.id;
  check = c.check;
  mandatory = is_mandatory c.mandatory;
  wait_ms = or_second c.wait_ms;
  rest = c.rest;
}

abbrev pub ids_of : List Criterion → List String
ids_of = map (λ (c : Criterion). c.id)

unfoldable pub is_true : Option Bool → Bool
is_true (some true) = true
is_true o = false

-- Object.fromEntries(RIGHTS.map(right => [right, permissions[right] === true]))
unfoldable pub granted : Dict Bool → Dict Bool
unfolding is_true lookup
granted permissions = map (λ right. (right, is_true (lookup right permissions))) rights

unfoldable pub or_no_files : Option (List String) → List String
or_no_files none = []
or_no_files (some files) = files

unfoldable pub is_empty {ℓ} : {A : Type ℓ} → List A → Bool
is_empty [] = true
is_empty (x ∷ xs) = false

abbrev pub sorted_texts : List String → List String
sorted_texts xs = sort_by text_le (unique xs)

unfoldable pub canonical_contract : BrowserTask → Result Blocked Contract
unfolding granted or_no_files is_empty
canonical_contract task =
    let criteria = map canonical_criterion task.success_criteria in
    throw_if (task.goal == "" || is_empty task.origins || is_empty criteria) invalid_contract
    >> throw_if (any (λ (c : Criterion). c.id == "") criteria) invalid_contract
    >> throw_if (not (eqb (length (unique (ids_of criteria))) (length criteria)))
        duplicate_criterion
    >> ok record {
      goal = task.goal;
      origins = sorted_texts task.origins;
      permissions = granted task.permissions;
      upload_files = sorted_texts (or_no_files task.upload_files);
      success_criteria = criteria;
    }

-- A contract is itself a task: the source passes contracts where tasks are expected.
abbrev pub raw_of : Criterion → RawCriterion
raw_of c = record {
  id = c.id;
  check = c.check;
  mandatory = some c.mandatory;
  wait_ms = some c.wait_ms;
  rest = c.rest;
}

unfoldable pub as_task : Contract → BrowserTask
as_task c = record {
  goal = c.goal;
  origins = c.origins;
  permissions = c.permissions;
  upload_files = some c.upload_files;
  success_criteria = map raw_of c.success_criteria;
}

pub record Policy : Type 0 where
  pub origins : List String
  pub permissions : Dict Bool
  pub prohibitions : List String
  pub upload_files : List String

unfoldable pub policy_for : Contract → Policy
unfolding is_true lookup
policy_for c = record {
  origins = c.origins;
  permissions = c.permissions;
  prohibitions = select (λ right. not (is_true (lookup right c.permissions))) rights;
  upload_files = c.upload_files;
}

-- The canonical JSON texts, and the digest of a text.
pub record Digests : Type 0 where
  pub contract_json : Contract → String
  pub criterion_json : Criterion → String
  pub policy_json : Policy → String
  pub digest : String → String

abbrev pub requirement_hash : Digests → Contract → String
requirement_hash d c = d.digest (d.contract_json c)

abbrev pub definition_hash : Digests → Criterion → String
definition_hash d c = d.digest (d.criterion_json c)

unfoldable pub browser_requirement_hash : Digests → BrowserTask → Result Blocked String
browser_requirement_hash d task = canonical_contract task >>= λ c. ok (requirement_hash d c)
