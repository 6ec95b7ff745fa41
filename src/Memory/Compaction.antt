-- ===== src/Memory/Compaction.antt =====
-- nla-compaction.mjs: the checkpoint that a model proposes, and what is taken of it.
use next_level_agent.Base.{
  ℕ, String, Bool, true, false, ◌&&◌, not, Option, none, some, List, [], ◌∷◌, Dict, lookup, any,
  all, eqb, if◌then◌else◌, ◌==◌,
}
use next_level_agent.Base.Result.{Result, ok, err, ◌>>=◌, ◌>>◌, throw_if}
use next_level_agent.Base.Texts.{includes}
use next_level_agent.Memory.Ledger.{
  Value, Ledger, Platform, LedgerError, no_text, invalid_json, not_an_object, omitted, altered,
  lost, lost_provenance, ledger_keys, normalize_ledger,
}

-- JSON.parse: an object, or another value.
pub data Parsed : Type 0 where
  unreadable not_object : Parsed
  members : Dict Value → Parsed

-- `is_blank` is an empty `trim()`; `parse` drops the Markdown fences, then reads the JSON.
pub record Reader : Type 0 where
  pub is_blank : String → Bool
  pub parse : String → Parsed

pub record Pool : Type 0 where
  pub enabled : Bool
  pub models : List String

unfoldable pub configured_compactor_pool : Reader → Option Pool → Bool
configured_compactor_pool r none = false
configured_compactor_pool r (some pool) = pool.enabled && any (λ m. not (r.is_blank m)) pool.models

has_key : Dict Value → String → Bool
unfolding lookup
has_key source key = elim (lookup key source) [ none ↦ false | some v ↦ true ]

unfoldable pub all_present : Dict Value → List String → Result LedgerError (Unit {0})
unfolding has_key
all_present source [] = ok tt
all_present source (key ∷ keys) =
    throw_if (not (has_key source key)) (omitted key) >> all_present source keys

unfoldable pub read_object : Parsed → Result LedgerError (Dict Value)
read_object unreadable = err invalid_json
read_object not_object = err not_an_object
read_object (members source) = ok source

-- Which of the objective fields the ledger has as its own (`hasOwnProperty`).
pub record Owned : Type 0 where
  pub repository_state : Bool
  pub verification_evidence : Bool
  pub reconciliation : Bool
  pub verification_status : Bool

-- checkpoint[key] = ledger[key], for what belongs to the runtime and the ledger has
unfoldable pub with_objective : Owned → Ledger → Ledger → Ledger
with_objective owned l c = record c {
  repository_state = if owned.repository_state then l.repository_state else c.repository_state;
  verification_evidence =
      if owned.verification_evidence then l.verification_evidence else c.verification_evidence;
  reconciliation = if owned.reconciliation then l.reconciliation else c.reconciliation;
  verification_status =
      if owned.verification_status then l.verification_status else c.verification_status;
}

unfoldable pub same_option : Option String → Option String → Bool
same_option none none = true
same_option none (some b) = false
same_option (some a) none = false
same_option (some a) (some b) = a == b

unfoldable pub same_tier : Option ℕ → Option ℕ → Bool
same_tier none none = true
same_tier none (some b) = false
same_tier (some a) none = false
same_tier (some a) (some b) = eqb a b

is_empty : List String → Bool
is_empty [] = true
is_empty (x ∷ xs) = false

-- A list that is not empty stays so, and keeps each entry.
unfoldable pub keeps_entries : String → List String → List String → Result LedgerError (Unit {0})
unfolding is_empty
keeps_entries key compacted held =
    throw_if (not (is_empty held) && is_empty compacted) (lost key)
    >> throw_if (not (all (includes compacted) held)) (lost_provenance key)

unfoldable pub check_exact : Ledger → Ledger → Result LedgerError (Unit {0})
unfolding same_option same_tier
check_exact l c =
    throw_if (not (same_option c.goal l.goal)) (altered "goal")
    >> throw_if (not (same_tier c.tier l.tier)) (altered "tier")
    >> throw_if (not (same_option c.workflow_stage l.workflow_stage)) (altered "workflow_stage")
    >> throw_if (not (same_option c.active_task l.active_task)) (altered "active_task")
    >> throw_if (not (same_option c.pending_gate l.pending_gate)) (altered "pending_gate")
    >> throw_if (not (same_option c.next_step l.next_step)) (altered "next_step")

unfoldable pub check_lists : Ledger → Ledger → Result LedgerError (Unit {0})
unfolding keeps_entries
check_lists l c =
    keeps_entries "acceptance_criteria" c.acceptance_criteria l.acceptance_criteria
    >> keeps_entries "approved_decisions" c.approved_decisions l.approved_decisions
    >> keeps_entries "changed_files" c.changed_files l.changed_files
    >> keeps_entries "verification" c.verification l.verification
    >> keeps_entries "blockers" c.blockers l.blockers

-- The checks of a checkpoint; the ledger is a normalized one.
unfoldable pub accept : Ledger → Ledger → Result LedgerError Ledger
unfolding check_exact check_lists
accept l c = check_exact l c >> check_lists l c >> ok c

unfoldable pub parse_compactor_output :
    Reader → Platform → Option String → Owned → Ledger → String → String → Result LedgerError Ledger
unfolding read_object all_present with_objective accept
parse_compactor_output r p none owned l session directory = err no_text
parse_compactor_output r p (some output) owned l session directory =
    throw_if (r.is_blank output) no_text >> read_object (r.parse output) >>= λ source.
    all_present source ledger_keys >> normalize_ledger p source session directory >>= λ checkpoint.
    accept l (with_objective owned l checkpoint)

pub data Mode : Type 0 where
  deterministic intelligent : Mode

pub data Cause : Type 0 where
  compactor_not_configured : Cause
  refused : LedgerError → Cause

pub record Checkpoint : Type 0 where
  pub checkpoint : Ledger
  pub mode : Mode
  pub reason : Option Cause

unfoldable pub checkpoint_of : Ledger → Result LedgerError Ledger → Checkpoint
checkpoint_of l (ok c) = record { checkpoint = c; mode = intelligent; reason = none }
checkpoint_of l (err e) = record { checkpoint = l; mode = deterministic; reason = some (refused e) }

-- What `runCompactor` does with the prompt: it throws, or gives the output of a model.
unfoldable pub intelligent_checkpoint :
    Reader
    → Platform
    → Owned
    → Ledger
    → String
    → String
    → Option Pool
    → Result LedgerError (Option String)
    → Checkpoint
unfolding configured_compactor_pool checkpoint_of
intelligent_checkpoint r p owned l session directory pool answer =
    if configured_compactor_pool r pool
    then checkpoint_of l
        (answer >>= λ output. parse_compactor_output r p output owned l session directory)
    else record { checkpoint = l; mode = deterministic; reason = some compactor_not_configured }
