-- ===== src/Memory/Examples.antt =====
-- A ledger and its compaction at concrete inputs.
use next_level_agent.Base.{
  ◌≡◌, refl, String, Bool, true, false, none, some, [], ◌∷◌, Dict, ◌==◌, lookup, length,
  if◌then◌else◌,
}
use next_level_agent.Base.Result.{ok}
use next_level_agent.Base.Texts.{includes}
use next_level_agent.Recovery.Ids.{safe_session}
use next_level_agent.Memory.Ledger.{
  Value, null, integer, text, array, object, other, Ledger, altered, Platform, first_characters,
  tier_of, items_of, text_of, object_of, bounded_evidence, ledger_of, normalize_ledger, saved,
}
use next_level_agent.Memory.Compaction.{
  members, Reader, Pool, intelligent, refused, configured_compactor_pool, read_object, all_present,
  Owned, with_objective, same_option, same_tier, keeps_entries, check_exact, check_lists, accept,
  parse_compactor_output, checkpoint_of, intelligent_checkpoint,
}
use next_level_agent.Memory.Normal.{normalize_ledger-saved}
use next_level_agent.Memory.Kept.{Keeps, intelligent_checkpoint-Keeps}

abbrev is_browser : String → Bool
is_browser e = e == "browser"

abbrev platform : Platform
platform = record {
  resolve = λ d. d;
  now = "2026-09-21";
  json_length = λ l. length l.verification_evidence;
  has_secret = λ l. false;
  is_browser = is_browser;
}

abbrev source : Dict Value
source =
    ("goal", text "ship")
    ∷ ("tier", integer 2)
    ∷ ("workflow_stage", text "build")
    ∷ ("acceptance_criteria", array ("\"tests pass\"" ∷ []))
    ∷ ("approved_decisions", null)
    ∷ ("completed_tasks", array [])
    ∷ ("active_task", object "{}")
    ∷ ("changed_files", array ("\"a.js\"" ∷ []))
    ∷ ("verification", array [])
    ∷ ("blockers", array [])
    ∷ ("pending_gate", other "true")
    ∷ ("next_step", text "test")
    ∷ ("verification_evidence", array ("unit" ∷ "browser" ∷ []))
    ∷ []

abbrev ledger : Ledger
ledger = record {
  session_id = "session_1";
  directory = "/work";
  updated_at = "2026-09-21";
  tier = some 2;
  goal = some "ship";
  workflow_stage = some "build";
  pending_gate = none;
  next_step = some "test";
  acceptance_criteria = "\"tests pass\"" ∷ [];
  approved_decisions = [];
  completed_tasks = [];
  changed_files = "\"a.js\"" ∷ [];
  verification = [];
  blockers = [];
  active_task = some "{}";
  repository_state = none;
  verification_evidence = "unit" ∷ "browser" ∷ [];
  reconciliation = none;
  verification_status = none;
}

normalized : normalize_ledger platform source "session_1" "/work" ≡ ok ledger
unfolding normalize_ledger ledger_of lookup tier_of text_of items_of object_of first_characters
    bounded_evidence safe_session
normalized = refl

normalize_ledger-saved_example :
    normalize_ledger platform (saved ledger) "session_1" "/work" ≡ ok ledger
normalize_ledger-saved_example =
    normalize_ledger-saved platform source "session_1" "/work" normalized

abbrev pool : Pool
pool = record { enabled = true; models = "local/compactor" ∷ [] }

-- As the ledgers that were saved before the work was reconciled.
abbrev owned : Owned
owned = record {
  repository_state = true;
  verification_evidence = true;
  reconciliation = false;
  verification_status = false;
}

-- The first answer is the ledger, with another pending gate; the second changes the goal.
abbrev reader : Reader
reader = record {
  is_blank = λ s. s == "";
  parse = λ s. if s == "same" then members source else members (("goal", text "stop") ∷ source);
}

intelligent_checkpoint-Keeps_example :
    Keeps owned ledger
      (intelligent_checkpoint reader platform owned ledger "session_1" "/work"
        (some pool)
        (ok (some "changed"))).checkpoint
intelligent_checkpoint-Keeps_example =
    intelligent_checkpoint-Keeps reader platform owned ledger "session_1" "/work" (some pool)
      (ok (some "changed"))

goal_is_refused :
    (intelligent_checkpoint reader platform owned ledger "session_1" "/work"
      (some pool)
      (ok (some "changed"))).reason
    ≡ some (refused (altered "goal"))
unfolding intelligent_checkpoint checkpoint_of configured_compactor_pool parse_compactor_output
    read_object all_present with_objective accept check_exact same_option same_tier lookup
    normalize_ledger ledger_of tier_of text_of items_of object_of first_characters bounded_evidence
    safe_session
goal_is_refused = refl

same_is_taken :
    (intelligent_checkpoint reader platform owned ledger "session_1" "/work"
      (some pool)
      (ok (some "same"))).mode
    ≡ intelligent
unfolding intelligent_checkpoint checkpoint_of configured_compactor_pool parse_compactor_output
    read_object all_present with_objective accept check_exact check_lists keeps_entries includes
    same_option same_tier lookup normalize_ledger ledger_of tier_of text_of items_of object_of
    first_characters bounded_evidence safe_session
same_is_taken = refl
