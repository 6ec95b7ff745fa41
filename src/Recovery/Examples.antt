-- ===== src/Recovery/Examples.antt =====
-- Browser recovery at concrete inputs.
use next_level_agent.Base.{
  ◌≡◌, refl, String, true, false, none, some, List, [], ◌∷◌, All, inl, lookup, ◌==◌, if◌then◌else◌,
}
use next_level_agent.Base.Order.{sort_by}
use next_level_agent.Base.Result.{ok}
use next_level_agent.Base.Texts.{dedupe, includes}
use next_level_agent.Recovery.Ids.{valid_id, safe_session, is_token}
use next_level_agent.Recovery.Contract.{
  BrowserTask, Contract, canonical_criterion, is_mandatory, or_second, granted, is_true,
  or_no_files, is_empty, canonical_contract, as_task,
}
use next_level_agent.Recovery.Store.{
  pass, fail, Recovery, expose, refresh, pending_for, tracked_for, record_for,
}
use next_level_agent.Recovery.Validate.{World, Manifest, same_verdict}
use next_level_agent.Recovery.Tasks.{
  fresh, holding, with_claim, begin_browser_recovery, claim_task, release_task,
}
use next_level_agent.Recovery.Finalize.{Report, attempt_for, complete, finish}
use next_level_agent.Recovery.Calls.{Call, begins, claims, releases, run, Holds, Fails}
use next_level_agent.Recovery.Claimed.{HasClaim, gives_token}
use next_level_agent.Recovery.Claims.{claimed-run_blocked}
use next_level_agent.Recovery.Release.{release_task-claim_task}
use next_level_agent.Recovery.Extends.{Keeps}
use next_level_agent.Recovery.History.{run-history}
use next_level_agent.Recovery.Canonical.{canonical_contract-as_task}
use next_level_agent.Recovery.Starts.{begin-claim_fresh}

abbrev good_token : String
good_token = "0123456789abcdef0123456789abcdef0123456789abcdef0123456789abcdef"

abbrev good_digest : String
good_digest = "aaaaaaaaaaaaaaaaaaaaaaaaaaaaaaaaaaaaaaaaaaaaaaaaaaaaaaaaaaaaaaaa"

abbrev manifest : Manifest
manifest = record {
  run_id = "run_1";
  session_id = "browser_1";
  task_id = some "child_1";
  head = none;
  result = pass;
  checks = record { id = "paid"; verdict = pass } ∷ [];
  reason = none;
}

abbrev world : World
world = record {
  digests = record {
    contract_json = λ c. c.goal;
    criterion_json = λ c. c.id;
    policy_json = λ p. "policy";
    digest = λ s. if s == good_token then good_digest else s;
  };
  attempts_json = λ attempts. "attempts";
  content = λ path. if path == "/evidence/run_1.json" then some "manifest" else none;
  parse_manifest = λ bytes. some manifest;
  is_absolute = λ path. true;
}

abbrev booking : BrowserTask
booking = record {
  goal = "book a room";
  origins = "https://pay" ∷ "https://book" ∷ "https://pay" ∷ [];
  permissions = ("navigation", true) ∷ ("uploads", false) ∷ [];
  upload_files = none;
  success_criteria =
      record { id = "booked"; check = "text"; mandatory = none; wait_ms = none; rest = [] }
      ∷ record { id = "paid"; check = "text"; mandatory = some false; wait_ms = some 50; rest = [] }
      ∷ [];
}

abbrev contract : Contract
contract = record {
  goal = "book a room";
  origins = "https://book" ∷ "https://pay" ∷ [];
  permissions =
      ("navigation", true)
      ∷ ("interaction", false)
      ∷ ("authentication", false)
      ∷ ("uploads", false)
      ∷ ("downloads", false)
      ∷ ("external_mutation", false)
      ∷ [];
  upload_files = [];
  success_criteria =
      record { id = "booked"; check = "text"; mandatory = true; wait_ms = 1000; rest = [] }
      ∷ record { id = "paid"; check = "text"; mandatory = false; wait_ms = 50; rest = [] }
      ∷ [];
}

canonical : canonical_contract booking ≡ ok contract
unfolding canonical_contract canonical_criterion is_mandatory or_second granted is_true or_no_files
    is_empty sort_by dedupe includes lookup
canonical = refl

canonical_contract-as_task_example : canonical_contract (as_task contract) ≡ ok contract
canonical_contract-as_task_example = canonical_contract-as_task booking canonical

session_is_safe : safe_session "session_1" ≡ true
unfolding safe_session
session_is_safe = refl

id_is_valid : valid_id "task_1" ≡ true
unfolding valid_id
id_is_valid = refl

token_is_good : is_token good_token ≡ true
unfolding is_token
token_is_good = refl

digest_is_good : is_token (world.digests.digest good_token) ≡ true
unfolding is_token
digest_is_good = refl

abbrev new : Recovery
new = record_for world.digests "session_1" "task_1" contract

abbrev claimed : Recovery
claimed = with_claim (some good_digest) new

begin-claim_fresh_example :
    (begin_browser_recovery world fresh "session_1" booking none "task_1"
      ≡ (holding (new ∷ []), ok (expose new)))
    × (pending_for new ≡ "booked" ∷ "paid" ∷ [])
    × (claim_task world (holding (new ∷ [])) "session_1" "task_1" good_token
        ≡ (holding (claimed ∷ []), ok (expose claimed)))
begin-claim_fresh_example =
    begin-claim_fresh world "session_1" "task_1" good_token booking canonical session_is_safe
      id_is_valid digest_is_good

release_task-claim_task_example :
    release_task world (holding (claimed ∷ [])) "session_1" "task_1" good_token
    ≡ (holding (new ∷ []), ok true)
release_task-claim_task_example =
    release_task-claim_task world (holding (new ∷ [])) (holding (claimed ∷ [])) "session_1" "task_1"
      good_token token_is_good begin-claim_fresh_example.2

abbrev other_token : String
other_token = "bbbbbbbbbbbbbbbbbbbbbbbbbbbbbbbbbbbbbbbbbbbbbbbbbbbbbbbbbbbbbbbb"

-- Other tasks start, a second claim is tried, and a release with another token.
abbrev calls : List Call
calls =
    begins "session_1" booking none "task_2"
    ∷ claims "session_1" "task_1" good_token
    ∷ releases "session_1" "task_1" other_token
    ∷ []

has_claim : Holds (HasClaim "session_1" "task_1" good_digest) (holding (claimed ∷ []))
unfolding record_for refresh
has_claim = record {
  found = claimed;
  member = inl refl;
  owned = refl;
  named = refl;
  claimed = refl;
}

no_token_given : All (λ c. gives_token world good_digest c ≡ false) calls
unfolding gives_token
no_token_given = (refl, (refl, (refl, tt)))

claimed-run_blocked_example :
    Holds (HasClaim "session_1" "task_1" good_digest) (run world (holding (claimed ∷ [])) calls)
    × Fails
        (claim_task world
          (run world (holding (claimed ∷ [])) calls)
          "session_1"
          "task_1"
          good_token).1
claimed-run_blocked_example =
    claimed-run_blocked world "session_1" "task_1" good_digest good_token (holding (claimed ∷ []))
      calls has_claim no_token_given

run-history_example : Holds (Keeps (claimed ∷ [])) (run world (holding (claimed ∷ [])) calls)
run-history_example = run-history world (claimed ∷ []) calls

abbrev report : Report
report = record {
  owner = "session_1";
  task_id = some "task_1";
  token = some good_token;
  uuid = "unused";
  task = booking;
  original = booking;
  run = record {
    run_id = "run_1";
    session_id = "browser_1";
    child = some "child_1";
    head = none;
    evidence = "/evidence/run_1.json";
    result = pass;
  };
  checks = record { id = "booked"; verdict = pass } ∷ record { id = "paid"; verdict = fail } ∷ [];
}

abbrev done : Recovery
done = finish (attempt_for world report claimed none "manifest" manifest) claimed

-- The optional criterion that did not pass is still pending.
paid_is_pending : pending_for done ≡ "paid" ∷ []
unfolding finish refresh attempt_for complete record_for tracked_for same_verdict
paid_is_pending = refl
