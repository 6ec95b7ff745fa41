-- ===== src/Recovery/Validate.antt =====
-- nla-browser-recovery.mjs: `validateStore`, the checks of a store that is read or about to be written.
use Prim.Native.String.{◌++◌ as text_append}
use next_level_agent.Base.{
  ℕ, String, Bool, true, false, ◌&&◌, ◌||◌, not, Option, none, some, List, [], ◌∷◌, ◌++◌, map, any,
  all, eqb, length, ◌==◌, if◌then◌else◌,
}
use next_level_agent.Base.Result.{Result, ok, err}
use next_level_agent.Base.Texts.{includes, unique, same_texts}
use next_level_agent.Recovery.Ids.{valid_id, safe_session, is_token}
use next_level_agent.Recovery.Contract.{
  Blocked, invalid_checks, Contract, Criterion, Digests, as_task, canonical_contract,
  browser_requirement_hash, definition_hash, policy_for,
}
use next_level_agent.Recovery.Store.{
  Verdict, pass, fail, blocked, not_run, Progress, pending, completed, Tracked, Check, Attempt,
  Recovery, Store, pending_for, next_of,
}

-- The evidence of a run: a JSON file. A missing or empty task, head or reason is `none`.
pub record Manifest : Type 0 where
  pub run_id : String
  pub session_id : String
  pub task_id : Option String
  pub head : Option String
  pub result : Verdict
  pub checks : List Check
  pub reason : Option String

-- The file system, and the canonical JSON text of attempts, beside the digests.
pub record World : Type 0 where
  pub digests : Digests
  pub attempts_json : List Attempt → String
  pub content : String → Option String
  pub parse_manifest : String → Option Manifest
  pub is_absolute : String → Bool

rank : Verdict → ℕ
rank pass = 0
rank fail = 1
rank blocked = 2
rank not_run = 3

unfoldable pub same_verdict : Verdict → Verdict → Bool
unfolding rank
same_verdict a b = eqb (rank a) (rank b)

unfoldable pub same_text : Option String → Option String → Bool
same_text none none = true
same_text none (some b) = false
same_text (some a) none = false
same_text (some a) (some b) = a == b

unfoldable pub same_checks : List Check → List Check → Bool
same_checks [] [] = true
same_checks [] (d ∷ ds) = false
same_checks (c ∷ cs) [] = false
same_checks (c ∷ cs) (d ∷ ds) =
    c.id == d.id && same_verdict c.verdict d.verdict && same_checks cs ds

unfoldable pub same_next : Option (String × List String) → Option (String × List String) → Bool
same_next none none = true
same_next none (some b) = false
same_next (some a) none = false
same_next (some a) (some b) = a.0 == b.0 && same_texts a.1 b.1

-- new Set(xs).size === xs.length
abbrev pub is_distinct : List String → Bool
is_distinct xs = eqb (length (unique xs)) (length xs)

abbrev pub ids_of_checks : List Check → List String
ids_of_checks = map (λ (c : Check). c.id)

-- `checkSummary`, whose checks have an id and one of the four statuses.
unfoldable pub check_summary : List Check → Result Blocked (List Check)
check_summary cs = if is_distinct (ids_of_checks cs) then ok cs else err invalid_checks

abbrev pub is_pass : Verdict → Bool
is_pass v = same_verdict v pass

-- checks.some(check => check.id === id && check.status === 'PASS')
abbrev pub passes : String → List Check → Bool
passes id cs = any (λ (c : Check). c.id == id && is_pass c.verdict) cs

abbrev pub is_finished : Option Verdict → Bool
is_finished none = false
is_finished (some v) = true

is_missing : Option String → Bool
is_missing none = true
is_missing (some s) = false

unfoldable pub agrees : Manifest → Attempt → Verdict → Bool
agrees m a v =
    m.run_id == a.run_id
    && m.session_id == a.browser_session_id
    && same_text m.task_id a.child_id
    && same_verdict m.result v
    && same_text m.head a.head
    && is_distinct (ids_of_checks m.checks)
    && same_checks m.checks a.checks
    && same_text m.reason a.reason

-- The bytes of the evidence have the recorded hash, and say what the attempt says.
unfoldable pub valid_evidence : World → Attempt → Verdict → Option (String × String) → Bool
valid_evidence w a v none = false
valid_evidence w a v (some (path, hash)) = w.is_absolute path && elim (w.content path) [
  | none ↦ false
  | some bytes ↦
      w.digests.digest bytes == hash
      && elim (w.parse_manifest bytes) [ none ↦ false | some m ↦ agrees m a v ]
]

no_evidence : Option (String × String) → Bool
no_evidence none = true
no_evidence (some e) = false

no_checks : List Check → Bool
no_checks [] = true
no_checks (c ∷ cs) = false

unfoldable pub valid_outcome : World → Attempt → Option Verdict → Bool
unfolding is_missing no_evidence no_checks
valid_outcome w a none = no_evidence a.evidence && no_checks a.checks
valid_outcome w a (some v) =
    valid_evidence w a v a.evidence
    && not (is_missing a.child_id && (is_pass v || any (λ (c : Check). is_pass c.verdict) a.checks))
    && all (λ (c : Check). includes a.pending_criteria c.id) a.checks

child_is_valid : Option String → Bool
child_is_valid none = true
child_is_valid (some id) = valid_id id

abbrev pub ids_of_tracked : List Tracked → List String
ids_of_tracked = map (λ (c : Tracked). c.id)

unfoldable pub valid_attempt : World → Recovery → Attempt → Bool
unfolding child_is_valid
valid_attempt w r a =
    valid_id a.run_id
    && valid_id a.browser_session_id
    && child_is_valid a.child_id
    && a.owner == r.owner
    && a.task_id == r.task_id
    && all (includes (ids_of_tracked r.criteria)) a.pending_criteria
    && valid_outcome w a a.result

-- A completed criterion has the run that passed it.
unfoldable pub has_provenance : List Attempt → String → Progress → Bool
has_provenance attempts id pending = true
has_provenance attempts id (completed run) =
    any (λ (a : Attempt). a.run_id == run && passes id a.checks) attempts

same_flag : Bool → Bool → Bool
same_flag true b = b
same_flag false b = not b

unfoldable pub valid_criteria : Digests → List Attempt → List Tracked → List Criterion → Bool
unfolding same_flag
valid_criteria d attempts [] [] = true
valid_criteria d attempts [] (k ∷ ks) = false
valid_criteria d attempts (c ∷ cs) [] = false
valid_criteria d attempts (c ∷ cs) (k ∷ ks) =
    c.id == k.id
    && c.definition_hash == definition_hash d k
    && same_flag c.mandatory k.mandatory
    && has_provenance attempts c.id c.progress
    && valid_criteria d attempts cs ks

unfoldable pub claim_is_valid : Option String → Bool
claim_is_valid none = true
claim_is_valid (some c) = is_token c

abbrev pub finalized : List Attempt → List Attempt
finalized [] = []
finalized (a ∷ more) = let rest = finalized more in if is_finished a.result then a ∷ rest else rest

unfoldable pub same_hash : Recovery → Result Blocked String → Bool
same_hash r (err e) = false
same_hash r (ok h) = r.requirement_hash == h

unfoldable pub suits : Digests → Recovery → Result Blocked Contract → Bool
unfolding same_hash
suits d r (err e) = false
suits d r (ok c) =
    d.contract_json c == d.contract_json r.contract
    && same_hash r (browser_requirement_hash d (as_task c))
    && d.policy_json r.policy == d.policy_json (policy_for c)
    && valid_criteria d r.attempts r.criteria c.success_criteria

-- The record has the canonical form of its contract, and what follows from it.
unfoldable pub valid_contract : Digests → Recovery → Bool
unfolding suits
valid_contract d r = suits d r (canonical_contract (as_task r.contract))

unfoldable pub valid_record : World → Recovery → Bool
unfolding claim_is_valid
valid_record w r =
    safe_session r.owner
    && valid_id r.task_id
    && claim_is_valid r.execution_claim
    && valid_contract w.digests r
    && same_next r.next_pending (next_of (pending_for r))
    && all (valid_attempt w r) r.attempts
    && w.attempts_json (finalized r.attempts) == w.attempts_json r.evidence

-- `${owner_session_id}:${task_id}`
abbrev pub identity : Recovery → String
identity r = text_append r.owner (text_append ":" r.task_id)

abbrev pub runs_of : Store → List String
runs_of [] = []
runs_of (r ∷ rs) = map (λ (a : Attempt). a.run_id) r.attempts ++ runs_of rs

some_records : Store → Bool
some_records [] = false
some_records (r ∷ rs) = true

unfoldable pub valid_store : World → Store → Bool
unfolding some_records
valid_store w s =
    some_records s
    && all (valid_record w) s
    && is_distinct (map identity s)
    && is_distinct (runs_of s)
