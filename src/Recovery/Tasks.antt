-- ===== src/Recovery/Tasks.antt =====
-- nla-browser-recovery.mjs: transactions, and the start, claim and release of a task.
-- The lock, the signature and the files of the store are not modelled: what a reader finds is nothing,
-- a store that is damaged or not authentic, or the store that was written last.
use next_level_agent.Base.{
  String, Bool, true, false, ◌&&◌, ◌||◌, not, Option, none, some, List, [], ◌∷◌, ◌++◌, any, ◌==◌,
  if◌then◌else◌,
}
use next_level_agent.Base.Result.{Result, ok, err, ◌>>=◌, ◌>>◌, throw_if}
use next_level_agent.Recovery.Ids.{valid_id, is_token}
use next_level_agent.Recovery.Contract.{
  Blocked, bad_id, no_storage, damaged_storage, invalid_store, mismatched_contract,
  unresolved_claim, nothing_pending, token_mismatch, Contract, BrowserTask, Digests, as_task,
  canonical_contract, browser_requirement_hash,
}
use next_level_agent.Recovery.Store.{
  Attempt, Recovery, Store, Exposed, expose, is_claimed, pending_for, unclaimed, select_required,
  replace, new_record,
}
use next_level_agent.Recovery.Validate.{World, is_finished, valid_store}

pub data Disk : Type 0 where
  fresh damaged : Disk
  holding : Store → Disk

-- `transaction` up to the action: the store, or `none` where there is none yet.
unfoldable pub open_store : World → Disk → Bool → Result Blocked (Option Store)
open_store w fresh required = if required then err no_storage else ok none
open_store w damaged required = err damaged_storage
open_store w (holding s) required = if valid_store w s then ok (some s) else err invalid_store

unfoldable pub check_result :
    {A : Type 0} → World → Result Blocked (Store × A) → Result Blocked (Store × A)
check_result w (err e) = err e
check_result w (ok r) = if valid_store w r.0 then ok r else err invalid_store

-- The store is written last: a failure leaves it as it is.
unfoldable pub commit : {A : Type 0} → Disk → Result Blocked (Store × A) → Disk × Result Blocked A
commit disk (err e) = (disk, err e)
commit disk (ok r) = (holding r.0, ok r.1)

unfoldable pub transaction :
    {A : Type 0}
    → World
    → Disk
    → Bool
    → (Option Store → Result Blocked (Store × A))
    → Disk × Result Blocked A
unfolding check_result commit
transaction w disk required action =
    commit disk (check_result w (open_store w disk required >>= action))

-- current || { version: 2, records: [] }
abbrev pub or_none_yet : Option Store → Store
or_none_yet none = []
or_none_yet (some s) = s

unfoldable pub begin_new :
    Digests → String → String → Contract → Store → Result Blocked (Store × Exposed)
begin_new d owner uuid contract s =
    new_record d owner uuid (as_task contract) >>= λ r. ok (s ++ (r ∷ []), expose r)

unfoldable pub resume :
    Digests → String → String → Contract → Store → Result Blocked (Store × Exposed)
resume d owner id contract s = select_required s owner id >>= λ r.
    browser_requirement_hash d (as_task contract) >>= λ hash.
    throw_if (not (r.requirement_hash == hash)) mismatched_contract
    >> throw_if (is_claimed r.execution_claim) unresolved_claim
    >> ok (s, expose r)

abbrev pub is_given : Option String → Bool
is_given none = false
is_given (some id) = true

unfoldable pub begin_or_resume :
    Digests → String → String → Contract → Option String → Store → Result Blocked (Store × Exposed)
unfolding begin_new resume
begin_or_resume d owner uuid contract none s = begin_new d owner uuid contract s
begin_or_resume d owner uuid contract (some id) s = resume d owner id contract s

unfoldable pub begin_with :
    World
    → Disk
    → String
    → Option String
    → String
    → Result Blocked Contract
    → Disk × Result Blocked Exposed
begin_with w disk owner task_id uuid (err e) = (disk, err e)
begin_with w disk owner task_id uuid (ok contract) =
    transaction w disk (is_given task_id)
      (λ s. begin_or_resume w.digests owner uuid contract task_id (or_none_yet s))

-- `uuid` is what `randomUUID` gives.
unfoldable pub begin_browser_recovery :
    World → Disk → String → BrowserTask → Option String → String → Disk × Result Blocked Exposed
unfolding begin_with
begin_browser_recovery w disk owner task task_id uuid =
    begin_with w disk owner task_id uuid (canonical_contract task)

abbrev pub is_running : Attempt → Bool
is_running a = not (is_finished a.result)

abbrev pub has_none : List String → Bool
has_none [] = true
has_none (x ∷ xs) = false

-- record.execution_claim = claim
abbrev pub with_claim : Option String → Recovery → Recovery
with_claim claim r = record r { execution_claim = claim }

unfoldable pub claim_action :
    Digests → String → String → String → Option Store → Result Blocked (Store × Exposed)
claim_action d owner id token s = select_required (or_none_yet s) owner id >>= λ r.
    throw_if (is_claimed r.execution_claim) unresolved_claim
    >> throw_if (has_none (pending_for r) || any is_running r.attempts) nothing_pending
    >> (let claimed = with_claim (some (d.digest token)) r in
        ok (replace owner (some id) claimed (or_none_yet s), expose claimed))

-- `token` is what `randomBytes` gives, and is returned beside the record.
unfoldable pub claim_task : World → Disk → String → String → String → Disk × Result Blocked Exposed
claim_task w disk owner id token =
    if valid_id id
    then transaction w disk true (claim_action w.digests owner id token)
    else (disk, err bad_id)

holds : Digests → Option String → String → Bool
holds d none token = false
holds d (some claim) token = claim == d.digest token

-- `requireClaimToken`
unfoldable pub token_matches : Digests → Recovery → String → Bool
unfolding holds
token_matches d r token = is_token token && holds d r.execution_claim token

unfoldable pub release_action :
    Digests → String → String → String → Option Store → Result Blocked (Store × Bool)
release_action d owner id token s = select_required (or_none_yet s) owner id >>= λ r.
    throw_if (not (token_matches d r token)) token_mismatch
    >> ok (replace owner (some id) (unclaimed r) (or_none_yet s), true)

unfoldable pub release_task : World → Disk → String → String → String → Disk × Result Blocked Bool
release_task w disk owner id token =
    if not (valid_id id)
    then (disk, err bad_id)
    else if is_token token
    then transaction w disk true (release_action w.digests owner id token)
    else (disk, err token_mismatch)
