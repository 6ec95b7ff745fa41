-- ===== src/Recovery/Claims.antt =====
-- nla-browser-recovery.mjs: an execution claim outlives every call that does not give its token.
use mathlib.Core.Path.{subst₂}
use next_level_agent.Base.{◌≡◌, subst, String, true, false, some, List, All, if_either}
use next_level_agent.Base.Result.{Result}
use next_level_agent.Recovery.Contract.{Blocked}
use next_level_agent.Recovery.Ids.{valid_id}
use next_level_agent.Recovery.Store.{Recovery, Store, Exposed, is_task}
use next_level_agent.Recovery.Selected.{select_record-In, select_required-eq, is_task_self}
use next_level_agent.Recovery.Validate.{World}
use next_level_agent.Recovery.Tasks.{Disk, fresh, damaged, holding, claim_task}
use next_level_agent.Recovery.Calls.{Call, run, Holds, Fails, transaction-Fails}
use next_level_agent.Recovery.Effects.{claims-eq}
use next_level_agent.Recovery.Claimed.{HasClaim, gives_token, Claimed, run-Claimed, free_has_none}

module _ (w : World) (owner id claim : String) where
  is_task-found :
      {s : Store} (h : HasClaim owner id claim s) → is_task owner (some id) h.found ≡ true
  is_task-found h =
      subst₂ (λ (o i : String). is_task o (some i) h.found ≡ true) h.owned h.named
        (is_task_self h.found)

  claim_task-Fails :
      (disk : Disk) (token : String)
      → Claimed w owner id claim disk
      → Fails (claim_task w disk owner id token).1
  claim_task-Fails fresh token h = absurd h
  claim_task-Fails damaged token h = absurd h
  claim_task-Fails (holding s) token h =
      unfold claim_task in
      if_either (λ (r : Disk × Result Blocked Exposed). Fails r.1) (valid_id id) _ _
        (transaction-Fails w s true _ (λ t v e.
          let (r, found, free, _, _, _) = claims-eq s w.digests owner id token e in
          free_has_none r.execution_claim free (
            subst (λ (q : Recovery). q.execution_claim ≡ some claim)
              (select_record-In s owner (some id) true h.found (select_required-eq s owner id found)
                h.member (is_task-found h))
              h.claimed)))
        tt

-- A task with a claim keeps it, and cannot be claimed again, however often tasks are started, claimed,
-- released and finished, unless a call gives a token with the digest of the claim.
pub claimed-run_blocked :
    (w : World) (owner id claim token : String) (disk : Disk) (cs : List Call)
    → Holds (HasClaim owner id claim) disk
    → All (λ c. gives_token w claim c ≡ false) cs
    → Holds (HasClaim owner id claim) (run w disk cs)
      × Fails (claim_task w (run w disk cs) owner id token).1
claimed-run_blocked w owner id claim token disk cs h n =
    let k = run-Claimed w owner id claim disk cs h n in
    (k, claim_task-Fails w owner id claim (run w disk cs) token k)
