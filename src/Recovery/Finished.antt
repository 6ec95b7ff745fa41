-- ===== src/Recovery/Finished.antt =====
-- nla-browser-recovery.mjs: what the report of a run does to the record of its task.
use next_level_agent.Base.{◌≡◌, true, false, not, none, [], ◌∷◌, ◌++◌, select}
use next_level_agent.Base.Result.{ok}
use next_level_agent.Base.Texts.{Within}
use next_level_agent.Recovery.Contract.{Contract, canonical_contract}
use next_level_agent.Recovery.Store.{Attempt, Recovery, pending_for}
use next_level_agent.Recovery.Validate.{World, passes, ids_of_checks}
use next_level_agent.Recovery.Finalize.{Report, executes, checks_fit, find_run, is_done}

-- The record after an accepted report.
pub record IsFinished (w : World) (p : Report) (r done : Recovery) : Type 0 where
  pub contract : Contract
  pub executed : canonical_contract p.task ≡ ok contract
  pub within_contract : executes w.digests r.contract contract ≡ true
  pub checks_of_contract : checks_fit p.checks contract.success_criteria ≡ true
  pub were_pending : Within (ids_of_checks p.checks) (pending_for r)
  pub not_finished : is_done (find_run p.run.run_id r.attempts) ≡ false
  pub now_pending : pending_for done ≡ select (λ id. not (passes id p.checks)) (pending_for r)
  pub claim_gone : done.execution_claim ≡ none
  pub attempt : Attempt
  pub recorded : done.evidence ≡ r.evidence ++ (attempt ∷ [])
  pub same_run : attempt.run_id ≡ p.run.run_id
  pub same_checks : attempt.checks ≡ p.checks
