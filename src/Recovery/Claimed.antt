-- ===== src/Recovery/Claimed.antt =====
-- A task with a claim keeps it while no call gives a token of the claim.
use next_level_agent.Base.{
  ◌≡◌, refl, sym, subst, String, Bool, true, false, not, Option, none, some, List, [], ◌∷◌, ◌++◌,
  In, All, inl, inr, ◌⊎◌, if_either, Bool-cases, ◌==◌, arith,
}
use next_level_agent.Base.Result.{Result, ok, err, throw_if-eq-ok, >>=-eq-ok}
use next_level_agent.Recovery.Contract.{Blocked, Contract, canonical_contract, token_mismatch}
use next_level_agent.Recovery.Ids.{valid_id, is_token}
use next_level_agent.Recovery.Store.{
  Recovery, Store, is_claimed, is_task, select_record, replace, new_record,
}
use next_level_agent.Recovery.Selected.{
  In-replace, In-append_left, select_record-In, select_record-none, select_required-eq,
}
use next_level_agent.Recovery.Validate.{World}
use next_level_agent.Recovery.Tasks.{
  Disk, fresh, damaged, holding, begin_browser_recovery, begin_with, claim_task, release_task,
  token_matches, is_given,
}
use next_level_agent.Recovery.Finalize.{
  Report, admit, token_is_bad, finalize_record, create_browser_recovery,
}
use next_level_agent.Recovery.Calls.{
  Call, begins, claims, releases, creates, apply, run, Holds, transaction-Holds,
}
use next_level_agent.Recovery.Effects.{begins-eq, claims-eq, releases-eq, creates-eq, record_of-eq}

-- The store has a record of the task that is claimed by the token with this digest.
pub record HasClaim (owner id claim : String) (s : Store) : Type 0 where
  pub found : Recovery
  pub member : In found s
  pub owned : found.owner ≡ owner
  pub named : found.task_id ≡ id
  pub claimed : found.execution_claim ≡ some claim

-- The call gives the token of the claim.
unfoldable pub gives_token : World → String → Call → Bool
gives_token w claim (begins owner task id uuid) = false
gives_token w claim (claims owner id token) = false
gives_token w claim (releases owner id token) = claim == w.digests.digest token
gives_token w claim (creates p) = elim p.token [
  | none ↦ false
  | some token ↦ claim == w.digests.digest token
]

pub free_has_none : (o : Option String) {claim : String} → is_claimed o ≡ false → o ≡ some claim → ⊥
free_has_none none e h = cc
free_has_none (some c) e h = cc

module _ (w : World) (claim : String) where
  token_matches-claim :
      (r : Recovery) (token : String)
      → r.execution_claim ≡ some claim
      → token_matches w.digests r token ≡ true
      → (claim == w.digests.digest token) ≡ true
  unfolding token_matches
  token_matches-claim r token e h = ground arith

  token_is_bad-claim :
      (r : Recovery) (token : Option String)
      → r.execution_claim ≡ some claim
      → token_is_bad w.digests r token ≡ false
      → (t : String) × (token ≡ some t) × ((claim == w.digests.digest t) ≡ true)
  unfolding token_is_bad
  token_is_bad-claim r none e h = absurd (ground arith)
  token_is_bad-claim r (some t) e h = (t, refl, token_matches-claim r t e (ground arith))

  -- A report that is admitted for a claimed record gives the token.
  finalize-gives_token :
      (p : Report) (r : Recovery) {done : Recovery}
      → r.execution_claim ≡ some claim
      → finalize_record w p r ≡ ok done
      → gives_token w claim (creates p) ≡ true
  unfolding finalize_record admit gives_token
  finalize-gives_token p r e h =
      let (u, admitted, _) = >>=-eq-ok (admit w.digests p r) _ h in
      let (good, _) = throw_if-eq-ok (token_is_bad w.digests r p.token) token_mismatch _ admitted in
      let (t, given, same) = token_is_bad-claim r p.token e good in rw given same

module _ (w : World) (owner id claim : String) where
  -- A call that replaces a record which it may not touch touches another one.
  keeps :
      {s : Store} (by : String) (task : Option String) (required : Bool) (new : Recovery)
      {old : Recovery}
      → (h : HasClaim owner id claim s) → select_record s by task required ≡ ok (some old)
      → (old.execution_claim ≡ some claim → ⊥)
      → HasClaim owner id claim (replace by task new s)
  keeps {s} by task required new {old} h e n = elim (Bool-cases (is_task by task h.found)) [
    | inl k ↦ absurd (
        n (
          subst (λ (r : Recovery). r.execution_claim ≡ some claim)
            (select_record-In s by task required h.found e h.member k) h.claimed))
    | inr k ↦ record {
      found = h.found;
      member = In-replace by task new h.found s h.member k;
      owned = h.owned;
      named = h.named;
      claimed = h.claimed;
    }
  ]

  adds :
      {s : Store} (r : Recovery)
      → HasClaim owner id claim s
      → HasClaim owner id claim (s ++ (r ∷ []))
  adds {s} r h = record {
    found = h.found;
    member = In-append_left h.found s (r ∷ []) h.member;
    owned = h.owned;
    named = h.named;
    claimed = h.claimed;
  }

  abbrev pub Claimed : Disk → Type 0
  Claimed = Holds (HasClaim owner id claim)

  begin_with-HasClaim :
      (s : Store) (by : String) (task : Option String) (uuid : String) (c : Result Blocked Contract)
      → HasClaim owner id claim s
      → Claimed (begin_with w (holding s) by task uuid c).0
  unfolding begin_with
  begin_with-HasClaim s by task uuid (err e) h = h
  begin_with-HasClaim s by task uuid (ok c) h =
      transaction-Holds w (HasClaim owner id claim) s _ _ h
        (λ t v e. started t (begins-eq s w.digests by uuid c task e))
    where
      started :
          (t : Store) → (t ≡ s) ⊎ ((r : Recovery) × (t ≡ s ++ (r ∷ []))) → HasClaim owner id claim t
      started t (inl e) = subst (HasClaim owner id claim) (sym e) h
      started t (inr (r, e)) = subst (HasClaim owner id claim) (sym e) (adds r h)

  claim_task-HasClaim :
      (s : Store) (by task token : String)
      → HasClaim owner id claim s
      → Claimed (claim_task w (holding s) by task token).0
  unfolding claim_task
  claim_task-HasClaim s by task token h = elim (Bool-cases (valid_id task)) [
    | inr k ↦ rw k h
    | inl k ↦ rw k (
        transaction-Holds w (HasClaim owner id claim) s true _ h (λ t v e.
          let (r, found, free, _, made, _) = claims-eq s w.digests by task token e in
          subst (HasClaim owner id claim) (sym made) (
            keeps by (some task) true _ h (select_required-eq s by task found)
              (λ c. free_has_none r.execution_claim free c))))
  ]

  release_task-HasClaim :
      (s : Store) (by task token : String)
      → HasClaim owner id claim s
      → (claim == w.digests.digest token) ≡ false
      → Claimed (release_task w (holding s) by task token).0
  unfolding release_task
  release_task-HasClaim s by task token h n =
      if_either (λ (r : Disk × Result Blocked Bool). Claimed r.0) (not (valid_id task)) _ _ h
        (if_either (λ (r : Disk × Result Blocked Bool). Claimed r.0) (is_token token) _ _
          (transaction-Holds w (HasClaim owner id claim) s true _ h (λ t v e.
            let (r, found, matches, made) = releases-eq s w.digests by task token e in
            subst (HasClaim owner id claim) (sym made) (
              keeps by (some task) true _ h (select_required-eq s by task found) (λ c.
                let same = token_matches-claim w claim r token c matches in
                absurd (ground arith)))))
          h)

  create-HasClaim :
      (s : Store) (p : Report)
      → HasClaim owner id claim s
      → gives_token w claim (creates p) ≡ false
      → Claimed (create_browser_recovery w (holding s) p).0
  unfolding create_browser_recovery adds
  create-HasClaim s p h n = transaction-Holds w (HasClaim owner id claim) s _ _ h (λ t v e.
      let (u, r, done, found, finished, made) = creates-eq s w p e in
      subst (HasClaim owner id claim) (sym made)
        (recorded u r done finished (record_of-eq w.digests p s found)))
    where
      recorded :
          (u : Store) (r done : Recovery)
          → finalize_record w p r ≡ ok done
          → ((u ≡ s) × (select_record s p.owner p.task_id (is_given p.task_id) ≡ ok (some r)))
            ⊎ ((select_record s p.owner p.task_id (is_given p.task_id) ≡ ok none)
                × (new_record w.digests p.owner p.uuid p.original ≡ ok r)
                × (u ≡ s ++ (r ∷ [])))
          → HasClaim owner id claim (replace p.owner p.task_id done u)
      recorded u r done f (inl (same, found)) =
          subst (λ (v : Store). HasClaim owner id claim (replace p.owner p.task_id done v))
            (sym same)
            (keeps p.owner p.task_id _ done h found
              (λ c. let g = finalize-gives_token w claim p r c f in absurd (ground arith)))
      recorded u r done f (inr (absent, made, added)) =
          let h' = adds r h in
          subst (λ (v : Store). HasClaim owner id claim (replace p.owner p.task_id done v))
            (sym added)
            (record {
              found = h.found;
              member =
                  In-replace p.owner p.task_id done h.found _ h'.member
                    (select_record-none s p.owner p.task_id _ h.found absent h.member);
              owned = h.owned;
              named = h.named;
              claimed = h.claimed;
            })

  apply-Claimed :
      (disk : Disk) (c : Call)
      → Claimed disk
      → gives_token w claim c ≡ false
      → Claimed (apply w disk c)
  apply-Claimed fresh c h n = absurd h
  apply-Claimed damaged c h n = absurd h
  apply-Claimed (holding s) (begins by task known uuid) h n =
      unfold apply begin_browser_recovery in
      begin_with-HasClaim s by known uuid (canonical_contract task) h
  apply-Claimed (holding s) (claims by task token) h n =
      unfold apply in claim_task-HasClaim s by task token h
  apply-Claimed (holding s) (releases by task token) h n =
      unfold apply in release_task-HasClaim s by task token h (unfold gives_token in n)
  apply-Claimed (holding s) (creates p) h n = unfold apply in create-HasClaim s p h n

  pub run-Claimed :
      (disk : Disk) (cs : List Call)
      → Claimed disk
      → All (λ c. gives_token w claim c ≡ false) cs
      → Claimed (run w disk cs)
  unfolding run
  run-Claimed disk [] h n = h
  run-Claimed disk (c ∷ cs) h (n, ns) =
      run-Claimed (apply w disk c) cs (apply-Claimed disk c h n) ns
