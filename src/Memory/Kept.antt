-- ===== src/Memory/Kept.antt =====
-- What a checkpoint keeps of the ledger, whatever a model answers.
use next_level_agent.Base.{
  ℕ, ◌≡◌, refl, subst, String, Bool, true, false, not, Option, none, some, List, eq_iff, arith,
  Bool-cases, inl, inr, ◌⊎◌, if◌then◌else◌,
}
use next_level_agent.Base.Result.{
  Result, ok, err, ◌>>=◌, >>=-eq-ok, throw_if-eq-ok, throw_if-eq-ok_last, ok_injective,
}
use next_level_agent.Base.Texts.{Within, Within-refl, all-Within}
use next_level_agent.Memory.Ledger.{
  Ledger, Platform, LedgerError, no_text, ledger_keys, normalize_ledger,
}
use next_level_agent.Memory.Compaction.{
  Reader, Pool, Owned, read_object, all_present, configured_compactor_pool, with_objective,
  same_option, same_tier, keeps_entries, check_exact, check_lists, accept, parse_compactor_output,
  checkpoint_of, intelligent_checkpoint,
}

-- The goal, the state of the work and what the ledger has of the objective evidence are the same, and no entry of the lists
-- that must last is lost.
pub record Keeps (owned : Owned) (l c : Ledger) : Type 0 where
  pub goal : c.goal ≡ l.goal
  pub tier : c.tier ≡ l.tier
  pub workflow_stage : c.workflow_stage ≡ l.workflow_stage
  pub active_task : c.active_task ≡ l.active_task
  pub pending_gate : c.pending_gate ≡ l.pending_gate
  pub next_step : c.next_step ≡ l.next_step
  pub acceptance_criteria : Within l.acceptance_criteria c.acceptance_criteria
  pub approved_decisions : Within l.approved_decisions c.approved_decisions
  pub changed_files : Within l.changed_files c.changed_files
  pub verification : Within l.verification c.verification
  pub blockers : Within l.blockers c.blockers
  pub repository_state :
      (owned.repository_state ≡ false) ⊎ (c.repository_state ≡ l.repository_state)
  pub verification_evidence :
      (owned.verification_evidence ≡ false) ⊎ (c.verification_evidence ≡ l.verification_evidence)
  pub reconciliation : (owned.reconciliation ≡ false) ⊎ (c.reconciliation ≡ l.reconciliation)
  pub verification_status :
      (owned.verification_status ≡ false) ⊎ (c.verification_status ≡ l.verification_status)

Keeps_refl : (owned : Owned) (l : Ledger) → Keeps owned l l
Keeps_refl owned l = record {
  goal = refl;
  tier = refl;
  workflow_stage = refl;
  active_task = refl;
  pending_gate = refl;
  next_step = refl;
  acceptance_criteria = Within-refl _;
  approved_decisions = Within-refl _;
  changed_files = Within-refl _;
  verification = Within-refl _;
  blockers = Within-refl _;
  repository_state = inr refl;
  verification_evidence = inr refl;
  reconciliation = inr refl;
  verification_status = inr refl;
}

same_option-eq : (a b : Option String) → not (same_option a b) ≡ false → a ≡ b
unfolding same_option
same_option-eq none none h = refl
same_option-eq none (some b) h = cc
same_option-eq (some a) none h = cc
same_option-eq (some a) (some b) h = ground (arith, eq_iff a b)

same_tier-eq : (a b : Option ℕ) → not (same_tier a b) ≡ false → a ≡ b
unfolding same_tier
same_tier-eq none none h = refl
same_tier-eq none (some b) h = cc
same_tier-eq (some a) none h = cc
same_tier-eq (some a) (some b) h = ground arith

not-false : (b : Bool) → not b ≡ false → b ≡ true
not-false true h = refl
not-false false h = cc

keeps_entries-Within :
    (key : String) (compacted held : List String) {u : Unit {0}}
    → keeps_entries key compacted held ≡ ok u
    → Within held compacted
unfolding keeps_entries
keeps_entries-Within key compacted held h =
    let (_, k) = throw_if-eq-ok _ _ _ h in
    all-Within held compacted (not-false _ (throw_if-eq-ok_last _ _ k))

owned-eq :
    {A : Type 0}
    → (here : Bool) (held fresh : A) → (here ≡ false) ⊎ ((if here then held else fresh) ≡ held)
owned-eq true held fresh = inr refl
owned-eq false held fresh = inl refl

accept-Keeps :
    (owned : Owned) (l n : Ledger) {c : Ledger}
    → accept l (with_objective owned l n) ≡ ok c
    → Keeps owned l c
unfolding accept check_exact check_lists with_objective
accept-Keeps owned l n h =
    let (_, exact, h1) = >>=-eq-ok (check_exact l (with_objective owned l n)) _ h in
    let (_, lists, h2) = >>=-eq-ok (check_lists l (with_objective owned l n)) _ h1 in
    let (goal, e1) = throw_if-eq-ok _ _ _ exact in
    let (tier, e2) = throw_if-eq-ok _ _ _ e1 in
    let (stage, e3) = throw_if-eq-ok _ _ _ e2 in
    let (task, e4) = throw_if-eq-ok _ _ _ e3 in
    let (gate, e5) = throw_if-eq-ok _ _ _ e4 in
    let (_, criteria, l1) =
      >>=-eq-ok (keeps_entries _ n.acceptance_criteria l.acceptance_criteria) _ lists in
    let (_, decisions, l2) =
      >>=-eq-ok (keeps_entries _ n.approved_decisions l.approved_decisions) _ l1 in
    let (_, files, l3) = >>=-eq-ok (keeps_entries _ n.changed_files l.changed_files) _ l2 in
    let (_, verified, l4) = >>=-eq-ok (keeps_entries _ n.verification l.verification) _ l3 in
    subst (Keeps owned l) (ok_injective h2) (record {
      goal = same_option-eq _ _ goal;
      tier = same_tier-eq _ _ tier;
      workflow_stage = same_option-eq _ _ stage;
      active_task = same_option-eq _ _ task;
      pending_gate = same_option-eq _ _ gate;
      next_step = same_option-eq _ _ (throw_if-eq-ok_last _ _ e5);
      acceptance_criteria = keeps_entries-Within _ _ _ criteria;
      approved_decisions = keeps_entries-Within _ _ _ decisions;
      changed_files = keeps_entries-Within _ _ _ files;
      verification = keeps_entries-Within _ _ _ verified;
      blockers = keeps_entries-Within _ _ _ l4;
      repository_state = owned-eq owned.repository_state _ _;
      verification_evidence = owned-eq owned.verification_evidence _ _;
      reconciliation = owned-eq owned.reconciliation _ _;
      verification_status = owned-eq owned.verification_status _ _;
    })

checkpoint_of-Keeps :
    (owned : Owned) (l : Ledger) (r : Result LedgerError Ledger)
    → ((c : Ledger) → r ≡ ok c → Keeps owned l c)
    → Keeps owned l (checkpoint_of l r).checkpoint
unfolding checkpoint_of
checkpoint_of-Keeps owned l (ok c) h = h c refl
checkpoint_of-Keeps owned l (err e) h = Keeps_refl owned l

module _ (r : Reader) (p : Platform) (owned : Owned) (l : Ledger) (session directory : String) where
  abbrev parse : Option String → Result LedgerError Ledger
  parse output = parse_compactor_output r p output owned l session directory

  parse_compactor_output-Keeps :
      (output : Option String) {c : Ledger} → parse output ≡ ok c → Keeps owned l c
  unfolding parse_compactor_output
  parse_compactor_output-Keeps none h = cc
  parse_compactor_output-Keeps (some output) h =
      let (_, h1) = throw_if-eq-ok (r.is_blank output) no_text _ h in
      let (source, _, h2) = >>=-eq-ok (read_object (r.parse output)) _ h1 in
      let (_, _, h3) = >>=-eq-ok (all_present source ledger_keys) _ h2 in
      let (n, _, h4) = >>=-eq-ok (normalize_ledger p source session directory) _ h3 in
      accept-Keeps owned l n h4

  -- Whatever a model answers, or if it fails, the checkpoint has the goal, tier, stage, active task,
  -- pending gate and next step of the ledger, each field of objective evidence that the ledger has,
  -- and every criterion, decision, changed file, verification and blocker.
  pub intelligent_checkpoint-Keeps :
      (pool : Option Pool) (answer : Result LedgerError (Option String))
      → Keeps owned l (intelligent_checkpoint r p owned l session directory pool answer).checkpoint
  unfolding intelligent_checkpoint
  intelligent_checkpoint-Keeps pool answer = elim (Bool-cases (configured_compactor_pool r pool)) [
    | inl b ↦ rw b (
        checkpoint_of-Keeps owned l (answer >>= parse) (λ c h.
          let (output, _, k) = >>=-eq-ok answer parse h in parse_compactor_output-Keeps output k))
    | inr b ↦ rw b (Keeps_refl owned l)
  ]
