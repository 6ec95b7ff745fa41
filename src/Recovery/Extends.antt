-- ===== src/Recovery/Extends.antt =====
-- How a record of a task may change: what one says of an earlier one.
use next_level_agent.Base.{
  ◌≡◌, refl, sym, ap, subst, ◌∙◌, String, Bool, true, Option, some, List, [], ◌∷◌, ◌++◌, map, In,
  inl, inr, if_either, Bool-cases,
}
use mathlib.Core.List.{append-nil, append_assoc}
use next_level_agent.Base.Result.{ok, >>=-eq-ok, throw_if-eq-ok, ok_injective}
use next_level_agent.Recovery.Contract.{identity_changed}
use next_level_agent.Recovery.Store.{
  Progress, pending, completed, Tracked, Check, Attempt, Recovery, Store, is_task, select_record,
  replace, refresh,
}
use next_level_agent.Recovery.Validate.{World, passes}
use next_level_agent.Recovery.Selected.{In-replace, In-append_left, select_record-In}
use next_level_agent.Recovery.Tasks.{with_claim}
use next_level_agent.Recovery.Finalize.{
  Report, complete, finish, admit, read_evidence, find_run, attempt_for, changes_identity,
  finalize_record,
}
use next_level_agent.Recovery.Calls.{run}

abbrev pub IsCompleted : Progress → Type 0
IsCompleted pending = ⊥
IsCompleted (completed run) = Unit

-- The same criteria, and what was completed is completed.
abbrev pub KeepsDone : List Tracked → List Tracked → Type 0
KeepsDone [] [] = Unit
KeepsDone [] (d ∷ ds) = ⊥
KeepsDone (c ∷ cs) [] = ⊥
KeepsDone (c ∷ cs) (d ∷ ds) =
    (c.id ≡ d.id)
    × (c.mandatory ≡ d.mandatory)
    × (c.definition_hash ≡ d.definition_hash)
    × (IsCompleted c.progress → IsCompleted d.progress)
    × KeepsDone cs ds

-- A later state of the same task.
pub record Extends (old new : Recovery) : Type 0 where
  pub same_owner : old.owner ≡ new.owner
  pub same_task : old.task_id ≡ new.task_id
  pub same_contract : old.contract ≡ new.contract
  pub same_policy : old.policy ≡ new.policy
  pub evidence_kept : (more : List Attempt) × (new.evidence ≡ old.evidence ++ more)
  pub done_kept : KeepsDone old.criteria new.criteria

pub KeepsDone-refl : (cs : List Tracked) → KeepsDone cs cs
KeepsDone-refl [] = tt
KeepsDone-refl (c ∷ cs) = (refl, refl, refl, λ h. h, KeepsDone-refl cs)

pub KeepsDone-trans :
    (xs ys zs : List Tracked) → KeepsDone xs ys → KeepsDone ys zs → KeepsDone xs zs
KeepsDone-trans [] [] [] h k = tt
KeepsDone-trans [] [] (z ∷ zs) h k = k
KeepsDone-trans [] (y ∷ ys) zs h k = absurd h
KeepsDone-trans (x ∷ xs) [] zs h k = absurd h
KeepsDone-trans (x ∷ xs) (y ∷ ys) [] h k = k
KeepsDone-trans (x ∷ xs) (y ∷ ys) (z ∷ zs) h k =
    (h.0 ∙ k.0, h.1 ∙ k.1, h.2 ∙ k.2, (λ d. k.3 (h.3 d)), KeepsDone-trans xs ys zs h.4 k.4)

pub Extends-refl : (r : Recovery) → Extends r r
Extends-refl r = record {
  same_owner = refl;
  same_task = refl;
  same_contract = refl;
  same_policy = refl;
  evidence_kept = ([], sym (append-nil r.evidence));
  done_kept = KeepsDone-refl r.criteria;
}

pub Extends-trans : {q r s : Recovery} → Extends q r → Extends r s → Extends q s
Extends-trans {q} {r} {s} h k = record {
  same_owner = h.same_owner ∙ k.same_owner;
  same_task = h.same_task ∙ k.same_task;
  same_contract = h.same_contract ∙ k.same_contract;
  same_policy = h.same_policy ∙ k.same_policy;
  evidence_kept = (
    h.evidence_kept.0 ++ k.evidence_kept.0,
    k.evidence_kept.1
        ∙ ap (λ xs. xs ++ k.evidence_kept.0) h.evidence_kept.1
        ∙ append_assoc q.evidence h.evidence_kept.0 k.evidence_kept.0,
  );
  done_kept = KeepsDone-trans q.criteria r.criteria s.criteria h.done_kept k.done_kept;
}

pub completes :
    (run : String) (checks : List Check) (cs : List Tracked)
    → KeepsDone cs (map (complete run checks) cs)
unfolding complete
completes run checks [] = tt
completes run checks (c ∷ cs) =
    if_either
      (λ (d : Tracked).
        (c.id ≡ d.id)
        × (c.mandatory ≡ d.mandatory)
        × (c.definition_hash ≡ d.definition_hash)
        × (IsCompleted c.progress → IsCompleted d.progress)
        × KeepsDone cs (map (complete run checks) cs))
      (passes c.id checks) _ c (refl, refl, refl, (λ h. tt), completes run checks cs)
      (refl, refl, refl, (λ h. h), completes run checks cs)

pub finish-Extends : (a : Attempt) (r : Recovery) → Extends r (finish a r)
unfolding finish refresh
finish-Extends a r = record {
  same_owner = refl;
  same_task = refl;
  same_contract = refl;
  same_policy = refl;
  evidence_kept = (a ∷ [], refl);
  done_kept = completes a.run_id a.checks r.criteria;
}

pub finalize_record-Extends :
    (w : World) (p : Report) (r : Recovery) {done : Recovery}
    → finalize_record w p r ≡ ok done
    → Extends r done
unfolding finalize_record
finalize_record-Extends w p r h =
    let (u, _, e) = >>=-eq-ok (admit w.digests p r) _ h in
    let ((bytes, m), _, k) = >>=-eq-ok (read_evidence w p.run.evidence) _ e in
    let previous = find_run p.run.run_id r.attempts in
    let a = attempt_for w p r previous bytes m in
    let (_, done) = throw_if-eq-ok (changes_identity previous a) identity_changed _ k in
    subst (Extends r) (ok_injective done) (finish-Extends a r)

-- Each task of the first store is a task of the second, in a later state.
abbrev pub Keeps : Store → Store → Type 0
Keeps s t = (r : Recovery) → In r s → (q : Recovery) × In q t × Extends r q

pub Keeps-refl : (s : Store) → Keeps s s
Keeps-refl s r m = (r, m, Extends-refl r)

pub Keeps-trans : (s t u : Store) → Keeps s t → Keeps t u → Keeps s u
Keeps-trans s t u h k r m =
    let (q, n, e) = h r m in let (p, o, f) = k q n in (p, o, Extends-trans e f)

pub Keeps-append : (s : Store) (new : Recovery) → Keeps s (s ++ (new ∷ []))
Keeps-append s new r m = (r, In-append_left r s (new ∷ []) m, Extends-refl r)

pub In-replace_new :
    (by : String) (task : Option String) (new r : Recovery) (s : Store)
    → In r s
    → is_task by task r ≡ true
    → In new (replace by task new s)
unfolding replace
In-replace_new by task new r [] m h = m
In-replace_new by task new r (x ∷ xs) (inl e) h = rw (sym (ap (is_task by task) e) ∙ h) (inl refl)
In-replace_new by task new r (x ∷ xs) (inr m) h =
    let rest = In-replace_new by task new r xs m h in
    if_either (In new) (is_task by task x) _ _ (inr rest) (inr rest)

-- A record that takes the place of the one that was found, or of none, and extends it.
pub Keeps-replace :
    (s : Store) (by : String) (task : Option String) (new : Recovery)
    → ((r : Recovery) → In r s → is_task by task r ≡ true → Extends r new)
    → Keeps s (replace by task new s)
Keeps-replace s by task new h r m = elim (Bool-cases (is_task by task r)) [
  | inl e ↦ (new, In-replace_new by task new r s m e, h r m e)
  | inr e ↦ (r, In-replace by task new r s m e, Extends-refl r)
]

pub Keeps-found :
    (s : Store) (by : String) (task : Option String) (required : Bool) (old new : Recovery)
    → select_record s by task required ≡ ok (some old)
    → Extends old new
    → Keeps s (replace by task new s)
Keeps-found s by task required old new found h = Keeps-replace s by task new (λ r m e.
    subst (λ (q : Recovery). Extends q new) (sym (select_record-In s by task required r found m e))
      h)

pub with_claim-Extends : (c : Option String) (r : Recovery) → Extends r (with_claim c r)
with_claim-Extends c r = record {
  same_owner = refl;
  same_task = refl;
  same_contract = refl;
  same_policy = refl;
  evidence_kept = ([], sym (append-nil r.evidence));
  done_kept = KeepsDone-refl r.criteria;
}
