-- ===== src/Recovery/Calls.antt =====
-- nla-browser-recovery.mjs: the calls that write the store, and what a transaction keeps.
use next_level_agent.Base.{
  ◌≡◌, refl, String, Bool, Option, some, List, [], ◌∷◌, Bool-cases, inl, inr,
}
use next_level_agent.Base.Result.{Result, ok, err}
use next_level_agent.Recovery.Contract.{Blocked, BrowserTask}
use next_level_agent.Recovery.Store.{Store}
use next_level_agent.Recovery.Validate.{World, valid_store}
use next_level_agent.Recovery.Tasks.{
  Disk, fresh, damaged, holding, open_store, transaction, check_result, commit,
  begin_browser_recovery, claim_task, release_task,
}
use next_level_agent.Recovery.Finalize.{Report, create_browser_recovery}

pub data Call : Type 0 where
  begins : String → BrowserTask → Option String → String → Call
  claims releases : String → String → String → Call
  creates : Report → Call

unfoldable pub apply : World → Disk → Call → Disk
apply w disk (begins owner task id uuid) = (begin_browser_recovery w disk owner task id uuid).0
apply w disk (claims owner id token) = (claim_task w disk owner id token).0
apply w disk (releases owner id token) = (release_task w disk owner id token).0
apply w disk (creates p) = (create_browser_recovery w disk p).0

unfoldable pub run : World → Disk → List Call → Disk
run w disk [] = disk
run w disk (c ∷ cs) = run w (apply w disk c) cs

-- The disk holds a store of which `P` is true.
abbrev pub Holds : (Store → Type 0) → Disk → Type 0
Holds P fresh = ⊥
Holds P damaged = ⊥
Holds P (holding s) = P s

module _ {A : Type 0} (w : World) (P : Store → Type 0) (s : Store) where
  checked :
      (r : Result Blocked (Store × A))
      → P s
      → ((t : Store) (v : A) → r ≡ ok (t, v) → P t)
      → Holds P (commit (holding s) (check_result w r)).0
  unfolding check_result commit
  checked (err e) h k = h
  checked (ok (t, v)) h k = elim (Bool-cases (valid_store w t)) [
    | inl e ↦ rw e (k t v refl)
    | inr e ↦ rw e h
  ]

  -- What every success of the action keeps, the transaction keeps.
  pub transaction-Holds :
      (required : Bool) (action : Option Store → Result Blocked (Store × A))
      → P s
      → ((t : Store) (v : A) → action (some s) ≡ ok (t, v) → P t)
      → Holds P (transaction w (holding s) required action).0
  unfolding transaction open_store
  transaction-Holds required action h k = elim (Bool-cases (valid_store w s)) [
    | inl e ↦ rw e (checked (action (some s)) h k)
    | inr e ↦ rw e h
  ]

abbrev pub Fails : {A : Type 0} → Result Blocked A → Type 0
Fails (ok a) = ⊥
Fails (err e) = Unit

module _ {A : Type 0} (w : World) (s : Store) where
  checked-Fails :
      (r : Result Blocked (Store × A))
      → ((t : Store) (v : A) → r ≡ ok (t, v) → ⊥)
      → Fails (commit (holding s) (check_result w r)).1
  unfolding check_result commit
  checked-Fails (err e) k = tt
  checked-Fails (ok (t, v)) k = absurd (k t v refl)

  -- A transaction whose action cannot succeed fails.
  pub transaction-Fails :
      (required : Bool) (action : Option Store → Result Blocked (Store × A))
      → ((t : Store) (v : A) → action (some s) ≡ ok (t, v) → ⊥)
      → Fails (transaction w (holding s) required action).1
  unfolding transaction open_store
  transaction-Fails required action k = elim (Bool-cases (valid_store w s)) [
    | inl e ↦ rw e (checked-Fails (action (some s)) k)
    | inr e ↦ rw e tt
  ]
