-- ===== src/Health/Previous.antt =====
-- nla-model-health.mjs: what a claim keeps of the entry that it replaced.
use next_level_agent.Base.{
  ℕ, ◌≤◌, ◌≡◌, subst, String, true, false, Option, none, some, List, [], ◌∷◌, Dict, lookup, insert,
  erase, lookup-insert, lookup-erase, lookup-insert_self, arith, ◌==◌, inl, inr, Bool-cases, ◌⊎◌,
}
use next_level_agent.Health.Classify.{
  Category, incomplete, non_provider, defective, configuration, transient, unknown, Regexes,
  Classification, classify,
}
use next_level_agent.Health.Manager.{
  Manager, Entry, Failure, cooling, failed, probe, probe_after, key, state, entry_state, is_due,
  claim, claimed_entry, release, released, success, failure, failed_manager, reset, is_probe,
  SavedEntry, hydrated, hydrate_one, hydrate,
}
use next_level_agent.Health.Runs.{
  Call, claims, releases, succeeds, resets, fails, hydrates, step, run,
}

-- A replaced entry was cooling, and its time was over when the claim was made.
abbrev pub WasDue : Entry → Type 0
WasDue (probe_after t f) = (f.down ≡ cooling) × (is_due f.until t ≡ true)
WasDue _ = Unit

pub record IsSound (es : Dict Entry) : Type 0 where
  pub at_key : (k : String) (x : Entry) → lookup k es ≡ some x → WasDue x

insert-IsSound :
    (k : String) (x : Entry) (es : Dict Entry) → WasDue x → IsSound es → IsSound (insert k x es)
insert-IsSound k x es w s = record { at_key = λ j y h. here j y (Bool-cases (k == j)) h }
  where
    same : (j : String) (y : Entry) → (k == j) ≡ true → lookup j (insert k x es) ≡ some y → x ≡ y
    same j y e h = ground (arith, lookup-insert k j x es)

    here :
        (j : String) (y : Entry)
        → ((k == j) ≡ true) ⊎ ((k == j) ≡ false)
        → lookup j (insert k x es) ≡ some y
        → WasDue y
    here j y (inl e) h = subst WasDue (same j y e h) w
    here j y (inr e) h = s.at_key j y (ground (arith, lookup-insert k j x es))

erase-IsSound : (k : String) (es : Dict Entry) → IsSound es → IsSound (erase k es)
erase-IsSound k es s = record {
  at_key = λ j y h. s.at_key j y (ground (arith, lookup-erase k j es));
}

claimed-WasDue :
    (o : Option Entry) (now : ℕ)
    → (entry_state o now).eligible ≡ true
    → WasDue (claimed_entry o now)
unfolding entry_state
claimed-WasDue none now h = tt
claimed-WasDue (some (failed f)) now h = ground arith
claimed-WasDue (some (probe t)) now h = tt
claimed-WasDue (some (probe_after t f)) now h = tt

claim-IsSound :
    (m : Manager) (now : ℕ) (b e : String) → IsSound m.entries → IsSound (claim m now b e).0.entries
unfolding claim state
claim-IsSound m now b e s =
    elim (Bool-cases (entry_state (lookup (key b e) m.entries) now).eligible) [
      | inl p ↦ rw p (
          insert-IsSound (key b e) (claimed_entry (lookup (key b e) m.entries) now) m.entries
            (claimed-WasDue (lookup (key b e) m.entries) now p) s)
      | inr p ↦ rw p s
    ]

released-IsSound :
    (k : String) (o : Option Entry) (es : Dict Entry) → IsSound es → IsSound (released k o es)
released-IsSound k none es s = s
released-IsSound k (some (failed f)) es s = s
released-IsSound k (some (probe t)) es s = erase-IsSound k es s
released-IsSound k (some (probe_after t f)) es s = insert-IsSound k (failed f) es tt s

release-IsSound : (m : Manager) (b e : String) → IsSound m.entries → IsSound (release m b e).entries
unfolding release
release-IsSound m b e s = released-IsSound (key b e) (lookup (key b e) m.entries) m.entries s

failed-IsSound :
    (m : Manager) (now : ℕ) (b e : String) (cooldown : ℕ) (c : Classification) (category : Category)
    → IsSound m.entries
    → IsSound (failed_manager category m now c b e cooldown).entries
failed-IsSound m now b e cooldown c transient s = insert-IsSound (key b e) _ m.entries tt s
failed-IsSound m now b e cooldown c defective s = insert-IsSound (key b e) _ m.entries tt s
failed-IsSound m now b e cooldown c configuration s = insert-IsSound (key b e) _ m.entries tt s
failed-IsSound m now b e cooldown c incomplete s = release-IsSound m b e s
failed-IsSound m now b e cooldown c non_provider s = release-IsSound m b e s
failed-IsSound m now b e cooldown c unknown s = release-IsSound m b e s

hydrated-IsSound :
    (m : Manager) (k : String) (o : Option Failure)
    → IsSound m.entries
    → IsSound (hydrated m k o).entries
hydrated-IsSound m k none s = s
hydrated-IsSound m k (some f) s = insert-IsSound k (failed f) m.entries tt s

hydrate-IsSound :
    (m : Manager) (now : ℕ) (saved : List SavedEntry)
    → IsSound m.entries
    → IsSound (hydrate m now saved).entries
unfolding hydrate hydrate_one
hydrate-IsSound m now [] s = s
hydrate-IsSound m now (e ∷ saved) s =
    hydrate-IsSound (hydrate_one m now e) now saved
      (hydrated-IsSound m (key e.binding e.endpoint) _ s)

step-IsSound :
    (rx : Regexes) (m : Manager) (c : ℕ × Call) → IsSound m.entries → IsSound (step rx m c).entries
unfolding step success failure reset
step-IsSound rx m (now, claims b e) s = claim-IsSound m now b e s
step-IsSound rx m (now, releases b e) s = release-IsSound m b e s
step-IsSound rx m (now, succeeds b e) s = erase-IsSound (key b e) m.entries s
step-IsSound rx m (now, resets b e) s = elim (Bool-cases (is_probe (lookup (key b e) m.entries))) [
  | inl p ↦ rw p s
  | inr p ↦ rw p (erase-IsSound (key b e) m.entries s)
]
step-IsSound rx m (now, fails b error e cooldown) s =
    failed-IsSound m now b e cooldown (classify rx error now) (classify rx error now).category s
step-IsSound rx m (now, hydrates saved) s = hydrate-IsSound m now saved s

run-IsSound :
    (rx : Regexes) (m : Manager) (cs : List (ℕ × Call))
    → IsSound m.entries
    → IsSound (run rx m cs).entries
unfolding run
run-IsSound rx m [] s = s
run-IsSound rx m (c ∷ cs) s = run-IsSound rx (step rx m c) cs (step-IsSound rx m c s)

empty-IsSound : IsSound []
unfolding lookup
empty-IsSound = record { at_key = λ k x h. cc }

abbrev pub new_manager : ℕ → Manager
new_manager cooldown = record { entries = []; cooldown = cooldown }

due_mono : (u : Option ℕ) (t now : ℕ) → is_due u t ≡ true → t ≤ now → is_due u now ≡ true
unfolding is_due
due_mono u t now h le = ground arith

released-eligible :
    (k : String) (es : Dict Entry) (t now : ℕ) (f : Failure)
    → f.down ≡ cooling
    → is_due f.until t ≡ true
    → t ≤ now
    → (entry_state (lookup k (insert k (failed f) es)) now).eligible ≡ true
unfolding entry_state
released-eligible k es t now f p q le =
    rw lookup-insert_self (ground (arith, due_mono f.until t now))

-- After any calls on a new manager, hydrations included, releasing a claim that replaced a failure leaves the binding
-- eligible at once, from the time of the claim on.
pub run-release_eligible :
    (rx : Regexes) (cooldown : ℕ) (cs : List (ℕ × Call)) (b e : String) (t now : ℕ) (f : Failure)
    → lookup (key b e) (run rx (new_manager cooldown) cs).entries ≡ some (probe_after t f)
    → t ≤ now
    → (state (release (run rx (new_manager cooldown) cs) b e) now b e).eligible ≡ true
unfolding release state
run-release_eligible rx cooldown cs b e t now f here le =
    let m = run rx (new_manager cooldown) cs in
    let due =
      (run-IsSound rx (new_manager cooldown) cs empty-IsSound).at_key (key b e) (probe_after t f)
        here in
    rw here (released-eligible (key b e) m.entries t now f due.0 due.1 le)
