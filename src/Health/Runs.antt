-- ===== src/Health/Runs.antt =====
-- nla-model-health.mjs: sequences of calls on one manager, each at its own time.
use next_level_agent.Base.{
  ℕ, ◌≡◌, refl, String, Bool, true, false, not, ◌&&◌, any, Option, none, some, List, [], ◌∷◌,
  lookup, lookup-insert, lookup-erase, arith, eq_iff, ◌==◌, All,
}
use next_level_agent.Health.Classify.{
  Category, incomplete, non_provider, defective, configuration, transient, unknown, Regexes,
  ProviderError, Classification, classify,
}
use next_level_agent.Health.Manager.{
  Manager, Entry, cooling, quarantined, failed, probe, probe_after, key, state, entry_state, claim,
  claimed_entry, release, released, success, failure, failed_manager, reset, SavedEntry, Failure,
  hydrated, hydrate_one, hydrate,
}

pub data Call : Type 0 where
  claims releases succeeds resets : String → String → Call
  fails : String → ProviderError → String → ℕ → Call
  hydrates : List SavedEntry → Call

-- A reset that throws leaves the manager as it was.
abbrev pub or_same : Manager → Option Manager → Manager
or_same m none = m
or_same m (some m') = m'

unfoldable pub step : Regexes → Manager → ℕ × Call → Manager
step rx m (now, claims b e) = (claim m now b e).0
step rx m (now, releases b e) = release m b e
step rx m (now, succeeds b e) = success m b e
step rx m (now, resets b e) = or_same m (reset m b e)
step rx m (now, fails b error e cooldown) = (failure rx m now b error e cooldown).0
step rx m (now, hydrates saved) = hydrate m now saved

unfoldable pub run : Regexes → Manager → List (ℕ × Call) → Manager
unfolding step
run rx m [] = m
run rx m (c ∷ cs) = run rx (step rx m c) cs

-- Entries that no time makes eligible: a claim in flight, and a quarantine.
abbrev pub is_blocking : Entry → Bool
is_blocking (failed f) = elim f.down [ cooling ↦ false | quarantined ↦ true ]
is_blocking (probe t) = true
is_blocking (probe_after t f) = true

abbrev is_claim : Entry → Bool
is_claim (failed f) = false
is_claim _ = true

-- The calls that may take such an entry `x` away from the key `k`.
abbrev pub lifts : String → Entry → ℕ × Call → Bool
lifts k x (t, claims b e) = false
lifts k x (t, releases b e) = is_claim x && key b e == k
lifts k x (t, succeeds b e) = key b e == k
lifts k x (t, resets b e) = not (is_claim x) && key b e == k
lifts k x (t, fails b error e cooldown) = key b e == k
lifts k x (t, hydrates saved) = any (λ e. key e.binding e.endpoint == k) saved

blocking-state :
    (x : Entry) (now : ℕ) → is_blocking x ≡ true → (entry_state (some x) now).eligible ≡ false
unfolding entry_state
blocking-state x now h = ground arith

module _ (k : String) (x : Entry) (m : Manager) (here : lookup k m.entries ≡ some x) where
  claim-keeps :
      (now : ℕ) (b e : String)
      → is_blocking x ≡ true
      → lookup k (claim m now b e).0.entries ≡ some x
  unfolding claim state
  claim-keeps now b e blocking = ground (
    arith,
    eq_iff (key b e) k,
    blocking-state x now blocking,
    lookup-insert (key b e) k (claimed_entry (lookup (key b e) m.entries) now) m.entries,
  )

  released-keeps :
      (j : String) (o : Option Entry)
      → lookup j m.entries ≡ o
      → (is_claim x && j == k) ≡ false
      → lookup k (released j o m.entries) ≡ some x
  released-keeps j none p h = here
  released-keeps j (some (failed f)) p h = here
  released-keeps j (some (probe t)) p h = ground (arith, eq_iff j k, lookup-erase j k m.entries)
  released-keeps j (some (probe_after t f)) p h =
      ground (arith, eq_iff j k, lookup-insert j k (failed f) m.entries)

  release-keeps :
      (b e : String)
      → (is_claim x && key b e == k) ≡ false
      → lookup k (release m b e).entries ≡ some x
  unfolding release
  release-keeps b e h = released-keeps (key b e) (lookup (key b e) m.entries) refl h

  failed-keeps :
      (now : ℕ) (b e : String) (cooldown : ℕ) (c : Classification) (category : Category)
      → (key b e == k) ≡ false
      → lookup k (failed_manager category m now c b e cooldown).entries ≡ some x
  failed-keeps now b e cooldown c transient h = rw (lookup-insert, h) here
  failed-keeps now b e cooldown c defective h = rw (lookup-insert, h) here
  failed-keeps now b e cooldown c configuration h = rw (lookup-insert, h) here
  failed-keeps now b e cooldown c incomplete h = release-keeps b e (rw h (ground arith))
  failed-keeps now b e cooldown c non_provider h = release-keeps b e (rw h (ground arith))
  failed-keeps now b e cooldown c unknown h = release-keeps b e (rw h (ground arith))

  hydrated-keeps :
      (j : String) (o : Option Failure)
      → (j == k) ≡ false
      → lookup k (hydrated m j o).entries ≡ some x
  hydrated-keeps j none h = here
  hydrated-keeps j (some f) h = rw (lookup-insert, h) here

hydrate-keeps :
    (k : String) (x : Entry) (m : Manager) (now : ℕ) (saved : List SavedEntry)
    → lookup k m.entries ≡ some x
    → any (λ e. key e.binding e.endpoint == k) saved ≡ false
    → lookup k (hydrate m now saved).entries ≡ some x
unfolding hydrate hydrate_one
hydrate-keeps k x m now [] here h = here
hydrate-keeps k x m now (e ∷ saved) here h =
    hydrate-keeps k x (hydrate_one m now e) now saved
      (hydrated-keeps k x m here (key e.binding e.endpoint) _ (ground arith)) (ground arith)

module _ (k : String) (x : Entry) (m : Manager) (here : lookup k m.entries ≡ some x) where
  step-keeps :
      (rx : Regexes) (c : ℕ × Call)
      → is_blocking x ≡ true
      → lifts k x c ≡ false
      → lookup k (step rx m c).entries ≡ some x
  unfolding step success failure reset
  step-keeps rx (now, claims b e) blocking h = claim-keeps k x m here now b e blocking
  step-keeps rx (now, releases b e) blocking h = release-keeps k x m here b e h
  step-keeps rx (now, succeeds b e) blocking h = rw (lookup-erase, h) here
  step-keeps rx (now, resets b e) blocking h =
      ground (arith, eq_iff (key b e) k, lookup-erase (key b e) k m.entries)
  step-keeps rx (now, fails b error e cooldown) blocking h =
      failed-keeps k x m here now b e cooldown (classify rx error now)
        (classify rx error now).category h
  step-keeps rx (now, hydrates saved) blocking h = hydrate-keeps k x m now saved here h

run-keeps :
    (rx : Regexes) (k : String) (x : Entry) (m : Manager) (cs : List (ℕ × Call))
    → lookup k m.entries ≡ some x
    → is_blocking x ≡ true
    → All (λ c. lifts k x c ≡ false) cs
    → lookup k (run rx m cs).entries ≡ some x
unfolding run
run-keeps rx k x m [] here blocking h = here
run-keeps rx k x m (c ∷ cs) here blocking (p, h) =
    run-keeps rx k x (step rx m c) cs (step-keeps k x m here rx c blocking p) blocking h

-- A binding that is claimed or quarantined cannot be claimed, however much time passes and whatever
-- else is called on the manager, until a call lifts its entry (a settling call for a claim, a success,
-- failure or reset for a quarantine, for either a hydration with a saved entry of its binding).
pub claim-run_blocked :
    (rx : Regexes) (m : Manager) (b e : String) (x : Entry) (cs : List (ℕ × Call)) (now : ℕ)
    → lookup (key b e) m.entries ≡ some x
    → is_blocking x ≡ true
    → All (λ c. lifts (key b e) x c ≡ false) cs
    → claim (run rx m cs) now b e ≡ (run rx m cs, false)
unfolding claim state
claim-run_blocked rx m b e x cs now here blocking h =
    rw (run-keeps rx (key b e) x m cs here blocking h, blocking-state x now blocking)
