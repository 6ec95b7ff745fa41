-- ===== src/Health/Claims.antt =====
-- nla-model-health.mjs: what a claim on a binding does and how it ends.
use next_level_agent.Base.{
  ap, ℕ, ◌≡◌, ◌≢◌, refl, String, true, false, Option, none, some, Dict, lookup, insert,
  lookup-insert, lookup-insert_self, erase-insert_new, insert-insert_old, arith, eq_iff,
}
use next_level_agent.Health.Manager.{
  Manager, Entry, failed, probe, probe_after, key, state, entry_state, claimed_entry, released,
  claim, release, in_flight,
}

released-eligible :
    (k : String) (now : ℕ) (o : Option Entry) (es : Dict Entry)
    → (entry_state o now).eligible ≡ true
    → released k o es ≡ es
unfolding entry_state
released-eligible k now none es h = refl
released-eligible k now (some (failed f)) es h = refl
released-eligible k now (some (probe t)) es h = cc
released-eligible k now (some (probe_after t f)) es h = cc

-- What the claim writes under the key.
abbrev claimed : Manager → ℕ → String → String → Entry
claimed m now b e = claimed_entry (lookup (key b e) m.entries) now

released-insert :
    (k : String) (now : ℕ) (o : Option Entry) (es : Dict Entry)
    → lookup k es ≡ o
    → (entry_state o now).eligible ≡ true
    → released k (some (claimed_entry o now)) (insert k (claimed_entry o now) es) ≡ es
unfolding entry_state
released-insert k now none es p h = erase-insert_new k (probe now) es p
released-insert k now (some (failed f)) es p h =
    insert-insert_old k (failed f) (probe_after now f) es p
released-insert k now (some (probe t)) es p h = cc
released-insert k now (some (probe_after t f)) es p h = cc

module _ (m : Manager) (now : ℕ) (b e : String) where
  -- A claim goes through exactly where the state of the binding is eligible.
  pub claim_result : (claim m now b e).1 ≡ (state m now b e).eligible
  unfolding claim
  claim_result = ground arith

  lookup-claim :
      (claim m now b e).1 ≡ true
      → lookup (key b e) (claim m now b e).0.entries ≡ some (claimed m now b e)
  unfolding claim
  lookup-claim h = ground (arith, lookup-insert_self (key b e) (claimed m now b e) m.entries)

  -- A claimed binding is in flight, so that it is not eligible at any later time.
  pub state-claim :
      (later : ℕ)
      → (claim m now b e).1 ≡ true
      → ((state (claim m now b e).0 later b e).label ≡ in_flight)
        × ((state (claim m now b e).0 later b e).eligible ≡ false)
  unfolding state
  state-claim later h = rw (lookup-claim h, state) (ground arith)

  pub state-claim_ne :
      (later : ℕ) (b' e' : String)
      → key b e ≢ key b' e'
      → state (claim m now b e).0 later b' e' ≡ state m later b' e'
  unfolding claim state
  state-claim_ne later b' e' h = ground (
    arith,
    eq_iff (key b e) (key b' e'),
    lookup-insert (key b e) (key b' e') (claimed m now b e) m.entries,
  )

  -- Releasing a claim that was just made restores every entry, and the order of the entries.
  pub release-claim : (claim m now b e).1 ≡ true → release (claim m now b e).0 b e ≡ m
  unfolding claim release state
  release-claim h = ground (
    arith,
    lookup-insert_self (key b e) (claimed m now b e) m.entries,
    released-insert (key b e) now (lookup (key b e) m.entries) m.entries refl,
  )

  -- There is no claim to release on a binding that is eligible.
  pub release-eligible : (state m now b e).eligible ≡ true → release m b e ≡ m
  unfolding release state
  release-eligible h =
      ap (λ es. record m { entries = es })
        (released-eligible (key b e) now (lookup (key b e) m.entries) m.entries h)
