-- ===== src/Health/Failures.antt =====
-- nla-model-health.mjs: when a binding that failed may be tried again.
use next_level_agent.Base.{
  ℕ, ◌+◌, max, ◌≡◌, refl, String, Bool, false, lookup-insert_self, arith, leb,
}
use next_level_agent.Health.Classify.{
  Category, incomplete, non_provider, defective, configuration, transient, unknown, Regexes,
  ProviderError, Classification, classify,
}
use next_level_agent.Health.Manager.{
  Manager, state, entry_state, is_due, release, failure, failed_manager, or_zero,
}

-- Whether a binding is eligible at a later time, by the category of its failure.
abbrev pub reopens : Category → ℕ → ℕ → Bool → Bool
reopens transient until later after_release = leb until later
reopens defective until later after_release = false
reopens configuration until later after_release = false
reopens _ until later after_release = after_release

module _ (m : Manager) (now later : ℕ) (b e : String) (cooldown : ℕ) (c : Classification) where
  failed_manager-eligible :
      (k : Category)
      → (state (failed_manager k m now c b e cooldown) later b e).eligible
        ≡ reopens k
            (now + max cooldown (or_zero c.retry_ms))
            later
            (state (release m b e) later b e).eligible
  unfolding state is_due
  failed_manager-eligible transient = rw (lookup-insert_self, entry_state) (ground arith)
  failed_manager-eligible defective = rw (lookup-insert_self, entry_state)
  failed_manager-eligible configuration = rw (lookup-insert_self, entry_state)
  failed_manager-eligible incomplete = refl
  failed_manager-eligible non_provider = refl
  failed_manager-eligible unknown = refl

-- After a failure, a binding is eligible at a later time exactly when the cooldown (the longer of the
-- configured one and Retry-After) is over for a transient failure, never for a defect or a
-- configuration error, and as after a release for any other error.
pub failure-eligible :
    (rx : Regexes) (m : Manager) (now later : ℕ) (b : String) (error : ProviderError) (e : String)
    (cooldown : ℕ)
    → let c = classify rx error now in
      (state (failure rx m now b error e cooldown).0 later b e).eligible
      ≡ reopens c.category
          (now + max cooldown (or_zero c.retry_ms))
          later
          (state (release m b e) later b e).eligible
unfolding failure
failure-eligible rx m now later b error e cooldown =
    let c = classify rx error now in failed_manager-eligible m now later b e cooldown c c.category
