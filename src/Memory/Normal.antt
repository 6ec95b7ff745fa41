-- ===== src/Memory/Normal.antt =====
-- A saved ledger is read back as it is.
use next_level_agent.Base.{
  ℕ, zero, suc, ◌≡◌, refl, ap, subst, String, not, Option, some, List, take, leb, ltb, Dict, lookup,
  Bool-cases, inl, inr, arith, take-length_le, length-take-le,
}
use next_level_agent.Base.Result.{ok, throw_if-eq-ok, ok_injective}
use next_level_agent.Memory.Ledger.{
  Value, integer, text, array, object, Ledger, Platform, invalid_session, too_long, holds_secret,
  first_characters, tier_of, items_of, text_of, object_of, text_value, object_value, tier_value,
  ledger_of, normalize_ledger, saved,
}
use next_level_agent.Recovery.Ids.{safe_session}
use next_level_agent.Memory.Evidence.{bounded_evidence-again}

first_characters-again :
    (n : ℕ) (s : String) → first_characters n (first_characters n s) ≡ first_characters n s
unfolding first_characters
first_characters-again zero s = refl
first_characters-again (suc n) String.[] = refl
first_characters-again (suc n) (String.◌∷◌ c s) = ap (String.◌∷◌ c) (first_characters-again n s)

text_of-saved : (v : Option Value) → text_of (some (text_value (text_of v))) ≡ text_of v
unfolding text_of text_value
text_of-saved (some (text s)) = ap some (first_characters-again 8000 s)
text_of-saved v = refl

object_of-saved : (v : Option Value) → object_of (some (object_value (object_of v))) ≡ object_of v
unfolding object_of object_value
object_of-saved (some (object o)) = refl
object_of-saved v = refl

tier_of-saved : (v : Option Value) → tier_of (some (tier_value (tier_of v))) ≡ tier_of v
unfolding tier_of tier_value
tier_of-saved (some (integer n)) = elim (Bool-cases (leb n 3)) [
  | inl b ↦ rw (b, b) refl
  | inr b ↦ rw b refl
]
tier_of-saved v = refl

take-again : (n : ℕ) (xs : List String) → take n (items_of (some (array (take n xs)))) ≡ take n xs
unfolding items_of
take-again n xs = take-length_le n (take n xs) (length-take-le n xs)

module _ (p : Platform) (source : Dict Value) (session directory : String) where
  ledger_of-saved :
      ledger_of p (saved (ledger_of p source session directory)) session directory
      ≡ ledger_of p source session directory
  unfolding ledger_of saved lookup
  ledger_of-saved =
      rw
        (
          text_of-saved (lookup "goal" source),
          text_of-saved (lookup "workflow_stage" source),
          text_of-saved (lookup "pending_gate" source),
          text_of-saved (lookup "next_step" source),
          tier_of-saved (lookup "tier" source),
          object_of-saved (lookup "active_task" source),
          object_of-saved (lookup "repository_state" source),
          take-again 100 (items_of (lookup "acceptance_criteria" source)),
          take-again 100 (items_of (lookup "approved_decisions" source)),
          take-again 100 (items_of (lookup "completed_tasks" source)),
          take-again 100 (items_of (lookup "changed_files" source)),
          take-again 100 (items_of (lookup "verification" source)),
          take-again 100 (items_of (lookup "blockers" source)),
          bounded_evidence-again p.is_browser 0 0 (items_of (lookup "verification_evidence" source))
              (omega arith),
        )
        refl

  abbrev state : Ledger
  state = ledger_of p source session directory

  normalize_ledger-eq :
      {l : Ledger} → normalize_ledger p source session directory ≡ ok l → state ≡ l
  unfolding normalize_ledger
  normalize_ledger-eq h =
      let (_, h1) = throw_if-eq-ok (not (safe_session session)) invalid_session _ h in
      let (_, h2) = throw_if-eq-ok (ltb 128000 (p.json_length state)) too_long _ h1 in
      let (_, h3) = throw_if-eq-ok (p.has_secret state) holds_secret _ h2 in ok_injective h3

  -- A normalized ledger that is saved and normalized again, at the same time, is the same ledger.
  pub normalize_ledger-saved :
      {l : Ledger}
      → normalize_ledger p source session directory ≡ ok l
      → normalize_ledger p (saved l) session directory ≡ ok l
  unfolding normalize_ledger
  normalize_ledger-saved {l} h =
      subst (λ m. normalize_ledger p (saved m) session directory ≡ ok l) {x = state}
        (normalize_ledger-eq h) (rw ledger_of-saved h)
