-- ===== src/System/Repeats.antt =====
-- nla-system-database.mjs: theorems on an event of a model call that comes again.
use next_level_agent.Base.{
  ℕ, String, Bool, false, ◌≡◌, refl, ap, ap₂, ◌∙◌, lookup, lookup-insert_self, Bool-cases,
  if_either, inl, inr, arith,
}
use next_level_agent.Base.Result.{ok}
use next_level_agent.System.Names.{failed, Host}
use next_level_agent.System.Tables.{Database, Counts, UsageRow}
use next_level_agent.System.Database.{Outcome, migrate, brought_up, checked}
use next_level_agent.System.Usage.{
  UsageEvent, validate_usage_event, usage_is_more_complete, is_recorded, with_usage,
  record_system_model_usage,
}
use next_level_agent.System.Writes.{checked-eq-ok, guarded-eq-ok, writing-eq, migrate_again}

usage_is_more_complete_self : (c : Counts) → usage_is_more_complete c c ≡ false
unfolding usage_is_more_complete
usage_is_more_complete_self c = ground arith

-- After an event was recorded or passed over, it is passed over.
is_recorded-with_usage :
    (now : ℕ) (message : String) (row : UsageRow) (db : Database)
    → is_recorded (lookup message (with_usage now message row db).usage) row ≡ false
unfolding with_usage
is_recorded-with_usage now message row db =
    elim (Bool-cases (is_recorded (lookup message db.usage) row)) [
      | inl e ↦ rw e (
          ap (λ held. is_recorded held row)
            (lookup-insert_self message (record row { observed_at = now }) db.usage)
          ∙ unfold is_recorded in usage_is_more_complete_self row.counts)
      | inr e ↦ rw e e
    ]

record_system_model_usage-eq-ok :
    (host : Host) (db : Database) (now : ℕ) (event : UsageEvent) {answer : Bool × String}
    → let recorded = record_system_model_usage host db now event in
      recorded.1 ≡ ok answer
      → (valid : String × UsageRow) × (validate_usage_event host event ≡ ok valid)
        × (migrate db ≡ ok (brought_up db))
        × (recorded.0 ≡ with_usage now valid.0 valid.1 (brought_up db))
        × (valid.0 ≡ answer.1)
unfolding record_system_model_usage
record_system_model_usage-eq-ok host db now event h =
    let (valid, passed, h1, e1) = checked-eq-ok db (validate_usage_event host event) _ h in
    let (_, opened, e2, same) =
      guarded-eq-ok db (λ m. false) (failed "") (with_usage now valid.0 valid.1)
        (λ m. (is_recorded (lookup valid.0 m.usage) valid.1, valid.0)) h1 in
    (
      valid,
      passed,
      opened,
      ap (λ (o : Outcome (Bool × String)). o.0) e1 ∙ e2,
      ap (λ (p : Bool × String). p.1) same,
    )

with_usage-versions :
    (now : ℕ) (message : String) (row : UsageRow) (db : Database)
    → (with_usage now message row db).versions ≡ db.versions
unfolding with_usage
with_usage-versions now message row db =
    if_either (λ (d : Database). d.versions ≡ db.versions)
      (is_recorded (lookup message db.usage) row) _ db refl refl

with_usage_over :
    (now : ℕ) (message : String) (row : UsageRow) (db : Database)
    → is_recorded (lookup message db.usage) row ≡ false
    → with_usage now message row db ≡ db
unfolding with_usage
with_usage_over now message row db h = rw h refl

record_system_model_usage_over :
    (host : Host) (db : Database) (later : ℕ) (event : UsageEvent) (valid : String × UsageRow)
    → validate_usage_event host event ≡ ok valid
    → migrate db ≡ ok (brought_up db)
    → is_recorded (lookup valid.0 db.usage) valid.1 ≡ false
    → record_system_model_usage host db later event ≡ (brought_up db, ok (false, valid.0))
unfolding record_system_model_usage checked brought_up
record_system_model_usage_over host db later event valid passed opened over = rw passed (
    writing-eq db _ opened (
      ap₂ (λ d b. ok (d, (b, valid.0))) (with_usage_over later valid.0 valid.1 (brought_up db) over)
        over))

-- The same event again, at any later time, is answered with `recorded: false` for the same message, and
-- leaves the rows as they are, whether the first was recorded or not.
pub record_system_model_usage_again :
    (host : Host) (db : Database) (now later : ℕ) (event : UsageEvent) {answer : Bool × String}
    → let first = record_system_model_usage host db now event in
      first.1 ≡ ok answer
      → let second = record_system_model_usage host first.0 later event in
        (second.1 ≡ ok (false, answer.1)) × (second.0.usage ≡ first.0.usage)
record_system_model_usage_again host db now later event {answer} h =
    let (valid, passed, opened, e, same) = record_system_model_usage-eq-ok host db now event h in
    let again =
      record_system_model_usage_over host (with_usage now valid.0 valid.1 (brought_up db)) later
        event valid passed
        (migrate_again db _ opened (with_usage-versions now valid.0 valid.1 (brought_up db)))
        (is_recorded-with_usage now valid.0 valid.1 (brought_up db)) in
    rw e (
      ap (λ (o : Outcome (Bool × String)). o.1) again ∙ ap (λ id. ok (false, id)) same,
      ap (λ (o : Outcome (Bool × String)). o.0.usage) again ∙ unfold brought_up in refl,
    )
