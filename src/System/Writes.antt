-- ===== src/System/Writes.antt =====
-- nla-system-database.mjs: what every function that opens the database has in common.
use next_level_agent.Base.{
  Bool, true, false, not, any, eqb, ltb, if_either, arith, ◌≡◌, refl, sym, ap, ◌∙◌, subst,
}
use next_level_agent.Base.Result.{
  Result, ok, err, ◌>>=◌, ◌>>◌, throw_if, >>=-eq-ok, throw_if-eq-ok, ok_injective,
}
use next_level_agent.System.Names.{SystemError, failed}
use next_level_agent.System.Tables.{Database}
use next_level_agent.System.Database.{
  Outcome, transaction, committed, migrate, newest, system_database_version, brought_up, queried,
  reading, writing, checked,
}

migrate-eq : (db : Database) {m : Database} → migrate db ≡ ok m → m ≡ brought_up db
unfolding migrate
migrate-eq db h = sym (ok_injective (throw_if-eq-ok _ _ _ h).1)

module _ {A : Type 0} (P : Database → Type 0) (db : Database) where
  committed_keeps :
      (r : Result SystemError (Database × A))
      → P db
      → ((after : Database) (a : A) → r ≡ ok (after, a) → P after)
      → P (committed db r).0
  unfolding committed
  committed_keeps (ok (after, a)) h k = k after a refl
  committed_keeps (err e) h k = h

  queried_keeps :
      (query : Database → Result SystemError A) (r : Result SystemError Database)
      → P db
      → ((m : Database) → r ≡ ok m → P m)
      → P (queried db query r).0
  unfolding queried
  queried_keeps query (ok m) h k = k m refl
  queried_keeps query (err e) h k = h

  -- A write that throws leaves the database; one that returns has written on the migrated one.
  pub writing_keeps :
      (callback : Database → Result SystemError (Database × A))
      → P db
      → ((after : Database) (a : A) → callback (brought_up db) ≡ ok (after, a) → P after)
      → P (writing db callback).0
  unfolding writing transaction
  writing_keeps callback h k = committed_keeps (migrate db >>= callback) h λ after a returned.
      let (m, migrated, r) = >>=-eq-ok (migrate db) callback returned in
      k after a (subst (λ d. callback d ≡ ok (after, a)) (migrate-eq db migrated) r)

  pub reading_keeps :
      (query : Database → Result SystemError A) → P db → P (brought_up db) → P (reading db query).0
  unfolding reading
  reading_keeps query h k =
      queried_keeps query (migrate db) h λ m returned. subst P (sym (migrate-eq db returned)) k

  -- The same, for a write that is one change of the migrated database behind a guard.
  pub guarded_keeps :
      (guard : Database → Bool) (e : SystemError) (change : Database → Database)
      (value : Database → A)
      → P db
      → (guard (brought_up db) ≡ false → P (change (brought_up db)))
      → P (writing db λ m. throw_if (guard m) e >> ok (change m, value m)).0
  guarded_keeps guard e change value h k =
      writing_keeps (λ m. throw_if (guard m) e >> ok (change m, value m)) h
        λ after a returned.
          let (passed, r) = throw_if-eq-ok (guard (brought_up db)) e _ returned in
          subst P (ap (λ (p : Database × A). p.0) (ok_injective r)) (k passed)

  pub plain_keeps :
      (change : Database → Database) (value : Database → A)
      → P db
      → P (change (brought_up db))
      → P (writing db λ m. ok (change m, value m)).0
  plain_keeps change value h k =
      writing_keeps (λ m. ok (change m, value m)) h
        λ after a returned. subst P (ap (λ (p : Database × A). p.0) (ok_injective returned)) k

pub checked_keeps :
    {A B : Type 0} (P : Database → Type 0) (db : Database) (r : Result SystemError A)
    (next : A → Outcome B)
    → P db
    → ((a : A) → r ≡ ok a → P (next a).0)
    → P (checked db r next).0
unfolding checked
checked_keeps P db (ok a) next h k = k a refl
checked_keeps P db (err e) next h k = h

-- What has returned passed its check, and did not throw in the transaction.
pub checked-eq-ok :
    {A B : Type 0} (db : Database) (r : Result SystemError A) (next : A → Outcome B) {b : B}
    → (checked db r next).1 ≡ ok b
    → (a : A) × (r ≡ ok a) × ((next a).1 ≡ ok b) × (checked db r next ≡ next a)
unfolding checked
checked-eq-ok db (ok a) next h = (a, refl, h, refl)
checked-eq-ok db (err e) next h = cc

committed-eq-ok :
    {A : Type 0} (db : Database) (r : Result SystemError (Database × A)) {a : A}
    → (committed db r).1 ≡ ok a
    → (after : Database) × (r ≡ ok (after, a)) × (committed db r ≡ (after, ok a))
unfolding committed
committed-eq-ok db (ok (after, b)) h =
    (after, ap (λ c. ok (after, c)) (ok_injective h), ap (λ c. (after, c)) h)
committed-eq-ok db (err e) h = cc

writing-eq-ok :
    {A : Type 0} (db : Database) (callback : Database → Result SystemError (Database × A)) {a : A}
    → (writing db callback).1 ≡ ok a
    → (after : Database) × (callback (brought_up db) ≡ ok (after, a))
      × (migrate db ≡ ok (brought_up db))
      × (writing db callback ≡ (after, ok a))
unfolding writing transaction
writing-eq-ok db callback {a} h =
    let (after, returned, all) = committed-eq-ok db (migrate db >>= callback) h in
    let (m, migrated, r) = >>=-eq-ok (migrate db) callback returned in
    (
      after,
      subst (λ d. callback d ≡ ok (after, a)) (migrate-eq db migrated) r,
      subst (λ d. migrate db ≡ ok d) (migrate-eq db migrated) migrated,
      all,
    )

queried-eq-ok :
    {A : Type 0} (db : Database) (query : Database → Result SystemError A)
    (r : Result SystemError Database) {a : A}
    → (queried db query r).1 ≡ ok a
    → (m : Database) × (r ≡ ok m) × (query m ≡ ok a)
unfolding queried
queried-eq-ok db query (ok m) h = (m, refl, h)
queried-eq-ok db query (err e) h = cc

pub reading-eq-ok :
    {A : Type 0} (db : Database) (query : Database → Result SystemError A) {a : A}
    → (reading db query).1 ≡ ok a
    → query (brought_up db) ≡ ok a
unfolding reading
reading-eq-ok db query {a} h =
    let (m, migrated, r) = queried-eq-ok db query (migrate db) h in
    subst (λ d. query d ≡ ok a) (migrate-eq db migrated) r

pub reading-returned :
    {A : Type 0} (db : Database) (query : Database → Result SystemError A) {a : A}
    → (reading db query).1 ≡ ok a
    → reading db query ≡ (brought_up db, query (brought_up db))
unfolding reading
reading-returned db query h =
    let (m, migrated, r) = queried-eq-ok db query (migrate db) h in
    subst (λ d. queried db query (migrate db) ≡ (d, query d)) (migrate-eq db migrated)
      (ap (queried db query) migrated ∙ unfold queried in refl)

-- A write of one change, behind a guard, that returned. `throw_if false e >> r` is `r`.
pub guarded-eq-ok :
    {A : Type 0} (db : Database) (guard : Database → Bool) (e : SystemError)
    (change : Database → Database) (value : Database → A) {a : A}
    → let written = writing db λ m. throw_if (guard m) e >> ok (change m, value m) in
      written.1 ≡ ok a
      → (guard (brought_up db) ≡ false)
        × (migrate db ≡ ok (brought_up db))
        × (written.0 ≡ change (brought_up db))
        × (value (brought_up db) ≡ a)
guarded-eq-ok {A} db guard e change value h =
    let (after, returned, opened, all) =
      writing-eq-ok db (λ m. throw_if (guard m) e >> ok (change m, value m)) h in
    let (passed, r) = throw_if-eq-ok (guard (brought_up db)) e _ returned in
    (
      passed,
      opened,
      ap (λ (p : Outcome A). p.0) all ∙ sym (ap (λ (p : Database × A). p.0) (ok_injective r)),
      ap (λ (p : Database × A). p.1) (ok_injective r),
    )

not_newer : Database → Bool
unfolding newest
not_newer db = not (ltb system_database_version (newest db.versions))

migrate-not_newer : (db : Database) → not_newer db ≡ true → migrate db ≡ ok (brought_up db)
unfolding migrate not_newer
migrate-not_newer db h = ground arith

not_newer-migrate : (db : Database) {m : Database} → migrate db ≡ ok m → not_newer db ≡ true
unfolding migrate not_newer
not_newer-migrate db h =
    let (e, r) =
      throw_if-eq-ok (ltb system_database_version (newest db.versions))
        (failed "System database schema is newer than this NLA version") (ok (brought_up db)) h in
    rw e refl

not_newer-brought_up : (db : Database) → not_newer db ≡ true → not_newer (brought_up db) ≡ true
unfolding not_newer brought_up newest
not_newer-brought_up db h =
    if_either (λ vs. not (ltb 4 (newest vs)) ≡ true) (any (eqb 4) db.versions) _ _ h (ground arith)

-- What was written can be opened again.
pub migrate_again :
    (db after : Database) {m : Database}
    → migrate db ≡ ok m
    → after.versions ≡ (brought_up db).versions
    → migrate after ≡ ok (brought_up after)
unfolding not_newer
migrate_again db after h same = migrate-not_newer after (
    subst (λ vs. not (ltb 4 (newest vs)) ≡ true) (sym same)
      (not_newer-brought_up db (not_newer-migrate db h)))

pub reading-eq :
    {A : Type 0} (db : Database) (query : Database → Result SystemError A)
    → migrate db ≡ ok (brought_up db)
    → reading db query ≡ (brought_up db, query (brought_up db))
unfolding reading queried
reading-eq db query h = rw h refl

pub writing-eq :
    {A : Type 0} (db : Database) (callback : Database → Result SystemError (Database × A))
    {after : Database} {a : A}
    → migrate db ≡ ok (brought_up db)
    → callback (brought_up db) ≡ ok (after, a)
    → writing db callback ≡ (after, ok a)
unfolding writing transaction committed
writing-eq db callback h k = rw h (rw k refl)
