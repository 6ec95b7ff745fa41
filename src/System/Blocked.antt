-- ===== src/System/Blocked.antt =====
-- nla-system-database.mjs: theorems on the sessions that are blocked.
use next_level_agent.System.Lookups.{exists_in-insert_self}
use next_level_agent.System.Database.{exists_in}
use next_level_agent.Base.{String, Bool, true, false, ◌≡◌, refl, sym, ap, ◌∙◌, subst, List}
use next_level_agent.Base.Result.{Result, ok, err, if_ok-eq-ok, ok_injective}
use next_level_agent.Recovery.Ids.{safe_session}
use next_level_agent.System.Names.{SystemError, failed, Host, valid_session_id}
use next_level_agent.System.Tables.{Database}
use next_level_agent.System.Database.{Outcome, brought_up, reading, writing, and_then}
use next_level_agent.System.Orchestras.{Serial}
use next_level_agent.System.Sessions.{
  Legacy, absent, malformed, parsed, Block, malformed_block, with_block, save_system_restore_block,
  or_malformed, legacy_block, known_or_legacy, has_system_restore_block,
}
use next_level_agent.System.Writes.{checked-eq-ok, guarded-eq-ok, reading-returned}
use next_level_agent.System.Marks.{Call, run, IsBlocked, run_keeps}

and_then-eq-ok :
    {A B : Type 0} (first : Outcome A) (next : Database → A → Outcome B) {b : B}
    → (and_then first next).1 ≡ ok b
    → (a : A) × (first.1 ≡ ok a) × (and_then first next ≡ next first.0 a)
unfolding and_then
and_then-eq-ok (db, ok a) next h = (a, refl, refl)
and_then-eq-ok (db, err e) next h = cc

valid_session_id-eq :
    (session : String) {id : String} → valid_session_id session ≡ ok id → id ≡ session
unfolding valid_session_id
valid_session_id-eq session h = (if_ok-eq-ok (safe_session session) session _ h).1

-- A mark that was saved is there.
save_block-IsBlocked :
    (db : Database) (session : String) (block : Block) {u : Unit {0}}
    → (save_system_restore_block db session block).1 ≡ ok u
    → IsBlocked session (save_system_restore_block db session block).0
unfolding save_system_restore_block
save_block-IsBlocked db session block h =
    let (s, good, h1, e1) =
      checked-eq-ok db (valid_session_id session)
        (λ id. writing db λ m. ok (with_block id block m, tt)) h in
    let (_, opened, e2, _) =
      guarded-eq-ok db (λ m. false) (failed "") (with_block s block) (λ m. tt) h1 in
    subst (IsBlocked session) (sym (ap (λ (o : Outcome (Unit {0})). o.0) e1 ∙ e2)) (
      subst (λ id. IsBlocked id (with_block s block (brought_up db)))
        (valid_session_id-eq session good)
        (unfold with_block in exists_in-insert_self s _ (brought_up db).blocks))

-- … as it is after a save that answers true.
saved_marks :
    (db : Database) (session : String) (block : Block) {b : Bool}
    → let saved =
        and_then {B = Bool}
          (save_system_restore_block db session block)
          λ last done. (last, ok true) in
      saved.1 ≡ ok b → (b ≡ true) × IsBlocked session saved.0
saved_marks db session block {b} h =
    let (u, saved, e) =
      and_then-eq-ok (save_system_restore_block db session block) (λ last done. (last, ok true))
        h in
    (
      sym (ok_injective (sym (ap (λ (o : Outcome Bool). o.1) e) ∙ h)),
      subst (IsBlocked session) (sym (ap (λ (o : Outcome Bool). o.0) e))
          (save_block-IsBlocked db session block saved),
    )

or_malformed-IsBlocked :
    (id : String) (first : Outcome (Unit {0})) {b : Bool}
    → ((u : Unit {0}) → first.1 ≡ ok u → IsBlocked id first.0)
    → (or_malformed id first).1 ≡ ok b
    → (b ≡ true) × IsBlocked id (or_malformed id first).0
unfolding or_malformed malformed_block
or_malformed-IsBlocked id (after, ok u) k h = (sym (ok_injective h), k u refl)
or_malformed-IsBlocked id (after, err e) k h = saved_marks after id malformed_block h

legacy_block-IsBlocked :
    (legacy : Legacy Block) (id : String) (db : Database)
    → (legacy_block legacy id db).1 ≡ ok true
    → IsBlocked id (legacy_block legacy id db).0
unfolding legacy_block malformed_block
legacy_block-IsBlocked absent id db h = absurd cc
legacy_block-IsBlocked malformed id db h = (saved_marks db id malformed_block h).1
legacy_block-IsBlocked (parsed block) id db h =
    (or_malformed-IsBlocked id (save_system_restore_block db id block)
      (λ u saved. save_block-IsBlocked db id block saved) h).1

known_or_legacy-IsBlocked :
    (legacy : Legacy Block) (id : String) (db : Database) (known : Bool)
    → (known ≡ true → IsBlocked id db)
    → (known_or_legacy legacy id db known).1 ≡ ok true
    → IsBlocked id (known_or_legacy legacy id db known).0
unfolding known_or_legacy
known_or_legacy-IsBlocked legacy id db true k h = k refl
known_or_legacy-IsBlocked legacy id db false k h = legacy_block-IsBlocked legacy id db h

-- How an answer comes about.
asked :
    (db : Database) (legacy : Legacy Block) (session : String) {b : Bool}
    → (has_system_restore_block db legacy session).1 ≡ ok b
    → has_system_restore_block db legacy session
      ≡ known_or_legacy legacy session (brought_up db) (exists_in session db.blocks)
unfolding has_system_restore_block
asked db legacy session {b} h =
    let (id, good, h1, e1) =
      checked-eq-ok db (valid_session_id session)
        (λ s. and_then (reading db λ m. ok (exists_in s m.blocks)) (known_or_legacy legacy s)) h in
    let query : Database → Result SystemError Bool = λ m. ok (exists_in id m.blocks) in
    let (known, read, e2) = and_then-eq-ok (reading db query) (known_or_legacy legacy id) h1 in
    subst
      (λ s.
        has_system_restore_block db legacy session
        ≡ known_or_legacy legacy s (brought_up db) (exists_in s db.blocks))
      (valid_session_id-eq session good)
      (e1
        ∙ ap (λ o. and_then o (known_or_legacy legacy id)) (reading-returned db query read)
        ∙ unfold and_then brought_up in refl)

answer_true :
    (db : Database) (legacy : Legacy Block) (session : String)
    → (has_system_restore_block db legacy session).1 ≡ ok true
    → IsBlocked session (has_system_restore_block db legacy session).0
answer_true db legacy session h =
    let e = asked db legacy session h in
    subst (λ (o : Outcome Bool). IsBlocked session o.0) (sym e)
      (known_or_legacy-IsBlocked legacy session (brought_up db) (exists_in session db.blocks)
        (λ known. unfold brought_up in known) (sym (ap (λ (o : Outcome Bool). o.1) e) ∙ h))

answer_of_marked :
    (db : Database) (legacy : Legacy Block) (session : String) {b : Bool}
    → IsBlocked session db
    → (has_system_restore_block db legacy session).1 ≡ ok b
    → b ≡ true
unfolding known_or_legacy
answer_of_marked db legacy session {b} marked h =
    let e = asked db legacy session h in
    let answer : (known_or_legacy legacy session (brought_up db) (exists_in session db.blocks)).1
        ≡ ok b =
      sym (ap (λ (o : Outcome Bool). o.1) e) ∙ h in
    sym (
      ok_injective (
        subst (λ known. (known_or_legacy legacy session (brought_up db) known).1 ≡ ok b) marked
          answer))

false_is_true : false ≡ true → ⊥
false_is_true h = cc

-- A session that was once found blocked is never found free again, after any calls on the marks and the
-- ledgers, and whatever then stands in the file of the earlier version.
pub has_system_restore_block-run :
    (host : Host) (serial : Serial) (db : Database) (legacy later : Legacy Block) (session : String)
    (calls : List Call)
    → let first = has_system_restore_block db legacy session in
      first.1 ≡ ok true
      → ¬ ((has_system_restore_block (run host serial first.0 calls) later session).1 ≡ ok false)
has_system_restore_block-run host serial db legacy later session calls h answer =
    let first : Database = (has_system_restore_block db legacy session).0 in
    false_is_true (
      answer_of_marked (run host serial first calls) later session
        (run_keeps host serial session calls first (answer_true db legacy session h)) answer)

free :
    (legacy : Legacy Block) (id : String) (db : Database) (known : Bool)
    → (known_or_legacy legacy id db known).1 ≡ ok false
    → (known ≡ false) × (legacy ≡ absent)
unfolding known_or_legacy legacy_block malformed_block
free legacy id db true h = cc
free absent id db false h = (refl, refl)
free malformed id db false h = absurd (false_is_true (saved_marks db id malformed_block h).0)
free (parsed block) id db false h = absurd (
    false_is_true
      (or_malformed-IsBlocked id (save_system_restore_block db id block)
        (λ u saved. save_block-IsBlocked db id block saved) h).0)

-- Only a session without a mark and without a file of the earlier version is found free.
has_system_restore_block-false :
    (db : Database) (legacy : Legacy Block) (session : String)
    → (has_system_restore_block db legacy session).1 ≡ ok false
    → (exists_in session db.blocks ≡ false) × (legacy ≡ absent)
has_system_restore_block-false db legacy session h =
    let e = asked db legacy session h in
    free legacy session (brought_up db) (exists_in session db.blocks)
      (sym (ap (λ (o : Outcome Bool). o.1) e) ∙ h)
