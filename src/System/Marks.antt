-- ===== src/System/Marks.antt =====
-- nla-system-database.mjs: the calls on the marks and the ledgers of sessions, and the marks after each.
use next_level_agent.System.Lookups.{exists_in-insert}
use next_level_agent.System.Database.{exists_in}
use next_level_agent.Base.{
  String, Bool, true, false, ◌≡◌, Option, none, some, List, [], ◌∷◌, lookup,
}
use next_level_agent.Base.Result.{ok, err}
use next_level_agent.System.Names.{Host, valid_session_id}
use next_level_agent.System.Tables.{Database, LedgerRow}
use next_level_agent.System.Database.{Outcome, brought_up, reading, writing, and_then}
use next_level_agent.System.Orchestras.{Serial}
use next_level_agent.System.Sessions.{
  Ledger, Legacy, absent, malformed, parsed, check_ledger, with_ledger, save_system_ledger,
  row_or_legacy, load_system_ledger, Block, malformed_block, with_block, save_system_restore_block,
  or_malformed, legacy_block, known_or_legacy, has_system_restore_block,
}
use next_level_agent.System.Writes.{checked_keeps, plain_keeps, reading_keeps}

-- A call on the marks and the ledgers, with what stands in the file of an earlier version.
pub data Call : Type 0 where
  save_block : String → Block → Call
  ask_block : Legacy Block → String → Call
  save_ledger : Ledger → Call
  load_ledger : Legacy Ledger → String → Call

unfoldable pub step : Host → Serial → Database → Call → Database
unfolding save_system_restore_block has_system_restore_block save_system_ledger load_system_ledger
step host serial db (save_block session block) = (save_system_restore_block db session block).0
step host serial db (ask_block legacy session) = (has_system_restore_block db legacy session).0
step host serial db (save_ledger ledger) = (save_system_ledger host serial db ledger).0
step host serial db (load_ledger legacy session) =
    (load_system_ledger host serial db legacy session).0

unfoldable pub run : Host → Serial → Database → List Call → Database
unfolding step
run host serial db [] = db
run host serial db (call ∷ calls) = run host serial (step host serial db call) calls

-- The session is marked.
abbrev pub IsBlocked : String → Database → Type 0
IsBlocked id db = exists_in id db.blocks ≡ true

and_then_keeps :
    {A B : Type 0} (P : Database → Type 0) (first : Outcome A) (next : Database → A → Outcome B)
    → P first.0
    → ((db : Database) (a : A) → P db → P (next db a).0)
    → P (and_then first next).0
unfolding and_then
and_then_keeps P (db, ok a) next h k = k db a h
and_then_keeps P (db, err e) next h k = h

save_block_keeps :
    (id : String) (db : Database) (session : String) (block : Block)
    → IsBlocked id db
    → IsBlocked id (save_system_restore_block db session block).0
unfolding save_system_restore_block
save_block_keeps id db session block h =
    checked_keeps (IsBlocked id) db (valid_session_id session)
      (λ s. writing db λ m. ok (with_block s block m, tt)) h
      λ s good.
        plain_keeps (IsBlocked id) db (with_block s block) (λ m. tt) h
          (unfold brought_up with_block in exists_in-insert s id _ db.blocks h)

save_ledger_keeps :
    (host : Host) (serial : Serial) (id : String) (db : Database) (ledger : Ledger)
    → IsBlocked id db
    → IsBlocked id (save_system_ledger host serial db ledger).0
unfolding save_system_ledger
save_ledger_keeps host serial id db ledger h =
    checked_keeps (IsBlocked id) db (check_ledger host serial ledger)
      (λ s. writing db λ m. ok (with_ledger s ledger m, s)) h
      λ s good.
        plain_keeps (IsBlocked id) db (with_ledger s ledger) (λ m. s) h
          (unfold brought_up with_ledger in h)

or_malformed_keeps :
    (id session : String) (first : Outcome (Unit {0}))
    → IsBlocked id first.0
    → IsBlocked id (or_malformed session first).0
unfolding or_malformed malformed_block
or_malformed_keeps id session (after, ok u) h = h
or_malformed_keeps id session (after, err e) h =
    and_then_keeps (IsBlocked id) (save_system_restore_block after session malformed_block)
      (λ last done. (last, ok true)) (save_block_keeps id after session malformed_block h)
      λ d a k. k

legacy_block_keeps :
    (id : String) (legacy : Legacy Block) (session : String) (db : Database)
    → IsBlocked id db
    → IsBlocked id (legacy_block legacy session db).0
unfolding legacy_block malformed_block
legacy_block_keeps id absent session db h = h
legacy_block_keeps id malformed session db h =
    and_then_keeps (IsBlocked id) (save_system_restore_block db session malformed_block)
      (λ last done. (last, ok true)) (save_block_keeps id db session malformed_block h) λ d a k. k
legacy_block_keeps id (parsed block) session db h =
    or_malformed_keeps id session (save_system_restore_block db session block)
      (save_block_keeps id db session block h)

known_or_legacy_keeps :
    (id : String) (legacy : Legacy Block) (session : String) (db : Database) (known : Bool)
    → IsBlocked id db
    → IsBlocked id (known_or_legacy legacy session db known).0
unfolding known_or_legacy
known_or_legacy_keeps id legacy session db true h = h
known_or_legacy_keeps id legacy session db false h = legacy_block_keeps id legacy session db h

ask_block_keeps :
    (id : String) (db : Database) (legacy : Legacy Block) (session : String)
    → IsBlocked id db
    → IsBlocked id (has_system_restore_block db legacy session).0
unfolding has_system_restore_block
ask_block_keeps id db legacy session h =
    checked_keeps (IsBlocked id) db (valid_session_id session)
      (λ s. and_then (reading db λ m. ok (exists_in s m.blocks)) (known_or_legacy legacy s)) h
      λ s good.
        and_then_keeps (IsBlocked id) (reading db λ m. ok (exists_in s m.blocks))
          (known_or_legacy legacy s)
          (reading_keeps (IsBlocked id) db (λ m. ok (exists_in s m.blocks)) h
            (unfold brought_up in h))
          λ d known k. known_or_legacy_keeps id legacy s d known k

row_or_legacy_keeps :
    (host : Host) (serial : Serial) (id : String) (legacy : Legacy Ledger) (db : Database)
    (found : Option LedgerRow)
    → IsBlocked id db
    → IsBlocked id (row_or_legacy host serial legacy db found).0
unfolding row_or_legacy
row_or_legacy_keeps host serial id legacy db (some row) h = h
row_or_legacy_keeps host serial id absent db none h = h
row_or_legacy_keeps host serial id malformed db none h = h
row_or_legacy_keeps host serial id (parsed ledger) db none h =
    and_then_keeps (IsBlocked id) (save_system_ledger host serial db ledger)
      (λ after s. (after, ok (some ledger.value))) (save_ledger_keeps host serial id db ledger h)
      λ d a k. k

load_ledger_keeps :
    (host : Host) (serial : Serial) (id : String) (db : Database) (legacy : Legacy Ledger)
    (session : String)
    → IsBlocked id db
    → IsBlocked id (load_system_ledger host serial db legacy session).0
unfolding load_system_ledger
load_ledger_keeps host serial id db legacy session h =
    checked_keeps (IsBlocked id) db (valid_session_id session)
      (λ s. and_then (reading db λ m. ok (lookup s m.ledgers)) (row_or_legacy host serial legacy)) h
      λ s good.
        and_then_keeps (IsBlocked id) (reading db λ m. ok (lookup s m.ledgers))
          (row_or_legacy host serial legacy)
          (reading_keeps (IsBlocked id) db (λ m. ok (lookup s m.ledgers)) h
            (unfold brought_up in h))
          λ d found k. row_or_legacy_keeps host serial id legacy d found k

pub run_keeps :
    (host : Host) (serial : Serial) (id : String) (calls : List Call) (db : Database)
    → IsBlocked id db
    → IsBlocked id (run host serial db calls)
unfolding run step
run_keeps host serial id [] db h = h
run_keeps host serial id (save_block session block ∷ calls) db h =
    run_keeps host serial id calls _ (save_block_keeps id db session block h)
run_keeps host serial id (ask_block legacy session ∷ calls) db h =
    run_keeps host serial id calls _ (ask_block_keeps id db legacy session h)
run_keeps host serial id (save_ledger ledger ∷ calls) db h =
    run_keeps host serial id calls _ (save_ledger_keeps host serial id db ledger h)
run_keeps host serial id (load_ledger legacy session ∷ calls) db h =
    run_keeps host serial id calls _ (load_ledger_keeps host serial id db legacy session h)
