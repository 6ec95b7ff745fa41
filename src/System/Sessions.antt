-- ===== src/System/Sessions.antt =====
-- nla-system-database.mjs: the ledgers of the sessions, and the marks that block one after a failed
-- restore, with the files of earlier versions that they replace.
use next_level_agent.System.Database.{exists_in}
use next_level_agent.Base.{
  ℕ, zero, suc, String, Bool, true, false, Option, none, some, ltb, ◌==◌, lookup, insert,
  if◌then◌else◌,
}
use next_level_agent.Base.Result.{Result, ok, err, ◌>>=◌, ◌>>◌, throw_if}
use next_level_agent.System.Names.{SystemError, failed, Host, valid_session_id}
use next_level_agent.System.Json.{Json, assert_no_secrets}
use next_level_agent.System.Tables.{Database, LedgerRow}
use next_level_agent.System.Database.{Outcome, reading, writing, checked, and_then}
use next_level_agent.System.Orchestras.{Serial}

-- A ledger: two of its fields, and all of it as a value.
pub record Ledger : Type 0 where
  pub session_id : String
  pub directory : String
  pub value : Json

-- What stands in a file of an earlier version: nothing, a text that cannot be used, or what it parses to.
pub data Legacy {ℓ} (A : Type ℓ) : Type ℓ where
  absent malformed : Legacy A
  parsed : A → Legacy A

unfoldable pub check_ledger : Host → Serial → Ledger → Result SystemError String
unfolding valid_session_id assert_no_secrets
check_ledger host serial ledger = valid_session_id ledger.session_id >>= λ id.
    throw_if (host.trim ledger.directory == "") (failed "System ledger requires directory")
    >> throw_if (ltb 128000 (serial.json_length ledger.value)) (failed "System ledger is oversized")
    >> assert_no_secrets host 25 ledger.value
    >> ok id

unfoldable pub with_ledger : String → Ledger → Database → Database
unfolding insert
with_ledger id ledger db = record db {
  ledgers = insert id record { directory = ledger.directory; ledger = ledger.value } db.ledgers;
}

unfoldable pub save_system_ledger : Host → Serial → Database → Ledger → Outcome String
unfolding check_ledger checked writing with_ledger
save_system_ledger host serial db ledger =
    checked db (check_ledger host serial ledger)
      λ id. writing db λ m. ok (with_ledger id ledger m, id)

ledger_value : LedgerRow → Json
ledger_value row = row.ledger

-- The row, or else the file, which is saved.
unfoldable pub row_or_legacy :
    Host → Serial → Legacy Ledger → Database → Option LedgerRow → Outcome (Option Json)
unfolding ledger_value save_system_ledger and_then
row_or_legacy host serial legacy db (some row) = (db, ok (some (ledger_value row)))
row_or_legacy host serial absent db none = (db, ok none)
row_or_legacy host serial malformed db none =
    (db, err (failed "Legacy session ledger is malformed"))
row_or_legacy host serial (parsed ledger) db none =
    and_then (save_system_ledger host serial db ledger) λ after id. (after, ok (some ledger.value))

unfoldable pub load_system_ledger :
    Host → Serial → Database → Legacy Ledger → String → Outcome (Option Json)
unfolding valid_session_id checked and_then reading lookup row_or_legacy
load_system_ledger host serial db legacy session =
    checked db (valid_session_id session)
      λ id. and_then (reading db λ m. ok (lookup id m.ledgers)) (row_or_legacy host serial legacy)

-- The reason and the code of a block, where they are texts.
pub record Block : Type 0 where
  pub reason : Option String
  pub code : Option String

-- s.slice(0, n)
unfoldable pub front : ℕ → String → String
front zero s = String.[]
front (suc n) String.[] = String.[]
front (suc n) (String.◌∷◌ c s) = String.◌∷◌ c (front n s)

safe_reason : Option String → String
unfolding front
safe_reason none = "Unknown NLA restore failure"
safe_reason (some s) = if s == "" then "Unknown NLA restore failure" else front 300 s

safe_code : Option String → Option String
unfolding front
safe_code none = none
safe_code (some s) = some (front 120 s)

unfoldable pub with_block : String → Block → Database → Database
unfolding insert safe_reason safe_code
with_block id block db = record db {
  blocks =
      insert id record { reason = safe_reason block.reason; code = safe_code block.code } db.blocks;
}

unfoldable pub save_system_restore_block : Database → String → Block → Outcome (Unit {0})
unfolding valid_session_id checked writing with_block
save_system_restore_block db session block =
    checked db (valid_session_id session) λ id. writing db λ m. ok (with_block id block m, tt)

unfoldable pub malformed_block : Block
malformed_block = record {
  reason = some "Legacy restore-block record is malformed";
  code = some "NLA_CONTEXT_RESTORE_BLOCKED";
}

-- try { save what the file holds } catch { save that it is malformed }
unfoldable pub or_malformed : String → Outcome (Unit {0}) → Outcome Bool
unfolding save_system_restore_block malformed_block and_then
or_malformed id (after, ok u) = (after, ok true)
or_malformed id (after, err e) =
    and_then (save_system_restore_block after id malformed_block) λ last done. (last, ok true)

unfoldable pub legacy_block : Legacy Block → String → Database → Outcome Bool
unfolding or_malformed save_system_restore_block malformed_block and_then
legacy_block absent id db = (db, ok false)
legacy_block malformed id db =
    and_then (save_system_restore_block db id malformed_block) λ last done. (last, ok true)
legacy_block (parsed block) id db = or_malformed id (save_system_restore_block db id block)

unfoldable pub known_or_legacy : Legacy Block → String → Database → Bool → Outcome Bool
unfolding legacy_block
known_or_legacy legacy id db true = (db, ok true)
known_or_legacy legacy id db false = legacy_block legacy id db

unfoldable pub has_system_restore_block : Database → Legacy Block → String → Outcome Bool
unfolding valid_session_id checked and_then reading exists_in known_or_legacy
has_system_restore_block db legacy session =
    checked db (valid_session_id session)
      λ id. and_then (reading db λ m. ok (exists_in id m.blocks)) (known_or_legacy legacy id)
