-- ===== src/System/Tables.antt =====
-- nla-system-database.mjs: the tables. A table is a dictionary by its primary key, in the order of
-- insertion, with the columns that code reads; the times `created_at` and `updated_at` are only shown,
-- and are left out.
use next_level_agent.Base.{ℕ, String, Option, none, List, Dict}
use next_level_agent.Pools.File.{RawAvailability, RawPool}
use next_level_agent.Evaluations.Records.{Store}
use next_level_agent.System.Json.{Json}

-- facts_json: the facts of a model that have an effect; a fact that is not there is `none`.
pub record Facts : Type 0 where
  pub status : Option String
  pub context_window : Option ℕ
  pub input_cost : Option ℕ
  pub output_cost : Option ℕ
  pub availability : RawAvailability

pub record ModelRow : Type 0 where
  pub facts : Facts
  pub source : String

-- config_json: a configuration that was normalized.
pub record Config : Type 0 where
  pub roles : Dict RawPool
  pub guidance : Option String

pub record OrchestraRow : Type 0 where
  pub config : Config
  pub source : String

pub record HealthRow : Type 0 where
  pub state : String
  pub category : Option String
  pub reason : Option String
  pub since : ℕ
  pub until : Option ℕ

pub record LedgerRow : Type 0 where
  pub directory : String
  pub ledger : Json

pub record BlockRow : Type 0 where
  pub reason : String
  pub code : Option String

pub record Counts : Type 0 where
  pub input : ℕ
  pub output : ℕ
  pub reasoning : ℕ
  pub cache_read : ℕ
  pub cache_write : ℕ
  pub total : ℕ
  pub cost : ℕ

pub record UsageRow : Type 0 where
  pub session_id : String
  pub parent_session_id : Option String
  pub root_session_id : String
  pub role : Option String
  pub binding : String
  pub counts : Counts
  pub finish_reason : Option String
  pub observed_at : ℕ

-- The primary key of model_notes and of model_health has two parts: a dictionary of dictionaries.
pub record Database : Type 0 where
  pub versions : List ℕ
  pub imported : Dict String
  pub settings : Dict Json
  pub orchestras : Dict OrchestraRow
  pub active : Option String
  pub evaluations : Store
  pub registry : Dict ModelRow
  pub providers : Dict String
  pub notes : Dict (Dict String)
  pub health : Dict (Dict HealthRow)
  pub ledgers : Dict LedgerRow
  pub blocks : Dict BlockRow
  pub catalog : Dict String
  pub usage : Dict UsageRow

abbrev pub no_facts : Facts
no_facts = record {
  status = none;
  context_window = none;
  input_cost = none;
  output_cost = none;
  availability = RawAvailability.unset;
}
