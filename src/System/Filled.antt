-- ===== src/System/Filled.antt =====
-- nla-system-database.mjs: theorems on the facts that discovery adds.
use next_level_agent.System.Lookups.{lookup-ignored, lookup-update}
use next_level_agent.Base.{
  ◌⊎◌, inl, inr, sym, ℕ, String, ◌≡◌, refl, ◌∙◌, Option, none, some, List, [], ◌∷◌, Dict, lookup,
  ◌==◌, if◌then◌else◌, if_either,
}
use next_level_agent.Base.Order.{◌or_else◌}
use next_level_agent.Pools.File.{RawPool}
use next_level_agent.System.Tables.{Database, Facts, ModelRow}
use next_level_agent.System.Database.{transaction, committed}
use next_level_agent.System.Runtime.{
  with_discoveries, Provider, filled, with_discovered, discover_all, all_candidates,
  synchronize_runtime_model_facts,
}

-- What is there stays; where nothing is, anything may come.
abbrev Stays : Option ℕ → Option ℕ → Type 0
Stays before after = (before ≡ none) ⊎ (after ≡ before)

Stays-trans : {a b c : Option ℕ} → Stays a b → Stays b c → Stays a c
Stays-trans (inl e) k = inl e
Stays-trans (inr e) (inl k) = inl (sym e ∙ k)
Stays-trans (inr e) (inr k) = inr (k ∙ e)

-- A row that keeps its source, its status and availability, and every fact that is there.
pub record Extends (before after : ModelRow) : Type 0 where
  pub source : after.source ≡ before.source
  pub status : after.facts.status ≡ before.facts.status
  pub availability : after.facts.availability ≡ before.facts.availability
  pub context_window : Stays before.facts.context_window after.facts.context_window
  pub input_cost : Stays before.facts.input_cost after.facts.input_cost
  pub output_cost : Stays before.facts.output_cost after.facts.output_cost

Extends-refl : (row : ModelRow) → Extends row row
Extends-refl row = record {
  source = refl;
  status = refl;
  availability = refl;
  context_window = inr refl;
  input_cost = inr refl;
  output_cost = inr refl;
}

Extends-trans : (a b c : ModelRow) → Extends a b → Extends b c → Extends a c
Extends-trans a b c h k = record {
  source = k.source ∙ h.source;
  status = k.status ∙ h.status;
  availability = k.availability ∙ h.availability;
  context_window = Stays-trans h.context_window k.context_window;
  input_cost = Stays-trans h.input_cost k.input_cost;
  output_cost = Stays-trans h.output_cost k.output_cost;
}

Stays-or_else : (a b : Option ℕ) → Stays a (a or_else b)
Stays-or_else none b = inl refl
Stays-or_else (some m) b = inr refl

with_filled : Facts → ModelRow → ModelRow
with_filled discovered row = record row { facts = filled row.facts discovered }

with_filled-Extends : (d : Facts) (row : ModelRow) → Extends row (with_filled d row)
unfolding with_filled filled
with_filled-Extends d row = record {
  source = refl;
  status = refl;
  availability = refl;
  context_window = Stays-or_else row.facts.context_window d.context_window;
  input_cost = Stays-or_else row.facts.input_cost d.input_cost;
  output_cost = Stays-or_else row.facts.output_cost d.output_cost;
}

-- A table has a row at the key that extends the given one.
abbrev KeepsRow : String → ModelRow → Dict ModelRow → Type 0
KeepsRow asked row table =
    (after : ModelRow) × (lookup asked table ≡ some after) × Extends row after

with_discovered-KeepsRow :
    (key asked : String) (d : Facts) (table : Dict ModelRow) (row : ModelRow)
    → lookup asked table ≡ some row
    → KeepsRow asked row (with_discovered key d table)
unfolding with_discovered with_filled
with_discovered-KeepsRow key asked d table row h = (
  if key == asked then with_filled d row else row,
  lookup-update key asked (with_filled d) _ row (lookup-ignored key asked _ table row h),
  if_either (Extends row) (key == asked) (with_filled d row) row (with_filled-Extends d row)
      (Extends-refl row),
)

discover_all-KeepsRow :
    (found : Dict Facts) (asked : String) (table : Dict ModelRow) (row : ModelRow)
    → lookup asked table ≡ some row
    → KeepsRow asked row (discover_all found table).0
unfolding discover_all
discover_all-KeepsRow [] asked table row h = (row, h, Extends-refl row)
discover_all-KeepsRow ((key, d) ∷ rest) asked table row h =
    let (next, held, first) = with_discovered-KeepsRow key asked d table row h in
    let (last, kept, second) =
      discover_all-KeepsRow rest asked (with_discovered key d table) next held in
    (last, kept, Extends-trans row next last first second)

-- Discovery takes nothing from a model that is registered: its source, its status and its availability
-- stay, and so do the context window and the costs that are known, whatever the providers say.
pub synchronize_runtime_model_facts-KeepsRow :
    (db : Database) (roles : Dict RawPool) (providers : List Provider) (binding : String)
    (row : ModelRow)
    → lookup binding db.registry ≡ some row
    → (after : ModelRow) × (lookup binding
          (synchronize_runtime_model_facts db roles providers).0.registry
        ≡ some after)
      × Extends row after
unfolding synchronize_runtime_model_facts transaction committed with_discoveries
synchronize_runtime_model_facts-KeepsRow db roles providers binding row h =
    discover_all-KeepsRow (all_candidates roles providers []) binding db.registry row h
