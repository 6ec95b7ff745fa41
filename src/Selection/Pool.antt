-- ===== src/Selection/Pool.antt =====
-- nla-model-selection.mjs: pools, the facts of their models, and the pools that a task routes by.
use next_level_agent.Base.TextOrder.{text_le}
use next_level_agent.Base.{
  ℕ, String, Bool, true, false, ◌&&◌, ◌||◌, not, Option, none, some, List, [], ◌∷◌, ◌++◌, map, Dict,
  lookup, insert, leb, any, select, ◌==◌, if◌then◌else◌,
}
use next_level_agent.Base.Order.{◌or_else◌, sort_by}
use next_level_agent.Base.Result.{Result, ok, err}
use next_level_agent.Base.Texts.{includes}
use next_level_agent.Selection.Policy.{
  Price, no_price, Input, SelectionError, no_inventory, is_local_model_binding, is_free,
}

-- An end of a window: not given, a time, or a text that `Date.parse` cannot read.
pub data Edge : Type 0 where
  open_edge unread_edge : Edge
  at : ℕ → Edge

-- `none` where the window is no object
abbrev pub Window : Type 0
Window = Option (Edge × Edge)

pub data Availability : Type 0 where
  unset : Availability
  word : String → Availability
  flag : Bool → Availability
  scheduled : Bool → Option String → Option (List Window) → Availability
  other_value : Availability

pub record Facts : Type 0 where
  pub status : Option String
  pub provider_status : Option String
  pub input_cost : Price
  pub output_cost : Price
  pub context_window : Option ℕ
  pub availability : Availability

abbrev pub no_facts : Facts
no_facts = record {
  status = none;
  provider_status = none;
  input_cost = no_price;
  output_cost = no_price;
  context_window = none;
  availability = unset;
}

from_start : Edge → ℕ → Bool
from_start open_edge t = true
from_start unread_edge t = false
from_start (at s) t = leb s t

to_end : Edge → ℕ → Bool
to_end open_edge t = true
to_end unread_edge t = false
to_end (at s) t = leb t s

is_finite : Edge → Bool
is_finite (at s) = true
is_finite e = false

unfoldable pub in_window : ℕ → Window → Bool
unfolding from_start to_end is_finite
in_window now none = false
in_window now (some (start, end)) =
    (is_finite start || is_finite end) && from_start start now && to_end end now

is_always : Option String → Bool
is_always none = true
is_always (some s) = s == "always"

some_window : ℕ → Option (List Window) → Bool
some_window now none = false
some_window now (some ws) = any (in_window now) ws

unfoldable pub static_availability : Availability → ℕ → Bool
unfolding is_always some_window
static_availability unset now = true
static_availability (word w) now = w == "always" || w == "available"
static_availability (flag b) now = b
static_availability (scheduled enabled schedule windows) now =
    if not enabled then false else if is_always schedule then true else some_window now windows
static_availability other_value now = false

-- The models of a pool: a list, the word "auto", or anything else.
pub data Models : Type 0 where
  listed : List String → Models
  auto_word no_models : Models

pub record Pool : Type 0 where
  pub selection_mode : Option String
  pub models : Models
  pub selection_policy : Option String
  pub minimum_score : Input
  pub selection_weights : Option (Dict ℕ)
  pub model_facts : Dict Facts
  pub model_metadata : Dict Facts
  pub preferred_providers : List String
  pub auto_preferences : List String

pub data Mode : Type 0 where
  auto chosen fallback : Mode

-- pool.selection_mode === s
abbrev pub named : Option String → String → Bool
named none s = false
named (some t) s = t == s

is_auto_word : Models → Bool
is_auto_word auto_word = true
is_auto_word m = false

unfoldable pub selection_mode : Pool → Mode
unfolding is_auto_word
selection_mode pool =
    if named pool.selection_mode "auto"
      || (named pool.selection_mode "select" && is_auto_word pool.models)
    then auto
    else if named pool.selection_mode "select"
    then chosen
    else fallback

abbrev pub is_auto : Mode → Bool
is_auto auto = true
is_auto m = false

facts_or_none : Option Facts → Facts
facts_or_none none = no_facts
facts_or_none (some f) = f

unfoldable pub facts_in : Pool → String → Facts
unfolding facts_or_none
facts_in pool binding =
    facts_or_none (lookup binding pool.model_facts or_else lookup binding pool.model_metadata)

-- status === undefined || status === 'enabled'
unfoldable pub status_enabled : Option String → Bool
status_enabled none = true
status_enabled (some s) = s == "enabled"

-- provider_status === 'disabled'
unfoldable pub provider_disabled : Option String → Bool
provider_disabled none = false
provider_disabled (some s) = s == "disabled"

unfoldable pub is_routable : Pool → String → Bool
unfolding status_enabled provider_disabled
is_routable pool binding =
    status_enabled (facts_in pool binding).status
    && (not (is_auto (selection_mode pool))
        || not (provider_disabled (facts_in pool binding).provider_status))

routable_models : Pool → Models → Models
routable_models pool (listed bindings) = listed (select (is_routable pool) bindings)
routable_models pool m = m

unfoldable pub routable_model_pool : Pool → Pool
unfolding routable_models
routable_model_pool pool = record pool { models = routable_models pool pool.models }

-- A model of the registry.
pub record Registered : Type 0 where
  pub binding : String
  pub status : Option String
  pub provider_status : Option String
  pub facts : Facts

-- policy !== name
policy_is : Option String → String → Bool
policy_is none name = false
policy_is (some p) name = p == name

unfoldable pub matches_policy_boundary : String → Facts → Option String → Bool
unfolding policy_is
matches_policy_boundary binding facts policy =
    (not (policy_is policy "local") || is_local_model_binding binding)
    && (not (policy_is policy "free") || is_free facts.input_cost facts.output_cost)

unfoldable pub is_eligible : List String → Option String → Registered → Bool
is_eligible inventory policy r =
    named r.status "enabled"
    && not (provider_disabled r.provider_status)
    && includes inventory r.binding
    && matches_policy_boundary r.binding r.facts policy

-- Object.fromEntries: the last record of a binding wins.
unfoldable pub facts_table : Dict Facts → List Registered → Dict Facts
unfolding insert
facts_table table [] = table
facts_table table (r ∷ rs) = facts_table (insert r.binding r.facts table) rs

abbrev pub bindings_of : List Registered → List String
bindings_of = map (λ (r : Registered). r.binding)

abbrev pub listed_models : Models → List String
listed_models (listed bindings) = bindings
listed_models m = []

-- The bindings of a table's preferred and other models, and the pool that a task gets.
unfoldable pub preferred_among : Pool → List String → List String
preferred_among pool available = select (includes available) (listed_models pool.models)

unfoldable pub auto_models : List String → List String → List String
auto_models preferred available =
    preferred ++ sort_by text_le (select (λ b. not (includes preferred b)) available)

unfoldable pub auto_pool : Pool → List Registered → List String → Pool
auto_pool pool registry present =
    let eligible = select (is_eligible present pool.selection_policy) registry in
    let preferred = preferred_among pool (bindings_of eligible) in
    record pool {
      selection_mode = some "auto";
      models = listed (auto_models preferred (bindings_of eligible));
      model_facts = facts_table [] eligible;
      auto_preferences = preferred;
    }

-- By the mode of the pool; `inventory` is `none` where it is no Set.
unfoldable pub materialize_in :
    Mode → Pool → List Registered → Option (List String) → Result SelectionError Pool
materialize_in auto pool registry none = err no_inventory
materialize_in auto pool registry (some present) = ok (auto_pool pool registry present)
materialize_in mode pool registry inventory = ok pool

abbrev pub materialize_auto_pool :
    Pool → List Registered → Option (List String) → Result SelectionError Pool
materialize_auto_pool pool registry inventory =
    materialize_in (selection_mode pool) pool registry inventory
