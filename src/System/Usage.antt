-- ===== src/System/Usage.antt =====
-- nla-system-database.mjs: the accounting of model calls, one row for each message.
use next_level_agent.Base.{
  ℕ, ◌+◌, String, Bool, true, false, ◌&&◌, ◌||◌, Option, none, some, List, [], ◌∷◌, take, select,
  ltb, leb, eqb, ◌==◌, Dict, lookup, insert, if◌then◌else◌,
}
use next_level_agent.Base.Result.{Result, ok, err, ◌>>=◌}
use next_level_agent.Base.Order.{sort_by}
use next_level_agent.Base.TextOrder.{text_le}
use next_level_agent.System.Names.{
  SystemError, failed, Host, valid_session_id, valid_binding, is_free_text,
}
use next_level_agent.System.Tables.{Database, Counts, UsageRow}
use next_level_agent.System.Database.{Outcome, reading, writing, checked}

-- An event: a count is `none` where it is no integer from 0, a cost where it is no number from 0.
pub record UsageEvent : Type 0 where
  pub message_id : String
  pub session_id : String
  pub root_session_id : String
  pub parent_session_id : Option String
  pub role : Option String
  pub binding : String
  pub finish_reason : Option String
  pub input_tokens : Option ℕ
  pub output_tokens : Option ℕ
  pub reasoning_tokens : Option ℕ
  pub cache_read_tokens : Option ℕ
  pub cache_write_tokens : Option ℕ
  pub total_tokens : Option ℕ
  pub cost : Option ℕ

usage_integer : Option ℕ → Result SystemError ℕ
usage_integer none = err (failed "count must be a non-negative integer")
usage_integer (some n) = ok n

usage_cost : Option ℕ → Result SystemError ℕ
usage_cost none = err (failed "Model usage cost must be a non-negative number")
usage_cost (some n) = ok n

unfoldable usage_text : Host → ℕ → String → Result SystemError String
unfolding is_free_text
usage_text host limit s =
    if is_free_text host limit s then ok s else err (failed "Invalid model usage text")

-- `null` and `undefined` stay out.
optionally :
    (String → Result SystemError String) → Option String → Result SystemError (Option String)
optionally check none = ok none
optionally check (some s) = check s >>= λ valid. ok (some valid)

-- The time is set when the row is written.
unfoldable pub validate_usage_event : Host → UsageEvent → Result SystemError (String × UsageRow)
unfolding valid_session_id valid_binding usage_text optionally usage_integer usage_cost
validate_usage_event host e = valid_session_id e.message_id >>= λ message.
    valid_session_id e.session_id >>= λ session. valid_session_id e.root_session_id >>= λ root.
    optionally valid_session_id e.parent_session_id >>= λ parent.
    optionally (usage_text host 64) e.role >>= λ role. valid_binding e.binding >>= λ binding.
    optionally (usage_text host 128) e.finish_reason >>= λ finish. usage_cost e.cost >>= λ cost.
    usage_integer e.input_tokens >>= λ input. usage_integer e.output_tokens >>= λ output.
    usage_integer e.reasoning_tokens >>= λ reasoning.
    usage_integer e.cache_read_tokens >>= λ cache_read.
    usage_integer e.cache_write_tokens >>= λ cache_write. usage_integer e.total_tokens >>= λ total.
    ok (
      message,
      record {
        session_id = session;
        parent_session_id = parent;
        root_session_id = root;
        role = role;
        binding = binding;
        counts = record {
          input = input;
          output = output;
          reasoning = reasoning;
          cache_read = cache_read;
          cache_write = cache_write;
          total = total;
          cost = cost;
        };
        finish_reason = finish;
        observed_at = 0;
      },
    )

-- Some count of the second is larger.
unfoldable pub usage_is_more_complete : Counts → Counts → Bool
usage_is_more_complete old new =
    ltb old.input new.input
    || ltb old.output new.output
    || ltb old.reasoning new.reasoning
    || ltb old.cache_read new.cache_read
    || ltb old.cache_write new.cache_write
    || ltb old.total new.total
    || ltb old.cost new.cost

unfoldable pub is_recorded : Option UsageRow → UsageRow → Bool
unfolding usage_is_more_complete
is_recorded none new = true
is_recorded (some old) new = usage_is_more_complete old.counts new.counts

unfoldable pub with_usage : ℕ → String → UsageRow → Database → Database
unfolding insert is_recorded lookup
with_usage now message row db =
    if is_recorded (lookup message db.usage) row
    then record db { usage = insert message record row { observed_at = now } db.usage }
    else db

-- Whether the event was recorded; `now` is the time of the call.
unfoldable pub record_system_model_usage :
    Host → Database → ℕ → UsageEvent → Outcome (Bool × String)
unfolding validate_usage_event checked writing with_usage is_recorded lookup
record_system_model_usage host db now event = checked db (validate_usage_event host event) λ valid.
    writing db λ m.
      ok (with_usage now valid.0 valid.1 m, (is_recorded (lookup valid.0 m.usage) valid.1, valid.0))

-- A filter is left out where it is null or empty.
pub record Filters : Type 0 where
  pub root_session_id : Option String
  pub role : Option String
  pub binding : Option String

given : (String → Result SystemError String) → Option String → Result SystemError (Option String)
given check none = ok none
given check (some s) = if s == "" then ok none else (check s >>= λ valid. ok (some valid))

unfoldable pub usage_filters : Host → Filters → Result SystemError Filters
unfolding given valid_session_id usage_text valid_binding
usage_filters host f = given valid_session_id f.root_session_id >>= λ root.
    given (usage_text host 64) f.role >>= λ role. given valid_binding f.binding >>= λ binding.
    ok record { root_session_id = root; role = role; binding = binding }

-- `field = ?`, which no null satisfies
equals : Option String → Option String → Bool
equals none held = true
equals (some s) none = false
equals (some s) (some held) = held == s

unfoldable pub matches : Filters → String × UsageRow → Bool
unfolding equals
matches f entry =
    equals f.root_session_id (some entry.1.root_session_id)
    && equals f.role entry.1.role
    && equals f.binding (some entry.1.binding)

unfoldable usage_limit : Option ℕ → Result SystemError ℕ
usage_limit none = ok 20
usage_limit (some n) =
    if leb 1 n && leb n 100
    then ok n
    else err (failed "Usage limit must be an integer from 1 to 100")

-- ORDER BY observed_at DESC
unfoldable pub later : String × UsageRow → String × UsageRow → Bool
later a b = leb b.1.observed_at a.1.observed_at

unfoldable list_system_model_usage : Host → Database → Filters → Option ℕ → Outcome (Dict UsageRow)
unfolding reading usage_filters usage_limit sort_by later matches
list_system_model_usage host db asked limit = reading db λ m.
    usage_filters host asked >>= λ filters.
    usage_limit limit >>= λ n. ok (take n (sort_by later (select (matches filters) m.usage)))

unfoldable pub add_counts : Counts → Counts → Counts
add_counts a b = record {
  input = a.input + b.input;
  output = a.output + b.output;
  reasoning = a.reasoning + b.reasoning;
  cache_read = a.cache_read + b.cache_read;
  cache_write = a.cache_write + b.cache_write;
  total = a.total + b.total;
  cost = a.cost + b.cost;
}

-- A group of rows with a role and a binding: how many, and the sums.
pub record Group : Type 0 where
  pub role : Option String
  pub binding : String
  pub requests : ℕ
  pub sums : Counts

unfoldable pub same_role : Option String → Option String → Bool
same_role none none = true
same_role (some a) (some b) = a == b
same_role a b = false

unfoldable pub grouped : UsageRow → List Group → List Group
unfolding add_counts same_role
grouped row [] =
    record { role = row.role; binding = row.binding; requests = 1; sums = row.counts } ∷ []
grouped row (g ∷ gs) =
    let rest = grouped row gs in
    if same_role g.role row.role && g.binding == row.binding
    then record g { requests = g.requests + 1; sums = add_counts g.sums row.counts } ∷ gs
    else g ∷ rest

unfoldable pub group_all : Dict UsageRow → List Group
unfolding grouped
group_all [] = []
group_all ((message, row) ∷ rest) = grouped row (group_all rest)

-- ORDER BY total_tokens DESC, binding ASC
unfoldable pub larger_first : Group → Group → Bool
larger_first a b =
    ltb b.sums.total a.sums.total || (eqb a.sums.total b.sums.total && text_le a.binding b.binding)

unfoldable pub summarize_system_model_usage : Host → Database → Filters → Outcome (List Group)
unfolding reading usage_filters matches group_all sort_by larger_first
summarize_system_model_usage host db asked = reading db λ m. usage_filters host asked >>= λ filters.
    ok (sort_by larger_first (group_all (select (matches filters) m.usage)))
