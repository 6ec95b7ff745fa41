-- ===== src/Health/Manager.antt =====
-- nla-model-health.mjs: `ModelHealthManager`. Time is an argument of each call.
use Prim.Native.String.{◌++◌ as text_append}
use next_level_agent.Base.{
  ℕ, ◌+◌, ◌-◌, max, String, Bool, true, false, ◌&&◌, not, Option, none, some, List, [], ◌∷◌, map,
  Dict, lookup, insert, erase, ◌==◌, leb, length, take, select, all, if◌then◌else◌,
}
use next_level_agent.Base.Order.{sort_by}
use next_level_agent.Health.Classify.{
  Category, Reason, Regexes, ProviderError, Classification, transient, defective, configuration,
  classify,
}

pub data Down : Type 0 where
  cooling quarantined : Down

pub record Failure : Type 0 where
  pub down : Down
  pub category : Category
  pub reason : Reason
  pub since : ℕ
  pub until : Option ℕ

-- `probe` is `{ state: 'probe-in-flight', claimedAt, previous }`, with `previous` or without.
pub data Entry : Type 0 where
  failed : Failure → Entry
  probe : ℕ → Entry
  probe_after : ℕ → Failure → Entry

pub record Manager : Type 0 where
  pub entries : Dict Entry
  pub cooldown : ℕ

pub data Label : Type 0 where
  available is_cooling is_quarantined in_flight : Label

pub record State : Type 0 where
  pub label : Label
  pub eligible : Bool
  pub until : Option ℕ
  pub remaining_ms : ℕ

-- `${endpoint || 'default'}::${binding}`
unfoldable pub key : String → String → String
key binding endpoint =
    text_append (if endpoint == "" then "default" else endpoint) (text_append "::" binding)

-- `entry.until <= now`, where a missing time counts as 0
unfoldable pub is_due : Option ℕ → ℕ → Bool
is_due none now = true
is_due (some t) now = leb t now

abbrev remaining : Option ℕ → ℕ → ℕ
remaining none now = 0
remaining (some t) now = t - now

abbrev label_of : Down → Label
label_of cooling = is_cooling
label_of quarantined = is_quarantined

abbrev pub fresh_state : State
fresh_state = record { label = available; eligible = true; until = none; remaining_ms = 0 }

abbrev blocked_state : Failure → ℕ → State
blocked_state f now = record {
  label = label_of f.down;
  eligible = false;
  until = f.until;
  remaining_ms = remaining f.until now;
}

abbrev failure_state : Down → Failure → ℕ → State
failure_state cooling f now = if is_due f.until now then fresh_state else blocked_state f now
failure_state quarantined f now = blocked_state f now

unfoldable pub entry_state : Option Entry → ℕ → State
unfolding is_due
entry_state none now = fresh_state
entry_state (some (failed f)) now = failure_state f.down f now
entry_state (some (probe t)) now = record {
  label = in_flight;
  eligible = false;
  until = none;
  remaining_ms = 0;
}
entry_state (some (probe_after t f)) now = record {
  label = in_flight;
  eligible = false;
  until = none;
  remaining_ms = 0;
}

unfoldable pub state : Manager → ℕ → String → String → State
unfolding entry_state
state m now binding endpoint = entry_state (lookup (key binding endpoint) m.entries) now

pub record Selection : Type 0 where
  pub models : List String
  pub all_models : List (String × State)
  pub earliest_retry_at : Option ℕ
  pub all_quarantined : Bool

abbrev is_label_cooling : Label → Bool
is_label_cooling is_cooling = true
is_label_cooling _ = false

abbrev is_label_quarantined : Label → Bool
is_label_quarantined is_quarantined = true
is_label_quarantined _ = false

-- A cooling entry has a time; without one it would be due.
abbrev cooling_times : List (String × State) → List ℕ
cooling_times [] = []
cooling_times ((b, s) ∷ rest) =
    let times = cooling_times rest in
    if is_label_cooling s.label then elim s.until [ none ↦ times | some t ↦ t ∷ times ] else times

-- `times.sort((a, b) => a - b)[0] || null`
unfoldable pub first_time : List ℕ → Option ℕ
unfolding sort_by
first_time times = elim (sort_by leb times) [
  | [] ↦ none
  | t ∷ rest ↦ if leb t 0 then none else some t
]

unfoldable pub candidates : Manager → ℕ → List String → ℕ → String → Selection
candidates m now models limit endpoint =
    let rows = map (λ binding. (binding, state m now binding endpoint)) models in
    record {
      models = take limit (map (λ row. row.0) (select (λ row. row.1.eligible) rows));
      all_models = rows;
      earliest_retry_at = first_time (cooling_times rows);
      all_quarantined =
          not (leb (length rows) 0) && all (λ row. is_label_quarantined row.1.label) rows;
    }

abbrev pub claimed_entry : Option Entry → ℕ → Entry
claimed_entry (some (failed f)) now = probe_after now f
claimed_entry _ now = probe now

unfoldable pub claim : Manager → ℕ → String → String → Manager × Bool
unfolding state
claim m now binding endpoint =
    let k = key binding endpoint in
    if (state m now binding endpoint).eligible
    then (record m { entries = insert k (claimed_entry (lookup k m.entries) now) m.entries }, true)
    else (m, false)

abbrev pub released : String → Option Entry → Dict Entry → Dict Entry
released k (some (probe t)) es = erase k es
released k (some (probe_after t f)) es = insert k (failed f) es
released k _ es = es

unfoldable pub release : Manager → String → String → Manager
release m binding endpoint =
    let k = key binding endpoint in record m { entries = released k (lookup k m.entries) m.entries }

unfoldable pub success : Manager → String → String → Manager
success m binding endpoint = record m { entries = erase (key binding endpoint) m.entries }

-- result.retryAfterMs || 0
abbrev pub or_zero : Option ℕ → ℕ
or_zero none = 0
or_zero (some n) = n

abbrev pub failed_manager : Category → Manager → ℕ → Classification → String → String → ℕ → Manager
failed_manager transient m now c binding endpoint cooldown = record m {
  entries =
      insert (key binding endpoint)
        (failed (record {
          down = cooling;
          category = c.category;
          reason = c.reason;
          since = now;
          until = some (now + max cooldown (or_zero c.retry_ms));
        }))
        m.entries;
}
failed_manager defective m now c binding endpoint cooldown = record m {
  entries =
      insert (key binding endpoint)
        (failed (record {
          down = quarantined;
          category = c.category;
          reason = c.reason;
          since = now;
          until = none;
        }))
        m.entries;
}
failed_manager configuration m now c binding endpoint cooldown = record m {
  entries =
      insert (key binding endpoint)
        (failed (record {
          down = quarantined;
          category = c.category;
          reason = c.reason;
          since = now;
          until = none;
        }))
        m.entries;
}
failed_manager _ m now c binding endpoint cooldown = release m binding endpoint

unfoldable pub failure :
    Regexes → Manager → ℕ → String → ProviderError → String → ℕ → Manager × Classification
failure rx m now binding error endpoint cooldown =
    let result = classify rx error now in
    (failed_manager result.category m now result binding endpoint cooldown, result)

abbrev pub is_probe : Option Entry → Bool
is_probe (some (probe t)) = true
is_probe (some (probe_after t f)) = true
is_probe _ = false

-- `none` is the error that an in-flight binding cannot be reset.
unfoldable pub reset : Manager → String → String → Option Manager
reset m binding endpoint =
    let k = key binding endpoint in
    if is_probe (lookup k m.entries) then none else some (record m { entries = erase k m.entries })

pub record SavedEntry : Type 0 where
  pub binding : String
  pub endpoint : String
  pub label : Label
  pub category : Category
  pub reason : Reason
  pub since : ℕ
  pub until : Option ℕ

-- A cooling row needs a finite time that is still to come.
abbrev still_cooling : Option ℕ → ℕ → Bool
still_cooling none now = false
still_cooling (some t) now = not (leb t now)

abbrev restored : SavedEntry → Label → ℕ → Option Failure
restored e is_cooling now =
    if still_cooling e.until now
    then some (record {
      down = cooling;
      category = e.category;
      reason = e.reason;
      since = e.since;
      until = e.until;
    })
    else none
restored e is_quarantined now = some (record {
  down = quarantined;
  category = e.category;
  reason = e.reason;
  since = e.since;
  until = e.until;
})
restored e _ now = none

abbrev pub hydrated : Manager → String → Option Failure → Manager
hydrated m k none = m
hydrated m k (some f) = record m { entries = insert k (failed f) m.entries }

unfoldable pub hydrate_one : Manager → ℕ → SavedEntry → Manager
hydrate_one m now e = hydrated m (key e.binding e.endpoint) (restored e e.label now)

unfoldable pub hydrate : Manager → ℕ → List SavedEntry → Manager
unfolding hydrate_one
hydrate m now [] = m
hydrate m now (e ∷ rest) = hydrate (hydrate_one m now e) now rest

-- A row of the snapshot: the entry without what it replaced.
abbrev without_previous : Entry → Entry
without_previous (probe_after t f) = probe t
without_previous e = e

abbrev entry_remaining : Entry → ℕ → ℕ
entry_remaining (failed f) now = remaining f.until now
entry_remaining _ now = 0

unfoldable pub snapshot : Manager → ℕ → List (String × Entry × ℕ)
snapshot m now = map (λ row. (row.0, without_previous row.1, entry_remaining row.1 now)) m.entries
