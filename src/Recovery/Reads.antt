-- ===== src/Recovery/Reads.antt =====
-- nla-browser-recovery.mjs: the readers of the store.
use next_level_agent.Base.{
  String, Bool, true, false, ◌&&◌, ◌||◌, not, Option, none, some, List, [], ◌∷◌, ◌++◌, map, any,
  all, select, ◌==◌,
}
use next_level_agent.Base.Result.{Result, ok, err, ◌>>=◌, ◌>>◌, throw_if}
use next_level_agent.Recovery.Ids.{valid_id, safe_session}
use next_level_agent.Recovery.Contract.{Blocked, bad_id, ambiguous_task, missing_task}
use next_level_agent.Recovery.Store.{Attempt, Recovery, Store, Exposed, expose}
use next_level_agent.Recovery.Validate.{World}
use next_level_agent.Recovery.Tasks.{Disk, open_store, or_none_yet}

-- What a caller asks for; `task_ids` are the tasks that it knows.
pub record Options : Type 0 where
  pub task_id : Option String
  pub required : Bool
  pub expected_known : Bool
  pub task_ids : Option (List String)

some_ids : Option (List String) → Bool
some_ids none = false
some_ids (some []) = false
some_ids (some (id ∷ ids)) = true

is_required : Options → Bool
unfolding some_ids
is_required o = o.required || o.expected_known || some_ids o.task_ids

has_task : List Recovery → String → Bool
has_task rs id = any (λ (r : Recovery). r.task_id == id) rs

knows : Option (List String) → List Recovery → Bool
unfolding has_task
knows none rs = true
knows (some ids) rs = all (has_task rs) ids

no_records : List Recovery → Bool
no_records [] = true
no_records (r ∷ rs) = false

unfoldable pub list_action : String → Options → Option Store → Result Blocked (List Exposed)
unfolding is_required knows no_records
list_action owner o s =
    let records = select (λ (r : Recovery). r.owner == owner) (or_none_yet s) in
    throw_if ((is_required o && no_records records) || not (knows o.task_ids records)) missing_task
    >> ok (map expose records)

unfoldable pub list_browser_recoveries :
    World → Disk → String → Options → Result Blocked (List Exposed)
unfolding is_required
list_browser_recoveries w disk owner o =
    throw_if (not (safe_session owner)) bad_id
    >> open_store w disk (is_required o)
    >>= list_action owner o

pub data View : Type 0 where
  nothing : View
  one_task : Exposed → View
  many_tasks : List Exposed → View

view_all : List Exposed → View
view_all [] = nothing
view_all (e ∷ []) = one_task e
view_all (e ∷ (f ∷ es)) = many_tasks (e ∷ f ∷ es)

the_task : List Exposed → Result Blocked View
the_task [] = err ambiguous_task
the_task (e ∷ []) = ok (one_task e)
the_task (e ∷ (f ∷ es)) = err ambiguous_task

view_of : Option String → List Exposed → Result Blocked View
unfolding view_all the_task
view_of none es = ok (view_all es)
view_of (some id) es =
    throw_if (not (valid_id id)) bad_id
    >> the_task (select (λ (e : Exposed). e.recovery.task_id == id) es)

-- The records that were listed all belong to the owner.
unfoldable pub validate_browser_recovery : World → Disk → String → Options → Result Blocked View
unfolding view_of
validate_browser_recovery w disk owner o =
    list_browser_recoveries w disk owner o >>= view_of o.task_id

-- An entry of `recoveryEvidence`: the attempt, with the task and the owner of its record.
pub record Proof : Type 0 where
  pub owner : String
  pub task_id : String
  pub attempt : Attempt

unfoldable pub evidence_of : String → List Exposed → List Proof
evidence_of owner [] = []
evidence_of owner (e ∷ es) =
    map (λ (a : Attempt). record { owner = owner; task_id = e.recovery.task_id; attempt = a })
      e.recovery.evidence
    ++ evidence_of owner es

unfoldable pub recovery_evidence : World → Disk → String → Options → Result Blocked (List Proof)
recovery_evidence w disk owner o =
    list_browser_recoveries w disk owner o >>= λ es. ok (evidence_of owner es)
