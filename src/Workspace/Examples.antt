-- ===== src/Workspace/Examples.antt =====
-- A git workspace at concrete inputs.
use next_level_agent.Base.{◌≡◌, ◌≢◌, refl, String, true, none, some, List, [], ◌∷◌, All}
use next_level_agent.Base.Texts.{same_texts}
use next_level_agent.Workspace.Status.{
  Change, printed, changed_from, changed_files, changed_files-printed, is_moved, is_rename,
  is_rename_code, drop_characters,
}
use next_level_agent.Workspace.State.{
  Git, printing, Evidence, Work, observe, head_of, conflicts_of, head_changed, files_changed,
  is_current, reconcile_work_state, reconcile_work_state-current,
}

-- A change in the work tree, and a rename in the index.
abbrev changes : List Change
changes =
    record { index = " "; worktree = "M"; path = "a.js"; origin = none }
    ∷ record { index = "R"; worktree = " "; path = "new.js"; origin = some "Read.js" }
    ∷ []

abbrev records : List String
records = " M a.js" ∷ "R  new.js" ∷ "Read.js" ∷ "" ∷ []

records_are_printed : printed changes ≡ records
unfolding printed
records_are_printed = refl

changed_files-printed_example : changed_files (printed changes) ≡ "a.js" ∷ "new.js" ∷ []
unfolding is_moved is_rename_code
changed_files-printed_example = changed_files-printed changes (refl, (refl, tt))

abbrev work : Work
work = record {
  saved = record { head = some "h1"; branch = some "main"; worktree = some "dirty" };
  changed_files = "a.js" ∷ [];
  evidence = record { head = some "h2"; entry = "tests" } ∷ [];
  verification = [];
}

abbrev git : Git
git = printing "h2" (some "main") records

all_is_current : (reconcile_work_state work git).all_current ≡ true
unfolding reconcile_work_state observe head_of is_current changed_from
all_is_current = refl

reconcile_work_state-current_example :
    (head : String) × (head_of (observe git) ≡ some head)
    × (work.evidence ≢ [])
    × All (λ (e : Evidence). e.head ≡ some head) work.evidence
reconcile_work_state-current_example = reconcile_work_state-current work git all_is_current

head_and_files_differ :
    (reconcile_work_state work git).conflicts ≡ head_changed ∷ files_changed ∷ []
unfolding reconcile_work_state observe conflicts_of changed_from is_rename is_rename_code
    drop_characters same_texts
head_and_files_differ = refl
