-- ===== src/Workspace/State.antt =====
-- nla-reconciliation.mjs: `reconcileWorkState`. What git prints is an argument.
use next_level_agent.Base.{
  ◌≡◌, ◌≢◌, refl, ap, ◌∙◌, Option-cases, String, Bool, true, false, ◌&&◌, not, Option, none, some,
  List, [], ◌∷◌, ◌++◌, map, all, ◌==◌, eq_iff, All, inl, inr, arith, if◌then◌else◌,
}
use next_level_agent.Base.Texts.{same_texts}
use next_level_agent.Workspace.Status.{changed_files}

-- What a ledger saved of the repository; a missing or empty field is `none`.
pub record Saved : Type 0 where
  pub head : Option String
  pub branch : Option String
  pub worktree : Option String

-- What git says: it fails, or gives the head, the branch, and the records of the status.
pub data Git : Type 0 where
  failing : Git
  printing : String → Option String → List String → Git

pub data Observed : Type 0 where
  no_git : Observed
  observed : String → Option String → String → List String → Observed

pub data Conflict : Type 0 where
  git_state_unavailable head_changed branch_changed worktree_changed files_changed : Conflict

differs : Option String → String → Bool
differs none now = false
differs (some saved) now = not (saved == now)

differs_branch : Option String → Option String → Bool
differs_branch none now = false
differs_branch (some saved) none = true
differs_branch (some saved) (some now) = not (saved == now)

add_if : Bool → Conflict → List Conflict → List Conflict
add_if true c cs = c ∷ cs
add_if false c cs = cs

is_empty : List String → Bool
is_empty [] = true
is_empty (x ∷ xs) = false

-- `saved || {}`: no saved state has no fields.
unfoldable pub observe : Git → Observed
unfolding is_empty
observe failing = no_git
observe (printing head branch records) =
    observed head branch (if is_empty (changed_files records) then "clean" else "dirty")
      (changed_files records)

unfoldable pub conflicts_of : Saved → Observed → List Conflict
unfolding differs differs_branch add_if
conflicts_of s no_git = git_state_unavailable ∷ []
conflicts_of s (observed head branch worktree files) = add_if (differs s.head head) head_changed (
    add_if (differs_branch s.branch branch) branch_changed
      (add_if (differs s.worktree worktree) worktree_changed []))

-- An entry of evidence: its text, and the head that it was made at. The list of a ledger without
-- heads, `verification`, gives entries with none.
pub record Evidence : Type 0 where
  pub head : Option String
  pub entry : String

pub record Work : Type 0 where
  pub saved : Saved
  pub changed_files : List String
  pub evidence : List Evidence
  pub verification : List String

pub record Reconciled : Type 0 where
  pub changed_files : List String
  pub seen : Observed
  pub conflicts : List Conflict
  pub current : List (Evidence × Bool)
  pub all_current : Bool

legacy : String → Evidence
legacy e = record { head = none; entry = e }

evidence_of : List Evidence → List String → List Evidence
unfolding legacy
evidence_of [] old = map legacy old
evidence_of (e ∷ es) old = e ∷ es

unfoldable pub head_of : Observed → Option String
head_of no_git = none
head_of (observed head branch worktree files) = if head == "" then none else some head

files_of : Observed → List String → List String
files_of no_git saved = saved
files_of (observed head branch worktree files) saved = files

-- item.head && item.head === currentHead
unfoldable pub is_current : Option String → Evidence → Bool
is_current none e = false
is_current (some now) e = elim e.head [ none ↦ false | some h ↦ not (h == "") && h == now ]

some_current : List (Evidence × Bool) → Bool
some_current [] = false
some_current (e ∷ es) = true

file_conflicts : Observed → List String → List Conflict
file_conflicts no_git saved = []
file_conflicts (observed head branch worktree files) saved =
    if same_texts saved files then [] else files_changed ∷ []

unfoldable pub reconcile_work_state : Work → Git → Reconciled
unfolding conflicts_of observe evidence_of head_of files_of is_current some_current file_conflicts
reconcile_work_state w git =
    let now = observe git in
    let current =
      map (λ (e : Evidence). (e, is_current (head_of now) e))
        (evidence_of w.evidence w.verification) in
    record {
      changed_files = files_of now w.changed_files;
      seen = now;
      conflicts = conflicts_of w.saved now ++ file_conflicts now w.changed_files;
      current = current;
      all_current = some_current current && all (λ (e : Evidence × Bool). e.1) current;
    }

abbrev marked : Option String → List Evidence → List (Evidence × Bool)
marked now = map (λ (e : Evidence). (e, is_current now e))

abbrev holds : List (Evidence × Bool) → Bool
holds current = some_current current && all (λ (e : Evidence × Bool). e.1) current

both : (a b : Bool) → (a && b) ≡ true → (a ≡ true) × (b ≡ true)
both a b h = ground arith

is_current-head : (now : String) (e : Evidence) → is_current (some now) e ≡ true → e.head ≡ some now
unfolding is_current
is_current-head now e h = elim (Option-cases e.head) [
  | inl k ↦ let f = rw k at h in cc
  | inr (s, k) ↦
      let f = rw k at h in k ∙ ap some ((eq_iff s now).0 (both (not (s == "")) (s == now) f).1)
]

all-marked :
    (now : String) (es : List Evidence)
    → all (λ (e : Evidence × Bool). e.1) (marked (some now) es) ≡ true
    → All (λ (e : Evidence). e.head ≡ some now) es
all-marked now [] h = tt
all-marked now (e ∷ es) h =
    let (p, q) = both (is_current (some now) e) _ h in
    (is_current-head now e p, all-marked now es q)

holds-none : (es : List Evidence) → holds (marked none es) ≡ true → ⊥
unfolding some_current is_current
holds-none [] h = cc
holds-none (e ∷ es) h = cc

holds-legacy :
    (now : Option String) (old : List String) → holds (marked now (map legacy old)) ≡ true → ⊥
unfolding some_current is_current legacy
holds-legacy now [] h = cc
holds-legacy none (e ∷ old) h = cc
holds-legacy (some now) (e ∷ old) h = cc

current_heads :
    (now : Option String) (es : List Evidence) (old : List String)
    → holds (marked now (evidence_of es old)) ≡ true
    → (head : String) × (now ≡ some head)
      × (es ≢ [])
      × All (λ (e : Evidence). e.head ≡ some head) es
unfolding evidence_of
current_heads now [] old h = absurd (holds-legacy now old h)
current_heads none (e ∷ es) old h = absurd (holds-none (e ∷ es) h)
current_heads (some head) (e ∷ es) old h = (
  head,
  refl,
  (λ k. cc),
  all-marked head (e ∷ es) (both (some_current (marked (some head) (e ∷ es))) _ h).1,
)

-- The verification counts as current only when git gives a head, there is evidence, and every entry of
-- it was made at this head; texts without a head never count.
pub reconcile_work_state-current :
    (w : Work) (git : Git)
    → (reconcile_work_state w git).all_current ≡ true
    → (head : String) × (head_of (observe git) ≡ some head)
      × (w.evidence ≢ [])
      × All (λ (e : Evidence). e.head ≡ some head) w.evidence
unfolding reconcile_work_state
reconcile_work_state-current w git h =
    current_heads (head_of (observe git)) w.evidence w.verification h
