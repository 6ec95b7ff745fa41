-- ===== src/Workspace/Status.antt =====
-- nla-reconciliation.mjs: `changedFiles`, which reads the records of `git status --porcelain=v1 -z`.
use Prim.Native.Char.{Char, code}
use next_level_agent.Base.{
  ℕ, zero, suc, ◌≡◌, refl, ap, subst, ◌∙◌, String, Bool, true, false, ◌||◌, Option, none, some,
  List, [], ◌∷◌, ◌++◌, map, eqb, All, if◌then◌else◌,
}

-- s.slice(n)
unfoldable pub drop_characters : ℕ → String → String
drop_characters zero s = s
drop_characters (suc n) String.[] = String.[]
drop_characters (suc n) (String.◌∷◌ c s) = drop_characters n s

-- /[RC]/
unfoldable pub is_rename_code : Char → Bool
is_rename_code c = eqb (code c) b'R' || eqb (code c) b'C'

-- /[RC]/.test(record.slice(0, 2))
unfoldable pub is_rename : String → Bool
unfolding is_rename_code
is_rename String.[] = false
is_rename (String.◌∷◌ x String.[]) = is_rename_code x
is_rename (String.◌∷◌ x (String.◌∷◌ y s)) = is_rename_code x || is_rename_code y

is_blank : String → Bool
is_blank String.[] = true
is_blank (String.◌∷◌ c s) = false

-- The loop over the records; `skips` says that the next one is the original path of a rename.
unfoldable pub changed_from : Bool → List String → List String
unfolding is_blank is_rename drop_characters
changed_from skips [] = []
changed_from skips (record_text ∷ rest) =
    let after_skip = changed_from false rest in
    let files = drop_characters 3 record_text ∷ changed_from (is_rename record_text) rest in
    if skips then after_skip else if is_blank record_text then after_skip else files

abbrev pub changed_files : List String → List String
changed_files = changed_from false

-- An entry as git documents it: two status letters, the path, and for a rename or a copy its origin.
pub record Change : Type 0 where
  pub index : Char
  pub worktree : Char
  pub path : String
  pub origin : Option String

unfoldable pub is_moved : Option String → Bool
is_moved none = false
is_moved (some s) = true

-- An origin stands just where a status letter says so.
abbrev pub IsEntry : Change → Type 0
IsEntry c = is_moved c.origin ≡ (is_rename_code c.index || is_rename_code c.worktree)

origin_records : Option String → List String
origin_records none = []
origin_records (some s) = s ∷ []

-- The records that git prints; the text ends with a separator, so the last record is empty.
unfoldable pub printed : List Change → List String
unfolding origin_records
printed [] = String.[] ∷ []
printed (c ∷ cs) =
    String.◌∷◌ c.index (String.◌∷◌ c.worktree (String.◌∷◌ " " c.path))
    ∷ (origin_records c.origin ++ printed cs)

moved_skips :
    (o : Option String) (cs : List Change)
    → changed_from (is_moved o) (origin_records o ++ printed cs) ≡ changed_from false (printed cs)
unfolding origin_records is_moved changed_from
moved_skips none cs = refl
moved_skips (some s) cs = refl

-- Reading the status records of entries with well-placed origins gives the paths of all entries, and
-- no origin of a rename.
pub changed_files-printed :
    (cs : List Change)
    → All IsEntry cs
    → changed_files (printed cs) ≡ map (λ (c : Change). c.path) cs
unfolding printed changed_from is_rename drop_characters
changed_files-printed [] h = refl
changed_files-printed (c ∷ cs) (e, h) = ap (◌∷◌ c.path) (
    subst
      (λ b.
        changed_from b (origin_records c.origin ++ printed cs) ≡ map (λ (d : Change). d.path) cs)
      e (moved_skips c.origin cs ∙ changed_files-printed cs h))
