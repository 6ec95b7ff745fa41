-- ===== src/Tools/Bounds.antt =====
-- nla-prompt-optimizer.mjs: no way through the optimizer gives a role a tool beyond its profile.
use next_level_agent.Base.{
  subst, ◌≤◌, String, Bool, true, not, ◌&&◌, ◌||◌, ◌==◌, ◌≡◌, refl, ◌⊎◌, inl, inr, Option, none,
  some, List, [], ◌∷◌, select, take, take-length_le, length-select-le, lookup, length,
  length-take-le, ltb, arith, all, if_cases, if_either,
}
use next_level_agent.Base.Result.{
  Result, ok, err, throw_if, ◌>>◌, >>=-eq-ok, if_err-eq-ok, throw_if-eq-ok, ok_injective,
}
use next_level_agent.Base.Texts.{
  includes, unique, Within, select-Within, take-Within, all-Within, includes-select, Within-refl,
  Within-cons,
}
use native.Mathlib.Nat.{le_trans}
use next_level_agent.Tools.Roles.{
  required_role_tools, role_tool_ceilings, edits_code, tool_free_roles,
}
use next_level_agent.Tools.Shortlist.{
  Signals, Reply, unparsable, other_shape, without_tools, with_tools, ToolError, no_safe_subset,
  empty_task, profile_lacks, unique_known_tools, known_texts, known_reply,
  parse_compactor_tool_output, add_signalled, add_all, shortlist_within,
  deterministic_tool_shortlist, Compactor, no_compactor, throws, replies, Invocation,
  optimize_invocation, compacted, or_fallback,
}

Within-select :
    (xs ceiling selected : List String)
    → Within xs ceiling
    → Within xs selected
    → Within xs (select (includes selected) ceiling)
Within-select [] ceiling selected h k = tt
Within-select (x ∷ xs) ceiling selected (p, h) (q, k) =
    (includes-select (includes selected) ceiling x p q, Within-select xs ceiling selected h k)

-- A reply that is accepted stays within the ceiling and has all that is required.
unique_known-Within :
    (value ceiling required : List String) {tools : List String}
    → unique_known_tools value ceiling required ≡ ok tools
    → Within required ceiling
    → Within tools ceiling × Within required tools
unfolding unique_known_tools
unique_known-Within value ceiling required {tools} h r =
    let selected = unique value in
    let covers : all (includes selected) required ≡ true = ground arith in
    let same : select (includes selected) ceiling ≡ tools = ground arith in
    subst (λ ts. Within ts ceiling × Within required ts) same
      (
        select-Within (includes selected) ceiling,
        Within-select required ceiling selected r (all-Within required selected covers),
      )

known_texts-Within :
    (o : Option (List String)) (ceiling required : List String) {tools : List String}
    → known_texts o ceiling required ≡ ok tools
    → Within required ceiling
    → Within tools ceiling × Within required tools
known_texts-Within none ceiling required h r = cc
known_texts-Within (some names) ceiling required h r =
    unique_known-Within names ceiling required h r

known_reply-Within :
    (reply : Reply) (ceiling required : List String) {tools : List String}
    → known_reply reply ceiling required ≡ ok tools
    → Within required ceiling
    → Within tools ceiling × Within required tools
known_reply-Within unparsable ceiling required h r = cc
known_reply-Within other_shape ceiling required h r = cc
known_reply-Within without_tools ceiling required h r = cc
known_reply-Within (with_tools value) ceiling required h r =
    known_texts-Within _ ceiling required h r

-- The tools of a compactor's reply, or the fallback: within the profile and around the fallback.
or_fallback-Within :
    (prompt : String) (ceiling fallback : List String) (r : Result ToolError (List String))
    → ((tools : List String) → r ≡ ok tools → Within tools ceiling × Within fallback tools)
    → Within fallback ceiling
    → Within (or_fallback prompt fallback r).tools ceiling
      × Within fallback (or_fallback prompt fallback r).tools
or_fallback-Within prompt ceiling fallback (ok tools) h f = h tools refl
or_fallback-Within prompt ceiling fallback (err e) h f = (f, Within-refl fallback)

abbrev Between : List String → List String → Invocation → Type 0
Between ceiling fallback inv = Within inv.tools ceiling × Within fallback inv.tools

compacted-Within :
    (role prompt : String) (ceiling fallback : List String) (c : Compactor)
    → Within fallback ceiling
    → Between ceiling fallback (compacted role prompt (some ceiling) fallback c)
unfolding parse_compactor_tool_output
compacted-Within role prompt ceiling fallback no_compactor f = (f, Within-refl fallback)
compacted-Within role prompt ceiling [] throws f = (tt, tt)
compacted-Within role prompt ceiling (x ∷ xs) throws f = (f, Within-refl (x ∷ xs))
compacted-Within role prompt ceiling [] (replies r) f = (tt, tt)
compacted-Within role prompt ceiling (x ∷ xs) (replies r) f =
    or_fallback-Within prompt ceiling (x ∷ xs) (known_reply r ceiling (x ∷ xs))
      (λ tools h. known_reply-Within r ceiling (x ∷ xs) h f) f

module _ (signals : Signals) (role prompt : String) (ceiling : List String) where
  add_signalled-Within :
      (xs selected names : List String) {chosen : List String}
      → Within xs selected
      → add_signalled signals role prompt ceiling selected names ≡ ok chosen
      → Within xs chosen
  unfolding add_signalled
  add_signalled-Within xs selected [] w h = subst (Within xs) (ok_injective h) w
  add_signalled-Within xs selected (name ∷ names) {chosen} w h =
      if_cases Goal (not (signals.signal name prompt)) _ _
        (λ _ e. add_signalled-Within xs selected names w e)
        (λ _.
          if_cases Goal
            (edits_code role
              && (name == "edit" || name == "write")
              && includes ceiling "apply_patch")
            _ _
            (λ _ e.
              add_signalled-Within xs ("apply_patch" ∷ selected) names
                (Within-cons xs selected "apply_patch" w) e)
            (λ _.
              if_cases Goal (includes ceiling name) _ (err (profile_lacks name))
                (λ _ e.
                  add_signalled-Within xs (name ∷ selected) names (Within-cons xs selected name w)
                    e)
                (λ _ e. cc)))
        h
    where
      Goal : Result ToolError (List String) → Type 0
      Goal r = r ≡ ok chosen → Within xs chosen

  add_all-Within :
      (names : Option (List String)) {chosen : List String}
      → add_all signals role prompt ceiling names ≡ ok chosen
      → Within (required_role_tools role (some ceiling)) chosen
  unfolding add_all
  add_all-Within none h = cc
  add_all-Within (some names) h = add_signalled-Within _ _ names (Within-refl _) h

  -- The bounds of a deterministic shortlist.
  abbrev pub IsBounded : List String → Type 0
  IsBounded tools =
      Within tools ceiling
      × ((tools ≡ [])
          ⊎ ((2 ≤ length tools)
              × (length tools ≤ 5)
              × Within (required_role_tools role (some ceiling)) tools))

  shortlist_within-IsBounded :
      {tools : List String}
      → length ceiling ≤ 5
      → Within (required_role_tools role (some ceiling)) ceiling
      → shortlist_within signals role prompt ceiling ≡ ok tools
      → IsBounded tools
  unfolding shortlist_within
  shortlist_within-IsBounded {tools} small r h =
      let (_, h1) = if_err-eq-ok (signals.is_blank prompt) empty_task _ h in
      if_cases (λ q. q ≡ ok tools → IsBounded tools) (signals.wants_no_tools prompt) _ _
        (λ _ e. subst IsBounded (ok_injective e) (tt, inl refl))
        (λ _ e. signalled (>>=-eq-ok _ _ e)) h1
    where
      required : List String
      required = required_role_tools role (some ceiling)

      chosen_tools : List String → List String
      chosen_tools selected = take 5 (select (includes selected) ceiling)

      signalled :
          (selected : List String) × (add_all signals role prompt ceiling
                (lookup role role_tool_ceilings)
              ≡ ok selected)
            × ((throw_if (ltb (length (chosen_tools selected)) 2) no_safe_subset
                  >> ok (chosen_tools selected))
                ≡ ok tools)
          → IsBounded tools
      signalled (selected, e, f) =
          let (enough, g) =
            throw_if-eq-ok (ltb (length (chosen_tools selected)) 2) no_safe_subset _ f in
          let within = select-Within (includes selected) ceiling in
          let whole : chosen_tools selected ≡ select (includes selected) ceiling =
            take-length_le 5 _ (le_trans (length-select-le (includes selected) ceiling) small) in
          subst IsBounded (ok_injective g) (
            take-Within 5 _ ceiling within,
            inr (
              ground arith,
              length-take-le 5 _,
              rw whole (
                  Within-select required ceiling selected r
                    (add_all-Within (lookup role role_tool_ceilings) e)),
            ),
          )

-- A deterministic shortlist stays within the profile. It is empty, or it has two to five tools and
-- all that the role requires, where the profile is one of at most five tools with those.
pub deterministic-IsBounded :
    (signals : Signals) (role prompt : String) (ceiling : List String) {tools : List String}
    → length ceiling ≤ 5
    → Within (required_role_tools role (some ceiling)) ceiling
    → deterministic_tool_shortlist signals role prompt (some ceiling) ≡ ok tools
    → IsBounded signals role prompt ceiling tools
unfolding deterministic_tool_shortlist
deterministic-IsBounded signals role prompt ceiling {tools} small r h =
    if_cases (λ q. q ≡ ok tools → IsBounded signals role prompt ceiling tools)
      (includes tool_free_roles role) _ _
      (λ _ e. subst (IsBounded signals role prompt ceiling) (ok_injective e) (tt, inl refl))
      (λ _ e. shortlist_within-IsBounded signals role prompt ceiling small r e) h

-- For a profile of at most five tools with the required ones, whatever the compactor replies, the
-- tools of an optimized invocation are within the profile and contain the deterministic shortlist.
pub optimize_invocation-Between :
    (signals : Signals) (role prompt : String) (ceiling : List String) (enabled : Bool)
    (compactor : Compactor) {inv : Invocation}
    → length ceiling ≤ 5
    → Within (required_role_tools role (some ceiling)) ceiling
    → optimize_invocation signals role prompt (some ceiling) enabled compactor ≡ ok inv
    → (fallback : List String) × (deterministic_tool_shortlist signals role prompt (some ceiling)
        ≡ ok fallback)
      × Within inv.tools ceiling
      × Within fallback inv.tools
unfolding optimize_invocation
optimize_invocation-Between signals role prompt ceiling enabled compactor {inv} small r h =
    let (fallback, e, f) = >>=-eq-ok _ _ h in
    let inside = (deterministic-IsBounded signals role prompt ceiling small r e).0 in
    let bounds : Between ceiling fallback inv = subst (Between ceiling fallback) (ok_injective f) (
      if_either (Between ceiling fallback) enabled _ _
        (compacted-Within role prompt ceiling fallback compactor inside)
        (inside, Within-refl fallback)) in
    (fallback, e, bounds.0, bounds.1)
