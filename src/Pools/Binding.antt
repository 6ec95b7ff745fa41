-- ===== src/Pools/Binding.antt =====
-- nla-model-pools.mjs: `parseModelBinding`, a provider and a model in one text.
use Prim.Native.Char.{Char, code}
use Prim.Native.String.{◌++◌ as text_append}
use text.Mathlib.TextLemmas.{cons-append, nil-append}
use next_level_agent.Base.{
  ℕ, suc, String, Bool, true, false, ◌&&◌, ◌||◌, not, List, [], ◌∷◌, leb, ltb, eqb, any, ◌==◌, ◌≡◌,
  refl, ap, ◌∙◌, sym, subst, eq_iff, if◌then◌else◌, Bool-cases, inl, inr, arith,
}
use next_level_agent.Base.Result.{Result, ok, err, if_err-eq-ok, ok_injective}

-- An error of `ModelPoolValidationError`, by the check that failed, and that of a file.
pub data Fault : Type 0 where
  bad_binding bad_role bad_mode bad_policy boundary_mode bad_providers bad_minimum bad_weights :
      Fault
  auto_needs_agent auto_has_facts no_models repeated_binding unlisted_facts bad_id bad_status
        bad_context :
      Fault
  bad_window bad_availability : Fault
  absent : List String → Fault

-- A character that is a letter, a digit, or one of `extra`.
is_name_code : List ℕ → ℕ → Bool
is_name_code extra c =
    (leb b'A' c && leb c b'Z')
    || (leb b'a' c && leb c b'z')
    || (leb b'0' c && leb c b'9')
    || any (eqb c) extra

rest_is_name : List ℕ → String → Bool
unfolding is_name_code
rest_is_name extra String.[] = true
rest_is_name extra (String.◌∷◌ c s) = is_name_code extra (code c) && rest_is_name extra s

-- /^[A-Za-z0-9][A-Za-z0-9._:-]*$/
unfoldable pub is_binding_part : String → Bool
unfolding rest_is_name is_name_code
is_binding_part String.[] = false
is_binding_part (String.◌∷◌ c s) =
    is_name_code [] (code c) && rest_is_name (b'.' ∷ b'_' ∷ b':' ∷ b'-' ∷ []) s

unfoldable pub character_count : String → ℕ
character_count String.[] = 0
character_count (String.◌∷◌ c s) = suc (character_count s)

-- In front of the first part.
cons_first : Char → List String → List String
cons_first c [] = String.◌∷◌ c String.[] ∷ []
cons_first c (part ∷ parts) = String.◌∷◌ c part ∷ parts

-- c === '/'
is_slash : Char → Bool
is_slash c = String.◌∷◌ c String.[] == "/"

-- s.split('/')
unfoldable pub split_slash : String → List String
unfolding cons_first is_slash
split_slash String.[] = String.[] ∷ []
split_slash (String.◌∷◌ c s) =
    let parts = split_slash s in if is_slash c then String.[] ∷ parts else cons_first c parts

-- parts.join('/')
unfoldable pub join_slash : List String → String
join_slash [] = String.[]
join_slash (part ∷ []) = part
join_slash (part ∷ (next ∷ parts)) = text_append part (text_append "/" (join_slash (next ∷ parts)))

pub record Parsed : Type 0 where
  pub provider_id : String
  pub model_id : String
  pub binding : String

unfoldable pub parsed_parts : String → List String → Result Fault Parsed
parsed_parts binding [] = err bad_binding
parsed_parts binding (provider ∷ []) = err bad_binding
parsed_parts binding (provider ∷ (model ∷ parts)) =
    if any (λ p. not (is_binding_part p)) (provider ∷ model ∷ parts) || provider == model
    then err bad_binding
    else ok
        record { provider_id = provider; model_id = join_slash (model ∷ parts); binding = binding }

-- A text with blanks at an end has a part that is not valid, so `trim` needs no test of its own.
unfoldable pub parse_model_binding : String → Result Fault Parsed
unfolding parsed_parts
parse_model_binding binding =
    if ltb 256 (character_count binding)
    then err bad_binding
    else parsed_parts binding (split_slash binding)

-- Splitting never gives nothing.
split_slash-cons : (s : String) → (p : String) × (ps : List String) × (split_slash s ≡ p ∷ ps)
unfolding split_slash
split_slash-cons String.[] = (String.[], [], refl)
split_slash-cons (String.◌∷◌ c s) =
    let (p, ps, e) = split_slash-cons s in
    elim (Bool-cases (is_slash c)) [
      | inl b ↦ (String.[], split_slash s, rw b refl)
      | inr b ↦ (String.◌∷◌ c p, ps, rw (b, e) refl)
    ]

join_slash-cons_first :
    (c : Char) (p : String) (ps : List String)
    → join_slash (String.◌∷◌ c p ∷ ps) ≡ String.◌∷◌ c (join_slash (p ∷ ps))
unfolding join_slash
join_slash-cons_first c p [] = refl
join_slash-cons_first c p (q ∷ ps) = cons-append c p _

is_slash-eq : (c : Char) (s : String) → is_slash c ≡ true → text_append "/" s ≡ String.◌∷◌ c s
unfolding is_slash
is_slash-eq c s h =
    subst (λ t. text_append t s ≡ String.◌∷◌ c s) ((eq_iff (String.◌∷◌ c String.[]) "/").0 h)
      (cons-append c String.[] s ∙ ap (String.◌∷◌ c) (nil-append s))

join_slash-split_slash : (s : String) → join_slash (split_slash s) ≡ s
unfolding split_slash cons_first join_slash
join_slash-split_slash String.[] = refl
join_slash-split_slash (String.◌∷◌ c s) =
    let (p, ps, e) = split_slash-cons s in
    let back = join_slash-split_slash s in
    elim (Bool-cases (is_slash c)) [
      | inl b ↦
          rw (b, e)
            (nil-append _
              ∙ (ap (text_append "/") (ap join_slash (sym e) ∙ back) ∙ is_slash-eq c s b))
      | inr b ↦
          rw (b, e)
            (join_slash-cons_first c p ps ∙ ap (String.◌∷◌ c) (ap join_slash (sym e) ∙ back))
    ]

first_valid :
    (p : String) (b d : Bool)
    → (not (is_binding_part p) || b || d) ≡ false
    → is_binding_part p ≡ true
first_valid p b d h = ground arith

parsed_parts-eq :
    (binding : String) (parts : List String) {q : Parsed}
    → parsed_parts binding parts ≡ ok q
    → (text_append q.provider_id (text_append "/" q.model_id) ≡ join_slash parts)
      × (is_binding_part q.provider_id ≡ true)
      × (q.binding ≡ binding)
unfolding parsed_parts join_slash
parsed_parts-eq binding [] h = cc
parsed_parts-eq binding (provider ∷ []) h = cc
parsed_parts-eq binding (provider ∷ (model ∷ parts)) {q} h =
    let (good, k) = if_err-eq-ok _ _ _ h in
    subst
      (λ (r : Parsed).
        (text_append r.provider_id (text_append "/" r.model_id)
          ≡ join_slash (provider ∷ model ∷ parts))
        × (is_binding_part r.provider_id ≡ true)
        × (r.binding ≡ binding))
      (ok_injective k) (refl, first_valid provider _ _ good, refl)

-- A binding that is accepted is its provider, a slash and its model, and its provider is a valid part.
pub parse_model_binding-parts :
    (binding : String) {q : Parsed}
    → parse_model_binding binding ≡ ok q
    → (text_append q.provider_id (text_append "/" q.model_id) ≡ binding)
      × (is_binding_part q.provider_id ≡ true)
      × (q.binding ≡ binding)
unfolding parse_model_binding
parse_model_binding-parts binding h =
    let (_, k) = if_err-eq-ok (ltb 256 (character_count binding)) bad_binding _ h in
    let (joined, valid, same) = parsed_parts-eq binding (split_slash binding) k in
    (joined ∙ join_slash-split_slash binding, valid, same)
