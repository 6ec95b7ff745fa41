-- ===== src/Pools/Valid.antt =====
-- What a file of pools that is accepted is read as.
use next_level_agent.Base.{
  ℕ, ◌≡◌, refl, subst, String, Bool, true, false, ◌&&◌, ◌||◌, not, ◌==◌, some, List, [], ◌∷◌, Dict,
  All, eqb, length, arith,
}
use next_level_agent.Base.Result.{Result, ok, err, >>=-eq-ok, throw_if-eq-ok, ok_injective}
use next_level_agent.Base.Texts.{includes}
use next_level_agent.Pools.Binding.{Fault, Parsed, parse_model_binding, auto_needs_agent, no_models}
use next_level_agent.Pools.File.{
  RawFacts, RawModels, automatic, unlisted, listed, RawPool, is_word_of, validate_bindings,
  validate_models, check_settings, validate_pool, validate_model_pools,
}
use next_level_agent.Pools.Loaded.{
  normalized_models, normalize_auto_pool, with_facts, read_roles, shared_facts, read_pools,
}

-- The pool has a list of models, each a provider and a model; only an automatic pool may have none.
pub record HasModels (pool : RawPool) : Type 0 where
  pub bindings : List String
  pub are_listed : pool.models ≡ listed bindings
  pub are_valid : All (λ b. (q : Parsed) × (parse_model_binding b ≡ ok q)) bindings
  pub some_or_auto : (length bindings ≡ 0) → is_word_of ("auto" ∷ []) pool.selection_mode ≡ true

validate_bindings-valid :
    (seen bs : List String) {u : Unit {0}}
    → validate_bindings seen bs ≡ ok u
    → All (λ b. (q : Parsed) × (parse_model_binding b ≡ ok q)) bs
unfolding validate_bindings
validate_bindings-valid seen [] h = tt
validate_bindings-valid seen (b ∷ bs) h =
    let (q, e, h1) = >>=-eq-ok (parse_model_binding b) _ h in
    let (_, h2) = throw_if-eq-ok _ _ _ h1 in
    ((q, e), validate_bindings-valid (q.binding ∷ seen) bs h2)

err-ne-ok : {u : Unit {0}} {e : Fault} → ◌≡◌ {A = Result Fault (Unit {0})} (err e) (ok u) → ⊥
err-ne-ok h = cc

middle : (a b c : Bool) → (a || not b || c) ≡ false → b ≡ true
middle a b c h = ground arith

listed_or_auto : (n : ℕ) (b : Bool) → (eqb n 0 && not b) ≡ false → n ≡ 0 → b ≡ true
listed_or_auto n b h e = ground arith

auto_is_auto : is_word_of ("auto" ∷ []) (some "auto") ≡ true
unfolding is_word_of includes
auto_is_auto = refl

normalized-HasModels :
    (role : String) (pool : RawPool) (models : RawModels) {u : Unit {0}}
    → pool.models ≡ models
    → validate_models role pool models ≡ ok u
    → HasModels (normalized_models pool models)
unfolding validate_models normalized_models
normalized-HasModels role pool automatic same h =
    let (b, _) =
      throw_if-eq-ok
        (role == "nla"
          || not (is_word_of ("select" ∷ []) pool.selection_mode)
          || is_word_of ("utility" ∷ []) pool.runtime)
        auto_needs_agent _ h in
    rw (middle (role == "nla") _ _ b)
      record { bindings = []; are_listed = refl; are_valid = tt; some_or_auto = λ e. auto_is_auto }
normalized-HasModels role pool unlisted same h =
    let (_, k) = throw_if-eq-ok _ _ (err no_models) h in absurd (err-ne-ok k)
normalized-HasModels role pool (listed bs) same h =
    let (_, h1) = throw_if-eq-ok _ _ _ h in
    let (given, h2) =
      throw_if-eq-ok (eqb (length bs) 0 && not (is_word_of ("auto" ∷ []) pool.selection_mode))
        no_models _ h1 in
    let (_, valid, _) = >>=-eq-ok (validate_bindings [] bs) _ h2 in
    record {
      bindings = bs;
      are_listed = same;
      are_valid = validate_bindings-valid [] bs valid;
      some_or_auto = λ e. listed_or_auto (length bs) _ given e;
    }

-- The facts that are filled in leave the models as they are.
with_facts-HasModels :
    (shared : Dict RawFacts) (models : RawModels) (pool : RawPool)
    → HasModels pool
    → HasModels (with_facts shared models pool)
unfolding with_facts
with_facts-HasModels [] models pool h = h
with_facts-HasModels (f ∷ fs) automatic pool h = h
with_facts-HasModels (f ∷ fs) unlisted pool h = h
with_facts-HasModels (f ∷ fs) (listed bs) pool h = record {
  bindings = h.bindings;
  are_listed = h.are_listed;
  are_valid = h.are_valid;
  some_or_auto = h.some_or_auto;
}

read_roles-HasModels :
    (is_role_id : String → Bool) (shared : Dict RawFacts) (roles : Dict RawPool) {u : Unit {0}}
    → validate_model_pools is_role_id roles ≡ ok u
    → All (λ r. HasModels r.1) (read_roles shared roles)
unfolding validate_model_pools validate_pool read_roles normalize_auto_pool
read_roles-HasModels is_role_id shared [] h = tt
read_roles-HasModels is_role_id shared ((role, pool) ∷ rest) h =
    let (_, valid, h1) = >>=-eq-ok (validate_pool is_role_id role pool) _ h in
    let (_, _, checked) = >>=-eq-ok (check_settings is_role_id role pool) _ valid in
    (
      with_facts-HasModels shared pool.models (normalized_models pool pool.models)
          (normalized-HasModels role pool pool.models refl checked),
      read_roles-HasModels is_role_id shared rest h1,
    )

-- Every pool of a file that is accepted is read with a list of models, never the word auto, each a
-- valid binding, and empty in automatic mode only.
pub read_pools-HasModels :
    (is_role_id : String → Bool) (roles : Dict RawPool) {pools : Dict RawPool}
    → read_pools is_role_id roles ≡ ok pools
    → All (λ r. HasModels r.1) pools
unfolding read_pools
read_pools-HasModels is_role_id roles h =
    let (_, valid, h1) = >>=-eq-ok (validate_model_pools is_role_id roles) _ h in
    subst (All (λ r. HasModels r.1)) (ok_injective h1)
      (read_roles-HasModels is_role_id (shared_facts [] roles) roles valid)
