-- ===== src/Recovery/Release.antt =====
-- nla-browser-recovery.mjs: the release of a claim that was just taken.
use mathlib.Core.Path.{subst₂}
use next_level_agent.Base.{
  ◌≡◌, refl, sym, ap, subst, ◌∙◌, String, Bool, true, false, ◌||◌, not, Option, none, some, List,
  [], ◌∷◌, map, All, select, inl, inr, Bool-cases, eq_refl, arith,
}
use next_level_agent.Base.Result.{Result, ok, err, ◌>>=◌, throw_if-eq-ok, >>=-eq-ok, ok_injective}
use next_level_agent.Base.Sorting.{select-All}
use next_level_agent.Recovery.Contract.{Blocked, bad_id, Digests}
use next_level_agent.Recovery.Ids.{valid_id, safe_session, is_token}
use next_level_agent.Recovery.Store.{
  Recovery, Store, Exposed, is_claimed, is_task, the_one, select_record, select_required, replace,
  unclaimed, id_is_bad,
}
use next_level_agent.Recovery.Selected.{select_required-eq}
use next_level_agent.Recovery.Validate.{World, valid_store}
use next_level_agent.Recovery.Tasks.{
  Disk, fresh, damaged, holding, open_store, check_result, commit, transaction, with_claim,
  claim_action, claim_task, token_matches, release_action, release_task,
}
use next_level_agent.Recovery.Effects.{claims-eq}

cons_parts : (x y : Recovery) (xs ys : List Recovery) → x ∷ xs ≡ y ∷ ys → (x ≡ y) × (xs ≡ ys)
cons_parts x y xs ys h = (cc, cc)

module _ (owner : String) (id : Option String) where
  select-replace :
      (new : Recovery) (s : Store)
      → is_task owner id new ≡ true
      → select (is_task owner id) (replace owner id new s)
        ≡ map (λ r. new) (select (is_task owner id) s)
  unfolding replace
  select-replace new [] h = refl
  select-replace new (r ∷ rs) h = elim (Bool-cases (is_task owner id r)) [
    | inl e ↦ rw (e, h) (ap (◌∷◌ new) (select-replace new rs h))
    | inr e ↦ rw (e, e) (select-replace new rs h)
  ]

  replace-replace :
      (new old : Recovery) (s : Store)
      → is_task owner id new ≡ true
      → replace owner id old (replace owner id new s) ≡ replace owner id old s
  unfolding replace
  replace-replace new old [] h = refl
  replace-replace new old (r ∷ rs) h = elim (Bool-cases (is_task owner id r)) [
    | inl e ↦ rw (e, h) (ap (◌∷◌ old) (replace-replace new old rs h))
    | inr e ↦ rw (e, e) (ap (◌∷◌ r) (replace-replace new old rs h))
  ]

  replace-absent :
      (new : Recovery) (s : Store) → select (is_task owner id) s ≡ [] → replace owner id new s ≡ s
  unfolding replace
  replace-absent new [] h = refl
  replace-absent new (r ∷ rs) h = elim (Bool-cases (is_task owner id r)) [
    | inl e ↦ absurd (ground arith)
    | inr e ↦ rw e (ap (◌∷◌ r) (replace-absent new rs (rw e at h)))
  ]

  replace-same :
      (r : Recovery) (s : Store) → select (is_task owner id) s ≡ r ∷ [] → replace owner id r s ≡ s
  unfolding replace
  replace-same r [] h = refl
  replace-same r (x ∷ xs) h = elim (Bool-cases (is_task owner id x)) [
    | inl e ↦
        let (same, none_left) = cons_parts x r _ [] (rw e at h) in
        rw (e, replace-absent r xs none_left, same) refl
    | inr e ↦ rw e (ap (◌∷◌ x) (replace-same r xs (rw e at h)))
  ]

ok-ne-err : {A : Type 0} (e : Blocked) (v : A) → ◌≡◌ {A = Result Blocked A} (err e) (ok v) → ⊥
ok-ne-err e v h = cc

committed-eq :
    {A : Type 0} (w : World) (disk : Disk) (r : Result Blocked (Store × A)) {after : Disk} {v : A}
    → commit disk (check_result w r) ≡ (after, ok v)
    → (t : Store) × (r ≡ ok (t, v)) × (valid_store w t ≡ true) × (after ≡ holding t)
unfolding commit check_result
committed-eq w disk (err e) h = absurd (ok-ne-err e _ (ap (λ q. q.1) h))
committed-eq w disk (ok (t, u)) h = elim (Bool-cases (valid_store w t)) [
  | inl e ↦
      let k = rw e at h in
      (t, ap (λ x. ok (t, x)) (ok_injective (ap (λ q. q.1) k)), e, sym (ap (λ q. q.0) k))
  | inr e ↦ absurd (ok-ne-err _ _ (ap (λ q. q.1) (rw e at h)))
]

-- A transaction that succeeds found a sound store, and wrote a sound one.
pub transaction-eq-ok :
    {A : Type 0} (w : World) (disk : Disk) (required : Bool)
    (action : Option Store → Result Blocked (Store × A)) {after : Disk} {v : A}
    → transaction w disk required action ≡ (after, ok v)
    → (o : Option Store) × (t : Store) × (open_store w disk required ≡ ok o)
      × (action o ≡ ok (t, v))
      × (valid_store w t ≡ true)
      × (after ≡ holding t)
unfolding transaction
transaction-eq-ok w disk required action h =
    let (t, e, valid, made) = committed-eq w disk (open_store w disk required >>= action) h in
    let (o, opened, done) = >>=-eq-ok (open_store w disk required) action e in
    (o, t, opened, done, valid, made)

-- A store that had to be there is on the disk, and sound.
open_store-required :
    (w : World) (disk : Disk) (o : Option Store)
    → open_store w disk true ≡ ok o
    → (s : Store) × (o ≡ some s) × (disk ≡ holding s) × (valid_store w s ≡ true)
unfolding open_store
open_store-required w fresh o h = cc
open_store-required w damaged o h = cc
open_store-required w (holding s) o h = elim (Bool-cases (valid_store w s)) [
  | inl e ↦ (s, sym (ok_injective (rw e at h)), refl, e)
  | inr e ↦ absurd (ground arith)
]

the_one-eq :
    (required : Bool) (r : Recovery) (rs : List Recovery)
    → the_one required rs ≡ ok (some r)
    → rs ≡ r ∷ []
unfolding the_one
the_one-eq required r [] h = absurd (ground arith)
the_one-eq required r (x ∷ []) h = cc
the_one-eq required r (x ∷ (y ∷ rs)) h = cc

no_claim : (c : Option String) → is_claimed c ≡ false → c ≡ none
no_claim none h = refl
no_claim (some c) h = cc

-- What a call that finds its task selects.
select_record-eq :
    (s : Store) (owner : String) (id : Option String) (required : Bool) (r : Recovery)
    → select_record s owner id required ≡ ok (some r)
    → select (is_task owner id) s ≡ r ∷ []
unfolding select_record
select_record-eq s owner id required r h = the_one-eq required r _ (throw_if-eq-ok _ _ _ h).1

unclaimed-with_claim :
    (r : Recovery) (claim : String)
    → is_claimed r.execution_claim ≡ false
    → unclaimed (with_claim (some claim) r) ≡ r
unclaimed-with_claim r claim h =
    ap (λ (c : Option String). record r { execution_claim = c })
      (sym (no_claim r.execution_claim h))

pub transaction-ok :
    {A : Type 0} (w : World) (s t : Store) (v : A) (required : Bool)
    (action : Option Store → Result Blocked (Store × A))
    → valid_store w s ≡ true
    → action (some s) ≡ ok (t, v)
    → valid_store w t ≡ true
    → transaction w (holding s) required action ≡ (holding t, ok v)
unfolding transaction open_store check_result commit
transaction-ok w s t v required action h e k = rw (h, e, k) refl

is_task-In :
    (owner : String) (id : Option String) (r : Recovery) (s : Store)
    → select (is_task owner id) s ≡ r ∷ []
    → is_task owner id r ≡ true
is_task-In owner id r s h =
    (subst (λ (rs : List Recovery). All (λ x. is_task owner id x ≡ true) rs) h
      (select-All (is_task owner id) s)).0

is_task-with_claim :
    (owner : String) (id : Option String) (c : Option String) (r : Recovery)
    → is_task owner id (with_claim c r) ≡ is_task owner id r
unfolding is_task
is_task-with_claim owner none c r = refl
is_task-with_claim owner (some id) c r = refl

-- The store with the claimed record gives that record, and without the claim is the store before.
release_action-claimed :
    (d : Digests) (owner id token : String) (s : Store) (r : Recovery)
    → is_token token ≡ true
    → select_required s owner id ≡ ok r
    → is_claimed r.execution_claim ≡ false
    → release_action d owner id token
        (some (replace owner (some id) (with_claim (some (d.digest token)) r) s))
      ≡ ok (s, true)
unfolding release_action select_required select_record token_matches the_one
release_action-claimed d owner id token s r good found free =
    let claimed = with_claim (some (d.digest token)) r in
    let e = select_required-eq s owner id found in
    let one = select_record-eq s owner (some id) true r e in
    let mine =
      is_task-with_claim owner (some id) (some (d.digest token)) r
      ∙ is_task-In owner (some id) r s one in
    let (valid, _) =
      throw_if-eq-ok (not (safe_session owner) || id_is_bad (some id)) bad_id _
        (unfold select_record in e) in
    rw (valid, select-replace owner (some id) claimed s mine, one)
      (rw (good, eq_refl (d.digest token))
        (ap (λ (u : Store). ok (u, true))
          (ap (λ (x : Recovery). replace owner (some id) x (replace owner (some id) claimed s))
              (unclaimed-with_claim r (d.digest token) free)
            ∙ replace-replace owner (some id) claimed r s mine
            ∙ replace-same owner (some id) r s one)))

-- Releasing a task with the token of its claim gives back the store from before the claim.
pub release_task-claim_task :
    (w : World) (disk after : Disk) (owner id token : String) {v : Exposed}
    → is_token token ≡ true
    → claim_task w disk owner id token ≡ (after, ok v)
    → release_task w after owner id token ≡ (disk, ok true)
unfolding claim_task release_task
release_task-claim_task w disk after owner id token {v} good h = elim (Bool-cases (valid_id id)) [
  | inr k ↦ absurd (ok-ne-err _ _ (ap (λ q. q.1) (rw k at h)))
  | inl k ↦
      let (o, t, opened, done, sound, made) = transaction-eq-ok w disk true _ (rw k at h) in
      let (s, is_some, on_disk, valid) = open_store-required w disk o opened in
      let (r, found, free, _, written, _) = claims-eq s w.digests owner id token (
        subst (λ (x : Option Store). claim_action w.digests owner id token x ≡ ok (t, v)) is_some
          done) in
      rw (k, good)
        (subst₂
          (λ (before : Disk) (now : Disk).
            transaction w now true (release_action w.digests owner id token) ≡ (before, ok true))
          (sym on_disk) (sym made)
          (transaction-ok w t s true true (release_action w.digests owner id token) sound
            (ap (λ (x : Store). release_action w.digests owner id token (some x)) written
              ∙ release_action-claimed w.digests owner id token s r good found free)
            valid))
]
