-- ===== src/Recovery/Selected.antt =====
-- nla-browser-recovery.mjs: which records of a store a call finds and replaces.
use next_level_agent.Base.{
  ◌≡◌, refl, sym, ap, String, Bool, true, false, Option, none, some, List, [], ◌∷◌, ◌++◌, inl, inr,
  In, select, ◌∙◌, if_either, Bool-cases, eq_refl,
}
use next_level_agent.Base.Result.{ok, >>=-eq-ok, throw_if-eq-ok}
use next_level_agent.Recovery.Store.{
  Recovery, Store, is_task, the_one, select_record, select_required, replace, must_be,
}

-- The record of a call is the task that the call names.
pub is_task_self : (r : Recovery) → is_task r.owner (some r.task_id) r ≡ true
unfolding is_task
is_task_self r = rw (eq_refl r.owner, eq_refl r.task_id) refl

pub In-select :
    {A : Type 0} (p : A → Bool) (a : A) (xs : List A) → In a xs → p a ≡ true → In a (select p xs)
In-select p a [] h k = h
In-select p a (x ∷ xs) (inl e) k = rw (sym (ap p e) ∙ k) (inl e)
In-select p a (x ∷ xs) (inr m) k =
    if_either (In a) (p x) (x ∷ select p xs) (select p xs) (inr (In-select p a xs m k))
      (In-select p a xs m k)

the_one-In :
    (required : Bool) (r found : Recovery) (rs : List Recovery)
    → the_one required rs ≡ ok (some found)
    → In r rs
    → r ≡ found
unfolding the_one
the_one-In required r found [] h m = absurd m
the_one-In required r found (x ∷ []) h (inl e) = cc
the_one-In required r found (x ∷ []) h (inr m) = absurd m
the_one-In required r found (x ∷ (y ∷ rs)) h m = cc

-- A call that finds a record finds each record that it names: there is no other.
pub select_record-In :
    (s : Store) (owner : String) (id : Option String) (required : Bool) (r : Recovery)
    {found : Recovery}
    → select_record s owner id required ≡ ok (some found)
    → In r s
    → is_task owner id r ≡ true
    → r ≡ found
unfolding select_record
select_record-In s owner id required r {found} h m k =
    the_one-In required r found (select (is_task owner id) s) (throw_if-eq-ok _ _ _ h).1
      (In-select (is_task owner id) r s m k)

must_be-eq : (o : Option Recovery) {found : Recovery} → must_be o ≡ ok found → o ≡ some found
must_be-eq none h = cc
must_be-eq (some r) h = cc

pub select_required-eq :
    (s : Store) (owner id : String) {found : Recovery}
    → select_required s owner id ≡ ok found
    → select_record s owner (some id) true ≡ ok (some found)
unfolding select_required
select_required-eq s owner id h =
    let (o, e, k) = >>=-eq-ok (select_record s owner (some id) true) must_be h in
    e ∙ ap ok (must_be-eq o k)

-- Records that a call does not name stay.
pub In-replace :
    (owner : String) (id : Option String) (new r : Recovery) (s : Store)
    → In r s
    → is_task owner id r ≡ false
    → In r (replace owner id new s)
unfolding replace
In-replace owner id new r [] m k = m
In-replace owner id new r (x ∷ xs) (inl e) k = rw (sym (ap (is_task owner id) e) ∙ k) (inl e)
In-replace owner id new r (x ∷ xs) (inr m) k =
    let rest = In-replace owner id new r xs m k in
    if_either (In r) (is_task owner id x) (new ∷ _) (x ∷ _) (inr rest) (inr rest)

the_one-none :
    (required : Bool) (r : Recovery) (rs : List Recovery)
    → the_one required rs ≡ ok none
    → ¬ In r rs
unfolding the_one
the_one-none required r [] h m = m
the_one-none required r (x ∷ []) h m = cc
the_one-none required r (x ∷ (y ∷ rs)) h m = cc

-- A call that finds no record names none of the store.
pub select_record-none :
    (s : Store) (owner : String) (id : Option String) (required : Bool) (r : Recovery)
    → select_record s owner id required ≡ ok none
    → In r s
    → is_task owner id r ≡ false
unfolding select_record
select_record-none s owner id required r h m = elim (Bool-cases (is_task owner id r)) [
  | inl e ↦
      absurd (
        the_one-none required r _ (throw_if-eq-ok _ _ _ h).1 (In-select (is_task owner id) r s m e))
  | inr e ↦ e
]

pub In-append_left : {A : Type 0} (a : A) (xs ys : List A) → In a xs → In a (xs ++ ys)
In-append_left a [] ys m = absurd m
In-append_left a (x ∷ xs) ys (inl e) = inl e
In-append_left a (x ∷ xs) ys (inr m) = inr (In-append_left a xs ys m)
