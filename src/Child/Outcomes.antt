-- ===== src/Child/Outcomes.antt =====
-- What a recovery of a child can end in.
use next_level_agent.Base.{
  ℕ, ◌≡◌, ◌⊎◌, ◌↔◌, refl, ap, subst, Bool, true, false, not, ◌||◌, Option, none, some, List, [],
  ◌∷◌, ◌++◌, Bool-cases, Option-cases, if◌then◌else◌, if_either, inl, inr, arith,
}
use next_level_agent.Base.Result.{Result, ok, err, ok_injective}
use next_level_agent.Child.Resume.{
  Reason, empty_result, context_limit, output_limit, aborted, still, recovery_failed,
  child_incomplete, transport, cancelled, Reply, Event, reported_incomplete, reported_compacted,
  reported_completed, compacts, invokes, Course, Thrown, Attempted, incomplete_child_result,
  completed, check_reply, invoke, compact, attempt, caught, recover, recover_child_result,
  needs_compaction,
}

check_reply-late :
    (c : Course) (reason : Reason) (window : ℕ) (o : Option Reply) {r : Reply}
    → c.after_reply ≡ true
    → (check_reply c reason window o).1 ≡ ok r
    → ⊥
unfolding check_reply
check_reply-late c reason window none late h = cc
check_reply-late c reason window (some s) late h = let k = rw late at h in cc

attempt-late :
    (c : Course) (reason : Reason) (window : ℕ) {r : Reply}
    → c.after_reply ≡ true
    → (attempt c reason window).1 ≡ ok r
    → ⊥
unfolding attempt compact invoke
attempt-late c reason window late h = ground (arith, check_reply-late c reason window c.reply)

caught-late :
    (c : Course) (t : Result Thrown Reply)
    → c.at_catch ≡ true
    → ((r : Reply) → t ≡ ok r → ⊥)
    → caught c t ≡ err aborted
unfolding caught
caught-late c (ok r) end never = absurd (never r refl)
caught-late c (err e) end never = rw end refl

or_false : (a b : Bool) → (a || b) ≡ false → (a ≡ false) × (b ≡ false)
or_false true b h = cc
or_false false b h = (refl, h)

-- If the caller has given up by the time of the second reply, an incomplete reply is never replaced:
-- the recovery ends in the error of the abort.
pub recover_child_result-aborted :
    (initial : Reply) (c : Course) (window : ℕ) {reason : Reason}
    → incomplete_child_result initial window ≡ some reason
    → c.after_reply ≡ true
    → c.at_catch ≡ true
    → (recover_child_result initial c window).1 ≡ err aborted
unfolding recover_child_result recover
recover_child_result-aborted initial c window {reason} h late end = elim (Bool-cases c.at_start) [
  | inl b ↦ rw b refl
  | inr b ↦ rw (b, h) (caught-late c _ end (λ r. attempt-late c reason window late))
]

abbrev after_report : Reason → List Event
after_report reason =
    (if needs_compaction reason then compacts ∷ reported_compacted reason ∷ [] else [])
    ++ (invokes ∷ reported_completed reason ∷ [])

-- The whole course of a recovery that succeeds.
abbrev pub protocol : Reason → List Event
protocol reason = reported_incomplete reason ∷ after_report reason

abbrev pub IsStartOf : List Event → List Event → Type 0
IsStartOf xs ys = (rest : List Event) × (xs ++ rest ≡ ys)

completed-IsStartOf :
    (reason : Reason) (r : Reply) → IsStartOf (completed reason r) (reported_completed reason ∷ [])
unfolding completed
completed-IsStartOf reason r = elim (Option-cases r.error) [
  | inl e ↦ rw e ([], refl)
  | inr (name, e) ↦ rw e (reported_completed reason ∷ [], refl)
]

module _ (c : Course) (reason : Reason) (window : ℕ) where
  check_reply-IsStartOf :
      (o : Option Reply)
      → IsStartOf (check_reply c reason window o).0 (reported_completed reason ∷ [])
  unfolding check_reply
  check_reply-IsStartOf none = (reported_completed reason ∷ [], refl)
  check_reply-IsStartOf (some r) = elim (Bool-cases c.after_reply) [
    | inl b ↦ rw b (reported_completed reason ∷ [], refl)
    | inr b ↦ elim (Option-cases (incomplete_child_result r window)) [
      | inl e ↦ rw (b, e) (completed-IsStartOf reason r)
      | inr (remaining, e) ↦ rw (b, e) (reported_completed reason ∷ [], refl)
    ]
  ]

  abbrev invoked : List Event
  invoked = invokes ∷ reported_completed reason ∷ []

  invoke-IsStartOf : IsStartOf (invoke c reason window).0 invoked
  unfolding invoke
  invoke-IsStartOf = let (rest, e) = check_reply-IsStartOf c.reply in (rest, ap (◌∷◌ invokes) e)

  abbrev compacted_first : List Event
  compacted_first = compacts ∷ reported_compacted reason ∷ invoked

  compact-IsStartOf : IsStartOf (compact c reason window).0 compacted_first
  unfolding compact
  compact-IsStartOf =
      let (rest, e) = invoke-IsStartOf in
      if_either (λ (a : Attempted). IsStartOf a.0 compacted_first) (not c.compacted)
        (compacts ∷ [], err transport) _ (reported_compacted reason ∷ invoked, refl)
        (if_either (λ (a : Attempted). IsStartOf a.0 compacted_first) c.after_compaction
          (compacts ∷ [], err cancelled)
          (
            compacts ∷ (reported_compacted reason ∷ (invoke c reason window).0),
            (invoke c reason window).1,
          )
          (reported_compacted reason ∷ invoked, refl)
          (rest, ap (λ es. compacts ∷ reported_compacted reason ∷ es) e))

  recover-IsStartOf : IsStartOf (recover c reason window).0 (protocol reason)
  unfolding recover attempt
  recover-IsStartOf = elim (Bool-cases c.at_reason) [
    | inl b ↦ rw b (after_report reason, refl)
    | inr b ↦ elim (Bool-cases (needs_compaction reason)) [
      | inl n ↦
          let (rest, e) = compact-IsStartOf in
          rw (b, n) (rest, ap (◌∷◌ (reported_incomplete reason)) e)
      | inr n ↦
          let (rest, e) = invoke-IsStartOf in
          rw (b, n) (rest, ap (◌∷◌ (reported_incomplete reason)) e)
    ]
  ]

-- What the recovery of an incomplete reply does is a start of one protocol: report, compact if the
-- reason asks for it, invoke the model once, report completion.
pub recover_child_result-IsStartOf :
    (initial : Reply) (c : Course) (window : ℕ) {reason : Reason}
    → incomplete_child_result initial window ≡ some reason
    → IsStartOf (recover_child_result initial c window).0 (protocol reason)
unfolding recover_child_result
recover_child_result-IsStartOf initial c window {reason} h = elim (Bool-cases c.at_start) [
  | inl b ↦ rw b (protocol reason, refl)
  | inr b ↦ rw (b, h) (recover-IsStartOf c reason window)
]

-- Where the second reply of a recovery is taken: no signal has fired where the code looks at it, the
-- compaction succeeded unless the result was merely empty, and the reply is complete.
pub record IsTaken (c : Course) (reason : Reason) (window : ℕ) (r : Reply) : Type 0 where
  pub at_start : c.at_start ≡ false
  pub at_reason : c.at_reason ≡ false
  pub compaction : (reason ≡ empty_result) ⊎ ((c.compacted ≡ true) × (c.after_compaction ≡ false))
  pub reply : c.reply ≡ some r
  pub after_reply : c.after_reply ≡ false
  pub complete : incomplete_child_result r window ≡ none

check_reply-ok :
    (c : Course) (reason : Reason) (window : ℕ) (o : Option Reply) {r : Reply}
    → (check_reply c reason window o).1 ≡ ok r
    → (o ≡ some r) × (c.after_reply ≡ false) × (incomplete_child_result r window ≡ none)
unfolding check_reply
check_reply-ok c reason window none h = cc
check_reply-ok c reason window (some s) {r} h = elim (Bool-cases c.after_reply) [
  | inl e ↦ let k = rw e at h in cc
  | inr e ↦
      let k = rw e at h in
      elim (Option-cases (incomplete_child_result s window)) [
        | inl n ↦
            let same : s ≡ r = ok_injective (rw n at k) in
            (ap some same, e, subst (λ q. incomplete_child_result q window ≡ none) same n)
        | inr (remaining, n) ↦ let l = rw n at k in cc
      ]
]

caught-ok : (c : Course) (x : Result Thrown Reply) {r : Reply} → caught c x ≡ ok r → x ≡ ok r
unfolding caught
caught-ok c (ok s) h = cc
caught-ok c (err e) h = elim (Bool-cases c.at_catch) [
  | inl b ↦ let k = rw b at h in cc
  | inr b ↦ let k = rw b at h in absurd (not_caught e k)
]
  where
    not_caught :
        (e : Thrown) {r : Reply}
        → elim e [
          | cancelled ↦ err recovery_failed
          | transport ↦ err recovery_failed
          | still reason ↦ err (child_incomplete reason)
        ]
          ≡ ok r
        → ⊥
    not_caught cancelled h = cc
    not_caught transport h = cc
    not_caught (still reason) h = cc

compact-ok :
    (c : Course) (reason : Reason) (window : ℕ) {r : Reply}
    → (compact c reason window).1 ≡ ok r
    → (c.compacted ≡ true) × (c.after_compaction ≡ false) × ((invoke c reason window).1 ≡ ok r)
unfolding compact
compact-ok c reason window h = elim (Bool-cases c.compacted) [
  | inl b ↦
      let k = rw b at h in
      elim (Bool-cases c.after_compaction) [
        | inl d ↦ let l = rw d at k in cc
        | inr d ↦ (b, d, rw d at k)
      ]
  | inr b ↦ let k = rw b at h in cc
]

needs_compaction-false : (reason : Reason) → needs_compaction reason ≡ false → reason ≡ empty_result
unfolding needs_compaction
needs_compaction-false empty_result h = refl
needs_compaction-false context_limit h = cc
needs_compaction-false output_limit h = cc

attempt-IsTaken :
    (c : Course) (reason : Reason) (window : ℕ) {r : Reply}
    → c.at_start ≡ false
    → (attempt c reason window).1 ≡ ok r
    → IsTaken c reason window r
unfolding attempt invoke
attempt-IsTaken c reason window start h = elim (Bool-cases c.at_reason) [
  | inl a ↦ let k = rw a at h in cc
  | inr a ↦
      let k = rw a at h in
      elim (Bool-cases (needs_compaction reason)) [
        | inl n ↦
            let (compacted, after, l) = compact-ok c reason window (rw n at k) in
            let (reply, late, complete) = check_reply-ok c reason window c.reply l in
            record {
              at_start = start;
              at_reason = a;
              compaction = inr (compacted, after);
              reply = reply;
              after_reply = late;
              complete = complete;
            }
        | inr n ↦
            let (reply, late, complete) = check_reply-ok c reason window c.reply (rw n at k) in
            record {
              at_start = start;
              at_reason = a;
              compaction = inl (needs_compaction-false reason n);
              reply = reply;
              after_reply = late;
              complete = complete;
            }
      ]
]

IsTaken-attempt :
    (c : Course) (reason : Reason) (window : ℕ) (r : Reply)
    → IsTaken c reason window r
    → (attempt c reason window).1 ≡ ok r
unfolding attempt compact invoke check_reply needs_compaction
IsTaken-attempt c reason window r t = elim t.compaction [
  | inl e ↦ rw (t.at_reason, e, t.reply, t.after_reply, t.complete) refl
  | inr (b, d) ↦ elim (Bool-cases (needs_compaction reason)) [
    | inl n ↦ rw (t.at_reason, n, b, d, t.reply, t.after_reply, t.complete) refl
    | inr n ↦ rw (t.at_reason, n, t.reply, t.after_reply, t.complete) refl
  ]
]

-- After an incomplete reply, the recovery returns a reply exactly when it is the second one, complete,
-- no signal has fired at the start, at the reason and after the reply, and, unless the first reply was
-- merely empty, the compaction succeeded with no signal after it.
pub recover_child_result_ok :
    (initial : Reply) (c : Course) (window : ℕ) (r : Reply) {reason : Reason}
    → incomplete_child_result initial window ≡ some reason
    → ((recover_child_result initial c window).1 ≡ ok r) ↔ IsTaken c reason window r
unfolding recover_child_result recover
recover_child_result_ok initial c window r {reason} h = (there, back)
  where
    there : (recover_child_result initial c window).1 ≡ ok r → IsTaken c reason window r
    there k = elim (Bool-cases c.at_start) [
      | inl s ↦ let l = rw s at k in cc
      | inr s ↦
          attempt-IsTaken c reason window s
            (caught-ok c (attempt c reason window).1 (rw h at (rw s at k)))
    ]

    back : IsTaken c reason window r → (recover_child_result initial c window).1 ≡ ok r
    back t = rw (t.at_start, h) (ap (caught c) (IsTaken-attempt c reason window r t))
