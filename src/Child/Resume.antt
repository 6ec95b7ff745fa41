-- ===== src/Child/Resume.antt =====
-- nla-child-recovery.mjs: `recoverChildResult`. What the caller's signal, the compaction and the model
-- do while it runs is an argument; what it does and reports is a trace.
use next_level_agent.Base.{
  ℕ, ◌+◌, String, Bool, true, false, ◌&&◌, not, Option, none, some, List, [], ◌∷◌, ltb, leb, eqb,
  any, ◌==◌, if◌then◌else◌,
}
use next_level_agent.Base.Result.{Result, ok, err}

pub data Reason : Type 0 where
  context_limit output_limit empty_result : Reason

-- `recovery_failed`, `child_incomplete` are the errors with the code NLA_CHILD_INCOMPLETE.
pub data ChildError : Type 0 where
  aborted recovery_failed : ChildError
  child_incomplete : Reason → ChildError

-- The counts of a reply; a missing count is 0.
pub record Tokens : Type 0 where
  pub total : ℕ
  pub input : ℕ
  pub output : ℕ
  pub cache_read : ℕ
  pub cache_write : ℕ

-- A part of a reply: its type, and whether it has a text that is not blank.
pub record Part : Type 0 where
  pub kind : String
  pub has_text : Bool

-- A reply: the name of its error, why it ended, its tokens and its parts.
pub record Reply : Type 0 where
  pub error : Option String
  pub finish : String
  pub tokens : Tokens
  pub parts : List Part

unfoldable pub total_of : Tokens → ℕ
total_of t = if eqb t.total 0 then t.input + t.output + t.cache_read + t.cache_write else t.total

unfoldable pub has_text : List Part → Bool
has_text = any (λ (p : Part). p.kind == "text" && p.has_text)

unfoldable pub by_length : Tokens → ℕ → Option Reason
unfolding total_of
by_length t window =
    if ltb 0 window && leb window (total_of t) then some context_limit else some output_limit

unfoldable pub by_text : List Part → Option Reason
unfolding has_text
by_text parts = if has_text parts then none else some empty_result

unfoldable pub incomplete_child_result : Reply → ℕ → Option Reason
unfolding by_length by_text
incomplete_child_result r window = elim r.error [
  | some name ↦ if name == "ContextOverflowError" then some context_limit else none
  | none ↦ if r.finish == "length" then by_length r.tokens window else by_text r.parts
]

pub data Event : Type 0 where
  reported_incomplete reported_compacted reported_completed : Reason → Event
  compacts invokes : Event

-- Whether the signal is aborted at each check, whether the compaction succeeds, and the second reply,
-- `none` where the request fails.
pub record Course : Type 0 where
  pub at_start : Bool
  pub at_reason : Bool
  pub after_compaction : Bool
  pub after_reply : Bool
  pub at_catch : Bool
  pub compacted : Bool
  pub reply : Option Reply

-- What was done, and the reply or the error.
abbrev pub Run : Type 0
Run = List Event × Result ChildError Reply

-- What is thrown inside of `try`: an error of the recovery, or any other.
pub data Thrown : Type 0 where
  cancelled transport : Thrown
  still : Reason → Thrown

abbrev pub Attempted : Type 0
Attempted = List Event × Result Thrown Reply

unfoldable pub completed : Reason → Reply → List Event
completed reason r = elim r.error [ none ↦ reported_completed reason ∷ [] | some e ↦ [] ]

-- The second reply, after `invoke` was called.
unfoldable pub check_reply : Course → Reason → ℕ → Option Reply → Attempted
unfolding completed
check_reply c reason window none = ([], err transport)
check_reply c reason window (some r) =
    if c.after_reply then ([], err cancelled) else elim (incomplete_child_result r window) [
      | some remaining ↦ ([], err (still remaining))
      | none ↦ (completed reason r, ok r)
    ]

unfoldable pub invoke : Course → Reason → ℕ → Attempted
unfolding check_reply
invoke c reason window =
    let (events, result) = check_reply c reason window c.reply in (invokes ∷ events, result)

unfoldable pub compact : Course → Reason → ℕ → Attempted
unfolding invoke
compact c reason window =
    let (events, result) = invoke c reason window in
    if not c.compacted
    then (compacts ∷ [], err transport)
    else if c.after_compaction
    then (compacts ∷ [], err cancelled)
    else (compacts ∷ (reported_compacted reason ∷ events), result)

unfoldable pub needs_compaction : Reason → Bool
needs_compaction empty_result = false
needs_compaction _ = true

-- The body of `try`.
unfoldable pub attempt : Course → Reason → ℕ → Attempted
unfolding compact invoke needs_compaction
attempt c reason window =
    if c.at_reason
    then ([], err cancelled)
    else if needs_compaction reason
    then compact c reason window
    else invoke c reason window

-- The handler of `try`. The check of the signal comes first.
unfoldable pub caught : Course → Result Thrown Reply → Result ChildError Reply
caught c (ok r) = ok r
caught c (err e) = if c.at_catch then err aborted else elim e [
  | cancelled ↦ err recovery_failed
  | transport ↦ err recovery_failed
  | still reason ↦ err (child_incomplete reason)
]

unfoldable pub recover : Course → Reason → ℕ → Run
unfolding attempt caught
recover c reason window =
    let (events, result) = attempt c reason window in
    (reported_incomplete reason ∷ events, caught c result)

unfoldable pub recover_child_result : Reply → Course → ℕ → Run
unfolding recover incomplete_child_result
recover_child_result initial c window =
    if c.at_start then ([], err aborted) else elim (incomplete_child_result initial window) [
      | none ↦ ([], ok initial)
      | some reason ↦ recover c reason window
    ]
