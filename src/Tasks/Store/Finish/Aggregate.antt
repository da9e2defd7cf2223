-- ===== src/Tasks/Store/Finish/Aggregate.antt =====
-- The input of a joined parent: `aggregate` in vyuh/src/tasks/store/memory/workflow.rs and
-- `append_result` in store/transitions.rs.
use Prim.Native.String.{len, ◌++◌ as text_append}
use text.Mathlib.TextPositions.{len-append}
use vyuh.Prelude.{
  ℕ, ◌+◌, ◌≤◌, ◌≡◌, String, Bool, true, false, Option, none, some, List, [], ◌∷◌, ltb,
  if◌then◌else◌, not, Bool-cases, inl, inr, arith,
}
use vyuh.Prelude.Int.{eqb_ℤ, pos}
use vyuh.Tasks.Externals.{Externals}
use vyuh.Tasks.Types.{TaskRecord}
use vyuh.Tasks.Result.{result_limit, failure}
use vyuh.Tasks.Result.Failure.{TextLaws, failure-Enveloped}
use vyuh.Tasks.Store.State.{TaskWait}
use vyuh.Tasks.Store.Commit.{Appended, appended, refused, append_result, valid_envelope}
use vyuh.Tasks.Store.Finish.{member_result, member_terminal, append_members, aggregate}

-- A buffer that leaves room for the closing brackets.
abbrev Roomy : Appended → Type 0
Roomy (appended buffer) = len buffer + 2 ≤ result_limit
Roomy (refused message) = Unit

module _ (x : Externals) where
  roomy :
      (bad : Bool) (size : ℕ) (extended : String)
      → len extended + 2 ≡ size
      → Roomy (
          if bad
          then refused "All child result is malformed"
          else if ltb result_limit size
          then refused "All results exceed the 32768-byte resume limit"
          else appended extended)
  roomy true size extended e = tt
  roomy false size extended e = elim (Bool-cases (ltb result_limit size)) [
    | inl f ↦ rw f tt
    | inr f ↦ rw f (ground (arith, e, f))
  ]

  append_result-Roomy :
      (buffer : String) (result : Option String) (terminal : Bool)
      → Roomy (append_result x buffer result terminal)
  unfolding append_result
  append_result-Roomy buffer none terminal = tt
  append_result-Roomy buffer (some result) false = tt
  append_result-Roomy buffer (some result) true =
      let separator : String = if ltb 7 (len buffer) then "," else "" in
      let size = len-append buffer (text_append separator result) in
      roomy (not (valid_envelope x result)) (len buffer + len separator + len result + 2) _
        (omega (arith, size, len-append separator result))

module _ (x : Externals) (laws : TextLaws x) where
  append_members-le :
      (tasks : List TaskRecord) (parent : ℕ) (ids : List ℕ) (buffer : String)
      → len buffer + 2 ≤ result_limit
      → len (append_members x tasks parent ids buffer) ≤ result_limit
  unfolding append_members
  append_members-le tasks parent [] buffer h = omega (arith, len-append buffer "]}")
  append_members-le tasks parent (id ∷ ids) buffer h =
      next (λ b k. append_members-le tasks parent ids b k) _
        (append_result-Roomy x buffer (member_result x tasks id) (member_terminal x tasks id))
    where
      next :
          ((b : String)
            → len b + 2 ≤ result_limit
            → len (append_members x tasks parent ids b) ≤ result_limit)
          → (a : Appended) → Roomy a
          → len (elim a as (λ _. String) [
            | refused message ↦ failure x parent message
            | appended buffer' ↦ append_members x tasks parent ids buffer'
          ])
            ≤ result_limit
      next later (refused message) k = (failure-Enveloped x laws parent message).within
      next later (appended buffer') k = later buffer' k

  -- The input that a joined parent is given, whether it holds the results of all members or tells
  -- why they cannot be joined, is never longer than the limit on stored results.
  pub aggregate-le :
      (tasks : List TaskRecord) (parent : ℕ) (wait : TaskWait)
      → len (aggregate x tasks parent wait) ≤ result_limit
  unfolding aggregate
  aggregate-le tasks parent wait =
      elim (Bool-cases (not (eqb_ℤ wait.remaining_completions (pos 0)))) [
        | inl e ↦
            rw (e, aggregate)
              ((failure-Enveloped x laws parent "All claimed before completion").within)
        | inr e ↦ rw (e, aggregate) (append_members-le tasks parent wait.children _ (omega arith))
      ]
