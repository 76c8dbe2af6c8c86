-- ===== src/Replay/RoundTrip.antt =====
-- Proofs on the traversal of a replay.
use universal_agent_memory.Prelude.{
  ℕ, zero, suc, ◌+◌, ◌≤◌, ◌≡◌, refl, sym, ap, ◌∙◌, false, Option, none, some, List, [], ◌∷◌, arith,
  ltb, ◌==◌, nat_eq, list_eq, length, take, All,
}
use universal_agent_memory.Text.{Text, text}
use universal_agent_memory.Domain.Errors.{ok}
use universal_agent_memory.Domain.Json.{str, number, arr}
use universal_agent_memory.Retrieval.Trace.{
  Stage, source_stage, fusion_stage, StepStatus, succeeded, degraded, RetrievalTraceStep,
  bad_error_type, trace_post_init,
}
use universal_agent_memory.Replay.Decode.{
  field_of, bounded_int, stage_of, status_of, name_of, error_type_of, checked_step, staged_step,
  step_of, steps_of, retrieval_traversal, stage_value, status_value, text_or_null, fields_of_step,
  json_of_steps,
}

take_of_le : (n : ℕ) (s : Text) → length s ≤ n → take n s ≡ s
take_of_le zero [] h = refl
take_of_le zero (c ∷ s) h = absurd (omega arith)
take_of_le (suc n) [] h = refl
take_of_le (suc n) (c ∷ s) h = ap (◌∷◌ c) (take_of_le n s (omega arith))

-- What the constructor has tested.
abbrev Tested : RetrievalTraceStep → Type 0
Tested step =
    ((step.name == []) ≡ false)
    × (ltb 64 (length step.name) ≡ false)
    × (step.candidate_count ≤ 1000000)
    × (step.accepted_count ≤ 1000000)
    × (step.selected_count ≤ 1000000)
    × (bad_error_type step.error_type ≡ false)

post_init-Tested : (step : RetrievalTraceStep) → trace_post_init step ≡ ok step → Tested step
unfolding trace_post_init
post_init-Tested step h = (
  ground (arith, h),
  ground (arith, h),
  ground (arith, h),
  ground (arith, h),
  ground (arith, h),
  ground (arith, h),
)

name_of-tested :
    (name : Text)
    → (name == []) ≡ false
    → ltb 64 (length name) ≡ false
    → name_of (some (str name)) ≡ some name
unfolding name_of
name_of-tested name p q = rw (p, q) refl

error_type_of-tested :
    (o : Option Text) → bad_error_type o ≡ false → error_type_of (some (text_or_null o)) ≡ o
unfolding error_type_of
error_type_of-tested none h = refl
error_type_of-tested (some s) h =
    let p : (s == []) ≡ false = ground (arith, h) in
    let q : length s ≤ 128 = ground (arith, h) in rw (p, take_of_le 128 s q) refl

bounded_int-number :
    (int_of : Text → Option ℕ) (n : ℕ) → n ≤ 1000000 → bounded_int int_of (some (number n)) ≡ n
unfolding bounded_int
bounded_int-number int_of n h = omega arith

stage_of-value : (stage : Stage) → stage_of (some (str (stage_value stage))) ≡ ok (some stage)
unfolding stage_of
stage_of-value source_stage = refl
stage_of-value fusion_stage = refl

status_of-value :
    (status : StepStatus) → status_of (some (str (status_value status))) ≡ ok (some status)
unfolding status_of
status_of-value succeeded = refl
status_of-value degraded = refl

checked_step-fields :
    (int_of : Text → Option ℕ) (step : RetrievalTraceStep)
    → trace_post_init step ≡ ok step
    → checked_step int_of step.sequence (fields_of_step step) step.stage step.status ≡ some step
unfolding checked_step fields_of_step field_of
checked_step-fields int_of step h =
    let (p, q, c, a, t, e) = post_init-Tested step h in
    rw
      (
        name_of-tested step.name p q,
        checked_step,
        bounded_int-number int_of step.candidate_count c,
        bounded_int-number int_of step.accepted_count a,
        bounded_int-number int_of step.selected_count t,
        error_type_of-tested step.error_type e,
        h,
      )
      refl

step_of-fields :
    (int_of : Text → Option ℕ) (step : RetrievalTraceStep)
    → trace_post_init step ≡ ok step
    → step_of int_of step.sequence (fields_of_step step) ≡ ok (some step)
unfolding step_of staged_step
step_of-fields int_of step h =
    let stage : stage_of (field_of (text "stage") (fields_of_step step)) ≡ ok (some step.stage) =
      (unfold fields_of_step in unfold field_of in stage_of-value step.stage) in
    let status : status_of (field_of (text "status") (fields_of_step step))
        ≡ ok (some step.status) =
      (unfold fields_of_step in unfold field_of in status_of-value step.status) in
    rw (stage, step_of, status) (ap ok (checked_step-fields int_of step h))

-- The steps are numbered from `index` on.
abbrev pub IsNumbered : ℕ → List RetrievalTraceStep → Type 0
IsNumbered index [] = Unit
IsNumbered index (step ∷ steps) = (step.sequence ≡ index) × IsNumbered (index + 1) steps

steps_of-json :
    (int_of : Text → Option ℕ) (room index : ℕ) (steps : List RetrievalTraceStep)
    → length steps ≤ room
    → IsNumbered index steps
    → All (λ step. trace_post_init step ≡ ok step) steps
    → steps_of int_of room index (json_of_steps steps) ≡ ok steps
unfolding steps_of json_of_steps
steps_of-json int_of zero index [] h n v = refl
steps_of-json int_of (suc room) index [] h n v = refl
steps_of-json int_of zero index (step ∷ steps) h n v = absurd (omega arith)
steps_of-json int_of (suc room) index (step ∷ steps) h n v =
    let one : step_of int_of index (fields_of_step step) ≡ ok (some step) =
      ap (λ i. step_of int_of i (fields_of_step step)) (sym n.0) ∙ step_of-fields int_of step v.0 in
    rw (one, steps_of-json int_of room (index + 1) steps (omega (arith, h)) n.1 v.1) refl

-- A traversal of at most 64 steps that the constructor accepts, numbered from 1 on, is what a
-- replay reads from the JSON that the recall has written into its audit event.
pub retrieval_traversal-json :
    (int_of : Text → Option ℕ) (steps : List RetrievalTraceStep)
    → length steps ≤ 64
    → IsNumbered 1 steps
    → All (λ step. trace_post_init step ≡ ok step) steps
    → retrieval_traversal int_of (some (arr (json_of_steps steps))) ≡ ok steps
unfolding retrieval_traversal
retrieval_traversal-json int_of steps h n v = steps_of-json int_of 64 1 steps h n v
