-- ===== src/Replay/Decode.antt =====
-- What services/replay.py reads from the JSON of an audit event. Python's `int` and `UUID` of a
-- text are parameters; a negative number counts as 0.
use universal_agent_memory.Prelude.{
  ℕ, zero, suc, ◌+◌, min, ◌||◌, Option, none, some, List, [], ◌∷◌, ltb, if◌then◌else◌, ◌==◌, nat_eq,
  list_eq, length, take,
}
use universal_agent_memory.Text.{Text, text}
use universal_agent_memory.Domain.Errors.{Error, Result, ok, err, dependency_error, ◌>>=◌}
use universal_agent_memory.Domain.Json.{
  Json, null, boolean, number, str, arr, obj, Items, nil, cons, Fields, end, field,
}
use universal_agent_memory.Retrieval.Trace.{
  IndexFreshness, Stage, source_stage, fusion_stage, StepStatus, succeeded, degraded,
  RetrievalTraceStep, trace_post_init,
}

-- `row.get(key)`
unfoldable pub field_of : Text → Fields → Option Json
field_of key end = none
field_of key (field k v row) = let rest = field_of key row in if k == key then some v else rest

-- `_bounded_int`
unfoldable pub bounded_int : (Text → Option ℕ) → Option Json → ℕ
bounded_int int_of (some (number n)) = min n 1000000
bounded_int int_of (some (boolean b)) = if b then 1 else 0
bounded_int int_of (some (str s)) = elim (int_of s) [ none ↦ 0 | some n ↦ min n 1000000 ]
bounded_int int_of _ = 0

-- `_bounded_text`
unfoldable pub bounded_text : Text → Option Json → Text
bounded_text default (some (str s)) = take 256 s
bounded_text default _ = default

unfoldable pub freshness_of_fields : (Text → Option ℕ) → Fields → IndexFreshness
freshness_of_fields int_of value = record {
  active_memory_count = bounded_int int_of (field_of (text "active_memory_count") value);
  stale_memory_count = bounded_int int_of (field_of (text "stale_memory_count") value);
  unpublished_memory_count = bounded_int int_of (field_of (text "unpublished_memory_count") value);
  processing_memory_count = bounded_int int_of (field_of (text "processing_memory_count") value);
  dead_letter_memory_count = bounded_int int_of (field_of (text "dead_letter_memory_count") value);
  missing_delivery_memory_count =
      bounded_int int_of (field_of (text "missing_delivery_memory_count") value);
}

-- `_index_freshness`
unfoldable pub decode_freshness : (Text → Option ℕ) → Option Json → Option IndexFreshness
decode_freshness int_of (some (obj value)) = some (freshness_of_fields int_of value)
decode_freshness int_of _ = none

-- The first texts of a list, as `_text_tuple` takes them; `room` is what is left of 32.
unfoldable pub texts_of : ℕ → Items → List Text
texts_of zero items = []
texts_of (suc room) nil = []
texts_of (suc room) (cons row rows) = bounded_text (text "unknown") (some row) ∷ texts_of room rows

-- `_text_tuple`
unfoldable pub text_tuple : Option Json → List Text
text_tuple (some (arr rows)) = texts_of 32 rows
text_tuple _ = []

-- The loop of `_uuid_tuple`, with what is left of 1000; `uuid_of` is `UUID(str(row))`.
unfoldable pub uuids_of : (Json → Option ℕ) → ℕ → Items → List ℕ
uuids_of uuid_of zero items = []
uuids_of uuid_of (suc room) nil = []
uuids_of uuid_of (suc room) (cons row rows) =
    let rest = uuids_of uuid_of room rows in
    elim (uuid_of row) [ none ↦ rest | some id ↦ id ∷ rest ]

-- `_uuid_tuple`
unfoldable pub uuid_tuple : (Json → Option ℕ) → Option Json → List ℕ
uuid_tuple uuid_of (some (arr rows)) = uuids_of uuid_of 1000 rows
uuid_tuple uuid_of _ = []

-- A test for membership in a set, which raises for a list or a dictionary, since they have no hash.
abbrev pub unhashable : Error
unhashable = dependency_error (text "TypeError")

-- `stage not in {"source", "fusion"}` and `status not in {"succeeded", "degraded"}`
unfoldable pub stage_of : Option Json → Result (Option Stage)
stage_of (some (str s)) = ok (
    if s == text "source"
    then some source_stage
    else if s == text "fusion"
    then some fusion_stage
    else none)
stage_of (some (arr rows)) = err unhashable
stage_of (some (obj row)) = err unhashable
stage_of _ = ok none

unfoldable pub status_of : Option Json → Result (Option StepStatus)
status_of (some (str s)) = ok (
    if s == text "succeeded"
    then some succeeded
    else if s == text "degraded"
    then some degraded
    else none)
status_of (some (arr rows)) = err unhashable
status_of (some (obj row)) = err unhashable
status_of _ = ok none

-- `isinstance(name, str)`, not empty and of at most 64 characters
unfoldable pub name_of : Option Json → Option Text
name_of (some (str s)) = if s == [] || ltb 64 (length s) then none else some s
name_of _ = none

-- The error type, cut to 128 characters.
unfoldable pub error_type_of : Option Json → Option Text
error_type_of (some (str s)) = if s == [] then none else some (take 128 s)
error_type_of _ = none

abbrev pub ok_step : Result RetrievalTraceStep → Option RetrievalTraceStep
ok_step (err e) = none
ok_step (ok step) = some step

-- What follows the test of the stage and the status.
unfoldable pub checked_step :
    (Text → Option ℕ) → ℕ → Fields → Stage → StepStatus → Option RetrievalTraceStep
checked_step int_of index row stage status = elim (name_of (field_of (text "name") row)) [
  | none ↦ none
  | some name ↦ ok_step (
      trace_post_init (record {
        sequence = index;
        stage = stage;
        name = name;
        status = status;
        candidate_count = bounded_int int_of (field_of (text "candidate_count") row);
        accepted_count = bounded_int int_of (field_of (text "accepted_count") row);
        selected_count = bounded_int int_of (field_of (text "selected_count") row);
        error_type = error_type_of (field_of (text "error_type") row);
      }))
]

-- What follows the test of the stage.
unfoldable pub staged_step :
    (Text → Option ℕ) → ℕ → Fields → Stage → Option StepStatus → Option RetrievalTraceStep
unfolding checked_step
staged_step int_of index row stage none = none
staged_step int_of index row stage (some status) = checked_step int_of index row stage status

-- One round of `_retrieval_traversal`, for a row that is a dictionary.
unfoldable pub step_of : (Text → Option ℕ) → ℕ → Fields → Result (Option RetrievalTraceStep)
unfolding staged_step
step_of int_of index row = elim (stage_of (field_of (text "stage") row)) [
  | err e ↦ err e
  | ok none ↦ ok none
  | ok (some stage) ↦ do
    status ← status_of (field_of (text "status") row)
    ok (staged_step int_of index row stage status)
]

abbrev pub step_of_json : (Text → Option ℕ) → ℕ → Json → Result (Option RetrievalTraceStep)
step_of_json int_of index (obj row) = step_of int_of index row
step_of_json int_of index _ = ok none

abbrev pub add_step : Option RetrievalTraceStep → List RetrievalTraceStep → List RetrievalTraceStep
add_step none steps = steps
add_step (some step) steps = step ∷ steps

-- The loop of `_retrieval_traversal`, with what is left of 64 and the number of the next row.
unfoldable pub steps_of : (Text → Option ℕ) → ℕ → ℕ → Items → Result (List RetrievalTraceStep)
unfolding step_of
steps_of int_of zero index items = ok []
steps_of int_of (suc room) index nil = ok []
steps_of int_of (suc room) index (cons row rows) =
    let rest = steps_of int_of room (index + 1) rows in
    do step ← step_of_json int_of index row; steps ← rest; ok (add_step step steps)

-- `_retrieval_traversal`
unfoldable pub retrieval_traversal :
    (Text → Option ℕ) → Option Json → Result (List RetrievalTraceStep)
retrieval_traversal int_of (some (arr rows)) = steps_of int_of 64 1 rows
retrieval_traversal int_of _ = ok []

abbrev pub stage_value : Stage → Text
stage_value source_stage = text "source"
stage_value fusion_stage = text "fusion"

abbrev pub status_value : StepStatus → Text
status_value succeeded = text "succeeded"
status_value degraded = text "degraded"

abbrev pub text_or_null : Option Text → Json
text_or_null none = null
text_or_null (some s) = str s

-- `asdict(step)`, as the recall route writes it into its audit event.
unfoldable pub fields_of_step : RetrievalTraceStep → Fields
fields_of_step step = field (text "sequence") (number step.sequence) (
    field (text "stage") (str (stage_value step.stage)) (
      field (text "name") (str step.name) (
        field (text "status") (str (status_value step.status)) (
          field (text "candidate_count") (number step.candidate_count) (
            field (text "accepted_count") (number step.accepted_count) (
              field (text "selected_count") (number step.selected_count)
                (field (text "error_type") (text_or_null step.error_type) end)))))))

-- `[asdict(step) for step in result.traversal]`
unfoldable pub json_of_steps : List RetrievalTraceStep → Items
json_of_steps [] = nil
json_of_steps (step ∷ steps) = cons (obj (fields_of_step step)) (json_of_steps steps)
