-- ===== src/Retrieval/Telemetry.antt =====
-- Proofs on the bounds of the retrieval telemetry: its names, its groups and its steps.
use universal_agent_memory.Prelude.{
  ℕ, ◌+◌, ◌≤◌, ◌≡◌, refl, ◌⊎◌, inl, inr, false, none, some, List, [], ◌∷◌, ◌++◌, arith, ltb, ◌==◌,
  list_eq, nat_eq, length, take, Bool-cases, length-take, length-append,
}
use universal_agent_memory.Text.{Text, text, strip}
use universal_agent_memory.Dict
use universal_agent_memory.Dict.{Dict, values, length-values}
use universal_agent_memory.Domain.Errors.{ok}
use universal_agent_memory.Context.{Candidate}
use universal_agent_memory.Retrieval.Trace.{
  RetrievalTraceStep, or_text, trace_name, trace_error_type, trace_post_init, trace_if_room,
}
use universal_agent_memory.Retrieval.Sources.{RecallQuery}
use universal_agent_memory.Retrieval.Groups.{
  is_admitted, Group, add_to_group, group_candidate, group_all,
}

length-put : {V : Type 0} (k : ℕ) (v : V) (d : Dict ℕ V) → length (Dict.put k v d) ≤ length d + 1
unfolding Dict.put
length-put k v [] = omega arith
length-put k v ((j, w) ∷ d) = ground (arith, length-put k v d)

pub length-group_all :
    (query : RecallQuery) (cs : List Candidate) (grouped : Dict ℕ Group)
    → length (group_all query cs grouped) ≤ length grouped + length cs
unfolding group_all group_candidate
length-group_all query [] grouped = omega arith
length-group_all query (c ∷ cs) grouped = elim (Bool-cases (is_admitted query c)) [
  | inl e ↦
      rw (e, group_all)
        (omega (
          arith,
          length-group_all query cs (group_candidate c grouped),
          length-put c.item.id (add_to_group c (Dict.get c.item.id grouped)) grouped,
        ))
  | inr e ↦ rw (e, group_all) (omega (arith, length-group_all query cs grouped))
]

abbrev IsBounded : ℕ → Text → Type 0
IsBounded bound s = (1 ≤ length s) × (length s ≤ bound)

or_text-IsBounded :
    (bound : ℕ) (s other : Text)
    → length s ≤ bound
    → IsBounded bound other
    → IsBounded bound (or_text s other)
or_text-IsBounded bound [] other h k = k
or_text-IsBounded bound (c ∷ s) other h k = (omega arith, h)

pub trace_name-IsBounded : (value : Text) → IsBounded 64 (trace_name value)
unfolding trace_name
trace_name-IsBounded value =
    or_text-IsBounded 64 (take 64 (strip value)) (text "unknown-source")
      (omega (arith, length-take 64 (strip value))) (omega arith, omega arith)

pub trace_error_type-IsBounded : (value : Text) → IsBounded 128 (trace_error_type value)
unfolding trace_error_type
trace_error_type-IsBounded value =
    or_text-IsBounded 128 (take 128 (strip value)) (text "DependencyError")
      (omega (arith, length-take 128 (strip value))) (omega arith, omega arith)

not_empty :
    (bound : ℕ) (s : Text)
    → IsBounded bound s
    → ((s == []) ≡ false) × (ltb bound (length s) ≡ false)
not_empty bound [] h = absurd (omega (arith, h.0))
not_empty bound (c ∷ s) h = (refl, ground (arith, h.1))

-- A step that the constructor accepts.
pub post_init-ok :
    (step : RetrievalTraceStep)
    → 1 ≤ step.sequence
    → step.sequence ≤ 64
    → IsBounded 64 step.name
    → step.candidate_count ≤ 1000000
    → step.accepted_count ≤ 1000000
    → step.selected_count ≤ 1000000
    → (step.error_type ≡ none) ⊎ ((t : Text) × (step.error_type ≡ some t) × IsBounded 128 t)
    → trace_post_init step ≡ ok step
unfolding trace_post_init
post_init-ok step a b n c d e (inl q) =
    let (p, r) = not_empty 64 step.name n in ground (arith, a, b, p, r, c, d, e, q)
post_init-ok step a b n c d e (inr (t, q, w)) =
    let (p, r) = not_empty 64 step.name n in
    let (x, y) = not_empty 128 t w in ground (arith, a, b, p, r, c, d, e, q, x, y)

pub trace_if_room-ok :
    (step : RetrievalTraceStep) (traversal : List RetrievalTraceStep)
    → length traversal ≤ 63
    → (length traversal + 1 ≤ 64 → trace_post_init step ≡ ok step)
    → (next : List RetrievalTraceStep) × (trace_if_room step traversal ≡ ok next)
      × (length next ≤ 63)
unfolding trace_if_room
trace_if_room-ok step traversal h checks = elim (Bool-cases (ltb (length traversal) 63)) [
  | inl e ↦ (
    traversal ++ (step ∷ []),
    rw (e, checks (omega arith)) refl,
    ground (arith, length-append traversal (step ∷ []), e),
  )
  | inr e ↦ (traversal, rw e refl, h)
]

-- The source returns, or the service does not require it.
