-- ===== src/Workers/Ready.antt =====
-- Proofs on the readiness of workers.
use universal_agent_memory.Prelude.{
  ℕ, ◌-◌, ◌≡◌, refl, inl, inr, Bool, true, ◌&&◌, List, [], ◌∷◌, map, ltb, eqb, ◌==◌, nat_eq,
  list_eq, filter, any, all, count, arith, Bool-cases, beq_refl, beq→eq, All, All-of_In, any-of-In,
  In-append_right, ◌++◌,
}
use universal_agent_memory.Text.{Text}
use universal_agent_memory.Dict.{values}
use universal_agent_memory.Turns.{is_empty_list}
use universal_agent_memory.Workers.{
  WorkerReadiness, WorkerHeartbeat, WorkerKindReadiness, Heartbeats, kind_ready, workers_ready,
  missing_kinds, stale_kinds, is_fresh, readiness_of, worker_readiness,
}

-- A heartbeat of a running worker of the kind, not older than `cutoff`.
abbrev pub lives : ℕ → ℕ → Text → WorkerHeartbeat → Bool
lives tenant_id cutoff kind row =
    row.tenant_id == tenant_id && row.worker_kind == kind && is_fresh cutoff row

abbrev is_wanted : ℕ → List Text → WorkerHeartbeat → Bool
is_wanted tenant_id kinds row =
    row.tenant_id == tenant_id && any (λ kind. kind == row.worker_kind) kinds

row-fresh :
    (tenant_id cutoff : ℕ) (kinds : List Text) (kind : Text) (rows : List WorkerHeartbeat)
    → any (λ k. k == kind) kinds ≡ true
    → ltb 0 (
        count
          (is_fresh cutoff)
          (filter (λ row. row.worker_kind == kind) (filter (is_wanted tenant_id kinds) rows)))
      ≡ any (lives tenant_id cutoff kind) rows
row-fresh tenant_id cutoff kinds kind [] h = ground arith
row-fresh tenant_id cutoff kinds kind (row ∷ rows) h =
    let rest = row-fresh tenant_id cutoff kinds kind rows h in
    elim (Bool-cases (list_eq.equal row.worker_kind kind)) [
      | inl e ↦
          let wanted : any (λ k. k == row.worker_kind) kinds ≡ true =
            rw (beq→eq row.worker_kind kind e) h in
          elim (Bool-cases (eqb row.tenant_id tenant_id)) [
            | inl t ↦ rw (t, wanted, e) (ground (arith, rest))
            | inr t ↦ rw (t, rest) refl
          ]
      | inr e ↦ elim (Bool-cases (is_wanted tenant_id kinds row)) [
        | inl t ↦ rw (t, e, rest) (ground arith)
        | inr t ↦ rw (t, e, rest) (ground arith)
      ]
    ]

kinds-ready :
    (tenant_id cutoff : ℕ) (required kinds : List Text) (rows : List WorkerHeartbeat)
    → All (λ kind. any (λ k. k == kind) required ≡ true) kinds
    → all kind_ready (map (readiness_of cutoff (filter (is_wanted tenant_id required) rows)) kinds)
      ≡ all (λ kind. any (lives tenant_id cutoff kind) rows) kinds
unfolding readiness_of kind_ready
kinds-ready tenant_id cutoff required [] rows h = refl
kinds-ready tenant_id cutoff required (kind ∷ kinds) rows h =
    rw
      (
        row-fresh tenant_id cutoff required kind rows h.0,
        kinds-ready tenant_id cutoff required kinds rows h.1,
      )
      refl

wanted_kinds :
    (kinds more : List Text) → All (λ kind. any (λ k. k == kind) (more ++ kinds) ≡ true) kinds
wanted_kinds kinds more = All-of_In kinds (λ kind m.
    any-of-In (λ k. k == kind) (more ++ kinds) kind (In-append_right kind more kinds m)
      (beq_refl kind))

-- The workers are ready exactly when, for every required kind, some heartbeat of the tenant and the
-- kind comes from a running worker and is not older than the allowed time.
pub worker_readiness_iff :
    (tenant_id : ℕ) (kinds : List Text) (stale_after now : ℕ) (rows : Heartbeats)
    → workers_ready (worker_readiness tenant_id kinds stale_after now rows)
      ≡ all (λ kind. any (lives tenant_id (now - stale_after) kind) (values rows)) kinds
unfolding workers_ready worker_readiness
worker_readiness_iff tenant_id kinds stale_after now rows =
    kinds-ready tenant_id (now - stale_after) kinds kinds (values rows) (wanted_kinds kinds [])

kinds-reported :
    (rows : List WorkerKindReadiness) (at : ℕ)
    → workers_ready (record { required = rows; observed_at = at }) ≡ (
        is_empty_list (missing_kinds (record { required = rows; observed_at = at }))
        && is_empty_list (stale_kinds (record { required = rows; observed_at = at })))
unfolding workers_ready kind_ready missing_kinds stale_kinds
kinds-reported [] at = refl
kinds-reported (row ∷ rows) at = ground (arith, kinds-reported rows at)

-- The aggregate is ready exactly when it reports no missing kind and no stale kind.
pub workers_ready-reported :
    (r : WorkerReadiness)
    → workers_ready r ≡ (is_empty_list (missing_kinds r) && is_empty_list (stale_kinds r))
workers_ready-reported r = kinds-reported r.required r.observed_at
