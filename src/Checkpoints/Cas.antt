-- ===== src/Checkpoints/Cas.antt =====
-- Proofs on the compare-and-swap of checkpoint heads in adapters/in_memory.py and in
-- services/checkpoint.py.
use universal_agent_memory.Prelude.{
  ℕ, ◌+◌, ◌≡◌, ◌≢◌, refl, inl, inr, ◌&&◌, Option, none, some, arith, eqb, eqb_iff, if◌then◌else◌,
  Bool-cases,
}
use universal_agent_memory.Domain.Errors.{Result, ok, err, stale_revision}
use universal_agent_memory.Checkpoints.{
  Checkpoint, CheckpointStore, Draft, get_head, save, save_if_head, checkpoint_at, revision_or_zero,
  service_save, service_save_after, service_update, service_update_after,
}
use universal_agent_memory.Checkpoints.Views.{get_head-save}

-- Of two writers that expect the same head, the second fails and changes nothing, once the first
-- has stored a checkpoint with another revision; the error names that revision.
pub save_if_head_once :
    (c d : Checkpoint) (expected : ℕ) (s : CheckpointStore)
    → c.tenant_id ≡ d.tenant_id
    → c.thread_id ≡ d.thread_id
    → c.revision ≢ expected
    → (save_if_head c expected s).0 ≡ ok c
    → save_if_head d expected (save_if_head c expected s).1
      ≡ (err (stale_revision d.thread_id expected (some c.revision)), (save_if_head c expected s).1)
unfolding save_if_head get_head
save_if_head_once c d expected s same_tenant same_thread moved won =
    ground (arith, get_head-save d.tenant_id d.thread_id c s)

-- `CheckpointService.save` with nothing between its read and its write always succeeds: the new
-- head is one above the old one, and no other tenant or thread has another head than before.
pub service_save_total :
    (d : Draft) (s : CheckpointStore) (t th : ℕ)
    → ((service_save d s).0
        ≡ ok (checkpoint_at d (revision_or_zero (get_head d.tenant_id d.thread_id s) + 1)))
      × (get_head t th (service_save d s).1 ≡ (
          if eqb d.thread_id th && eqb d.tenant_id t
          then some (checkpoint_at d (revision_or_zero (get_head d.tenant_id d.thread_id s) + 1))
          else get_head t th s))
unfolding service_save service_save_after save_if_head get_head
service_save_total d s t th = (
  ground arith,
  ground (
    arith,
    get_head-save t th (checkpoint_at d (revision_or_zero (get_head d.tenant_id d.thread_id s) + 1))
        s,
  ),
)

-- What `CheckpointService.update` returns when it read `head`, and the store that it leaves.
abbrev pub Updated :
    Draft → ℕ → Option Checkpoint → CheckpointStore → Result Checkpoint × CheckpointStore → Type 0
Updated d expected none s r = r ≡ (err (stale_revision d.thread_id expected none), s)
Updated d expected (some head) s r = r ≡ (
    if eqb head.revision expected
    then (ok (checkpoint_at d (expected + 1)), save (checkpoint_at d (expected + 1)) s)
    else (err (stale_revision d.thread_id expected (some head.revision)), s))

-- Two saves that read the same head: the one that writes first wins, the other is refused with
-- the winner's revision and leaves the store as it is.
pub service_save_race :
    (d e : Draft) (s : CheckpointStore)
    → d.tenant_id ≡ e.tenant_id
    → d.thread_id ≡ e.thread_id
    → let head = get_head d.tenant_id d.thread_id s in
      let after = (service_save_after head d s).1 in
      ((service_save_after head d s).0 ≡ ok (checkpoint_at d (revision_or_zero head + 1)))
      × (service_save_after head e after ≡ (
        err (stale_revision e.thread_id (revision_or_zero head) (some (revision_or_zero head + 1))),
        after,
      ))
unfolding service_save_after save_if_head get_head
service_save_race d e s p q = (
  ground arith,
  ground (
    arith,
    get_head-save e.tenant_id e.thread_id
        (checkpoint_at d (revision_or_zero (get_head d.tenant_id d.thread_id s) + 1)) s,
  ),
)

-- An update with nothing between its read and its write: with no head it is a stale write that
-- names none; with a head other than the expected one it is a stale write that names it; in both
-- cases nothing changes. The expected head is succeeded by the next revision.
pub service_update-Updated :
    (d : Draft) (expected : ℕ) (s : CheckpointStore)
    → Updated d expected (get_head d.tenant_id d.thread_id s) s (service_update d expected s)
unfolding service_update
service_update-Updated d expected s = by_head (get_head d.tenant_id d.thread_id s) refl
  where
    by_head :
        (o : Option Checkpoint)
        → get_head d.tenant_id d.thread_id s ≡ o
        → Updated d expected o s (service_update_after o d expected s)
    by_head none e = unfold service_update_after in refl
    by_head (some head) e =
        unfold service_update_after save_if_head get_head in
        elim (Bool-cases (eqb head.revision expected)) [
          | inl q ↦
              let p : head.revision ≡ expected = (eqb_iff head.revision expected).0 q in
              rw p (ground (arith, e))
          | inr q ↦ ground (arith, e)
        ]
