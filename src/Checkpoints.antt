-- ===== src/Checkpoints.antt =====
-- Working-memory checkpoints: domain/checkpoint.py, `InMemoryCheckpointStore` of
-- adapters/in_memory.py and services/checkpoint.py. The store is one record that each method
-- returns anew; a method that raises returns the store that it leaves. Fresh identities and the
-- clock are arguments. The store ignores its `audit_event` arguments, so they are left out.
pub mod Views
pub mod Cas
pub mod Compaction
pub mod Race
pub mod Histories
use universal_agent_memory.Prelude.{
  ℕ, zero, ◌+◌, ◌-◌, not, ◌&&◌, Option, none, some, List, [], ◌∷◌, ◌++◌, ltb, leb, eqb,
  if◌then◌else◌, ◌==◌, nat_eq, length, take, drop, filter, get_last?, find?,
}
use universal_agent_memory.Dict
use universal_agent_memory.Dict.{Dict, values}
use universal_agent_memory.Sorting.{sort}
use universal_agent_memory.Domain.Errors.{Error, Result, ok, err, value_error, stale_revision}
use universal_agent_memory.Domain.Json.{Metadata}

pub record Checkpoint : Type 0 where
  pub tenant_id : ℕ
  pub workspace_id : ℕ
  pub thread_id : ℕ
  pub revision : ℕ
  pub state : Metadata
  pub id : ℕ
  pub created_at : ℕ

-- `Checkpoint.__post_init__`
unfoldable pub post_init : Checkpoint → Result Checkpoint
post_init self =
    if ltb self.revision 1
    then err (value_error "checkpoint revision must be positive")
    else ok self

-- `_revisions`: the checkpoints of each thread, oldest first, those of all tenants together.
pub record CheckpointStore : Type 0 where
  pub revisions : Dict ℕ (List Checkpoint)

abbrev pub empty : CheckpointStore
empty = record { revisions = [] }

abbrev or_empty : Option (List Checkpoint) → List Checkpoint
or_empty none = []
or_empty (some revs) = revs

-- `self._revisions.get(thread_id, [])`
unfoldable pub thread_revs : ℕ → CheckpointStore → List Checkpoint
thread_revs thread_id s = or_empty (Dict.get thread_id s.revisions)

-- `[r for r in revs if r.tenant_id == tenant_id]`
unfoldable pub tenant_revs : ℕ → ℕ → CheckpointStore → List Checkpoint
unfolding thread_revs
tenant_revs tenant_id thread_id s = filter (λ r. r.tenant_id == tenant_id) (thread_revs thread_id s)

-- `save`
unfoldable pub save : Checkpoint → CheckpointStore → CheckpointStore
unfolding thread_revs
save checkpoint s = record {
  revisions =
      Dict.put checkpoint.thread_id (thread_revs checkpoint.thread_id s ++ checkpoint ∷ [])
        s.revisions;
}

abbrev pub revision_or_zero : Option Checkpoint → ℕ
revision_or_zero none = 0
revision_or_zero (some r) = r.revision

-- `save_if_head`
unfoldable pub save_if_head : Checkpoint → ℕ → CheckpointStore → Result Checkpoint × CheckpointStore
save_if_head checkpoint expected_revision s =
    let actual =
      revision_or_zero (get_last? (tenant_revs checkpoint.tenant_id checkpoint.thread_id s)) in
    if eqb actual expected_revision
    then (ok checkpoint, save checkpoint s)
    else (err (stale_revision checkpoint.thread_id expected_revision (some actual)), s)

-- `get_head`
unfoldable pub get_head : ℕ → ℕ → CheckpointStore → Option Checkpoint
get_head tenant_id thread_id s = get_last? (tenant_revs tenant_id thread_id s)

-- `get_revision`
unfoldable pub get_revision : ℕ → ℕ → ℕ → CheckpointStore → Option Checkpoint
get_revision tenant_id thread_id revision s =
    find? (λ r. r.tenant_id == tenant_id && r.revision == revision) (thread_revs thread_id s)

-- `xs[-n:]`; as `-0` is 0, the last 0 items are all of them.
unfoldable pub last_items : ℕ → List Checkpoint → List Checkpoint
last_items zero xs = xs
last_items n xs = drop (length xs - n) xs

-- `compact`: the number of removed checkpoints, and the store.
unfoldable pub compact : ℕ → ℕ → ℕ → CheckpointStore → ℕ × CheckpointStore
compact tenant_id thread_id keep_last s =
    let mine = tenant_revs tenant_id thread_id s in
    let others = filter (λ r. not (r.tenant_id == tenant_id)) (thread_revs thread_id s) in
    if leb (length mine) keep_last then (0, s) else (
      length mine - keep_last,
      record { revisions = Dict.put thread_id (others ++ last_items keep_last mine) s.revisions },
    )

-- What a caller of the service gives besides the tenant and the thread.
pub record Draft : Type 0 where
  pub tenant_id : ℕ
  pub workspace_id : ℕ
  pub thread_id : ℕ
  pub state : Metadata
  pub id : ℕ
  pub created_at : ℕ

abbrev pub checkpoint_at : Draft → ℕ → Checkpoint
checkpoint_at d revision = record {
  tenant_id = d.tenant_id;
  workspace_id = d.workspace_id;
  thread_id = d.thread_id;
  revision = revision;
  state = d.state;
  id = d.id;
  created_at = d.created_at;
}

-- The constructor call, then the compare-and-swap.
commit : Result Checkpoint → ℕ → CheckpointStore → Result Checkpoint × CheckpointStore
unfolding save_if_head
commit (ok checkpoint) expected s = save_if_head checkpoint expected s
commit (err e) expected s = (err e, s)

-- `CheckpointService.save` behind its read: `head` is what `get_head` returned, perhaps before
-- other writers changed the store.
unfoldable pub service_save_after :
    Option Checkpoint → Draft → CheckpointStore → Result Checkpoint × CheckpointStore
unfolding commit post_init
service_save_after head d s =
    commit (post_init (checkpoint_at d (revision_or_zero head + 1))) (revision_or_zero head) s

-- `CheckpointService.save`, with nothing between its read and its write.
unfoldable pub service_save : Draft → CheckpointStore → Result Checkpoint × CheckpointStore
service_save d s = service_save_after (get_head d.tenant_id d.thread_id s) d s

-- `CheckpointService.update` behind its read.
unfoldable pub service_update_after :
    Option Checkpoint → Draft → ℕ → CheckpointStore → Result Checkpoint × CheckpointStore
unfolding commit post_init
service_update_after none d expected_revision s =
    (err (stale_revision d.thread_id expected_revision none), s)
service_update_after (some head) d expected_revision s =
    commit (post_init (checkpoint_at d (head.revision + 1))) expected_revision s

-- `CheckpointService.update`, with nothing between its read and its write.
unfoldable pub service_update : Draft → ℕ → CheckpointStore → Result Checkpoint × CheckpointStore
service_update d expected_revision s =
    service_update_after (get_head d.tenant_id d.thread_id s) d expected_revision s
