-- ===== src/Tests/Checkpoint.antt =====
-- Examples for checkpoints.
use universal_agent_memory.Prelude.{
  ℕ, ◌+◌, ◌≡◌, refl, none, some, List, [], ◌∷◌, ◌++◌, arith, min, length,
}
use universal_agent_memory.Dict
use universal_agent_memory.Domain.Errors.{ok, err, stale_revision}
use universal_agent_memory.Checkpoints.{
  Checkpoint, CheckpointStore, Draft, empty, checkpoint_at, revision_or_zero, get_head, tenant_revs,
  save_if_head, compact, last_items, service_save_after, service_update_after,
}
use universal_agent_memory.Checkpoints.Cas.{service_save_race}
use universal_agent_memory.Checkpoints.Compaction.{compact_splits, compact_zero}
use universal_agent_memory.Checkpoints.Race.{
  IsOrdered, Reach, saved, compacted, here, next, Reach-IsOrdered, service_update_stale_read,
}

-- A draft of tenant 1 in thread 3.
abbrev draft : ℕ → Draft
draft id = record {
  tenant_id = 1;
  workspace_id = 2;
  thread_id = 3;
  state = [];
  id = id;
  created_at = id;
}

abbrev one : Checkpoint
one = checkpoint_at (draft 11) 1

abbrev two : Checkpoint
two = checkpoint_at (draft 12) 2

abbrev pub three : Checkpoint
three = checkpoint_at (draft 13) 3

abbrev pub pair : CheckpointStore
pair = record { revisions = (3, one ∷ two ∷ []) ∷ [] }

head_of_pair : get_head 1 3 pair ≡ some two
unfolding get_head tenant_revs Dict.get
head_of_pair = refl

others_have_no_head : get_head 7 3 pair ≡ none
unfolding get_head tenant_revs Dict.get
others_have_no_head = refl

keeps_one : compact 1 3 1 pair ≡ (1, record { revisions = (3, two ∷ []) ∷ [] })
unfolding compact tenant_revs Dict.get Dict.put last_items
keeps_one = refl

won : (save_if_head three 2 pair).0 ≡ ok three
unfolding save_if_head tenant_revs Dict.get
won = refl

service_save_race_example :
    ((service_save_after (get_head 1 3 pair) (draft 13) pair).0
      ≡ ok (checkpoint_at (draft 13) (revision_or_zero (get_head 1 3 pair) + 1)))
    × (service_save_after
          (get_head 1 3 pair)
          (draft 14)
          (service_save_after (get_head 1 3 pair) (draft 13) pair).1
        ≡ (
          err (
              stale_revision 3
                (revision_or_zero (get_head 1 3 pair))
                (some (revision_or_zero (get_head 1 3 pair) + 1))),
          (service_save_after (get_head 1 3 pair) (draft 13) pair).1,
        ))
service_save_race_example = service_save_race (draft 13) (draft 14) pair refl refl

compact_splits_example :
    (older : List Checkpoint) × (tenant_revs 1 3 pair
      ≡ older ++ tenant_revs 1 3 (compact 1 3 1 pair).1)
    × ((compact 1 3 1 pair).0 ≡ length older)
    × (length (tenant_revs 1 3 (compact 1 3 1 pair).1) ≡ min 1 (length (tenant_revs 1 3 pair)))
    × (get_head 1 3 (compact 1 3 1 pair).1 ≡ get_head 1 3 pair)
compact_splits_example = compact_splits 1 3 1 pair (omega arith)

compact_zero_example :
    ((compact 1 3 0 pair).0 ≡ length (tenant_revs 1 3 pair))
    × (tenant_revs 1 3 (compact 1 3 0 pair).1 ≡ tenant_revs 1 3 pair)
compact_zero_example = compact_zero 1 3 pair

-- Two saves, the second with an old read, and a compaction.
abbrev after_one : CheckpointStore
after_one = (service_save_after none (draft 11) empty).1

abbrev after_two : CheckpointStore
after_two = (service_save_after none (draft 12) after_one).1

abbrev after_three : CheckpointStore
after_three = (compact 1 3 1 after_two).1

run : Reach empty after_three
run = next (next (next here (saved none (draft 11))) (saved none (draft 12))) (compacted 1 3 1)

empty-IsOrdered : IsOrdered empty
empty-IsOrdered = record { at_thread = λ t th. unfold tenant_revs Dict.get in tt }

Reach-IsOrdered_example : IsOrdered after_three
Reach-IsOrdered_example = Reach-IsOrdered run empty-IsOrdered

service_update_stale_read_example :
    ((service_update_after (some one) (draft 14) 2 pair).0
      ≡ ok (checkpoint_at (draft 14) (one.revision + 1)))
    × (¬ IsOrdered (service_update_after (some one) (draft 14) 2 pair).1)
service_update_stale_read_example =
    service_update_stale_read one two (draft 14) 2 pair head_of_pair refl (omega arith)
