-- ===== src/Checkpoints/Race.antt =====
-- Runs of many writers: which of them keep the revisions of a thread increasing.
use universal_agent_memory.Prelude.{
  ℕ, ◌+◌, ◌≤◌, ◌<◌, ◌≡◌, refl, ap, inl, inr, ◌&&◌, ◌++◌, List, [], ◌∷◌, Option, none, some, arith,
  eqb, ltb, false, true, get_last?, All-map, Bool-cases,
}
use mathlib.Core.Path.{subst₂}
use universal_agent_memory.Domain.Errors.{Result, ok}
use universal_agent_memory.Checkpoints.{
  Checkpoint, CheckpointStore, Draft, tenant_revs, get_head, save, save_if_head, compact,
  checkpoint_at, revision_or_zero, commit, post_init, service_save_after, service_update,
  service_update_after,
}
use universal_agent_memory.Checkpoints.Views.{
  tenant_revs-save, IsIncreasing, IsIncreasing-snoc, last_revision_max,
}
use universal_agent_memory.Checkpoints.Compaction.{compact-IsIncreasing}
use universal_agent_memory.Checkpoints.Cas.{Updated, service_update-Updated}

-- The revisions of every tenant in every thread increase.
pub record IsOrdered (s : CheckpointStore) : Type 0 where
  pub at_thread : (t th : ℕ) → IsIncreasing (tenant_revs t th s)

-- A checkpoint above the head keeps the order.
save-IsOrdered :
    (c : Checkpoint) (s : CheckpointStore)
    → revision_or_zero (get_head c.tenant_id c.thread_id s) < c.revision
    → IsOrdered s
    → IsOrdered (save c s)
unfolding get_head
save-IsOrdered c s above w = record { at_thread = at_thread }
  where
    at_thread : (t th : ℕ) → IsIncreasing (tenant_revs t th (save c s))
    at_thread t th = elim (Bool-cases (eqb c.thread_id th && eqb c.tenant_id t)) [
      | inr e ↦ rw (tenant_revs-save, e) (w.at_thread t th)
      | inl e ↦
          let p : c.tenant_id ≡ t = ground (arith, e) in
          let q : c.thread_id ≡ th = ground (arith, e) in
          let old = w.at_thread c.tenant_id c.thread_id in
          let longer = IsIncreasing-snoc (tenant_revs c.tenant_id c.thread_id s) c old (
            All-map
              (λ (x : Checkpoint)
                  (le : x.revision
                    ≤ revision_or_zero (get_last? (tenant_revs c.tenant_id c.thread_id s))).
                below x.revision _ c.revision le above)
              _ (last_revision_max (tenant_revs c.tenant_id c.thread_id s) old)) in
          rw (tenant_revs-save, e)
            (subst₂ (λ a b. IsIncreasing (tenant_revs a b s ++ c ∷ [])) p q longer)
    ]
      where
        below : (a b d : ℕ) → a ≤ b → b < d → a < d
        below a b d h k = omega arith

-- One call of some writer. `saved` takes any head, so the read may be as old as it likes, and any
-- number of other calls may have come between.
pub data Step (s : CheckpointStore) : CheckpointStore → Type 0 where
  saved : (head : Option Checkpoint) (d : Draft) → Step s (service_save_after head d s).1
  updated : (d : Draft) (expected : ℕ) → Step s (service_update d expected s).1
  compacted : (t th keep_last : ℕ) → Step s (compact t th keep_last s).1

pub data Reach (s : CheckpointStore) : CheckpointStore → Type 0 where
  here : Reach s s
  next : {t u : CheckpointStore} → Reach s t → Step t u → Reach s u

save_if_head-IsOrdered :
    (c : Checkpoint) (expected : ℕ) (s : CheckpointStore)
    → expected < c.revision
    → IsOrdered s
    → IsOrdered (save_if_head c expected s).1
unfolding save_if_head
save_if_head-IsOrdered c expected s above w =
    elim (Bool-cases
      (eqb (revision_or_zero (get_last? (tenant_revs c.tenant_id c.thread_id s))) expected)) [
        | inr e ↦ rw e w
        | inl e ↦ rw e (save-IsOrdered c s (unfold get_head in ground (arith, e)) w)
      ]

commit-IsOrdered :
    (d : Draft) (n : ℕ) (s : CheckpointStore)
    → IsOrdered s
    → IsOrdered (commit (post_init (checkpoint_at d (n + 1))) n s).1
unfolding commit post_init
commit-IsOrdered d n s w =
    let e : ltb (n + 1) 1 ≡ false = ground arith in
    rw e (save_if_head-IsOrdered (checkpoint_at d (n + 1)) n s (omega arith) w)

update-IsOrdered :
    (o : Option Checkpoint) (d : Draft) (expected : ℕ) (s : CheckpointStore)
    (r : Result Checkpoint × CheckpointStore)
    → get_head d.tenant_id d.thread_id s ≡ o
    → Updated d expected o s r
    → IsOrdered s
    → IsOrdered r.1
update-IsOrdered none d expected s r e u w = rw u w
update-IsOrdered (some head) d expected s r e u w = elim (Bool-cases (eqb head.revision expected)) [
  | inl q ↦ rw (u, q) (save-IsOrdered (checkpoint_at d (expected + 1)) s (ground (arith, e, q)) w)
  | inr q ↦ rw (u, q) w
]

Step-IsOrdered : {s t : CheckpointStore} → Step s t → IsOrdered s → IsOrdered t
Step-IsOrdered {s} (saved head d) w =
    unfold service_save_after in commit-IsOrdered d (revision_or_zero head) s w
Step-IsOrdered {s} (updated d expected) w =
    update-IsOrdered _ d expected s _ refl (service_update-Updated d expected s) w
Step-IsOrdered {s} (compacted t th k) w = record {
  at_thread = λ a b. compact-IsIncreasing t th k s a b (w.at_thread a b);
}

-- Whatever saves with reads however old, whole updates and compactions run on an ordered store, in
-- any order, the revisions of every tenant in every thread still increase.
pub Reach-IsOrdered : {s t : CheckpointStore} → Reach s t → IsOrdered s → IsOrdered t
Reach-IsOrdered here w = w
Reach-IsOrdered (next r st) w = Step-IsOrdered st (Reach-IsOrdered r w)

last-lt-snoc :
    (xs : List Checkpoint) (c : Checkpoint) {y : Checkpoint}
    → IsIncreasing (xs ++ c ∷ [])
    → get_last? xs ≡ some y
    → y.revision < c.revision
last-lt-snoc [] c h e = absurd (cc)
last-lt-snoc (x ∷ []) c h e = ground (arith, h.0.0)
last-lt-snoc (x ∷ y ∷ xs) c h e = last-lt-snoc (y ∷ xs) c h.1 e

save-not-IsOrdered :
    (c current : Checkpoint) (s : CheckpointStore)
    → get_head c.tenant_id c.thread_id s ≡ some current
    → c.revision ≤ current.revision
    → ¬ IsOrdered (save c s)
unfolding get_head
save-not-IsOrdered c current s e le w =
    let own : (eqb c.thread_id c.thread_id && eqb c.tenant_id c.tenant_id) ≡ true = ground arith in
    let after : IsIncreasing (tenant_revs c.tenant_id c.thread_id s ++ c ∷ []) =
      rw (tenant_revs-save, own) at (w.at_thread c.tenant_id c.thread_id) in
    absurd (omega (arith, last-lt-snoc (tenant_revs c.tenant_id c.thread_id s) c after e))

stale_read_saves :
    (head current : Checkpoint) (d : Draft) (expected : ℕ) (s : CheckpointStore)
    → get_head d.tenant_id d.thread_id s ≡ some current
    → current.revision ≡ expected
    → service_update_after (some head) d expected s
      ≡ (ok (checkpoint_at d (head.revision + 1)), save (checkpoint_at d (head.revision + 1)) s)
unfolding service_update_after save_if_head get_head
stale_read_saves head current d expected s e h = ground (arith, e)

-- An update whose read is older than the revision that its caller expects, and which writes when
-- the head has that revision, succeeds, and its checkpoint is not above the head that it follows:
-- the order is lost.
pub service_update_stale_read :
    (head current : Checkpoint) (d : Draft) (expected : ℕ) (s : CheckpointStore)
    → get_head d.tenant_id d.thread_id s ≡ some current
    → current.revision ≡ expected
    → head.revision < expected
    → ((service_update_after (some head) d expected s).0 ≡ ok (checkpoint_at d (head.revision + 1)))
      × (¬ IsOrdered (service_update_after (some head) d expected s).1)
service_update_stale_read head current d expected s e h k =
    let saves = stale_read_saves head current d expected s e h in
    (
      ap (λ r. r.0) saves,
      rw saves (save-not-IsOrdered (checkpoint_at d (head.revision + 1)) current s e (omega arith)),
    )
