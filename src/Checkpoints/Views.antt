-- ===== src/Checkpoints/Views.antt =====
-- The checkpoints of one tenant in one thread, as `save` changes them, and lists of checkpoints
-- whose revisions increase.
use universal_agent_memory.Prelude.{
  ℕ, ◌≤◌, ◌<◌, ◌≡◌, inl, inr, ◌&&◌, some, List, [], ◌∷◌, ◌++◌, arith, eqb, if◌then◌else◌, nat_eq,
  ◌==◌, Bool-cases, filter, filter-append, get_last?, get_last?-snoc, All, All-append, zero, suc,
  drop,
}
use mathlib.Core.List.{append-nil}
use universal_agent_memory.Dict.{get-put}
use universal_agent_memory.Checkpoints.{
  Checkpoint, CheckpointStore, thread_revs, tenant_revs, save, get_head, revision_or_zero,
}

pub thread_revs-save :
    (th : ℕ) (c : Checkpoint) (s : CheckpointStore)
    → thread_revs th (save c s)
      ≡ (if eqb c.thread_id th then thread_revs c.thread_id s ++ c ∷ [] else thread_revs th s)
unfolding thread_revs save
thread_revs-save th c s = elim (Bool-cases (eqb c.thread_id th)) [
  | inl e ↦ rw (get-put, e)
  | inr e ↦ rw (get-put, e)
]

pub tenant_revs-save :
    (t th : ℕ) (c : Checkpoint) (s : CheckpointStore)
    → tenant_revs t th (save c s) ≡ (
        if eqb c.thread_id th && eqb c.tenant_id t
        then tenant_revs t th s ++ c ∷ []
        else tenant_revs t th s)
unfolding tenant_revs
tenant_revs-save t th c s = ground (
  arith,
  thread_revs-save th c s,
  filter-append (λ (r : Checkpoint). r.tenant_id == t) (thread_revs c.thread_id s) (c ∷ []),
  append-nil (filter (λ (r : Checkpoint). r.tenant_id == t) (thread_revs c.thread_id s)),
)

-- Revisions increase from the front to the back.
abbrev pub IsIncreasing : List Checkpoint → Type 0
IsIncreasing [] = Unit
IsIncreasing (x ∷ xs) = All (λ y. x.revision < y.revision) xs × IsIncreasing xs

pub IsIncreasing-snoc :
    (xs : List Checkpoint) (c : Checkpoint)
    → IsIncreasing xs
    → All (λ x. x.revision < c.revision) xs
    → IsIncreasing (xs ++ c ∷ [])
IsIncreasing-snoc [] c h k = (tt, tt)
IsIncreasing-snoc (x ∷ xs) c h k = (
  All-append (λ (y : Checkpoint). x.revision < y.revision) xs (c ∷ []) h.0 (k.0, tt),
  IsIncreasing-snoc xs c h.1 k.1,
)

pub IsIncreasing-drop : (n : ℕ) (xs : List Checkpoint) → IsIncreasing xs → IsIncreasing (drop n xs)
IsIncreasing-drop zero xs h = h
IsIncreasing-drop (suc n) [] h = tt
IsIncreasing-drop (suc n) (x ∷ xs) h = IsIncreasing-drop n xs h.1

-- The last of an increasing list has the greatest revision, and 0 is below or at all of none.
pub last_revision_max :
    (xs : List Checkpoint)
    → IsIncreasing xs
    → All (λ x. x.revision ≤ revision_or_zero (get_last? xs)) xs
last_revision_max [] h = tt
last_revision_max (x ∷ []) h = (omega arith, tt)
last_revision_max (x ∷ y ∷ xs) h =
    let rest = last_revision_max (y ∷ xs) h.1 in (omega (arith, rest.0, h.0.0), rest)

-- After `save` the head of the checkpoint's own tenant and thread is the checkpoint, and every
-- other head is as it was, that of another tenant in the same thread included.
pub get_head-save :
    (t th : ℕ) (c : Checkpoint) (s : CheckpointStore)
    → get_head t th (save c s)
      ≡ (if eqb c.thread_id th && eqb c.tenant_id t then some c else get_head t th s)
unfolding get_head
get_head-save t th c s =
    ground (arith, tenant_revs-save t th c s, get_last?-snoc (tenant_revs t th s) c)
