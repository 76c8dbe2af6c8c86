-- ===== src/Checkpoints/Compaction.antt =====
-- Proofs on `compact` of `InMemoryCheckpointStore` in adapters/in_memory.py.
use universal_agent_memory.Prelude.{
  ℕ, zero, suc, ◌-◌, ◌≤◌, ◌≡◌, ◌≢◌, refl, sym, ap, ◌∙◌, ◌⊎◌, leb→le, min, inl, inr, not, true, ◌&&◌,
  List, [], ◌∷◌, ◌++◌, arith, eqb, eqb_iff, leb, if◌then◌else◌, nat_eq, ◌==◌, Bool-cases, length,
  filter, filter-append, filter_of_All, filter_of_none, filter-filter, get_last?, get_last?-drop,
  length-drop, length-take, take, take-append-drop, All, All-map, All-drop, All-filter_self,
}
use mathlib.Core.List.{append-nil}
use mathlib.Core.Path.{ap₂, subst₂}
use universal_agent_memory.Checkpoints.Views.{IsIncreasing, IsIncreasing-drop}
use universal_agent_memory.Dict.{get-put}
use universal_agent_memory.Checkpoints.{
  Checkpoint, CheckpointStore, thread_revs, tenant_revs, get_head, compact, last_items,
}

All-last_items :
    (P : Checkpoint → Type 0) (k : ℕ) (xs : List Checkpoint) → All P xs → All P (last_items k xs)
unfolding last_items
All-last_items P zero xs h = h
All-last_items P (suc k) xs h = All-drop P (length xs - suc k) xs h

last_items_of_length-le : (k : ℕ) (xs : List Checkpoint) → length xs ≤ k → last_items k xs ≡ xs
unfolding last_items
last_items_of_length-le zero xs h = refl
last_items_of_length-le (suc k) xs h = let e : length xs - suc k ≡ 0 = omega arith in rw e

length-last_items :
    (k : ℕ) (xs : List Checkpoint) → 1 ≤ k → length (last_items k xs) ≡ min k (length xs)
unfolding last_items
length-last_items zero xs h = absurd (omega arith)
length-last_items (suc k) xs h = omega (arith, length-drop (length xs - suc k) xs)

get_last?-last_items :
    (k : ℕ) (xs : List Checkpoint) → 1 ≤ k → get_last? (last_items k xs) ≡ get_last? xs
unfolding last_items
get_last?-last_items zero xs h = absurd (omega arith)
get_last?-last_items (suc k) [] h = let e : 0 - suc k ≡ 0 = omega arith in rw e
get_last?-last_items (suc k) (x ∷ xs) h =
    get_last?-drop (length (x ∷ xs) - suc k) (x ∷ xs) (omega arith)

IsIncreasing-last_items :
    (k : ℕ) (xs : List Checkpoint) → IsIncreasing xs → IsIncreasing (last_items k xs)
unfolding last_items
IsIncreasing-last_items zero xs h = h
IsIncreasing-last_items (suc k) xs h = IsIncreasing-drop (length xs - suc k) xs h

module _ (t k : ℕ) (revs : List Checkpoint) where
  abbrev kept : List Checkpoint
  kept = last_items k (filter (λ r. r.tenant_id == t) revs)

  abbrev rebuilt : List Checkpoint
  rebuilt = filter (λ r. not (r.tenant_id == t)) revs ++ kept

  kept-mine : All (λ r. eqb r.tenant_id t ≡ true) kept
  kept-mine =
      All-last_items (λ (r : Checkpoint). eqb r.tenant_id t ≡ true) k _
        (All-filter_self (λ (r : Checkpoint). eqb r.tenant_id t) revs)

  filter-rebuilt_self : filter (λ r. r.tenant_id == t) rebuilt ≡ kept
  filter-rebuilt_self =
      filter-append (λ (r : Checkpoint). eqb r.tenant_id t) _ kept
      ∙ ap₂ ◌++◌
          (filter_of_none (λ (r : Checkpoint). eqb r.tenant_id t) _
            (All-map (λ r p. ground arith) _
              (All-filter_self (λ (r : Checkpoint). not (eqb r.tenant_id t)) revs)))
          (filter_of_All (λ (r : Checkpoint). eqb r.tenant_id t) kept kept-mine)

  filter-rebuilt_other :
      (u : ℕ) → t ≢ u → filter (λ r. r.tenant_id == u) rebuilt ≡ filter (λ r. r.tenant_id == u) revs
  filter-rebuilt_other u ne =
      filter-append (λ (r : Checkpoint). eqb r.tenant_id u) _ kept
      ∙ ap₂ ◌++◌
          (filter-filter (λ (r : Checkpoint). eqb r.tenant_id u)
            (λ (r : Checkpoint). not (eqb r.tenant_id t)) revs (λ r p. ground arith))
          (filter_of_none (λ (r : Checkpoint). eqb r.tenant_id u) kept
            (All-map (λ r p. ground arith) kept kept-mine))
      ∙ append-nil _

module _ (t th k : ℕ) (s : CheckpointStore) where
  thread_revs-compact :
      (th' : ℕ)
      → thread_revs th' (compact t th k s).1 ≡ (
          if leb (length (tenant_revs t th s)) k
          then thread_revs th' s
          else (if eqb th th' then rebuilt t k (thread_revs th s) else thread_revs th' s))
  unfolding compact thread_revs tenant_revs
  thread_revs-compact th' = elim (Bool-cases (leb (length (tenant_revs t th s)) k)) [
    | inl e ↦ rw e
    | inr e ↦ elim (Bool-cases (eqb th th')) [
      | inl q ↦ rw (e, get-put, q)
      | inr q ↦ rw (e, get-put, q)
    ]
  ]

  -- The tenant keeps its last `k` checkpoints of the thread.
  pub tenant_revs-compact :
      tenant_revs t th (compact t th k s).1 ≡ last_items k (tenant_revs t th s)
  unfolding tenant_revs
  tenant_revs-compact = elim (Bool-cases (leb (length (tenant_revs t th s)) k)) [
    | inl e ↦ rw (thread_revs-compact, e) (sym (last_items_of_length-le k _ (leb→le _ _ e)))
    | inr e ↦
        let q : eqb th th ≡ true = (eqb_iff th th).1 refl in
        rw (thread_revs-compact, e, q) (filter-rebuilt_self t k (thread_revs th s))
  ]

  -- Another tenant, or another thread, keeps all.
  pub tenant_revs-compact_ne :
      (t' th' : ℕ)
      → (t ≢ t') ⊎ (th ≢ th')
      → tenant_revs t' th' (compact t th k s).1 ≡ tenant_revs t' th' s
  unfolding tenant_revs
  tenant_revs-compact_ne t' th' ne = elim (Bool-cases (leb (length (tenant_revs t th s)) k)) [
    | inl e ↦ rw (thread_revs-compact, e)
    | inr e ↦ elim (Bool-cases (eqb th th')) [
      | inr q ↦ rw (thread_revs-compact, e, q)
      | inl q ↦
          let same : th ≡ th' = (eqb_iff th th').0 q in
          let ne' : t ≢ t' = elim ne [ inl a ↦ a | inr b ↦ absurd (b same) ] in
          rw (thread_revs-compact, e, q)
            (filter-rebuilt_other t k (thread_revs th s) t' ne'
              ∙ ap (λ n. filter (λ (r : Checkpoint). r.tenant_id == t') (thread_revs n s)) same)
    ]
  ]

  pub removed-compact : (compact t th k s).0 ≡ length (tenant_revs t th s) - k
  unfolding compact
  removed-compact = ground arith

-- With `keep_last` at least 1, compaction splits the tenant's checkpoints of the thread into older
-- ones, which go, and the last ones, which stay in order: as many stay as `keep_last` allows, the
-- number that is returned is that of the ones that went, and the head is as it was.
pub compact_splits :
    (t th k : ℕ) (s : CheckpointStore)
    → 1 ≤ k
    → (older : List Checkpoint) × (tenant_revs t th s
        ≡ older ++ tenant_revs t th (compact t th k s).1)
      × ((compact t th k s).0 ≡ length older)
      × (length (tenant_revs t th (compact t th k s).1) ≡ min k (length (tenant_revs t th s)))
      × (get_head t th (compact t th k s).1 ≡ get_head t th s)
unfolding get_head last_items
compact_splits t th zero s h = absurd (omega arith)
compact_splits t th (suc k) s h =
    let all = tenant_revs t th s in
    let n = length all - suc k in
    let shape = tenant_revs-compact t th (suc k) s in
    (
      take n all,
      sym (take-append-drop n all) ∙ ap (λ xs. take n all ++ xs) (sym shape),
      omega (arith, removed-compact t th (suc k) s, length-take n all),
      ap length shape ∙ length-last_items (suc k) all h,
      ap get_last? shape ∙ get_last?-last_items (suc k) all h,
    )

-- Compaction changes no checkpoint of another tenant and none of another thread.
pub compact_isolated :
    (t th k : ℕ) (s : CheckpointStore) (t' th' : ℕ)
    → (t ≢ t') ⊎ (th ≢ th')
    → tenant_revs t' th' (compact t th k s).1 ≡ tenant_revs t' th' s
compact_isolated = tenant_revs-compact_ne

-- With `keep_last` 0 compaction reports that all the tenant's checkpoints of the thread went, and
-- keeps every one of them.
pub compact_zero :
    (t th : ℕ) (s : CheckpointStore)
    → ((compact t th 0 s).0 ≡ length (tenant_revs t th s))
      × (tenant_revs t th (compact t th 0 s).1 ≡ tenant_revs t th s)
unfolding last_items
compact_zero t th s = (omega (arith, removed-compact t th 0 s), tenant_revs-compact t th 0 s)

pub compact-IsIncreasing :
    (t th k : ℕ) (s : CheckpointStore) (t' th' : ℕ)
    → IsIncreasing (tenant_revs t' th' s)
    → IsIncreasing (tenant_revs t' th' (compact t th k s).1)
compact-IsIncreasing t th k s t' th' h = elim (Bool-cases (eqb t t' && eqb th th')) [
  | inl e ↦
      let p : t ≡ t' = ground (arith, e) in
      let q : th ≡ th' = ground (arith, e) in
      subst₂ (λ a b. IsIncreasing (tenant_revs a b (compact t th k s).1)) p q
        (rw tenant_revs-compact (
          IsIncreasing-last_items k _
            (subst₂ (λ a b. IsIncreasing (tenant_revs a b s)) (sym p) (sym q) h)))
  | inr e ↦ rw (tenant_revs-compact_ne t th k s t' th' (ground (arith, e))) h
]
