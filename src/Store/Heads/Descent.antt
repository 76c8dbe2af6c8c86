-- ===== src/Store/Heads/Descent.antt =====
-- Proofs on `_latest_descendant` of adapters/in_memory.py.
use universal_agent_memory.Prelude.{
  ℕ, zero, suc, ◌≤◌, ◌<◌, ◌≡◌, refl, ◌⊎◌, inl, inr, false, none, some, List, arith, ltb, nat_eq,
  option_eq, option_beq_iff, Option-cases, length, count, count-lt, count-le-length, All, In,
  find?-none→All, find?-eq-some, find?-In,
}
use universal_agent_memory.Dict.{values, length-values}
use universal_agent_memory.Domain.Memory.{MemoryItem}
use universal_agent_memory.Store.{MemoryStore}
use universal_agent_memory.Store.Heads.{is_newer_child, newer_child, descend, latest_descendant}

-- `to` is reached from `from` by revisions of the tenant's: each supersedes the one before it and
-- has a greater revision.
pub data Descends (tenant_id : ℕ) (items : List MemoryItem) (from : MemoryItem)
    : MemoryItem → Type 0 where
  here : Descends tenant_id items from from
  next :
      {head child : MemoryItem}
      → Descends tenant_id items from head
      → In child items
      → child.tenant_id ≡ tenant_id
      → child.supersedes_id ≡ some head.id
      → head.revision < child.revision
      → Descends tenant_id items from child

module _ (tenant_id : ℕ) (items : List MemoryItem) where
  newer_child-facts :
      (head child : MemoryItem)
      → newer_child tenant_id head items ≡ some child
      → In child items
        × (child.tenant_id ≡ tenant_id)
        × (child.supersedes_id ≡ some head.id)
        × (head.revision < child.revision)
  unfolding newer_child
  newer_child-facts head child e =
      let passed = find?-eq-some (is_newer_child tenant_id head) items e in
      (
        find?-In (is_newer_child tenant_id head) items e,
        ground (arith, passed),
        (option_beq_iff child.supersedes_id (some head.id)).0 (ground (arith, passed)),
        ground (arith, passed),
      )

  -- How many items are above a head.
  above : MemoryItem → ℕ
  above head = count (λ c. ltb head.revision c.revision) items

  above-child :
      (head child : MemoryItem)
      → newer_child tenant_id head items ≡ some child
      → above child < above head
  unfolding above
  above-child head child e =
      let (m, _, _, lt) = newer_child-facts head child e in
      count-lt (λ (c : MemoryItem). ltb head.revision c.revision)
        (λ (c : MemoryItem). ltb child.revision c.revision) items child (λ y h. ground arith) m
        (ground arith) (ground arith)

  descend-none :
      (fuel : ℕ) (head : MemoryItem)
      → newer_child tenant_id head items ≡ none
      → descend (suc fuel) tenant_id items head ≡ head
  unfolding descend
  descend-none fuel head e = rw (e, descend)

  descend-some :
      (fuel : ℕ) (head child : MemoryItem)
      → newer_child tenant_id head items ≡ some child
      → descend (suc fuel) tenant_id items head ≡ descend fuel tenant_id items child
  unfolding descend
  descend-some fuel head child e = rw (e, descend)

  descend-head :
      (fuel : ℕ) (head : MemoryItem)
      → above head ≤ fuel
      → newer_child tenant_id (descend fuel tenant_id items head) items ≡ none
  unfolding descend
  descend-head zero head h =
      unfold descend in
      elim (Option-cases (newer_child tenant_id head items)) [
        | inl e ↦ e
        | inr (c, e) ↦ absurd (omega (arith, above-child head c e))
      ]
  descend-head (suc fuel) head h = elim (Option-cases (newer_child tenant_id head items)) [
    | inl e ↦ rw (descend-none fuel head e) e
    | inr (c, e) ↦
        rw (descend-some fuel head c e) (descend-head fuel c (omega (arith, above-child head c e)))
  ]

  descend-Descends :
      (fuel : ℕ) (from head : MemoryItem)
      → Descends tenant_id items from head
      → Descends tenant_id items from (descend fuel tenant_id items head)
  unfolding descend
  descend-Descends zero from head d = d
  descend-Descends (suc fuel) from head d = elim (Option-cases (newer_child tenant_id head items)) [
    | inl e ↦ rw (descend-none fuel head e) d
    | inr (c, e) ↦
        let (m, t, l, r) = newer_child-facts head c e in
        rw (descend-some fuel head c e) (descend-Descends fuel from c (next d m t l r))
  ]

-- The loop of `_latest_descendant` ends within as many rounds as there are items: what it returns
-- descends from the item by the tenant's revision links, and no item of the tenant supersedes it
-- with a greater revision.
pub latest_descendant-Descends :
    (item : MemoryItem) (s : MemoryStore)
    → Descends item.tenant_id (values s.items) item (latest_descendant item s)
      × All
          (λ c. is_newer_child item.tenant_id (latest_descendant item s) c ≡ false)
          (values s.items)
unfolding latest_descendant newer_child above
latest_descendant-Descends item s = (
  descend-Descends item.tenant_id (values s.items) (length s.items) item item here,
  find?-none→All _ (values s.items) (
      descend-head item.tenant_id (values s.items) (length s.items) item (
        omega (
          arith,
          length-values s.items,
          count-le-length (λ (c : MemoryItem). ltb item.revision c.revision) (values s.items),
        ))),
)

pub Descends-revision :
    {tenant_id : ℕ} {items : List MemoryItem} {from to : MemoryItem}
    → Descends tenant_id items from to
    → (from ≡ to) ⊎ (from.revision < to.revision)
Descends-revision here = inl refl
Descends-revision (next d m t l r) = elim (Descends-revision d) [
  | inl e ↦ inr (rw e r)
  | inr h ↦ inr (omega arith)
]

pub Descends-In :
    {tenant_id : ℕ} {items : List MemoryItem} {from to : MemoryItem}
    → Descends tenant_id items from to
    → from.revision < to.revision
    → In to items
Descends-In here h = absurd (omega arith)
Descends-In (next d m t l r) h = m
