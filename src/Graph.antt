-- ===== src/Graph.antt =====
-- The graph of memories: domain/graph.py, services/graph.py, and save_edge, list_neighbors and
-- list_edges_for_workspace of adapters/in_memory.py.
use universal_agent_memory.Prelude.{
  ℕ, Bool, true, false, not, ◌&&◌, ◌||◌, ◌≡◌, ◌↔◌, Option, none, some, List, ltb, leb, eqb, min,
  max, arith, ◌==◌, Eq, nat_eq, filter, take, Score, in_unit,
}
use universal_agent_memory.Sorting.{sort}
use universal_agent_memory.Dict
use universal_agent_memory.Dict.{Dict, values}
use universal_agent_memory.Domain.Errors.{Result, ok, err, key_error, value_error, raise_if, ◌>>◌}
use universal_agent_memory.Domain.Memory.{is_empty_period}
use universal_agent_memory.Domain.Records.{AuditEvent}
use universal_agent_memory.Store
use universal_agent_memory.Store.{MemoryStore, append_audit_if_given}

pub data MemoryEdgeType : Type 0 where
  supports contradicts derived_from same_entity caused_by owned_by_agent from_thread supersedes :
      MemoryEdgeType

abbrev edge_index : MemoryEdgeType → ℕ
edge_index supports = 0
edge_index contradicts = 1
edge_index derived_from = 2
edge_index same_entity = 3
edge_index caused_by = 4
edge_index owned_by_agent = 5
edge_index from_thread = 6
edge_index supersedes = 7

pub edge_beq_iff : (a b : MemoryEdgeType) → (eqb (edge_index a) (edge_index b) ≡ true) ↔ (a ≡ b)
edge_beq_iff a b = ground arith

instance abbrev pub edge_type_eq : Eq MemoryEdgeType
edge_type_eq = record { equal = λ a b. eqb (edge_index a) (edge_index b); equal_iff = edge_beq_iff }

pub record MemoryEdge : Type 0 where
  pub tenant_id : ℕ
  pub workspace_id : ℕ
  pub src_id : ℕ
  pub dst_id : ℕ
  pub edge_type : MemoryEdgeType
  pub id : ℕ
  pub weight : Score
  pub valid_from : Option ℕ
  pub valid_to : Option ℕ
  pub provenance_item_id : Option ℕ
  pub created_at : ℕ

-- `MemoryEdge.__post_init__`
unfoldable pub edge_post_init : MemoryEdge → Result MemoryEdge
edge_post_init self = do
  raise_if (self.src_id == self.dst_id) (value_error "memory edge cannot point to itself")
  raise_if (not (in_unit self.weight)) (value_error "edge weight must be between 0 and 1")
  raise_if (is_empty_period self.valid_from self.valid_to)
      (value_error "valid_to must be after valid_from")
  ok self

-- The edges beside the store of memory items.
pub record GraphStore : Type 0 where
  pub edges : Dict ℕ MemoryEdge
  pub memory : MemoryStore

abbrev pub edge_or : Option MemoryEdge → MemoryEdge → MemoryEdge
edge_or none edge = edge
edge_or (some stored) edge = stored

-- `save_edge`: `setdefault`, and what is stored then.
unfoldable pub save_edge : MemoryEdge → Option AuditEvent → GraphStore → MemoryEdge × GraphStore
save_edge edge audit s = (
  edge_or (Dict.get edge.id s.edges) edge,
  record {
    edges = Dict.set_default edge.id edge s.edges;
    memory = append_audit_if_given audit s.memory;
  },
)

abbrev pub is_type : Option MemoryEdgeType → MemoryEdge → Bool
is_type none edge = true
is_type (some wanted) edge = edge.edge_type == wanted

-- `(edge.created_at, edge.id) > (after_created_at, after_edge_id)`, if both are given
abbrev pub is_behind : Option ℕ → Option ℕ → MemoryEdge → Bool
is_behind (some at) (some id) edge =
    ltb at edge.created_at || (edge.created_at == at && ltb id edge.id)
is_behind _ _ edge = true

-- The sort key `(created_at, id)`
unfoldable pub edge_not_after : MemoryEdge → MemoryEdge → Bool
edge_not_after a b =
    ltb a.created_at b.created_at || (a.created_at == b.created_at && leb a.id b.id)

-- `list_neighbors`
unfoldable pub list_neighbors :
    ℕ → ℕ → ℕ → Option MemoryEdgeType → Option ℕ → Option ℕ → ℕ → GraphStore → List MemoryEdge
list_neighbors tenant_id workspace_id item_id edge_type after_created_at after_edge_id limit s =
    take (max 1 (min limit 501)) (
      sort edge_not_after (
        filter
          (λ edge.
            edge.tenant_id == tenant_id
            && edge.workspace_id == workspace_id
            && (edge.src_id == item_id || edge.dst_id == item_id)
            && is_type edge_type edge
            && is_behind after_created_at after_edge_id edge)
          (values s.edges)))

unfoldable pub is_edge_of : ℕ → ℕ → MemoryEdge → Bool
is_edge_of tenant_id workspace_id edge =
    edge.tenant_id == tenant_id && edge.workspace_id == workspace_id

-- `list_edges_for_workspace`
unfoldable pub list_edges_for_workspace : ℕ → ℕ → GraphStore → List MemoryEdge
list_edges_for_workspace tenant_id workspace_id s =
    sort edge_not_after (filter (is_edge_of tenant_id workspace_id) (values s.edges))

-- `GraphService.link`, of the edge that it constructs when the endpoints are there; the edge has a
-- fresh identity and a time.
unfoldable pub link : MemoryEdge → Option AuditEvent → GraphStore → Result MemoryEdge × GraphStore
link edge audit s = elim (Store.get edge.tenant_id edge.src_id s.memory) [
  | none ↦ (err (key_error "memory edge endpoint not found"), s)
  | some src ↦ elim (Store.get edge.tenant_id edge.dst_id s.memory) [
    | none ↦ (err (key_error "memory edge endpoint not found"), s)
    | some dst ↦
        elim (not (src.workspace_id == edge.workspace_id)
          || not (dst.workspace_id == edge.workspace_id)) [
            | true ↦ (err (value_error "memory edge endpoints must share workspace"), s)
            | false ↦ elim (edge_post_init edge) [
              | err e ↦ (err e, s)
              | ok checked ↦ let saved = save_edge checked audit s in (ok saved.0, saved.1)
            ]
          ]
  ]
]
