-- ===== src/Domain/Kinds.antt =====
-- domain/models.py: the enumerations of a memory item, compared by `==`.
use universal_agent_memory.Prelude.{ℕ, ◌≡◌, ◌↔◌, true, arith, eqb, Eq}

pub data MemoryLayer : Type 0 where
  working core episodic semantic procedural social reflection error : MemoryLayer

pub data MemoryScope : Type 0 where
  private thread team workspace organization : MemoryScope

pub data MemoryStatus : Type 0 where
  active stale deprecated disputed hypothesis rejected archived pinned : MemoryStatus

abbrev layer_index : MemoryLayer → ℕ
layer_index working = 0
layer_index core = 1
layer_index episodic = 2
layer_index semantic = 3
layer_index procedural = 4
layer_index social = 5
layer_index reflection = 6
layer_index error = 7

abbrev scope_index : MemoryScope → ℕ
scope_index private = 0
scope_index thread = 1
scope_index team = 2
scope_index workspace = 3
scope_index organization = 4

abbrev status_index : MemoryStatus → ℕ
status_index active = 0
status_index stale = 1
status_index deprecated = 2
status_index disputed = 3
status_index hypothesis = 4
status_index rejected = 5
status_index archived = 6
status_index pinned = 7

pub layer_beq_iff : (a b : MemoryLayer) → (eqb (layer_index a) (layer_index b) ≡ true) ↔ (a ≡ b)
layer_beq_iff a b = ground arith

pub scope_beq_iff : (a b : MemoryScope) → (eqb (scope_index a) (scope_index b) ≡ true) ↔ (a ≡ b)
scope_beq_iff a b = ground arith

pub status_beq_iff : (a b : MemoryStatus) → (eqb (status_index a) (status_index b) ≡ true) ↔ (a ≡ b)
status_beq_iff a b = ground arith

instance abbrev pub layer_eq : Eq MemoryLayer
layer_eq = record { equal = λ a b. eqb (layer_index a) (layer_index b); equal_iff = layer_beq_iff }

instance abbrev pub scope_eq : Eq MemoryScope
scope_eq = record { equal = λ a b. eqb (scope_index a) (scope_index b); equal_iff = scope_beq_iff }

instance abbrev pub status_eq : Eq MemoryStatus
status_eq = record {
  equal = λ a b. eqb (status_index a) (status_index b);
  equal_iff = status_beq_iff;
}
