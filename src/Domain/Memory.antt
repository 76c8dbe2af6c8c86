-- ===== src/Domain/Memory.antt =====
-- domain/models.py: memory items, the checks of `__post_init__`, and their revisions. Times are
-- numbers of microseconds, UUIDs are their 128-bit values, scores are in millionths; the clock and
-- the fresh UUID of `supersede` are arguments.
pub mod Laws
use universal_agent_memory.Prelude.{
  ℕ, ◌+◌, Bool, true, false, not, ◌&&◌, ◌||◌, Option, none, some, List, ltb, leb, if◌then◌else◌,
  ◌==◌, Score, in_unit,
}
use universal_agent_memory.Text.{Text, is_blank}
use universal_agent_memory.Domain.Errors.{Result, ok, value_error, raise_if, ◌>>=◌, ◌>>◌}
use universal_agent_memory.Domain.Json.{Metadata}
use universal_agent_memory.Domain.Kinds.{
  MemoryLayer, MemoryScope, MemoryStatus, layer_eq, scope_eq, status_eq, core, private, thread,
  pinned,
}

pub record Provenance : Type 0 where
  pub source_kind : Text
  pub origin_uri : Option Text
  pub object_key : Option Text
  pub checksum_sha256 : Option Text
  pub quote : Option Text
  pub extraction_version : Text

pub record MemoryItem : Type 0 where
  pub tenant_id : ℕ
  pub workspace_id : ℕ
  pub layer : MemoryLayer
  pub scope : MemoryScope
  pub kind : Text
  pub text : Text
  pub provenance : Provenance
  pub id : ℕ
  pub agent_id : Option ℕ
  pub thread_id : Option ℕ
  pub labels : List Text
  pub metadata : Metadata
  pub status : MemoryStatus
  pub importance : Score
  pub salience : Score
  pub confidence : Score
  pub observed_at : ℕ
  pub valid_from : Option ℕ
  pub valid_to : Option ℕ
  pub created_at : ℕ
  pub revision : ℕ
  pub supersedes_id : Option ℕ

-- `valid_from and valid_to and valid_to <= valid_from`
abbrev pub is_empty_period : Option ℕ → Option ℕ → Bool
is_empty_period (some from) (some to) = leb to from
is_empty_period _ _ = false

abbrev pub is_none {ℓ} : {A : Type ℓ} → Option A → Bool
is_none none = true
is_none (some a) = false

-- `MemoryItem.__post_init__`
unfoldable pub post_init : MemoryItem → Result MemoryItem
post_init self = do
  raise_if (is_blank self.text) (value_error "memory text must not be empty")
  raise_if (not (in_unit self.importance)) (value_error "importance must be between 0 and 1")
  raise_if (not (in_unit self.salience)) (value_error "salience must be between 0 and 1")
  raise_if (not (in_unit self.confidence)) (value_error "confidence must be between 0 and 1")
  raise_if (is_empty_period self.valid_from self.valid_to)
      (value_error "valid_to must be after valid_from")
  raise_if (self.scope == thread && is_none self.thread_id)
      (value_error "thread-scoped memory requires thread_id")
  raise_if (self.scope == private && is_none self.agent_id)
      (value_error "private memory requires agent_id")
  raise_if (self.status == pinned && not (self.layer == core))
      (value_error "pinned memory must live in the core layer")
  ok self

abbrev pub before_start : ℕ → Option ℕ → Bool
before_start moment none = false
before_start moment (some from) = ltb moment from

abbrev pub after_end : ℕ → Option ℕ → Bool
after_end moment none = false
after_end moment (some to) = leb to moment

-- `MemoryItem.is_valid_at`
unfoldable pub is_valid_at : MemoryItem → ℕ → Bool
is_valid_at self moment =
    not (before_start moment self.valid_from || after_end moment self.valid_to)

abbrev pub or_else {ℓ} : {A : Type ℓ} → Option A → A → A
or_else none a = a
or_else (some b) a = b

-- `MemoryItem.supersede`; `replace` runs `__post_init__` on the new item.
unfoldable pub supersede :
    MemoryItem → Text → Option Score → Option MemoryStatus → ℕ → ℕ → Result MemoryItem
supersede self replacement_text confidence status new_id now = post_init (record self {
  id = new_id;
  text = replacement_text;
  confidence = or_else confidence self.confidence;
  status = or_else status self.status;
  created_at = now;
  revision = self.revision + 1;
  supersedes_id = some self.id;
})
