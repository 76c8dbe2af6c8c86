-- ===== src/Proposals.antt =====
-- Proposed memory changes: domain/proposal.py, append_proposal, get_proposal, save_proposal_review
-- and accept_proposal_with_memory of adapters/in_memory.py, and reject of services/proposals.py.
-- The text of an identity is a parameter, `text_of_id`.
pub mod Review
use universal_agent_memory.Prelude.{
  ℕ, Bool, true, false, not, ◌&&◌, ◌||◌, ◌↔◌, ◌≡◌, Option, none, some, List, [], ◌∷◌, arith, ltb,
  leb, eqb, if◌then◌else◌, ◌==◌, nat_eq, list_eq, pair_eq, Eq, take, filter, find?, Score, in_unit,
}
use universal_agent_memory.Text.{Text, text, strip, is_blank}
use universal_agent_memory.Sorting.{sort}
use universal_agent_memory.Dict
use universal_agent_memory.Dict.{Dict, values}
use universal_agent_memory.Domain.Errors.{
  Result, ok, err, key_error, value_error, runtime_error, raise_if, ◌>>=◌, ◌>>◌,
}
use universal_agent_memory.Domain.Json.{Json, Metadata, str}
use universal_agent_memory.Domain.Memory.{MemoryItem}
use universal_agent_memory.Domain.Records.{IntegrationEvent, AuditEvent}
use universal_agent_memory.Store.{
  MemoryStore, ScopedKey, publish, append_audit_if_given, scope_idempotency_key,
}

pub data ProposalTarget : Type 0 where
  auto fact preference decision task graph procedure : ProposalTarget

pub data ProposalStatus : Type 0 where
  opened needs_review accepted rejected : ProposalStatus

abbrev status_number : ProposalStatus → ℕ
status_number opened = 0
status_number needs_review = 1
status_number accepted = 2
status_number rejected = 3

pub status_number_iff :
    (a b : ProposalStatus) → (eqb (status_number a) (status_number b) ≡ true) ↔ (a ≡ b)
status_number_iff a b = ground arith

instance abbrev pub proposal_status_eq : Eq ProposalStatus
proposal_status_eq = record {
  equal = λ a b. eqb (status_number a) (status_number b);
  equal_iff = status_number_iff;
}

pub record MemoryProposal : Type 0 where
  pub tenant_id : ℕ
  pub workspace_id : ℕ
  pub namespace : Text
  pub requester : Text
  pub target : ProposalTarget
  pub proposal : Text
  pub evidence : Text
  pub id : ℕ
  pub agent_id : Option ℕ
  pub thread_id : Option ℕ
  pub confidence : Score
  pub importance : Score
  pub status : ProposalStatus
  pub metadata : Metadata
  pub created_at : ℕ
  pub reviewed_at : Option ℕ
  pub reviewer : Option Text
  pub review_reason : Text

-- `MemoryProposal.__post_init__`
unfoldable pub proposal_post_init : MemoryProposal → Result MemoryProposal
proposal_post_init self = do
  raise_if (is_blank self.namespace) (value_error "proposal namespace must not be empty")
  raise_if (is_blank self.requester) (value_error "proposal requester must not be empty")
  raise_if (is_blank self.proposal) (value_error "proposal text must not be empty")
  raise_if (not (in_unit self.confidence)) (value_error "confidence must be between 0 and 1")
  raise_if (not (in_unit self.importance)) (value_error "importance must be between 0 and 1")
  ok self

-- The proposals beside the store of memory items.
pub record ProposalLedger : Type 0 where
  pub proposals : Dict ℕ MemoryProposal
  pub proposal_idempotency : Dict (ℕ × ScopedKey) ℕ
  pub memory : MemoryStore

unfoldable pub prior_proposal_id : ℕ → Option ScopedKey → ProposalLedger → Option ℕ
prior_proposal_id tenant_id none s = none
prior_proposal_id tenant_id (some key) s = Dict.get (tenant_id, key) s.proposal_idempotency

unfoldable pub record_proposal_key :
    ℕ → Option ScopedKey → ℕ → Dict (ℕ × ScopedKey) ℕ → Dict (ℕ × ScopedKey) ℕ
record_proposal_key tenant_id none id keys = keys
record_proposal_key tenant_id (some key) id keys = Dict.put (tenant_id, key) id keys

-- `self._proposals[existing_id], False`
unfoldable pub replay_proposal : ℕ → ProposalLedger → Result (MemoryProposal × Bool)
replay_proposal existing_id s = elim (Dict.get existing_id s.proposals) [
  | none ↦ err (key_error "proposal")
  | some proposal ↦ ok (proposal, false)
]

-- `append_proposal`
unfoldable pub append_proposal :
    MemoryProposal
    → Option Text
    → Option AuditEvent
    → ProposalLedger
    → Result (MemoryProposal × Bool) × ProposalLedger
unfolding scope_idempotency_key prior_proposal_id record_proposal_key replay_proposal
append_proposal proposal idempotency_key audit s =
    let key = scope_idempotency_key proposal.workspace_id idempotency_key in
    elim (prior_proposal_id proposal.tenant_id key s) [
      | some existing_id ↦ (replay_proposal existing_id s, s)
      | none ↦ (
        ok (proposal, true),
        record {
          proposals = Dict.put proposal.id proposal s.proposals;
          proposal_idempotency =
              record_proposal_key proposal.tenant_id key proposal.id s.proposal_idempotency;
          memory = append_audit_if_given audit s.memory;
        },
      )
    ]

abbrev pub proposal_of : ℕ → Option MemoryProposal → Option MemoryProposal
proposal_of tenant_id none = none
proposal_of tenant_id (some proposal) =
    if proposal.tenant_id == tenant_id then some proposal else none

-- `get_proposal`
unfoldable pub get_proposal : ℕ → ℕ → ProposalLedger → Option MemoryProposal
get_proposal tenant_id proposal_id s = proposal_of tenant_id (Dict.get proposal_id s.proposals)

-- `save_proposal_review`
unfoldable pub save_proposal_review :
    MemoryProposal → Option AuditEvent → ProposalLedger → Result MemoryProposal × ProposalLedger
save_proposal_review proposal audit s = elim (get_proposal proposal.tenant_id proposal.id s) [
  | none ↦ (err (key_error "memory proposal not found"), s)
  | some current ↦ (
    ok proposal,
    record s {
      proposals = Dict.put proposal.id proposal s.proposals;
      memory = append_audit_if_given audit s.memory;
    },
  )
]

abbrev pub reviewer_or_operator : Text → Text
reviewer_or_operator [] = text "operator"
reviewer_or_operator (c ∷ s) = c ∷ s

-- `replace(proposal, status=…, reviewed_at=…, reviewer=…, review_reason=…, metadata=…)`, as
-- `_reviewed_proposal` of services/proposals.py and the ledger have it.
unfoldable pub reviewed_proposal :
    MemoryProposal → ProposalStatus → Text → Text → Metadata → ℕ → MemoryProposal
reviewed_proposal proposal status reviewer reason metadata now = record proposal {
  status = status;
  reviewed_at = some now;
  reviewer = some (reviewer_or_operator (take 120 (strip reviewer)));
  review_reason = take 1000 (strip reason);
  metadata = metadata;
}

-- The item with the given text for its identity.
abbrev pub item_named : (ℕ → Text) → Text → List MemoryItem → Option MemoryItem
item_named text_of_id name items = find? (λ item. text_of_id item.id == name) items

-- `accepted_id = current.metadata.get("accepted_memory_id")` and the loop that looks for it.
unfoldable pub accepted_item : (ℕ → Text) → MemoryProposal → MemoryStore → Option MemoryItem
accepted_item text_of_id current memory =
    elim (Dict.get (text "accepted_memory_id") current.metadata) [
      | some (str name) ↦ item_named text_of_id name (values memory.items)
      | _ ↦ none
    ]

-- What `accept_proposal_with_memory` returns.
abbrev pub Accepted : Type 0
Accepted = MemoryProposal × MemoryItem × Bool

-- A repeated call: the item of the key.
unfoldable pub replay_accept : MemoryProposal → ℕ → MemoryStore → Result Accepted
replay_accept current existing_id memory = elim (Dict.get existing_id memory.items) [
  | none ↦ err (key_error "item")
  | some item ↦ ok (current, item, false)
]

-- The branch for a proposal that is accepted.
unfoldable pub find_accepted : (ℕ → Text) → MemoryProposal → MemoryStore → Result Accepted
find_accepted text_of_id current memory = elim (accepted_item text_of_id current memory) [
  | none ↦ err (runtime_error "accepted proposal is missing its durable memory")
  | some item ↦ ok (current, item, false)
]

-- The writes.
unfoldable pub commit_accept :
    (ℕ → Text)
    → MemoryProposal
    → MemoryItem
    → IntegrationEvent
    → Text
    → Text
    → ScopedKey
    → Option AuditEvent
    → ℕ
    → ProposalLedger
    → Result Accepted × ProposalLedger
commit_accept text_of_id current item event reviewer reason key audit now s =
    let reviewed =
      reviewed_proposal current accepted reviewer reason
        (Dict.put (text "accepted_memory_id") (str (text_of_id item.id)) current.metadata) now in
    let stored = record s.memory {
      items = Dict.put item.id item s.memory.items;
      idempotency = Dict.put (item.tenant_id, key) item.id s.memory.idempotency;
    } in
    (
      ok (reviewed, item, true),
      record s {
        proposals = Dict.put current.id reviewed s.proposals;
        memory = append_audit_if_given audit (publish event stored);
      },
    )

-- `accept_proposal_with_memory`
unfoldable pub accept_proposal_with_memory :
    (ℕ → Text)
    → MemoryProposal
    → MemoryItem
    → IntegrationEvent
    → Text
    → Text
    → Text
    → Option AuditEvent
    → ℕ
    → ProposalLedger
    → Result Accepted × ProposalLedger
accept_proposal_with_memory text_of_id proposal item event reviewer reason idempotency_key audit now
      s =
    let key : ScopedKey = (item.workspace_id, idempotency_key) in
    elim (get_proposal proposal.tenant_id proposal.id s) [
      | none ↦ (err (key_error "memory proposal not found"), s)
      | some current ↦ elim (current.status == rejected) [
        | true ↦ (err (value_error "rejected proposal cannot be accepted"), s)
        | false ↦ elim (Dict.get (item.tenant_id, key) s.memory.idempotency) [
          | some existing_id ↦ (replay_accept current existing_id s.memory, s)
          | none ↦ elim (current.status == accepted) [
            | true ↦ (find_accepted text_of_id current s.memory, s)
            | false ↦ commit_accept text_of_id current item event reviewer reason key audit now s
          ]
        ]
      ]
    ]

-- `replace(audit_event, workspace_id=proposal.workspace_id, resource_id=str(proposal.id))`
unfoldable pub audit_of_proposal :
    (ℕ → Text) → MemoryProposal → Option AuditEvent → Option AuditEvent
audit_of_proposal text_of_id proposal none = none
audit_of_proposal text_of_id proposal (some event) = some (record event {
  workspace_id = some proposal.workspace_id;
  resource_id = some (text_of_id proposal.id);
})

-- What `MemoryProposalService.reject` does with the proposal that it has read.
unfoldable pub reject_after :
    (ℕ → Text)
    → MemoryProposal
    → Text
    → Text
    → Option AuditEvent
    → ℕ
    → ProposalLedger
    → Result MemoryProposal × ProposalLedger
reject_after text_of_id proposal reviewer reason audit now s =
    if proposal.status == accepted
    then (err (value_error "accepted proposal cannot be rejected"), s)
    else save_proposal_review
        (reviewed_proposal proposal rejected reviewer reason proposal.metadata now)
        (audit_of_proposal text_of_id proposal audit) s

-- `MemoryProposalService.reject`
unfoldable pub reject :
    (ℕ → Text)
    → ℕ
    → ℕ
    → Text
    → Text
    → Option AuditEvent
    → ℕ
    → ProposalLedger
    → Result MemoryProposal × ProposalLedger
unfolding reject_after
reject text_of_id tenant_id proposal_id reviewer reason audit now s =
    elim (get_proposal tenant_id proposal_id s) [
      | none ↦ (err (key_error "memory proposal not found"), s)
      | some proposal ↦ reject_after text_of_id proposal reviewer reason audit now s
    ]
