-- ===== src/Turns/Purge.antt =====
-- Proofs on `purge_turn_content` of adapters/in_memory.py.
use universal_agent_memory.Prelude.{
  ℕ, ◌≡◌, refl, sym, ap, ◌∙◌, inl, inr, Bool, true, false, Option, none, some, List, [], ◌∷◌, map,
  arith, nat_eq, list_eq, Option-cases, eqb, ◌==◌, if◌then◌else◌,
}
use mathlib.Core.Path.{subst}
use universal_agent_memory.Text.{Text, text}
use universal_agent_memory.Dict
use universal_agent_memory.Dict.{get-put, get-put_self}
use universal_agent_memory.Domain.Json.{Metadata, str, obj, field, end}
use universal_agent_memory.Turns.{
  ConversationTurn, ConversationMessage, TurnLedger, turn_of, get_turn, purged_turn, purged_message,
  purge_with_reason, purge_turn_content, with_retention,
}

abbrev pub reason : Text
reason = text "purged_after_curation"

-- Each entry of the metadata is as it was, but for the note under `retention`.
abbrev pub IsNoted : Metadata → Metadata → Type 0
IsNoted old new =
    (key : Text)
    → Dict.get key new ≡ (
        if text "retention" == key
        then some (obj (field (text "raw_content") (str (text "purged_after_curation")) end))
        else Dict.get key old)

-- The messages one by one: the content is the marker, and the rest is as it was.
abbrev pub AreRedacted : List ConversationMessage → List ConversationMessage → Type 0
AreRedacted [] [] = Unit
AreRedacted (m ∷ ms) (n ∷ ns) =
    (n.role ≡ m.role)
    × (n.content ≡ text "[PURGED_AFTER_CURATION]")
    × (n.name ≡ m.name)
    × IsNoted m.metadata n.metadata
    × AreRedacted ms ns
AreRedacted _ _ = ⊥

-- The turn with its messages redacted and a note of it.
pub record IsRedactionOf (turn new : ConversationTurn) : Type 0 where
  pub same_tenant : new.tenant_id ≡ turn.tenant_id
  pub same_workspace : new.workspace_id ≡ turn.workspace_id
  pub same_thread : new.thread_id ≡ turn.thread_id
  pub same_id : new.id ≡ turn.id
  pub same_namespace : new.namespace ≡ turn.namespace
  pub same_agent : new.agent_id ≡ turn.agent_id
  pub same_source : new.source_kind ≡ turn.source_kind
  pub same_policy : new.retention_policy ≡ turn.retention_policy
  pub same_creation : new.created_at ≡ turn.created_at
  pub same_expiry : new.expires_at ≡ turn.expires_at
  pub redacted_messages : AreRedacted turn.messages new.messages
  pub noted : IsNoted turn.metadata new.metadata

with_retention-IsNoted : (metadata : Metadata) → IsNoted metadata (with_retention reason metadata)
unfolding with_retention
with_retention-IsNoted metadata key = get-put (text "retention") key _ metadata

purged_message-AreRedacted :
    (messages : List ConversationMessage)
    → AreRedacted messages (map (purged_message reason) messages)
unfolding purged_message
purged_message-AreRedacted [] = tt
purged_message-AreRedacted (m ∷ ms) =
    (refl, refl, refl, with_retention-IsNoted m.metadata, purged_message-AreRedacted ms)

purged_turn-IsRedactionOf : (turn : ConversationTurn) → IsRedactionOf turn (purged_turn reason turn)
unfolding purged_turn
purged_turn-IsRedactionOf turn = record {
  same_tenant = refl;
  same_workspace = refl;
  same_thread = refl;
  same_id = refl;
  same_namespace = refl;
  same_agent = refl;
  same_source = refl;
  same_policy = refl;
  same_creation = refl;
  same_expiry = refl;
  redacted_messages = purged_message-AreRedacted turn.messages;
  noted = with_retention-IsNoted turn.metadata;
}

-- What a purge answers and leaves, for the turn that the tenant had under the identity.
abbrev pub IsPurged : ℕ → ℕ → TurnLedger → Option ConversationTurn → Bool × TurnLedger → Type 0
IsPurged tenant_id turn_id s none r = r ≡ (false, s)
IsPurged tenant_id turn_id s (some turn) r =
    (r.0 ≡ true)
    × ((new : ConversationTurn) × IsRedactionOf turn new
        × (get_turn tenant_id turn_id r.1 ≡ some new)
        × ((other : ℕ)
            → Dict.get other r.1.turns
              ≡ (if turn_id == other then some new else Dict.get other s.turns)))
    × (r.1.turn_idempotency ≡ s.turn_idempotency)
    × (r.1.memory ≡ s.memory)

get_turn-tenant :
    (t i : ℕ) (s : TurnLedger) (turn : ConversationTurn)
    → get_turn t i s ≡ some turn
    → eqb turn.tenant_id t ≡ true
unfolding get_turn
get_turn-tenant t i s turn h = elim (Option-cases (Dict.get i s.turns)) [
  | inl p ↦ absurd (ground (arith, p))
  | inr (x, p) ↦ ground (arith, p)
]

-- The ledger after the purge of a turn.
abbrev redacted : ℕ → ConversationTurn → TurnLedger → TurnLedger
redacted turn_id turn s = record {
  turns = Dict.put turn_id (purged_turn reason turn) s.turns;
  turn_idempotency = s.turn_idempotency;
  memory = s.memory;
}

purge-none :
    (t i : ℕ) (s : TurnLedger) → get_turn t i s ≡ none → purge_with_reason t i reason s ≡ (false, s)
unfolding purge_with_reason
purge-none t i s e = rw (e, purge_with_reason)

purge-some :
    (t i : ℕ) (s : TurnLedger) (turn : ConversationTurn)
    → get_turn t i s ≡ some turn
    → purge_with_reason t i reason s ≡ (true, redacted i turn s)
unfolding purge_with_reason
purge-some t i s turn e = rw (e, purge_with_reason)

get_turn-redacted :
    (t i : ℕ) (s : TurnLedger) (turn : ConversationTurn)
    → eqb turn.tenant_id t ≡ true
    → get_turn t i (redacted i turn s) ≡ some (purged_turn reason turn)
unfolding get_turn
get_turn-redacted t i s turn own =
    ap (turn_of t) (get-put_self i (purged_turn reason turn) s.turns)
    ∙ (unfold purged_turn in rw own refl)

-- A purge of a turn that the tenant does not have answers false and changes nothing. Otherwise it
-- answers true, and the tenant finds the turn with the marker for each message's content and the
-- retention note in the metadata of the turn and of each message, and with every other field and
-- entry as it was. What is stored under other identities stays, as do the keys of the turns and the
-- memory ledger.
pub purge-IsPurged :
    (tenant_id turn_id : ℕ) (s : TurnLedger)
    → IsPurged tenant_id turn_id s
        (get_turn tenant_id turn_id s)
        (purge_turn_content tenant_id turn_id s)
unfolding purge_turn_content
purge-IsPurged t i s = by_turn (get_turn t i s) refl
  where
    by_turn :
        (o : Option ConversationTurn)
        → get_turn t i s ≡ o
        → IsPurged t i s o (purge_with_reason t i reason s)
    by_turn none e = purge-none t i s e
    by_turn (some turn) e = subst (IsPurged t i s (some turn)) (sym (purge-some t i s turn e)) (
      refl,
      (
        purged_turn reason turn,
        purged_turn-IsRedactionOf turn,
        get_turn-redacted t i s turn (get_turn-tenant t i s turn e),
        (λ other. get-put i other (purged_turn reason turn) s.turns),
      ),
      refl,
      refl,
    )
