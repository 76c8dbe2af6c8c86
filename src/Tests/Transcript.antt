-- ===== src/Tests/Transcript.antt =====
-- Examples for conversation turns.
use universal_agent_memory.Prelude.{ℕ, ◌≡◌, refl, none, some, [], ◌∷◌, nat_eq}
use universal_agent_memory.Text.{text, is_blank, is_space}
use universal_agent_memory.Dict
use universal_agent_memory.Domain.Errors.{ok}
use universal_agent_memory.Store.{empty}
use universal_agent_memory.Turns.{
  ConversationMessage, ConversationTurn, TurnLedger, raw_and_curated, turn_post_init, get_turn,
  purge_turn_content,
}
use universal_agent_memory.Turns.Purge.{IsPurged, purge-IsPurged}

abbrev message : ConversationMessage
message = record { role = text "user"; content = text "I like tea"; name = none; metadata = [] }

abbrev turn : ℕ → ConversationTurn
turn id = record {
  tenant_id = 1;
  workspace_id = 2;
  thread_id = 3;
  messages = message ∷ [];
  id = id;
  namespace = text "default";
  agent_id = none;
  source_kind = text "api";
  retention_policy = raw_and_curated;
  metadata = [];
  created_at = 10;
  expires_at = none;
}

accepts_turn : turn_post_init (turn 21) ≡ ok (turn 21)
unfolding turn_post_init is_blank is_space
accepts_turn = refl

abbrev ledger : TurnLedger
ledger = record {
  turns = (21, turn 21) ∷ (22, turn 22) ∷ [];
  turn_idempotency = [];
  memory = empty;
}

finds_turn : get_turn 1 21 ledger ≡ some (turn 21)
unfolding get_turn Dict.get
finds_turn = refl

purge-IsPurged_example :
    IsPurged 1 21 ledger (get_turn 1 21 ledger) (purge_turn_content 1 21 ledger)
purge-IsPurged_example = purge-IsPurged 1 21 ledger
