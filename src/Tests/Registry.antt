-- ===== src/Tests/Registry.antt =====
-- Examples for API keys, identities, workers, the audit trail and the checksum of card numbers.
use universal_agent_memory.Prelude.{
  ◌-◌, ◌≡◌, refl, true, false, none, some, [], ◌∷◌, ◌++◌, arith, any, all, nat_eq, list_eq, pair_eq,
  In, inl, inr,
}
use universal_agent_memory.Text.{Text, text}
use universal_agent_memory.Dict
use universal_agent_memory.Dict.{values}
use universal_agent_memory.Store.{MemoryStore, empty}
use universal_agent_memory.Privacy.{luhn_digits_valid, luhn_sum, luhn_digit}
use universal_agent_memory.Privacy.Luhn.{luhn_single_error}
use universal_agent_memory.ApiKeys.{
  ApiKeyRecord, KeyTable, revoked, get_api_key_by_fingerprint, touch_api_key,
}
use universal_agent_memory.ApiKeys.Change.{IsRegistry}
use universal_agent_memory.ApiKeys.Revoked.{FindsRevoked, start, step, touches, revoked_forever}
use universal_agent_memory.Identities.{
  IdentityStore, AgentIdentity, ProvisionIdentityCommand, provision,
}
use universal_agent_memory.Identities.Kept.{Keeps}
use universal_agent_memory.Identities.Ownership.{unchanged, provisions, ownership_permanent}
use universal_agent_memory.Workers.{WorkerHeartbeat, Heartbeats, workers_ready, worker_readiness}
use universal_agent_memory.Workers.Ready.{lives, worker_readiness_iff}
use universal_agent_memory.AuditLog.{prune_events}
use universal_agent_memory.AuditLog.Prune.{IsTrail, prune_events-keeps}
use universal_agent_memory.Tests.Samples.{audit}

abbrev same_text : Text → Text
same_text s = s

-- A card number of sixteen digits, and one mistake in its first digit.
valid_number :
    luhn_digits_valid ([] ++ (4 ∷ (5 ∷ 3 ∷ 9 ∷ 1 ∷ 4 ∷ 8 ∷ 8 ∷ 0 ∷ 3 ∷ 4 ∷ 3 ∷ 6 ∷ 4 ∷ 6 ∷ 7 ∷ [])))
    ≡ true
unfolding luhn_digits_valid luhn_sum luhn_digit
valid_number = refl

luhn_single_error_example :
    luhn_digits_valid ([] ++ (7 ∷ (5 ∷ 3 ∷ 9 ∷ 1 ∷ 4 ∷ 8 ∷ 8 ∷ 0 ∷ 3 ∷ 4 ∷ 3 ∷ 6 ∷ 4 ∷ 6 ∷ 7 ∷ [])))
    ≡ false
luhn_single_error_example =
    luhn_single_error [] (5 ∷ 3 ∷ 9 ∷ 1 ∷ 4 ∷ 8 ∷ 8 ∷ 0 ∷ 3 ∷ 4 ∷ 3 ∷ 6 ∷ 4 ∷ 6 ∷ 7 ∷ []) 4 7
      (omega arith) (omega arith) (omega arith) valid_number

abbrev key : ApiKeyRecord
key = record {
  tenant_id = 1;
  name = text "ci";
  secret_fingerprint = text "f1";
  scopes = text "read" ∷ [];
  id = 5;
  created_at = 10;
  last_used_at = none;
  revoked_at = some 20;
  revoked_reason = [];
}

abbrev keys : KeyTable
keys = (5, key) ∷ []

one_key :
    (a b : ApiKeyRecord)
    → In a (values keys)
    → In b (values keys)
    → a.tenant_id ≡ b.tenant_id
    → a.secret_fingerprint ≡ b.secret_fingerprint
    → a.id ≡ b.id
one_key a b (inl e) (inl f) p q = cc (e, f)
one_key a b (inl e) (inr n) p q = absurd n
one_key a b (inr m) n p q = absurd m

keys-IsRegistry : IsRegistry keys
unfolding Dict.get
keys-IsRegistry = ((refl, tt), (refl, tt), one_key)

free_id : Dict.get 6 keys ≡ none
unfolding Dict.get
free_id = refl

has_key : Dict.get 5 keys ≡ some key
unfolding Dict.get
has_key = refl

key-revoked : revoked key ≡ true
unfolding revoked
key-revoked = refl

revoked_forever_example :
    FindsRevoked
      (get_api_key_by_fingerprint 1 (text "f1") (touch_api_key same_text 1 (text "f1") 30 keys).1)
revoked_forever_example =
    revoked_forever {lower = same_text} 5 key keys-IsRegistry has_key key-revoked
      (step start (touches 1 (text "f1") 30))

abbrev agent : AgentIdentity
agent = record {
  id = 7;
  tenant_id = 1;
  workspace_id = 2;
  name = text "a";
  role = text "r";
  config = [];
}

abbrev owners : IdentityStore
owners = record { workspaces = []; agents = (7, agent) ∷ []; threads = [] }

abbrev command : ProvisionIdentityCommand
command = record {
  tenant_id = 1;
  workspace_id = 3;
  agent_id = 7;
  agent_name = text "a";
  agent_role = text "r";
  agent_config = [];
  thread_id = some 9;
  thread_status = text "active";
}

ownership_permanent_example : Keeps 7 9 2 owners (provision same_text command owners).1
ownership_permanent_example =
    ownership_permanent {lower = same_text} 7 9 2 (provisions command unchanged)

abbrev beat : WorkerHeartbeat
beat = record {
  tenant_id = 1;
  worker_kind = text "outbox";
  worker_id = text "w1";
  started_at = 10;
  last_seen_at = 95;
  status = text "running";
}

abbrev beats : Heartbeats
beats = ((1, (text "outbox", text "w1")), beat) ∷ []

worker_readiness_iff_example :
    workers_ready (worker_readiness 1 (text "outbox" ∷ []) 30 100 beats)
    ≡ all (λ kind. any (lives 1 (100 - 30) kind) (values beats)) (text "outbox" ∷ [])
worker_readiness_iff_example = worker_readiness_iff 1 (text "outbox" ∷ []) 30 100 beats

abbrev audited : MemoryStore
audited = record empty { audit_events = (70, audit) ∷ [] }

audited-IsTrail : IsTrail audited.audit_events
unfolding Dict.get
audited-IsTrail = ((refl, tt), (refl, tt))

has_event : Dict.get 70 audited.audit_events ≡ some audit
unfolding Dict.get
has_event = refl

prune_events-keeps_example :
    Dict.get 70 (prune_events 1 5 none 100 audited).1.audit_events ≡ some audit
prune_events-keeps_example =
    prune_events-keeps 1 5 none 100 audited 70 audited-IsTrail has_event (inr (inl (omega arith)))
