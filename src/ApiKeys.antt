-- ===== src/ApiKeys.antt =====
-- The registry of API keys: domain/api_key.py, services/api_keys.py and the registry's methods of
-- `InMemoryMemoryStore` in adapters/in_memory.py. `str.lower` is a parameter.
pub mod Change
pub mod Revoked
use universal_agent_memory.Prelude.{
  ℕ, zero, suc, Bool, true, false, not, ◌&&◌, ◌||◌, Option, none, some, List, [], ◌∷◌, map, ltb,
  leb, eqb, if◌then◌else◌, ◌==◌, nat_eq, list_eq, filter, find?,
}
use universal_agent_memory.Text.{Text, text, strip, is_blank}
use universal_agent_memory.Sorting.{sort}
use universal_agent_memory.Dict
use universal_agent_memory.Dict.{Dict, values}
use universal_agent_memory.Domain.Errors.{
  Result, ok, err, key_error, value_error, raise_if, ◌>>=◌, ◌>>◌,
}
use universal_agent_memory.Turns.{is_empty_list}
use universal_agent_memory.Privacy.{text_leb}

pub record ApiKeyRecord : Type 0 where
  pub tenant_id : ℕ
  pub name : Text
  pub secret_fingerprint : Text
  pub scopes : List Text
  pub id : ℕ
  pub created_at : ℕ
  pub last_used_at : Option ℕ
  pub revoked_at : Option ℕ
  pub revoked_reason : Text

-- `tuple(scope.strip().lower() for scope in self.scopes if scope.strip())`
unfoldable pub normalize_scopes : (Text → Text) → List Text → List Text
normalize_scopes lower scopes =
    map (λ scope. lower (strip scope)) (filter (λ scope. not (is_blank scope)) scopes)

-- `ApiKeyRecord.__post_init__`
unfoldable pub key_post_init : (Text → Text) → ApiKeyRecord → Result ApiKeyRecord
unfolding normalize_scopes
key_post_init lower self = do
  raise_if (is_blank self.name) (value_error "api key name must not be empty")
  raise_if (is_blank self.secret_fingerprint) (value_error "api key fingerprint must not be empty")
  raise_if (is_empty_list self.scopes) (value_error "api key scopes must not be empty")
  raise_if (is_empty_list (normalize_scopes lower self.scopes))
      (value_error "api key scopes must not be empty")
  ok (record self { scopes = normalize_scopes lower self.scopes })

-- `ApiKeyRecord.revoked`
unfoldable pub revoked : ApiKeyRecord → Bool
revoked self = elim (self.revoked_at) [ none ↦ false | some at ↦ true ]

-- `self._api_keys`
abbrev pub KeyTable : Type 0
KeyTable = Dict ℕ ApiKeyRecord

-- `save_api_key_record`
unfoldable pub save_api_key_record : ApiKeyRecord → KeyTable → ApiKeyRecord × KeyTable
save_api_key_record key keys = (key, Dict.put key.id key keys)

-- `get_api_key_by_fingerprint`
unfoldable pub get_api_key_by_fingerprint : ℕ → Text → KeyTable → Option ApiKeyRecord
get_api_key_by_fingerprint tenant_id secret_fingerprint keys =
    find? (λ key. key.tenant_id == tenant_id && key.secret_fingerprint == secret_fingerprint)
      (values keys)

-- `self._api_keys[id] = updated; return updated`, where the constructor accepts `updated`.
unfoldable pub store_checked : Result ApiKeyRecord → KeyTable → Result ApiKeyRecord × KeyTable
store_checked (err e) keys = (err e, keys)
store_checked (ok updated) keys = (ok updated, Dict.put updated.id updated keys)

-- `touch_api_key`; `ok none` is the return of `None`.
unfoldable pub touch_api_key :
    (Text → Text) → ℕ → Text → ℕ → KeyTable → Result (Option ApiKeyRecord) × KeyTable
touch_api_key lower tenant_id secret_fingerprint used_at keys =
    elim (get_api_key_by_fingerprint tenant_id secret_fingerprint keys) [
      | none ↦ (ok none, keys)
      | some key ↦
          let stored =
            store_checked (key_post_init lower (record key { last_used_at = some used_at })) keys in
          (do updated ← stored.0; ok (some updated), stored.1)
    ]

-- The sort key `(name, created_at, id)`.
unfoldable pub key_not_after : ApiKeyRecord → ApiKeyRecord → Bool
key_not_after a b =
    not (text_leb b.name a.name)
    || (a.name == b.name
        && (ltb a.created_at b.created_at || (a.created_at == b.created_at && leb a.id b.id)))

-- `list_api_keys`
unfoldable pub list_api_keys : ℕ → KeyTable → List ApiKeyRecord
list_api_keys tenant_id keys =
    sort key_not_after (filter (λ key. key.tenant_id == tenant_id) (values keys))

-- `revoke_api_key`
unfoldable pub revoke_api_key :
    (Text → Text) → ℕ → ℕ → ℕ → Text → KeyTable → Result ApiKeyRecord × KeyTable
revoke_api_key lower tenant_id key_id revoked_at reason keys = elim (Dict.get key_id keys) [
  | none ↦ (err (key_error "api key not found"), keys)
  | some key ↦
      if key.tenant_id == tenant_id
      then store_checked
          (key_post_init lower
            (record key { revoked_at = some revoked_at; revoked_reason = reason }))
          keys
      else (err (key_error "api key not found"), keys)
]

-- A record for a key that the registry does not know; its identity and time are arguments.
unfoldable pub new_key : ℕ → Text → Text → List Text → ℕ → ℕ → ApiKeyRecord
new_key tenant_id name secret_fingerprint scopes id now = record {
  tenant_id = tenant_id;
  name = name;
  secret_fingerprint = secret_fingerprint;
  scopes = scopes;
  id = id;
  created_at = now;
  last_used_at = none;
  revoked_at = none;
  revoked_reason = [];
}

-- `ApiKeyRegistryService.ensure_configured_key`
unfoldable pub ensure_configured_key :
    (Text → Text) → ℕ → Text → Text → List Text → ℕ → ℕ → KeyTable → Result ApiKeyRecord × KeyTable
ensure_configured_key lower tenant_id name secret_fingerprint scopes id now keys =
    elim (get_api_key_by_fingerprint tenant_id secret_fingerprint keys) [
      | none ↦
          store_checked
            (key_post_init lower (new_key tenant_id name secret_fingerprint scopes id now)) keys
      | some existing ↦
          if existing.name == name && existing.scopes == scopes
          then (ok existing, keys)
          else store_checked
              (key_post_init lower (record existing {
                tenant_id = tenant_id;
                name = name;
                secret_fingerprint = secret_fingerprint;
                scopes = scopes;
              }))
              keys
    ]
