-- ===== src/ApiKeys/Revoked.antt =====
-- Proofs that the calls on the registry of API keys leave a revoked key revoked.
use mathlib.Core.Path.{subst}
use universal_agent_memory.Prelude.{
  ℕ, ◌≡◌, refl, sym, ap, ◌∙◌, inl, inr, true, ◌&&◌, Option, none, some, List, arith, nat_eq,
  list_eq, Bool-cases, Option-cases,
}
use universal_agent_memory.Text.{Text}
use universal_agent_memory.Dict
use universal_agent_memory.Dict.{
  values, HasDistinctKeys, put-HasDistinctKeys, get-put, get-put_self, get-of-In, In-get, In-put,
  In-of-put, All-put, All-get,
}
use universal_agent_memory.Domain.Errors.{Result, ok, err}
use universal_agent_memory.ApiKeys.{
  ApiKeyRecord, KeyTable, key_post_init, revoked, store_checked, get_api_key_by_fingerprint,
  touch_api_key, revoke_api_key, new_key, ensure_configured_key,
}
use universal_agent_memory.ApiKeys.Change.{
  IsUpdateOf, KeyChange, same, updated, added, IsRegistry, HoldsRevoked, KeyChange-IsRegistry,
  KeyChange-revoked, found-key, missing-key, key_post_init-eq-ok,
}

store_checked-KeyChange :
    (lower : Text → Text) (r : ApiKeyRecord) (keys : KeyTable)
    → (old : ApiKeyRecord) × (Dict.get r.id keys ≡ some old) × IsUpdateOf r old
    → KeyChange keys (store_checked (key_post_init lower r) keys).1
unfolding store_checked
store_checked-KeyChange lower r keys (old, at, u) = by_result (key_post_init lower r) refl
  where
    by_result :
        (x : Result ApiKeyRecord)
        → key_post_init lower r ≡ x
        → KeyChange keys (store_checked x keys).1
    by_result (err e) h = same
    by_result (ok v) h =
        let same_but = sym (key_post_init-eq-ok lower r h) in
        subst (λ w. KeyChange keys (Dict.put w.id w keys)) same_but
          (unfold revoked in updated _ old at u)

store_checked-added :
    (lower : Text → Text) (r : ApiKeyRecord) (keys : KeyTable)
    → Dict.get r.id keys ≡ none
    → get_api_key_by_fingerprint r.tenant_id r.secret_fingerprint keys ≡ none
    → KeyChange keys (store_checked (key_post_init lower r) keys).1
unfolding store_checked
store_checked-added lower r keys at free = by_result (key_post_init lower r) refl
  where
    by_result :
        (x : Result ApiKeyRecord)
        → key_post_init lower r ≡ x
        → KeyChange keys (store_checked x keys).1
    by_result (err e) h = same
    by_result (ok v) h =
        subst (λ w. KeyChange keys (Dict.put w.id w keys)) (sym (key_post_init-eq-ok lower r h))
          (added _ at free)

touch-KeyChange :
    (lower : Text → Text) (tenant_id : ℕ) (fingerprint : Text) (now : ℕ) (keys : KeyTable)
    → IsRegistry keys
    → KeyChange keys (touch_api_key lower tenant_id fingerprint now keys).1
unfolding touch_api_key
touch-KeyChange lower tenant_id fingerprint now keys (d, w, u) =
    elim (Option-cases (get_api_key_by_fingerprint tenant_id fingerprint keys)) [
      | inl e ↦ rw (e, touch_api_key) same
      | inr (k, e) ↦
          let (m, _, _) = found-key tenant_id fingerprint keys e in
          rw (e, touch_api_key)
            (store_checked-KeyChange lower (record k { last_used_at = some now }) keys
              (k, get-of-In (λ x. x.id) keys d w m, kept k now))
    ]
  where
    kept : (k : ApiKeyRecord) (at : ℕ) → IsUpdateOf (record k { last_used_at = some at }) k
    kept k at = unfold revoked in (refl, refl, refl, λ r. r)

revoke-KeyChange :
    (lower : Text → Text) (tenant_id key_id now : ℕ) (reason : Text) (keys : KeyTable)
    → IsRegistry keys
    → KeyChange keys (revoke_api_key lower tenant_id key_id now reason keys).1
unfolding revoke_api_key
revoke-KeyChange lower tenant_id key_id now reason keys (d, w, u) =
    elim (Option-cases (Dict.get key_id keys)) [
      | inl e ↦ rw (e, revoke_api_key) same
      | inr (k, e) ↦
          let named = All-get (λ e. e.1.id ≡ e.0) key_id keys w e in
          elim (Bool-cases (nat_eq.equal k.tenant_id tenant_id)) [
            | inr f ↦ rw (e, revoke_api_key, f) same
            | inl f ↦
                rw (e, revoke_api_key, f)
                  (store_checked-KeyChange lower
                    (record k { revoked_at = some now; revoked_reason = reason }) keys
                    (k, ap (λ i. Dict.get i keys) named ∙ e, marked k))
          ]
    ]
  where
    marked :
        (k : ApiKeyRecord)
        → IsUpdateOf (record k { revoked_at = some now; revoked_reason = reason }) k
    marked k = unfold revoked in (refl, refl, refl, λ r. refl)

ensure-KeyChange :
    (lower : Text → Text) (tenant_id : ℕ) (name fingerprint : Text) (scopes : List Text)
    (id now : ℕ) (keys : KeyTable)
    → IsRegistry keys
    → Dict.get id keys ≡ none
    → KeyChange keys (ensure_configured_key lower tenant_id name fingerprint scopes id now keys).1
unfolding ensure_configured_key
ensure-KeyChange lower tenant_id name fingerprint scopes id now keys (d, w, u) free =
    elim (Option-cases (get_api_key_by_fingerprint tenant_id fingerprint keys)) [
      | inl e ↦
          rw (e, ensure_configured_key)
            (unfold new_key in
              store_checked-added lower (new_key tenant_id name fingerprint scopes id now) keys free
                e)
      | inr (k, e) ↦
          let (m, t, f) = found-key tenant_id fingerprint keys e in
          elim (Bool-cases (list_eq.equal k.name name && list_eq.equal k.scopes scopes)) [
            | inl g ↦ rw (e, ensure_configured_key, g) same
            | inr g ↦
                rw (e, ensure_configured_key, g)
                  (store_checked-KeyChange lower _ keys (
                    k,
                    get-of-In (λ x. x.id) keys d w m,
                    (refl, sym t, sym f, unfold revoked in (λ r. r)),
                  ))
          ]
    ]

-- The calls on a registry; a new record has an identity that no record has.
pub data KeyStep (lower : Text → Text) (keys : KeyTable) : KeyTable → Type 0 where
  touches :
      (tenant_id : ℕ) (fingerprint : Text) (now : ℕ)
      → KeyStep lower keys (touch_api_key lower tenant_id fingerprint now keys).1
  revokes :
      (tenant_id key_id now : ℕ) (reason : Text)
      → KeyStep lower keys (revoke_api_key lower tenant_id key_id now reason keys).1
  ensures :
      (tenant_id : ℕ) (name fingerprint : Text) (scopes : List Text) (id now : ℕ)
      → Dict.get id keys ≡ none
      → KeyStep lower keys
          (ensure_configured_key lower tenant_id name fingerprint scopes id now keys).1

pub data KeyReach (lower : Text → Text) (keys : KeyTable) : KeyTable → Type 0 where
  start : KeyReach lower keys keys
  step :
      {mid last : KeyTable}
      → KeyReach lower keys mid
      → KeyStep lower mid last
      → KeyReach lower keys last

KeyStep-KeyChange :
    {lower : Text → Text} {keys keys' : KeyTable}
    → KeyStep lower keys keys'
    → IsRegistry keys
    → KeyChange keys keys'
KeyStep-KeyChange {lower} {keys} (touches t f now) h = touch-KeyChange lower t f now keys h
KeyStep-KeyChange {lower} {keys} (revokes t k now r) h = revoke-KeyChange lower t k now r keys h
KeyStep-KeyChange {lower} {keys} (ensures t n f s i now free) h =
    ensure-KeyChange lower t n f s i now keys h free

KeyReach-keeps :
    (id tenant_id : ℕ) (fingerprint : Text) {lower : Text → Text} {keys keys' : KeyTable}
    → KeyReach lower keys keys'
    → IsRegistry keys
    → HoldsRevoked id tenant_id fingerprint keys
    → IsRegistry keys' × HoldsRevoked id tenant_id fingerprint keys'
KeyReach-keeps id tenant_id fingerprint start h k = (h, k)
KeyReach-keeps id tenant_id fingerprint (step before s) h k =
    let (h', k') = KeyReach-keeps id tenant_id fingerprint before h k in
    let change = KeyStep-KeyChange s h' in
    (KeyChange-IsRegistry change h', KeyChange-revoked id tenant_id fingerprint change k')

-- What the service finds for a presented key: a record, which is revoked.
abbrev pub FindsRevoked : Option ApiKeyRecord → Type 0
FindsRevoked found = (k : ApiKeyRecord) × (found ≡ some k) × (revoked k ≡ true)

-- In a registry whose records stand under their identities, with one record for a fingerprint of a
-- tenant: once a record is revoked, whatever calls of touch, revoke and ensure_configured_key
-- follow, a lookup of its fingerprint finds a revoked record.
pub revoked_forever :
    {lower : Text → Text} {keys keys' : KeyTable} (id : ℕ) (k : ApiKeyRecord)
    → IsRegistry keys
    → Dict.get id keys ≡ some k
    → revoked k ≡ true
    → KeyReach lower keys keys'
    → FindsRevoked (get_api_key_by_fingerprint k.tenant_id k.secret_fingerprint keys')
revoked_forever {keys' = keys'} id k h g r reach =
    let ((d, w, u), (k', g', t', f', r')) =
      KeyReach-keeps id k.tenant_id k.secret_fingerprint reach h (k, g, refl, refl, r) in
    elim (Option-cases (get_api_key_by_fingerprint k.tenant_id k.secret_fingerprint keys')) [
      | inl e ↦
          absurd
            (missing-key k.tenant_id k.secret_fingerprint keys' k' e (In-get id keys' g') t' f')
      | inr (found, e) ↦
          let (m, t, f) = found-key k.tenant_id k.secret_fingerprint keys' e in
          let one = u found k' m (In-get id keys' g') (t ∙ sym t') (f ∙ sym f') in
          let p = get-of-In (λ x. x.id) keys' d w m in
          let q = get-of-In (λ x. x.id) keys' d w (In-get id keys' g') in
          let equal : found ≡ k' = ground (arith, p, q, one) in (found, e, ap revoked equal ∙ r')
    ]
