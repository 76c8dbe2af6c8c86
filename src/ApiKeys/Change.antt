-- ===== src/ApiKeys/Change.antt =====
-- The changes of the registry of API keys that keep it well formed and keep a key revoked.
use universal_agent_memory.Prelude.{
  ℕ, ◌≡◌, refl, sym, ap, ◌∙◌, inl, inr, Bool, true, false, ◌&&◌, none, some, arith, nat_eq, list_eq,
  Bool-cases, All, In, All-In, find?-In, find?-eq-some, find?-none→All, and-true, beq→eq,
}
use universal_agent_memory.Text.{Text}
use universal_agent_memory.Dict
use universal_agent_memory.Dict.{
  values, HasDistinctKeys, put-HasDistinctKeys, get-put, get-put_self, get-of-In, In-get, In-put,
  In-of-put, All-put, All-get,
}
use universal_agent_memory.Domain.Errors.{ok}
use universal_agent_memory.ApiKeys.{
  ApiKeyRecord, KeyTable, normalize_scopes, key_post_init, revoked, get_api_key_by_fingerprint,
}

pub key_post_init-eq-ok :
    (lower : Text → Text) (r : ApiKeyRecord) {u : ApiKeyRecord}
    → key_post_init lower r ≡ ok u
    → u ≡ record r { scopes = normalize_scopes lower r.scopes }
unfolding key_post_init
key_post_init-eq-ok lower r {u} h = ground (arith, h)

-- The record under a key is replaced by one that keeps its identity and stays revoked.
abbrev pub IsUpdateOf : ApiKeyRecord → ApiKeyRecord → Type 0
IsUpdateOf new old =
    (new.id ≡ old.id)
    × (new.tenant_id ≡ old.tenant_id)
    × (new.secret_fingerprint ≡ old.secret_fingerprint)
    × (revoked old ≡ true → revoked new ≡ true)

-- What a call does to the table.
pub data KeyChange (keys : KeyTable) : KeyTable → Type 0 where
  same : KeyChange keys keys
  updated :
      (new old : ApiKeyRecord)
      → Dict.get new.id keys ≡ some old
      → IsUpdateOf new old
      → KeyChange keys (Dict.put new.id new keys)
  added :
      (new : ApiKeyRecord)
      → Dict.get new.id keys ≡ none
      → get_api_key_by_fingerprint new.tenant_id new.secret_fingerprint keys ≡ none
      → KeyChange keys (Dict.put new.id new keys)

abbrev pub is_key : ℕ → Text → ApiKeyRecord → Bool
is_key tenant_id fingerprint key =
    nat_eq.equal key.tenant_id tenant_id && list_eq.equal key.secret_fingerprint fingerprint

-- Each record stands under its identity, and a tenant's fingerprint has one record.
abbrev pub IsRegistry : KeyTable → Type 0
IsRegistry keys =
    HasDistinctKeys keys
    × All (λ e. e.1.id ≡ e.0) keys
    × ((a b : ApiKeyRecord)
        → In a (values keys)
        → In b (values keys)
        → a.tenant_id ≡ b.tenant_id
        → a.secret_fingerprint ≡ b.secret_fingerprint
        → a.id ≡ b.id)

pub found-key :
    (tenant_id : ℕ) (fingerprint : Text) (keys : KeyTable) {k : ApiKeyRecord}
    → get_api_key_by_fingerprint tenant_id fingerprint keys ≡ some k
    → In k (values keys) × (k.tenant_id ≡ tenant_id) × (k.secret_fingerprint ≡ fingerprint)
unfolding get_api_key_by_fingerprint
found-key tenant_id fingerprint keys {k} h =
    let (p, q) = and-true _ _ (find?-eq-some (is_key tenant_id fingerprint) (values keys) h) in
    (
      find?-In (is_key tenant_id fingerprint) (values keys) h,
      beq→eq k.tenant_id tenant_id p,
      beq→eq k.secret_fingerprint fingerprint q,
    )

pub missing-key :
    (tenant_id : ℕ) (fingerprint : Text) (keys : KeyTable) (k : ApiKeyRecord)
    → get_api_key_by_fingerprint tenant_id fingerprint keys ≡ none
    → In k (values keys)
    → k.tenant_id ≡ tenant_id
    → k.secret_fingerprint ≡ fingerprint
    → ⊥
unfolding get_api_key_by_fingerprint
missing-key tenant_id fingerprint keys k h m p q =
    let no =
      All-In (λ x. is_key tenant_id fingerprint x ≡ false) (values keys) k
        (find?-none→All (is_key tenant_id fingerprint) (values keys) h) m in
    let yes = (nat_eq.equal_iff k.tenant_id tenant_id).1 p in
    let also = (list_eq.equal_iff k.secret_fingerprint fingerprint).1 q in
    absurd (ground (arith, no, yes, also))

-- A new record beside the others.
unique-put :
    (new : ApiKeyRecord) (keys : KeyTable)
    → ((a b : ApiKeyRecord)
        → In a (values keys)
        → In b (values keys)
        → a.tenant_id ≡ b.tenant_id
        → a.secret_fingerprint ≡ b.secret_fingerprint
        → a.id ≡ b.id)
    → ((b : ApiKeyRecord)
        → In b (values keys)
        → new.tenant_id ≡ b.tenant_id
        → new.secret_fingerprint ≡ b.secret_fingerprint
        → new.id ≡ b.id)
    → (a b : ApiKeyRecord) → In a (values (Dict.put new.id new keys))
    → In b (values (Dict.put new.id new keys))
    → a.tenant_id ≡ b.tenant_id
    → a.secret_fingerprint ≡ b.secret_fingerprint
    → a.id ≡ b.id
unique-put new keys old fresh a b m n p q = elim (In-of-put new.id new a keys m) [
  | inl e ↦ elim (In-of-put new.id new b keys n) [
    | inl f ↦ cc (e, f)
    | inr j ↦ cc (e, fresh b j (cc (e, p)) (cc (e, q)))
  ]
  | inr i ↦ elim (In-of-put new.id new b keys n) [
    | inl f ↦ cc (f, fresh a i (cc (f, p)) (cc (f, q)))
    | inr j ↦ old a b i j p q
  ]
]

pub KeyChange-IsRegistry :
    {keys keys' : KeyTable} → KeyChange keys keys' → IsRegistry keys → IsRegistry keys'
KeyChange-IsRegistry same h = h
KeyChange-IsRegistry {keys} (updated new old at (i, t, f, _)) (d, w, u) = (
  put-HasDistinctKeys new.id new keys d,
  All-put (λ e. e.1.id ≡ e.0) new.id new keys (λ j q. sym q) w,
  unique-put new keys u (λ b m p q. i ∙ u old b (In-get new.id keys at) m (sym t ∙ p) (sym f ∙ q)),
)
KeyChange-IsRegistry {keys} (added new at free) (d, w, u) = (
  put-HasDistinctKeys new.id new keys d,
  All-put (λ e. e.1.id ≡ e.0) new.id new keys (λ j q. sym q) w,
  unique-put new keys u (λ b m p q.
      absurd (missing-key new.tenant_id new.secret_fingerprint keys b free m (sym p) (sym q))),
)

-- The table holds, under `id`, a revoked record of the tenant's fingerprint.
abbrev pub HoldsRevoked : ℕ → ℕ → Text → KeyTable → Type 0
HoldsRevoked id tenant_id fingerprint keys =
    (k : ApiKeyRecord) × (Dict.get id keys ≡ some k)
    × (k.tenant_id ≡ tenant_id)
    × (k.secret_fingerprint ≡ fingerprint)
    × (revoked k ≡ true)

pub KeyChange-revoked :
    (id tenant_id : ℕ) (fingerprint : Text) {keys keys' : KeyTable}
    → KeyChange keys keys'
    → HoldsRevoked id tenant_id fingerprint keys
    → HoldsRevoked id tenant_id fingerprint keys'
KeyChange-revoked id tenant_id fingerprint same h = h
KeyChange-revoked id tenant_id fingerprint {keys} (updated new old at (i, t, f, r))
      (k, g, p, q, v) =
    elim (Bool-cases (nat_eq.equal new.id id)) [
      | inl e ↦
          let here : new.id ≡ id = beq→eq new.id id e in
          let known : k ≡ old = ground (arith, g, at, here) in
          (
            new,
            get-put new.id id new keys ∙ rw e refl,
            t ∙ ap (λ x. x.tenant_id) (sym known) ∙ p,
            f ∙ ap (λ x. x.secret_fingerprint) (sym known) ∙ q,
            r (ap revoked (sym known) ∙ v),
          )
      | inr e ↦ (k, get-put new.id id new keys ∙ rw e g, p, q, v)
    ]
KeyChange-revoked id tenant_id fingerprint {keys} (added new at free) (k, g, p, q, v) =
    (k, Dict.put-keeps new.id id new keys at g, p, q, v)
