-- ===== src/Identities/Kept.antt =====
-- What registered identities keep: the relations that the calls of the identity service respect.
use universal_agent_memory.Prelude.{
  ℕ, ◌≡◌, refl, sym, ap, ◌∙◌, inl, inr, false, Option, none, some, arith, nat_eq, Bool-cases,
  beq→eq, list_eq,
}
use universal_agent_memory.Text.{Text}
use universal_agent_memory.Dict
use universal_agent_memory.Dict.{get-put, get-put_self}
use universal_agent_memory.Identities.{
  AgentIdentity, ThreadIdentity, WorkspaceIdentity, IdentityStore, agent_is_foreign,
  thread_is_foreign, owned_thread,
}

-- What was there is still there, in the same scope.
abbrev pub KeepsAgent : Option AgentIdentity → Option AgentIdentity → Type 0
KeepsAgent none new = Unit
KeepsAgent (some a) none = ⊥
KeepsAgent (some a) (some b) = (b.tenant_id ≡ a.tenant_id) × (b.workspace_id ≡ a.workspace_id)

abbrev pub KeepsThread : Option ThreadIdentity → Option ThreadIdentity → Type 0
KeepsThread none new = Unit
KeepsThread (some a) none = ⊥
KeepsThread (some a) (some b) = (b.tenant_id ≡ a.tenant_id) × (b.workspace_id ≡ a.workspace_id)

abbrev pub KeepsWorkspace : Option WorkspaceIdentity → Option WorkspaceIdentity → Type 0
KeepsWorkspace none new = Unit
KeepsWorkspace (some a) new = new ≡ some a

pub KeepsAgent-refl : (o : Option AgentIdentity) → KeepsAgent o o
KeepsAgent-refl none = tt
KeepsAgent-refl (some a) = (refl, refl)

pub KeepsThread-refl : (o : Option ThreadIdentity) → KeepsThread o o
KeepsThread-refl none = tt
KeepsThread-refl (some a) = (refl, refl)

pub KeepsWorkspace-refl : (o : Option WorkspaceIdentity) → KeepsWorkspace o o
KeepsWorkspace-refl none = tt
KeepsWorkspace-refl (some a) = refl

KeepsAgent-trans : (o p q : Option AgentIdentity) → KeepsAgent o p → KeepsAgent p q → KeepsAgent o q
KeepsAgent-trans none p q h k = tt
KeepsAgent-trans (some a) none q h k = absurd h
KeepsAgent-trans (some a) (some b) none h k = k
KeepsAgent-trans (some a) (some b) (some c) h k = (k.0 ∙ h.0, k.1 ∙ h.1)

KeepsThread-trans :
    (o p q : Option ThreadIdentity) → KeepsThread o p → KeepsThread p q → KeepsThread o q
KeepsThread-trans none p q h k = tt
KeepsThread-trans (some a) none q h k = absurd h
KeepsThread-trans (some a) (some b) none h k = k
KeepsThread-trans (some a) (some b) (some c) h k = (k.0 ∙ h.0, k.1 ∙ h.1)

KeepsWorkspace-trans :
    (o p q : Option WorkspaceIdentity)
    → KeepsWorkspace o p
    → KeepsWorkspace p q
    → KeepsWorkspace o q
KeepsWorkspace-trans none p q h k = tt
KeepsWorkspace-trans (some a) none q h k = absurd (cc h)
KeepsWorkspace-trans (some a) (some b) q h k = k ∙ h

pub put-KeepsAgent :
    (agent : AgentIdentity) (id : ℕ) (d : Dict.Dict ℕ AgentIdentity)
    → agent_is_foreign agent (Dict.get agent.id d) ≡ false
    → KeepsAgent (Dict.get id d) (Dict.get id (Dict.put agent.id agent d))
unfolding agent_is_foreign
put-KeepsAgent agent id d h = elim (Bool-cases (nat_eq.equal agent.id id)) [
  | inr e ↦ rw (get-put agent.id id agent d, e) (KeepsAgent-refl (Dict.get id d))
  | inl e ↦
      let here : agent.id ≡ id = beq→eq agent.id id e in
      rw (get-put agent.id id agent d, e)
        (owned (Dict.get id d) (ap (λ i. agent_is_foreign agent (Dict.get i d)) (sym here) ∙ h))
]
  where
    owned :
        (o : Option AgentIdentity) → agent_is_foreign agent o ≡ false → KeepsAgent o (some agent)
    owned none k = tt
    owned (some a) k = (ground (arith, k), ground (arith, k))

pub put-KeepsThread :
    (agent : AgentIdentity) (thread_id id : ℕ) (status : Text) (d : Dict.Dict ℕ ThreadIdentity)
    → thread_is_foreign agent (Dict.get thread_id d) ≡ false
    → KeepsThread
        (Dict.get id d)
        (Dict.get id (Dict.put thread_id (owned_thread agent thread_id status) d))
unfolding thread_is_foreign
put-KeepsThread agent thread_id id status d h = elim (Bool-cases (nat_eq.equal thread_id id)) [
  | inr e ↦
      rw (get-put thread_id id (owned_thread agent thread_id status) d, e)
        (KeepsThread-refl (Dict.get id d))
  | inl e ↦
      let here : thread_id ≡ id = beq→eq thread_id id e in
      rw (get-put thread_id id (owned_thread agent thread_id status) d, e)
        (owned (Dict.get id d) (ap (λ i. thread_is_foreign agent (Dict.get i d)) (sym here) ∙ h))
]
  where
    owned :
        (o : Option ThreadIdentity)
        → thread_is_foreign agent o ≡ false
        → KeepsThread o (some (owned_thread agent thread_id status))
    owned none k = tt
    owned (some a) k = (ground (arith, k), ground (arith, k))

-- What a store keeps of one before it, at an agent, a thread and a workspace.
abbrev pub Keeps : ℕ → ℕ → ℕ → IdentityStore → IdentityStore → Type 0
Keeps agent_id thread_id workspace_id s s' =
    KeepsAgent (Dict.get agent_id s.agents) (Dict.get agent_id s'.agents)
    × KeepsThread (Dict.get thread_id s.threads) (Dict.get thread_id s'.threads)
    × KeepsWorkspace (Dict.get workspace_id s.workspaces) (Dict.get workspace_id s'.workspaces)

pub Keeps-refl : (a t w : ℕ) (s : IdentityStore) → Keeps a t w s s
Keeps-refl a t w s = (
  KeepsAgent-refl (Dict.get a s.agents),
  KeepsThread-refl (Dict.get t s.threads),
  KeepsWorkspace-refl (Dict.get w s.workspaces),
)

pub Keeps-trans :
    (a t w : ℕ) (r s u : IdentityStore) → Keeps a t w r s → Keeps a t w s u → Keeps a t w r u
Keeps-trans a t w r s u h k = (
  KeepsAgent-trans (Dict.get a r.agents) (Dict.get a s.agents) (Dict.get a u.agents) h.0 k.0,
  KeepsThread-trans (Dict.get t r.threads) (Dict.get t s.threads) (Dict.get t u.threads) h.1 k.1,
  KeepsWorkspace-trans (Dict.get w r.workspaces) (Dict.get w s.workspaces) (Dict.get w u.workspaces)
      h.2 k.2,
)
