-- ===== src/Identities/Ownership.antt =====
-- Proofs on who owns an identity.
use universal_agent_memory.Prelude.{
  ℕ, ◌≡◌, refl, sym, ap, ◌∙◌, inl, inr, true, Option, none, some, [], arith, nat_eq, Bool-cases,
  Option-cases, list_eq, ltb, length,
}
use universal_agent_memory.Text.{Text, strip}
use universal_agent_memory.Dict
use universal_agent_memory.Dict.{get-put, get-put_self}
use universal_agent_memory.Domain.Errors.{Result, ok, err}
use universal_agent_memory.Identities.{
  AgentIdentity, ThreadIdentity, WorkspaceIdentity, IdentityStore, agent_is_foreign,
  thread_is_foreign, owned_thread, provision_thread, provision_agent_thread,
  registry_provision_workspace, thread_belongs_to_agent, ProvisionIdentityCommand,
  ProvisionWorkspaceCommand, check_provision, provision, provision_workspace,
}
use universal_agent_memory.Identities.Kept.{
  KeepsWorkspace, KeepsAgent-refl, KeepsThread-refl, KeepsWorkspace-refl, put-KeepsAgent,
  put-KeepsThread, Keeps, Keeps-refl, Keeps-trans,
}

provision_thread-Keeps :
    (a t w : ℕ) (agent : AgentIdentity) (thread_id : Option ℕ) (status : Text) (s : IdentityStore)
    → Keeps a t w s (provision_thread agent thread_id status s).1
unfolding provision_thread
provision_thread-Keeps a t w agent none status s = Keeps-refl a t w s
provision_thread-Keeps a t w agent (some id) status s =
    elim (Bool-cases (thread_is_foreign agent (Dict.get id s.threads))) [
      | inl e ↦ rw e (Keeps-refl a t w s)
      | inr e ↦ rw e (
        KeepsAgent-refl (Dict.get a s.agents),
        put-KeepsThread agent id t status s.threads e,
        KeepsWorkspace-refl (Dict.get w s.workspaces),
      )
    ]

provision_agent_thread-Keeps :
    (a t w : ℕ) (agent : AgentIdentity) (thread_id : Option ℕ) (status : Text) (s : IdentityStore)
    → Keeps a t w s (provision_agent_thread agent thread_id status s).1
unfolding provision_agent_thread
provision_agent_thread-Keeps a t w agent thread_id status s =
    elim (Bool-cases (agent_is_foreign agent (Dict.get agent.id s.agents))) [
      | inl e ↦ rw e (Keeps-refl a t w s)
      | inr e ↦
          let stored : IdentityStore = record s { agents = Dict.put agent.id agent s.agents } in
          let first : Keeps a t w s stored = (
            put-KeepsAgent agent a s.agents e,
            KeepsThread-refl (Dict.get t s.threads),
            KeepsWorkspace-refl (Dict.get w s.workspaces),
          ) in
          rw e (
            Keeps-trans a t w s stored (provision_thread agent thread_id status stored).1 first
              (provision_thread-Keeps a t w agent thread_id status stored))
    ]

provision-Keeps :
    (a t w : ℕ) (lower : Text → Text) (command : ProvisionIdentityCommand) (s : IdentityStore)
    → Keeps a t w s (provision lower command s).1
unfolding provision
provision-Keeps a t w lower command s = by_check (check_provision lower command) refl
  where
    by_check :
        (x : Result (AgentIdentity × Text))
        → check_provision lower command ≡ x
        → Keeps a t w s (provision lower command s).1
    by_check (err e) h = rw (h, provision) (Keeps-refl a t w s)
    by_check (ok (agent, status)) h =
        rw (h, provision) (provision_agent_thread-Keeps a t w agent command.thread_id status s)

registry_provision_workspace-Keeps :
    (a t w : ℕ) (workspace : WorkspaceIdentity) (s : IdentityStore)
    → Keeps a t w s (registry_provision_workspace workspace s).1
unfolding registry_provision_workspace
registry_provision_workspace-Keeps a t w workspace s =
    elim (Option-cases (Dict.get workspace.id s.workspaces)) [
      | inr (existing, e) ↦
          elim (Bool-cases (nat_eq.equal existing.tenant_id workspace.tenant_id)) [
            | inl f ↦ rw (e, registry_provision_workspace, f) (Keeps-refl a t w s)
            | inr f ↦ rw (e, registry_provision_workspace, f) (Keeps-refl a t w s)
          ]
      | inl e ↦
          rw (e, registry_provision_workspace)
            (KeepsAgent-refl (Dict.get a s.agents), KeepsThread-refl (Dict.get t s.threads), kept e)
    ]
  where
    kept :
        Dict.get workspace.id s.workspaces ≡ none
        → KeepsWorkspace
            (Dict.get w s.workspaces)
            (Dict.get w (Dict.put workspace.id workspace s.workspaces))
    kept e = elim (Option-cases (Dict.get w s.workspaces)) [
      | inl f ↦ rw f tt
      | inr (v, f) ↦ rw (f, Dict.put-keeps workspace.id w workspace s.workspaces e f) refl
    ]

provision_workspace-Keeps :
    (a t w : ℕ) (command : ProvisionWorkspaceCommand) (s : IdentityStore)
    → Keeps a t w s (provision_workspace command s).1
unfolding provision_workspace
provision_workspace-Keeps a t w command s =
    elim (Bool-cases (list_eq.equal (strip command.workspace_name) [])) [
      | inl e ↦ rw e (Keeps-refl a t w s)
      | inr e ↦ elim (Bool-cases (ltb 160 (length (strip command.workspace_name)))) [
        | inl f ↦ rw (e, f) (Keeps-refl a t w s)
        | inr f ↦ rw (e, f) (registry_provision_workspace-Keeps a t w _ s)
      ]
    ]

-- The calls of the service, whatever they return or raise.
pub data IdentityReach (lower : Text → Text) (s : IdentityStore) : IdentityStore → Type 0 where
  unchanged : IdentityReach lower s s
  provisions :
      {mid : IdentityStore} (command : ProvisionIdentityCommand)
      → IdentityReach lower s mid
      → IdentityReach lower s (provision lower command mid).1
  provisions_workspace :
      {mid : IdentityStore} (command : ProvisionWorkspaceCommand)
      → IdentityReach lower s mid
      → IdentityReach lower s (provision_workspace command mid).1

-- Whatever calls of the service follow, failed ones included: an agent and a thread that are
-- registered stay registered in the same tenant and workspace, and a workspace stays as it is.
pub ownership_permanent :
    {lower : Text → Text} {s s' : IdentityStore} (agent_id thread_id workspace_id : ℕ)
    → IdentityReach lower s s'
    → Keeps agent_id thread_id workspace_id s s'
ownership_permanent {s = s} a t w unchanged = Keeps-refl a t w s
ownership_permanent {lower} {s} a t w (provisions {mid} command before) =
    Keeps-trans a t w s mid (provision lower command mid).1 (ownership_permanent a t w before)
      (provision-Keeps a t w lower command mid)
ownership_permanent {s = s} a t w (provisions_workspace {mid} command before) =
    Keeps-trans a t w s mid (provision_workspace command mid).1 (ownership_permanent a t w before)
      (provision_workspace-Keeps a t w command mid)

check_provision-eq-ok :
    (lower : Text → Text) (command : ProvisionIdentityCommand) {agent : AgentIdentity}
    {status : Text}
    → check_provision lower command ≡ ok (agent, status)
    → (agent.id ≡ command.agent_id)
      × (agent.tenant_id ≡ command.tenant_id)
      × (agent.workspace_id ≡ command.workspace_id)
unfolding check_provision
check_provision-eq-ok lower command {agent} {status} h =
    (ground (arith, h), ground (arith, h), ground (arith, h))

thread_registered :
    (agent : AgentIdentity) (thread_id : ℕ) (status : Text) (s : IdentityStore)
    {r : AgentIdentity × Option ThreadIdentity}
    → (provision_agent_thread agent (some thread_id) status s).0 ≡ ok r
    → Dict.get thread_id (provision_agent_thread agent (some thread_id) status s).1.threads
      ≡ some (owned_thread agent thread_id status)
unfolding provision_agent_thread provision_thread
thread_registered agent thread_id status s h =
    elim (Bool-cases (agent_is_foreign agent (Dict.get agent.id s.agents))) [
      | inl e ↦ absurd (ground (arith, h, e))
      | inr e ↦ elim (Bool-cases (thread_is_foreign agent (Dict.get thread_id s.threads))) [
        | inl f ↦ absurd (ground (arith, h, e, f))
        | inr f ↦ rw (e, f) (get-put_self thread_id (owned_thread agent thread_id status) s.threads)
      ]
    ]

-- When `provision` returns for a command that names a thread, the thread belongs to the command's
-- agent in its tenant and workspace.
pub provision_belongs :
    (lower : Text → Text) (command : ProvisionIdentityCommand) (thread_id : ℕ) (s : IdentityStore)
    {r : AgentIdentity × Option ThreadIdentity}
    → command.thread_id ≡ some thread_id
    → (provision lower command s).0 ≡ ok r
    → thread_belongs_to_agent command.tenant_id command.workspace_id command.agent_id thread_id
        (provision lower command s).1
      ≡ true
unfolding provision thread_belongs_to_agent
provision_belongs lower command thread_id s {r} named h =
    by_check (check_provision lower command) refl
  where
    by_check :
        (x : Result (AgentIdentity × Text))
        → check_provision lower command ≡ x
        → thread_belongs_to_agent command.tenant_id command.workspace_id command.agent_id thread_id
            (provision lower command s).1
          ≡ true
    by_check (err e) c = absurd (ground (arith, h, c))
    by_check (ok (agent, status)) c =
        let (i, t, w) = check_provision-eq-ok lower command c in
        let e : provision lower command s ≡ provision_agent_thread agent (some thread_id) status s =
          rw (c, provision, named) refl in
        let there = thread_registered agent thread_id status s (ap (λ p. p.0) (sym e) ∙ h) in
        rw (e, there, thread_belongs_to_agent, i, t, w) (ground arith)
