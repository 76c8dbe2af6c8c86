-- ===== src/Identities.antt =====
-- The identities of workspaces, agents and threads: domain/identity.py, services/identities.py, and
-- provision_agent_thread, provision_workspace and thread_belongs_to_agent of adapters/in_memory.py.
-- `str.lower` is a parameter.
pub mod Kept
pub mod Ownership
use universal_agent_memory.Prelude.{
  ℕ, Bool, true, false, not, ◌&&◌, ◌||◌, Option, none, some, List, [], ltb, if◌then◌else◌, ◌==◌,
  nat_eq, list_eq, option_eq, length,
}
use universal_agent_memory.Text.{Text, text, strip, is_blank}
use universal_agent_memory.Dict
use universal_agent_memory.Dict.{Dict}
use universal_agent_memory.Domain.Errors.{Result, ok, err, value_error, raise_if, ◌>>=◌, ◌>>◌}
use universal_agent_memory.Domain.Json.{Metadata}

pub record WorkspaceIdentity : Type 0 where
  pub id : ℕ
  pub tenant_id : ℕ
  pub name : Text

pub record AgentIdentity : Type 0 where
  pub id : ℕ
  pub tenant_id : ℕ
  pub workspace_id : ℕ
  pub name : Text
  pub role : Text
  pub config : Metadata

pub record ThreadIdentity : Type 0 where
  pub id : ℕ
  pub tenant_id : ℕ
  pub workspace_id : ℕ
  pub owner_agent_id : Option ℕ
  pub status : Text

-- `_workspaces`, `_agents` and `_threads`
pub record IdentityStore : Type 0 where
  pub workspaces : Dict ℕ WorkspaceIdentity
  pub agents : Dict ℕ AgentIdentity
  pub threads : Dict ℕ ThreadIdentity

-- `existing is not None and (existing.tenant_id != … or existing.workspace_id != …)`
unfoldable pub agent_is_foreign : AgentIdentity → Option AgentIdentity → Bool
agent_is_foreign agent none = false
agent_is_foreign agent (some existing) =
    not (existing.tenant_id == agent.tenant_id) || not (existing.workspace_id == agent.workspace_id)

unfoldable pub thread_is_foreign : AgentIdentity → Option ThreadIdentity → Bool
thread_is_foreign agent none = false
thread_is_foreign agent (some existing) =
    not (existing.tenant_id == agent.tenant_id) || not (existing.workspace_id == agent.workspace_id)

abbrev pub owned_thread : AgentIdentity → ℕ → Text → ThreadIdentity
owned_thread agent thread_id thread_status = record {
  id = thread_id;
  tenant_id = agent.tenant_id;
  workspace_id = agent.workspace_id;
  owner_agent_id = some agent.id;
  status = thread_status;
}

-- What `provision_agent_thread` does when the agent is stored.
unfoldable pub provision_thread :
    AgentIdentity
    → Option ℕ
    → Text
    → IdentityStore
    → Result (AgentIdentity × Option ThreadIdentity) × IdentityStore
provision_thread agent none thread_status s = (ok (agent, none), s)
provision_thread agent (some thread_id) thread_status s =
    if thread_is_foreign agent (Dict.get thread_id s.threads)
    then (err (value_error "thread_id already belongs to another scope"), s)
    else (
      ok (agent, some (owned_thread agent thread_id thread_status)),
      record s {
        threads = Dict.put thread_id (owned_thread agent thread_id thread_status) s.threads;
      },
    )

-- `provision_agent_thread`
unfoldable pub provision_agent_thread :
    AgentIdentity
    → Option ℕ
    → Text
    → IdentityStore
    → Result (AgentIdentity × Option ThreadIdentity) × IdentityStore
unfolding provision_thread
provision_agent_thread agent thread_id thread_status s =
    if agent_is_foreign agent (Dict.get agent.id s.agents)
    then (err (value_error "agent_id already belongs to another scope"), s)
    else provision_thread agent thread_id thread_status
        (record s { agents = Dict.put agent.id agent s.agents })

-- `provision_workspace`
unfoldable pub registry_provision_workspace :
    WorkspaceIdentity → IdentityStore → Result WorkspaceIdentity × IdentityStore
registry_provision_workspace workspace s = elim (Dict.get workspace.id s.workspaces) [
  | none ↦ (ok workspace, record s { workspaces = Dict.put workspace.id workspace s.workspaces })
  | some existing ↦
      if existing.tenant_id == workspace.tenant_id
      then (ok existing, s)
      else (err (value_error "workspace_id already belongs to another tenant"), s)
]

-- `thread_belongs_to_agent`
unfoldable pub thread_belongs_to_agent : ℕ → ℕ → ℕ → ℕ → IdentityStore → Bool
thread_belongs_to_agent tenant_id workspace_id agent_id thread_id s =
    elim (Dict.get thread_id s.threads) [
      | none ↦ false
      | some thread ↦
          thread.tenant_id == tenant_id
          && thread.workspace_id == workspace_id
          && thread.owner_agent_id == some agent_id
    ]

pub record ProvisionIdentityCommand : Type 0 where
  pub tenant_id : ℕ
  pub workspace_id : ℕ
  pub agent_id : ℕ
  pub agent_name : Text
  pub agent_role : Text
  pub agent_config : Metadata
  pub thread_id : Option ℕ
  pub thread_status : Text

pub record ProvisionWorkspaceCommand : Type 0 where
  pub tenant_id : ℕ
  pub workspace_id : ℕ
  pub workspace_name : Text

-- The checks of `IdentityProvisioningService.provision`; the result is the agent and the status.
unfoldable pub check_provision :
    (Text → Text) → ProvisionIdentityCommand → Result (AgentIdentity × Text)
check_provision lower command =
    let name = strip command.agent_name in
    let role = strip command.agent_role in
    let status = lower (strip command.thread_status) in
    do
      raise_if (name == []) (value_error "agent_name must not be empty")
      raise_if (role == []) (value_error "agent_role must not be empty")
      raise_if (ltb 160 (length name) || ltb 80 (length role))
          (value_error "agent identity metadata is too long")
      raise_if
          (not (status == text "active" || status == text "closed" || status == text "archived"))
          (value_error "thread_status must be active, closed, or archived")
      ok (
        record {
          id = command.agent_id;
          tenant_id = command.tenant_id;
          workspace_id = command.workspace_id;
          name = name;
          role = role;
          config = command.agent_config;
        },
        status,
      )

-- `IdentityProvisioningService.provision`
unfoldable pub provision :
    (Text → Text)
    → ProvisionIdentityCommand
    → IdentityStore
    → Result (AgentIdentity × Option ThreadIdentity) × IdentityStore
provision lower command s = elim (check_provision lower command) [
  | err e ↦ (err e, s)
  | ok (agent, status) ↦ provision_agent_thread agent command.thread_id status s
]

-- `IdentityProvisioningService.provision_workspace`
unfoldable pub provision_workspace :
    ProvisionWorkspaceCommand → IdentityStore → Result WorkspaceIdentity × IdentityStore
provision_workspace command s =
    let name = strip command.workspace_name in
    if name == []
    then (err (value_error "workspace_name must not be empty"), s)
    else if ltb 160 (length name)
    then (err (value_error "workspace_name is too long"), s)
    else registry_provision_workspace
        (record { id = command.workspace_id; tenant_id = command.tenant_id; name = name }) s
