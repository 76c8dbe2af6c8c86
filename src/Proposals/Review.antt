-- ===== src/Proposals/Review.antt =====
-- Proofs on the review of proposals.
use universal_agent_memory.Prelude.{
  ℕ, ◌≡◌, refl, sym, ap, ◌∙◌, inl, inr, true, false, Option, some, arith, eqb, nat_eq, pair_eq,
  list_eq, All, Bool-cases, Option-cases, ◌==◌,
}
use mathlib.Core.Path.{subst}
use universal_agent_memory.Text.{Text}
use universal_agent_memory.Dict
use universal_agent_memory.Dict.{get-put_self, All-get}
use universal_agent_memory.Domain.Errors.{Result, ok}
use universal_agent_memory.Domain.Memory.{MemoryItem}
use universal_agent_memory.Domain.Records.{IntegrationEvent, AuditEvent}
use universal_agent_memory.Store.{MemoryStore, ScopedKey}
use universal_agent_memory.Store.Replays.{items-after, audit-items}
use universal_agent_memory.Proposals.{
  MemoryProposal, accepted, rejected, proposal_status_eq, ProposalLedger, proposal_of, get_proposal,
  save_proposal_review, reject_after, reviewed_proposal, Accepted, replay_accept, accepted_item,
  find_accepted, commit_accept, accept_proposal_with_memory,
}

-- Each proposal stands under its identity.
abbrev pub AreKeyed : ProposalLedger → Type 0
AreKeyed s = All (λ e. e.1.id ≡ e.0) s.proposals

found_proposal :
    (tenant_id id : ℕ) (s : ProposalLedger) {p : MemoryProposal}
    → get_proposal tenant_id id s ≡ some p
    → (Dict.get id s.proposals ≡ some p) × (p.tenant_id ≡ tenant_id)
unfolding get_proposal
found_proposal tenant_id id s {p} h = elim (Option-cases (Dict.get id s.proposals)) [
  | inl e ↦ absurd (ground (arith, h, e))
  | inr (q, e) ↦ elim (Bool-cases (eqb q.tenant_id tenant_id)) [
    | inl f ↦
        let same : some q ≡ some p = sym (rw (e, proposal_of, f) refl) ∙ h in
        (e ∙ same, ground (arith, same, f))
    | inr f ↦ absurd (ground (arith, h, e, f))
  ]
]

replay_created :
    (current : MemoryProposal) (id : ℕ) (m : MemoryStore) {r : MemoryProposal} {i : MemoryItem}
    → replay_accept current id m ≡ ok (r, i, true)
    → ⊥
unfolding replay_accept
replay_created current id m h = elim (Option-cases (Dict.get id m.items)) [
  | inl e ↦ absurd (ground (arith, h, e))
  | inr (j, e) ↦ absurd (ground (arith, h, e))
]

find_created :
    (text_of_id : ℕ → Text) (current : MemoryProposal) (m : MemoryStore) {r : MemoryProposal}
    {i : MemoryItem}
    → find_accepted text_of_id current m ≡ ok (r, i, true)
    → ⊥
unfolding find_accepted
find_created text_of_id current m h = elim (Option-cases (accepted_item text_of_id current m)) [
  | inl e ↦ absurd (ground (arith, h, e))
  | inr (j, e) ↦ absurd (ground (arith, h, e))
]

get-put_proposal :
    (tenant_id id at : ℕ) (p : MemoryProposal) (s : ProposalLedger) (m : MemoryStore)
    → p.tenant_id ≡ tenant_id
    → at ≡ id
    → get_proposal tenant_id id (record s { proposals = Dict.put at p s.proposals; memory = m })
      ≡ some p
unfolding get_proposal
get-put_proposal tenant_id id at p s m tenant named =
    let same : eqb p.tenant_id tenant_id ≡ true = ground (arith, tenant) in
    ap (proposal_of tenant_id)
      (ap (λ k. Dict.get k (Dict.put at p s.proposals)) (sym named) ∙ get-put_self at p s.proposals)
    ∙ rw same refl

reject_after-writes :
    (text_of_id : ℕ → Text) (p : MemoryProposal) (reviewer reason : Text)
    (audit : Option AuditEvent) (now : ℕ) (s : ProposalLedger) {done : MemoryProposal}
    {item : MemoryItem}
    → (p.status == accepted) ≡ false
    → get_proposal p.tenant_id p.id s ≡ some done
    → Dict.get item.id s.memory.items ≡ some item
    → let last = (reject_after text_of_id p reviewer reason audit now s).1 in
      (get_proposal p.tenant_id p.id last
        ≡ some (reviewed_proposal p rejected reviewer reason p.metadata now))
      × (Dict.get item.id last.memory.items ≡ some item)
unfolding reject_after save_proposal_review reviewed_proposal
reject_after-writes text_of_id p reviewer reason audit now s {done} {item} live at there =
    rw (live, at, save_proposal_review)
      (
        get-put_proposal p.tenant_id p.id p.id _ s _ refl refl,
        ap (Dict.get item.id) (audit-items _ s.memory) ∙ there,
      )

module _ (text_of_id : ℕ → Text) (proposal : MemoryProposal) (item : MemoryItem)
    (event : IntegrationEvent) (reviewer reason key : Text) (audit : Option AuditEvent) (now : ℕ)
    (s : ProposalLedger) where
  abbrev pub accept : Result Accepted × ProposalLedger
  accept =
      accept_proposal_with_memory text_of_id proposal item event reviewer reason key audit now s

  -- An accepted proposal is not accepted again, whatever the item and the key are.
  accept-unchanged :
      {current : MemoryProposal}
      → get_proposal proposal.tenant_id proposal.id s ≡ some current
      → current.status ≡ accepted
      → accept.1 ≡ s
  unfolding accept_proposal_with_memory
  accept-unchanged {current} h a =
      let scoped : ScopedKey = (item.workspace_id, key) in
      let live : (current.status == rejected) ≡ false = rw a refl in
      let done : (current.status == accepted) ≡ true = rw a refl in
      elim (Option-cases (Dict.get (item.tenant_id, scoped) s.memory.idempotency)) [
        | inr (id, e) ↦
            rw (h, accept_proposal_with_memory, live, accept_proposal_with_memory, e) refl
        | inl e ↦
            rw (h, accept_proposal_with_memory, live, accept_proposal_with_memory, e, done) refl
      ]

  -- What a call that creates a memory has found and written.
  accept-created :
      {r : MemoryProposal} {i : MemoryItem}
      → accept.0 ≡ ok (r, i, true)
      → (current : MemoryProposal) × (get_proposal proposal.tenant_id proposal.id s ≡ some current)
        × (accept
            ≡ commit_accept text_of_id current item event reviewer reason
                (item.workspace_id, key)
                audit
                now
                s)
  unfolding accept_proposal_with_memory
  accept-created {r} {i} h =
      let scoped : ScopedKey = (item.workspace_id, key) in
      elim (Option-cases (get_proposal proposal.tenant_id proposal.id s)) [
        | inl e ↦ absurd (ground (arith, h, e))
        | inr (current, e) ↦ elim (Bool-cases (current.status == rejected)) [
          | inl f ↦ absurd (ground (arith, h, e, f))
          | inr f ↦ elim (Option-cases (Dict.get (item.tenant_id, scoped) s.memory.idempotency)) [
            | inr (id, g) ↦
                absurd
                  (replay_created current id s.memory {r = r} {i = i} (ground (arith, h, e, f, g)))
            | inl g ↦ elim (Bool-cases (current.status == accepted)) [
              | inl k ↦ absurd (
                  find_created text_of_id current s.memory {r = r} {i = i}
                    (ground (arith, h, e, f, g, k)))
              | inr k ↦ (current, e, ground (arith, e, f, g, k))
            ]
          ]
        ]
      ]

  -- What the ledger holds after the writes.
  abbrev Settled : ProposalLedger → Type 0
  Settled after =
      (done : MemoryProposal) × (get_proposal proposal.tenant_id proposal.id after ≡ some done)
      × (done.status ≡ accepted)
      × (Dict.get item.id after.memory.items ≡ some item)

  commit_accept-Settled :
      (current : MemoryProposal)
      → current.id ≡ proposal.id
      → current.tenant_id ≡ proposal.tenant_id
      → Settled
          (commit_accept text_of_id current item event reviewer reason
            (item.workspace_id, key)
            audit
            now
            s).1
  unfolding commit_accept reviewed_proposal
  commit_accept-Settled current named tenant = (
    _,
    get-put_proposal proposal.tenant_id proposal.id current.id _ s _ tenant named,
    refl,
    ap (Dict.get item.id) (items-after event audit _) ∙ get-put_self item.id item s.memory.items,
  )

  -- After a call that creates a memory, the proposal is accepted and the memory is stored.
  pub accept-Settled :
      {r : MemoryProposal} {i : MemoryItem}
      → AreKeyed s
      → accept.0 ≡ ok (r, i, true)
      → Settled accept.1
  accept-Settled {r} {i} keyed h =
      let (current, e, c) = accept-created {r = r} {i = i} h in
      let (at, tenant) = found_proposal proposal.tenant_id proposal.id s e in
      let named : current.id ≡ proposal.id =
        All-get (λ e. e.1.id ≡ e.0) proposal.id s.proposals keyed at in
      subst (λ a. Settled a.1) (sym c) (commit_accept-Settled current named tenant)

-- In a ledger with each proposal under its identity: once a call has accepted a proposal and
-- created its memory, no other acceptance of that proposal, for whatever item and under whatever
-- key, changes the ledger.
pub accept_once :
    (text_of_id : ℕ → Text) (proposal : MemoryProposal) (item item' : MemoryItem)
    (event event' : IntegrationEvent) (reviewer reviewer' reason reason' key key' : Text)
    (audit audit' : Option AuditEvent) (now now' : ℕ) (s : ProposalLedger) {r : MemoryProposal}
    {i : MemoryItem}
    → AreKeyed s
    → (accept text_of_id proposal item event reviewer reason key audit now s).0 ≡ ok (r, i, true)
    → let after = (accept text_of_id proposal item event reviewer reason key audit now s).1 in
      (accept text_of_id proposal item' event' reviewer' reason' key' audit' now' after).1 ≡ after
accept_once text_of_id proposal item item' event event' reviewer reviewer' reason reason' key key'
      audit audit' now now' s {r} {i} keyed h =
    let after = (accept text_of_id proposal item event reviewer reason key audit now s).1 in
    let (done, at, status, _) =
      accept-Settled text_of_id proposal item event reviewer reason key audit now s {r = r} {i = i}
        keyed h in
    accept-unchanged text_of_id proposal item' event' reviewer' reason' key' audit' now' after at
      status

-- If a rejection has read a proposal that was not accepted and an acceptance that creates its
-- memory comes in between, the rejection still goes through: the proposal is rejected, and the
-- memory stays.
pub reject_race :
    (text_of_id : ℕ → Text) (proposal : MemoryProposal) (item : MemoryItem)
    (event : IntegrationEvent) (reviewer reviewer' reason reason' key : Text)
    (audit audit' : Option AuditEvent) (now now' : ℕ) (s : ProposalLedger) {r : MemoryProposal}
    {i : MemoryItem}
    → AreKeyed s
    → (proposal.status == accepted) ≡ false
    → (accept text_of_id proposal item event reviewer reason key audit now s).0 ≡ ok (r, i, true)
    → let after = (accept text_of_id proposal item event reviewer reason key audit now s).1 in
      let last = (reject_after text_of_id proposal reviewer' reason' audit' now' after).1 in
      (get_proposal proposal.tenant_id proposal.id last
        ≡ some (reviewed_proposal proposal rejected reviewer' reason' proposal.metadata now'))
      × (Dict.get item.id last.memory.items ≡ some item)
reject_race text_of_id proposal item event reviewer reviewer' reason reason' key audit audit' now
      now' s {r} {i} keyed live h =
    let after = (accept text_of_id proposal item event reviewer reason key audit now s).1 in
    let (done, at, status, there) =
      accept-Settled text_of_id proposal item event reviewer reason key audit now s {r = r} {i = i}
        keyed h in
    reject_after-writes text_of_id proposal reviewer' reason' audit' now' after live at there
