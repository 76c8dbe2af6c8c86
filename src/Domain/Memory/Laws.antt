-- ===== src/Domain/Memory/Laws.antt =====
-- Proofs on `MemoryItem` of domain/models.py: its checks, its period and its revisions.
use universal_agent_memory.Prelude.{
  ℕ, ◌+◌, ◌≤◌, ◌<◌, ◌≡◌, sym, ap, ◌∙◌, ◌↔◌, true, false, not, ◌&&◌, ◌||◌, Option, none, some, arith,
  Score, pos, negsuc, in_unit, all, ◌==◌,
}
use universal_agent_memory.Text.{Text, is_space, is_blank, is_blank-eq-all}
use universal_agent_memory.Domain.Errors.{ok, raise_if-eq-ok}
use universal_agent_memory.Domain.Kinds.{
  MemoryScope, MemoryStatus, MemoryLayer, core, private, thread, team, workspace, organization,
  pinned, active, stale, deprecated, disputed, hypothesis, rejected, archived, layer_eq, scope_eq,
  status_eq, layer_beq_iff,
}
use universal_agent_memory.Domain.Memory.{
  MemoryItem, post_init, is_valid_at, supersede, is_empty_period, is_none, or_else, before_start,
  after_end,
}
use mathlib.Core.Path.{subst}

abbrev pub InUnit : Score → Type 0
InUnit (pos n) = n ≤ 1000000
InUnit (negsuc n) = ⊥

abbrev pub Before : Option ℕ → Option ℕ → Type 0
Before (some from) (some to) = from < to
Before _ _ = Unit

abbrev pub Given : Option ℕ → Type 0
Given none = ⊥
Given (some n) = Unit

-- A thread's memory names its thread, and a private one its agent.
abbrev pub HasOwner : MemoryScope → Option ℕ → Option ℕ → Type 0
HasOwner thread thread_id agent_id = Given thread_id
HasOwner private thread_id agent_id = Given agent_id
HasOwner _ thread_id agent_id = Unit

-- A pinned memory is in the core layer.
abbrev pub IsPlaced : MemoryStatus → MemoryLayer → Type 0
IsPlaced pinned layer = layer ≡ core
IsPlaced _ layer = Unit

-- The cross-field conditions of the domain, each as a statement.
pub record IsWellFormed (m : MemoryItem) : Type 0 where
  pub has_text : all is_space m.text ≡ false
  pub importance : InUnit m.importance
  pub salience : InUnit m.salience
  pub confidence : InUnit m.confidence
  pub period : Before m.valid_from m.valid_to
  pub owner : HasOwner m.scope m.thread_id m.agent_id
  pub placed : IsPlaced m.status m.layer

in_unit-InUnit : (x : Score) → (in_unit x ≡ true) ↔ InUnit x
in_unit-InUnit (pos n) = ground arith
in_unit-InUnit (negsuc n) = ground arith

is_empty_period-Before : (a b : Option ℕ) → (is_empty_period a b ≡ false) ↔ Before a b
is_empty_period-Before none none = ground arith
is_empty_period-Before none (some b) = ground arith
is_empty_period-Before (some a) none = ground arith
is_empty_period-Before (some a) (some b) = ground arith

owner-HasOwner :
    (s : MemoryScope) (t a : Option ℕ)
    → (((s == thread && is_none t) ≡ false) × ((s == private && is_none a) ≡ false))
      ↔ HasOwner s t a
owner-HasOwner thread none a = ground arith
owner-HasOwner thread (some t) a = ground arith
owner-HasOwner private t none = ground arith
owner-HasOwner private t (some a) = ground arith
owner-HasOwner team t a = ground arith
owner-HasOwner workspace t a = ground arith
owner-HasOwner organization t a = ground arith

pinned-IsPlaced :
    (s : MemoryStatus) (l : MemoryLayer) → ((s == pinned && not (l == core)) ≡ false) ↔ IsPlaced s l
pinned-IsPlaced pinned l = ground (arith, layer_beq_iff l core)
pinned-IsPlaced active l = ground arith
pinned-IsPlaced stale l = ground arith
pinned-IsPlaced deprecated l = ground arith
pinned-IsPlaced disputed l = ground arith
pinned-IsPlaced hypothesis l = ground arith
pinned-IsPlaced rejected l = ground arith
pinned-IsPlaced archived l = ground arith

post_init→IsWellFormed : (m n : MemoryItem) → post_init m ≡ ok n → IsWellFormed m × (m ≡ n)
unfolding post_init
post_init→IsWellFormed m n h =
    let (a, ha) = raise_if-eq-ok (is_blank m.text) _ _ h in
    let (b, hb) = raise_if-eq-ok (not (in_unit m.importance)) _ _ ha in
    let (c, hc) = raise_if-eq-ok (not (in_unit m.salience)) _ _ hb in
    let (d, hd) = raise_if-eq-ok (not (in_unit m.confidence)) _ _ hc in
    let (e, he) = raise_if-eq-ok (is_empty_period m.valid_from m.valid_to) _ _ hd in
    let (f, hf) = raise_if-eq-ok (m.scope == thread && is_none m.thread_id) _ _ he in
    let (g, hg) = raise_if-eq-ok (m.scope == private && is_none m.agent_id) _ _ hf in
    let (i, hi) = raise_if-eq-ok (m.status == pinned && not (m.layer == core)) _ _ hg in
    (
      record {
        has_text = sym (is_blank-eq-all m.text) ∙ a;
        importance = (in_unit-InUnit m.importance).0 (ground (arith, b));
        salience = (in_unit-InUnit m.salience).0 (ground (arith, c));
        confidence = (in_unit-InUnit m.confidence).0 (ground (arith, d));
        period = (is_empty_period-Before m.valid_from m.valid_to).0 e;
        owner = (owner-HasOwner m.scope m.thread_id m.agent_id).0 (f, g);
        placed = (pinned-IsPlaced m.status m.layer).0 i;
      },
      cc,
    )

IsWellFormed→post_init : (m : MemoryItem) → IsWellFormed m → post_init m ≡ ok m
unfolding post_init
IsWellFormed→post_init m w = rw (
  is_blank-eq-all m.text ∙ w.has_text,
  (in_unit-InUnit m.importance).1 w.importance,
  (in_unit-InUnit m.salience).1 w.salience,
  (in_unit-InUnit m.confidence).1 w.confidence,
  (is_empty_period-Before m.valid_from m.valid_to).1 w.period,
  ((owner-HasOwner m.scope m.thread_id m.agent_id).1 w.owner).0,
  ((owner-HasOwner m.scope m.thread_id m.agent_id).1 w.owner).1,
  (pinned-IsPlaced m.status m.layer).1 w.placed,
)

-- `__post_init__` accepts an item exactly when all cross-field conditions hold, and then returns
-- it as it is.
pub post_init_iff : (m n : MemoryItem) → (post_init m ≡ ok n) ↔ (IsWellFormed m × (m ≡ n))
post_init_iff m n = (post_init→IsWellFormed m n, λ w. IsWellFormed→post_init m w.0 ∙ ap ok w.1)

abbrev pub IsStarted : Option ℕ → ℕ → Type 0
IsStarted none moment = Unit
IsStarted (some from) moment = from ≤ moment

abbrev pub IsBeforeEnd : Option ℕ → ℕ → Type 0
IsBeforeEnd none moment = Unit
IsBeforeEnd (some to) moment = moment < to

-- `is_valid_at` holds exactly in the half-open period from `valid_from` to `valid_to`, an absent
-- end being no bound.
pub is_valid_at_iff :
    (m : MemoryItem) (moment : ℕ)
    → (is_valid_at m moment ≡ true)
      ↔ (IsStarted m.valid_from moment × IsBeforeEnd m.valid_to moment)
unfolding is_valid_at
is_valid_at_iff m moment = valid m.valid_from m.valid_to
  where
    valid :
        (a b : Option ℕ)
        → (not (before_start moment a || after_end moment b) ≡ true)
          ↔ (IsStarted a moment × IsBeforeEnd b moment)
    valid none none = ground arith
    valid none (some to) = ground arith
    valid (some from) none = ground arith
    valid (some from) (some to) = ground arith

-- What a revision keeps of its parent and what it sets.
pub record IsRevision (parent child : MemoryItem) (t : Text) : Type 0 where
  pub tenant : child.tenant_id ≡ parent.tenant_id
  pub workspace : child.workspace_id ≡ parent.workspace_id
  pub layer : child.layer ≡ parent.layer
  pub scope : child.scope ≡ parent.scope
  pub next_revision : child.revision ≡ parent.revision + 1
  pub link : child.supersedes_id ≡ some parent.id
  pub new_text : child.text ≡ t

-- A revision that `supersede` returns is well formed, is one above its parent, points to it, keeps
-- its tenant, workspace, layer and scope, and has the fresh identity and the new text.
pub supersede-IsRevision :
    (m : MemoryItem) (t : Text) (c : Option Score) (s : Option MemoryStatus) (new_id now : ℕ)
    {n : MemoryItem}
    → supersede m t c s new_id now ≡ ok n
    → IsWellFormed n × IsRevision m n t × (n.id ≡ new_id)
unfolding supersede
supersede-IsRevision m t c s new_id now {n} h =
    let (w, e) = post_init→IsWellFormed _ n h in
    (
      subst IsWellFormed e w,
      record {
        tenant = sym (ap (λ (x : MemoryItem). x.tenant_id) e);
        workspace = sym (ap (λ (x : MemoryItem). x.workspace_id) e);
        layer = sym (ap (λ (x : MemoryItem). x.layer) e);
        scope = sym (ap (λ (x : MemoryItem). x.scope) e);
        next_revision = sym (ap (λ (x : MemoryItem). x.revision) e);
        link = sym (ap (λ (x : MemoryItem). x.supersedes_id) e);
        new_text = sym (ap (λ (x : MemoryItem). x.text) e);
      },
      sym (ap (λ (x : MemoryItem). x.id) e),
    )

abbrev IsPlaceable : MemoryItem → Option MemoryStatus → Type 0
IsPlaceable m none = Unit
IsPlaceable m (some s) = IsPlaced s m.layer

abbrev InUnit? : Option Score → Type 0
InUnit? none = Unit
InUnit? (some x) = InUnit x

-- A well-formed item can be superseded by every text that is not blank, with a confidence in range
-- and no pinning outside the core layer.
pub supersede_total :
    (m : MemoryItem) (t : Text) (c : Option Score) (s : Option MemoryStatus) (new_id now : ℕ)
    → IsWellFormed m
    → all is_space t ≡ false
    → InUnit? c
    → IsPlaceable m s
    → (n : MemoryItem) × (supersede m t c s new_id now ≡ ok n)
unfolding supersede
supersede_total m t c s new_id now w ht hc hs = (
  _,
  IsWellFormed→post_init _ (record {
    has_text = ht;
    importance = w.importance;
    salience = w.salience;
    confidence = score c hc;
    period = w.period;
    owner = w.owner;
    placed = pinning s hs;
  }),
)
  where
    score : (o : Option Score) → InUnit? o → InUnit (or_else o m.confidence)
    score none h = w.confidence
    score (some x) h = h

    pinning : (o : Option MemoryStatus) → IsPlaceable m o → IsPlaced (or_else o m.status) m.layer
    pinning none h = w.placed
    pinning (some x) h = h
