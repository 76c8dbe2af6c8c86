-- ===== src/Outbox/Steps.antt =====
-- The statements of all workers on the outbox, and what they leave to the holder of a lease.
use universal_agent_memory.Prelude.{
  ℕ, some, ◌++◌, ◌+◌, ◌≤◌, ◌≡◌, ◌≢◌, refl, inl, inr, Bool, true, false, ◌&&◌, List, [], ◌∷◌, map,
  arith, eqb, eqb_iff, nat_eq, list_eq, option_eq, ◌==◌, Bool-cases, filter, any, take, All,
  All-take, All-append, ◌⊎◌, list_beq_iff,
}
use universal_agent_memory.Text.{Text}
use universal_agent_memory.Sorting.{sort, All-sort}
use universal_agent_memory.Outbox.{
  OutboxRow, is_due, not_later, due_ids, is_chosen, lease_row, claim_rows, claim_outbox, is_null,
  is_held, update_held, publish_row, release_row, mark_outbox_published, release_outbox,
}

abbrev pub is_among : List ℕ → ℕ → Bool
is_among ids i = any (λ j. j == i) ids

due_rows :
    (p q : OutboxRow → Bool) (rows : List OutboxRow)
    → All (λ r. (p r && q r) ≡ false) rows
    → All (λ r. p r ≡ false) (filter q rows)
due_rows p q [] h = tt
due_rows p q (r ∷ rows) h = elim (Bool-cases (q r)) [
  | inl e ↦ rw e (ground (arith, h.0, e), due_rows p q rows h.1)
  | inr e ↦ rw e (due_rows p q rows h.1)
]

ids_of_rows :
    (ids : List ℕ) (rows : List OutboxRow)
    → All (λ r. is_chosen ids r ≡ false) rows
    → All (λ i. is_among ids i ≡ false) (map (λ r. r.event.id) rows)
unfolding is_chosen
ids_of_rows ids [] h = tt
ids_of_rows ids (r ∷ rows) h = (h.0, ids_of_rows ids rows h.1)

pub apart :
    (ids ids' : List ℕ) (i : ℕ)
    → All (λ j. is_among ids j ≡ false) ids'
    → is_among ids' i ≡ true
    → is_among ids i ≡ false
apart ids [] i h k = absurd (cc)
apart ids (j ∷ js) i h k = elim (Bool-cases (eqb j i)) [
  | inl e ↦ let p : j ≡ i = (eqb_iff j i).0 e in rw p at h.0
  | inr e ↦ apart ids js i h.1 (ground (arith, k, e))
]

-- One statement of some worker, while the worker of a claim holds the events `ids` until `until`:
-- it does not release one of them itself.
pub data OutboxStep (ids : List ℕ) (worker : Text) (until : ℕ) (rows : List OutboxRow)
    : List OutboxRow → Type 0 where
  claims :
      (rival : Text) (limit lease now : ℕ)
      → now ≤ until
      → OutboxStep ids worker until rows (claim_outbox rival limit lease now rows).1
  marks :
      (event_id : ℕ) (rival : Text) (now : ℕ)
      → OutboxStep ids worker until rows (mark_outbox_published event_id rival now rows).1
  releases :
      (event_id : ℕ) (rival error : Text) (max_attempts delay now : ℕ)
      → (rival ≢ worker) ⊎ (is_among ids event_id ≡ false)
      → OutboxStep ids worker until rows
          (release_outbox event_id rival error max_attempts delay now rows).1
  inserts :
      (r : OutboxRow)
      → is_among ids r.event.id ≡ false
      → OutboxStep ids worker until rows (rows ++ r ∷ [])

pub data OutboxReach (ids : List ℕ) (worker : Text) (until : ℕ) (rows : List OutboxRow)
    : List OutboxRow → Type 0 where
  start : OutboxReach ids worker until rows rows
  step :
      {rows' rows'' : List OutboxRow}
      → OutboxReach ids worker until rows rows'
      → OutboxStep ids worker until rows' rows''
      → OutboxReach ids worker until rows rows''

-- A row of one of the events is published, or leased to the worker.
abbrev IsLeased : List ℕ → Text → ℕ → OutboxRow → Type 0
IsLeased ids worker until r =
    (is_among ids r.event.id ≡ false)
    ⊎ (is_null r.published_at ≡ false)
    ⊎ ((r.lease_owner ≡ some worker) × (r.lease_until ≡ some until))

pub claim_rows-IsLeased :
    (ids : List ℕ) (worker : Text) (lease now : ℕ) (rows : List OutboxRow)
    → All (IsLeased ids worker (now + lease)) (claim_rows ids worker lease now rows)
unfolding claim_rows
claim_rows-IsLeased ids worker lease now [] = tt
claim_rows-IsLeased ids worker lease now (r ∷ rows) = (
  elim (Bool-cases (is_among ids r.event.id)) [
    | inl e ↦ unfold is_chosen lease_row in rw e (inr (inr (refl, refl)))
    | inr e ↦ unfold is_chosen lease_row in rw e (inl e)
  ],
  claim_rows-IsLeased ids worker lease now rows,
)

module _ (ids : List ℕ) (worker : Text) (until : ℕ) where
  leased_not_due :
      (later : ℕ) (rows : List OutboxRow)
      → later ≤ until
      → All (IsLeased ids worker until) rows
      → All (λ r. (is_chosen ids r && is_due later r) ≡ false) rows
  leased_not_due later [] h w = tt
  leased_not_due later (r ∷ rows) h w = (row w.0, leased_not_due later rows h w.1)
    where
      row : IsLeased ids worker until r → (is_chosen ids r && is_due later r) ≡ false
      row (inl e) = unfold is_chosen in rw e
      row (inr (inl e)) = unfold is_due in ground (arith, e)
      row (inr (inr (_, e))) = unfold is_due in ground (arith, e, h)

  pub due_ids-apart :
      (later limit : ℕ) (rows : List OutboxRow)
      → later ≤ until
      → All (IsLeased ids worker until) rows
      → All (λ j. is_among ids j ≡ false) (due_ids later limit rows)
  unfolding due_ids
  due_ids-apart later limit rows h w =
      ids_of_rows ids (take limit (sort not_later (filter (is_due later) rows))) (
        All-take (λ r. is_chosen ids r ≡ false) limit _
          (All-sort not_later (λ r. is_chosen ids r ≡ false) (filter (is_due later) rows)
            (due_rows (is_chosen ids) (is_due later) rows (leased_not_due later rows h w))))

  rival_claim-IsLeased :
      (ids' : List ℕ) (rival : Text) (lease now : ℕ) (rows : List OutboxRow)
      → All (λ j. is_among ids j ≡ false) ids'
      → All (IsLeased ids worker until) rows
      → All (IsLeased ids worker until) (claim_rows ids' rival lease now rows)
  unfolding claim_rows
  rival_claim-IsLeased ids' rival lease now [] h w = tt
  rival_claim-IsLeased ids' rival lease now (r ∷ rows) h w = (
    elim (Bool-cases (is_among ids' r.event.id)) [
      | inl e ↦ unfold is_chosen lease_row in rw e (inl (apart ids ids' r.event.id h e))
      | inr e ↦ unfold is_chosen in rw e w.0
    ],
    rival_claim-IsLeased ids' rival lease now rows h w.1,
  )

  update_held-IsLeased :
      (event_id : ℕ) (rival : Text) (change : OutboxRow → OutboxRow)
      → ((r : OutboxRow)
          → is_held event_id rival r ≡ true
          → IsLeased ids worker until r
          → IsLeased ids worker until (change r))
      → (rows : List OutboxRow) → All (IsLeased ids worker until) rows
      → All (IsLeased ids worker until) (update_held event_id rival change rows)
  unfolding update_held
  update_held-IsLeased event_id rival change keeps [] w = tt
  update_held-IsLeased event_id rival change keeps (r ∷ rows) w = (
    elim (Bool-cases (is_held event_id rival r)) [
      | inl e ↦ rw e (keeps r e w.0)
      | inr e ↦ rw e w.0
    ],
    update_held-IsLeased event_id rival change keeps rows w.1,
  )

  release-IsLeased :
      (event_id : ℕ) (rival error : Text) (n d now : ℕ) (r : OutboxRow)
      → (rival ≢ worker) ⊎ (is_among ids event_id ≡ false)
      → is_held event_id rival r ≡ true
      → IsLeased ids worker until r
      → IsLeased ids worker until (release_row error n d now r)
  unfolding release_row
  release-IsLeased event_id rival error n d now r other held (inl e) = inl e
  release-IsLeased event_id rival error n d now r other held (inr (inl e)) = inr (inl e)
  release-IsLeased event_id rival error n d now r (inr free) held (inr (inr (owner, _))) =
      let same : r.event.id ≡ event_id = unfold is_held in ground (arith, held) in
      inl (rw same free)
  release-IsLeased event_id rival error n d now r (inl ne) held (inr (inr (owner, _))) =
      absurd (unfold is_held in ground (arith, held, owner, list_beq_iff worker rival, ne))

  OutboxStep-IsLeased :
      {rows rows' : List OutboxRow}
      → OutboxStep ids worker until rows rows'
      → All (IsLeased ids worker until) rows
      → All (IsLeased ids worker until) rows'
  unfolding claim_outbox mark_outbox_published release_outbox
  OutboxStep-IsLeased {rows} (claims rival limit lease now h) w =
      rival_claim-IsLeased (due_ids now limit rows) rival lease now rows
        (due_ids-apart now limit rows h w) w
  OutboxStep-IsLeased {rows} (marks event_id rival now) w =
      update_held-IsLeased event_id rival (publish_row now)
        (λ r held l. inr (inl (unfold publish_row in refl))) rows w
  OutboxStep-IsLeased {rows} (releases event_id rival error n d now other) w =
      update_held-IsLeased event_id rival (release_row error n d now)
        (λ r held l. release-IsLeased event_id rival error n d now r other held l) rows w
  OutboxStep-IsLeased {rows} (inserts r e) w =
      All-append (IsLeased ids worker until) rows (r ∷ []) w (inl e, tt)

pub OutboxReach-IsLeased :
    {ids : List ℕ} {worker : Text} {until : ℕ} {rows rows' : List OutboxRow}
    → OutboxReach ids worker until rows rows'
    → All (IsLeased ids worker until) rows
    → All (IsLeased ids worker until) rows'
OutboxReach-IsLeased start w = w
OutboxReach-IsLeased {ids} {worker} {until} (step before s) w =
    OutboxStep-IsLeased ids worker until s (OutboxReach-IsLeased before w)
